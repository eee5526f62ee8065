-- ===== src/Queue.antt =====
-- shared/protocol/include/picosd/protocol/fixed_ring_queue.hpp: `FixedRingQueue<T, Capacity>`.
-- The storage is a list of `Capacity` cells; a method that updates the queue returns it. Both
-- overloads of `try_push` store the value at the tail and are one function here. The functions
-- are shut outside this module and its children.
pub mod Inv
pub mod Refine
mod Tests
use pico_sdemu.Common.{
  ℕ, ◌+◌, ◌-◌, Bool, true, false, Option, none, some, List, if◌then◌else◌, ◌==◌, set, get_elem?,
  replicate,
}

pub record Queue {ℓ} (A : Type ℓ) : Type ℓ where
  pub values : List A
  pub head : ℕ
  pub tail : ℕ
  pub size : ℕ

module _ {ℓ} {A : Type ℓ} where
  -- A queue as declared: value-initialised storage.
  pub empty_queue : A → ℕ → Queue A
  empty_queue zero_value capacity = record {
    values = replicate capacity zero_value;
    head = 0;
    tail = 0;
    size = 0;
  }

  pub is_empty : Queue A → Bool
  is_empty q = q.size == 0

  pub clear : Queue A → Queue A
  clear q = record q { head = 0; tail = 0; size = 0 }

module _ (capacity : ℕ) where
  pub advance : ℕ → ℕ
  advance index = if (index + 1) == capacity then 0 else index + 1

  module _ {ℓ} {A : Type ℓ} where
    pub is_full : Queue A → Bool
    is_full q = q.size == capacity

    pub available : Queue A → ℕ
    available q = capacity - q.size

    pub try_push : Queue A → A → Queue A × Bool
    unfolding is_full
    try_push q value = if is_full q then (q, false) else (
      record q { values = set q.values q.tail value; tail = advance q.tail; size = q.size + 1 },
      true,
    )

    -- The option is what goes through `output`; it is written only when the result is true.
    pub try_pop : Queue A → Queue A × Option A
    unfolding is_empty
    try_pop q =
        if is_empty q
        then (q, none)
        else (record q { head = advance q.head; size = q.size - 1 }, get_elem? q.values q.head)
