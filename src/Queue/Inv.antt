-- ===== src/Queue/Inv.antt =====
-- The representation invariant of the ring queue: indices and size stay in range and the tail is
-- the head moved on by the size.
use pico_sdemu.Common.{
  ℕ, ◌+◌, ◌-◌, ◌≤◌, ◌<◌, ◌≡◌, refl, arith, length, length-set, length-replicate, if◌then◌else◌, ltb,
}
use pico_sdemu.Queue.{Queue, empty_queue, clear, available, advance, try_push, try_pop}

-- The index `n` places after `h`, for `h < capacity` and `n ≤ capacity`.
abbrev pub shift : ℕ → ℕ → ℕ → ℕ
shift capacity h n = if ltb (h + n) capacity then h + n else h + n - capacity

module _ {ℓ} (capacity : ℕ) {A : Type ℓ} where
  pub record IsValid (q : Queue A) : Type 0 where
    pub storage : length q.values ≡ capacity
    pub head_in : q.head < capacity
    pub size_in : q.size ≤ capacity
    pub tail_at : q.tail ≡ shift capacity q.head q.size

  pub empty-IsValid : (z : A) → 0 < capacity → IsValid (empty_queue z capacity)
  unfolding empty_queue
  empty-IsValid z h = record {
    storage = length-replicate capacity z;
    head_in = h;
    size_in = omega arith;
    tail_at = ground arith;
  }

  pub clear-IsValid : (q : Queue A) → IsValid q → IsValid (clear q)
  unfolding clear
  clear-IsValid q v = record {
    storage = v.storage;
    head_in = omega (arith, v.head_in);
    size_in = omega arith;
    tail_at = ground (arith, v.head_in);
  }

  pub push-IsValid : (q : Queue A) (x : A) → IsValid q → IsValid (try_push capacity q x).0
  unfolding try_push advance
  push-IsValid q x v = ground (arith, length-set q.values q.tail x)

  pub pop-IsValid : (q : Queue A) → IsValid q → IsValid (try_pop capacity q).0
  unfolding try_pop advance
  pop-IsValid q v = ground arith

  pub available_lem : (q : Queue A) → available capacity q ≡ capacity - q.size
  unfolding available
  available_lem q = refl
