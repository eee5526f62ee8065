-- ===== src/Cdc/Pool.antt =====
-- shared/protocol/include/picosd/protocol/cdc_sector_buffer_pool.hpp: `CdcSectorBufferPool<Capacity>`.
-- The slots are a list of `Capacity` of them; a handle is an index into it, and `none` is
-- `kInvalidHandle`. A method that changes the pool returns it.
pub mod Reserve
pub mod Fill
pub mod Every
mod Tests
use pico_sdemu.Common.{
  ℕ, zero, suc, ◌+◌, Bool, true, false, not, ◌&&◌, ◌||◌, Option, none, some, List, [], ◌∷◌, map,
  if◌then◌else◌, ◌==◌, ltb, set, get_elem?, replicate,
}
use pico_sdemu.Common.Word.{u64}

pub data SlotState : Type 0 where
  free reading ready writing : SlotState

pub record Slot : Type 0 where
  pub block : List ℕ
  pub lba : ℕ
  pub generation : ℕ
  pub last_used : ℕ
  pub state : SlotState

pub record Pool : Type 0 where
  pub slots : List Slot
  pub next_use : ℕ

abbrev pub is_free : SlotState → Bool
is_free free = true
is_free s = false

abbrev pub is_reading : SlotState → Bool
is_reading reading = true
is_reading s = false

abbrev pub is_ready : SlotState → Bool
is_ready ready = true
is_ready s = false

abbrev pub is_writing : SlotState → Bool
is_writing writing = true
is_writing s = false

-- `Slot{}`.
abbrev pub empty_slot : Slot
empty_slot = record {
  block = replicate 512 0;
  lba = 0;
  generation = 0;
  last_used = 0;
  state = free;
}

unfoldable pub new_pool : ℕ → Pool
new_pool capacity = record { slots = replicate capacity empty_slot; next_use = 1 }

-- The candidate that the loop of `reserve` keeps: its index and its last use.
abbrev pub Candidate : Type 0
Candidate = Option (ℕ × ℕ)

abbrev pub is_older : Slot → Candidate → Bool
is_older s none = true
is_older s (some (index, last_used)) = ltb s.last_used last_used

abbrev pub better : ℕ → Slot → Candidate → Candidate
better index s candidate =
    if is_ready s.state && is_older s candidate then some (index, s.last_used) else candidate

-- The loop of `reserve` from `index` on.
unfoldable pub choose : ℕ → Candidate → List Slot → Candidate
choose index candidate [] = candidate
choose index candidate (s ∷ slots) =
    let later = choose (index + 1) (better index s candidate) slots in
    if is_free s.state then some (index, s.last_used) else later

unfoldable pub reserve : Pool → ℕ → ℕ → SlotState → Pool × Option ℕ
reserve p lba generation state = elim (choose 0 none p.slots) [
  | none ↦ (p, none)
  | some (handle, last_used) ↦ (
    record {
      slots = set p.slots handle (record empty_slot {
        lba = lba;
        generation = generation;
        last_used = p.next_use;
        state = state;
      });
      next_use = u64 (p.next_use + 1);
    },
    some handle,
  )
]

unfoldable pub reserve_read : Pool → ℕ → ℕ → Pool × Option ℕ
reserve_read p lba generation = reserve p lba generation reading

abbrev pub put_data : List ℕ → Slot → Slot
put_data block s = record s { block = block }

-- Apply a function to the slot of a handle.
unfoldable pub update : List Slot → ℕ → (Slot → Slot) → List Slot
update slots handle f = elim (get_elem? slots handle) [
  | none ↦ slots
  | some s ↦ set slots handle (f s)
]

unfoldable pub reserve_write : Pool → ℕ → ℕ → List ℕ → Pool × Option ℕ
reserve_write p lba generation block =
    let (p', handle) = reserve p lba generation writing in
    elim handle [
      | none ↦ (p', none)
      | some h ↦ (record p' { slots = update p'.slots h (put_data block) }, some h)
    ]

abbrev pub holds : Slot → ℕ → ℕ → Bool
holds s lba generation = s.lba == lba && s.generation == generation

-- `checked` for the state that the test tells.
unfoldable pub checked : Pool → ℕ → (SlotState → Bool) → ℕ → ℕ → Option Slot
checked p handle in_state lba generation = elim (get_elem? p.slots handle) [
  | none ↦ none
  | some s ↦ if in_state s.state && holds s lba generation then some s else none
]

unfoldable pub complete_read : Pool → ℕ → ℕ → ℕ → List ℕ → Pool × Bool
complete_read p handle lba generation block = elim (checked p handle is_reading lba generation) [
  | none ↦ (p, false)
  | some s ↦
      (record p { slots = set p.slots handle (record s { block = block; state = ready }) }, true)
]

unfoldable pub complete_write : Pool → ℕ → ℕ → ℕ → Pool × Bool
complete_write p handle lba generation = elim (checked p handle is_writing lba generation) [
  | none ↦ (p, false)
  | some s ↦ (record p { slots = set p.slots handle (record s { state = ready }) }, true)
]

abbrev pub is_copy : Slot → ℕ → ℕ → Bool
is_copy s lba generation = is_ready s.state && holds s lba generation

-- The loop of `find_ready` from `index` on.
unfoldable pub find_from : ℕ → List Slot → ℕ → ℕ → Option ℕ
find_from index [] lba generation = none
find_from index (s ∷ slots) lba generation =
    let later = find_from (index + 1) slots lba generation in
    if is_copy s lba generation then some index else later

unfoldable pub find_ready : Pool → ℕ → ℕ → Option ℕ
find_ready p lba generation = find_from 0 p.slots lba generation

unfoldable pub contains_in : List Slot → ℕ → ℕ → Bool
contains_in [] lba generation = false
contains_in (s ∷ slots) lba generation =
    (not (is_free s.state) && holds s lba generation) || contains_in slots lba generation

unfoldable pub contains : Pool → ℕ → ℕ → Bool
contains p lba generation = contains_in p.slots lba generation

unfoldable pub invalidate_ready : Pool → ℕ → ℕ → Pool
invalidate_ready p lba generation = record p {
  slots = map (λ (s : Slot). if is_copy s lba generation then empty_slot else s) p.slots;
}

abbrev pub touch : ℕ → Slot → Slot
touch now s = record s { last_used = now }

-- The block is what is stored through `output`.
unfoldable pub copy_ready : Pool → ℕ → ℕ → Pool × Option (List ℕ)
copy_ready p lba generation = elim (find_ready p lba generation) [
  | none ↦ (p, none)
  | some handle ↦ elim (get_elem? p.slots handle) [
    | none ↦ (p, none)
    | some s ↦ (
      record { slots = set p.slots handle (touch p.next_use s); next_use = u64 (p.next_use + 1) },
      some s.block,
    )
  ]
]

unfoldable pub get : Pool → ℕ → Option Slot
get p handle = elim (get_elem? p.slots handle) [
  | none ↦ none
  | some s ↦ if is_free s.state then none else some s
]

unfoldable pub release : Pool → ℕ → Pool × Bool
release p handle = elim (get p handle) [
  | none ↦ (p, false)
  | some s ↦ (record p { slots = set p.slots handle empty_slot }, true)
]

pub release_generation : Pool → ℕ → Pool
release_generation p generation = record p {
  slots =
      map
        (λ (s : Slot).
          if not (is_free s.state) && s.generation == generation then empty_slot else s)
        p.slots;
}

pub clear_pool : Pool → Pool
clear_pool p = record p { slots = map (λ (s : Slot). empty_slot) p.slots }

pub count_free : List Slot → ℕ
count_free [] = 0
count_free (s ∷ slots) = (if is_free s.state then 1 else 0) + count_free slots

pub available_slots : Pool → ℕ
available_slots p = count_free p.slots
