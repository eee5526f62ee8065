-- ===== src/Cdc/Pool/Fill.antt =====
-- What is read into a reserved slot is what the pool then hands out.
use pico_sdemu.Common.{
  ℕ, zero, suc, ◌+◌, ◌<◌, ◌≡◌, refl, sym, ap, ◌∙◌, inl, inr, Bool, true, false, ◌&&◌, Option, none,
  some, List, [], ◌∷◌, arith, if◌then◌else◌, set, get_elem?, Bool-cases, Option-cases, length,
  get_elem?-set_self,
}
use pico_sdemu.Cdc.Pool.{
  Pool, Slot, SlotState, ready, is_copy, holds, find_from, find_ready, copy_ready, complete_read,
  checked, is_reading,
}

-- The first copy in a list, where its slots before `k` have none.
find-set :
    (slots : List Slot) (first k lba generation : ℕ) (s : Slot)
    → find_from first slots lba generation ≡ none
    → k < length slots
    → is_copy s lba generation ≡ true
    → find_from first (set slots k s) lba generation ≡ some (first + k)
unfolding find_from
find-set [] first k lba generation s h l c = absurd (omega arith)
find-set (t ∷ slots) first zero lba generation s h l c = ground arith
find-set (t ∷ slots) first (suc k) lba generation s h l c =
    ground (arith, find-set slots (first + 1) k lba generation s)

found-lt : (slots : List Slot) (k : ℕ) (s : Slot) → get_elem? slots k ≡ some s → k < length slots
found-lt [] k s h = ground arith
found-lt (t ∷ slots) zero s h = omega arith
found-lt (t ∷ slots) (suc k) s h = omega (arith, found-lt slots k s h)

checked_at :
    (p : Pool) (handle : ℕ) (in_state : SlotState → Bool) (lba generation : ℕ) (t : Slot)
    → get_elem? p.slots handle ≡ some t
    → checked p handle in_state lba generation
      ≡ (if in_state t.state && holds t lba generation then some t else none)
unfolding checked
checked_at p handle in_state lba generation t e = rw (e, checked) refl

abbrev holds_of : Option Slot → ℕ → ℕ → Bool
holds_of none lba generation = false
holds_of (some s) lba generation = holds s lba generation

test_passed :
    (t s : Slot) (b : Bool) (lba generation : ℕ)
    → (if b && holds t lba generation then some t else none) ≡ some s
    → (some t ≡ some s) × (holds t lba generation ≡ true)
test_passed t s false lba generation h = ground arith
test_passed t s true lba generation h = elim (Bool-cases (holds t lba generation)) [
  | inl e ↦ (sym (passes e) ∙ h, e)
  | inr e ↦ ground arith
]
  where
    passes :
        holds t lba generation ≡ true
        → (if true && holds t lba generation then some t else none) ≡ some t
    passes e = rw e refl

unchecked :
    (p : Pool) (handle : ℕ) (in_state : SlotState → Bool) (lba generation : ℕ)
    → get_elem? p.slots handle ≡ none
    → checked p handle in_state lba generation ≡ none
unfolding checked
unchecked p handle in_state lba generation e = rw (e, checked) refl

checked_slot :
    (p : Pool) (handle : ℕ) (in_state : SlotState → Bool) (lba generation : ℕ) (s : Slot)
    → checked p handle in_state lba generation ≡ some s
    → (get_elem? p.slots handle ≡ some s) × (holds s lba generation ≡ true)
checked_slot p handle in_state lba generation s h = elim (Option-cases (get_elem? p.slots handle)) [
  | inl e ↦ absurd (missing e)
  | inr (t, e) ↦
      let (same, held) =
        test_passed t s (in_state t.state) lba generation
          (sym (checked_at p handle in_state lba generation t e) ∙ h) in
      (e ∙ same, sym (ap (λ (o : Option Slot). holds_of o lba generation) same) ∙ held)
]
  where
    missing : get_elem? p.slots handle ≡ none → ⊥
    missing e = ground (arith, unchecked p handle in_state lba generation e)

copied :
    (q : Pool) (lba generation handle : ℕ) (t : Slot)
    → find_ready q lba generation ≡ some handle
    → get_elem? q.slots handle ≡ some t
    → (copy_ready q lba generation).1 ≡ some t.block
unfolding copy_ready
copied q lba generation handle t f g = rw (f, g, copy_ready) refl

completed :
    (p : Pool) (handle lba generation : ℕ) (block : List ℕ) (s : Slot)
    → checked p handle is_reading lba generation ≡ some s
    → complete_read p handle lba generation block
      ≡ (record p { slots = set p.slots handle (record s { block = block; state = ready }) }, true)
unfolding complete_read
completed p handle lba generation block s h = rw (h, complete_read) refl

-- Where nothing is cached for a block, completing its read makes the pool hand out exactly the bytes
-- read; the handle is the one reserved for it, of a slot that is reading that block.
pub complete_read-copy_ready :
    (p : Pool) (handle lba generation : ℕ) (block : List ℕ) (s : Slot)
    → checked p handle is_reading lba generation ≡ some s
    → find_ready p lba generation ≡ none
    → let (q, done) = complete_read p handle lba generation block in
      (done ≡ true) × ((copy_ready q lba generation).1 ≡ some block)
unfolding find_ready
complete_read-copy_ready p handle lba generation block s h n =
    let (at, same) = checked_slot p handle is_reading lba generation s h in
    let inside : handle < length p.slots = found-lt p.slots handle s at in
    let filled : Slot = record s { block = block; state = ready } in
    rw (completed p handle lba generation block s h) (
      refl,
      copied (record p { slots = set p.slots handle filled }) lba generation handle filled
          (find-set p.slots 0 handle lba generation filled n inside same ∙ ap some (omega arith))
          (get_elem?-set_self p.slots handle filled inside),
    )
