-- ===== src/Cdc/Pool/Reserve.antt =====
-- Which slot a reservation takes: one that is free, or else the ready one that was used the longest
-- time ago; never one of an operation in flight.
use pico_sdemu.Common.{
  ℕ, suc, ◌+◌, ◌≤◌, ◌≡◌, ◌≢◌, refl, sym, ap, ◌∙◌, ◌⊎◌, inl, inr, Bool, true, false, not, ◌&&◌,
  Option, none, some, List, [], ◌∷◌, arith, get_elem?, All, Bool-cases, Option-cases, ◌↔◌,
  get_elem?-set_ne, get_elem?-set, subst, if◌then◌else◌, ◌==◌,
}
use pico_sdemu.Cdc.Pool.{
  Pool, Slot, SlotState, Candidate, empty_slot, is_free, is_ready, better, is_older, choose,
  reserve,
}

-- Reading or writing.
abbrev pub is_in_flight : SlotState → Bool
is_in_flight s = not (is_free s) && not (is_ready s)

-- The slot at an index past `first` of a list that starts there.
data Takes (first k used : ℕ) (slots : List Slot) : Type 0 where
  takes :
      (n : ℕ) (s : Slot)
      → k ≡ first + n
      → get_elem? slots n ≡ some s
      → is_in_flight s.state ≡ false
      → s.last_used ≡ used
      → Takes first k used slots

shift-Takes :
    (first k used : ℕ) (s : Slot) (slots : List Slot)
    → Takes (first + 1) k used slots
    → Takes first k used (s ∷ slots)
shift-Takes first k used s slots (takes n t e g f u) = takes (suc n) t (omega arith) g f u

better-Takes :
    (first k used : ℕ) (candidate : Candidate) (s : Slot) (slots : List Slot)
    → better first s candidate ≡ some (k, used)
    → (candidate ≡ some (k, used)) ⊎ Takes first k used (s ∷ slots)
better-Takes first k used candidate s slots h =
    elim (Bool-cases (is_ready s.state && is_older s candidate)) [
      | inr kept ↦ inl (ground arith)
      | inl taken ↦ inr (takes 0 s (ground arith) refl (ground arith) (ground arith))
    ]

abbrev pub candidate_of : ℕ → Slot → Candidate
candidate_of index s = some (index, s.last_used)

free-Takes :
    (first k used : ℕ) (s : Slot) (slots : List Slot)
    → is_free s.state ≡ true
    → candidate_of first s ≡ some (k, used)
    → Takes first k used (s ∷ slots)
free-Takes first k used s slots f h = takes 0 s (ground arith) refl (ground arith) (ground arith)

choose_free :
    (first : ℕ) (candidate : Candidate) (s : Slot) (slots : List Slot)
    → is_free s.state ≡ true
    → choose first candidate (s ∷ slots) ≡ some (first, s.last_used)
unfolding choose
choose_free first candidate s slots f = rw (f, choose) refl

choose_later :
    (first : ℕ) (candidate : Candidate) (s : Slot) (slots : List Slot)
    → is_free s.state ≡ false
    → choose first candidate (s ∷ slots) ≡ choose (first + 1) (better first s candidate) slots
unfolding choose
choose_later first candidate s slots f = rw (f, choose) refl

choose-Takes :
    (first k used : ℕ) (candidate : Candidate) (slots : List Slot)
    → choose first candidate slots ≡ some (k, used)
    → (candidate ≡ some (k, used)) ⊎ Takes first k used slots
unfolding choose
choose-Takes first k used candidate [] h = inl h
choose-Takes first k used candidate (s ∷ slots) h = elim (Bool-cases (is_free s.state)) [
  | inl f ↦
      inr (free-Takes first k used s slots f (sym (choose_free first candidate s slots f) ∙ h))
  | inr f ↦
      elim (choose-Takes (first + 1) k used (better first s candidate) slots
        (sym (choose_later first candidate s slots f) ∙ h)) [
          | inl b ↦ better-Takes first k used candidate s slots b
          | inr t ↦ inr (shift-Takes first k used s slots t)
        ]
]

abbrev flight_of : Option Slot → Bool
flight_of none = false
flight_of (some s) = is_in_flight s.state

taken_apart :
    (slots : List Slot) (first k used handle : ℕ)
    → Takes first k used slots
    → first ≡ 0
    → flight_of (get_elem? slots handle) ≡ true
    → k ≢ handle
taken_apart slots first k used handle (takes n t e g f u) z h same =
    let at_handle : n ≡ handle = omega arith in
    let found : get_elem? slots handle ≡ some t =
      subst (λ (x : ℕ). get_elem? slots x ≡ some t) at_handle g in
    let both : true ≡ false = sym h ∙ (ap flight_of found ∙ f) in ground arith

chosen_apart :
    (slots : List Slot) (k used handle : ℕ)
    → choose 0 none slots ≡ some (k, used)
    → flight_of (get_elem? slots handle) ≡ true
    → k ≢ handle
chosen_apart slots k used handle e h = elim (choose-Takes 0 k used none slots e) [
  | inl absent ↦ ground arith
  | inr t ↦ taken_apart slots 0 k used handle t refl h
]

-- Whatever is reserved, a slot in flight stays as it is under its handle.
pub reserve_keeps_in_flight :
    (p : Pool) (lba generation : ℕ) (state : SlotState) (handle : ℕ) (s : Slot)
    → get_elem? p.slots handle ≡ some s
    → is_in_flight s.state ≡ true
    → get_elem? (reserve p lba generation state).0.slots handle ≡ some s
unfolding reserve
reserve_keeps_in_flight p lba generation state handle s g f =
    elim (Option-cases (choose 0 none p.slots)) [
      | inl e ↦ rw (e, reserve) g
      | inr (c, e) ↦
          rw (e, reserve)
            (get_elem?-set_ne p.slots c.0 handle _
                (chosen_apart p.slots c.0 c.1 handle e (ap flight_of g ∙ f))
              ∙ g)
    ]

-- In flight, or used no earlier.
abbrev pub IsNewer : ℕ → Slot → Type 0
IsNewer used s = (is_in_flight s.state ≡ true) ⊎ (used ≤ s.last_used)

abbrev BelowCandidate : ℕ → Candidate → Type 0
BelowCandidate used none = Unit {0}
BelowCandidate used (some c) = used ≤ c.1

better-IsNewer :
    (first used : ℕ) (candidate : Candidate) (s : Slot)
    → is_free s.state ≡ false
    → BelowCandidate used (better first s candidate)
    → BelowCandidate used candidate × IsNewer used s
better-IsNewer first used none s f b = ground arith
better-IsNewer first used (some c) s f b = ground arith

better-none :
    (first : ℕ) (candidate : Candidate) (s : Slot)
    → is_free s.state ≡ false
    → better first s candidate ≡ none
    → (candidate ≡ none) × (is_in_flight s.state ≡ true)
better-none first none s f b = ground arith
better-none first (some c) s f b = ground arith

every_slot_busy :
    (first : ℕ) (candidate : Candidate) (slots : List Slot)
    → choose first candidate slots ≡ none
    → (candidate ≡ none) × All (λ (s : Slot). is_in_flight s.state ≡ true) slots
unfolding choose
every_slot_busy first candidate [] h = (h, tt)
every_slot_busy first candidate (s ∷ slots) h = elim (Bool-cases (is_free s.state)) [
  | inl f ↦
      let clash : candidate_of first s ≡ none = sym (choose_free first candidate s slots f) ∙ h in
      ground arith
  | inr f ↦
      let (b, rest) =
        every_slot_busy (first + 1) (better first s candidate) slots
          (sym (choose_later first candidate s slots f) ∙ h) in
      let (absent, busy) = better-none first candidate s f b in (absent, (busy, rest))
]

choose_oldest :
    (first k used : ℕ) (candidate : Candidate) (slots : List Slot)
    → All (λ (s : Slot). is_free s.state ≡ false) slots
    → choose first candidate slots ≡ some (k, used)
    → BelowCandidate used candidate × All (IsNewer used) slots
unfolding choose
choose_oldest first k used none [] a h = ground arith
choose_oldest first k used (some c) [] a h = ground arith
choose_oldest first k used candidate (s ∷ slots) a h =
    let (below, rest) =
      choose_oldest (first + 1) k used (better first s candidate) slots a.1
        (sym (choose_later first candidate s slots a.0) ∙ h) in
    let (b, newer) = better-IsNewer first used candidate s a.0 below in (b, (newer, rest))

nothing_chosen :
    (first : ℕ) (slots : List Slot)
    → All (λ (s : Slot). is_in_flight s.state ≡ true) slots
    → choose first none slots ≡ none
unfolding choose
nothing_chosen first [] a = refl
nothing_chosen first (s ∷ slots) a = ground (arith, nothing_chosen (first + 1) slots a.1)

reserve-none :
    (p : Pool) (lba generation : ℕ) (state : SlotState)
    → (reserve p lba generation state).1 ≡ none
    → choose 0 none p.slots ≡ none
unfolding reserve
reserve-none p lba generation state h = ground arith

none_reserved :
    (p : Pool) (lba generation : ℕ) (state : SlotState)
    → choose 0 none p.slots ≡ none
    → (reserve p lba generation state).1 ≡ none
unfolding reserve
none_reserved p lba generation state h = ground arith

-- A reservation is refused exactly when every slot is in flight.
pub reserve_refused_iff :
    (p : Pool) (lba generation : ℕ) (state : SlotState)
    → ((reserve p lba generation state).1 ≡ none)
      ↔ All (λ (s : Slot). is_in_flight s.state ≡ true) p.slots
reserve_refused_iff p lba generation state = (
  λ h. (every_slot_busy 0 none p.slots (reserve-none p lba generation state h)).1,
  λ a. none_reserved p lba generation state (nothing_chosen 0 p.slots a),
)

-- The slot that a reservation replaces was ready, and every other slot is in flight or newer.
pub record IsVictim (slots : List Slot) (handle : ℕ) (s : Slot) : Type 0 where
  pub found : get_elem? slots handle ≡ some s
  pub settled : is_in_flight s.state ≡ false
  pub oldest : All (IsNewer s.last_used) slots

oldest-IsVictim :
    (slots : List Slot) (first k used handle : ℕ)
    → Takes first k used slots
    → first ≡ 0
    → All (IsNewer used) slots
    → k ≡ handle
    → (s : Slot) × IsVictim slots handle s
oldest-IsVictim slots first k used handle (takes n s e g f u) z newer same = (
  s,
  record {
    found = subst (λ (x : ℕ). get_elem? slots x ≡ some s) (omega arith) g;
    settled = f;
    oldest = subst (λ (x : ℕ). All (IsNewer x) slots) (sym u) newer;
  },
)

reserved_at :
    (p : Pool) (lba generation k used : ℕ) (state : SlotState)
    → choose 0 none p.slots ≡ some (k, used)
    → (reserve p lba generation state).1 ≡ some k
unfolding reserve
reserved_at p lba generation k used state e = rw (e, reserve) refl

reserve-some :
    (p : Pool) (lba generation handle : ℕ) (state : SlotState)
    → (reserve p lba generation state).1 ≡ some handle
    → (used : ℕ) × (choose 0 none p.slots ≡ some (handle, used))
reserve-some p lba generation handle state h = elim (Option-cases (choose 0 none p.slots)) [
  | inl e ↦ absurd (refused e)
  | inr (c, e) ↦ (c.1, e ∙ same c e)
]
  where
    refused : choose 0 none p.slots ≡ none → ⊥
    refused e = let n = none_reserved p lba generation state e in ground arith

    same : (c : ℕ × ℕ) → choose 0 none p.slots ≡ some c → some c ≡ some (handle, c.1)
    same c e =
        let both : some c.0 ≡ some handle =
          sym (reserved_at p lba generation c.0 c.1 state e) ∙ h in
        let at : c.0 ≡ handle = ground arith in ap (λ (x : ℕ). some (x, c.1)) at

-- The slot that a reservation makes.
abbrev pub reserved_slot : Pool → ℕ → ℕ → SlotState → Slot
reserved_slot p lba generation state = record {
  state = state;
  lba = lba;
  generation = generation;
  last_used = p.next_use;
  block = empty_slot.block;
}

-- A pool that is another with one slot replaced.
abbrev pub IsReplaced : Pool → Pool → ℕ → Slot → Type 0
IsReplaced p p' handle s =
    (index : ℕ)
    → get_elem? p'.slots index ≡ (if index == handle then some s else get_elem? p.slots index)

reserve-IsReplaced :
    (p : Pool) (lba generation handle used : ℕ) (state : SlotState) (s : Slot)
    → choose 0 none p.slots ≡ some (handle, used)
    → get_elem? p.slots handle ≡ some s
    → IsReplaced p (reserve p lba generation state).0 handle (reserved_slot p lba generation state)
unfolding reserve
reserve-IsReplaced p lba generation handle used state s e found index =
    rw (e, reserve) (get_elem?-set p.slots handle index _ s found)

-- With no slot free, a reservation that succeeds replaces a slot that is not in flight and that was
-- used the longest time ago: every slot is in flight or was used no earlier. Under its handle is then
-- the new slot, with the block's address, generation and state, and every other slot is as it was.
pub reserve_takes_oldest :
    (p : Pool) (lba generation handle : ℕ) (state : SlotState)
    → All (λ (s : Slot). is_free s.state ≡ false) p.slots
    → (reserve p lba generation state).1 ≡ some handle
    → ((s : Slot) × IsVictim p.slots handle s)
      × IsReplaced p
          (reserve p lba generation state).0
          handle
          (reserved_slot p lba generation state)
reserve_takes_oldest p lba generation handle state full h =
    let (used, e) = reserve-some p lba generation handle state h in
    elim (choose-Takes 0 handle used none p.slots e) [
      | inl absent ↦ ground arith
      | inr t ↦
          let (s, victim) =
            oldest-IsVictim p.slots 0 handle used handle t refl
              (choose_oldest 0 handle used none p.slots full e).1 refl in
          ((s, victim), reserve-IsReplaced p lba generation handle used state s e victim.found)
    ]
