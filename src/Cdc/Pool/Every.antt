-- ===== src/Cdc/Pool/Every.antt =====
-- A property of every slot, through the operations of the pool.
use pico_sdemu.Common.{
  ℕ, zero, suc, ◌+◌, ◌≡◌, refl, sym, ap, ◌∙◌, inl, inr, Bool, true, false, Option, none, some, List,
  [], ◌∷◌, arith, if◌then◌else◌, set, get_elem?, All, map, Bool-cases, Option-cases, subst,
  replicate,
}
use pico_sdemu.Cdc.Pool.{
  Pool, Slot, SlotState, empty_slot, reading, ready, writing, is_reading, is_writing, is_copy,
  choose, reserve, reserve_read, reserve_write, update, put_data, checked, complete_read,
  complete_write, find_from, find_ready, copy_ready, touch, invalidate_ready, get, release,
  clear_pool, new_pool,
}

checked_passes :
    (p : Pool) (h lba generation : ℕ) (in_state : SlotState → Bool) (s : Slot)
    → checked p h in_state lba generation ≡ some s
    → (get_elem? p.slots h ≡ some s) × (in_state s.state ≡ true) × (s.lba ≡ lba)
unfolding checked
checked_passes p h lba generation in_state s e = elim (Option-cases (get_elem? p.slots h)) [
  | inl q ↦ ground arith
  | inr (t, q) ↦ elim (Bool-cases (in_state t.state)) [
    | inl x ↦ ground arith
    | inr x ↦ ground arith
  ]
]

reading_state : (s : SlotState) → is_reading s ≡ true → s ≡ reading
reading_state s h = ground arith

writing_state : (s : SlotState) → is_writing s ≡ true → s ≡ writing
writing_state s h = ground arith

checked_reading :
    (p : Pool) (h lba generation : ℕ) (s : Slot)
    → checked p h is_reading lba generation ≡ some s
    → (get_elem? p.slots h ≡ some s) × (s.state ≡ reading) × (s.lba ≡ lba)
checked_reading p h lba generation s e =
    let (at, state, same) = checked_passes p h lba generation is_reading s e in
    (at, reading_state s.state state, same)

checked_writing :
    (p : Pool) (h lba generation : ℕ) (s : Slot)
    → checked p h is_writing lba generation ≡ some s
    → (get_elem? p.slots h ≡ some s) × (s.state ≡ writing) × (s.lba ≡ lba)
checked_writing p h lba generation s e =
    let (at, state, same) = checked_passes p h lba generation is_writing s e in
    (at, writing_state s.state state, same)

set_found :
    (slots : List Slot) (i : ℕ) (new s : Slot) → get_elem? (set slots i new) i ≡ some s → new ≡ s
set_found [] i new s h = ground arith
set_found (t ∷ slots) zero new s h = ground arith
set_found (t ∷ slots) (suc i) new s h = set_found slots i new s h

reserved_state :
    (p : Pool) (lba generation h : ℕ) (state : SlotState) (s : Slot)
    → (reserve p lba generation state).1 ≡ some h
    → get_elem? (reserve p lba generation state).0.slots h ≡ some s
    → s.state ≡ state
unfolding reserve
reserved_state p lba generation h state s e found = elim (Option-cases (choose 0 none p.slots)) [
  | inl q ↦ ground arith
  | inr (c, q) ↦
      let at : c.0 ≡ h = ground arith in
      sym (ap (λ (x : Slot). x.state) (set_found p.slots c.0 _ s (placed c q at)))
]
  where
    opened :
        (c : ℕ × ℕ)
        → choose 0 none p.slots ≡ some c
        → c.0 ≡ h
        → get_elem? (reserve p lba generation state).0.slots h
          ≡ get_elem?
              (set p.slots h (record empty_slot {
                lba = lba;
                generation = generation;
                last_used = p.next_use;
                state = state;
              }))
              h
    opened c q at = rw (q, at, reserve) refl

    placed :
        (c : ℕ × ℕ)
        → choose 0 none p.slots ≡ some c
        → c.0 ≡ h
        → get_elem?
            (set p.slots c.0 (record empty_slot {
              lba = lba;
              generation = generation;
              last_used = p.next_use;
              state = state;
            }))
            c.0
          ≡ some s
    placed c q at = rw at (sym (opened c q at) ∙ found)

module _ (P : Slot → Type 0) where
  abbrev pub Every : Pool → Type 0
  Every p = All P p.slots

  pub All-set : (slots : List Slot) (i : ℕ) (s : Slot) → All P slots → P s → All P (set slots i s)
  All-set [] i s a h = tt
  All-set (t ∷ slots) zero s a h = (h, a.1)
  All-set (t ∷ slots) (suc i) s a h = (a.0, All-set slots i s a.1 h)

  pub All-get_elem? :
      (slots : List Slot) (i : ℕ) (s : Slot) → All P slots → get_elem? slots i ≡ some s → P s
  All-get_elem? [] i s a h = ground arith
  All-get_elem? (t ∷ slots) zero s a h = subst P (ground arith) a.0
  All-get_elem? (t ∷ slots) (suc i) s a h = All-get_elem? slots i s a.1 h

  All-map :
      (slots : List Slot) (f : Slot → Slot)
      → ((s : Slot) → P s → P (f s))
      → All P slots
      → All P (map f slots)
  All-map [] f h a = tt
  All-map (t ∷ slots) f h a = (h t a.0, All-map slots f h a.1)

  All-clear : (slots : List Slot) → P empty_slot → All P (map (λ (s : Slot). empty_slot) slots)
  All-clear [] e = tt
  All-clear (t ∷ slots) e = (e, All-clear slots e)

  pub clear_pool-Every : (p : Pool) → P empty_slot → Every (clear_pool p)
  unfolding clear_pool
  clear_pool-Every p e = All-clear p.slots e

  pub reserve-Every :
      (p : Pool) (lba generation : ℕ) (state : SlotState)
      → Every p
      → P (record empty_slot {
        lba = lba;
        generation = generation;
        last_used = p.next_use;
        state = state;
      })
      → Every (reserve p lba generation state).0
  unfolding reserve
  reserve-Every p lba generation state a h = elim (Option-cases (choose 0 none p.slots)) [
    | inl e ↦ rw (e, reserve) a
    | inr (c, e) ↦ rw (e, reserve) (All-set p.slots c.0 _ a h)
  ]

  pub reserve_read-Every :
      (p : Pool) (lba generation : ℕ)
      → Every p
      → P (record empty_slot {
        lba = lba;
        generation = generation;
        last_used = p.next_use;
        state = reading;
      })
      → Every (reserve_read p lba generation).0
  unfolding reserve_read
  reserve_read-Every p lba generation a h = reserve-Every p lba generation reading a h

  pub update-Every :
      (slots : List Slot) (h : ℕ) (f : Slot → Slot)
      → ((s : Slot) → get_elem? slots h ≡ some s → P s → P (f s))
      → All P slots
      → All P (update slots h f)
  unfolding update
  update-Every slots h f keeps a = elim (Option-cases (get_elem? slots h)) [
    | inl e ↦ rw (e, update) a
    | inr (s, e) ↦
        rw (e, update) (All-set slots h (f s) a (keeps s e (All-get_elem? slots h s a e)))
  ]

  pub release-Every : (p : Pool) (h : ℕ) → P empty_slot → Every p → Every (release p h).0
  unfolding release
  release-Every p h e a = elim (Option-cases (get p h)) [
    | inl q ↦ rw (q, release) a
    | inr (s, q) ↦ rw (q, release) (All-set p.slots h empty_slot a e)
  ]

  pub reserve_write-Every :
      (p : Pool) (lba generation : ℕ) (block : List ℕ)
      → ((s : Slot) → s.state ≡ writing → P s → P (put_data block s))
      → Every p
      → P (record empty_slot {
        lba = lba;
        generation = generation;
        last_used = p.next_use;
        state = writing;
      })
      → Every (reserve_write p lba generation block).0
  unfolding reserve_write
  reserve_write-Every p lba generation block keeps a new =
      let b : Every (reserve p lba generation writing).0 =
        reserve-Every p lba generation writing a new in
      elim (Option-cases (reserve p lba generation writing).1) [
        | inl e ↦ rw (e, reserve_write) b
        | inr (h, e) ↦
            rw (e, reserve_write)
              (update-Every _ h (put_data block)
                (λ (s : Slot) at y. keeps s (reserved_state p lba generation h writing s e at) y) b)
      ]

  -- What a completed read needs of the slot that is filled.
  pub complete_read-Every :
      (p : Pool) (h lba generation : ℕ) (block : List ℕ)
      → ((s : Slot)
          → P s
          → s.state ≡ reading
          → s.lba ≡ lba
          → P (record s { block = block; state = ready }))
      → Every p
      → Every (complete_read p h lba generation block).0
  unfolding complete_read
  complete_read-Every p h lba generation block fills a =
      elim (Option-cases (checked p h is_reading lba generation)) [
        | inl e ↦ rw (e, complete_read) a
        | inr (s, e) ↦
            let (at, state, same) = checked_reading p h lba generation s e in
            rw (e, complete_read)
              (All-set p.slots h _ a (fills s (All-get_elem? p.slots h s a at) state same))
      ]

  -- What a completed write needs of the slot at the handle.
  pub complete_write-Every :
      (p : Pool) (h lba generation : ℕ)
      → ((s : Slot)
          → P s
          → get_elem? p.slots h ≡ some s
          → s.state ≡ writing
          → s.lba ≡ lba
          → P (record s { state = ready }))
      → Every p
      → Every (complete_write p h lba generation).0
  unfolding complete_write
  complete_write-Every p h lba generation fills a =
      elim (Option-cases (checked p h is_writing lba generation)) [
        | inl e ↦ rw (e, complete_write) a
        | inr (s, e) ↦
            let (at, state, same) = checked_writing p h lba generation s e in
            rw (e, complete_write)
              (All-set p.slots h _ a (fills s (All-get_elem? p.slots h s a at) at state same))
      ]

  pub copy_ready-Every :
      (p : Pool) (lba generation : ℕ)
      → ((s : Slot) (now : ℕ) → P s → P (touch now s))
      → Every p
      → Every (copy_ready p lba generation).0
  unfolding copy_ready
  copy_ready-Every p lba generation keeps a = elim (Option-cases (find_ready p lba generation)) [
    | inl e ↦ rw (e, copy_ready) a
    | inr (h, e) ↦ elim (Option-cases (get_elem? p.slots h)) [
      | inl q ↦ rw (e, q, copy_ready) a
      | inr (s, q) ↦
          rw (e, q, copy_ready)
            (All-set p.slots h _ a (keeps s p.next_use (All-get_elem? p.slots h s a q)))
    ]
  ]

-- After the ready copies of a block are dropped, a property may say that there is none.
pub invalidate_ready-All :
    (P Q : Slot → Type 0) (slots : List Slot) (lba generation : ℕ)
    → Q empty_slot
    → ((s : Slot) → P s → is_copy s lba generation ≡ false → Q s)
    → All P slots
    → All Q (map (λ (s : Slot). if is_copy s lba generation then empty_slot else s) slots)
invalidate_ready-All P Q [] lba generation e keeps a = tt
invalidate_ready-All P Q (s ∷ slots) lba generation e keeps a = (
  elim (Bool-cases (is_copy s lba generation)) [
    | inl c ↦ subst Q (sym (dropped c)) e
    | inr c ↦ subst Q (sym (kept c)) (keeps s a.0 c)
  ],
  invalidate_ready-All P Q slots lba generation e keeps a.1,
)
  where
    dropped :
        is_copy s lba generation ≡ true
        → (if is_copy s lba generation then empty_slot else s) ≡ empty_slot
    dropped c = ap (λ (b : Bool). if b then empty_slot else s) c

    kept :
        is_copy s lba generation ≡ false → (if is_copy s lba generation then empty_slot else s) ≡ s
    kept c = ap (λ (b : Bool). if b then empty_slot else s) c

pub invalidate_ready-Every :
    (P Q : Slot → Type 0) (p : Pool) (lba generation : ℕ)
    → Q empty_slot
    → ((s : Slot) → P s → is_copy s lba generation ≡ false → Q s)
    → All P p.slots
    → All Q (invalidate_ready p lba generation).slots
unfolding invalidate_ready
invalidate_ready-Every P Q p lba generation e keeps a =
    invalidate_ready-All P Q p.slots lba generation e keeps a

-- Every slot of a new pool is empty.
pub new_pool-All : (P : Slot → Type 0) (n : ℕ) → P empty_slot → All P (new_pool n).slots
unfolding new_pool
new_pool-All P n e = replicated P n e
  where
    replicated : (P : Slot → Type 0) (n : ℕ) → P empty_slot → All P (replicate n empty_slot)
    replicated P zero e = tt
    replicated P (suc n) e = (e, replicated P n e)

-- What is copied out is the block of a ready slot of that block and generation.
found_copy :
    (slots : List Slot) (first h lba generation : ℕ)
    → find_from first slots lba generation ≡ some h
    → (n : ℕ) × (s : Slot) × (h ≡ first + n)
      × (get_elem? slots n ≡ some s)
      × (is_copy s lba generation ≡ true)
unfolding find_from
found_copy [] first h lba generation e = ground arith
found_copy (t ∷ slots) first h lba generation e = elim (Bool-cases (is_copy t lba generation)) [
  | inl c ↦ (0, t, here c, refl, c)
  | inr c ↦
      let (n, s, at, found, copy) = found_copy slots (first + 1) h lba generation (later c) in
      (suc n, s, omega arith, found, copy)
]
  where
    here : is_copy t lba generation ≡ true → h ≡ first + 0
    here c = ground arith

    later : is_copy t lba generation ≡ false → find_from (first + 1) slots lba generation ≡ some h
    later c = ground arith

pub copy_ready-found :
    (p : Pool) (lba generation : ℕ) (block : List ℕ)
    → (copy_ready p lba generation).1 ≡ some block
    → (n : ℕ) × (s : Slot) × (get_elem? p.slots n ≡ some s)
      × (is_copy s lba generation ≡ true)
      × (s.block ≡ block)
unfolding copy_ready find_ready
copy_ready-found p lba generation block e =
    elim (Option-cases (find_from 0 p.slots lba generation)) [
      | inl q ↦ ground arith
      | inr (h, q) ↦
          let (n, s, at, found, copy) = found_copy p.slots 0 h lba generation q in
          let there : get_elem? p.slots h ≡ some s =
            subst (λ (x : ℕ). get_elem? p.slots x ≡ some s) (omega arith) found in
          (n, s, found, copy, ground arith)
    ]

pub All-weaken :
    (P Q : Slot → Type 0) (slots : List Slot) → ((s : Slot) → P s → Q s) → All P slots → All Q slots
All-weaken P Q [] f a = tt
All-weaken P Q (s ∷ slots) f a = (f s a.0, All-weaken P Q slots f a.1)

-- The slot at a handle, whatever it is, through the writes to it.
module _ (Q : Option Slot → Type 0) where
  set_at :
      (slots : List Slot) (h : ℕ) (s : Slot) → Q none → Q (some s) → Q (get_elem? (set slots h s) h)
  set_at [] h s n q = n
  set_at (t ∷ slots) zero s n q = q
  set_at (t ∷ slots) (suc h) s n q = set_at slots h s n q

  update_at :
      (slots : List Slot) (h : ℕ) (f : Slot → Slot)
      → Q none
      → ((s : Slot) → Q (some (f s)))
      → Q (get_elem? (update slots h f) h)
  unfolding update
  update_at slots h f n q = elim (Option-cases (get_elem? slots h)) [
    | inl e ↦ rw (e, update) (subst Q (sym e) n)
    | inr (s, e) ↦ rw (e, update) (set_at slots h (f s) n (q s))
  ]

  pub reserve_write_at :
      (p : Pool) (lba generation : ℕ) (block : List ℕ) (h : ℕ)
      → Q none
      → ((s : Slot) → Q (some (put_data block s)))
      → (reserve_write p lba generation block).1 ≡ some h
      → Q (get_elem? (reserve_write p lba generation block).0.slots h)
  unfolding reserve_write
  reserve_write_at p lba generation block h n q e =
      elim (Option-cases (reserve p lba generation writing).1) [
        | inl z ↦ ground arith
        | inr (i, z) ↦
            let at : i ≡ h = ground arith in
            rw (z, reserve_write) (rw at (update_at _ h (put_data block) n q))
      ]

  touched_at :
      (slots : List Slot) (i h now : ℕ) (s : Slot)
      → ((t : Slot) → Q (some t) → Q (some (touch now t)))
      → get_elem? slots i ≡ some s
      → Q (get_elem? slots h)
      → Q (get_elem? (set slots i (touch now s)) h)
  touched_at [] i h now s keeps e q = q
  touched_at (t ∷ slots) zero zero now s keeps e q =
      let same : t ≡ s = ground arith in
      subst (λ (x : Slot). Q (some (touch now x))) same (keeps t q)
  touched_at (t ∷ slots) zero (suc h) now s keeps e q = q
  touched_at (t ∷ slots) (suc i) zero now s keeps e q = q
  touched_at (t ∷ slots) (suc i) (suc h) now s keeps e q = touched_at slots i h now s keeps e q

  pub copy_ready_at :
      (p : Pool) (lba generation h : ℕ)
      → ((t : Slot) (now : ℕ) → Q (some t) → Q (some (touch now t)))
      → Q (get_elem? p.slots h)
      → Q (get_elem? (copy_ready p lba generation).0.slots h)
  unfolding copy_ready
  copy_ready_at p lba generation h keeps q = elim (Option-cases (find_ready p lba generation)) [
    | inl e ↦ rw (e, copy_ready) q
    | inr (i, e) ↦ elim (Option-cases (get_elem? p.slots i)) [
      | inl z ↦ rw (e, z, copy_ready) q
      | inr (s, z) ↦
          rw (e, z, copy_ready)
            (touched_at p.slots i h p.next_use s (λ (t : Slot) y. keeps t p.next_use y) z q)
    ]
  ]

  cleared_at :
      (slots : List Slot) (h : ℕ)
      → Q none
      → Q (some empty_slot)
      → Q (get_elem? (map (λ (s : Slot). empty_slot) slots) h)
  cleared_at [] h n e = n
  cleared_at (t ∷ slots) zero n e = e
  cleared_at (t ∷ slots) (suc h) n e = cleared_at slots h n e

  pub clear_pool_at :
      (p : Pool) (h : ℕ) → Q none → Q (some empty_slot) → Q (get_elem? (clear_pool p).slots h)
  unfolding clear_pool
  clear_pool_at p h n e = cleared_at p.slots h n e

-- No ready copy of a block.
abbrev pub NotCopy : ℕ → ℕ → Slot → Type 0
NotCopy lba generation s = is_copy s lba generation ≡ false

found_nowhere :
    (slots : List Slot) (first lba generation : ℕ)
    → find_from first slots lba generation ≡ none
    → All (NotCopy lba generation) slots
unfolding find_from
found_nowhere [] first lba generation h = tt
found_nowhere (s ∷ slots) first lba generation h = elim (Bool-cases (is_copy s lba generation)) [
  | inl c ↦ ground arith
  | inr c ↦ (c, found_nowhere slots (first + 1) lba generation (ground arith))
]

nowhere_found :
    (slots : List Slot) (first lba generation : ℕ)
    → All (NotCopy lba generation) slots
    → find_from first slots lba generation ≡ none
unfolding find_from
nowhere_found [] first lba generation a = refl
nowhere_found (s ∷ slots) first lba generation a =
    ground (arith, nowhere_found slots (first + 1) lba generation a.1)

pub reserve_read-missing :
    (p : Pool) (lba generation : ℕ)
    → find_ready p lba generation ≡ none
    → find_ready (reserve_read p lba generation).0 lba generation ≡ none
unfolding find_ready
reserve_read-missing p lba generation h = nowhere_found _ 0 lba generation (
    reserve_read-Every (NotCopy lba generation) p lba generation
      (found_nowhere p.slots 0 lba generation h) refl)

pub copy_ready_missing :
    (p : Pool) (lba generation : ℕ)
    → find_ready p lba generation ≡ none
    → (copy_ready p lba generation) ≡ (p, none)
unfolding copy_ready
copy_ready_missing p lba generation h = rw (h, copy_ready) refl

pub missing_when_not_copied :
    (p : Pool) (lba generation : ℕ)
    → (copy_ready p lba generation).1 ≡ none
    → find_ready p lba generation ≡ none
unfolding copy_ready find_ready
missing_when_not_copied p lba generation h =
    elim (Option-cases (find_from 0 p.slots lba generation)) [
      | inl q ↦ q
      | inr (i, q) ↦
          let (n, s, at, found, copy) = found_copy p.slots 0 i lba generation q in
          let there : get_elem? p.slots i ≡ some s =
            subst (λ (x : ℕ). get_elem? p.slots x ≡ some s) (omega arith) found in
          ground arith
    ]
