-- ===== src/Queue/Refine.antt =====
-- A valid ring queue behaves as the bounded FIFO of the values that it holds.
use pico_sdemu.Common.{
  ℕ, zero, suc, ◌-◌, ◌<◌, ◌≡◌, refl, ap, ap₂, ◌∙◌, Bool, true, false, Option, none, some, List, [],
  ◌∷◌, ◌++◌, arith, length, set, get_or, get_or-set_self, get_or-set_ne, get_elem?-eq-get_or,
  if◌then◌else◌, ◌==◌, ◌≢◌, Bool-cases, inl, inr, ==_iff,
}
use native.Mathlib.Numerals.{add-one}
use pico_sdemu.Queue.{Queue, empty_queue, clear, advance, try_push, try_pop}
use pico_sdemu.Queue.Inv.{IsValid, shift, push-IsValid, pop-IsValid, clear-IsValid, empty-IsValid}

-- The specification: a list, oldest first, of at most `capacity` values.
module _ {ℓ} {A : Type ℓ} where
  abbrev pub spec_push : ℕ → List A → A → List A × Bool
  spec_push capacity xs x = if length xs == capacity then (xs, false) else (xs ++ (x ∷ []), true)

  abbrev pub spec_pop : List A → List A × Option A
  spec_pop [] = ([], none)
  spec_pop (x ∷ xs) = (xs, some x)

module _ {ℓ} {A : Type ℓ} (default : A) (capacity : ℕ) where
  -- The `n` values from index `h` on, going round at `capacity`.
  abbrev pub window : List A → ℕ → ℕ → List A
  window values h zero = []
  window values h (suc n) = get_or values h default ∷ window values (advance capacity h) n

  length-window : (vs : List A) (h n : ℕ) → length (window vs h n) ≡ n
  length-window vs h zero = refl
  length-window vs h (suc n) = ap suc (length-window vs (advance capacity h) n)

  window-pos :
      (vs : List A) (h n : ℕ)
      → n ≢ 0
      → window vs h n ≡ get_or vs h default ∷ window vs (advance capacity h) (n - 1)
  window-pos vs h zero p = absurd (p refl)
  window-pos vs h (suc n) p = ap (λ k. window vs h (suc k)) (omega arith)

  abbrev pub contents : Queue A → List A
  contents q = window q.values q.head q.size

  pub length-contents : (q : Queue A) → length (contents q) ≡ q.size
  length-contents q = length-window q.values q.head q.size

  shift-advance :
      (h n : ℕ)
      → h < capacity
      → n < capacity
      → (advance capacity h < capacity)
        × (suc n < capacity → shift capacity h (suc n) ≢ h)
        × (shift capacity h (suc n) ≡ shift capacity (advance capacity h) n)
        × (shift capacity h n < capacity)
  unfolding advance
  shift-advance h n hh hn = ground arith

  -- Writing just past a window extends it by that value.
  window-set :
      (vs : List A) (x : A) (n h i : ℕ)
      → length vs ≡ capacity
      → h < capacity
      → n < capacity
      → i ≡ shift capacity h n
      → window (set vs i x) h (suc n) ≡ window vs h n ++ (x ∷ [])
  window-set vs x zero h i l hh hn e =
      let e' : i ≡ h = ground arith in
      rw e' (ap (λ y. y ∷ []) (get_or-set_self vs h x default (omega arith)))
  window-set vs x (suc n) h i l hh hn e =
      let (a, ne, s, _) = shift-advance h n hh (omega arith) in
      ap₂ ◌∷◌ (get_or-set_ne vs i h x default (rw e (ne hn)))
        (window-set vs x n (advance capacity h) i l a (omega arith) (e ∙ s))

  -- On a valid queue `try_push` answers as the bounded FIFO does and leaves the FIFO's contents.
  pub push_refines :
      (q : Queue A) (x : A)
      → IsValid capacity q
      → let (q', ok) = try_push capacity q x in
        (contents q', ok) ≡ spec_push capacity (contents q) x
  unfolding try_push
  push_refines q x v = elim (Bool-cases (q.size == capacity)) [
    | inl full ↦ rw (length-contents q, full)
    | inr room ↦
        rw (length-contents q, room, add-one)
          (ap (λ xs. (xs, true))
            (window-set q.values x q.size q.head q.tail v.storage v.head_in
              (ground (arith, v.size_in)) v.tail_at))
  ]

  -- On a valid queue `try_pop` hands out the oldest value, and fails exactly when there is none.
  pub pop_refines :
      (q : Queue A)
      → IsValid capacity q
      → let (q', out) = try_pop capacity q in (contents q', out) ≡ spec_pop (contents q)
  unfolding try_pop
  pop_refines q v = elim (Bool-cases (q.size == 0)) [
    | inl none_left ↦ let e : q.size ≡ 0 = (==_iff q.size 0).0 none_left in rw (none_left, e)
    | inr some_left ↦ rw (
      some_left,
      window-pos q.values q.head q.size (λ e. ground arith),
      get_elem?-eq-get_or q.values q.head default (omega (arith, v.storage, v.head_in)),
    )
  ]

pub data Op {ℓ} (A : Type ℓ) : Type ℓ where
  put : A → Op A
  get drop_all : Op A

-- What a client sees of each call.
pub data Reply {ℓ} (A : Type ℓ) : Type ℓ where
  pushed : Bool → Reply A
  popped : Option A → Reply A
  cleared : Reply A

module _ {ℓ} {A : Type ℓ} (capacity : ℕ) where
  unfoldable pub run : Queue A → List (Op A) → List (Reply A)
  unfolding try_push try_pop clear
  run q [] = []
  run q (put x ∷ ops) = let (q', ok) = try_push capacity q x in pushed ok ∷ run q' ops
  run q (get ∷ ops) = let (q', out) = try_pop capacity q in popped out ∷ run q' ops
  run q (drop_all ∷ ops) = cleared ∷ run (clear q) ops

  unfoldable pub spec_run : List A → List (Op A) → List (Reply A)
  spec_run xs [] = []
  spec_run xs (put x ∷ ops) =
      let (xs', ok) = spec_push capacity xs x in pushed ok ∷ spec_run xs' ops
  spec_run xs (get ∷ ops) = let (xs', out) = spec_pop xs in popped out ∷ spec_run xs' ops
  spec_run xs (drop_all ∷ ops) = cleared ∷ spec_run [] ops

module _ {ℓ} {A : Type ℓ} (default : A) (capacity : ℕ) where
  contents-clear : (q : Queue A) → contents default capacity (clear q) ≡ []
  unfolding clear
  contents-clear q = refl

  run_from_refines :
      (ops : List (Op A)) (q : Queue A)
      → IsValid capacity q
      → run capacity q ops ≡ spec_run capacity (contents default capacity q) ops
  unfolding run spec_run
  run_from_refines [] q v = refl
  run_from_refines (put x ∷ ops) q v = rw (
    run_from_refines ops (try_push capacity q x).0 (push-IsValid capacity q x v),
    ← push_refines default capacity q x v,
  )
  run_from_refines (get ∷ ops) q v = rw (
    run_from_refines ops (try_pop capacity q).0 (pop-IsValid capacity q v),
    ← pop_refines default capacity q v,
  )
  run_from_refines (drop_all ∷ ops) q v =
      rw (run_from_refines ops (clear q) (clear-IsValid capacity q v), contents-clear q)

  -- From a new queue of positive capacity, any sequence of pushes, pops and clears is answered exactly as
  -- by an empty bounded FIFO of that capacity.
  pub run_refines :
      (ops : List (Op A))
      → 0 < capacity
      → run capacity (empty_queue default capacity) ops ≡ spec_run capacity [] ops
  unfolding empty_queue
  run_refines ops h =
      run_from_refines ops (empty_queue default capacity) (empty-IsValid capacity default h)
