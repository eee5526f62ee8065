-- ===== src/Sd/Worker/Transmit.antt =====
-- What an answer of the engine does to the bytes that wait to be sent.
use pico_sdemu.Common.{
  ℕ, ◌+◌, ◌≤◌, ◌<◌, ◌≡◌, ◌≢◌, refl, sym, ap, ◌∙◌, true, false, List, [], ◌∷◌, ◌++◌, append-nil,
  append_assoc, arith, if◌then◌else◌, ltb, leb, leb→le, length, length-append, Bool-cases, inl, inr,
  subst,
}
use pico_sdemu.Queue.{Queue, try_push, available}
use pico_sdemu.Queue.Inv.{IsValid, push-IsValid, available_lem}
use pico_sdemu.Queue.Refine.{contents, push_refines, spec_push, length-contents}
use pico_sdemu.Sd.Engine.{EngineOutput}
use pico_sdemu.Sd.Worker.{Worker, push_all, enqueue_output}

push_with_room :
    (capacity : ℕ) (q : Queue ℕ) (byte : ℕ)
    → IsValid capacity q
    → q.size < capacity
    → (contents 0 capacity (try_push capacity q byte).0 ≡ contents 0 capacity q ++ (byte ∷ []))
      × ((try_push capacity q byte).1 ≡ true)
push_with_room capacity q byte v room =
    let both =
      push_refines 0 capacity q byte v
      ∙ spec_room (contents 0 capacity q) (rw (length-contents 0 capacity q) (omega arith)) in
    (ap (λ p. p.0) both, ap (λ p. p.1) both)
  where
    spec_room :
        (xs : List ℕ)
        → length xs ≢ capacity
        → spec_push capacity xs byte ≡ (xs ++ (byte ∷ []), true)
    spec_room xs ne = ground arith

size_grows :
    (capacity : ℕ) (q : Queue ℕ) (byte : ℕ)
    → IsValid capacity q
    → q.size < capacity
    → (try_push capacity q byte).0.size ≡ q.size + 1
size_grows capacity q byte v room =
    sym (length-contents 0 capacity (try_push capacity q byte).0)
    ∙ (ap length (push_with_room capacity q byte v room).0
        ∙ (length-append (contents 0 capacity q) (byte ∷ [])
            ∙ ap (λ n. n + 1) (length-contents 0 capacity q)))

-- Bytes that fit are all pushed, in order.
push_all_fits :
    (capacity : ℕ) (q : Queue ℕ) (bytes : List ℕ)
    → IsValid capacity q
    → q.size + length bytes ≤ capacity
    → (contents 0 capacity (push_all capacity q bytes).0 ≡ contents 0 capacity q ++ bytes)
      × ((push_all capacity q bytes).1 ≡ true)
      × IsValid capacity (push_all capacity q bytes).0
unfolding push_all
push_all_fits capacity q [] v room = (sym (append-nil (contents 0 capacity q)), refl, v)
push_all_fits capacity q (byte ∷ bytes) v room =
    let (one, pushed) = push_with_room capacity q byte v (omega arith) in
    let grown : (try_push capacity q byte).0.size ≡ q.size + 1 =
      size_grows capacity q byte v (omega arith) in
    let (all, done, valid) =
      push_all_fits capacity (try_push capacity q byte).0 bytes (push-IsValid capacity q byte v)
        (omega arith) in
    rw (pushed, push_all)
      (
        all
            ∙ (ap (λ (xs : List ℕ). xs ++ bytes) one
                ∙ append_assoc (contents 0 capacity q) (byte ∷ []) bytes),
        done,
        valid,
      )

module _ {S : Type 0} (receive_capacity transmit_capacity : ℕ) where
  enqueue_fits :
      (w : Worker S) (output : EngineOutput)
      → w.transmit.size + length output.bytes ≤ transmit_capacity
      → enqueue_output receive_capacity transmit_capacity w output ≡ (
        record w { transmit = (push_all transmit_capacity w.transmit output.bytes).0 },
        (push_all transmit_capacity w.transmit output.bytes).1,
      )
  unfolding enqueue_output
  enqueue_fits w output h = rw (room, enqueue_output) refl
    where
      room : ltb (available transmit_capacity w.transmit) (length output.bytes) ≡ false
      room = ground (arith, available_lem transmit_capacity w.transmit)

  enqueue_full :
      (w : Worker S) (output : EngineOutput)
      → w.transmit.size ≤ transmit_capacity
      → transmit_capacity < w.transmit.size + length output.bytes
      → enqueue_output receive_capacity transmit_capacity w output ≡ (
        record w {
          counters = record w.counters { transmit_overflows = w.counters.transmit_overflows + 1 };
        },
        false,
      )
  unfolding enqueue_output
  enqueue_full w output s h = rw (full, enqueue_output) refl
    where
      full : ltb (available transmit_capacity w.transmit) (length output.bytes) ≡ true
      full = ground (arith, available_lem transmit_capacity w.transmit)

  -- An answer of the engine is queued whole, behind the bytes that wait to be sent, or, where there is
  -- no room for all of it, not at all: the result tells which, and an overflow is counted. The queue
  -- stays valid.
  pub enqueue_whole_or_not :
      (w : Worker S) (output : EngineOutput)
      → IsValid transmit_capacity w.transmit
      → let waiting = contents 0 transmit_capacity w.transmit in
        let (w', queued) = enqueue_output receive_capacity transmit_capacity w output in
        let fits = leb (length waiting + length output.bytes) transmit_capacity in
        (queued ≡ fits)
        × (contents 0 transmit_capacity w'.transmit
            ≡ (if fits then waiting ++ output.bytes else waiting))
        × (w'.counters.transmit_overflows ≡ w.counters.transmit_overflows + (if fits then 0 else 1))
        × IsValid transmit_capacity w'.transmit
  enqueue_whole_or_not w output v =
      elim (Bool-cases (
        leb (length (contents 0 transmit_capacity w.transmit) + length output.bytes)
          transmit_capacity)) [
            | inl fits ↦
                let room : w.transmit.size + length output.bytes ≤ transmit_capacity =
                  subst (λ (n : ℕ). n + length output.bytes ≤ transmit_capacity)
                    (length-contents 0 transmit_capacity w.transmit) (leb→le _ _ fits) in
                let (all, done, valid) =
                  push_all_fits transmit_capacity w.transmit output.bytes v room in
                rw (fits, enqueue_fits w output room) (done, all, omega arith, valid)
            | inr full ↦
                let none_left : transmit_capacity < w.transmit.size + length output.bytes =
                  subst (λ (n : ℕ). transmit_capacity < n + length output.bytes)
                    (length-contents 0 transmit_capacity w.transmit) (too_many _ _ full) in
                rw (full, enqueue_full w output v.size_in none_left) (refl, refl, refl, v)
          ]
    where
      too_many : (a b : ℕ) → leb a b ≡ false → b < a
      too_many a b h = ground arith
