-- ===== src/Cdc/Backend/Traffic.antt =====
-- What the start of a read leaves behind, and what an active transfer refuses.
use pico_sdemu.Common.{
  ℕ, ◌≡◌, refl, sym, ap, ◌∙◌, true, false, none, some, arith, inl, inr, ◌⊎◌, Bool-cases,
  Option-cases,
}
use pico_sdemu.Cdc.Numbers.{Text}
use pico_sdemu.Cdc.Client.{ClientError, busy, Request, line, refused}
use pico_sdemu.Cdc.Operation.{retain_read_block}
use pico_sdemu.Cdc.Coordinator.{start}
use pico_sdemu.Cdc.Pool.{Pool, find_ready, reserve_read}
use pico_sdemu.Cdc.Pool.Every.{reserve_read-missing}
use pico_sdemu.Cdc.Backend.Counters.{is_transfer}
use pico_sdemu.Cdc.Backend.{
  Backend, begin_read, read_selected, start_read, select_generation, retain_transfer,
  ready_for_transfer,
}

unable : (b : Backend) → is_transfer b.transfer ≡ true → ready_for_transfer b ≡ false
unfolding ready_for_transfer
unable b h = ground arith

pub active_refuses_read :
    (b : Backend) (lba generation now : ℕ)
    → is_transfer b.transfer ≡ true
    → begin_read b lba generation now ≡ (b, refused busy)
unfolding begin_read
active_refuses_read b lba generation now h = rw (unable b h, begin_read) refl

-- In flight, and not cached.
pub record IsAwaited (b : Backend) (lba generation : ℕ) : Type 0 where
  pub active : is_transfer b.transfer ≡ true
  pub missing : find_ready b.buffers lba generation ≡ none

start_read-IsAwaited :
    (b : Backend) (h lba generation now : ℕ) (text : Text)
    → find_ready b.buffers lba generation ≡ none
    → (start_read b h lba generation now).1 ≡ line text
    → IsAwaited (start_read b h lba generation now).0 lba generation
unfolding start_read retain_transfer
start_read-IsAwaited b h lba generation now text m e =
    elim (Request-cases (start b.coordinator (retain_read_block lba) now b.client).2) [
      | inl (x, r) ↦ absurd (clash x r)
      | inr (x, r) ↦ rw (r, start_read) record { active = refl; missing = m }
    ]
  where
    Request-cases :
        (r : Request) → ((e : ClientError) × (r ≡ refused e)) ⊎ ((text : Text) × (r ≡ line text))
    Request-cases (refused e) = inl (e, refl)
    Request-cases (line t) = inr (t, refl)

    clash :
        (x : ClientError)
        → (start b.coordinator (retain_read_block lba) now b.client).2 ≡ refused x
        → ⊥
    clash x r = ground arith

read_selected-IsAwaited :
    (b : Backend) (lba generation now : ℕ) (text : Text)
    → find_ready b.buffers lba generation ≡ none
    → (read_selected b lba generation now).1 ≡ line text
    → IsAwaited (read_selected b lba generation now).0 lba generation
unfolding read_selected
read_selected-IsAwaited b lba generation now text m e =
    let p : Pool = (reserve_read b.buffers lba generation).0 in
    elim (Option-cases (reserve_read b.buffers lba generation).1) [
      | inl full ↦ absurd (none_read full)
      | inr (h, taken) ↦
          rw (m, taken, read_selected)
            (start_read-IsAwaited (record b { buffers = p }) h lba generation now text
              (reserve_read-missing b.buffers lba generation m) (sym (opened h taken) ∙ e))
    ]
  where
    none_read : (reserve_read b.buffers lba generation).1 ≡ none → ⊥
    none_read full = ground arith

    opened :
        (h : ℕ)
        → (reserve_read b.buffers lba generation).1 ≡ some h
        → (read_selected b lba generation now).1
          ≡ (start_read
              (record b { buffers = (reserve_read b.buffers lba generation).0 })
              h
              lba
              generation
              now).1
    opened h taken = rw (m, taken, read_selected) refl

selected_buffers :
    (b : Backend) (generation : ℕ) → (select_generation b generation).0.buffers ≡ b.buffers
unfolding select_generation
selected_buffers b generation = ground arith

pub begin_read-IsAwaited :
    (b : Backend) (lba generation now : ℕ) (text : Text)
    → find_ready b.buffers lba generation ≡ none
    → (begin_read b lba generation now).1 ≡ line text
    → IsAwaited (begin_read b lba generation now).0 lba generation
unfolding begin_read
begin_read-IsAwaited b lba generation now text m e = elim (Bool-cases (ready_for_transfer b)) [
  | inr z ↦ absurd (unable_refused z)
  | inl able ↦ elim (Bool-cases (select_generation b generation).1) [
    | inr z ↦ absurd (other_refused able z)
    | inl s ↦
        rw (able, s, begin_read)
          (read_selected-IsAwaited _ lba generation now text
            (ap (λ (p : Pool). find_ready p lba generation) (selected_buffers b generation) ∙ m)
            (sym (opened able s) ∙ e))
  ]
]
  where
    unable_refused : ready_for_transfer b ≡ false → ⊥
    unable_refused z = ground arith

    other_refused : ready_for_transfer b ≡ true → (select_generation b generation).1 ≡ false → ⊥
    other_refused able z = ground arith

    opened :
        ready_for_transfer b ≡ true
        → (select_generation b generation).1 ≡ true
        → (begin_read b lba generation now).1
          ≡ (read_selected (select_generation b generation).0 lba generation now).1
    opened able s = rw (able, s, begin_read) refl
