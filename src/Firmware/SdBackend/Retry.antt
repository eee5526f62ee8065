-- ===== src/Firmware/SdBackend/Retry.antt =====
-- The retry of a read that is pending.
use pico_sdemu.Common.{
  ℕ, ◌≡◌, refl, sym, ap, ◌∙◌, Bool, true, false, Option, none, some, List, arith, inl, inr, ◌⊎◌,
  Bool-cases, Option-cases, subst,
}
use pico_sdemu.Cdc.Numbers.{Text}
use pico_sdemu.Cdc.Text.{is_nonempty}
use pico_sdemu.Cdc.Client.{ClientError, Request, line, refused}
use pico_sdemu.Cdc.Pool.{Pool, find_ready}
use pico_sdemu.Cdc.Pool.Every.{copy_ready_missing, missing_when_not_copied}
use pico_sdemu.Cdc.Backend.Counters.{is_transfer}
use pico_sdemu.Cdc.Backend.{Backend, begin_read, copy_ready}
use pico_sdemu.Cdc.Backend.Traffic.{active_refuses_read, IsAwaited, begin_read-IsAwaited}
use pico_sdemu.Sd.Storage.{pending_read, failed_read}
use pico_sdemu.Sd.State.{fault, enter_fault}
use pico_sdemu.Sd.Model.{CardModel, retry_pending_read}
use pico_sdemu.Firmware.Service.{
  Cdc, Service, begin_cdc_read, copy_cdc_ready, sent_or_invalid, send_request,
}
use pico_sdemu.Firmware.SdBackend.{SdBackend, address_valid, request_read, read, cdc_storage}

module _ {D : Type 0} (C : Cdc D) where
  sent_keeps :
      (s : Service D) (r : D × Bool)
      → (sent_or_invalid C s r).1 ≡ true
      → (sent_or_invalid C s r).0.backend ≡ s.backend
  unfolding sent_or_invalid
  sent_keeps s (d, true) h = refl
  sent_keeps s (d, false) h = ground arith

  begun-IsAwaited :
      (s : Service D) (lba generation : ℕ)
      → find_ready s.backend.buffers lba generation ≡ none
      → (begin_cdc_read C s lba generation).1 ≡ true
      → IsAwaited (begin_cdc_read C s lba generation).0.backend lba generation
  unfolding begin_cdc_read
  begun-IsAwaited s lba generation m h =
      let b : Backend = (begin_read s.backend lba generation (C.time s.device)).0 in
      elim (Request-cases (begin_read s.backend lba generation (C.time s.device)).1) [
        | inl (e, r) ↦ absurd (clash e r)
        | inr (text, r) ↦
            let w : IsAwaited b lba generation =
              begin_read-IsAwaited s.backend lba generation _ text m r in
            elim (Bool-cases (is_nonempty text)) [
              | inr empty ↦ rw (r, empty, begin_cdc_read) w
              | inl full ↦
                  rw (r, full, begin_cdc_read)
                    (subst (λ (x : Backend). IsAwaited x lba generation)
                      (sym (
                        sent_keeps (record s { backend = b }) (send_request C s.device (line text))
                          (sym (opened text r full) ∙ h)))
                      w)
            ]
      ]
    where
      Request-cases :
          (r : Request) → ((e : ClientError) × (r ≡ refused e)) ⊎ ((text : Text) × (r ≡ line text))
      Request-cases (refused e) = inl (e, refl)
      Request-cases (line t) = inr (t, refl)

      clash :
          (e : ClientError)
          → (begin_read s.backend lba generation (C.time s.device)).1 ≡ refused e
          → ⊥
      clash e r = ground arith

      opened :
          (text : Text)
          → (begin_read s.backend lba generation (C.time s.device)).1 ≡ line text
          → is_nonempty text ≡ true
          → (begin_cdc_read C s lba generation).1
            ≡ (sent_or_invalid C
                (record s { backend = (begin_read s.backend lba generation (C.time s.device)).0 })
                (send_request C s.device (line text))).1
      opened text r full = rw (r, full, begin_cdc_read) refl

  begin_refused :
      (s : Service D) (lba generation : ℕ)
      → is_transfer s.backend.transfer ≡ true
      → (begin_cdc_read C s lba generation).1 ≡ false
  unfolding begin_cdc_read
  begin_refused s lba generation h =
      rw (active_refuses_read s.backend lba generation (C.time s.device) h, begin_cdc_read) refl

  request_refused :
      (b : SdBackend D) (lba : ℕ)
      → is_transfer b.service.backend.transfer ≡ true
      → (request_read C b lba).1 ≡ failed_read
  unfolding request_read
  request_refused b lba h = rw (begin_refused b.service lba b.generation h, request_read) refl

  not_cached :
      (s : Service D) (lba generation : ℕ)
      → find_ready s.backend.buffers lba generation ≡ none
      → (copy_cdc_ready C s lba generation).1 ≡ none
  unfolding copy_cdc_ready copy_ready
  not_cached s lba generation m =
      ap (λ (r : Pool × Option (List ℕ)). r.1)
        (copy_ready_missing s.backend.buffers lba generation m)

  copy_keeps_transfer :
      (s : Service D) (lba generation : ℕ)
      → (copy_cdc_ready C s lba generation).0.backend.transfer ≡ s.backend.transfer
  unfolding copy_cdc_ready copy_ready
  copy_keeps_transfer s lba generation = refl

  -- A block that is awaited cannot be asked for again.
  awaited_fails :
      (b : SdBackend D) (lba : ℕ)
      → IsAwaited b.service.backend lba b.generation
      → (read C b lba).1 ≡ failed_read
  unfolding read
  awaited_fails b lba v = elim (Bool-cases (address_valid b lba)) [
    | inr outside ↦ rw (outside, read) refl
    | inl inside ↦
        rw (inside, not_cached b.service lba b.generation v.missing, read)
          (request_refused (record b { service = (copy_cdc_ready C b.service lba b.generation).0 })
            lba (ap is_transfer (copy_keeps_transfer b.service lba b.generation) ∙ v.active))
  ]

  request-IsAwaited :
      (b : SdBackend D) (lba : ℕ)
      → find_ready b.service.backend.buffers lba b.generation ≡ none
      → (request_read C b lba).1 ≡ pending_read
      → IsAwaited (request_read C b lba).0.service.backend lba b.generation
  unfolding request_read
  request-IsAwaited b lba m h = elim (Bool-cases (begin_cdc_read C b.service lba b.generation).1) [
    | inl begun ↦ begun-IsAwaited b.service lba b.generation m begun
    | inr not_begun ↦ absurd (clash not_begun)
  ]
    where
      clash : (begin_cdc_read C b.service lba b.generation).1 ≡ false → ⊥
      clash n = ground arith

  copy_missing :
      (s : Service D) (lba generation : ℕ)
      → (copy_cdc_ready C s lba generation).1 ≡ none
      → find_ready (copy_cdc_ready C s lba generation).0.backend.buffers lba generation ≡ none
  unfolding copy_cdc_ready copy_ready
  copy_missing s lba generation h =
      let m : find_ready s.backend.buffers lba generation ≡ none =
        missing_when_not_copied s.backend.buffers lba generation h in
      ap (λ (r : Pool × Option (List ℕ)). find_ready r.0 lba generation)
        (copy_ready_missing s.backend.buffers lba generation m)
      ∙ m

  read-IsAwaited :
      (b : SdBackend D) (lba : ℕ)
      → (read C b lba).1 ≡ pending_read
      → IsAwaited (read C b lba).0.service.backend lba b.generation
        × ((read C b lba).0.generation ≡ b.generation)
  unfolding read
  read-IsAwaited b lba h = elim (Bool-cases (address_valid b lba)) [
    | inr outside ↦ absurd (not_outside outside)
    | inl inside ↦ elim (Option-cases (copy_cdc_ready C b.service lba b.generation).1) [
      | inr (block, cached) ↦ absurd (not_cached_yet inside block cached)
      | inl missing ↦
          rw (inside, missing, read)
            (
              request-IsAwaited
                  (record b { service = (copy_cdc_ready C b.service lba b.generation).0 }) lba
                  (copy_missing b.service lba b.generation missing)
                  (sym (opened inside missing) ∙ h),
              request_keeps
                  (record b { service = (copy_cdc_ready C b.service lba b.generation).0 }),
            )
    ]
  ]
    where
      not_outside : address_valid b lba ≡ false → ⊥
      not_outside o = ground arith

      not_cached_yet :
          address_valid b lba ≡ true
          → (block : List ℕ) → (copy_cdc_ready C b.service lba b.generation).1 ≡ some block
          → ⊥
      not_cached_yet inside block cached = ground arith

      opened :
          address_valid b lba ≡ true
          → (copy_cdc_ready C b.service lba b.generation).1 ≡ none
          → (read C b lba).1
            ≡ (request_read C
                (record b { service = (copy_cdc_ready C b.service lba b.generation).0 })
                lba).1
      opened inside missing = rw (inside, missing, read) refl

      request_keeps : (x : SdBackend D) → (request_read C x lba).0.generation ≡ x.generation
      request_keeps x = unfold request_read in refl

  -- A read that is pending fails when it is retried before any answer has come.
  pub pending_read_fails_again :
      (b : SdBackend D) (lba : ℕ)
      → (read C b lba).1 ≡ pending_read
      → (read C (read C b lba).0 lba).1 ≡ failed_read
  pending_read_fails_again b lba h =
      let (v, same) = read-IsAwaited b lba h in
      awaited_fails (read C b lba).0 lba
        (subst (λ (g : ℕ). IsAwaited (read C b lba).0.service.backend lba g) (sym same) v)

  -- The card's model over this storage: where its storage is what a pending read has left and nothing has
  -- been heard since, the retry that the model makes fails, and puts the card into its fault state.
  pub retried_read_faults :
      (m : CardModel (SdBackend D)) (b : SdBackend D)
      → m.pending_read_active ≡ true
      → (read C b m.pending_read_lba).1 ≡ pending_read
      → m.backend ≡ (read C b m.pending_read_lba).0
      → let (m', result) = retry_pending_read (cdc_storage C) m in
        (result ≡ failed_read) × (m'.state ≡ fault) × (m'.pending_read_active ≡ false)
  unfolding retry_pending_read enter_fault
  retried_read_faults m b active h left =
      let again : (read C m.backend m.pending_read_lba).1 ≡ failed_read =
        ap (λ (x : SdBackend D). (read C x m.pending_read_lba).1) left
        ∙ pending_read_fails_again b m.pending_read_lba h in
      rw (active, again, retry_pending_read) (refl, refl, refl)
