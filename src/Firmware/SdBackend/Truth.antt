-- ===== src/Firmware/SdBackend/Truth.antt =====
-- What the card reads and has written, beside the medium that the host has mounted.
use pico_sdemu.Common.{
  ℕ, ◌≡◌, ◌≢◌, refl, sym, ap, ◌∙◌, true, false, none, some, List, arith, inl, inr, Bool-cases,
  Option-cases, eq_bytes, eq_bytes_sound,
}
use pico_sdemu.Cdc.Backend.{Backend, new_backend, copy_ready}
use pico_sdemu.Cdc.Backend.Medium.{Disk, Reach}
use pico_sdemu.Cdc.Backend.Medium.Cache.{copy_ready_is_medium}
use pico_sdemu.Sd.Storage.{complete_read, complete}
use pico_sdemu.Firmware.Service.{
  Cdc, Service, copy_cdc_ready, request_timeout_us, initial_retry_backoff_us,
  maximum_retry_backoff_us,
}
use pico_sdemu.Firmware.SdBackend.{
  SdBackend, address_valid, read, write, request_read, first_write, retry_write,
}

-- The backend as the service makes it, and what it and the medium have become.
abbrev pub Serves : ℕ → Disk → Backend → Disk → Type 0
Serves capacity mounted b disk =
    Reach
      (new_backend capacity request_timeout_us 2 initial_retry_backoff_us maximum_retry_backoff_us)
      mounted b disk

module _ {D : Type 0} (C : Cdc D) where
  copied :
      (s : Service D) (lba generation : ℕ) (block : List ℕ)
      → (copy_cdc_ready C s lba generation).1 ≡ some block
      → (copy_ready s.backend lba generation).1 ≡ some block
  unfolding copy_cdc_ready
  copied s lba generation block h = h

  request_not_complete :
      (b : SdBackend D) (lba : ℕ) (block : List ℕ) → (request_read C b lba).1 ≢ complete_read block
  unfolding request_read
  request_not_complete b lba block h = ground arith

  read_copies :
      (b : SdBackend D) (lba : ℕ) (block : List ℕ)
      → (read C b lba).1 ≡ complete_read block
      → (address_valid b lba ≡ true)
        × ((copy_cdc_ready C b.service lba b.generation).1 ≡ some block)
  unfolding read
  read_copies b lba block h = elim (Bool-cases (address_valid b lba)) [
    | inr outside ↦ absurd (not_outside outside)
    | inl inside ↦ elim (Option-cases (copy_cdc_ready C b.service lba b.generation).1) [
      | inr (other, cached) ↦ (inside, cached ∙ ground arith)
      | inl missing ↦ absurd (not_missing inside missing)
    ]
  ]
    where
      not_outside : address_valid b lba ≡ false → ⊥
      not_outside o = ground arith

      not_missing :
          address_valid b lba ≡ true → (copy_cdc_ready C b.service lba b.generation).1 ≡ none → ⊥
      not_missing inside missing =
          request_not_complete
            (record b { service = (copy_cdc_ready C b.service lba b.generation).0 }) lba block
            (sym (rw (inside, missing, read) refl) ∙ h)

  retry_copies :
      (b : SdBackend D) (lba : ℕ) (input : List ℕ)
      → (retry_write C b lba input).1 ≡ complete
      → (copy_cdc_ready C b.service lba b.generation).1 ≡ some input
  unfolding retry_write
  retry_copies b lba input h = elim (Option-cases (copy_cdc_ready C b.service lba b.generation).1) [
    | inl missing ↦ ground arith
    | inr (block, cached) ↦ elim (Bool-cases (eq_bytes block input)) [
      | inl same ↦ cached ∙ ap some (eq_bytes_sound block input same)
      | inr differs ↦ ground arith
    ]
  ]

  first_not_complete :
      (b : SdBackend D) (lba : ℕ) (input : List ℕ) → (first_write C b lba input).1 ≢ complete
  unfolding first_write
  first_not_complete b lba input h = ground arith

  write_copies :
      (b : SdBackend D) (lba : ℕ) (input : List ℕ)
      → (write C b lba input).1 ≡ complete
      → (copy_cdc_ready C b.service lba b.generation).1 ≡ some input
  unfolding write
  write_copies b lba input h =
      ground (arith, retry_copies b lba input, first_not_complete b lba input)

  -- What the card gets is what the medium holds: however the backend was used since it was made, with a
  -- truthful host, a read that completes gives the block that the medium holds at the address, for the
  -- generation that the card knows.
  pub read_is_medium :
      (capacity : ℕ) (mounted disk : Disk) (b : SdBackend D) (lba : ℕ) (block : List ℕ)
      → Serves capacity mounted b.service.backend disk
      → (read C b lba).1 ≡ complete_read block
      → (block ≡ disk lba) × (b.service.backend.media_generation ≡ b.generation)
  read_is_medium capacity mounted disk b lba block r h =
      let (inside, cached) = read_copies b lba block h in
      let (e, has, current) =
        copy_ready_is_medium capacity request_timeout_us 2 initial_retry_backoff_us
          maximum_retry_backoff_us mounted disk b.service.backend lba b.generation block r
          (copied b.service lba b.generation block cached) in
      (e, current)

  -- A write is complete only when the medium holds it: with a truthful host, where the storage says that
  -- a write is complete, the medium has the block at the address.
  pub write_is_stored :
      (capacity : ℕ) (mounted disk : Disk) (b : SdBackend D) (lba : ℕ) (input : List ℕ)
      → Serves capacity mounted b.service.backend disk
      → (write C b lba input).1 ≡ complete
      → disk lba ≡ input
  write_is_stored capacity mounted disk b lba input r h =
      let (e, has, current) =
        copy_ready_is_medium capacity request_timeout_us 2 initial_retry_backoff_us
          maximum_retry_backoff_us mounted disk b.service.backend lba b.generation input r
          (copied b.service lba b.generation input (write_copies b lba input h)) in
      sym e
