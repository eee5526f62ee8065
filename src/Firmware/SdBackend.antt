-- ===== src/Firmware/SdBackend.antt =====
-- firmware/src/cdc_sd_backend.cpp: `CdcSdBackend`, the card's storage over the service. The service,
-- which the code reaches through functions, is part of the state. `size_t` has 32 bits there.
pub mod Retry
pub mod Truth
use pico_sdemu.Common.{
  ℕ, Bool, true, false, not, ◌&&◌, ◌||◌, Option, none, some, List, [], if◌then◌else◌, ltb, ◌==◌,
  eq_bytes,
}
use pico_sdemu.Sd.Storage.{
  BlockBackend, Block, IoResult, complete, pending, failed, ReadResult, complete_read, pending_read,
  failed_read, default_media_present, default_flush,
}
use pico_sdemu.Firmware.Service.{
  Cdc, Service, cdc_media_ready, begin_cdc_read, begin_cdc_write, copy_cdc_ready,
}

abbrev pub size_max : ℕ
size_max = 4294967295

pub record SdBackend (D : Type 0) : Type 0 where
  pub service : Service D
  pub blocks : ℕ
  pub generation : ℕ
  pub present : Bool
  pub read_only : Bool
  pub write_pending : Bool
  pub pending_write_lba : ℕ
  pub pending_write_data : Block

unfoldable pub new_sd_backend : {D : Type 0} → Service D → SdBackend D
new_sd_backend service = record {
  service = service;
  blocks = 0;
  generation = 0;
  present = false;
  read_only = true;
  write_pending = false;
  pending_write_lba = 0;
  pending_write_data = [];
}

unfoldable pub refresh_media : {D : Type 0} → SdBackend D → SdBackend D
refresh_media b =
    let media = b.service.media_info in
    let ready = cdc_media_ready b.service in
    let same_medium = b.present && ready && media.present && b.generation == media.generation in
    let present = ready && media.present in
    record b {
      present = present;
      blocks = if present then media.blocks else 0;
      generation = if present then media.generation else 0;
      read_only = not present || media.read_only;
      write_pending = if same_medium then b.write_pending else false;
    }

unfoldable pub block_count : {D : Type 0} → SdBackend D → ℕ
block_count b = if ltb b.blocks size_max then b.blocks else size_max

unfoldable pub address_valid : {D : Type 0} → SdBackend D → ℕ → Bool
address_valid b lba = b.present && ltb lba b.blocks

module _ {D : Type 0} (C : Cdc D) where
  -- A block that is not cached.
  unfoldable pub request_read : SdBackend D → ℕ → SdBackend D × ReadResult
  request_read b lba =
      let (s, begun) = begin_cdc_read C b.service lba b.generation in
      (record b { service = s }, (if begun then pending_read else failed_read))

  unfoldable pub read : SdBackend D → ℕ → SdBackend D × ReadResult
  read b lba =
      let (s, cached) = copy_cdc_ready C b.service lba b.generation in
      let b' = record b { service = s } in
      if not (address_valid b lba)
      then (b, failed_read)
      else elim cached [ some block ↦ (b', complete_read block) | none ↦ request_read b' lba ]

  -- The retry of a pending write: it is complete once the pool hands out what was written.
  unfoldable pub retry_write : SdBackend D → ℕ → Block → SdBackend D × IoResult
  retry_write b lba input =
      let (s, ready) = copy_cdc_ready C b.service lba b.generation in
      let b' = record b { service = s } in
      elim ready [
        | none ↦ (b', pending)
        | some block ↦
            if eq_bytes block input
            then (record b' { write_pending = false }, complete)
            else (b', pending)
      ]

  unfoldable pub first_write : SdBackend D → ℕ → Block → SdBackend D × IoResult
  first_write b lba input =
      let (s, begun) = begin_cdc_write C b.service lba b.generation input in
      let b' = record b { service = s } in
      if not begun then (b', failed) else (
        record b' { pending_write_lba = lba; pending_write_data = input; write_pending = true },
        pending,
      )

  unfoldable pub write : SdBackend D → ℕ → Block → SdBackend D × IoResult
  unfolding first_write retry_write
  write b lba input =
      if b.read_only || not (address_valid b lba)
      then (b, failed)
      else if not b.write_pending
      then first_write b lba input
      else if not (b.pending_write_lba == lba) || not (eq_bytes b.pending_write_data input)
      then (b, failed)
      else retry_write b lba input

  -- What the card's model uses; the other operations are those of the base class.
  abbrev pub cdc_storage : BlockBackend (SdBackend D)
  cdc_storage = record {
    block_count = block_count;
    media_present = λ b. default_media_present (block_count b);
    write_protected = λ b. false;
    flush = λ b. (b, default_flush (default_media_present (block_count b)));
    read = read;
    write = write;
  }
