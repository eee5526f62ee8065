-- ===== src/Media/Arbiter.antt =====
-- shared/protocol/src/block_backend_arbiter.cpp: `BlockBackendArbiter`. The atomic owner is a field; a
-- compare-and-exchange is one step.
pub mod Exclusive
use pico_sdemu.Common.{ℕ, Bool, true, false, not, ◌&&◌, ◌||◌, List, if◌then◌else◌}
use pico_sdemu.Sd.Storage.{BlockBackend, Block, IoResult, failed, ReadResult, failed_read}

pub data Owner : Type 0 where
  no_owner emulated_client host_copy : Owner

pub record Arbiter (S : Type 0) : Type 0 where
  pub backend : S
  pub owner : Owner

unfoldable pub new_arbiter : {S : Type 0} → S → Arbiter S
new_arbiter backend = record { backend = backend; owner = no_owner }

abbrev pub same_owner : Owner → Owner → Bool
same_owner no_owner no_owner = true
same_owner emulated_client emulated_client = true
same_owner host_copy host_copy = true
same_owner no_owner emulated_client = false
same_owner no_owner host_copy = false
same_owner emulated_client no_owner = false
same_owner emulated_client host_copy = false
same_owner host_copy no_owner = false
same_owner host_copy emulated_client = false

unfoldable pub transition : {S : Type 0} → Arbiter S → Owner → Owner → Arbiter S × Bool
transition a expected desired =
    if same_owner a.owner expected then (record a { owner = desired }, true) else (a, false)

unfoldable pub expose_to_client : {S : Type 0} → Arbiter S → Arbiter S × Bool
unfolding transition
expose_to_client a = transition a no_owner emulated_client

unfoldable pub hide_from_client : {S : Type 0} → Arbiter S → Arbiter S × Bool
unfolding transition
hide_from_client a = transition a emulated_client no_owner

unfoldable pub begin_host_copy : {S : Type 0} → Arbiter S → Arbiter S × Bool
unfolding transition
begin_host_copy a = transition a no_owner host_copy

unfoldable pub end_host_copy : {S : Type 0} → Arbiter S → Arbiter S × Bool
unfolding transition
end_host_copy a = transition a host_copy no_owner

module _ {S : Type 0} (B : BlockBackend S) where
  -- The operations of one side; the client's and the copy's differ by the owner that they want.
  unfoldable pub block_count_for : Owner → Arbiter S → ℕ
  block_count_for side a = if same_owner a.owner side then B.block_count a.backend else 0

  unfoldable pub media_present_for : Owner → Arbiter S → Bool
  media_present_for side a = same_owner a.owner side && B.media_present a.backend

  unfoldable pub write_protected_for : Owner → Arbiter S → Bool
  write_protected_for side a = not (same_owner a.owner side) || B.write_protected a.backend

  unfoldable pub flush_for : Owner → Arbiter S → Arbiter S × IoResult
  flush_for side a =
      let (s, result) = B.flush a.backend in
      if same_owner a.owner side then (record a { backend = s }, result) else (a, failed)

  unfoldable pub read_for : Owner → Arbiter S → ℕ → Arbiter S × ReadResult
  read_for side a lba =
      let (s, result) = B.read a.backend lba in
      if same_owner a.owner side then (record a { backend = s }, result) else (a, failed_read)

  unfoldable pub write_for : Owner → Arbiter S → ℕ → Block → Arbiter S × IoResult
  write_for side a lba block =
      let (s, result) = B.write a.backend lba block in
      if same_owner a.owner side then (record a { backend = s }, result) else (a, failed)

  -- The arbiter as the backend of one side: its overrides for the client, and `host_copy_*`.
  abbrev pub side_backend : Owner → BlockBackend (Arbiter S)
  side_backend side = record {
    block_count = block_count_for side;
    media_present = media_present_for side;
    write_protected = write_protected_for side;
    flush = flush_for side;
    read = read_for side;
    write = write_for side;
  }

  abbrev pub client_backend : BlockBackend (Arbiter S)
  client_backend = side_backend emulated_client

  -- `HostCopyBackend` of block_media_copier.cpp.
  abbrev pub copy_backend : BlockBackend (Arbiter S)
  copy_backend = side_backend host_copy
