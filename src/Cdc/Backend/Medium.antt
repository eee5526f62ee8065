-- ===== src/Cdc/Backend/Medium.antt =====
-- The backend of cdc_write_through_backend.hpp beside the medium that the host has mounted: the calls of
-- the firmware, the host's writes and answers, and the changes of the medium, as steps.
--
-- The host is taken to answer truthfully: a block that it returns is the medium's, a success for a write
-- follows the write, and it writes only the block of the transfer in flight. A new medium comes with the
-- call that tells the backend of it.
pub mod Coherent
pub mod Ends
pub mod Answers
pub mod Truthful
pub mod Starts
pub mod Writes
pub mod Calls
pub mod Cache
use pico_sdemu.Common.{ℕ, ◌≡◌, Bool, true, false, ◌&&◌, List, if◌then◌else◌, ◌==◌}
use pico_sdemu.Cdc.Numbers.{Text}
use pico_sdemu.Cdc.Client.{accept_response as client_accept_response}
use pico_sdemu.Cdc.Client.Refusals.{is_no_error}
use pico_sdemu.Cdc.Responses.{
  ReadBlock, ResponseError, read_as, unreadable, decode_read_block_response,
}
use pico_sdemu.Cdc.Backend.Counters.{no_transfer, read_transfer, write_transfer}
use pico_sdemu.Cdc.Backend.{
  Backend, new_backend, begin_handshake, accept_handshake, begin_get_info, accept_get_info,
  begin_read, begin_prefetch, begin_sequential_prefetch, begin_write, accept_response,
  expire_if_due, poll, issue_retry, copy_ready, disconnect, invalidate, media_changed,
  invalidate_media, reset_statistics,
}

-- The blocks of the mounted medium.
abbrev pub Disk : Type 0
Disk = ℕ → List ℕ

abbrev pub put : ℕ → List ℕ → Disk → Disk
put lba block disk = λ (l : ℕ). if l == lba then block else disk l

-- The calls that hand over no answer to a transfer and change no medium.
pub data BackendCall : Type 0 where
  hello asks_info clears : BackendCall
  hears_hello hears_info : Text → BackendCall
  reads prefetches prefetches_after : ℕ → ℕ → ℕ → BackendCall
  writes : ℕ → ℕ → List ℕ → ℕ → BackendCall
  expires polls retries : ℕ → BackendCall
  copies : ℕ → ℕ → BackendCall

unfoldable pub backend_call : Backend → BackendCall → Backend
backend_call b hello = (begin_handshake b).0
backend_call b asks_info = (begin_get_info b).0
backend_call b clears = reset_statistics b
backend_call b (hears_hello response) = (accept_handshake b response).0
backend_call b (hears_info response) = (accept_get_info b response).0
backend_call b (reads lba generation now) = (begin_read b lba generation now).0
backend_call b (prefetches lba generation now) = (begin_prefetch b lba generation now).0
backend_call b (prefetches_after lba generation now) =
    (begin_sequential_prefetch b lba generation now).0
backend_call b (writes lba generation block now) = (begin_write b lba generation block now).0
backend_call b (expires now) = (expire_if_due b now).0
backend_call b (polls now) = (poll b now).0
backend_call b (retries now) = (issue_retry b now).0
backend_call b (copies lba generation) = (copy_ready b lba generation).0

pub data Step (b : Backend) (disk : Disk) : Backend → Disk → Type 0 where
  calls : (a : BackendCall) → Step b disk (backend_call b a) disk
  block_answer :
      (response : Text) (now : ℕ) (r : ReadBlock)
      → b.transfer ≡ read_transfer
      → decode_read_block_response response ≡ read_as r
      → r.block ≡ disk r.lba
      → Step b disk (accept_response b response now).0 disk
  other_answer :
      (response : Text) (now : ℕ) (e : ResponseError)
      → b.transfer ≡ read_transfer
      → decode_read_block_response response ≡ unreadable e
      → Step b disk (accept_response b response now).0 disk
  written_answer :
      (response : Text) (now : ℕ)
      → b.transfer ≡ write_transfer
      → disk b.lba ≡ b.coordinator.operation.block
      → Step b disk (accept_response b response now).0 disk
  unwritten_answer :
      (response : Text) (now : ℕ)
      → b.transfer ≡ write_transfer
      → is_no_error (client_accept_response b.client response).1 ≡ false
      → Step b disk (accept_response b response now).0 disk
  stray_answer :
      (response : Text) (now : ℕ)
      → b.transfer ≡ no_transfer
      → Step b disk (accept_response b response now).0 disk
  host_writes :
      b.transfer ≡ write_transfer → Step b disk b (put b.lba b.coordinator.operation.block disk)
  remounts :
      (generation : ℕ) (disk' : Disk)
      → (b.has_generation && generation == b.media_generation) ≡ false
      → Step b disk (media_changed b generation) disk'
  removes : (disk' : Disk) → Step b disk (invalidate_media b) disk'
  unplugs : (disk' : Disk) → Step b disk (disconnect b) disk'
  invalidates : (disk' : Disk) → Step b disk (invalidate b) disk'

pub data Reach (first : Backend) (mounted : Disk) : Backend → Disk → Type 0 where
  here : Reach first mounted first mounted
  next :
      (b b' : Backend) (disk disk' : Disk)
      → Reach first mounted b disk
      → Step b disk b' disk'
      → Reach first mounted b' disk'
