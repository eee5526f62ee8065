-- ===== src/Cdc/Backend/Medium/Cache.antt =====
-- What the backend hands out is what the medium holds.
use pico_sdemu.Common.{
  ℕ, ◌≡◌, ◌≢◌, refl, sym, ap, ◌∙◌, Bool, true, ◌&&◌, some, List, arith, inl, inr, Bool-cases,
}
use pico_sdemu.Cdc.Pool.{Slot, SlotState, free, reading, ready, writing, is_ready, holds}
use pico_sdemu.Cdc.Pool.Every.{All-weaken, All-get_elem?, copy_ready-found, new_pool-All}
use pico_sdemu.Cdc.Backend.Counters.{TransferType, no_transfer, read_transfer, write_transfer}
use pico_sdemu.Cdc.Backend.{
  Backend, new_backend, begin_handshake, accept_handshake, begin_get_info, ready_for_transfer,
  reset_statistics, copy_ready,
}
use pico_sdemu.Cdc.Backend.Medium.{
  Disk, put, BackendCall, hello, asks_info, clears, hears_hello, hears_info, reads, prefetches,
  prefetches_after, writes, expires, polls, retries, copies, backend_call, Step, calls,
  block_answer, other_answer, written_answer, unwritten_answer, stray_answer, host_writes, remounts,
  removes, unplugs, invalidates, Reach, here, next,
}
use pico_sdemu.Cdc.Backend.Medium.Coherent.{Coherent, FitsIn}
use pico_sdemu.Cdc.Backend.Medium.Ends.{
  rest-Coherent, media_changed-Coherent, disconnect-Coherent, invalidate-Coherent,
}
use pico_sdemu.Cdc.Backend.Medium.Answers.{other-Coherent}
use pico_sdemu.Cdc.Backend.Medium.Truthful.{
  block_answer-Coherent, other_answer-Coherent, written_answer-Coherent, unwritten_answer-Coherent,
  stray_answer-Coherent,
}
use pico_sdemu.Cdc.Backend.Medium.Calls.{
  begin_read-Coherent, begin_write-Coherent, begin_prefetch-Coherent,
  begin_sequential_prefetch-Coherent, expire-Coherent, poll-Coherent, issue_retry-Coherent,
  copy_ready-Coherent, invalidate_media-Coherent, accept_get_info-Coherent,
}

begin_get_info-Coherent :
    (b : Backend) (disk : Disk) → Coherent b disk → Coherent (begin_get_info b).0 disk
unfolding begin_get_info
begin_get_info-Coherent b disk v = elim (Bool-cases (ready_for_transfer b)) [
  | inl able ↦ rw (able, begin_get_info) (other-Coherent b disk _ b.statistics v)
  | inr unable ↦ rw (unable, begin_get_info) v
]

call-Coherent :
    (b : Backend) (a : BackendCall) (disk : Disk)
    → Coherent b disk
    → Coherent (backend_call b a) disk
unfolding backend_call begin_handshake accept_handshake reset_statistics
call-Coherent b hello disk v = other-Coherent b disk _ b.statistics v
call-Coherent b asks_info disk v = begin_get_info-Coherent b disk v
call-Coherent b clears disk v = other-Coherent b disk b.client _ v
call-Coherent b (hears_hello response) disk v = other-Coherent b disk _ b.statistics v
call-Coherent b (hears_info response) disk v = accept_get_info-Coherent b response disk v
call-Coherent b (reads lba generation now) disk v = begin_read-Coherent b lba generation now disk v
call-Coherent b (prefetches lba generation now) disk v =
    begin_prefetch-Coherent b lba generation now disk v
call-Coherent b (prefetches_after lba generation now) disk v =
    begin_sequential_prefetch-Coherent b lba generation now disk v
call-Coherent b (writes lba generation block now) disk v =
    begin_write-Coherent b lba generation block now disk v
call-Coherent b (expires now) disk v = expire-Coherent b now disk v
call-Coherent b (polls now) disk v = poll-Coherent b now disk v
call-Coherent b (retries now) disk v = issue_retry-Coherent b now disk v
call-Coherent b (copies lba generation) disk v = copy_ready-Coherent b lba generation disk v

written_elsewhere :
    (state : SlotState) (has : Bool) (media : ℕ) (t : TransferType) (lba : ℕ) (block : List ℕ)
    (disk : Disk) (s : Slot)
    → t ≡ write_transfer
    → FitsIn state has media t lba disk s
    → FitsIn state has media t lba (put lba block disk) s
written_elsewhere free has media t lba block disk s w f = tt
written_elsewhere reading has media t lba block disk s w f = f
written_elsewhere writing has media t lba block disk s w f = f
written_elsewhere ready has media no_transfer lba block disk s w f = ground arith
written_elsewhere ready has media read_transfer lba block disk s w f = ground arith
written_elsewhere ready has media write_transfer lba block disk s w f =
    (f.0, f.1, f.2 ∙ sym (kept f.3), f.3)
  where
    kept : s.lba ≢ lba → put lba block disk s.lba ≡ disk s.lba
    kept n = ground arith

host_writes-Coherent :
    (b : Backend) (disk : Disk)
    → Coherent b disk
    → b.transfer ≡ write_transfer
    → Coherent b (put b.lba b.coordinator.operation.block disk)
host_writes-Coherent b disk v w = record {
  fits =
      All-weaken _ _ b.buffers.slots
        (λ (s : Slot) f.
          written_elsewhere s.state b.has_generation b.media_generation b.transfer b.lba
            b.coordinator.operation.block disk s w f)
        v.fits;
  carried = v.carried;
  tracked = v.tracked;
  quiet = v.quiet;
}

step-Coherent :
    (b b' : Backend) (disk disk' : Disk)
    → Step b disk b' disk'
    → Coherent b disk
    → Coherent b' disk'
step-Coherent b _ disk _ (calls a) v = call-Coherent b a disk v
step-Coherent b _ disk _ (block_answer response now r t d e) v =
    block_answer-Coherent b disk response now r v t d e
step-Coherent b _ disk _ (other_answer response now e t d) v =
    other_answer-Coherent b disk response now e v t d
step-Coherent b _ disk _ (written_answer response now t e) v =
    written_answer-Coherent b disk response now v t e
step-Coherent b _ disk _ (unwritten_answer response now t e) v =
    unwritten_answer-Coherent b disk response now v t e
step-Coherent b _ disk _ (stray_answer response now t) v =
    stray_answer-Coherent b disk response now v t
step-Coherent b _ disk _ (host_writes w) v = host_writes-Coherent b disk v w
step-Coherent b _ disk _ (remounts generation disk' h) v =
    media_changed-Coherent b generation disk disk' h
step-Coherent b _ disk _ (removes disk') v = invalidate_media-Coherent b disk disk' v
step-Coherent b _ disk _ (unplugs disk') v = disconnect-Coherent b disk'
step-Coherent b _ disk _ (invalidates disk') v = invalidate-Coherent b disk'

pub Reach-Coherent :
    (first : Backend) (mounted : Disk) (b : Backend) (disk : Disk)
    → Reach first mounted b disk
    → Coherent first mounted
    → Coherent b disk
Reach-Coherent first mounted _ _ here v = v
Reach-Coherent first mounted b' disk' (next b _ disk _ r s) v =
    step-Coherent b b' disk disk' s (Reach-Coherent first mounted b disk r v)

pub new-Coherent :
    (capacity timeout maximum_retries initial maximum : ℕ) (disk : Disk)
    → Coherent (new_backend capacity timeout maximum_retries initial maximum) disk
unfolding new_backend
new-Coherent capacity timeout maximum_retries initial maximum disk =
    rest-Coherent _ disk refl refl refl (new_pool-All _ capacity tt)

ready_fits :
    (s : Slot) (state : SlotState) (has : Bool) (media : ℕ) (t : TransferType)
    (lba l generation : ℕ) (disk : Disk)
    → (is_ready state && holds s l generation) ≡ true
    → FitsIn state has media t lba disk s
    → (has ≡ true) × (media ≡ generation) × (s.block ≡ disk l)
ready_fits s free has media t lba l generation disk c f = ground arith
ready_fits s reading has media t lba l generation disk c f = ground arith
ready_fits s writing has media t lba l generation disk c f = ground arith
ready_fits s ready has media t lba l generation disk c f =
    let (a, g) = held c in (f.0, sym f.1 ∙ g, f.2 ∙ ap disk a)
  where
    held : holds s l generation ≡ true → (s.lba ≡ l) × (s.generation ≡ generation)
    held h = ground arith

-- However the firmware uses a new backend, and whatever the host answers truthfully, writes and
-- mounts: a block that the backend hands out for an address is the one that the mounted medium holds
-- there, and the generation asked for is that of the medium.
pub copy_ready_is_medium :
    (capacity timeout maximum_retries initial maximum : ℕ) (mounted disk : Disk) (b : Backend)
    (lba generation : ℕ) (block : List ℕ)
    → Reach (new_backend capacity timeout maximum_retries initial maximum) mounted b disk
    → (copy_ready b lba generation).1 ≡ some block
    → (block ≡ disk lba) × (b.has_generation ≡ true) × (b.media_generation ≡ generation)
unfolding copy_ready
copy_ready_is_medium capacity timeout maximum_retries initial maximum mounted disk b lba generation
      block r h =
    let v : Coherent b disk =
      Reach-Coherent _ mounted b disk r
        (new-Coherent capacity timeout maximum_retries initial maximum mounted) in
    let (n, s, at, c, same) = copy_ready-found b.buffers lba generation block h in
    let (has, current, e) =
      ready_fits s s.state b.has_generation b.media_generation b.transfer b.lba lba generation disk
        c (All-get_elem? _ b.buffers.slots n s v.fits at) in
    (sym same ∙ e, has, current)
