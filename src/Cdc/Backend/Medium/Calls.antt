-- ===== src/Cdc/Backend/Medium/Calls.antt =====
-- Each call of the firmware leaves the backend coherent.
use pico_sdemu.Common.{
  ℕ, ◌+◌, ◌≡◌, refl, sym, ◌⊎◌, Bool, true, false, ◌&&◌, Option, none, some, List, get_elem?, arith,
  ◌==◌, inl, inr, subst, Bool-cases,
}
use pico_sdemu.Common.Word.{u64_max}
use pico_sdemu.Cdc.Numbers.{Text}
use pico_sdemu.Cdc.Client.{
  Client, ClientError, no_error, busy, not_negotiated, invalid_request, invalid_response,
  mismatched_response, remote_error, id_exhausted, Request,
  accept_response as client_accept_response,
}
use pico_sdemu.Cdc.Coordinator.{
  Coordinator, expire, poll as coordinator_poll, issue_retry as coordinator_issue_retry,
}
use pico_sdemu.Cdc.Coordinator.Invariant.{is_at_rest}
use pico_sdemu.Cdc.Coordinator.Finish.{expire-Moves, poll-Moves, issue_retry-Moves}
use pico_sdemu.Cdc.Pool.{
  Pool, Slot, SlotState, free, reading, ready, writing, touch, contains, clear_pool,
  copy_ready as pool_copy_ready,
}
use pico_sdemu.Cdc.Pool.Every.{copy_ready-Every, copy_ready_at, clear_pool-Every, clear_pool_at}
use pico_sdemu.Cdc.Responses.{
  MediaInfo, MediaInfoError, MediaDecoding, media_is, no_media_info, decode_cdc_media_info,
}
use pico_sdemu.Cdc.Backend.Counters.{
  TransferType, no_transfer, read_transfer, write_transfer, is_transfer,
}
use pico_sdemu.Cdc.Backend.{
  Backend, select_generation, begin_read, begin_prefetch, begin_sequential_prefetch, begin_write,
  ready_for_transfer, expire_if_due, poll, issue_retry, copy_ready, count_retry,
  is_failed as is_failed_state, media_changed, invalidate_media, accept_get_info, told_info,
  count_prefetch,
}
use pico_sdemu.Cdc.Backend.Medium.{Disk}
use pico_sdemu.Cdc.Backend.Medium.Coherent.{Coherent, FitsIn, Carried, CarriedIn, slot_of}
use pico_sdemu.Cdc.Backend.Medium.Ends.{rest-Fits, abandon-Coherent, media_changed-Coherent}
use pico_sdemu.Cdc.Backend.Medium.Answers.{other-Coherent, Moves-Coherent}
use pico_sdemu.Cdc.Backend.Medium.Starts.{
  Rests-Coherent, select-Rests, select_refused, read_selected-Coherent,
}
use pico_sdemu.Cdc.Backend.Medium.Writes.{write_selected-Coherent}

no_transfer_when_ready :
    (b : Backend) → ready_for_transfer b ≡ true → is_transfer b.transfer ≡ false
unfolding ready_for_transfer
no_transfer_when_ready b h = ground arith

pub begin_read-Coherent :
    (b : Backend) (lba generation now : ℕ) (disk : Disk)
    → Coherent b disk
    → Coherent (begin_read b lba generation now).0 disk
unfolding begin_read
begin_read-Coherent b lba generation now disk v = elim (Bool-cases (ready_for_transfer b)) [
  | inr unable ↦ rw (unable, begin_read) v
  | inl able ↦ elim (Bool-cases (select_generation b generation).1) [
    | inr other ↦
        rw (able, other, begin_read)
          (subst (λ (x : Backend). Coherent x disk) (sym (select_refused b generation other)) v)
    | inl selected ↦
        rw (able, selected, begin_read)
          (read_selected-Coherent _ lba generation now disk
            (select-Rests b generation disk v (no_transfer_when_ready b able) selected))
  ]
]

pub begin_write-Coherent :
    (b : Backend) (lba generation : ℕ) (block : List ℕ) (now : ℕ) (disk : Disk)
    → Coherent b disk
    → Coherent (begin_write b lba generation block now).0 disk
unfolding begin_write
begin_write-Coherent b lba generation block now disk v = elim (Bool-cases (ready_for_transfer b)) [
  | inr unable ↦ rw (unable, begin_write) v
  | inl able ↦ elim (Bool-cases (select_generation b generation).1) [
    | inr other ↦
        rw (able, other, begin_write)
          (subst (λ (x : Backend). Coherent x disk) (sym (select_refused b generation other)) v)
    | inl selected ↦
        rw (able, selected, begin_write)
          (write_selected-Coherent _ lba generation block now disk
            (select-Rests b generation disk v (no_transfer_when_ready b able) selected))
  ]
]

pub begin_prefetch-Coherent :
    (b : Backend) (lba generation now : ℕ) (disk : Disk)
    → Coherent b disk
    → Coherent (begin_prefetch b lba generation now).0 disk
unfolding begin_prefetch
begin_prefetch-Coherent b lba generation now disk v = elim (Bool-cases (ready_for_transfer b)) [
  | inr unable ↦ rw (unable, begin_prefetch) v
  | inl able ↦ elim (Bool-cases (select_generation b generation).1) [
    | inr other ↦
        rw (able, other, begin_prefetch)
          (subst (λ (x : Backend). Coherent x disk) (sym (select_refused b generation other)) v)
    | inl selected ↦
        let b' : Backend = (select_generation b generation).0 in
        let w : Coherent b' disk =
          Rests-Coherent b' generation disk
            (select-Rests b generation disk v (no_transfer_when_ready b able) selected) in
        let read : Backend × Request = begin_read b' lba generation now in
        elim (Bool-cases (contains b'.buffers lba generation)) [
          | inl cached ↦
              rw (able, selected, cached, begin_prefetch) (other-Coherent b' disk b'.client _ w)
          | inr missing ↦
              rw (able, selected, missing, begin_prefetch)
                (other-Coherent read.0 disk read.0.client (count_prefetch read.1 read.0.statistics)
                  (begin_read-Coherent b' lba generation now disk w))
        ]
  ]
]

pub begin_sequential_prefetch-Coherent :
    (b : Backend) (lba generation now : ℕ) (disk : Disk)
    → Coherent b disk
    → Coherent (begin_sequential_prefetch b lba generation now).0 disk
unfolding begin_sequential_prefetch
begin_sequential_prefetch-Coherent b lba generation now disk v =
    elim (Bool-cases (lba == u64_max)) [
      | inl last ↦ rw (last, begin_sequential_prefetch) v
      | inr more ↦
          rw (more, begin_sequential_prefetch)
            (begin_prefetch-Coherent b (lba + 1) generation now disk v)
    ]

pub expire-Coherent :
    (b : Backend) (now : ℕ) (disk : Disk) → Coherent b disk → Coherent (expire_if_due b now).0 disk
unfolding expire_if_due
expire-Coherent b now disk v =
    let k : Coordinator = (expire b.coordinator now b.client).0 in
    let c : Client = (expire b.coordinator now b.client).1 in
    elim (Bool-cases (is_failed_state k.state)) [
      | inl f ↦
          rw (f, expire_if_due)
            (abandon-Coherent (record b { coordinator = k; client = c; statistics = _ }) disk
              (rest-Fits _ _ b.transfer b.lba disk b.buffers.slots v.fits))
      | inr f ↦
          rw (f, expire_if_due)
            (Moves-Coherent b disk k c _ v (expire-Moves b.coordinator now b.client))
    ]

pub poll-Coherent :
    (b : Backend) (now : ℕ) (disk : Disk) → Coherent b disk → Coherent (poll b now).0 disk
unfolding poll
poll-Coherent b now disk v =
    Moves-Coherent b disk (coordinator_poll b.coordinator now) b.client b.statistics v
      (poll-Moves b.coordinator now)

pub issue_retry-Coherent :
    (b : Backend) (now : ℕ) (disk : Disk) → Coherent b disk → Coherent (issue_retry b now).0 disk
unfolding issue_retry
issue_retry-Coherent b now disk v =
    Moves-Coherent b disk (coordinator_issue_retry b.coordinator now b.client).0
      (coordinator_issue_retry b.coordinator now b.client).1
      (count_retry (coordinator_issue_retry b.coordinator now b.client).2 b.statistics) v
      (issue_retry-Moves b.coordinator now b.client)

touched_fits :
    (state : SlotState) (has : Bool) (media : ℕ) (t : TransferType) (lba now : ℕ) (disk : Disk)
    (s : Slot)
    → FitsIn state has media t lba disk s
    → FitsIn state has media t lba disk (touch now s)
touched_fits free has media t lba now disk s f = tt
touched_fits reading has media t lba now disk s f = f
touched_fits writing has media t lba now disk s f = f
touched_fits ready has media t lba now disk s f = f

-- What is carried does not depend on when a slot was used.
unmoved_block :
    (t : TransferType) (rest : Bool) (handle : Option ℕ) (p q : Pool) (block : List ℕ)
    → ((h : ℕ) → CarriedIn (get_elem? p.slots h) block → CarriedIn (get_elem? q.slots h) block)
    → Carried t rest (slot_of handle p) block
    → Carried t rest (slot_of handle q) block
unmoved_block no_transfer rest handle p q block f c = tt
unmoved_block read_transfer rest handle p q block f c = tt
unmoved_block write_transfer true handle p q block f c = tt
unmoved_block write_transfer false none p q block f c = tt
unmoved_block write_transfer false (some h) p q block f c = f h c

pub copy_ready-Coherent :
    (b : Backend) (lba generation : ℕ) (disk : Disk)
    → Coherent b disk
    → Coherent (copy_ready b lba generation).0 disk
unfolding copy_ready
copy_ready-Coherent b lba generation disk v =
    let p : Pool = (pool_copy_ready b.buffers lba generation).0 in
    record {
      fits =
          copy_ready-Every _ b.buffers lba generation
            (λ (s : Slot) (now : ℕ) f.
              touched_fits s.state b.has_generation b.media_generation b.transfer b.lba now disk s
                f)
            v.fits;
      carried =
          unmoved_block b.transfer (is_at_rest b.coordinator.state) b.handle b.buffers p
            b.coordinator.operation.block
            (λ (h : ℕ) c.
              copy_ready_at (λ (o : Option Slot). CarriedIn o b.coordinator.operation.block)
                b.buffers lba generation h (λ (s : Slot) (now : ℕ) x. x) c)
            v.carried;
      tracked = v.tracked;
      quiet = v.quiet;
    }

pub invalidate_media-Coherent :
    (b : Backend) (disk disk' : Disk) → Coherent b disk → Coherent (invalidate_media b) disk'
unfolding invalidate_media
invalidate_media-Coherent b disk disk' v = record {
  fits = clear_pool-Every _ b.buffers tt;
  carried =
      unmoved_block b.transfer (is_at_rest b.coordinator.state) b.handle b.buffers
        (clear_pool b.buffers) b.coordinator.operation.block
        (λ (h : ℕ) c.
          clear_pool_at (λ (o : Option Slot). CarriedIn o b.coordinator.operation.block) b.buffers h
            tt tt)
        v.carried;
  tracked = v.tracked;
  quiet = v.quiet;
}

-- Told of the medium that it knows, the backend stays; told of another one, it forgets the old.
told-Coherent :
    (b : Backend) (generation : ℕ) (disk : Disk)
    → Coherent b disk
    → Coherent (media_changed b generation) disk
unfolding media_changed
told-Coherent b generation disk v =
    elim (Bool-cases (b.has_generation && generation == b.media_generation)) [
      | inl same ↦ rw (same, media_changed) v
      | inr new ↦ media_changed-Coherent b generation disk disk new
    ]

told_info-Coherent :
    (b : Backend) (info : MediaInfo) (result : ClientError) (disk : Disk)
    → Coherent b disk
    → Coherent (told_info b info result).0 disk
unfolding told_info
told_info-Coherent b info no_error disk v = elim (Bool-cases info.present) [
  | inl present ↦ rw (present, told_info) (told-Coherent b info.generation disk v)
  | inr absent ↦ rw (absent, told_info) (invalidate_media-Coherent b disk disk v)
]
told_info-Coherent b info busy disk v = v
told_info-Coherent b info not_negotiated disk v = v
told_info-Coherent b info invalid_request disk v = v
told_info-Coherent b info invalid_response disk v = v
told_info-Coherent b info mismatched_response disk v = v
told_info-Coherent b info remote_error disk v = v
told_info-Coherent b info id_exhausted disk v = v

Decoding-cases :
    (d : MediaDecoding)
    → ((e : MediaInfoError) × (d ≡ no_media_info e)) ⊎ ((i : MediaInfo) × (d ≡ media_is i))
Decoding-cases (no_media_info e) = inl (e, refl)
Decoding-cases (media_is i) = inr (i, refl)

pub accept_get_info-Coherent :
    (b : Backend) (response : Text) (disk : Disk)
    → Coherent b disk
    → Coherent (accept_get_info b response).0 disk
unfolding accept_get_info
accept_get_info-Coherent b response disk v =
    elim (Decoding-cases (decode_cdc_media_info response)) [
      | inl (e, d) ↦ rw (d, accept_get_info) v
      | inr (info, d) ↦
          let c : Client = (client_accept_response b.client response).0 in
          rw (d, accept_get_info)
            (told_info-Coherent (record b { client = c }) info _ disk
              (other-Coherent b disk c b.statistics v))
    ]
