-- ===== src/Cdc/Backend.antt =====
-- shared/protocol/include/picosd/protocol/cdc_write_through_backend.hpp: `CdcWriteThroughBackend`, the
-- pool of sectors and the one transfer in flight. A method that changes the backend returns it; a handle
-- that is `none` is `kInvalidHandle`, and a request with an empty line is `line []`.
pub mod Counters
pub mod Traffic
pub mod Stuck
pub mod Medium
use pico_sdemu.Common.{
  ℕ, ◌+◌, Bool, true, false, not, ◌&&◌, ◌||◌, Option, none, some, List, [], ◌∷◌, if◌then◌else◌,
  ◌==◌, eq_bytes, take,
}
use pico_sdemu.Common.Word.{u64_max}
use pico_sdemu.Common.Bytes.{codes}
use pico_sdemu.Cdc.Numbers.{Text}
use pico_sdemu.Cdc.Client.{
  Client, ClientError, no_error, busy, invalid_request, invalid_response, Request, line, refused,
  new_client, begin_handshake as client_begin_handshake, begin_get_info as client_begin_get_info,
  accept_response as client_accept_response,
}
use pico_sdemu.Cdc.Operation.{Operation, retain_read_block, retain_write_block}
use pico_sdemu.Cdc.Coordinator.{
  Coordinator, OperationState, idle, failed, is_idle, is_awaiting, cancel_operation,
  new_coordinator, start, accept, expire, poll as coordinator_poll,
  issue_retry as coordinator_issue_retry, cancel, disconnect as coordinator_disconnect,
}
use pico_sdemu.Cdc.Pool.{
  Pool, new_pool, reserve_read, reserve_write, find_ready, contains, invalidate_ready, release,
  clear_pool, complete_read, complete_write, copy_ready as pool_copy_ready,
}
use pico_sdemu.Cdc.Responses.{
  ReadBlock, read_as, unreadable, decode_read_block_response, MediaInfo, media_is, no_media_info,
  decode_cdc_media_info,
}
use pico_sdemu.Cdc.Backend.Counters.{
  TransferType, no_transfer, read_transfer, write_transfer, is_transfer, Statistics, new_statistics,
  count_up, record_completion, record_write_busy_duration,
}

pub record Backend : Type 0 where
  pub client : Client
  pub coordinator : Coordinator
  pub buffers : Pool
  pub transfer : TransferType
  pub handle : Option ℕ
  pub lba : ℕ
  pub generation : ℕ
  pub media_generation : ℕ
  pub started_at : ℕ
  pub has_generation : Bool
  pub statistics : Statistics

unfoldable pub new_backend : ℕ → ℕ → ℕ → ℕ → ℕ → Backend
new_backend capacity timeout maximum_retries initial maximum = record {
  client = new_client;
  coordinator = new_coordinator timeout maximum_retries initial maximum;
  buffers = new_pool capacity;
  transfer = no_transfer;
  handle = none;
  lba = 0;
  generation = 0;
  media_generation = 0;
  started_at = 0;
  has_generation = false;
  statistics = new_statistics;
}

unfoldable pub begin_handshake : Backend → Backend × Request
begin_handshake b =
    let (c, request) = client_begin_handshake b.client in (record b { client = c }, request)

unfoldable pub accept_handshake : Backend → Text → Backend × ClientError
accept_handshake b response =
    let (c, result) = client_accept_response b.client response in (record b { client = c }, result)

unfoldable pub ready_for_transfer : Backend → Bool
ready_for_transfer b =
    b.client.negotiated && not (is_transfer b.transfer) && is_idle b.coordinator.state

unfoldable pub begin_get_info : Backend → Backend × Request
begin_get_info b =
    let (c, request) = client_begin_get_info b.client in
    if not (ready_for_transfer b) then (b, refused busy) else (record b { client = c }, request)

unfoldable pub clear_transfer_tracking : Backend → Backend
clear_transfer_tracking b = record b {
  transfer = no_transfer;
  handle = none;
  lba = 0;
  generation = 0;
}

unfoldable pub release_handle : Option ℕ → Pool → Pool
release_handle none p = p
release_handle (some h) p = (release p h).0

unfoldable pub abandon_transfer : Backend → Backend
unfolding clear_transfer_tracking release_handle
abandon_transfer b =
    clear_transfer_tracking (record b { buffers = release_handle b.handle b.buffers })

unfoldable pub media_changed : Backend → ℕ → Backend
unfolding clear_transfer_tracking
media_changed b generation =
    if b.has_generation && generation == b.media_generation
    then b
    else let (k, c) = cancel b.coordinator b.client in
      record (clear_transfer_tracking
        (record b { coordinator = k; client = c; buffers = clear_pool b.buffers })) {
          media_generation = generation;
          has_generation = true;
        }

unfoldable pub invalidate_media : Backend → Backend
invalidate_media b = record b {
  buffers = clear_pool b.buffers;
  has_generation = false;
  media_generation = 0;
}

-- What a decoded answer does, by the client's result.
unfoldable pub told_info :
    Backend → MediaInfo → ClientError → Backend × ClientError × Option MediaInfo
told_info b info no_error = (
  if info.present then media_changed b info.generation else invalidate_media b,
  no_error,
  some info,
)
told_info b info other = (b, other, none)

-- The media information is what is stored through `output`, if anything is.
unfoldable pub accept_get_info : Backend → Text → Backend × ClientError × Option MediaInfo
accept_get_info b response = elim (decode_cdc_media_info response) [
  | no_media_info e ↦ (b, invalid_response, none)
  | media_is info ↦
      let (c, result) = client_accept_response b.client response in
      told_info (record b { client = c }) info result
]

-- The backend, and whether the generation is the medium's.
unfoldable pub select_generation : Backend → ℕ → Backend × Bool
select_generation b generation =
    if not b.has_generation
    then (record b { media_generation = generation; has_generation = true }, true)
    else (b, b.media_generation == generation)

unfoldable pub retain_transfer : Backend → TransferType → ℕ → ℕ → ℕ → ℕ → Backend
retain_transfer b type handle lba generation now = record b {
  transfer = type;
  handle = some handle;
  lba = lba;
  generation = generation;
  started_at = now;
}

abbrev pub count_read_request : Statistics → Statistics
count_read_request s = record s { read_requests = count_up s.read_requests }

abbrev pub count_write_request : Statistics → Statistics
count_write_request s = record s { write_requests = count_up s.write_requests }

abbrev pub count_fault : Statistics → Statistics
count_fault s = record s { protocol_faults = count_up s.protocol_faults }

-- A reserved read, once the coordinator has answered.
unfoldable pub start_read : Backend → ℕ → ℕ → ℕ → ℕ → Backend × Request
unfolding retain_transfer
start_read b handle lba generation now =
    let (k, c, request) = start b.coordinator (retain_read_block lba) now b.client in
    let b' = record b { coordinator = k; client = c } in
    elim request [
      | refused e ↦ (record b' { buffers = (release b'.buffers handle).0 }, refused e)
      | line text ↦ (
        record (retain_transfer b' read_transfer handle lba generation now) {
          statistics = count_read_request b.statistics;
        },
        line text,
      )
    ]

-- A read of the medium's generation.
unfoldable pub read_selected : Backend → ℕ → ℕ → ℕ → Backend × Request
read_selected b lba generation now = elim (find_ready b.buffers lba generation) [
  | some h ↦ (
    record b {
      statistics = record b.statistics { read_coalesces = count_up b.statistics.read_coalesces };
    },
    line [],
  )
  | none ↦
      let (p, handle) = reserve_read b.buffers lba generation in
      elim handle [
        | none ↦ (record b { buffers = p }, refused busy)
        | some h ↦ start_read (record b { buffers = p }) h lba generation now
      ]
]

unfoldable pub begin_read : Backend → ℕ → ℕ → ℕ → Backend × Request
begin_read b lba generation now =
    let (b', selected) = select_generation b generation in
    if not (ready_for_transfer b)
    then (b, refused busy)
    else if not selected
    then (b', refused busy)
    else read_selected b' lba generation now

abbrev pub count_prefetch : Request → Statistics → Statistics
count_prefetch (refused e) s = s
count_prefetch (line text) s = record s { prefetch_requests = count_up s.prefetch_requests }

unfoldable pub begin_prefetch : Backend → ℕ → ℕ → ℕ → Backend × Request
begin_prefetch b lba generation now =
    let (b', selected) = select_generation b generation in
    if not (ready_for_transfer b)
    then (b, refused busy)
    else if not selected
    then (b', refused busy)
    else if contains b'.buffers lba generation
    then (
      record b' {
        statistics = record b'.statistics {
          prefetch_skips = count_up b'.statistics.prefetch_skips;
        };
      },
      line [],
    )
    else let (b'', request) = begin_read b' lba generation now in
      (record b'' { statistics = count_prefetch request b''.statistics }, request)

unfoldable pub begin_sequential_prefetch : Backend → ℕ → ℕ → ℕ → Backend × Request
begin_sequential_prefetch b delivered_lba generation now =
    if delivered_lba == u64_max
    then (b, refused invalid_request)
    else begin_prefetch b (delivered_lba + 1) generation now

-- A reserved write, once the coordinator has answered.
unfoldable pub start_write : Backend → ℕ → ℕ → ℕ → List ℕ → ℕ → Backend × Request
unfolding retain_transfer
start_write b handle lba generation block now =
    let (k, c, request) = start b.coordinator (retain_write_block lba block) now b.client in
    let b' = record b { coordinator = k; client = c } in
    elim request [
      | refused e ↦ (record b' { buffers = (release b'.buffers handle).0 }, refused e)
      | line text ↦ (
        record (retain_transfer b' write_transfer handle lba generation now) {
          statistics = count_write_request b.statistics;
        },
        line text,
      )
    ]

-- A write of the medium's generation.
unfoldable pub write_selected : Backend → ℕ → ℕ → List ℕ → ℕ → Backend × Request
write_selected b lba generation block now =
    let (p, handle) =
      reserve_write (invalidate_ready b.buffers lba generation) lba generation block in
    elim handle [
      | none ↦ (record b { buffers = p }, refused busy)
      | some h ↦ start_write (record b { buffers = p }) h lba generation block now
    ]

unfoldable pub begin_write : Backend → ℕ → ℕ → List ℕ → ℕ → Backend × Request
begin_write b lba generation block now =
    let (b', selected) = select_generation b generation in
    if not (ready_for_transfer b)
    then (b, refused busy)
    else if not selected
    then (b', refused busy)
    else write_selected b' lba generation block now

-- `response.rfind("ERR ", 0) == 0`.
unfoldable pub is_err_line : Text → Bool
is_err_line response = eq_bytes (take 4 response) (codes "ERR ")

-- The block of a response that answers the read in flight; nothing for a response that is not valid
-- there, and no bytes where the response is not looked into.
unfoldable pub valid_read : TransferType → ℕ → Text → Option (List ℕ)
unfolding is_err_line
valid_read read_transfer lba response =
    if is_err_line response then some [] else elim (decode_read_block_response response) [
      | unreadable e ↦ none
      | read_as r ↦ if r.lba == lba then some r.block else none
    ]
valid_read write_transfer lba response = some []
valid_read no_transfer lba response = some []

-- The pool where the coordinator has come to rest.
unfoldable pub complete_transfer : TransferType → Pool → Option ℕ → ℕ → ℕ → List ℕ → Pool × Bool
complete_transfer type p none lba generation block = (p, false)
complete_transfer read_transfer p (some h) lba generation block =
    complete_read p h lba generation block
complete_transfer write_transfer p (some h) lba generation block = complete_write p h lba generation
complete_transfer no_transfer p (some h) lba generation block = complete_write p h lba generation

abbrev pub write_time : Backend → ℕ → Statistics
write_time b now = record_write_busy_duration b.transfer b.started_at now b.statistics

-- What follows the coordinator's answer to a valid response.
unfoldable pub settle_response : Backend → OperationState → List ℕ → ℕ → Backend × OperationState
unfolding abandon_transfer clear_transfer_tracking complete_transfer
settle_response b idle block now =
    let (p, completed) = complete_transfer b.transfer b.buffers b.handle b.lba b.generation block in
    if not completed
    then (
      abandon_transfer (record b { buffers = p; statistics = count_fault b.statistics }),
      failed,
    )
    else (
      clear_transfer_tracking (record b {
        buffers = p;
        statistics = record_completion b.transfer b.started_at now b.statistics;
      }),
      idle,
    )
settle_response b failed block now = (
  abandon_transfer (record b {
    statistics = record_write_busy_duration b.transfer b.started_at now (count_fault b.statistics);
  }),
  failed,
)
settle_response b state block now = (b, state)

unfoldable pub accept_response : Backend → Text → ℕ → Backend × OperationState
accept_response b response now = elim (valid_read b.transfer b.lba response) [
  | none ↦ (record b { statistics = count_fault b.statistics }, b.coordinator.state)
  | some block ↦
      let (k, c) = accept b.coordinator response now b.client in
      settle_response (record b { coordinator = k; client = c }) k.state block now
]

abbrev pub is_failed : OperationState → Bool
is_failed failed = true
is_failed s = false

abbrev pub count_timeout : Bool → Statistics → Statistics
count_timeout timed_out s = if timed_out then record s { timeouts = count_up s.timeouts } else s

unfoldable pub expire_if_due : Backend → ℕ → Backend × OperationState
expire_if_due b now =
    let (k, c) = expire b.coordinator now b.client in
    let s =
      count_timeout (is_awaiting b.coordinator.state && not (is_awaiting k.state)) b.statistics in
    let b' = record b { coordinator = k; client = c; statistics = s } in
    if is_failed k.state
    then (abandon_transfer (record b' { statistics = write_time b' now }), k.state)
    else (b', k.state)

unfoldable pub poll : Backend → ℕ → Backend × OperationState
poll b now = let k = coordinator_poll b.coordinator now in (record b { coordinator = k }, k.state)

abbrev pub count_retry : Request → Statistics → Statistics
count_retry (refused e) s = s
count_retry (line text) s = record s { retries = count_up s.retries }

unfoldable pub issue_retry : Backend → ℕ → Backend × Request
issue_retry b now =
    let (k, c, request) = coordinator_issue_retry b.coordinator now b.client in
    (
      record b { coordinator = k; client = c; statistics = count_retry request b.statistics },
      request,
    )

abbrev pub count_delivery : Option (List ℕ) → Statistics → Statistics
count_delivery none s = record s { cache_misses = count_up s.cache_misses }
count_delivery (some block) s = record s {
  cache_hits = count_up s.cache_hits;
  sectors_delivered = count_up s.sectors_delivered;
}

-- The block is what is stored through `output`.
unfoldable pub copy_ready : Backend → ℕ → ℕ → Backend × Option (List ℕ)
copy_ready b lba generation =
    let (p, block) = pool_copy_ready b.buffers lba generation in
    (record b { buffers = p; statistics = count_delivery block b.statistics }, block)

abbrev pub forget_media : Backend → Coordinator × Client → Backend
forget_media b (k, c) = record b {
  coordinator = k;
  client = c;
  buffers = clear_pool b.buffers;
  transfer = no_transfer;
  handle = none;
  lba = 0;
  generation = 0;
  has_generation = false;
  media_generation = 0;
}

unfoldable pub disconnect : Backend → Backend
disconnect b = forget_media b (coordinator_disconnect b.coordinator b.client cancel_operation)

unfoldable pub invalidate : Backend → Backend
invalidate b = forget_media b (cancel b.coordinator b.client)

abbrev pub transfer_active : Backend → Bool
transfer_active b = is_transfer b.transfer

unfoldable pub reset_statistics : Backend → Backend
reset_statistics b = record b { statistics = new_statistics }
