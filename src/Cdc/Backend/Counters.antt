-- ===== src/Cdc/Backend/Counters.antt =====
-- shared/protocol/include/picosd/protocol/cdc_write_through_backend.hpp: `CdcBackendStatistics`, and what
-- the backend records in it. The counters are 64-bit numbers.
use pico_sdemu.Common.{
  ℕ, suc, ◌+◌, ◌-◌, ◌*◌, ◌/◌, Bool, true, false, not, List, [], ◌∷◌, if◌then◌else◌, ◌==◌, ltb,
  get_or, set,
}
use pico_sdemu.Common.Word.{u64}

pub data TransferType : Type 0 where
  no_transfer read_transfer write_transfer : TransferType

abbrev pub is_transfer : TransferType → Bool
is_transfer no_transfer = false
is_transfer t = true

abbrev pub is_read_transfer : TransferType → Bool
is_read_transfer read_transfer = true
is_read_transfer t = false

abbrev pub is_write_transfer : TransferType → Bool
is_write_transfer write_transfer = true
is_write_transfer t = false

pub record Statistics : Type 0 where
  pub read_requests : ℕ
  pub write_requests : ℕ
  pub completed_reads : ℕ
  pub completed_writes : ℕ
  pub completed_bytes : ℕ
  pub sectors_delivered : ℕ
  pub cache_hits : ℕ
  pub cache_misses : ℕ
  pub read_coalesces : ℕ
  pub prefetch_requests : ℕ
  pub prefetch_skips : ℕ
  pub timeouts : ℕ
  pub retries : ℕ
  pub protocol_faults : ℕ
  pub total_latency : ℕ
  pub maximum_latency : ℕ
  pub total_write_busy_duration : ℕ
  pub maximum_write_busy_duration : ℕ
  pub latency_buckets : List ℕ

abbrev pub new_statistics : Statistics
new_statistics = record {
  read_requests = 0;
  write_requests = 0;
  completed_reads = 0;
  completed_writes = 0;
  completed_bytes = 0;
  sectors_delivered = 0;
  cache_hits = 0;
  cache_misses = 0;
  read_coalesces = 0;
  prefetch_requests = 0;
  prefetch_skips = 0;
  timeouts = 0;
  retries = 0;
  protocol_faults = 0;
  total_latency = 0;
  maximum_latency = 0;
  total_write_busy_duration = 0;
  maximum_write_busy_duration = 0;
  latency_buckets = 0 ∷ 0 ∷ 0 ∷ 0 ∷ 0 ∷ 0 ∷ 0 ∷ [];
}

abbrev pub latency_bounds : List ℕ
latency_bounds = 1 ∷ 2 ∷ 5 ∷ 10 ∷ 50 ∷ 100 ∷ []

-- `++`.
unfoldable pub count_up : ℕ → ℕ
count_up n = u64 (n + 1)

unfoldable pub completed_transfers : Statistics → ℕ
completed_transfers s = u64 (s.completed_reads + s.completed_writes)

-- The quotients are taken where the divisor is not 0.
unfoldable pub average_latency : Statistics → ℕ
unfolding completed_transfers
average_latency s =
    let completed = completed_transfers s in
    if completed == 0 then 0 else s.total_latency / completed

unfoldable pub average_throughput : Statistics → ℕ
average_throughput s = if s.total_latency == 0 then 0 else s.completed_bytes / s.total_latency

unfoldable pub cache_hit_permille : Statistics → ℕ
cache_hit_permille s =
    let lookups = u64 (s.cache_hits + s.cache_misses) in
    if lookups == 0 then 0 else u64 (s.cache_hits * 1000) / lookups

-- The loop that finds the bucket of a latency.
pub bucket_of : ℕ → List ℕ → ℕ
bucket_of latency [] = 0
bucket_of latency (bound ∷ bounds) =
    let later = bucket_of latency bounds in if ltb bound latency then suc later else 0

-- A clock that has gone back gives 0.
abbrev pub elapsed : ℕ → ℕ → ℕ
elapsed started_at now = if ltb now started_at then 0 else now - started_at

abbrev pub larger : ℕ → ℕ → ℕ
larger maximum n = if ltb maximum n then n else maximum

unfoldable pub record_write_busy_duration : TransferType → ℕ → ℕ → Statistics → Statistics
record_write_busy_duration type started_at now s =
    let duration = elapsed started_at now in
    if not (is_write_transfer type) then s else record s {
      total_write_busy_duration = u64 (s.total_write_busy_duration + duration);
      maximum_write_busy_duration = larger s.maximum_write_busy_duration duration;
    }

-- The counter of the completed type, and the bytes.
unfoldable pub count_completed : TransferType → Statistics → Statistics
unfolding count_up
count_completed read_transfer s = record s { completed_reads = count_up s.completed_reads }
count_completed write_transfer s = record s { completed_writes = count_up s.completed_writes }
count_completed no_transfer s = s

unfoldable pub record_completion : TransferType → ℕ → ℕ → Statistics → Statistics
unfolding count_completed record_write_busy_duration bucket_of count_up
record_completion type started_at now s =
    let latency = elapsed started_at now in
    let bucket = bucket_of latency latency_bounds in
    let counted = count_completed type s in
    let filled = record counted { completed_bytes = u64 (counted.completed_bytes + 512) } in
    let t = record_write_busy_duration type started_at now filled in
    record t {
      total_latency = u64 (t.total_latency + latency);
      maximum_latency = larger t.maximum_latency latency;
      latency_buckets = set t.latency_buckets bucket (count_up (get_or t.latency_buckets bucket 0));
    }
