-- ===== src/Cdc/Backend/Stuck.antt =====
-- What a backend does whose coordinator has given up.
use pico_sdemu.Common.{ℕ, ◌≡◌, Bool, true, false, List, [], ◌∷◌, arith, All}
use pico_sdemu.Cdc.Client.{refused, busy}
use pico_sdemu.Cdc.Coordinator.{
  expire, poll as coordinator_poll, issue_retry as coordinator_issue_retry,
}
use pico_sdemu.Cdc.Backend.{
  Backend, begin_handshake, accept_handshake, begin_get_info, begin_read, begin_prefetch,
  begin_sequential_prefetch, begin_write, expire_if_due, poll, issue_retry, copy_ready,
  reset_statistics, ready_for_transfer, abandon_transfer, clear_transfer_tracking, is_failed,
}
use pico_sdemu.Cdc.Backend.Medium.{
  BackendCall, hello, asks_info, clears, hears_hello, hears_info, reads, prefetches,
  prefetches_after, writes, expires, polls, retries, copies, backend_call,
}

-- All calls but the one that may tell the backend of another medium.
abbrev pub is_on_same_medium : BackendCall → Bool
is_on_same_medium (hears_info response) = false
is_on_same_medium a = true

unable : (b : Backend) → is_failed b.coordinator.state ≡ true → ready_for_transfer b ≡ false
unfolding ready_for_transfer
unable b h = ground arith

call_stays_failed :
    (b : Backend) (a : BackendCall)
    → is_on_same_medium a ≡ true
    → is_failed b.coordinator.state ≡ true
    → is_failed (backend_call b a).coordinator.state ≡ true
unfolding backend_call begin_handshake accept_handshake begin_get_info begin_read begin_prefetch
    begin_sequential_prefetch begin_write expire_if_due poll issue_retry copy_ready reset_statistics
    abandon_transfer clear_transfer_tracking expire coordinator_poll coordinator_issue_retry
call_stays_failed b hello s h = h
call_stays_failed b asks_info s h = ground (arith, unable b h)
call_stays_failed b clears s h = h
call_stays_failed b (hears_hello response) s h = h
call_stays_failed b (hears_info response) s h = ground arith
call_stays_failed b (reads lba generation now) s h = ground (arith, unable b h)
call_stays_failed b (prefetches lba generation now) s h = ground (arith, unable b h)
call_stays_failed b (prefetches_after lba generation now) s h = ground (arith, unable b h)
call_stays_failed b (writes lba generation block now) s h = ground (arith, unable b h)
call_stays_failed b (expires now) s h = ground arith
call_stays_failed b (polls now) s h = ground arith
call_stays_failed b (retries now) s h = ground arith
call_stays_failed b (copies lba generation) s h = h

unfoldable pub backend_calls : Backend → List BackendCall → Backend
backend_calls b [] = b
backend_calls b (a ∷ as_next) = backend_calls (backend_call b a) as_next

calls_stay_failed :
    (b : Backend) (as_next : List BackendCall)
    → All (λ a. is_on_same_medium a ≡ true) as_next
    → is_failed b.coordinator.state ≡ true
    → is_failed (backend_calls b as_next).coordinator.state ≡ true
unfolding backend_calls
calls_stay_failed b [] s h = h
calls_stay_failed b (a ∷ as_next) s h =
    calls_stay_failed (backend_call b a) as_next s.1 (call_stays_failed b a s.0 h)

refused_read :
    (b : Backend) (lba generation now : ℕ)
    → is_failed b.coordinator.state ≡ true
    → begin_read b lba generation now ≡ (b, refused busy)
unfolding begin_read
refused_read b lba generation now h = ground (arith, unable b h)

refused_write :
    (b : Backend) (lba generation : ℕ) (block : List ℕ) (now : ℕ)
    → is_failed b.coordinator.state ≡ true
    → begin_write b lba generation block now ≡ (b, refused busy)
unfolding begin_write
refused_write b lba generation block now h = ground (arith, unable b h)

refused_info :
    (b : Backend) → is_failed b.coordinator.state ≡ true → begin_get_info b ≡ (b, refused busy)
unfolding begin_get_info
refused_info b h = ground (arith, unable b h)

-- A failure is final on the same medium: once the coordinator has failed, then after any sequence of
-- handshakes, requests, prefetches, polls, expiries, retries and copies, every read, every write and
-- every request for information is refused as busy.
pub failed_is_final :
    (b : Backend) (cs : List BackendCall) (lba generation now : ℕ) (block : List ℕ)
    → is_failed b.coordinator.state ≡ true
    → All (λ a. is_on_same_medium a ≡ true) cs
    → let b' = backend_calls b cs in
      (begin_read b' lba generation now ≡ (b', refused busy))
      × (begin_write b' lba generation block now ≡ (b', refused busy))
      × (begin_get_info b' ≡ (b', refused busy))
failed_is_final b cs lba generation now block h s =
    let f : is_failed (backend_calls b cs).coordinator.state ≡ true = calls_stay_failed b cs s h in
    (
      refused_read _ lba generation now f,
      refused_write _ lba generation block now f,
      refused_info _ f,
    )
