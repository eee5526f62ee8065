-- ===== src/Cdc/Deadline.antt =====
-- shared/protocol/src/cdc_request_deadline.cpp: `CdcRequestDeadline`. The client is an argument, and is
-- returned by the method that may cancel its request.
use pico_sdemu.Common.{ℕ, ◌+◌, ◌-◌, Bool, true, false, not, ◌||◌, if◌then◌else◌, ◌==◌, ltb}
use pico_sdemu.Common.Word.{u64_max}
use pico_sdemu.Cdc.Client.{Client, request_pending, cancel_pending_request}

pub record Deadline : Type 0 where
  pub deadline : ℕ
  pub armed : Bool

abbrev pub clear_deadline : Deadline
clear_deadline = record { deadline = 0; armed = false }

unfoldable pub arm : Deadline → ℕ → ℕ → Client → Deadline × Bool
arm d now timeout client = if timeout == 0 || not (request_pending client) then (d, false) else (
  record {
    deadline = if ltb (u64_max - now) timeout then u64_max else now + timeout;
    armed = true;
  },
  true,
)

unfoldable pub expire_if_due : Deadline → ℕ → Client → Deadline × Client × Bool
unfolding cancel_pending_request
expire_if_due d now client =
    if not d.armed
    then (d, client, false)
    else if not (request_pending client)
    then (clear_deadline, client, false)
    else if ltb now d.deadline
    then (d, client, false)
    else let (client', cancelled) = cancel_pending_request client in
      (clear_deadline, client', cancelled)
