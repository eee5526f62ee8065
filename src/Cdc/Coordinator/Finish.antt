-- ===== src/Cdc/Coordinator/Finish.antt =====
-- When a response ends the operation.
use pico_sdemu.Common.{ℕ, ◌≡◌, true, false, arith}
use pico_sdemu.Cdc.Numbers.{Text}
use pico_sdemu.Cdc.Client.{Client, line, accept_response}
use pico_sdemu.Cdc.Operation.{Operation}
use pico_sdemu.Cdc.Coordinator.Invariant.{is_at_rest}
use pico_sdemu.Cdc.Coordinator.Retained.{is_failed}
use pico_sdemu.Cdc.Client.Refusals.{is_no_error}
use pico_sdemu.Cdc.Coordinator.{
  Coordinator, is_idle, is_awaiting, accept, expire, poll, issue_retry, issue, start, route_failure,
  route_decision,
}

pub accept_idle :
    (k : Coordinator) (response : Text) (now : ℕ) (c : Client)
    → is_idle k.state ≡ false
    → is_idle (accept k response now c).0.state ≡ true
    → (is_awaiting k.state ≡ true) × (is_no_error (accept_response c response).1 ≡ true)
unfolding accept route_failure route_decision
accept_idle k response now c h e = ground arith

-- What a call does to an operation: it goes on as it is, it fails, or it ends.
pub data Moves (k k' : Coordinator) : Type 0 where
  stays :
      k'.operation ≡ k.operation
      → is_at_rest k'.state ≡ is_at_rest k.state
      → is_idle k'.state ≡ is_idle k.state
      → Moves k k'
  fails : is_failed k'.state ≡ true → Moves k k'

pub expire-Moves : (k : Coordinator) (now : ℕ) (c : Client) → Moves k (expire k now c).0
unfolding expire route_failure route_decision
expire-Moves k now c = ground arith

pub poll-Moves : (k : Coordinator) (now : ℕ) → Moves k (poll k now)
unfolding poll
poll-Moves k now = ground arith

pub issue_retry-Moves : (k : Coordinator) (now : ℕ) (c : Client) → Moves k (issue_retry k now c).0
unfolding issue_retry issue
issue_retry-Moves k now c = ground arith

pub accept-Moves :
    (k : Coordinator) (response : Text) (now : ℕ) (c : Client)
    → is_idle (accept k response now c).0.state ≡ false
    → Moves k (accept k response now c).0
unfolding accept route_failure route_decision
accept-Moves k response now c h = ground arith

pub start_line :
    (k : Coordinator) (o : Operation) (now : ℕ) (c : Client) (text : Text)
    → (start k o now c).2 ≡ line text
    → ((start k o now c).0.operation ≡ o) × (is_awaiting (start k o now c).0.state ≡ true)
unfolding start issue
start_line k o now c text h = ground arith
