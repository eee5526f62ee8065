-- ===== src/Sd/State.antt =====
-- shared/protocol/src/sd_card_state.cpp, lines on `SdCardStateMachine`. The machine is its one
-- field; a method returns the new state and its error.
use pico_sdemu.Common.{Bool, true, false}

pub data CardState : Type 0 where
  power_up idle ready transfer receiving_data busy fault : CardState

-- `no_error` is `SdCardStateError::None`.
pub data StateError : Type 0 where
  no_error invalid_transition : StateError

unfoldable pub finish_power_up : CardState → CardState × StateError
finish_power_up power_up = (idle, no_error)
finish_power_up s = (s, invalid_transition)

unfoldable pub reset : CardState → CardState × StateError
reset power_up = (power_up, invalid_transition)
reset fault = (fault, invalid_transition)
reset s = (idle, no_error)

unfoldable pub enter_idle : CardState → CardState × StateError
enter_idle s = (idle, no_error)

unfoldable pub make_ready : CardState → CardState × StateError
make_ready idle = (ready, no_error)
make_ready s = (s, invalid_transition)

unfoldable pub begin_transfer : CardState → CardState × StateError
begin_transfer ready = (transfer, no_error)
begin_transfer transfer = (transfer, no_error)
begin_transfer s = (s, invalid_transition)

unfoldable pub begin_receiving_data : CardState → CardState × StateError
begin_receiving_data transfer = (receiving_data, no_error)
begin_receiving_data s = (s, invalid_transition)

unfoldable pub begin_busy : CardState → CardState × StateError
begin_busy receiving_data = (busy, no_error)
begin_busy s = (s, invalid_transition)

unfoldable pub finish_busy : CardState → CardState × StateError
finish_busy busy = (transfer, no_error)
finish_busy s = (s, invalid_transition)

unfoldable pub finish_receiving_data : CardState → CardState × StateError
finish_receiving_data receiving_data = (transfer, no_error)
finish_receiving_data s = (s, invalid_transition)

unfoldable pub enter_fault : CardState → CardState
enter_fault s = fault

-- The comparisons that the card model makes.
abbrev pub is_idle : CardState → Bool
is_idle idle = true
is_idle s = false

abbrev pub is_transfer : CardState → Bool
is_transfer transfer = true
is_transfer s = false

abbrev pub is_receiving : CardState → Bool
is_receiving receiving_data = true
is_receiving s = false

-- Ready or Transfer.
abbrev pub accepts_data : CardState → Bool
accepts_data ready = true
accepts_data transfer = true
accepts_data s = false

-- Neither PowerUp nor Fault.
abbrev pub is_operational : CardState → Bool
is_operational power_up = false
is_operational fault = false
is_operational s = true
