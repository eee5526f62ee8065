-- ===== src/Host/Runner.antt =====
-- host/terminal/src/session_runner.cpp: `process_one_request`, over the boundary `CdcTransport` of
-- cdc_transport.hpp as an interface.
use pico_sdemu.Common.{Bool, true, false, if◌then◌else◌}
use pico_sdemu.Cdc.Numbers.{Text}
use pico_sdemu.Host.Dispatcher.{Image, Dispatcher, dispatch}

pub data TransportError : Type 0 where
  no_transport_error would_block not_open line_too_long invalid_line : TransportError

-- `read_line` returns what it stores through its argument.
pub record Transport (T : Type 0) : Type 0 where
  pub read_line : T → T × TransportError × Text
  pub write_line : T → Text → T × TransportError

pub data RunResult : Type 0 where
  processed no_request transport_error : RunResult

abbrev is_none : TransportError → Bool
is_none no_transport_error = true
is_none e = false

module _ {S T : Type 0} (I : Image S) (R : Transport T) where
  unfoldable pub answer_request : T → Dispatcher S → Text → T × Dispatcher S × RunResult
  answer_request t d request =
      let (d', reply) = dispatch I d request in
      let (t', written) = R.write_line t reply in
      (t', d', (if is_none written then processed else transport_error))

  unfoldable pub process_one_request : T → Dispatcher S → T × Dispatcher S × RunResult
  process_one_request t d =
      let (t', result, request) = R.read_line t in
      elim result [
        | no_transport_error ↦ answer_request t' d request
        | would_block ↦ (t', d, no_request)
        | other ↦ (t', d, transport_error)
      ]
