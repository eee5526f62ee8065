-- ===== src/Sd/Engine.antt =====
-- shared/protocol/src/sd_spi_card_engine.cpp: `SdSpiCardEngine`, which joins the framers and the card
-- model. The engine's reference to the model is its field `model`. The bytes of an output are those
-- appended; `Engine.Output` shows that they fit the source's fixed array.
pub mod Output
use pico_sdemu.Common.{
  ℕ, ◌+◌, ◌/◌, ◌^◌, Bool, true, false, ◌&&◌, ◌||◌, Option, none, some, List, [], ◌∷◌, ◌++◌,
  if◌then◌else◌, ◌==◌, take,
}
use pico_sdemu.Common.Word.{u8}
use pico_sdemu.Sd.Crc.{crc16}
use pico_sdemu.Sd.Command.{
  CommandError, no_error, invalid_start_bits, invalid_end_bit, crc_mismatch, CrcPolicy, required,
  ignored, DecodeResult, Response, make_r1, r1_com_crc_error, make_data_response,
  data_response_crc_error, make_read_data_block, start_block_token,
}
use pico_sdemu.Sd.Storage.{
  BlockBackend, Block, ReadResult, complete_read, pending_read, failed_read,
}
use pico_sdemu.Sd.State.{is_receiving}
use pico_sdemu.Sd.Framers.{
  CommandFramer, new_command_framer, push_command_byte, reset_command, command_receiving,
  DataFramer, DataEvent, block_event, stop_event, single_block, multi_block, new_data_framer,
  push_data_byte, reset_data, begin_data, data_receiving,
}
use pico_sdemu.Sd.Model.{
  CardModel, ModelResult, WriteResult, execute, retry_pending_read, read_next_multi_block,
  finish_multi_write, abort_pending_write, write_block,
}

pub record EngineOutput : Type 0 where
  pub bytes : List ℕ
  pub is_busy : Bool

pub record Counters : Type 0 where
  pub command_crc_errors : ℕ
  pub data_crc_errors : ℕ
  pub aborted_transactions : ℕ

pub record Engine (S : Type 0) : Type 0 where
  pub model : CardModel S
  pub command_framer : CommandFramer
  pub data_framer : DataFramer
  pub write_pending : Bool
  pub pending_write_block : Block
  pub pending_write_crc : ℕ
  pub counters : Counters

abbrev pub empty_output : EngineOutput
empty_output = record { bytes = []; is_busy = false }

-- `append_response`: the first `size` bytes of the response.
unfoldable pub append_response : EngineOutput → Response → EngineOutput
append_response output response = record output {
  bytes = output.bytes ++ take response.size response.bytes;
}

unfoldable pub append_read_block : EngineOutput → Block → EngineOutput
append_read_block output block = record output {
  bytes = output.bytes ++ make_read_data_block block;
}

unfoldable pub append_register_data : EngineOutput → List ℕ → EngineOutput
append_register_data output register_data =
    let crc = crc16 register_data in
    record output {
      bytes =
          output.bytes ++ (start_block_token ∷ (register_data ++ (u8 (crc / 2 ^ 8) ∷ u8 crc ∷ [])));
    }

-- The reply to a data block, once the model has not left it pending.
abbrev pub write_output : WriteResult → EngineOutput
write_output w = record { bytes = w.data_response ∷ []; is_busy = w.is_busy }

abbrev pub count_data_error : ℕ → Counters → Counters
count_data_error data_response c =
    if data_response == make_data_response data_response_crc_error
    then record c { data_crc_errors = c.data_crc_errors + 1 }
    else c

abbrev pub is_crc_mismatch : CommandError → Bool
is_crc_mismatch crc_mismatch = true
is_crc_mismatch e = false

-- What a command's execution puts out.
pub result_output : ModelResult → EngineOutput
unfolding append_response append_read_block append_register_data
result_output result =
    let with_response = append_response empty_output result.response in
    let with_block : EngineOutput = elim result.read_block [
      | none ↦ with_response
      | some block ↦ append_read_block with_response block
    ] in
    elim result.register_data [
      | none ↦ with_block
      | some bytes ↦ append_register_data with_block bytes
    ]

module _ {S : Type 0} where
  unfoldable pub new_engine : CardModel S → Engine S
  unfolding new_command_framer new_data_framer
  new_engine model = record {
    model = model;
    command_framer = new_command_framer;
    data_framer = new_data_framer;
    write_pending = false;
    pending_write_block = [];
    pending_write_crc = 0;
    counters = record { command_crc_errors = 0; data_crc_errors = 0; aborted_transactions = 0 };
  }

  -- The two tests after `execute`: an accepted CMD24 or CMD25 arms the data framer.
  pub arm_data_framer : Engine S → ℕ → Engine S
  unfolding begin_data
  arm_data_framer e index =
      if index == 24 && is_receiving e.model.state
      then record e { data_framer = begin_data e.data_framer single_block }
      else if index == 25 && is_receiving e.model.state
      then record e { data_framer = begin_data e.data_framer multi_block }
      else e

  unfoldable pub chip_select_released : Engine S → Engine S
  unfolding reset_command reset_data command_receiving data_receiving abort_pending_write
  chip_select_released e = record e {
    counters =
        if command_receiving e.command_framer || data_receiving e.data_framer
        then record e.counters { aborted_transactions = e.counters.aborted_transactions + 1 }
        else e.counters;
    command_framer = reset_command e.command_framer;
    data_framer = reset_data e.data_framer;
    write_pending = false;
    model = abort_pending_write e.model;
  }

module _ {S : Type 0} (B : BlockBackend S) where
  -- A complete data block or stop token.
  pub take_event : Engine S → DataEvent → Engine S × Option EngineOutput
  unfolding write_block finish_multi_write make_data_response
  take_event e stop_event = (record e { model = (finish_multi_write e.model).0 }, some empty_output)
  take_event e (block_event payload crc) =
      let (model, result) = write_block B e.model payload crc in
      if result.is_pending
      then (
        record e {
          model = model;
          write_pending = true;
          pending_write_block = payload;
          pending_write_crc = crc;
        },
        none,
      )
      else (
        record e { model = model; counters = count_data_error result.data_response e.counters },
        some (write_output result),
      )

  pub push_data : Engine S → ℕ → Engine S × Option EngineOutput
  unfolding take_event push_data_byte
  push_data e byte =
      let (framer, event) = push_data_byte e.data_framer byte in
      elim event [
        | none ↦ (record e { data_framer = framer }, none)
        | some ev ↦ take_event (record e { data_framer = framer }) ev
      ]

  -- A decoded command frame.
  pub take_command : Engine S → DecodeResult → Engine S × Option EngineOutput
  unfolding arm_data_framer execute result_output append_response make_r1
  take_command e decoded = elim decoded.error [
    | no_error ↦
        let (model, result) = execute B e.model decoded.command in
        (
          arm_data_framer (record e { model = model }) decoded.command.index,
          some (result_output result),
        )
    | _ ↦ (
      record e {
        counters =
            if is_crc_mismatch decoded.error
            then record e.counters { command_crc_errors = e.counters.command_crc_errors + 1 }
            else e.counters;
      },
      some (append_response empty_output (make_r1 r1_com_crc_error)),
    )
  ]

  pub push_command : Engine S → ℕ → Engine S × Option EngineOutput
  unfolding take_command push_command_byte
  push_command e byte =
      let (framer, decoded) =
        push_command_byte e.command_framer byte
          (if e.model.command_crc_enabled then required else ignored) in
      elim decoded [
        | none ↦ (record e { command_framer = framer }, none)
        | some d ↦ take_command (record e { command_framer = framer }) d
      ]

  unfoldable pub push_byte : Engine S → ℕ → Engine S × Option EngineOutput
  unfolding push_data push_command data_receiving
  push_byte e byte = if data_receiving e.data_framer then push_data e byte else push_command e byte

  -- The read half of `poll_pending_io`, for a pending read.
  pub poll_read : Engine S → Engine S × Option EngineOutput
  unfolding retry_pending_read append_read_block
  poll_read e =
      let (model, result) = retry_pending_read B e.model in
      elim result [
        | pending_read ↦ (record e { model = model }, none)
        | complete_read block ↦
            (record e { model = model }, some (append_read_block empty_output block))
        | failed_read ↦ (record e { model = model }, some empty_output)
      ]

  pub poll_write : Engine S → Engine S × Option EngineOutput
  unfolding write_block
  poll_write e =
      let (model, result) = write_block B e.model e.pending_write_block e.pending_write_crc in
      if result.is_pending
      then (record e { model = model }, none)
      else (record e { model = model; write_pending = false }, some (write_output result))

  unfoldable pub poll_pending_io : Engine S → Engine S × Option EngineOutput
  unfolding poll_read poll_write
  poll_pending_io e =
      if e.model.pending_read_active
      then poll_read e
      else if e.write_pending
      then poll_write e
      else (e, none)

  unfoldable pub next_multi_read_block : Engine S → Engine S × Option EngineOutput
  unfolding read_next_multi_block append_read_block
  next_multi_read_block e =
      let (model, block) = read_next_multi_block B e.model in
      elim block [
        | none ↦ (record e { model = model }, none)
        | some b ↦ (record e { model = model }, some (append_read_block empty_output b))
      ]
