-- ===== src/Sd/Model.antt =====
-- shared/protocol/src/sd_model.cpp: `SdCardModel`, the SD command model over a storage backend.
-- The model's reference to its backend is the field `backend`, so a call that the backend makes of
-- its state is part of the new model. Block addresses are unbounded numbers; `Model.Invariant` shows
-- that those in use stay below a capacity that the card has exposed, a number of 32 bits.
pub mod Invariant
pub mod Access
pub mod Traffic
pub mod Uninitialised
mod Tests
pub mod Size
use Prim.Native.Nat.{bit_or}
use pico_sdemu.Common.{
  ℕ, ◌+◌, ◌*◌, ◌/◌, ◌%◌, ◌^◌, Bool, true, false, not, ◌&&◌, ◌||◌, Option, none, some, List, [], ◌∷◌,
  if◌then◌else◌, ◌==◌, leb, ltb, get_or,
}
use pico_sdemu.Common.Word.{u32}
use pico_sdemu.Sd.Crc.{crc16}
use pico_sdemu.Sd.Command.{
  Command, Response, no_response, make_r1, make_r2, make_r3, make_r7, make_data_response, r1_idle,
  r1_illegal_command, r1_com_crc_error, r1_address_error, data_response_accepted,
  data_response_crc_error, data_response_write_error,
}
use pico_sdemu.Sd.Registers.{CardType, sdsc, sdhc, Registers, make_registers}
use pico_sdemu.Sd.Storage.{
  block_size, Block, IoResult, complete, pending, failed, ReadResult, complete_read, pending_read,
  failed_read, BlockBackend,
}
use pico_sdemu.Sd.State.{
  CardState, StateError, power_up, is_idle, is_transfer, is_receiving, accepts_data, is_operational,
  no_error, invalid_transition, enter_idle, make_ready, begin_transfer, begin_receiving_data,
  begin_busy, finish_busy, finish_receiving_data, enter_fault,
}

-- `SdModelResult`; a `has_` flag and its value are one option.
pub record ModelResult : Type 0 where
  pub response : Response
  pub read_block : Option Block
  pub register_data : Option (List ℕ)

pub record WriteResult : Type 0 where
  pub response : Response
  pub data_response : ℕ
  pub is_busy : Bool
  pub is_pending : Bool

pub record CardModel (S : Type 0) : Type 0 where
  pub backend : S
  pub registers : Registers
  pub type : CardType
  pub state : CardState
  pub app_command_pending : Bool
  pub preerase_block_count : ℕ
  pub multi_read_active : Bool
  pub pending_read_active : Bool
  pub pending_read_is_multi : Bool
  pub pending_read_lba : ℕ
  pub next_multi_read_lba : ℕ
  pub multi_write_active : Bool
  pub command_crc_enabled : Bool
  pub pending_write_lba : ℕ

abbrev pub respond : Response → ModelResult
respond r = record { response = r; read_block = none; register_data = none }

abbrev pub is_sdsc : CardType → Bool
is_sdsc sdsc = true
is_sdsc sdhc = false

module _ {S : Type 0} where
  unfoldable pub r1_status : CardModel S → ℕ
  r1_status m = if is_idle m.state then r1_idle else 0

  -- The address of a block command; `none` is the result false.
  unfoldable pub command_lba : CardModel S → ℕ → Option ℕ
  command_lba m argument =
      if is_sdsc m.type && not (argument % block_size == 0)
      then none
      else let lba : ℕ = (if is_sdsc m.type then argument / block_size else argument) in
        if ltb lba m.registers.exposed_blocks then some lba else none

  -- `finish_multi_write`.
  unfoldable pub finish_multi_write : CardModel S → CardModel S × Bool
  unfolding finish_receiving_data
  finish_multi_write m =
      if not m.multi_write_active
      then (m, false)
      else let (next, error) = finish_receiving_data m.state in
        (
          record m { multi_write_active = false; state = next },
          elim error [ no_error ↦ true | invalid_transition ↦ false ],
        )

  unfoldable pub abort_pending_write : CardModel S → CardModel S
  unfolding finish_receiving_data
  abort_pending_write m = record m {
    pending_read_active = false;
    state = if is_receiving m.state then (finish_receiving_data m.state).0 else m.state;
    multi_write_active = false;
  }

  -- The branch of `execute` for CMD17 and CMD18, once the address is known.
  pub after_read : CardModel S → ℕ → ℕ → S × ReadResult → CardModel S × ModelResult
  unfolding make_r1
  after_read m index lba (s, result) =
      let issued = record m {
        backend = s;
        pending_read_is_multi = index == 18;
        pending_read_lba = lba;
      } in
      elim result [
        | complete_read block ↦ (
          (if index == 18
              then record issued {
                pending_read_active = false;
                multi_read_active = true;
                next_multi_read_lba = lba + 1;
              }
              else record issued { pending_read_active = false }),
          record { response = make_r1 0; read_block = some block; register_data = none },
        )
        | pending_read ↦ (record issued { pending_read_active = true }, respond (make_r1 0))
        | failed_read ↦ (record issued { pending_read_active = false }, respond (make_r1 0))
      ]

  -- The branch for CMD24 and CMD25.
  pub begin_write_command : CardModel S → ℕ → ℕ → CardModel S × ModelResult
  unfolding begin_receiving_data make_r1
  begin_write_command m index lba = (
    record m {
      pending_write_lba = lba;
      multi_write_active = index == 25;
      state = (begin_receiving_data m.state).0;
    },
    respond (make_r1 0),
  )

module _ {S : Type 0} (B : BlockBackend S) where
  unfoldable pub new_model : CardType → S → CardModel S
  new_model type backend = record {
    backend = backend;
    registers = make_registers type (u32 (B.block_count backend));
    type = type;
    state = power_up;
    app_command_pending = false;
    preerase_block_count = 0;
    multi_read_active = false;
    pending_read_active = false;
    pending_read_is_multi = false;
    pending_read_lba = 0;
    next_multi_read_lba = 0;
    multi_write_active = false;
    command_crc_enabled = false;
    pending_write_lba = 0;
  }

  unfoldable pub refresh_capacity : CardModel S → CardModel S
  refresh_capacity m = record m {
    registers = make_registers m.type (u32 (B.block_count m.backend));
  }

  -- CMD17, CMD18, CMD24 and CMD25 in a state that accepts them.
  pub block_command : CardModel S → Command → CardModel S × ModelResult
  unfolding command_lba begin_transfer after_read begin_write_command make_r1
  block_command m command = elim (command_lba m command.argument) [
    | none ↦ (m, respond (make_r1 r1_address_error))
    | some lba ↦
        let started = record m { state = (begin_transfer m.state).0 } in
        if command.index == 17 || command.index == 18
        then after_read started command.index lba (B.read started.backend lba)
        else begin_write_command started command.index lba
  ]

  -- `execute` from the test of CMD58 on.
  pub execute_data : CardModel S → Command → CardModel S × ModelResult
  unfolding begin_transfer r1_status make_r1 make_r3
  execute_data m command =
      let index = command.index in
      if index == 58 && accepts_data m.state
      then (
        m,
        respond (
            make_r3 (r1_status m) (
              get_or m.registers.ocr 0 0 * 2 ^ 24
              + get_or m.registers.ocr 1 0 * 2 ^ 16
              + get_or m.registers.ocr 2 0 * 2 ^ 8
              + get_or m.registers.ocr 3 0)),
      )
      else if (index == 9 || index == 10) && accepts_data m.state
      then (
        record m { state = (begin_transfer m.state).0 },
        record {
          response = make_r1 0;
          read_block = none;
          register_data = some (if index == 9 then m.registers.csd else m.registers.cid);
        },
      )
      else if index == 16 && command.argument == block_size
      then (m, respond (make_r1 (r1_status m)))
      else if (index == 17 || index == 18 || index == 24 || index == 25) && accepts_data m.state
      then block_command m command
      else (m, respond (make_r1 (bit_or r1_illegal_command (r1_status m))))

  -- `execute` from the test of CMD55 on.
  pub execute_application : CardModel S → Command → CardModel S × ModelResult
  unfolding make_ready r1_status make_r1
  execute_application m command =
      let index = command.index in
      if index == 55
      then (record m { app_command_pending = true }, respond (make_r1 (r1_status m)))
      else if index == 41 && m.app_command_pending && is_idle m.state
      then (
        record m { state = (make_ready m.state).0; app_command_pending = false },
        respond (make_r1 0),
      )
      else if index == 23 && m.app_command_pending && accepts_data m.state
      then (
        record m { preerase_block_count = command.argument; app_command_pending = false },
        respond (make_r1 (r1_status m)),
      )
      else execute_data m command

  -- `execute` from the test of CMD0 on.
  pub execute_basic : CardModel S → Command → CardModel S × ModelResult
  unfolding enter_idle r1_status make_r1 make_r2 make_r7
  execute_basic m command =
      let index = command.index in
      if index == 0
      then (
        record m {
          state = (enter_idle m.state).0;
          command_crc_enabled = false;
          multi_read_active = false;
          pending_read_active = false;
          multi_write_active = false;
        },
        respond (make_r1 r1_idle),
      )
      else if index == 8 && is_idle m.state
      then (m, respond (make_r7 (r1_status m) command.argument))
      else if index == 13 && is_operational m.state
      then (m, respond (make_r2 (r1_status m) 0))
      else if index == 12 && is_transfer m.state
      then (
        record m { multi_read_active = false; pending_read_active = false },
        respond (make_r1 0),
      )
      else if index == 59 && leb command.argument 1 && is_operational m.state
      then (
        record m { command_crc_enabled = command.argument == 1 },
        respond (make_r1 (r1_status m)),
      )
      else execute_application m command

  unfoldable pub execute : CardModel S → Command → CardModel S × ModelResult
  execute m command =
      let keeps = command.index == 55 || command.index == 41 || command.index == 23 in
      execute_basic
        (record m { app_command_pending = if keeps then m.app_command_pending else false }) command

  unfoldable pub retry_pending_read : CardModel S → CardModel S × ReadResult
  unfolding enter_fault
  retry_pending_read m =
      if not m.pending_read_active
      then (m, failed_read)
      else let (s, result) = B.read m.backend m.pending_read_lba in
        let issued = record m { backend = s } in
        elim result [
          | complete_read block ↦ (
            (if m.pending_read_is_multi
                then record issued {
                  pending_read_active = false;
                  multi_read_active = true;
                  next_multi_read_lba = m.pending_read_lba + 1;
                }
                else record issued { pending_read_active = false }),
            complete_read block,
          )
          | pending_read ↦ (issued, pending_read)
          | failed_read ↦ (
            record issued { pending_read_active = false; state = enter_fault m.state },
            failed_read,
          )
        ]

  unfoldable pub read_next_multi_block : CardModel S → CardModel S × Option Block
  read_next_multi_block m =
      if not m.multi_read_active || leb m.registers.exposed_blocks m.next_multi_read_lba
      then (m, none)
      else let (s, result) = B.read m.backend m.next_multi_read_lba in
        let issued = record m { backend = s } in
        elim result [
          | complete_read block ↦
              (record issued { next_multi_read_lba = m.next_multi_read_lba + 1 }, some block)
          | pending_read ↦ (issued, none)
          | failed_read ↦ (issued, none)
        ]

  -- A write that the backend completed.
  pub after_write : CardModel S → CardModel S × WriteResult
  unfolding begin_busy finish_busy begin_receiving_data make_r1 make_data_response
  after_write m =
      let settled = record m { state = (finish_busy (begin_busy m.state).0).0 } in
      let following = m.pending_write_lba + 1 in
      (
        (if not m.multi_write_active
            then settled
            else if ltb following m.registers.exposed_blocks
            then record settled {
              pending_write_lba = following;
              state = (begin_receiving_data settled.state).0;
            }
            else record settled { pending_write_lba = following; multi_write_active = false }),
        record {
          response = make_r1 0;
          data_response = make_data_response data_response_accepted;
          is_busy = true;
          is_pending = false;
        },
      )

  unfoldable pub write_block : CardModel S → Block → ℕ → CardModel S × WriteResult
  unfolding after_write enter_fault make_r1 make_data_response
  write_block m block crc =
      if not (is_receiving m.state) || not (crc16 block == crc)
      then (
        m,
        record {
          response = make_r1 r1_com_crc_error;
          data_response = make_data_response data_response_crc_error;
          is_busy = false;
          is_pending = false;
        },
      )
      else let (s, result) = B.write m.backend m.pending_write_lba block in
        let issued = record m { backend = s } in
        elim result [
          | pending ↦ (
            issued,
            record {
              response = no_response;
              data_response = data_response_write_error;
              is_busy = false;
              is_pending = true;
            },
          )
          | failed ↦ (
            record issued { state = enter_fault m.state },
            record {
              response = make_r1 r1_address_error;
              data_response = make_data_response data_response_write_error;
              is_busy = false;
              is_pending = false;
            },
          )
          | complete ↦ after_write issued
        ]
