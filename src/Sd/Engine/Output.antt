-- ===== src/Sd/Engine/Output.antt =====
-- Every output of the engine fits the fixed array of `SdSpiEngineOutput`.
use pico_sdemu.Common.{
  ℕ, ◌≤◌, ◌≡◌, refl, Option, none, some, List, ◌++◌, arith, length, length-append, take,
  Option-cases, Bool-cases, inl, inr, if◌then◌else◌,
}
use pico_sdemu.Sd.Command.{
  Response, make_read_data_block, DecodeResult, CommandError, no_error, invalid_start_bits,
  invalid_end_bit, crc_mismatch, make_r1, required, ignored,
}
use pico_sdemu.Sd.Storage.{BlockBackend}
use pico_sdemu.Sd.Framers.{
  CommandFramer, DataEvent, block_event, stop_event, push_data_byte, push_command_byte,
  data_receiving,
}
use pico_sdemu.Sd.Model.Size.{ReadsBlocks, AreWhole, cost, execute-cost}
use pico_sdemu.Sd.Model.{ModelResult, execute}
use pico_sdemu.Sd.Engine.{
  Engine, EngineOutput, result_output, append_response, append_read_block, append_register_data,
  push_byte, take_event, push_data, take_command, push_command,
}

-- `kSdSpiEngineMaximumOutputSize`: a status byte and a data block.
abbrev pub maximum_output_size : ℕ
maximum_output_size = 516

sizes :
    (p : Response) (b d : Option (List ℕ))
    → let r : ModelResult = record { response = p; read_block = b; register_data = d } in
      length (result_output r).bytes ≡ cost r
unfolding result_output append_response append_read_block append_register_data make_read_data_block
sizes p none none = omega arith
sizes p (some b) none =
    omega (arith, length-append {0} (take p.size p.bytes) _, length-append {0} b _)
sizes p none (some d) =
    omega (arith, length-append {0} (take p.size p.bytes) _, length-append {0} d _)
sizes p (some b) (some d) = omega (
  arith,
  length-append {0} (take p.size p.bytes ++ make_read_data_block b) _,
  length-append {0} (take p.size p.bytes) _,
  length-append {0} b _,
  length-append {0} d _,
)

append-fits : (r : ModelResult) → length (result_output r).bytes ≡ cost r
append-fits r = sizes r.response r.read_block r.register_data

-- What the byte engine hands out, when it hands out anything, fits the source's array.
abbrev pub Fits : Option EngineOutput → Type 0
Fits none = Unit
Fits (some o) = length o.bytes ≤ maximum_output_size

module _ {S : Type 0} (B : BlockBackend S) (whole : ReadsBlocks B) where
  event-Fits : (e : Engine S) (v : DataEvent) → Fits (take_event B e v).1
  unfolding take_event
  event-Fits e stop_event = omega arith
  event-Fits e (block_event payload crc) = ground arith

  data-Fits : (e : Engine S) (byte : ℕ) → Fits (push_data B e byte).1
  unfolding push_data
  data-Fits e byte = elim (Option-cases (push_data_byte e.data_framer byte).1) [
    | inl no_event ↦ rw (no_event, push_data) tt
    | inr (v, event) ↦
        rw (event, push_data)
          (event-Fits (record e { data_framer = (push_data_byte e.data_framer byte).0 }) v)
  ]

  by_error :
      (e : Engine S) (d : DecodeResult) (error : CommandError)
      → d.error ≡ error
      → AreWhole e.model.registers
      → Fits (take_command B e d).1
  unfolding take_command append_response make_r1
  by_error e d no_error h w =
      rw (h, take_command)
        (omega (
          arith,
          append-fits (execute B e.model d.command).1,
          execute-cost B whole e.model d.command w,
        ))
  by_error e d invalid_start_bits h w = rw (h, take_command) (omega arith)
  by_error e d invalid_end_bit h w = rw (h, take_command) (omega arith)
  by_error e d crc_mismatch h w = rw (h, take_command) (omega arith)

  command-Fits :
      (e : Engine S) (d : DecodeResult) → AreWhole e.model.registers → Fits (take_command B e d).1
  command-Fits e d w = by_error e d d.error refl w

  push_command-Fits :
      (e : Engine S) (byte : ℕ) → AreWhole e.model.registers → Fits (push_command B e byte).1
  unfolding push_command
  push_command-Fits e byte w = elim (Option-cases (decoded e byte).1) [
    | inl more ↦ rw (more, push_command) tt
    | inr (d, done) ↦
        rw (done, push_command)
          (command-Fits (record e { command_framer = (decoded e byte).0 }) d w)
  ]
    where
      decoded : Engine S → ℕ → CommandFramer × Option DecodeResult
      decoded e byte =
          push_command_byte e.command_framer byte
            (if e.model.command_crc_enabled then required else ignored)

  -- With a storage that delivers whole blocks and registers of 16 bytes, no byte pushed makes the engine
  -- hand out more than the 516 bytes of its output array.
  pub push_byte-Fits :
      (e : Engine S) (byte : ℕ) → AreWhole e.model.registers → Fits (push_byte B e byte).1
  unfolding push_byte
  push_byte-Fits e byte w = elim (Bool-cases (data_receiving e.data_framer)) [
    | inl receiving ↦ rw (receiving, push_byte) (data-Fits e byte)
    | inr between ↦ rw (between, push_byte) (push_command-Fits e byte w)
  ]
