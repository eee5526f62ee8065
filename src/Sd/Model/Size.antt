-- ===== src/Sd/Model/Size.antt =====
-- How many bytes the answer to a command takes on the wire.
use pico_sdemu.Common.{
  ℕ, ◌+◌, ◌≤◌, ◌≡◌, refl, Option, none, some, List, arith, length, take, Option-cases, Bool-cases,
  inl, inr, ◌==◌, ◌||◌,
}
use pico_sdemu.Sd.Command.{Command}
use pico_sdemu.Sd.Registers.{Registers}
use pico_sdemu.Sd.Storage.{
  BlockBackend, Block, ReadResult, complete_read, pending_read, failed_read, block_size,
}
use pico_sdemu.Sd.State.{begin_transfer}
use pico_sdemu.Sd.Model.{
  CardModel, ModelResult, command_lba, after_read, block_command, execute_data, execute_application,
  execute_basic, execute,
}

-- A storage whose completed reads deliver whole blocks.
abbrev pub ReadsBlocks : {S : Type 0} → BlockBackend S → Type 0
ReadsBlocks {S} B =
    (s : S) (lba : ℕ) (b : Block) → (B.read s lba).1 ≡ complete_read b → length b ≡ block_size

-- CSD and CID registers of 16 bytes.
abbrev pub AreWhole : Registers → Type 0
AreWhole r = (length r.csd ≡ 16) × (length r.cid ≡ 16)

-- A data block on the wire: a token, its bytes and two checksum bytes.
abbrev pub framed : Option (List ℕ) → ℕ
framed none = 0
framed (some xs) = length xs + 3

abbrev pub cost : ModelResult → ℕ
cost r =
    length (take r.response.size r.response.bytes) + framed r.read_block + framed r.register_data

module _ {S : Type 0} (B : BlockBackend S) (whole : ReadsBlocks B) where
  after_read-cost :
      (m : CardModel S) (index lba : ℕ) (s : S) (r : ReadResult)
      → ((b : Block) → r ≡ complete_read b → length b ≡ block_size)
      → cost (after_read m index lba (s, r)).1 ≤ 516
  unfolding after_read
  after_read-cost m index lba s (complete_read b) h = omega (arith, h b refl)
  after_read-cost m index lba s pending_read h = omega arith
  after_read-cost m index lba s failed_read h = omega arith

  block-cost : (m : CardModel S) (c : Command) → cost (block_command B m c).1 ≤ 516
  unfolding block_command
  block-cost m c = elim (Option-cases (command_lba m c.argument)) [
    | inl e ↦ rw (e, block_command) (omega arith)
    | inr (lba, e) ↦ elim (Bool-cases (c.index == 17 || c.index == 18)) [
      | inl is_read ↦
          rw (e, block_command)
            (rw is_read (
              after_read-cost (record m { state = (begin_transfer m.state).0 }) c.index lba
                (B.read m.backend lba).0 (B.read m.backend lba).1 (whole m.backend lba)))
      | inr is_write ↦ rw (e, block_command) (rw is_write (omega arith))
    ]
  ]

  data-cost :
      (m : CardModel S) (c : Command) → AreWhole m.registers → cost (execute_data B m c).1 ≤ 516
  unfolding execute_data
  data-cost m c w = ground (arith, block-cost m c)

  application-cost :
      (m : CardModel S) (c : Command)
      → AreWhole m.registers
      → cost (execute_application B m c).1 ≤ 516
  unfolding execute_application
  application-cost m c w = ground (arith, data-cost m c w)

  basic-cost :
      (m : CardModel S) (c : Command) → AreWhole m.registers → cost (execute_basic B m c).1 ≤ 516
  unfolding execute_basic
  basic-cost m c w = ground (arith, application-cost m c w)

  pub execute-cost :
      (m : CardModel S) (c : Command) → AreWhole m.registers → cost (execute B m c).1 ≤ 516
  unfolding execute
  execute-cost m c w = basic-cost _ c w
