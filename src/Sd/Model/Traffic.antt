-- ===== src/Sd/Model/Traffic.antt =====
-- Command sequences: initialisation, and a block written and read back.
use pico_sdemu.Common.{ℕ, ◌≡◌, refl, ◌∙◌, true, false, none, some, arith, ==_refl}
use pico_sdemu.Sd.Crc.{crc16}
use pico_sdemu.Sd.Command.{Command, make_r1, make_data_response, data_response_accepted, r1_idle}
use pico_sdemu.Sd.Storage.{BlockBackend, Block, complete, complete_read}
use pico_sdemu.Sd.State.{ready, receiving_data, transfer, accepts_data}
use pico_sdemu.Sd.Model.{
  execute_basic, execute_application, execute_data, block_command, CardModel, respond, command_lba,
  execute, write_block,
}

abbrev pub command : ℕ → ℕ → Command
command index argument = record { index = index; argument = argument; crc_byte = 1 }

module _ {S : Type 0} (B : BlockBackend S) where
  -- From any state CMD0, CMD55 and ACMD41 bring the card to Ready, answering Idle, Idle and 0; the
  -- storage is not touched.
  pub initialise :
      (m : CardModel S)
      → let (m1, r1) = execute B m (command 0 0) in
        let (m2, r2) = execute B m1 (command 55 0) in
        let (m3, r3) = execute B m2 (command 41 0) in
        (m3.state ≡ ready)
        × (m3.backend ≡ m.backend)
        × (m3.multi_write_active ≡ false)
        × (r1 ≡ respond (make_r1 r1_idle))
        × (r2 ≡ respond (make_r1 r1_idle))
        × (r3 ≡ respond (make_r1 0))
  unfolding execute execute_basic execute_application execute_data block_command
  initialise m = (refl, refl, refl, refl, refl, refl)

  write_command :
      (m : CardModel S) (argument lba : ℕ)
      → accepts_data m.state ≡ true
      → command_lba m argument ≡ some lba
      → execute B m (command 24 argument) ≡ (
        record m {
          app_command_pending = false;
          state = receiving_data;
          multi_write_active = false;
          pending_write_lba = lba;
        },
        respond (make_r1 0),
      )
  unfolding execute execute_basic execute_application execute_data block_command
  write_command m argument lba a e = ground arith

  write_completes :
      (m : CardModel S) (b : Block) (s : S)
      → m.state ≡ receiving_data
      → m.multi_write_active ≡ false
      → B.write m.backend m.pending_write_lba b ≡ (s, complete)
      → (write_block B m b (crc16 b)).0 ≡ record m { backend = s; state = transfer }
  unfolding write_block
  write_completes m b s st nm w = ground (arith, ==_refl (crc16 b))

  read_command :
      (m : CardModel S) (argument lba : ℕ) (b : Block)
      → accepts_data m.state ≡ true
      → command_lba m argument ≡ some lba
      → (B.read m.backend lba).1 ≡ complete_read b
      → (execute B m (command 17 argument)).1
        ≡ record { response = make_r1 0; read_block = some b; register_data = none }
  unfolding execute execute_basic execute_application execute_data block_command
  read_command m argument lba b a e r = ground arith

  write_accepted :
      (m : CardModel S) (b : Block) (s : S)
      → m.state ≡ receiving_data
      → B.write m.backend m.pending_write_lba b ≡ (s, complete)
      → (write_block B m b (crc16 b)).1.data_response ≡ make_data_response data_response_accepted
  unfolding write_block
  write_accepted m b s st w = ground (arith, ==_refl (crc16 b))

  command_lba-same :
      (m n : CardModel S) (argument : ℕ)
      → n.type ≡ m.type
      → n.registers ≡ m.registers
      → command_lba n argument ≡ command_lba m argument
  unfolding command_lba
  command_lba-same m n argument t r = ground arith

  -- In a state that takes block commands, CMD24 to a valid address, then a block with its checksum that
  -- the storage completes, is accepted; and if the storage now reads that block back there, CMD17 to
  -- the same address answers 0 with exactly the block written.
  pub write_then_read :
      (m : CardModel S) (argument lba : ℕ) (b : Block) (s : S)
      → accepts_data m.state ≡ true
      → command_lba m argument ≡ some lba
      → B.write m.backend lba b ≡ (s, complete)
      → (B.read s lba).1 ≡ complete_read b
      → let (m1, _) = execute B m (command 24 argument) in
        let (m2, written) = write_block B m1 b (crc16 b) in
        (written.data_response ≡ make_data_response data_response_accepted)
        × ((execute B m2 (command 17 argument)).1
            ≡ record { response = make_r1 0; read_block = some b; register_data = none })
  write_then_read m argument lba b s a e w r =
      rw (write_command m argument lba a e, write_completes opened b s refl refl w)
        (
          write_accepted opened b s refl w,
          read_command (record opened { backend = s; state = transfer }) argument lba b refl
              (command_lba-same m (record opened { backend = s; state = transfer }) argument refl
                  refl
                ∙ e)
              r,
        )
    where
      opened : CardModel S
      opened = record m {
        app_command_pending = false;
        state = receiving_data;
        multi_write_active = false;
        pending_write_lba = lba;
      }
