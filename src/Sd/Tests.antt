-- ===== src/Sd/Tests.antt =====
-- The card's theorems at a storage of one block, and at concrete frames and streams.
use pico_sdemu.Common.{
  ℕ, ◌+◌, ◌*◌, ◌≡◌, ◌≤◌, ◌<◌, refl, true, false, List, [], ◌∷◌, ◌++◌, arith, if◌then◌else◌, leb,
  length, replicate, none, some, drop, take, length-replicate, ◌/◌, ◌%◌, ◌↔◌,
}
use pico_sdemu.Sd.Crc.{crc16, crc7_command_byte}
use pico_sdemu.Sd.Command.{
  required, decode_command, no_error, make_r1, make_data_response, data_response_accepted, r1_idle,
  make_read_data_block, start_block_token,
}
use pico_sdemu.Sd.Command.Frames.{
  decode-encode, decode_accepts_iff, read_data_block_residue, encode_frame, frame_body,
}
use pico_sdemu.Sd.Registers.{sdhc, sdsc, make_registers}
use pico_sdemu.Sd.Registers.Capacity.{sdsc_not_largest, sdsc_too_large}
use pico_sdemu.Sd.Registers.Whole.{make_registers-sizes}
use pico_sdemu.Sd.Storage.{BlockBackend, Block, complete, complete_read, block_size}
use pico_sdemu.Sd.State.{ready}
use pico_sdemu.Sd.Framers.{
  new_command_framer, new_data_framer, begin_data, multi_block, block_event,
}
use pico_sdemu.Sd.Framers.Stream.{
  feed_commands, feed_data, feed_frame, feed_block, data_token, after_block, IsBetween,
}
use pico_sdemu.Sd.Model.{CardModel, respond, command_lba, new_model, execute, write_block}
use pico_sdemu.Sd.Model.Traffic.{command, initialise, write_then_read}
use pico_sdemu.Sd.Model.Size.{ReadsBlocks, AreWhole}
use pico_sdemu.Queue.{empty_queue}
use pico_sdemu.Queue.Inv.{IsValid, empty-IsValid}
use pico_sdemu.Queue.Refine.{contents}
use pico_sdemu.Sd.Worker.{Worker, no_counts, enqueue_output}
use pico_sdemu.Sd.Worker.Transmit.{enqueue_whole_or_not}
use pico_sdemu.Sd.Engine.{EngineOutput, Engine, new_engine, push_byte}
use pico_sdemu.Sd.Engine.Output.{Fits, push_byte-Fits}

-- The one block that all addresses of these storages share.
abbrev cell_backend : BlockBackend Block
cell_backend = record {
  block_count = λ s. 1024;
  media_present = λ s. true;
  write_protected = λ s. false;
  flush = λ s. (s, complete);
  read = λ s lba. (s, complete_read s);
  write = λ s lba b. (b, complete);
}

abbrev fresh_card : CardModel Block
fresh_card = new_model cell_backend sdhc []

-- A card that has been initialised.
abbrev ready_card : CardModel Block
ready_card = record fresh_card { state = ready }

initialise_example :
    let (m1, r1) = execute cell_backend ready_card (command 0 0) in
    let (m2, r2) = execute cell_backend m1 (command 55 0) in
    let (m3, r3) = execute cell_backend m2 (command 41 0) in
    (m3.state ≡ ready)
    × (m3.backend ≡ ready_card.backend)
    × (m3.multi_write_active ≡ false)
    × (r1 ≡ respond (make_r1 r1_idle))
    × (r2 ≡ respond (make_r1 r1_idle))
    × (r3 ≡ respond (make_r1 0))
initialise_example = initialise cell_backend ready_card

lba_seven : command_lba ready_card 7 ≡ some 7
unfolding command_lba new_model make_registers
lba_seven = refl

write_then_read_example :
    let (m1, _) = execute cell_backend ready_card (command 24 7) in
    let (m2, written) = write_block cell_backend m1 (1 ∷ 2 ∷ []) (crc16 (1 ∷ 2 ∷ [])) in
    (written.data_response ≡ make_data_response data_response_accepted)
    × ((execute cell_backend m2 (command 17 7)).1
        ≡ record { response = make_r1 0; read_block = some (1 ∷ 2 ∷ []); register_data = none })
write_then_read_example =
    write_then_read cell_backend ready_card 7 7 (1 ∷ 2 ∷ []) (1 ∷ 2 ∷ []) refl lba_seven refl refl

-- A storage that delivers blocks of zeroes.
abbrev zero_backend : BlockBackend Block
zero_backend = record {
  block_count = λ s. 1024;
  media_present = λ s. true;
  write_protected = λ s. false;
  flush = λ s. (s, complete);
  read = λ s lba. (s, complete_read (replicate block_size 0));
  write = λ s lba b. (b, complete);
}

zero_ReadsBlocks : ReadsBlocks zero_backend
zero_ReadsBlocks s lba b h = ground (arith, length-replicate {A = ℕ} block_size 0)

abbrev zero_engine : Engine Block
zero_engine = new_engine (new_model zero_backend sdhc [])

zero_AreWhole : AreWhole zero_engine.model.registers
unfolding new_engine new_model
zero_AreWhole = let sizes = make_registers-sizes sdhc 1024 in (sizes.2, sizes.1)

-- A card that is ready, and whose engine has all but the last byte of a CMD17.
abbrev reading_engine : Engine Block
reading_engine = record zero_engine {
  model = record zero_engine.model { state = ready };
  command_framer = record { frame = 0x51 ∷ 0 ∷ 0 ∷ 0 ∷ 0 ∷ 0 ∷ []; count = 5 };
}

push_byte-Fits_example : Fits (push_byte zero_backend reading_engine 0x01).1
push_byte-Fits_example =
    push_byte-Fits zero_backend zero_ReadsBlocks reading_engine 0x01 zero_AreWhole

-- CMD0, with its CRC.
abbrev reset_frame : List ℕ
reset_frame = 0x40 ∷ 0 ∷ 0 ∷ 0 ∷ 0 ∷ 0x95 ∷ []

abbrev few_bytes : List ℕ
few_bytes = 1 ∷ 2 ∷ 3 ∷ []

framer-IsBetween : IsBetween new_command_framer
unfolding new_command_framer
framer-IsBetween = (refl, refl)

feed_frame_example :
    let (f', outs) = feed_commands new_command_framer required ((0xff ∷ 0 ∷ []) ++ reset_frame) in
    IsBetween f' × (outs ≡ decode_command reset_frame required ∷ [])
feed_frame_example =
    feed_frame new_command_framer required (0xff ∷ 0 ∷ []) 0x40 0 0 0 0 0x95 framer-IsBetween
      (omega arith, (omega arith, tt)) refl

framer_whole : length new_data_framer.payload ≡ block_size
unfolding new_data_framer
framer_whole = length-replicate {A = ℕ} block_size 0

feed_block_example :
    let (f', events) =
      feed_data (begin_data new_data_framer multi_block) (
        (0xff ∷ []) ++ (data_token multi_block ∷ (replicate block_size 7 ++ (0x12 ∷ 0x34 ∷ [])))) in
    (events ≡ block_event (replicate block_size 7) (0x12 * 256 + 0x34) ∷ [])
    × (f'.state ≡ after_block multi_block)
    × (f'.payload ≡ replicate block_size 7)
feed_block_example =
    feed_block new_data_framer multi_block (0xff ∷ []) (replicate block_size 7) 0x12 0x34
      framer_whole ((omega arith, omega arith), tt) (length-replicate {A = ℕ} block_size 7)
      (omega arith) (omega arith)

decode-encode_example : decode_command (encode_frame 17 1024) required ≡ record {
  error = no_error;
  command = record {
    index = 17;
    argument = 1024;
    crc_byte = crc7_command_byte (frame_body 17 1024);
  };
}
decode-encode_example = decode-encode 17 1024 required (omega arith) (omega arith)

decode_accepts_iff_example :
    let decoding = decode_command reset_frame required in
    ((decoding.error ≡ no_error)
      ↔ ((0x40 / 64 ≡ 1) × (0x95 % 2 ≡ 1) × (crc7_command_byte (0x40 ∷ 0 ∷ 0 ∷ 0 ∷ 0 ∷ []) ≡ 0x95)))
    × ((decoding ≡ record {
      error = no_error;
      command = record { index = 0; argument = 0; crc_byte = 0x95 };
    })
        ↔ ((0x40 / 64 ≡ 1)
            × (0x95 % 2 ≡ 1)
            × (crc7_command_byte (0x40 ∷ 0 ∷ 0 ∷ 0 ∷ 0 ∷ []) ≡ 0x95)))
decode_accepts_iff_example = decode_accepts_iff 0x40 0 0 0 0 0x95

read_data_block_residue_example :
    let block = make_read_data_block few_bytes in
    (take 1 block ≡ (start_block_token ∷ []))
    × (take (length few_bytes) (drop 1 block) ≡ few_bytes)
    × (length block ≡ length few_bytes + 3)
    × (crc16 (drop 1 block) ≡ 0)
read_data_block_residue_example = read_data_block_residue few_bytes

abbrev idle_worker : Worker Block
idle_worker = record {
  engine = zero_engine;
  received = empty_queue 0 8;
  transmit = empty_queue 0 4;
  counters = no_counts;
}

abbrev short_output : EngineOutput
short_output = record { bytes = few_bytes; is_busy = false }

enqueue_whole_or_not_example :
    let waiting = contents 0 4 idle_worker.transmit in
    let (w', queued) = enqueue_output 8 4 idle_worker short_output in
    let fits = leb (length waiting + length short_output.bytes) 4 in
    (queued ≡ fits)
    × (contents 0 4 w'.transmit ≡ (if fits then waiting ++ short_output.bytes else waiting))
    × (w'.counters.transmit_overflows
        ≡ idle_worker.counters.transmit_overflows + (if fits then 0 else 1))
    × IsValid 4 w'.transmit
enqueue_whole_or_not_example =
    enqueue_whole_or_not 8 4 idle_worker short_output (empty-IsValid 4 0 (omega arith))

sdsc_not_largest_example :
    (1 ≤ 3000 / 16)
    × (3000 / 16 ≤ 4096)
    × ((make_registers sdsc 3000).exposed_blocks < 3000 / 16 * 16)
sdsc_not_largest_example = sdsc_not_largest 3000 (omega arith) (omega arith)

sdsc_too_large_example : (make_registers sdsc 9000000).exposed_blocks ≡ 0
sdsc_too_large_example = sdsc_too_large 9000000 (omega arith)
