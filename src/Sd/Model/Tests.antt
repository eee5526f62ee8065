-- ===== src/Sd/Model/Tests.antt =====
-- The theorems on sequences of calls, at a storage that shrinks under the card and at one
-- that records its accesses.
use pico_sdemu.Common.{
  ◌⊎◌, ◌≡◌, refl, List, [], ◌∷◌, arith, if◌then◌else◌, ltb, ◌==◌, length, true, false,
}
use pico_sdemu.Sd.Crc.{crc16}
use pico_sdemu.Sd.Registers.{sdhc, make_registers}
use pico_sdemu.Sd.Storage.{BlockBackend, Block, complete, failed, complete_read, failed_read}
use pico_sdemu.Sd.Model.{
  CardModel, command_lba, new_model, execute, write_block, execute_basic, execute_application,
  execute_data, block_command, refresh_capacity,
}
use pico_sdemu.Sd.Model.Invariant.{
  Inv, Call, executes, retries, reads_next, refreshes, writes, storage_becomes, call, calls,
  calls-new-Inv, new-Inv, peak_capacity, peak-start,
}
use pico_sdemu.Sd.Model.Access.{Agree, calls_access}
use pico_sdemu.Sd.Model.Traffic.{command}
use pico_sdemu.Sd.Model.Uninitialised.{uninitialised_untouched}
use pico_sdemu.Sd.State.{power_up, idle}

-- One block that all addresses share, with twice the blocks while it is empty.
abbrev shrinking_backend : BlockBackend Block
shrinking_backend = record {
  block_count = λ s. if length s == 0 then 2048 else 1024;
  media_present = λ s. true;
  write_protected = λ s. false;
  flush = λ s. (s, complete);
  read = λ s lba. (s, complete_read s);
  write = λ s lba b. (b, complete);
}

-- The same, with faults from address 2048 on.
abbrev guarded_backend : BlockBackend Block
guarded_backend = record shrinking_backend {
  read = λ s lba. (s, if ltb lba 2048 then complete_read s else failed_read);
  write = λ s lba b. if ltb lba 2048 then (b, complete) else (s, failed);
}

abbrev large_card : CardModel Block
large_card = new_model shrinking_backend sdhc []

-- A block is written where the card has no block any more when it arrives.
abbrev traffic : List (Call Block)
traffic =
    executes (command 0 0)
    ∷ executes (command 55 0)
    ∷ executes (command 41 0)
    ∷ executes (command 24 2047)
    ∷ storage_becomes (9 ∷ [])
    ∷ refreshes
    ∷ writes (1 ∷ []) (crc16 (1 ∷ []))
    ∷ executes (command 17 2047)
    ∷ []

peak_of_traffic : peak_capacity shrinking_backend large_card traffic ≡ 2048
unfolding peak_capacity call execute execute_basic execute_application execute_data block_command
    write_block refresh_capacity command_lba new_model make_registers crc16
peak_of_traffic = refl

guarded_Agree :
    Agree shrinking_backend guarded_backend (peak_capacity shrinking_backend large_card traffic)
guarded_Agree = record {
  block_count = λ s. refl;
  read = λ s lba h. ground (arith, peak_of_traffic);
  write = λ s lba b h. ground (arith, peak_of_traffic);
}

calls_access_example :
    calls shrinking_backend large_card traffic ≡ calls guarded_backend large_card traffic
calls_access_example =
    calls_access shrinking_backend guarded_backend large_card traffic
      (new-Inv shrinking_backend _ sdhc [] (peak-start shrinking_backend large_card traffic))
      guarded_Agree

calls-new-Inv_example :
    Inv
      (peak_capacity shrinking_backend large_card traffic)
      (calls shrinking_backend large_card traffic)
calls-new-Inv_example = calls-new-Inv shrinking_backend sdhc [] traffic

-- A storage that grows by every access to it.
abbrev recording_backend : BlockBackend Block
recording_backend = record shrinking_backend {
  read = λ s lba. (lba ∷ s, complete_read s);
  write = λ s lba b. (lba ∷ s, complete);
}

abbrev hasty_calls : List (Call Block)
hasty_calls =
    executes (command 0 0)
    ∷ executes (command 17 3)
    ∷ executes (command 55 0)
    ∷ executes (command 24 3)
    ∷ writes (1 ∷ []) (crc16 (1 ∷ []))
    ∷ retries
    ∷ reads_next
    ∷ refreshes
    ∷ []

uninitialised_untouched_example :
    let m = calls recording_backend (new_model recording_backend sdhc (5 ∷ [])) hasty_calls in
    (m.backend ≡ (5 ∷ [])) × ((m.state ≡ power_up) ⊎ (m.state ≡ idle))
uninitialised_untouched_example =
    uninitialised_untouched recording_backend sdhc (5 ∷ []) hasty_calls (ground arith)
