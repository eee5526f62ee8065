-- ===== src/Media/Tests.antt =====
-- The theorems on media at a medium of one block, with an observer that never cancels.
use pico_sdemu.Common.{ℕ, ◌+◌, ◌≡◌, refl, true, false, List, [], ◌∷◌, if◌then◌else◌, arith, ◌==◌}
use pico_sdemu.Sd.Storage.{BlockBackend, Block, complete, failed, complete_read, failed_read}
use pico_sdemu.Media.Arbiter.{Arbiter, host_copy, new_arbiter}
use pico_sdemu.Media.Arbiter.Exclusive.{
  SideCall, client, takes, gives_up, writes, reads, flushes, side_calls, owner_undisturbed,
}
use pico_sdemu.Media.Copier.{
  Copy, Observer, copied, copy_block_media, copy_to_exclusive_backend, copy_from_exclusive_backend,
  unless_cancelled, report, block_written, write_block, source_read, read_source, copy_block,
  destination_read, compare_block, expected_read, read_expected, verify_block, each_block, finished,
  verify_media, flushed, flush_destination, copy_blocks, check_size, poll_for_size,
  check_protection, check_destination, check_source, poll_for_source,
}
use pico_sdemu.Media.Copier.Complete.{IsMedium, complete_copy_is_whole}
use pico_sdemu.Media.Copier.Owned.{ownership_is_given_back}
use pico_sdemu.Media.Copier.Healthy.{IsHealthy, healthy_copy_completes}

-- One block, which a write replaces; other addresses are refused.
abbrev one_block : BlockBackend Block
one_block = record {
  block_count = λ s. 1;
  media_present = λ s. true;
  write_protected = λ s. false;
  flush = λ s. (s, complete);
  read = λ s lba. (s, (if lba == 0 then complete_read s else failed_read));
  write = λ s lba block. ((if lba == 0 then block else s), (if lba == 0 then complete else failed));
}

abbrev content : Block → ℕ → Block
content s lba = if lba == 0 then s else []

one_block-IsMedium : IsMedium one_block content
one_block-IsMedium = record {
  reads = λ s lba block h. ground arith;
  read_keeps = λ s lba l. refl;
  read_counts = λ s lba. refl;
  writes = λ s lba block h. ground arith;
  write_keeps = λ s lba l block h. ground arith;
  flush_keeps = λ s l. refl;
}

abbrev patient : Observer ℕ
patient = record { cancellation_requested = λ o. (o, false); progress = λ o p. o + 1 }

abbrev job : Copy Block Block ℕ
job = record { source = 1 ∷ 2 ∷ []; destination = 3 ∷ 4 ∷ []; observer = 0 }

job_succeeds : (copy_block_media one_block one_block patient true job).1 ≡ copied
unfolding copy_block_media unless_cancelled report block_written write_block source_read read_source
    copy_block destination_read compare_block expected_read read_expected verify_block each_block
    finished verify_media flushed flush_destination copy_blocks check_size poll_for_size
    check_protection check_destination check_source poll_for_source
job_succeeds = refl

complete_copy_is_whole_example :
    let c' = (copy_block_media one_block one_block patient true job).0 in
    (content c'.destination 0 ≡ (1 ∷ 2 ∷ [])) × (content c'.source 0 ≡ (1 ∷ 2 ∷ []))
complete_copy_is_whole_example =
    complete_copy_is_whole one_block one_block patient content content one_block-IsMedium
      one_block-IsMedium true job 0 (omega arith) job_succeeds

abbrev card : Arbiter Block
card = new_arbiter (3 ∷ 4 ∷ [])

abbrev onto_card : Copy Block (Arbiter Block) ℕ
onto_card = record { source = 1 ∷ 2 ∷ []; destination = card; observer = 0 }

abbrev from_card : Copy (Arbiter Block) Block ℕ
from_card = record { source = card; destination = 1 ∷ 2 ∷ []; observer = 0 }

ownership_is_given_back_example :
    ((copy_to_exclusive_backend one_block one_block patient true true onto_card).0.destination.owner
      ≡ card.owner)
    × ((copy_from_exclusive_backend one_block one_block patient true true from_card).0.source.owner
        ≡ card.owner)
ownership_is_given_back_example =
    ownership_is_given_back one_block one_block patient true true onto_card from_card

abbrev copying : Arbiter Block
copying = record { backend = 3 ∷ 4 ∷ []; owner = host_copy }

abbrev attempts : List SideCall
attempts = takes ∷ writes 0 (9 ∷ []) ∷ gives_up ∷ reads 0 ∷ flushes ∷ []

owner_undisturbed_example : side_calls one_block client copying attempts ≡ copying
owner_undisturbed_example = owner_undisturbed one_block client copying attempts refl

abbrev NoCondition : Block → Block → Type 0
NoCondition s t = (s ≡ s) × (t ≡ t)

one_block-IsHealthy : IsHealthy one_block one_block NoCondition
one_block-IsHealthy = record {
  source_present = λ s t h. refl;
  destination_present = λ s t h. refl;
  writable = λ s t h. refl;
  fits = λ s t h. refl;
  reads = λ s t lba h inside. (s, ground arith);
  read_keeps = λ s t lba h. h;
  read_counts = λ s lba. refl;
  writes = λ s t lba b h inside. ground arith;
  write_keeps = λ s t lba b h. (refl, refl);
  flushes = λ s t h. refl;
}

healthy_copy_completes_example : (copy_block_media one_block one_block patient false job).1 ≡ copied
healthy_copy_completes_example =
    healthy_copy_completes one_block one_block patient NoCondition one_block-IsHealthy (λ o. refl)
      job (refl, refl)
