-- ===== src/Media/Copier.antt =====
-- shared/protocol/src/block_media_copier.cpp: `copy_block_media` and its two guarded entry points. The
-- observer is a state with two operations; its poll may change it, as a request to cancel can come at any
-- time. A null observer is one that never cancels.
pub mod Keeps
pub mod Whole
pub mod Complete
pub mod Owned
pub mod Healthy
use pico_sdemu.Common.{
  ℕ, zero, suc, ◌+◌, Bool, true, false, not, Option, none, some, List, [], if◌then◌else◌, ltb,
  eq_bytes,
}
use pico_sdemu.Sd.Storage.{
  BlockBackend, Block, IoResult, complete, pending, failed, ReadResult, complete_read, pending_read,
  failed_read,
}
use pico_sdemu.Media.Arbiter.{Arbiter, begin_host_copy, end_host_copy, copy_backend}

pub data CopyResult : Type 0 where
  copied cancelled confirmation_required ownership_unavailable source_unavailable
        destination_unavailable destination_write_protected destination_too_small read_failed
        write_failed flush_failed verification_failed :
      CopyResult

pub record Progress : Type 0 where
  pub completed_blocks : ℕ
  pub total_blocks : ℕ
  pub verified_blocks : ℕ
  pub verifying : Bool

pub record Observer (O : Type 0) : Type 0 where
  pub cancellation_requested : O → O × Bool
  pub progress : O → Progress → O

-- The two backends and the observer.
pub record Copy (S T O : Type 0) : Type 0 where
  pub source : S
  pub destination : T
  pub observer : O

abbrev pub is_complete : IoResult → Bool
is_complete complete = true
is_complete r = false

module _ {S T O : Type 0} (A : BlockBackend S) (B : BlockBackend T) (W : Observer O) where
  unfoldable pub report : Copy S T O → ℕ → ℕ → ℕ → Bool → Copy S T O
  report c completed total verified verifying = record c {
    observer = W.progress c.observer (record {
      completed_blocks = completed;
      total_blocks = total;
      verified_blocks = verified;
      verifying = verifying;
    });
  }

  -- Stop with `cancelled` if that is requested now, and go on otherwise.
  unfoldable pub unless_cancelled :
      {R : Type 0} → Copy S T O → R → (Copy S T O → Copy S T O × R) → Copy S T O × R
  unless_cancelled c stopped go_on =
      let (o, requested) = W.cancellation_requested c.observer in
      let c' = record c { observer = o } in if requested then (c', stopped) else go_on c'

  -- A result of the loops: none to go on.
  abbrev pub Step : Type 0
  Step = Copy S T O × Option CopyResult

  -- The write of a block, once the poll behind it has passed.
  unfoldable pub block_written : ℕ → ℕ → IoResult → Copy S T O → Step
  unfolding report
  block_written lba total result c =
      if is_complete result
      then (report c (lba + 1) total 0 false, none)
      else (c, some write_failed)

  unfoldable pub write_block : ℕ → ℕ → Block → Copy S T O → Step
  write_block lba total block c =
      let (t, result) = B.write c.destination lba block in
      unless_cancelled (record c { destination = t }) (some cancelled)
        (block_written lba total result)

  unfoldable pub source_read : ℕ → ℕ → ReadResult → Copy S T O → Step
  source_read lba total (complete_read block) c = write_block lba total block c
  source_read lba total pending_read c = (c, some read_failed)
  source_read lba total failed_read c = (c, some read_failed)

  unfoldable pub read_source : ℕ → ℕ → Copy S T O → Step
  read_source lba total c =
      let (s, result) = A.read c.source lba in
      unless_cancelled (record c { source = s }) (some cancelled) (source_read lba total result)

  -- A round of the copy loop.
  unfoldable pub copy_block : ℕ → ℕ → Copy S T O → Step
  copy_block lba total c = unless_cancelled c (some cancelled) (read_source lba total)

  unfoldable pub destination_read : ℕ → ℕ → Block → ReadResult → Copy S T O → Step
  unfolding report
  destination_read lba total expected (complete_read actual) c =
      if eq_bytes expected actual
      then (report c total total (lba + 1) true, none)
      else (c, some verification_failed)
  destination_read lba total expected pending_read c = (c, some read_failed)
  destination_read lba total expected failed_read c = (c, some read_failed)

  unfoldable pub compare_block : ℕ → ℕ → Block → Copy S T O → Step
  compare_block lba total expected c =
      let (t, result) = B.read c.destination lba in
      unless_cancelled (record c { destination = t }) (some cancelled)
        (destination_read lba total expected result)

  unfoldable pub expected_read : ℕ → ℕ → ReadResult → Copy S T O → Step
  expected_read lba total (complete_read block) c = compare_block lba total block c
  expected_read lba total pending_read c = (c, some read_failed)
  expected_read lba total failed_read c = (c, some read_failed)

  unfoldable pub read_expected : ℕ → ℕ → Copy S T O → Step
  read_expected lba total c =
      let (s, result) = A.read c.source lba in
      unless_cancelled (record c { source = s }) (some cancelled) (expected_read lba total result)

  -- A round of the verification loop.
  unfoldable pub verify_block : ℕ → ℕ → Copy S T O → Step
  verify_block lba total c = unless_cancelled c (some cancelled) (read_expected lba total)

  -- A loop over `remaining` blocks from `lba` on, by its round.
  unfoldable pub each_block : (ℕ → Copy S T O → Step) → ℕ → ℕ → Copy S T O → Step
  each_block round zero lba c = (c, none)
  each_block round (suc remaining) lba c =
      let (c', result) = round lba c in
      let rest = each_block round remaining (lba + 1) c' in
      elim result [ none ↦ rest | some r ↦ (c', some r) ]

  unfoldable pub finished : Copy S T O → Copy S T O × CopyResult
  finished c = (c, copied)

  unfoldable pub verify_media : ℕ → Copy S T O → Copy S T O × CopyResult
  unfolding report
  verify_media blocks c =
      let (c', result) =
        each_block (λ lba. verify_block lba blocks) blocks 0 (report c blocks blocks 0 true) in
      elim result [ some r ↦ (c', r) | none ↦ unless_cancelled c' cancelled finished ]

  unfoldable pub flushed : ℕ → Bool → IoResult → Copy S T O → Copy S T O × CopyResult
  flushed blocks verify result c =
      if not (is_complete result)
      then (c, flush_failed)
      else if not verify
      then (c, copied)
      else verify_media blocks c

  unfoldable pub flush_destination : ℕ → Bool → Copy S T O → Copy S T O × CopyResult
  flush_destination blocks verify c =
      let (t, result) = B.flush c.destination in
      unless_cancelled (record c { destination = t }) cancelled (flushed blocks verify result)

  unfoldable pub copy_blocks : ℕ → Bool → Copy S T O → Copy S T O × CopyResult
  unfolding report
  copy_blocks blocks verify c =
      let (c', result) =
        each_block (λ lba. copy_block lba blocks) blocks 0 (report c 0 blocks 0 false) in
      elim result [
        | some r ↦ (c', r)
        | none ↦ unless_cancelled c' cancelled (flush_destination blocks verify)
      ]

  -- The checks before the copy, each behind a poll, from the last to the first.
  unfoldable pub check_size : Bool → Copy S T O → Copy S T O × CopyResult
  check_size verify c =
      if ltb (B.block_count c.destination) (A.block_count c.source)
      then (c, destination_too_small)
      else copy_blocks (A.block_count c.source) verify c

  unfoldable pub poll_for_size : Bool → Copy S T O → Copy S T O × CopyResult
  poll_for_size verify c = unless_cancelled c cancelled (check_size verify)

  unfoldable pub check_protection : Bool → Copy S T O → Copy S T O × CopyResult
  check_protection verify c =
      if B.write_protected c.destination
      then (c, destination_write_protected)
      else unless_cancelled c cancelled (poll_for_size verify)

  unfoldable pub check_destination : Bool → Copy S T O → Copy S T O × CopyResult
  check_destination verify c =
      if not (B.media_present c.destination)
      then (c, destination_unavailable)
      else unless_cancelled c cancelled (check_protection verify)

  unfoldable pub check_source : Bool → Copy S T O → Copy S T O × CopyResult
  check_source verify c =
      if not (A.media_present c.source)
      then (c, source_unavailable)
      else unless_cancelled c cancelled (check_destination verify)

  unfoldable pub poll_for_source : Bool → Copy S T O → Copy S T O × CopyResult
  poll_for_source verify c = unless_cancelled c cancelled (check_source verify)

  unfoldable pub copy_block_media : Bool → Copy S T O → Copy S T O × CopyResult
  copy_block_media verify c = unless_cancelled c cancelled (poll_for_source verify)

-- The destructor of `HostCopyOwnership`.
unfoldable pub release_ownership : {R : Type 0} → Bool → Arbiter R → Arbiter R
release_ownership acquired a = if acquired then (end_host_copy a).0 else a

module _ {S T O : Type 0} (A : BlockBackend S) (B : BlockBackend T) (W : Observer O) where
  unfoldable pub start_copy_to :
      Bool → Bool → Copy S (Arbiter T) O → Copy S (Arbiter T) O × CopyResult
  start_copy_to acquired verify c =
      if not acquired
      then (c, ownership_unavailable)
      else copy_block_media A (copy_backend B) W verify c

  unfoldable pub copy_to_owned :
      Bool → Bool → Copy S (Arbiter T) O → Copy S (Arbiter T) O × CopyResult
  copy_to_owned acquired verify c =
      unless_cancelled A (copy_backend B) W c cancelled (start_copy_to acquired verify)

  unfoldable pub own_and_copy_to : Bool → Copy S (Arbiter T) O → Copy S (Arbiter T) O × CopyResult
  own_and_copy_to verify c =
      let (a, acquired) = begin_host_copy c.destination in
      let (c', result) = copy_to_owned acquired verify (record c { destination = a }) in
      (record c' { destination = release_ownership acquired c'.destination }, result)

  unfoldable pub copy_to_exclusive_backend :
      Bool → Bool → Copy S (Arbiter T) O → Copy S (Arbiter T) O × CopyResult
  copy_to_exclusive_backend confirmed verify c =
      if not confirmed
      then (c, confirmation_required)
      else unless_cancelled A (copy_backend B) W c cancelled (own_and_copy_to verify)

  unfoldable pub start_copy_from :
      Bool → Bool → Copy (Arbiter S) T O → Copy (Arbiter S) T O × CopyResult
  start_copy_from acquired verify c =
      if not acquired
      then (c, ownership_unavailable)
      else copy_block_media (copy_backend A) B W verify c

  unfoldable pub copy_from_owned :
      Bool → Bool → Copy (Arbiter S) T O → Copy (Arbiter S) T O × CopyResult
  copy_from_owned acquired verify c =
      unless_cancelled (copy_backend A) B W c cancelled (start_copy_from acquired verify)

  unfoldable pub own_and_copy_from : Bool → Copy (Arbiter S) T O → Copy (Arbiter S) T O × CopyResult
  own_and_copy_from verify c =
      let (a, acquired) = begin_host_copy c.source in
      let (c', result) = copy_from_owned acquired verify (record c { source = a }) in
      (record c' { source = release_ownership acquired c'.source }, result)

  unfoldable pub copy_from_exclusive_backend :
      Bool → Bool → Copy (Arbiter S) T O → Copy (Arbiter S) T O × CopyResult
  copy_from_exclusive_backend confirmed verify c =
      if not confirmed
      then (c, confirmation_required)
      else unless_cancelled (copy_backend A) B W c cancelled (own_and_copy_from verify)
