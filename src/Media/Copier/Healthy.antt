-- ===== src/Media/Copier/Healthy.antt =====
-- A copy between backends that do not fail, with nobody who cancels it, is complete.
use pico_sdemu.Common.{
  ℕ, zero, suc, ◌+◌, ◌<◌, ◌≡◌, refl, ◌∙◌, true, false, Option, none, some, arith, ltb,
}
use pico_sdemu.Sd.Storage.{BlockBackend, Block, complete_read}
use pico_sdemu.Media.Copier.{
  Copy, CopyResult, copied, cancelled, Observer, unless_cancelled, report, block_written,
  write_block, source_read, read_source, copy_block, each_block, flushed, flush_destination,
  copy_blocks, check_size, poll_for_size, check_protection, check_destination, check_source,
  poll_for_source, copy_block_media, is_complete,
}

-- Backends in good order: the media are there, the destination can be written and is large enough, and
-- the operations of a copy succeed and leave them so.
pub record IsHealthy {S T : Type 0} (A : BlockBackend S) (B : BlockBackend T) (H : S → T → Type 0)
    : Type 0 where
  pub source_present : (s : S) (t : T) → H s t → A.media_present s ≡ true
  pub destination_present : (s : S) (t : T) → H s t → B.media_present t ≡ true
  pub writable : (s : S) (t : T) → H s t → B.write_protected t ≡ false
  pub fits : (s : S) (t : T) → H s t → ltb (B.block_count t) (A.block_count s) ≡ false
  pub reads :
      (s : S) (t : T) (lba : ℕ)
      → H s t
      → lba < A.block_count s
      → (b : Block) × ((A.read s lba).1 ≡ complete_read b)
  pub read_keeps : (s : S) (t : T) (lba : ℕ) → H s t → H (A.read s lba).0 t
  pub read_counts : (s : S) (lba : ℕ) → A.block_count (A.read s lba).0 ≡ A.block_count s
  pub writes :
      (s : S) (t : T) (lba : ℕ) (b : Block)
      → H s t
      → lba < A.block_count s
      → is_complete (B.write t lba b).1 ≡ true
  pub write_keeps : (s : S) (t : T) (lba : ℕ) (b : Block) → H s t → H s (B.write t lba b).0
  pub flushes : (s : S) (t : T) → H s t → is_complete (B.flush t).1 ≡ true

module _ {S T O : Type 0} (A : BlockBackend S) (B : BlockBackend T) (W : Observer O)
    (H : S → T → Type 0) (healthy : IsHealthy A B H)
    (never : (o : O) → (W.cancellation_requested o).1 ≡ false) where
  calm_poll :
      {R : Type 0}
      → (Q : Copy S T O × R → Type 0) (c : Copy S T O) (stopped : R)
        (go_on : Copy S T O → Copy S T O × R)
      → ((o : O) → Q (go_on (record c { observer = o })))
      → Q (unless_cancelled A B W c stopped go_on)
  unfolding unless_cancelled
  calm_poll Q c stopped go_on goes = rw (never c.observer, unless_cancelled) (goes _)

  -- A round went on, and all is well.
  abbrev Alive : ℕ → Copy S T O × Option CopyResult → Type 0
  Alive blocks (c, none) = H c.source c.destination × (A.block_count c.source ≡ blocks)
  Alive blocks (c, some r) = ⊥

  write_block-Alive :
      (lba total blocks : ℕ) (b : Block) (c : Copy S T O)
      → H c.source c.destination
      → A.block_count c.source ≡ blocks
      → lba < blocks
      → Alive blocks (write_block A B W lba total b c)
  unfolding write_block block_written report
  write_block-Alive lba total blocks b c h n inside =
      calm_poll (Alive blocks) (record c { destination = (B.write c.destination lba b).0 })
        (some cancelled) (block_written A B W lba total (B.write c.destination lba b).1)
        (λ (o : O).
          rw (healthy.writes c.source c.destination lba b h (omega (arith, n)), block_written)
            (healthy.write_keeps c.source c.destination lba b h, n))

  read_source-Alive :
      (lba total blocks : ℕ) (c : Copy S T O)
      → H c.source c.destination
      → A.block_count c.source ≡ blocks
      → lba < blocks
      → Alive blocks (read_source A B W lba total c)
  unfolding read_source source_read
  read_source-Alive lba total blocks c h n inside =
      let (b, e) = healthy.reads c.source c.destination lba h (omega (arith, n)) in
      calm_poll (Alive blocks) (record c { source = (A.read c.source lba).0 }) (some cancelled)
        (source_read A B W lba total (A.read c.source lba).1)
        (λ (o : O).
          rw (e, source_read)
            (write_block-Alive lba total blocks b
              (record c { source = (A.read c.source lba).0; observer = o })
              (healthy.read_keeps c.source c.destination lba h)
              (healthy.read_counts c.source lba ∙ n) inside))

  copy_block-Alive :
      (total blocks lba : ℕ) (c : Copy S T O)
      → H c.source c.destination
      → A.block_count c.source ≡ blocks
      → lba < blocks
      → Alive blocks (copy_block A B W lba total c)
  unfolding copy_block
  copy_block-Alive total blocks lba c h n inside =
      calm_poll (Alive blocks) c (some cancelled) (read_source A B W lba total)
        (λ (o : O). read_source-Alive lba total blocks (record c { observer = o }) h n inside)

  loop_step :
      (blocks : ℕ) (m : Copy S T O × Option CopyResult)
      (rest : Copy S T O → Copy S T O × Option CopyResult)
      → Alive blocks m
      → ((c : Copy S T O)
          → H c.source c.destination
          → A.block_count c.source ≡ blocks
          → Alive blocks (rest c))
      → Alive blocks (elim m.1 [ none ↦ rest m.0 | some r ↦ (m.0, some r) ])
  loop_step blocks (c, none) rest a f = f c a.0 a.1
  loop_step blocks (c, some r) rest a f = absurd a

  loop-Alive :
      (total blocks remaining lba : ℕ) (c : Copy S T O)
      → lba + remaining ≡ blocks
      → H c.source c.destination
      → A.block_count c.source ≡ blocks
      → Alive blocks (each_block A B W (λ l. copy_block A B W l total) remaining lba c)
  unfolding each_block
  loop-Alive total blocks zero lba c e h n = (h, n)
  loop-Alive total blocks (suc remaining) lba c e h n =
      loop_step blocks (copy_block A B W lba total c)
        (each_block A B W (λ l. copy_block A B W l total) remaining (lba + 1))
        (copy_block-Alive total blocks lba c h n (omega arith))
        (λ (c' : Copy S T O) h' n'.
          loop-Alive total blocks remaining (lba + 1) c' (omega arith) h' n')

  abbrev IsDone : Copy S T O × CopyResult → Type 0
  IsDone m = m.1 ≡ copied

  flush-IsDone :
      (total : ℕ) (c : Copy S T O)
      → H c.source c.destination
      → IsDone (flush_destination A B W total false c)
  unfolding flush_destination flushed
  flush-IsDone total c h =
      calm_poll IsDone (record c { destination = (B.flush c.destination).0 }) cancelled
        (flushed A B W total false (B.flush c.destination).1)
        (λ (o : O). rw (healthy.flushes c.source c.destination h, flushed) refl)

  after_loop :
      (blocks total : ℕ) (m : Copy S T O × Option CopyResult)
      → Alive blocks m
      → IsDone (elim m.1 [
        | some r ↦ (m.0, r)
        | none ↦ unless_cancelled A B W m.0 cancelled (flush_destination A B W total false)
      ])
  after_loop blocks total (c, none) a =
      calm_poll IsDone c cancelled (flush_destination A B W total false)
        (λ (o : O). flush-IsDone total (record c { observer = o }) a.0)
  after_loop blocks total (c, some r) a = absurd a

  size-IsDone : (c : Copy S T O) → H c.source c.destination → IsDone (check_size A B W false c)
  unfolding check_size copy_blocks report
  size-IsDone c h =
      let total : ℕ = A.block_count c.source in
      rw (healthy.fits c.source c.destination h, check_size)
        (after_loop total total
          (each_block A B W (λ l. copy_block A B W l total) total 0
            (report A B W c 0 total 0 false))
          (loop-Alive total total total 0 (report A B W c 0 total 0 false) (omega arith) h refl))

  -- A copy that nobody cancels ends well: where both media are present, the destination can be written and
  -- is no smaller than the source, and every read, write and flush within the source's blocks succeeds and
  -- leaves it so, the copy without verification is complete.
  pub healthy_copy_completes :
      (c : Copy S T O) → H c.source c.destination → (copy_block_media A B W false c).1 ≡ copied
  unfolding copy_block_media poll_for_source check_source check_destination check_protection
      poll_for_size
  healthy_copy_completes c h =
      calm_poll IsDone c cancelled (poll_for_source A B W false) (λ (o1 : O).
        calm_poll IsDone (record c { observer = o1 }) cancelled (check_source A B W false)
          (λ (o2 : O).
            rw (healthy.source_present c.source c.destination h, check_source)
              (calm_poll IsDone (record c { observer = o2 }) cancelled
                (check_destination A B W false)
                (λ (o3 : O).
                  rw (healthy.destination_present c.source c.destination h, check_destination)
                    (calm_poll IsDone (record c { observer = o3 }) cancelled
                      (check_protection A B W false)
                      (λ (o4 : O).
                        rw (healthy.writable c.source c.destination h, check_protection)
                          (calm_poll IsDone (record c { observer = o4 }) cancelled
                            (poll_for_size A B W false)
                            (λ (o5 : O).
                              calm_poll IsDone (record c { observer = o5 }) cancelled
                                (check_size A B W false)
                                (λ (o6 : O). size-IsDone (record c { observer = o6 }) h)))))))))
