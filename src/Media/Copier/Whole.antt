-- ===== src/Media/Copier/Whole.antt =====
-- The copy as a whole, from its rounds.
use pico_sdemu.Common.{
  ℕ, refl, subst, Bool, true, false, Option, none, some, inl, inr, Bool-cases, arith, ltb,
}
use pico_sdemu.Sd.Storage.{BlockBackend}
use pico_sdemu.Media.Copier.{
  Copy, CopyResult, copied, cancelled, source_unavailable, destination_unavailable,
  destination_write_protected, destination_too_small, flush_failed, Observer, unless_cancelled,
  report, copy_block, verify_block, each_block, finished, verify_media, flushed, flush_destination,
  copy_blocks, check_size, poll_for_size, check_protection, check_destination, check_source,
  poll_for_source, copy_block_media, is_complete,
}
use pico_sdemu.Media.Copier.Keeps.{
  IsPlan, after_poll, Goes, Comes, copy_block-Goes, verify_block-Goes, loop-Goes,
}

module _ {S T O : Type 0} (A : BlockBackend S) (B : BlockBackend T) (W : Observer O)
    (All : ℕ → Type 0) (K : ℕ → S → T → Type 0) (F : S → T → Type 0)
    (E : S → T → CopyResult → Type 0) (p : IsPlan A B All K F E)
    (done : (s : S) (t : T) (r : CopyResult) → F s t → E s t r) where
  -- What a loop has come to, and then the rest.
  loop-Comes :
      (G : S → T → Type 0) (m : Copy S T O × Option CopyResult)
      (rest : Copy S T O → Copy S T O × CopyResult)
      → Goes A B W All K F E p done G m
      → ((c : Copy S T O) → G c.source c.destination → Comes A B W All K F E p done (rest c))
      → Comes A B W All K F E p done (elim m.1 [ some r ↦ (m.0, r) | none ↦ rest m.0 ])
  loop-Comes G (c, none) rest g f = f c g
  loop-Comes G (c, some r) rest g f = g

  verify_media-Comes :
      (total : ℕ) (c : Copy S T O)
      → F c.source c.destination
      → Comes A B W All K F E p done (verify_media A B W total c)
  unfolding verify_media report finished
  verify_media-Comes total c f =
      loop-Comes F _ (λ (c' : Copy S T O). unless_cancelled A B W c' cancelled (finished A B W))
        (loop-Goes A B W All K F E p done (λ (n : ℕ). F) (λ lba. verify_block A B W lba total)
          (λ (n : ℕ) (c' : Copy S T O) g. verify_block-Goes A B W All K F E p done total n c' g)
          total 0 (report A B W c total total 0 true) f)
        (λ (c' : Copy S T O) g.
          after_poll A B W (Comes A B W All K F E p done) c' cancelled (finished A B W)
            (λ (o : O). done _ _ cancelled g) (λ (o : O). done _ _ copied g))

  flush_destination-Comes :
      (total : ℕ) (verify : Bool) (c : Copy S T O)
      → All total
      → K total c.source c.destination
      → Comes A B W All K F E p done (flush_destination A B W total verify c)
  unfolding flush_destination
  flush_destination-Comes total verify c same k =
      after_poll A B W (Comes A B W All K F E p done)
        (record c { destination = (B.flush c.destination).0 }) cancelled
        (flushed A B W total verify (B.flush c.destination).1) (λ (o : O). done _ _ cancelled kept)
        (λ (o : O). settled o)
    where
      kept : F c.source (B.flush c.destination).0
      kept = p.flushes total c.source c.destination same k

      settled :
          (o : O)
          → Comes A B W All K F E p done (
              flushed A B W total verify
                (B.flush c.destination).1
                (record c { destination = (B.flush c.destination).0; observer = o }))
      settled o = elim (Bool-cases (is_complete (B.flush c.destination).1)) [
        | inr e ↦ unfold flushed in rw (e, flushed) (done _ _ flush_failed kept)
        | inl e ↦ elim (Bool-cases verify) [
          | inr v ↦ unfold flushed in rw (e, v, flushed) (done _ _ copied kept)
          | inl v ↦
              unfold flushed in
              rw (e, v, flushed)
                (verify_media-Comes total
                  (record c { destination = (B.flush c.destination).0; observer = o }) kept)
        ]
      ]

  copy_blocks-Comes :
      (total : ℕ) (verify : Bool) (c : Copy S T O)
      → All total
      → K 0 c.source c.destination
      → Comes A B W All K F E p done (copy_blocks A B W total verify c)
  unfolding copy_blocks report
  copy_blocks-Comes total verify c same k =
      let c0 : Copy S T O = report A B W c 0 total 0 false in
      loop-Comes (K total) (each_block A B W (λ lba. copy_block A B W lba total) total 0 c0)
        (λ (c' : Copy S T O).
          unless_cancelled A B W c' cancelled (flush_destination A B W total verify))
        (subst
          (λ (n : ℕ).
            Goes A B W All K F E p done (K n)
              (each_block A B W (λ lba. copy_block A B W lba total) total 0 c0))
          (omega arith)
          (loop-Goes A B W All K F E p done K (λ lba. copy_block A B W lba total)
            (λ (n : ℕ) (c' : Copy S T O) g. copy_block-Goes A B W All K F E p done total n c' g)
            total 0 c0 k))
        (λ (c' : Copy S T O) g.
          after_poll A B W (Comes A B W All K F E p done) c' cancelled
            (flush_destination A B W total verify)
            (λ (o : O). p.source_stop total _ _ cancelled g refl)
            (λ (o : O). flush_destination-Comes total verify (record c' { observer = o }) same g))

  -- The checks before the copy.
  checks-Comes :
      (verify : Bool) (c : Copy S T O)
      → K 0 c.source c.destination
      → Comes A B W All K F E p done (check_size A B W verify c)
  unfolding check_size
  checks-Comes verify c k =
      elim (Bool-cases (ltb (B.block_count c.destination) (A.block_count c.source))) [
        | inl e ↦
            rw (e, check_size) (p.source_stop 0 c.source c.destination destination_too_small k refl)
        | inr e ↦
            rw (e, check_size)
              (copy_blocks-Comes (A.block_count c.source) verify c
                (p.counts c.source c.destination k) k)
      ]

  polled :
      (c : Copy S T O) (go_on : Copy S T O → Copy S T O × CopyResult)
      → K 0 c.source c.destination
      → ((c' : Copy S T O) → K 0 c'.source c'.destination → Comes A B W All K F E p done (go_on c'))
      → Comes A B W All K F E p done (unless_cancelled A B W c cancelled go_on)
  polled c go_on k goes =
      after_poll A B W (Comes A B W All K F E p done) c cancelled go_on
        (λ (o : O). p.source_stop 0 c.source c.destination cancelled k refl)
        (λ (o : O). goes (record c { observer = o }) k)

  protection-Comes :
      (verify : Bool) (c : Copy S T O)
      → K 0 c.source c.destination
      → Comes A B W All K F E p done (check_protection A B W verify c)
  unfolding check_protection poll_for_size
  protection-Comes verify c k = elim (Bool-cases (B.write_protected c.destination)) [
    | inl e ↦
        rw (e, check_protection)
          (p.source_stop 0 c.source c.destination destination_write_protected k refl)
    | inr e ↦
        rw (e, check_protection)
          (polled c (poll_for_size A B W verify) k (λ (c' : Copy S T O) k'.
            polled c' (check_size A B W verify) k'
              (λ (c'' : Copy S T O) k''. checks-Comes verify c'' k'')))
  ]

  destination-Comes :
      (verify : Bool) (c : Copy S T O)
      → K 0 c.source c.destination
      → Comes A B W All K F E p done (check_destination A B W verify c)
  unfolding check_destination
  destination-Comes verify c k = elim (Bool-cases (B.media_present c.destination)) [
    | inr e ↦
        rw (e, check_destination)
          (p.source_stop 0 c.source c.destination destination_unavailable k refl)
    | inl e ↦
        rw (e, check_destination)
          (polled c (check_protection A B W verify) k
            (λ (c' : Copy S T O) k'. protection-Comes verify c' k'))
  ]

  source-Comes :
      (verify : Bool) (c : Copy S T O)
      → K 0 c.source c.destination
      → Comes A B W All K F E p done (check_source A B W verify c)
  unfolding check_source
  source-Comes verify c k = elim (Bool-cases (A.media_present c.source)) [
    | inr e ↦
        rw (e, check_source) (p.source_stop 0 c.source c.destination source_unavailable k refl)
    | inl e ↦
        rw (e, check_source)
          (polled c (check_destination A B W verify) k
            (λ (c' : Copy S T O) k'. destination-Comes verify c' k'))
  ]

  pub copy-Comes :
      (verify : Bool) (c : Copy S T O)
      → K 0 c.source c.destination
      → Comes A B W All K F E p done (copy_block_media A B W verify c)
  unfolding copy_block_media poll_for_source
  copy-Comes verify c k = polled c (poll_for_source A B W verify) k (λ (c' : Copy S T O) k'.
      polled c' (check_source A B W verify) k'
        (λ (c'' : Copy S T O) k''. source-Comes verify c'' k''))
