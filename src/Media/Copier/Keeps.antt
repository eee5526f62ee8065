-- ===== src/Media/Copier/Keeps.antt =====
-- What a copy comes to, from what each of its steps comes to.
use pico_sdemu.Common.{
  ℕ, zero, suc, ◌+◌, ◌≡◌, refl, sym, ◌∙◌, subst, Bool, true, false, Option, none, some, inl, inr,
  Bool-cases, arith, eq_bytes,
}
use pico_sdemu.Sd.Storage.{
  BlockBackend, Block, ReadResult, complete_read, pending_read, failed_read,
}
use pico_sdemu.Media.Copier.{
  Copy, CopyResult, copied, cancelled, read_failed, write_failed, verification_failed, Observer,
  unless_cancelled, report, block_written, write_block, source_read, read_source, copy_block,
  destination_read, compare_block, expected_read, read_expected, verify_block, each_block,
  is_complete,
}

abbrev pub is_copied : CopyResult → Bool
is_copied copied = true
is_copied r = false

-- `All n`: the source has n blocks. `K n`: n of them are copied; `F`: all are, and flushed; `E`: what is claimed of a result.
pub record IsPlan {S T : Type 0} (A : BlockBackend S) (B : BlockBackend T) (All : ℕ → Type 0)
    (K : ℕ → S → T → Type 0) (F : S → T → Type 0) (E : S → T → CopyResult → Type 0) : Type 0 where
  pub counts : (s : S) (t : T) → K 0 s t → All (A.block_count s)
  pub source_stop :
      (n : ℕ) (s : S) (t : T) (r : CopyResult) → K n s t → is_copied r ≡ false → E s t r
  pub read_stop :
      (n : ℕ) (s : S) (t : T) (r : CopyResult)
      → K n s t
      → is_copied r ≡ false
      → E (A.read s n).0 t r
  pub written :
      (n : ℕ) (s : S) (t : T) (block : Block)
      → K n s t
      → (A.read s n).1 ≡ complete_read block
      → is_complete (B.write t n block).1 ≡ true
      → K (n + 1) (A.read s n).0 (B.write t n block).0
  pub write_stop :
      (n : ℕ) (s : S) (t : T) (block : Block) (r : CopyResult)
      → K n s t
      → is_copied r ≡ false
      → E (A.read s n).0 (B.write t n block).0 r
  pub flushes : (n : ℕ) (s : S) (t : T) → All n → K n s t → F s (B.flush t).0
  pub expects : (s : S) (t : T) (lba : ℕ) → F s t → F (A.read s lba).0 t
  pub compares : (s : S) (t : T) (lba : ℕ) → F s t → F s (B.read t lba).0

module _ {S T O : Type 0} (A : BlockBackend S) (B : BlockBackend T) (W : Observer O) where
  -- What holds where the copy stops, and where it goes on, holds after a poll.
  pub after_poll :
      {R : Type 0}
      → (Q : Copy S T O × R → Type 0) (c : Copy S T O) (stopped : R)
        (go_on : Copy S T O → Copy S T O × R)
      → ((o : O) → Q (record c { observer = o }, stopped))
      → ((o : O) → Q (go_on (record c { observer = o })))
      → Q (unless_cancelled A B W c stopped go_on)
  unfolding unless_cancelled
  after_poll Q c stopped go_on stops goes =
      elim (Bool-cases (W.cancellation_requested c.observer).1) [
        | inl e ↦ rw (e, unless_cancelled) (stops _)
        | inr e ↦ rw (e, unless_cancelled) (goes _)
      ]

module _ {S T O : Type 0} (A : BlockBackend S) (B : BlockBackend T) (W : Observer O)
    (All : ℕ → Type 0) (K : ℕ → S → T → Type 0) (F : S → T → Type 0)
    (E : S → T → CopyResult → Type 0) (p : IsPlan A B All K F E)
    (done : (s : S) (t : T) (r : CopyResult) → F s t → E s t r) where
  -- A round that goes on has come to `G`.
  abbrev pub Goes : (S → T → Type 0) → Copy S T O × Option CopyResult → Type 0
  Goes G (c, none) = G c.source c.destination
  Goes G (c, some r) = E c.source c.destination r

  abbrev pub Comes : Copy S T O × CopyResult → Type 0
  Comes (c, r) = E c.source c.destination r

  write_block-Goes :
      (n total : ℕ) (block : Block) (s : S) (c : Copy S T O)
      → K n s c.destination
      → (A.read s n).1 ≡ complete_read block
      → c.source ≡ (A.read s n).0
      → Goes (K (n + 1)) (write_block A B W n total block c)
  unfolding write_block
  write_block-Goes n total block s c k r e =
      after_poll A B W (Goes (K (n + 1)))
        (record c { destination = (B.write c.destination n block).0 }) (some cancelled)
        (block_written A B W n total (B.write c.destination n block).1)
        (λ (o : O). stopped cancelled refl) (λ (o : O). settled o)
    where
      stopped :
          (x : CopyResult) → is_copied x ≡ false → E c.source (B.write c.destination n block).0 x
      stopped x h =
          subst (λ (y : S). E y (B.write c.destination n block).0 x) (sym e)
            (p.write_stop n s c.destination block x k h)

      settled :
          (o : O)
          → Goes (K (n + 1)) (
              block_written A B W n total
                (B.write c.destination n block).1
                (record c { destination = (B.write c.destination n block).0; observer = o }))
      settled o = elim (Bool-cases (is_complete (B.write c.destination n block).1)) [
        | inl w ↦
            unfold block_written report in
            rw (w, block_written)
              (subst (λ (y : S). K (n + 1) y (B.write c.destination n block).0) (sym e)
                (p.written n s c.destination block k r w))
        | inr w ↦ unfold block_written report in rw (w, block_written) (stopped write_failed refl)
      ]

  read_source-Goes :
      (n total : ℕ) (c : Copy S T O)
      → K n c.source c.destination
      → Goes (K (n + 1)) (read_source A B W n total c)
  unfolding read_source source_read
  read_source-Goes n total c k =
      after_poll A B W (Goes (K (n + 1))) (record c { source = (A.read c.source n).0 })
        (some cancelled) (source_read A B W n total (A.read c.source n).1)
        (λ (o : O). p.read_stop n c.source c.destination cancelled k refl)
        (λ (o : O). settled o (A.read c.source n).1 refl)
    where
      settled :
          (o : O) (r : ReadResult)
          → (A.read c.source n).1 ≡ r
          → Goes (K (n + 1)) (
              source_read A B W n total r
                (record c { source = (A.read c.source n).0; observer = o }))
      settled o (complete_read block) e = write_block-Goes n total block c.source _ k e refl
      settled o pending_read e = p.read_stop n c.source c.destination read_failed k refl
      settled o failed_read e = p.read_stop n c.source c.destination read_failed k refl

  pub copy_block-Goes :
      (total n : ℕ) (c : Copy S T O)
      → K n c.source c.destination
      → Goes (K (n + 1)) (copy_block A B W n total c)
  unfolding copy_block
  copy_block-Goes total n c k =
      after_poll A B W (Goes (K (n + 1))) c (some cancelled) (read_source A B W n total)
        (λ (o : O). p.source_stop n c.source c.destination cancelled k refl)
        (λ (o : O). read_source-Goes n total (record c { observer = o }) k)

  Option-elim-Goes :
      (G : S → T → Type 0) (r : Option CopyResult) (c' : Copy S T O)
      (rest : Copy S T O × Option CopyResult)
      → (r ≡ none → Goes G rest)
      → ((x : CopyResult) → r ≡ some x → E c'.source c'.destination x)
      → Goes G (elim r [ none ↦ rest | some x ↦ (c', some x) ])
  Option-elim-Goes G none c' rest f g = f refl
  Option-elim-Goes G (some x) c' rest f g = g x refl

  Goes-none :
      (G : S → T → Type 0) (m : Copy S T O × Option CopyResult) (r : Option CopyResult)
      → m.1 ≡ r
      → r ≡ none
      → Goes G m
      → G m.0.source m.0.destination
  Goes-none G (c, none) r e n g = g
  Goes-none G (c, some x) r e n g = let clash : some x ≡ none = e ∙ n in ground arith

  Goes-some :
      (G : S → T → Type 0) (m : Copy S T O × Option CopyResult) (x : CopyResult)
      → m.1 ≡ some x
      → Goes G m
      → E m.0.source m.0.destination x
  Goes-some G (c, none) x e g = ground arith
  Goes-some G (c, some y) x e g =
      let same : y ≡ x = ground arith in subst (E c.source c.destination) same g

  pub loop-Goes :
      (P : ℕ → S → T → Type 0) (round : ℕ → Copy S T O → Copy S T O × Option CopyResult)
      → ((n : ℕ) (c : Copy S T O) → P n c.source c.destination → Goes (P (n + 1)) (round n c))
      → (remaining n : ℕ) (c : Copy S T O) → P n c.source c.destination
      → Goes (P (n + remaining)) (each_block A B W round remaining n c)
  unfolding each_block
  loop-Goes P round step zero n c q = subst (λ (m : ℕ). P m c.source c.destination) (omega arith) q
  loop-Goes P round step (suc remaining) n c q =
      Option-elim-Goes (P (n + suc remaining)) (round n c).1 (round n c).0 _
        (λ e.
          subst (λ (m : ℕ). Goes (P m) (each_block A B W round remaining (n + 1) (round n c).0))
            (omega arith)
            (loop-Goes P round step remaining (n + 1) (round n c).0
              (Goes-none (P (n + 1)) (round n c) _ refl e (step n c q))))
        (λ (x : CopyResult) e. Goes-some (P (n + 1)) (round n c) x e (step n c q))

  compare_block-Goes :
      (lba total : ℕ) (block : Block) (c : Copy S T O)
      → F c.source c.destination
      → Goes F (compare_block A B W lba total block c)
  unfolding compare_block
  compare_block-Goes lba total block c f =
      after_poll A B W (Goes F) (record c { destination = (B.read c.destination lba).0 })
        (some cancelled) (destination_read A B W lba total block (B.read c.destination lba).1)
        (λ (o : O). done _ _ cancelled kept) (λ (o : O). settled o (B.read c.destination lba).1)
    where
      kept : F c.source (B.read c.destination lba).0
      kept = p.compares c.source c.destination lba f

      settled :
          (o : O) (r : ReadResult)
          → Goes F (
              destination_read A B W lba total block r
                (record c { destination = (B.read c.destination lba).0; observer = o }))
      settled o pending_read = unfold destination_read in done _ _ read_failed kept
      settled o failed_read = unfold destination_read in done _ _ read_failed kept
      settled o (complete_read actual) = elim (Bool-cases (eq_bytes block actual)) [
        | inl e ↦ unfold destination_read report in rw (e, destination_read) kept
        | inr e ↦
            unfold destination_read report in
            rw (e, destination_read) (done _ _ verification_failed kept)
      ]

  pub verify_block-Goes :
      (total n : ℕ) (c : Copy S T O)
      → F c.source c.destination
      → Goes F (verify_block A B W n total c)
  unfolding verify_block read_expected expected_read
  verify_block-Goes total n c f =
      after_poll A B W (Goes F) c (some cancelled) (read_expected A B W n total)
        (λ (o : O). done _ _ cancelled f)
        (λ (o : O).
          after_poll A B W (Goes F) (record c { source = (A.read c.source n).0; observer = o })
            (some cancelled) (expected_read A B W n total (A.read c.source n).1)
            (λ (o' : O). done _ _ cancelled kept) (λ (o' : O). settled o' (A.read c.source n).1))
    where
      kept : F (A.read c.source n).0 c.destination
      kept = p.expects c.source c.destination n f

      settled :
          (o : O) (r : ReadResult)
          → Goes F (
              expected_read A B W n total r
                (record c { source = (A.read c.source n).0; observer = o }))
      settled o (complete_read block) =
          compare_block-Goes n total block
            (record c { source = (A.read c.source n).0; observer = o }) kept
      settled o pending_read = done _ _ read_failed kept
      settled o failed_read = done _ _ read_failed kept
