-- ===== src/Media/Copier/Complete.antt =====
-- A copy that is complete has copied every block.
use pico_sdemu.Common.{
  ℕ, ◌+◌, ◌<◌, ◌≡◌, ◌≢◌, refl, sym, ap, ◌∙◌, subst, Bool, true, false, inl, inr, Bool-cases, arith,
  ◌⊎◌,
}
use pico_sdemu.Sd.Storage.{BlockBackend, Block, complete_read}
use pico_sdemu.Media.Copier.{Copy, CopyResult, copied, Observer, copy_block_media, is_complete}
use pico_sdemu.Media.Copier.Keeps.{IsPlan, is_copied}
use pico_sdemu.Media.Copier.Whole.{copy-Comes}

-- A medium with a content: a read gives it, a write changes its block and no other, and reads and
-- flushes keep it.
pub record IsMedium {S : Type 0} (B : BlockBackend S) (content : S → ℕ → Block) : Type 0 where
  pub reads :
      (s : S) (lba : ℕ) (block : Block)
      → (B.read s lba).1 ≡ complete_read block
      → block ≡ content s lba
  pub read_keeps : (s : S) (lba l : ℕ) → content (B.read s lba).0 l ≡ content s l
  pub read_counts : (s : S) (lba : ℕ) → B.block_count (B.read s lba).0 ≡ B.block_count s
  pub writes :
      (s : S) (lba : ℕ) (block : Block)
      → is_complete (B.write s lba block).1 ≡ true
      → content (B.write s lba block).0 lba ≡ block
  pub write_keeps :
      (s : S) (lba l : ℕ) (block : Block)
      → l ≢ lba
      → content (B.write s lba block).0 l ≡ content s l
  pub flush_keeps : (s : S) (l : ℕ) → content (B.flush s).0 l ≡ content s l

-- Only a copy that is complete claims anything.
abbrev IfCopied : Type 0 → Bool → Type 0
IfCopied P true = P
IfCopied P false = Unit {0}

stop_claims : (P : Type 0) (r : CopyResult) → is_copied r ≡ false → IfCopied P (is_copied r)
stop_claims P r h = subst (IfCopied P) (sym h) tt

module _ {S T O : Type 0} (A : BlockBackend S) (B : BlockBackend T) (W : Observer O)
    (f : S → ℕ → Block) (g : T → ℕ → Block) (a : IsMedium A f) (b : IsMedium B g) where
  -- The source is what it was, and the first n blocks of the destination are its blocks.
  record HasCopied (first : S) (n : ℕ) (s : S) (t : T) : Type 0 where
    counted : A.block_count s ≡ A.block_count first
    unchanged : (l : ℕ) → f s l ≡ f first l
    equal : (l : ℕ) → l < n → g t l ≡ f first l

  written_equal :
      (first : S) (n : ℕ) (s : S) (t : T) (block : Block)
      → HasCopied first n s t
      → (A.read s n).1 ≡ complete_read block
      → is_complete (B.write t n block).1 ≡ true
      → (l : ℕ) → l < n + 1
      → g (B.write t n block).0 l ≡ f first l
  written_equal first n s t block k r w l h = elim (last_or_before l n h) [
    | inl same ↦
        subst (λ (x : ℕ). g (B.write t n block).0 x ≡ f first x) (sym same)
          (b.writes t n block w ∙ (a.reads s n block r ∙ k.unchanged n))
    | inr before ↦ b.write_keeps t n l block (omega arith) ∙ k.equal l before
  ]
    where
      last_or_before : (l n : ℕ) → l < n + 1 → (l ≡ n) ⊎ (l < n)
      last_or_before l n h = ground arith

  copy-IsPlan :
      (first : S)
      → IsPlan A B
          (λ n. n ≡ A.block_count first)
          (HasCopied first)
          (HasCopied first (A.block_count first))
          (λ s t r. IfCopied (HasCopied first (A.block_count first) s t) (is_copied r))
  copy-IsPlan first = record {
    counts = λ s t k. k.counted;
    source_stop = λ n s t r k h. stop_claims _ r h;
    read_stop = λ n s t r k h. stop_claims _ r h;
    written = λ n s t block k r w. record {
      counted = a.read_counts s n ∙ k.counted;
      unchanged = λ l. a.read_keeps s n l ∙ k.unchanged l;
      equal = written_equal first n s t block k r w;
    };
    write_stop = λ n s t block r k h. stop_claims _ r h;
    flushes = λ n s t all k. record {
      counted = k.counted;
      unchanged = k.unchanged;
      equal = λ l h. b.flush_keeps t l ∙ k.equal l (omega arith);
    };
    expects = λ s t lba k. record {
      counted = a.read_counts s lba ∙ k.counted;
      unchanged = λ l. a.read_keeps s lba l ∙ k.unchanged l;
      equal = k.equal;
    };
    compares = λ s t lba k. record {
      counted = k.counted;
      unchanged = k.unchanged;
      equal = λ l h. b.read_keeps t lba l ∙ k.equal l h;
    };
  }

  any_result : (P : Type 0) (r : CopyResult) → P → IfCopied P (is_copied r)
  any_result P r p = elim (Bool-cases (is_copied r)) [
    | inl e ↦ subst (IfCopied P) (sym e) p
    | inr e ↦ subst (IfCopied P) (sym e) tt
  ]

  -- A copy that reports success has copied all: whatever the observer does, where the result is that the
  -- copy is complete, each block of the source is at its address in the destination, and the source
  -- still holds it.
  pub complete_copy_is_whole :
      (verify : Bool) (c : Copy S T O) (lba : ℕ)
      → lba < A.block_count c.source
      → (copy_block_media A B W verify c).1 ≡ copied
      → let c' = (copy_block_media A B W verify c).0 in
        (g c'.destination lba ≡ f c.source lba) × (f c'.source lba ≡ f c.source lba)
  complete_copy_is_whole verify c lba inside h =
      let first : S = c.source in
      let m : Copy S T O × CopyResult = copy_block_media A B W verify c in
      let claim : IfCopied (HasCopied first (A.block_count first) m.0.source m.0.destination)
          (is_copied m.1) =
        copy-Comes A B W (λ (n : ℕ). n ≡ A.block_count first) (HasCopied first)
          (HasCopied first (A.block_count first))
          (λ (s : S) (t : T) (r : CopyResult).
            IfCopied (HasCopied first (A.block_count first) s t) (is_copied r))
          (copy-IsPlan first) (λ (s : S) (t : T) (r : CopyResult) k. any_result _ r k) verify c
          (record { counted = refl; unchanged = λ l. refl; equal = λ l z. absurd (omega arith) }) in
      let k : HasCopied first (A.block_count first) m.0.source m.0.destination =
        subst
          (λ (x : Bool).
            IfCopied (HasCopied first (A.block_count first) m.0.source m.0.destination) x)
          (ap is_copied h) claim in
      (k.equal lba inside, k.unchanged lba)
