-- ===== src/Media/Copier/Owned.antt =====
-- Ownership is given back on every path.
use pico_sdemu.Common.{ℕ, ◌≡◌, refl, ◌∙◌, Bool, inl, inr, Bool-cases, arith}
use pico_sdemu.Sd.Storage.{BlockBackend, Block}
use pico_sdemu.Media.Arbiter.{
  Arbiter, Owner, host_copy, transition, begin_host_copy, end_host_copy, copy_backend, read_for,
  write_for, flush_for,
}
use pico_sdemu.Media.Copier.{
  Copy, CopyResult, cancelled, Observer, copy_block_media, copy_to_exclusive_backend,
  own_and_copy_to, copy_to_owned, start_copy_to, release_ownership, copy_from_exclusive_backend,
  own_and_copy_from, copy_from_owned, start_copy_from,
}
use pico_sdemu.Media.Copier.Keeps.{IsPlan, after_poll}
use pico_sdemu.Media.Copier.Whole.{copy-Comes}

module _ {S : Type 0} (B : BlockBackend S) (side : Owner) where
  read_keeps_owner : (a : Arbiter S) (lba : ℕ) → (read_for B side a lba).0.owner ≡ a.owner
  unfolding read_for
  read_keeps_owner a lba = ground arith

  write_keeps_owner :
      (a : Arbiter S) (lba : ℕ) (block : Block) → (write_for B side a lba block).0.owner ≡ a.owner
  unfolding write_for
  write_keeps_owner a lba block = ground arith

  flush_keeps_owner : (a : Arbiter S) → (flush_for B side a).0.owner ≡ a.owner
  unfolding flush_for
  flush_keeps_owner a = ground arith

module _ {S T O : Type 0} (A : BlockBackend S) (B : BlockBackend T) (W : Observer O)
    (o : Owner) where
  to-IsPlan :
      IsPlan A
        (copy_backend B)
        (λ n. Unit {0})
        (λ n (s : S) (t : Arbiter T). t.owner ≡ o)
        (λ (s : S) (t : Arbiter T). t.owner ≡ o)
        (λ (s : S) (t : Arbiter T) r. t.owner ≡ o)
  to-IsPlan = record {
    counts = λ s t k. tt;
    source_stop = λ n s t r k h. k;
    read_stop = λ n s t r k h. k;
    written = λ n s t block k r w. write_keeps_owner B host_copy t n block ∙ k;
    write_stop = λ n s t block r k h. write_keeps_owner B host_copy t n block ∙ k;
    flushes = λ n s t all k. flush_keeps_owner B host_copy t ∙ k;
    expects = λ s t lba k. k;
    compares = λ s t lba k. read_keeps_owner B host_copy t lba ∙ k;
  }

  copy_to_keeps_owner :
      (verify : Bool) (c : Copy S (Arbiter T) O)
      → c.destination.owner ≡ o
      → (copy_block_media A (copy_backend B) W verify c).0.destination.owner ≡ o
  copy_to_keeps_owner verify c k =
      copy-Comes A (copy_backend B) W (λ (n : ℕ). Unit {0})
        (λ (n : ℕ) (s : S) (t : Arbiter T). t.owner ≡ o) (λ (s : S) (t : Arbiter T). t.owner ≡ o)
        (λ (s : S) (t : Arbiter T) (r : CopyResult). t.owner ≡ o) to-IsPlan
        (λ (s : S) (t : Arbiter T) (r : CopyResult) q. q) verify c k

  copy_to_owned_keeps :
      (acquired verify : Bool) (c : Copy S (Arbiter T) O)
      → c.destination.owner ≡ o
      → (copy_to_owned A B W acquired verify c).0.destination.owner ≡ o
  unfolding copy_to_owned start_copy_to
  copy_to_owned_keeps acquired verify c k =
      after_poll A (copy_backend B) W
        (λ (m : Copy S (Arbiter T) O × CopyResult). m.0.destination.owner ≡ o) c cancelled
        (start_copy_to A B W acquired verify) (λ (x : O). k)
        (λ (x : O). elim (Bool-cases acquired) [
          | inl e ↦ rw (e, start_copy_to) (copy_to_keeps_owner verify (record c { observer = x }) k)
          | inr e ↦ rw (e, start_copy_to) k
        ])

  from-IsPlan :
      IsPlan
        (copy_backend A)
        B
        (λ n. Unit {0})
        (λ n (s : Arbiter S) (t : T). s.owner ≡ o)
        (λ (s : Arbiter S) (t : T). s.owner ≡ o)
        (λ (s : Arbiter S) (t : T) r. s.owner ≡ o)
  from-IsPlan = record {
    counts = λ s t k. tt;
    source_stop = λ n s t r k h. k;
    read_stop = λ n s t r k h. read_keeps_owner A host_copy s n ∙ k;
    written = λ n s t block k r w. read_keeps_owner A host_copy s n ∙ k;
    write_stop = λ n s t block r k h. read_keeps_owner A host_copy s n ∙ k;
    flushes = λ n s t all k. k;
    expects = λ s t lba k. read_keeps_owner A host_copy s lba ∙ k;
    compares = λ s t lba k. k;
  }

  copy_from_keeps_owner :
      (verify : Bool) (c : Copy (Arbiter S) T O)
      → c.source.owner ≡ o
      → (copy_block_media (copy_backend A) B W verify c).0.source.owner ≡ o
  copy_from_keeps_owner verify c k =
      copy-Comes (copy_backend A) B W (λ (n : ℕ). Unit {0})
        (λ (n : ℕ) (s : Arbiter S) (t : T). s.owner ≡ o) (λ (s : Arbiter S) (t : T). s.owner ≡ o)
        (λ (s : Arbiter S) (t : T) (r : CopyResult). s.owner ≡ o) from-IsPlan
        (λ (s : Arbiter S) (t : T) (r : CopyResult) q. q) verify c k

  copy_from_owned_keeps :
      (acquired verify : Bool) (c : Copy (Arbiter S) T O)
      → c.source.owner ≡ o
      → (copy_from_owned A B W acquired verify c).0.source.owner ≡ o
  unfolding copy_from_owned start_copy_from
  copy_from_owned_keeps acquired verify c k =
      after_poll (copy_backend A) B W
        (λ (m : Copy (Arbiter S) T O × CopyResult). m.0.source.owner ≡ o) c cancelled
        (start_copy_from A B W acquired verify) (λ (x : O). k)
        (λ (x : O). elim (Bool-cases acquired) [
          | inl e ↦
              rw (e, start_copy_from) (copy_from_keeps_owner verify (record c { observer = x }) k)
          | inr e ↦ rw (e, start_copy_from) k
        ])

-- What begin and end do to the owner, with anything between that keeps it.
begun_ended :
    {R : Type 0}
    → (a a' : Arbiter R) → a'.owner ≡ (begin_host_copy a).0.owner
    → (release_ownership (begin_host_copy a).1 a').owner ≡ a.owner
unfolding release_ownership begin_host_copy end_host_copy transition
begun_ended a a' h = ground arith

module _ {S T O : Type 0} (A : BlockBackend S) (B : BlockBackend T) (W : Observer O) where
  -- The owner of the backend is after a copy who it was before: a copy onto an owned backend, and a copy
  -- from one, give back what they took, whatever their result.
  pub ownership_is_given_back :
      (confirmed verify : Bool) (c : Copy S (Arbiter T) O) (d : Copy (Arbiter S) T O)
      → ((copy_to_exclusive_backend A B W confirmed verify c).0.destination.owner
          ≡ c.destination.owner)
        × ((copy_from_exclusive_backend A B W confirmed verify d).0.source.owner ≡ d.source.owner)
  ownership_is_given_back confirmed verify c d = (to_given, from_given)
    where
      own_to :
          (x : Copy S (Arbiter T) O)
          → (own_and_copy_to A B W verify x).0.destination.owner ≡ x.destination.owner
      own_to x =
          unfold own_and_copy_to in
          begun_ended x.destination _ (
            copy_to_owned_keeps A B W (begin_host_copy x.destination).0.owner
              (begin_host_copy x.destination).1 verify
              (record x { destination = (begin_host_copy x.destination).0 }) refl)

      own_from :
          (x : Copy (Arbiter S) T O)
          → (own_and_copy_from A B W verify x).0.source.owner ≡ x.source.owner
      own_from x =
          unfold own_and_copy_from in
          begun_ended x.source _ (
            copy_from_owned_keeps A B W (begin_host_copy x.source).0.owner
              (begin_host_copy x.source).1 verify
              (record x { source = (begin_host_copy x.source).0 }) refl)

      to_given :
          (copy_to_exclusive_backend A B W confirmed verify c).0.destination.owner
          ≡ c.destination.owner
      to_given =
          unfold copy_to_exclusive_backend in
          elim (Bool-cases confirmed) [
            | inr e ↦ rw (e, copy_to_exclusive_backend) refl
            | inl e ↦
                rw (e, copy_to_exclusive_backend)
                  (after_poll A (copy_backend B) W
                    (λ (m : Copy S (Arbiter T) O × CopyResult).
                      m.0.destination.owner ≡ c.destination.owner)
                    c cancelled (own_and_copy_to A B W verify) (λ (x : O). refl)
                    (λ (x : O). own_to (record c { observer = x })))
          ]

      from_given :
          (copy_from_exclusive_backend A B W confirmed verify d).0.source.owner ≡ d.source.owner
      from_given =
          unfold copy_from_exclusive_backend in
          elim (Bool-cases confirmed) [
            | inr e ↦ rw (e, copy_from_exclusive_backend) refl
            | inl e ↦
                rw (e, copy_from_exclusive_backend)
                  (after_poll (copy_backend A) B W
                    (λ (m : Copy (Arbiter S) T O × CopyResult). m.0.source.owner ≡ d.source.owner) d
                    cancelled (own_and_copy_from A B W verify) (λ (x : O). refl)
                    (λ (x : O). own_from (record d { observer = x })))
          ]
