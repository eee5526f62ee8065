-- ===== src/Cdc/Backend/Medium/Starts.antt =====
-- A transfer that starts leaves the backend coherent.
use pico_sdemu.Common.{
  ℕ, ◌≡◌, refl, sym, ◌∙◌, ◌⊎◌, Bool, true, false, Option, none, All, arith, inl, inr, subst,
  Bool-cases, Option-cases,
}
use pico_sdemu.Cdc.Numbers.{Text}
use pico_sdemu.Cdc.Client.{Client, ClientError, Request, line, refused}
use pico_sdemu.Cdc.Operation.{Operation, retain_read_block}
use pico_sdemu.Cdc.Coordinator.{Coordinator, OperationState, is_idle, is_awaiting, start}
use pico_sdemu.Cdc.Coordinator.Invariant.{is_at_rest}
use pico_sdemu.Cdc.Coordinator.Finish.{start_line}
use pico_sdemu.Cdc.Pool.{
  Pool, Slot, SlotState, free, reading, ready, writing, release, reserve_read, find_ready,
}
use pico_sdemu.Cdc.Pool.Every.{All-weaken, release-Every, reserve_read-Every}
use pico_sdemu.Cdc.Backend.Counters.{
  TransferType, Statistics, no_transfer, read_transfer, is_transfer,
}
use pico_sdemu.Cdc.Backend.{Backend, select_generation, start_read, read_selected, retain_transfer}
use pico_sdemu.Cdc.Backend.Medium.{Disk}
use pico_sdemu.Cdc.Backend.Medium.Coherent.{Coherent, Fits, FitsIn, is_handle}
use pico_sdemu.Cdc.Backend.Medium.Ends.{rest-Fits}

-- No transfer, and the medium known.
pub record Rests (b : Backend) (generation : ℕ) (disk : Disk) : Type 0 where
  pub quiet : b.transfer ≡ no_transfer
  pub handleless : ◌≡◌ {A = Option ℕ} b.handle none
  pub known : b.has_generation ≡ true
  pub current : b.media_generation ≡ generation
  pub fits : All (Fits true generation no_transfer 0 disk) b.buffers.slots

apart_from_none :
    (state : SlotState) (has : Bool) (media lba : ℕ) (disk : Disk) (s : Slot)
    → FitsIn state has media no_transfer 0 disk s
    → FitsIn state has media no_transfer lba disk s
apart_from_none free has media lba disk s f = tt
apart_from_none reading has media lba disk s f = f
apart_from_none writing has media lba disk s f = f
apart_from_none ready has media lba disk s f = f

reads_apart :
    (state : SlotState) (has : Bool) (media lba : ℕ) (disk : Disk) (s : Slot)
    → FitsIn state has media no_transfer 0 disk s
    → FitsIn state has media read_transfer lba disk s
reads_apart free has media lba disk s f = tt
reads_apart reading has media lba disk s f = f
reads_apart writing has media lba disk s f = f
reads_apart ready has media lba disk s f = f

pub Rests-Coherent :
    (b : Backend) (generation : ℕ) (disk : Disk) → Rests b generation disk → Coherent b disk
Rests-Coherent b generation disk v = record {
  fits =
      rw (v.quiet, v.known, v.current)
        (All-weaken _ _ b.buffers.slots
          (λ (s : Slot) f. apart_from_none s.state true generation b.lba disk s f) v.fits);
  carried = rw v.quiet tt;
  tracked = rw (v.quiet, v.handleless) refl;
  quiet = rw v.quiet refl;
}

pub Coherent-Rests :
    (b : Backend) (disk : Disk)
    → Coherent b disk
    → is_transfer b.transfer ≡ false
    → b.has_generation ≡ true
    → Rests b b.media_generation disk
Coherent-Rests b disk v t h = record {
  quiet = no_type b.transfer t;
  handleless = no_handle b.handle (v.tracked ∙ t);
  known = h;
  current = refl;
  fits =
      subst (λ (x : Bool). All (Fits x b.media_generation no_transfer 0 disk) b.buffers.slots) h
        (rest-Fits _ _ b.transfer b.lba disk b.buffers.slots v.fits);
}
  where
    no_type : (x : TransferType) → is_transfer x ≡ false → x ≡ no_transfer
    no_type x e = ground arith

    no_handle : (x : Option ℕ) → is_handle x ≡ false → x ≡ none
    no_handle x e = ground arith

unknown_fits :
    (state : SlotState) (media generation lba : ℕ) (t : TransferType) (disk : Disk) (s : Slot)
    → FitsIn state false media t lba disk s
    → FitsIn state true generation no_transfer 0 disk s
unknown_fits free media generation lba t disk s f = tt
unknown_fits reading media generation lba t disk s f = ground arith
unknown_fits writing media generation lba t disk s f = ground arith
unknown_fits ready media generation lba t disk s f = ground arith

selected_known :
    (b : Backend) (generation : ℕ)
    → b.has_generation ≡ true
    → (select_generation b generation).0 ≡ b
unfolding select_generation
selected_known b generation h = ground arith

selected_new :
    (b : Backend) (generation : ℕ)
    → b.has_generation ≡ false
    → (select_generation b generation).0
      ≡ record b { media_generation = generation; has_generation = true }
unfolding select_generation
selected_new b generation h = ground arith

same_generation :
    (b : Backend) (generation : ℕ)
    → b.has_generation ≡ true
    → (select_generation b generation).1 ≡ true
    → b.media_generation ≡ generation
unfolding select_generation
same_generation b generation h e = ground arith

-- A selected generation is the medium's, and the backend rests if it rested.
pub select-Rests :
    (b : Backend) (generation : ℕ) (disk : Disk)
    → Coherent b disk
    → is_transfer b.transfer ≡ false
    → (select_generation b generation).1 ≡ true
    → Rests (select_generation b generation).0 generation disk
select-Rests b generation disk v t h = elim (Bool-cases b.has_generation) [
  | inl has ↦
      subst (λ (x : Backend). Rests x generation disk) (sym (selected_known b generation has))
        (subst (λ (g : ℕ). Rests b g disk) (same_generation b generation has h)
          (Coherent-Rests b disk v t has))
  | inr not_has ↦
      subst (λ (x : Backend). Rests x generation disk) (sym (selected_new b generation not_has))
        record {
          quiet = no_type b.transfer t;
          handleless = no_handle b.handle (v.tracked ∙ t);
          known = refl;
          current = refl;
          fits =
              All-weaken _ _ b.buffers.slots
                (λ (s : Slot) f.
                  unknown_fits s.state b.media_generation generation b.lba b.transfer disk s f)
                (subst
                  (λ (x : Bool).
                    All (Fits x b.media_generation b.transfer b.lba disk) b.buffers.slots)
                  not_has v.fits);
        }
]
  where
    no_type : (x : TransferType) → is_transfer x ≡ false → x ≡ no_transfer
    no_type x e = ground arith

    no_handle : (x : Option ℕ) → is_handle x ≡ false → x ≡ none
    no_handle x e = ground arith

-- One that is not selected changes nothing.
pub select_refused :
    (b : Backend) (generation : ℕ)
    → (select_generation b generation).1 ≡ false
    → (select_generation b generation).0 ≡ b
unfolding select_generation
select_refused b generation h = ground arith

-- The backend that rests, with another pool, coordinator and client.
pub refill-Rests :
    (b : Backend) (generation : ℕ) (disk : Disk) (k : Coordinator) (c : Client) (p : Pool)
    (s : Statistics)
    → Rests b generation disk
    → All (Fits true generation no_transfer 0 disk) p.slots
    → Rests (record b { coordinator = k; client = c; buffers = p; statistics = s }) generation disk
refill-Rests b generation disk k c p s v a = record {
  quiet = v.quiet;
  handleless = v.handleless;
  known = v.known;
  current = v.current;
  fits = a;
}

pub Request-cases :
    (r : Request) → ((e : ClientError) × (r ≡ refused e)) ⊎ ((text : Text) × (r ≡ line text))
Request-cases (refused e) = inl (e, refl)
Request-cases (line text) = inr (text, refl)

pub awaiting_not_idle :
    (s : OperationState) → is_awaiting s ≡ true → (is_idle s ≡ false) × (is_at_rest s ≡ false)
awaiting_not_idle s h = ground arith

start_read-Coherent :
    (b : Backend) (h lba generation now : ℕ) (disk : Disk)
    → Rests b generation disk
    → Coherent (start_read b h lba generation now).0 disk
unfolding start_read retain_transfer
start_read-Coherent b h lba generation now disk v =
    let o : Operation = retain_read_block lba in
    let k : Coordinator = (start b.coordinator o now b.client).0 in
    let c : Client = (start b.coordinator o now b.client).1 in
    elim (Request-cases (start b.coordinator o now b.client).2) [
      | inl (e, r) ↦
          rw (r, start_read)
            (Rests-Coherent _ generation disk (
              refill-Rests b generation disk k c (release b.buffers h).0 b.statistics v
                (release-Every _ b.buffers h tt v.fits)))
      | inr (text, r) ↦
          let (same, waits) = start_line b.coordinator o now b.client text r in
          rw (r, start_read)
            record {
              fits =
                  subst
                    (λ (x : Bool).
                      All (Fits x b.media_generation read_transfer lba disk) b.buffers.slots)
                    (sym v.known)
                    (subst (λ (g : ℕ). All (Fits true g read_transfer lba disk) b.buffers.slots)
                      (sym v.current)
                      (All-weaken _ _ b.buffers.slots
                        (λ (s : Slot) f. reads_apart s.state true generation lba disk s f) v.fits));
              carried = tt;
              tracked = refl;
              quiet = (awaiting_not_idle k.state waits).0;
            }
    ]

pub read_selected-Coherent :
    (b : Backend) (lba generation now : ℕ) (disk : Disk)
    → Rests b generation disk
    → Coherent (read_selected b lba generation now).0 disk
unfolding read_selected
read_selected-Coherent b lba generation now disk v =
    let p : Pool = (reserve_read b.buffers lba generation).0 in
    let a : All (Fits true generation no_transfer 0 disk) p.slots =
      reserve_read-Every _ b.buffers lba generation v.fits (refl, refl) in
    let w : Rests (record b { buffers = p }) generation disk =
      refill-Rests b generation disk b.coordinator b.client p b.statistics v a in
    elim (Option-cases (find_ready b.buffers lba generation)) [
      | inr (i, found) ↦
          rw (found, read_selected)
            (Rests-Coherent _ generation disk
              (refill-Rests b generation disk b.coordinator b.client b.buffers _ v v.fits))
      | inl missing ↦ elim (Option-cases (reserve_read b.buffers lba generation).1) [
        | inl full ↦ rw (missing, full, read_selected) (Rests-Coherent _ generation disk w)
        | inr (h, taken) ↦
            rw (missing, taken, read_selected)
              (start_read-Coherent (record b { buffers = p }) h lba generation now disk w)
      ]
    ]
