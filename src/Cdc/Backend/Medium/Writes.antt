-- ===== src/Cdc/Backend/Medium/Writes.antt =====
-- A write that starts leaves the backend coherent.
use pico_sdemu.Common.{
  ℕ, ◌≡◌, ◌≢◌, refl, sym, ap, Bool, true, false, ◌&&◌, Option, List, All, get_elem?, arith, inl,
  inr, subst, Option-cases,
}
use pico_sdemu.Cdc.Client.{Client}
use pico_sdemu.Cdc.Operation.{Operation, retain_write_block}
use pico_sdemu.Cdc.Coordinator.{Coordinator, start}
use pico_sdemu.Cdc.Coordinator.Finish.{start_line}
use pico_sdemu.Cdc.Pool.{
  Pool, Slot, SlotState, free, reading, ready, writing, release, reserve_write, invalidate_ready,
  put_data, new_pool, is_ready, holds,
}
use pico_sdemu.Cdc.Pool.Every.{
  All-weaken, release-Every, reserve_write-Every, reserve_write_at, invalidate_ready-Every,
  new_pool-All,
}
use pico_sdemu.Cdc.Backend.Counters.{no_transfer, write_transfer}
use pico_sdemu.Cdc.Backend.{Backend, start_write, write_selected, retain_transfer}
use pico_sdemu.Cdc.Backend.Medium.{Disk}
use pico_sdemu.Cdc.Backend.Medium.Coherent.{Coherent, Fits, FitsIn, Carried, CarriedIn, HoldsBlock}
use pico_sdemu.Cdc.Backend.Medium.Starts.{
  Rests, Rests-Coherent, refill-Rests, Request-cases, awaiting_not_idle,
}

weaker :
    (state : SlotState) (has : Bool) (media lba : ℕ) (disk : Disk) (s : Slot)
    → FitsIn state has media write_transfer lba disk s
    → FitsIn state has media no_transfer 0 disk s
weaker free has media lba disk s f = tt
weaker reading has media lba disk s f = f
weaker writing has media lba disk s f = f
weaker ready has media lba disk s f = (f.0, f.1, f.2, tt)

not_copy_apart :
    (s : Slot) (state : SlotState) (has : Bool) (lba generation : ℕ) (disk : Disk)
    → (is_ready state && holds s lba generation) ≡ false
    → FitsIn state has generation no_transfer 0 disk s
    → FitsIn state has generation write_transfer lba disk s
not_copy_apart s free has lba generation disk h f = tt
not_copy_apart s reading has lba generation disk h f = f
not_copy_apart s writing has lba generation disk h f = f
not_copy_apart s ready has lba generation disk h f = (f.0, f.1, f.2, apart f.1)
  where
    apart : s.generation ≡ generation → s.lba ≢ lba
    apart g e = ground arith

written_fits :
    (state : SlotState) (has : Bool) (media lba : ℕ) (disk : Disk) (block : List ℕ) (s : Slot)
    → state ≡ writing
    → FitsIn state has media write_transfer lba disk s
    → FitsIn state has media write_transfer lba disk (put_data block s)
written_fits free has media lba disk block s n f = tt
written_fits reading has media lba disk block s n f = f
written_fits writing has media lba disk block s n f = f
written_fits ready has media lba disk block s n f = ground arith

holds_itself : (state : SlotState) (block : List ℕ) → HoldsBlock state block block
holds_itself free block = tt
holds_itself reading block = tt
holds_itself ready block = tt
holds_itself writing block = refl

start_write-Coherent :
    (b : Backend) (h lba generation : ℕ) (block : List ℕ) (now : ℕ) (disk : Disk)
    → b.has_generation ≡ true
    → b.media_generation ≡ generation
    → Rests (record b { buffers = new_pool 0 }) generation disk
    → All (Fits true generation write_transfer lba disk) b.buffers.slots
    → CarriedIn (get_elem? b.buffers.slots h) block
    → Coherent (start_write b h lba generation block now).0 disk
unfolding start_write retain_transfer
start_write-Coherent b h lba generation block now disk known current v a holds_block =
    let o : Operation = retain_write_block lba block in
    let k : Coordinator = (start b.coordinator o now b.client).0 in
    let c : Client = (start b.coordinator o now b.client).1 in
    elim (Request-cases (start b.coordinator o now b.client).2) [
      | inl (e, r) ↦
          rw (r, start_write)
            (Rests-Coherent _ generation disk (
              refill-Rests (record b { buffers = new_pool 0 }) generation disk k c
                (release b.buffers h).0 b.statistics v
                (release-Every _ b.buffers h tt (
                  All-weaken _ _ b.buffers.slots
                    (λ (s : Slot) f. weaker s.state true generation lba disk s f) a))))
      | inr (text, r) ↦
          let (same, waits) = start_line b.coordinator o now b.client text r in
          let (busy, held) = awaiting_not_idle k.state waits in
          rw (r, start_write)
            record {
              fits =
                  subst
                    (λ (x : Bool).
                      All (Fits x b.media_generation write_transfer lba disk) b.buffers.slots)
                    (sym known)
                    (subst (λ (g : ℕ). All (Fits true g write_transfer lba disk) b.buffers.slots)
                      (sym current) a);
              carried =
                  subst
                    (λ (x : Bool).
                      Carried write_transfer x (get_elem? b.buffers.slots h) k.operation.block)
                    (sym held)
                    (subst (CarriedIn (get_elem? b.buffers.slots h))
                      (ap (λ (x : Operation). x.block) (sym same)) holds_block);
              tracked = refl;
              quiet = busy;
            }
    ]

pub write_selected-Coherent :
    (b : Backend) (lba generation : ℕ) (block : List ℕ) (now : ℕ) (disk : Disk)
    → Rests b generation disk
    → Coherent (write_selected b lba generation block now).0 disk
unfolding write_selected
write_selected-Coherent b lba generation block now disk v =
    let q : Pool = invalidate_ready b.buffers lba generation in
    let p : Pool = (reserve_write q lba generation block).0 in
    let a : All (Fits true generation write_transfer lba disk) q.slots =
      invalidate_ready-Every (Fits true generation no_transfer 0 disk) _ b.buffers lba generation tt
        (λ (s : Slot) f c. not_copy_apart s s.state true lba generation disk c f) v.fits in
    let a' : All (Fits true generation write_transfer lba disk) p.slots =
      reserve_write-Every _ q lba generation block
        (λ (s : Slot) w f. written_fits s.state true generation lba disk block s w f) a
        (refl, refl) in
    elim (Option-cases (reserve_write q lba generation block).1) [
      | inl full ↦
          rw (full, write_selected)
            (Rests-Coherent _ generation disk (
              refill-Rests b generation disk b.coordinator b.client p b.statistics v (
                All-weaken _ _ p.slots (λ (s : Slot) f. weaker s.state true generation lba disk s f)
                  a')))
      | inr (h, taken) ↦
          rw (taken, write_selected)
            (start_write-Coherent (record b { buffers = p }) h lba generation block now disk v.known
              v.current
              (refill-Rests b generation disk b.coordinator b.client (new_pool 0) b.statistics v
                (new_pool-All _ 0 tt))
              a'
              (reserve_write_at (λ (x : Option Slot). CarriedIn x block) q lba generation block h tt
                (λ (s : Slot). holds_itself s.state block) taken))
    ]
