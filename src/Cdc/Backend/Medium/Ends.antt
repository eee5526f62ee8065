-- ===== src/Cdc/Backend/Medium/Ends.antt =====
-- A transfer that ends, and the calls that forget the medium, leave the backend coherent.
use pico_sdemu.Common.{ℕ, ◌≡◌, refl, Bool, false, ◌&&◌, Option, none, some, List, All, ◌==◌}
use pico_sdemu.Cdc.Pool.{Pool, Slot, SlotState, free, reading, ready, writing, clear_pool}
use pico_sdemu.Cdc.Pool.Every.{All-weaken, clear_pool-Every, release-Every}
use pico_sdemu.Cdc.Backend.Counters.{TransferType, no_transfer}
use pico_sdemu.Cdc.Backend.{
  Backend, abandon_transfer, clear_transfer_tracking, release_handle, disconnect, invalidate,
  media_changed,
}
use pico_sdemu.Cdc.Backend.Medium.{Disk}
use pico_sdemu.Cdc.Backend.Medium.Coherent.{Coherent, Fits, FitsIn}

weaken_at_rest :
    (state : SlotState) (has : Bool) (media : ℕ) (t : TransferType) (lba : ℕ) (disk : Disk)
    (s : Slot)
    → FitsIn state has media t lba disk s
    → FitsIn state has media no_transfer 0 disk s
weaken_at_rest free has media t lba disk s f = tt
weaken_at_rest reading has media t lba disk s f = f
weaken_at_rest writing has media t lba disk s f = f
weaken_at_rest ready has media t lba disk s f = (f.0, f.1, f.2, tt)

-- The condition on the block of a write falls away when the write ends.
pub rest-Fits :
    (has : Bool) (media : ℕ) (t : TransferType) (lba : ℕ) (disk : Disk) (slots : List Slot)
    → All (Fits has media t lba disk) slots
    → All (Fits has media no_transfer 0 disk) slots
rest-Fits has media t lba disk slots a =
    All-weaken _ _ slots (λ (s : Slot) f. weaken_at_rest s.state has media t lba disk s f) a

-- A backend with no transfer is coherent where its slots fit.
pub rest-Coherent :
    (b : Backend) (disk : Disk)
    → b.transfer ≡ no_transfer
    → ◌≡◌ {A = Option ℕ} b.handle none
    → b.lba ≡ 0
    → All (Fits b.has_generation b.media_generation no_transfer 0 disk) b.buffers.slots
    → Coherent b disk
rest-Coherent b disk t h l a = record {
  fits = rw (t, l) a;
  carried = rw t tt;
  tracked = rw (t, h) refl;
  quiet = rw t refl;
}

release_handle-Fits :
    (has : Bool) (media : ℕ) (disk : Disk) (handle : Option ℕ) (p : Pool)
    → All (Fits has media no_transfer 0 disk) p.slots
    → All (Fits has media no_transfer 0 disk) (release_handle handle p).slots
unfolding release_handle
release_handle-Fits has media disk none p a = a
release_handle-Fits has media disk (some h) p a = release-Every _ p h tt a

pub abandon-Coherent :
    (b : Backend) (disk : Disk)
    → All (Fits b.has_generation b.media_generation no_transfer 0 disk) b.buffers.slots
    → Coherent (abandon_transfer b) disk
unfolding abandon_transfer clear_transfer_tracking
abandon-Coherent b disk a =
    rest-Coherent (abandon_transfer b) disk refl refl refl
      (release_handle-Fits b.has_generation b.media_generation disk b.handle b.buffers a)

cleared-Fits :
    (has : Bool) (media : ℕ) (disk : Disk) (p : Pool)
    → All (Fits has media no_transfer 0 disk) (clear_pool p).slots
cleared-Fits has media disk p = clear_pool-Every _ p tt

pub disconnect-Coherent : (b : Backend) (disk : Disk) → Coherent (disconnect b) disk
unfolding disconnect
disconnect-Coherent b disk =
    rest-Coherent (disconnect b) disk refl refl refl (cleared-Fits _ _ disk b.buffers)

pub invalidate-Coherent : (b : Backend) (disk : Disk) → Coherent (invalidate b) disk
unfolding invalidate
invalidate-Coherent b disk =
    rest-Coherent (invalidate b) disk refl refl refl (cleared-Fits _ _ disk b.buffers)

-- The medium that the backend is told of, if it is another one.
pub media_changed-Coherent :
    (b : Backend) (generation : ℕ) (disk disk' : Disk)
    → (b.has_generation && generation == b.media_generation) ≡ false
    → Coherent (media_changed b generation) disk'
unfolding media_changed clear_transfer_tracking
media_changed-Coherent b generation disk disk' h =
    rw (h, media_changed) (rest-Coherent _ disk' refl refl refl (cleared-Fits _ _ disk' b.buffers))
