-- ===== src/Cdc/Backend/Medium/Coherent.antt =====
-- What holds of the backend and the medium: the slots that are ready have the medium's blocks.
use pico_sdemu.Common.{
  ℕ, ◌≡◌, ◌≢◌, Bool, true, false, ◌&&◌, Option, none, some, List, All, get_elem?,
}
use pico_sdemu.Cdc.Coordinator.{is_idle}
use pico_sdemu.Cdc.Coordinator.Invariant.{is_at_rest}
use pico_sdemu.Cdc.Pool.{Pool, Slot, SlotState, free, reading, ready, writing}
use pico_sdemu.Cdc.Backend.Counters.{
  TransferType, no_transfer, read_transfer, write_transfer, is_transfer,
}
use pico_sdemu.Cdc.Backend.{Backend}
use pico_sdemu.Cdc.Backend.Medium.{Disk}

-- The block of a write in flight has no ready copy.
abbrev pub Apart : TransferType → ℕ → ℕ → Type 0
Apart write_transfer lba l = l ≢ lba
Apart read_transfer lba l = Unit {0}
Apart no_transfer lba l = Unit {0}

abbrev pub FitsIn : SlotState → Bool → ℕ → TransferType → ℕ → Disk → Slot → Type 0
FitsIn free has media t lba disk s = Unit {0}
FitsIn reading has media t lba disk s = (has ≡ true) × (s.generation ≡ media)
FitsIn writing has media t lba disk s = (has ≡ true) × (s.generation ≡ media)
FitsIn ready has media t lba disk s =
    (has ≡ true) × (s.generation ≡ media) × (s.block ≡ disk s.lba) × Apart t lba s.lba

-- A slot in use is of the known medium; a ready one has the medium's block.
abbrev pub Fits : Bool → ℕ → TransferType → ℕ → Disk → Slot → Type 0
Fits has media t lba disk s = FitsIn s.state has media t lba disk s

abbrev pub slot_of : Option ℕ → Pool → Option Slot
slot_of none p = none
slot_of (some h) p = get_elem? p.slots h

abbrev pub HoldsBlock : SlotState → List ℕ → List ℕ → Type 0
HoldsBlock writing x y = x ≡ y
HoldsBlock free x y = Unit {0}
HoldsBlock reading x y = Unit {0}
HoldsBlock ready x y = Unit {0}

abbrev pub CarriedIn : Option Slot → List ℕ → Type 0
CarriedIn none block = Unit {0}
CarriedIn (some s) block = HoldsBlock s.state s.block block

-- The slot of a write that the coordinator holds has the block that is written.
abbrev pub Carried : TransferType → Bool → Option Slot → List ℕ → Type 0
Carried write_transfer false o block = CarriedIn o block
Carried write_transfer true o block = Unit {0}
Carried read_transfer rest o block = Unit {0}
Carried no_transfer rest o block = Unit {0}

abbrev pub is_handle : Option ℕ → Bool
is_handle none = false
is_handle (some h) = true

pub record Coherent (b : Backend) (disk : Disk) : Type 0 where
  pub fits : All (Fits b.has_generation b.media_generation b.transfer b.lba disk) b.buffers.slots
  pub carried :
      Carried b.transfer
        (is_at_rest b.coordinator.state)
        (slot_of b.handle b.buffers)
        b.coordinator.operation.block
  pub tracked : is_handle b.handle ≡ is_transfer b.transfer
  pub quiet : (is_transfer b.transfer && is_idle b.coordinator.state) ≡ false
