-- ===== src/Sd/Registers.antt =====
-- shared/protocol/src/sd_registers.cpp: the OCR, CID and CSD registers and the exposed capacity.
pub mod Capacity
pub mod Whole
use Prim.Native.Nat.{bit_or}
use pico_sdemu.Common.{
  ℕ, zero, suc, ◌+◌, ◌-◌, ◌*◌, ◌/◌, ◌%◌, ◌^◌, Bool, true, false, ◌&&◌, not, List, [], ◌∷◌,
  if◌then◌else◌, ◌==◌, leb, get_or, set, replicate,
}
use pico_sdemu.Common.Word.{u8}

pub data CardType : Type 0 where
  sdsc sdhc : CardType

pub record Registers : Type 0 where
  pub ocr : List ℕ
  pub cid : List ℕ
  pub csd : List ℕ
  pub exposed_blocks : ℕ

-- The loop of `set_bits` with `count` bits left; it stops after `high`.
pub set_bits_from : ℕ → ℕ → ℕ → ℕ → List ℕ → List ℕ
set_bits_from zero bit low value bytes = bytes
set_bits_from (suc count) bit low value bytes =
    let source_bit = value / 2 ^ (bit - low) % 2 in
    let byte = 15 - bit / 8 in
    set_bits_from count (bit + 1) low value
      (set bytes byte (u8 (bit_or (get_or bytes byte 0) (source_bit * 2 ^ (bit % 8)))))

pub set_bits : List ℕ → ℕ → ℕ → ℕ → List ℕ
unfolding set_bits_from
set_bits bytes high low value = set_bits_from (high + 1 - low) low low value bytes

abbrev pub project_cid : List ℕ
project_cid =
    0x50 ∷ 0x53 ∷ 0x44 ∷ 0x45 ∷ 0x4d ∷ 0x55 ∷ 0x30 ∷ 0x30 ∷ 0x01 ∷ 0x00 ∷ 0x00 ∷ 0x00 ∷ 0x01 ∷ 0x26
    ∷ 0x01 ∷ 0x00 ∷ []

abbrev pub zero_csd : List ℕ
zero_csd = replicate 16 0

-- The SDHC branch: the CSD and the exposed blocks.
pub sdhc_capacity : ℕ → List ℕ × ℕ
sdhc_capacity requested_blocks =
    let groups = requested_blocks / 1024 in
    if not (groups == 0) && leb (groups - 1) 0x3fffff
    then (
      set_bits (set_bits (set_bits zero_csd 127 126 1) 83 80 9) 69 48 (groups - 1),
      groups * 1024,
    )
    else (zero_csd, 0)

-- The SDSC loop over the multipliers `suc k` down to 2.
pub sdsc_capacity : ℕ → ℕ → List ℕ × ℕ
sdsc_capacity zero requested_blocks = (zero_csd, 0)
sdsc_capacity (suc k) requested_blocks =
    let multiplier = k + 2 in
    let unit_blocks = 2 ^ (multiplier + 2) in
    let c_size_plus_one = requested_blocks / unit_blocks in
    let smaller = sdsc_capacity k requested_blocks in
    if not (c_size_plus_one == 0) && leb c_size_plus_one 4096
    then (
      set_bits
          (set_bits (set_bits (set_bits zero_csd 127 126 0) 83 80 9) 73 62 (c_size_plus_one - 1)) 49
          47 multiplier,
      c_size_plus_one * unit_blocks,
    )
    else smaller

pub capacity : CardType → ℕ → List ℕ × ℕ
unfolding sdhc_capacity sdsc_capacity
capacity sdhc requested_blocks = sdhc_capacity requested_blocks
capacity sdsc requested_blocks = sdsc_capacity 8 requested_blocks

pub ocr_of : CardType → List ℕ
ocr_of sdhc = 0x40 ∷ 0xff ∷ 0x80 ∷ 0x00 ∷ []
ocr_of sdsc = 0x00 ∷ 0xff ∷ 0x80 ∷ 0x00 ∷ []

unfoldable pub make_registers : CardType → ℕ → Registers
unfolding capacity ocr_of
make_registers type requested_blocks =
    let (csd, exposed_blocks) = capacity type requested_blocks in
    record { ocr = ocr_of type; cid = project_cid; csd = csd; exposed_blocks = exposed_blocks }
