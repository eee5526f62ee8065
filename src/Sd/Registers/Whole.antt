-- ===== src/Sd/Registers/Whole.antt =====
-- The registers have the sizes that the source's arrays have.
use pico_sdemu.Common.{
  ℕ, zero, suc, ◌+◌, ◌-◌, ◌/◌, ◌^◌, ◌≡◌, refl, ◌∙◌, List, arith, length, length-set,
}
use pico_sdemu.Sd.Registers.{
  CardType, sdsc, sdhc, set_bits, set_bits_from, zero_csd, sdhc_capacity, sdsc_capacity, capacity,
  ocr_of, make_registers,
}

length-set_bits_from :
    (count bit low value : ℕ) (bytes : List ℕ)
    → length (set_bits_from count bit low value bytes) ≡ length bytes
unfolding set_bits_from
length-set_bits_from zero bit low value bytes = refl
length-set_bits_from (suc count) bit low value bytes =
    length-set_bits_from count (bit + 1) low value _ ∙ length-set bytes _ _

length-set_bits :
    (bytes : List ℕ) (high low value : ℕ) → length (set_bits bytes high low value) ≡ length bytes
unfolding set_bits
length-set_bits bytes high low value = length-set_bits_from (high + 1 - low) low low value bytes

sdhc-length : (n : ℕ) → length (sdhc_capacity n).0 ≡ 16
unfolding sdhc_capacity
sdhc-length n = ground (
  arith,
  length-set_bits (set_bits (set_bits zero_csd 127 126 1) 83 80 9) 69 48 (n / 1024 - 1),
  length-set_bits (set_bits zero_csd 127 126 1) 83 80 9,
  length-set_bits zero_csd 127 126 1,
)

sdsc_fields :
    (c m : ℕ)
    → length (set_bits (set_bits (set_bits (set_bits zero_csd 127 126 0) 83 80 9) 73 62 c) 49 47 m)
      ≡ 16
sdsc_fields c m =
    length-set_bits _ 49 47 m
    ∙ (length-set_bits _ 73 62 c ∙ (length-set_bits _ 83 80 9 ∙ length-set_bits zero_csd 127 126 0))

sdsc-length : (k n : ℕ) → length (sdsc_capacity k n).0 ≡ 16
unfolding sdsc_capacity
sdsc-length zero n = refl
sdsc-length (suc k) n =
    ground (arith, sdsc-length k n, sdsc_fields (n / 2 ^ (k + 2 + 2) - 1) (k + 2))

-- For either card type and any number of blocks the OCR has 4 bytes, and the CID and the CSD have 16.
pub make_registers-sizes :
    (type : CardType) (n : ℕ)
    → (length (make_registers type n).ocr ≡ 4)
      × (length (make_registers type n).cid ≡ 16)
      × (length (make_registers type n).csd ≡ 16)
unfolding make_registers capacity ocr_of
make_registers-sizes sdsc n = (refl, refl, sdsc-length 8 n)
make_registers-sizes sdhc n = (refl, refl, sdhc-length n)
