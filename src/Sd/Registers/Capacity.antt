-- ===== src/Sd/Registers/Capacity.antt =====
-- How many of the requested blocks the card exposes.
use pico_sdemu.Common.{ℕ, zero, suc, ◌+◌, ◌*◌, ◌/◌, ◌^◌, ◌≤◌, ◌<◌, ◌≡◌, arith}
use pico_sdemu.Sd.Registers.{CardType, sdsc, sdhc, sdhc_capacity, sdsc_capacity, make_registers}

sdsc_capacity-le : (k n : ℕ) → (sdsc_capacity k n).1 ≤ n
unfolding sdsc_capacity
sdsc_capacity-le zero n = omega arith
sdsc_capacity-le (suc k) n = ground (arith, sdsc_capacity-le k n, div-mul-le n (2 ^ (k + 2 + 2)))
  where
    div-mul-le : (n d : ℕ) → n / d * d ≤ n
    div-mul-le n d = grind arith

-- The card never exposes more blocks than its storage has.
pub exposed-le : (type : CardType) (n : ℕ) → (make_registers type n).exposed_blocks ≤ n
unfolding make_registers sdhc_capacity
exposed-le sdsc n = sdsc_capacity-le 8 n
exposed-le sdhc n = ground arith

-- Up to 2^32 - 1 blocks an SDHC card exposes the storage rounded down to whole groups of 1024 blocks.
pub sdhc_exposed : (n : ℕ) → n < 2 ^ 32 → (make_registers sdhc n).exposed_blocks ≡ n / 1024 * 1024
unfolding make_registers sdhc_capacity
sdhc_exposed n h = ground arith

-- An SDSC card of at least 2048 and less than 4097 * 2048 blocks exposes the storage rounded down to whole
-- groups of 2048 blocks.
pub sdsc_exposed :
    (n : ℕ) → 2048 ≤ n → n < 8390656 → (make_registers sdsc n).exposed_blocks ≡ n / 2048 * 2048
unfolding make_registers sdsc_capacity
sdsc_exposed n lo hi = ground arith

-- For 2064 to 4095 blocks that is not the most that the SDSC format can express: a group of 16 blocks, at
-- most 4096 times, would give more.
pub sdsc_not_largest :
    (n : ℕ)
    → 2064 ≤ n
    → n < 4096
    → (1 ≤ n / 16) × (n / 16 ≤ 4096) × ((make_registers sdsc n).exposed_blocks < n / 16 * 16)
sdsc_not_largest n lo hi = omega (arith, sdsc_exposed n (omega arith) (omega arith))

-- Nor does a larger storage round down to the format's largest capacity: nothing is exposed.
pub sdsc_too_large : (n : ℕ) → 8390656 ≤ n → (make_registers sdsc n).exposed_blocks ≡ 0
unfolding make_registers sdsc_capacity
sdsc_too_large n h = ground arith
