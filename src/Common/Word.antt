-- ===== src/Common/Word.antt =====
-- Machine words as native numbers that wrap.
use Prim.Native.Nat.{ℕ, ◌%◌, ◌<◌}
use mathlib.Core.List.{List}
use pico_sdemu.Common.Lists.{All}

abbrev pub u8 : ℕ → ℕ
u8 n = n % 256

abbrev pub u16 : ℕ → ℕ
u16 n = n % 65536

abbrev pub u32 : ℕ → ℕ
u32 n = n % 4294967296

abbrev pub u64 : ℕ → ℕ
u64 n = n % 18446744073709551616

-- `std::numeric_limits<std::uint64_t>::max()`.
abbrev pub u64_max : ℕ
u64_max = 18446744073709551615

abbrev pub IsByte : ℕ → Type 0
IsByte b = b < 256

abbrev pub AreBytes : List ℕ → Type 0
AreBytes = All IsByte
