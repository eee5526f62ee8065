-- ===== src/Sd/Storage.antt =====
-- The storage boundary `BlockBackend` of sd_card_state.hpp as an interface, and its RAM
-- implementation of shared/protocol/src/sd_card_state.cpp.
-- A backend keeps a state `S`; an operation returns the new one. What `read` stores through its
-- output is carried by `complete_read`: no caller looks at the output after another result.
use pico_sdemu.Common.{
  ℕ, zero, suc, ◌+◌, ◌*◌, ◌%◌, Bool, false, not, List, [], ◌∷◌, if◌then◌else◌, ◌==◌, leb, get_or,
  set, replicate,
}
use pico_sdemu.Common.Word.{u8}

abbrev pub block_size : ℕ
block_size = 512

abbrev pub ram_maximum_blocks : ℕ
ram_maximum_blocks = 64

abbrev pub Block : Type 0
Block = List ℕ

pub data IoResult : Type 0 where
  complete pending failed : IoResult

pub data ReadResult : Type 0 where
  complete_read : Block → ReadResult
  pending_read failed_read : ReadResult

pub record BlockBackend (S : Type 0) : Type 0 where
  pub block_count : S → ℕ
  pub media_present : S → Bool
  pub write_protected : S → Bool
  pub flush : S → S × IoResult
  pub read : S → ℕ → S × ReadResult
  pub write : S → ℕ → Block → S × IoResult

-- The bodies that the base class gives.
abbrev pub default_media_present : ℕ → Bool
default_media_present block_count = not (block_count == 0)

abbrev pub default_flush : Bool → IoResult
default_flush media_present = if media_present then complete else failed

pub record RamBlocks : Type 0 where
  pub blocks : List Block
  pub block_count : ℕ

unfoldable pub ram_new : ℕ → RamBlocks
ram_new count = record {
  blocks = replicate ram_maximum_blocks (replicate block_size 0);
  block_count = if leb count ram_maximum_blocks then count else 0;
}

unfoldable pub ram_read : RamBlocks → ℕ → RamBlocks × ReadResult
ram_read r lba =
    if leb r.block_count lba then (r, failed_read) else (r, complete_read (get_or r.blocks lba []))

unfoldable pub ram_write : RamBlocks → ℕ → Block → RamBlocks × IoResult
ram_write r lba input =
    if leb r.block_count lba
    then (r, failed)
    else (record r { blocks = set r.blocks lba input }, complete)

-- The bytes of one block of the diagnostic pattern, from index `byte` on.
pub pattern_bytes : ℕ → ℕ → ℕ → Block
pattern_bytes lba byte zero = []
pattern_bytes lba byte (suc n) = u8 ((lba * 37 + byte) % 256) ∷ pattern_bytes lba (byte + 1) n

-- The outer loop, with `n` blocks left.
pub fill_from : ℕ → ℕ → List Block → List Block
fill_from zero lba blocks = blocks
fill_from (suc n) lba blocks =
    fill_from n (lba + 1) (set blocks lba (pattern_bytes lba 0 block_size))

unfoldable pub fill_diagnostic_pattern : RamBlocks → RamBlocks
unfolding fill_from pattern_bytes
fill_diagnostic_pattern r = record r { blocks = fill_from r.block_count 0 r.blocks }

abbrev pub ram_backend : BlockBackend RamBlocks
ram_backend = record {
  block_count = λ r. r.block_count;
  media_present = λ r. default_media_present r.block_count;
  write_protected = λ r. false;
  flush = λ r. (r, default_flush (default_media_present r.block_count));
  read = ram_read;
  write = ram_write;
}
