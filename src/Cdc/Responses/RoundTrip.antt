-- ===== src/Cdc/Responses/RoundTrip.antt =====
-- A block written as the host writes it is read back.
use pico_sdemu.Common.{ℕ, ◌≤◌, ◌≡◌, refl, some, List, ==_refl, length, arith}
use pico_sdemu.Common.Bytes.{codes}
use pico_sdemu.Common.Word.{u64_max}
use pico_sdemu.Sd.Crc.{crc32}
use pico_sdemu.Sd.Crc.Residue.{crc32-lt}
use pico_sdemu.Cdc.Numbers.{to_string}
use pico_sdemu.Cdc.Numbers.RoundTrip.{parse-to_string}
use pico_sdemu.Cdc.Numbers.Hexadecimal.{parse_hex32-checksum_text}
use pico_sdemu.Cdc.Client.{checksum_text}
use pico_sdemu.Cdc.Codec.{encode_base64}
use pico_sdemu.Cdc.Codec.RoundTrip.{decode-encode_base64, AreBytes}
use pico_sdemu.Cdc.Responses.{
  read_as, cdc_block_size, hexadecimal_crc, block_data_of, read_block_of,
}

hexadecimal_crc-checksum_text :
    (block : List ℕ)
    → AreBytes block
    → hexadecimal_crc (checksum_text (crc32 block)) ≡ some (crc32 block)
unfolding hexadecimal_crc checksum_text
hexadecimal_crc-checksum_text block a = parse_hex32-checksum_text (crc32 block) (crc32-lt block a)

block_data_of-encode_base64 :
    (lba : ℕ) (block : List ℕ)
    → AreBytes block
    → length block ≡ cdc_block_size
    → block_data_of lba (crc32 block) (encode_base64 block)
      ≡ read_as (record { lba = lba; block = block })
unfolding block_data_of
block_data_of-encode_base64 lba block a size =
    rw
      (
        decode-encode_base64 block cdc_block_size a (omega arith),
        size,
        ==_refl (crc32 block),
        block_data_of,
      )
      refl

pub read_block_of_written :
    (lba : ℕ) (block : List ℕ)
    → lba ≤ u64_max
    → AreBytes block
    → length block ≡ cdc_block_size
    → read_block_of
        (to_string lba)
        (to_string 1)
        (codes "BASE64")
        (checksum_text (crc32 block))
        (encode_base64 block)
      ≡ read_as (record { lba = lba; block = block })
unfolding read_block_of
read_block_of_written lba block b a size =
    rw
      (
        parse-to_string lba b,
        parse-to_string 1 (omega arith),
        hexadecimal_crc-checksum_text block a,
        read_block_of,
      )
      (block_data_of-encode_base64 lba block a size)
