-- ===== src/Cdc/Responses.antt =====
-- shared/protocol/src/cdc_block_response.cpp and cdc_media_info.cpp: what the firmware reads out of an
-- `OK` line. A decoder returns what it stores through its output, or its error; no caller looks at
-- the output after an error.
pub mod RoundTrip
use pico_sdemu.Common.{
  ℕ, Bool, true, false, not, ◌&&◌, ◌||◌, Option, none, some, List, if◌then◌else◌, ◌==◌, length,
  eq_bytes,
}
use pico_sdemu.Common.Bytes.{codes}
use pico_sdemu.Sd.Crc.{crc32}
use pico_sdemu.Cdc.Numbers.{Text, parse_u64, parse_hex32}
use pico_sdemu.Cdc.Text.{
  Token, parsed, rejected, parse_text_line, line_command, value_for, is_nonempty,
}
use pico_sdemu.Cdc.Codec.{decoded, failed_decode, decode_base64}

abbrev pub cdc_block_size : ℕ
cdc_block_size = 512

pub data ResponseError : Type 0 where
  invalid_line error_response missing_field invalid_value invalid_data bad_block_crc : ResponseError

pub data Decoding (A : Type 0) : Type 0 where
  read_as : A → Decoding A
  unreadable : ResponseError → Decoding A

pub data CdcCardType : Type 0 where
  cdc_sdsc cdc_sdhc : CdcCardType

pub record CardInfo : Type 0 where
  pub present : Bool
  pub type : CdcCardType
  pub blocks : ℕ
  pub readonly : Bool

pub record ReadBlock : Type 0 where
  pub lba : ℕ
  pub block : List ℕ

-- `hexadecimal_crc`: eight characters, all of them digits.
unfoldable pub hexadecimal_crc : Text → Option ℕ
hexadecimal_crc text = if not (length text == 8) then none else parse_hex32 text

-- `boolean_field`.
unfoldable pub boolean_field : Text → Option Bool
boolean_field value =
    if eq_bytes value (codes "0")
    then some false
    else if eq_bytes value (codes "1")
    then some true
    else none

-- The type of a card, the last field that is read.
unfoldable pub card_type_field : Text → Option CdcCardType
card_type_field type =
    if eq_bytes type (codes "SDSC")
    then some cdc_sdsc
    else if eq_bytes type (codes "SDHC")
    then some cdc_sdhc
    else none

-- `parse_ok`, and then the rest of the decoder.
unfoldable pub parse_ok : {A : Type 0} → Text → (List Token → Decoding A) → Decoding A
parse_ok response decode = elim (parse_text_line response) [
  | rejected e ↦ unreadable invalid_line
  | parsed tokens ↦
      if eq_bytes (line_command tokens) (codes "OK")
      then decode tokens
      else unreadable error_response
]

-- The values of `decode_get_info_response`, all of them there.
unfoldable pub card_info_of : Text → Text → Text → Text → Text → Decoding CardInfo
unfolding boolean_field card_type_field
card_info_of present type blocks block_size readonly = elim (boolean_field present) [
  | none ↦ unreadable invalid_value
  | some is_present ↦ elim (boolean_field readonly) [
    | none ↦ unreadable invalid_value
    | some is_readonly ↦ elim (parse_u64 blocks) [
      | none ↦ unreadable invalid_value
      | some n ↦ elim (parse_u64 block_size) [
        | none ↦ unreadable invalid_value
        | some size ↦
            if n == 0 || not (size == cdc_block_size)
            then unreadable invalid_value
            else elim (card_type_field type) [
              | none ↦ unreadable invalid_value
              | some t ↦
                  read_as
                    record { present = is_present; type = t; blocks = n; readonly = is_readonly }
            ]
      ]
    ]
  ]
]

unfoldable pub decode_get_info_tokens : List Token → Decoding CardInfo
unfolding card_info_of
decode_get_info_tokens tokens =
    let present = value_for tokens (codes "present") in
    let type = value_for tokens (codes "type") in
    let blocks = value_for tokens (codes "blocks") in
    let block_size = value_for tokens (codes "block_size") in
    let readonly = value_for tokens (codes "readonly") in
    if not (is_nonempty present)
      || not (is_nonempty type)
      || not (is_nonempty blocks)
      || not (is_nonempty block_size)
      || not (is_nonempty readonly)
    then unreadable missing_field
    else card_info_of present type blocks block_size readonly

unfoldable pub decode_get_info_response : Text → Decoding CardInfo
decode_get_info_response response = parse_ok response decode_get_info_tokens

-- The data of a block behind its other fields.
unfoldable pub block_data_of : ℕ → ℕ → Text → Decoding ReadBlock
block_data_of lba checksum data_text = elim (decode_base64 data_text cdc_block_size) [
  | failed_decode e ↦ unreadable invalid_data
  | decoded bytes ↦
      if not (length bytes == cdc_block_size)
      then unreadable invalid_data
      else if not (crc32 bytes == checksum)
      then unreadable bad_block_crc
      else read_as record { lba = lba; block = bytes }
]

-- The values of `decode_read_block_response`, all of them there.
unfoldable pub read_block_of : Text → Text → Text → Text → Text → Decoding ReadBlock
read_block_of lba count encoding checksum data_text = elim (parse_u64 lba) [
  | none ↦ unreadable invalid_value
  | some n ↦ elim (parse_u64 count) [
    | none ↦ unreadable invalid_value
    | some k ↦
        if not (k == 1) || not (eq_bytes encoding (codes "BASE64"))
        then unreadable invalid_value
        else elim (hexadecimal_crc checksum) [
          | none ↦ unreadable invalid_value
          | some c ↦ block_data_of n c data_text
        ]
  ]
]

unfoldable pub decode_read_block_tokens : List Token → Decoding ReadBlock
decode_read_block_tokens tokens =
    let lba = value_for tokens (codes "lba") in
    let count = value_for tokens (codes "count") in
    let encoding = value_for tokens (codes "encoding") in
    let checksum = value_for tokens (codes "crc32") in
    let data_text = value_for tokens (codes "data") in
    if not (is_nonempty lba)
      || not (is_nonempty count)
      || not (is_nonempty encoding)
      || not (is_nonempty checksum)
      || not (is_nonempty data_text)
    then unreadable missing_field
    else read_block_of lba count encoding checksum data_text

unfoldable pub decode_read_block_response : Text → Decoding ReadBlock
decode_read_block_response response = parse_ok response decode_read_block_tokens

pub data MediaInfoError : Type 0 where
  invalid_media_line missing_media_field invalid_media_field unsupported_block_size : MediaInfoError

pub record MediaInfo : Type 0 where
  pub present : Bool
  pub read_only : Bool
  pub blocks : ℕ
  pub generation : ℕ

pub data MediaDecoding : Type 0 where
  media_is : MediaInfo → MediaDecoding
  no_media_info : MediaInfoError → MediaDecoding

-- `MediaInfo` as declared.
abbrev pub unknown_media : MediaInfo
unknown_media = record { present = false; read_only = true; blocks = 0; generation = 0 }

-- An empty generation is 0.
unfoldable pub generation_of : Text → Option ℕ
generation_of text = if is_nonempty text then parse_u64 text else some 0

-- The numbers of `decode_cdc_media_info`, once `present` and `readonly` are known to be 0 or 1.
unfoldable pub media_of : Bool → Bool → Text → Text → Text → MediaDecoding
unfolding generation_of
media_of present readonly block_size blocks generation = elim (parse_u64 block_size) [
  | none ↦ no_media_info invalid_media_field
  | some size ↦ elim (parse_u64 blocks) [
    | none ↦ no_media_info invalid_media_field
    | some n ↦
        if not (size == 512)
        then no_media_info unsupported_block_size
        else if present && (n == 0)
        then no_media_info invalid_media_field
        else elim (generation_of generation) [
          | none ↦ no_media_info invalid_media_field
          | some g ↦ media_is record {
            present = present;
            read_only = readonly;
            blocks = if present then n else 0;
            generation = g;
          }
        ]
  ]
]

unfoldable pub media_fields : List Token → MediaDecoding
unfolding media_of boolean_field
media_fields tokens =
    let present = value_for tokens (codes "present") in
    let readonly = value_for tokens (codes "readonly") in
    let block_size = value_for tokens (codes "block_size") in
    let blocks = value_for tokens (codes "blocks") in
    if not (is_nonempty present)
      || not (is_nonempty readonly)
      || not (is_nonempty block_size)
      || not (is_nonempty blocks)
    then no_media_info missing_media_field
    else elim (boolean_field present) [
      | none ↦ no_media_info invalid_media_field
      | some is_present ↦ elim (boolean_field readonly) [
        | none ↦ no_media_info invalid_media_field
        | some is_readonly ↦
            media_of is_present is_readonly block_size blocks
              (value_for tokens (codes "generation"))
      ]
    ]

unfoldable pub decode_cdc_media_info : Text → MediaDecoding
unfolding media_fields
decode_cdc_media_info input = elim (parse_text_line input) [
  | rejected e ↦ no_media_info invalid_media_line
  | parsed tokens ↦
      if eq_bytes (line_command tokens) (codes "OK")
      then media_fields tokens
      else no_media_info invalid_media_line
]
