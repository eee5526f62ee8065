-- ===== src/Cdc/Codec.antt =====
-- shared/protocol/src/codec.cpp: hexadecimal and base64 text of byte arrays. The decoders return the
-- bytes that they write, or an error; what they have written before an error is not read.
pub mod RoundTrip
use Prim.Native.Nat.{bit_or}
use pico_sdemu.Common.{
  ℕ, zero, suc, ◌+◌, ◌-◌, ◌*◌, ◌/◌, ◌%◌, ◌^◌, Bool, true, false, not, ◌&&◌, ◌||◌, Option, none,
  some, List, [], ◌∷◌, ◌++◌, if◌then◌else◌, ◌==◌, ltb, leb, length, get_or,
}
use pico_sdemu.Common.Word.{u8}

pub data CodecError : Type 0 where
  invalid_length invalid_character output_too_small : CodecError

pub data Decoded : Type 0 where
  decoded : List ℕ → Decoded
  failed_decode : CodecError → Decoded

abbrev in_span : ℕ → ℕ → ℕ → Bool
in_span c low high = leb low c && leb c high

-- `none` is -1.
unfoldable pub hex_value : ℕ → Option ℕ
hex_value c =
    if in_span c b'0' b'9'
    then some (c - b'0')
    else if in_span c b'A' b'F'
    then some (c - b'A' + 10)
    else if in_span c b'a' b'f'
    then some (c - b'a' + 10)
    else none

-- `"0123456789ABCDEF"[n]`.
unfoldable pub hex_digit : ℕ → ℕ
hex_digit n = if ltb n 10 then b'0' + n else b'A' + (n - 10)

unfoldable pub encode_hex : List ℕ → List ℕ
encode_hex [] = []
encode_hex (b ∷ bytes) = hex_digit (b / 16) ∷ hex_digit (b % 16) ∷ encode_hex bytes

abbrev pub prepend : ℕ → Decoded → Decoded
prepend b (decoded bytes) = decoded (b ∷ bytes)
prepend b (failed_decode e) = failed_decode e

-- The loop of `decode_hex`, two characters a round; the input has an even length.
unfoldable pub decode_hex_pairs : List ℕ → Decoded
decode_hex_pairs [] = decoded []
decode_hex_pairs (c ∷ []) = failed_decode invalid_length
decode_hex_pairs (c ∷ d ∷ rest) =
    let others = decode_hex_pairs rest in
    elim (hex_value c) [
      | none ↦ failed_decode invalid_character
      | some a ↦ elim (hex_value d) [
        | none ↦ failed_decode invalid_character
        | some b ↦ prepend (u8 (a * 16 + b)) others
      ]
    ]

unfoldable pub decode_hex : List ℕ → ℕ → Decoded
unfolding decode_hex_pairs
decode_hex input output_size =
    if not (length input % 2 == 0)
    then failed_decode invalid_length
    else if ltb output_size (length input / 2)
    then failed_decode output_too_small
    else decode_hex_pairs input

unfoldable pub b64_value : ℕ → Option ℕ
b64_value c =
    if in_span c b'A' b'Z'
    then some (c - b'A')
    else if in_span c b'a' b'z'
    then some (c - b'a' + 26)
    else if in_span c b'0' b'9'
    then some (c - b'0' + 52)
    else if c == b'+'
    then some 62
    else if c == b'/'
    then some 63
    else none

-- `kBase64[n]`.
unfoldable pub b64_digit : ℕ → ℕ
b64_digit n =
    if ltb n 26
    then b'A' + n
    else if ltb n 52
    then b'a' + (n - 26)
    else if ltb n 62
    then b'0' + (n - 52)
    else if n == 62
    then b'+'
    else b'/'

-- Three bytes a round; a last round of one or two bytes is padded.
unfoldable pub encode_base64 : List ℕ → List ℕ
encode_base64 [] = []
encode_base64 (a ∷ []) =
    let v = a * 2 ^ 16 in
    b64_digit (v / 2 ^ 18 % 64) ∷ b64_digit (v / 2 ^ 12 % 64) ∷ b'=' ∷ b'=' ∷ []
encode_base64 (a ∷ b ∷ []) =
    let v = a * 2 ^ 16 + b * 2 ^ 8 in
    b64_digit (v / 2 ^ 18 % 64)
    ∷ b64_digit (v / 2 ^ 12 % 64)
    ∷ b64_digit (v / 2 ^ 6 % 64)
    ∷ b'='
    ∷ []
encode_base64 (a ∷ b ∷ c ∷ rest) =
    let v = a * 2 ^ 16 + b * 2 ^ 8 + c in
    b64_digit (v / 2 ^ 18 % 64)
    ∷ b64_digit (v / 2 ^ 12 % 64)
    ∷ b64_digit (v / 2 ^ 6 % 64)
    ∷ b64_digit (v % 64)
    ∷ encode_base64 rest

-- The value of one of the last two characters of a group: `pad` is -2 and `bad` is -1.
pub data Sextet : Type 0 where
  pad bad : Sextet
  value : ℕ → Sextet

abbrev pub sextet_of : Option ℕ → Sextet
sextet_of none = bad
sextet_of (some n) = value n

unfoldable pub sextet : ℕ → Sextet
sextet c = if c == b'=' then pad else sextet_of (b64_value c)

-- The bytes of one group, or that it is invalid; `is_last` is `i + 4 == in.size()`.
unfoldable pub group_bytes : ℕ → ℕ → Sextet → Sextet → Bool → Option (List ℕ)
group_bytes a b (value c) (value d) is_last =
    let v = a * 2 ^ 18 + b * 2 ^ 12 + c * 2 ^ 6 + d in
    some (u8 (v / 2 ^ 16) ∷ u8 (v / 2 ^ 8) ∷ u8 v ∷ [])
group_bytes a b (value c) pad is_last =
    let v = a * 2 ^ 18 + b * 2 ^ 12 + c * 2 ^ 6 in
    if is_last then some (u8 (v / 2 ^ 16) ∷ u8 (v / 2 ^ 8) ∷ []) else none
group_bytes a b pad pad is_last =
    let v = a * 2 ^ 18 + b * 2 ^ 12 in if is_last then some (u8 (v / 2 ^ 16) ∷ []) else none
group_bytes a b _ _ is_last = none

unfoldable pub group : ℕ → ℕ → ℕ → ℕ → Bool → Option (List ℕ)
group p q r s is_last = elim (b64_value p) [
  | none ↦ none
  | some a ↦ elim (b64_value q) [
    | none ↦ none
    | some b ↦ group_bytes a b (sextet r) (sextet s) is_last
  ]
]

abbrev pub is_nil {ℓ} : {A : Type ℓ} → List A → Bool
is_nil [] = true
is_nil (x ∷ xs) = false

-- The loop, behind the bytes written so far; the input's length is a multiple of four.
unfoldable pub decode_groups : ℕ → List ℕ → List ℕ → Decoded
decode_groups cap written [] = decoded written
decode_groups cap written (p ∷ q ∷ r ∷ s ∷ rest) = elim (group p q r s (is_nil rest)) [
  | none ↦ failed_decode invalid_character
  | some bytes ↦ elim (ltb cap (length written + length bytes)) [
    | true ↦ failed_decode output_too_small
    | false ↦ decode_groups cap (written ++ bytes) rest
  ]
]
decode_groups cap written _ = failed_decode invalid_length

unfoldable pub decode_base64 : List ℕ → ℕ → Decoded
unfolding decode_groups
decode_base64 input cap =
    if not (length input % 4 == 0) then failed_decode invalid_length else decode_groups cap [] input
