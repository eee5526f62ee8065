-- ===== src/Cdc/Codec/RoundTrip.antt =====
-- Encoded bytes are decoded.
use pico_sdemu.Common.{
  ℕ, ◌+◌, ◌*◌, ◌/◌, ◌%◌, ◌^◌, ◌≤◌, ◌<◌, ◌≡◌, refl, ap, sym, ◌∙◌, Bool, true, false, not, some, List,
  [], ◌∷◌, ◌++◌, append-nil, append_assoc, length-append, if◌then◌else◌, ◌==◌, ltb, length, All,
  arith,
}
use pico_sdemu.Common.Word.{u8}
use pico_sdemu.Cdc.Codec.{
  Decoded, decoded, failed_decode, invalid_length, output_too_small, hex_value, hex_digit,
  encode_hex, decode_hex_pairs, decode_hex, b64_value, b64_digit, encode_base64, sextet, group,
  decode_groups, decode_base64, is_nil, pad, value, group_bytes,
}

abbrev pub AreBytes : List ℕ → Type 0
AreBytes = All (λ b. b < 256)

pub hex_value-hex_digit : (n : ℕ) → n < 16 → hex_value (hex_digit n) ≡ some n
unfolding hex_value hex_digit
hex_value-hex_digit n h = ground arith

pair_decodes :
    (c d a b : ℕ) (rest bytes : List ℕ)
    → hex_value c ≡ some a
    → hex_value d ≡ some b
    → decode_hex_pairs rest ≡ decoded bytes
    → decode_hex_pairs (c ∷ d ∷ rest) ≡ decoded (u8 (a * 16 + b) ∷ bytes)
unfolding decode_hex_pairs
pair_decodes c d a b rest bytes p q r = rw (p, q, r, decode_hex_pairs) refl

pairs-encode_hex :
    (bytes : List ℕ) → AreBytes bytes → decode_hex_pairs (encode_hex bytes) ≡ decoded bytes
unfolding encode_hex decode_hex_pairs
pairs-encode_hex [] h = refl
pairs-encode_hex (b ∷ bytes) h =
    pair_decodes (hex_digit (b / 16)) (hex_digit (b % 16)) (b / 16) (b % 16) (encode_hex bytes)
      bytes (hex_value-hex_digit (b / 16) (omega arith))
      (hex_value-hex_digit (b % 16) (omega arith)) (pairs-encode_hex bytes h.1)
    ∙ ap (λ x. decoded (x ∷ bytes)) (omega arith)

length-encode_hex : (bytes : List ℕ) → length (encode_hex bytes) ≡ 2 * length bytes
unfolding encode_hex
length-encode_hex [] = refl
length-encode_hex (b ∷ bytes) = ground (arith, length-encode_hex bytes)

not_ltb : (a b : ℕ) → b ≤ a → ltb a b ≡ false
not_ltb a b h = ground arith

even : (n : ℕ) → (2 * n % 2 == 0) ≡ true
even n = ground arith

half : (n : ℕ) → 2 * n / 2 ≡ n
half n = omega arith

room_lem :
    (n room : ℕ) (d : Decoded)
    → n ≤ room
    → (if not (2 * n % 2 == 0)
        then failed_decode invalid_length
        else if ltb room (2 * n / 2)
        then failed_decode output_too_small
        else d)
      ≡ d
room_lem n room d h = rw (even n, half n, not_ltb room n h) refl

-- Bytes written in hexadecimal are read back into an output that has room for them.
pub decode-encode_hex :
    (bytes : List ℕ) (room : ℕ)
    → AreBytes bytes
    → length bytes ≤ room
    → decode_hex (encode_hex bytes) room ≡ decoded bytes
unfolding decode_hex
decode-encode_hex bytes room h r =
    rw (length-encode_hex bytes, pairs-encode_hex bytes h)
      (room_lem (length bytes) room (decoded bytes) r)

b64_value-b64_digit : (n : ℕ) → n < 64 → b64_value (b64_digit n) ≡ some n
unfolding b64_value b64_digit
b64_value-b64_digit n h = ground arith

b64_digit-not_pad : (n : ℕ) → n < 64 → (b64_digit n == b'=') ≡ false
unfolding b64_digit
b64_digit-not_pad n h = ground arith

sextet-b64_digit : (n : ℕ) → n < 64 → sextet (b64_digit n) ≡ value n
unfolding sextet
sextet-b64_digit n h = rw (b64_digit-not_pad n h, b64_value-b64_digit n h) refl

whole_group :
    (a b c d : ℕ) (last : Bool)
    → a < 64
    → b < 64
    → c < 64
    → d < 64
    → group (b64_digit a) (b64_digit b) (b64_digit c) (b64_digit d) last
      ≡ group_bytes a b (value c) (value d) last
unfolding group
whole_group a b c d last ha hb hc hd =
    rw
      (
        b64_value-b64_digit a ha,
        b64_value-b64_digit b hb,
        sextet-b64_digit c hc,
        sextet-b64_digit d hd,
        group,
      )
      refl

three_group :
    (a b c : ℕ)
    → a < 64
    → b < 64
    → c < 64
    → group (b64_digit a) (b64_digit b) (b64_digit c) b'=' true ≡ group_bytes a b (value c) pad true
unfolding group sextet
three_group a b c ha hb hc =
    rw (b64_value-b64_digit a ha, b64_value-b64_digit b hb, sextet-b64_digit c hc, group) refl

two_group :
    (a b : ℕ)
    → a < 64
    → b < 64
    → group (b64_digit a) (b64_digit b) b'=' b'=' true ≡ group_bytes a b pad pad true
unfolding group sextet
two_group a b ha hb = rw (b64_value-b64_digit a ha, b64_value-b64_digit b hb, group) refl

-- A group that is decoded goes behind what is written, where there is room for it.
group_written :
    (room p q r s : ℕ) (written rest bytes : List ℕ)
    → group p q r s (is_nil rest) ≡ some bytes
    → length written + length bytes ≤ room
    → decode_groups room written (p ∷ q ∷ r ∷ s ∷ rest) ≡ decode_groups room (written ++ bytes) rest
unfolding decode_groups
group_written room p q r s written rest bytes g h =
    rw (g, not_ltb room (length written + length bytes) h, decode_groups) refl

three_bytes :
    (a b c : ℕ) (last : Bool)
    → a < 256
    → b < 256
    → c < 256
    → (let v = a * 2 ^ 16 + b * 2 ^ 8 + c in
        group_bytes
          (v / 2 ^ 18 % 64)
          (v / 2 ^ 12 % 64)
          (value (v / 2 ^ 6 % 64))
          (value (v % 64))
          last)
      ≡ some (a ∷ b ∷ c ∷ [])
unfolding group_bytes
three_bytes a b c last ha hb hc = ground arith

two_bytes :
    (a b : ℕ)
    → a < 256
    → b < 256
    → (let v = a * 2 ^ 16 + b * 2 ^ 8 in
        group_bytes (v / 2 ^ 18 % 64) (v / 2 ^ 12 % 64) (value (v / 2 ^ 6 % 64)) pad true)
      ≡ some (a ∷ b ∷ [])
unfolding group_bytes
two_bytes a b ha hb = ground arith

one_byte :
    (a : ℕ)
    → a < 256
    → (let v = a * 2 ^ 16 in group_bytes (v / 2 ^ 18 % 64) (v / 2 ^ 12 % 64) pad pad true)
      ≡ some (a ∷ [])
unfolding group_bytes
one_byte a ha = ground arith

groups-encode_base64 :
    (room : ℕ) (written bytes : List ℕ)
    → AreBytes bytes
    → length written + length bytes ≤ room
    → decode_groups room written (encode_base64 bytes) ≡ decoded (written ++ bytes)
unfolding encode_base64 decode_groups
groups-encode_base64 room written [] h r = ap decoded (sym (append-nil written))
groups-encode_base64 room written (a ∷ []) h r =
    group_written room _ _ _ _ written [] (a ∷ [])
      (two_group _ _ (omega arith) (omega arith) ∙ one_byte a h.0) r
groups-encode_base64 room written (a ∷ b ∷ []) h r =
    group_written room _ _ _ _ written [] (a ∷ b ∷ [])
      (three_group _ _ _ (omega arith) (omega arith) (omega arith) ∙ two_bytes a b h.0 h.1.0) r
groups-encode_base64 room written (a ∷ b ∷ c ∷ rest) h r =
    group_written room _ _ _ _ written (encode_base64 rest) (a ∷ b ∷ c ∷ [])
      (whole_group _ _ _ _ _ (omega arith) (omega arith) (omega arith) (omega arith)
        ∙ three_bytes a b c _ h.0 h.1.0 h.1.1.0)
      (omega arith)
    ∙ groups-encode_base64 room (written ++ (a ∷ b ∷ c ∷ [])) rest h.1.1.1
        (rw (length-append written (a ∷ b ∷ c ∷ [])) (omega arith))
    ∙ ap decoded (append_assoc written (a ∷ b ∷ c ∷ []) rest)

length-encode_base64 : (bytes : List ℕ) → length (encode_base64 bytes) % 4 ≡ 0
unfolding encode_base64
length-encode_base64 [] = refl
length-encode_base64 (a ∷ []) = refl
length-encode_base64 (a ∷ b ∷ []) = refl
length-encode_base64 (a ∷ b ∷ c ∷ rest) = omega (arith, length-encode_base64 rest)

-- Bytes written in base64 are read back into an output that has room for them.
pub decode-encode_base64 :
    (bytes : List ℕ) (room : ℕ)
    → AreBytes bytes
    → length bytes ≤ room
    → decode_base64 (encode_base64 bytes) room ≡ decoded bytes
unfolding decode_base64
decode-encode_base64 bytes room h r =
    rw (length-encode_base64 bytes) (groups-encode_base64 room [] bytes h (omega arith))
