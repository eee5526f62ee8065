-- ===== src/Cdc/Text.antt =====
-- shared/protocol/src/text_line.cpp: `parse_text_line`. A line is the list of its bytes, and a
-- parsed line the list of its tokens. The outer loop runs on fuel, a round for each byte of the input:
-- each round takes a byte at least.
pub mod Lines
pub mod RoundTrip
pub mod Errors
use pico_sdemu.Common.{
  ℕ, zero, suc, Bool, true, false, not, ◌&&◌, ◌||◌, Option, none, some, List, [], ◌∷◌, ◌++◌,
  if◌then◌else◌, ◌==◌, leb, length, eq_bytes,
}

abbrev pub max_tokens : ℕ
max_tokens = 16

abbrev pub Token : Type 0
Token = List ℕ

-- `TextLineError` without `None`.
pub data TextError : Type 0 where
  empty contains_line_terminator invalid_character duplicate_key too_many_tokens : TextError

pub data Parsed : Type 0 where
  parsed : List Token → Parsed
  rejected : TextError → Parsed

abbrev pub is_separator : ℕ → Bool
is_separator c = c == b' ' || c == 9

abbrev pub is_terminator : ℕ → Bool
is_terminator c = c == 13 || c == 10

abbrev pub is_printable_ascii : ℕ → Bool
is_printable_ascii c = leb 0x21 c && leb c 0x7e

unfoldable pub all_printable : Token → Bool
all_printable [] = true
all_printable (c ∷ cs) = is_printable_ascii c && all_printable cs

-- `token.find('=') != npos`.
unfoldable pub has_equals : Token → Bool
has_equals [] = false
has_equals (c ∷ cs) = c == b'=' || has_equals cs

-- `field_key`: the token up to its first `=`, or all of it.
unfoldable pub field_key : Token → Token
field_key [] = []
field_key (c ∷ cs) = if c == b'=' then [] else c ∷ field_key cs

-- The token behind its first `=`.
unfoldable pub after_equals : Token → Token
after_equals [] = []
after_equals (c ∷ cs) = if c == b'=' then cs else after_equals cs

-- `token.substr(token.find('=') + 1)`: all of the token where there is no `=`, since `npos + 1` is 0.
unfoldable pub field_value : Token → Token
unfolding has_equals after_equals
field_value token = if has_equals token then after_equals token else token

abbrev pub is_nonempty : Token → Bool
is_nonempty [] = false
is_nonempty (c ∷ cs) = true

unfoldable pub is_valid_token : Token → Bool → Bool
unfolding all_printable has_equals field_key after_equals
is_valid_token token is_command =
    if not (all_printable token)
    then false
    else if is_command
    then not (has_equals token)
    else has_equals token && is_nonempty (field_key token) && is_nonempty (after_equals token)

-- Some token has this key.
unfoldable pub has_key : Token → List Token → Bool
unfolding field_key
has_key key [] = false
has_key key (t ∷ ts) = eq_bytes (field_key t) key || has_key key ts

abbrev pub tail {ℓ} : {A : Type ℓ} → List A → List A
tail [] = []
tail (x ∷ xs) = xs

-- What the loop does with a complete token.
unfoldable pub add_token : List Token → Token → Parsed
unfolding is_valid_token has_key
add_token tokens token =
    if length tokens == max_tokens
    then rejected too_many_tokens
    else if not (is_valid_token token (length tokens == 0))
    then rejected invalid_character
    else if not (length tokens == 0) && has_key (field_key token) (tail tokens)
    then rejected duplicate_key
    else parsed (tokens ++ (token ∷ []))

-- The inner loop: the token at the front and the input behind it; `none` at a line terminator.
unfoldable pub scan_token : List ℕ → Option (Token × List ℕ)
scan_token [] = some ([], [])
scan_token (c ∷ cs) = elim (is_separator c) [
  | true ↦ some ([], c ∷ cs)
  | false ↦ elim (is_terminator c) [
    | true ↦ none
    | false ↦ elim (scan_token cs) [ none ↦ none | some (t, rest) ↦ some (c ∷ t, rest) ]
  ]
]

abbrev pub finish : List Token → Parsed
finish [] = rejected empty
finish (t ∷ ts) = parsed (t ∷ ts)

-- The outer loop.
unfoldable pub parse_from : ℕ → List Token → List ℕ → Parsed
unfolding scan_token add_token
parse_from fuel tokens [] = finish tokens
parse_from zero tokens (c ∷ cs) = rejected empty
parse_from (suc fuel) tokens (c ∷ cs) = elim (is_terminator c) [
  | true ↦ rejected contains_line_terminator
  | false ↦ elim (is_separator c) [
    | true ↦ parse_from fuel tokens cs
    | false ↦ elim (scan_token (c ∷ cs)) [
      | none ↦ rejected contains_line_terminator
      | some (token, rest) ↦ elim (add_token tokens token) [
        | rejected e ↦ rejected e
        | parsed tokens' ↦ parse_from fuel tokens' rest
      ]
    ]
  ]
]

unfoldable pub parse_text_line : List ℕ → Parsed
unfolding parse_from
parse_text_line input = parse_from (length input) [] input

-- `TextLine::command`.
unfoldable pub line_command : List Token → Token
line_command [] = []
line_command (t ∷ ts) = t

-- The loop of `TextLine::value_for` over the fields.
unfoldable pub find_value : List Token → Token → Token
unfolding field_key field_value
find_value [] key = []
find_value (t ∷ ts) key = if eq_bytes (field_key t) key then field_value t else find_value ts key

unfoldable pub value_for : List Token → Token → Token
unfolding find_value
value_for tokens key = find_value (tail tokens) key
