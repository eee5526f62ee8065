-- ===== src/Cdc/Text/RoundTrip.antt =====
-- `parse_text_line` on a written line, and `value_for` on what it returns.
use mathlib.Core.List.{Memᴰ}
use pico_sdemu.Common.{
  ℕ, zero, suc, ◌+◌, ◌≤◌, ◌≡◌, ◌≢◌, refl, sym, ap, subst, ◌∙◌, true, false, some, List, [], ◌∷◌,
  ◌++◌, map, arith, length, length-append, append_assoc, append-nil, eq_bytes_refl, eq_bytes_ne,
  ◌==◌,
}
use pico_sdemu.Cdc.Text.{
  Token, parsed, all_printable, has_equals, field_key, after_equals, field_value, is_valid_token,
  has_key, add_token, scan_token, parse_from, parse_text_line, value_for, find_value, finish,
  is_nonempty,
}
use pico_sdemu.Cdc.Text.Lines.{
  Field, Line, field_token, tokens_of, print_fields, print_line, IsPrintable, HasNoEquals, NotIn,
  AreFields, IsWellFormed,
}

printable_lem : (t : Token) → IsPrintable t → all_printable t ≡ true
unfolding all_printable
printable_lem [] h = refl
printable_lem (c ∷ t) h = ground (arith, printable_lem t h.1)

IsPrintable-append : (k v : Token) → IsPrintable k → IsPrintable v → IsPrintable (k ++ (b'=' ∷ v))
IsPrintable-append [] v hk hv = (omega arith, hv)
IsPrintable-append (c ∷ k) v hk hv = (hk.0, IsPrintable-append k v hk.1 hv)

no_equals_lem : (t : Token) → HasNoEquals t → has_equals t ≡ false
unfolding has_equals
no_equals_lem [] h = refl
no_equals_lem (c ∷ t) h = ground (arith, no_equals_lem t h.1)

-- A field's token splits at its first `=`.
field_parts :
    (k v : Token)
    → HasNoEquals k
    → let t = k ++ (b'=' ∷ v) in (has_equals t ≡ true) × (field_key t ≡ k) × (after_equals t ≡ v)
unfolding has_equals field_key after_equals
field_parts [] v h = (refl, refl, refl)
field_parts (c ∷ k) v h = ground (arith, field_parts k v h.1)

pub nonempty_lem : (t : Token) → t ≢ [] → is_nonempty t ≡ true
nonempty_lem [] h = absurd (h refl)
nonempty_lem (c ∷ t) h = refl

valid_field :
    (k v : Token)
    → k ≢ []
    → v ≢ []
    → IsPrintable k
    → HasNoEquals k
    → IsPrintable v
    → is_valid_token (k ++ (b'=' ∷ v)) false ≡ true
unfolding is_valid_token
valid_field k v hk hv pk nk pv =
    let (e, key, value) = field_parts k v nk in
    rw (
      printable_lem (k ++ (b'=' ∷ v)) (IsPrintable-append k v pk pv),
      e,
      key,
      value,
      nonempty_lem k hk,
      nonempty_lem v hv,
    )

valid_command : (t : Token) → IsPrintable t → HasNoEquals t → is_valid_token t true ≡ true
unfolding is_valid_token
valid_command t p n = rw (printable_lem t p, no_equals_lem t n)

not_has_key : (k : Token) (ts : List Token) → NotIn k (map field_key ts) → has_key k ts ≡ false
unfolding has_key
not_has_key k [] h = refl
not_has_key k (t ∷ ts) h = rw (eq_bytes_ne (field_key t) k h.0) (not_has_key k ts h.1)

-- What stands behind a written token.
abbrev Breaks : List ℕ → Type 0
Breaks [] = Unit {0}
Breaks (c ∷ cs) = c ≡ b' '

scan_written :
    (t : Token) (rest : List ℕ)
    → IsPrintable t
    → Breaks rest
    → scan_token (t ++ rest) ≡ some (t, rest)
unfolding scan_token
scan_written [] [] p b = refl
scan_written [] (c ∷ rest) p b = ground arith
scan_written (c ∷ t) rest p b = ground (arith, scan_written t rest p.1 b)

token_step :
    (fuel c : ℕ) (t rest : List ℕ) (tokens tokens' : List Token)
    → IsPrintable (c ∷ t)
    → Breaks rest
    → add_token tokens (c ∷ t) ≡ parsed tokens'
    → parse_from (suc fuel) tokens (c ∷ (t ++ rest)) ≡ parse_from fuel tokens' rest
unfolding parse_from
token_step fuel c t rest tokens tokens' p b a = ground (arith, scan_written (c ∷ t) rest p b)

space_step :
    (fuel : ℕ) (rest : List ℕ) (tokens : List Token)
    → parse_from (suc fuel) tokens (b' ' ∷ rest) ≡ parse_from fuel tokens rest
unfolding parse_from
space_step fuel rest tokens = refl

-- Both steps for a field.
field_step :
    (fuel : ℕ) (k v rest : List ℕ) (tokens tokens' : List Token)
    → length (field_token (k, v)) + length rest + 1 ≤ fuel
    → IsPrintable (field_token (k, v))
    → k ≢ []
    → Breaks rest
    → add_token tokens (field_token (k, v)) ≡ parsed tokens'
    → (less : ℕ) × (length rest ≤ less)
      × (parse_from fuel tokens (b' ' ∷ (field_token (k, v) ++ rest))
          ≡ parse_from less tokens' rest)
field_step fuel [] v rest tokens tokens' h p ne b a = absurd (ne refl)
field_step zero (c ∷ k) v rest tokens tokens' h p ne b a = absurd (omega arith)
field_step (suc zero) (c ∷ k) v rest tokens tokens' h p ne b a = absurd (omega arith)
field_step (suc (suc fuel)) (c ∷ k) v rest tokens tokens' h p ne b a = (
  fuel,
  omega arith,
  space_step (suc fuel) (field_token (c ∷ k, v) ++ rest) tokens
      ∙ token_step fuel c (k ++ (b'=' ∷ v)) rest tokens tokens' p b a,
)

breaks_lem : (fs : List Field) → Breaks (print_fields fs)
unfolding print_fields
breaks_lem [] = tt
breaks_lem (f ∷ fs) = refl

add_field :
    (command : Token) (fields : List Token) (k v : Token)
    → length fields ≤ 14
    → k ≢ []
    → v ≢ []
    → IsPrintable k
    → HasNoEquals k
    → IsPrintable v
    → NotIn k (map field_key fields)
    → add_token (command ∷ fields) (field_token (k, v))
      ≡ parsed ((command ∷ fields) ++ (field_token (k, v) ∷ []))
unfolding add_token
add_field command fields k v n hk hv pk nk pv fresh =
    let room : (suc (length fields) == 16) ≡ false = ground arith in
    let later : (suc (length fields) == 0) ≡ false = ground arith in
    let (_, key, _) = field_parts k v nk in
    rw (room, later, valid_field k v hk hv pk nk pv, key, not_has_key k fields fresh)

map_key-snoc :
    (fields : List Token) (k v : Token)
    → HasNoEquals k
    → map field_key (fields ++ (field_token (k, v) ∷ [])) ≡ map field_key fields ++ (k ∷ [])
map_key-snoc [] k v h = let (_, key, _) = field_parts k v h in ap (λ x. x ∷ []) key
map_key-snoc (f ∷ fields) k v h = ap (◌∷◌ (field_key f)) (map_key-snoc fields k v h)

fields_parse :
    (fs : List Field) (fuel : ℕ) (command : Token) (fields : List Token)
    → length (print_fields fs) ≤ fuel
    → length fields + length fs ≤ 15
    → AreFields (map field_key fields) fs
    → parse_from fuel (command ∷ fields) (print_fields fs)
      ≡ parsed (command ∷ (fields ++ map field_token fs))
unfolding print_fields parse_from
fields_parse [] fuel command fields h n a =
    done fuel (command ∷ fields) ∙ ap (λ xs. parsed (command ∷ xs)) (sym (append-nil fields))
  where
    done : (fuel : ℕ) (tokens : List Token) → parse_from fuel tokens [] ≡ finish tokens
    done zero tokens = refl
    done (suc fuel) tokens = refl
fields_parse ((k, v) ∷ fs) fuel command fields h n a =
    let (hk, hv, pk, nk, pv, fresh, others) = a in
    let (less, enough, step) =
      field_step fuel k v (print_fields fs) (command ∷ fields) _
        (omega (arith, length-append {0} (field_token (k, v)) (print_fields fs)))
        (IsPrintable-append k v pk pv) hk (breaks_lem fs)
        (add_field command fields k v (omega arith) hk hv pk nk pv fresh) in
    step
    ∙ fields_parse fs less command (fields ++ (field_token (k, v) ∷ [])) enough
        (omega (arith, length-append {0} fields (field_token (k, v) ∷ [])))
        (subst (λ seen. AreFields seen fs) (sym (map_key-snoc fields k v nk)) others)
    ∙ ap (λ xs. parsed (command ∷ xs))
        (append_assoc fields (field_token (k, v) ∷ []) (map field_token fs))

add_command :
    (command : Token)
    → IsPrintable command
    → HasNoEquals command
    → add_token [] command ≡ parsed (command ∷ [])
unfolding add_token
add_command command p n = rw (valid_command command p n)

line_parse :
    (command : Token) (fs : List Field)
    → IsWellFormed (record { command = command; fields = fs })
    → parse_text_line (command ++ print_fields fs) ≡ parsed (command ∷ map field_token fs)
unfolding parse_text_line
line_parse [] fs w = absurd (w.named refl)
line_parse (c ∷ command) fs w =
    token_step (length (command ++ print_fields fs)) c command (print_fields fs) [] _ w.printable
      (breaks_lem fs) (add_command (c ∷ command) w.printable w.no_equals)
    ∙ fields_parse fs (length (command ++ print_fields fs)) (c ∷ command) []
        (omega (arith, length-append {0} command (print_fields fs))) (omega (arith, w.fits)) w.keyed

-- A well-formed line, written with single spaces, is parsed into its command and its fields in order.
pub parse-print :
    (l : Line) → IsWellFormed l → parse_text_line (print_line l) ≡ parsed (tokens_of l)
unfolding print_line
parse-print l w = line_parse l.command l.fields w

NotIn-left : (k : Token) (seen more : List Token) → NotIn k (seen ++ more) → NotIn k seen
NotIn-left k [] more h = tt
NotIn-left k (s ∷ seen) more h = (h.0, NotIn-left k seen more h.1)

NotIn-last : (k j : Token) (seen : List Token) → NotIn k (seen ++ (j ∷ [])) → j ≢ k
NotIn-last k j [] h = h.0
NotIn-last k j (s ∷ seen) h = NotIn-last k j seen h.1

member_fresh :
    (fs : List Field) (seen : List Token) (k v : Token)
    → AreFields seen fs
    → Memᴰ (k, v) fs
    → NotIn k seen
member_fresh [] seen k v a m = elim m [ ]
member_fresh ((j, w) ∷ fs) seen k v a (Memᴰ.head e) =
    subst (λ (x : Token). NotIn x seen) (sym (ap (λ (f : Field). f.0) e)) a.5
member_fresh ((j, w) ∷ fs) seen k v a (Memᴰ.tail m) =
    NotIn-left k seen (j ∷ []) (member_fresh fs (seen ++ (j ∷ [])) k v a.6 m)

find_value-fields :
    (fs : List Field) (seen : List Token) (k v : Token)
    → AreFields seen fs
    → Memᴰ (k, v) fs
    → find_value (map field_token fs) k ≡ v
unfolding find_value field_value
find_value-fields [] seen k v a m = elim m [ ]
find_value-fields ((j, w) ∷ fs) seen k v a (Memᴰ.head e) =
    let (has, key, value) = field_parts j w a.3 in
    let same : k ≡ j = ap (λ (f : Field). f.0) e in
    rw (key, same, eq_bytes_refl j, has, value) (sym (ap (λ (f : Field). f.1) e))
find_value-fields ((j, w) ∷ fs) seen k v a (Memᴰ.tail m) =
    let (has, key, value) = field_parts j w a.3 in
    let fresh = NotIn-last k j seen (member_fresh fs (seen ++ (j ∷ [])) k v a.6 m) in
    rw (key, eq_bytes_ne j k fresh) (find_value-fields fs (seen ++ (j ∷ [])) k v a.6 m)

-- On the tokens of a well-formed line, `value_for` finds the value of each of its fields.
pub value_for_lem :
    (l : Line) (k v : Token) → IsWellFormed l → Memᴰ (k, v) l.fields → value_for (tokens_of l) k ≡ v
unfolding value_for
value_for_lem l k v w m = find_value-fields l.fields [] k v w.keyed m
