-- ===== src/Cdc/Text/Errors.antt =====
-- A line that starts with `ERR ` has that command, if it parses.
use pico_sdemu.Common.{
  ℕ, zero, suc, ◌≡◌, refl, ◌∙◌, true, List, [], ◌∷◌, arith, length, take, eq_bytes, eq_bytes_sound,
  inl, inr, Bool-cases, Option-cases, ◌⊎◌, ◌≢◌, subst,
}
use pico_sdemu.Common.Bytes.{codes}
use pico_sdemu.Cdc.Text.{
  Token, Parsed, TextError, parsed, rejected, add_token, scan_token, parse_from, parse_text_line,
  line_command, is_separator, is_terminator,
}

-- The first token of what is parsed is this one.
abbrev StartsWith : Token → Parsed → Type 0
StartsWith t (rejected e) = Unit {0}
StartsWith t (parsed tokens) = line_command tokens ≡ t

-- A token is added at the end, if it is.
add_token-parsed :
    (t : Token) (ts : List Token) (token : Token) (e : Parsed)
    → add_token (t ∷ ts) token ≡ e
    → StartsWith t e
unfolding add_token line_command
add_token-parsed t ts token (rejected e) h = tt
add_token-parsed t ts token (parsed tokens) h = ground arith

pub Parsed-cases :
    (r : Parsed) → ((e : TextError) × (r ≡ rejected e)) ⊎ ((ts : List Token) × (r ≡ parsed ts))
Parsed-cases (rejected e) = inl (e, refl)
Parsed-cases (parsed ts) = inr (ts, refl)

added_nonempty :
    (t : Token) (ts : List Token) (token : Token) (tokens : List Token)
    → add_token (t ∷ ts) token ≡ parsed tokens
    → tokens ≢ []
unfolding add_token
added_nonempty t ts token [] h e = ground arith
added_nonempty t ts token (u ∷ us) h e = ground arith

parse_from-StartsWith :
    (fuel : ℕ) (t : Token) (ts : List Token) (input : List ℕ)
    → line_command ts ≡ t
    → ts ≢ []
    → StartsWith t (parse_from fuel ts input)
unfolding parse_from line_command
parse_from-StartsWith fuel t [] input h n = absurd (n refl)
parse_from-StartsWith fuel t (u ∷ us) [] h n = h
parse_from-StartsWith zero t (u ∷ us) (c ∷ cs) h n = tt
parse_from-StartsWith (suc fuel) t (u ∷ us) (c ∷ cs) h n = elim (Bool-cases (is_terminator c)) [
  | inl e ↦ rw (e, parse_from) tt
  | inr e ↦ elim (Bool-cases (is_separator c)) [
    | inl s ↦ rw (e, s, parse_from) (parse_from-StartsWith fuel t (u ∷ us) cs h n)
    | inr s ↦ elim (Option-cases (scan_token (c ∷ cs))) [
      | inl q ↦ rw (e, s, q, parse_from) tt
      | inr (r, q) ↦ elim (Parsed-cases (add_token (u ∷ us) r.0)) [
        | inl (x, w) ↦ rw (e, s, q, w, parse_from) tt
        | inr (ts, w) ↦
            rw (e, s, q, w, parse_from)
              (parse_from-StartsWith fuel t ts r.1 (add_token-parsed u us r.0 (parsed ts) w ∙ h)
                (added_nonempty u us r.0 ts w))
      ]
    ]
  ]
]

err_starts :
    (response : List ℕ)
    → take 4 response ≡ codes "ERR "
    → StartsWith (codes "ERR") (parse_text_line response)
unfolding parse_text_line parse_from scan_token add_token line_command
err_starts [] h = ground arith
err_starts (a ∷ []) h = ground arith
err_starts (a ∷ b ∷ []) h = ground arith
err_starts (a ∷ b ∷ c ∷ []) h = ground arith
err_starts (a ∷ b ∷ c ∷ d ∷ rest) h =
    let ea : a ≡ 69 = ground arith in
    let eb : b ≡ 82 = ground arith in
    let ec : c ≡ 82 = ground arith in
    let ed : d ≡ 32 = ground arith in
    rw (ea, eb, ec, ed, parse_text_line)
      (parse_from-StartsWith (suc (suc (length rest))) (codes "ERR") (codes "ERR" ∷ []) rest refl
        (λ e. absurd (nonempty e)))
  where
    nonempty : codes "ERR" ∷ [] ≡ [] → ⊥
    nonempty e = ground arith

-- A line that starts with `ERR ` has no other command, if it parses.
pub err_line_command :
    (response : List ℕ) (tokens : List Token)
    → eq_bytes (take 4 response) (codes "ERR ") ≡ true
    → parse_text_line response ≡ parsed tokens
    → line_command tokens ≡ codes "ERR"
unfolding parse_text_line
err_line_command response tokens h p =
    let starts : StartsWith (codes "ERR") (parse_text_line response) =
      err_starts response (eq_bytes_sound _ _ h) in
    subst (StartsWith (codes "ERR")) p starts
