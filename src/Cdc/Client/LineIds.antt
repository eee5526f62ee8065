-- ===== src/Cdc/Client/LineIds.antt =====
-- The id that the line of a request carries, read back from its text.
use pico_sdemu.Common.{
  ℕ, ◌≤◌, ◌≡◌, refl, ap, ◌∙◌, inl, inr, Option, none, some, ◌&&◌, [], ◌∷◌, ◌++◌, append_assoc,
  Bool-cases, arith, if◌then◌else◌, ◌==◌, ==_refl, leb, All,
}
use pico_sdemu.Common.Bytes.{codes}
use pico_sdemu.Common.Word.{u64_max}
use pico_sdemu.Cdc.Numbers.{Text, to_string, parse_u64}
use pico_sdemu.Cdc.Numbers.RoundTrip.{parse-to_string, to_string-All}
use pico_sdemu.Cdc.Text.{is_nonempty}
use pico_sdemu.Cdc.Client.{
  Client, line, begin_handshake, begin_request, request_line, reserve_request, protocol_version,
}

-- What follows a prefix in a text that begins with it.
unfoldable pub after_prefix : Text → Text → Option Text
after_prefix [] text = some text
after_prefix (p ∷ prefix) [] = none
after_prefix (p ∷ prefix) (c ∷ text) = if p == c then after_prefix prefix text else none

-- The decimal digits that a text begins with.
unfoldable pub leading_digits : Text → Text
leading_digits [] = []
leading_digits (c ∷ text) =
    let rest = leading_digits text in if leb 48 c && leb c 57 then c ∷ rest else []

-- The id in a request's line: the number behind the command and ` id=`.
unfoldable pub id_in_line : Text → Text → Option ℕ
unfolding after_prefix leading_digits
id_in_line command text = elim (after_prefix (command ++ codes " id=") text) [
  | none ↦ none
  | some rest ↦ parse_u64 (leading_digits rest)
]

after_prefix-append : (prefix rest : Text) → after_prefix prefix (prefix ++ rest) ≡ some rest
unfolding after_prefix
after_prefix-append [] rest = refl
after_prefix-append (p ∷ prefix) rest =
    rw (==_refl p, after_prefix) (after_prefix-append prefix rest)

leading_digits-append :
    (digits rest : Text)
    → All (λ c. (48 ≤ c) × (c ≤ 57)) digits
    → leading_digits (digits ++ (b' ' ∷ rest)) ≡ digits
unfolding leading_digits
leading_digits-append [] rest d = refl
leading_digits-append (c ∷ digits) rest d = ground (arith, leading_digits-append digits rest d.1)

-- A line of the usual form has the id that was printed.
id_in_line_lem :
    (command rest : Text) (id : ℕ)
    → id ≤ u64_max
    → id_in_line command ((command ++ codes " id=") ++ (to_string id ++ (b' ' ∷ rest))) ≡ some id
unfolding id_in_line
id_in_line_lem command rest id h =
    rw
      (
        after_prefix-append (command ++ codes " id=") (to_string id ++ (b' ' ∷ rest)),
        leading_digits-append (to_string id) rest (to_string-All id),
        id_in_line,
      )
      (parse-to_string id h)

request_line_form :
    (c : Client) (command fields : Text)
    → (rest : Text) × (request_line c command fields
        ≡ (command ++ codes " id=") ++ (to_string c.next_id ++ (b' ' ∷ rest)))
unfolding request_line
request_line_form c command fields =
    let head_rest : Text = codes "session=" ++ c.session_id in
    elim (Bool-cases (is_nonempty fields)) [
      | inl e ↦ (head_rest ++ (b' ' ∷ fields), rw (e, request_line) (simp append_assoc))
      | inr e ↦ (head_rest, rw (e, request_line) (simp append_assoc))
    ]

pub request_id :
    (c : Client) (command fields : Text)
    → c.next_id ≤ u64_max
    → id_in_line command (request_line c command fields) ≡ some c.next_id
request_id c command fields h =
    let (rest, e) = request_line_form c command fields in
    ap (id_in_line command) e ∙ id_in_line_lem command rest c.next_id h

pub request_prints :
    (c : Client) (command fields text : Text)
    → (begin_request c command fields).1 ≡ line text
    → text ≡ request_line c command fields
unfolding begin_request reserve_request
request_prints c command fields text h = ground arith

handshake_prints :
    (c : Client) (text : Text)
    → (begin_handshake c).1 ≡ line text
    → text ≡ codes "HELLO id=" ++ to_string c.next_id ++ codes " version=" ++ protocol_version
unfolding begin_handshake reserve_request
handshake_prints c text h = ground arith

handshake_form :
    (digits version : Text)
    → codes "HELLO id=" ++ digits ++ codes " version=" ++ version
      ≡ (codes "HELLO" ++ codes " id=") ++ (digits ++ (b' ' ∷ (codes "version=" ++ version)))
handshake_form digits version = simp append_assoc

pub handshake_id :
    (c : Client) (text : Text)
    → c.next_id ≤ u64_max
    → (begin_handshake c).1 ≡ line text
    → id_in_line (codes "HELLO") text ≡ some c.next_id
handshake_id c text h e =
    ap (id_in_line (codes "HELLO"))
      (handshake_prints c text e ∙ handshake_form (to_string c.next_id) protocol_version)
    ∙ id_in_line_lem (codes "HELLO") (codes "version=" ++ protocol_version) c.next_id h
