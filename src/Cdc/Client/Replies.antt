-- ===== src/Cdc/Client/Replies.antt =====
-- What a reply does to the client: one that it does not accept changes nothing, one that it accepts
-- ends the pending request.
use mathlib.Core.List.{Memᴰ}
use pico_sdemu.Common.{
  eq_bytes_refl, ==_refl, ℕ, ◌≤◌, ◌≡◌, ◌≢◌, refl, ap, ◌∙◌, Bool, true, false, some, List, ◌∷◌,
  arith, ◌==◌,
}
use pico_sdemu.Cdc.Numbers.{Text}
use pico_sdemu.Common.Bytes.{codes}
use pico_sdemu.Common.Word.{u64_max}
use pico_sdemu.Cdc.Numbers.{to_string}
use pico_sdemu.Cdc.Numbers.RoundTrip.{parse-to_string}
use pico_sdemu.Cdc.Text.{Token, parsed, parse_text_line, line_command, value_for}
use pico_sdemu.Cdc.Text.Lines.{Line, print_line, IsWellFormed}
use pico_sdemu.Cdc.Text.RoundTrip.{parse-print, value_for_lem}
use pico_sdemu.Cdc.Client.{
  Client, ClientError, no_error, remote_error, accept_response, accept_tokens, accept_ok, parse_id,
}

-- A result after which the request is no longer pending.
abbrev pub is_final : ClientError → Bool
is_final no_error = true
is_final remote_error = true
is_final e = false

accept_kept_tokens :
    (c : Client) (tokens : List Token)
    → is_final (accept_tokens c tokens).1 ≡ false
    → (accept_tokens c tokens).0 ≡ c
unfolding accept_tokens
accept_kept_tokens c tokens h = ground arith

-- A response whose result is not final leaves the client as it was.
pub accept_kept :
    (c : Client) (response : Text)
    → is_final (accept_response c response).1 ≡ false
    → (accept_response c response).0 ≡ c
unfolding accept_response
accept_kept c response h = ground arith

tokens_final :
    (c : Client) (tokens : List Token)
    → is_final (accept_tokens c tokens).1 ≡ true
    → (parse_id (value_for tokens (codes "id")) ≡ some c.pending_id)
      × ((accept_tokens c tokens).0.pending_id ≡ 0)
      × ((accept_tokens c tokens).0.next_id ≡ c.next_id)
unfolding accept_tokens
tokens_final c tokens h = ground arith

-- A response that parses and has a final result: a request was pending, the response carries its id, no
-- request is pending afterwards, and the next id stays.
pub final_is_correlated :
    (c : Client) (response : Text) (tokens : List Token)
    → parse_text_line response ≡ parsed tokens
    → is_final (accept_response c response).1 ≡ true
    → (c.pending_id ≢ 0)
      × (parse_id (value_for tokens (codes "id")) ≡ some c.pending_id)
      × ((accept_response c response).0.pending_id ≡ 0)
      × ((accept_response c response).0.next_id ≡ c.next_id)
unfolding accept_response
final_is_correlated c response tokens p h = ground (arith, tokens_final c tokens)

ne_test : (n : ℕ) → n ≢ 0 → (n == 0) ≡ false
ne_test n h = ground arith

parse_id-to_string : (n : ℕ) → n ≢ 0 → n ≤ u64_max → parse_id (to_string n) ≡ some n
unfolding parse_id
parse_id-to_string n p b = ground (arith, parse-to_string n b)

settled : Client → Client
settled c = record c { pending_id = 0; pending_handshake = false }

ok_settles :
    (c : Client) (tokens : List Token)
    → value_for tokens (codes "session") ≡ c.session_id
    → c.pending_handshake ≡ false
    → accept_ok c tokens ≡ (settled c, no_error)
unfolding accept_ok settled
ok_settles c tokens s h = rw (h, s, eq_bytes_refl c.session_id) refl

ok_tokens :
    (c : Client) (fields : List Token)
    → let tokens = codes "OK" ∷ fields in
      (parse_id (value_for tokens (codes "id")) ≡ some c.pending_id)
      → value_for (codes "OK" ∷ fields) (codes "session") ≡ c.session_id
      → c.pending_handshake ≡ false
      → accept_tokens c (codes "OK" ∷ fields) ≡ (settled c, no_error)
unfolding accept_tokens line_command
ok_tokens c fields i s h = rw (i, ==_refl c.pending_id, ok_settles c _ s h) refl

-- An `OK` line of the printed pending id and of the session ends the pending request, whatever else it
-- says: the request is not a handshake, and the line is well-formed.
pub reply_is_accepted :
    (c : Client) (fields : List (Token × Token))
    → IsWellFormed (record { command = codes "OK"; fields = fields })
    → Memᴰ (codes "id", to_string c.pending_id) fields
    → Memᴰ (codes "session", c.session_id) fields
    → c.pending_handshake ≡ false
    → c.pending_id ≢ 0
    → c.pending_id ≤ u64_max
    → accept_response c (print_line (record { command = codes "OK"; fields = fields }))
      ≡ (record c { pending_id = 0; pending_handshake = false }, no_error)
unfolding accept_response settled
reply_is_accepted c fields w i s n p b =
    let l : Line = record { command = codes "OK"; fields = fields } in
    rw (ne_test c.pending_id p, parse-print l w)
      (ok_tokens c _ (ap parse_id (value_for_lem l (codes "id") _ w i) ∙ parse_id-to_string _ p b)
        (value_for_lem l (codes "session") _ w s) n)
