-- ===== src/Cdc/Client/Refusals.antt =====
-- A line that starts with `ERR ` is never taken for a success.
use pico_sdemu.Common.{◌≡◌, ap, Bool, true, false, List, arith, take, eq_bytes, inl, inr}
use pico_sdemu.Common.Bytes.{codes}
use pico_sdemu.Cdc.Numbers.{Text}
use pico_sdemu.Cdc.Text.{Token, parse_text_line, line_command}
use pico_sdemu.Cdc.Text.Errors.{err_line_command, Parsed-cases}
use pico_sdemu.Cdc.Client.{
  Client, ClientError, no_error, accept_response, accept_tokens, accept_error,
}

abbrev pub is_no_error : ClientError → Bool
is_no_error no_error = true
is_no_error e = false

err_tokens :
    (c : Client) (tokens : List Token)
    → line_command tokens ≡ codes "ERR"
    → is_no_error (accept_tokens c tokens).1 ≡ false
unfolding accept_tokens accept_error
err_tokens c tokens h = ground (arith, ap (λ (t : Text). eq_bytes t (codes "ERR")) h)

pub err_line_refused :
    (c : Client) (response : Text)
    → eq_bytes (take 4 response) (codes "ERR ") ≡ true
    → is_no_error (accept_response c response).1 ≡ false
unfolding accept_response
err_line_refused c response h = elim (Parsed-cases (parse_text_line response)) [
  | inl (e, p) ↦ ground arith
  | inr (ts, p) ↦ ground (arith, err_tokens c ts (err_line_command response ts h p))
]
