-- ===== src/Cdc/Client/Requests.antt =====
-- What a request does to the client: a refusal changes nothing, and a line takes the next id.
use pico_sdemu.Common.{
  ℕ, subst, ◌+◌, ◌≤◌, ◌≡◌, ◌≢◌, refl, ap, ◌∙◌, ◌⊎◌, inl, inr, Option, none, some, List, [], ◌∷◌,
  ◌++◌, arith,
}
use pico_sdemu.Common.Bytes.{codes}
use pico_sdemu.Common.Word.{u64_max}
use pico_sdemu.Cdc.Numbers.{Text}
use pico_sdemu.Cdc.Text.{Token}
use pico_sdemu.Cdc.Client.{
  Client, Request, line, refused, ClientError, begin_handshake, begin_request, accept_response,
  accept_tokens, cancel_pending_request, reserve_request,
}
use pico_sdemu.Cdc.Client.LineIds.{id_in_line, request_prints, request_id, handshake_id}

-- What is done with the client, short of `reset`.
pub data ClientCall : Type 0 where
  hello give_up : ClientCall
  asks : Text → Text → ClientCall
  hears : Text → ClientCall

unfoldable pub client_call : Client → ClientCall → Client
unfolding begin_handshake begin_request accept_response cancel_pending_request
client_call c hello = (begin_handshake c).0
client_call c give_up = (cancel_pending_request c).0
client_call c (asks command fields) = (begin_request c command fields).0
client_call c (hears response) = (accept_response c response).0

abbrev id_if_line : Text → Request → List (Option ℕ)
id_if_line command (line text) = id_in_line command text ∷ []
id_if_line command (refused e) = []

-- The id in the line that a call makes, if it makes one.
unfoldable pub id_issued : Client → ClientCall → List (Option ℕ)
unfolding id_in_line
id_issued c hello = id_if_line (codes "HELLO") (begin_handshake c).1
id_issued c (asks command fields) = id_if_line command (begin_request c command fields).1
id_issued c give_up = []
id_issued c (hears response) = []

unfoldable pub ids_issued : Client → List ClientCall → List (Option ℕ)
unfolding id_issued client_call
ids_issued c [] = []
ids_issued c (k ∷ ks) = id_issued c k ++ ids_issued (client_call c k) ks

-- Numbers, each at least the bound, and larger than the one before it.
abbrev pub Ascends : ℕ → List (Option ℕ) → Type 0
Ascends low [] = Unit {0}
Ascends low (none ∷ ns) = ⊥
Ascends low (some n ∷ ns) = (low ≤ n) × Ascends (n + 1) ns

-- Either a call issues nothing and the next id stays, or it issues the next id.
data Issues (c : Client) (ids : List (Option ℕ)) (c' : Client) : Type 0 where
  nothing : ids ≡ [] → c'.next_id ≡ c.next_id → Issues c ids c'
  one :
      ids ≡ (some c.next_id ∷ [])
      → c.next_id ≢ 0
      → (c'.next_id ≡ 0) ⊎ ((c'.next_id ≡ c.next_id + 1) × c'.next_id ≤ u64_max)
      → Issues c ids c'

-- The id is used up: there is no next one, or it is larger by one.
abbrev IsTaken : Client → Client → Type 0
IsTaken c c' =
    (c.next_id ≢ 0) × ((c'.next_id ≡ 0) ⊎ ((c'.next_id ≡ c.next_id + 1) × (c'.next_id ≤ u64_max)))

handshake-IsTaken :
    (c : Client) (text : Text)
    → c.next_id ≤ u64_max
    → (begin_handshake c).1 ≡ line text
    → IsTaken c (begin_handshake c).0
unfolding begin_handshake reserve_request
handshake-IsTaken c text h e = ground arith

handshake_kept :
    (c : Client) (e : ClientError) → (begin_handshake c).1 ≡ refused e → (begin_handshake c).0 ≡ c
unfolding begin_handshake
handshake_kept c e h = ground arith

request-IsTaken :
    (c : Client) (command fields text : Text)
    → c.next_id ≤ u64_max
    → (begin_request c command fields).1 ≡ line text
    → IsTaken c (begin_request c command fields).0
unfolding begin_request reserve_request
request-IsTaken c command fields text h e = ground arith

request_kept :
    (c : Client) (command fields : Text) (e : ClientError)
    → (begin_request c command fields).1 ≡ refused e
    → (begin_request c command fields).0 ≡ c
unfolding begin_request
request_kept c command fields e h = ground arith

request-cases :
    (r : Request) → ((text : Text) × (r ≡ line text)) ⊎ ((e : ClientError) × (r ≡ refused e))
request-cases (line text) = inl (text, refl)
request-cases (refused e) = inr (e, refl)

tokens_next : (c : Client) (tokens : List Token) → (accept_tokens c tokens).0.next_id ≡ c.next_id
unfolding accept_tokens
tokens_next c tokens = ground arith

line-Issues :
    (c c' : Client) (command text : Text) (r : Request)
    → r ≡ line text
    → id_in_line command text ≡ some c.next_id
    → IsTaken c c'
    → Issues c (id_if_line command r) c'
line-Issues c c' command text r e i t = one (rw (e, i) refl) t.0 t.1

refused-Issues :
    (c c' : Client) (command : Text) (r : Request) (error : ClientError)
    → r ≡ refused error
    → c' ≡ c
    → Issues c (id_if_line command r) c'
refused-Issues c c' command r error e kept =
    nothing (rw e refl) (ap (λ (x : Client). x.next_id) kept)

call-Issues :
    (c : Client) (k : ClientCall) → c.next_id ≤ u64_max → Issues c (id_issued c k) (client_call c k)
unfolding id_issued client_call
call-Issues c hello h = elim (request-cases (begin_handshake c).1) [
  | inl (text, e) ↦
      line-Issues c _ (codes "HELLO") text _ e (handshake_id c text h e)
        (handshake-IsTaken c text h e)
  | inr (error, e) ↦ refused-Issues c _ (codes "HELLO") _ error e (handshake_kept c error e)
]
call-Issues c give_up h = nothing refl (ground arith)
call-Issues c (asks command fields) h = elim (request-cases (begin_request c command fields).1) [
  | inl (text, e) ↦
      line-Issues c _ command text _ e
        (ap (id_in_line command) (request_prints c command fields text e)
          ∙ request_id c command fields h)
        (request-IsTaken c command fields text h e)
  | inr (error, e) ↦ refused-Issues c _ command _ error e (request_kept c command fields error e)
]
call-Issues c (hears response) h = nothing refl (ground (arith, tokens_next c))

exhausted_ids : (c : Client) (ks : List ClientCall) → c.next_id ≡ 0 → ids_issued c ks ≡ []
unfolding ids_issued
exhausted_ids c [] h = refl
exhausted_ids c (k ∷ ks) h = elim (call-Issues c k (omega arith)) [
  | nothing e n ↦ rw e (exhausted_ids (client_call c k) ks (n ∙ h))
  | one e p n ↦ absurd (p h)
]

-- However the client is used, short of a reset, the ids that its lines carry, read back from the text
-- of each, are numbers that ascend from its next id, a 64-bit number: no id is used twice.
pub ids_issued_ascend :
    (c : Client) (ks : List ClientCall) → c.next_id ≤ u64_max → Ascends c.next_id (ids_issued c ks)
unfolding ids_issued
ids_issued_ascend c [] h = tt
ids_issued_ascend c (k ∷ ks) h = elim (call-Issues c k h) [
  | nothing e n ↦ rw e (
      subst (λ (x : ℕ). Ascends x (ids_issued (client_call c k) ks)) n
        (ids_issued_ascend (client_call c k) ks (omega (arith, n))))
  | one e p (inl z) ↦ rw (e, exhausted_ids (client_call c k) ks z) (omega arith, tt)
  | one e p (inr (n, low)) ↦ rw e (
    omega arith,
    subst (λ (x : ℕ). Ascends x (ids_issued (client_call c k) ks)) n
        (ids_issued_ascend (client_call c k) ks low),
  )
]
