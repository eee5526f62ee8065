-- ===== src/Host/Exchange.antt =====
-- A request of the client as a line with fields, and the answer of the dispatcher as one.
pub mod Values
pub mod Read
pub mod EndToEnd
use pico_sdemu.Common.{
  ℕ, ◌+◌, ◌≤◌, ◌≡◌, ◌≢◌, refl, sym, ap, ◌∙◌, List, [], ◌∷◌, ◌++◌, append_assoc, append-nil, arith,
  All, length,
}
use pico_sdemu.Common.Bytes.{codes}
use pico_sdemu.Sd.Crc.{crc32}
use pico_sdemu.Cdc.Numbers.{Text, to_string}
use pico_sdemu.Cdc.Numbers.RoundTrip.{to_string-nonempty, to_string-All}
use pico_sdemu.Cdc.Text.{Token}
use pico_sdemu.Cdc.Text.Lines.{
  Field, Line, print_line, print_fields, IsWellFormed, IsPrintable, AreFields,
}
use pico_sdemu.Cdc.Codec.{encode_base64}
use pico_sdemu.Cdc.Client.{Client, request_line, read_fields, checksum_text}
use pico_sdemu.Host.Dispatcher.{ok_line, blocks_line}

-- A value that a field can have.
pub record IsValue (v : Token) : Type 0 where
  pub nonempty : v ≢ []
  pub printable : IsPrintable v

digits-IsPrintable : (t : Text) → All (λ c. (48 ≤ c) × (c ≤ 57)) t → IsPrintable t
digits-IsPrintable [] h = tt
digits-IsPrintable (c ∷ t) h = ((omega arith, omega arith), digits-IsPrintable t h.1)

pub to_string-IsValue : (n : ℕ) → IsValue (to_string n)
to_string-IsValue n = record {
  nonempty = to_string-nonempty n;
  printable = digits-IsPrintable (to_string n) (to_string-All n);
}

-- The request for one block.
abbrev pub read_request : Client → ℕ → Line
read_request c lba = record {
  command = codes "READ_BLOCKS";
  fields =
      (codes "id", to_string c.next_id)
      ∷ (codes "session", c.session_id)
      ∷ (codes "lba", to_string lba)
      ∷ (codes "count", codes "1")
      ∷ (codes "encoding", codes "BASE64")
      ∷ [];
}

pub read_request-IsWellFormed :
    (c : Client) (lba : ℕ) → IsValue c.session_id → IsWellFormed (read_request c lba)
read_request-IsWellFormed c lba s =
    let id : IsValue (to_string c.next_id) = to_string-IsValue c.next_id in
    let at : IsValue (to_string lba) = to_string-IsValue lba in
    record {
      named = ground arith;
      printable = ground arith;
      no_equals = ground arith;
      fits = omega arith;
      keyed = ground arith;
    }

pub read_request_line :
    (c : Client) (lba : ℕ)
    → request_line c (codes "READ_BLOCKS") (read_fields lba) ≡ print_line (read_request c lba)
unfolding request_line read_fields print_line print_fields
read_request_line c lba =
    ap (λ (t : Text). codes "READ_BLOCKS id=" ++ t)
      (append_assoc (to_string c.next_id) (codes " session=" ++ c.session_id)
        (codes " " ++ (codes "lba=" ++ (to_string lba ++ codes " count=1 encoding=BASE64"))))

-- The answer with one block.
abbrev pub block_reply : ℕ → Token → ℕ → List ℕ → Line
block_reply id session lba block = record {
  command = codes "OK";
  fields =
      (codes "id", to_string id)
      ∷ (codes "session", session)
      ∷ (codes "lba", to_string lba)
      ∷ (codes "count", to_string 1)
      ∷ (codes "encoding", codes "BASE64")
      ∷ (codes "crc32", checksum_text (crc32 block))
      ∷ (codes "data", encode_base64 block)
      ∷ [];
}

pub block_reply-IsWellFormed :
    (id : ℕ) (session : Token) (lba : ℕ) (block : List ℕ)
    → IsValue session
    → IsValue (checksum_text (crc32 block))
    → IsValue (encode_base64 block)
    → IsWellFormed (block_reply id session lba block)
block_reply-IsWellFormed id session lba block s sum body =
    let i : IsValue (to_string id) = to_string-IsValue id in
    let at : IsValue (to_string lba) = to_string-IsValue lba in
    let one : IsValue (to_string 1) = to_string-IsValue 1 in
    record {
      named = ground arith;
      printable = ground arith;
      no_equals = ground arith;
      fits = omega arith;
      keyed = ground arith;
    }

pub block_reply_line :
    (id : ℕ) (session : Token) (lba : ℕ) (block : List ℕ)
    → blocks_line (ok_line (to_string id) session) lba 1 block
      ≡ print_line (block_reply id session lba block)
unfolding blocks_line ok_line print_line print_fields
block_reply_line id session lba block = simp (append_assoc, append-nil) refl
