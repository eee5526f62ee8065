-- ===== src/Host/Exchange/EndToEnd.antt =====
-- The client's request for a block, through the dispatcher, and back to the client.
use mathlib.Core.List.{Memᴰ}
use pico_sdemu.Common.{
  ℕ, ◌≤◌, ◌<◌, ◌≡◌, ◌≢◌, refl, sym, ap, ◌∙◌, true, false, some, List, [], arith, length,
}
use pico_sdemu.Common.Bytes.{codes}
use pico_sdemu.Common.Word.{u64_max}
use pico_sdemu.Sd.Crc.{crc32}
use pico_sdemu.Cdc.Numbers.{Text, to_string}
use pico_sdemu.Cdc.Numbers.RoundTrip.{to_string-nonempty}
use pico_sdemu.Cdc.Text.{Token, line_command, value_for, is_nonempty}
use pico_sdemu.Cdc.Text.Lines.{Line, print_line, IsWellFormed}
use pico_sdemu.Cdc.Text.RoundTrip.{parse-print, value_for_lem, nonempty_lem}
use pico_sdemu.Cdc.Codec.{encode_base64}
use pico_sdemu.Cdc.Codec.RoundTrip.{AreBytes}
use pico_sdemu.Cdc.Client.{
  Client, line, no_error, request_line, reserve_request, begin_request, begin_read_block,
  read_fields, accept_response, parses_as, is_reserved, checksum_text,
}
use pico_sdemu.Cdc.Client.Replies.{reply_is_accepted}
use pico_sdemu.Cdc.Responses.{
  read_as, cdc_block_size, parse_ok, decode_read_block_tokens, decode_read_block_response,
}
use pico_sdemu.Cdc.Responses.RoundTrip.{read_block_of_written}
use pico_sdemu.Host.Dispatcher.{Image, Dispatcher, dispatch}
use pico_sdemu.Host.Exchange.{
  IsValue, read_request, read_request-IsWellFormed, read_request_line, block_reply,
  block_reply-IsWellFormed,
}
use pico_sdemu.Host.Exchange.Values.{checksum_text-IsValue, encode_base64-IsValue}
use pico_sdemu.Host.Exchange.Read.{dispatch-read_request}

request_parses :
    (c : Client) (lba : ℕ)
    → IsValue c.session_id
    → parses_as (print_line (read_request c lba)) (codes "READ_BLOCKS") ≡ true
unfolding line_command
request_parses c lba value =
    rw (parse-print (read_request c lba) (read_request-IsWellFormed c lba value), parses_as) refl

-- The client after it asked.
abbrev pub asked : Client → Client
asked c = (reserve_request c [] false).0

line_made :
    (c : Client) (command fields text : Text)
    → request_line c command fields ≡ text
    → is_nonempty command ≡ true
    → is_reserved command ≡ false
    → c.negotiated ≡ true
    → c.pending_id ≡ 0
    → c.next_id ≢ 0
    → parses_as text command ≡ true
    → begin_request c command fields ≡ reserve_request c text false
unfolding begin_request
line_made c command fields text e ne r n p i parses =
    ground (arith, ap (λ (t : Text). parses_as t command) e)

request_made :
    (c : Client) (lba : ℕ)
    → c.negotiated ≡ true
    → c.pending_id ≡ 0
    → c.next_id ≢ 0
    → IsValue c.session_id
    → begin_read_block c lba ≡ (asked c, line (print_line (read_request c lba)))
unfolding begin_read_block reserve_request
request_made c lba n p i value =
    line_made c (codes "READ_BLOCKS") (read_fields lba) (print_line (read_request c lba))
      (read_request_line c lba) refl refl n p i (request_parses c lba value)

reply-IsWellFormed :
    (id : ℕ) (session : Token) (lba : ℕ) (block : List ℕ)
    → IsValue session
    → length block ≡ cdc_block_size
    → IsWellFormed (block_reply id session lba block)
reply-IsWellFormed id session lba block value size =
    block_reply-IsWellFormed id session lba block value (checksum_text-IsValue (crc32 block))
      (encode_base64-IsValue block (λ e. absurd (not_empty e)))
  where
    not_empty : block ≡ [] → ⊥
    not_empty e = let zero_length : length block ≡ 0 = ap length e in omega arith

values_decoded :
    (tokens : List Token) (lba : ℕ) (block : List ℕ)
    → value_for tokens (codes "lba") ≡ to_string lba
    → value_for tokens (codes "count") ≡ to_string 1
    → value_for tokens (codes "encoding") ≡ codes "BASE64"
    → value_for tokens (codes "crc32") ≡ checksum_text (crc32 block)
    → value_for tokens (codes "data") ≡ encode_base64 block
    → lba ≤ u64_max
    → AreBytes block
    → length block ≡ cdc_block_size
    → decode_read_block_tokens tokens ≡ read_as (record { lba = lba; block = block })
unfolding decode_read_block_tokens
values_decoded tokens lba block at count encoding sum body fits bytes size =
    rw
      (
        at,
        count,
        encoding,
        sum,
        body,
        nonempty_lem (to_string lba) (to_string-nonempty lba),
        nonempty_lem (to_string 1) (to_string-nonempty 1),
        nonempty_lem (checksum_text (crc32 block)) (checksum_text-IsValue (crc32 block)).nonempty,
        nonempty_lem (encode_base64 block) (encode_base64-IsValue block not_empty).nonempty,
        decode_read_block_tokens,
      )
      (read_block_of_written lba block fits bytes size)
  where
    not_empty : block ≢ []
    not_empty e = let zero_length : length block ≡ 0 = ap length e in omega arith

reply_decoded :
    (id : ℕ) (session : Token) (lba : ℕ) (block : List ℕ)
    → IsValue session
    → lba ≤ u64_max
    → AreBytes block
    → length block ≡ cdc_block_size
    → decode_read_block_response (print_line (block_reply id session lba block))
      ≡ read_as (record { lba = lba; block = block })
unfolding decode_read_block_response parse_ok line_command
reply_decoded id session lba block value fits bytes size =
    let l : Line = block_reply id session lba block in
    let w : IsWellFormed l = reply-IsWellFormed id session lba block value size in
    rw (parse-print l w, parse_ok)
      (values_decoded _ lba block
        (value_for_lem l (codes "lba") _ w (Memᴰ.tail (Memᴰ.tail (Memᴰ.head refl))))
        (value_for_lem l (codes "count") _ w (Memᴰ.tail (Memᴰ.tail (Memᴰ.tail (Memᴰ.head refl)))))
        (value_for_lem l (codes "encoding") _ w
          (Memᴰ.tail (Memᴰ.tail (Memᴰ.tail (Memᴰ.tail (Memᴰ.head refl))))))
        (value_for_lem l (codes "crc32") _ w
          (Memᴰ.tail (Memᴰ.tail (Memᴰ.tail (Memᴰ.tail (Memᴰ.tail (Memᴰ.head refl)))))))
        (value_for_lem l (codes "data") _ w
          (Memᴰ.tail (Memᴰ.tail (Memᴰ.tail (Memᴰ.tail (Memᴰ.tail (Memᴰ.tail (Memᴰ.head refl))))))))
        fits bytes size)

-- Two peers of one session, at rest: the client has no request pending, its next id is fresh to the
-- dispatcher, and the image is there.
pub record IsShared {S : Type 0} (c : Client) (d : Dispatcher S) : Type 0 where
  pub negotiated : c.negotiated ≡ true
  pub at_rest : c.pending_id ≡ 0
  pub established : d.established ≡ true
  pub loaded : d.ejected ≡ false
  pub same_session : d.session_id ≡ c.session_id
  pub session_value : IsValue c.session_id
  pub fresh : d.last_request_id < c.next_id
  pub id_fits : c.next_id ≤ u64_max

-- Where the client and the dispatcher share a session, the request for a block that the client makes is
-- answered by the dispatcher with a line from which the block of the image is decoded byte for byte,
-- under its address; the client accepts that line and is at rest again, with the session kept; and the
-- dispatcher has kept the id of the request.
pub read_over_link :
    {S : Type 0}
    → (I : Image S) (c : Client) (d : Dispatcher S) (lba : ℕ) (s : S) (block : List ℕ)
    → IsShared c d
    → lba ≤ u64_max
    → lba < I.block_count d.image
    → I.read_block d.image lba ≡ (s, some block)
    → AreBytes block
    → length block ≡ cdc_block_size
    → let request = print_line (read_request c lba) in
      let reply = print_line (block_reply c.next_id d.session_id lba block) in
      let c' = asked c in
      (begin_read_block c lba ≡ (c', line request))
      × (dispatch I d request ≡ (record d { image = s; last_request_id = c.next_id }, reply))
      × (decode_read_block_response reply ≡ read_as (record { lba = lba; block = block }))
      × (accept_response c' reply
          ≡ (record c' { pending_id = 0; pending_handshake = false }, no_error))
unfolding reserve_request
read_over_link I c d lba s block v fits inside r bytes size =
    let value : IsValue d.session_id = subst_value v.session_value in
    let l : Line = block_reply c.next_id d.session_id lba block in
    (
      request_made c lba v.negotiated v.at_rest (omega (arith, v.fresh)) v.session_value,
      dispatch-read_request I d c lba s block v.established v.loaded v.same_session v.session_value
          v.fresh v.id_fits fits inside r,
      reply_decoded c.next_id d.session_id lba block value fits bytes size,
      reply_is_accepted (asked c) l.fields
          (reply-IsWellFormed c.next_id d.session_id lba block value size) (Memᴰ.head refl)
          (Memᴰ.tail (Memᴰ.head (ap (λ (t : Text). (codes "session", t)) (sym v.same_session))))
          refl (omega (arith, v.fresh)) v.id_fits,
    )
  where
    subst_value : IsValue c.session_id → IsValue d.session_id
    subst_value h = record {
      nonempty = λ e. h.nonempty (sym v.same_session ∙ e);
      printable = rw v.same_session h.printable;
    }
