-- ===== src/Host/Exchange/Read.antt =====
-- A block is read over the link: the client's request, the dispatcher's answer, and what the firmware
-- makes of it.
use mathlib.Core.List.{Memᴰ}
use pico_sdemu.Common.{
  ℕ, ◌≤◌, ◌<◌, ◌≡◌, ◌≢◌, refl, sym, ap, ◌∙◌, true, false, some, List, [], ◌∷◌, append-nil, arith,
  eq_bytes_refl, ◌==◌, leb,
}
use pico_sdemu.Common.Bytes.{codes}
use pico_sdemu.Common.Word.{u64_max}
use pico_sdemu.Cdc.Numbers.{Text, to_string, parse_u64}
use pico_sdemu.Cdc.Numbers.RoundTrip.{parse-to_string, to_string-nonempty}
use pico_sdemu.Cdc.Text.{Token, line_command, value_for}
use pico_sdemu.Cdc.Text.Lines.{Line, print_line, IsWellFormed}
use pico_sdemu.Cdc.Text.RoundTrip.{parse-print, value_for_lem, nonempty_lem}
use pico_sdemu.Cdc.Client.{Client}
use pico_sdemu.Host.Dispatcher.{
  Image, Dispatcher, valid_range, ok_line, blocks_line, read_blocks, answer_read, dispatch_read,
  dispatch_command, dispatch_session, dispatch_tokens, dispatch,
}
use pico_sdemu.Host.Exchange.{
  IsValue, read_request, read_request-IsWellFormed, block_reply, block_reply_line,
}

module _ {S : Type 0} (I : Image S) where
  one_block :
      (lba : ℕ) (s s' : S) (block : List ℕ)
      → I.read_block s lba ≡ (s', some block)
      → read_blocks I 1 lba s ≡ (s', some block)
  unfolding read_blocks
  one_block lba s s' block r = ground (arith, append-nil block)

  answered :
      (d : Dispatcher S) (id : Text) (lba : ℕ) (s : S) (block : List ℕ)
      → I.read_block d.image lba ≡ (s, some block)
      → answer_read I d id lba 1
        ≡ (record d { image = s }, blocks_line (ok_line id d.session_id) lba 1 block)
  unfolding answer_read
  answered d id lba s block r = ground (arith, one_block lba d.image s block r)

  one_in_range : (lba available : ℕ) → lba < available → valid_range lba 1 available ≡ true
  unfolding valid_range
  one_in_range lba available h = ground arith

  one_parses : parse_u64 (codes "1") ≡ some 1
  unfolding parse_u64
  one_parses = refl

  parsed_as : (text : Text) (n : ℕ) → text ≡ to_string n → n ≤ u64_max → parse_u64 text ≡ some n
  parsed_as text n e h = ap parse_u64 e ∙ parse-to_string n h

  read_dispatched :
      (d : Dispatcher S) (tokens : List Token) (id : Text) (lba : ℕ) (s : S) (block : List ℕ)
      → value_for tokens (codes "lba") ≡ to_string lba
      → value_for tokens (codes "count") ≡ codes "1"
      → value_for tokens (codes "encoding") ≡ codes "BASE64"
      → lba ≤ u64_max
      → lba < I.block_count d.image
      → I.read_block d.image lba ≡ (s, some block)
      → dispatch_read I d tokens id
        ≡ (record d { image = s }, blocks_line (ok_line id d.session_id) lba 1 block)
  unfolding dispatch_read
  read_dispatched d tokens id lba s block at count encoding fits inside r =
      rw
        (
          parsed_as _ lba at fits,
          ap parse_u64 count ∙ one_parses,
          encoding,
          one_in_range lba (I.block_count d.image) inside,
          dispatch_read,
        )
        (answered d id lba s block r)

  command_dispatched :
      (d : Dispatcher S) (fields : List Token) (id : Text)
      → d.ejected ≡ false
      → dispatch_command I d (codes "READ_BLOCKS" ∷ fields) id
        ≡ dispatch_read I d (codes "READ_BLOCKS" ∷ fields) id
  unfolding dispatch_command line_command
  command_dispatched d fields id e = rw (e, dispatch_command) refl

  session_dispatched :
      (d : Dispatcher S) (tokens : List Token) (id : Text) (request_id : ℕ)
      → d.established ≡ true
      → d.session_id ≢ []
      → value_for tokens (codes "session") ≡ d.session_id
      → d.last_request_id < request_id
      → dispatch_session I d tokens id request_id
        ≡ dispatch_command I (record d { last_request_id = request_id }) tokens id
  unfolding dispatch_session
  session_dispatched d tokens id request_id e ne same fresh =
      rw
        (
          e,
          same,
          nonempty_lem d.session_id ne,
          eq_bytes_refl d.session_id,
          not_leb request_id d.last_request_id fresh,
          dispatch_session,
        )
        refl
    where
      not_leb : (a b : ℕ) → b < a → leb a b ≡ false
      not_leb a b h = ground arith

  tokens_dispatched :
      (d : Dispatcher S) (fields : List Token) (request_id : ℕ)
      → value_for (codes "READ_BLOCKS" ∷ fields) (codes "id") ≡ to_string request_id
      → 0 < request_id
      → request_id ≤ u64_max
      → dispatch_tokens I d (codes "READ_BLOCKS" ∷ fields)
        ≡ dispatch_session I d (codes "READ_BLOCKS" ∷ fields) (to_string request_id) request_id
  unfolding dispatch_tokens line_command
  tokens_dispatched d fields request_id v p fits =
      rw
        (
          v,
          nonempty_lem (to_string request_id) (to_string-nonempty request_id),
          parse-to_string request_id fits,
          positive request_id p,
          dispatch_tokens,
        )
        (ap (λ (t : Text). dispatch_session I d (codes "READ_BLOCKS" ∷ fields) t request_id) v)
    where
      positive : (n : ℕ) → 0 < n → (n == 0) ≡ false
      positive n h = ground arith

  -- The dispatcher of an established session that the client shares answers the client's request for a
  -- block, with a fresh id, by the block that the image has there, and keeps that id.
  pub dispatch-read_request :
      (d : Dispatcher S) (c : Client) (lba : ℕ) (s : S) (block : List ℕ)
      → d.established ≡ true
      → d.ejected ≡ false
      → d.session_id ≡ c.session_id
      → IsValue c.session_id
      → d.last_request_id < c.next_id
      → c.next_id ≤ u64_max
      → lba ≤ u64_max
      → lba < I.block_count d.image
      → I.read_block d.image lba ≡ (s, some block)
      → dispatch I d (print_line (read_request c lba)) ≡ (
        record d { image = s; last_request_id = c.next_id },
        print_line (block_reply c.next_id d.session_id lba block),
      )
  unfolding dispatch
  dispatch-read_request d c lba s block e live same value fresh id_fits fits inside r =
      let l : Line = read_request c lba in
      let w : IsWellFormed l = read_request-IsWellFormed c lba value in
      let d' : Dispatcher S = record d { last_request_id = c.next_id } in
      rw (parse-print l w, dispatch)
        (tokens_dispatched d _ c.next_id (value_for_lem l (codes "id") _ w (Memᴰ.head refl))
            (omega arith) id_fits
          ∙ (session_dispatched d _ _ c.next_id e (λ n. value.nonempty (sym same ∙ n))
                (value_for_lem l (codes "session") _ w (Memᴰ.tail (Memᴰ.head refl)) ∙ sym same)
                fresh
              ∙ (command_dispatched d' _ _ live
                  ∙ (read_dispatched d' _ _ lba s block
                        (value_for_lem l (codes "lba") _ w (Memᴰ.tail (Memᴰ.tail (Memᴰ.head refl))))
                        (value_for_lem l (codes "count") _ w
                          (Memᴰ.tail (Memᴰ.tail (Memᴰ.tail (Memᴰ.head refl)))))
                        (value_for_lem l (codes "encoding") _ w
                          (Memᴰ.tail (Memᴰ.tail (Memᴰ.tail (Memᴰ.tail (Memᴰ.head refl))))))
                        fits inside r
                      ∙ ap (λ (t : Text). (record d' { image = s }, t))
                          (block_reply_line c.next_id d.session_id lba block)))))
