-- ===== src/Host/Dispatcher/Safety.antt =====
-- What no request can do to the image and to the session.
use pico_sdemu.Common.{
  ℕ, zero, suc, ◌+◌, ◌≡◌, false, List, [], ◌∷◌, inl, inr, Bool-cases, Option-cases, arith, ◌==◌,
  eq_bytes,
}
use pico_sdemu.Common.Bytes.{codes}
use pico_sdemu.Cdc.Numbers.{Text, parse_u64}
use pico_sdemu.Cdc.Text.{Token, parse_text_line, value_for, line_command, is_nonempty}
use pico_sdemu.Cdc.Text.Errors.{Parsed-cases}
use pico_sdemu.Host.Dispatcher.{
  Image, Dispatcher, read_blocks, answer_read, dispatch_read, dispatch_write, dispatch_flush,
  dispatch_eject, dispatch_hello, dispatch_command, dispatch_session, dispatch_tokens, dispatch,
  valid_range,
}

module _ {S : Type 0} (I : Image S) where
  -- The dispatcher after some lines.
  unfoldable pub dispatch_all : Dispatcher S → List Text → Dispatcher S
  dispatch_all d [] = d
  dispatch_all d (r ∷ rs) = dispatch_all (dispatch I d r).0 rs

  -- What reads and flushes keep.
  pub record AreKept (P : S → Type 0) : Type 0 where
    pub read : (s : S) (lba : ℕ) → P s → P (I.read_block s lba).0
    pub flush : (s : S) → P s → P (I.flush s).0

  module _ (P : S → Type 0) (k : AreKept P) where
    read_blocks-kept : (count lba : ℕ) (s : S) → P s → P (read_blocks I count lba s).0
    unfolding read_blocks
    read_blocks-kept zero lba s p = p
    read_blocks-kept (suc count) lba s p =
        let q : P (I.read_block s lba).0 = k.read s lba p in
        elim (Option-cases (I.read_block s lba).1) [
          | inl e ↦ rw (e, read_blocks) q
          | inr (b, e) ↦
              rw (e, read_blocks) (read_blocks-kept count (lba + 1) (I.read_block s lba).0 q)
        ]

    answer_read-kept :
        (d : Dispatcher S) (id : Text) (lba count : ℕ)
        → P d.image
        → P (answer_read I d id lba count).0.image
    unfolding answer_read
    answer_read-kept d id lba count p =
        let q : P (read_blocks I count lba d.image).0 = read_blocks-kept count lba d.image p in
        elim (Option-cases (read_blocks I count lba d.image).1) [
          | inl e ↦ rw (e, answer_read) q
          | inr (b, e) ↦ rw (e, answer_read) q
        ]

    read-kept :
        (d : Dispatcher S) (tokens : List Token) (id : Text)
        → P d.image
        → P (dispatch_read I d tokens id).0.image
    unfolding dispatch_read
    read-kept d tokens id p = elim (Option-cases (parse_u64 (value_for tokens (codes "lba")))) [
      | inl e ↦ rw (e, dispatch_read) p
      | inr (lba, e) ↦ elim (Option-cases (parse_u64 (value_for tokens (codes "count")))) [
        | inl e' ↦ rw (e, e', dispatch_read) p
        | inr (count, e') ↦
            elim (Bool-cases (eq_bytes (value_for tokens (codes "encoding")) (codes "BASE64"))) [
              | inr b ↦ rw (e, e', b, dispatch_read) p
              | inl b ↦ elim (Bool-cases (valid_range lba count (I.block_count d.image))) [
                | inr v ↦ rw (e, e', b, v, dispatch_read) p
                | inl v ↦ rw (e, e', b, v, dispatch_read) (answer_read-kept d id lba count p)
              ]
            ]
      ]
    ]

    flush-kept : (d : Dispatcher S) (id : Text) → P d.image → P (dispatch_flush I d id).0.image
    unfolding dispatch_flush
    flush-kept d id p = k.flush d.image p

    eject-kept : (d : Dispatcher S) (id : Text) → P d.image → P (dispatch_eject I d id).0.image
    unfolding dispatch_eject
    eject-kept d id p = elim (Bool-cases (I.flush d.image).1) [
      | inl e ↦ rw (e, dispatch_eject) (k.flush d.image p)
      | inr e ↦ rw (e, dispatch_eject) (k.flush d.image p)
    ]

    write_refused :
        (d : Dispatcher S) (tokens : List Token) (id : Text)
        → d.writable ≡ false
        → (dispatch_write I d tokens id).0 ≡ d
    unfolding dispatch_write
    write_refused d tokens id w = ground arith

    command-kept :
        (d : Dispatcher S) (tokens : List Token) (id : Text)
        → P d.image
        → d.writable ≡ false
        → P (dispatch_command I d tokens id).0.image
    unfolding dispatch_command
    command-kept d tokens id p w = ground (
      arith,
      read-kept d tokens id p,
      flush-kept d id p,
      eject-kept d id p,
      write_refused d tokens id w,
    )

    read_writable :
        (d : Dispatcher S) (tokens : List Token) (id : Text)
        → (dispatch_read I d tokens id).0.writable ≡ d.writable
    unfolding dispatch_read answer_read
    read_writable d tokens id = ground arith

    command_writable :
        (d : Dispatcher S) (tokens : List Token) (id : Text)
        → d.writable ≡ false
        → (dispatch_command I d tokens id).0.writable ≡ false
    unfolding dispatch_command dispatch_flush dispatch_eject
    command_writable d tokens id w =
        ground (arith, read_writable d tokens id, write_refused d tokens id w)

    -- The image has the property, and nothing may write it.
    record IsReadOnly (d : Dispatcher S) : Type 0 where
      kept : P d.image
      locked : d.writable ≡ false

    session-IsReadOnly :
        (d : Dispatcher S) (tokens : List Token) (id : Text) (request_id : ℕ)
        → IsReadOnly d
        → IsReadOnly (dispatch_session I d tokens id request_id).0
    unfolding dispatch_session
    session-IsReadOnly d tokens id request_id v =
        let d' : Dispatcher S = record d { last_request_id = request_id } in
        record {
          kept = ground (arith, v, command-kept d' tokens id v.kept v.locked);
          locked = ground (arith, v, command_writable d' tokens id v.locked);
        }

    hello-IsReadOnly :
        (d : Dispatcher S) (tokens : List Token) (id : Text) (request_id : ℕ)
        → IsReadOnly d
        → IsReadOnly (dispatch_hello I d tokens id request_id).0
    unfolding dispatch_hello
    hello-IsReadOnly d tokens id request_id v = record {
      kept = ground (arith, v);
      locked = ground (arith, v);
    }

    tokens-IsReadOnly :
        (d : Dispatcher S) (tokens : List Token)
        → IsReadOnly d
        → IsReadOnly (dispatch_tokens I d tokens).0
    unfolding dispatch_tokens
    tokens-IsReadOnly d tokens v =
        let id : Text = value_for tokens (codes "id") in
        elim (Bool-cases (is_nonempty id)) [
          | inr e ↦ rw (e, dispatch_tokens) v
          | inl e ↦ elim (Option-cases (parse_u64 id)) [
            | inl n ↦ rw (e, n, dispatch_tokens) v
            | inr (r, n) ↦ elim (Bool-cases (r == 0)) [
              | inl z ↦ rw (e, n, z, dispatch_tokens) v
              | inr z ↦ elim (Bool-cases (eq_bytes (line_command tokens) (codes "HELLO"))) [
                | inl h ↦ rw (e, n, z, h, dispatch_tokens) (hello-IsReadOnly d tokens id r v)
                | inr h ↦ rw (e, n, z, h, dispatch_tokens) (session-IsReadOnly d tokens id r v)
              ]
            ]
          ]
        ]

    dispatch-IsReadOnly :
        (d : Dispatcher S) (request : Text) → IsReadOnly d → IsReadOnly (dispatch I d request).0
    unfolding dispatch
    dispatch-IsReadOnly d request v = elim (Parsed-cases (parse_text_line request)) [
      | inl (e, p) ↦ rw (p, dispatch) v
      | inr (tokens, p) ↦ rw (p, dispatch) (tokens-IsReadOnly d tokens v)
    ]

    requests-IsReadOnly :
        (d : Dispatcher S) (requests : List Text)
        → IsReadOnly d
        → IsReadOnly (dispatch_all d requests)
    unfolding dispatch_all
    requests-IsReadOnly d [] v = v
    requests-IsReadOnly d (r ∷ rs) v =
        requests-IsReadOnly (dispatch I d r).0 rs (dispatch-IsReadOnly d r v)

    -- A read-only image is never written: for a dispatcher that is not writable, whatever lines a client
    -- sends, the image keeps each property that reads and flushes of it keep.
    pub read_only_is_never_written :
        (d : Dispatcher S) (requests : List Text)
        → d.writable ≡ false
        → P d.image
        → P (dispatch_all d requests).image
    read_only_is_never_written d requests w p =
        (requests-IsReadOnly d requests (record { kept = p; locked = w })).kept
