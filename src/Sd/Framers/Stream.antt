-- ===== src/Sd/Framers/Stream.antt =====
-- What the framers hand out over a stream of bytes.
use Prim.Native.Nat.{bit_or}
use native.Mathlib.Numerals.{add-one}
use pico_sdemu.Common.{
  ℕ, ◌+◌, ◌*◌, ◌/◌, ◌%◌, ◌<◌, ◌≡◌, ◌≢◌, refl, sym, ◌∙◌, ap, Option, none, some, List, [], ◌∷◌, ◌++◌,
  arith, ==_iff, length, set, take, All, length-set, take-suc, take-set_le, take_all,
  get_elem?-set_self, append_assoc,
}
use pico_sdemu.Common.Bits.{bit_or_bytes}
use pico_sdemu.Sd.Command.{
  CrcPolicy, DecodeResult, decode_command, start_block_token, start_multi_write_token,
  stop_multi_write_token,
}
use pico_sdemu.Sd.Storage.{block_size}
use pico_sdemu.Sd.Framers.{
  CommandFramer, push_command_byte, DataFramer, DataEvent, block_event, stop_event, WriteMode,
  single_block, multi_block, FramerState, idle, waiting_for_token, in_payload, crc_high,
  push_data_byte, begin_data, command_frame_size,
}

-- All that a framer hands out while bytes are pushed one by one.
abbrev pub cons_some {ℓ} : {A : Type ℓ} → Option A → List A → List A
cons_some none xs = xs
cons_some (some a) xs = a ∷ xs

unfoldable pub feed_commands :
    CommandFramer → CrcPolicy → List ℕ → CommandFramer × List DecodeResult
feed_commands f policy [] = (f, [])
feed_commands f policy (b ∷ bytes) =
    let (f', out) = push_command_byte f b policy in
    let (f'', outs) = feed_commands f' policy bytes in (f'', cons_some out outs)

-- No byte that could start a command.
abbrev pub IsNoise : List ℕ → Type 0
IsNoise = All (λ b. b / 64 ≢ 1)

abbrev pub IsBetween : CommandFramer → Type 0
IsBetween f = (f.count ≡ 0) × (length f.frame ≡ command_frame_size)

feed_noise :
    (f : CommandFramer) (policy : CrcPolicy) (noise rest : List ℕ)
    → f.count ≡ 0
    → IsNoise noise
    → feed_commands f policy (noise ++ rest) ≡ feed_commands f policy rest
unfolding feed_commands push_command_byte
feed_noise f policy [] rest e n = refl
feed_noise f policy (b ∷ noise) rest e n = ground (arith, feed_noise f policy noise rest e n.1)

frame_from_start :
    (cells : List ℕ) (policy : CrcPolicy) (a b c d e g : ℕ)
    → length cells ≡ command_frame_size
    → a / 64 ≡ 1
    → let frame = a ∷ b ∷ c ∷ d ∷ e ∷ g ∷ [] in
      feed_commands (record { frame = cells; count = 0 }) policy frame
      ≡ (record { frame = frame; count = 0 }, decode_command frame policy ∷ [])
unfolding feed_commands push_command_byte
frame_from_start (_ ∷ _ ∷ _ ∷ _ ∷ _ ∷ _ ∷ []) policy a b c d e g l start =
    rw ((==_iff (a / 64) 1).1 start)
frame_from_start [] policy a b c d e g l start = absurd (omega arith)
frame_from_start _ policy a b c d e g l start = absurd (omega arith)

-- Between commands the framer skips any bytes that cannot start a command, then takes the next six
-- bytes as one frame, hands out that frame's decoding and nothing else, and is between commands again.
pub feed_frame :
    (f : CommandFramer) (policy : CrcPolicy) (noise : List ℕ) (a b c d e g : ℕ)
    → IsBetween f
    → IsNoise noise
    → a / 64 ≡ 1
    → let frame = a ∷ b ∷ c ∷ d ∷ e ∷ g ∷ [] in
      let (f', outs) = feed_commands f policy (noise ++ frame) in
      IsBetween f' × (outs ≡ decode_command frame policy ∷ [])
feed_frame f policy noise a b c d e g h n start =
    rw (feed_noise f policy noise _ h.0 n, at_start) ((refl, refl), refl)
  where
    at_start : feed_commands f policy (a ∷ b ∷ c ∷ d ∷ e ∷ g ∷ []) ≡ (
      record { frame = a ∷ b ∷ c ∷ d ∷ e ∷ g ∷ []; count = 0 },
      decode_command (a ∷ b ∷ c ∷ d ∷ e ∷ g ∷ []) policy ∷ [],
    )
    at_start =
        ap
          (λ n.
            feed_commands (record { frame = f.frame; count = n }) policy
              (a ∷ b ∷ c ∷ d ∷ e ∷ g ∷ []))
          h.0
        ∙ frame_from_start f.frame policy a b c d e g h.1 start

unfoldable pub feed_data : DataFramer → List ℕ → DataFramer × List DataEvent
feed_data f [] = (f, [])
feed_data f (b ∷ bytes) =
    let (f', out) = push_data_byte f b in
    let (f'', outs) = feed_data f' bytes in (f'', cons_some out outs)

take-set_end :
    (cells : List ℕ) (n b : ℕ)
    → n < length cells
    → take (n + 1) (set cells n b) ≡ take n cells ++ (b ∷ [])
take-set_end cells n b h = rw (
  add-one,
  take-suc n (set cells n b) b (get_elem?-set_self cells n b h),
  take-set_le n n cells b (omega arith),
)

abbrev receiving : FramerState → WriteMode → List ℕ → ℕ → ℕ → DataFramer
receiving state mode cells n crc = record {
  state = state;
  mode = mode;
  payload = cells;
  payload_size = n;
  crc = crc;
}

push_inside :
    (mode : WriteMode) (crc : ℕ) (cells : List ℕ) (n b : ℕ)
    → n + 1 ≢ block_size
    → push_data_byte (receiving in_payload mode cells n crc) b
      ≡ (receiving in_payload mode (set cells n b) (n + 1) crc, none)
unfolding push_data_byte
push_inside mode crc cells n b h = ground arith

push_last :
    (mode : WriteMode) (crc : ℕ) (cells : List ℕ) (n b : ℕ)
    → n + 1 ≡ block_size
    → push_data_byte (receiving in_payload mode cells n crc) b
      ≡ (receiving crc_high mode (set cells n b) (n + 1) crc, none)
unfolding push_data_byte
push_last mode crc cells n b h = ground arith

-- Receiving the rest of a payload: the bytes land in order behind those stored, and nothing is
-- handed out.
feed_payload :
    (mode : WriteMode) (crc : ℕ) (cells : List ℕ) (n : ℕ) (bytes rest : List ℕ)
    → length cells ≡ block_size
    → 0 < length bytes
    → n + length bytes ≡ block_size
    → feed_data (receiving in_payload mode cells n crc) (bytes ++ rest)
      ≡ feed_data (receiving crc_high mode (take n cells ++ bytes) block_size crc) rest
unfolding feed_data
feed_payload mode crc cells n [] rest l p e = absurd (omega arith)
feed_payload mode crc cells n (b ∷ []) rest l p e =
    let full : n + 1 ≡ block_size = omega arith in
    let stored : set cells n b ≡ take n cells ++ (b ∷ []) =
      sym (take_all (n + 1) (set cells n b) (omega (arith, length-set cells n b)))
      ∙ take-set_end cells n b (omega arith) in
    rw (push_last mode crc cells n b full, stored, full)
feed_payload mode crc cells n (b ∷ c ∷ bytes) rest l p e =
    rw (push_inside mode crc cells n b (omega arith)) (
      feed_payload mode crc (set cells n b) (n + 1) (c ∷ bytes) rest (length-set cells n b ∙ l)
        (omega arith) (omega arith)
      ∙ ap (λ xs. feed_data (receiving crc_high mode xs block_size crc) rest)
          (ap (λ xs. xs ++ (c ∷ bytes)) (take-set_end cells n b (omega arith))
            ∙ append_assoc (take n cells) (b ∷ []) (c ∷ bytes)))

-- The token that starts a data block in each mode.
abbrev pub data_token : WriteMode → ℕ
data_token single_block = start_block_token
data_token multi_block = start_multi_write_token

-- Bytes that a framer waiting for a token ignores.
abbrev pub IsFiller : WriteMode → List ℕ → Type 0
IsFiller single_block = All (λ b. b ≢ start_block_token)
IsFiller multi_block = All (λ b. (b ≢ start_multi_write_token) × (b ≢ stop_multi_write_token))

feed_filler :
    (mode : WriteMode) (cells : List ℕ) (n crc : ℕ) (bytes rest : List ℕ)
    → IsFiller mode bytes
    → feed_data (receiving waiting_for_token mode cells n crc) (bytes ++ rest)
      ≡ feed_data (receiving waiting_for_token mode cells n crc) rest
unfolding feed_data push_data_byte
feed_filler single_block cells n crc [] rest h = refl
feed_filler multi_block cells n crc [] rest h = refl
feed_filler single_block cells n crc (b ∷ bytes) rest h =
    ground (arith, feed_filler single_block cells n crc bytes rest h.1)
feed_filler multi_block cells n crc (b ∷ bytes) rest h =
    ground (arith, feed_filler multi_block cells n crc bytes rest h.1)

-- In a multiple write the stop token after filler ends the write with a stop event.
pub feed_stop :
    (f : DataFramer) (filler : List ℕ)
    → IsFiller multi_block filler
    → let (f', events) =
        feed_data (begin_data f multi_block) (filler ++ (stop_multi_write_token ∷ [])) in
      (events ≡ stop_event ∷ []) × (f'.state ≡ idle)
unfolding begin_data feed_data push_data_byte
feed_stop f filler skip = rw (feed_filler multi_block f.payload 0 0 filler _ skip) (refl, refl)

-- The state after a block: a single write is over, a multiple write waits for the next token.
abbrev pub after_block : WriteMode → FramerState
after_block single_block = idle
after_block multi_block = waiting_for_token

push_token :
    (mode : WriteMode) (cells : List ℕ) (n crc : ℕ)
    → push_data_byte (receiving waiting_for_token mode cells n crc) (data_token mode)
      ≡ (receiving in_payload mode cells 0 0, none)
unfolding push_data_byte
push_token single_block cells n crc = refl
push_token multi_block cells n crc = refl

push_checksum :
    (mode : WriteMode) (cells : List ℕ) (n crc high low : ℕ)
    → high < 256
    → low < 256
    → feed_data (receiving crc_high mode cells n crc) (high ∷ low ∷ []) ≡ (
      receiving (after_block mode) mode cells n (high * 256 + low),
      block_event cells (high * 256 + low) ∷ [],
    )
unfolding feed_data push_data_byte
push_checksum single_block cells n crc high low hh hl =
    let joined : bit_or (high * 256 % 65536) low ≡ high * 256 + low =
      ap (λ x. bit_or x low) (omega arith) ∙ bit_or_bytes high low hl in
    rw joined
push_checksum multi_block cells n crc high low hh hl =
    let joined : bit_or (high * 256 % 65536) low ≡ high * 256 + low =
      ap (λ x. bit_or x low) (omega arith) ∙ bit_or_bytes high low hl in
    rw joined

feed_token :
    (mode : WriteMode) (cells : List ℕ) (n crc : ℕ) (rest : List ℕ)
    → feed_data (receiving waiting_for_token mode cells n crc) (data_token mode ∷ rest)
      ≡ feed_data (receiving in_payload mode cells 0 0) rest
unfolding feed_data
feed_token mode cells n crc rest = rw (push_token mode cells n crc)

feed_from_token :
    (mode : WriteMode) (cells payload : List ℕ) (high low : ℕ)
    → length cells ≡ block_size
    → length payload ≡ block_size
    → high < 256
    → low < 256
    → feed_data
        (receiving waiting_for_token mode cells 0 0)
        (data_token mode ∷ (payload ++ (high ∷ low ∷ [])))
      ≡ (
        receiving (after_block mode) mode payload block_size (high * 256 + low),
        block_event payload (high * 256 + low) ∷ [],
      )
feed_from_token mode cells payload high low l size hh hl =
    feed_token mode cells 0 0 _
    ∙ feed_payload mode 0 cells 0 payload (high ∷ low ∷ []) l (omega arith) (omega arith)
    ∙ push_checksum mode payload block_size 0 high low hh hl

-- A framer that has begun a write skips filler bytes, and from the mode's token, 512 payload bytes and
-- two checksum bytes makes exactly one event: that payload with its 16-bit checksum. A single write is
-- then over, and a multiple write waits for its next token.
pub feed_block :
    (f : DataFramer) (mode : WriteMode) (filler payload : List ℕ) (high low : ℕ)
    → length f.payload ≡ block_size
    → IsFiller mode filler
    → length payload ≡ block_size
    → high < 256
    → low < 256
    → let (f', events) =
        feed_data
          (begin_data f mode)
          (filler ++ (data_token mode ∷ (payload ++ (high ∷ low ∷ [])))) in
      (events ≡ block_event payload (high * 256 + low) ∷ [])
      × (f'.state ≡ after_block mode)
      × (f'.payload ≡ payload)
unfolding begin_data
feed_block f mode filler payload high low cells skip size hh hl =
    rw (feed_filler mode f.payload 0 0 filler _ skip, run) (refl, refl, refl)
  where
    run :
        feed_data
          (receiving waiting_for_token mode f.payload 0 0)
          (data_token mode ∷ (payload ++ (high ∷ low ∷ [])))
        ≡ (
          receiving (after_block mode) mode payload block_size (high * 256 + low),
          block_event payload (high * 256 + low) ∷ [],
        )
    run = feed_from_token mode f.payload payload high low cells size hh hl
