-- ===== src/Host/Tests.antt =====
-- The host's theorems at an image of one block and a session that is shared.
use pico_sdemu.Common.{
  ℕ, zero, suc, ◌≡◌, refl, true, false, none, some, List, [], ◌∷◌, if◌then◌else◌, arith, ◌==◌,
  replicate, length-replicate,
}
use pico_sdemu.Common.Bytes.{codes}
use pico_sdemu.Cdc.Numbers.{Text}
use pico_sdemu.Cdc.Text.Lines.{print_line}
use pico_sdemu.Cdc.Codec.RoundTrip.{AreBytes}
use pico_sdemu.Cdc.Client.{Client, new_client, line, begin_read_block, accept_response, no_error}
use pico_sdemu.Cdc.Responses.{read_as, decode_read_block_response}
use pico_sdemu.Host.Dispatcher.{Image, Dispatcher, dispatch}
use pico_sdemu.Host.Dispatcher.Safety.{AreKept, dispatch_all, read_only_is_never_written}
use pico_sdemu.Host.Exchange.{read_request, block_reply}
use pico_sdemu.Host.Exchange.EndToEnd.{asked, IsShared, read_over_link}

-- An image of one block, which is its state.
abbrev small_image : Image (List ℕ)
small_image = record {
  block_count = λ s. 1;
  read_block = λ s lba. (s, (if lba == 0 then some s else none));
  write_block = λ s lba block. (block, true);
  flush = λ s. (s, true);
}

abbrev sector : List ℕ
sector = replicate 512 7

sevens-AreBytes : (n : ℕ) → AreBytes (replicate n 7)
sevens-AreBytes zero = tt
sevens-AreBytes (suc n) = (omega arith, sevens-AreBytes n)

abbrev client : Client
client = record new_client { next_id = 2; negotiated = true; session_id = codes "A1" }

abbrev host : Dispatcher (List ℕ)
host = record {
  image = sector;
  card_type = codes "SDHC";
  session_id = codes "A1";
  writable = false;
  established = true;
  ejected = false;
  last_request_id = 1;
}

client_host-IsShared : IsShared client host
client_host-IsShared = record {
  negotiated = refl;
  at_rest = refl;
  established = refl;
  loaded = refl;
  same_session = refl;
  session_value = record { nonempty = ground arith; printable = ground arith };
  fresh = omega arith;
  id_fits = omega arith;
}

read_over_link_example :
    let request = print_line (read_request client 0) in
    let reply = print_line (block_reply 2 (codes "A1") 0 sector) in
    let c' = asked client in
    (begin_read_block client 0 ≡ (c', line request))
    × (dispatch small_image host request
        ≡ (record host { image = sector; last_request_id = 2 }, reply))
    × (decode_read_block_response reply ≡ read_as (record { lba = 0; block = sector }))
    × (accept_response c' reply
        ≡ (record c' { pending_id = 0; pending_handshake = false }, no_error))
read_over_link_example =
    read_over_link small_image client host 0 sector sector client_host-IsShared (omega arith)
      (omega arith) refl (sevens-AreBytes 512) (length-replicate {A = ℕ} 512 7)

abbrev IsOne : List ℕ → Type 0
IsOne s = s ≡ (1 ∷ [])

kept_by_reads : AreKept small_image IsOne
kept_by_reads = record { read = λ s lba h. h; flush = λ s h. h }

abbrev locked : Dispatcher (List ℕ)
locked = record host { image = 1 ∷ [] }

abbrev attempts : List Text
attempts =
    codes "WRITE_BLOCKS id=2 session=A1 lba=0 count=1 encoding=BASE64 crc32=00000000 data=AAAA"
    ∷ codes "FLUSH id=3 session=A1"
    ∷ []

read_only_is_never_written_example : IsOne (dispatch_all small_image locked attempts).image
read_only_is_never_written_example =
    read_only_is_never_written small_image IsOne kept_by_reads locked attempts refl refl
