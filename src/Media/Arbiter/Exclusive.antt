-- ===== src/Media/Arbiter/Exclusive.antt =====
-- While one side owns the backend, the other side cannot touch it.
use pico_sdemu.Common.{ℕ, ◌≡◌, refl, List, [], ◌∷◌}
use pico_sdemu.Sd.Storage.{BlockBackend, Block}
use pico_sdemu.Media.Arbiter.{
  Owner, emulated_client, host_copy, Arbiter, transition, expose_to_client, hide_from_client,
  begin_host_copy, end_host_copy, flush_for, read_for, write_for,
}

-- The two sides: the emulated card's client, and a copy by the host.
pub data Side : Type 0 where
  client host : Side

abbrev pub owner_of : Side → Owner
owner_of client = emulated_client
owner_of host = host_copy

abbrev pub other_side : Side → Side
other_side client = host
other_side host = client

-- What a side does: it takes the backend, gives it up, and uses it.
pub data SideCall : Type 0 where
  takes gives_up flushes : SideCall
  reads : ℕ → SideCall
  writes : ℕ → Block → SideCall

-- The client's side is taken by exposing the backend, the host's by beginning a copy.
unfoldable pub take_for : {S : Type 0} → Side → Arbiter S → Arbiter S
take_for client a = (expose_to_client a).0
take_for host a = (begin_host_copy a).0

unfoldable pub give_up_for : {S : Type 0} → Side → Arbiter S → Arbiter S
give_up_for client a = (hide_from_client a).0
give_up_for host a = (end_host_copy a).0

module _ {S : Type 0} (B : BlockBackend S) where
  unfoldable pub side_call : Side → Arbiter S → SideCall → Arbiter S
  unfolding take_for give_up_for
  side_call side a takes = take_for side a
  side_call side a gives_up = give_up_for side a
  side_call side a flushes = (flush_for B (owner_of side) a).0
  side_call side a (reads lba) = (read_for B (owner_of side) a lba).0
  side_call side a (writes lba block) = (write_for B (owner_of side) a lba block).0

  unfoldable pub side_calls : Side → Arbiter S → List SideCall → Arbiter S
  unfolding side_call
  side_calls side a [] = a
  side_calls side a (c ∷ cs) = side_calls side (side_call side a c) cs

  call_undisturbed :
      (side : Side) (a : Arbiter S) (c : SideCall)
      → a.owner ≡ owner_of (other_side side)
      → side_call side a c ≡ a
  unfolding side_call take_for give_up_for expose_to_client hide_from_client begin_host_copy
      end_host_copy transition flush_for read_for write_for
  call_undisturbed client a takes h = rw h refl
  call_undisturbed host a takes h = rw h refl
  call_undisturbed client a gives_up h = rw h refl
  call_undisturbed host a gives_up h = rw h refl
  call_undisturbed client a flushes h = rw h refl
  call_undisturbed host a flushes h = rw h refl
  call_undisturbed client a (reads lba) h = rw h refl
  call_undisturbed host a (reads lba) h = rw h refl
  call_undisturbed client a (writes lba block) h = rw h refl
  call_undisturbed host a (writes lba block) h = rw h refl

  -- While one side owns the backend, nothing that the other side does, in any order, changes the
  -- backend or its owner: reads, writes, flushes, and the calls by which that side takes the backend
  -- and gives it up.
  pub owner_undisturbed :
      (side : Side) (a : Arbiter S) (cs : List SideCall)
      → a.owner ≡ owner_of (other_side side)
      → side_calls side a cs ≡ a
  unfolding side_calls
  owner_undisturbed side a [] h = refl
  owner_undisturbed side a (c ∷ cs) h =
      rw (call_undisturbed side a c h) (owner_undisturbed side a cs h)
