-- ===== src/Sd/Model/Uninitialised.antt =====
-- A card that the host has not initialised leaves its storage alone.
use pico_sdemu.Common.{◌≡◌, ◌≢◌, ◌⊎◌, false, List, [], ◌∷◌, arith, All}
use pico_sdemu.Sd.Command.{Command}
use pico_sdemu.Sd.Registers.{CardType}
use pico_sdemu.Sd.Storage.{BlockBackend}
use pico_sdemu.Sd.State.{power_up, idle}
use pico_sdemu.Sd.Model.{
  CardModel, new_model, execute_data, execute_application, execute_basic, execute,
  retry_pending_read, read_next_multi_block, write_block, finish_multi_write, abort_pending_write,
  refresh_capacity,
}
use pico_sdemu.Sd.Model.Invariant.{
  Call, executes, retries, reads_next, finishes, aborts, refreshes, writes, storage_becomes, call,
  calls,
}

-- The host's calls and the capacity's refresh, without CMD41.
abbrev pub IsWithoutInitialisation : {S : Type 0} → Call S → Type 0
IsWithoutInitialisation (executes c) = c.index ≢ 41
IsWithoutInitialisation retries = Unit {0}
IsWithoutInitialisation reads_next = Unit {0}
IsWithoutInitialisation finishes = Unit {0}
IsWithoutInitialisation aborts = Unit {0}
IsWithoutInitialisation refreshes = Unit {0}
IsWithoutInitialisation (writes b crc) = Unit {0}
IsWithoutInitialisation (storage_becomes s) = ⊥

-- Before initialisation, with nothing under way, over a storage in the state `s`.
record IsUntouched {S : Type 0} (s : S) (m : CardModel S) : Type 0 where
  storage : m.backend ≡ s
  early : (m.state ≡ power_up) ⊎ (m.state ≡ idle)
  no_read : m.pending_read_active ≡ false
  no_multi_read : m.multi_read_active ≡ false
  no_multi_write : m.multi_write_active ≡ false

module _ {S : Type 0} (B : BlockBackend S) where
  data-IsUntouched :
      (s : S) (m : CardModel S) (c : Command)
      → IsUntouched s m
      → IsUntouched s (execute_data B m c).0
  unfolding execute_data
  data-IsUntouched s m c v = ground arith

  application-IsUntouched :
      (s : S) (m : CardModel S) (c : Command)
      → c.index ≢ 41
      → IsUntouched s m
      → IsUntouched s (execute_application B m c).0
  unfolding execute_application
  application-IsUntouched s m c h v = ground (arith, data-IsUntouched s m c v)

  basic-IsUntouched :
      (s : S) (m : CardModel S) (c : Command)
      → c.index ≢ 41
      → IsUntouched s m
      → IsUntouched s (execute_basic B m c).0
  unfolding execute_basic
  basic-IsUntouched s m c h v = ground (arith, application-IsUntouched s m c h v)

  call-IsUntouched :
      (s : S) (m : CardModel S) (c : Call S)
      → IsWithoutInitialisation c
      → IsUntouched s m
      → IsUntouched s (call B m c)
  unfolding call execute retry_pending_read read_next_multi_block write_block finish_multi_write
      abort_pending_write refresh_capacity
  call-IsUntouched s m (executes c) h v = basic-IsUntouched s _ c h record {
    storage = v.storage;
    early = v.early;
    no_read = v.no_read;
    no_multi_read = v.no_multi_read;
    no_multi_write = v.no_multi_write;
  }
  call-IsUntouched s m retries h v = ground arith
  call-IsUntouched s m reads_next h v = ground arith
  call-IsUntouched s m finishes h v = ground arith
  call-IsUntouched s m aborts h v = ground arith
  call-IsUntouched s m refreshes h v = ground arith
  call-IsUntouched s m (writes b crc) h v = ground arith
  call-IsUntouched s m (storage_becomes t) h v = absurd h

  calls-IsUntouched :
      (s : S) (m : CardModel S) (cs : List (Call S))
      → All IsWithoutInitialisation cs
      → IsUntouched s m
      → IsUntouched s (calls B m cs)
  unfolding calls
  calls-IsUntouched s m [] h v = v
  calls-IsUntouched s m (c ∷ cs) h v =
      calls-IsUntouched s (call B m c) cs h.1 (call-IsUntouched s m c h.0 v)

  new-IsUntouched : (type : CardType) (s : S) → IsUntouched s (new_model B type s)
  unfolding new_model
  new-IsUntouched type s = ground arith

  -- Whatever is called on a new card, block commands, data and refreshes included, as long as no CMD41
  -- is among it and nobody else changes the storage: the storage, of any kind, is in the state it was
  -- in, and the card is still in PowerUp or Idle.
  pub uninitialised_untouched :
      (type : CardType) (s : S) (cs : List (Call S))
      → All IsWithoutInitialisation cs
      → let m = calls B (new_model B type s) cs in
        (m.backend ≡ s) × ((m.state ≡ power_up) ⊎ (m.state ≡ idle))
  uninitialised_untouched type s cs h =
      let v = calls-IsUntouched s (new_model B type s) cs h (new-IsUntouched type s) in
      (v.storage, v.early)
