-- ===== src/Sd/Model/Invariant.antt =====
-- What holds of the card model between two calls, for any backend: every address in use is below
-- a limit that the capacity has never passed, a multiple write is open only while data is being received (or after a fault), and
-- the model never rests in the busy state.
use pico_sdemu.Common.{ℕ, ◌≤◌, ◌<◌, max, ◌≡◌, ◌≢◌, ◌⊎◌, true, some, List, [], ◌∷◌, arith}
use pico_sdemu.Sd.Command.{Command}
use pico_sdemu.Sd.Registers.{CardType}
use pico_sdemu.Sd.Storage.{BlockBackend, Block, ReadResult}
use pico_sdemu.Sd.State.{receiving_data, fault, busy, accepts_data}
use pico_sdemu.Sd.Model.{
  CardModel, new_model, command_lba, after_read, block_command, execute_data, execute_application,
  execute_basic, execute, retry_pending_read, read_next_multi_block, finish_multi_write,
  abort_pending_write, write_block, refresh_capacity,
}

module _ {S : Type 0} where
  pub record Inv (limit : ℕ) (m : CardModel S) : Type 0 where
    pub capacity : m.registers.exposed_blocks ≤ limit
    pub write_target : m.state ≡ receiving_data → m.pending_write_lba < limit
    pub read_target : m.pending_read_active ≡ true → m.pending_read_lba < limit
    pub multi_target : m.multi_read_active ≡ true → m.next_multi_read_lba ≤ limit
    pub multi_open : m.multi_write_active ≡ true → (m.state ≡ receiving_data) ⊎ (m.state ≡ fault)
    pub settled : m.state ≢ busy

  pub finish-Inv : (limit : ℕ) (m : CardModel S) → Inv limit m → Inv limit (finish_multi_write m).0
  unfolding finish_multi_write
  finish-Inv limit m v = ground arith

  pub abort-Inv : (limit : ℕ) (m : CardModel S) → Inv limit m → Inv limit (abort_pending_write m)
  unfolding abort_pending_write
  abort-Inv limit m v = ground arith

  pub command_lba-lt :
      (m : CardModel S) (argument lba : ℕ)
      → command_lba m argument ≡ some lba
      → lba < m.registers.exposed_blocks
  unfolding command_lba
  command_lba-lt m argument lba h = ground arith

  after_read-Inv :
      (limit : ℕ) (m : CardModel S) (index lba : ℕ) (r : S × ReadResult)
      → Inv limit m
      → lba < limit
      → Inv limit (after_read m index lba r).0
  unfolding after_read
  after_read-Inv limit m index lba r v h = ground arith

-- The public calls that change the model, and what others do to its storage between them.
pub data Call (S : Type 0) : Type 0 where
  executes : Command → Call S
  retries reads_next finishes aborts refreshes : Call S
  writes : Block → ℕ → Call S
  storage_becomes : S → Call S

module _ {S : Type 0} (B : BlockBackend S) where
  pub new-Inv :
      (limit : ℕ) (type : CardType) (s : S)
      → (new_model B type s).registers.exposed_blocks ≤ limit
      → Inv limit (new_model B type s)
  unfolding new_model
  new-Inv limit type s h = ground arith

  block-Inv :
      (limit : ℕ) (m : CardModel S) (c : Command)
      → Inv limit m
      → accepts_data m.state ≡ true
      → Inv limit (block_command B m c).0
  unfolding block_command
  block-Inv limit m c v a = ground (arith, command_lba-lt m c.argument)

  data-Inv :
      (limit : ℕ) (m : CardModel S) (c : Command) → Inv limit m → Inv limit (execute_data B m c).0
  unfolding execute_data
  data-Inv limit m c v = ground (arith, block-Inv limit m c v)

  application-Inv :
      (limit : ℕ) (m : CardModel S) (c : Command)
      → Inv limit m
      → Inv limit (execute_application B m c).0
  unfolding execute_application
  application-Inv limit m c v = ground (arith, data-Inv limit m c v)

  basic-Inv :
      (limit : ℕ) (m : CardModel S) (c : Command) → Inv limit m → Inv limit (execute_basic B m c).0
  unfolding execute_basic
  basic-Inv limit m c v = ground (arith, application-Inv limit m c v)

  pub execute-Inv :
      (limit : ℕ) (m : CardModel S) (c : Command) → Inv limit m → Inv limit (execute B m c).0
  unfolding execute
  execute-Inv limit m c v = basic-Inv limit _ c record {
    capacity = v.capacity;
    write_target = v.write_target;
    read_target = v.read_target;
    multi_target = v.multi_target;
    multi_open = v.multi_open;
    settled = v.settled;
  }

  retry-Inv : (limit : ℕ) (m : CardModel S) → Inv limit m → Inv limit (retry_pending_read B m).0
  unfolding retry_pending_read
  retry-Inv limit m v = ground arith

  read_next-Inv :
      (limit : ℕ) (m : CardModel S) → Inv limit m → Inv limit (read_next_multi_block B m).0
  unfolding read_next_multi_block
  read_next-Inv limit m v = ground arith

  write-Inv :
      (limit : ℕ) (m : CardModel S) (b : Block) (crc : ℕ)
      → Inv limit m
      → Inv limit (write_block B m b crc).0
  unfolding write_block
  write-Inv limit m b crc v = ground arith

  unfoldable pub call : CardModel S → Call S → CardModel S
  call m (executes c) = (execute B m c).0
  call m retries = (retry_pending_read B m).0
  call m reads_next = (read_next_multi_block B m).0
  call m finishes = (finish_multi_write m).0
  call m aborts = abort_pending_write m
  call m refreshes = refresh_capacity B m
  call m (writes b crc) = (write_block B m b crc).0
  call m (storage_becomes s) = record m { backend = s }

  unfoldable pub calls : CardModel S → List (Call S) → CardModel S
  unfolding call
  calls m [] = m
  calls m (c ∷ cs) = calls (call m c) cs

  -- The largest capacity that the card exposes before, between and after the calls.
  unfoldable pub peak_capacity : CardModel S → List (Call S) → ℕ
  unfolding call
  peak_capacity m [] = m.registers.exposed_blocks
  peak_capacity m (c ∷ cs) = max m.registers.exposed_blocks (peak_capacity (call m c) cs)

  pub peak-start :
      (m : CardModel S) (cs : List (Call S)) → m.registers.exposed_blocks ≤ peak_capacity m cs
  unfolding peak_capacity
  peak-start m [] = omega arith
  peak-start m (c ∷ cs) = omega arith

  pub peak-later :
      (m : CardModel S) (c : Call S) (cs : List (Call S))
      → peak_capacity (call m c) cs ≤ peak_capacity m (c ∷ cs)
  unfolding peak_capacity
  peak-later m c cs = omega arith

  pub call-Inv :
      (limit : ℕ) (m : CardModel S) (c : Call S)
      → Inv limit m
      → (call m c).registers.exposed_blocks ≤ limit
      → Inv limit (call m c)
  unfolding call refresh_capacity
  call-Inv limit m (executes c) v h = execute-Inv limit m c v
  call-Inv limit m retries v h = retry-Inv limit m v
  call-Inv limit m reads_next v h = read_next-Inv limit m v
  call-Inv limit m finishes v h = finish-Inv limit m v
  call-Inv limit m aborts v h = abort-Inv limit m v
  call-Inv limit m refreshes v h = record {
    capacity = h;
    write_target = v.write_target;
    read_target = v.read_target;
    multi_target = v.multi_target;
    multi_open = v.multi_open;
    settled = v.settled;
  }
  call-Inv limit m (writes b crc) v h = write-Inv limit m b crc v
  call-Inv limit m (storage_becomes s) v h = record {
    capacity = h;
    write_target = v.write_target;
    read_target = v.read_target;
    multi_target = v.multi_target;
    multi_open = v.multi_open;
    settled = v.settled;
  }

  calls-Inv :
      (limit : ℕ) (m : CardModel S) (cs : List (Call S))
      → peak_capacity m cs ≤ limit
      → Inv limit m
      → Inv limit (calls m cs)
  unfolding calls
  calls-Inv limit m [] h v = v
  calls-Inv limit m (c ∷ cs) h v =
      let below : peak_capacity (call m c) cs ≤ limit = omega (arith, peak-later m c cs) in
      calls-Inv limit (call m c) cs below
        (call-Inv limit m c v (omega (arith, peak-start (call m c) cs)))

  -- After any calls on a new card, with any backend, the capacity refreshed and the storage changed by
  -- others in between: each address in use is below the largest capacity that the card has exposed, a
  -- multiple write is open only while data is received or after a fault, and the card is not busy.
  pub calls-new-Inv :
      (type : CardType) (s : S) (cs : List (Call S))
      → Inv (peak_capacity (new_model B type s) cs) (calls (new_model B type s) cs)
  calls-new-Inv type s cs =
      calls-Inv _ _ cs (omega arith) (new-Inv _ type s (peak-start (new_model B type s) cs))
