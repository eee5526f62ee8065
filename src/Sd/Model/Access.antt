-- ===== src/Sd/Model/Access.antt =====
-- The card model asks its backend only for blocks below the largest capacity that its registers have
-- exposed.
use pico_sdemu.Common.{
  ℕ, ◌≤◌, ◌<◌, ◌≡◌, refl, ap, List, [], ◌∷◌, arith, Option-cases, inl, inr, ◌∙◌,
}
use pico_sdemu.Sd.Command.{Command}
use pico_sdemu.Sd.Storage.{BlockBackend, Block}
use pico_sdemu.Sd.Model.{
  CardModel, command_lba, block_command, execute_data, execute_application, execute_basic, execute,
  retry_pending_read, read_next_multi_block, write_block, refresh_capacity,
}
use pico_sdemu.Sd.Model.Invariant.{
  Inv, Call, executes, retries, reads_next, finishes, aborts, refreshes, writes, storage_becomes,
  call, calls, call-Inv, peak_capacity, peak-start, peak-later, command_lba-lt,
}

-- Two backends of one size that answer alike below a capacity, and may differ in any block above it.
pub record Agree {S : Type 0} (B C : BlockBackend S) (capacity : ℕ) : Type 0 where
  pub block_count : (s : S) → B.block_count s ≡ C.block_count s
  pub read : (s : S) (lba : ℕ) → lba < capacity → B.read s lba ≡ C.read s lba
  pub write : (s : S) (lba : ℕ) (b : Block) → lba < capacity → B.write s lba b ≡ C.write s lba b

module _ {S : Type 0} (B C : BlockBackend S) where
  block_access :
      (limit : ℕ) (m : CardModel S) (c : Command)
      → m.registers.exposed_blocks ≤ limit
      → Agree B C limit
      → block_command B m c ≡ block_command C m c
  unfolding block_command
  block_access limit m c h a = elim (Option-cases (command_lba m c.argument)) [
    | inl e ↦ rw (e, block_command)
    | inr (lba, e) ↦
        let below = a.read m.backend lba (omega (arith, command_lba-lt m c.argument lba e)) in
        ground arith
  ]

  data_access :
      (limit : ℕ) (m : CardModel S) (c : Command)
      → m.registers.exposed_blocks ≤ limit
      → Agree B C limit
      → execute_data B m c ≡ execute_data C m c
  unfolding execute_data
  data_access limit m c h a = rw (block_access limit m c h a)

  application_access :
      (limit : ℕ) (m : CardModel S) (c : Command)
      → m.registers.exposed_blocks ≤ limit
      → Agree B C limit
      → execute_application B m c ≡ execute_application C m c
  unfolding execute_application
  application_access limit m c h a = rw (data_access limit m c h a)

  basic_access :
      (limit : ℕ) (m : CardModel S) (c : Command)
      → m.registers.exposed_blocks ≤ limit
      → Agree B C limit
      → execute_basic B m c ≡ execute_basic C m c
  unfolding execute_basic
  basic_access limit m c h a = rw (application_access limit m c h a)

  call_access :
      (limit : ℕ) (m : CardModel S) (c : Call S)
      → Inv limit m
      → Agree B C limit
      → call B m c ≡ call C m c
  unfolding call execute retry_pending_read read_next_multi_block write_block refresh_capacity
  call_access limit m (executes c) v a = ap (λ r. r.0) (basic_access limit _ c v.capacity a)
  call_access limit m retries v a = ground (arith, a.read m.backend m.pending_read_lba)
  call_access limit m reads_next v a =
      ground (arith, v.capacity, a.read m.backend m.next_multi_read_lba)
  call_access limit m finishes v a = refl
  call_access limit m aborts v a = refl
  call_access limit m refreshes v a = rw (a.block_count m.backend) refl
  call_access limit m (writes b crc) v a = ground (arith, a.write m.backend m.pending_write_lba b)
  call_access limit m (storage_becomes s) v a = refl

  calls_within :
      (limit : ℕ) (m : CardModel S) (cs : List (Call S))
      → peak_capacity B m cs ≤ limit
      → Inv limit m
      → Agree B C limit
      → calls B m cs ≡ calls C m cs
  unfolding calls
  calls_within limit m [] h v a = refl
  calls_within limit m (c ∷ cs) h v a =
      let below : peak_capacity B (call B m c) cs ≤ limit = omega (arith, peak-later B m c cs) in
      calls_within limit (call B m c) cs below
        (call-Inv B limit m c v (omega (arith, peak-start B (call B m c) cs))) a
      ∙ ap (λ k. calls C k cs) (call_access limit m c v a)

-- No sequence of calls, the capacity refreshed and the storage changed by others in between, tells
-- apart two backends of one size that agree on the blocks below the largest capacity exposed meanwhile,
-- from a card that satisfies the invariant for that capacity: no other block is ever read or written.
pub calls_access :
    {S : Type 0} (B C : BlockBackend S) (m : CardModel S) (cs : List (Call S))
    → Inv (peak_capacity B m cs) m
    → Agree B C (peak_capacity B m cs)
    → calls B m cs ≡ calls C m cs
calls_access B C m cs v a = calls_within B C (peak_capacity B m cs) m cs (omega arith) v a
