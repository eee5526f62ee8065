-- ===== src/Cdc/Backend/Medium/Answers.antt =====
-- The answers to a transfer, and the coordinator's own moves, leave the backend coherent.
use pico_sdemu.Common.{
  ℕ, ◌≡◌, refl, sym, ap, ◌∙◌, Bool, true, false, ◌&&◌, Option, none, some, List, All, get_elem?,
  arith, inl, inr, subst, Bool-cases,
}
use pico_sdemu.Cdc.Numbers.{Text}
use pico_sdemu.Cdc.Operation.{Operation}
use pico_sdemu.Cdc.Client.{Client, accept_response as client_accept_response}
use pico_sdemu.Cdc.Client.Refusals.{is_no_error}
use pico_sdemu.Cdc.Coordinator.{
  Coordinator, OperationState, idle, awaiting_response, waiting_retry, retry_ready,
  needs_renegotiation, media_unavailable, failed, is_idle, is_awaiting, accept,
}
use pico_sdemu.Cdc.Coordinator.Invariant.{is_at_rest}
use pico_sdemu.Cdc.Coordinator.Retained.{is_failed}
use pico_sdemu.Cdc.Coordinator.Finish.{Moves, stays, fails, accept-Moves, accept_idle}
use pico_sdemu.Cdc.Pool.{Pool, Slot, SlotState, free, reading, ready, writing}
use pico_sdemu.Cdc.Pool.Every.{complete_read-Every, complete_write-Every}
use pico_sdemu.Cdc.Backend.Counters.{
  TransferType, Statistics, no_transfer, read_transfer, write_transfer, is_transfer,
  record_write_busy_duration,
}
use pico_sdemu.Cdc.Backend.{
  Backend, clear_transfer_tracking, settle_response, complete_transfer, valid_read, accept_response,
  count_fault,
}
use pico_sdemu.Cdc.Backend.Medium.{Disk}
use pico_sdemu.Cdc.Backend.Medium.Coherent.{
  Coherent, Fits, FitsIn, Carried, CarriedIn, HoldsBlock, slot_of,
}
use pico_sdemu.Cdc.Backend.Medium.Ends.{rest-Fits, rest-Coherent, abandon-Coherent}

-- The statistics and the client play no part.
pub other-Coherent :
    (b : Backend) (disk : Disk) (c : Client) (s : Statistics)
    → Coherent b disk
    → Coherent (record b { client = c; statistics = s }) disk
other-Coherent b disk c s v = record {
  fits = v.fits;
  carried = v.carried;
  tracked = v.tracked;
  quiet = v.quiet;
}

nothing_to_carry : (t : TransferType) (o : Option Slot) (block : List ℕ) → Carried t true o block
nothing_to_carry no_transfer o block = tt
nothing_to_carry read_transfer o block = tt
nothing_to_carry write_transfer o block = tt

failed_rests :
    (s : OperationState) → is_failed s ≡ true → (is_at_rest s ≡ true) × (is_idle s ≡ false)
failed_rests s h = ground arith

pub Moves-Coherent :
    (b : Backend) (disk : Disk) (k : Coordinator) (c : Client) (s : Statistics)
    → Coherent b disk
    → Moves b.coordinator k
    → Coherent (record b { coordinator = k; client = c; statistics = s }) disk
Moves-Coherent b disk k c s v (stays o r i) = record {
  fits = v.fits;
  carried =
      subst (λ (x : Bool). Carried b.transfer x (slot_of b.handle b.buffers) k.operation.block)
        (sym r)
        (subst
          (λ (x : List ℕ).
            Carried b.transfer (is_at_rest b.coordinator.state) (slot_of b.handle b.buffers) x)
          (ap (λ (x : Operation). x.block) (sym o)) v.carried);
  tracked = v.tracked;
  quiet = ap (λ (x : Bool). is_transfer b.transfer && x) i ∙ v.quiet;
}
Moves-Coherent b disk k c s v (fails f) = record {
  fits = v.fits;
  carried =
      subst (λ (x : Bool). Carried b.transfer x (slot_of b.handle b.buffers) k.operation.block)
        (sym (failed_rests k.state f).0) (nothing_to_carry b.transfer _ _);
  tracked = v.tracked;
  quiet =
      ap (λ (x : Bool). is_transfer b.transfer && x) (failed_rests k.state f).1
      ∙ and_false (is_transfer b.transfer);
}
  where
    and_false : (x : Bool) → (x && false) ≡ false
    and_false x = ground arith

-- The block that a transfer in flight leaves ready is the medium's.
abbrev pub Arrives : TransferType → Option Slot → ℕ → List ℕ → Disk → Type 0
Arrives read_transfer o lba block disk = block ≡ disk lba
Arrives write_transfer o lba block disk = CarriedIn o (disk lba)
Arrives no_transfer o lba block disk = o ≡ none

read_fills :
    (has : Bool) (media lba : ℕ) (disk : Disk) (block : List ℕ) (s : Slot) (state : SlotState)
    → block ≡ disk lba
    → FitsIn state has media no_transfer 0 disk s
    → state ≡ reading
    → s.lba ≡ lba
    → Fits has media no_transfer 0 disk (record s { block = block; state = ready })
read_fills has media lba disk block s reading e f h same = (f.0, f.1, e ∙ ap disk (sym same), tt)
read_fills has media lba disk block s free e f h same = ground arith
read_fills has media lba disk block s ready e f h same = ground arith
read_fills has media lba disk block s writing e f h same = ground arith

write_fills :
    (has : Bool) (media lba : ℕ) (disk : Disk) (s : Slot) (state : SlotState)
    → HoldsBlock state s.block (disk lba)
    → FitsIn state has media no_transfer 0 disk s
    → state ≡ writing
    → s.lba ≡ lba
    → Fits has media no_transfer 0 disk (record s { state = ready })
write_fills has media lba disk s writing e f h same = (f.0, f.1, e ∙ ap disk (sym same), tt)
write_fills has media lba disk s free e f h same = ground arith
write_fills has media lba disk s ready e f h same = ground arith
write_fills has media lba disk s reading e f h same = ground arith

complete_transfer-Fits :
    (has : Bool) (media : ℕ) (t : TransferType) (p : Pool) (handle : Option ℕ) (lba generation : ℕ)
    (block : List ℕ) (disk : Disk)
    → Arrives t (slot_of handle p) lba block disk
    → All (Fits has media no_transfer 0 disk) p.slots
    → All
        (Fits has media no_transfer 0 disk)
        (complete_transfer t p handle lba generation block).0.slots
unfolding complete_transfer
complete_transfer-Fits has media t p none lba generation block disk e a = a
complete_transfer-Fits has media read_transfer p (some h) lba generation block disk e a =
    complete_read-Every _ p h lba generation block
      (λ (s : Slot) f state same. read_fills has media lba disk block s s.state e f state same) a
complete_transfer-Fits has media write_transfer p (some h) lba generation block disk e a =
    complete_write-Every _ p h lba generation
      (λ (s : Slot) f at state same.
        write_fills has media lba disk s s.state
          (subst (λ (o : Option Slot). CarriedIn o (disk lba)) at e) f state same)
      a
complete_transfer-Fits has media no_transfer p (some h) lba generation block disk e a =
    complete_write-Every _ p h lba generation (λ (s : Slot) f at state same. absurd (nowhere s at))
      a
  where
    nowhere : (s : Slot) → get_elem? p.slots h ≡ some s → ⊥
    nowhere s at = let clash : none ≡ some s = sym e ∙ at in ground arith

settle_idle-Coherent :
    (b : Backend) (disk : Disk) (block : List ℕ) (now : ℕ)
    → Arrives b.transfer (slot_of b.handle b.buffers) b.lba block disk
    → All (Fits b.has_generation b.media_generation no_transfer 0 disk) b.buffers.slots
    → Coherent (settle_response b idle block now).0 disk
unfolding settle_response clear_transfer_tracking
settle_idle-Coherent b disk block now e a =
    let filled : All (Fits b.has_generation b.media_generation no_transfer 0 disk)
        (complete_transfer b.transfer b.buffers b.handle b.lba b.generation block).0.slots =
      complete_transfer-Fits _ _ b.transfer b.buffers b.handle b.lba b.generation block disk e a in
    elim (Bool-cases (complete_transfer b.transfer b.buffers b.handle b.lba b.generation block).1) [
      | inl done ↦ rw (done, settle_response) (rest-Coherent _ disk refl refl refl filled)
      | inr not_done ↦
          rw (not_done, settle_response)
            (abandon-Coherent
              (record b {
                buffers =
                    (complete_transfer b.transfer b.buffers b.handle b.lba b.generation block).0;
                statistics = count_fault b.statistics;
              })
              disk filled)
    ]

settle-Coherent :
    (b : Backend) (disk : Disk) (state : OperationState) (block : List ℕ) (now : ℕ)
    → All (Fits b.has_generation b.media_generation no_transfer 0 disk) b.buffers.slots
    → (is_idle state ≡ false → Coherent b disk)
    → (is_idle state ≡ true → Arrives b.transfer (slot_of b.handle b.buffers) b.lba block disk)
    → Coherent (settle_response b state block now).0 disk
unfolding settle_response
settle-Coherent b disk idle block now a v e = settle_idle-Coherent b disk block now (e refl) a
settle-Coherent b disk failed block now a v e =
    abandon-Coherent
      (record b {
        statistics =
            record_write_busy_duration b.transfer b.started_at now (count_fault b.statistics);
      })
      disk a
settle-Coherent b disk awaiting_response block now a v e = v refl
settle-Coherent b disk waiting_retry block now a v e = v refl
settle-Coherent b disk retry_ready block now a v e = v refl
settle-Coherent b disk needs_renegotiation block now a v e = v refl
settle-Coherent b disk media_unavailable block now a v e = v refl

-- A response that is looked into: where it ends the operation, the right block arrives.
pub heard-Coherent :
    (b : Backend) (disk : Disk) (response : Text) (now : ℕ) (block : List ℕ)
    → Coherent b disk
    → valid_read b.transfer b.lba response ≡ some block
    → (is_idle (accept b.coordinator response now b.client).0.state ≡ true
        → Arrives b.transfer (slot_of b.handle b.buffers) b.lba block disk)
    → Coherent (accept_response b response now).0 disk
unfolding accept_response
heard-Coherent b disk response now block v valid e =
    let k : Coordinator = (accept b.coordinator response now b.client).0 in
    let c : Client = (accept b.coordinator response now b.client).1 in
    rw (valid, accept_response)
      (settle-Coherent (record b { coordinator = k; client = c }) disk k.state block now
        (rest-Fits _ _ b.transfer b.lba disk b.buffers.slots v.fits)
        (λ h.
          Moves-Coherent b disk k c b.statistics v
            (accept-Moves b.coordinator response now b.client h))
        e)

pub unheard-Coherent :
    (b : Backend) (disk : Disk) (response : Text) (now : ℕ)
    → Coherent b disk
    → valid_read b.transfer b.lba response ≡ none
    → Coherent (accept_response b response now).0 disk
unfolding accept_response
unheard-Coherent b disk response now v invalid =
    rw (invalid, accept_response) (other-Coherent b disk b.client (count_fault b.statistics) v)

-- A transfer that is active ends only with a success.
pub ends_with_success :
    (b : Backend) (disk : Disk) (response : Text) (now : ℕ)
    → Coherent b disk
    → is_transfer b.transfer ≡ true
    → is_idle (accept b.coordinator response now b.client).0.state ≡ true
    → (is_awaiting b.coordinator.state ≡ true)
      × (is_no_error (client_accept_response b.client response).1 ≡ true)
ends_with_success b disk response now v t h =
    accept_idle b.coordinator response now b.client (not_idle (is_transfer b.transfer) _ t v.quiet)
      h
  where
    not_idle : (x y : Bool) → x ≡ true → (x && y) ≡ false → y ≡ false
    not_idle x y e q = ground arith
