-- ===== src/Cdc/Backend/Medium/Truthful.antt =====
-- Truthful answers leave the backend coherent.
use pico_sdemu.Common.{
  ℕ, ◌≡◌, refl, sym, ap, ◌∙◌, Bool, true, false, Option, none, some, List, [], arith, ◌==◌, inl,
  inr, subst, if◌then◌else◌, Bool-cases,
}
use pico_sdemu.Cdc.Numbers.{Text}
use pico_sdemu.Cdc.Client.{accept_response as client_accept_response}
use pico_sdemu.Cdc.Client.Refusals.{is_no_error, err_line_refused}
use pico_sdemu.Cdc.Coordinator.{OperationState, is_idle, is_awaiting, accept}
use pico_sdemu.Cdc.Coordinator.Invariant.{is_at_rest}
use pico_sdemu.Cdc.Responses.{
  ReadBlock, ResponseError, read_as, unreadable, decode_read_block_response,
}
use pico_sdemu.Cdc.Pool.{Slot}
use pico_sdemu.Cdc.Backend.Counters.{
  TransferType, no_transfer, read_transfer, write_transfer, is_transfer,
}
use pico_sdemu.Cdc.Backend.{Backend, valid_read, is_err_line, accept_response}
use pico_sdemu.Cdc.Backend.Medium.{Disk}
use pico_sdemu.Cdc.Backend.Medium.Coherent.{Coherent, Carried, CarriedIn, slot_of, is_handle}
use pico_sdemu.Cdc.Backend.Medium.Answers.{
  Arrives, heard-Coherent, unheard-Coherent, ends_with_success,
}

as_read :
    (b : Backend) (response : Text)
    → b.transfer ≡ read_transfer
    → valid_read b.transfer b.lba response ≡ valid_read read_transfer b.lba response
as_read b response t = ap (λ (x : TransferType). valid_read x b.lba response) t

active :
    (b : Backend) (t : TransferType)
    → b.transfer ≡ t
    → is_transfer t ≡ true
    → is_transfer b.transfer ≡ true
active b t e h = ap is_transfer e ∙ h

err_valid :
    (lba : ℕ) (response : Text)
    → is_err_line response ≡ true
    → valid_read read_transfer lba response ≡ some []
unfolding valid_read
err_valid lba response h = ground arith

block_valid :
    (lba : ℕ) (response : Text) (r : ReadBlock)
    → is_err_line response ≡ false
    → decode_read_block_response response ≡ read_as r
    → valid_read read_transfer lba response ≡ (if r.lba == lba then some r.block else none)
unfolding valid_read
block_valid lba response r h d = rw (h, d, valid_read) refl

unreadable_invalid :
    (lba : ℕ) (response : Text) (e : ResponseError)
    → is_err_line response ≡ false
    → decode_read_block_response response ≡ unreadable e
    → valid_read read_transfer lba response ≡ none
unfolding valid_read
unreadable_invalid lba response e h d = rw (h, d, valid_read) refl

-- An `ERR` line does not end a read with success.
err_answer-Coherent :
    (b : Backend) (disk : Disk) (response : Text) (now : ℕ)
    → Coherent b disk
    → b.transfer ≡ read_transfer
    → is_err_line response ≡ true
    → Coherent (accept_response b response now).0 disk
unfolding is_err_line
err_answer-Coherent b disk response now v t h =
    heard-Coherent b disk response now [] v (as_read b response t ∙ err_valid b.lba response h)
      (λ i. absurd (never i))
  where
    never : is_idle (accept b.coordinator response now b.client).0.state ≡ true → ⊥
    never i =
        let (waits, success) =
          ends_with_success b disk response now v (active b read_transfer t refl) i in
        let clash : true ≡ false = sym success ∙ err_line_refused b.client response h in
        ground arith

pub block_answer-Coherent :
    (b : Backend) (disk : Disk) (response : Text) (now : ℕ) (r : ReadBlock)
    → Coherent b disk
    → b.transfer ≡ read_transfer
    → decode_read_block_response response ≡ read_as r
    → r.block ≡ disk r.lba
    → Coherent (accept_response b response now).0 disk
block_answer-Coherent b disk response now r v t d truth = elim (Bool-cases (is_err_line response)) [
  | inl h ↦ err_answer-Coherent b disk response now v t h
  | inr h ↦ elim (Bool-cases (r.lba == b.lba)) [
    | inl same ↦
        heard-Coherent b disk response now r.block v
          (as_read b response t
            ∙ (block_valid b.lba response r h d
                ∙ ap (λ (x : Bool). if x then some r.block else none) same))
          (λ i.
            subst (λ (x : TransferType). Arrives x (slot_of b.handle b.buffers) b.lba r.block disk)
              (sym t) (truth ∙ ap disk (eq_sound r.lba b.lba same)))
    | inr differs ↦ unheard-Coherent b disk response now v (
        as_read b response t
        ∙ (block_valid b.lba response r h d
            ∙ ap (λ (x : Bool). if x then some r.block else none) differs))
  ]
]
  where
    eq_sound : (x y : ℕ) → (x == y) ≡ true → x ≡ y
    eq_sound x y e = ground arith

pub other_answer-Coherent :
    (b : Backend) (disk : Disk) (response : Text) (now : ℕ) (e : ResponseError)
    → Coherent b disk
    → b.transfer ≡ read_transfer
    → decode_read_block_response response ≡ unreadable e
    → Coherent (accept_response b response now).0 disk
other_answer-Coherent b disk response now e v t d = elim (Bool-cases (is_err_line response)) [
  | inl h ↦ err_answer-Coherent b disk response now v t h
  | inr h ↦
      unheard-Coherent b disk response now v
        (as_read b response t ∙ unreadable_invalid b.lba response e h d)
]

write_valid :
    (t : TransferType) (lba : ℕ) (response : Text)
    → t ≡ write_transfer
    → valid_read t lba response ≡ some []
unfolding valid_read
write_valid t lba response h = ap (λ (x : TransferType). valid_read x lba response) h

carries :
    (t : TransferType) (rest : Bool) (o : Option Slot) (block : List ℕ)
    → t ≡ write_transfer
    → rest ≡ false
    → Carried t rest o block
    → CarriedIn o block
carries no_transfer rest o block e r h = ground arith
carries read_transfer rest o block e r h = ground arith
carries write_transfer true o block e r h = ground arith
carries write_transfer false o block e r h = h

awaiting_not_at_rest : (s : OperationState) → is_awaiting s ≡ true → is_at_rest s ≡ false
awaiting_not_at_rest s h = ground arith

pub written_answer-Coherent :
    (b : Backend) (disk : Disk) (response : Text) (now : ℕ)
    → Coherent b disk
    → b.transfer ≡ write_transfer
    → disk b.lba ≡ b.coordinator.operation.block
    → Coherent (accept_response b response now).0 disk
written_answer-Coherent b disk response now v t truth =
    heard-Coherent b disk response now [] v (write_valid b.transfer b.lba response t) (λ i.
      subst (λ (x : TransferType). Arrives x (slot_of b.handle b.buffers) b.lba [] disk) (sym t)
        (arrives i))
  where
    arrives :
        is_idle (accept b.coordinator response now b.client).0.state ≡ true
        → CarriedIn (slot_of b.handle b.buffers) (disk b.lba)
    arrives i =
        let (waits, success) =
          ends_with_success b disk response now v (active b write_transfer t refl) i in
        subst (CarriedIn (slot_of b.handle b.buffers)) (sym truth)
          (carries b.transfer _ _ _ t (awaiting_not_at_rest b.coordinator.state waits) v.carried)

pub unwritten_answer-Coherent :
    (b : Backend) (disk : Disk) (response : Text) (now : ℕ)
    → Coherent b disk
    → b.transfer ≡ write_transfer
    → is_no_error (client_accept_response b.client response).1 ≡ false
    → Coherent (accept_response b response now).0 disk
unwritten_answer-Coherent b disk response now v t no_success =
    heard-Coherent b disk response now [] v (write_valid b.transfer b.lba response t)
      (λ i. absurd (never i))
  where
    never : is_idle (accept b.coordinator response now b.client).0.state ≡ true → ⊥
    never i =
        let (waits, success) =
          ends_with_success b disk response now v (active b write_transfer t refl) i in
        let clash : true ≡ false = sym success ∙ no_success in ground arith

pub stray_answer-Coherent :
    (b : Backend) (disk : Disk) (response : Text) (now : ℕ)
    → Coherent b disk
    → b.transfer ≡ no_transfer
    → Coherent (accept_response b response now).0 disk
unfolding valid_read
stray_answer-Coherent b disk response now v t =
    heard-Coherent b disk response now [] v (stray_valid b.transfer b.lba t) (λ i.
      subst (λ (x : TransferType). Arrives x (slot_of b.handle b.buffers) b.lba [] disk) (sym t)
        (no_slot b.handle (v.tracked ∙ ap is_transfer t)))
  where
    stray_valid :
        (x : TransferType) (lba : ℕ) → x ≡ no_transfer → valid_read x lba response ≡ some []
    stray_valid x lba e = ap (λ (y : TransferType). valid_read y lba response) e

    no_slot : (handle : Option ℕ) → is_handle handle ≡ false → slot_of handle b.buffers ≡ none
    no_slot none e = refl
    no_slot (some h) e = ground arith
