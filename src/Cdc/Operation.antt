-- ===== src/Cdc/Operation.antt =====
-- shared/protocol/src/cdc_retained_operation.cpp: `CdcRetainedOperation`, the parameters of one
-- operation, kept so that a retry can issue it again. The block that a type other than WriteBlock
-- keeps is never read; `clear` zeroes it.
use pico_sdemu.Common.{ℕ, Bool, true, false, List, []}
use pico_sdemu.Cdc.Client.{
  Client, Request, refused, invalid_request, begin_get_info, begin_read_block, begin_write_block,
  begin_flush, begin_eject,
}

pub data OperationType : Type 0 where
  no_operation get_info read_block write_block flush eject : OperationType

pub record Operation : Type 0 where
  pub type : OperationType
  pub lba : ℕ
  pub block : List ℕ

abbrev pub cleared : Operation
cleared = record { type = no_operation; lba = 0; block = [] }

abbrev pub retain_get_info : Operation
retain_get_info = record { type = get_info; lba = 0; block = [] }

abbrev pub retain_read_block : ℕ → Operation
retain_read_block lba = record { type = read_block; lba = lba; block = [] }

abbrev pub retain_write_block : ℕ → List ℕ → Operation
retain_write_block lba block = record { type = write_block; lba = lba; block = block }

abbrev pub retain_flush : Operation
retain_flush = record { type = flush; lba = 0; block = [] }

abbrev pub retain_eject : Operation
retain_eject = record { type = eject; lba = 0; block = [] }

abbrev pub is_active_type : OperationType → Bool
is_active_type no_operation = false
is_active_type t = true

abbrev pub is_active : Operation → Bool
is_active o = is_active_type o.type

unfoldable pub issue_type : OperationType → ℕ → List ℕ → Client → Client × Request
issue_type get_info lba block client = begin_get_info client
issue_type read_block lba block client = begin_read_block client lba
issue_type write_block lba block client = begin_write_block client lba block
issue_type flush lba block client = begin_flush client
issue_type eject lba block client = begin_eject client
issue_type no_operation lba block client = (client, refused invalid_request)

unfoldable pub issue_operation : Operation → Client → Client × Request
unfolding issue_type
issue_operation o client = issue_type o.type o.lba o.block client
