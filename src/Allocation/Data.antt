-- ===== src/Allocation/Data.antt =====
-- The inputs and the plan of the invoice allocation, over any exact decimals.
use treckrr.Prelude.{ℤ, Bool, List, Map}
use treckrr.Decimal.{Decimal}
use treckrr.Calendar.{Date}

pub record Invoice (D : Type 0) : Type 0 where
  pub id : ℤ
  pub issued_on : Date
  pub gross : D
  pub attached_credit : D

pub record Payment (D : Type 0) : Type 0 where
  pub id : ℤ
  pub paid_on : Date
  pub amount : D
  pub preferred_invoice_id : ℤ
  pub reversal_of_id : ℤ

pub record Input (D : Type 0) : Type 0 where
  pub invoices : List (Invoice D)
  pub payments : List (Payment D)
  pub ledger : D
  pub standalone_credits : D

pub record Planned (D : Type 0) : Type 0 where
  pub payment_id : ℤ
  pub invoice_id : ℤ
  pub amount : D

pub record Plan (D : Type 0) : Type 0 where
  pub remaining : Map D
  pub offset_applied : Map D
  pub payments : List (Planned D)
  pub unallocated_cash : D
  pub unused_offset : D
  pub account_residual : D

-- `errInvalidAllocationInput` with the text that wraps it.
pub data Error : Type 0 where
  ledger_or_credit : Error
  bad_invoice bad_payment bad_target bad_reversal : ℤ → Error

unfoldable pub whole_cents : {D : Type 0} ⦃d : Decimal D⦄ → D → Bool
whole_cents ⦃d⦄ a = d.equal a (d.round_cents a)
