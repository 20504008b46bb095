-- ===== src/Allocation/Tests.antt =====
-- Two invoices, an offset, a targeted payment, a reversed one and a surplus, in tenths of a cent.
use treckrr.Prelude.{All, ℤ, pos, negsuc, ◌+ℤ◌, ◌-ℤ◌, ◌≤ℤ◌, ◌≡◌, refl, inl, [], ◌∷◌, arith, ok}
use treckrr.Decimal.{tenth_cents}
use treckrr.Calendar.{Date, is_zero_date}
use treckrr.Allocation.Data.{Input, Plan, whole_cents}
use treckrr.Allocation.Order.{compare_order, sort_by}
use treckrr.Allocation.Reversal.{allocation_net_payments, file_payments, mark_reversed, keep_net}
use treckrr.Allocation.Plan.{
  at, open_claims, apply_offsets, pay_invoice, pay_fifo, pay, pay_all, distribute, first_offset,
  plan_invoice_allocation,
}
use treckrr.Allocation.Sums.{total, paid}
use treckrr.Allocation.Payments.{amounts}
use treckrr.Allocation.Claims.{claims_sum}
use treckrr.Allocation.Conservation.{IsSettled, plan-documents, plan-account, plan-cash}
use treckrr.Allocation.Exhaustion.{IsClosed, plan-IsClosed}

abbrev march : ℤ → Date
march n = record { year = 2026; month = 3; day = elim n [ pos k ↦ k | negsuc k ↦ 1 ] }

abbrev account : Input ℤ
account = record {
  invoices =
      record { id = pos 2; issued_on = march (pos 9); gross = pos 3000; attached_credit = pos 0 }
      ∷ record {
        id = pos 1;
        issued_on = march (pos 2);
        gross = pos 1000;
        attached_credit = negsuc 99;
      }
      ∷ [];
  payments =
      record {
        id = pos 11;
        paid_on = march (pos 20);
        amount = pos 2900;
        preferred_invoice_id = pos 2;
        reversal_of_id = pos 0;
      }
      ∷ record {
        id = pos 12;
        paid_on = march (pos 21);
        amount = pos 500;
        preferred_invoice_id = pos 0;
        reversal_of_id = pos 0;
      }
      ∷ record {
        id = pos 13;
        paid_on = march (pos 22);
        amount = negsuc 499;
        preferred_invoice_id = pos 0;
        reversal_of_id = pos 12;
      }
      ∷ record {
        id = pos 14;
        paid_on = march (pos 23);
        amount = pos 1000;
        preferred_invoice_id = pos 0;
        reversal_of_id = pos 0;
      }
      ∷ [];
  ledger = negsuc 199;
  standalone_credits = pos 0;
}

abbrev expected : Plan ℤ
expected = record {
  remaining = (pos 1, pos 0) ∷ (pos 2, pos 0) ∷ [];
  offset_applied = (pos 1, pos 200) ∷ (pos 2, pos 0) ∷ [];
  payments =
      record { payment_id = pos 11; invoice_id = pos 2; amount = pos 2900 }
      ∷ record { payment_id = pos 14; invoice_id = pos 1; amount = pos 700 }
      ∷ record { payment_id = pos 14; invoice_id = pos 2; amount = pos 100 }
      ∷ [];
  unallocated_cash = pos 200;
  unused_offset = pos 0;
  account_residual = negsuc 199;
}

account-plan : plan_invoice_allocation account ≡ ok expected
unfolding plan_invoice_allocation first_offset open_claims distribute apply_offsets pay_all pay
    pay_fifo pay_invoice at allocation_net_payments file_payments mark_reversed keep_net whole_cents
    compare_order sort_by is_zero_date ◌+ℤ◌ ◌-ℤ◌
account-plan = refl

plan-documents_example : All (IsSettled expected) account.invoices
plan-documents_example = plan-documents account account-plan

plan-account_example :
    total expected.remaining +ℤ expected.account_residual +ℤ amounts account.payments
    ≡ claims_sum account.invoices +ℤ account.ledger +ℤ account.standalone_credits
plan-account_example = plan-account account account-plan

plan-cash_example :
    (paid expected.payments +ℤ expected.unallocated_cash ≡ amounts account.payments)
    × (pos 0 ≤ℤ expected.unallocated_cash)
    × (pos 0 ≤ℤ expected.unused_offset)
plan-cash_example = plan-cash account account-plan

plan-IsClosed_example : All (IsClosed expected.remaining) account.invoices
plan-IsClosed_example = plan-IsClosed account account-plan (inl (omega arith))
