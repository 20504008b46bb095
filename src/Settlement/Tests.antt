-- ===== src/Settlement/Tests.antt =====
-- An invoice of three euros on which two are paid, in tenths of a cent.
use treckrr.Prelude.{
  negsuc, Result, err, List, All, ℤ, pos, ◌+ℤ◌, ◌-ℤ◌, ◌≈◌, ◌≡◌, refl, [], ◌∷◌, some, none, ok, true,
  false,
}
use treckrr.Decimal.{tenth_cents}
use treckrr.Calendar.{Date, is_zero_date}
use treckrr.Text.{Text, text, trim_space, same_text}
use treckrr.Allocation.Data.{whole_cents}
use treckrr.Allocation.Order.{compare_order, sort_by}
use treckrr.Allocation.Reversal.{allocation_net_payments, file_payments, mark_reversed, keep_net}
use treckrr.Allocation.Plan.{
  at, open_claims, apply_offsets, pay_invoice, pay_fifo, pay, pay_all, distribute, first_offset,
  plan_invoice_allocation,
}
use treckrr.Settlement.Lines.{
  add_lines, settlement_lines, summary_line, lines_total, settlement_lines_total,
}
use treckrr.Settlement.Summary.{
  InvoiceAllocation, Summary, add_paid, add_parts_of, allocation_of, summarize,
}
use treckrr.Account.Data.{Key}
use treckrr.Settlement.Inputs.{Error, Document, PaymentEntry, invoice_allocations}
use treckrr.Settlement.Accounts.{IsAccountedFor, invoice_allocations-account_worth}
use treckrr.Settlement.Worth.{account_worth}
use treckrr.Settlement.Rows.{rows_paid, rows_posted}
use treckrr.Settlement.Documents.{rows_gross}
use treckrr.Settlement.Inputs.{Inputs, summarize_all}
use treckrr.Settlement.Uses.{IsExplained, Uses, open_total, taken, explain_account_settlement_lem}
use treckrr.Settlement.Explain.{
  explain_account_settlement, explain_invoices, collect_sources, pool_of, open_usages,
  mark_reversals, by_payment, SourcePayment, Explained, offset_lines, part_lines, explain_invoice,
}

abbrev day : Date
day = record { year = 2026; month = 3; day = 9 }

unexplained : settlement_lines none (pos 2000) ≡ ok (summary_line (pos 2000) ∷ [])
unfolding settlement_lines
unexplained = refl

settlement_lines_total_example : lines_total (summary_line (pos 2000) ∷ []) ≈ pos 2000
settlement_lines_total_example = settlement_lines_total none (pos 2000) unexplained

abbrev row : InvoiceAllocation ℤ
row = record {
  invoice_id = pos 1;
  gross = pos 3000;
  attached_credit = pos 0;
  offset_applied = pos 0;
  paid = pos 2000;
  remaining = pos 1000;
  payment_parts = record { payment_id = pos 10; amount = pos 2000 } ∷ [];
}

abbrev summary : Summary ℤ
summary = record {
  invoices = row ∷ [];
  unallocated_cash = pos 0;
  unused_offset = pos 0;
  account_residual = pos 0;
}

abbrev explained : Explained ℤ
explained = record {
  lines =
      (
        pos 1,
        record {
          date = some day;
          kind = text "payment";
          label = text "Zahlung (bar)";
          amount = pos 2000;
        }
            ∷ [],
      )
      ∷ [];
  payments =
      (
        pos 10,
        record {
          parts = record { invoice_id = pos 1; invoice_number = []; amount = pos 2000 } ∷ [];
          unallocated = pos 0;
          reversed = false;
        },
      )
      ∷ [];
  open_invoices = pos 1000;
}

abbrev as_it_is : Text → Text
as_it_is s = s

abbrev cash : SourcePayment ℤ
cash = record {
  id = pos 10;
  reversal_id = pos 0;
  date = day;
  amount = pos 2000;
  method = text "bar";
}

explains : explain_account_settlement as_it_is summary [] (cash ∷ []) ≡ ok explained
unfolding explain_account_settlement explain_invoices explain_invoice collect_sources pool_of
    open_usages mark_reversals by_payment offset_lines part_lines settlement_lines add_lines
    trim_space same_text ◌+ℤ◌ ◌-ℤ◌
explains = refl

explain_account_settlement_lem_example :
    All (IsExplained explained.lines) summary.invoices
    × (pos 1000 ≈ open_total summary.invoices)
    × Uses
        (pos 10)
        (taken (pos 10) summary.invoices)
        (mark_reversals (open_usages [] (cash ∷ [])) (cash ∷ []))
        explained.payments
explain_account_settlement_lem_example =
    explain_account_settlement_lem as_it_is summary [] (cash ∷ []) (pos 10) explains (tt, tt)

abbrev here : Key
here = record { year_id = pos 1; neighbor_id = pos 7 }

-- An invoice of three euros with a credit note of fifty cents.
abbrev documents : List (Document ℤ)
documents =
    record {
      id = pos 1;
      account = here;
      is_invoice = true;
      issued_on = day;
      gross = some (pos 3000);
      reference_id = pos 0;
    }
    ∷ record {
      id = pos 2;
      account = here;
      is_invoice = false;
      issued_on = day;
      gross = some (negsuc 499);
      reference_id = pos 1;
    }
    ∷ []

abbrev sums : List (Key × ℤ)
sums = (here, pos 200) ∷ []

abbrev entries : List (PaymentEntry ℤ)
entries =
    record {
      payment = record {
        id = pos 10;
        paid_on = day;
        amount = pos 2000;
        preferred_invoice_id = pos 0;
        reversal_of_id = pos 0;
      };
      account = here;
      preferred = none;
    }
    ∷ []

abbrev value_of : Result Error (List (Key × Summary ℤ)) → List (Key × Summary ℤ)
value_of (ok x) = x
value_of (err e) = []

abbrev summaries : List (Key × Summary ℤ)
summaries = value_of (invoice_allocations documents entries sums)

reads : invoice_allocations documents entries sums ≡ ok summaries
unfolding invoice_allocations summarize plan_invoice_allocation at whole_cents is_zero_date
    compare_order sort_by allocation_net_payments file_payments mark_reversed keep_net open_claims
    apply_offsets pay_invoice pay_fifo pay pay_all distribute first_offset add_paid add_parts_of
    allocation_of ◌+ℤ◌ ◌-ℤ◌
reads = refl

invoice_allocations-account_worth_example :
    (inputs : Inputs ℤ) × (summarize_all inputs ≡ ok summaries)
    × (account_worth here inputs
        ≈ rows_gross here documents +ℤ rows_posted here sums -ℤ rows_paid here entries)
    × All IsAccountedFor summaries
invoice_allocations-account_worth_example =
    invoice_allocations-account_worth documents entries sums here reads ((refl, tt), (tt, tt))
      (tt, tt)
