-- ===== src/Account/Tests.antt =====
-- One open and one completed year, a neighbor with an invoice, an unbilled booking and payments.
use treckrr.Prelude.{
  ◌+◌, ◌*◌, ◌≤◌, pos_part, neg_part, Option, ℤ, pos, negsuc, ◌+ℤ◌, ◌-ℤ◌, ◌≈◌, ◌≡◌, refl, [], ◌∷◌,
  true, false, some, none, arith, ok,
}
use treckrr.Decimal.{tenth_cents}
use treckrr.Calendar.{Date}
use treckrr.Text.{Text}
use treckrr.Account.Data.{Key, Books, payment_settle, credit_payout, carry_forward}
use treckrr.Account.Samples.{sample_invoice}
use treckrr.Account.Balance.{sum_where, balance, remaining}
use treckrr.Account.Locks.{is_member, lock_account_boundary, lock_accounts, find_year}
use treckrr.Account.Operations.{
  only_invoice, insert_payment, insert_posting, add_audit, posting, CarryPreview, settle_remaining,
  payout_credit, carry_forward_confirmed, is_completed,
}
use treckrr.Account.Settlement.{
  IsWhole, settle_remaining-clears, settle_remaining-pays, settle_remaining-overshoots,
  settle_remaining_again,
}
use treckrr.Account.Payout.{payout_credit-clears, payout_credit-pays}
use treckrr.Account.Carry.{in_year, carry_forward_confirmed-moves}

abbrev today : Date
today = record { year = 2026; month = 5; day = 4 }

abbrev no_text : Text
no_text = []

-- A balance of `gross` tenths of a cent in 2025 (year 1), which has ended, and none in year 2.
abbrev books : ℤ → Books ℤ
books gross = record {
  years = record { id = pos 1; completed = true } ∷ record { id = pos 2; completed = false } ∷ [];
  neighbors = record { id = pos 7; anonymized = false } ∷ [];
  members = in_year (pos 7) (pos 1) ∷ in_year (pos 7) (pos 2) ∷ [];
  documents = sample_invoice (pos 20) (in_year (pos 7) (pos 1)) [] gross ∷ [];
  entries =
      record {
        id = pos 40;
        account = in_year (pos 7) (pos 1);
        cost = pos 2000;
        voided = false;
        claimed_by = none;
      }
      ∷ [];
  ledger = [];
  payments =
      record {
        id = pos 30;
        account = in_year (pos 7) (pos 1);
        amount = pos 2000;
        paid_on = today;
        note = no_text;
        method = no_text;
        deleted = false;
        invoice_id = none;
        form_key = [];
        preferred_invoice_id = none;
        imported = false;
        reversal = false;
      }
      ∷ [];
  audit = [];
  next_id = pos 31;
}

abbrev here : Key
here = in_year (pos 7) (pos 1)

abbrev next : Key
next = in_year (pos 7) (pos 2)

-- The payment that a settlement of `gross` books, and what it leaves.
abbrev with_payment : ℤ → ℤ → Books ℤ
with_payment gross amount =
    insert_payment
      (record {
        id = pos 31;
        account = here;
        amount = amount;
        paid_on = today;
        note = no_text;
        method = no_text;
        deleted = false;
        invoice_id = some (pos 20);
        form_key = [];
        preferred_invoice_id = none;
        imported = false;
        reversal = false;
      })
      (payment_settle (pos 31) amount today no_text) (books gross)

whole : IsWhole (books (pos 5000)) here
unfolding remaining balance sum_where ◌-ℤ◌ ◌+ℤ◌
whole = refl

settles :
    settle_remaining here today no_text no_text (books (pos 5000))
    ≡ ok (pos 5000, with_payment (pos 5000) (pos 5000))
unfolding settle_remaining remaining balance sum_where lock_account_boundary is_member only_invoice
    ◌-ℤ◌ ◌+ℤ◌
settles = refl

settles_again :
    settle_remaining here today no_text no_text (with_payment (pos 5000) (pos 5000))
    ≡ ok (pos 0, with_payment (pos 5000) (pos 5000))
unfolding settle_remaining remaining balance sum_where lock_account_boundary is_member only_invoice
    ◌-ℤ◌ ◌+ℤ◌
settles_again = refl

-- Half a cent above 50 cents is rounded up.
overshoots :
    settle_remaining here today no_text no_text (books (pos 505))
    ≡ ok (pos 510, with_payment (pos 505) (pos 510))
unfolding settle_remaining remaining balance sum_where lock_account_boundary is_member only_invoice
    ◌-ℤ◌ ◌+ℤ◌
overshoots = refl

half :
    2 * pos_part (balance (books (pos 505)) here)
      + 10
      + 2 * neg_part (remaining (books (pos 505)) here)
    ≡ 2 * pos_part (remaining (books (pos 505)) here)
      + 2 * neg_part (balance (books (pos 505)) here)
unfolding remaining balance sum_where ◌-ℤ◌ ◌+ℤ◌
half = refl

settle_remaining-clears_example :
    (pos 5000 ≡ remaining (books (pos 5000)) here)
    × (remaining (with_payment (pos 5000) (pos 5000)) next ≡ remaining (books (pos 5000)) next)
    × (2 * pos_part (balance (with_payment (pos 5000) (pos 5000)) here)
        ≤ 10 + 2 * neg_part (balance (with_payment (pos 5000) (pos 5000)) here))
    × (2 * neg_part (balance (with_payment (pos 5000) (pos 5000)) here)
        ≤ 10 + 2 * pos_part (balance (with_payment (pos 5000) (pos 5000)) here))
settle_remaining-clears_example =
    settle_remaining-clears here next today no_text no_text (books (pos 5000)) settles (omega arith)
      refl

settle_remaining-pays_example : remaining (with_payment (pos 5000) (pos 5000)) here ≡ pos 0
settle_remaining-pays_example =
    settle_remaining-pays here today no_text no_text (books (pos 5000)) settles (omega arith) whole

settle_remaining-overshoots_example :
    (pos 510 ≡ remaining (books (pos 505)) here)
    × (remaining (with_payment (pos 505) (pos 510)) here ≡ pos 0 -ℤ pos 10)
settle_remaining-overshoots_example =
    settle_remaining-overshoots here today no_text no_text (books (pos 505)) overshoots
      (omega arith) half

settle_remaining_again_example :
    ◌≡◌ {A = ℤ × Books ℤ}
      (pos 0, with_payment (pos 5000) (pos 5000))
      (pos 0, with_payment (pos 5000) (pos 5000))
settle_remaining_again_example =
    settle_remaining_again here today today no_text no_text no_text no_text (books (pos 5000)) whole
      settles settles_again

-- A credit of two euros.
owed : IsWhole (books (negsuc 1999)) here
unfolding remaining balance sum_where ◌-ℤ◌ ◌+ℤ◌
owed = refl

abbrev with_payout : Books ℤ
with_payout =
    add_audit (credit_payout (pos 31) (pos 2000) (pos 1))
      (insert_posting (posting (pos 31) here (pos 2000) no_text today []) (books (negsuc 1999)))

pays_out : payout_credit here today no_text (books (negsuc 1999)) ≡ ok (pos 2000, with_payout)
unfolding payout_credit remaining balance sum_where lock_account_boundary is_member ◌-ℤ◌ ◌+ℤ◌
pays_out = refl

payout_credit-clears_example :
    (pos 2000 ≈ pos 0 -ℤ remaining (books (negsuc 1999)) here)
    × (remaining with_payout next ≡ remaining (books (negsuc 1999)) next)
    × (2 * pos_part (balance with_payout here) ≤ 10 + 2 * neg_part (balance with_payout here))
    × (2 * neg_part (balance with_payout here) ≤ 10 + 2 * pos_part (balance with_payout here))
payout_credit-clears_example =
    payout_credit-clears here next today no_text (books (negsuc 1999)) pays_out (omega arith) refl

payout_credit-pays_example : remaining with_payout here ≡ pos 0
payout_credit-pays_example =
    payout_credit-pays here today no_text (books (negsuc 1999)) pays_out (omega arith) owed

abbrev token : Text
token = 97 ∷ []

abbrev preview : Option (CarryPreview ℤ)
preview = some (record { source = pos 5000; target = pos 0 })

abbrev with_carry : Books ℤ
with_carry = add_audit (carry_forward token (pos 5000) (pos 1) (pos 2)) (
    insert_posting (posting (pos 32) next (pos 5000) no_text today token) (
      insert_posting (posting (pos 31) here (pos 0 -ℤ pos 5000) no_text today token)
        (books (pos 5000))))

carries :
    carry_forward_confirmed token
      (pos 7)
      (pos 1)
      (pos 2)
      today
      no_text
      no_text
      preview
      (books (pos 5000))
    ≡ ok (pos 5000, with_carry)
unfolding carry_forward_confirmed remaining balance sum_where lock_accounts is_member ◌-ℤ◌ ◌+ℤ◌
carries = refl

abbrev elsewhere : Key
elsewhere = in_year (pos 9) (pos 1)

carry_forward_confirmed-moves_example :
    (is_completed (find_year (pos 2) (books (pos 5000)).years) ≡ false)
    × (pos 5000 ≈ remaining (books (pos 5000)) here)
    × (balance with_carry here
        ≈ balance (books (pos 5000)) here -ℤ remaining (books (pos 5000)) here)
    × (balance with_carry next
        ≈ balance (books (pos 5000)) next +ℤ remaining (books (pos 5000)) here)
    × (balance with_carry elsewhere ≈ balance (books (pos 5000)) elsewhere)
carry_forward_confirmed-moves_example =
    carry_forward_confirmed-moves token (pos 7) (pos 1) (pos 2) today no_text no_text preview
      (books (pos 5000)) elsewhere carries refl refl refl refl
