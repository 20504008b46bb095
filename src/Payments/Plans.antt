-- ===== src/Payments/Plans.antt =====
-- `AddInstallmentOnce` and `DeleteInstallment`: the agreed installments of an account.
use treckrr.Prelude.{
  ℤ, pos, ◌+ℤ◌, ◌==ℤ◌, Bool, true, false, not, ◌&&◌, Option, none, some, List, [], ◌∷◌, ◌++◌,
  if◌then◌else◌, Result, ok, err, ◌>>=◌, ◌>>◌, refuse_if,
}
use treckrr.Decimal.{Decimal}
use treckrr.Calendar.{Date, same_date}
use treckrr.Text.{Text, is_empty, same_text}
use treckrr.Account.Data.{
  Key, same_account, Books, Error, not_found, amount_required, idempotency_conflict,
}
use treckrr.Account.Locks.{lock_account_boundary}
use treckrr.Ledger.Operations.{round_money}

-- A row of `payment_plans`; an empty key stands for NULL.
pub record PlanRow (D : Type 0) : Type 0 where
  pub id : ℤ
  pub account : Key
  pub due_on : Date
  pub amount : D
  pub note : Text
  pub form_key : Text

pub record Plans (D : Type 0) : Type 0 where
  pub rows : List (PlanRow D)
  pub next_id : ℤ

-- The form, and `id, duplicate`.
pub record PlanInput (D : Type 0) : Type 0 where
  pub account : Key
  pub amount : D
  pub due_on : Date
  pub note : Text
  pub idempotency_key : Text

pub record Planned : Type 0 where
  pub id : ℤ
  pub duplicate : Bool

module _ {D : Type 0} where
  unfoldable pub find_plan_key : Text → List (PlanRow D) → Option (PlanRow D)
  unfolding same_text
  find_plan_key key [] = none
  find_plan_key key (r ∷ rs) =
      let later = find_plan_key key rs in
      if not (is_empty r.form_key) && same_text r.form_key key then some r else later

  -- `DELETE FROM payment_plans WHERE id=$1 RETURNING …`
  unfoldable pub find_plan : ℤ → List (PlanRow D) → Option (PlanRow D)
  find_plan id [] = none
  find_plan id (r ∷ rs) = let later = find_plan id rs in if r.id ==ℤ id then some r else later

  unfoldable pub without_plan : ℤ → List (PlanRow D) → List (PlanRow D)
  without_plan id [] = []
  without_plan id (r ∷ rs) = let rest = without_plan id rs in if r.id ==ℤ id then rest else r ∷ rest

  abbrev pub deleted_plan : ℤ → Plans D → Option (PlanRow D) → Result Error (PlanRow D × Plans D)
  deleted_plan id s none = err not_found
  deleted_plan id s (some r) = ok (r, record s { rows = without_plan id s.rows })

  unfoldable pub delete_installment : ℤ → Plans D → Result Error (PlanRow D × Plans D)
  unfolding find_plan without_plan
  delete_installment id s = deleted_plan id s (find_plan id s.rows)

module _ {D : Type 0} ⦃d : Decimal D⦄ where
  open d use {is_positive, equal}

  abbrev pub is_same_plan : PlanInput D → D → PlanRow D → Bool
  is_same_plan i amount r =
      same_account r.account i.account
      && equal r.amount amount
      && same_date r.due_on i.due_on
      && same_text r.note i.note

  abbrev pub plan_replay_of : PlanInput D → D → Option (PlanRow D) → Result Error (Option ℤ)
  plan_replay_of i amount none = ok none
  plan_replay_of i amount (some r) =
      if is_same_plan i amount r then ok (some r.id) else err idempotency_conflict

  unfoldable pub find_plan_replay : PlanInput D → D → Plans D → Result Error (Option ℤ)
  unfolding find_plan_key
  find_plan_replay i amount s =
      if is_empty i.idempotency_key
      then ok none
      else plan_replay_of i amount (find_plan_key i.idempotency_key s.rows)

  abbrev pub plan_row : PlanInput D → D → Plans D → PlanRow D
  plan_row i amount s = record {
    id = s.next_id;
    account = i.account;
    due_on = i.due_on;
    amount = amount;
    note = i.note;
    form_key = i.idempotency_key;
  }

  abbrev pub appended_plan : PlanInput D → D → Plans D → Plans D
  appended_plan i amount s = record {
    rows = s.rows ++ (plan_row i amount s ∷ []);
    next_id = s.next_id +ℤ pos 1;
  }

  abbrev pub plan_or_replay :
      PlanInput D → D → Books D → Plans D → Option ℤ → Result Error (Planned × Plans D)
  plan_or_replay i amount b s (some id) = ok (record { id = id; duplicate = true }, s)
  plan_or_replay i amount b s none = do
    present ← lock_account_boundary b i.account false false
    refuse_if (not present) not_found
    ok (record { id = s.next_id; duplicate = false }, appended_plan i amount s)

  unfoldable pub add_installment_once :
      PlanInput D → Books D → Plans D → Result Error (Planned × Plans D)
  unfolding find_plan_replay
  add_installment_once i b s = do
    let amount = round_money i.amount
    refuse_if (not (is_positive amount)) amount_required
    replay ← find_plan_replay i amount s
    plan_or_replay i amount b s replay

  -- `AddInstallment`
  abbrev pub add_installment : PlanInput D → Books D → Plans D → Result Error (Planned × Plans D)
  add_installment i b s = add_installment_once (record i { idempotency_key = [] }) b s
