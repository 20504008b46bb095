-- ===== src/Payments/Planned.antt =====
-- An installment is planned once for each form, and deleting it undoes the planning.
use treckrr.Prelude.{
  ℤ, ◌==ℤ◌, ==ℤ_refl, ==ℤ_iff, ◌≡◌, ◌≢◌, refl, sym, ap, true, false, not, ◌&&◌, Bool-cases, inl,
  inr, Option, Option-cases, none, some, List, [], ◌∷◌, ◌++◌, All, subst, Result, ok, err,
  ok-injective, first_of_chain, refuse_if-ok,
}
use treckrr.Decimal.{Decimal}
use treckrr.Calendar.{same_date_refl}
use treckrr.Text.{Text, is_empty, same_text, same_text_refl}
use treckrr.Account.Data.{Books, Error, not_found, amount_required}
use treckrr.Account.Locks.{lock_account_boundary}
use treckrr.Ledger.Operations.{round_money}
use treckrr.Payments.Replay.{same_account_refl, equal_refl}
use treckrr.Payments.Plans.{
  PlanRow, Plans, PlanInput, Planned, find_plan_key, find_plan, without_plan, delete_installment,
  is_same_plan, plan_replay_of, find_plan_replay, plan_row, appended_plan, plan_or_replay,
  add_installment_once,
}

module _ {D : Type 0} where
  find_plan_key-append :
      (key : Text) (rs : List (PlanRow D)) (r : PlanRow D)
      → find_plan_key key rs ≡ none
      → is_empty key ≡ false
      → r.form_key ≡ key
      → find_plan_key key (rs ++ (r ∷ [])) ≡ some r
  unfolding find_plan_key
  find_plan_key-append key [] r absent filled same =
      rw same (rw (filled, find_plan_key) (rw (same_text_refl key) refl))
  find_plan_key-append key (q ∷ qs) r absent filled same =
      elim (Bool-cases (not (is_empty q.form_key) && same_text q.form_key key)) [
        | inl e ↦
            let found : ◌≡◌ {A = Option (PlanRow D)} (some q) none =
              rw (e, find_plan_key) at absent in
            cc
        | inr e ↦
            rw (e, find_plan_key)
              (find_plan_key-append key qs r (rw (e, find_plan_key) at absent) filled same)
      ]

  -- The last row, whose id stands before it nowhere.
  find_plan-append :
      (rs : List (PlanRow D)) (r : PlanRow D)
      → All (λ q. q.id ≢ r.id) rs
      → find_plan r.id (rs ++ (r ∷ [])) ≡ some r
  unfolding find_plan
  find_plan-append [] r _ = rw (==ℤ_refl r.id, find_plan) refl
  find_plan-append (q ∷ qs) r (other, others) = elim (Bool-cases (q.id ==ℤ r.id)) [
    | inl e ↦ absurd (other ((==ℤ_iff q.id r.id).0 e))
    | inr e ↦ rw (e, find_plan) (find_plan-append qs r others)
  ]

  without_plan-append :
      (rs : List (PlanRow D)) (r : PlanRow D)
      → All (λ q. q.id ≢ r.id) rs
      → without_plan r.id (rs ++ (r ∷ [])) ≡ rs
  unfolding without_plan
  without_plan-append [] r _ = rw (==ℤ_refl r.id, without_plan) refl
  without_plan-append (q ∷ qs) r (other, others) = elim (Bool-cases (q.id ==ℤ r.id)) [
    | inl e ↦ absurd (other ((==ℤ_iff q.id r.id).0 e))
    | inr e ↦ rw (e, without_plan) (ap (λ rest. q ∷ rest) (without_plan-append qs r others))
  ]

module _ {D : Type 0} ⦃d : Decimal D⦄ where
  open d use {is_positive}

  is_same_plan-plan_row :
      (i : PlanInput D) (amount : D) (s : Plans D)
      → is_same_plan i amount (plan_row i amount s) ≡ true
  is_same_plan-plan_row i amount s =
      rw (same_account_refl i.account)
        (rw (equal_refl amount) (rw (same_date_refl i.due_on) (same_text_refl i.note)))

  find_plan_replay-none :
      (i : PlanInput D) (amount : D) (s : Plans D)
      → is_empty i.idempotency_key ≡ false
      → find_plan_replay i amount s ≡ ok none
      → find_plan_key i.idempotency_key s.rows ≡ none
  unfolding find_plan_replay
  find_plan_replay-none i amount s filled e =
      let e1 : plan_replay_of i amount (find_plan_key i.idempotency_key s.rows) ≡ ok none =
        rw (filled, find_plan_replay) at e in
      elim (Option-cases (find_plan_key i.idempotency_key s.rows)) [
        | inl absent ↦ absent
        | inr (r, found) ↦ absurd (no_none r (rw found at e1))
      ]
    where
      no_none : (r : PlanRow D) → plan_replay_of i amount (some r) ≡ ok none → ⊥
      no_none r h = elim (Bool-cases (is_same_plan i amount r)) [
        | inl same ↦
            let bad : ◌≡◌ {A = Result Error (Option ℤ)} (ok (some r.id)) (ok none) = rw same at h in
            cc
        | inr other ↦
            let bad : ◌≡◌ {A = Result Error (Option ℤ)} (err _) (ok none) = rw other at h in cc
      ]

  add_installment_once-found :
      (i : PlanInput D) (b : Books D) (s : Plans D) (id : ℤ)
      → not (is_positive (round_money i.amount)) ≡ false
      → find_plan_replay i (round_money i.amount) s ≡ ok (some id)
      → add_installment_once i b s ≡ ok (record { id = id; duplicate = true }, s)
  unfolding add_installment_once
  add_installment_once-found i b s id positive found =
      rw (positive, add_installment_once) (rw found refl)

  found_again :
      (i : PlanInput D) (amount : D) (s : Plans D)
      → is_empty i.idempotency_key ≡ false
      → find_plan_key i.idempotency_key s.rows ≡ none
      → find_plan_replay i amount (appended_plan i amount s) ≡ ok (some s.next_id)
  unfolding find_plan_replay
  found_again i amount s filled absent =
      let found =
        find_plan_key-append i.idempotency_key s.rows (plan_row i amount s) absent filled refl in
      rw (filled, find_plan_replay) (rw found (rw (is_same_plan-plan_row i amount s) refl))

  -- A plan that is no replay is the old one with a row at its end.
  plan_new :
      (i : PlanInput D) (amount : D) (b : Books D) (s s' : Plans D) (r : Planned)
      → plan_or_replay i amount b s none ≡ ok (r, s')
      → (s' ≡ appended_plan i amount s) × (r ≡ record { id = s.next_id; duplicate = false })
  plan_new i amount b s s' r e =
      let (present, _, e1) = first_of_chain _ (lock_account_boundary b i.account false false) e in
      let (_, e2) = refuse_if-ok (not present) not_found _ e1 in
      let same = ok-injective e2 in
      (
        sym (ap (λ (x : Planned × Plans D). x.1) same),
        sym (ap (λ (x : Planned × Plans D). x.0) same),
      )

  taken_back :
      (i : PlanInput D) (amount : D) (s : Plans D)
      → All (λ q. q.id ≢ s.next_id) s.rows
      → delete_installment s.next_id (appended_plan i amount s)
        ≡ ok (plan_row i amount s, record (appended_plan i amount s) { rows = s.rows })
  unfolding delete_installment
  taken_back i amount s unused =
      let row = plan_row i amount s in
      rw (find_plan-append s.rows row unused) (rw (without_plan-append s.rows row unused) refl)

  -- If an installment is planned under a key without an error, planning it again with the same form,
  -- whatever the books are then, reports a duplicate with the same id and changes nothing.
  pub add_installment_once_again :
      (i : PlanInput D) (b later : Books D) (s s' : Plans D) (r : Planned)
      → is_empty i.idempotency_key ≡ false
      → add_installment_once i b s ≡ ok (r, s')
      → add_installment_once i later s' ≡ ok (record { id = r.id; duplicate = true }, s')
  unfolding add_installment_once
  add_installment_once_again i b later s s' r filled e =
      let amount = round_money i.amount in
      let (positive, e1) = refuse_if-ok (not (is_positive amount)) amount_required _ e in
      let (replay, found, e2) = first_of_chain _ (find_plan_replay i amount s) e1 in
      again positive replay found e2
    where
      again :
          not (is_positive (round_money i.amount)) ≡ false
          → (replay : Option ℤ) → find_plan_replay i (round_money i.amount) s ≡ ok replay
          → plan_or_replay i (round_money i.amount) b s replay ≡ ok (r, s')
          → add_installment_once i later s' ≡ ok (record { id = r.id; duplicate = true }, s')
      again positive (some id) found e =
          subst
            (λ (x : Planned × Plans D).
              add_installment_once i later x.1 ≡ ok (record { id = x.0.id; duplicate = true }, x.1))
            (ok-injective e) (add_installment_once-found i later s id positive found)
      again positive none found e =
          let amount = round_money i.amount in
          let (rows, id) = plan_new i amount b s s' r e in
          let absent = find_plan_replay-none i amount s filled found in
          rw id (
            rw rows (
              add_installment_once-found i later (appended_plan i amount s) s.next_id positive
                (found_again i amount s filled absent)))

  -- If planning an installment succeeds and is no duplicate, and its id was not in use, deleting that id
  -- gives back the planned row and leaves the rows from before.
  pub delete_installment-add_installment_once :
      (i : PlanInput D) (b : Books D) (s s' : Plans D) (r : Planned)
      → All (λ q. q.id ≢ s.next_id) s.rows
      → add_installment_once i b s ≡ ok (r, s')
      → r.duplicate ≡ false
      → delete_installment r.id s'
        ≡ ok (plan_row i (round_money i.amount) s, record s' { rows = s.rows })
  unfolding add_installment_once
  delete_installment-add_installment_once i b s s' r unused e fresh =
      let amount = round_money i.amount in
      let (positive, e1) = refuse_if-ok (not (is_positive amount)) amount_required _ e in
      let (replay, found, e2) = first_of_chain _ (find_plan_replay i amount s) e1 in
      undone replay e2
    where
      undone :
          (replay : Option ℤ)
          → plan_or_replay i (round_money i.amount) b s replay ≡ ok (r, s')
          → delete_installment r.id s'
            ≡ ok (plan_row i (round_money i.amount) s, record s' { rows = s.rows })
      undone (some id) e =
          let repeated : r.duplicate ≡ true =
            sym (ap (λ (x : Planned × Plans D). x.0.duplicate) (ok-injective e)) in
          cc
      undone none e =
          let (rows, id) = plan_new i (round_money i.amount) b s s' r e in
          rw id (rw rows (taken_back i (round_money i.amount) s unused))
