-- ===== src/BankImport/Statements.antt =====
-- The bounds of the amounts carried through the three formats.
use treckrr.Prelude.{
  ℕ, suc, ltb, ◌≡◌, sym, Bool, true, false, ◌||◌, ◌&&◌, Bool-cases, inl, inr, Option, Option-cases,
  none, some, List, [], ◌∷◌, subst, All, All-append, Result, ok, err, if◌then◌else◌,
}
use treckrr.Decimal.{Decimal}
use treckrr.Calendar.{Date}
use treckrr.Text.{Text, text, is_empty, trim_space, same_text}
use treckrr.BankImport.Amount.{Banking, Txn, parse_date, credit_amount}
use treckrr.BankImport.Csv.{
  Error, no_credits, has_prefix, contains_part, without_mark, count_char, csv_rows, csv_table,
  parse_csv, find_columns, is_column,
}
use treckrr.BankImport.Camt.{
  CamtDoc, CamtEntry, CamtTxDtls, CamtAmt, entries, entry_date, first_amount, detail_amount,
  detail_txn, split_details, split_batch, sum_amounts, is_batch, entry_credits, camt_entry,
  camt_entries, parse_camt,
}
use treckrr.BankImport.Mt940.{
  Line61, Mt940State, flush, open_credit, read_line, read_lines, unix_lines, split_at, drop_chars,
  parse_mt940, parse,
}
use treckrr.BankImport.Bounds.{
  IsExact, IsCreditAmount, IsCredit, some-injective, credit_amount-IsCreditAmount,
  finished-IsCredit, csv_rows-IsCredit,
}
use treckrr.BankImport.Batches.{with_reference_hash-amount}

module _ {D : Type 0} ⦃d : Decimal D⦄ (k : Banking D) (x : IsExact k) where
  first_amount-IsCreditAmount :
      (amts : List CamtAmt) (a : D) → first_amount k amts ≡ some a → IsCreditAmount a
  unfolding first_amount
  first_amount-IsCreditAmount [] a e = cc
  first_amount-IsCreditAmount (m ∷ ms) a e = elim (Bool-cases (is_empty (trim_space m.value))) [
    | inl blank ↦ first_amount-IsCreditAmount ms a (rw (blank, first_amount) at e)
    | inr filled ↦ elim (Bool-cases (k.equal_fold (trim_space m.ccy) (text "EUR"))) [
      | inl euro ↦
          credit_amount-IsCreditAmount k x m.value a
            (rw (euro, first_amount) at rw (filled, first_amount) at e)
      | inr other ↦
          let bad : ◌≡◌ {A = Option D} none (some a) =
            rw (other, first_amount) at rw (filled, first_amount) at e in
          cc
    ]
  ]

  split_details-IsCredit :
      (e : CamtEntry) (bookg : Date) (i : ℕ) (ts : List CamtTxDtls) (out : List (Txn D))
      → split_details k e bookg i ts ≡ some out
      → All IsCredit out
  unfolding split_details
  split_details-IsCredit e bookg i [] out h = subst (All IsCredit) (some-injective h) tt
  split_details-IsCredit e bookg i (t ∷ ts) out h = elim (Option-cases (detail_amount k t)) [
    | inl missing ↦
        let bad : ◌≡◌ {A = Option (List (Txn D))} none (some out) =
          rw (missing, split_details) at h in
        cc
    | inr (a, found) ↦ elim (Option-cases (split_details k e bookg (suc i) ts)) [
      | inl missing ↦
          let bad : ◌≡◌ {A = Option (List (Txn D))} none (some out) =
            rw missing at rw (found, split_details) at h in
          cc
      | inr (rest, split) ↦
          let same : ◌≡◌ {A = Option (List (Txn D))} (some (detail_txn k e bookg i t a ∷ rest))
              (some out) =
            rw split at rw (found, split_details) at h in
          subst (All IsCredit) (some-injective same) (
            subst IsCreditAmount (sym (with_reference_hash-amount k e.acct_svcr_ref _ _))
                (first_amount-IsCreditAmount (t.amt ∷ t.tx_amt ∷ []) a found),
            split_details-IsCredit e bookg (suc i) ts rest split,
          )
    ]
  ]

  split_batch-IsCredit : (e : CamtEntry) (bookg : Date) → All IsCredit (split_batch k e bookg)
  unfolding split_batch
  split_batch-IsCredit e bookg = elim (Option-cases (split_details k e bookg 0 e.details)) [
    | inl missing ↦ rw (missing, split_batch) tt
    | inr (ts, split) ↦
        rw (split, split_batch) (split_details-IsCredit e bookg 0 e.details ts split)
  ]

  entry_credits-IsCredit :
      (e : CamtEntry) (a : D) → IsCreditAmount a → All IsCredit (entry_credits k e a)
  unfolding entry_credits
  entry_credits-IsCredit e a c =
      let split = split_batch k e (parse_date k (entry_date e.bookg_dt)) in
      elim (Bool-cases (is_batch e.details)) [
        | inl batch ↦ elim (Bool-cases (d.equal (sum_amounts k d.zero split) a)) [
          | inl whole ↦
              rw (batch, entry_credits)
                (rw whole (split_batch-IsCredit e (parse_date k (entry_date e.bookg_dt))))
          | inr other ↦ rw (batch, entry_credits) (rw other tt)
        ]
        | inr single ↦
            rw (single, entry_credits)
              (subst IsCreditAmount (sym (with_reference_hash-amount k e.acct_svcr_ref [] _)) c, tt)
      ]

  camt_entry-IsCredit : (e : CamtEntry) → All IsCredit (camt_entry k e)
  unfolding camt_entry
  camt_entry-IsCredit e =
      elim (Bool-cases (
        k.equal_fold (trim_space e.cdt_dbt_ind) (text "CRDT")
        && k.equal_fold (trim_space e.amt.ccy) (text "EUR"))) [
          | inr other ↦ rw (other, camt_entry) tt
          | inl euro ↦ elim (Option-cases (credit_amount k e.amt.value)) [
            | inl missing ↦ rw (euro, camt_entry) (rw missing tt)
            | inr (a, found) ↦
                rw (euro, camt_entry)
                  (rw found (
                    entry_credits-IsCredit e a
                      (credit_amount-IsCreditAmount k x e.amt.value a found)))
          ]
        ]

  camt_entries-IsCredit : (es : List CamtEntry) → All IsCredit (camt_entries k es)
  unfolding camt_entries
  camt_entries-IsCredit [] = tt
  camt_entries-IsCredit (e ∷ es) =
      All-append IsCredit (camt_entry k e) (camt_entries k es) (camt_entry-IsCredit e)
        (camt_entries-IsCredit es)

  parse_camt-IsCredit :
      (decode : Text → Option CamtDoc) (s : Text) (out : List (Txn D))
      → parse_camt k decode s ≡ ok out
      → All IsCredit out
  unfolding parse_camt
  parse_camt-IsCredit decode s out e = elim (Option-cases (decode s)) [
    | inl missing ↦
        let bad : ◌≡◌ {A = Result Error (List (Txn D))} (err _) (ok out) =
          rw (missing, parse_camt) at e in
        cc
    | inr (doc, decoded) ↦
        finished-IsCredit k x no_credits (camt_entries k (entries doc)) out
          (camt_entries-IsCredit (entries doc)) (rw (decoded, parse_camt) at e)
  ]

  -- What the statement lines read so far have given.
  abbrev IsOpenCredit : Option (Txn D) → Type 0
  IsOpenCredit none = Unit
  IsOpenCredit (some t) = IsCredit t

  abbrev AreCredits : Mt940State D → Type 0
  AreCredits s = All IsCredit s.out × IsOpenCredit s.cur

  flush-AreCredits :
      (s : Mt940State D)
      → AreCredits s
      → All IsCredit (flush k s).out × (IsOpenCredit (flush k s).cur)
  unfolding flush
  flush-AreCredits s (done, current) = elim (Option-cases s.cur) [
    | inl nothing ↦ rw (nothing, flush) (done, rw nothing tt)
    | inr (t, still) ↦
        let credit : IsCredit t = subst IsOpenCredit still current in
        rw (still, flush) (All-append IsCredit s.out _ done (credit, tt), tt)
  ]

  open_credit-IsOpenCredit : (m : Option Line61) → IsOpenCredit (open_credit k m)
  unfolding open_credit
  open_credit-IsOpenCredit none = tt
  open_credit-IsOpenCredit (some m) = elim (Bool-cases (same_text m.mark (text "C"))) [
    | inr other ↦ rw (other, open_credit) tt
    | inl credit ↦ elim (Option-cases (credit_amount k m.amount)) [
      | inl missing ↦ rw (credit, open_credit) (rw missing tt)
      | inr (a, found) ↦
          rw (credit, open_credit) (rw found (credit_amount-IsCreditAmount k x m.amount a found))
    ]
  ]

  if_AreCredits :
      (b : Bool) (s t : Mt940State D)
      → AreCredits s
      → AreCredits t
      → AreCredits (if b then s else t)
  if_AreCredits true s t h _ = h
  if_AreCredits false s t _ h = h

  read_line-AreCredits :
      (match61 : Text → Option Line61) (s : Mt940State D) (ln : Text)
      → AreCredits s
      → AreCredits (read_line k match61 s ln)
  unfolding read_line
  read_line-AreCredits match61 s ln h =
      if_AreCredits (has_prefix (text ":61:") ln) _ _
        ((flush-AreCredits s h).0, open_credit-IsOpenCredit (match61 (drop_chars 4 ln)))
        (if_AreCredits (has_prefix (text ":86:") ln) _ _ (if_AreCredits _ _ s h h) (
          if_AreCredits _ _ _ h (
            if_AreCredits (has_prefix (text ":") ln) _ _
              (flush-AreCredits (record s { in86 = false }) h) h)))

  read_lines-AreCredits :
      (match61 : Text → Option Line61) (s : Mt940State D) (lns : List Text)
      → AreCredits s
      → AreCredits (read_lines k match61 s lns)
  unfolding read_lines
  read_lines-AreCredits match61 s [] h = h
  read_lines-AreCredits match61 s (ln ∷ lns) h =
      read_lines-AreCredits match61 (read_line k match61 s ln) lns
        (read_line-AreCredits match61 s ln h)

  parse_mt940-IsCredit :
      (match61 : Text → Option Line61) (s : Text) (out : List (Txn D))
      → parse_mt940 k match61 s ≡ ok out
      → All IsCredit out
  unfolding parse_mt940
  parse_mt940-IsCredit match61 s out e =
      let start : Mt940State D = record { out = []; cur = none; raw86 = []; in86 = false } in
      let lines = split_at 10 [] (unix_lines s) in
      finished-IsCredit k x no_credits (flush k (read_lines k match61 start lines)).out out
        (flush-AreCredits (read_lines k match61 start lines)
          (read_lines-AreCredits match61 start lines (tt, tt))).0
        e

  csv_table-IsCredit :
      (rows : List (List Text)) (out : List (Txn D)) → csv_table k rows ≡ ok out → All IsCredit out
  unfolding csv_table
  csv_table-IsCredit [] out e = cc
  csv_table-IsCredit (header ∷ []) out e = cc
  csv_table-IsCredit (header ∷ r ∷ rs) out e =
      let c = find_columns k header in
      elim (Bool-cases (is_column k c.amount && is_column k c.reference)) [
        | inl named ↦
            finished-IsCredit k x no_credits (csv_rows k c (r ∷ rs)) out
              (csv_rows-IsCredit k x c (r ∷ rs)) (rw (named, csv_table) at e)
        | inr other ↦
            let bad : ◌≡◌ {A = Result Error (List (Txn D))} (err _) (ok out) =
              rw (other, csv_table) at e in
            cc
      ]

  parse_csv-IsCredit :
      (read_all : ℕ → Text → Option (List (List Text))) (s : Text) (out : List (Txn D))
      → parse_csv k read_all s ≡ ok out
      → All IsCredit out
  unfolding parse_csv
  parse_csv-IsCredit read_all s out e =
      let t = without_mark s in
      elim (Option-cases
        (read_all (if ltb (count_char 59 t) (count_char 44 t) then 44 else 59) t)) [
          | inl missing ↦
              let bad : ◌≡◌ {A = Result Error (List (Txn D))} (err _) (ok out) =
                rw (missing, parse_csv) at e in
              cc
          | inr (rows, read) ↦ csv_table-IsCredit rows out (rw (read, parse_csv) at e)
        ]

  -- If the decimals of the library are exact, every credit that a statement yields, in whichever of the
  -- three formats, is a positive number of whole cents below a billion euros.
  pub parse-IsCredit :
      (read_all : ℕ → Text → Option (List (List Text))) (decode : Text → Option CamtDoc)
      (match61 : Text → Option Line61) (s : Text) (out : List (Txn D))
      → parse k read_all decode match61 s ≡ ok out
      → All IsCredit out
  unfolding parse
  parse-IsCredit read_all decode match61 s out e =
      let t = trim_space (without_mark s) in
      elim (Bool-cases (has_prefix (text "<?xml") t || has_prefix (text "<Document") t)) [
        | inl xml ↦ parse_camt-IsCredit decode s out (rw (xml, parse) at e)
        | inr other ↦
            elim (Bool-cases (
              has_prefix (text ":20:") t
              || has_prefix (text "{1:") t
              || contains_part (10 ∷ text ":61:") t)) [
                | inl swift ↦
                    parse_mt940-IsCredit match61 s out (rw swift at rw (other, parse) at e)
                | inr plain ↦ parse_csv-IsCredit read_all s out (rw plain at rw (other, parse) at e)
              ]
      ]
