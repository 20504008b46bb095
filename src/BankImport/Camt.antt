-- ===== src/BankImport/Camt.antt =====
-- `ParseCamt`: the entries of a camt message, a batch taken whole or not at all. The message is
-- decoded by a parameter; times are ASCII.
use treckrr.Prelude.{
  ℕ, zero, suc, ltb, Bool, true, false, not, ◌&&◌, Option, none, some, List, [], ◌∷◌, ◌++◌,
  if◌then◌else◌, Result, err,
}
use treckrr.Decimal.{Decimal}
use treckrr.Calendar.{Date}
use treckrr.Text.{Text, text, is_empty, trim_space, byte_length}
use treckrr.BankImport.Amount.{Banking, Txn, norm_iban, parse_date, set_hash, credit_amount}
use treckrr.BankImport.Csv.{Error, unreadable, no_credits, finished}

-- `camtAmt`, `camtDt`, `camtTxDtls`, `camtEntry`, `camtDoc`
pub record CamtAmt : Type 0 where
  pub value : Text
  pub ccy : Text

pub record CamtDt : Type 0 where
  pub dt : Text
  pub dt_tm : Text

pub record CamtTxDtls : Type 0 where
  pub ustrd : List Text
  pub dbtr_nm : Text
  pub dbtr_iban : Text
  pub amt : CamtAmt
  pub tx_amt : CamtAmt

pub record CamtEntry : Type 0 where
  pub amt : CamtAmt
  pub cdt_dbt_ind : Text
  pub bookg_dt : CamtDt
  pub acct_svcr_ref : Text
  pub details : List CamtTxDtls

pub record CamtDoc : Type 0 where
  pub stmt : List CamtEntry
  pub rpt : List CamtEntry
  pub ntfctn : List CamtEntry

abbrev pub entries : CamtDoc → List CamtEntry
entries doc = doc.stmt ++ (doc.rpt ++ doc.ntfctn)

-- `strings.Join(refs, " ")`
unfoldable pub join_spaced : List Text → Text
join_spaced [] = []
join_spaced (s ∷ []) = s
join_spaced (s ∷ t ∷ ts) = s ++ (text " " ++ join_spaced (t ∷ ts))

unfoldable pub take_chars : ℕ → Text → Text
take_chars zero s = []
take_chars (suc n) [] = []
take_chars (suc n) (c ∷ s) = c ∷ take_chars n s

abbrev pub entry_date : CamtDt → Text
entry_date b =
    if is_empty b.dt && not (ltb (byte_length b.dt_tm) 10) then take_chars 10 b.dt_tm else b.dt

unfoldable pub all_remittances : List CamtTxDtls → List Text
all_remittances [] = []
all_remittances (t ∷ ts) = t.ustrd ++ all_remittances ts

-- The first that is not empty.
unfoldable pub first_filled : List Text → Text
first_filled [] = []
first_filled (s ∷ ss) = if is_empty s then first_filled ss else s

abbrev pub map_details : (CamtTxDtls → Text) → List CamtTxDtls → List Text
map_details f [] = []
map_details f (t ∷ ts) = f t ∷ map_details f ts

abbrev pub is_batch : List CamtTxDtls → Bool
is_batch [] = false
is_batch (t ∷ []) = false
is_batch (t ∷ u ∷ ts) = true

module _ {D : Type 0} ⦃d : Decimal D⦄ (k : Banking D) where
  open d use {add, equal}

  -- The first amount that is filled decides.
  unfoldable pub first_amount : List CamtAmt → Option D
  unfolding credit_amount trim_space
  first_amount [] = none
  first_amount (a ∷ rest) =
      if is_empty (trim_space a.value)
      then first_amount rest
      else if k.equal_fold (trim_space a.ccy) (text "EUR")
      then credit_amount k a.value
      else none

  -- `amount`
  abbrev pub detail_amount : CamtTxDtls → Option D
  detail_amount t = first_amount (t.amt ∷ t.tx_amt ∷ [])

  -- The hash by the bank's reference, or by the content.
  abbrev pub with_reference_hash : Text → Text → Txn D → Txn D
  with_reference_hash reference suffix t =
      let ref = trim_space reference in
      if is_empty ref
      then set_hash k t
      else record t { hash = k.hex_digest (text "camt:acctsvcrref:" ++ (ref ++ suffix)) }

  abbrev pub detail_txn : CamtEntry → Date → ℕ → CamtTxDtls → D → Txn D
  detail_txn e bookg i t amount =
      with_reference_hash e.acct_svcr_ref (text "#" ++ k.digits i) (record {
        date = bookg;
        amount = amount;
        reference = trim_space (join_spaced t.ustrd);
        name = trim_space t.dbtr_nm;
        iban = norm_iban k t.dbtr_iban;
        hash = [];
      })

  -- `splitBatch`: none unless every detail states its amount
  unfoldable pub split_details : CamtEntry → Date → ℕ → List CamtTxDtls → Option (List (Txn D))
  unfolding first_amount join_spaced
  split_details e bookg i [] = some []
  split_details e bookg i (t ∷ ts) = elim (detail_amount t) [
    | none ↦ none
    | some amount ↦ elim (split_details e bookg (suc i) ts) [
      | none ↦ none
      | some rest ↦ some (detail_txn e bookg i t amount ∷ rest)
    ]
  ]

  abbrev pub or_nil : Option (List (Txn D)) → List (Txn D)
  or_nil none = []
  or_nil (some ts) = ts

  unfoldable pub split_batch : CamtEntry → Date → List (Txn D)
  unfolding split_details
  split_batch e bookg = or_nil (split_details e bookg 0 e.details)

  -- `total`
  unfoldable pub sum_amounts : D → List (Txn D) → D
  sum_amounts total [] = total
  sum_amounts total (t ∷ ts) = sum_amounts (add total t.amount) ts

  abbrev pub single_txn : CamtEntry → Date → D → Txn D
  single_txn e bookg amount = with_reference_hash e.acct_svcr_ref [] (record {
    date = bookg;
    amount = amount;
    reference = trim_space (join_spaced (all_remittances e.details));
    name = first_filled (map_details (λ t. trim_space t.dbtr_nm) e.details);
    iban = first_filled (map_details (λ t. norm_iban k t.dbtr_iban) e.details);
    hash = [];
  })

  unfoldable pub entry_credits : CamtEntry → D → List (Txn D)
  unfolding split_batch sum_amounts
  entry_credits e amount =
      let bookg = parse_date k (entry_date e.bookg_dt) in
      let split = split_batch e bookg in
      if is_batch e.details
      then (if equal (sum_amounts d.zero split) amount then split else [])
      else single_txn e bookg amount ∷ []

  abbrev pub of_amount : CamtEntry → Option D → List (Txn D)
  of_amount e none = []
  of_amount e (some amount) = entry_credits e amount

  -- One round of the loop.
  unfoldable pub camt_entry : CamtEntry → List (Txn D)
  unfolding entry_credits credit_amount trim_space
  camt_entry e =
      if k.equal_fold (trim_space e.cdt_dbt_ind) (text "CRDT")
        && k.equal_fold (trim_space e.amt.ccy) (text "EUR")
      then of_amount e (credit_amount k e.amt.value)
      else []

  unfoldable pub camt_entries : List CamtEntry → List (Txn D)
  unfolding camt_entry
  camt_entries [] = []
  camt_entries (e ∷ es) = camt_entry e ++ camt_entries es

  unfoldable pub parse_camt : (Text → Option CamtDoc) → Text → Result Error (List (Txn D))
  unfolding camt_entries
  parse_camt decode data_text = elim (decode data_text) [
    | none ↦ err unreadable
    | some doc ↦ finished k no_credits (camt_entries (entries doc))
  ]
