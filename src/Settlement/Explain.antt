-- ===== src/Settlement/Explain.antt =====
-- `explainAccountSettlement`: the lines of each invoice and the use of each payment, from the summary
-- and the account's documents, postings and payments. `to_lower` is Go's `strings.ToLower`.
use treckrr.Prelude.{
  ℤ, pos, ◌+ℤ◌, ◌-ℤ◌, ◌≈◌, ◌≡◌, ◌==ℤ◌, Bool, true, false, not, ◌||◌, Option, none, some, List, [],
  ◌∷◌, ◌++◌, Map, lookup, insert, get_or, get_or-insert, ==ℤ_refl, if◌then◌else◌, Result, ok, err,
  ◌>>=◌, int_laws, first_of_chain, ok-injective, subst,
}
use treckrr.Decimal.{Decimal, add_parts, sub_parts}
use treckrr.Calendar.{Date}
use treckrr.Text.{Text, text, is_empty, trim_space, same_text}
use treckrr.Settlement.Lines.{
  SettlementLine, Error, payment_metadata_missing, settlement_lines, settlement_lines_total,
  lines_total,
}
use treckrr.Settlement.Summary.{Part, InvoiceAllocation, Summary}

pub data SourceKind : Type 0 where
  invoice_source credit_source ledger_source : SourceKind

-- `settlementSource`
pub record Source (D : Type 0) : Type 0 where
  pub id : ℤ
  pub reference_id : ℤ
  pub kind : SourceKind
  pub number : Text
  pub label : Text
  pub date : Date
  pub amount : D

-- `settlementPayment`
pub record SourcePayment (D : Type 0) : Type 0 where
  pub id : ℤ
  pub reversal_id : ℤ
  pub date : Date
  pub amount : D
  pub method : Text

-- `PaymentUse` and `PaymentUsage`
pub record PaymentUse (D : Type 0) : Type 0 where
  pub invoice_id : ℤ
  pub invoice_number : Text
  pub amount : D

pub record PaymentUsage (D : Type 0) : Type 0 where
  pub parts : List (PaymentUse D)
  pub unallocated : D
  pub reversed : Bool

-- What the loop over the sources collects.
pub record Sources (D : Type 0) : Type 0 where
  pub numbers : Map Text
  pub attached : Map (List (SettlementLine D))
  pub pool : List (SettlementLine D)
  pub ledger : List (SettlementLine D)
  pub ledger_net : D
  pub has_ledger_debit : Bool

-- What the loop over the invoices builds: the parts of `AccountSettlement`.
pub record Explained (D : Type 0) : Type 0 where
  pub lines : Map (List (SettlementLine D))
  pub payments : Map (PaymentUsage D)
  pub open_invoices : D

abbrev pub is_ledger : SourceKind → Bool
is_ledger ledger_source = true
is_ledger invoice_source = false
is_ledger credit_source = false

abbrev pub is_invoice_source : SourceKind → Bool
is_invoice_source invoice_source = true
is_invoice_source credit_source = false
is_invoice_source ledger_source = false

abbrev pub ledger_label : Text → Text
ledger_label label =
    if is_empty (trim_space label)
    then text "Gegenleistung / Kontoverrechnung"
    else text "Gegenleistung Nachbar: " ++ trim_space label

abbrev pub payment_label : (Text → Text) → Text → Text
payment_label to_lower method =
    let m = to_lower (trim_space method) in
    if same_text m (text "bar")
    then text "Zahlung (bar)"
    else (if same_text m (text "bank") || same_text m (text "überweisung")
        then text "Zahlung (Überweisung)"
        else (if same_text m (text "verrechnung")
            then text "Zahlung (Verrechnung)"
            else text "Zahlung"))

module _ {D : Type 0} ⦃d : Decimal D⦄ where
  open d use {zero, add, sub, neg, largest, is_negative, is_positive, equal}

  abbrev pub offset_line : Option Date → Text → D → SettlementLine D
  offset_line date label amount = record {
    date = date;
    kind = text "offset";
    label = label;
    amount = amount;
  }

  abbrev pub ledger_lines : Source D → List (SettlementLine D)
  ledger_lines s =
      if is_negative s.amount
      then offset_line (some s.date) (ledger_label s.label) (neg s.amount) ∷ []
      else []

  abbrev pub add_ledger : Source D → Sources D → Sources D
  add_ledger s acc = record acc {
    ledger_net = add acc.ledger_net s.amount;
    has_ledger_debit = acc.has_ledger_debit || is_positive s.amount;
    ledger = acc.ledger ++ ledger_lines s;
  }

  abbrev pub document_line : Source D → SettlementLine D
  document_line s =
      if is_invoice_source s.kind
      then offset_line (some s.date) (text "Historischer Rechnungsüberschuss " ++ s.number)
          (neg s.amount)
      else record {
        date = some s.date;
        kind = text "credit";
        label = text "Gutschrift " ++ s.number;
        amount = neg s.amount;
      }

  abbrev pub add_document : Source D → Sources D → Sources D
  add_document s acc =
      let numbered = record acc { numbers = insert s.id s.number acc.numbers } in
      if not (is_negative s.amount)
      then numbered
      else (if s.reference_id ==ℤ pos 0
          then record numbered { pool = acc.pool ++ (document_line s ∷ []) }
          else record numbered {
            attached =
                insert s.reference_id
                  (get_or s.reference_id [] acc.attached ++ (document_line s ∷ [])) acc.attached;
          })

  unfoldable pub collect_sources : Sources D → List (Source D) → Sources D
  collect_sources acc [] = acc
  collect_sources acc (s ∷ ss) =
      collect_sources (if is_ledger s.kind then add_ledger s acc else add_document s acc) ss

  -- The pool with what the ledger adds to it.
  unfoldable pub pool_of : Sources D → List (SettlementLine D)
  pool_of acc =
      if is_negative acc.ledger_net
      then (if acc.has_ledger_debit
          then acc.pool
            ++ (offset_line none (text "Verrechnung aus Jahreskonto (zusammengefasster Saldo)")
                  (neg acc.ledger_net)
                ∷ [])
          else acc.pool ++ acc.ledger)
      else acc.pool

  abbrev pub reversed_usage : PaymentUsage D
  reversed_usage = record { parts = []; unallocated = zero; reversed = true }

  unfoldable pub open_usages : Map (PaymentUsage D) → List (SourcePayment D) → Map (PaymentUsage D)
  open_usages m [] = m
  open_usages m (p ∷ ps) =
      open_usages
        (insert p.id (record { parts = []; unallocated = largest p.amount zero; reversed = false })
          m)
        ps

  unfoldable pub mark_reversals :
      Map (PaymentUsage D) → List (SourcePayment D) → Map (PaymentUsage D)
  mark_reversals m [] = m
  mark_reversals m (p ∷ ps) =
      let kept = mark_reversals m ps in
      let marked =
        mark_reversals (insert p.reversal_id reversed_usage (insert p.id reversed_usage m)) ps in
      if p.reversal_id ==ℤ pos 0 then kept else marked

  unfoldable pub by_payment : Map (SourcePayment D) → List (SourcePayment D) → Map (SourcePayment D)
  by_payment m [] = m
  by_payment m (p ∷ ps) = by_payment (insert p.id p m) ps

  abbrev pub total_of : List (SettlementLine D) → D
  total_of ls = go zero ls
    where
      go : D → List (SettlementLine D) → D
      go total [] = total
      go total (l ∷ ls) = go (add total l.amount) ls

  -- The lines for what offsets covered.
  abbrev pub one_line : List (SettlementLine D) → D → List (SettlementLine D)
  one_line (l ∷ []) amount = record l { amount = amount } ∷ []
  one_line ls amount =
      offset_line none (text "Verrechnung aus Jahreskonto (Einzelzuordnung nicht eindeutig)") amount
      ∷ []

  unfoldable pub offset_lines : List (SettlementLine D) → D → List (SettlementLine D)
  offset_lines pool applied =
      if not (is_positive applied)
      then []
      else (if equal applied (total_of pool) then pool else one_line pool applied)

  abbrev pub use_part : Text → ℤ → Part D → Map (PaymentUsage D) → Map (PaymentUsage D)
  use_part number invoice_id part usages =
      let usage =
        get_or part.payment_id (record { parts = []; unallocated = zero; reversed = false })
          usages in
      insert part.payment_id
        (record usage {
          parts =
              usage.parts
              ++ (record { invoice_id = invoice_id; invoice_number = number; amount = part.amount }
                  ∷ []);
          unallocated = sub usage.unallocated part.amount;
        })
        usages

module _ {D : Type 0} ⦃d : Decimal D⦄ (to_lower : Text → Text) where
  open d use {units, zero, add, sub, largest}

  -- The loop over the payment parts of one invoice.
  unfoldable pub part_lines :
      Map (SourcePayment D)
      → Text
      → ℤ
      → List (Part D)
      → List (SettlementLine D)
      → Map (PaymentUsage D)
      → Result Error (List (SettlementLine D) × Map (PaymentUsage D))
  part_lines known number invoice_id [] lines usages = ok (lines, usages)
  part_lines known number invoice_id (part ∷ parts) lines usages =
      elim (lookup part.payment_id known) [
        | none ↦ err payment_metadata_missing
        | some p ↦
            part_lines known number invoice_id parts
              (lines
                ++ (record {
                  date = some p.date;
                  kind = text "payment";
                  label = payment_label to_lower p.method;
                  amount = part.amount;
                }
                    ∷ []))
              (use_part number invoice_id part usages)
      ]

  -- One round of the loop over the invoices.
  unfoldable pub explain_invoice :
      Sources D
      → List (SettlementLine D)
      → Map (SourcePayment D)
      → InvoiceAllocation D
      → Explained D
      → Result Error (Explained D)
  unfolding offset_lines part_lines settlement_lines
  explain_invoice sources pool known a acc = do
    let lines = get_or a.invoice_id [] sources.attached ++ offset_lines pool a.offset_applied
    let number = get_or a.invoice_id [] sources.numbers
    (all, usages) ← part_lines known number a.invoice_id a.payment_parts lines acc.payments
    let applied = sub (largest a.gross zero) a.remaining
    validated ← settlement_lines (some all) applied
    ok (record {
      lines = insert a.invoice_id validated acc.lines;
      payments = usages;
      open_invoices = add acc.open_invoices a.remaining;
    })

  unfoldable pub explain_invoices :
      Sources D
      → List (SettlementLine D)
      → Map (SourcePayment D)
      → List (InvoiceAllocation D)
      → Explained D
      → Result Error (Explained D)
  unfolding explain_invoice
  explain_invoices sources pool known [] acc = ok acc
  explain_invoices sources pool known (a ∷ as') acc = do
    next ← explain_invoice sources pool known a acc
    explain_invoices sources pool known as' next

  unfoldable pub explain_account_settlement :
      Summary D → List (Source D) → List (SourcePayment D) → Result Error (Explained D)
  unfolding collect_sources pool_of open_usages mark_reversals by_payment explain_invoices
  explain_account_settlement summary sources payments =
      let collected =
        collect_sources
          (record {
            numbers = [];
            attached = [];
            pool = [];
            ledger = [];
            ledger_net = zero;
            has_ledger_debit = false;
          })
          sources in
      explain_invoices collected (pool_of collected) (by_payment [] payments) summary.invoices
        (record {
          lines = [];
          payments = mark_reversals (open_usages [] payments) payments;
          open_invoices = zero;
        })

  -- One round: the lines of its invoice, its open amount, and the lines of the others.
  pub explain_invoice_lines :
      (sources : Sources D) (pool : List (SettlementLine D)) (known : Map (SourcePayment D))
      (a : InvoiceAllocation D) (acc : Explained D) {next : Explained D}
      → explain_invoice sources pool known a acc ≡ ok next
      → (lines_total (get_or a.invoice_id [] next.lines)
          ≈ units (largest a.gross zero) -ℤ units a.remaining)
        × (units next.open_invoices ≈ units acc.open_invoices +ℤ units a.remaining)
        × ((k : ℤ) → (k ==ℤ a.invoice_id) ≡ false → get_or k [] next.lines ≡ get_or k [] acc.lines)
  unfolding explain_invoice
  explain_invoice_lines sources pool known a acc {next} e =
      let lines = get_or a.invoice_id [] sources.attached ++ offset_lines pool a.offset_applied in
      let number = get_or a.invoice_id [] sources.numbers in
      let applied = sub (largest a.gross zero) a.remaining in
      let (listed, _, checked) =
        first_of_chain _ (part_lines known number a.invoice_id a.payment_parts lines acc.payments)
          e in
      let (validated, accepted, returned) =
        first_of_chain _ (settlement_lines (some listed.0) applied) checked in
      let total = settlement_lines_total (some listed.0) applied accepted in
      let here =
        rw (==ℤ_refl a.invoice_id) at
          (get_or-insert a.invoice_id a.invoice_id [] validated acc.lines) in
      subst
        (λ (x : Explained D).
          (lines_total (get_or a.invoice_id [] x.lines)
            ≈ units (largest a.gross zero) -ℤ units a.remaining)
          × (units x.open_invoices ≈ units acc.open_invoices +ℤ units a.remaining)
          × ((k : ℤ) → (k ==ℤ a.invoice_id) ≡ false → get_or k [] x.lines ≡ get_or k [] acc.lines))
        (ok-injective returned)
        (
          rw here (omega (int_laws, total, sub_parts (largest a.gross zero) a.remaining)),
          omega (int_laws, add_parts acc.open_invoices a.remaining),
          λ k other. rw other at (get_or-insert a.invoice_id k [] validated acc.lines),
        )
