-- ===== src/Invoices/Contents.antt =====
-- The frozen contents of reversals, credit notes and requests for a part payment.
use treckrr.Prelude.{ℕ, ℤ, pos, Bool, ◌&&◌, none, [], ◌∷◌, ◌++◌, map, if◌then◌else◌}
use treckrr.Decimal.{Decimal}
use treckrr.Calendar.{Date}
use treckrr.Text.{Text, text, is_empty, trim_space}
use treckrr.Account.Content.{Line, Content}

-- What the documents take from Go's libraries: the products and quotients of decimals, `%d`, and the
-- SHA-256 of a content's JSON, which leaves its field `Hash` out.
pub record Printing (D : Type 0) : Type 0 where
  pub mul : D → D → D
  pub div : D → D → D
  -- `decimal.NewFromInt`
  pub of_int : ℤ → D
  pub digits : ℕ → Text
  -- `Decimal.String`
  pub decimal_text : D → Text
  -- `invoiceContentHash`
  pub content_hash : Content D → Text

-- `time.Time{}`
abbrev pub zero_date : Date
zero_date = record { year = 1; month = 1; day = 1 }

-- `strings.TrimSpace`, with a text for nothing
unfoldable pub label_or : Text → Text → Text
unfolding trim_space
label_or default note = let label = trim_space note in if is_empty label then default else label

unfoldable pub reverse_note : Text → Text → Text
unfolding trim_space
reverse_note number reason =
    let why = trim_space reason in
    text "Storno zu Rechnung "
    ++ (number ++ (text "." ++ (if is_empty why then [] else text " Grund: " ++ (why ++ text "."))))

module _ {D : Type 0} ⦃d : Decimal D⦄ (p : Printing D) where
  open d use {zero, add, sub, neg, round_cents, is_positive}

  abbrev with_hash : Content D → Content D
  with_hash c = record c { hash = p.content_hash c }

  abbrev reverse_line : Line D → Line D
  reverse_line l = record l { cost = neg l.cost }

  unfoldable pub reverse_content : Content D → Text → Text → Content D
  unfolding reverse_note trim_space
  reverse_content c number reason = with_hash (record c {
    net = neg c.net;
    vat_amount = neg c.vat_amount;
    gross = neg c.gross;
    lines = map reverse_line c.lines;
    tax_note = trim_space (reverse_note number reason ++ (text " " ++ c.tax_note));
    skonto_pct = zero;
    skonto_until = zero_date;
  })

  -- The net part of a gross amount at a rate in percent: `gross.Div(factor).Round(2)`.
  unfoldable pub net_of : D → D → D
  net_of gross rate =
      round_cents (p.div gross (add (p.of_int (pos 1)) (p.div rate (p.of_int (pos 100)))))

  abbrev pub net_part : Bool → D → D → D
  net_part with_vat gross rate = if with_vat then net_of gross rate else gross

  abbrev pub vat_part : Bool → D → D → D
  vat_part with_vat gross rate = if with_vat then sub gross (net_of gross rate) else zero

  -- The content that `issueGutschriftTx` freezes.
  unfoldable pub gutschrift_content : Content D → D → Text → Text → Date → Content D
  unfolding net_of label_or trim_space
  gutschrift_content base reduction note number issued_on =
      let with_vat = base.show_vat && is_positive base.vat_rate in
      let net = net_part with_vat reduction base.vat_rate in
      let label = label_or (text "Entgeltminderung") note in
      with_hash (record {
        net = neg net;
        vat_rate = base.vat_rate;
        vat_amount = neg (vat_part with_vat reduction base.vat_rate);
        gross = neg reduction;
        show_vat = base.show_vat;
        tax_mode = base.tax_mode;
        tax_note =
            trim_space (label ++ (text " – § 16 UStG Entgeltminderung zu Rechnung " ++ number));
        service_from = base.service_from;
        service_to = base.service_to;
        issuer = base.issuer;
        recipient = base.recipient;
        lines =
            record {
              date = issued_on;
              label = label;
              unit = [];
              quantity = zero;
              unit_price = zero;
              cost = neg net;
            }
            ∷ [];
        payment_term_days = none;
        skonto_pct = zero;
        skonto_until = zero_date;
        hash = [];
      })
