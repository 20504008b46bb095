-- ===== src/Account/Samples.antt =====
-- Rows that the tests share; amounts are tenths of a cent.
use treckrr.Prelude.{ℤ, pos, false, none, some, []}
use treckrr.Calendar.{Date}
use treckrr.Text.{Text}
use treckrr.Account.Content.{Party, Content}
use treckrr.Account.Data.{Key, invoice, issued, DocumentRow}

abbrev pub sample_day : Date
sample_day = record { year = 2026; month = 5; day = 4 }

abbrev nobody : Party
nobody = record {
  name = [];
  address = [];
  tax_id = [];
  iban = [];
  street = [];
  zip = [];
  town = [];
  country_code = [];
  order_id = [];
}

-- Without VAT.
abbrev pub sample_content : ℤ → Content ℤ
sample_content gross = record {
  net = gross;
  vat_rate = pos 0;
  vat_amount = pos 0;
  gross = gross;
  show_vat = false;
  tax_mode = [];
  tax_note = [];
  service_from = sample_day;
  service_to = sample_day;
  issuer = nobody;
  recipient = nobody;
  lines = [];
  payment_term_days = none;
  skonto_pct = pos 0;
  skonto_until = sample_day;
  hash = [];
}

abbrev pub sample_invoice : ℤ → Key → Text → ℤ → DocumentRow ℤ
sample_invoice id k number gross = record {
  id = id;
  account = k;
  number = number;
  kind = invoice;
  status = issued;
  references = none;
  payment_reference = number;
  issued_on = sample_day;
  content = some (sample_content gross);
}
