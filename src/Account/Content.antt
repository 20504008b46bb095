-- ===== src/Account/Content.antt =====
-- The frozen substance of a document, over any exact decimals.
use treckrr.Prelude.{ℤ, Bool, List, Option}
use treckrr.Calendar.{Date}
use treckrr.Text.{Text}

-- `InvoiceParty`
pub record Party : Type 0 where
  pub name : Text
  pub address : Text
  pub tax_id : Text
  pub iban : Text
  pub street : Text
  pub zip : Text
  pub town : Text
  pub country_code : Text
  pub order_id : Text

-- `InvoiceLine`
pub record Line (D : Type 0) : Type 0 where
  pub date : Date
  pub label : Text
  pub unit : Text
  pub quantity : D
  pub unit_price : D
  pub cost : D

-- `InvoiceContent`. The term of payment is there if it was frozen, as the table keeps it.
pub record Content (D : Type 0) : Type 0 where
  pub net : D
  pub vat_rate : D
  pub vat_amount : D
  pub gross : D
  pub show_vat : Bool
  pub tax_mode : Text
  pub tax_note : Text
  pub service_from : Date
  pub service_to : Date
  pub issuer : Party
  pub recipient : Party
  pub lines : List (Line D)
  pub payment_term_days : Option ℤ
  pub skonto_pct : D
  pub skonto_until : Date
  pub hash : Text
