-- ===== src/AuditChain/Data.antt =====
-- The rows of the audit log and of `audit_chain_heads`. Texts and hashes are lists of bytes. What the
-- code takes from Go's libraries is the record `Formats`: SHA-256, hexadecimal and decimal digits, and
-- the printed time.
use treckrr.Prelude.{ℤ, Bool, false, ◌||◌, List, [], ◌∷◌, ◌++◌, length, pos}
use treckrr.Text.{Text, text, same_text}

pub record Formats : Type 0 where
  pub digest : Text → Text
  -- `hex.EncodeToString`
  pub hex : Text → Text
  -- `strconv.FormatInt(n, 10)`, and `%d`
  pub digits : ℤ → Text
  -- `UTC().Format(time.RFC3339Nano)` of an instant in nanoseconds
  pub time_text : ℤ → Text

-- `auditChainRow`
pub record Row : Type 0 where
  pub id : ℤ
  pub username : Text
  pub action : Text
  pub entity : Text
  pub entity_id : Text
  pub detail : Text
  pub ip : Text
  pub created_at : ℤ

-- A row with what its sealing stores.
pub record SealedRow : Type 0 where
  pub row : Row
  pub chain : Text
  pub seq : ℤ
  pub prev : Text
  pub hash : Text

-- The sealed end of a chain: `head` in `sealAuditBatch`.
pub record Head : Type 0 where
  pub seq : ℤ
  pub hash : Text

-- `AuditChainHead`, without what the last check left.
pub record ChainHead : Type 0 where
  pub chain : Text
  pub last_seq : ℤ
  pub last_hash : Text
  pub anchor_seq : ℤ
  pub anchor_hash : Text

-- The texts of the problems, with what they name.
pub data Problem : Type 0 where
  missing : Text → ℤ → ℤ → Problem
  broken_link : Text → ℤ → ℤ → Problem
  changed_content : Text → ℤ → ℤ → Problem
  wrong_end : Text → ℤ → ℤ → Problem
  backup_differs : Text → ℤ → Text → Problem

pub data Error : Type 0 where
  head_missing : Text → Error

unfoldable pub contains_text : Text → List Text → Bool
unfolding same_text
contains_text s [] = false
contains_text s (t ∷ ts) = same_text s t || contains_text s ts

abbrev pub audit_chains : List Text
audit_chains = text "short" ∷ text "long" ∷ []

-- `fmt.Fprintf(h, "%d:%s;", len(field), field)` for each field
unfoldable pub framed : Formats → List Text → Text
framed f [] = []
framed f (field ∷ fields) =
    f.digits (pos (length field)) ++ (text ":" ++ (field ++ (text ";" ++ framed f fields)))

unfoldable pub audit_row_hash : Formats → Text → ℤ → Text → Row → Text
unfolding framed
audit_row_hash f chain seq prev r = f.digest (
    framed f (
      text "treckrr-audit-v1"
      ∷ chain
      ∷ f.digits seq
      ∷ f.hex prev
      ∷ f.digits r.id
      ∷ r.username
      ∷ r.action
      ∷ r.entity
      ∷ r.entity_id
      ∷ r.detail
      ∷ r.ip
      ∷ f.time_text r.created_at
      ∷ []))
