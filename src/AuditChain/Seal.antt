-- ===== src/AuditChain/Seal.antt =====
-- `sealAuditBatch`: the loop over the unsealed rows, in the order of their ids, with the heads it
-- carries along.
use treckrr.Prelude.{
  ℕ, zero, suc, pos, ◌+ℤ◌, Option, none, some, List, [], ◌∷◌, ◌++◌, length, if◌then◌else◌, Result,
  ok, err, ◌>>◌,
}
use treckrr.Text.{Text, text, same_text}
use treckrr.AuditChain.Data.{
  Formats, Row, SealedRow, Head, Error, head_missing, audit_chains, contains_text, audit_row_hash,
}

abbrev pub audit_seal_batch : ℕ
audit_seal_batch = 2000

abbrev pub short_lived_audit_actions : List Text
short_lived_audit_actions =
    text "login"
    ∷ text "login_failed"
    ∷ text "login_blocked"
    ∷ text "login_recovery"
    ∷ text "login_2fa_failed"
    ∷ text "login_passkey"
    ∷ text "login_passkey_failed"
    ∷ text "logout"
    ∷ text "rate_limited"
    ∷ text "session_revoke"
    ∷ text "session_revoke_others"
    ∷ text "backup_validate"
    ∷ text "backup_validate_failed"
    ∷ text "backup_download"
    ∷ []

unfoldable pub audit_chain_of : Text → Text
unfolding contains_text
audit_chain_of action =
    if contains_text action short_lived_audit_actions then text "short" else text "long"

-- `map[string]*head`
abbrev pub Heads : Type 0
Heads = List (Text × Head)

unfoldable pub find_head : Text → Heads → Option Head
find_head chain [] = none
find_head chain ((c, h) ∷ hs) =
    let later = find_head chain hs in if same_text c chain then some h else later

unfoldable pub put_head : Text → Head → Heads → Heads
put_head chain h [] = []
put_head chain h ((c, g) ∷ hs) =
    let later = put_head chain h hs in if same_text c chain then (c, h) ∷ hs else (c, g) ∷ later

-- `heads[chain]`, which is there
unfoldable pub get_head : Text → Heads → Head
unfolding find_head
get_head chain hs = elim (find_head chain hs) [
  | none ↦ record { seq = pos 0; hash = [] }
  | some h ↦ h
]

unfoldable pub check_heads : Heads → List Text → Result Error (Unit {0})
unfolding find_head
check_heads hs [] = ok tt
check_heads hs (chain ∷ chains) = elim (find_head chain hs) [
  | none ↦ err (head_missing chain)
  | some h ↦ check_heads hs chains
]

-- One row: its link, and the head of its chain after it.
unfoldable pub seal_row : Formats → Heads → Row → SealedRow
unfolding get_head audit_chain_of audit_row_hash
seal_row f heads r =
    let chain = audit_chain_of r.action in
    let h = get_head chain heads in
    record {
      row = r;
      chain = chain;
      seq = h.seq +ℤ pos 1;
      prev = h.hash;
      hash = audit_row_hash f chain (h.seq +ℤ pos 1) h.hash r;
    }

abbrev pub next_heads : SealedRow → Heads → Heads
next_heads s heads = put_head s.chain (record { seq = s.seq; hash = s.hash }) heads

unfoldable pub seal_rows : Formats → Heads → List Row → List SealedRow × Heads
unfolding seal_row put_head
seal_rows f heads [] = ([], heads)
seal_rows f heads (r ∷ rs) =
    let s = seal_row f heads r in
    let rest = seal_rows f (next_heads s heads) rs in (s ∷ rest.0, rest.1)

-- The two parts of `audit_log`, and the heads. The unsealed rows stand in the order of their ids.
pub record Log : Type 0 where
  pub unsealed : List Row
  pub sealed : List SealedRow
  pub heads : Heads

unfoldable pub take_rows : ℕ → List Row → List Row
take_rows zero rs = []
take_rows (suc n) [] = []
take_rows (suc n) (r ∷ rs) = r ∷ take_rows n rs

unfoldable pub drop_rows : ℕ → List Row → List Row
drop_rows zero rs = rs
drop_rows (suc n) [] = []
drop_rows (suc n) (r ∷ rs) = drop_rows n rs

unfoldable pub seal_audit_batch : Formats → Log → Result Error (ℕ × Log)
unfolding check_heads seal_rows take_rows drop_rows
seal_audit_batch f log = do
  check_heads log.heads audit_chains
  let batch = take_rows audit_seal_batch log.unsealed
  let links = seal_rows f log.heads batch
  ok (
    length batch,
    record {
      unsealed = drop_rows audit_seal_batch log.unsealed;
      sealed = log.sealed ++ links.0;
      heads = links.1;
    },
  )
