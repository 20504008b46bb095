-- ===== src/AuditChain/Verify.antt =====
-- `verifyAuditChainRows` and the checks of `VerifyAuditChain`.
use treckrr.Prelude.{
  ℕ, suc, ltb, ℤ, pos, ◌+ℤ◌, ◌-ℤ◌, ◌==ℤ◌, leb_ℤ, Bool, true, false, not, ◌||◌, ◌&&◌, Option, none,
  some, List, [], ◌∷◌, ◌++◌, length, if◌then◌else◌,
}
use treckrr.Text.{Text, same_text}
use treckrr.AuditChain.Data.{
  Formats, SealedRow, ChainHead, Problem, missing, broken_link, changed_content, wrong_end,
  backup_differs, audit_row_hash,
}

-- `AuditChainReport`
pub record Report : Type 0 where
  pub checked : ℕ
  pub problems : List Problem

abbrev pub max_audit_chain_problems : ℕ
max_audit_chain_problems = 10

-- `problem`, under the test that precedes its call
abbrev pub note_if : Bool → Problem → List Problem → List Problem
note_if false p ps = ps
note_if true p ps = if ltb (length ps) max_audit_chain_problems then ps ++ (p ∷ []) else ps

-- `expectSeq`, `prev` and the report.
pub record Scan : Type 0 where
  pub expect_seq : ℤ
  pub prev : Text
  pub report : Report

unfoldable pub scan_row : Formats → Text → Scan → SealedRow → Scan
unfolding audit_row_hash
scan_row f chain s r = record {
  expect_seq = r.seq +ℤ pos 1;
  prev = r.hash;
  report = record {
    checked = suc s.report.checked;
    problems =
        note_if (not (same_text (audit_row_hash f chain r.seq r.prev r.row) r.hash))
          (changed_content chain r.seq r.row.id)
          (note_if (not (same_text r.prev s.prev)) (broken_link chain r.seq r.row.id) (
            note_if (not (r.seq ==ℤ s.expect_seq)) (missing chain s.expect_seq r.seq)
              s.report.problems));
  };
}

unfoldable pub scan_rows : Formats → Text → Scan → List SealedRow → Scan
unfolding scan_row
scan_rows f chain s [] = s
scan_rows f chain s (r ∷ rs) = scan_rows f chain (scan_row f chain s r) rs

-- The rows of one chain; the table keeps them in the order of `chain_seq`.
unfoldable pub chain_rows : Text → List SealedRow → List SealedRow
chain_rows chain [] = []
chain_rows chain (r ∷ rs) =
    let rest = chain_rows chain rs in if same_text r.chain chain then r ∷ rest else rest

unfoldable pub verify_audit_chain_rows : Formats → List SealedRow → ChainHead → Report → Report
unfolding scan_rows chain_rows
verify_audit_chain_rows f sealed head report =
    let end =
      scan_rows f head.chain
        (record { expect_seq = head.anchor_seq +ℤ pos 1; prev = head.anchor_hash; report = report })
        (chain_rows head.chain sealed) in
    record {
      checked = end.report.checked;
      problems =
          note_if
            (not (end.expect_seq -ℤ pos 1 ==ℤ head.last_seq)
              || not (same_text end.prev head.last_hash))
            (wrong_end head.chain (end.expect_seq -ℤ pos 1) head.last_seq) end.report.problems;
    }

-- A row of `audit_chain_backup_heads`.
pub record BackupHead : Type 0 where
  pub chain : Text
  pub seq : ℤ
  pub hash : Text
  pub source : Text

-- `LEFT JOIN audit_log`: the hash at a position, none if the row is gone
unfoldable pub hash_at : Text → ℤ → List SealedRow → Option Text
hash_at chain seq [] = none
hash_at chain seq (r ∷ rs) =
    let later = hash_at chain seq rs in
    if same_text r.chain chain && (r.seq ==ℤ seq) then some r.hash else later

-- `bytes.Equal(want, got)`, where a missing row leaves `got` empty
abbrev pub same_hash : Text → Option Text → Bool
same_hash want none = same_text want []
same_hash want (some got) = same_text want got

unfoldable pub verify_backup_head :
    List SealedRow → BackupHead → ChainHead → List Problem → List Problem
unfolding hash_at
verify_backup_head sealed b head problems =
    note_if
      (same_text head.chain b.chain
        && not (leb_ℤ b.seq head.anchor_seq)
        && not (same_hash b.hash (hash_at b.chain b.seq sealed)))
      (backup_differs b.chain b.seq b.source) problems

-- The join with the heads, one after another.
unfoldable pub verify_backup_heads :
    List SealedRow → List ChainHead → List BackupHead → List Problem → List Problem
unfolding verify_backup_head
verify_backup_heads sealed heads [] problems = problems
verify_backup_heads sealed heads (b ∷ bs) problems =
    verify_backup_heads sealed heads bs (each heads problems)
  where
    each : List ChainHead → List Problem → List Problem
    each [] ps = ps
    each (h ∷ hs) ps = each hs (verify_backup_head sealed b h ps)

unfoldable pub verify_heads : Formats → List SealedRow → List ChainHead → Report → Report
unfolding verify_audit_chain_rows
verify_heads f sealed [] report = report
verify_heads f sealed (h ∷ hs) report =
    verify_heads f sealed hs (verify_audit_chain_rows f sealed h report)

-- `VerifyAuditChain`: the report that is stored on the heads.
unfoldable pub verify_audit_chain :
    Formats → List SealedRow → List ChainHead → List BackupHead → Report
unfolding verify_heads verify_backup_heads
verify_audit_chain f sealed heads backups =
    let report = verify_heads f sealed heads (record { checked = 0; problems = [] }) in
    record {
      checked = report.checked;
      problems = verify_backup_heads sealed heads backups report.problems;
    }
