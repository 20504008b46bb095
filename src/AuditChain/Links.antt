-- ===== src/AuditChain/Links.antt =====
-- What a check without a problem says of a chain, and that sealing keeps a chain checked.
use treckrr.Prelude.{
  true_of_not, ℕ, ℤ, pos, ◌+ℤ◌, ◌==ℤ◌, ◌≡◌, ◌↔◌, refl, not, some, List, [], ◌∷◌, ◌++◌, ap, ◌∙◌,
  subst, ==ℤ_iff, ==ℤ_refl, ok, first_of_chain, ok-injective,
}
use treckrr.Text.{Text, same_text, same_text_eq, same_text_refl}
use treckrr.AuditChain.Data.{Formats, SealedRow, Head, ChainHead, audit_row_hash, audit_chains}
use treckrr.AuditChain.Seal.{
  Log, find_head, seal_rows, take_rows, audit_seal_batch, check_heads, seal_audit_batch,
}
use treckrr.AuditChain.Verify.{Scan, scan_row, scan_rows, chain_rows, verify_audit_chain_rows}
use treckrr.AuditChain.Sound.{
  IsAt, fresh_report, at_anchor, note_if-nothing, scan_rows-seal_rows, scan_rows-append,
  chain_rows-append, verify_audit_chain_rows_end, verify_audit_chain_rows_clean,
}

-- Rows that follow on the position `seq` and the hash `prev`, each with the hash of its content, up to
-- the head `last`.
abbrev pub IsChain : Formats → Text → ℤ → Text → List SealedRow → Head → Type 0
IsChain f c seq prev [] last = (seq ≡ last.seq +ℤ pos 1) × (prev ≡ last.hash)
IsChain f c seq prev (r ∷ rs) last =
    (r.seq ≡ seq)
    × (r.prev ≡ prev)
    × (audit_row_hash f c r.seq r.prev r.row ≡ r.hash)
    × IsChain f c (r.seq +ℤ pos 1) r.hash rs last

scan_row-nothing :
    (f : Formats) (c : Text) (s : Scan) (r : SealedRow)
    → (scan_row f c s r).report.problems ≡ []
    → (r.seq ≡ s.expect_seq)
      × (r.prev ≡ s.prev)
      × (audit_row_hash f c r.seq r.prev r.row ≡ r.hash)
      × (s.report.problems ≡ [])
unfolding scan_row
scan_row-nothing f c s r e =
    let (content, linked) =
      note_if-nothing (not (same_text (audit_row_hash f c r.seq r.prev r.row) r.hash)) _ _ e in
    let (follows, placed) = note_if-nothing (not (same_text r.prev s.prev)) _ _ linked in
    let (position, before) =
      note_if-nothing (not (r.seq ==ℤ s.expect_seq)) _ s.report.problems placed in
    (
      (==ℤ_iff r.seq s.expect_seq).0 (true_of_not _ position),
      same_text_eq r.prev s.prev (true_of_not _ follows),
      same_text_eq _ r.hash (true_of_not _ content),
      before,
    )

scan_row-linked :
    (f : Formats) (c : Text) (s : Scan) (r : SealedRow)
    → r.seq ≡ s.expect_seq
    → r.prev ≡ s.prev
    → audit_row_hash f c r.seq r.prev r.row ≡ r.hash
    → (scan_row f c s r).report.problems ≡ s.report.problems
unfolding scan_row
scan_row-linked f c s r position follows content = rw content (
    rw (same_text_refl r.hash)
      (rw follows (rw (same_text_refl s.prev) (rw position (rw (==ℤ_refl s.expect_seq) refl)))))

scanned :
    (f : Formats) (c : Text) (s : Scan) (r : SealedRow) (rs : List SealedRow) (last : Head)
    → IsChain f c (scan_row f c s r).expect_seq (scan_row f c s r).prev rs last
    → IsChain f c (r.seq +ℤ pos 1) r.hash rs last
unfolding scan_row
scanned f c s r rs last chain = chain

scan_rows-IsChain :
    (f : Formats) (c : Text) (s : Scan) (rows : List SealedRow) (last : Head)
    → (scan_rows f c s rows).report.problems ≡ []
    → IsAt last (scan_rows f c s rows)
    → IsChain f c s.expect_seq s.prev rows last × (s.report.problems ≡ [])
unfolding scan_rows
scan_rows-IsChain f c s [] last clean end = (end, clean)
scan_rows-IsChain f c s (r ∷ rs) last clean end =
    let (rest, here) = scan_rows-IsChain f c (scan_row f c s r) rs last clean end in
    let (position, follows, content, before) = scan_row-nothing f c s r here in
    ((position, follows, content, scanned f c s r rs last rest), before)

IsChain-scan_rows :
    (f : Formats) (c : Text) (s : Scan) (rows : List SealedRow) (last : Head)
    → IsChain f c s.expect_seq s.prev rows last
    → IsAt last (scan_rows f c s rows)
      × ((scan_rows f c s rows).report.problems ≡ s.report.problems)
unfolding scan_rows scan_row
IsChain-scan_rows f c s [] last end = (end, refl)
IsChain-scan_rows f c s (r ∷ rs) last (position, follows, content, rest) =
    let (end, clean) = IsChain-scan_rows f c (scan_row f c s r) rs last rest in
    (end, clean ∙ scan_row-linked f c s r position follows content)

abbrev pub last_of_head : ChainHead → Head
last_of_head hd = record { seq = hd.last_seq; hash = hd.last_hash }

-- Checking the rows of a chain against its head finds no problem exactly if the rows, in their order,
-- carry consecutive positions from the anchor on, each names the hash of the row before it and stores
-- the hash of its own content, and the last position and hash are those of the head.
pub verify_audit_chain_rows-IsChain :
    (f : Formats) (sealed : List SealedRow) (hd : ChainHead)
    → ((verify_audit_chain_rows f sealed hd fresh_report).problems ≡ [])
      ↔ IsChain f hd.chain
          (hd.anchor_seq +ℤ pos 1)
          hd.anchor_hash
          (chain_rows hd.chain sealed)
          (last_of_head hd)
verify_audit_chain_rows-IsChain f sealed hd = (forward, backward)
  where
    forward :
        (verify_audit_chain_rows f sealed hd fresh_report).problems ≡ []
        → IsChain f hd.chain
            (hd.anchor_seq +ℤ pos 1)
            hd.anchor_hash
            (chain_rows hd.chain sealed)
            (last_of_head hd)
    forward clean =
        let (end, none_found) = verify_audit_chain_rows_end f sealed hd clean in
        (scan_rows-IsChain f hd.chain (at_anchor hd) (chain_rows hd.chain sealed) (last_of_head hd)
          none_found end).0

    backward :
        IsChain f hd.chain
          (hd.anchor_seq +ℤ pos 1)
          hd.anchor_hash
          (chain_rows hd.chain sealed)
          (last_of_head hd)
        → (verify_audit_chain_rows f sealed hd fresh_report).problems ≡ []
    backward chain =
        let (end, clean) =
          IsChain-scan_rows f hd.chain (at_anchor hd) (chain_rows hd.chain sealed) (last_of_head hd)
            chain in
        verify_audit_chain_rows_clean f sealed hd end clean

abbrev pub moved_to : ChainHead → Head → ChainHead
moved_to hd h = record hd { last_seq = h.seq; last_hash = h.hash }

-- If a chain checks without a problem against its head, the head is the one that sealing starts from,
-- and a batch is sealed, then the chain checks without a problem against the head that the batch left.
pub seal_audit_batch-verify_audit_chain_rows :
    (f : Formats) (log log' : Log) (n : ℕ) (hd : ChainHead)
    → (verify_audit_chain_rows f log.sealed hd fresh_report).problems ≡ []
    → find_head hd.chain log.heads ≡ some (last_of_head hd)
    → seal_audit_batch f log ≡ ok (n, log')
    → (h : Head) × (find_head hd.chain log'.heads ≡ some h)
      × ((verify_audit_chain_rows f log'.sealed (moved_to hd h) fresh_report).problems ≡ [])
unfolding seal_audit_batch
seal_audit_batch-verify_audit_chain_rows f log log' n hd clean present e =
    let (_, _, returned) = first_of_chain _ (check_heads log.heads audit_chains) e in
    let same = ap (λ (r : ℕ × Log). r.1) (ok-injective returned) in
    let batch = take_rows audit_seal_batch log.unsealed in
    let links = (seal_rows f log.heads batch).0 in
    let c = hd.chain in
    let before = scan_rows f c (at_anchor hd) (chain_rows c log.sealed) in
    let (end, nothing) = verify_audit_chain_rows_end f log.sealed hd clean in
    let (h, present', (end', clean')) =
      scan_rows-seal_rows f c batch log.heads (last_of_head hd) before present end in
    let rows : chain_rows c (log.sealed ++ links) ≡ chain_rows c log.sealed ++ chain_rows c links =
      chain_rows-append c log.sealed links in
    let whole : scan_rows f c (at_anchor hd) (chain_rows c (log.sealed ++ links))
        ≡ scan_rows f c before (chain_rows c links) =
      ap (scan_rows f c (at_anchor hd)) rows
      ∙ scan_rows-append f c (at_anchor hd) (chain_rows c log.sealed) (chain_rows c links) in
    let checked =
      verify_audit_chain_rows_clean f (log.sealed ++ links) (moved_to hd h) (rw whole end')
        (rw whole (clean' ∙ nothing)) in
    (
      h,
      subst (λ (l : Log). find_head c l.heads ≡ some h) same present',
      subst
          (λ (l : Log).
            (verify_audit_chain_rows f l.sealed (moved_to hd h) fresh_report).problems ≡ [])
          same checked,
    )
