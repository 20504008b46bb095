-- ===== src/AuditChain/Sound.antt =====
-- Sealing and verifying agree: what a batch adds to a chain is scanned without a problem.
use treckrr.Prelude.{
  true_of_not, ℤ, pos, ◌+ℤ◌, ◌-ℤ◌, ◌==ℤ◌, ◌≡◌, refl, Bool, true, false, not, ◌||◌, inl, inr,
  Bool-cases, some, List, [], ◌∷◌, ◌++◌, length, ltb, ==ℤ_iff, int_laws, sym, ap, ◌∙◌, ==ℤ_refl,
  eq_of_parts, parts_of_eq, subst,
}
use treckrr.Text.{Text, same_text, same_text_eq, same_text_refl}
use treckrr.AuditChain.Data.{Formats, Row, SealedRow, Head, ChainHead, Problem, audit_row_hash}
use treckrr.AuditChain.Seal.{
  audit_chain_of, Heads, find_head, get_head, put_head, seal_row, next_heads, seal_rows,
}
use treckrr.AuditChain.Verify.{
  Report, Scan, note_if, scan_row, scan_rows, chain_rows, verify_audit_chain_rows,
}

pub chain_rows-append :
    (c : Text) (xs ys : List SealedRow)
    → chain_rows c (xs ++ ys) ≡ chain_rows c xs ++ chain_rows c ys
unfolding chain_rows
chain_rows-append c [] ys = refl
chain_rows-append c (x ∷ xs) ys = elim (Bool-cases (same_text x.chain c)) [
  | inl e ↦ rw e (ap (λ rest. x ∷ rest) (chain_rows-append c xs ys))
  | inr e ↦ rw e (chain_rows-append c xs ys)
]

pub scan_rows-append :
    (f : Formats) (c : Text) (s : Scan) (xs ys : List SealedRow)
    → scan_rows f c s (xs ++ ys) ≡ scan_rows f c (scan_rows f c s xs) ys
unfolding scan_rows
scan_rows-append f c s [] ys = refl
scan_rows-append f c s (x ∷ xs) ys = scan_rows-append f c (scan_row f c s x) xs ys

-- Another chain's head does not move.
find_head-put_head-elsewhere :
    (c e : Text) (h : Head) (hs : Heads)
    → same_text e c ≡ false
    → find_head c (put_head e h hs) ≡ find_head c hs
unfolding find_head put_head
find_head-put_head-elsewhere c e h [] apart = refl
find_head-put_head-elsewhere c e h ((x, g) ∷ hs) apart =
    let later = find_head-put_head-elsewhere c e h hs apart in
    elim (Bool-cases (same_text x e)) [
      | inl this ↦
          let same = same_text_eq x e this in
          let out : same_text x c ≡ false = rw same apart in rw this (rw out refl)
      | inr other ↦ rw other (rw later refl)
    ]

find_head-put_head :
    (c : Text) (h g : Head) (hs : Heads)
    → find_head c hs ≡ some g
    → find_head c (put_head c h hs) ≡ some h
unfolding find_head put_head
find_head-put_head c h g [] present = cc
find_head-put_head c h g ((x, k) ∷ hs) present = elim (Bool-cases (same_text x c)) [
  | inl this ↦ rw this (rw this refl)
  | inr other ↦ rw other (rw other (find_head-put_head c h g hs (rw other at present)))
]

get_head-found : (c : Text) (g : Head) (hs : Heads) → find_head c hs ≡ some g → get_head c hs ≡ g
unfolding get_head
get_head-found c g hs e = rw (get_head, e) refl

-- Between the head of a chain and a scan that has reached it.
abbrev pub IsAt : Head → Scan → Type 0
IsAt g s = (s.expect_seq ≡ g.seq +ℤ pos 1) × (s.prev ≡ g.hash)

-- A row of the chain is scanned without a problem.
scan_row-seal_row :
    (f : Formats) (c : Text) (heads : Heads) (g : Head) (r : Row) (s : Scan)
    → audit_chain_of r.action ≡ c
    → get_head c heads ≡ g
    → IsAt g s
    → (scan_row f c s (seal_row f heads r)).report.problems ≡ s.report.problems
unfolding scan_row seal_row
scan_row-seal_row f c heads g r s this at (expected, linked) = rw this (
    rw at (
      rw (same_text_refl (audit_row_hash f c (g.seq +ℤ pos 1) g.hash r)) (
        rw linked
          (rw (same_text_refl g.hash) (rw expected (rw (==ℤ_refl (g.seq +ℤ pos 1)) refl))))))

-- What a scan of the new links of the chain `c` leaves, and the head of the chain after them.
abbrev pub IsScanned : Formats → Text → Scan → List SealedRow → Head → Type 0
IsScanned f c s links g =
    IsAt g (scan_rows f c s (chain_rows c links))
    × ((scan_rows f c s (chain_rows c links)).report.problems ≡ s.report.problems)

scan_row-IsAt :
    (f : Formats) (c : Text) (s : Scan) (r : SealedRow)
    → IsAt (record { seq = r.seq; hash = r.hash }) (scan_row f c s r)
unfolding scan_row
scan_row-IsAt f c s r = (refl, refl)

seal_row-chain :
    (f : Formats) (heads : Heads) (r : Row) → (seal_row f heads r).chain ≡ audit_chain_of r.action
unfolding seal_row
seal_row-chain f heads r = refl

find_head-next_heads :
    (c : Text) (link : SealedRow) (g : Head) (heads : Heads)
    → link.chain ≡ c
    → find_head c heads ≡ some g
    → find_head c (next_heads link heads) ≡ some (record { seq = link.seq; hash = link.hash })
find_head-next_heads c link g heads this present =
    subst
      (λ x.
        find_head x (put_head link.chain (record { seq = link.seq; hash = link.hash }) heads)
        ≡ some (record { seq = link.seq; hash = link.hash }))
      this
      (find_head-put_head link.chain (record { seq = link.seq; hash = link.hash }) g heads
        (subst (λ x. find_head x heads ≡ some g) (sym this) present))

pub scan_rows-seal_rows :
    (f : Formats) (c : Text) (rs : List Row) (heads : Heads) (g : Head) (s : Scan)
    → find_head c heads ≡ some g
    → IsAt g s
    → (g' : Head) × (find_head c (seal_rows f heads rs).1 ≡ some g')
      × IsScanned f c s (seal_rows f heads rs).0 g'
unfolding seal_rows scan_rows chain_rows
scan_rows-seal_rows f c [] heads g s present at = (g, present, (at, refl))
scan_rows-seal_rows f c (r ∷ rs) heads g s present at =
    let link = seal_row f heads r in
    let after : Head = record { seq = link.seq; hash = link.hash } in
    elim (Bool-cases (same_text link.chain c)) [
      | inl e ↦
          let this = same_text_eq link.chain c e in
          let moved = find_head-next_heads c link g heads this present in
          let clean =
            scan_row-seal_row f c heads g r s (sym (seal_row-chain f heads r) ∙ this)
              (get_head-found c g heads present) at in
          let (g', present', (at', clean')) =
            scan_rows-seal_rows f c rs (next_heads link heads) after (scan_row f c s link) moved
              (scan_row-IsAt f c s link) in
          rw e (g', present', (at', clean' ∙ clean))
      | inr e ↦
          let kept = find_head-put_head-elsewhere c link.chain after heads e ∙ present in
          let (g', present', (at', clean')) =
            scan_rows-seal_rows f c rs (next_heads link heads) g s kept at in
          rw e (g', present', (at', clean'))
    ]

pub note_if-nothing :
    (bad : Bool) (p : Problem) (ps : List Problem)
    → note_if bad p ps ≡ []
    → (bad ≡ false) × (ps ≡ [])
note_if-nothing false p ps e = (refl, e)
note_if-nothing true p [] e = cc
note_if-nothing true p (q ∷ ps) e = elim (Bool-cases (ltb (length (q ∷ ps)) 10)) [
  | inl h ↦ let longer : (q ∷ ps) ++ (p ∷ []) ≡ [] = rw h at e in cc
  | inr h ↦ let same : ◌≡◌ {A = List Problem} (q ∷ ps) [] = rw h at e in cc
]

pub or_false : (a b : Bool) → (a || b) ≡ false → (a ≡ false) × (b ≡ false)
or_false true b e = cc
or_false false b e = (refl, e)

after_last : (a b : ℤ) → (a -ℤ pos 1 ==ℤ b) ≡ true → a ≡ b +ℤ pos 1
after_last a b e =
    eq_of_parts a (b +ℤ pos 1) (omega (int_laws, parts_of_eq ((==ℤ_iff (a -ℤ pos 1) b).0 e)))

last_of : (b : ℤ) → (b +ℤ pos 1 -ℤ pos 1 ==ℤ b) ≡ true
last_of b = (==ℤ_iff (b +ℤ pos 1 -ℤ pos 1) b).1 (eq_of_parts _ b (omega int_laws))

abbrev pub fresh_report : Report
fresh_report = record { checked = 0; problems = [] }

-- Where the scan of a chain starts.
abbrev pub at_anchor : ChainHead → Scan
at_anchor hd = record {
  expect_seq = hd.anchor_seq +ℤ pos 1;
  prev = hd.anchor_hash;
  report = fresh_report;
}

-- A check without a problem has scanned to the recorded end.
pub verify_audit_chain_rows_end :
    (f : Formats) (sealed : List SealedRow) (hd : ChainHead)
    → (verify_audit_chain_rows f sealed hd fresh_report).problems ≡ []
    → IsAt
        (record { seq = hd.last_seq; hash = hd.last_hash })
        (scan_rows f hd.chain (at_anchor hd) (chain_rows hd.chain sealed))
      × ((scan_rows f hd.chain (at_anchor hd) (chain_rows hd.chain sealed)).report.problems ≡ [])
unfolding verify_audit_chain_rows
verify_audit_chain_rows_end f sealed hd clean =
    let end = scan_rows f hd.chain (at_anchor hd) (chain_rows hd.chain sealed) in
    let (no_end, before) = note_if-nothing _ _ end.report.problems clean in
    let (at_seq, at_hash) = or_false (not (end.expect_seq -ℤ pos 1 ==ℤ hd.last_seq)) _ no_end in
    (
      (
        after_last end.expect_seq hd.last_seq (true_of_not _ at_seq),
        same_text_eq end.prev hd.last_hash (true_of_not _ at_hash),
      ),
      before,
    )

pub verify_audit_chain_rows_clean :
    (f : Formats) (sealed : List SealedRow) (hd : ChainHead)
    → IsAt
        (record { seq = hd.last_seq; hash = hd.last_hash })
        (scan_rows f hd.chain (at_anchor hd) (chain_rows hd.chain sealed))
    → (scan_rows f hd.chain (at_anchor hd) (chain_rows hd.chain sealed)).report.problems ≡ []
    → (verify_audit_chain_rows f sealed hd fresh_report).problems ≡ []
unfolding verify_audit_chain_rows
verify_audit_chain_rows_clean f sealed hd (expected, linked) clean =
    rw expected (rw linked (rw (last_of hd.last_seq) (rw (same_text_refl hd.last_hash) clean)))
