-- ===== src/AuditChain/Rounds.antt =====
-- `SealAuditLog`: the rounds of sealing, on fuel. What stops them early is the context of the caller:
-- `ended n` tells whether it has ended after round `n`.
use treckrr.Prelude.{
  ℕ, zero, suc, ◌+◌, ◌*◌, ◌<◌, ◌≡◌, refl, sym, ap, ◌∙◌, arith, ltb, Bool, true, false, ◌||◌,
  Bool-cases, Option-cases, Option, none, some, inl, inr, List, [], ◌∷◌, ◌++◌, length,
  length-append, if◌then◌else◌, Result, ok, err,
}
use mathlib.Core.List.{append_assoc, append-nil}
use treckrr.Text.{Text, same_text}
use treckrr.AuditChain.Data.{Formats, Row, SealedRow, Head, Error, head_missing, audit_chains}
use treckrr.AuditChain.Seal.{
  Log, Heads, audit_seal_batch, find_head, put_head, check_heads, seal_row, next_heads, seal_rows,
  take_rows, drop_rows, seal_audit_batch,
}

-- `(total, err)`, with the log that the rounds left.
pub record Sealing : Type 0 where
  pub total : ℕ
  pub error : Option Error
  pub log : Log

unfoldable pub seal_audit_log : Formats → (ℕ → Bool) → ℕ → ℕ → Log → Option Sealing
unfolding seal_audit_batch
seal_audit_log f ended zero total log = none
seal_audit_log f ended (suc fuel) total log = elim (seal_audit_batch f log) [
  | err e ↦ some (record { total = total; error = some e; log = log })
  | ok (n, after) ↦
      let later = seal_audit_log f (λ round. ended (suc round)) fuel (total + n) after in
      if ltb n audit_seal_batch || ended zero
      then some (record { total = total + n; error = none; log = after })
      else later
]

seal_rows-append :
    (f : Formats) (heads : Heads) (rs qs : List Row)
    → seal_rows f heads (rs ++ qs) ≡ (
      (seal_rows f heads rs).0 ++ (seal_rows f (seal_rows f heads rs).1 qs).0,
      (seal_rows f (seal_rows f heads rs).1 qs).1,
    )
unfolding seal_rows
seal_rows-append f heads [] qs = refl
seal_rows-append f heads (r ∷ rs) qs =
    let rest = seal_rows-append f (next_heads (seal_row f heads r) heads) rs qs in
    ap (λ (x : List SealedRow × Heads). (seal_row f heads r ∷ x.0, x.1)) rest

take_rows-drop_rows : (n : ℕ) (rs : List Row) → take_rows n rs ++ drop_rows n rs ≡ rs
unfolding take_rows drop_rows
take_rows-drop_rows zero rs = refl
take_rows-drop_rows (suc n) [] = refl
take_rows-drop_rows (suc n) (r ∷ rs) = ap (λ rest. r ∷ rest) (take_rows-drop_rows n rs)

-- A batch that is not full leaves nothing.
drop_rows-short :
    (n : ℕ) (rs : List Row) → ltb (length (take_rows n rs)) n ≡ true → drop_rows n rs ≡ []
unfolding take_rows drop_rows
drop_rows-short zero rs short = ground arith
drop_rows-short (suc n) [] short = refl
drop_rows-short (suc n) (r ∷ rs) short = drop_rows-short n rs (ground arith)

length-drop_rows :
    (n : ℕ) (rs : List Row)
    → ltb (length (take_rows n rs)) n ≡ false
    → length rs ≡ n + length (drop_rows n rs)
unfolding take_rows drop_rows
length-drop_rows zero rs full = omega arith
length-drop_rows (suc n) [] full = ground arith
length-drop_rows (suc n) (r ∷ rs) full = omega (arith, length-drop_rows n rs (ground arith))

find_head-put_head-some :
    (c e : Text) (h g : Head) (hs : Heads)
    → find_head c hs ≡ some g
    → (k : Head) × (find_head c (put_head e h hs) ≡ some k)
unfolding find_head put_head
find_head-put_head-some c e h g [] found = cc
find_head-put_head-some c e h g ((x, j) ∷ hs) found = elim (Bool-cases (same_text x e)) [
  | inl this ↦ elim (Bool-cases (same_text x c)) [
    | inl here ↦ rw this (rw here (h, refl))
    | inr other ↦ rw this (rw other (g, rw other at found))
  ]
  | inr apart ↦ elim (Bool-cases (same_text x c)) [
    | inl here ↦ rw apart (rw here (j, refl))
    | inr other ↦ rw apart (rw other (find_head-put_head-some c e h g hs (rw other at found)))
  ]
]

-- Every chain that sealing needs has a head.
abbrev AreThere : Heads → List Text → Type 0
AreThere hs [] = Unit
AreThere hs (c ∷ cs) = ((h : Head) × (find_head c hs ≡ some h)) × AreThere hs cs

check_heads-AreThere : (hs : Heads) (cs : List Text) → check_heads hs cs ≡ ok tt → AreThere hs cs
unfolding check_heads
check_heads-AreThere hs [] e = tt
check_heads-AreThere hs (c ∷ cs) e = elim (Option-cases (find_head c hs)) [
  | inl missing ↦
      let bad : ◌≡◌ {A = Result Error (Unit {0})} (err (head_missing c)) (ok tt) =
        rw (missing, check_heads) at e in
      cc
  | inr (h, found) ↦ ((h, found), check_heads-AreThere hs cs (rw (found, check_heads) at e))
]

AreThere-check_heads : (hs : Heads) (cs : List Text) → AreThere hs cs → check_heads hs cs ≡ ok tt
unfolding check_heads
AreThere-check_heads hs [] there = refl
AreThere-check_heads hs (c ∷ cs) ((h, found), rest) =
    rw (found, check_heads) (AreThere-check_heads hs cs rest)

AreThere-put_head :
    (e : Text) (k : Head) (hs : Heads) (cs : List Text)
    → AreThere hs cs
    → AreThere (put_head e k hs) cs
AreThere-put_head e k hs [] there = tt
AreThere-put_head e k hs (c ∷ cs) ((h, found), rest) =
    (find_head-put_head-some c e k h hs found, AreThere-put_head e k hs cs rest)

AreThere-seal_rows :
    (f : Formats) (cs : List Text) (hs : Heads) (rs : List Row)
    → AreThere hs cs
    → AreThere (seal_rows f hs rs).1 cs
unfolding seal_rows
AreThere-seal_rows f cs hs [] there = there
AreThere-seal_rows f cs hs (r ∷ rs) there =
    let link = seal_row f hs r in
    AreThere-seal_rows f cs (next_heads link hs) rs
      (AreThere-put_head link.chain (record { seq = link.seq; hash = link.hash }) hs cs there)

-- The log after one pass over `rs`.
abbrev pub sealed_in_one_pass : Formats → Log → Log
sealed_in_one_pass f log = record {
  unsealed = [];
  sealed = log.sealed ++ (seal_rows f log.heads log.unsealed).0;
  heads = (seal_rows f log.heads log.unsealed).1;
}

abbrev after_batch : Formats → ℕ → Log → Log
after_batch f n log = record {
  unsealed = drop_rows n log.unsealed;
  sealed = log.sealed ++ (seal_rows f log.heads (take_rows n log.unsealed)).0;
  heads = (seal_rows f log.heads (take_rows n log.unsealed)).1;
}

seal_audit_batch_lem :
    (f : Formats) (log : Log)
    → check_heads log.heads audit_chains ≡ ok tt
    → seal_audit_batch f log
      ≡ ok (length (take_rows audit_seal_batch log.unsealed), after_batch f audit_seal_batch log)
unfolding seal_audit_batch
seal_audit_batch_lem f log there = rw there refl

-- One pass over the whole is a pass over a batch, then one over what remains.
sealed_in_one_pass-after_batch :
    (f : Formats) (n : ℕ) (log : Log)
    → sealed_in_one_pass f (after_batch f n log) ≡ sealed_in_one_pass f log
sealed_in_one_pass-after_batch f n log =
    let batch = take_rows n log.unsealed in
    let left = drop_rows n log.unsealed in
    let first = seal_rows f log.heads batch in
    let whole =
      ap (seal_rows f log.heads) (sym (take_rows-drop_rows n log.unsealed))
      ∙ seal_rows-append f log.heads batch left in
    let assoc : (log.sealed ++ first.0) ++ (seal_rows f first.1 left).0
        ≡ log.sealed ++ (seal_rows f log.heads log.unsealed).0 =
      append_assoc log.sealed first.0 (seal_rows f first.1 left).0
      ∙ ap (λ (x : List SealedRow × Heads). log.sealed ++ x.0) (sym whole) in
    let heads : (seal_rows f first.1 left).1 ≡ (seal_rows f log.heads log.unsealed).1 =
      ap (λ (x : List SealedRow × Heads). x.1) (sym whole) in
    rw assoc (rw heads refl)

one_pass-done :
    (f : Formats) (n : ℕ) (log : Log)
    → drop_rows n log.unsealed ≡ []
    → after_batch f n log ≡ sealed_in_one_pass f log
unfolding seal_rows
one_pass-done f n log done =
    let same : take_rows n log.unsealed ≡ log.unsealed =
      sym (append-nil (take_rows n log.unsealed))
      ∙ (ap (λ left. take_rows n log.unsealed ++ left) (sym done)
          ∙ take_rows-drop_rows n log.unsealed) in
    rw same (rw done refl)

abbrev finished : ℕ → Log → Option Sealing
finished total log = some (record { total = total; error = none; log = log })

length-take_rows :
    (n : ℕ) (rs : List Row) → drop_rows n rs ≡ [] → length (take_rows n rs) ≡ length rs
length-take_rows n rs done = ap length (
    sym (append-nil (take_rows n rs))
    ∙ (ap (λ left. take_rows n rs ++ left) (sym done) ∙ take_rows-drop_rows n rs))

module _ (f : Formats) where
  one_round :
      (ended : ℕ → Bool) (fuel total : ℕ) (log : Log)
      → check_heads log.heads audit_chains ≡ ok tt
      → seal_audit_log f ended (suc fuel) total log ≡ (
          if ltb (length (take_rows audit_seal_batch log.unsealed)) audit_seal_batch || ended 0
          then finished
              (total + length (take_rows audit_seal_batch log.unsealed))
              (after_batch f audit_seal_batch log)
          else seal_audit_log f
              (λ round. ended (suc round))
              fuel
              (total + length (take_rows audit_seal_batch log.unsealed))
              (after_batch f audit_seal_batch log))
  unfolding seal_audit_log
  one_round ended fuel total log there = rw (seal_audit_batch_lem f log there, seal_audit_log) refl

  rounds :
      (fuel total : ℕ) (log : Log)
      → AreThere log.heads audit_chains
      → length log.unsealed < fuel * audit_seal_batch
      → seal_audit_log f (λ round. false) fuel total log
        ≡ finished (total + length log.unsealed) (sealed_in_one_pass f log)
  rounds zero total log there enough = absurd (omega (arith, enough))
  rounds (suc fuel) total log there enough =
      let n = audit_seal_batch in
      let batch = take_rows n log.unsealed in
      let after = after_batch f n log in
      let this =
        one_round (λ round. false) fuel total log
          (AreThere-check_heads log.heads audit_chains there) in
      elim (Bool-cases (ltb (length batch) n)) [
        | inl short ↦
            let done = drop_rows-short n log.unsealed short in
            let all = length-take_rows n log.unsealed done in
            this ∙ rw short (rw all (rw (one_pass-done f n log done) refl))
        | inr full ↦
            let more = length-drop_rows n log.unsealed full in
            let later =
              rounds fuel (total + length batch) after
                (AreThere-seal_rows f audit_chains log.heads batch there)
                (omega (arith, more, enough)) in
            let count : total + length batch + length after.unsealed ≡ total + length log.unsealed =
              omega (
                arith,
                length-append batch after.unsealed,
                ap length (take_rows-drop_rows n log.unsealed),
              ) in
            this ∙ rw full (later ∙ rw count (rw (sealed_in_one_pass-after_batch f n log) refl))
      ]

  -- If the heads of the chains are there, the caller's context does not end, and the fuel, counted in
  -- batches of 2000, exceeds the number of unsealed rows, then sealing ends without an error, reports
  -- every unsealed row, leaves none, and links them as one pass over all of them in their order does.
  pub seal_audit_log-sealed_in_one_pass :
      (fuel : ℕ) (log : Log)
      → check_heads log.heads audit_chains ≡ ok tt
      → length log.unsealed < fuel * audit_seal_batch
      → seal_audit_log f (λ round. false) fuel 0 log
        ≡ some
            (record { total = length log.unsealed; error = none; log = sealed_in_one_pass f log })
  seal_audit_log-sealed_in_one_pass fuel log there enough =
      rounds fuel 0 log (check_heads-AreThere log.heads audit_chains there) enough
      ∙ ap (λ total. finished total (sealed_in_one_pass f log)) (omega arith)
