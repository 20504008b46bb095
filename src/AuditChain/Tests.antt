-- ===== src/AuditChain/Tests.antt =====
-- A log with one row of each chain, sealed in one batch; the formats keep what they are given.
use treckrr.Prelude.{
  ℕ, zero, suc, ◌≢◌, ◌⊎◌, ap, arith, All, List, none, false, ℤ, pos, negsuc, ◌+ℤ◌, ◌-ℤ◌, ◌≡◌, ◌↔◌,
  refl, [], ◌∷◌, some, ok,
}
use treckrr.Text.{Text, text, same_text}
use treckrr.AuditChain.Data.{
  Formats, Row, SealedRow, Head, ChainHead, audit_chains, contains_text, audit_row_hash,
}
use treckrr.AuditChain.Seal.{Log, find_head, check_heads, seal_audit_batch}
use treckrr.AuditChain.Verify.{chain_rows, verify_audit_chain_rows}
use treckrr.AuditChain.Sound.{fresh_report}
use treckrr.AuditChain.Rounds.{
  sealed_in_one_pass, seal_audit_log, seal_audit_log-sealed_in_one_pass,
}
use treckrr.AuditChain.Tamper.{Collision, IsPrinting, verify_audit_chain_rows-chain_rows}
use treckrr.AuditChain.Links.{
  IsChain, last_of_head, moved_to, verify_audit_chain_rows-IsChain,
  seal_audit_batch-verify_audit_chain_rows,
}

abbrev plain_digits : ℤ → Text
plain_digits (pos n) = n ∷ []
plain_digits (negsuc n) = 45 ∷ n ∷ []

abbrev plain : Formats
plain = record { digest = λ s. s; hex = λ s. s; digits = plain_digits; time_text = plain_digits }

abbrev row : ℤ → Text → Row
row id action = record {
  id = id;
  username = text "anna";
  action = action;
  entity = [];
  entity_id = [];
  detail = text "x";
  ip = [];
  created_at = pos 0;
}

abbrev log : Log
log = record {
  unsealed = row (pos 1) (text "login") ∷ row (pos 2) (text "payment_add") ∷ [];
  sealed = [];
  heads =
      (text "long", record { seq = pos 0; hash = [] })
      ∷ (text "short", record { seq = pos 0; hash = [] })
      ∷ [];
}

abbrev head : ChainHead
head = record {
  chain = text "long";
  last_seq = pos 0;
  last_hash = [];
  anchor_seq = pos 0;
  anchor_hash = [];
}

abbrev link : Text → Row → SealedRow
link chain r = record {
  row = r;
  chain = chain;
  seq = pos 1;
  prev = [];
  hash = audit_row_hash plain chain (pos 1) [] r;
}

abbrev sealed_log : Log
sealed_log = record {
  unsealed = [];
  sealed =
      link (text "short") (row (pos 1) (text "login"))
      ∷ link (text "long") (row (pos 2) (text "payment_add"))
      ∷ [];
  heads =
      (
        text "long",
        record {
          seq = pos 1;
          hash = audit_row_hash plain (text "long") (pos 1) [] (row (pos 2) (text "payment_add"));
        },
      )
      ∷ (
        text "short",
        record {
          seq = pos 1;
          hash = audit_row_hash plain (text "short") (pos 1) [] (row (pos 1) (text "login"));
        },
      )
      ∷ [];
}

seals : seal_audit_batch plain log ≡ ok (2, sealed_log)
unfolding seal_audit_batch find_head contains_text same_text ◌+ℤ◌
seals = refl

checks : (verify_audit_chain_rows plain log.sealed head fresh_report).problems ≡ []
unfolding verify_audit_chain_rows same_text ◌+ℤ◌ ◌-ℤ◌
checks = refl

starts : find_head head.chain log.heads ≡ some (last_of_head head)
unfolding find_head same_text
starts = refl

seal_audit_batch-verify_audit_chain_rows_example :
    (h : Head) × (find_head head.chain sealed_log.heads ≡ some h)
    × ((verify_audit_chain_rows plain sealed_log.sealed (moved_to head h) fresh_report).problems
        ≡ [])
seal_audit_batch-verify_audit_chain_rows_example =
    seal_audit_batch-verify_audit_chain_rows plain log sealed_log 2 head checks starts seals

verify_audit_chain_rows-IsChain_example :
    ((verify_audit_chain_rows plain sealed_log.sealed head fresh_report).problems ≡ [])
    ↔ IsChain plain head.chain
        (pos 0 +ℤ pos 1)
        []
        (chain_rows head.chain sealed_log.sealed)
        (last_of_head head)
verify_audit_chain_rows-IsChain_example =
    verify_audit_chain_rows-IsChain plain sealed_log.sealed head

heads_there : check_heads log.heads audit_chains ≡ ok tt
unfolding check_heads same_text
heads_there = refl

seal_audit_log-sealed_in_one_pass_example :
    seal_audit_log plain (λ round. false) 1 0 log
    ≡ some (record { total = 2; error = none; log = sealed_in_one_pass plain log })
seal_audit_log-sealed_in_one_pass_example =
    seal_audit_log-sealed_in_one_pass plain 1 log heads_there (omega arith)

-- Digits as tallies, which tell the integers apart.
abbrev tally : ℕ → Text
tally zero = []
tally (suc n) = 49 ∷ tally n

abbrev tally_ℤ : ℤ → Text
tally_ℤ (pos n) = 48 ∷ tally n
tally_ℤ (negsuc n) = 45 ∷ tally n

abbrev tallied : Formats
tallied = record { digest = λ s. s; hex = λ s. s; digits = tally_ℤ; time_text = tally_ℤ }

tail_of : {c d : ℕ} {s t : Text} → ◌≡◌ {A = Text} (c ∷ s) (d ∷ t) → (c ≡ d) × (s ≡ t)
tail_of e = (cc, cc)

tally-injective : (m n : ℕ) → tally m ≡ tally n → m ≡ n
tally-injective zero zero e = refl
tally-injective zero (suc n) e = cc
tally-injective (suc m) zero e = cc
tally-injective (suc m) (suc n) e = ap suc (tally-injective m n (tail_of e).1)

tally_ℤ-injective : (m n : ℤ) → tally_ℤ m ≡ tally_ℤ n → m ≡ n
tally_ℤ-injective (pos m) (pos n) e = ap pos (tally-injective m n (tail_of e).1)
tally_ℤ-injective (pos m) (negsuc n) e = absurd (omega (arith, (tail_of e).0))
tally_ℤ-injective (negsuc m) (pos n) e = absurd (omega (arith, (tail_of e).0))
tally_ℤ-injective (negsuc m) (negsuc n) e = ap negsuc (tally-injective m n (tail_of e).1)

tally_plain : (n : ℕ) → All (λ c. c ≢ 58) (tally n)
tally_plain zero = tt
tally_plain (suc n) = ((λ e. omega (arith, e)), tally_plain n)

tally_ℤ_plain : (n : ℤ) → All (λ c. c ≢ 58) (tally_ℤ n)
tally_ℤ_plain (pos n) = ((λ e. omega (arith, e)), tally_plain n)
tally_ℤ_plain (negsuc n) = ((λ e. omega (arith, e)), tally_plain n)

tallied-IsPrinting : IsPrinting tallied
tallied-IsPrinting = record {
  digits-injective = tally_ℤ-injective;
  digits_plain = tally_ℤ_plain;
  hex-injective = λ s t e. e;
  time_text-injective = tally_ℤ-injective;
}

abbrev tallied_log : Log
tallied_log = sealed_in_one_pass tallied log

abbrev tallied_head : ChainHead
tallied_head = record head {
  last_seq = pos 1;
  last_hash = audit_row_hash tallied (text "long") (pos 1) [] (row (pos 2) (text "payment_add"));
}

tallied_checks :
    (verify_audit_chain_rows tallied tallied_log.sealed tallied_head fresh_report).problems ≡ []
unfolding verify_audit_chain_rows seal_audit_batch find_head contains_text same_text ◌+ℤ◌ ◌-ℤ◌
tallied_checks = refl

-- The other chain's row is gone; the head of this one checks all the same.
abbrev shortened : List SealedRow
shortened = chain_rows (text "long") tallied_log.sealed

shortened_checks :
    (verify_audit_chain_rows tallied shortened tallied_head fresh_report).problems ≡ []
unfolding verify_audit_chain_rows seal_audit_batch find_head contains_text same_text ◌+ℤ◌ ◌-ℤ◌
shortened_checks = refl

verify_audit_chain_rows-chain_rows_example :
    (chain_rows tallied_head.chain tallied_log.sealed ≡ chain_rows tallied_head.chain shortened)
    ⊎ Collision tallied
verify_audit_chain_rows-chain_rows_example =
    verify_audit_chain_rows-chain_rows tallied tallied-IsPrinting tallied_log.sealed shortened
      tallied_head tallied_checks shortened_checks
