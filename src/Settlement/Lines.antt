-- ===== src/Settlement/Lines.antt =====
-- internal/models/settlement.go and money.go: the lines that explain a reduction.
use treckrr.Prelude.{
  true_of_not, ℤ, pos, ◌+ℤ◌, ◌≈◌, ◌≡◌, Bool, true, false, not, ◌||◌, inl, inr, Bool-cases, Option,
  none, some, List, [], ◌∷◌, if◌then◌else◌, Result, ok, ◌>>=◌, ◌>>◌, refuse_if, refuse_if-ok,
  first_of_chain, ok-injective, int_laws, ==ℤ_iff, parts_of_eq, sym, ◌∙◌, ap,
}
use treckrr.Decimal.{Decimal, add_parts, zero_parts}
use treckrr.Calendar.{Date}
use treckrr.Text.{Text, text, is_empty, trim_space}

-- `SettlementLine`; its dates and texts are those of the source.
pub record SettlementLine (D : Type 0) : Type 0 where
  -- none is the zero date
  pub date : Option Date
  pub kind : Text
  pub label : Text
  pub amount : D

pub data Error : Type 0 where
  invalid_applied_settlement invalid_settlement_line lines_do_not_match : Error
  payment_metadata_missing : Error

module _ {D : Type 0} ⦃d : Decimal D⦄ where
  open d use {units, add, zero, is_negative, is_positive, equal, round_cents}

  abbrev pub has_sub_cent : D → Bool
  has_sub_cent x = not (equal x (round_cents x))

  -- `BalanceState`: settled, and credit
  abbrev pub balance_state : D → Bool × Bool
  balance_state remaining = (d.is_zero (round_cents remaining), is_negative (round_cents remaining))

  abbrev pub is_bad_line : SettlementLine D → Bool
  is_bad_line l =
      not (is_positive l.amount) || has_sub_cent l.amount || is_empty (trim_space l.label)

  -- The loop: the total of the lines.
  unfoldable pub add_lines : D → List (SettlementLine D) → Result Error D
  add_lines total [] = ok total
  add_lines total (l ∷ ls) =
      refuse_if (is_bad_line l) invalid_settlement_line >> add_lines (add total l.amount) ls

  abbrev pub summary_line : D → SettlementLine D
  summary_line applied = record {
    date = none;
    kind = text "summary";
    label = text "Zusammengefasster Ausgleich (Einzelnachweis nicht verfügbar)";
    amount = applied;
  }

  abbrev pub is_nil : Option (List (SettlementLine D)) → Bool
  is_nil none = true
  is_nil (some ls) = false

  abbrev pub lines_or_empty : Option (List (SettlementLine D)) → List (SettlementLine D)
  lines_or_empty none = []
  lines_or_empty (some ls) = ls

  -- `SettlementLines`; a nil slice is none.
  unfoldable pub settlement_lines :
      Option (List (SettlementLine D)) → D → Result Error (List (SettlementLine D))
  unfolding add_lines
  settlement_lines lines applied = do
    refuse_if (is_negative applied || has_sub_cent applied) invalid_applied_settlement
    let checked = do
      total ← add_lines zero (lines_or_empty lines)
      refuse_if (not (equal total applied)) lines_do_not_match
      ok (lines_or_empty lines)
    elim lines [
      | none ↦ if is_positive applied then ok (summary_line applied ∷ []) else checked
      | some ls ↦ checked
    ]

  abbrev pub lines_total : List (SettlementLine D) → ℤ
  lines_total [] = pos 0
  lines_total (l ∷ ls) = units l.amount +ℤ lines_total ls

  equal_value : (a b : D) → equal a b ≡ true → units a ≈ units b
  equal_value a b e = parts_of_eq ((==ℤ_iff (units a) (units b)).0 (sym (d.equal_lem a b) ∙ e))

  add_lines_total :
      (total : D) (ls : List (SettlementLine D)) {end : D}
      → add_lines total ls ≡ ok end
      → units end ≈ units total +ℤ lines_total ls
  unfolding add_lines
  add_lines_total total [] e = omega (int_laws, parts_of_eq (ap units (ok-injective e)))
  add_lines_total total (l ∷ ls) e =
      let (_, rest) = refuse_if-ok (is_bad_line l) invalid_settlement_line _ e in
      omega (int_laws, add_lines_total (add total l.amount) ls rest, add_parts total l.amount)

  checked_total :
      (ls : List (SettlementLine D)) (applied : D) {shown : List (SettlementLine D)}
      → (add_lines zero ls
          >>= (λ total. refuse_if (not (equal total applied)) lines_do_not_match >> ok ls))
        ≡ ok shown
      → lines_total shown ≈ units applied
  checked_total ls applied {shown} e =
      let (total, summed, rest) = first_of_chain _ (add_lines zero ls) e in
      let (same, returned) = refuse_if-ok (not (equal total applied)) lines_do_not_match _ rest in
      let shows = ok-injective returned in
      rw (← shows) (
        omega (
          int_laws,
          add_lines_total zero ls summed,
          zero_parts D,
          equal_value total applied (true_of_not _ same),
        ))

  -- Lines that are accepted add up to the reduction they explain, whether they were given or stand
  -- for a missing explanation.
  pub settlement_lines_total :
      (lines : Option (List (SettlementLine D))) (applied : D) {shown : List (SettlementLine D)}
      → settlement_lines lines applied ≡ ok shown
      → lines_total shown ≈ units applied
  unfolding settlement_lines
  settlement_lines_total (some ls) applied {shown} e =
      let (_, rest) =
        refuse_if-ok (is_negative applied || has_sub_cent applied) invalid_applied_settlement _ e in
      checked_total ls applied rest
  settlement_lines_total none applied {shown} e =
      let (_, rest) =
        refuse_if-ok (is_negative applied || has_sub_cent applied) invalid_applied_settlement _ e in
      elim (Bool-cases (is_positive applied)) [
        | inl whole ↦
            let one : summary_line applied ∷ [] ≡ shown = ok-injective (rw whole at rest) in
            rw (← one) (omega int_laws)
        | inr nothing ↦ checked_total [] applied (rw nothing at rest)
      ]
