-- ===== src/Invoices/Freed.antt =====
-- What the release of an invoice's bookings does to the sum of an account's unbilled bookings.
use treckrr.Prelude.{
  ℤ, pos, ◌+ℤ◌, ◌≈◌, int_laws, parts_of_eq, ◌≡◌, refl, Bool, true, not, ◌&&◌, Bool-cases, and_false,
  and_true, inl, inr, Option, some, none, List, [], ◌∷◌, if◌then◌else◌,
}
use treckrr.Decimal.{Decimal, add_parts, zero_parts}
use treckrr.Account.Data.{Key, same_account, EntryRow}
use treckrr.Account.Balance.{counts_entry, is_claimed, sum_where}
use treckrr.Invoices.Documents.{refers_to, release_rows}

claimed_by_one : (id : ℤ) (c : Option ℤ) → refers_to id c ≡ true → is_claimed c ≡ true
claimed_by_one id none e = cc
claimed_by_one id (some j) e = refl

module _ {D : Type 0} ⦃d : Decimal D⦄ where
  open d use {units}

  -- The bookings of the account that the invoice has claimed.
  abbrev pub claims_entry : Key → ℤ → EntryRow D → Bool
  claims_entry k id r = same_account r.account k && not r.voided && refers_to id r.claimed_by

  abbrev entry_part : (EntryRow D → Bool) → EntryRow D → ℤ
  entry_part keep r = if keep r then units r.cost else pos 0

  abbrev pub entry_total : (EntryRow D → Bool) → List (EntryRow D) → ℤ
  entry_total keep rs = units (sum_where keep (λ r. r.cost) rs)

  entry_total_cons :
      (keep : EntryRow D → Bool) (r : EntryRow D) (rs : List (EntryRow D))
      → entry_total keep (r ∷ rs) ≈ entry_part keep r +ℤ entry_total keep rs
  unfolding sum_where
  entry_total_cons keep r rs =
      let rest = sum_where keep (λ x. x.cost) rs in
      elim (Bool-cases (keep r)) [
        | inl e ↦
            let sum : entry_total keep (r ∷ rs) ≡ units (d.add r.cost rest) =
              rw (e, entry_total, sum_where) refl in
            let part : entry_part keep r ≡ units r.cost = rw e refl in
            omega (int_laws, parts_of_eq sum, parts_of_eq part, add_parts r.cost rest)
        | inr e ↦
            let sum : entry_total keep (r ∷ rs) ≡ entry_total keep rs =
              rw (e, entry_total, sum_where) refl in
            let part : entry_part keep r ≡ pos 0 = rw e refl in
            omega (int_laws, parts_of_eq sum, parts_of_eq part)
      ]

  abbrev released_row : ℤ → EntryRow D → EntryRow D
  released_row id r = if refers_to id r.claimed_by then record r { claimed_by = none } else r

  -- One booking: what it counts after its release is what it counted, or what was claimed.
  released_part :
      (k : Key) (id : ℤ) (r : EntryRow D)
      → entry_part (counts_entry k) (released_row id r)
        ≈ entry_part (counts_entry k) r +ℤ entry_part (claims_entry k id) r
  released_part k id r =
      let base = same_account r.account k && not r.voided in
      elim (Bool-cases (refers_to id r.claimed_by)) [
        | inl e ↦
            let after : entry_part (counts_entry k) (released_row id r)
                ≡ (if base then units r.cost else pos 0) =
              rw e (rw (and_true base) refl) in
            let before : entry_part (counts_entry k) r ≡ pos 0 =
              rw (claimed_by_one id r.claimed_by e) (rw (and_false base) refl) in
            let freed : entry_part (claims_entry k id) r ≡ (if base then units r.cost else pos 0) =
              rw e (rw (and_true base) refl) in
            omega (int_laws, parts_of_eq after, parts_of_eq before, parts_of_eq freed)
        | inr e ↦
            let after : entry_part (counts_entry k) (released_row id r)
                ≡ entry_part (counts_entry k) r =
              rw e refl in
            let freed : entry_part (claims_entry k id) r ≡ pos 0 =
              rw e (rw (and_false base) refl) in
            omega (int_laws, parts_of_eq after, parts_of_eq freed)
      ]

  pub entry_total-release_rows :
      (k : Key) (id : ℤ) (rs : List (EntryRow D))
      → entry_total (counts_entry k) (release_rows id rs)
        ≈ entry_total (counts_entry k) rs +ℤ entry_total (claims_entry k id) rs
  unfolding release_rows sum_where
  entry_total-release_rows k id [] = omega (int_laws, zero_parts D)
  entry_total-release_rows k id (r ∷ rs) = omega (
    int_laws,
    entry_total-release_rows k id rs,
    released_part k id r,
    entry_total_cons (counts_entry k) (released_row id r) (release_rows id rs),
    entry_total_cons (counts_entry k) r rs,
    entry_total_cons (claims_entry k id) r rs,
  )
