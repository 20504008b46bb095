-- ===== src/Login/Totp.antt =====
-- `ValidateStep`: the codes of the step now and of the two beside it. The code of a step is RFC 6238's,
-- from HMAC-SHA1 and base32, which the program takes from Go's libraries; it is a parameter, none for a
-- secret that is not base32. A step is an unsigned 64-bit number.
use mathlib.Core.List.{Memᴰ}
use treckrr.Prelude.{
  ℕ, ◌+◌, ◌%◌, ◌≤◌, ◌<◌, ◌≡◌, refl, ap, ◌⊎◌, inl, inr, Bool-cases, ◌==◌, ◌↔◌, Bool, true, false,
  not, ◌||◌, Option, none, some, List, [], ◌∷◌, if◌then◌else◌, arith,
}
use treckrr.Text.{Text, byte_length, is_empty, trim_space, same_text, same_text_eq, same_text_refl}

abbrev pub digits : ℕ
digits = 6

-- `probe -= 1` and `probe += 1` on uint64
abbrev pub step_before : ℕ → ℕ
step_before counter = (counter + 18446744073709551615) % 18446744073709551616

abbrev pub step_after : ℕ → ℕ
step_after counter = (counter + 1) % 18446744073709551616

-- `code(secret, step)` against the input
abbrev pub matches : Option Text → Text → Bool
matches none input = false
matches (some c) input = same_text c input

matches-eq : (o : Option Text) (input : Text) → matches o input ≡ true → o ≡ some input
matches-eq none input e = cc
matches-eq (some c) input e = ap some (same_text_eq c input e)

or_true : (a : Bool) → (a || true) ≡ true
or_true true = refl
or_true false = refl

module _ (code : Text → ℕ → Option Text) where
  -- The loop over `delta`.
  unfoldable pub first_match : Text → Text → List ℕ → Option ℕ
  first_match secret input [] = none
  first_match secret input (probe ∷ probes) =
      let rest = first_match secret input probes in
      if matches (code secret probe) input then some probe else rest

  -- `counter` is the step of the time now.
  unfoldable pub validate_step : ℕ → Text → Text → Option ℕ
  unfolding first_match
  validate_step counter secret entered =
      let input = trim_space entered in
      let found =
        first_match secret input (step_before counter ∷ counter ∷ step_after counter ∷ []) in
      if is_empty (trim_space secret) || not (byte_length input == digits) then none else found

  -- `Validate`
  abbrev pub validate : ℕ → Text → Text → Bool
  validate counter secret entered = elim (validate_step counter secret entered) [
    | none ↦ false
    | some step ↦ true
  ]

  -- The three steps, in the words of the code.
  validate_cases :
      (counter : ℕ) (secret entered : Text)
      → (validate counter secret entered ≡ true) ↔ (
          (is_empty (trim_space secret) ≡ false)
          × (byte_length (trim_space entered) ≡ 6)
          × ((matches (code secret (step_before counter)) (trim_space entered)
                || (matches (code secret counter) (trim_space entered)
                    || matches (code secret (step_after counter)) (trim_space entered)))
              ≡ true))
  unfolding validate_step
  validate_cases counter secret entered = ground arith

  -- A step at most one away, and its code.
  abbrev pub IsNearStep : ℕ → Text → Text → ℕ → Type 0
  IsNearStep counter secret input step =
      (step ≤ counter + 1) × (counter ≤ step + 1) × (code secret step ≡ some input)

  near_step :
      (counter : ℕ) (secret input : Text)
      → 1 ≤ counter
      → counter + 1 < 18446744073709551616
      → (matches (code secret (step_before counter)) input
          || (matches (code secret counter) input
              || matches (code secret (step_after counter)) input))
        ≡ true
      → (step : ℕ) × IsNearStep counter secret input step
  near_step counter secret input low high e =
      elim (Bool-cases (matches (code secret (step_before counter)) input)) [
        | inl before ↦ (step_before counter, (omega arith, omega arith, matches-eq _ input before))
        | inr not_before ↦ elim (Bool-cases (matches (code secret counter) input)) [
          | inl now ↦ (counter, (omega arith, omega arith, matches-eq _ input now))
          | inr not_now ↦
              let after : matches (code secret (step_after counter)) input ≡ true =
                rw (not_before, not_now) at e in
              (step_after counter, (omega arith, omega arith, matches-eq _ input after))
        ]
      ]

  matches_near :
      (counter : ℕ) (secret input : Text) (step : ℕ)
      → 1 ≤ counter
      → counter + 1 < 18446744073709551616
      → IsNearStep counter secret input step
      → (matches (code secret (step_before counter)) input
          || (matches (code secret counter) input
              || matches (code secret (step_after counter)) input))
        ≡ true
  matches_near counter secret input step low high (above, below, e) =
      let found : matches (code secret step) input ≡ true = rw e (same_text_refl input) in
      let place : (step ≡ step_before counter) ⊎ ((step ≡ counter) ⊎ (step ≡ step_after counter)) =
        ground arith in
      elim place [
        | inl same ↦ rw (rw same at found) refl
        | inr (inl same) ↦ rw (rw same at found) (or_true _)
        | inr (inr same) ↦ rw (rw same at found) (rw (or_true _) (or_true _))
      ]

  -- Between the first and the last step of the clock, a code is accepted exactly if the secret is not
  -- blank, the trimmed input has six bytes, and it is the code of some step that is at most one away
  -- from the step now.
  pub validate_lem :
      (counter : ℕ) (secret entered : Text)
      → 1 ≤ counter
      → counter + 1 < 18446744073709551616
      → (validate counter secret entered ≡ true) ↔ (
          (is_empty (trim_space secret) ≡ false)
          × (byte_length (trim_space entered) ≡ 6)
          × ((step : ℕ) × IsNearStep counter secret (trim_space entered) step))
  validate_lem counter secret entered low high =
      let (to, from) = validate_cases counter secret entered in
      (
        λ accepted.
            let (filled, six, found) = to accepted in
            (filled, six, near_step counter secret (trim_space entered) low high found),
        λ (filled, six, (step, near)).
            from (filled, six, matches_near counter secret (trim_space entered) step low high near),
      )

  first_match-found :
      (secret input : Text) (probes : List ℕ) (step : ℕ)
      → first_match secret input probes ≡ some step
      → Memᴰ step probes × (matches (code secret step) input ≡ true)
  unfolding first_match
  first_match-found secret input [] step e = cc
  first_match-found secret input (probe ∷ probes) step e =
      elim (Bool-cases (matches (code secret probe) input)) [
        | inl here ↦
            let same : ◌≡◌ {A = Option ℕ} (some probe) (some step) = rw (here, first_match) at e in
            let this : step ≡ probe = cc in (Memᴰ.head this, rw this here)
        | inr not_here ↦
            let (later, found) =
              first_match-found secret input probes step (rw (not_here, first_match) at e) in
            (Memᴰ.tail later, found)
      ]

  -- Between the first and the last step of the clock, a step that is returned is at most one away from
  -- the step now, and the trimmed input is its code.
  pub validate_step-IsNearStep :
      (counter : ℕ) (secret entered : Text) (step : ℕ)
      → 1 ≤ counter
      → counter + 1 < 18446744073709551616
      → validate_step counter secret entered ≡ some step
      → IsNearStep counter secret (trim_space entered) step
  unfolding validate_step
  validate_step-IsNearStep counter secret entered step low high e =
      let input = trim_space entered in
      let probes = step_before counter ∷ counter ∷ step_after counter ∷ [] in
      let (place, found) =
        elim (Bool-cases (is_empty (trim_space secret) || not (byte_length input == digits)))
          as (λ _. Memᴰ step probes × (matches (code secret step) input ≡ true)) [
            | inl refused ↦
                let impossible : ◌≡◌ {A = Option ℕ} none (some step) = rw refused at e in
                absurd (no impossible)
            | inr read ↦ first_match-found secret input probes step (rw read at e)
          ] in
      (above place, below place, matches-eq _ input found)
    where
      no : ◌≡◌ {A = Option ℕ} none (some step) → ⊥
      no e = cc

      above :
          Memᴰ step (step_before counter ∷ counter ∷ step_after counter ∷ []) → step ≤ counter + 1
      above (Memᴰ.head same) = omega arith
      above (Memᴰ.tail (Memᴰ.head same)) = omega arith
      above (Memᴰ.tail (Memᴰ.tail (Memᴰ.head same))) = omega arith
      above (Memᴰ.tail (Memᴰ.tail (Memᴰ.tail in_none))) = elim in_none [ ]

      below :
          Memᴰ step (step_before counter ∷ counter ∷ step_after counter ∷ []) → counter ≤ step + 1
      below (Memᴰ.head same) = omega arith
      below (Memᴰ.tail (Memᴰ.head same)) = omega arith
      below (Memᴰ.tail (Memᴰ.tail (Memᴰ.head same))) = omega arith
      below (Memᴰ.tail (Memᴰ.tail (Memᴰ.tail in_none))) = elim in_none [ ]
