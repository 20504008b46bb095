-- ===== src/AuditChain/Tamper.antt =====
-- What a checked chain commits to: the framing of a row's fields is injective, and two chains that
-- check against the same head hold the same rows unless SHA-256 has a collision.
use treckrr.Prelude.{
  ℕ, ℤ, pos, ◌+ℤ◌, ◌≡◌, ◌≢◌, ◌⊎◌, inl, inr, refl, sym, ap, ◌∙◌, arith, true, false, Bool-cases,
  List, [], ◌∷◌, ◌++◌, All, length, int_laws, parts_of_eq, subst,
}
use treckrr.Text.{Text, text, same_text, same_text_refl, same_text_eq}
use treckrr.AuditChain.Data.{Formats, Row, SealedRow, Head, ChainHead, framed, audit_row_hash}
use treckrr.AuditChain.Verify.{chain_rows, verify_audit_chain_rows}
use treckrr.AuditChain.Sound.{fresh_report}
use treckrr.AuditChain.Links.{IsChain, last_of_head, verify_audit_chain_rows-IsChain}

-- Two inputs with one SHA-256.
abbrev pub Collision : Formats → Type 0
Collision f = (x : Text) × (y : Text) × (x ≢ y) × (f.digest x ≡ f.digest y)

-- What the printed forms keep apart.
pub record IsPrinting (f : Formats) : Type 0 where
  pub digits-injective : (m n : ℤ) → f.digits m ≡ f.digits n → m ≡ n
  -- no digit, and no sign, is a colon
  pub digits_plain : (n : ℤ) → All (λ c. c ≢ 58) (f.digits n)
  pub hex-injective : (s t : Text) → f.hex s ≡ f.hex t → s ≡ t
  pub time_text-injective : (m n : ℤ) → f.time_text m ≡ f.time_text n → m ≡ n

tail_of : {c d : ℕ} {s t : Text} → ◌≡◌ {A = Text} (c ∷ s) (d ∷ t) → (c ≡ d) × (s ≡ t)
tail_of e = (cc, cc)

up_to_colon :
    (a b s t : Text)
    → All (λ c. c ≢ 58) a
    → All (λ c. c ≢ 58) b
    → a ++ (58 ∷ s) ≡ b ++ (58 ∷ t)
    → (a ≡ b) × (s ≡ t)
up_to_colon [] [] s t _ _ e = (refl, (tail_of e).1)
up_to_colon [] (d ∷ b) s t _ (apart, _) e = absurd (apart (sym (tail_of e).0))
up_to_colon (c ∷ a) [] s t (apart, _) _ e = absurd (apart (tail_of e).0)
up_to_colon (c ∷ a) (d ∷ b) s t (_, in_a) (_, in_b) e =
    let (head, rest) = tail_of e in
    let (front, back) = up_to_colon a b s t in_a in_b rest in (cc, back)

of_one_length : (x y s t : Text) → length x ≡ length y → x ++ s ≡ y ++ t → (x ≡ y) × (s ≡ t)
of_one_length [] [] s t _ e = (refl, e)
of_one_length [] (d ∷ y) s t l e = absurd (omega (arith, l))
of_one_length (c ∷ x) [] s t l e = absurd (omega (arith, l))
of_one_length (c ∷ x) (d ∷ y) s t l e =
    let (head, rest) = tail_of e in
    let (front, back) = of_one_length x y s t (omega (arith, l)) rest in (cc, back)

chain_rows-All : (c : Text) (rows : List SealedRow) → All (λ r. r.chain ≡ c) (chain_rows c rows)
unfolding chain_rows
chain_rows-All c [] = tt
chain_rows-All c (r ∷ rs) = elim (Bool-cases (same_text r.chain c)) [
  | inl e ↦ rw (e, chain_rows) (same_text_eq r.chain c e, chain_rows-All c rs)
  | inr e ↦ rw (e, chain_rows) (chain_rows-All c rs)
]

pos-injective : {m n : ℕ} → pos m ≡ pos n → m ≡ n
pos-injective e = cc

apart : (x y : Text) → same_text x y ≡ false → x ≢ y
apart x y other equal = let same : same_text x y ≡ true = rw equal (same_text_refl y) in cc

-- The fields that `auditRowHash` frames.
abbrev row_fields : Formats → Text → ℤ → Text → Row → List Text
row_fields f chain seq prev r =
    text "treckrr-audit-v1"
    ∷ chain
    ∷ f.digits seq
    ∷ f.hex prev
    ∷ f.digits r.id
    ∷ r.username
    ∷ r.action
    ∷ r.entity
    ∷ r.entity_id
    ∷ r.detail
    ∷ r.ip
    ∷ f.time_text r.created_at
    ∷ []

module _ (f : Formats) (p : IsPrinting f) where
  first_field :
      (x y : Text) (xs ys : List Text)
      → framed f (x ∷ xs) ≡ framed f (y ∷ ys)
      → (x ≡ y) × (framed f xs ≡ framed f ys)
  unfolding framed
  first_field x y xs ys e =
      let (size, rest) =
        up_to_colon (f.digits (pos (length x))) (f.digits (pos (length y))) _ _
          (p.digits_plain (pos (length x))) (p.digits_plain (pos (length y))) e in
      let (field, fields) =
        of_one_length x y _ _ (pos-injective (p.digits-injective _ _ size)) rest in
      (field, (tail_of fields).1)

  row_fields-injective :
      (c : Text) (m n : ℤ) (s t : Text) (r q : Row)
      → framed f (row_fields f c m s r) ≡ framed f (row_fields f c n t q)
      → (m ≡ n) × (s ≡ t) × (r ≡ q)
  row_fields-injective c m n s t r q e =
      let (_, e1) = first_field _ _ _ _ e in
      let (_, e2) = first_field _ _ _ _ e1 in
      let (seq, e3) = first_field _ _ _ _ e2 in
      let (prev, e4) = first_field _ _ _ _ e3 in
      let (id, e5) = first_field _ _ _ _ e4 in
      let (username, e6) = first_field _ _ _ _ e5 in
      let (action, e7) = first_field _ _ _ _ e6 in
      let (entity, e8) = first_field _ _ _ _ e7 in
      let (entity_id, e9) = first_field _ _ _ _ e8 in
      let (detail, e10) = first_field _ _ _ _ e9 in
      let (ip, e11) = first_field _ _ _ _ e10 in
      let (time, _) = first_field _ _ _ _ e11 in
      let same_id = p.digits-injective r.id q.id id in
      let same_time = p.time_text-injective r.created_at q.created_at time in
      (p.digits-injective m n seq, p.hex-injective s t prev, cc)

  audit_row_hash-injective :
      (c : Text) (m n : ℤ) (s t : Text) (r q : Row)
      → audit_row_hash f c m s r ≡ audit_row_hash f c n t q
      → ((m ≡ n) × (s ≡ t) × (r ≡ q)) ⊎ Collision f
  unfolding audit_row_hash
  audit_row_hash-injective c m n s t r q e =
      let x = framed f (row_fields f c m s r) in
      let y = framed f (row_fields f c n t q) in
      elim (Bool-cases (same_text x y)) [
        | inl same ↦ inl (row_fields-injective c m n s t r q (same_text_eq x y same))
        | inr other ↦ inr (x, y, (λ equal. apart x y other equal), e)
      ]

  same_row :
      (c : Text) (r q : SealedRow)
      → r.chain ≡ c
      → q.chain ≡ c
      → audit_row_hash f c r.seq r.prev r.row ≡ r.hash
      → audit_row_hash f c q.seq q.prev q.row ≡ q.hash
      → r.hash ≡ q.hash
      → (r ≡ q) ⊎ Collision f
  same_row c r q at_r at_q content_r content_q same =
      elim (audit_row_hash-injective c r.seq q.seq r.prev q.prev r.row q.row
        (content_r ∙ (same ∙ sym content_q))) [
          | inl (seq, prev, row) ↦ let chain = at_r ∙ sym at_q in inl cc
          | inr collision ↦ inr collision
        ]

  chain_position :
      (c : Text) (seq : ℤ) (prev : Text) (rows : List SealedRow) (last : Head)
      → IsChain f c seq prev rows last
      → seq +ℤ pos (length rows) ≡ last.seq +ℤ pos 1
  chain_position c seq prev [] last (end, _) = omega (int_laws, parts_of_eq end)
  chain_position c seq prev (r ∷ rs) last (position, _, _, rest) = omega (
    int_laws,
    parts_of_eq position,
    parts_of_eq (chain_position c (r.seq +ℤ pos 1) r.hash rs last rest),
  )

  same_chain :
      (c : Text) (seq : ℤ) (s t : Text) (rows others : List SealedRow) (last : Head)
      → All (λ r. r.chain ≡ c) rows
      → All (λ r. r.chain ≡ c) others
      → IsChain f c seq s rows last
      → IsChain f c seq t others last
      → ((s ≡ t) × (rows ≡ others)) ⊎ Collision f
  same_chain c seq s t [] [] last _ _ (_, here) (_, there) = inl (here ∙ sym there, refl)
  same_chain c seq s t [] (q ∷ qs) last _ _ (end, _) longer =
      absurd (
        omega
          (int_laws, parts_of_eq end, parts_of_eq (chain_position c seq t (q ∷ qs) last longer)))
  same_chain c seq s t (r ∷ rs) [] last _ _ longer (end, _) =
      absurd (
        omega
          (int_laws, parts_of_eq end, parts_of_eq (chain_position c seq s (r ∷ rs) last longer)))
  same_chain c seq s t (r ∷ rs) (q ∷ qs) last (at_r, in_rs) (at_q, in_qs)
        (place_r, link_r, content_r, rest_r) (place_q, link_q, content_q, rest_q) =
      let next = place_r ∙ sym place_q in
      let rest_r' = subst (λ (x : ℤ). IsChain f c (x +ℤ pos 1) r.hash rs last) next rest_r in
      elim (same_chain c (q.seq +ℤ pos 1) r.hash q.hash rs qs last in_rs in_qs rest_r' rest_q) [
        | inr collision ↦ inr collision
        | inl (hash, rest) ↦ elim (same_row c r q at_r at_q content_r content_q hash) [
          | inr collision ↦ inr collision
          | inl row ↦ inl (sym link_r ∙ (ap (λ (x : SealedRow). x.prev) row ∙ link_q), cc)
        ]
      ]

  -- If the digits and the printed times tell their numbers apart, digits hold no colon, and hexadecimal
  -- tells its inputs apart, then two logs that both check without a problem against the same head have
  -- the same rows in that chain, or there are two different inputs with the same SHA-256.
  pub verify_audit_chain_rows-chain_rows :
      (sealed others : List SealedRow) (hd : ChainHead)
      → (verify_audit_chain_rows f sealed hd fresh_report).problems ≡ []
      → (verify_audit_chain_rows f others hd fresh_report).problems ≡ []
      → (chain_rows hd.chain sealed ≡ chain_rows hd.chain others) ⊎ Collision f
  verify_audit_chain_rows-chain_rows sealed others hd clean checked =
      elim (same_chain hd.chain (hd.anchor_seq +ℤ pos 1) hd.anchor_hash hd.anchor_hash
        (chain_rows hd.chain sealed) (chain_rows hd.chain others) (last_of_head hd)
        (chain_rows-All hd.chain sealed) (chain_rows-All hd.chain others)
        ((verify_audit_chain_rows-IsChain f sealed hd).0 clean)
        ((verify_audit_chain_rows-IsChain f others hd).0 checked)) [
          | inl (_, rows) ↦ inl rows
          | inr collision ↦ inr collision
        ]
