-- ===== src/Invoices/Correction/Once.antt =====
-- A correction is made once per idempotency key.
use essentials_merchant.Base.{
  ℕ, String, str_eq_refl, ◌≡◌, ap, subst, inl, inr, true, Option, none, some, List, [], ◌∷◌, arith,
  if◌then◌else◌, ◌==◌, Result, ok, err, find?, Bool-cases, Option-cases, ok_injective,
}
use essentials_merchant.Domain.Decimal.{Decimals}
use essentials_merchant.Invoices.{Invoice, Db, has_id, is_draft}
use essentials_merchant.Invoices.Issue.{Now, number_text}
use essentials_merchant.Invoices.Correction.{
  CorrectionError, CorrectionCreation, create_correction, correct_original, prior_or_write,
  write_correction, correction_of, has_correction_key, corrects, is_input_valid, is_invoice, trim,
}

some_injective {ℓ} : {A : Type ℓ} {a b : A} → Path (Option A) (some a) (some b) → a ≡ b
some_injective h = cc

module _ (d : Decimals) where
  -- The database holds the correction under its key.
  abbrev IsRecorded : Db d → String → ℕ → CorrectionCreation → Type 0
  IsRecorded db key original_id c =
      (i : Invoice d) × (find? (has_correction_key d key) db.invoices ≡ some i)
      × (corrects d original_id i ≡ true)
      × (i.id ≡ c.correction_id)

  found_id :
      (id : ℕ) (is : List (Invoice d)) (i : Invoice d)
      → find? (has_id d id) is ≡ some i
      → (i.id == id) ≡ true
  found_id id [] i e = cc
  found_id id (x ∷ is) i e = elim (Bool-cases (has_id d id x)) [
    | inl hit ↦ ground (arith, hit, e)
    | inr miss ↦ found_id id is i (rw miss at e)
  ]

  write_correction-IsRecorded :
      (db db' : Db d) (now : Now) (id : ℕ) (fresh_line : ℕ → ℕ) (actor original_id : ℕ)
      (original : Invoice d) (reason key : String) (c : CorrectionCreation)
      → (original.id == original_id) ≡ true
      → write_correction d db now id fresh_line actor original reason key ≡ ok (c, db')
      → IsRecorded db' key original_id c
  unfolding write_correction
  write_correction-IsRecorded db db' now id fresh_line actor original_id original reason key c same
        e =
      let company = db.company in
      let number =
        number_text company.correction_number_prefix now.year company.next_correction_number in
      (
        correction_of d id now number reason key original,
        ground (arith, e, str_eq_refl key),
        same,
        ground (arith, e),
      )

  prior_or_write-IsRecorded :
      (db db' : Db d) (now : Now) (id : ℕ) (fresh_line : ℕ → ℕ) (actor original_id : ℕ)
      (original : Invoice d) (reason key : String) (c : CorrectionCreation)
      → find? (has_correction_key d key) db.invoices ≡ none
      → (original.id == original_id) ≡ true
      → prior_or_write d db now id fresh_line actor original reason key
          (find? (corrects d original_id) db.invoices)
        ≡ ok (c, db')
      → IsRecorded db' key original_id c
  prior_or_write-IsRecorded db db' now id fresh_line actor original_id original reason key c fresh
        same e =
      elim (Option-cases (find? (corrects d original_id) db.invoices)) [
        | inl first ↦
            write_correction-IsRecorded db db' now id fresh_line actor original_id original reason
              key c same (rw first at e)
        | inr (prior, found) ↦
            absurd (unkeyed db.invoices prior fresh found (keyed prior (rw found at e)))
      ]
    where
      keyed :
          (prior : Invoice d)
          → Path
              (Result CorrectionError (CorrectionCreation × Db d))
              (if has_correction_key d key prior
                then ok (record { correction_id = prior.id; duplicate = true }, db)
                else err CorrectionError.already_corrected)
              (ok (c, db'))
          → has_correction_key d key prior ≡ true
      keyed prior k = elim (Bool-cases (has_correction_key d key prior)) [
        | inl hit ↦ hit
        | inr miss ↦ absurd (cc (rw miss at k))
      ]

      unkeyed :
          (is : List (Invoice d)) (prior : Invoice d)
          → find? (has_correction_key d key) is ≡ none
          → find? (corrects d original_id) is ≡ some prior
          → has_correction_key d key prior ≡ true
          → ⊥
      unkeyed [] prior none_keyed found k = cc
      unkeyed (i ∷ is) prior none_keyed found k = elim (Bool-cases (has_correction_key d key i)) [
        | inl hit ↦ absurd (cc (rw hit at none_keyed))
        | inr miss ↦ elim (Bool-cases (corrects d original_id i)) [
          | inl first ↦
              cc (ap (has_correction_key d key) (some_injective (rw first at found)), miss, k)
          | inr other ↦ unkeyed is prior (rw miss at none_keyed) (rw other at found) k
        ]
      ]

  correct_original-IsRecorded :
      (db db' : Db d) (now : Now) (id : ℕ) (fresh_line : ℕ → ℕ) (actor original_id : ℕ)
      (reason key : String) (c : CorrectionCreation)
      → find? (has_correction_key d key) db.invoices ≡ none
      → correct_original d db now id fresh_line actor original_id reason key ≡ ok (c, db')
      → IsRecorded db' key original_id c
  unfolding correct_original
  correct_original-IsRecorded db db' now id fresh_line actor original_id reason key c fresh e =
      elim (Option-cases (find? (has_id d original_id) db.invoices)) [
        | inl missing ↦ absurd (cc (rw missing at e))
        | inr (original, found) ↦ elim (Bool-cases (is_draft original.status)) [
          | inl draft ↦ absurd (cc (rw (found, draft) at e))
          | inr issued ↦ elim (Bool-cases (is_invoice original.document_type)) [
            | inl invoice ↦
                prior_or_write-IsRecorded db db' now id fresh_line actor original_id original reason
                  key c fresh (found_id original_id db.invoices original found)
                  (rw (found, issued, invoice) at e)
            | inr correction ↦ absurd (cc (rw (found, issued, correction) at e))
          ]
        ]
      ]

  -- Once a correction is made under a key, every later request for that invoice under the same key,
  -- with whatever valid reason, reports that correction as a duplicate and changes nothing.
  pub create_correction-once :
      (db db' : Db d) (now now' : Now) (id id' : ℕ) (fresh_line fresh_line' : ℕ → ℕ)
      (actor actor' original_id : ℕ) (text text' key : String) (c : CorrectionCreation)
      → create_correction d db now id fresh_line actor original_id text key ≡ ok (c, db')
      → is_input_valid (trim text') key ≡ true
      → create_correction d db' now' id' fresh_line' actor' original_id text' key
        ≡ ok (record { correction_id = c.correction_id; duplicate = true }, db')
  unfolding create_correction
  create_correction-once db db' now now' id id' fresh_line fresh_line' actor actor' original_id text
        text' key c e valid =
      let (i, found, corrected, same) = recorded in rw (valid, found, corrected, same)
    where
      known :
          (existing : Invoice d)
          → find? (has_correction_key d key) db.invoices ≡ some existing
          → corrects d original_id existing ≡ true
          → Path
              (CorrectionCreation × Db d)
              (record { correction_id = existing.id; duplicate = true }, db)
              (c, db')
          → IsRecorded db' key original_id c
      known existing found same k = (
        existing,
        subst (λ (x : Db d). find? (has_correction_key d key) x.invoices ≡ some existing)
            (ap (λ r. r.1) k) found,
        same,
        ap (λ (r : CorrectionCreation × Db d). r.0.correction_id) k,
      )

      recorded : IsRecorded db' key original_id c
      recorded = elim (Bool-cases (is_input_valid (trim text) key)) [
        | inr bad ↦ absurd (cc (rw bad at e))
        | inl good ↦ elim (Option-cases (find? (has_correction_key d key) db.invoices)) [
          | inl fresh ↦
              correct_original-IsRecorded db db' now id fresh_line actor original_id (trim text) key
                c fresh (rw (good, fresh) at e)
          | inr (existing, found) ↦ elim (Bool-cases (corrects d original_id existing)) [
            | inr elsewhere ↦ absurd (cc (rw (good, found, elsewhere) at e))
            | inl same ↦ known existing found same (ok_injective (rw (good, found, same) at e))
          ]
        ]
      ]
