-- ===== src/ManualImport/Currency.antt =====
-- Currency codes: their form, and that one report has one currency.
use essentials_merchant.Base.{
  ℕ, ◌+◌, ◌-◌, ◌≡◌, refl, sym, subst, ap, ◌∙◌, inl, inr, arith, Bool, true, false, ◌&&◌, ◌||◌,
  Option, none, some, List, [], ◌∷◌, if◌then◌else◌, ◌==◌, leb, all, map, Result, ok, err, ◌>>=◌,
  All, >>=-eq-ok, Bool-cases, ok_injective,
}
use essentials_merchant.ManualImport.{Text}
use essentials_merchant.ManualImport.Locale.{trim}

pub data CurrencyError : Type 0 where
  not_a_code : CurrencyError
  currency_conflict : Text → Text → CurrencyError

abbrev pub is_lower : ℕ → Bool
is_lower c = leb 97 c && leb c 122

abbrev pub is_upper : ℕ → Bool
is_upper c = leb 65 c && leb c 90

-- `to_ascii_uppercase`
abbrev pub to_upper : ℕ → ℕ
to_upper c = if is_lower c then c - 32 else c

-- The bytes of a character in UTF-8.
abbrev pub utf8_len : ℕ → ℕ
utf8_len c = if leb c 127 then 1 else if leb c 2047 then 2 else if leb c 65535 then 3 else 4

abbrev pub byte_len : Text → ℕ
byte_len [] = 0
byte_len (c ∷ cs) = utf8_len c + byte_len cs

abbrev pub is_letter : ℕ → Bool
is_letter c = is_lower c || is_upper c

unfoldable pub is_currency_token : Text → Bool
is_currency_token t = byte_len t == 3 && all is_letter t

unfoldable pub normalize_currency : Text → Result CurrencyError Text
unfolding is_currency_token
normalize_currency t =
    let currency = map to_upper (trim t) in
    if is_currency_token currency then ok currency else err not_a_code

abbrev pub text_eq : Text → Text → Bool
text_eq [] [] = true
text_eq (c ∷ cs) (d ∷ ds) = c == d && text_eq cs ds
text_eq _ _ = false

-- One candidate against what is resolved so far.
abbrev pub settle_currency : Option Text → Text → Result CurrencyError (Option Text)
settle_currency none candidate = ok (some candidate)
settle_currency (some existing) candidate =
    if text_eq existing candidate
    then ok (some existing)
    else err (currency_conflict existing candidate)

pub reconcile_from : Option Text → List (Option Text) → Result CurrencyError (Option Text)
reconcile_from resolved [] = ok resolved
reconcile_from resolved (none ∷ rest) = reconcile_from resolved rest
reconcile_from resolved (some t ∷ rest) = normalize_currency t >>= λ candidate.
    settle_currency resolved candidate >>= λ next. reconcile_from next rest

unfoldable pub reconcile_currencies : List (Option Text) → Result CurrencyError (Option Text)
unfolding reconcile_from
reconcile_currencies candidates = reconcile_from none candidates

-- The candidate names the currency, or none.
abbrev pub Names : Option Text → Option Text → Type 0
Names resolved none = Unit
Names resolved (some t) = (c : Text) × (normalize_currency t ≡ ok c) × (resolved ≡ some c)

text_eq-true : (s t : Text) → text_eq s t ≡ true → s ≡ t
text_eq-true [] [] h = refl
text_eq-true [] (d ∷ ds) h = cc
text_eq-true (c ∷ cs) [] h = cc
text_eq-true (c ∷ cs) (d ∷ ds) h = ground (arith, h, text_eq-true cs ds)

-- What is resolved stays resolved.
abbrev Extends : Option Text → Option Text → Type 0
Extends none out = Unit
Extends (some c) out = out ≡ some c

settle_currency-kept :
    (existing candidate : Text) (next : Option Text)
    → text_eq existing candidate ≡ true
    → settle_currency (some existing) candidate ≡ ok next
    → some existing ≡ next
settle_currency-kept existing candidate next same e =
    ok_injective {E = CurrencyError} (ground (arith, same, e))

settle_currency-eq-ok :
    (resolved next : Option Text) (candidate : Text)
    → settle_currency resolved candidate ≡ ok next
    → (next ≡ some candidate) × Extends resolved (some candidate)
settle_currency-eq-ok none next candidate e = (sym (ok_injective e), tt)
settle_currency-eq-ok (some existing) next candidate e =
    elim (Bool-cases (text_eq existing candidate)) [
      | inl same ↦ (
        sym (settle_currency-kept existing candidate next same e)
            ∙ ap some (text_eq-true existing candidate same),
        sym (ap some (text_eq-true existing candidate same)),
      )
      | inr other ↦ absurd (ground (arith, other, e))
    ]

unchanged-Extends : (resolved : Option Text) → Extends resolved resolved
unchanged-Extends none = tt
unchanged-Extends (some c) = refl

reconcile_from-Names :
    (resolved out : Option Text) (candidates : List (Option Text))
    → reconcile_from resolved candidates ≡ ok out
    → Extends resolved out × All (Names out) candidates
unfolding reconcile_from
reconcile_from-Names resolved out [] e =
    (subst (λ o. Extends resolved o) (ok_injective e) (unchanged-Extends resolved), tt)
reconcile_from-Names resolved out (none ∷ rest) e =
    let (kept, names) = reconcile_from-Names resolved out rest e in (kept, (tt, names))
reconcile_from-Names resolved out (some t ∷ rest) e =
    let (candidate, read, chain) = >>=-eq-ok (normalize_currency t) _ e in
    let (next, settled, tail) = >>=-eq-ok (settle_currency resolved candidate) _ chain in
    let (kept, names) = reconcile_from-Names next out rest tail in
    let (chosen, extends) = settle_currency-eq-ok resolved next candidate settled in
    let named = subst (λ n. Extends n out) chosen kept in
    (subst (λ o. Extends resolved o) (sym named) extends, ((candidate, read, named), names))

-- When the currencies of a report are reconciled, every candidate that is present reads as the
-- currency that results, and only without any candidate is there none.
pub reconcile_currencies-Names :
    (candidates : List (Option Text)) (out : Option Text)
    → reconcile_currencies candidates ≡ ok out
    → All (Names out) candidates
unfolding reconcile_currencies
reconcile_currencies-Names candidates out e = (reconcile_from-Names none out candidates e).1
