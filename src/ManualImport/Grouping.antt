-- ===== src/ManualImport/Grouping.antt =====
-- Texts of digit groups between separators: what the searches of the reader find in them.
use essentials_merchant.Base.{
  ℕ, ◌+◌, ◌≡◌, refl, sym, ◌∙◌, ap, arith, true, false, not, List, [], ◌∷◌, ◌++◌, ◌==◌, all, any,
  select, All,
}
use essentials_merchant.ManualImport.{
  Text, is_digit, is_char, count, split, concat, split_once, is_behind,
}

-- Groups with a separator between them.
abbrev pub join : ℕ → List Text → Text
join c [] = []
join c (t ∷ []) = t
join c (t ∷ u ∷ ts) = t ++ c ∷ join c (u ∷ ts)

-- The text does not have the character.
abbrev pub Lacks : ℕ → Text → Type 0
Lacks c t = any (is_char c) t ≡ false

pub digits-Lacks : (c : ℕ) (t : Text) → is_digit c ≡ false → all is_digit t ≡ true → Lacks c t
digits-Lacks c [] other h = refl
digits-Lacks c (d ∷ ds) other h = ground (arith, other, h, digits-Lacks c ds other)

pub count-Lacks : (c : ℕ) (t : Text) → Lacks c t → count c t ≡ 0
count-Lacks c [] h = refl
count-Lacks c (d ∷ ds) h = ground (arith, h, count-Lacks c ds)

pub any-append : (c : ℕ) (t f : Text) → Lacks c t → Lacks c f → Lacks c (t ++ f)
any-append c [] f h k = k
any-append c (d ∷ ds) f h k = ground (arith, h, any-append c ds f)

pub any-here : (c : ℕ) (t f : Text) → any (is_char c) (t ++ c ∷ f) ≡ true
any-here c [] f = ground arith
any-here c (d ∷ ds) f = ground (arith, any-here c ds f)

pub count-append : (c : ℕ) (t f : Text) → count c (t ++ f) ≡ count c t + count c f
count-append c [] f = omega arith
count-append c (d ∷ ds) f = ground (arith, count-append c ds f)

pub split_once-append : (c : ℕ) (t f : Text) → Lacks c t → split_once c (t ++ c ∷ f) ≡ (t, f)
split_once-append c [] f h = ground arith
split_once-append c (d ∷ ds) f h = ground (arith, h, split_once-append c ds f)

split-Lacks : (c : ℕ) (t : Text) → Lacks c t → split c t ≡ t ∷ []
split-Lacks c [] h = refl
split-Lacks c (d ∷ ds) h = ground (arith, h, split-Lacks c ds)

split-append : (c : ℕ) (t f : Text) → Lacks c t → split c (t ++ c ∷ f) ≡ t ∷ split c f
split-append c [] f h = ground arith
split-append c (d ∷ ds) f h = ground (arith, h, split-append c ds f)

pub split-join :
    (c : ℕ) (t : Text) (ts : List Text)
    → All (Lacks c) (t ∷ ts)
    → split c (join c (t ∷ ts)) ≡ t ∷ ts
split-join c t [] h = split-Lacks c t h.0
split-join c t (u ∷ ts) h =
    split-append c t (join c (u ∷ ts)) h.0 ∙ ap (λ us. t ∷ us) (split-join c u ts h.1)

pub join-Lacks :
    (c d : ℕ) (ts : List Text) → (d == c) ≡ false → All (Lacks c) ts → Lacks c (join d ts)
join-Lacks c d [] other h = refl
join-Lacks c d (t ∷ []) other h = h.0
join-Lacks c d (t ∷ u ∷ ts) other h =
    any-append c t (d ∷ join d (u ∷ ts)) h.0
      (ground (arith, other, join-Lacks c d (u ∷ ts) other h.1))

-- What is left of a text without one character.
abbrev pub without : ℕ → Text → Text
without c t = select (λ d. not (d == c)) t

without-Lacks : (c : ℕ) (t : Text) → Lacks c t → without c t ≡ t
without-Lacks c [] h = refl
without-Lacks c (d ∷ ds) h = ground (arith, h, without-Lacks c ds)

append-nil : (t : Text) → t ++ [] ≡ t
append-nil [] = refl
append-nil (d ∷ ds) = ap (λ (r : Text). d ∷ r) (append-nil ds)

without-next : (c : ℕ) (t f : Text) → Lacks c t → without c (t ++ c ∷ f) ≡ t ++ without c f
without-next c [] f h = ground arith
without-next c (d ∷ ds) f h = ground (arith, h, without-next c ds f)

pub without-join : (c : ℕ) (ts : List Text) → All (Lacks c) ts → without c (join c ts) ≡ concat ts
without-join c [] h = refl
without-join c (t ∷ []) h = without-Lacks c t h.0 ∙ sym (append-nil t)
without-join c (t ∷ u ∷ ts) h =
    without-next c t (join c (u ∷ ts)) h.0 ∙ ap (λ (r : Text). t ++ r) (without-join c (u ∷ ts) h.1)

-- A separator behind which neither of the two occurs.
pub is_behind-last :
    (a b : ℕ) (t f : Text) → Lacks a f → Lacks b f → is_behind a b (t ++ a ∷ f) ≡ true
is_behind-last a b [] f h k = ground (arith, h, k)
is_behind-last a b (d ∷ ds) f h k =
    ground (arith, h, k, is_behind-last a b ds f h k, any-here a ds f)

pub is_behind-before :
    (a b : ℕ) (t f : Text)
    → (a == b) ≡ false
    → Lacks a f
    → Lacks b f
    → is_behind a b (t ++ b ∷ f) ≡ false
is_behind-before a b [] f other h k = ground (arith, other, h, k)
is_behind-before a b (d ∷ ds) f other h k =
    ground (arith, is_behind-before a b ds f other h k, any-here b ds f)
