-- ===== src/Base/Table.antt =====
-- Database tables as lists of rows: SELECT, UPDATE … WHERE, DELETE … WHERE and their laws.
use Prim.Native.Nat.{ℕ, zero, suc, ◌+◌, min}
use mathlib.Core.Path.{◌≡◌, refl, ap, sym, subst}
use mathlib.Core.Bool.{Bool, true, false, ◌&&◌, ◌||◌}
use mathlib.Core.Option.{Option, none, some}
use mathlib.Core.List.{List, [], ◌∷◌, ◌++◌, map}
use native.Mathlib.Omega.{arith}
use mathlib.Core.Logic.{inl, inr}
use essentials_merchant.Base.Tests.{Bool-cases, if◌then◌else◌, some_injective}

module _ {ℓ} {A : Type ℓ} where
  abbrev pub length : List A → ℕ
  length [] = 0
  length (x ∷ xs) = suc (length xs)

  -- The first row that meets the condition, as `fetch_optional` returns it.
  abbrev pub find? : (A → Bool) → List A → Option A
  find? p [] = none
  find? p (x ∷ xs) = if p x then some x else find? p xs

  -- SELECT EXISTS, and `iter().any`.
  abbrev pub any : (A → Bool) → List A → Bool
  any p [] = false
  any p (x ∷ xs) = p x || any p xs

  abbrev pub all : (A → Bool) → List A → Bool
  all p [] = true
  all p (x ∷ xs) = p x && all p xs

  -- The rows that meet the condition, in order.
  abbrev pub select : (A → Bool) → List A → List A
  select p [] = []
  select p (x ∷ xs) = let rest = select p xs in if p x then x ∷ rest else rest

  -- UPDATE … SET f WHERE p.
  abbrev pub update_where : (A → Bool) → (A → A) → List A → List A
  update_where p f [] = []
  update_where p f (x ∷ xs) = (if p x then f x else x) ∷ update_where p f xs

  -- DELETE … WHERE p.
  abbrev pub delete_where : (A → Bool) → List A → List A
  delete_where p [] = []
  delete_where p (x ∷ xs) = let rest = delete_where p xs in if p x then rest else x ∷ rest

  -- The number of rows that meet the condition: `rows_affected` of an UPDATE or DELETE.
  abbrev pub count_where : (A → Bool) → List A → ℕ
  count_where p [] = 0
  count_where p (x ∷ xs) = let rest = count_where p xs in if p x then suc rest else rest

  abbrev pub take : ℕ → List A → List A
  take zero xs = []
  take (suc n) [] = []
  take (suc n) (x ∷ xs) = x ∷ take n xs

-- Every row satisfies `P`.
abbrev pub All {ℓ κ} : {A : Type ℓ} → (A → Type κ) → List A → Type κ
All P [] = Unit
All P (x ∷ xs) = P x × All P xs

module _ {ℓ κ} {A : Type ℓ} (P : A → Type κ) where
  pub All-find? : (p : A → Bool) (xs : List A) (a : A) → All P xs → find? p xs ≡ some a → P a
  All-find? p [] a h e = cc
  All-find? p (x ∷ xs) a h e = ground (arith, All-find? p xs a h.1)

  pub All-append : (xs ys : List A) → All P xs → All P ys → All P (xs ++ ys)
  All-append [] ys hx hy = hy
  All-append (x ∷ xs) ys hx hy = (hx.0, All-append xs ys hx.1 hy)

  pub All-intro : ((a : A) → P a) → (xs : List A) → All P xs
  All-intro f [] = tt
  All-intro f (x ∷ xs) = (f x, All-intro f xs)

  pub All-take : (n : ℕ) (xs : List A) → All P xs → All P (take n xs)
  All-take zero xs h = tt
  All-take (suc n) [] h = tt
  All-take (suc n) (x ∷ xs) h = (h.0, All-take n xs h.1)

pub All-map {ℓ κ μ} :
    {A : Type ℓ} (P : A → Type κ) (Q : A → Type μ) (xs : List A)
    → ((a : A) → P a → Q a)
    → All P xs
    → All Q xs
All-map P Q [] f h = tt
All-map P Q (x ∷ xs) f h = (f x h.0, All-map P Q xs f h.1)

pub All-and {ℓ κ μ} :
    {A : Type ℓ} (P : A → Type κ) (Q : A → Type μ) (xs : List A)
    → All P xs
    → All Q xs
    → All (λ a. P a × Q a) xs
All-and P Q [] h k = tt
All-and P Q (x ∷ xs) h k = ((h.0, k.0), All-and P Q xs h.1 k.1)

pub length-append {ℓ} : {A : Type ℓ} (xs ys : List A) → length (xs ++ ys) ≡ length xs + length ys
length-append [] ys = omega arith
length-append (x ∷ xs) ys = omega (arith, length-append xs ys)

pub length-map {ℓ κ} :
    {A : Type ℓ} {B : Type κ} (f : A → B) (xs : List A) → length (map f xs) ≡ length xs
length-map f [] = refl
length-map f (x ∷ xs) = ap suc (length-map f xs)

pub length-take {ℓ} : {A : Type ℓ} (n : ℕ) (xs : List A) → length (take n xs) ≡ min n (length xs)
length-take zero xs = omega arith
length-take (suc n) [] = omega arith
length-take (suc n) (x ∷ xs) = omega (arith, length-take n xs)

pub length-select {ℓ} :
    {A : Type ℓ} (p : A → Bool) (xs : List A) → length (select p xs) ≡ count_where p xs
length-select p [] = refl
length-select p (x ∷ xs) = ground (arith, length-select p xs)

-- What `p` selects has every property that `p` and the rows of the table grant.
pub All-select {ℓ κ μ} :
    {A : Type ℓ} (P : A → Type κ) (Q : A → Type μ) (p : A → Bool) (xs : List A)
    → ((a : A) → P a → p a ≡ true → Q a)
    → All P xs
    → All Q (select p xs)
All-select P Q p [] f h = tt
All-select P Q p (x ∷ xs) f h = elim (Bool-cases (p x)) [
  | inl hit ↦ rw hit (f x h.0 hit, All-select P Q p xs f h.1)
  | inr miss ↦ rw miss (All-select P Q p xs f h.1)
]

pub All-map_image {ℓ κ μ} :
    {A : Type ℓ} {B : Type κ} (P : B → Type μ) (f : A → B) (xs : List A)
    → All (λ a. P (f a)) xs
    → All P (map f xs)
All-map_image P f [] h = tt
All-map_image P f (x ∷ xs) h = (h.0, All-map_image P f xs h.1)

-- Rows keep a property that the UPDATE keeps.
pub All-update_where {ℓ κ} :
    {A : Type ℓ} (P : A → Type κ) (p : A → Bool) (f : A → A) (xs : List A)
    → ((a : A) → P a → p a ≡ true → P (f a))
    → All P xs
    → All P (update_where p f xs)
All-update_where P p f [] keep h = tt
All-update_where P p f (x ∷ xs) keep h = elim (Bool-cases (p x)) [
  | inl hit ↦ rw hit (keep x h.0 hit, All-update_where P p f xs keep h.1)
  | inr miss ↦ rw miss (h.0, All-update_where P p f xs keep h.1)
]

-- Two tables of the same length, row by row.
abbrev pub RowByRow {ℓ κ} : {A : Type ℓ} {B : Type κ} → (A → B → Type 0) → List A → List B → Type 0
RowByRow R [] [] = Unit
RowByRow R [] (y ∷ ys) = ⊥
RowByRow R (x ∷ xs) [] = ⊥
RowByRow R (x ∷ xs) (y ∷ ys) = R x y × RowByRow R xs ys

module _ {ℓ} {A : Type ℓ} (R : A → A → Type 0) where
  pub RowByRow-refl : ((a : A) → R a a) → (xs : List A) → RowByRow R xs xs
  RowByRow-refl r [] = tt
  RowByRow-refl r (x ∷ xs) = (r x, RowByRow-refl r xs)

  pub RowByRow-trans :
      ((a b c : A) → R a b → R b c → R a c)
      → (xs ys zs : List A) → RowByRow R xs ys
      → RowByRow R ys zs
      → RowByRow R xs zs
  RowByRow-trans t [] [] [] h k = tt
  RowByRow-trans t [] [] (z ∷ zs) h k = absurd k
  RowByRow-trans t [] (y ∷ ys) zs h k = absurd h
  RowByRow-trans t (x ∷ xs) [] zs h k = absurd h
  RowByRow-trans t (x ∷ xs) (y ∷ ys) [] h k = absurd k
  RowByRow-trans t (x ∷ xs) (y ∷ ys) (z ∷ zs) h k =
      (t x y z h.0 k.0, RowByRow-trans t xs ys zs h.1 k.1)

  pub RowByRow-update_where :
      (p : A → Bool) (f : A → A)
      → ((a : A) → R a a)
      → ((a : A) → p a ≡ true → R a (f a))
      → (xs : List A) → RowByRow R xs (update_where p f xs)
  RowByRow-update_where p f r step [] = tt
  RowByRow-update_where p f r step (x ∷ xs) = elim (Bool-cases (p x)) [
    | inl hit ↦ rw hit (step x hit, RowByRow-update_where p f r step xs)
    | inr miss ↦ rw miss (r x, RowByRow-update_where p f r step xs)
  ]

-- The same when the step is known only of the rows of the table.
pub RowByRow-update_rows {ℓ} :
    {A : Type ℓ} (R : A → A → Type 0) (p : A → Bool) (f : A → A)
    → ((a : A) → R a a)
    → (xs : List A) → All (λ a. p a ≡ true → R a (f a)) xs
    → RowByRow R xs (update_where p f xs)
RowByRow-update_rows R p f r [] h = tt
RowByRow-update_rows R p f r (x ∷ xs) h = elim (Bool-cases (p x)) [
  | inl hit ↦ rw hit (h.0 hit, RowByRow-update_rows R p f r xs h.1)
  | inr miss ↦ rw miss (r x, RowByRow-update_rows R p f r xs h.1)
]

module _ {ℓ} {A : Type ℓ} (p : A → Bool) where
  pub any-take : (n : ℕ) (xs : List A) → any p (take n xs) ≡ true → any p xs ≡ true
  any-take zero xs h = cc
  any-take (suc n) [] h = h
  any-take (suc n) (x ∷ xs) h = ground (arith, any-take n xs)

  pub any-find? : (xs : List A) → any p xs ≡ true → (a : A) × (find? p xs ≡ some a) × (p a ≡ true)
  any-find? [] h = cc
  any-find? (x ∷ xs) h = elim (Bool-cases (p x)) [
    | inl hit ↦ (x, rw hit, hit)
    | inr miss ↦ let (a, found, good) = any-find? xs (rw miss at h) in (a, rw miss found, good)
  ]

pub any-select {ℓ} :
    {A : Type ℓ} (p q : A → Bool) (xs : List A) → any p (select q xs) ≡ any (λ a. q a && p a) xs
any-select p q [] = refl
any-select p q (x ∷ xs) = ground (arith, any-select p q xs)

-- The rows that the UPDATE changes and those that it passes over.
pub All-update_cases {ℓ κ μ} :
    {A : Type ℓ} (P : A → Type κ) (Q : A → Type μ) (p : A → Bool) (f : A → A) (xs : List A)
    → ((a : A) → P a → p a ≡ true → Q (f a))
    → ((a : A) → P a → p a ≡ false → Q a)
    → All P xs
    → All Q (update_where p f xs)
All-update_cases P Q p f [] changed same h = tt
All-update_cases P Q p f (x ∷ xs) changed same h = elim (Bool-cases (p x)) [
  | inl hit ↦ rw hit (changed x h.0 hit, All-update_cases P Q p f xs changed same h.1)
  | inr miss ↦ rw miss (same x h.0 miss, All-update_cases P Q p f xs changed same h.1)
]

-- An UPDATE that keeps what a query looks for and a property of the row that it finds.
pub find?-update_where {ℓ κ} :
    {A : Type ℓ} (P : A → Type κ) (q p : A → Bool) (f : A → A) (xs : List A) (a : A)
    → ((x : A) → q (f x) ≡ q x)
    → ((x : A) → P x → P (f x))
    → find? q xs ≡ some a
    → P a
    → (b : A) × (find? q (update_where p f xs) ≡ some b) × P b
find?-update_where P q p f [] a same keep e h = cc
find?-update_where P q p f (x ∷ xs) a same keep e h = elim (Bool-cases (q x)) [
  | inl hit ↦ elim (Bool-cases (p x)) [
    | inl changed ↦ (
      f x,
      rw (changed, same x, hit) refl,
      keep x (subst P (sym (some_injective (rw hit at e))) h),
    )
    | inr kept ↦ (a, rw (kept, hit) (rw hit at e), h)
  ]
  | inr miss ↦
      let (b, found, good) = find?-update_where P q p f xs a same keep (rw miss at e) h in
      (b, rw (skipped miss) found, good)
]
  where
    skipped : q x ≡ false → q (if p x then f x else x) ≡ false
    skipped miss = ground (arith, miss, same x)

-- A query that looks for none of the rows that the UPDATE changes.
pub find?-update_other {ℓ} :
    {A : Type ℓ} (q p : A → Bool) (f : A → A) (xs : List A)
    → ((x : A) → p x ≡ true → (q x ≡ false) × (q (f x) ≡ false))
    → find? q (update_where p f xs) ≡ find? q xs
find?-update_other q p f [] apart = refl
find?-update_other q p f (x ∷ xs) apart = elim (Bool-cases (p x)) [
  | inl hit ↦ rw (hit, (apart x hit).0, (apart x hit).1) (find?-update_other q p f xs apart)
  | inr miss ↦ elim (Bool-cases (q x)) [
    | inl here ↦ rw (miss, here) refl
    | inr there ↦ rw (miss, there) (find?-update_other q p f xs apart)
  ]
]

-- The row that both a query and an UPDATE look for.
pub find?-update_same {ℓ} :
    {A : Type ℓ} (q : A → Bool) (f : A → A) (xs : List A) (a : A)
    → ((x : A) → q (f x) ≡ q x)
    → find? q xs ≡ some a
    → find? q (update_where q f xs) ≡ some (f a)
find?-update_same q f [] a same e = cc
find?-update_same q f (x ∷ xs) a same e = elim (Bool-cases (q x)) [
  | inl hit ↦ rw (hit, same x, hit) (ap (λ b. some (f b)) (some_injective (rw hit at e)))
  | inr miss ↦ rw (miss, miss) (find?-update_same q f xs a same (rw miss at e))
]

pub any-eq-true {ℓ} :
    {A : Type ℓ} (q : A → Bool) (xs : List A) (a : A) → find? q xs ≡ some a → any q xs ≡ true
any-eq-true q [] a e = cc
any-eq-true q (x ∷ xs) a e = ground (arith, any-eq-true q xs a)
