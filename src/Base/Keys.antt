-- ===== src/Base/Keys.antt =====
-- Tables with a numeric primary key.
use Prim.Native.Nat.{ℕ}
use mathlib.Core.Path.{◌≡◌, ap}
use mathlib.Core.Logic.{inl, inr}
use mathlib.Core.Bool.{Bool, true, false}
use mathlib.Core.Option.{some}
use mathlib.Core.List.{List, [], ◌∷◌}
use native.Mathlib.Omega.{arith}
use essentials_merchant.Base.Tests.{◌==◌, Bool-cases}
use essentials_merchant.Base.Table.{All, find?}

module _ {ℓ} {A : Type ℓ} (key : A → ℕ) where
  -- No two rows have one key.
  abbrev pub HasDistinct : List A → Type 0
  HasDistinct [] = Unit
  HasDistinct (x ∷ xs) = All (λ y. (key y == key x) ≡ false) xs × HasDistinct xs

  abbrev pub Owns : A → A → Type ℓ
  Owns a y = (key y == key a) ≡ true → y ≡ a

  Owns-rest : (a : A) (xs : List A) → All (λ y. (key y == key a) ≡ false) xs → All (Owns a) xs
  Owns-rest a [] h = tt
  Owns-rest a (x ∷ xs) h = (λ e. cc, Owns-rest a xs h.1)

  Owns-other :
      (p : A → Bool) (a x : A) (xs : List A)
      → All (λ y. (key y == key x) ≡ false) xs
      → find? p xs ≡ some a
      → Owns a x
  Owns-other p a x [] h e = cc
  Owns-other p a x (y ∷ ys) h e = elim (Bool-cases (p y)) [
    | inl hit ↦ λ same. absurd (ground (arith, h.0, hit, e, ap key (found hit)))
    | inr miss ↦ Owns-other p a x ys h.1 (rw miss at e)
  ]
    where
      found : p y ≡ true → y ≡ a
      found hit = ground (arith, hit, e)

  -- The row that a query found is the only one under its key.
  pub find?-Owns :
      (p : A → Bool) (a : A) (xs : List A) → HasDistinct xs → find? p xs ≡ some a → All (Owns a) xs
  find?-Owns p a [] h e = tt
  find?-Owns p a (x ∷ xs) h e = elim (Bool-cases (p x)) [
    | inl hit ↦ first (ground (arith, hit, e))
    | inr miss ↦ (Owns-other p a x xs h.0 (rw miss at e), find?-Owns p a xs h.1 (rw miss at e))
  ]
    where
      first : x ≡ a → All (Owns a) (x ∷ xs)
      first same = (λ _. same, Owns-rest a xs (rw same at h.0))
