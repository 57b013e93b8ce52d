-- ===== src/Prelude/Order.antt =====
-- Total orders for Python's comparisons: of numbers, and the lexicographic order of sequences,
-- which is that of tuples and, over code points, that of text.
use Prim.Native.Char.{code}
use Prim.Native.Nat.{ℕ}
use Prim.Native.String.{String}
use mathlib.Core.Path.{◌≡◌, refl}
use mathlib.Core.Logic.{◌⊎◌, inl, inr}
use mathlib.Core.Bool.{Bool, true, false}
use mathlib.Core.List.{List, [], ◌∷◌}
use native.Mathlib.Omega.{arith}
use market_trader.Prelude.Tests.{leb, if◌then◌else◌}

pub record Ord {ℓ} (A : Type ℓ) : Type ℓ where
  pub le : A → A → Bool
  pub le_total : (a b : A) → (le a b ≡ true) ⊎ (le b a ≡ true)
  pub le_trans : (a b c : A) → le a b ≡ true → le b c ≡ true → le a c ≡ true

pub leb_total : (a b : ℕ) → (leb a b ≡ true) ⊎ (leb b a ≡ true)
leb_total a b = ground arith

pub leb_trans : (a b c : ℕ) → leb a b ≡ true → leb b c ≡ true → leb a c ≡ true
leb_trans a b c h k = ground arith

instance abbrev pub nat_ord : Ord ℕ
nat_ord = record { le = leb; le_total = leb_total; le_trans = leb_trans }

module _ {ℓ} {A : Type ℓ} ⦃o : Ord A⦄ where
  abbrev pub lex_le : List A → List A → Bool
  lex_le [] ys = true
  lex_le (x ∷ xs) [] = false
  lex_le (x ∷ xs) (y ∷ ys) =
      let rest = lex_le xs ys in if o.le x y then (if o.le y x then rest else true) else false

  pub lex_le_total : (xs ys : List A) → (lex_le xs ys ≡ true) ⊎ (lex_le ys xs ≡ true)
  lex_le_total [] ys = inl refl
  lex_le_total (x ∷ xs) [] = inr refl
  lex_le_total (x ∷ xs) (y ∷ ys) = ground (arith, o.le_total x y, lex_le_total xs ys)

  pub lex_le_trans :
      (xs ys zs : List A) → lex_le xs ys ≡ true → lex_le ys zs ≡ true → lex_le xs zs ≡ true
  lex_le_trans [] ys zs h k = refl
  lex_le_trans (x ∷ xs) [] zs h k = ground arith
  lex_le_trans (x ∷ xs) (y ∷ ys) [] h k = ground arith
  lex_le_trans (x ∷ xs) (y ∷ ys) (z ∷ zs) h k =
      ground (arith, o.le_trans x y z, o.le_trans z x y, o.le_trans y z x, lex_le_trans xs ys zs)

  instance abbrev pub list_ord : Ord (List A)
  list_ord = record { le = lex_le; le_total = lex_le_total; le_trans = lex_le_trans }

-- The code points of a text.
abbrev pub codes : String → List ℕ
codes String.[] = []
codes (String.◌∷◌ c s) = code c ∷ codes s
