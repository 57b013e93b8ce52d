-- ===== src/Prelude/Lists.antt =====
-- Lists over the native numbers, Boolean filters, and predicates by recursion.
use Prim.Native.Nat.{ℕ, zero, suc, ◌+◌, ◌≤◌}
use mathlib.Core.Path.{◌≡◌, refl}
use mathlib.Core.Logic.{◌⊎◌, inl, inr}
use mathlib.Core.Bool.{Bool, true, false, ◌&&◌, ◌||◌}
use mathlib.Core.List.{List, [], ◌∷◌, ◌++◌}
use mathlib.Core.Option.{Option, none, some}
use native.Mathlib.Omega.{arith}
use market_trader.Prelude.Tests.{if◌then◌else◌, Bool-cases}

module _ {ℓ} {A : Type ℓ} where
  abbrev pub length : List A → ℕ
  length [] = 0
  length (x ∷ xs) = suc (length xs)

  abbrev pub get_elem? : List A → ℕ → Option A
  get_elem? [] i = none
  get_elem? (x ∷ xs) zero = some x
  get_elem? (x ∷ xs) (suc i) = get_elem? xs i

  -- `xs[:n]`
  abbrev pub take : ℕ → List A → List A
  take zero xs = []
  take (suc n) [] = []
  take (suc n) (x ∷ xs) = x ∷ take n xs

  abbrev pub drop : ℕ → List A → List A
  drop zero xs = xs
  drop (suc n) [] = []
  drop (suc n) (x ∷ xs) = drop n xs

  -- A list comprehension's `if`.
  abbrev pub filter : (A → Bool) → List A → List A
  filter p [] = []
  filter p (x ∷ xs) = let rest = filter p xs in if p x then x ∷ rest else rest

  -- `any(... for ...)` and `all(... for ...)`.
  abbrev pub any : (A → Bool) → List A → Bool
  any p [] = false
  any p (x ∷ xs) = p x || any p xs

  abbrev pub all : (A → Bool) → List A → Bool
  all p [] = true
  all p (x ∷ xs) = p x && all p xs

  abbrev pub All {κ} : (A → Type κ) → List A → Type κ
  All P [] = Unit
  All P (x ∷ xs) = P x × All P xs

-- Membership by recursion, so that the tactics can open it; the library's is truncated.
abbrev pub Mem : {A : Type 0} → A → List A → Type 0
Mem a [] = ⊥
Mem a (x ∷ xs) = (a ≡ x) ⊎ Mem a xs

module _ {ℓ} {A : Type ℓ} where
  pub length-append : (xs ys : List A) → length (xs ++ ys) ≡ length xs + length ys
  length-append [] ys = omega arith
  length-append (x ∷ xs) ys = omega (arith, length-append xs ys)

  pub length-filter-le : (p : A → Bool) (xs : List A) → length (filter p xs) ≤ length xs
  length-filter-le p [] = omega arith
  length-filter-le p (x ∷ xs) = ground (arith, length-filter-le p xs)

  pub filter-append :
      (p : A → Bool) (xs ys : List A) → filter p (xs ++ ys) ≡ filter p xs ++ filter p ys
  filter-append p [] ys = refl
  filter-append p (x ∷ xs) ys = ground (arith, filter-append p xs ys)

  pub filter-filter :
      (p q : A → Bool) (xs : List A) → filter p (filter q xs) ≡ filter (λ x. q x && p x) xs
  filter-filter p q [] = refl
  filter-filter p q (x ∷ xs) = elim (Bool-cases (q x)) [
    | inl e ↦ ground (arith, filter-filter p q xs)
    | inr e ↦ ground (arith, filter-filter p q xs)
  ]

module _ {ℓ κ} {A : Type ℓ} (P : A → Type κ) where
  pub All-append : (xs ys : List A) → All P xs → All P ys → All P (xs ++ ys)
  All-append [] ys h k = k
  All-append (x ∷ xs) ys h k = (h.0, All-append xs ys h.1 k)

  -- What a filter keeps passes its test, and has what all had before.
  pub All-filter :
      (p : A → Bool) (xs : List A) → All P xs → All (λ x. P x × (p x ≡ true)) (filter p xs)
  All-filter p [] h = tt
  All-filter p (x ∷ xs) h = elim (Bool-cases (p x)) [
    | inl e ↦ rw e ((h.0, e), All-filter p xs h.1)
    | inr e ↦ rw e (All-filter p xs h.1)
  ]

pub All-map {ℓ κ μ} :
    {A : Type ℓ} (P : A → Type κ) (Q : A → Type μ) (xs : List A)
    → ((a : A) → P a → Q a)
    → All P xs
    → All Q xs
All-map P Q [] g h = tt
All-map P Q (x ∷ xs) g h = (g x h.0, All-map P Q xs g h.1)

module _ {A : Type 0} where
  pub mem-filter :
      (p : A → Bool) (a : A) (xs : List A) → Mem a (filter p xs) → Mem a xs × (p a ≡ true)
  mem-filter p a [] m = absurd m
  mem-filter p a (x ∷ xs) m = ground (arith, mem-filter p a xs)

  pub mem-filter_of :
      (p : A → Bool) (a : A) (xs : List A) → Mem a xs → p a ≡ true → Mem a (filter p xs)
  mem-filter_of p a [] m e = absurd m
  mem-filter_of p a (x ∷ xs) m e = ground (arith, mem-filter_of p a xs)

  pub all_of_mem {κ} : (P : A → Type κ) (a : A) (xs : List A) → All P xs → Mem a xs → P a
  all_of_mem P a [] h m = absurd m
  all_of_mem P a (x ∷ xs) h (inl e) = rw e h.0
  all_of_mem P a (x ∷ xs) h (inr m) = all_of_mem P a xs h.1 m

  pub All-of_forall {κ} : (P : A → Type κ) (xs : List A) → ((a : A) → Mem a xs → P a) → All P xs
  All-of_forall P [] h = tt
  All-of_forall P (x ∷ xs) h = (h x (inl refl), All-of_forall P xs (λ a m. h a (inr m)))

  pub mem-append_left : (a : A) (xs ys : List A) → Mem a xs → Mem a (xs ++ ys)
  mem-append_left a [] ys m = absurd m
  mem-append_left a (x ∷ xs) ys (inl e) = inl e
  mem-append_left a (x ∷ xs) ys (inr m) = inr (mem-append_left a xs ys m)

  pub mem-append_right : (a : A) (xs ys : List A) → Mem a ys → Mem a (xs ++ ys)
  mem-append_right a [] ys m = m
  mem-append_right a (x ∷ xs) ys m = inr (mem-append_right a xs ys m)

  pub mem-append : (a : A) (xs ys : List A) → Mem a (xs ++ ys) → Mem a xs ⊎ Mem a ys
  mem-append a [] ys m = inr m
  mem-append a (x ∷ xs) ys (inl e) = inl (inl e)
  mem-append a (x ∷ xs) ys (inr m) = elim (mem-append a xs ys m) [
    | inl k ↦ inl (inr k)
    | inr k ↦ inr k
  ]

module _ {A : Type 0} where
  pub mem-take : (a : A) (n : ℕ) (xs : List A) → Mem a (take n xs) → Mem a xs
  mem-take a zero xs m = absurd m
  mem-take a (suc n) [] m = absurd m
  mem-take a (suc n) (x ∷ xs) (inl e) = inl e
  mem-take a (suc n) (x ∷ xs) (inr m) = inr (mem-take a n xs m)

  pub length-take-le : (n : ℕ) (xs : List A) → length (take n xs) ≤ n
  length-take-le zero xs = omega arith
  length-take-le (suc n) [] = omega arith
  length-take-le (suc n) (x ∷ xs) = omega (arith, length-take-le n xs)
