-- ===== src/Prelude/Sort.antt =====
-- Python's `sorted`, a stable sort, as an insertion sort by a Boolean order.
use mathlib.Core.Path.{◌≡◌}
use mathlib.Core.Logic.{◌⊎◌, inl, inr}
use mathlib.Core.Bool.{Bool, true}
use mathlib.Core.List.{List, [], ◌∷◌, Perm}
use mathlib.Core.List.Perm
use native.Mathlib.Omega.{arith}
use market_trader.Prelude.Tests.{if◌then◌else◌, Bool-cases}
use market_trader.Prelude.Lists.{All, Mem, all_of_mem, All-of_forall}

module _ {A : Type 0} (le : A → A → Bool) where
  unfoldable pub insert_sorted : A → List A → List A
  insert_sorted x [] = x ∷ []
  insert_sorted x (y ∷ ys) =
      let rest = insert_sorted x ys in if le x y then x ∷ y ∷ ys else y ∷ rest

  unfoldable pub sort_by : List A → List A
  unfolding insert_sorted
  sort_by [] = []
  sort_by (x ∷ xs) = insert_sorted x (sort_by xs)

  -- Each element is below all that follow it.
  abbrev pub IsSorted : List A → Type 0
  IsSorted [] = Unit
  IsSorted (x ∷ xs) = All (λ y. le x y ≡ true) xs × IsSorted xs

module _ {A : Type 0} (le : A → A → Bool) where
  insert_sorted-perm : (x : A) (ys : List A) → Perm (insert_sorted le x ys) (x ∷ ys)
  unfolding insert_sorted
  insert_sorted-perm x [] = Perm.refl (x ∷ [])
  insert_sorted-perm x (y ∷ ys) = elim (Bool-cases (le x y)) [
    | inl e ↦ rw e (Perm.refl _)
    | inr e ↦ rw e (Perm.trans (Perm.cons y (insert_sorted-perm x ys)) (Perm.swap x y ys))
  ]

  pub sort_by-perm : (xs : List A) → Perm (sort_by le xs) xs
  unfolding sort_by
  sort_by-perm [] = Perm.refl []
  sort_by-perm (x ∷ xs) =
      Perm.trans (insert_sorted-perm x (sort_by le xs)) (Perm.cons x (sort_by-perm xs))

  insert_sorted-All {κ} :
      (P : A → Type κ) (x : A) (ys : List A) → P x → All P ys → All P (insert_sorted le x ys)
  unfolding insert_sorted
  insert_sorted-All P x [] p h = (p, h)
  insert_sorted-All P x (y ∷ ys) p h = elim (Bool-cases (le x y)) [
    | inl e ↦ rw e (p, h)
    | inr e ↦ rw e (h.0, insert_sorted-All P x ys p h.1)
  ]

  pub sort_by-All {κ} : (P : A → Type κ) (xs : List A) → All P xs → All P (sort_by le xs)
  unfolding sort_by
  sort_by-All P [] h = tt
  sort_by-All P (x ∷ xs) h = insert_sorted-All P x (sort_by le xs) h.0 (sort_by-All P xs h.1)

  insert_sorted-mem : (a x : A) (ys : List A) → (a ≡ x) ⊎ Mem a ys → Mem a (insert_sorted le x ys)
  unfolding insert_sorted
  insert_sorted-mem a x [] m = m
  insert_sorted-mem a x (y ∷ ys) m = ground (arith, insert_sorted-mem a x ys)

  pub sort_by-mem : (a : A) (xs : List A) → Mem a xs → Mem a (sort_by le xs)
  unfolding sort_by
  sort_by-mem a [] m = m
  sort_by-mem a (x ∷ xs) m =
      insert_sorted-mem a x (sort_by le xs) (ground (arith, sort_by-mem a xs))

  pub mem-sort_by : (a : A) (xs : List A) → Mem a (sort_by le xs) → Mem a xs
  mem-sort_by a xs m =
      all_of_mem (λ b. Mem b xs) a (sort_by le xs)
        (sort_by-All (λ b. Mem b xs) xs (All-of_forall (λ b. Mem b xs) xs (λ b n. n))) m

module _ {A : Type 0} (le : A → A → Bool) (le_total : (a b : A) → (le a b ≡ true) ⊎ (le b a ≡ true))
    (le_trans : (a b c : A) → le a b ≡ true → le b c ≡ true → le a c ≡ true) where
  All-above :
      (x y : A) (ys : List A)
      → le x y ≡ true
      → All (λ z. le y z ≡ true) ys
      → All (λ z. le x z ≡ true) ys
  All-above x y [] h k = tt
  All-above x y (z ∷ zs) h k = (le_trans x y z h k.0, All-above x y zs h k.1)

  insert_sorted-IsSorted :
      (x : A) (ys : List A) → IsSorted le ys → IsSorted le (insert_sorted le x ys)
  unfolding insert_sorted
  insert_sorted-IsSorted x [] h = (tt, tt)
  insert_sorted-IsSorted x (y ∷ ys) h = elim (Bool-cases (le x y)) [
    | inl e ↦ rw e ((e, All-above x y ys e h.0), h)
    | inr e ↦ rw e (
      insert_sorted-All le _ x ys (ground (arith, le_total x y)) h.0,
      insert_sorted-IsSorted x ys h.1,
    )
  ]

  pub sort_by-IsSorted : (xs : List A) → IsSorted le (sort_by le xs)
  unfolding sort_by
  sort_by-IsSorted [] = tt
  sort_by-IsSorted (x ∷ xs) = insert_sorted-IsSorted x (sort_by le xs) (sort_by-IsSorted xs)
