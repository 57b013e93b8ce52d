-- ===== src/Prelude/Dict.antt =====
-- Python's `dict`, in insertion order: a key that is written again keeps its place.
use mathlib.Core.Path.{◌≡◌, refl, ◌∙◌}
use mathlib.Core.Logic.{◌↔◌, ◌⊎◌, inl, inr}
use mathlib.Core.Bool.{Bool, true, false, ◌||◌}
use mathlib.Core.Option.{Option, none, some}
use mathlib.Core.List.{List, [], ◌∷◌}
use native.Mathlib.Omega.{arith}
use Prim.Native.Nat.{◌+◌}
use market_trader.Prelude.Tests.{if◌then◌else◌, Bool-cases, Option-cases}
use market_trader.Prelude.Lists.{All, Mem, length, All-of_forall}
use market_trader.Prelude.Eq.{Eq, ◌==◌}

abbrev pub Dict : Type 0 → Type 0 → Type 0
Dict K V = List (K × V)

module _ {K V : Type 0} where
  abbrev pub keys : Dict K V → List K
  keys [] = []
  keys ((k, v) ∷ d) = k ∷ keys d

  abbrev pub values : Dict K V → List V
  values [] = []
  values ((k, v) ∷ d) = v ∷ values d

module _ {K V : Type 0} ⦃e : Eq K⦄ where
  -- `d.get(k)`
  abbrev pub lookup : K → Dict K V → Option V
  lookup k [] = none
  lookup k ((j, v) ∷ d) = let rest = lookup k d in if j == k then some v else rest

  -- `k in d`
  abbrev pub contains : K → Dict K V → Bool
  contains k [] = false
  contains k ((j, v) ∷ d) = j == k || contains k d

  -- `d.get(k, default)`
  abbrev pub get_or : K → V → Dict K V → V
  get_or k v d = elim (lookup k d) [ none ↦ v | some w ↦ w ]

  -- `d[k] = v`
  abbrev pub insert : K → V → Dict K V → Dict K V
  insert k v [] = (k, v) ∷ []
  insert k v ((j, w) ∷ d) = let rest = insert k v d in if j == k then (j, v) ∷ d else (j, w) ∷ rest

  -- `del d[k]`
  abbrev pub erase : K → Dict K V → Dict K V
  erase k [] = []
  erase k ((j, w) ∷ d) = let rest = erase k d in if j == k then d else (j, w) ∷ rest

  -- `d[k] = v` for each pair in turn.
  abbrev pub insert_all : List (K × V) → Dict K V → Dict K V
  insert_all [] d = d
  insert_all ((k, v) ∷ es) d = insert_all es (insert k v d)

  -- No key stands twice.
  abbrev pub IsNodup : Dict K V → Type 0
  IsNodup [] = Unit
  IsNodup ((k, v) ∷ d) = (lookup k d ≡ none) × IsNodup d

module _ {K V : Type 0} ⦃e : Eq K⦄ where
  pub lookup-insert :
      (j k : K) (v : V) (d : Dict K V)
      → lookup j (insert k v d) ≡ (if k == j then some v else lookup j d)
  lookup-insert j k v [] = refl
  lookup-insert j k v ((i, w) ∷ d) =
      ground (arith, lookup-insert j k v d, e.beq_iff i k, e.beq_iff i j, e.beq_iff k j)

  pub insert-IsNodup : (k : K) (v : V) (d : Dict K V) → IsNodup d → IsNodup (insert k v d)
  insert-IsNodup k v [] h = (refl, tt)
  insert-IsNodup k v ((i, w) ∷ d) h =
      ground (arith, insert-IsNodup k v d h.1, lookup-insert i k v d, e.beq_iff i k, e.beq_iff k i)

  pub insert_all-IsNodup :
      (es : List (K × V)) (d : Dict K V) → IsNodup d → IsNodup (insert_all es d)
  insert_all-IsNodup [] d h = h
  insert_all-IsNodup ((k, v) ∷ es) d h =
      insert_all-IsNodup es (insert k v d) (insert-IsNodup k v d h)

  pub contains-eq-lookup : (k : K) (d : Dict K V) → (contains k d ≡ false) ↔ (lookup k d ≡ none)
  contains-eq-lookup k [] = ground arith
  contains-eq-lookup k ((j, v) ∷ d) = ground (arith, contains-eq-lookup k d)

  pub keys-insert_old :
      (k : K) (v w : V) (d : Dict K V) → lookup k d ≡ some w → keys (insert k v d) ≡ keys d
  keys-insert_old k v w [] h = cc
  keys-insert_old k v w ((i, u) ∷ d) h = ground (arith, keys-insert_old k v w d)

  pub length-insert :
      (k : K) (v : V) (d : Dict K V)
      → length (insert k v d) ≡ (if contains k d then length d else length d + 1)
  length-insert k v [] = omega arith
  length-insert k v ((i, u) ∷ d) = ground (arith, length-insert k v d)

  pub All-insert {κ} :
      (P : K × V → Type κ) (k : K) (v : V) (d : Dict K V)
      → ((j : K) → (j == k) ≡ true → P (j, v))
      → P (k, v)
      → All P d
      → All P (insert k v d)
  All-insert P k v [] r p h = (p, tt)
  All-insert P k v ((i, u) ∷ d) r p h = elim (Bool-cases (i == k)) [
    | inl t ↦ rw t (r i t, h.1)
    | inr t ↦ rw t (h.0, All-insert P k v d r p h.1)
  ]

  -- Writing the value that is there changes nothing.
  pub insert_self : (k : K) (v : V) (d : Dict K V) → lookup k d ≡ some v → insert k v d ≡ d
  insert_self k v [] h = cc
  insert_self k v ((i, u) ∷ d) h = ground (arith, insert_self k v d)

  -- Two dicts with the same keys in the same order, none twice, and the same lookups are equal.
  pub ext :
      (c d : Dict K V)
      → keys c ≡ keys d
      → IsNodup c
      → IsNodup d
      → ((k : K) → lookup k c ≡ lookup k d)
      → c ≡ d
  ext [] [] ks n m h = refl
  ext [] ((k, v) ∷ d) ks n m h = cc
  ext ((k, v) ∷ c) [] ks n m h = cc
  ext ((k, v) ∷ c) ((j, w) ∷ d) ks n m h =
      let rest = ext c d (cc) n.1 m.1 (λ i. ground (arith, h i, e.beq_iff k i, e.beq_iff j i)) in
      ground (arith, h k, e.beq_iff k k, e.beq_iff j k)

  -- The value that the last pair with the key `j` writes.
  pub last_written : K → List (K × V) → Option V
  last_written j [] = none
  last_written j ((k, v) ∷ es) = elim (last_written j es) [
    | some w ↦ some w
    | none ↦ if k == j then some v else none
  ]

  pub lookup-insert_all :
      (j : K) (es : List (K × V)) (d : Dict K V)
      → lookup j (insert_all es d)
        ≡ (elim (last_written j es) [ some w ↦ some w | none ↦ lookup j d ])
  unfolding last_written
  lookup-insert_all j [] d = refl
  lookup-insert_all j ((k, v) ∷ es) d =
      rw (lookup-insert_all j es (insert k v d)) (ground (arith, lookup-insert j k v d))

  pub last_written_mem :
      (k : K) (v : V) (es : List (K × V)) → Mem (k, v) es → (w : V) × (last_written k es ≡ some w)
  unfolding last_written
  last_written_mem k v [] m = absurd m
  last_written_mem k v ((j, u) ∷ es) m = elim (Option-cases (last_written k es)) [
    | inl t ↦ elim m [
      | inl r ↦ (u, rw (t, last_written) (ground (arith, e.beq_iff j k)))
      | inr r ↦ let found = last_written_mem k v es r in absurd (cc (found.1))
    ]
    | inr t ↦ (t.0, rw (t.1, last_written))
  ]

  abbrev HasKey : Dict K V → K × V → Type 0
  HasKey d x = (w : V) × (lookup x.0 d ≡ some w)

  insert-HasKey :
      (k : K) (v : V) (d : Dict K V) (es : List (K × V))
      → All (HasKey d) es
      → All (HasKey (insert k v d)) es
  insert-HasKey k v d [] h = tt
  insert-HasKey k v d ((j, u) ∷ es) h = (
    elim (Bool-cases (k == j)) [
      | inl t ↦ (v, rw (lookup-insert j k v d) (rw t))
      | inr t ↦ (h.0.0, rw (lookup-insert j k v d) (rw t h.0.1))
    ],
    insert-HasKey k v d es h.1,
  )

  insert_all-HasKey : (es : List (K × V)) (d : Dict K V) → All (HasKey (insert_all es d)) es
  insert_all-HasKey es d = All-of_forall (HasKey (insert_all es d)) es λ x m.
      let found = last_written_mem x.0 x.1 es m in
      (found.0, rw (lookup-insert_all x.0 es d) (rw (found.1)))

  keys-insert_all :
      (es : List (K × V)) (d : Dict K V) → All (HasKey d) es → keys (insert_all es d) ≡ keys d
  keys-insert_all [] d h = refl
  keys-insert_all ((k, v) ∷ es) d h =
      keys-insert_all es (insert k v d) (insert-HasKey k v d es h.1)
      ∙ keys-insert_old k v h.0.0 d h.0.1

  -- Writing the same pairs once more changes nothing.
  pub insert_all_idem :
      (es : List (K × V)) (d : Dict K V)
      → IsNodup d
      → insert_all es (insert_all es d) ≡ insert_all es d
  insert_all_idem es d n =
      let m = insert_all-IsNodup es d n in
      ext (insert_all es (insert_all es d)) (insert_all es d)
        (keys-insert_all es _ (insert_all-HasKey es d)) (insert_all-IsNodup es _ m) m
        (λ k. ground (arith, lookup-insert_all k es (insert_all es d), lookup-insert_all k es d))

  pub mem-values-insert :
      (r : V) (k : K) (v : V) (d : Dict K V)
      → Mem r (values (insert k v d))
      → (r ≡ v) ⊎ Mem r (values d)
  mem-values-insert r k v [] m = m
  mem-values-insert r k v ((j, w) ∷ d) m = ground (arith, mem-values-insert r k v d)

  pub mem-values-insert_self : (k : K) (v : V) (d : Dict K V) → Mem v (values (insert k v d))
  mem-values-insert_self k v [] = inl refl
  mem-values-insert_self k v ((j, w) ∷ d) = ground (arith, mem-values-insert_self k v d)
