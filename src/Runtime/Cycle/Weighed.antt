-- ===== src/Runtime/Cycle/Weighed.antt =====
-- The names that a weighing gives a weight.
use mathlib.Core.Path.{subst}
use mathlib.Core.Option.{some-injective}
use market_trader.Prelude.{
  String, ◌≡◌, refl, Option, none, some, List, [], ◌∷◌, map, filter, length, All, Bool-cases, inl,
  inr, ◌⊎◌, leb, if◌then◌else◌,
}
use market_trader.Prelude.Eq.{◌==◌, string_eq}
use market_trader.Prelude.Order.{codes}
use market_trader.Prelude.Dict.{Dict}
use market_trader.Float.{Float, nought}
use market_trader.Portfolio.Risk.{Weights}
use market_trader.Runtime.Cycle.Weighting.{
  Matrix, columns, risk_weights, conviction_weights, inverse_weights, or_equal, is_vol, shares,
  inverse_at,
}
use market_trader.Runtime.Cycle.Exits.{present}
use market_trader.Runtime.Cycle.Keys.{Named, labels-Named}

List-cases : (xs : List String) → (xs ≡ []) ⊎ ((x : String) × (ys : List String) × (xs ≡ x ∷ ys))
List-cases [] = inl refl
List-cases (x ∷ xs) = inr (x, xs, refl)

module _ {F : Type 0} ⦃f : Float F⦄ where
  shares-Named :
      (P : String → Type 0) (weight : String → F) (ns : List String) (v : Weights F)
      → All P ns
      → shares weight ns ≡ some v
      → Named P v
  unfolding shares
  shares-Named P weight ns v h e = elim (Bool-cases (f.lt nought (f.sum (map weight ns)))) [
    | inl t ↦ subst (Named P) (some-injective _ _ (rw t at e)) (labels-Named P _ ns h)
    | inr t ↦ absurd (cc (rw t at e))
  ]

  conviction_weights-Named :
      (P : String → Type 0) (selected : List String) (scores : Dict String F) (v : Weights F)
      → All P selected
      → conviction_weights selected scores ≡ some v
      → Named P v
  unfolding conviction_weights
  conviction_weights-Named P [] scores v h e = absurd (cc)
  conviction_weights-Named P (n ∷ ns) scores v h e = shares-Named P _ (n ∷ ns) v h e

  inverse_weights-Named :
      (P : String → Type 0) (selected : List String) (matrix : Matrix F) (v : Weights F)
      → All P selected
      → inverse_weights selected matrix ≡ some v
      → Named P v
  unfolding inverse_weights
  inverse_weights-Named P selected matrix v h e =
      elim (List-cases (filter (λ c. is_vol (codes c)) (columns matrix))) [
        | inl g ↦ absurd (cc (rw (g, inverse_weights) at e))
        | inr (c, cs, g) ↦
            let e' = rw (g, inverse_weights) at e in
            elim (Bool-cases (leb 1 (length (present (map (inverse_at matrix c) selected))))) [
              | inl t ↦ shares-Named P _ selected v h (rw t at e')
              | inr t ↦ absurd (cc (rw t at e'))
            ]
      ]

  or_equal-Named :
      (P : String → Type 0) (selected : List String) (o : Option (Weights F))
      → All P selected
      → ((v : Weights F) → o ≡ some v → Named P v)
      → Named P (or_equal selected o)
  or_equal-Named P selected none h g = labels-Named P _ selected h
  or_equal-Named P selected (some v) h g = g v refl

  -- However the selected names are weighed, no other gets a weight.
  pub risk_weights-Named :
      (P : String → Type 0) (selected : List String) (matrix : Matrix F) (mode : String)
      (scores : Dict String F)
      → All P selected
      → Named P (risk_weights selected matrix mode scores)
  unfolding risk_weights
  risk_weights-Named P selected matrix mode scores h =
      or_equal-Named P selected
        (if mode == "conviction"
          then conviction_weights selected scores
          else if mode == "inverse_vol"
          then inverse_weights selected matrix
          else none)
        h
        (λ v e. elim (Bool-cases (mode == "conviction")) [
          | inl a ↦ conviction_weights-Named P selected scores v h (rw a at e)
          | inr a ↦ elim (Bool-cases (mode == "inverse_vol")) [
            | inl b ↦ inverse_weights-Named P selected matrix v h (rw b at (rw a at e))
            | inr b ↦ absurd (cc (rw b at (rw a at e)))
          ]
        ])
