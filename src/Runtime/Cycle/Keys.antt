-- ===== src/Runtime/Cycle/Keys.antt =====
-- The names of a book: sizing, weighing and the limits add none.
use mathlib.Core.Path.{subst}
use mathlib.Core.Option.{some-injective}
use market_trader.Prelude.{
  String, ◌≡◌, Bool, true, false, Option, none, some, List, [], ◌∷◌, map, filter, All, Bool-cases,
  Option-cases, inl, inr, if◌then◌else◌,
}
use market_trader.Prelude.Eq.{string_eq}
use market_trader.Prelude.Dict.{Dict, lookup, keys}
use market_trader.Float.{Float}
use market_trader.Core.Time.{Instant}
use market_trader.Storage.Bitemporal.{Store, as_of, by_dataset}
use market_trader.Portfolio.Risk.{Weights, RiskLimits}
use market_trader.Portfolio.Risk.Limits.{
  apply_risk_limits, scale_where, cap_gross, cap_net, clip, everyone,
}
use market_trader.Portfolio.Sizing.{
  Numerics, drop_partial, volatility_target_weights, size_book, sized_weights, tilt_weights,
  labelled, whole_column,
}
use market_trader.Backtest.Pit.{Frame, observations_to_price_frame}
use market_trader.Runtime.Sleeve.{price_dataset}
use market_trader.Runtime.Cycle.Weighting.{
  returns_of, trailing_returns, vol_target_weights, book_columns,
}

-- `P` holds of each name.
pub record Named {V : Type 0} (P : String → Type 0) (d : Dict String V) : Type 0 where
  pub names : All P (keys d)

frame_of :
    {F : Type 0} (all fr : Frame F)
    → (elim all as (λ x. Option (Frame F)) [ [] ↦ none | (c ∷ cs) ↦ some (c ∷ cs) ]) ≡ some fr
    → all ≡ fr
frame_of [] fr e = absurd (cc)
frame_of (c ∷ cs) fr e = some-injective _ _ e

module _ (P : String → Type 0) where
  pub empty-Named : {V : Type 0} → Named {V = V} P []
  empty-Named = record { names = tt }

  cons-Named :
      {V : Type 0} (n : String) (v : V) (d : Dict String V) → P n → Named P d → Named P ((n, v) ∷ d)
  cons-Named n v d p h = record { names = (p, h.names) }

  tail_Named :
      {V : Type 0} {n : String} {v : V} {d : Dict String V} → Named P ((n, v) ∷ d) → Named P d
  tail_Named h = record { names = h.names.1 }

  map-keys :
      {V W : Type 0} (g : String × V → W) (d : Dict String V)
      → All P (keys d)
      → All P (keys (map (λ (kv : String × V). (kv.0, g kv)) d))
  map-keys g [] h = tt
  map-keys g (kv ∷ d) h = (h.0, map-keys g d h.1)

  map-Named :
      {V W : Type 0} (g : String × V → W) (d : Dict String V)
      → Named P d
      → Named P (map (λ (kv : String × V). (kv.0, g kv)) d)
  map-Named g d h = record { names = map-keys g d h.names }

  labels-keys :
      {V : Type 0} (g : String → V) (ns : List String)
      → All P ns
      → All P (keys (map (λ s. (s, g s)) ns))
  labels-keys g [] h = tt
  labels-keys g (n ∷ ns) h = (h.0, labels-keys g ns h.1)

  pub labels-Named :
      {V : Type 0} (g : String → V) (ns : List String) → All P ns → Named P (map (λ s. (s, g s)) ns)
  labels-Named g ns h = record { names = labels-keys g ns h }

  filter-keys :
      {V : Type 0} (p : String × V → Bool) (d : Dict String V)
      → All P (keys d)
      → All P (keys (filter p d))
  filter-keys p [] h = tt
  filter-keys p (kv ∷ d) h = elim (Bool-cases (p kv)) [
    | inl e ↦ rw e (h.0, filter-keys p d h.1)
    | inr e ↦ rw e (filter-keys p d h.1)
  ]

  filter-Named :
      {V : Type 0} (p : String × V → Bool) (d : Dict String V) → Named P d → Named P (filter p d)
  filter-Named p d h = record { names = filter-keys p d h.names }

  pub if-Named :
      {V : Type 0} (b : Bool) (d e : Dict String V)
      → Named P d
      → Named P e
      → Named P (if b then d else e)
  if-Named true d e h k = h
  if-Named false d e h k = k

  module _ {F : Type 0} ⦃f : Float F⦄ where
    scale_where-Named :
        (selected : String × F → Bool) (k : F) (w : Weights F)
        → Named P w
        → Named P (scale_where selected k w)
    unfolding scale_where
    scale_where-Named selected k w h = map-Named _ w h

    -- Without sectors, the limits only clip, scale and drop weights.
    pub apply_risk_limits-Named :
        (listing : List String → List String) (limits : RiskLimits F) (w : Weights F)
        → Named P w
        → Named P (apply_risk_limits listing none limits w)
    unfolding apply_risk_limits cap_gross cap_net
    apply_risk_limits-Named listing limits w h =
        let clipped : Weights F = map (λ kv. (kv.0, clip limits.max_position_weight kv.1)) w in
        let hc : Named P clipped = map-Named _ w h in
        let hg : Named P (cap_gross limits.max_gross_exposure clipped) =
          if-Named _ _ clipped (scale_where-Named everyone _ clipped hc) hc in
        filter-Named _ _ (if-Named _ _ _ (scale_where-Named _ _ _ hg) hg)

  module _ {F : Type 0} ⦃f : Float F⦄ (np : Numerics F) where
    drop_partial-Named : (fr : Frame F) → Named P fr → Named P (drop_partial fr)
    unfolding drop_partial
    drop_partial-Named [] h = empty-Named
    drop_partial-Named ((s, column) ∷ rest) h = elim (Option-cases (whole_column column)) [
      | inl e ↦ rw (e, drop_partial) (drop_partial-Named rest (tail_Named h))
      | inr (xs, e) ↦
          rw (e, drop_partial)
            (cons-Named s xs _ h.names.0 (drop_partial-Named rest (tail_Named h)))
    ]

    volatility_target_weights-Named :
        (window : Dict String (List F)) (target_vol : F) (w : Weights F)
        → Named P w
        → Named P (volatility_target_weights np window target_vol w)
    unfolding volatility_target_weights
    volatility_target_weights-Named window target_vol w h = if-Named _ w _ h (map-Named _ w h)

    labelled-Named :
        (names : List String) (xs : List F) → All P names → Named P (labelled np names xs)
    unfolding labelled
    labelled-Named [] xs h = empty-Named
    labelled-Named (s ∷ ss) [] h = empty-Named
    labelled-Named (s ∷ ss) (x ∷ xs) h = cons-Named s x _ h.0 (labelled-Named ss xs h.1)

    tilt_weights-Named :
        (scores : Option (Dict String F)) (names : List String) (k : F)
        → All P names
        → Named P (tilt_weights np scores names k)
    unfolding tilt_weights
    tilt_weights-Named none names k h = labels-Named _ names h
    tilt_weights-Named (some scores) names k h =
        if-Named _ _ _ (labels-Named _ names h)
          (if-Named _ _ _ (labelled-Named names _ h) (labels-Named _ names h))

    sized_weights-Named :
        (fr : Frame F) (target_vol : F) (scores : Option (Dict String F)) (k derisk : F)
        → Named P fr
        → Named P (sized_weights np fr target_vol scores k derisk)
    unfolding sized_weights
    sized_weights-Named fr target_vol scores k derisk h =
        let raw = tilt_weights-Named scores (keys fr) k (h.names) in
        let window = (drop_partial-Named fr h).names in
        if-Named _ _ _
          (volatility_target_weights-Named (drop_partial fr) _ _ (
            let book = labels-Named _ (keys (drop_partial fr)) window in
            if-Named _ _ _ (map-Named _ _ book) book))
          (map-Named _ _ raw)

    pub size_book-Named :
        (fr : Frame F) (target_vol : F) (limits : RiskLimits F) (scores : Option (Dict String F))
        (k derisk : F)
        → Named P fr
        → Named P (size_book np fr target_vol limits scores k derisk)
    unfolding size_book
    size_book-Named [] target_vol limits scores k derisk h = empty-Named
    size_book-Named (c ∷ cs) target_vol limits scores k derisk h =
        apply_risk_limits-Named _ limits _
          (filter-Named _ _ (sized_weights-Named (c ∷ cs) target_vol scores k derisk h))

    returns_of-Named :
        (panel : Frame F) (names : List String) → All P names → Named P (returns_of np panel names)
    unfolding returns_of
    returns_of-Named panel [] h = empty-Named
    returns_of-Named panel (s ∷ ss) h = elim (Option-cases (lookup s panel)) [
      | inl e ↦ rw (e, returns_of) (returns_of-Named panel ss h.1)
      | inr (column, e) ↦ rw (e, returns_of) (cons-Named s _ _ h.0 (returns_of-Named panel ss h.1))
    ]

    book_columns-Named : (w : Weights F) (fr : Frame F) → Named P w → Named P (book_columns np w fr)
    unfolding book_columns
    book_columns-Named [] fr h = empty-Named
    book_columns-Named ((s, x) ∷ w) fr h = elim (Option-cases (lookup s fr)) [
      | inl e ↦ rw (e, book_columns) (book_columns-Named w fr (tail_Named h))
      | inr (column, e) ↦
          rw (e, book_columns)
            (cons-Named s column _ h.names.0 (book_columns-Named w fr (tail_Named h)))
    ]

    pub vol_target_weights-Named :
        (w : Weights F) (fr : Frame F) (target_vol max_gross : F)
        → Named P w
        → Named P (vol_target_weights np w fr target_vol max_gross)
    unfolding vol_target_weights
    vol_target_weights-Named w fr target_vol max_gross h =
        let window = drop_partial (book_columns np w fr) in
        let names = (drop_partial-Named _ (book_columns-Named w fr h)).names in
        let scaled = volatility_target_weights-Named window target_vol _ (labels-Named _ _ names) in
        if-Named _ w _ h (filter-Named _ _ (if-Named _ _ _ (map-Named _ _ scaled) scaled))

    pub trailing_returns-Named :
        (s : Store F) (at : Instant) (ns : List String) (fr : Frame F)
        → All P ns
        → trailing_returns np s at ns ≡ some fr
        → Named P fr
    unfolding trailing_returns
    trailing_returns-Named s at ns fr h e =
        let all =
          returns_of np (observations_to_price_frame (as_of at (by_dataset price_dataset) s)) ns in
        subst (Named P) (frame_of all fr e) (returns_of-Named _ ns h)
