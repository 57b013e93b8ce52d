-- ===== src/Runtime/Cycle/Book.antt =====
-- The target book of the cycle, and the zeros that it adds for what it holds.
use market_trader.Prelude.{
  ℕ, String, ◌≡◌, refl, false, not, ◌&&◌, Option, none, some, List, [], ◌∷◌, filter, take, All, Mem,
  arith, inl, inr, leb, if◌then◌else◌, All-of_forall, mem-filter,
}
use market_trader.Prelude.Lists.{mem-append, mem-take}
use market_trader.Prelude.Eq.{string_eq}
use market_trader.Prelude.Dict.{Dict, keys}
use market_trader.Float.{Float}
use market_trader.Config.{Settings}
use market_trader.Core.Time.{Instant}
use market_trader.Storage.Bitemporal.{Store}
use market_trader.Portfolio.Risk.{Weights, RiskLimits}
use market_trader.Portfolio.Sizing.{Numerics, row_count, size_book}
use market_trader.Backtest.Pit.{Frame}
use market_trader.Runtime.Sleeve.{is_in}
use market_trader.Runtime.Cycle.Weighting.{
  Matrix, trailing_returns, select_with_hysteresis, cut, vol_target_weights,
}
use market_trader.Runtime.Cycle.Target.{
  Options, is_free, winners_of, winner_weights, whole_book, book_of, tilt_scores,
}
use market_trader.Runtime.Cycle.Keys.{
  Named, apply_risk_limits-Named, size_book-Named, trailing_returns-Named, vol_target_weights-Named,
  empty-Named, if-Named,
}
use market_trader.Runtime.Cycle.Weighed.{risk_weights-Named}

mem-cut : (cap : Option ℕ) (ns : List String) (n : String) → Mem n (cut cap ns) → Mem n ns
mem-cut none ns n m = m
mem-cut (some k) ns n m = mem-take n k ns m

module _ {F : Type 0} ⦃f : Float F⦄ (np : Numerics F) (settings : Settings F)
    (limits : RiskLimits F) (options : Options F) where
  -- A name that the cycle may hold: it is ranked, not stopped, and not reserved.
  pub record IsEligible (ranked : Dict String F) (stopped : List String) (n : String) : Type 0 where
    pub is_ranked : Mem n (keys ranked)
    pub not_stopped : is_in n stopped ≡ false
    pub not_reserved : is_in n options.reserved_symbols ≡ false

  filter-IsEligible :
      (ranked : Dict String F) (stopped ns : List String)
      → ((n : String) → Mem n ns → Mem n (keys ranked))
      → All
          (IsEligible ranked stopped)
          (filter (λ n. is_free stopped n && is_free options.reserved_symbols n) ns)
  filter-IsEligible ranked stopped ns sub =
      All-of_forall (IsEligible ranked stopped)
        (filter (λ n. is_free stopped n && is_free options.reserved_symbols n) ns)
        (λ n m.
          let (there, e) =
            mem-filter (λ (k : String). is_free stopped k && is_free options.reserved_symbols k) n
              ns m in
          record {
            is_ranked = sub n there;
            not_stopped = ground arith;
            not_reserved = ground arith;
          })

  mem-select :
      (ranked held : List String) (enter_k exit_k : ℕ) (cap : Option ℕ) (n : String)
      → Mem n (select_with_hysteresis ranked held enter_k exit_k cap)
      → Mem n ranked
  unfolding select_with_hysteresis
  mem-select ranked held enter_k exit_k cap n m =
      elim (mem-append n _ (filter (λ s. not (is_in s held)) (take enter_k ranked))
        (mem-cut cap _ n m)) [
          | inl a ↦ (mem-filter (λ s. is_in s held && is_in s (take exit_k ranked)) n ranked a).0
          | inr b ↦ mem-take n enter_k ranked (mem-filter (λ s. not (is_in s held)) n _ b).0
        ]

  winners_of-IsEligible :
      (ranked : Dict String F) (held stopped : List String)
      → All (IsEligible ranked stopped) (winners_of np settings limits options ranked held stopped)
  unfolding winners_of
  winners_of-IsEligible ranked held stopped =
      filter-IsEligible ranked stopped _ (λ n m. mem-select _ held _ _ _ n m)

  governed-Named :
      (P : String → Type 0) (base : Weights F) (o : Option (Frame F))
      → Named P base
      → Named P (elim o as (λ x. Weights F) [
        | none ↦ base
        | some returns ↦
            vol_target_weights np base returns settings.target_vol limits.max_gross_exposure
      ])
  governed-Named P base none h = h
  governed-Named P base (some returns) h = vol_target_weights-Named P np base returns _ _ h

  winner_weights-Named :
      (P : String → Type 0) (s : Store F) (at : Instant) (matrix : Matrix F)
      (ranked : Dict String F) (winners : List String)
      → All P winners
      → Named P (winner_weights np settings limits options s at matrix ranked winners)
  unfolding winner_weights
  winner_weights-Named P s at matrix ranked winners h =
      if-Named P _ _ _
        (governed-Named P _ (trailing_returns np s at winners)
          (risk_weights-Named P winners matrix "inverse_vol" ranked h))
        (risk_weights-Named P winners matrix options.risk_weighting ranked h)

  sized-Named :
      (P : String → Type 0) (ranked : Dict String F) (o : Option (Frame F))
      → ((fr : Frame F) → o ≡ some fr → Named P fr)
      → Named P (elim o as (λ x. Weights F) [
        | none ↦ []
        | some returns ↦
            if leb (row_count returns) 0
            then []
            else size_book np returns settings.target_vol limits
                (tilt_scores np settings limits options ranked)
                options.tilt_strength
                (f.lit 1 0)
      ])
  sized-Named P ranked none g = empty-Named P
  sized-Named P ranked (some returns) g =
      if-Named P _ _ _ (empty-Named P)
        (size_book-Named P np returns _ limits _ _ _ (g returns refl))

  whole_book-Named :
      (s : Store F) (at : Instant) (ranked : Dict String F) (stopped : List String)
      → Named
          (IsEligible ranked stopped)
          (whole_book np settings limits options s at ranked stopped)
  unfolding whole_book
  whole_book-Named s at ranked stopped =
      let eligible = filter-IsEligible ranked stopped (keys ranked) (λ n m. m) in
      sized-Named (IsEligible ranked stopped) ranked (trailing_returns np s at _)
        (λ fr e. trailing_returns-Named (IsEligible ranked stopped) np s at _ fr eligible e)

  -- In each mode, the book has weights only for names that are ranked, not stopped and not reserved.
  pub book_of-IsEligible :
      (s : Store F) (at : Instant) (matrix : Matrix F) (ranked : Dict String F)
      (held stopped : List String)
      → All
          (IsEligible ranked stopped)
          (keys (book_of np settings limits options s at matrix ranked held stopped))
  unfolding book_of
  book_of-IsEligible s at matrix [] held stopped = tt
  book_of-IsEligible s at matrix (r ∷ rs) held stopped =
      let P = IsEligible (r ∷ rs) stopped in
      (if-Named P _ _ _ (whole_book-Named s at (r ∷ rs) stopped) (
        apply_risk_limits-Named P _ limits _ (
          winner_weights-Named P s at matrix (r ∷ rs) _
            (winners_of-IsEligible (r ∷ rs) held stopped)))).names
