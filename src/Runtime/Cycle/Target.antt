-- ===== src/Runtime/Cycle/Target.antt =====
-- The target book of `run_paper_cycle`. The feature matrix and the scores are the injected `feature_store` and `score_fn`;
-- the briefing, if there is a model, is the text that its provider gives.
use market_trader.Prelude.{
  ℕ, String, Bool, not, ◌&&◌, Option, none, some, List, [], ◌∷◌, ◌++◌, map, filter, length, leb,
  ltb, Result, if◌then◌else◌,
}
use market_trader.Prelude.Eq.{◌==◌, string_eq}
use market_trader.Prelude.Sort.{sort_by}
use market_trader.Prelude.Dict.{Dict, insert, keys, contains}
use market_trader.Float.{Float, nought}
use market_trader.Config.{Settings}
use market_trader.Core.Time.{Instant}
use market_trader.Storage.Bitemporal.{Store}
use market_trader.Portfolio.Risk.{Weights, RiskLimits}
use market_trader.Portfolio.Risk.Limits.{apply_risk_limits}
use market_trader.Portfolio.Sizing.{Numerics, row_count, size_book}
use market_trader.Execution.Broker.{Position}
use market_trader.Runtime.Sleeve.{is_in}
use market_trader.Runtime.Cycle.Exits.{stop_losses, trailing_stops, thesis_break_exits}
use market_trader.Runtime.Cycle.Weighting.{
  Matrix, columns, select_with_hysteresis, risk_weights, trailing_returns, vol_target_weights,
}

abbrev pub is_free : List String → String → Bool
is_free names s = not (is_in s names)

-- The keyword arguments of `run_paper_cycle`; `score_fn` gives `none` for NaN.
pub record Options (F : Type 0) : Type 0 where
  pub compute_matrix : Store F → Instant → List String → Matrix F
  pub score_fn : Matrix F → Instant → Dict String (Option F)
  pub brief : Option (Store F → Instant → Result String String)
  pub top_quantile : F
  pub max_positions : Option ℕ
  pub exit_band_multiple : F
  pub risk_weighting : String
  pub tilt_strength : F
  pub prediction_log : Bool
  pub model_version : String
  pub prediction_horizon : ℕ
  pub stop_loss_pct : F
  pub trailing_stop_pct : F
  pub thesis_exit_threshold : F
  pub reserved_symbols : List String
  pub cancel_stale_orders : Bool

module _ {F : Type 0} where
  -- `matrix.empty`
  abbrev pub is_empty : Matrix F → Bool
  is_empty matrix = leb (length (columns matrix)) 0

  -- `scores.dropna()`
  unfoldable pub ranks_of : Dict String (Option F) → Dict String F
  ranks_of [] = []
  ranks_of ((s, c) ∷ rest) =
      let later = ranks_of rest in elim c [ none ↦ later | some x ↦ (s, x) ∷ later ]

  -- `[p for p in broker.get_positions() if p.symbol not in reserved_symbols]`
  abbrev pub own_positions : List String → List (Position F) → List (Position F)
  own_positions reserved positions =
      filter (λ (p : Position F). is_free reserved p.symbol) positions

  abbrev pub symbols_held : List (Position F) → List String
  symbols_held positions = map (λ (p : Position F). p.symbol) positions

module _ {F : Type 0} ⦃f : Float F⦄ where
  -- `_limits_from_settings`; the sector limit has its default.
  abbrev pub limits_from_settings : Settings F → RiskLimits F
  limits_from_settings settings = record {
    max_position_weight = settings.max_position_weight;
    max_gross_exposure = settings.max_gross_exposure;
    max_net_exposure = settings.max_net_exposure;
    max_sector_weight = f.lit 30 2;
  }

  -- `scorer(matrix, as_of)` of a matrix that is not empty, ranked from the highest.
  unfoldable pub ranked_scores : Options F → Matrix F → Instant → Dict String F
  ranked_scores options matrix at =
      if is_empty matrix
      then []
      else sort_by (λ a b. f.le b.1 a.1) (ranks_of (options.score_fn matrix at))

module _ {F : Type 0} ⦃f : Float F⦄ (np : Numerics F) (settings : Settings F)
    (limits : RiskLimits F) (options : Options F) where
  -- `max(1, int(len(ranked) * top_quantile))`, then the cap.
  abbrev pub entry_count : ℕ → ℕ
  entry_count n =
      let k = np.int (f.mul (f.lit n 0) options.top_quantile) in
      let wide = if leb k 1 then 1 else k in
      elim options.max_positions [ none ↦ wide | some cap ↦ if ltb cap wide then cap else wide ]

  -- `min(len(ranked), max(enter_k, round(enter_k * exit_band_multiple)))`
  abbrev pub exit_count : ℕ → ℕ → ℕ
  exit_count n enter_k =
      let band = np.round_int (f.mul (f.lit enter_k 0) options.exit_band_multiple) in
      let wide = if ltb enter_k band then band else enter_k in if ltb wide n then wide else n

  -- The names that are selected and neither stopped nor reserved.
  unfoldable pub winners_of : Dict String F → List String → List String → List String
  winners_of ranked held stopped =
      let n = length ranked in
      let enter_k = entry_count n in
      filter (λ w. is_free stopped w && is_free options.reserved_symbols w)
        (select_with_hysteresis (keys ranked) held enter_k (exit_count n enter_k)
          options.max_positions)

  -- The weights of the winners before the limits.
  unfoldable pub winner_weights :
      Store F → Instant → Matrix F → Dict String F → List String → Weights F
  winner_weights s at matrix ranked winners =
      if options.risk_weighting == "vol_target"
      then (let base = risk_weights winners matrix "inverse_vol" ranked in
          elim (trailing_returns np s at winners) [
            | none ↦ base
            | some returns ↦
                vol_target_weights np base returns settings.target_vol limits.max_gross_exposure
          ])
      else risk_weights winners matrix options.risk_weighting ranked

  -- `ranked if tilt_strength > 0 else None`
  abbrev pub tilt_scores : Dict String F → Option (Dict String F)
  tilt_scores ranked = if f.lt nought options.tilt_strength then some ranked else none

  -- The book of the whole eligible universe.
  unfoldable pub whole_book : Store F → Instant → Dict String F → List String → Weights F
  whole_book s at ranked stopped =
      let eligible =
        filter (λ n. is_free stopped n && is_free options.reserved_symbols n) (keys ranked) in
      elim (trailing_returns np s at eligible) [
        | none ↦ []
        | some returns ↦
            if leb (row_count returns) 0
            then []
            else size_book np returns settings.target_vol limits (tilt_scores ranked)
                options.tilt_strength (f.lit 1 0)
      ]

  -- The target book.
  unfoldable pub book_of :
      Store F → Instant → Matrix F → Dict String F → List String → List String → Weights F
  book_of s at matrix [] held stopped = []
  book_of s at matrix (r ∷ rs) held stopped =
      if options.risk_weighting == "size_book"
      then whole_book s at (r ∷ rs) stopped
      else apply_risk_limits (λ names. names) none limits
          (winner_weights s at matrix (r ∷ rs) (winners_of (r ∷ rs) held stopped))

  -- The three exits together.
  unfoldable pub stopped_names : Store F → Instant → List (Position F) → Dict String F → List String
  stopped_names s at positions prices =
      stop_losses positions prices options.stop_loss_pct
      ++ (trailing_stops s at positions prices options.trailing_stop_pct
          ++ thesis_break_exits s at positions options.thesis_exit_threshold)

  -- Each name that is held, has a price and is not in the target gets a zero.
  unfoldable pub flatten : List String → Dict String F → Weights F → Weights F
  flatten [] prices target = target
  flatten (n ∷ held) prices target =
      flatten held prices
        (if not (contains n target) && contains n prices then insert n nought target else target)
