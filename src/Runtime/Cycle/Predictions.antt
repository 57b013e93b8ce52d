-- ===== src/Runtime/Cycle/Predictions.antt =====
-- `log_cycle_predictions` of src/market_trader/runtime/learning.py.
use market_trader.Prelude.{
  ℕ, ◌+◌, ◌*◌, String, Option, none, some, List, [], ◌∷◌, map, filter, length,
}
use market_trader.Prelude.Eq.{string_eq}
use market_trader.Prelude.Dict.{Dict, lookup}
use market_trader.Float.{Float}
use market_trader.Storage.Bitemporal.{Store}
use market_trader.Execution.Engine.{Env}
use market_trader.Feedback.PredictionLog.{PredictionRecord, log_predictions}
use market_trader.Runtime.Cycle.Weighting.{Matrix}

module _ {F : Type 0} where
  -- `matrix.loc[s].dropna()`
  unfoldable pub known_cells : Dict String (Option F) → Dict String F
  known_cells [] = []
  known_cells ((k, c) ∷ rest) =
      let later = known_cells rest in elim c [ none ↦ later | some x ↦ (k, x) ∷ later ]

  abbrev pub features_of : Matrix F → String → Dict String F
  features_of matrix s = elim (lookup s matrix) [ none ↦ [] | some row ↦ known_cells row ]

module _ {F : Type 0} ⦃f : Float F⦄ where
  -- `rank(pct=True)`: the mean of the places that equal scores take, over the number of scores.
  unfoldable pub rank_pct : F → List F → F
  rank_pct x xs =
      let below = length (filter (λ y. f.lt y x) xs) in
      let same = length (filter (λ y. f.eq y x) xs) in
      f.div (f.div (f.lit (2 * below + same + 1) 0) (f.lit 2 0)) (f.lit (length xs) 0)

  unfoldable pub log_cycle_predictions :
      Env → List (String × F) → Matrix F → String → ℕ → Store F → Store F
  log_cycle_predictions env [] matrix model_version horizon_days s = s
  log_cycle_predictions env (r ∷ rs) matrix model_version horizon_days s =
      let scores = map (λ (kv : String × F). kv.1) (r ∷ rs) in
      (log_predictions env.identity env.now
        (map
          (λ (kv : String × F).
            let p : PredictionRecord F = record {
              as_of = env.as_of;
              symbol = kv.0;
              probability = rank_pct kv.1 scores;
              horizon_days = horizon_days;
              model_version = model_version;
              features = features_of matrix kv.0;
            } in
            p)
          (r ∷ rs))
        s).1
