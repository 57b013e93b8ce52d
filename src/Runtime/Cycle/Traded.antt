-- ===== src/Runtime/Cycle/Traded.antt =====
-- What a whole cycle does to the broker.
use market_trader.Prelude.{
  String, ◌≡◌, true, false, some, List, [], ◌∷◌, All, inl, inr, Bool-cases, result_cases, All-map,
}
use market_trader.Prelude.Eq.{string_eq}
use market_trader.Prelude.Dict.{Dict, keys}
use market_trader.Float.{Float}
use market_trader.Config.{Settings}
use market_trader.Storage.Bitemporal.{Store}
use market_trader.Portfolio.Risk.{Weights, RiskLimits}
use market_trader.Portfolio.Sizing.{Numerics}
use market_trader.Execution.Broker.{Broker, Position}
use market_trader.Execution.Engine.{Env}
use market_trader.Execution.Engine.Restore.{new_engine}
use market_trader.Execution.Engine.Sent.{unsent}
use market_trader.Runtime.Sleeve.{is_in}
use market_trader.Runtime.Sleeve.Routed.{Routed, rebalance-Routed}
use market_trader.Runtime.Cycle.Weighting.{Matrix}
use market_trader.Runtime.Cycle.Target.{
  Options, own_positions, symbols_held, book_of, stopped_names, flatten,
}
use market_trader.Runtime.Cycle.Pass.{cancel_stale, execute, after_positions, run_paper_cycle}
use market_trader.Runtime.Cycle.Cancelled.{Cleared, cancel_stale-Cleared}
use market_trader.Runtime.Cycle.Book.{IsEligible, book_of-IsEligible}
use market_trader.Runtime.Cycle.Flatten.{flatten-All}

module _ {F B : Type 0} ⦃f : Float F⦄ (broker : Broker F B) (np : Numerics F) (env : Env)
    (settings : Settings F) (limits : RiskLimits F) (options : Options F) where
  -- A name that no sleeve owns.
  abbrev pub IsFree : String → Type 0
  IsFree n = is_in n options.reserved_symbols ≡ false

  abbrev pub IsReserved : String → Type 0
  IsReserved n = is_in n options.reserved_symbols ≡ true

  execute-Routed :
      (P : String → Type 0) (tw : Weights F) (prices : Dict String F) (s : Store F) (b : B)
      → All P (keys tw)
      → Routed broker env P b (execute broker np env settings limits options tw prices s b).2
  unfolding execute new_engine
  execute-Routed P [] prices s b h = (0, unsent)
  execute-Routed P (w ∷ ws) prices s b h =
      rebalance-Routed broker env P (w ∷ ws) prices (new_engine env.now b settings limits (some s))
        h

  own-IsFree :
      (positions : List (Position F))
      → All IsFree (symbols_held (own_positions options.reserved_symbols positions))
  own-IsFree [] = tt
  own-IsFree (p ∷ ps) = elim (Bool-cases (is_in p.symbol options.reserved_symbols)) [
    | inl e ↦ rw e (own-IsFree ps)
    | inr e ↦ rw e (e, own-IsFree ps)
  ]

  after_positions-Routed :
      (matrix : Matrix F) (ranked prices : Dict String F) (positions : List (Position F))
      (s : Store F) (b : B)
      → Routed broker env IsFree b
          (after_positions broker np env settings limits options matrix ranked prices
            (own_positions options.reserved_symbols positions)
            s
            b).2
  unfolding after_positions
  after_positions-Routed matrix ranked prices positions s b =
      let own = own_positions options.reserved_symbols positions in
      let held = symbols_held own in
      let stopped = stopped_names np settings limits options s env.as_of own prices in
      let target = book_of np settings limits options s env.as_of matrix ranked held stopped in
      let eligible =
        book_of-IsEligible np settings limits options s env.as_of matrix ranked held stopped in
      let free =
        All-map (IsEligible np settings limits options ranked stopped) IsFree (keys target)
          (λ n e. e.not_reserved) eligible in
      let names =
        flatten-All np settings limits options IsFree held prices target (own-IsFree positions)
          free in
      let sent =
        execute-Routed IsFree (flatten np settings limits options held prices target) prices s b
          names in
      elim (result_cases
        (execute broker np env settings limits options
          (flatten np settings limits options held prices target) prices s b).0) [
            | inl (e, g) ↦ rw (g, after_positions) sent
            | inr (orders, g) ↦ rw (g, after_positions) sent
          ]

  -- The cycle leaves the symbols that are reserved for a sleeve alone. If it is asked to cancel, it
  -- goes through the open orders that the broker lists, leaves those for reserved symbols and cancels
  -- each of the others, up to a call that raises; then it submits only orders for symbols that are not
  -- reserved, and does nothing else to the broker, whichever way the weights are made and whether it
  -- returns or raises.
  pub run_paper_cycle-Routed :
      (symbols : List String) (prices : Dict String F) (s : Store F) (b : B)
      → (b1 : B) × Cleared broker options.cancel_stale_orders IsFree IsReserved b b1
        × Routed broker env IsFree b1
            (run_paper_cycle broker np env settings limits options symbols prices s b).2
  unfolding run_paper_cycle
  run_paper_cycle-Routed symbols prices s b =
      let c = cancel_stale broker options b in
      (
        c.1,
        cancel_stale-Cleared broker options b,
        elim (result_cases c.0) [
          | inl (e, g) ↦ rw (g, run_paper_cycle) (0, unsent)
          | inr (u, g) ↦ elim (result_cases (broker.get_positions c.1)) [
            | inl (e, k) ↦ rw (g, run_paper_cycle) (rw k (0, unsent))
            | inr (ps, k) ↦
                rw (g, run_paper_cycle) (rw k (after_positions-Routed _ _ prices ps _ c.1))
          ]
        ],
      )
