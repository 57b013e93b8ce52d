-- ===== src/Runtime/InsiderSleeve/Opening.antt =====
-- What a pass of the insider sleeve opens and closes, and what it sends.
use market_trader.Prelude.{
  ℕ, ◌+◌, ◌≤◌, String, ◌≡◌, refl, ap, ◌-◌, Option, List, [], ◌∷◌, arith, All, ok, inl, inr, ◌⊎◌,
  length, result_cases,
}
use market_trader.Prelude.Lists.{All-of_forall}
use market_trader.Prelude.Eq.{string_eq}
use market_trader.Prelude.Dict.{Dict}
use market_trader.Float.{Float}
use market_trader.Config.{Settings}
use market_trader.Storage.Bitemporal.{Store}
use market_trader.Execution.Broker.{Broker}
use market_trader.Execution.Engine.{Env}
use market_trader.Runtime.Sleeve.{PassState, Texts, execute_target}
use market_trader.Runtime.Sleeve.Routed.{Routed, execute_target-Routed}
use market_trader.Runtime.Sleeve.Own.{IsOwn, Owns, keys-All}
use market_trader.Runtime.InsiderSleeve.Positions.{InsiderSleevePosition, active_insider_positions}
use market_trader.Runtime.InsiderSleeve.Pass.{
  entries_for, prices_for, closing, decide, sleeve_limits, run_insider_sleeve_cycle,
}
use market_trader.Runtime.InsiderSleeve.Loops.{
  IsClosed, close_all-IsClosed, open_all-closed, IsEntered, close_all-Owns, open_all-Opens,
  entries_for_lem,
}

within_cap :
    (cap : ℕ) (live opened : List String)
    → length opened ≤ cap - length live
    → (length live + length opened ≤ cap) ⊎ (opened ≡ [])
within_cap cap live [] h = inr refl
within_cap cap live (n ∷ ns) h = inl (omega arith)

module _ {F : Type 0} ⦃f : Float F⦄ (settings : Settings F) (texts : Texts) (env : Env)
    (universe : List String) (gate : Option F) (s : Store F)
    (active : Dict String (InsiderSleevePosition F)) where
  -- What a pass leaves: its target has only names that it opened or closed; it closes only names that
  -- the sleeve held, past their time or stopped out; it opens only names that the sleeve does not hold
  -- then and that have a price; and the sleeve's cap is kept, or nothing is opened.
  pub record IsPass (d : PassState F) : Type 0 where
    pub owns : Owns d
    pub shut :
        All
          (IsClosed settings texts env (prices_for settings texts env universe s active) active)
          d.closed
    pub entered :
        All
          (IsEntered settings texts env (prices_for settings texts env universe s active) d.live)
          d.opened
    pub capped :
        (length d.live + length d.opened ≤ settings.insider_sleeve_max_names) ⊎ (d.opened ≡ [])

  -- Both loops of a pass leave what `IsPass` says.
  pub decide-IsPass : IsPass (decide settings texts env universe gate s active)
  unfolding decide closing
  decide-IsPass =
      let prices = prices_for settings texts env universe s active in
      let start : PassState F = record {
        target = [];
        opened = [];
        closed = [];
        live = [];
        store = s;
      } in
      let shut = close_all-Owns settings texts env prices active start tt in
      let c = closing settings texts env universe s active in
      let d = decide settings texts env universe gate s active in
      let none_open : c.opened ≡ [] = shut.1 in
      let es = entries_for_lem settings texts env prices gate c.live c.store in
      let done =
        open_all-Opens settings texts env prices c.live _ c es.1 shut.0 (rw none_open tt) in
      record {
        owns = done.owns;
        shut =
            rw
              (open_all-closed settings texts env prices
                (entries_for settings texts env prices gate c.live c.store) c)
              (close_all-IsClosed settings texts env prices active active start
                (All-of_forall _ active (λ x m. m)) tt);
        entered = rw done.same_live done.entered;
        capped = within_cap settings.insider_sleeve_max_names d.live d.opened (
            rw done.same_live
              (omega (arith, done.bounded, es.0, ap (λ (xs : List String). length xs) none_open)));
      }

module _ {F B : Type 0} ⦃f : Float F⦄ (broker : Broker F B) (settings : Settings F) (texts : Texts)
    (env : Env) where
  -- A pass whose state can be read closes only names that the sleeve held by that state, past their
  -- time or stopped out; it opens only names that the sleeve does not hold after those closings, with
  -- a price, and keeps the sleeve's cap unless it opens nothing; and it sends orders for the names
  -- that it opened or closed and for no others, whether the engine returns or raises. A name that it
  -- opens may be one that the daily book holds.
  pub run_insider_sleeve_cycle-Routed :
      (universe : List String) (gate : Option F) (s : Store F) (b : B)
      {active : Dict String (InsiderSleevePosition F)}
      → active_insider_positions texts s env.as_of ≡ ok active
      → let d = decide settings texts env universe gate s active in
        IsPass settings texts env universe gate s active d
        × Routed broker env
            (IsOwn d)
            b
            (run_insider_sleeve_cycle broker settings texts env universe gate s b).2
  unfolding run_insider_sleeve_cycle
  run_insider_sleeve_cycle-Routed universe gate s b {active} h =
      let d = decide settings texts env universe gate s active in
      let pass = decide-IsPass settings texts env universe gate s active in
      let prices = prices_for settings texts env universe s active in
      let bounds = sleeve_limits settings texts env in
      let sent =
        execute_target-Routed broker env (IsOwn d) settings bounds d.target prices b
          (keys-All (IsOwn d) d.target pass.owns) in
      (
        pass,
        elim (result_cases (execute_target broker env settings bounds d.target prices b).0) [
          | inl (e, g) ↦ rw (h, run_insider_sleeve_cycle) (rw g sent)
          | inr (orders, g) ↦ rw (h, run_insider_sleeve_cycle) (rw g sent)
        ],
      )
