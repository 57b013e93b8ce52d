-- ===== src/Runtime/NewsSleeve/Traded.antt =====
-- A whole pass of the news sleeve.
use mathlib.Core.List.{append-nil}
use market_trader.Prelude.{String, ◌≡◌, not, List, [], inr, filter, sym, All}
use market_trader.Prelude.Lists.{All-of_forall}
use market_trader.Prelude.Eq.{string_eq}
use market_trader.Prelude.Sort.{sort_by, sort_by-All}
use market_trader.Prelude.Dict.{Dict, keys}
use market_trader.Float.{Float}
use market_trader.Config.{Settings}
use market_trader.Storage.Bitemporal.{Store}
use market_trader.Execution.Broker.{Broker}
use market_trader.Execution.Engine.{Env}
use market_trader.Runtime.Sleeve.{PassState, is_in, Texts, latest_prices}
use market_trader.Runtime.Sleeve.Routed.{Routed}
use market_trader.Runtime.NewsSleeve.Detect.{NewsEvent, detect_news_events}
use market_trader.Runtime.NewsSleeve.Positions.{
  SleevePosition, acted_story_hashes, last_action_times,
}
use market_trader.Runtime.NewsSleeve.Pass.{close_all, decide}
use market_trader.Runtime.NewsSleeve.Own.{
  close_all-Owns, close_all-opened, IsClosed, close_all-IsClosed, open_all-closed,
}
use market_trader.Runtime.NewsSleeve.Opening.{IsOpening, open_all-IsOpening}

module _ {F : Type 0} ⦃f : Float F⦄ (settings : Settings F) (texts : Texts) (env : Env)
    (watchlist : List String) (s : Store F) (active : Dict String (SleevePosition F)) where
  -- The state after the closing loop, and the names that are held then.
  abbrev pub closing : PassState F
  closing =
      close_all settings env (latest_prices s env.as_of watchlist) active
        (record { target = []; opened = []; closed = []; live = []; store = s })

  abbrev pub live_before : List String
  live_before = filter (λ n. not (is_in n closing.closed)) (keys active)

  abbrev pub events_now : List (NewsEvent F)
  events_now =
      detect_news_events texts closing.store env.as_of watchlist settings.news_sleeve_count_surge
        settings.news_sleeve_tone_min settings.news_sleeve_baseline_days

  -- What the two loops of a pass lead to.
  pub decide-IsOpening :
      IsOpening settings env
        (latest_prices s env.as_of watchlist)
        (acted_story_hashes s env.as_of)
        (last_action_times s env.as_of)
        live_before
        events_now
        (decide settings texts env watchlist s active)
  unfolding decide
  decide-IsOpening =
      let prices = latest_prices s env.as_of watchlist in
      let start : PassState F = record {
        target = [];
        opened = [];
        closed = [];
        live = [];
        store = s;
      } in
      let none_open : closing.opened ≡ [] = close_all-opened settings env prices active start in
      open_all-IsOpening settings env prices (acted_story_hashes s env.as_of)
        (last_action_times s env.as_of) live_before events_now
        (sort_by (λ a b. f.le b.confidence a.confidence) events_now)
        (record closing { live = live_before })
        (sort_by-All _ _ events_now (All-of_forall _ events_now (λ e m. m)))
        (record {
          held = rw none_open (sym (append-nil live_before));
          owns = close_all-Owns settings env prices active start tt;
          actions = rw none_open tt;
          capped = inr none_open;
        })

  pub decide-IsClosed :
      All
        (IsClosed settings env (latest_prices s env.as_of watchlist) active)
        (decide settings texts env watchlist s active).closed
  unfolding decide
  decide-IsClosed =
      let prices = latest_prices s env.as_of watchlist in
      rw
        (open_all-closed settings env prices (acted_story_hashes s env.as_of)
          (last_action_times s env.as_of)
          (sort_by (λ a b. f.le b.confidence a.confidence) events_now)
          (record closing { live = live_before }))
        (close_all-IsClosed settings env prices active active
          (record { target = []; opened = []; closed = []; live = []; store = s })
          (All-of_forall _ active (λ x m. m)) tt)
