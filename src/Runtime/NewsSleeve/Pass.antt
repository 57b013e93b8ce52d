-- ===== src/Runtime/NewsSleeve/Pass.antt =====
-- `run_news_sleeve_cycle`, after the feed was read: `fetched` is what it returned.
use market_trader.Prelude.{
  ◌+◌, ◌*◌, String, Bool, true, false, not, ◌&&◌, ◌||◌, Option, none, some, List, [], ◌∷◌, ◌++◌,
  Result, ok, err, filter, length, ltb, leb, if◌then◌else◌,
}
use market_trader.Prelude.Eq.{string_eq}
use market_trader.Prelude.Sort.{sort_by}
use market_trader.Prelude.Dict.{Dict, lookup, insert, keys}
use market_trader.Float.{Float, nought, fmax}
use market_trader.Config.{Settings}
use market_trader.Core.Time.{Instant}
use market_trader.Core.Schema.{Observation}
use market_trader.Storage.Bitemporal.{Store}
use market_trader.Portfolio.Risk.{RiskLimits}
use market_trader.Execution.Broker.{Broker, Order}
use market_trader.Execution.Engine.{Env}
use market_trader.Execution.Engine.Plan.{no_price}
use market_trader.Collectors.Gateway.{ingest}
use market_trader.Memory.Taxonomy.{day}
use market_trader.Runtime.IntradayConfirm.{Direction, up, down, flat}
use market_trader.Runtime.Sleeve.{
  PassState, is_in, Texts, SleeveError, bad_state, engine_raised, latest_prices, is_stopped,
  execute_target,
}
use market_trader.Runtime.NewsSleeve.Detect.{NewsEvent, detect_news_events}
use market_trader.Runtime.NewsSleeve.Positions.{
  SleevePosition, active_sleeve_positions, acted_story_hashes, last_action_times, record_open,
  record_close, log_decision,
}

pub record NewsSleeveResult (F : Type 0) : Type 0 where
  pub at : Instant
  pub opened : List String
  pub closed : List String
  pub orders : List (Order F)

-- `live.add(s)`
abbrev pub add_to : String → List String → List String
add_to s names = if is_in s names then names else names ++ s ∷ []

-- `direction > 0`
abbrev pub is_up : Direction → Bool
is_up up = true
is_up down = false
is_up flat = false

module _ {F : Type 0} ⦃f : Float F⦄ (settings : Settings F) (env : Env)
    (prices : Dict String F) where
  abbrev pub close_one : String → SleevePosition F → Bool → PassState F → PassState F
  close_one symbol p stopped s = record s {
    target = insert symbol nought s.target;
    closed = s.closed ++ symbol ∷ [];
    store = record_close env symbol p.story_hash (if stopped then "stop" else "horizon") s.store;
  }

  -- The loop that closes what is past its window or stopped out.
  unfoldable pub close_all : Dict String (SleevePosition F) → PassState F → PassState F
  close_all [] s = s
  close_all ((symbol, p) ∷ rest) s =
      let stopped = is_stopped settings (lookup symbol prices) p.entry_price in
      close_all rest
        (if leb p.exit_by env.as_of || stopped then close_one symbol p stopped s else s)

  -- `settings.news_sleeve_budget / max(settings.news_sleeve_max_names, 1)`
  abbrev pub per_name : F
  per_name =
      let n = settings.news_sleeve_max_names in
      f.div settings.news_sleeve_budget (f.lit (if leb n 1 then 1 else n) 0)

  -- `prev is not None and as_of - prev < cooldown`; what is read as of a time is not after it.
  abbrev pub is_cooling : Option Instant → Bool
  is_cooling none = false
  is_cooling (some prev) = ltb env.as_of (prev + settings.news_sleeve_cooldown_days * day)

  -- The guards of the opening loop, with what was acted on before the pass.
  unfoldable pub wants : List String → Dict String Instant → NewsEvent F → List String → Bool
  wants acted last_action ev live =
      not (no_price (lookup ev.symbol prices))
      && is_up ev.direction
      && not (f.lt ev.confidence settings.news_sleeve_min_confidence)
      && not (is_in ev.story_hash acted)
      && not (is_in ev.symbol live)
      && not (is_cooling (lookup ev.symbol last_action))

  -- What opening does at a price.
  abbrev pub open_at : NewsEvent F → F → PassState F → PassState F
  open_at ev price s = record s {
    target = insert ev.symbol per_name s.target;
    opened = s.opened ++ ev.symbol ∷ [];
    live = add_to ev.symbol s.live;
    store = log_decision env ev settings.news_sleeve_hold_days (
        record_open env ev.symbol price (env.as_of + settings.news_sleeve_hold_days * day)
          ev.story_hash s.store);
  }

  unfoldable pub open_one : NewsEvent F → PassState F → PassState F
  open_one ev s = elim (lookup ev.symbol prices) [ none ↦ s | some price ↦ open_at ev price s ]

  -- The loop, which stops when the sleeve is full.
  unfoldable pub open_all :
      List String → Dict String Instant → List (NewsEvent F) → PassState F → PassState F
  open_all acted last_action [] s = s
  open_all acted last_action (ev ∷ events) s =
      let next =
        open_all acted last_action events
          (if wants acted last_action ev s.live then open_one ev s else s) in
      if leb settings.news_sleeve_max_names (length s.live) then s else next

  -- `limits or RiskLimits(...)`; the sector limit has its default.
  abbrev pub sleeve_limits : Option (RiskLimits F) → RiskLimits F
  sleeve_limits (some limits) = limits
  sleeve_limits none = record {
    max_position_weight = fmax per_name settings.max_position_weight;
    max_gross_exposure = settings.news_sleeve_budget;
    max_net_exposure = settings.news_sleeve_budget;
    max_sector_weight = f.lit 30 2;
  }

module _ {F : Type 0} ⦃f : Float F⦄ (settings : Settings F) (texts : Texts) (env : Env) where
  -- Both loops, from the positions that are active.
  unfoldable pub decide : List String → Store F → Dict String (SleevePosition F) → PassState F
  decide watchlist s active =
      let prices = latest_prices s env.as_of watchlist in
      let acted = acted_story_hashes s env.as_of in
      let last_action = last_action_times s env.as_of in
      let closing =
        close_all settings env prices active
          (record { target = []; opened = []; closed = []; live = []; store = s }) in
      let events =
        detect_news_events texts closing.store env.as_of watchlist settings.news_sleeve_count_surge
          settings.news_sleeve_tone_min settings.news_sleeve_baseline_days in
      open_all settings env prices acted last_action
        (sort_by (λ a b. f.le b.confidence a.confidence) events)
        (record closing { live = filter (λ n. not (is_in n closing.closed)) (keys active) })

  -- `if obs: IngestionGateway(store).ingest(obs)`, validating and not strict.
  unfoldable pub after_feed : List (Observation F) → Store F → Store F
  after_feed fetched s =
      (ingest env.identity (record { validate = true; strict = false }) fetched s).1

module _ {F B : Type 0} ⦃f : Float F⦄ (broker : Broker F B) (settings : Settings F) (texts : Texts)
    (env : Env) where
  -- The result, the store and the broker.
  unfoldable pub run_news_sleeve_cycle :
      List (Observation F)
      → List String
      → Option (RiskLimits F)
      → Store F
      → B
      → Result (SleeveError F) (NewsSleeveResult F) × Store F × B
  run_news_sleeve_cycle fetched watchlist limits s b =
      let fed = after_feed settings texts env fetched s in
      elim (active_sleeve_positions texts fed env.as_of) [
        | err e ↦ (err (bad_state e), fed, b)
        | ok active ↦
            let d = decide settings texts env watchlist fed active in
            let prices = latest_prices fed env.as_of watchlist in
            let r =
              execute_target broker env settings (sleeve_limits settings env prices limits) d.target
                prices b in
            elim r.0 [
              | err e ↦ (err (engine_raised e), d.store, r.1)
              | ok orders ↦ (
                ok (record {
                  at = env.as_of;
                  opened = d.opened;
                  closed = d.closed;
                  orders = orders;
                }),
                d.store,
                r.1,
              )
            ]
      ]
