-- ===== src/Execution/Engine/Restore.antt =====
-- `ExecutionEngine.__init__` and `_load_drawdown_state`: the breaker survives the engine.
use mathlib.Core.Path.{subst}
use market_trader.Prelude.{
  ◌≤◌, ◌<◌, ◌≡◌, refl, Bool, true, false, not, Option, none, some, List, [], ◌∷◌, arith, All, Mem,
  ltb, if◌then◌else◌, nat_beq, length, inl, inr, ◌⊎◌, ap, All-map, all_of_mem,
}
use market_trader.Prelude.Eq.{◌==◌, nat_eq, string_eq}
use market_trader.Prelude.Dict.{lookup, values, mem-values-insert, mem-values-insert_self}
use market_trader.Float.{Float, truthy}
use market_trader.Config.{Settings}
use market_trader.Core.Time.{Instant}
use market_trader.Core.Schema.{
  Observation, Value, null, boolean, integer, number, text, numbers, LogicalKey,
}
use market_trader.Core.Identity.{with_deterministic_id}
use market_trader.Storage.Bitemporal.{Store, by_dataset, as_of, upsert_many, add_many, add}
use market_trader.Storage.Bitemporal.PointInTime.{as_of_no_lookahead, as_of_complete}
use market_trader.Portfolio.Risk.{RiskLimits, Breaker, new_breaker, seed}
use market_trader.Execution.Engine.State.{
  Env, Engine, drawdown_state_dataset, drawdown_observation, save_peak, save_drawdown_state,
}

module _ {F : Type 0} where
  -- `max(rows, key=lambda o: o.event_time)`: the first of the latest.
  pub later_of : Observation F → List (Observation F) → Observation F
  later_of best [] = best
  later_of best (o ∷ rows) = later_of (if ltb best.event_time o.event_time then o else best) rows

  later_of-stays :
      (o : Observation F) (rows : List (Observation F))
      → All (λ r. (r ≡ o) ⊎ (r.event_time < o.event_time)) rows
      → later_of o rows ≡ o
  unfolding later_of
  later_of-stays o [] h = refl
  later_of-stays o (r ∷ rows) h =
      let e : (if ltb o.event_time r.event_time then r else o) ≡ o = ground arith in
      rw e (later_of-stays o rows h.1)

  later_of-finds :
      (o best : Observation F) (rows : List (Observation F))
      → Mem o rows
      → (best ≡ o) ⊎ (best.event_time < o.event_time)
      → All (λ r. (r ≡ o) ⊎ (r.event_time < o.event_time)) rows
      → later_of best rows ≡ o
  unfolding later_of
  later_of-finds o best [] m b h = absurd m
  later_of-finds o best (r ∷ rows) (inl e) b h =
      let first : (if ltb best.event_time r.event_time then r else best) ≡ o = ground arith in
      rw first (later_of-stays o rows h.1)
  later_of-finds o best (r ∷ rows) (inr m) b h =
      later_of-finds o (if ltb best.event_time r.event_time then r else best) rows m (ground arith)
        h.1

module _ {F : Type 0} ⦃f : Float F⦄ where
  -- `float(peak) if peak else None`, for the values that the program writes there.
  pub peak_of : Option (Value F) → Option F
  peak_of none = none
  peak_of (some (number x)) = if truthy x then some x else none
  peak_of (some (integer n)) = if nat_beq n 0 then none else some (f.lit n 0)
  peak_of (some (boolean b)) = if b then some (f.lit 1 0) else none
  peak_of (some v) = none

  -- `bool(latest.value.get("tripped", False))`
  pub tripped_of : Option (Value F) → Bool
  tripped_of none = false
  tripped_of (some null) = false
  tripped_of (some (boolean b)) = b
  tripped_of (some (integer n)) = not (nat_beq n 0)
  tripped_of (some (number x)) = truthy x
  tripped_of (some (text t)) = not (t == "")
  tripped_of (some (numbers d)) = ltb 0 (length d)

  pub drawdown_state : List (Observation F) → Option F × Bool
  unfolding later_of peak_of tripped_of
  drawdown_state [] = (none, false)
  drawdown_state (o ∷ rows) =
      let latest = later_of o rows in
      (peak_of (lookup "peak" latest.value), tripped_of (lookup "tripped" latest.value))

  pub load_drawdown_state : Instant → Store F → Option F × Bool
  unfolding drawdown_state
  load_drawdown_state now s = drawdown_state (as_of now (by_dataset drawdown_state_dataset) s)

  abbrev pub seed_if : Option F × Bool → Breaker F → Breaker F
  seed_if (none, tripped) b = b
  seed_if (some peak, tripped) b = seed (some peak) tripped b

  -- The breaker of a new engine.
  unfoldable pub restored_breaker : Instant → Settings F → Option (Store F) → Breaker F
  unfolding load_drawdown_state
  restored_breaker now settings none = new_breaker settings.max_drawdown_halt
  restored_breaker now settings (some s) =
      seed_if (load_drawdown_state now s) (new_breaker settings.max_drawdown_halt)

  -- `ExecutionEngine(broker, settings=…, limits=…, audit_store=…)`: the guards are the engine's own.
  unfoldable pub new_engine :
      {B : Type 0} → Instant → B → Settings F → RiskLimits F → Option (Store F) → Engine F B
  unfolding restored_breaker
  new_engine now broker settings limits audit_store = record {
    broker = broker;
    settings = settings;
    limits = limits;
    audit_store = audit_store;
    kill_switch = record { engaged = false; reason = none };
    breaker = restored_breaker now settings audit_store;
    rate_limiter = record { max_orders = settings.max_orders_per_interval; count = 0 };
  }

module _ {F : Type 0} ⦃f : Float F⦄ (env : Env) (s : Store F) (peak : F) (tripped : Bool) where
  abbrev saved : Store F
  saved = save_peak env (some peak) tripped s

  abbrev entry : Observation F
  entry = drawdown_observation env peak tripped

  -- Every earlier entry is of an earlier cycle.
  abbrev pub IsPast : Type 0
  IsPast =
      (o : Observation F)
      → Mem o (values s)
      → o.dataset ≡ drawdown_state_dataset
      → o.event_time < env.as_of

  drawdown_state_lem :
      (rows : List (Observation F))
      → Mem entry rows
      → All (λ r. (r ≡ entry) ⊎ (r.event_time < entry.event_time)) rows
      → drawdown_state rows ≡ (if truthy peak then some peak else none, tripped)
  unfolding drawdown_state drawdown_observation with_deterministic_id
  drawdown_state_lem [] m h = absurd m
  drawdown_state_lem (o ∷ rows) m h =
      let latest : later_of o rows ≡ entry = elim m [
        | inl e ↦ rw (← e) (later_of-stays entry rows h.1)
        | inr n ↦ later_of-finds entry o rows n h.0 h.1
      ] in
      rw latest

  saved-rows :
      (now : Instant)
      → env.as_of ≤ now
      → IsPast
      → let rows = as_of now (by_dataset drawdown_state_dataset) saved in
        Mem entry rows × All (λ r. (r ≡ entry) ⊎ (r.event_time < entry.event_time)) rows
  unfolding upsert_many add_many add drawdown_observation with_deterministic_id
  saved-rows now h past =
      let q = by_dataset drawdown_state_dataset in
      let rows = as_of now q saved in
      let earlier : All (λ r. (r ≡ entry) ⊎ (r.event_time < entry.event_time)) rows =
        All-map _ _ rows
          (λ r p. elim (mem-values-insert r entry.observation_id entry s p.0) [
            | inl e ↦ inl e
            | inr m ↦ inr (past r m p.2.dataset)
          ])
          (as_of_no_lookahead now q saved) in
      let (r, kept, same, fresh, itself) =
        as_of_complete now q saved entry (mem-values-insert_self entry.observation_id entry s) h
          (record { source = tt; dataset = refl; entity_type = tt; entity_id = tt }) in
      let found : r ≡ entry = elim (all_of_mem _ r rows earlier kept) [
        | inl e ↦ e
        | inr b ↦ absurd (omega (arith, ap (λ (k : LogicalKey). k.3) same))
      ] in
      (subst (λ x. Mem x rows) found kept, earlier)

  -- What a cycle saved of its breaker is what a later engine reads back, whatever else the store
  -- holds, if every earlier entry is of an earlier time; a peak of zero is read as none.
  pub load-save_drawdown_state :
      (now : Instant)
      → env.as_of ≤ now
      → IsPast
      → load_drawdown_state now saved ≡ (if truthy peak then some peak else none, tripped)
  unfolding load_drawdown_state
  load-save_drawdown_state now h past =
      let (kept, earlier) = saved-rows now h past in
      drawdown_state_lem (as_of now (by_dataset drawdown_state_dataset) saved) kept earlier

module _ {F B : Type 0} ⦃f : Float F⦄ where
  -- An engine that is built from the audit store which another engine saved its breaker to has the same
  -- breaker: the same peak, the same trip, the same limit. The peak is not zero, the limit is that of
  -- the settings, the earlier entries are of earlier times, and the new engine is built no earlier.
  pub restart_keeps_breaker :
      (env : Env) (now : Instant) (s : Store F) (peak : F) (e : Engine F B)
      → e.audit_store ≡ some s
      → e.breaker.peak ≡ some peak
      → truthy peak ≡ true
      → e.breaker.max_drawdown ≡ e.settings.max_drawdown_halt
      → env.as_of ≤ now
      → IsPast env s peak e.breaker.tripped
      → (broker : B)
      → (new_engine now broker e.settings e.limits (save_drawdown_state env e).audit_store).breaker
        ≡ e.breaker
  unfolding new_engine restored_breaker seed new_breaker save_drawdown_state
  restart_keeps_breaker env now s peak e es ep t md h past broker =
      let loaded = load-save_drawdown_state env s peak e.breaker.tripped now h past in
      let store : (save_drawdown_state env e).audit_store
          ≡ some (save_peak env (some peak) e.breaker.tripped s) =
        rw es (rw ep) in
      rw store (rw loaded (rw t (ground arith)))
