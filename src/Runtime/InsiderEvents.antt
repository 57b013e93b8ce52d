-- ===== src/Runtime/InsiderEvents.antt =====
-- src/market_trader/runtime/insider_events.py: which insider clusters the sleeve opens. The gate is
-- the mean drift of `insider_cluster_buy` if that type is in it.
mod Tests
use market_trader.Prelude.{
  ℕ, ◌+◌, ◌-◌, ◌*◌, ◌/◌, ◌≤◌, ◌<◌, ◌≡◌, refl, String, Bool, true, false, not, ◌||◌, Option, none,
  some, List, [], ◌∷◌, arith, filter, any, length, ltb, leb, All, if◌then◌else◌, Bool-cases, inl,
  inr,
}
use market_trader.Prelude.Eq.{◌==◌, string_eq}
use market_trader.Prelude.Sort.{sort_by}
use market_trader.Float.{Float, nought}
use market_trader.Core.Time.{Instant}
use market_trader.Storage.Bitemporal.{Store}
use market_trader.Memory.Taxonomy.{
  EventType, insider_cluster_buy, Payload, n_buys, transaction_type, Event, day, detect_events,
}

pub record SleeveEntry (F : Type 0) : Type 0 where
  pub symbol : String
  pub knowledge_time : Instant
  pub exit_by : Instant
  pub buys : ℕ
  pub expected_car : F

abbrev pub is_cluster : EventType → Bool
is_cluster t = elim t [ insider_cluster_buy ↦ true | _ ↦ false ]

module _ {F : Type 0} where
  abbrev pub buys_of : Payload F → ℕ
  buys_of (n_buys n) = n
  buys_of (transaction_type t) = 0

module _ {F : Type 0} (at : Instant) (hold_days max_names freshness_days : ℕ) (held : List String)
    (mean_car : F) where
  -- Held already, or stale: an event is known by `at`, so that the difference is exact.
  abbrev pub is_skipped : Event F → Bool
  is_skipped e =
      any (λ s. s == e.entity_id) held || ltb freshness_days ((at - e.knowledge_time) / day)

  abbrev pub entry_of : Event F → SleeveEntry F
  entry_of e = record {
    symbol = e.entity_id;
    knowledge_time = e.knowledge_time;
    exit_by = at + hold_days * day;
    buys = buys_of e.payload;
    expected_car = mean_car;
  }

  -- The loop, with the number of entries that it has so far; the cap is tested after an entry is added.
  unfoldable pub open_entries_from : ℕ → List (Event F) → List (SleeveEntry F)
  open_entries_from opened [] = []
  open_entries_from opened (e ∷ es) =
      let skip_rest = open_entries_from opened es in
      let next_rest = open_entries_from (opened + 1) es in
      if is_skipped e
      then skip_rest
      else entry_of e ∷ (if leb max_names (opened + 1) then [] else next_rest)

module _ {F : Type 0} ⦃f : Float F⦄ where
  -- The gate, and the clusters newest first.
  unfoldable pub insider_cluster_entries :
      Instant → Option F → ℕ → ℕ → ℕ → ℕ → ℕ → List String → Store F → List (SleeveEntry F)
  insider_cluster_entries at none hold_days max_names fresh_days threshold window held s = []
  insider_cluster_entries at (some mean_car) hold_days max_names fresh_days threshold window held
        s =
      if f.le mean_car nought
      then []
      else open_entries_from at hold_days max_names fresh_days held mean_car 0 (
          sort_by (λ a b. leb b.knowledge_time a.knowledge_time)
            (filter (λ e. is_cluster e.event_type) (detect_events at threshold window s)))

module _ {F : Type 0} (at : Instant) (hold_days max_names freshness_days : ℕ) (held : List String)
    (mean_car : F) where
  open_entries_from-length :
      (opened : ℕ) (es : List (Event F))
      → opened < max_names
      → length (open_entries_from at hold_days max_names freshness_days held mean_car opened es)
          + opened
        ≤ max_names
  unfolding open_entries_from
  open_entries_from-length opened [] h = omega arith
  open_entries_from-length opened (e ∷ es) h =
      ground (arith, open_entries_from-length opened es h, open_entries_from-length (opened + 1) es)

  open_entries_from-held :
      (opened : ℕ) (es : List (Event F))
      → All
          (λ e. (any (λ s. s == e.symbol) held ≡ false) × (e.exit_by ≡ at + hold_days * day))
          (open_entries_from at hold_days max_names freshness_days held mean_car opened es)
  unfolding open_entries_from
  open_entries_from-held opened [] = tt
  open_entries_from-held opened (e ∷ es) =
      ground (arith, open_entries_from-held opened es, open_entries_from-held (opened + 1) es)

module _ {F : Type 0} ⦃f : Float F⦄ where
  -- However many clusters the store holds, at most `max_names` positions are opened, if that is not
  -- zero; each is of a name that is not held, and is closed after the hold.
  pub insider_cluster_entries-capped :
      (at : Instant) (gate : Option F) (hold_days max_names fresh_days threshold window : ℕ)
      (held : List String) (s : Store F)
      → 0 < max_names
      → let entries =
          insider_cluster_entries at gate hold_days max_names fresh_days threshold window held s in
        (length entries ≤ max_names)
        × All
            (λ e. (any (λ n. n == e.symbol) held ≡ false) × (e.exit_by ≡ at + hold_days * day))
            entries
  unfolding insider_cluster_entries
  insider_cluster_entries-capped at none hold_days max_names fresh_days threshold window held s h =
      (omega arith, tt)
  insider_cluster_entries-capped at (some mean_car) hold_days max_names fresh_days threshold window
        held s h =
      let clusters =
        sort_by (λ a b. leb b.knowledge_time a.knowledge_time)
          (filter (λ e. is_cluster e.event_type) (detect_events at threshold window s)) in
      elim (Bool-cases (f.le mean_car nought)) [
        | inl e ↦ rw e (omega arith, tt)
        | inr e ↦ rw e (
          omega (
            arith,
            open_entries_from-length at hold_days max_names fresh_days held mean_car 0 clusters h,
          ),
          open_entries_from-held at hold_days max_names fresh_days held mean_car 0 clusters,
        )
      ]
