-- ===== src/Runtime/InsiderSleeve/Loops.antt =====
-- The two loops of a pass of the insider sleeve.
use market_trader.Prelude.{
  true, ℕ, ◌+◌, ◌≤◌, ◌*◌, String, ◌≡◌, refl, false, ◌||◌, Option, some, List, [], ◌∷◌, arith, All,
  inl, inr, Bool-cases, Option-cases, length, length-append, leb, Mem, ◌⊎◌, ◌∙◌,
}
use market_trader.Prelude.Lists.{All-append}
use market_trader.Prelude.Eq.{string_eq}
use market_trader.Prelude.Dict.{Dict, lookup}
use market_trader.Float.{Float, nought, truthy}
use market_trader.Config.{Settings}
use market_trader.Storage.Bitemporal.{Store}
use market_trader.Execution.Engine.{Env}
use market_trader.Memory.Taxonomy.{day}
use market_trader.Runtime.InsiderEvents.{SleeveEntry, insider_cluster_entries-capped}
use market_trader.Runtime.Sleeve.{PassState, is_in, Texts, is_stopped}
use market_trader.Runtime.Sleeve.Own.{Owns, closed-Owns, opened-Owns}
use market_trader.Runtime.InsiderSleeve.Positions.{InsiderSleevePosition}
use market_trader.Runtime.InsiderSleeve.Pass.{
  close_one, close_all, open_at, open_one, open_all, free_slots, entries_for,
}

module _ {F : Type 0} ⦃f : Float F⦄ (settings : Settings F) (texts : Texts) (env : Env)
    (prices : Dict String F) where
  -- The closing loop opens nothing, and every name of its target is closed.
  pub close_all-Owns :
      (ps : Dict String (InsiderSleevePosition F)) (s : PassState F)
      → Owns s
      → Owns (close_all settings texts env prices ps s)
        × ((close_all settings texts env prices ps s).opened ≡ s.opened)
  unfolding close_all
  close_all-Owns [] s h = (h, refl)
  close_all-Owns ((n, p) ∷ ps) s h =
      let stopped = is_stopped settings (lookup n prices) p.entry_price in
      let closed = close_one settings texts env prices n stopped s in
      elim (Bool-cases (leb p.exit_by env.as_of || stopped)) [
        | inl e ↦
            rw (e, close_all)
              (close_all-Owns ps closed (closed-Owns n nought s closed refl refl refl h))
        | inr e ↦ rw (e, close_all) (close_all-Owns ps s h)
      ]

  -- Why a name was closed: the sleeve held it, past its time or stopped out.
  abbrev pub IsClosed : Dict String (InsiderSleevePosition F) → String → Type 0
  IsClosed active n =
      (p : InsiderSleevePosition F) × Mem (n, p) active
      × ((p.exit_by ≤ env.as_of) ⊎ (is_stopped settings (lookup n prices) p.entry_price ≡ true))

  pub close_all-IsClosed :
      (active ps : Dict String (InsiderSleevePosition F)) (s : PassState F)
      → All (λ (x : String × InsiderSleevePosition F). Mem x active) ps
      → All (IsClosed active) s.closed
      → All (IsClosed active) (close_all settings texts env prices ps s).closed
  unfolding close_all
  close_all-IsClosed active [] s m h = h
  close_all-IsClosed active ((n, p) ∷ ps) s m h =
      let stopped = is_stopped settings (lookup n prices) p.entry_price in
      let closed = close_one settings texts env prices n stopped s in
      elim (Bool-cases (leb p.exit_by env.as_of || stopped)) [
        | inl e ↦
            rw (e, close_all)
              (close_all-IsClosed active ps closed m.1
                (All-append (IsClosed active) s.closed (n ∷ []) h ((p, m.0, ground arith), tt)))
        | inr e ↦ rw (e, close_all) (close_all-IsClosed active ps s m.1 h)
      ]

  open_one-closed :
      (e : SleeveEntry F) (s : PassState F)
      → (open_one settings texts env prices e s).closed ≡ s.closed
  unfolding open_one
  open_one-closed e s = elim (Option-cases (lookup e.symbol prices)) [
    | inl g ↦ rw (g, open_one) refl
    | inr (price, g) ↦ elim (Bool-cases (truthy price)) [
      | inr z ↦ rw (g, open_one) (rw z refl)
      | inl z ↦ rw (g, open_one) (rw z refl)
    ]
  ]

  pub open_all-closed :
      (es : List (SleeveEntry F)) (s : PassState F)
      → (open_all settings texts env prices es s).closed ≡ s.closed
  unfolding open_all
  open_all-closed [] s = refl
  open_all-closed (e ∷ es) s =
      open_all-closed es (open_one settings texts env prices e s) ∙ open_one-closed e s

  -- Why a name was opened: an entry that is not held, at a price that is not zero.
  pub record IsEntered (live : List String) (n : String) : Type 0 where
    pub not_held : is_in n live ≡ false
    pub price : F
    pub priced : lookup n prices ≡ some price
    pub tradable : truthy price ≡ true

  -- What the opening loop leads to from `s`, with `k` entries.
  pub record Opens (live : List String) (k : ℕ) (s t : PassState F) : Type 0 where
    pub owns : Owns t
    pub same_live : t.live ≡ s.live
    pub entered : All (IsEntered live) t.opened
    pub bounded : length t.opened ≤ length s.opened + k

  open_one-Opens :
      (live : List String) (e : SleeveEntry F) (s : PassState F)
      → is_in e.symbol live ≡ false
      → Owns s
      → All (IsEntered live) s.opened
      → Opens live 1 s (open_one settings texts env prices e s)
  unfolding open_one
  open_one-Opens live e s fresh h all =
      let kept : Opens live 1 s s = record {
        owns = h;
        same_live = refl;
        entered = all;
        bounded = omega arith;
      } in
      elim (Option-cases (lookup e.symbol prices)) [
        | inl g ↦ rw (g, open_one) kept
        | inr (price, g) ↦ elim (Bool-cases (truthy price)) [
          | inr z ↦ rw (g, open_one) (rw z kept)
          | inl z ↦
              rw (g, open_one)
                (rw z (record {
                  owns =
                      opened-Owns e.symbol _ s (open_at settings texts env prices e price s) refl
                        refl refl h;
                  same_live = refl;
                  entered =
                      All-append (IsEntered live) s.opened (e.symbol ∷ []) all
                        (record { not_held = fresh; price = price; priced = g; tradable = z }, tt);
                  bounded = omega (arith, length-append {0} s.opened (e.symbol ∷ []));
                }))
        ]
      ]

  pub open_all-Opens :
      (live : List String) (es : List (SleeveEntry F)) (s : PassState F)
      → All
          (λ e.
            (is_in e.symbol live ≡ false)
            × (e.exit_by ≡ env.as_of + settings.insider_sleeve_hold_days * day))
          es
      → Owns s
      → All (IsEntered live) s.opened
      → Opens live (length es) s (open_all settings texts env prices es s)
  unfolding open_all
  open_all-Opens live [] s fresh h all = record {
    owns = h;
    same_live = refl;
    entered = all;
    bounded = omega arith;
  }
  open_all-Opens live (e ∷ es) s fresh h all =
      let first = open_one-Opens live e s fresh.0.0 h all in
      let rest =
        open_all-Opens live es (open_one settings texts env prices e s) fresh.1 first.owns
          first.entered in
      record {
        owns = rest.owns;
        same_live = ground (arith, rest.same_live, first.same_live);
        entered = rest.entered;
        bounded = omega (arith, rest.bounded, first.bounded);
      }

  pub entries_for_lem :
      (gate : Option F) (live : List String) (s : Store F)
      → let es = entries_for settings texts env prices gate live s in
        (length es ≤ free_slots settings texts env prices live)
        × All
            (λ e.
              (is_in e.symbol live ≡ false)
              × (e.exit_by ≡ env.as_of + settings.insider_sleeve_hold_days * day))
            es
  unfolding entries_for
  entries_for_lem gate live s =
      elim (Bool-cases (leb (free_slots settings texts env prices live) 0)) [
        | inl e ↦ rw e (omega arith, tt)
        | inr e ↦ rw e (
            insider_cluster_entries-capped env.as_of gate settings.insider_sleeve_hold_days
              (free_slots settings texts env prices live) 5 3 30 live s (ground arith))
      ]
