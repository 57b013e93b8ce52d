-- ===== src/Runtime/NewsSleeve/Own.antt =====
-- The names that a pass of the news sleeve closes and opens.
use market_trader.Prelude.{
  String, ◌≡◌, refl, Bool, true, false, ◌||◌, some, List, [], ◌∷◌, arith, inl, inr, Bool-cases,
  Option-cases, leb, if◌then◌else◌, All, Mem, ◌⊎◌, ◌≤◌, length, ◌∙◌,
}
use market_trader.Prelude.Lists.{All-append}
use market_trader.Prelude.Eq.{string_eq}
use market_trader.Prelude.Dict.{Dict, lookup}
use market_trader.Float.{Float, nought}
use market_trader.Config.{Settings}
use market_trader.Core.Time.{Instant}
use market_trader.Execution.Engine.{Env}
use market_trader.Execution.Engine.Plan.{no_price}
use market_trader.Runtime.IntradayConfirm.{up}
use market_trader.Runtime.Sleeve.{PassState, is_in, is_stopped}
use market_trader.Runtime.NewsSleeve.Detect.{NewsEvent}
use market_trader.Runtime.NewsSleeve.Positions.{SleevePosition}
use market_trader.Runtime.NewsSleeve.Pass.{
  close_one, close_all, is_cooling, wants, open_at, open_one, open_all,
}
use market_trader.Runtime.Sleeve.Own.{Owns, closed-Owns, opened-Owns}

module _ {F : Type 0} ⦃f : Float F⦄ (settings : Settings F) (env : Env)
    (prices : Dict String F) where
  close_one-Owns :
      (n : String) (p : SleevePosition F) (stopped : Bool) (s : PassState F)
      → Owns s
      → Owns (close_one settings env prices n p stopped s)
  close_one-Owns n p stopped s =
      closed-Owns n nought s (close_one settings env prices n p stopped s) refl refl refl

  pub close_all-Owns :
      (ps : Dict String (SleevePosition F)) (s : PassState F)
      → Owns s
      → Owns (close_all settings env prices ps s)
  unfolding close_all
  close_all-Owns [] s h = h
  close_all-Owns ((n, p) ∷ ps) s h =
      let stopped = is_stopped settings (lookup n prices) p.entry_price in
      let next : PassState F =
        if leb p.exit_by env.as_of || stopped
        then close_one settings env prices n p stopped s
        else s in
      let own : Owns next = elim (Bool-cases (leb p.exit_by env.as_of || stopped)) [
        | inl e ↦ rw e (close_one-Owns n p stopped s h)
        | inr e ↦ rw e h
      ] in
      close_all-Owns ps next own

  pub close_all-opened :
      (ps : Dict String (SleevePosition F)) (s : PassState F)
      → (close_all settings env prices ps s).opened ≡ s.opened
  unfolding close_all
  close_all-opened [] s = refl
  close_all-opened ((n, p) ∷ ps) s =
      let stopped = is_stopped settings (lookup n prices) p.entry_price in
      elim (Bool-cases (leb p.exit_by env.as_of || stopped)) [
        | inl e ↦
            rw (e, close_all) (close_all-opened ps (close_one settings env prices n p stopped s))
        | inr e ↦ rw (e, close_all) (close_all-opened ps s)
      ]

  -- Why a name was closed: the sleeve held it, past its window or stopped out.
  abbrev pub IsClosed : Dict String (SleevePosition F) → String → Type 0
  IsClosed active n =
      (p : SleevePosition F) × Mem (n, p) active
      × ((p.exit_by ≤ env.as_of) ⊎ (is_stopped settings (lookup n prices) p.entry_price ≡ true))

  pub close_all-IsClosed :
      (active ps : Dict String (SleevePosition F)) (s : PassState F)
      → All (λ (x : String × SleevePosition F). Mem x active) ps
      → All (IsClosed active) s.closed
      → All (IsClosed active) (close_all settings env prices ps s).closed
  unfolding close_all
  close_all-IsClosed active [] s m h = h
  close_all-IsClosed active ((n, p) ∷ ps) s m h =
      let stopped = is_stopped settings (lookup n prices) p.entry_price in
      let closed = close_one settings env prices n p stopped s in
      elim (Bool-cases (leb p.exit_by env.as_of || stopped)) [
        | inl e ↦
            rw (e, close_all)
              (close_all-IsClosed active ps closed m.1
                (All-append (IsClosed active) s.closed (n ∷ []) h ((p, m.0, ground arith), tt)))
        | inr e ↦ rw (e, close_all) (close_all-IsClosed active ps s m.1 h)
      ]

  open_one-closed :
      (ev : NewsEvent F) (s : PassState F) → (open_one settings env prices ev s).closed ≡ s.closed
  unfolding open_one
  open_one-closed ev s = elim (Option-cases (lookup ev.symbol prices)) [
    | inl g ↦ rw (g, open_one) refl
    | inr (price, g) ↦ rw (g, open_one) refl
  ]

  pub open_all-closed :
      (acted : List String) (last_action : Dict String Instant) (es : List (NewsEvent F))
      (s : PassState F)
      → (open_all settings env prices acted last_action es s).closed ≡ s.closed
  unfolding open_all
  open_all-closed acted last_action [] s = refl
  open_all-closed acted last_action (ev ∷ es) s =
      elim (Bool-cases (leb settings.news_sleeve_max_names (length s.live))) [
        | inl e ↦ rw e refl
        | inr e ↦ elim (Bool-cases (wants settings env prices acted last_action ev s.live)) [
          | inr w ↦ rw (e, w) (open_all-closed acted last_action es s)
          | inl w ↦
              rw (e, w)
                (open_all-closed acted last_action es (open_one settings env prices ev s)
                  ∙ open_one-closed ev s)
        ]
      ]

  pub open_at-Owns :
      (ev : NewsEvent F) (price : F) (s : PassState F)
      → Owns s
      → Owns (open_at settings env prices ev price s)
  open_at-Owns ev price s =
      opened-Owns ev.symbol _ s (open_at settings env prices ev price s) refl refl refl

  -- What an event had that was acted on: a price, good news, confidence, a story that is new, a name
  -- that is not held, and no action on it within the cooldown.
  pub record IsActionable (acted : List String) (last_action : Dict String Instant)
      (live : List String) (ev : NewsEvent F) : Type 0 where
    pub price : F
    pub priced : lookup ev.symbol prices ≡ some price
    pub tradable : no_price (some price) ≡ false
    pub good_news : ev.direction ≡ up
    pub confident : f.lt ev.confidence settings.news_sleeve_min_confidence ≡ false
    pub new_story : is_in ev.story_hash acted ≡ false
    pub not_held : is_in ev.symbol live ≡ false
    pub cooled : is_cooling settings env prices (lookup ev.symbol last_action) ≡ false

  pub wants-IsActionable :
      (acted : List String) (last_action : Dict String Instant) (ev : NewsEvent F)
      (live : List String)
      → wants settings env prices acted last_action ev live ≡ true
      → IsActionable acted last_action live ev
  unfolding wants
  wants-IsActionable acted last_action ev live h = elim (Option-cases (lookup ev.symbol prices)) [
    | inl e ↦ absurd (ground arith)
    | inr (price, e) ↦ record {
      price = price;
      priced = e;
      tradable = ground arith;
      good_news = ground arith;
      confident = ground arith;
      new_story = ground arith;
      not_held = ground arith;
      cooled = ground arith;
    }
  ]
