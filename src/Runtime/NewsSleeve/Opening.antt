-- ===== src/Runtime/NewsSleeve/Opening.antt =====
-- The loop of the news sleeve that opens positions.
use mathlib.Core.List.{append_assoc}
use market_trader.Prelude.{
  ◌≤◌, String, ◌≡◌, refl, true, false, List, [], ◌∷◌, ◌++◌, arith, All, Mem, inl, inr, ◌⊎◌,
  Bool-cases, Option-cases, length, length-append, leb,
}
use market_trader.Prelude.Lists.{All-append}
use market_trader.Prelude.Eq.{string_eq}
use market_trader.Prelude.Dict.{Dict, lookup}
use market_trader.Float.{Float}
use market_trader.Config.{Settings}
use market_trader.Core.Time.{Instant}
use market_trader.Execution.Engine.{Env}
use market_trader.Runtime.Sleeve.{PassState, is_in}
use market_trader.Runtime.NewsSleeve.Detect.{NewsEvent}
use market_trader.Runtime.NewsSleeve.Pass.{add_to, wants, open_at, open_one, open_all}
use market_trader.Runtime.Sleeve.Own.{Owns}
use market_trader.Runtime.NewsSleeve.Own.{open_at-Owns, IsActionable, wants-IsActionable}

is_in-append : (n : String) (xs ys : List String) → is_in n (xs ++ ys) ≡ false → is_in n xs ≡ false
is_in-append n [] ys h = refl
is_in-append n (x ∷ xs) ys h = ground (arith, is_in-append n xs ys)

module _ {F : Type 0} ⦃f : Float F⦄ (settings : Settings F) (env : Env) (prices : Dict String F)
    (acted : List String) (last_action : Dict String Instant) (live : List String)
    (events : List (NewsEvent F)) where
  -- Why a name was opened: an event of this pass.
  abbrev pub IsOpened : String → Type 0
  IsOpened n =
      (ev : NewsEvent F) × Mem ev events
      × (ev.symbol ≡ n)
      × IsActionable settings env prices acted last_action live ev

  -- What holds of the opening loop's state, from the names `live` that were held before it.
  pub record IsOpening (s : PassState F) : Type 0 where
    pub held : s.live ≡ live ++ s.opened
    pub owns : Owns s
    pub actions : All IsOpened s.opened
    pub capped : (length s.live ≤ settings.news_sleeve_max_names) ⊎ (s.opened ≡ [])

  open_at-IsOpening :
      (ev : NewsEvent F) (price : F) (s : PassState F)
      → Mem ev events
      → wants settings env prices acted last_action ev s.live ≡ true
      → leb settings.news_sleeve_max_names (length s.live) ≡ false
      → IsOpening s
      → IsOpening (open_at settings env prices ev price s)
  open_at-IsOpening ev price s m w room h =
      let act = wants-IsActionable settings env prices acted last_action ev s.live w in
      let fresh : is_in ev.symbol s.live ≡ false = act.not_held in
      let old : is_in ev.symbol live ≡ false =
        is_in-append ev.symbol live s.opened (rw (← h.held) fresh) in
      let grown : add_to ev.symbol s.live ≡ s.live ++ ev.symbol ∷ [] = rw fresh refl in
      record {
        held = rw (grown, h.held) (append_assoc live s.opened (ev.symbol ∷ []));
        owns = open_at-Owns settings env prices ev price s h.owns;
        actions = All-append IsOpened s.opened (ev.symbol ∷ []) h.actions (
          (
            ev,
            m,
            refl,
            record {
              price = act.price;
              priced = act.priced;
              tradable = act.tradable;
              good_news = act.good_news;
              confident = act.confident;
              new_story = act.new_story;
              not_held = old;
              cooled = act.cooled;
            },
          ),
          tt,
        );
        capped = inl (rw grown (ground (arith, length-append s.live (ev.symbol ∷ []))));
      }

  open_one-IsOpening :
      (ev : NewsEvent F) (s : PassState F)
      → Mem ev events
      → wants settings env prices acted last_action ev s.live ≡ true
      → leb settings.news_sleeve_max_names (length s.live) ≡ false
      → IsOpening s
      → IsOpening (open_one settings env prices ev s)
  unfolding open_one
  open_one-IsOpening ev s m w room h = elim (Option-cases (lookup ev.symbol prices)) [
    | inl e ↦ rw (e, open_one) h
    | inr (price, e) ↦ rw (e, open_one) (open_at-IsOpening ev price s m w room h)
  ]

  pub open_all-IsOpening :
      (es : List (NewsEvent F)) (s : PassState F)
      → All (λ e. Mem e events) es
      → IsOpening s
      → IsOpening (open_all settings env prices acted last_action es s)
  unfolding open_all
  open_all-IsOpening [] s m h = h
  open_all-IsOpening (ev ∷ es) s m h =
      elim (Bool-cases (leb settings.news_sleeve_max_names (length s.live))) [
        | inl e ↦ rw e h
        | inr e ↦ elim (Bool-cases (wants settings env prices acted last_action ev s.live)) [
          | inl w ↦
              rw (e, w)
                (open_all-IsOpening es (open_one settings env prices ev s) m.1
                  (open_one-IsOpening ev s m.0 w e h))
          | inr w ↦ rw (e, w) (open_all-IsOpening es s m.1 h)
        ]
      ]
