-- ===== src/Runtime/NewsSleeve/Detect.antt =====
-- `detect_news_events`: names whose recent news surged past their trailing baseline.
use market_trader.Prelude.{
  ℕ, ◌+◌, ◌-◌, ◌*◌, String, ◌&&◌, Option, none, some, List, [], ◌∷◌, ◌++◌, filter, any, length, ltb,
  leb, if◌then◌else◌,
}
use market_trader.Prelude.Eq.{◌==◌, string_eq}
use market_trader.Prelude.Dict.{Dict, lookup, insert, get_or}
use market_trader.Float.{Float, nought, one, fmin, fmax}
use market_trader.Core.Time.{Instant}
use market_trader.Core.Schema.{Observation, Value, integer, number}
use market_trader.Storage.Bitemporal.{Store, by_dataset, as_of}
use market_trader.Memory.Taxonomy.{day}
use market_trader.Runtime.IntradayConfirm.{Direction, up, down, flat}
use market_trader.Runtime.Sleeve.{Texts, text_at}

pub record NewsEvent (F : Type 0) : Type 0 where
  pub symbol : String
  pub direction : Direction
  pub confidence : F
  pub tone : F
  pub surge : F
  pub story_hash : String

-- `(o.event_time, o.value)`
abbrev pub Article : Type 0 → Type 0
Article F = Instant × Dict String (Value F)

abbrev pub news_dataset : String
news_dataset = "news.article"

-- `str(a or b or "")`, of texts.
abbrev pub filled_or : Option String → String → String
filled_or none other = other
filled_or (some t) other = if t == "" then other else t

module _ {F : Type 0} where
  unfoldable pub group_articles :
      Instant
      → List String
      → ℕ
      → List (Observation F)
      → Dict String (List (Article F))
      → Dict String (List (Article F))
  group_articles at symbols window [] rows = rows
  group_articles at symbols window (o ∷ os) rows = group_articles at symbols window os (
      if any (λ s. s == o.entity_id) symbols && leb at (o.event_time + window)
      then insert o.entity_id (get_or o.entity_id [] rows ++ (o.event_time, o.value) ∷ []) rows
      else rows)

  unfoldable pub articles_within :
      Store F → Instant → List String → ℕ → Dict String (List (Article F))
  articles_within s at symbols baseline_days =
      group_articles at symbols (baseline_days * day) (as_of at (by_dataset news_dataset) s) []

  -- `max(items, key=lambda tv: tv[0])`: the first of the latest.
  unfoldable pub latest_article : Article F → List (Article F) → Article F
  latest_article best [] = best
  latest_article best (a ∷ items) = latest_article (if ltb best.0 a.0 then a else best) items

  unfoldable pub story_hash_of : Texts → Article F → List (Article F) → String
  story_hash_of texts a items =
      let latest = (latest_article a items).1 in
      texts.digest (filled_or (text_at "url" latest) (filled_or (text_at "title" latest) ""))

module _ {F : Type 0} ⦃f : Float F⦄ where
  unfoldable pub confidence_of : F → F → F → F → F
  confidence_of surge tone count_surge tone_min =
      let from_surge =
        if f.lt nought count_surge
        then fmin one (f.div surge (f.mul (f.lit 2 0) count_surge))
        else nought in
      let from_tone =
        if f.lt nought tone_min
        then fmin one (f.div (f.abs tone) (f.mul (f.lit 2 0) tone_min))
        else nought in
      f.round
        (fmax nought
          (fmin one (f.add (f.mul (f.lit 5 1) from_surge) (f.mul (f.lit 5 1) from_tone))))
        4

  -- `float(v["tone"])` where it is not `None`, of a number.
  abbrev pub tone_at : Dict String (Value F) → Option F
  tone_at d = elim (lookup "tone" d) [
    | none ↦ none
    | some v ↦ elim v [ number x ↦ some x | integer n ↦ some (f.lit n 0) | _ ↦ none ]
  ]

  unfoldable pub tones_of : List (Article F) → List F
  tones_of [] = []
  tones_of (a ∷ items) =
      let rest = tones_of items in elim (tone_at a.1) [ none ↦ rest | some x ↦ x ∷ rest ]

  abbrev pub mean_of : List F → F
  mean_of [] = nought
  mean_of (x ∷ xs) = f.div (f.sum (x ∷ xs)) (f.lit (length (x ∷ xs)) 0)

  abbrev pub direction_of : F → Direction
  direction_of tone = if f.lt nought tone then up else if f.lt tone nought then down else flat

  -- `len(recent) / max(baseline_daily, 0.5)`
  abbrev pub surge_of : ℕ → ℕ → ℕ → F
  surge_of n_recent n_before denom =
      f.div (f.lit n_recent 0) (fmax (f.div (f.lit n_before 0) (f.lit denom 0)) (f.lit 5 1))

  -- The event of a symbol with at least one recent article, if it is one.
  unfoldable pub event_of :
      Texts → F → F → ℕ → ℕ → String → Article F → List (Article F) → Option (NewsEvent F)
  event_of texts count_surge tone_min denom n_before symbol a rest =
      let n_recent = length (a ∷ rest) in
      let surge = surge_of n_recent n_before denom in
      let tone = mean_of (tones_of (a ∷ rest)) in
      if ltb n_recent 3
      then none
      else if f.lt surge count_surge
      then none
      else some (record {
        symbol = symbol;
        direction = direction_of tone;
        confidence = confidence_of surge tone count_surge tone_min;
        tone = f.round tone 4;
        surge = f.round surge 4;
        story_hash = story_hash_of texts a rest;
      })

  -- The loop over the symbols; `recent_days` days back the recent news begin.
  unfoldable pub events_of :
      Texts → Instant → F → F → ℕ → ℕ → Dict String (List (Article F)) → List (NewsEvent F)
  events_of texts at count_surge tone_min recent denom [] = []
  events_of texts at count_surge tone_min recent denom ((symbol, items) ∷ rows) =
      let later = events_of texts at count_surge tone_min recent denom rows in
      let n_before = length (filter (λ a. ltb (a.0 + recent) at) items) in
      elim (filter (λ a. leb at (a.0 + recent)) items) [
        | [] ↦ later
        | (a ∷ rest) ↦ elim (event_of texts count_surge tone_min denom n_before symbol a rest) [
          | none ↦ later
          | some ev ↦ ev ∷ later
        ]
      ]

  -- With `recent_days` of 1, as it is called. `max(n, 1)` of a natural number.
  unfoldable pub detect_news_events :
      Texts → Store F → Instant → List String → F → F → ℕ → List (NewsEvent F)
  detect_news_events texts s at symbols count_surge tone_min baseline_days =
      let denom = if leb (baseline_days - 1) 1 then 1 else baseline_days - 1 in
      events_of texts at count_surge tone_min day denom (articles_within s at symbols baseline_days)
