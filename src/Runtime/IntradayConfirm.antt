-- ===== src/Runtime/IntradayConfirm.antt =====
-- src/market_trader/runtime/intraday_confirm.py: the confirmation gate. A persistence below one is
-- zero here; each check of the gate reads it alike.
mod Tests
use market_trader.Prelude.{
  ℕ, ◌-◌, ◌<◌, ◌≤◌, ◌≡◌, refl, String, Bool, true, false, not, ◌&&◌, ◌||◌, Option, none, some, List,
  [], ◌∷◌, ◌++◌, arith, any, length, ltb, leb, if◌then◌else◌, Option-cases, Bool-cases, inl, inr,
  ◌∙◌,
}
use market_trader.Prelude.Eq.{string_eq, beq_refl}
use market_trader.Prelude.Dict.{Dict, lookup, insert, lookup-insert}
use market_trader.Float.{Float, nought, fmax}
use market_trader.Core.Time.{Instant}

-- +1, -1 and 0.
pub data Direction : Type 0 where
  up down flat : Direction

abbrev pub same : Direction → Direction → Bool
same up up = true
same down down = true
same flat flat = true
same up down = false
same up flat = false
same down up = false
same down flat = false
same flat up = false
same flat down = false

pub record Config (F : Type 0) : Type 0 where
  pub persistence : ℕ
  pub sigma_mult : F
  pub volume_mult : F
  pub require_daily_agreement : Bool
  pub cooldown_minutes : F

pub record NameState : Type 0 where
  pub directions : List Direction
  pub last_action : Option Instant

abbrev pub fresh : NameState
fresh = record { directions = []; last_action = none }

-- The arguments of `confirm` beside the symbol and the time.
pub record Reading (F : Type 0) : Type 0 where
  pub signal : F
  pub recent_vol : F
  pub volume_ratio : F
  pub daily_signal : F

-- The last `most` elements: a full `deque` drops from its left end.
abbrev pub drop_first : {A : Type 0} → List A → List A
drop_first [] = []
drop_first (x ∷ xs) = xs

-- `append` on a `deque(maxlen=max(1, most))` that holds no more than that.
unfoldable pub push : {A : Type 0} → ℕ → List A → A → List A
push most xs x =
    let limit = if leb most 1 then 1 else most in
    if ltb (length xs) limit then xs ++ x ∷ [] else drop_first (xs ++ x ∷ [])

abbrev pub last_of : Direction → List Direction → Direction
last_of d [] = d
last_of d (e ∷ es) = last_of e es

-- `self._state.setdefault(symbol, ...)`
abbrev pub state_of : String → Dict String NameState → NameState
state_of symbol states = elim (lookup symbol states) [ none ↦ fresh | some st ↦ st ]

state_of-insert :
    (symbol : String) (st : NameState) (states : Dict String NameState)
    → state_of symbol (insert symbol st states) ≡ st
state_of-insert symbol st states =
    rw (lookup-insert symbol symbol st states, state_of) (rw (beq_refl symbol) refl)

module _ {F : Type 0} ⦃f : Float F⦄ where
  unfoldable pub direction_of : Config F → Reading F → Direction
  direction_of cfg r =
      let threshold = f.mul cfg.sigma_mult (fmax r.recent_vol nought) in
      if f.lt nought threshold && f.le threshold (f.abs r.signal)
      then if f.lt nought r.signal then up else down
      else flat

  -- `proposed * daily_signal < 0`
  abbrev pub opposes : Direction → F → Bool
  opposes up daily = f.lt daily nought
  opposes down daily = f.lt nought daily
  opposes flat daily = false

  -- `(now - last_action).total_seconds()`
  abbrev pub seconds_between : Instant → Instant → F
  seconds_between last now =
      if leb last now then f.lit (now - last) 6 else f.neg (f.lit (last - now) 6)

  unfoldable pub is_cooling : Config F → Option Instant → Instant → Bool
  is_cooling cfg none now = false
  is_cooling cfg (some last) now =
      f.lt (seconds_between last now) (f.mul cfg.cooldown_minutes (f.lit 60 0))

  -- The checks on a name's directions, newest last, with the direction that is proposed.
  unfoldable pub passes : Config F → Reading F → Instant → Option Instant → List Direction → Bool
  passes cfg r now last_action directions =
      let proposed = last_of flat directions in
      not (ltb (length directions) cfg.persistence)
      && not (same proposed flat)
      && not (any (λ d. not (same d proposed)) directions)
      && not (f.lt r.volume_ratio cfg.volume_mult)
      && not (
          cfg.require_daily_agreement
          && not (f.eq r.daily_signal nought)
          && opposes proposed r.daily_signal)
      && not (is_cooling cfg last_action now)

  unfoldable pub confirm :
      Config F
      → String
      → Reading F
      → Instant
      → Dict String NameState
      → Direction × Dict String NameState
  confirm cfg symbol r now states =
      let st = state_of symbol states in
      let directions = push cfg.persistence st.directions (direction_of cfg r) in
      if passes cfg r now st.last_action directions
      then (
        last_of flat directions,
        insert symbol (record { directions = directions; last_action = some now }) states,
      )
      else (flat, insert symbol (record st { directions = directions }) states)

  confirm_passed :
      (cfg : Config F) (symbol : String) (r : Reading F) (now : Instant)
      (states : Dict String NameState)
      → same (confirm cfg symbol r now states).0 flat ≡ false
      → (directions : List Direction) × ((confirm cfg symbol r now states).1
          ≡ insert symbol (record { directions = directions; last_action = some now }) states)
        × (passes cfg r now (state_of symbol states).last_action directions ≡ true)
  unfolding confirm
  confirm_passed cfg symbol r now states h =
      let st = state_of symbol states in
      let ds = push cfg.persistence st.directions (direction_of cfg r) in
      elim (Bool-cases (passes cfg r now st.last_action ds)) [
        | inl e ↦ (ds, rw e refl, e)
        | inr e ↦ absurd (cc (rw e at h))
      ]

  passes_cooling :
      (cfg : Config F) (r : Reading F) (now : Instant) (last : Option Instant) (ds : List Direction)
      → is_cooling cfg last now ≡ true
      → passes cfg r now last ds ≡ false
  unfolding passes
  passes_cooling cfg r now last ds h = ground arith

  confirm_refused :
      (cfg : Config F) (symbol : String) (r : Reading F) (now : Instant)
      (states : Dict String NameState)
      → is_cooling cfg (state_of symbol states).last_action now ≡ true
      → ((confirm cfg symbol r now states).0 ≡ flat)
        × ((state_of symbol (confirm cfg symbol r now states).1).last_action
            ≡ (state_of symbol states).last_action)
  unfolding confirm
  confirm_refused cfg symbol r now states h =
      let st = state_of symbol states in
      let ds = push cfg.persistence st.directions (direction_of cfg r) in
      rw (passes_cooling cfg r now st.last_action ds h)
        (refl, rw (state_of-insert symbol (record st { directions = ds }) states) refl)

  -- After an action on a name, a check of that name within the cooldown gives no action, whatever its
  -- readings, and leaves the time of the last action as it was.
  pub confirm_cools :
      (cfg : Config F) (symbol : String) (r : Reading F) (now : Instant)
      (states : Dict String NameState) (r' : Reading F) (now' : Instant)
      → same (confirm cfg symbol r now states).0 flat ≡ false
      → is_cooling cfg (some now) now' ≡ true
      → let after = (confirm cfg symbol r now states).1 in
        ((confirm cfg symbol r' now' after).0 ≡ flat)
        × ((state_of symbol (confirm cfg symbol r' now' after).1).last_action ≡ some now)
  confirm_cools cfg symbol r now states r' now' h c =
      let (ds, stored, t) = confirm_passed cfg symbol r now states h in
      let kept : (state_of symbol (confirm cfg symbol r now states).1).last_action ≡ some now =
        rw stored (rw (state_of-insert symbol _ states) refl) in
      let (none_now, same_time) =
        confirm_refused cfg symbol r' now' (confirm cfg symbol r now states).1 (rw kept c) in
      (none_now, same_time ∙ kept)
