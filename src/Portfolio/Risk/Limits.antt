-- ===== src/Portfolio/Risk/Limits.antt =====
-- src/market_trader/portfolio/risk.py: `apply_risk_limits`. A pandas series is a list of labelled
-- weights, and its `sum` is that of the float parameter over them.
use market_trader.Prelude.{
  String, Bool, true, false, not, ◌&&◌, Option, none, some, List, [], ◌∷◌, map, filter,
  if◌then◌else◌,
}
use market_trader.Prelude.Eq.{◌==◌, string_eq}
use market_trader.Prelude.Dict.{Dict, lookup, values}
use market_trader.Float.{Float, nought, one}
use market_trader.Portfolio.Risk.{Weights, RiskLimits}

-- `sectors.get(k) == sector`
abbrev pub is_in : Dict String String → String → String → Bool
is_in sectors sector k = elim (lookup k sectors) [ none ↦ false | some s ↦ s == sector ]

module _ {F : Type 0} ⦃f : Float F⦄ where
  -- `s.clip(lower=-limit, upper=limit)`, which leaves NaN.
  abbrev pub clip : F → F → F
  clip limit w = if f.lt w (f.neg limit) then f.neg limit else if f.lt limit w then limit else w

  -- `s[selected] = s[selected] * factor`
  unfoldable pub scale_where : (String × F → Bool) → F → Weights F → Weights F
  scale_where selected factor s =
      map (λ kv. (kv.0, if selected kv then f.mul kv.1 factor else kv.1)) s

  abbrev pub gross_where : (String × F → Bool) → Weights F → F
  gross_where selected s = f.sum (map (λ kv. f.abs kv.1) (filter selected s))

  abbrev pub everyone : String × F → Bool
  everyone kv = true

  unfoldable pub cap_gross : F → Weights F → Weights F
  cap_gross limit s =
      let gross = gross_where everyone s in
      if f.lt limit gross && f.lt nought gross
      then scale_where everyone (f.div limit gross) s
      else s

  unfoldable pub cap_sector : Dict String String → F → String → Weights F → Weights F
  cap_sector sectors limit sector s =
      let exposure = gross_where (λ kv. is_in sectors sector kv.0) s in
      if f.lt limit exposure && f.lt nought exposure
      then scale_where (λ kv. is_in sectors sector kv.0) (f.div limit exposure) s
      else s

  unfoldable pub cap_sectors : Dict String String → F → List String → Weights F → Weights F
  cap_sectors sectors limit [] s = s
  cap_sectors sectors limit (sector ∷ rest) s =
      cap_sectors sectors limit rest (cap_sector sectors limit sector s)

  -- `s > 0 if net > 0 else s < 0`
  abbrev pub is_dominant : F → String × F → Bool
  is_dominant net kv = if f.lt nought net then f.lt nought kv.1 else f.lt kv.1 nought

  unfoldable pub cap_net : F → Weights F → Weights F
  cap_net limit s =
      let net = f.sum (values s) in
      let dom_gross = gross_where (is_dominant net) s in
      if f.lt (f.add limit (f.lit 1 12)) (f.abs net) && f.lt nought dom_gross
      then scale_where (is_dominant net) (f.sub one (f.div (f.sub (f.abs net) limit) dom_gross)) s
      else s

  -- `sectors` is `none` or empty where the code skips the sector caps; `listing` gives the set of its
  -- arguments, in the order in which Python goes through it.
  unfoldable pub apply_risk_limits :
      (List String → List String)
      → Option (Dict String String)
      → RiskLimits F
      → Weights F
      → Weights F
  apply_risk_limits listing sectors limits weights =
      let clipped = map (λ kv. (kv.0, clip limits.max_position_weight kv.1)) weights in
      let grossed = cap_gross limits.max_gross_exposure clipped in
      let sectored : Weights F = elim sectors [
        | none ↦ grossed
        | some d ↦ cap_sectors d limits.max_sector_weight (listing (values d)) grossed
      ] in
      filter (λ kv. not (f.eq kv.1 nought)) (cap_net limits.max_net_exposure sectored)
