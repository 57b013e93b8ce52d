-- ===== src/Memory/Surprise.antt =====
-- src/market_trader/memory/surprise.py: actual against consensus. The direction is that of the
-- intraday gate's type: up for +1, down for -1, flat for 0.
use market_trader.Prelude.{Option, none, some, ◌&&◌, if◌then◌else◌}
use market_trader.Float.{Float, nought, truthy}
use market_trader.Runtime.IntradayConfirm.{Direction, up, down, flat}

pub record Surprise (F : Type 0) : Type 0 where
  pub actual : F
  pub consensus : F
  pub surprise : F
  pub standardized : Option F
  pub direction : Direction

module _ {F : Type 0} ⦃f : Float F⦄ where
  abbrev pub standardize : F → Option F → Option F
  standardize delta none = none
  standardize delta (some dispersion) =
      if truthy dispersion && f.lt nought dispersion then some (f.div delta dispersion) else none

  unfoldable pub encode_surprise : F → F → Option F → Surprise F
  encode_surprise actual consensus dispersion =
      let delta = f.sub actual consensus in
      record {
        actual = actual;
        consensus = consensus;
        surprise = delta;
        standardized = standardize delta dispersion;
        direction = if f.lt nought delta then up else if f.lt delta nought then down else flat;
      }
