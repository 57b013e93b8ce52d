-- ===== src/Feedback/Pruning.antt =====
-- src/market_trader/feedback/pruning.py: signals kept and retired.
use market_trader.Prelude.{String, List, filter}
use market_trader.Prelude.Order.{codes, lex_le, list_ord, nat_ord}
use market_trader.Prelude.Sort.{sort_by}
use market_trader.Prelude.Dict.{Dict, keys}
use market_trader.Float.{Float}

module _ {F : Type 0} ⦃f : Float F⦄ where
  unfoldable pub prune_signals_by_ic : F → Dict String F → List String × List String
  prune_signals_by_ic min_abs_ic ic_by_signal = (
    sort_by (λ a b. lex_le (codes a) (codes b))
        (keys (filter (λ kv. f.le min_abs_ic (f.abs kv.1)) ic_by_signal)),
    sort_by (λ a b. lex_le (codes a) (codes b))
        (keys (filter (λ kv. f.lt (f.abs kv.1) min_abs_ic) ic_by_signal)),
  )
