-- ===== src/Execution/Reconciliation.antt =====
-- src/market_trader/execution/reconciliation.py: intended against actual positions.
use market_trader.Prelude.{String, not, List, [], ◌∷◌, ◌++◌, filter, any, if◌then◌else◌}
use market_trader.Prelude.Eq.{◌==◌, string_eq}
use market_trader.Prelude.Order.{codes, lex_le, list_ord, nat_ord}
use market_trader.Prelude.Sort.{sort_by}
use market_trader.Prelude.Dict.{Dict, insert, keys, get_or}
use market_trader.Float.{Float, nought}
use market_trader.Execution.Broker.{Position}

pub record Divergence (F : Type 0) : Type 0 where
  pub symbol : String
  pub intended : F
  pub actual : F
  pub diff : F

-- `sorted(set(a) | set(b))`, of the keys of two dicts.
unfoldable pub union_of : List String → List String → List String
union_of a b =
    sort_by (λ s t. lex_le (codes s) (codes t)) (a ++ filter (λ s. not (any (λ t. t == s) a)) b)

module _ {F : Type 0} ⦃f : Float F⦄ where
  unfoldable pub actual_of : List (Position F) → Dict String F → Dict String F
  actual_of [] d = d
  actual_of (p ∷ ps) d = actual_of ps (insert p.symbol p.qty d)

  unfoldable pub divergences : F → Dict String F → Dict String F → List String → List (Divergence F)
  divergences tol intended actual [] = []
  divergences tol intended actual (symbol ∷ symbols) =
      let want = get_or symbol nought intended in
      let have = get_or symbol nought actual in
      let rest = divergences tol intended actual symbols in
      let here : Divergence F = record {
        symbol = symbol;
        intended = want;
        actual = have;
        diff = f.sub want have;
      } in
      if f.lt tol (f.abs (f.sub want have)) then here ∷ rest else rest

  unfoldable pub reconcile : Dict String F → List (Position F) → F → List (Divergence F)
  reconcile intended broker_positions tol =
      let actual = actual_of broker_positions [] in
      divergences tol intended actual (union_of (keys intended) (keys actual))
