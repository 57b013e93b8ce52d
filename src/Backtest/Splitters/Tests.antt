-- ===== src/Backtest/Splitters/Tests.antt =====
-- Splits of ten samples.
use market_trader.Prelude.{◌≡◌, refl, true, none, some, List, [], ◌∷◌, ok}
use market_trader.Prelude.Lists.{get_elem?}
use market_trader.Backtest.Splitters.{Window, walk_forward, walk_from, window, arange}
use market_trader.Backtest.Splitters.WalkForward.{IsWindow, walk_forward_lem}

abbrev two_windows : List Window
two_windows =
    (0 ∷ 1 ∷ 2 ∷ 3 ∷ [], 4 ∷ 5 ∷ 6 ∷ []) ∷ (0 ∷ 1 ∷ 2 ∷ 3 ∷ 4 ∷ 5 ∷ 6 ∷ [], 7 ∷ 8 ∷ 9 ∷ []) ∷ []

expanding_split : walk_forward 10 4 3 none true ≡ ok two_windows
unfolding walk_forward walk_from window arange
expanding_split = refl

abbrev second : Window
second = (0 ∷ 1 ∷ 2 ∷ 3 ∷ 4 ∷ 5 ∷ 6 ∷ [], 7 ∷ 8 ∷ 9 ∷ [])

walk_forward_lem_example : (get_elem? two_windows 1 ≡ some second) × IsWindow 4 3 3 second
unfolding window arange
walk_forward_lem_example = walk_forward_lem 10 4 3 none true expanding_split 1
