-- ===== src/Reasoning/Budget/Tests.antt =====
-- A budget of two over a provider that counts what it is asked.
use market_trader.Prelude.{ℕ, suc, ◌≤◌, ◌≡◌, refl, String, [], ◌∷◌, Result, ok}
use market_trader.Reasoning.Budget.{
  Request, new_provider, complete, complete_all, answered, complete_all-answered,
}

abbrev count : Request → ℕ → Result String String × ℕ
count r n = (ok r.prompt, suc n)

abbrev ask : Request
ask = record { system = "s"; prompt = "p"; max_tokens = 1024 }

three_asked : (complete_all count (ask ∷ ask ∷ ask ∷ []) (new_provider 0 2)).inner ≡ 2
unfolding complete_all complete new_provider
three_asked = refl

complete_all-answered_example :
    ((complete_all count (ask ∷ ask ∷ ask ∷ []) (new_provider 0 2)).inner
      ≡ answered count 2 (ask ∷ ask ∷ ask ∷ []) 0)
    × ((complete_all count (ask ∷ ask ∷ ask ∷ []) (new_provider 0 2)).calls ≤ 2)
    × ((complete_all count (ask ∷ ask ∷ ask ∷ []) (new_provider 0 2)).budget ≡ 2)
unfolding new_provider
complete_all-answered_example =
    complete_all-answered count (ask ∷ ask ∷ ask ∷ []) (new_provider 0 2) 2 refl
