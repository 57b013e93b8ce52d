-- ===== src/Reasoning/Budget.antt =====
-- src/market_trader/reasoning/budget.py: `BudgetedProvider`, over any provider with a state.
mod Tests
use market_trader.Prelude.{
  ℕ, ◌+◌, ◌≤◌, ◌<◌, ◌≡◌, refl, String, List, [], ◌∷◌, Result, ok, err, arith, ◌⊎◌, inl, inr, leb,
  zero, suc, true, false, ◌-◌, if◌then◌else◌, length, Bool-cases,
}

-- `LLMBudgetExceeded`, and the errors of the provider within.
pub data LlmError (E : Type 0) : Type 0 where
  budget_exceeded : LlmError E
  provider : E → LlmError E

-- `system`, `prompt` and `max_tokens`.
pub record Request : Type 0 where
  pub system : String
  pub prompt : String
  pub max_tokens : ℕ

pub record BudgetedProvider (S : Type 0) : Type 0 where
  pub inner : S
  pub budget : ℕ
  pub calls : ℕ

module _ {S : Type 0} where
  -- A budget below zero counts as zero, as here.
  unfoldable pub new_provider : S → ℕ → BudgetedProvider S
  new_provider inner budget = record { inner = inner; budget = budget; calls = 0 }

  unfoldable pub remaining : BudgetedProvider S → ℕ
  remaining p = p.budget - p.calls

module _ {S E : Type 0} (call : Request → S → Result E String × S) where
  abbrev pub reply : Result E String → Result (LlmError E) String
  reply (ok text) = ok text
  reply (err e) = err (provider e)

  unfoldable pub complete :
      Request → BudgetedProvider S → Result (LlmError E) String × BudgetedProvider S
  complete r p =
      if leb p.budget p.calls
      then (err budget_exceeded, p)
      else let (answer, inner) = call r p.inner in
        (reply answer, record p { calls = p.calls + 1; inner = inner })

  unfoldable pub complete_all : List Request → BudgetedProvider S → BudgetedProvider S
  complete_all [] p = p
  complete_all (r ∷ rs) p = complete_all rs (complete r p).1

  -- The provider within after the first `n` of the requests.
  unfoldable pub answered : ℕ → List Request → S → S
  answered zero rs s = s
  answered (suc n) [] s = s
  answered (suc n) (r ∷ rs) s = answered n rs (call r s).1

  answered_nothing : (n : ℕ) (s : S) → answered n [] s ≡ s
  unfolding answered
  answered_nothing zero s = refl
  answered_nothing (suc n) s = refl

  complete_all_spent :
      (rs : List Request) (p : BudgetedProvider S) → p.budget ≤ p.calls → complete_all rs p ≡ p
  unfolding complete_all complete
  complete_all_spent [] p h = refl
  complete_all_spent (r ∷ rs) p h =
      let over : leb p.budget p.calls ≡ true = ground arith in rw over (complete_all_spent rs p h)

  complete_all_within :
      (r : Request) (rs : List Request) (p : BudgetedProvider S)
      → p.calls < p.budget
      → complete_all (r ∷ rs) p
        ≡ complete_all rs (record p { calls = p.calls + 1; inner = (call r p.inner).1 })
  unfolding complete_all complete
  complete_all_within r rs p h =
      let under : leb p.budget p.calls ≡ false = ground arith in rw under refl

  -- Over any run of requests the provider within sees exactly the first ones, as many as the budget
  -- has left and no more, and the calls stay within the budget.
  pub complete_all-answered :
      (rs : List Request) (p : BudgetedProvider S) (left : ℕ)
      → p.calls + left ≡ p.budget
      → ((complete_all rs p).inner ≡ answered left rs p.inner)
        × ((complete_all rs p).calls ≤ p.budget)
        × ((complete_all rs p).budget ≡ p.budget)
  unfolding answered
  complete_all-answered [] p left h =
      unfold complete_all in (rw (answered_nothing left p.inner) (refl, omega arith, refl))
  complete_all-answered (r ∷ rs) p zero h =
      rw (complete_all_spent (r ∷ rs) p (omega arith)) (refl, omega arith, refl)
  complete_all-answered (r ∷ rs) p (suc left) h = rw (complete_all_within r rs p (omega arith)) (
      complete_all-answered rs (record p { calls = p.calls + 1; inner = (call r p.inner).1 }) left
        (omega arith))
