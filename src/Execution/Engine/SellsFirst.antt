-- ===== src/Execution/Engine/SellsFirst.antt =====
-- The order of submission.
use market_trader.Prelude.{
  ◌≡◌, refl, true, false, not, List, [], ◌∷◌, ◌++◌, arith, filter, Bool-cases, inl, inr,
}
use market_trader.Prelude.Sort.{insert_sorted, sort_by}
use market_trader.Float.{Float}
use market_trader.Execution.Broker.{is_sell}
use market_trader.Execution.Engine.Plan.{Planned, sells_le, sells_first}

module _ {F : Type 0} ⦃f : Float F⦄ where
  abbrev pub sells : List (Planned F) → List (Planned F)
  sells = filter λ p. is_sell p.0.side

  abbrev pub buys : List (Planned F) → List (Planned F)
  buys = filter λ p. not (is_sell p.0.side)

  insert_sell :
      (p : Planned F) (ps : List (Planned F))
      → is_sell p.0.side ≡ true
      → insert_sorted sells_le p ps ≡ p ∷ ps
  unfolding insert_sorted
  insert_sell p [] h = refl
  insert_sell p (q ∷ qs) h = ground arith

  insert_buy_buys :
      (p : Planned F) (xs : List (Planned F)) → insert_sorted sells_le p (buys xs) ≡ p ∷ buys xs
  unfolding insert_sorted
  insert_buy_buys p [] = refl
  insert_buy_buys p (x ∷ xs) = elim (Bool-cases (is_sell x.0.side)) [
    | inl s ↦ rw s (insert_buy_buys p xs)
    | inr b ↦ rw b (ground arith)
  ]

  insert_buy :
      (p : Planned F) (xs ys : List (Planned F))
      → is_sell p.0.side ≡ false
      → insert_sorted sells_le p (sells xs ++ buys ys) ≡ sells xs ++ p ∷ buys ys
  unfolding insert_sorted
  insert_buy p [] ys h = insert_buy_buys p ys
  insert_buy p (x ∷ xs) ys h = elim (Bool-cases (is_sell x.0.side)) [
    | inl s ↦ rw s (ground (arith, insert_buy p xs ys h))
    | inr b ↦ rw b (insert_buy p xs ys h)
  ]

  -- The sorted plan is the sells in the order in which they were planned, followed by the buys in the
  -- order in which they were planned.
  pub sells_first_lem : (ps : List (Planned F)) → sells_first ps ≡ sells ps ++ buys ps
  unfolding sells_first sort_by
  sells_first_lem [] = refl
  sells_first_lem (p ∷ ps) = elim (Bool-cases (is_sell p.0.side)) [
    | inl s ↦ rw s (rw (sells_first_lem ps) (insert_sell p _ s))
    | inr b ↦ rw b (rw (sells_first_lem ps) (insert_buy p ps ps b))
  ]
