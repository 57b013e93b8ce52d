-- ===== src/Execution/PaperBroker/Moved.antt =====
-- What a fill of the paper broker does to the positions.
use market_trader.Prelude.{
  String, ◌≡◌, refl, Bool, true, false, none, some, [], ◌∷◌, arith, inl, inr, Bool-cases,
  Option-cases, ◌≢◌,
}
use market_trader.Prelude.Eq.{◌==◌, string_eq, beq_refl, beq_iff}
use market_trader.Prelude.Dict.{Dict, lookup, insert, erase, lookup-insert}
use market_trader.Float.{Float, nought}
use market_trader.Execution.Broker.{Position}
use market_trader.Execution.PaperBroker.{apply_fill, position, same_bool}

same_bool-true : (a b : Bool) → same_bool a b ≡ true → a ≡ b
same_bool-true a b h = ground arith

same_bool-false : (a b : Bool) → same_bool a b ≡ false → a ≢ b
same_bool-false a b h e = ground arith

module _ {F : Type 0} ⦃f : Float F⦄ where
  -- What `d` shares at a price do to the position in the symbol: it is opened, or is gone when nothing
  -- is left, or grows at an average price, or shrinks at the price it had, or changes its side.
  pub data Moves (symbol : String) (d price : F) (ps qs : Dict String (Position F)) : Type 0 where
    opened :
        lookup symbol ps ≡ none
        → lookup symbol qs ≡ some (position symbol d price)
        → Moves symbol d price ps qs
    closed :
        (p : Position F)
        → lookup symbol ps ≡ some p
        → f.lt (f.abs (f.add p.qty d)) (f.lit 1 12) ≡ true
        → qs ≡ erase symbol ps
        → Moves symbol d price ps qs
    grown :
        (p : Position F)
        → lookup symbol ps ≡ some p
        → f.lt (f.abs (f.add p.qty d)) (f.lit 1 12) ≡ false
        → f.lt nought p.qty ≡ f.lt nought d
        → lookup symbol qs
          ≡ some (
              position symbol
                (f.add p.qty d)
                (f.div (f.add (f.mul p.avg_price p.qty) (f.mul price d)) (f.add p.qty d)))
        → Moves symbol d price ps qs
    shrunk :
        (p : Position F)
        → lookup symbol ps ≡ some p
        → f.lt (f.abs (f.add p.qty d)) (f.lit 1 12) ≡ false
        → f.lt nought p.qty ≢ f.lt nought d
        → f.lt nought (f.add p.qty d) ≡ f.lt nought p.qty
        → lookup symbol qs ≡ some (position symbol (f.add p.qty d) p.avg_price)
        → Moves symbol d price ps qs
    flipped :
        (p : Position F)
        → lookup symbol ps ≡ some p
        → f.lt (f.abs (f.add p.qty d)) (f.lit 1 12) ≡ false
        → f.lt nought p.qty ≢ f.lt nought d
        → f.lt nought (f.add p.qty d) ≢ f.lt nought p.qty
        → lookup symbol qs ≡ some (position symbol (f.add p.qty d) price)
        → Moves symbol d price ps qs

  -- Positions in other symbols stay.
  pub record Moved (symbol : String) (d price : F) (ps qs : Dict String (Position F)) : Type 0 where
    pub others : (n : String) → (symbol == n) ≡ false → lookup n qs ≡ lookup n ps
    pub own : Moves symbol d price ps qs

  lookup-erase_other :
      (k n : String) (ps : Dict String (Position F))
      → (k == n) ≡ false
      → lookup n (erase k ps) ≡ lookup n ps
  lookup-erase_other k n [] h = refl
  lookup-erase_other k n ((j, p) ∷ ps) h =
      ground (arith, lookup-erase_other k n ps h, beq_iff j k, beq_iff j n, beq_iff k n)

  -- A dict with another position in the symbol.
  Moved-insert :
      (symbol : String) (d price : F) (p : Position F) (ps : Dict String (Position F))
      → (lookup symbol (insert symbol p ps) ≡ some p → Moves symbol d price ps (insert symbol p ps))
      → Moved symbol d price ps (insert symbol p ps)
  Moved-insert symbol d price p ps g = record {
    others = λ n h. rw (lookup-insert n symbol p ps) (rw h refl);
    own = g (rw (lookup-insert symbol symbol p ps) (rw (beq_refl symbol) refl));
  }

  pub apply_fill-Moved :
      (symbol : String) (d price : F) (ps : Dict String (Position F))
      → Moved symbol d price ps (apply_fill symbol d price ps)
  unfolding apply_fill
  apply_fill-Moved symbol d price ps = elim (Option-cases (lookup symbol ps)) [
    | inl e ↦ rw (e, apply_fill) (Moved-insert symbol d price _ ps (opened e))
    | inr (p, e) ↦
        let new_qty = f.add p.qty d in
        elim (Bool-cases (f.lt (f.abs new_qty) (f.lit 1 12))) [
          | inl z ↦
              rw (e, z, apply_fill)
                (record {
                  others = λ n h. lookup-erase_other symbol n ps h;
                  own = closed p e z refl;
                })
          | inr z ↦ elim (Bool-cases (same_bool (f.lt nought p.qty) (f.lt nought d))) [
            | inl g ↦
                rw (e, z, g, apply_fill)
                  (Moved-insert symbol d price _ ps (grown p e z (same_bool-true _ _ g)))
            | inr g ↦ elim (Bool-cases (same_bool (f.lt nought new_qty) (f.lt nought p.qty))) [
              | inl k ↦
                  rw (e, z, g, k, apply_fill)
                    (Moved-insert symbol d price _ ps
                      (shrunk p e z (same_bool-false _ _ g) (same_bool-true _ _ k)))
              | inr k ↦
                  rw (e, z, g, k, apply_fill)
                    (Moved-insert symbol d price _ ps
                      (flipped p e z (same_bool-false _ _ g) (same_bool-false _ _ k)))
            ]
          ]
        ]
  ]
