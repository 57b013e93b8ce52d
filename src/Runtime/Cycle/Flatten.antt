-- ===== src/Runtime/Cycle/Flatten.antt =====
-- What the cycle sells: the zeros of the target that goes to the engine.
use mathlib.Core.Path.{subst}
use market_trader.Prelude.{
  String, ◌≡◌, refl, true, false, not, ◌&&◌, ◌||◌, none, some, List, [], ◌∷◌, ◌++◌, All, Mem, arith,
  Bool-cases, inl, inr, ◌∙◌, if◌then◌else◌, ap,
}
use market_trader.Prelude.Lists.{mem-append_left, mem-filter_of}
use market_trader.Prelude.Eq.{◌==◌, string_eq, beq_iff}
use market_trader.Prelude.Dict.{
  Dict, lookup, keys, insert, contains, lookup-insert, contains-eq-lookup,
}
use market_trader.Float.{Float, nought, truthy}
use market_trader.Config.{Settings}
use market_trader.Core.Time.{Instant}
use market_trader.Storage.Bitemporal.{Store}
use market_trader.Portfolio.Risk.{Weights, RiskLimits}
use market_trader.Portfolio.Sizing.{Numerics}
use market_trader.Execution.Broker.{Position}
use market_trader.Runtime.Sleeve.{is_in}
use market_trader.Runtime.Cycle.Weighting.{Matrix}
use market_trader.Runtime.Cycle.Exits.{
  stop_losses, trailing_stops, thesis_break_exits, is_below_entry, is_down,
}
use market_trader.Runtime.Cycle.Target.{Options, book_of, stopped_names, flatten, symbols_held}
use market_trader.Runtime.Cycle.Book.{IsEligible, book_of-IsEligible}

is_in-mem : (n : String) (ns : List String) → Mem n ns → is_in n ns ≡ true
is_in-mem n [] m = absurd m
is_in-mem n (x ∷ ns) m = ground (arith, is_in-mem n ns, beq_iff x n)

module _ {F : Type 0} where
  contains-insert :
      (j k : String) (v : F) (d : Dict String F)
      → contains j (insert k v d) ≡ (k == j || contains j d)
  contains-insert j k v [] = refl
  contains-insert j k v ((i, w) ∷ d) =
      ground (arith, contains-insert j k v d, beq_iff i k, beq_iff i j, beq_iff k j)

  insert-keys :
      (P : String → Type 0) (k : String) (v : F) (d : Dict String F)
      → P k
      → All P (keys d)
      → All P (keys (insert k v d))
  insert-keys P k v [] p h = (p, tt)
  insert-keys P k v ((i, w) ∷ d) p h = elim (Bool-cases (i == k)) [
    | inl e ↦ rw e h
    | inr e ↦ rw e (h.0, insert-keys P k v d p h.1)
  ]

  mem-symbols :
      (p : Position F) (ps : List (Position F)) → Mem p ps → Mem p.symbol (symbols_held ps)
  mem-symbols p [] m = absurd m
  mem-symbols p (q ∷ ps) (inl e) = inl (ap (λ (r : Position F). r.symbol) e)
  mem-symbols p (q ∷ ps) (inr m) = inr (mem-symbols p ps m)

  not_key :
      (n : String) (d : Dict String F) (P : String → Type 0)
      → All P (keys d)
      → (P n → ⊥)
      → contains n d ≡ false
  not_key n [] P h never = refl
  not_key n ((k, v) ∷ d) P h never = elim (Bool-cases (k == n)) [
    | inl e ↦ absurd (never (subst P ((beq_iff k n).0 e) h.0))
    | inr e ↦ rw e (not_key n d P h.1 never)
  ]

module _ {F : Type 0} ⦃f : Float F⦄ (np : Numerics F) (settings : Settings F)
    (limits : RiskLimits F) (options : Options F) where
  -- The target after the loop: what it was, and a zero for each held name with a price that was not in
  -- it.
  pub flatten_lem :
      (n : String) (held : List String) (prices : Dict String F) (target : Weights F)
      → lookup n (flatten np settings limits options held prices target) ≡ (
          if contains n target
          then lookup n target
          else if is_in n held && contains n prices
          then some nought
          else none)
  unfolding flatten
  flatten_lem n [] prices target = ground (arith, contains-eq-lookup n target)
  flatten_lem n (m ∷ held) prices target =
      elim (Bool-cases (not (contains m target) && contains m prices)) [
        | inl t ↦
            rw (t, flatten)
              (rw (flatten_lem n held prices (insert m nought target)) (
                rw (contains-insert n m nought target, lookup-insert n m nought target)
                  (ground (arith, beq_iff m n))))
        | inr t ↦
            rw (t, flatten) (rw (flatten_lem n held prices target) (ground (arith, beq_iff m n)))
      ]

  pub flatten-All :
      (P : String → Type 0) (held : List String) (prices : Dict String F) (target : Weights F)
      → All P held
      → All P (keys target)
      → All P (keys (flatten np settings limits options held prices target))
  unfolding flatten
  flatten-All P [] prices target h k = k
  flatten-All P (m ∷ held) prices target h k =
      elim (Bool-cases (not (contains m target) && contains m prices)) [
        | inl t ↦
            rw (t, flatten)
              (flatten-All P held prices (insert m nought target) h.1
                (insert-keys P m nought target h.0 k))
        | inr t ↦ rw (t, flatten) (flatten-All P held prices target h.1 k)
      ]

  -- A holding that is down from its entry by the stop or more, with a price that is not zero, gets a
  -- zero in the target that goes to the engine, whatever its rank, the mode and the other exits.
  pub stopped-flat :
      (s : Store F) (at : Instant) (matrix : Matrix F) (ranked : Dict String F)
      (positions : List (Position F)) (prices : Dict String F) (p : Position F) (px : F)
      → Mem p positions
      → lookup p.symbol prices ≡ some px
      → truthy px ≡ true
      → f.lt nought p.avg_price ≡ true
      → f.lt nought p.qty ≡ true
      → f.le options.stop_loss_pct nought ≡ false
      → is_down px p.avg_price options.stop_loss_pct ≡ true
      → let stopped = stopped_names np settings limits options s at positions prices in
        let held = symbols_held positions in
        let target = book_of np settings limits options s at matrix ranked held stopped in
        lookup p.symbol (flatten np settings limits options held prices target) ≡ some nought
  unfolding stopped_names stop_losses
  stopped-flat s at matrix ranked positions prices p px m priced tradable entry long on down =
      let stopped = stopped_names np settings limits options s at positions prices in
      let held = symbols_held positions in
      let target = book_of np settings limits options s at matrix ranked held stopped in
      let below : is_below_entry options.stop_loss_pct prices p ≡ true =
        rw (priced, is_below_entry) (ground arith) in
      let cut =
        mem-symbols p _
          (mem-filter_of (is_below_entry options.stop_loss_pct prices) p positions m below) in
      let in_stopped : is_in p.symbol stopped ≡ true = is_in-mem p.symbol stopped (
        mem-append_left p.symbol (stop_losses positions prices options.stop_loss_pct)
          (trailing_stops s at positions prices options.trailing_stop_pct
            ++ thesis_break_exits s at positions options.thesis_exit_threshold)
          (rw (on, stop_losses) cut)) in
      let out =
        not_key p.symbol target (IsEligible np settings limits options ranked stopped)
          (book_of-IsEligible np settings limits options s at matrix ranked held stopped)
          (λ e. cc (e.not_stopped, in_stopped)) in
      let is_held = is_in-mem p.symbol held (mem-symbols p positions m) in
      let has_price : contains p.symbol prices ≡ true =
        ground (arith, contains-eq-lookup p.symbol prices) in
      flatten_lem p.symbol held prices target ∙ rw (out, is_held, has_price) refl
