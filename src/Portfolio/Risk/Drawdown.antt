-- ===== src/Portfolio/Risk/Drawdown.antt =====
-- The drawdown circuit-breaker over the equities of a run of cycles.
use market_trader.Prelude.{
  ◌≡◌, refl, true, false, Option, some, List, [], ◌∷◌, arith, All, Mem, inl, inr, ◌⊎◌, Bool-cases,
  ap, ◌∙◌, ◌++◌, ◌↔◌,
}
use market_trader.Float.{Float, IsOrdered, fmax}
use market_trader.Portfolio.Risk.{Breaker, update, raise_peak, is_drawdown}

module _ {F : Type 0} ⦃f : Float F⦄ where
  -- The breaker after each equity in turn.
  unfoldable pub update_all : List F → Breaker F → Breaker F
  update_all [] b = b
  update_all (x ∷ xs) b = update_all xs (update x b)

  -- A trip within a run: some equity is in drawdown from the peak that the run has come to with it.
  abbrev pub Trip : List F → Breaker F → Type 0
  Trip xs b =
      (ys : List F) × (x : F) × (zs : List F) × (xs ≡ ys ++ x ∷ zs)
      × (is_drawdown b.max_drawdown (raise_peak (update_all ys b).peak x) x ≡ true)

  Trip-cons : (x : F) (xs : List F) (b : Breaker F) → Trip xs (update x b) → Trip (x ∷ xs) b
  unfolding update_all update
  Trip-cons x xs b (ys, y, zs, e, d) = (x ∷ ys, y, zs, ap (◌∷◌ x) e, d)

  Trip-found :
      (xs : List F) (b : Breaker F)
      → (update_all xs b).tripped ≡ true
      → (b.tripped ≡ true) ⊎ Trip xs b
  unfolding update_all
  Trip-found [] b h = inl h
  Trip-found (x ∷ xs) b h = elim (Trip-found xs (update x b) h) [
    | inr t ↦ inr (Trip-cons x xs b t)
    | inl u ↦ elim (Bool-cases (is_drawdown b.max_drawdown (raise_peak b.peak x) x)) [
      | inl d ↦ inr ([], x, xs, refl, d)
      | inr d ↦ inl (unfold update in (rw d at u))
    ]
  ]

  trip_stays : (xs : List F) (b : Breaker F) → b.tripped ≡ true → (update_all xs b).tripped ≡ true
  unfolding update_all
  trip_stays [] b h = h
  trip_stays (x ∷ xs) b h = trip_stays xs (update x b) (unfold update in (ground arith))

  Trip-made : (xs : List F) (b : Breaker F) → Trip xs b → (update_all xs b).tripped ≡ true
  unfolding update_all
  Trip-made xs b ([], x, zs, e, d) = rw e (trip_stays zs (update x b) (unfold update in (rw d)))
  Trip-made xs b (y ∷ ys, x, zs, e, d) =
      rw e (Trip-made (ys ++ x ∷ zs) (update y b) (ys, x, zs, refl, unfold update in d))

  -- The breaker is tripped after a run of equities exactly when it was tripped before, or some equity
  -- of the run is in drawdown from the peak at that point; no recovery later in the run clears it.
  pub update_all-tripped_iff :
      (xs : List F) (b : Breaker F)
      → ((update_all xs b).tripped ≡ true) ↔ ((b.tripped ≡ true) ⊎ Trip xs b)
  update_all-tripped_iff xs b =
      (Trip-found xs b, λ h. elim h [ inl t ↦ trip_stays xs b t | inr t ↦ Trip-made xs b t ])

  module _ (laws : IsOrdered F) where
    open laws use {le_refl, le_trans, le_of_lt, le_of_not_lt}

    fmax_bounds :
        (a b : F)
        → f.is_nan a ≡ false
        → f.is_nan b ≡ false
        → (f.le a (fmax a b) ≡ true)
          × (f.le b (fmax a b) ≡ true)
          × (f.is_nan (fmax a b) ≡ false)
          × ((fmax a b ≡ a) ⊎ (fmax a b ≡ b))
    fmax_bounds a b ha hb =
        ground (arith, le_refl a ha, le_refl b hb, le_of_lt a b, le_of_not_lt b a hb ha)

    -- What is known of a peak: it is one of the equities of the run or the peak before it, and none of
    -- these is above it.
    pub record IsPeak (before : F) (xs : List F) (last : Option F) : Type 0 where
      pub value : F
      pub is_last : last ≡ some value
      pub real : f.is_nan value ≡ false
      pub above_peak : f.le before value ≡ true
      pub above_all : All (λ x. f.le x value ≡ true) xs
      pub attained : (value ≡ before) ⊎ Mem value xs

    attained_step :
        (v before m x : F) (xs : List F)
        → (m ≡ before) ⊎ (m ≡ x)
        → (v ≡ m) ⊎ Mem v xs
        → (v ≡ before) ⊎ Mem v (x ∷ xs)
    attained_step v before m x xs (inl a) (inl b) = inl (b ∙ a)
    attained_step v before m x xs (inr a) (inl b) = inr (inl (b ∙ a))
    attained_step v before m x xs a (inr b) = inr (inr b)

    -- The high-water mark: after a run of equities that are not NaN, the peak is at least the peak
    -- before the run and every equity of it, and is one of them.
    pub update_all-IsPeak :
        (xs : List F) (b : Breaker F) (before : F)
        → b.peak ≡ some before
        → f.is_nan before ≡ false
        → All (λ x. f.is_nan x ≡ false) xs
        → IsPeak before xs (update_all xs b).peak
    unfolding update_all update
    update_all-IsPeak [] b before h hb hx = record {
      value = before;
      is_last = h;
      real = hb;
      above_peak = le_refl before hb;
      above_all = tt;
      attained = inl refl;
    }
    update_all-IsPeak (x ∷ xs) b before h hb hx =
        let (over, over_x, real, which) = fmax_bounds before x hb hx.0 in
        let now : raise_peak b.peak x ≡ fmax before x = rw h in
        let rest = update_all-IsPeak xs (update x b) (fmax before x) (ap some now) real hx.1 in
        record {
          value = rest.value;
          is_last = rest.is_last;
          real = rest.real;
          above_peak = le_trans _ _ _ over rest.above_peak;
          above_all = (le_trans _ _ _ over_x rest.above_peak, rest.above_all);
          attained = attained_step _ _ _ _ xs which rest.attained;
        }
