-- ===== src/Storage/Bitemporal/Collapse.antt =====
-- What `collapse_latest_revisions` keeps: for each logical key, one row, and the newest.
use market_trader.Prelude.{
  ◌≡◌, refl, true, false, some, List, [], ◌∷◌, arith, All, Mem, Option-cases, Bool-cases, inl, inr,
  ◌⊎◌, ap, sym, ◌∙◌,
}
use market_trader.Prelude.Eq.{◌==◌, beq_refl}
use mathlib.Core.Option.{some-injective}
use market_trader.Prelude.Dict.{
  Dict, lookup, insert, values, IsNodup, lookup-insert, insert-IsNodup, All-insert,
}
use market_trader.Core.Schema.{Observation, LogicalKey, logical_key, key_eq, key_beq_iff}
use market_trader.Storage.Bitemporal.{newer, keep_latest, collapse_from, collapse_latest_revisions}

abbrev pub Best : Type 0 → Type 0
Best F = Dict LogicalKey (Observation F)

module _ {F : Type 0} where
  -- Each entry stands under its own key, no key stands twice, and `P` holds of each row.
  abbrev pub Holds {κ} : (Observation F → Type κ) → Best F → Type κ
  Holds P best = All (λ (x : LogicalKey × Observation F). P x.1) best

  abbrev pub IsKeyed : Best F → Type 0
  IsKeyed best = All (λ (x : LogicalKey × Observation F). logical_key x.1 ≡ x.0) best

  -- A round writes `o` over an older row or none, or leaves a row that is no older.
  keep_latest-cases :
      (best : Best F) (o : Observation F)
      → (keep_latest best o ≡ insert (logical_key o) o best)
          × ((cur : Observation F) → lookup (logical_key o) best ≡ some cur → newer o cur ≡ true)
        ⊎ (keep_latest best o ≡ best)
          × ((cur : Observation F) × (lookup (logical_key o) best ≡ some cur)
              × (newer o cur ≡ false))
  unfolding keep_latest
  keep_latest-cases best o = elim (Option-cases (lookup (logical_key o) best)) [
    | inl e ↦ inl (rw (e, keep_latest), λ cur h. cc)
    | inr (cur, e) ↦ elim (Bool-cases (newer o cur)) [
      | inl t ↦ inl (rw (e, keep_latest) (rw t), λ cur' h. ground arith)
      | inr t ↦ inr (rw (e, keep_latest) (rw t), (cur, e, t))
    ]
  ]

  keep_latest-Holds {κ} :
      (P : Observation F → Type κ) (best : Best F) (o : Observation F)
      → Holds P best
      → P o
      → Holds P (keep_latest best o)
  keep_latest-Holds P best o h p = elim (keep_latest-cases best o) [
    | inl c ↦ rw (c.0) (All-insert _ (logical_key o) o best (λ j r. p) p h)
    | inr c ↦ rw (c.0) h
  ]

  pub collapse_from-Holds {κ} :
      (P : Observation F → Type κ) (best : Best F) (rows : List (Observation F))
      → Holds P best
      → All P rows
      → Holds P (collapse_from best rows)
  unfolding collapse_from
  collapse_from-Holds P best [] h r = h
  collapse_from-Holds P best (o ∷ rows) h r =
      collapse_from-Holds P (keep_latest best o) rows (keep_latest-Holds P best o h r.0) r.1

  keep_latest-IsKeyed :
      (best : Best F) (o : Observation F) → IsKeyed best → IsKeyed (keep_latest best o)
  keep_latest-IsKeyed best o h = elim (keep_latest-cases best o) [
    | inl c ↦ rw (c.0) (
        All-insert (λ (x : LogicalKey × Observation F). logical_key x.1 ≡ x.0) (logical_key o) o
          best (λ j r. sym ((key_beq_iff j (logical_key o)).0 r)) refl h)
    | inr c ↦ rw (c.0) h
  ]

  keep_latest-IsNodup :
      (best : Best F) (o : Observation F) → IsNodup best → IsNodup (keep_latest best o)
  keep_latest-IsNodup best o h = elim (keep_latest-cases best o) [
    | inl c ↦ rw (c.0) (insert-IsNodup (logical_key o) o best h)
    | inr c ↦ rw (c.0) h
  ]

  pub collapse_from-IsKeyed :
      (best : Best F) (rows : List (Observation F))
      → IsKeyed best
      → IsNodup best
      → IsKeyed (collapse_from best rows) × IsNodup (collapse_from best rows)
  unfolding collapse_from
  collapse_from-IsKeyed best [] h n = (h, n)
  collapse_from-IsKeyed best (o ∷ rows) h n =
      collapse_from-IsKeyed (keep_latest best o) rows (keep_latest-IsKeyed best o h)
        (keep_latest-IsNodup best o n)

  -- The row kept under the key of `o` is no older than `o`.
  abbrev pub Covers : Best F → Observation F → Type 0
  Covers best o = (r : Observation F) × (lookup (logical_key o) best ≡ some r) × (newer o r ≡ false)

  newer_trans : (a b c : Observation F) → newer a b ≡ false → newer b c ≡ false → newer a c ≡ false
  newer_trans a b c h k = ground arith

  newer_asymm : (a b : Observation F) → newer a b ≡ true → newer b a ≡ false
  newer_asymm a b h = ground arith

  newer_irrefl : (a : Observation F) → newer a a ≡ false
  newer_irrefl a = ground arith

  keep_latest-Covers_self : (best : Best F) (o : Observation F) → Covers (keep_latest best o) o
  keep_latest-Covers_self best o = elim (keep_latest-cases best o) [
    | inl c ↦ rw (c.0) (
      o,
      rw (lookup-insert (logical_key o) (logical_key o) o best) (rw (beq_refl (logical_key o))),
      newer_irrefl o,
    )
    | inr c ↦ rw (c.0) (c.1)
  ]

  keep_latest-Covers :
      (best : Best F) (o p : Observation F) → Covers best p → Covers (keep_latest best o) p
  keep_latest-Covers best o p (r, e, t) = elim (keep_latest-cases best o) [
    | inr c ↦ rw (c.0) (r, e, t)
    | inl c ↦ elim (Bool-cases (logical_key o == logical_key p)) [
      | inr ne ↦
          rw (c.0) (r, rw (lookup-insert (logical_key p) (logical_key o) o best) (rw ne e), t)
      | inl eq ↦ rw (c.0) (
        o,
        rw (lookup-insert (logical_key p) (logical_key o) o best) (rw eq),
        newer_trans p r o t
            (newer_asymm o r (c.1 r (ap (λ k. lookup k best) ((key_beq_iff _ _).0 eq) ∙ e))),
      )
    ]
  ]

  collapse_from-Covers_old :
      (best : Best F) (rows : List (Observation F)) (p : Observation F)
      → Covers best p
      → Covers (collapse_from best rows) p
  unfolding collapse_from
  collapse_from-Covers_old best [] p c = c
  collapse_from-Covers_old best (o ∷ rows) p c =
      collapse_from-Covers_old (keep_latest best o) rows p (keep_latest-Covers best o p c)

  -- Every row that goes in is covered by the row kept under its key.
  pub collapse_from-Covers :
      (best : Best F) (rows : List (Observation F)) (p : Observation F)
      → Mem p rows
      → Covers (collapse_from best rows) p
  unfolding collapse_from
  collapse_from-Covers best [] p m = absurd m
  collapse_from-Covers best (o ∷ rows) p (inl e) =
      rw e (collapse_from-Covers_old (keep_latest best o) rows o (keep_latest-Covers_self best o))
  collapse_from-Covers best (o ∷ rows) p (inr m) =
      collapse_from-Covers (keep_latest best o) rows p m

  mem_of_lookup :
      (k : LogicalKey) (r : Observation F) (best : Best F)
      → lookup k best ≡ some r
      → Mem r (values best)
  mem_of_lookup k r [] e = absurd (cc)
  mem_of_lookup k r ((j, o) ∷ best) e = ground (arith, mem_of_lookup k r best)

  lookup_of_mem :
      (r : Observation F) (best : Best F)
      → IsKeyed best
      → IsNodup best
      → Mem r (values best)
      → lookup (logical_key r) best ≡ some r
  lookup_of_mem r [] h n m = absurd m
  lookup_of_mem r ((j, o) ∷ best) h n (inl e) =
      let hit : (j == logical_key r) ≡ true =
        (key_beq_iff j (logical_key r)).1 (sym h.0 ∙ ap logical_key (sym e)) in
      rw hit (ap some (sym e))
  lookup_of_mem r ((j, o) ∷ best) h n (inr m) = elim (Bool-cases (j == logical_key r)) [
    | inl t ↦
        let there = lookup_of_mem r best h.1 n.1 m in
        let gone = ap (λ k. lookup k best) (sym ((key_beq_iff j (logical_key r)).0 t)) ∙ n.0 in
        absurd (cc (there, gone))
    | inr f ↦ rw f (lookup_of_mem r best h.1 n.1 m)
  ]

  key_of_lookup :
      (k : LogicalKey) (r : Observation F) (best : Best F)
      → IsKeyed best
      → lookup k best ≡ some r
      → logical_key r ≡ k
  key_of_lookup k r [] h e = absurd (cc)
  key_of_lookup k r ((j, o) ∷ best) h e = elim (Bool-cases (j == k)) [
    | inl t ↦
        let same : o ≡ r = some-injective _ _ (rw t at e) in
        ap logical_key (sym same) ∙ h.0 ∙ (key_beq_iff j k).0 t
    | inr f ↦ key_of_lookup k r best h.1 (rw f at e)
  ]

  All-values {κ} : (P : Observation F → Type κ) (best : Best F) → Holds P best → All P (values best)
  All-values P [] h = tt
  All-values P ((j, o) ∷ best) h = (h.0, All-values P best h.1)

  -- Some kept row has the key of `p` and is no older than it.
  pub collapse-latest :
      (rows : List (Observation F)) (p : Observation F)
      → Mem p rows
      → (r : Observation F) × Mem r (collapse_latest_revisions rows)
        × (logical_key r ≡ logical_key p)
        × (newer p r ≡ false)
  unfolding collapse_latest_revisions
  collapse-latest rows p m =
      let (r, e, t) = collapse_from-Covers [] rows p m in
      let kept = mem_of_lookup (logical_key p) r (collapse_from [] rows) e in
      (r, kept, key_of_lookup _ r _ (collapse_from-IsKeyed [] rows tt tt).0 e, t)

  pub collapse-All {κ} :
      (P : Observation F → Type κ) (rows : List (Observation F))
      → All P rows
      → All P (collapse_latest_revisions rows)
  unfolding collapse_latest_revisions
  collapse-All P rows h = All-values P (collapse_from [] rows) (collapse_from-Holds P [] rows tt h)

  -- Two kept rows with one key are the same row.
  pub collapse_unique :
      (rows : List (Observation F)) (p r : Observation F)
      → Mem p (collapse_latest_revisions rows)
      → Mem r (collapse_latest_revisions rows)
      → logical_key p ≡ logical_key r
      → p ≡ r
  unfolding collapse_latest_revisions
  collapse_unique rows p r m n e =
      let (keyed, nodup) = collapse_from-IsKeyed [] rows tt tt in
      some-injective _ _ (
        sym (lookup_of_mem p _ keyed nodup m)
        ∙ ap (λ k. lookup k (collapse_from [] rows)) e
        ∙ lookup_of_mem r _ keyed nodup n)
