-- ===== src/Storage/Sql/Upsert.antt =====
-- A batch that is merged into the SQL table and the same batch in the in-memory store.
use mathlib.Core.Option.{some-injective}
use market_trader.Prelude.{
  ◌≡◌, refl, arith, false, Option, none, some, List, [], ◌∷◌, ok, inl, inr, sym, ap, ◌∙◌, String,
  Bool-cases, all, ◌⊎◌, Result, err, result_cases,
}
use market_trader.Prelude.Eq.{◌==◌, string_eq, nat_eq, beq_iff}
use market_trader.Prelude.Dict.{lookup, lookup-insert, insert-IsNodup, All-insert}
use market_trader.Prelude.Order.{list_ord, nat_ord}
use market_trader.Core.Schema.{Observation, Uuid}
use market_trader.Storage.Bitemporal.{
  Store, Query, visible, latest_if, sort_le, sort_key, sort_observations,
}
use market_trader.Storage.Bitemporal as Memory
use market_trader.Storage.Sql.{
  ObservationRow, Uuids, Database, DatabaseError, to_rows, operational_error, upsert_many,
}
use market_trader.Storage.Sql.Rows.{row_of, rows_of, to_rows_lem}
use market_trader.Storage.Sql.Refinement.{IsDatabase, RefinesAt, Refines, put, written, is_taken}

module _ (uuids : Uuids) (parse-str : (u : Uuid) → uuids.parse (uuids.str u) ≡ some u) where
  str-injective : (u v : Uuid) → uuids.str u ≡ uuids.str v → u ≡ v
  str-injective u v e = cc (parse-str u, parse-str v, ap uuids.parse e)

  -- Two ids have one text only if they are one.
  str_beq : (u v : Uuid) → (uuids.str u == uuids.str v) ≡ (u == v)
  str_beq u v = ground (
    arith,
    beq_iff (uuids.str u) (uuids.str v),
    beq_iff u v,
    str-injective u v,
    ap uuids.str {x = u} {y = v},
  )

module _ {F : Type 0} (uuids : Uuids) where
  module _ (parse-str : (u : Uuid) → uuids.parse (uuids.str u) ≡ some u) where
    merge-stored :
        (o : Observation F) (get : String → Option (ObservationRow F)) (s : Store F)
        → RefinesAt uuids get s
        → (id : Uuid) (p : Observation F) → lookup id (Memory.add o s) ≡ some p
        → put (row_of uuids o) get (uuids.str id) ≡ some (row_of uuids p)
    unfolding Memory.add
    merge-stored o get s h id p e =
        let written = lookup-insert id o.observation_id o s in
        rw (str_beq uuids parse-str o.observation_id id)
          (elim (Bool-cases (o.observation_id == id)) [
            | inl g ↦ rw g (
                ap
                  (λ (x : Option (Observation F)). elim x [
                    | none ↦ none
                    | some y ↦ some (row_of uuids y)
                  ])
                  (sym (rw g at written) ∙ e))
            | inr g ↦ rw g (h.stored id p (sym (rw g at written) ∙ e))
          ])

    merge-only :
        (o : Observation F) (get : String → Option (ObservationRow F)) (s : Store F)
        → RefinesAt uuids get s
        → (key : String) (r : ObservationRow F) → put (row_of uuids o) get key ≡ some r
        → (id : Uuid) × (p : Observation F) × (key ≡ uuids.str id)
          × (r ≡ row_of uuids p)
          × (lookup id (Memory.add o s) ≡ some p)
    unfolding Memory.add
    merge-only o get s h key r e = elim (Bool-cases (uuids.str o.observation_id == key)) [
      | inl g ↦ (
        o.observation_id,
        o,
        sym ((beq_iff (uuids.str o.observation_id) key).0 g),
        sym (some-injective _ _ (rw g at e)),
        ground (
          arith,
          lookup-insert o.observation_id o.observation_id o s,
          beq_iff o.observation_id o.observation_id,
        ),
      )
      | inr g ↦
          let (id, p, named, row, found) = h.only key r (rw g at e) in
          let other : (o.observation_id == id) ≡ false =
            sym (str_beq uuids parse-str o.observation_id id) ∙ (rw (← named) g) in
          (id, p, named, row, lookup-insert id o.observation_id o s ∙ (rw other found))
    ]

    put-RefinesAt :
        (o : Observation F) (get : String → Option (ObservationRow F)) (s : Store F)
        → RefinesAt uuids get s
        → RefinesAt uuids (put (row_of uuids o) get) (Memory.add o s)
    unfolding Memory.add
    put-RefinesAt o get s h = record {
      stored = merge-stored o get s h;
      only = merge-only o get s h;
      unique = insert-IsNodup o.observation_id o s h.unique;
      keyed =
          All-insert _ o.observation_id o s (λ j e. sym ((nat_eq.beq_iff j o.observation_id).0 e))
            refl h.keyed;
    }

    pub written-RefinesAt :
        (os : List (Observation F)) (get : String → Option (ObservationRow F)) (s : Store F)
        → RefinesAt uuids get s
        → RefinesAt uuids (written (rows_of uuids os) get) (Memory.upsert_many os s)
    unfolding Memory.upsert_many Memory.add_many
    written-RefinesAt [] get s h = h
    written-RefinesAt (o ∷ os) get s h =
        written-RefinesAt os (put (row_of uuids o) get) (Memory.add o s) (put-RefinesAt o get s h)

    pub RefinesAt-eq :
        (get get' : String → Option (ObservationRow F)) (s : Store F)
        → ((id : String) → get' id ≡ get id)
        → RefinesAt uuids get s
        → RefinesAt uuids get' s
    RefinesAt-eq get get' s same h = record {
      stored = λ id o e. same (uuids.str id) ∙ h.stored id o e;
      only = λ key r e. h.only key r (sym (same key) ∙ e);
      unique = h.unique;
      keyed = h.keyed;
    }

module _ {F T : Type 0} (uuids : Uuids) (db : Database F T) (laws : IsDatabase db)
    (parse-str : (u : Uuid) → uuids.parse (uuids.str u) ≡ some u) where
  -- What becomes of a batch: the table takes it and refines the store that took it, or refuses it, for
  -- the connection or for a row that it cannot take.
  abbrev pub IsUpserted : List (Observation F) → T → Store F → Result DatabaseError T → Type 0
  IsUpserted os t s r =
      ((t' : T) × (r ≡ ok t') × Refines uuids db t' (Memory.upsert_many os s))
      ⊎ ((e : DatabaseError) × (r ≡ err e)
          × ((e ≡ operational_error) ⊎ (all (is_taken db) (rows_of uuids os) ≡ false)))

  pub merge_all-IsUpserted :
      (os : List (Observation F)) (t : T) (s : Store F)
      → Refines uuids db t s
      → IsUpserted os t s (db.merge_all (rows_of uuids os) t)
  merge_all-IsUpserted os t s h = elim (result_cases (db.merge_all (rows_of uuids os) t)) [
    | inl (e, g) ↦ inr (e, g, laws.merge_all_refused (rows_of uuids os) t e g)
    | inr (t', g) ↦ inl (
      t',
      g,
      RefinesAt-eq uuids parse-str (written (rows_of uuids os) (λ i. db.get i t)) (λ i. db.get i t')
          (Memory.upsert_many os s) (laws.get-merge_all (rows_of uuids os) t t' g)
          (written-RefinesAt uuids parse-str os (λ i. db.get i t) s h),
    )
  ]

  -- A batch that is merged into a table that holds what an in-memory store holds leaves it with the rows
  -- of what that store holds after the same batch; or the call raises, and then the connection
  -- failed or a row has a text that is longer than its column, a revision past 32 bits, or a value
  -- that the database cannot encode.
  pub upsert_many-Refines :
      (os : List (Observation F)) (t : T) (s : Store F)
      → Refines uuids db t s
      → IsUpserted os t s (upsert_many uuids db os t)
  unfolding upsert_many Memory.upsert_many Memory.add_many to_rows
  upsert_many-Refines [] t s h = inl (t, refl, h)
  upsert_many-Refines (o ∷ os) t s h =
      rw (to_rows_lem uuids (o ∷ os), upsert_many) (merge_all-IsUpserted (o ∷ os) t s h)
