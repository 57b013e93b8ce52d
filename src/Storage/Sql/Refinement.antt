-- ===== src/Storage/Sql/Refinement.antt =====
-- The store over SQL against the in-memory store.
use market_trader.Prelude.{
  ◌≡◌, refl, ◌↔◌, ◌≤◌, arith, Bool, true, Option, none, some, List, [], ◌∷◌, Mem, All, ok, ap,
  String, if◌then◌else◌, All-of_forall, err, ◌&&◌, ◌⊎◌, false, all,
}
use market_trader.Prelude.Eq.{◌==◌, string_eq, nat_eq, beq_iff}
use market_trader.Prelude.Dict.{lookup, values, IsNodup}
use market_trader.Prelude.Sort.{sort_by, sort_by-mem, mem-sort_by, IsSorted, sort_by-IsSorted}
use market_trader.Prelude.Order.{lex_le_total, lex_le_trans, list_ord, nat_ord}
use market_trader.Core.Time.{Instant, ensure_utc, to_utc, naive_utc}
use market_trader.Core.Schema.{Observation, Uuid}
use market_trader.Storage.Bitemporal.{
  Store, Query, visible, latest_if, sort_le, sort_key, sort_observations,
}
use market_trader.Storage.Bitemporal as Memory
use market_trader.Storage.Bitemporal.PointInTime.{Matches, Accepts, mem-visible, mem-visible_of}
use market_trader.Storage.Sql.{
  DatabaseError, operational_error, fits, ObservationRow, Uuids, Database, aware, is_value,
  where_clause, as_of, floor_of,
}
use market_trader.Storage.Sql.Latest.{SameMembers, NoTies, latest_if-SameMembers}
use market_trader.Storage.Sql.Rows.{naive, row_of, to_observations_lem, row_of-injective}

-- What a table holds under each key after one row was written, and after some were, in their order.
abbrev pub put :
    {F : Type 0}
    → ObservationRow F
    → (String → Option (ObservationRow F))
    → String
    → Option (ObservationRow F)
put r get id = if r.observation_id == id then some r else get id

abbrev pub written :
    {F : Type 0}
    → List (ObservationRow F)
    → (String → Option (ObservationRow F))
    → String
    → Option (ObservationRow F)
written [] get = get
written (r ∷ rs) get = written rs (put r get)

-- A row that the columns and the encoding take.
abbrev pub is_taken : {F T : Type 0} → Database F T → ObservationRow F → Bool
is_taken db r = fits r && db.is_encodable r

-- What SQL promises of the table, with `observation_id` as its primary key: rows that are merged stand
-- under their keys, the last of a key, and no other row changes; a merge raises only for a row that
-- is too large or cannot be encoded, or for the connection; and a `select` finds the rows for which
-- the condition holds, in any order.
pub record IsDatabase {F T : Type 0} (db : Database F T) : Type 0 where
  pub get-merge_all :
      (rows : List (ObservationRow F)) (t t' : T)
      → db.merge_all rows t ≡ ok t'
      → (id : String) → db.get id t' ≡ written rows (λ i. db.get i t) id
  pub merge_all_refused :
      (rows : List (ObservationRow F)) (t : T) (e : DatabaseError)
      → db.merge_all rows t ≡ err e
      → (e ≡ operational_error) ⊎ (all (is_taken db) rows ≡ false)
  pub scalars_sound :
      (p : ObservationRow F → Bool) (r : ObservationRow F) (t : T)
      → Mem r (db.scalars p t)
      → (db.get r.observation_id t ≡ some r) × (p r ≡ true)
  pub scalars_complete :
      (p : ObservationRow F → Bool) (r : ObservationRow F) (t : T)
      → db.get r.observation_id t ≡ some r
      → p r ≡ true
      → Mem r (db.scalars p t)

is_value-Accepts : (v : Option String) (c : String) → (is_value v c ≡ true) ↔ Accepts v c
is_value-Accepts none c = (λ e. tt, λ u. refl)
is_value-Accepts (some v) c = beq_iff c v

module _ {F : Type 0} where
  abbrev pub IsKeyed : Store F → Type 0
  IsKeyed s = All (λ (x : Uuid × Observation F). x.1.observation_id ≡ x.0) s

  mem_of_lookup :
      (k : Uuid) (o : Observation F) (s : Store F) → lookup k s ≡ some o → Mem o (values s)
  mem_of_lookup k o [] h = absurd (cc)
  mem_of_lookup k o ((j, p) ∷ s) h = ground (arith, mem_of_lookup k o s)

  lookup_of_mem :
      (o : Observation F) (s : Store F)
      → IsKeyed s
      → IsNodup s
      → Mem o (values s)
      → lookup o.observation_id s ≡ some o
  lookup_of_mem o [] h n m = absurd m
  lookup_of_mem o ((j, p) ∷ s) h n m = ground (
    arith,
    lookup_of_mem o s h.1 n.1,
    ap (λ (q : Observation F). q.observation_id) {x = o} {y = p},
  )

  key_of_lookup :
      (k : Uuid) (o : Observation F) (s : Store F)
      → IsKeyed s
      → lookup k s ≡ some o
      → o.observation_id ≡ k
  key_of_lookup k o [] h e = absurd (cc)
  key_of_lookup k o ((j, p) ∷ s) h e = ground (arith, key_of_lookup k o s h.1)

  where_clause-row_of :
      (uuids : Uuids) (k : Instant) (q : Query) (o : Observation F)
      → (where_clause (naive k) none q (row_of uuids o) ≡ true)
        ↔ ((o.knowledge_time ≤ k) × Matches q o)
  unfolding where_clause
  where_clause-row_of uuids k q o =
      let a = is_value-Accepts q.source o.source in
      let b = is_value-Accepts q.dataset o.dataset in
      let c = is_value-Accepts q.entity_type o.entity_type in
      let d = is_value-Accepts q.entity_id o.entity_id in
      (
        λ h. (
          ground arith,
          record {
            source = a.0 (ground arith);
            dataset = b.0 (ground arith);
            entity_type = c.0 (ground arith);
            entity_id = d.0 (ground arith);
          },
        ),
        λ h.
            let m = h.1 in
            ground (arith, a.1 m.source, b.1 m.dataset, c.1 m.entity_type, d.1 m.entity_id),
      )

-- What is found by key is exactly the rows of the observations that the in-memory store holds.
pub record RefinesAt {F : Type 0} (uuids : Uuids) (get : String → Option (ObservationRow F))
    (s : Store F) : Type 0 where
  pub stored :
      (id : Uuid) (o : Observation F)
      → lookup id s ≡ some o
      → get (uuids.str id) ≡ some (row_of uuids o)
  pub only :
      (key : String) (r : ObservationRow F)
      → get key ≡ some r
      → (id : Uuid) × (o : Observation F) × (key ≡ uuids.str id)
        × (r ≡ row_of uuids o)
        × (lookup id s ≡ some o)
  pub unique : IsNodup s
  pub keyed : IsKeyed s

module _ {F T : Type 0} (uuids : Uuids) (db : Database F T) where
  -- The table holds exactly the rows of the observations that the in-memory store holds.
  abbrev pub Refines : T → Store F → Type 0
  Refines t s = RefinesAt uuids (λ key. db.get key t) s

  module _ (laws : IsDatabase db)
      (parse-str : (u : Uuid) → uuids.parse (uuids.str u) ≡ some u) where
    abbrev Found : Store F → Observation F → Type 0
    Found s o = Mem o (values s)

    -- A `select` finds the rows of the visible observations.
    select-visible :
        (k : Instant) (q : Query) (t : T) (s : Store F)
        → Refines t s
        → let rs = db.scalars (where_clause (naive k) none q) t in
          All (λ r. (o : Observation F) × (r ≡ row_of uuids o) × Found s o) rs
          × ((o : Observation F) → Mem (row_of uuids o) rs ↔ Mem o (visible k q s))
    select-visible k q t s h =
        let cond = where_clause (naive k) none q in
        (
          All-of_forall _ (db.scalars cond t) (λ r m.
              let (id, o, e, e', found) = h.only _ r (laws.scalars_sound cond r t m).0 in
              (o, e', mem_of_lookup id o s found)),
          λ o. (
            λ m.
                let (got, holds) = laws.scalars_sound cond (row_of uuids o) t m in
                let (id, p, e, e', found) = h.only _ (row_of uuids o) got in
                let same = row_of-injective uuids parse-str o p e' in
                let (known, matches) = (where_clause-row_of uuids k q o).0 holds in
                mem-visible_of k q s o (rw same (mem_of_lookup id p s found)) known matches,
            λ m.
                let (there, known, matches) = mem-visible k q s o m in
                laws.scalars_complete cond (row_of uuids o) t
                  (h.stored o.observation_id o (lookup_of_mem o s h.keyed h.unique there))
                  ((where_clause-row_of uuids k q o).1 (known, matches)),
          ),
        )

    floor_of-aware : (k : Instant) → floor_of (aware k) ≡ ok (naive k)
    unfolding ensure_utc to_utc naive_utc
    floor_of-aware k = ground arith

    -- Where no two rows of a fact tie, a query of the SQL store succeeds with the observations that
    -- the in-memory store answers with, in the same order of their sort keys.
    pub as_of-Refines :
        (k : Instant) (q : Query) (t : T) (s : Store F)
        → Refines t s
        → NoTies (visible k q s)
        → (rows : List (Observation F)) × (as_of uuids db (aware k) q none t ≡ ok rows)
          × SameMembers rows (Memory.as_of k q s)
          × IsSorted sort_le rows
    unfolding as_of Memory.as_of sort_observations sort_le
    as_of-Refines k q t s h ties =
        let (from, same) = select-visible k q t s h in
        let (os, read, members, all) =
          to_observations_lem uuids parse-str (Found s)
            (db.scalars (where_clause (naive k) none q) t) from in
        let agree : SameMembers os (visible k q s) =
          λ o. (λ m. (same o).0 ((members o).0 m), λ m. (members o).1 ((same o).1 m)) in
        let latest = latest_if-SameMembers q.latest_revision_only os (visible k q s) ties agree in
        (
          sort_by sort_le (latest_if q.latest_revision_only os),
          rw (floor_of-aware k, as_of) (rw read refl),
          λ o. (
            λ m. sort_by-mem sort_le o _ ((latest o).0 (mem-sort_by sort_le o _ m)),
            λ m. sort_by-mem sort_le o _ ((latest o).1 (mem-sort_by sort_le o _ m)),
          ),
          sort_by-IsSorted sort_le (λ a b. lex_le_total (sort_key a) (sort_key b))
              (λ a b c. lex_le_trans (sort_key a) (sort_key b) (sort_key c))
              (latest_if q.latest_revision_only os),
        )
