-- ===== src/Storage/Sql/Tests.antt =====
-- A database that meets its laws: the rows that were merged, the last first.
use market_trader.Prelude.{
  ℕ, zero, suc, String, ◌≡◌, refl, Bool, true, not, Option, none, some, List, [], ◌∷◌, ◌++◌, arith,
  Mem, ok, err, any, filter, if◌then◌else◌, Bool-cases, inl, inr, mem-filter, mem-filter_of, ap,
  length, sym, ◌∙◌, all, ◌&&◌, false, ok-injective,
}
use market_trader.Prelude.Eq.{◌==◌, string_eq, nat_eq, beq_iff}
use market_trader.Prelude.Lists.{mem-append, mem-append_left, mem-append_right}
use market_trader.Prelude.Sort.{IsSorted}
use market_trader.Float.Fixed.{Fixed, whole, fixed_float}
use market_trader.Core.Time.{naive_utc, ensure_utc, to_utc}
use market_trader.Core.Schema.{Observation, Uuid, number}
use market_trader.Storage.Bitemporal.{Store, Query, visible, by_dataset, sort_le}
use market_trader.Storage.Bitemporal as Memory
use market_trader.Storage.Sql.{
  ObservationRow, integrity_error, Uuids, Database, aware, upsert_many, as_of, fits, data_error,
  to_rows, to_row,
}
use market_trader.Storage.Sql.Latest.{SameMembers, NoTies}
use market_trader.Storage.Sql.Refinement.{IsDatabase, Refines, written, as_of-Refines}
use market_trader.Storage.Sql.Upsert.{
  IsUpserted, upsert_many-Refines, RefinesAt-eq, written-RefinesAt,
}
use market_trader.Storage.Sql.Rows.{rows_of, row_of}

-- Ids in unary.
abbrev str : Uuid → String
str zero = ""
str (suc n) = String.◌∷◌ "a" (str n)

abbrev parse : String → Option Uuid
parse String.[] = some 0
parse (String.◌∷◌ c s) = elim (parse s) [ none ↦ none | some n ↦ some (suc n) ]

abbrev uuids : Uuids
uuids = record { str = str; parse = parse }

parse-str : (u : Uuid) → parse (str u) ≡ some u
parse-str zero = refl
parse-str (suc n) = rw (parse-str n, parse) refl

module _ {F : Type 0} where
  abbrev get : String → List (ObservationRow F) → Option (ObservationRow F)
  get id [] = none
  get id (r ∷ t) = if r.observation_id == id then some r else get id t

  -- The rows that no later row replaces.
  abbrev scalars : (ObservationRow F → Bool) → List (ObservationRow F) → List (ObservationRow F)
  scalars p [] = []
  scalars p (r ∷ t) =
      (if p r then r ∷ [] else [])
      ++ filter (λ x. not (r.observation_id == x.observation_id)) (scalars p t)

  abbrev clashes : List (ObservationRow F) → List (ObservationRow F) → Bool
  clashes rows t = any (λ r. any (λ x. r.observation_id == x.observation_id) t) rows

  abbrev stack : List (ObservationRow F) → List (ObservationRow F) → List (ObservationRow F)
  stack [] t = t
  stack (r ∷ rs) t = stack rs (r ∷ t)

  get-stack :
      (rows t : List (ObservationRow F)) (id : String)
      → get id (stack rows t) ≡ written rows (λ i. get i t) id
  get-stack [] t id = refl
  get-stack (r ∷ rs) t id = get-stack rs (r ∷ t) id

  all_taken : (rows : List (ObservationRow F)) → all (λ r. fits r && true) rows ≡ all fits rows
  all_taken [] = refl
  all_taken (r ∷ rs) = ground (arith, all_taken rs)

abbrev database : Database Fixed (List (ObservationRow Fixed))
database = record {
  get = get;
  add_all = λ rows t. if clashes rows t then err integrity_error else ok (rows ++ t);
  merge_all = λ rows t. if all fits rows then ok (stack rows t) else err data_error;
  scalars = scalars;
  scalar_count = λ t. length (scalars (λ r. true) t);
  is_encodable = λ r. true;
}

sound :
    (p : ObservationRow Fixed → Bool) (r : ObservationRow Fixed) (t : List (ObservationRow Fixed))
    → Mem r (scalars p t)
    → (get r.observation_id t ≡ some r) × (p r ≡ true)
sound p r [] m = absurd m
sound p r (x ∷ t) m =
    elim (mem-append r (if p x then x ∷ [] else [])
      (filter (λ y. not (x.observation_id == y.observation_id)) (scalars p t)) m) [
        | inl a ↦ elim (Bool-cases (p x)) [
          | inl e ↦ ground (
            arith,
            beq_iff x.observation_id r.observation_id,
            ap (λ (y : ObservationRow Fixed). y.observation_id) {x = r} {y = x},
          )
          | inr e ↦ absurd (rw e at a)
        ]
        | inr b ↦
            let (there, ne) =
              mem-filter (λ (y : ObservationRow Fixed). not (x.observation_id == y.observation_id))
                r (scalars p t) b in
            ground (arith, sound p r t there)
      ]

complete :
    (p : ObservationRow Fixed → Bool) (r : ObservationRow Fixed) (t : List (ObservationRow Fixed))
    → get r.observation_id t ≡ some r
    → p r ≡ true
    → Mem r (scalars p t)
complete p r [] e h = absurd (cc)
complete p r (x ∷ t) e h = elim (Bool-cases (x.observation_id == r.observation_id)) [
  | inl g ↦
      let same : some x ≡ some r = rw g at e in
      mem-append_left r (if p x then x ∷ [] else []) _ (ground arith)
  | inr g ↦ mem-append_right r (if p x then x ∷ [] else []) _ (
      mem-filter_of (λ (y : ObservationRow Fixed). not (x.observation_id == y.observation_id)) r
        (scalars p t) (complete p r t (rw g at e) h) (rw g refl))
]

database-IsDatabase : IsDatabase database
database-IsDatabase = record {
  get-merge_all = λ rows t t' e id. elim (Bool-cases (all fits rows)) [
    | inl g ↦
        let same : stack rows t ≡ t' = ok-injective _ _ (rw g at e) in
        rw (← same) (get-stack rows t id)
    | inr g ↦ absurd (cc (rw g at e))
  ];
  merge_all_refused = λ rows t e h. elim (Bool-cases (all fits rows)) [
    | inl g ↦ absurd (cc (rw g at h))
    | inr g ↦ inr (all_taken rows ∙ g)
  ];
  scalars_sound = sound;
  scalars_complete = complete;
}

abbrev bar : Uuid → ℕ → Observation Fixed
bar id revision = record {
  source = "polygon";
  dataset = "price.ohlcv";
  entity_type = "equity";
  entity_id = "AAPL";
  ref = none;
  event_time = 10;
  knowledge_time = 11;
  value = ("close", number (whole 10)) ∷ [];
  metadata = [];
  revision = revision;
  observation_id = id;
  ingested_at = 50;
}

-- A table that was empty takes a bar and its correction.
empty-Refines : Refines uuids database [] []
empty-Refines = record {
  stored = λ id o e. absurd (cc);
  only = λ key r e. absurd (cc);
  unique = tt;
  keyed = tt;
}

abbrev batch : List (Observation Fixed)
batch = bar 1 0 ∷ bar 2 1 ∷ []

upsert_many-Refines_example :
    IsUpserted uuids database database-IsDatabase parse-str batch [] []
      (upsert_many uuids database batch [])
upsert_many-Refines_example =
    upsert_many-Refines uuids database database-IsDatabase parse-str batch [] [] empty-Refines

-- The batch is taken.
taken : upsert_many uuids database batch [] ≡ ok (stack (rows_of uuids batch) [])
unfolding upsert_many fits to_rows to_row naive_utc ensure_utc to_utc
taken = refl

-- A text that is longer than its column is refused.
too_long : fits (record (row_of uuids (bar 1 0)) { source = str 65 }) ≡ false
unfolding fits
too_long = refl

two-NoTies : (a b : Observation Fixed) → Memory.newer b a ≡ true → NoTies (a ∷ b ∷ [])
two-NoTies a b h o p (inl e) (inl g) same x y = e ∙ sym g
two-NoTies a b h o p (inl e) (inr (inl g)) same x y = absurd (cc)
two-NoTies a b h o p (inr (inl e)) (inl g) same x y = absurd (cc)
two-NoTies a b h o p (inr (inl e)) (inr (inl g)) same x y = e ∙ sym g
two-NoTies a b h o p (inl e) (inr (inr n)) same x y = absurd n
two-NoTies a b h o p (inr (inl e)) (inr (inr n)) same x y = absurd n
two-NoTies a b h o p (inr (inr m)) n same x y = absurd m

abbrev memory : Store Fixed
memory = Memory.upsert_many batch []

abbrev table : List (ObservationRow Fixed)
table = stack (rows_of uuids batch) []

table-Refines : Refines uuids database table memory
table-Refines =
    RefinesAt-eq uuids parse-str (written (rows_of uuids batch) (λ i. none)) (λ i. get i table)
      memory (get-stack (rows_of uuids batch) [])
      (written-RefinesAt uuids parse-str batch (λ i. none) [] empty-Refines)

bars : visible 20 (by_dataset "price.ohlcv") memory ≡ bar 1 0 ∷ bar 2 1 ∷ []
unfolding visible Memory.upsert_many
bars = refl

as_of-Refines_example :
    (rows : List (Observation Fixed)) × (as_of uuids database
        (aware 20)
        (by_dataset "price.ohlcv")
        none
        table
      ≡ ok rows)
    × SameMembers rows (Memory.as_of 20 (by_dataset "price.ohlcv") memory)
    × IsSorted sort_le rows
as_of-Refines_example =
    as_of-Refines uuids database database-IsDatabase parse-str 20 (by_dataset "price.ohlcv") table
      memory table-Refines (rw bars (two-NoTies (bar 1 0) (bar 2 1) refl))
