-- ===== src/Storage/Sql.antt =====
-- src/market_trader/storage/sqlalchemy_store.py: the store over a SQL database. The database and its
-- session are a parameter; a JSON column gives back the dict that was written to it.
pub mod Rows
pub mod Latest
pub mod Refinement
pub mod Upsert
mod Tests
use market_trader.Prelude.{
  ℕ, String, Bool, true, false, ◌&&◌, Option, none, some, List, [], ◌∷◌, Result, ok, err, leb, ltb,
  zero, suc,
}
use market_trader.Prelude.Eq.{◌==◌, string_eq}
use market_trader.Prelude.Dict.{Dict}
use market_trader.Core.Time.{
  Instant, DateTime, TimeError, ahead, ensure_utc, naive_utc, to_utc_lenient,
}
use market_trader.Core.Schema.{Observation, Value, Uuid}
use market_trader.Storage.Bitemporal.{Query, latest_if, sort_observations}

pub record ObservationRow (F : Type 0) : Type 0 where
  pub observation_id : String
  pub source : String
  pub dataset : String
  pub entity_type : String
  pub entity_id : String
  pub ref : Option String
  pub event_time : DateTime
  pub knowledge_time : DateTime
  pub revision : ℕ
  pub value : Dict String (Value F)
  pub metadata : Dict String (Value F)
  pub ingested_at : DateTime

-- What leaves a call: a time that cannot be converted, a text that is no UUID, a primary key that is
-- there already, a value that its column does not take, a connection that fails.
pub data DatabaseError : Type 0 where
  bad_time : TimeError → DatabaseError
  bad_uuid integrity_error data_error operational_error : DatabaseError

-- `str(uuid)` and `UUID(text)`, with `none` for its `ValueError`.
pub record Uuids : Type 0 where
  pub str : Uuid → String
  pub parse : String → Option Uuid

-- The table `observations` in a database whose states are `T`: `session.get`; `session.add_all` with
-- `commit`; `session.merge` of each row with one `commit`; `session.scalars` of a `select` with its
-- condition; and `select(func.count())`. A call that raises rolls back. `is_encodable`: the texts and the
-- JSON of a row can be written in this database's encoding (PostgreSQL has no NUL in a text and no
-- NaN in JSON).
pub record Database (F T : Type 0) : Type 0 where
  pub get : String → T → Option (ObservationRow F)
  pub add_all : List (ObservationRow F) → T → Result DatabaseError T
  pub merge_all : List (ObservationRow F) → T → Result DatabaseError T
  pub scalars : (ObservationRow F → Bool) → T → List (ObservationRow F)
  pub scalar_count : T → ℕ
  pub is_encodable : ObservationRow F → Bool

-- Whether a text has at most so many characters: `String(n)`.
abbrev pub is_within : ℕ → String → Bool
is_within n String.[] = true
is_within zero (String.◌∷◌ c s) = false
is_within (suc n) (String.◌∷◌ c s) = is_within n s

-- `Integer` has 32 bits, with a sign.
abbrev pub end_of_integer : ℕ
end_of_integer = 2_147_483_648

-- The sizes of the columns.
unfoldable pub fits : {F : Type 0} → ObservationRow F → Bool
fits r =
    is_within 36 r.observation_id
    && is_within 64 r.source
    && is_within 128 r.dataset
    && is_within 64 r.entity_type
    && is_within 128 r.entity_id
    && (elim r.ref [ none ↦ true | some ref ↦ is_within 256 ref ])
    && ltb r.revision end_of_integer

-- The aware UTC datetime of an instant.
abbrev pub aware : Instant → DateTime
aware t = record { wall = t; tzinfo = some (ahead 0) }

module _ {F : Type 0} (uuids : Uuids) where
  -- `_to_row`
  unfoldable pub to_row : Observation F → Result DatabaseError (ObservationRow F)
  to_row o = elim (naive_utc (aware o.event_time)) [
    | err e ↦ err (bad_time e)
    | ok event ↦ elim (naive_utc (aware o.knowledge_time)) [
      | err e ↦ err (bad_time e)
      | ok knowledge ↦ elim (naive_utc (aware o.ingested_at)) [
        | err e ↦ err (bad_time e)
        | ok ingested ↦ ok (record {
          observation_id = uuids.str o.observation_id;
          source = o.source;
          dataset = o.dataset;
          entity_type = o.entity_type;
          entity_id = o.entity_id;
          ref = o.ref;
          event_time = event;
          knowledge_time = knowledge;
          revision = o.revision;
          value = o.value;
          metadata = o.metadata;
          ingested_at = ingested;
        })
      ]
    ]
  ]

  -- `_to_obs`
  unfoldable pub to_obs : ObservationRow F → Result DatabaseError (Observation F)
  to_obs r = elim (to_utc_lenient r.event_time) [
    | err e ↦ err (bad_time e)
    | ok event ↦ elim (to_utc_lenient r.knowledge_time) [
      | err e ↦ err (bad_time e)
      | ok knowledge ↦ elim (uuids.parse r.observation_id) [
        | none ↦ err bad_uuid
        | some id ↦ elim (to_utc_lenient r.ingested_at) [
          | err e ↦ err (bad_time e)
          | ok ingested ↦ ok (record {
            source = r.source;
            dataset = r.dataset;
            entity_type = r.entity_type;
            entity_id = r.entity_id;
            ref = r.ref;
            event_time = event;
            knowledge_time = knowledge;
            value = r.value;
            metadata = r.metadata;
            revision = r.revision;
            observation_id = id;
            ingested_at = ingested;
          })
        ]
      ]
    ]
  ]

  -- `[_to_row(o) for o in observations]` and `[_to_obs(r) for r in rows]`
  unfoldable pub to_rows : List (Observation F) → Result DatabaseError (List (ObservationRow F))
  to_rows [] = ok []
  to_rows (o ∷ os) =
      let rest = to_rows os in
      elim (to_row o) [ err e ↦ err e | ok r ↦ elim rest [ err e ↦ err e | ok rs ↦ ok (r ∷ rs) ] ]

  unfoldable pub to_observations :
      List (ObservationRow F) → Result DatabaseError (List (Observation F))
  to_observations [] = ok []
  to_observations (r ∷ rs) =
      let rest = to_observations rs in
      elim (to_obs r) [ err e ↦ err e | ok o ↦ elim rest [ err e ↦ err e | ok os ↦ ok (o ∷ os) ] ]

-- `column == value`, if a value is given.
abbrev pub is_value : Option String → String → Bool
is_value none column = true
is_value (some v) column = column == v

module _ {F : Type 0} where
  -- The condition of the statement, from the naive times; they compare by their wall clocks.
  unfoldable pub where_clause : DateTime → Option DateTime → Query → ObservationRow F → Bool
  where_clause k since q r =
      leb r.knowledge_time.wall k.wall
      && (elim since [ none ↦ true | some floor ↦ leb floor.wall r.event_time.wall ])
      && is_value q.source r.source
      && is_value q.dataset r.dataset
      && is_value q.entity_type r.entity_type
      && is_value q.entity_id r.entity_id

-- `naive_utc(ensure_utc(dt))`
abbrev pub floor_of : DateTime → Result DatabaseError DateTime
floor_of dt = elim (ensure_utc dt) [
  | err e ↦ err (bad_time e)
  | ok t ↦ elim (naive_utc (aware t)) [ err e ↦ err (bad_time e) | ok n ↦ ok n ]
]

abbrev pub since_of : Option DateTime → Result DatabaseError (Option DateTime)
since_of none = ok none
since_of (some dt) = elim (floor_of dt) [ err e ↦ err e | ok n ↦ ok (some n) ]

module _ {F T : Type 0} (uuids : Uuids) (db : Database F T) where
  unfoldable pub add_many : List (Observation F) → T → Result DatabaseError T
  add_many os t = elim (to_rows uuids os) [
    | err e ↦ err e
    | ok rows ↦ elim rows [ [] ↦ ok t | (r ∷ rs) ↦ db.add_all (r ∷ rs) t ]
  ]

  unfoldable pub upsert_many : List (Observation F) → T → Result DatabaseError T
  upsert_many os t = elim (to_rows uuids os) [
    | err e ↦ err e
    | ok rows ↦ elim rows [ [] ↦ ok t | (r ∷ rs) ↦ db.merge_all (r ∷ rs) t ]
  ]

  unfoldable pub count : T → ℕ
  count t = db.scalar_count t

  unfoldable pub as_of :
      DateTime → Query → Option DateTime → T → Result DatabaseError (List (Observation F))
  as_of knowledge_time q since t = elim (floor_of knowledge_time) [
    | err e ↦ err e
    | ok k ↦ elim (since_of since) [
      | err e ↦ err e
      | ok floor ↦ elim (to_observations uuids (db.scalars (where_clause k floor q) t)) [
        | err e ↦ err e
        | ok rows ↦ ok (sort_observations (latest_if q.latest_revision_only rows))
      ]
    ]
  ]
