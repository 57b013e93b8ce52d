-- ===== src/Core/Schema.antt =====
-- src/market_trader/core/schema.py: the bitemporal observation. `revision` counts up from 0.
use market_trader.Prelude.{ℕ, String, ◌≡◌, ◌↔◌, Bool, ◌&&◌, Option, arith, true}
use market_trader.Prelude.Eq.{Eq, ◌==◌, option_eq, option_beq_iff, nat_eq, string_eq}
use market_trader.Prelude.Dict.{Dict}
use market_trader.Core.Time.{Instant}

-- What a `dict[str, Any]` of the program holds; `numbers` is a dict of floats inside it.
pub data Value (F : Type 0) : Type 0 where
  null : Value F
  boolean : Bool → Value F
  integer : ℕ → Value F
  number : F → Value F
  text : String → Value F
  numbers : Dict String F → Value F

-- A `uuid.UUID`, as its integer.
abbrev pub Uuid : Type 0
Uuid = ℕ

pub record Observation (F : Type 0) : Type 0 where
  pub source : String
  pub dataset : String
  pub entity_type : String
  pub entity_id : String
  pub ref : Option String
  pub event_time : Instant
  pub knowledge_time : Instant
  pub value : Dict String (Value F)
  pub metadata : Dict String (Value F)
  pub revision : ℕ
  pub observation_id : Uuid
  pub ingested_at : Instant

abbrev pub LogicalKey : Type 0
LogicalKey = String × String × String × Instant × Option String

abbrev pub logical_key : {F : Type 0} → Observation F → LogicalKey
logical_key o = (o.source, o.dataset, o.entity_id, o.event_time, o.ref)

abbrev pub key_beq : LogicalKey → LogicalKey → Bool
key_beq a b = a.0 == b.0 && a.1 == b.1 && a.2 == b.2 && a.3 == b.3 && a.4 == b.4

pub key_beq_iff : (a b : LogicalKey) → (key_beq a b ≡ true) ↔ (a ≡ b)
key_beq_iff a b = ground (
  arith,
  string_eq.beq_iff a.0 b.0,
  string_eq.beq_iff a.1 b.1,
  string_eq.beq_iff a.2 b.2,
  option_beq_iff a.4 b.4,
)

instance abbrev pub key_eq : Eq LogicalKey
key_eq = record { beq = key_beq; beq_iff = key_beq_iff }
