-- ===== src/Core/Identity.antt =====
-- src/market_trader/core/identity.py: the content-derived `observation_id`.
use Prim.Native.String.{◌++◌ as append_text}
use market_trader.Prelude.{ℕ, String, Option, none, some, List, [], ◌∷◌}
use market_trader.Core.Time.{Instant}
use market_trader.Core.Schema.{Observation, Uuid}

-- The library calls that identity rests on. The fixed namespace is part of `uuid5`.
pub record Identity : Type 0 where
  pub uuid5 : String → Uuid
  pub isoformat : Instant → String
  pub str : ℕ → String

-- `sep.join(parts)`
unfoldable pub join : String → List String → String
join sep [] = ""
join sep (p ∷ []) = p
join sep (p ∷ q ∷ rest) = append_text p (append_text sep (join sep (q ∷ rest)))

-- `obs.ref or ""`
abbrev pub or_empty : Option String → String
or_empty none = ""
or_empty (some r) = r

module _ (lib : Identity) {F : Type 0} where
  unfoldable pub identity_key : Observation F → String
  unfolding join
  identity_key o = join "|" (
      o.source
      ∷ o.dataset
      ∷ o.entity_id
      ∷ lib.isoformat o.event_time
      ∷ lib.isoformat o.knowledge_time
      ∷ lib.str o.revision
      ∷ or_empty o.ref
      ∷ [])

  unfoldable pub deterministic_id : Observation F → Uuid
  unfolding identity_key
  deterministic_id o = lib.uuid5 (identity_key o)

  unfoldable pub with_deterministic_id : Observation F → Observation F
  unfolding deterministic_id
  with_deterministic_id o = record o { observation_id = deterministic_id o }
