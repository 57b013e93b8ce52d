-- ===== src/Collectors/Quality.antt =====
-- src/market_trader/collectors/quality.py: the checks on a batch.
use market_trader.Prelude.{
  ℕ, String, Bool, true, false, not, ◌&&◌, ◌||◌, none, some, List, [], ◌∷◌, ◌++◌, filter, any,
  nat_beq, ltb, length, if◌then◌else◌,
}
use market_trader.Prelude.Eq.{◌==◌, string_eq}
use market_trader.Prelude.Order.{codes}
use market_trader.Prelude.Dict.{lookup}
use market_trader.Float.{Float, nought}
use market_trader.Core.Schema.{Observation, Value, null, boolean, integer, number, text, numbers}

pub data Level : Type 0 where
  error warning : Level

pub data Check : Type 0 where
  finite positive lag duplicate : Check

-- The message is left out: it is made of the other fields and of the value.
pub record QualityIssue : Type 0 where
  pub level : Level
  pub check : Check
  pub entity_id : String

pub record QualityReport : Type 0 where
  pub issues : List QualityIssue
  pub n_checked : ℕ

abbrev pub is_error : QualityIssue → Bool
is_error i = elim i.level [ error ↦ true | warning ↦ false ]

unfoldable pub is_ok : QualityReport → Bool
is_ok r = not (any is_error r.issues)

unfoldable pub errors : QualityReport → List QualityIssue
errors r = filter is_error r.issues

-- `s.startswith(prefix)`, by the codes of the characters.
abbrev pub is_prefix : List ℕ → List ℕ → Bool
is_prefix [] s = true
is_prefix (c ∷ p) [] = false
is_prefix (c ∷ p) (d ∷ s) = nat_beq c d && is_prefix p s

abbrev pub is_disclosure : String → Bool
is_disclosure dataset =
    is_prefix (codes "disclosure.") (codes dataset) || is_prefix (codes "filing.") (codes dataset)

-- `NUMERIC_VALUE_KEYS`, those of `POSITIVE_VALUE_KEYS` flagged.
abbrev pub value_keys : List (String × Bool)
value_keys =
    ("close", true)
    ∷ ("open", true)
    ∷ ("high", true)
    ∷ ("low", true)
    ∷ ("value", false)
    ∷ ("amount_low", false)
    ∷ ("amount_high", false)
    ∷ []

module _ {F : Type 0} ⦃f : Float F⦄ where
  -- `math.isnan(v) or math.isinf(v)`, of an `int` or a `float`; a `bool` is an `int`.
  abbrev pub is_unbounded : Value F → Bool
  is_unbounded (number x) = f.is_nan x || f.is_inf x
  is_unbounded null = false
  is_unbounded (boolean b) = false
  is_unbounded (integer n) = false
  is_unbounded (text t) = false
  is_unbounded (numbers d) = false

  -- `v <= 0`
  abbrev pub is_non_positive : Value F → Bool
  is_non_positive (number x) = f.le x nought
  is_non_positive null = false
  is_non_positive (boolean b) = not b
  is_non_positive (integer n) = nat_beq n 0
  is_non_positive (text t) = false
  is_non_positive (numbers d) = false

  abbrev pub issue : Level → Check → Observation F → QualityIssue
  issue level check o = record { level = level; check = check; entity_id = o.entity_id }

  -- One key of one row; the flag says whether it is a price.
  unfoldable pub check_key : Observation F → String × Bool → List QualityIssue
  check_key o (key, is_price) = elim (lookup key o.value) [
    | none ↦ []
    | some v ↦
        if is_unbounded v
        then issue error finite o ∷ []
        else if is_price && is_non_positive v
        then issue error positive o ∷ []
        else []
  ]

  unfoldable pub check_keys : Observation F → List (String × Bool) → List QualityIssue
  check_keys o [] = []
  check_keys o (k ∷ ks) = check_key o k ++ check_keys o ks

  -- The tuples `identity` of two rows are equal.
  abbrev pub same_identity : Observation F → Observation F → Bool
  same_identity o p =
      (o.source == p.source)
      && (o.dataset == p.dataset)
      && (o.entity_id == p.entity_id)
      && nat_beq o.event_time p.event_time
      && nat_beq o.knowledge_time p.knowledge_time
      && nat_beq o.revision p.revision

  -- The loop, with the rows that were seen.
  unfoldable pub validate_from : List (Observation F) → List (Observation F) → List QualityIssue
  validate_from seen [] = []
  validate_from seen (o ∷ os) =
      check_keys o value_keys
      ++ (if is_disclosure o.dataset && ltb o.knowledge_time o.event_time
          then issue error lag o ∷ []
          else [])
      ++ (if any (same_identity o) seen then issue warning duplicate o ∷ [] else [])
      ++ validate_from (o ∷ seen) os

  unfoldable pub validate_observations : List (Observation F) → QualityReport
  validate_observations obs = record { issues = validate_from [] obs; n_checked = length obs }
