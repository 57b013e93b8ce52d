-- ===== src/Observability/Metrics.antt =====
-- src/market_trader/observability/metrics.py: counters and gauges in a registry. The locks are left
-- out: each operation is one step.
use Prim.Native.String.{◌++◌ as append_text}
use market_trader.Prelude.{
  String, ◌≡◌, refl, Bool, none, some, List, [], ◌∷◌, ◌++◌, if◌then◌else◌, Option-cases, inl, inr,
}
use market_trader.Prelude.Eq.{◌==◌, string_eq, beq_refl}
use market_trader.Prelude.Order.{codes, lex_le, list_ord, nat_ord}
use market_trader.Prelude.Sort.{sort_by}
use market_trader.Prelude.Dict.{Dict, lookup, insert, lookup-insert}
use market_trader.Float.{Float, nought}
use market_trader.Core.Identity.{join}

pub data Kind : Type 0 where
  counter gauge : Kind

pub record Metric (F : Type 0) : Type 0 where
  pub kind : Kind
  pub help : String
  pub value : F

abbrev pub Registry : Type 0 → Type 0
Registry F = Dict String (Metric F)

abbrev pub kind_text : Kind → String
kind_text counter = "counter"
kind_text gauge = "gauge"

abbrev pub help_line : String → String → List String
help_line name help =
    if help == "" then [] else append_text "# HELP " (append_text name (append_text " " help)) ∷ []

module _ {F : Type 0} ⦃f : Float F⦄ where
  -- `_get_or_create`: a name that is known keeps its metric, kind and help.
  unfoldable pub get_or_create : String → String → Kind → Registry F → Metric F × Registry F
  get_or_create name help_text kind registry = elim (lookup name registry) [
    | some m ↦ (m, registry)
    | none ↦
        let m : Metric F = record { kind = kind; help = help_text; value = nought } in
        (m, insert name m registry)
  ]

  -- `inc` and `set` on the metric under a name.
  unfoldable pub inc : F → Metric F → Metric F
  inc amount m = record m { value = f.add m.value amount }

  unfoldable pub set : F → Metric F → Metric F
  set value m = record m { value = value }

  unfoldable pub lines_of : String × Metric F → List String
  lines_of (name, m) =
      help_line name m.help
      ++ append_text "# TYPE " (append_text name (append_text " " (kind_text m.kind)))
        ∷ append_text name (append_text " " (f.str m.value))
        ∷ []

  unfoldable pub all_lines : List (String × Metric F) → List String
  all_lines [] = []
  all_lines (m ∷ ms) = lines_of m ++ all_lines ms

  -- `sorted(self._metrics.items())`: the names differ, so that the metrics are never compared.
  abbrev pub name_le : String × Metric F → String × Metric F → Bool
  name_le a b = lex_le (codes a.0) (codes b.0)

  unfoldable pub render : Registry F → String
  render registry = append_text (join "\n" (all_lines (sort_by name_le registry))) "\n"

  get_or_create-known :
      (name help_text : String) (kind : Kind) (registry : Registry F) (m : Metric F)
      → lookup name registry ≡ some m
      → get_or_create name help_text kind registry ≡ (m, registry)
  unfolding get_or_create
  get_or_create-known name help_text kind registry m e = rw (e, get_or_create) refl

  get_or_create-stored :
      (name help_text : String) (kind : Kind) (registry : Registry F)
      → let r = get_or_create name help_text kind registry in lookup name r.1 ≡ some r.0
  unfolding get_or_create
  get_or_create-stored name help_text kind registry = elim (Option-cases (lookup name registry)) [
    | inr (m, e) ↦ rw (e, get_or_create) e
    | inl e ↦
        let m : Metric F = record { kind = kind; help = help_text; value = nought } in
        let stored : lookup name (insert name m registry) ≡ some m =
          rw (lookup-insert name name m registry) (rw (beq_refl name) refl) in
        rw (e, get_or_create) stored
  ]

  -- Asking for a name again, with any help text and kind, gives the metric of the first time and
  -- leaves the registry alone: a second registration resets nothing.
  get_or_create_again :
      (name help_text help_text' : String) (kind kind' : Kind) (registry : Registry F)
      → let r = get_or_create name help_text kind registry in
        get_or_create name help_text' kind' r.1 ≡ r
  get_or_create_again name help_text help_text' kind kind' registry =
      let r = get_or_create name help_text kind registry in
      get_or_create-known name help_text' kind' r.1 r.0
        (get_or_create-stored name help_text kind registry)
