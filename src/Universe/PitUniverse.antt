-- ===== src/Universe/PitUniverse.antt =====
-- src/market_trader/universe/pit_universe.py: the constituents of an index over time. A date is a
-- number of days; `upper` is `str.upper`. Reading JSON is left out.
mod Tests
use market_trader.Prelude.{
  ℕ, ◌≤◌, ◌<◌, ◌≡◌, String, Bool, true, false, not, ◌&&◌, ◌||◌, Option, none, some, List, [], ◌∷◌,
  map, filter, any, leb, ltb, arith, Mem, ◌⊎◌, inl, inr, ◌↔◌, if◌then◌else◌,
}
use market_trader.Prelude.Eq.{◌==◌, string_eq, beq_iff}
use market_trader.Prelude.Order.{codes, lex_le, list_ord, nat_ord}
use market_trader.Prelude.Sort.{sort_by, sort_by-mem, mem-sort_by}

pub record Constituent : Type 0 where
  pub symbol : String
  pub name : String
  pub added : ℕ
  pub removed : Option ℕ

abbrev pub before_removal : ℕ → Option ℕ → Bool
before_removal on none = true
before_removal on (some removed) = ltb on removed

unfoldable pub active_on : ℕ → Constituent → Bool
active_on on c = leb c.added on && before_removal on c.removed

abbrev pub text_le : String → String → Bool
text_le a b = lex_le (codes a) (codes b)

unfoldable pub members_on : ℕ → List Constituent → List String
members_on on cs = sort_by text_le (map (λ c. c.symbol) (filter (active_on on) cs))

unfoldable pub is_member_on : (String → String) → String → ℕ → List Constituent → Bool
is_member_on upper symbol on cs = any (λ c. (c.symbol == upper symbol) && active_on on c) cs

-- The elements of a set comprehension, each once.
unfoldable pub distinct : List String → List String
distinct [] = []
distinct (s ∷ ss) = let rest = distinct ss in if any (λ t. t == s) ss then rest else s ∷ rest

unfoldable pub all_symbols : List Constituent → List String
all_symbols cs = sort_by text_le (distinct (map (λ c. c.symbol) cs))

abbrev pub is_removed : Option ℕ → Bool
is_removed none = false
is_removed (some d) = true

unfoldable pub delisted : List Constituent → List String
delisted cs = sort_by text_le (map (λ c. c.symbol) (filter (λ c. is_removed c.removed) cs))

member_found :
    (upper : String → String) (symbol : String) (on : ℕ) (cs : List Constituent)
    → is_member_on upper symbol on cs ≡ true
    → Mem (upper symbol) (map (λ c. c.symbol) (filter (active_on on) cs))
unfolding is_member_on
member_found upper symbol on [] h = absurd (cc)
member_found upper symbol on (c ∷ cs) h =
    ground (arith, member_found upper symbol on cs, beq_iff c.symbol (upper symbol))

member_made :
    (upper : String → String) (symbol : String) (on : ℕ) (cs : List Constituent)
    → Mem (upper symbol) (map (λ c. c.symbol) (filter (active_on on) cs))
    → is_member_on upper symbol on cs ≡ true
unfolding is_member_on
member_made upper symbol on [] h = absurd h
member_made upper symbol on (c ∷ cs) h =
    ground (arith, member_made upper symbol on cs, beq_iff c.symbol (upper symbol))

-- The two queries of membership agree: a symbol is a member on a date exactly when its upper-case
-- form is listed among the members of that date.
pub is_member_on-members_on :
    (upper : String → String) (symbol : String) (on : ℕ) (cs : List Constituent)
    → (is_member_on upper symbol on cs ≡ true) ↔ Mem (upper symbol) (members_on on cs)
unfolding members_on
is_member_on-members_on upper symbol on cs = (
  λ h. sort_by-mem text_le (upper symbol) _ (member_found upper symbol on cs h),
  λ h. member_made upper symbol on cs (mem-sort_by text_le (upper symbol) _ h),
)
