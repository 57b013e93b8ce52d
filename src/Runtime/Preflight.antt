-- ===== src/Runtime/Preflight.antt =====
-- src/market_trader/runtime/preflight.py. The text of a check is left out.
mod Tests
use market_trader.Prelude.{
  ℕ, ◌≡◌, ◌↔◌, ◌⊎◌, refl, String, Bool, true, false, not, ◌&&◌, ◌||◌, Option, none, some, List, [],
  ◌∷◌, ◌++◌, arith, any, leb, ltb, if◌then◌else◌, Mem, inl, inr, Bool-cases, sym, ◌∙◌,
}
use market_trader.Prelude.Eq.{◌==◌, string_eq}
use market_trader.Prelude.Sort.{sort_by, IsSorted, sort_by-IsSorted, sort_by-mem, mem-sort_by}
use market_trader.Float.{Float, nought}
use market_trader.Config.{Settings, is_live}

pub data Level : Type 0 where
  ok warn fail : Level

pub record Check : Type 0 where
  pub level : Level
  pub name : String

-- `settings.alpaca_key_id and settings.alpaca_secret_key`
abbrev pub has_keys : {F : Type 0} → Settings F → Bool
has_keys settings = not (settings.alpaca_key_id == "") && not (settings.alpaca_secret_key == "")

-- `order`
abbrev pub rank : Level → ℕ
rank fail = 0
rank warn = 1
rank ok = 2

abbrev pub level_le : Check → Check → Bool
level_le a b = leb (rank a.level) (rank b.level)

abbrev pub is_fail : Level → Bool
is_fail fail = true
is_fail warn = false
is_fail ok = false

abbrev pub is_warn : Level → Bool
is_warn warn = true
is_warn fail = false
is_warn ok = false

abbrev pub level_if : Bool → Level → Level → Level
level_if test then_level else_level = if test then then_level else else_level

abbrev pub check : Level → String → Check
check level name = record { level = level; name = name }

unfoldable pub universe_level : ℕ → Level
universe_level n = if leb n 0 then fail else if ltb n 10 then warn else ok

module _ {F : Type 0} ⦃f : Float F⦄ (settings : Settings F) where
  -- The check of the capital, if the equity is known and positive.
  unfoldable pub capital_checks : Option F → List Check
  capital_checks none = []
  capital_checks (some equity) =
      if f.lt nought equity
      then check (level_if (f.lt (f.div settings.capital_ceiling equity) (f.lit 5 1)) warn ok)
          "capital_ceiling"
        ∷ []
      else []

  abbrev pub is_size_book : Bool
  is_size_book = settings.risk_weighting == "size_book"

  -- The book reads no signal, and yet signals are fetched.
  unfoldable pub wasted_checks : List Check
  wasted_checks =
      if is_size_book
        && f.le settings.tilt_strength nought
        && (settings.insider_enabled || settings.news_enabled)
      then check warn "wasted_fetch" ∷ []
      else []

  -- The checks in the order in which they are made.
  unfoldable pub all_checks : Option F → Bool → ℕ → List Check
  all_checks equity db_ok universe_size =
      check (level_if (has_keys settings) ok fail) "alpaca_keys"
      ∷ check (level_if db_ok ok fail) "database"
      ∷ check (universe_level universe_size) "universe"
      ∷ (capital_checks equity
          ++ (check (level_if is_size_book ok warn) "book"
              ∷ check (level_if (f.lt (f.lit 10 2) settings.target_vol) warn ok) "target_vol"
              ∷ check (level_if settings.daily_cycle_enabled ok warn) "daily_schedule"
              ∷ (wasted_checks
                  ++ check (level_if (is_live settings.execution_mode) warn ok) "execution_mode"
                    ∷ [])))

  unfoldable pub preflight_checks : Option F → Bool → ℕ → List Check
  preflight_checks equity db_ok universe_size =
      sort_by level_le (all_checks equity db_ok universe_size)

unfoldable pub worst_level : List Check → Level
worst_level checks =
    if any (λ c. is_fail c.level) checks
    then fail
    else if any (λ c. is_warn c.level) checks
    then warn
    else ok

any_fail_of :
    (c : Check) (cs : List Check)
    → Mem c cs
    → is_fail c.level ≡ true
    → any (λ d. is_fail d.level) cs ≡ true
any_fail_of c [] m e = absurd m
any_fail_of c (d ∷ cs) m e = ground (arith, any_fail_of c cs)

fail_of_any :
    (cs : List Check)
    → any (λ d. is_fail d.level) cs ≡ true
    → (c : Check) × Mem c cs × (is_fail c.level ≡ true)
fail_of_any [] e = absurd (cc)
fail_of_any (d ∷ cs) e = elim (Bool-cases (is_fail d.level)) [
  | inl t ↦ (d, inl refl, t)
  | inr t ↦ let (c, m, k) = fail_of_any cs (rw t at e) in (c, inr m, k)
]

any_fail-sort_by :
    (cs : List Check)
    → any (λ d. is_fail d.level) (sort_by level_le cs) ≡ any (λ d. is_fail d.level) cs
any_fail-sort_by cs = elim (Bool-cases (any (λ d. is_fail d.level) cs)) [
  | inl t ↦
      let (c, m, e) = fail_of_any cs t in
      any_fail_of c (sort_by level_le cs) (sort_by-mem level_le c cs m) e ∙ sym t
  | inr t ↦ elim (Bool-cases (any (λ d. is_fail d.level) (sort_by level_le cs))) [
    | inr g ↦ g ∙ sym t
    | inl g ↦
        let (c, m, e) = fail_of_any (sort_by level_le cs) g in
        absurd (cc (t, any_fail_of c cs (mem-sort_by level_le c cs m) e))
  ]
]

worst_level_fail :
    (cs : List Check) → (worst_level cs ≡ fail) ↔ (any (λ d. is_fail d.level) cs ≡ true)
unfolding worst_level
worst_level_fail cs = elim (Bool-cases (any (λ d. is_fail d.level) cs)) [
  | inl t ↦ rw t (λ h. refl, λ h. refl)
  | inr t ↦ rw t (λ h. absurd (ground arith), λ h. absurd (cc))
]

any-append : (p : Check → Bool) (xs ys : List Check) → any p (xs ++ ys) ≡ (any p xs || any p ys)
any-append p [] ys = refl
any-append p (x ∷ xs) ys = ground (arith, any-append p xs ys)

module _ {F : Type 0} ⦃f : Float F⦄ (settings : Settings F) where
  no_capital_fail :
      (equity : Option F) → any (λ d. is_fail d.level) (capital_checks settings equity) ≡ false
  unfolding capital_checks
  no_capital_fail none = refl
  no_capital_fail (some equity) = ground arith

  no_wasted_fail : any (λ d. is_fail d.level) (wasted_checks settings) ≡ false
  unfolding wasted_checks
  no_wasted_fail = ground arith

  any_fail-all_checks :
      (equity : Option F) (db_ok : Bool) (n : ℕ)
      → any (λ d. is_fail d.level) (all_checks settings equity db_ok n)
        ≡ (not (has_keys settings) || (not db_ok || leb n 0))
  unfolding all_checks universe_level
  any_fail-all_checks equity db_ok n =
      let fails : Check → Bool = λ d. is_fail d.level in
      rw (any-append fails (capital_checks settings equity), no_capital_fail equity)
        (rw (any-append fails (wasted_checks settings), no_wasted_fail) (ground arith))

  -- What stops a session is exactly a missing key, a database that is down, or an empty universe: the
  -- worst level is `fail` if and only if one of them holds, whatever else warns; and the report begins
  -- with the worst.
  pub preflight_checks_fail :
      (equity : Option F) (db_ok : Bool) (universe_size : ℕ)
      → ((worst_level (preflight_checks settings equity db_ok universe_size) ≡ fail)
          ↔ ((has_keys settings ≡ false) ⊎ ((db_ok ≡ false) ⊎ (universe_size ≡ 0))))
        × IsSorted level_le (preflight_checks settings equity db_ok universe_size)
  unfolding worst_level preflight_checks
  preflight_checks_fail equity db_ok universe_size =
      let checks = all_checks settings equity db_ok universe_size in
      let worst = worst_level_fail (sort_by level_le checks) in
      let found = any_fail-sort_by checks ∙ any_fail-all_checks equity db_ok universe_size in
      (
        (λ h. ground (arith, worst.0 h, found), λ h. worst.1 (ground (arith, found))),
        sort_by-IsSorted level_le (λ a b. ground arith) (λ a b c h k. ground arith) checks,
      )
