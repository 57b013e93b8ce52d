-- ===== src/Universe/PitUniverse/Tests.antt =====
-- A name that was removed is still a member before its removal.
use market_trader.Prelude.{◌≡◌, refl, true, some, [], ◌∷◌, ◌↔◌, Mem}
use market_trader.Universe.PitUniverse.{
  Constituent, members_on, is_member_on, active_on, is_member_on-members_on,
}

abbrev lehman : Constituent
lehman = record { symbol = "LEH"; name = "Lehman"; added = 10; removed = some 20 }

member_before : is_member_on (λ s. s) "LEH" 15 (lehman ∷ []) ≡ true
unfolding is_member_on active_on
member_before = refl

is_member_on-members_on_example :
    (is_member_on (λ s. s) "LEH" 15 (lehman ∷ []) ≡ true) ↔ Mem "LEH" (members_on 15 (lehman ∷ []))
is_member_on-members_on_example = is_member_on-members_on (λ s. s) "LEH" 15 (lehman ∷ [])
