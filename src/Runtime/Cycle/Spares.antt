-- ===== src/Runtime/Cycle/Spares.antt =====
-- The live cycle, its sleeves and their names.
use mathlib.Core.Path.{subst}
use market_trader.Prelude.{
  ok-injective, String, ◌≡◌, ◌≢◌, refl, sym, ◌∙◌, true, false, Option, List, [], ◌∷◌, ◌++◌, arith,
  Mem, ok, result_cases, inl, inr, ◌⊎◌, Bool-cases, Result, err,
}
use market_trader.Prelude.Eq.{string_eq, beq_iff}
use market_trader.Prelude.Dict.{Dict, keys}
use market_trader.Float.{Float}
use market_trader.Config.{Settings}
use market_trader.Storage.Bitemporal.{Store}
use market_trader.Portfolio.Sizing.{Numerics}
use market_trader.Execution.Broker.{Broker}
use market_trader.Execution.Engine.{Env}
use market_trader.Runtime.Sleeve.{StateError, Texts, is_in}
use market_trader.Runtime.Sleeve.Own.{IsOwn}
use market_trader.Runtime.Sleeve.Routed.{Routed, Routed-weaken}
use market_trader.Runtime.NewsSleeve.Positions.{SleevePosition, active_sleeve_positions}
use market_trader.Runtime.InsiderSleeve.Positions.{InsiderSleevePosition, active_insider_positions}
use market_trader.Runtime.InsiderSleeve.Pass.{decide, run_insider_sleeve_cycle}
use market_trader.Runtime.InsiderSleeve.Opening.{IsPass, run_insider_sleeve_cycle-Routed}
use market_trader.Runtime.Cycle.Target.{Options}
use market_trader.Runtime.Cycle.Cancelled.{Cleared, Cleared-weaken}
use market_trader.Runtime.Cycle.Pass.{CycleResult, CycleError}
use market_trader.Runtime.Cycle.Traded.{run_paper_cycle-Routed}
use market_trader.Runtime.Cycle.Live.{
  news_names, insider_names, reserved_names, daily_limits, daily_options, daily,
  run_live_paper_cycle,
}

is_in_append_left : (n : String) (xs ys : List String) → Mem n xs → is_in n (xs ++ ys) ≡ true
is_in_append_left n [] ys m = absurd m
is_in_append_left n (x ∷ xs) ys m = ground (arith, is_in_append_left n xs ys, beq_iff x n)

is_in_append_right : (n : String) (xs ys : List String) → Mem n ys → is_in n (xs ++ ys) ≡ true
is_in_append_right n [] [] m = absurd m
is_in_append_right n [] (y ∷ ys) m = ground (arith, is_in_append_right n [] ys, beq_iff y n)
is_in_append_right n (x ∷ xs) ys m = ground (arith, is_in_append_right n xs ys m)

module _ {F : Type 0} ⦃f : Float F⦄ (settings : Settings F) (texts : Texts) (env : Env) where
  -- A name that an enabled sleeve owns.
  abbrev pub IsOwned : Store F → String → Type 0
  IsOwned s n =
      ((settings.news_sleeve_enabled ≡ true)
        × (active : Dict String (SleevePosition F)) × (active_sleeve_positions texts s env.as_of
            ≡ ok active)
        × Mem n (keys active))
      ⊎ ((settings.insider_sleeve_enabled ≡ true)
          × (active : Dict String (InsiderSleevePosition F)) × (active_insider_positions texts s
                env.as_of
              ≡ ok active)
          × Mem n (keys active))

  reserved_names-parts :
      (s : Store F) (reserved : List String)
      → reserved_names settings texts s env.as_of ≡ ok reserved
      → (news : List String) × (insider : List String) × (news_names settings texts s env.as_of
          ≡ ok news)
        × (insider_names settings texts s env.as_of ≡ ok insider)
        × (reserved ≡ news ++ insider)
  unfolding reserved_names
  reserved_names-parts s reserved h = elim (result_cases (news_names settings texts s env.as_of)) [
    | inl (e, a) ↦ absurd (cc (rw (a, reserved_names) at h))
    | inr (news, a) ↦ elim (result_cases (insider_names settings texts s env.as_of)) [
      | inl (e, b) ↦ absurd (cc (rw b at (rw (a, reserved_names) at h)))
      | inr (insider, b) ↦
          (news, insider, a, b, sym (ok-injective _ _ (rw b at (rw (a, reserved_names) at h))))
    ]
  ]

  -- Every name that an enabled sleeve owns is reserved.
  owned-reserved :
      (s : Store F) (n : String) (reserved : List String)
      → reserved_names settings texts s env.as_of ≡ ok reserved
      → IsOwned s n
      → is_in n reserved ≡ true
  unfolding reserved_names
  owned-reserved s n reserved h own =
      let (news, insider, a, b, e) = reserved_names-parts s reserved h in
      rw e (elim own [
        | inl (on, active, g, m) ↦
            let known : news_names settings texts s env.as_of ≡ ok (keys active) =
              rw on (rw g refl) in
            is_in_append_left n news insider (subst (Mem n) (ok-injective _ _ (sym known ∙ a)) m)
        | inr (on, active, g, m) ↦
            let known : insider_names settings texts s env.as_of ≡ ok (keys active) =
              rw on (rw g refl) in
            is_in_append_right n news insider (subst (Mem n) (ok-injective _ _ (sym known ∙ b)) m)
      ])

module _ {F B : Type 0} ⦃f : Float F⦄ (broker : Broker F B) (np : Numerics F) (env : Env)
    (settings : Settings F) (texts : Texts) (options : Options F) where
  -- What follows the daily cycle, from what it left: nothing, if it raised or the insider sleeve is off
  -- or cannot read its state from that store; otherwise a pass of the sleeve over that store.
  pub data IsSequel (universe : List String) (gate : Store F → Option F)
      (r : Result (CycleError F) (CycleResult F) × Store F × B) : B → Type 0 where
    cycle_raised : (e : CycleError F) → r.0 ≡ err e → IsSequel universe gate r r.2
    sleeve_off : settings.insider_sleeve_enabled ≡ false → IsSequel universe gate r r.2
    unread :
        (e : StateError)
        → active_insider_positions texts r.1 env.as_of ≡ err e
        → IsSequel universe gate r r.2
    sleeve_pass :
        {b' : B} (active : Dict String (InsiderSleevePosition F))
        → settings.insider_sleeve_enabled ≡ true
        → active_insider_positions texts r.1 env.as_of ≡ ok active
        → IsPass settings texts env universe
            (gate r.1)
            r.1
            active
            (decide settings texts env universe (gate r.1) r.1 active)
        → Routed broker env
            (IsOwn (decide settings texts env universe (gate r.1) r.1 active))
            r.2
            b'
        → IsSequel universe gate r b'

  insider-IsSequel :
      (universe : List String) (gate : Store F → Option F)
      (r : Result (CycleError F) (CycleResult F) × Store F × B)
      → settings.insider_sleeve_enabled ≡ true
      → IsSequel universe gate r
          (run_insider_sleeve_cycle broker settings texts env universe (gate r.1) r.1 r.2).2
  unfolding run_insider_sleeve_cycle
  insider-IsSequel universe gate r on =
      elim (result_cases (active_insider_positions texts r.1 env.as_of)) [
        | inl (e, g) ↦ rw (g, run_insider_sleeve_cycle) (unread e g)
        | inr (active, g) ↦
            let done =
              run_insider_sleeve_cycle-Routed broker settings texts env universe (gate r.1) r.1 r.2
                g in
            sleeve_pass active on g done.0 done.1
      ]

  -- A live cycle whose sleeves' state can be read never has the daily book touch a name that an enabled
  -- sleeve owns: of the open orders that the broker lists the daily cycle cancels only ones for other
  -- names, and then it submits only orders for other names. After it comes a pass of the insider
  -- sleeve over the store and the broker that the daily cycle left, within the sleeve's cap and with
  -- orders only for the names that the pass opens or closes, unless the cycle raised, the sleeve is
  -- off or its state there cannot be read; then the broker stays as the daily cycle left it.
  pub run_live_paper_cycle-Spares :
      (watchlist : List String) (prices : Dict String F) (universe : List String)
      (gate : Store F → Option F) (s : Store F) (b : B) (n : String) {reserved : List String}
      → reserved_names settings texts s env.as_of ≡ ok reserved
      → IsOwned settings texts env s n
      → let r = daily broker np env settings texts options reserved watchlist prices s b in
        (b1 : B) × Cleared broker true (λ m. m ≢ n) (λ m. is_in m reserved ≡ true) b b1
        × Routed broker env (λ m. m ≢ n) b1 r.2
        × IsSequel universe gate r
            (run_live_paper_cycle broker np env settings texts options watchlist prices universe
              gate s b).2
  unfolding run_live_paper_cycle
  run_live_paper_cycle-Spares watchlist prices universe gate s b n {reserved} h own =
      let limits = daily_limits settings texts in
      let given = daily_options broker np env settings texts options reserved in
      let r = daily broker np env settings texts options reserved watchlist prices s b in
      let (b1, cancels, sends) =
        run_paper_cycle-Routed broker np env settings limits given watchlist prices s b in
      let owned = owned-reserved settings texts env s n reserved h own in
      let other : (m : String) → is_in m reserved ≡ false → m ≢ n =
        λ m free same. absurd (cc (owned, subst (λ k. is_in k reserved ≡ false) same free)) in
      (
        b1,
        Cleared-weaken broker other cancels,
        Routed-weaken broker env other sends,
        elim (result_cases r.0) [
          | inl (e, g) ↦
              subst (IsSequel universe gate r) (sym (rw (h, run_live_paper_cycle) (rw g refl)))
                (cycle_raised e g)
          | inr (result, g) ↦ elim (Bool-cases settings.insider_sleeve_enabled) [
            | inl on ↦
                subst (IsSequel universe gate r)
                  (sym (rw (h, run_live_paper_cycle) (rw g (rw on refl))))
                  (insider-IsSequel universe gate r on)
            | inr off ↦
                subst (IsSequel universe gate r)
                  (sym (rw (h, run_live_paper_cycle) (rw g (rw off refl)))) (sleeve_off off)
          ]
        ],
      )
