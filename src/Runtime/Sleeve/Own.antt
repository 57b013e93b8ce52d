-- ===== src/Runtime/Sleeve/Own.antt =====
-- The names that a pass of a sleeve closes and opens.
use market_trader.Prelude.{String, ◌≡◌, refl, [], ◌∷◌, ◌++◌, All, Mem, inl, inr, ◌⊎◌, All-map}
use market_trader.Prelude.Lists.{mem-append_left, mem-append_right}
use market_trader.Prelude.Eq.{string_eq, beq_iff}
use market_trader.Prelude.Dict.{Dict, insert, keys, All-insert}
use market_trader.Runtime.Sleeve.{PassState}

module _ {F : Type 0} where
  -- A name that a state has in its lists.
  abbrev pub IsOwn : PassState F → String → Type 0
  IsOwn s n = Mem n s.opened ⊎ Mem n s.closed

  -- Every name of the target was opened or closed.
  abbrev pub Owns : PassState F → Type 0
  Owns s = All (λ kv. IsOwn s kv.0) s.target

  pub Owns-insert :
      (n : String) (w : F) (s t : PassState F)
      → t.target ≡ insert n w s.target
      → IsOwn t n
      → ((m : String) → IsOwn s m → IsOwn t m)
      → Owns s
      → Owns t
  Owns-insert n w s t e own grow h = rw e (
      All-insert (λ kv. IsOwn t kv.0) n w s.target (λ j q. rw ((beq_iff j n).0 q) own) own
        (All-map _ _ s.target (λ kv. grow kv.0) h))

  pub keys-All : (P : String → Type 0) (d : Dict String F) → All (λ kv. P kv.0) d → All P (keys d)
  keys-All P [] h = tt
  keys-All P ((k, v) ∷ d) h = (h.0, keys-All P d h.1)

  -- A name that is added to the closed ones, or to the opened ones, with its weight.
  pub closed-Owns :
      (n : String) (w : F) (s t : PassState F)
      → t.target ≡ insert n w s.target
      → t.opened ≡ s.opened
      → t.closed ≡ s.closed ++ n ∷ []
      → Owns s
      → Owns t
  closed-Owns n w s t e eo ec h =
      Owns-insert n w s t e (rw ec (inr (mem-append_right n s.closed (n ∷ []) (inl refl))))
        (λ m own. elim own [
          | inl o ↦ rw eo (inl o)
          | inr c ↦ rw ec (inr (mem-append_left m s.closed (n ∷ []) c))
        ])
        h

  pub opened-Owns :
      (n : String) (w : F) (s t : PassState F)
      → t.target ≡ insert n w s.target
      → t.opened ≡ s.opened ++ n ∷ []
      → t.closed ≡ s.closed
      → Owns s
      → Owns t
  opened-Owns n w s t e eo ec h =
      Owns-insert n w s t e (rw eo (inl (mem-append_right n s.opened (n ∷ []) (inl refl))))
        (λ m own. elim own [
          | inl o ↦ rw eo (inl (mem-append_left m s.opened (n ∷ []) o))
          | inr c ↦ rw ec (inr c)
        ])
        h
