-- ===== src/Storage/Sql/Latest.antt =====
-- The rows that `latest_revision_only` keeps depend on which rows there are, not on their order.
use market_trader.Prelude.{
  ◌≡◌, ◌↔◌, Bool, true, false, List, Mem, sym, ap, ◌∙◌, all_of_mem, All-of_forall,
}
use market_trader.Core.Schema.{Observation, logical_key}
use market_trader.Storage.Bitemporal.{newer, latest_if, collapse_latest_revisions}
use market_trader.Storage.Bitemporal.Collapse.{collapse-latest, collapse-All, collapse_unique}

module _ {F : Type 0} where
  -- The lists hold the same observations.
  abbrev pub SameMembers : List (Observation F) → List (Observation F) → Type 0
  SameMembers xs ys = (o : Observation F) → Mem o xs ↔ Mem o ys

  -- Two revisions of one fact differ in their knowledge time or their number.
  abbrev pub NoTies : List (Observation F) → Type 0
  NoTies xs =
      (o p : Observation F)
      → Mem o xs
      → Mem p xs
      → logical_key o ≡ logical_key p
      → newer o p ≡ false
      → newer p o ≡ false
      → o ≡ p

  -- No row of the same fact is newer.
  abbrev IsNewest : List (Observation F) → Observation F → Type 0
  IsNewest xs o = (p : Observation F) → Mem p xs → logical_key o ≡ logical_key p → newer p o ≡ false

  collapse-IsNewest :
      (xs : List (Observation F)) (o : Observation F)
      → Mem o (collapse_latest_revisions xs)
      → Mem o xs × IsNewest xs o
  collapse-IsNewest xs o m =
      let there =
        all_of_mem (λ p. Mem p xs) o (collapse_latest_revisions xs)
          (collapse-All (λ p. Mem p xs) xs (All-of_forall _ xs (λ p n. n))) m in
      (
        there,
        λ p n e.
            let (r, kept, same, old) = collapse-latest xs p n in
            let one = collapse_unique xs o r m kept (e ∙ sym same) in ap (newer p) one ∙ old,
      )

  collapse_of_newest :
      (xs : List (Observation F)) (o : Observation F)
      → NoTies xs
      → Mem o xs
      → IsNewest xs o
      → Mem o (collapse_latest_revisions xs)
  collapse_of_newest xs o ties m newest =
      let (r, kept, same, old) = collapse-latest xs o m in
      let r_in = (collapse-IsNewest xs r kept).0 in
      rw (ties o r m r_in (sym same) old (newest r r_in (sym same))) kept

  collapse_members :
      (xs ys : List (Observation F))
      → NoTies ys
      → SameMembers xs ys
      → (o : Observation F) → Mem o (collapse_latest_revisions xs)
      → Mem o (collapse_latest_revisions ys)
  collapse_members xs ys ties same o m =
      let (there, newest) = collapse-IsNewest xs o m in
      collapse_of_newest ys o ties ((same o).0 there) (λ p n e. newest p ((same p).1 n) e)

  pub latest_if-SameMembers :
      (b : Bool) (xs ys : List (Observation F))
      → NoTies ys
      → SameMembers xs ys
      → SameMembers (latest_if b xs) (latest_if b ys)
  latest_if-SameMembers false xs ys ties same o = same o
  latest_if-SameMembers true xs ys ties same o =
      let back : SameMembers ys xs = λ p. ((same p).1, (same p).0) in
      let ties' : NoTies xs = λ p q m n. ties p q ((same p).0 m) ((same q).0 n) in
      (collapse_members xs ys ties same o, collapse_members ys xs ties' back o)
