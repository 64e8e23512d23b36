-- ===== src/Collector/Verdicts.antt =====
-- The events of a block's disputes, read back.
use polkadot_introspector.Prelude.{
  ℕ, ◌+◌, ◌*◌, ◌-◌, ◌≤◌, ◌<◌, ◌≡◌, refl, ap, arith, Bool, true, false, ◌++◌, some, List, [], ◌∷◌,
  map, nat_eq, ◌==◌, keep, length, All, if◌then◌else◌,
}
use mathlib.Core.List.{append-nil}
use polkadot_introspector.Tracker.BlockInfo.{H256}
use polkadot_introspector.Tracker.State.{option_beq}
use polkadot_introspector.Tracker.Types.{valid, invalid}
use polkadot_introspector.Collector.Types.{ChainEvent}
use polkadot_introspector.Collector.Disputes.{
  DecodedDispute, ConcludedDispute, supermajority_threshold, reached_supermajority, concluded_for,
  concluded_against, initiations, conclusions_of, conclusions, disputes_to_chain_events,
  initiated_disputes, concluded_disputes,
}

-- The verdicts of one dispute that concluded.
abbrev pub verdicts_of : DecodedDispute → List ConcludedDispute
verdicts_of d =
    (if concluded_for d
      then record { candidate_hash = d.candidate_hash; outcome = valid } ∷ []
      else [])
    ++ (if concluded_against d
        then record { candidate_hash = d.candidate_hash; outcome = invalid } ∷ []
        else [])

unfoldable pub verdicts : List DecodedDispute → List ConcludedDispute
verdicts [] = []
verdicts (d ∷ disputes) = verdicts_of d ++ verdicts disputes

-- The dispute that an event is about, with the block as its relay parent.
abbrev pub IsAbout : H256 → ChainEvent → Type 0
IsAbout hash (ChainEvent.dispute_initiated d) = d.relay_parent_block ≡ hash
IsAbout hash (ChainEvent.dispute_concluded d outcome) = d.relay_parent_block ≡ hash
IsAbout hash _ = ⊥

-- If both sides together have no more votes than there are validators, a dispute concludes once at
-- most; if it concludes both ways, the votes exceed the validators by more than a third of them.
pub conclusions_of-overlap :
    (hash : H256) (d : DecodedDispute)
    → (length d.validators_for + length d.validators_against ≤ d.validator_count
        → length (conclusions_of hash d) ≤ 1)
      × (length (conclusions_of hash d) ≡ 2
          → d.validator_count
            < 3 * (length d.validators_for + length d.validators_against - d.validator_count))
unfolding conclusions_of concluded_for concluded_against reached_supermajority
    supermajority_threshold
conclusions_of-overlap hash d = (ground arith, ground arith)

initiated_disputes-append :
    (xs ys : List ChainEvent)
    → initiated_disputes (xs ++ ys) ≡ initiated_disputes xs ++ initiated_disputes ys
unfolding initiated_disputes
initiated_disputes-append [] ys = refl
initiated_disputes-append (ChainEvent.new_best_head h x ∷ xs) ys = initiated_disputes-append xs ys
initiated_disputes-append (ChainEvent.new_finalized_head h x ∷ xs) ys =
    initiated_disputes-append xs ys
initiated_disputes-append (ChainEvent.dispute_initiated d ∷ xs) ys =
    ap (λ t. d.candidate_hash ∷ t) (initiated_disputes-append xs ys)
initiated_disputes-append (ChainEvent.dispute_concluded d o ∷ xs) ys =
    initiated_disputes-append xs ys
initiated_disputes-append (ChainEvent.candidate_changed e ∷ xs) ys = initiated_disputes-append xs ys

concluded_disputes-append :
    (xs ys : List ChainEvent)
    → concluded_disputes (xs ++ ys) ≡ concluded_disputes xs ++ concluded_disputes ys
unfolding concluded_disputes
concluded_disputes-append [] ys = refl
concluded_disputes-append (ChainEvent.new_best_head h x ∷ xs) ys = concluded_disputes-append xs ys
concluded_disputes-append (ChainEvent.new_finalized_head h x ∷ xs) ys =
    concluded_disputes-append xs ys
concluded_disputes-append (ChainEvent.dispute_initiated d ∷ xs) ys = concluded_disputes-append xs ys
concluded_disputes-append (ChainEvent.dispute_concluded d o ∷ xs) ys =
    ap (λ t. record { candidate_hash = d.candidate_hash; outcome = o } ∷ t)
      (concluded_disputes-append xs ys)
concluded_disputes-append (ChainEvent.candidate_changed e ∷ xs) ys = concluded_disputes-append xs ys

initiations-reads :
    (hash : H256) (n : ℕ) (ds : List DecodedDispute)
    → (initiated_disputes (initiations hash n ds)
        ≡ map
            (λ (d : DecodedDispute). d.candidate_hash)
            (keep (λ (d : DecodedDispute). d.start == n) ds))
      × (concluded_disputes (initiations hash n ds) ≡ [])
unfolding initiations keep initiated_disputes concluded_disputes
initiations-reads hash n [] = (refl, refl)
initiations-reads hash n (d ∷ ds) = ground (arith, initiations-reads hash n ds)

conclusions_of-reads :
    (hash : H256) (d : DecodedDispute)
    → (initiated_disputes (conclusions_of hash d) ≡ [])
      × (concluded_disputes (conclusions_of hash d) ≡ verdicts_of d)
unfolding conclusions_of initiated_disputes concluded_disputes
conclusions_of-reads hash d = ground arith

conclusions-reads :
    (hash : H256) (n : ℕ) (ds : List DecodedDispute)
    → (initiated_disputes (conclusions hash n ds) ≡ [])
      × (concluded_disputes (conclusions hash n ds)
          ≡ verdicts (keep (λ (d : DecodedDispute). option_beq d.concluded_at (some n)) ds))
unfolding conclusions keep verdicts initiated_disputes concluded_disputes
conclusions-reads hash n [] = (refl, refl)
conclusions-reads hash n (d ∷ ds) =
    let h = conclusions-reads hash n ds in
    let k = conclusions_of-reads hash d in
    ground (
      arith,
      h,
      k,
      initiated_disputes-append (conclusions_of hash d) (conclusions hash n ds),
      concluded_disputes-append (conclusions_of hash d) (conclusions hash n ds),
    )

all_map {ℓ κ μ} :
    {A : Type ℓ} {B : Type κ} (P : B → Type μ) (f : A → B) (xs : List A)
    → ((x : A) → P (f x))
    → All P (map f xs)
all_map P f [] h = tt
all_map P f (x ∷ xs) h = (h x, all_map P f xs h)

all_append {ℓ κ} :
    {A : Type ℓ} (P : A → Type κ) (xs ys : List A) → All P xs → All P ys → All P (xs ++ ys)
all_append P [] ys h k = k
all_append P (x ∷ xs) ys h k = (h.0, all_append P xs ys h.1 k)

all_if {ℓ κ} :
    {A : Type ℓ} (P : A → Type κ) (b : Bool) (x : A) → P x → All P (if b then x ∷ [] else [])
all_if P true x h = (h, tt)
all_if P false x h = tt

conclusions-IsAbout :
    (hash : H256) (n : ℕ) (ds : List DecodedDispute) → All (IsAbout hash) (conclusions hash n ds)
unfolding conclusions conclusions_of
conclusions-IsAbout hash n [] = tt
conclusions-IsAbout hash n (d ∷ ds) =
    let rest = conclusions-IsAbout hash n ds in
    let here =
      all_append (IsAbout hash) _ _ (all_if (IsAbout hash) (concluded_for d) _ refl)
        (all_if (IsAbout hash) (concluded_against d) _ refl) in
    elim (option_beq d.concluded_at (some n))
      as (λ b.
        All (IsAbout hash)
          (if b then conclusions_of hash d ++ conclusions hash n ds else conclusions hash n ds)) [
            | true ↦ all_append (IsAbout hash) (conclusions_of hash d) _ here rest
            | false ↦ rest
          ]

-- The events of a block's disputes carry the block as their relay parent. Read back, they say that
-- exactly the disputes that started in the block were initiated, in their order, and that exactly those
-- whose conclusion is recorded at the block concluded, as valid if the votes for reached the threshold
-- and as invalid if the votes against did.
pub disputes_to_chain_events-reads :
    (hash : H256) (n : ℕ) (ds : List DecodedDispute)
    → let events = disputes_to_chain_events hash n ds in
      All (IsAbout hash) events
      × (initiated_disputes events
          ≡ map
              (λ (d : DecodedDispute). d.candidate_hash)
              (keep (λ (d : DecodedDispute). d.start == n) ds))
      × (concluded_disputes events
          ≡ verdicts (keep (λ (d : DecodedDispute). option_beq d.concluded_at (some n)) ds))
unfolding disputes_to_chain_events initiations
disputes_to_chain_events-reads hash n ds =
    let i = initiations-reads hash n ds in
    let c = conclusions-reads hash n ds in
    (
      all_append (IsAbout hash) (initiations hash n ds) (conclusions hash n ds)
          (all_map (IsAbout hash) _ _ (λ d. refl)) (conclusions-IsAbout hash n ds),
      grind (
        arith,
        i,
        c,
        append-nil,
        initiated_disputes-append (initiations hash n ds) (conclusions hash n ds),
      ),
      grind
          (arith, i, c, concluded_disputes-append (initiations hash n ds) (conclusions hash n ds)),
    )
