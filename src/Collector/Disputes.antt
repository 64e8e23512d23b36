-- ===== src/Collector/Disputes.antt =====
-- The events of a block's disputes: `disputes_to_chain_events` of essentials/src/collector/mod.rs, and
-- `DecodedDispute` of essentials/src/api/decode.rs.
use polkadot_introspector.Prelude.{
  ℕ, ◌-◌, ◌/◌, Bool, ◌&&◌, Option, some, List, [], ◌∷◌, ◌++◌, ◌==◌, nat_eq, if◌then◌else◌, keep,
  length, ltb, leb, is_some_and, map,
}
use polkadot_introspector.Tracker.BlockInfo.{H256}
use polkadot_introspector.Tracker.State.{option_beq}
use polkadot_introspector.Tracker.Types.{SubxtDispute, SubxtDisputeResult, valid, invalid}
use polkadot_introspector.Collector.Types.{ChainEvent, SubxtCandidateEvent}

pub record DecodedDispute : Type 0 where
  pub session : ℕ
  pub candidate_hash : H256
  pub validators_for : List ℕ
  pub validators_against : List ℕ
  pub validator_count : ℕ
  pub start : ℕ
  pub concluded_at : Option ℕ

-- The inner subtraction saturates, and the outer one never goes below 0.
unfoldable pub supermajority_threshold : ℕ → ℕ
supermajority_threshold n = n - (n - 1) / 3

unfoldable pub reached_supermajority : DecodedDispute → List ℕ → Bool
unfolding supermajority_threshold
reached_supermajority d votes =
    ltb 0 d.validator_count && leb (supermajority_threshold d.validator_count) (length votes)

unfoldable pub concluded_for : DecodedDispute → Bool
unfolding reached_supermajority
concluded_for d = reached_supermajority d d.validators_for

unfoldable pub concluded_against : DecodedDispute → Bool
unfolding reached_supermajority
concluded_against d = reached_supermajority d d.validators_against

-- The first `dispute` of the function, which both iterators use.
abbrev pub dispute_at : H256 → H256 → SubxtDispute
dispute_at hash candidate_hash = record {
  relay_parent_block = hash;
  candidate_hash = candidate_hash;
}

unfoldable pub initiations : H256 → ℕ → List DecodedDispute → List ChainEvent
initiations hash block_number disputes =
    map (λ (d : DecodedDispute). ChainEvent.dispute_initiated (dispute_at hash d.candidate_hash))
      (keep (λ (d : DecodedDispute). d.start == block_number) disputes)

-- The conclusions of one dispute: valid first, and both if both sides reached the threshold.
unfoldable pub conclusions_of : H256 → DecodedDispute → List ChainEvent
conclusions_of hash d =
    let conclusion = ChainEvent.dispute_concluded (dispute_at hash d.candidate_hash) in
    (if concluded_for d then conclusion valid ∷ [] else [])
    ++ (if concluded_against d then conclusion invalid ∷ [] else [])

unfoldable pub conclusions : H256 → ℕ → List DecodedDispute → List ChainEvent
unfolding conclusions_of
conclusions hash block_number [] = []
conclusions hash block_number (d ∷ disputes) =
    let rest = conclusions hash block_number disputes in
    if option_beq d.concluded_at (some block_number) then conclusions_of hash d ++ rest else rest

unfoldable pub disputes_to_chain_events : H256 → ℕ → List DecodedDispute → List ChainEvent
unfolding initiations conclusions
disputes_to_chain_events hash block_number disputes =
    initiations hash block_number disputes ++ conclusions hash block_number disputes

pub record ConcludedDispute : Type 0 where
  pub candidate_hash : H256
  pub outcome : SubxtDisputeResult

unfoldable pub candidate_events : List ChainEvent → List SubxtCandidateEvent
candidate_events [] = []
candidate_events (ChainEvent.candidate_changed e ∷ events) = e ∷ candidate_events events
candidate_events (_ ∷ events) = candidate_events events

unfoldable pub initiated_disputes : List ChainEvent → List H256
initiated_disputes [] = []
initiated_disputes (ChainEvent.dispute_initiated d ∷ events) =
    d.candidate_hash ∷ initiated_disputes events
initiated_disputes (_ ∷ events) = initiated_disputes events

unfoldable pub concluded_disputes : List ChainEvent → List ConcludedDispute
concluded_disputes [] = []
concluded_disputes (ChainEvent.dispute_concluded d outcome ∷ events) =
    record { candidate_hash = d.candidate_hash; outcome = outcome } ∷ concluded_disputes events
concluded_disputes (_ ∷ events) = concluded_disputes events

-- `filter` twice and `map`; the set is a list.
unfoldable pub concluded_earlier_both_ways : ℕ → List DecodedDispute → List H256
unfolding concluded_for concluded_against
concluded_earlier_both_ways block_number disputes =
    map (λ (d : DecodedDispute). d.candidate_hash)
      (keep (λ d. concluded_for d && concluded_against d)
        (keep (λ (d : DecodedDispute). is_some_and d.concluded_at (λ at. ltb at block_number))
          disputes))
