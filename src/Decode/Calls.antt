-- ===== src/Decode/Calls.antt =====
-- The decoders of the results of runtime calls, in essentials/src/api/decode.rs. An error is `none`;
-- its text is left out.
pub mod Reports
pub mod Strict
pub mod Votes
use polkadot_introspector.Prelude.{
  ℕ, zero, suc, ◌+◌, ◌*◌, Bool, true, false, Option, none, some, List, [], ◌∷◌, map, map_option,
  if◌then◌else◌, ◌==◌, nat_eq, length, as_u32,
}
use polkadot_introspector.Tracker.BlockInfo.{H256}
use polkadot_introspector.Tracker.Types.{CoreOccupied}
use polkadot_introspector.Collector.Disputes.{DecodedDispute}
use polkadot_introspector.Collector.Types.{SubxtCandidateEvent, SubxtCandidateEventType}
use polkadot_introspector.Decode.Coder.{Coder, Scale, ◌>>=◌, ◌▸◌, struct, decode_all}
use polkadot_introspector.Decode.Raw.{
  RawCandidateReceipt, RawCandidateEvent, RawDispute, RawCoreState, raw_candidate_receipt,
  raw_candidate_event, raw_dispute, raw_core_state,
}

unfoldable pub spelled : ℕ → List ℕ → ℕ
spelled n [] = n
spelled n (b ∷ bs) = spelled (n * 256 + b) bs

-- `H256::from` on 32 bytes
unfoldable pub h256_from : List ℕ → H256
unfolding spelled
h256_from bs = spelled 0 bs

-- `BitVec::iter_ones`, from a position on
unfoldable pub ones_from : ℕ → List Bool → List ℕ
ones_from i [] = []
ones_from i (b ∷ bs) = let rest = ones_from (suc i) bs in if b then i ∷ rest else rest

unfoldable pub iter_ones : List Bool → List ℕ
unfolding ones_from
iter_ones bs = ones_from 0 bs

module _ (S : Scale) where
  module _ (hash : List ℕ → H256) where
    unfoldable pub candidate_event :
        RawCandidateReceipt → SubxtCandidateEventType → ℕ → SubxtCandidateEvent
    unfolding h256_from
    candidate_event receipt event_type core_idx = record {
      candidate_hash = hash ((raw_candidate_receipt S).encode receipt);
      relay_parent = h256_from receipt.relay_parent;
      parachain_id = receipt.para_id;
      event_type = event_type;
      core_idx = core_idx;
    }

    unfoldable pub of_raw_event : RawCandidateEvent → SubxtCandidateEvent
    unfolding candidate_event
    of_raw_event (RawCandidateEvent.backed receipt _ core _) =
        candidate_event receipt SubxtCandidateEventType.backed core
    of_raw_event (RawCandidateEvent.included receipt _ core _) =
        candidate_event receipt SubxtCandidateEventType.included core
    of_raw_event (RawCandidateEvent.timed_out receipt _ core) =
        candidate_event receipt SubxtCandidateEventType.timed_out core

    unfoldable pub decode_candidate_events : List ℕ → Option (List SubxtCandidateEvent)
    unfolding of_raw_event decode_all
    decode_candidate_events bytes = do
      raw ← decode_all (S.vec (raw_candidate_event S)) bytes
      some (map of_raw_event raw)

-- The bitsets of both sides have one length, or the layout was misread.
unfoldable pub of_raw_dispute : RawDispute → Option DecodedDispute
unfolding iter_ones h256_from as_u32
of_raw_dispute d =
    if length d.validators_for == length d.validators_against
    then some (record {
      session = d.session;
      candidate_hash = h256_from d.candidate_hash;
      validators_for = map as_u32 (iter_ones d.validators_for);
      validators_against = map as_u32 (iter_ones d.validators_against);
      validator_count = as_u32 (length d.validators_for);
      start = d.start;
      concluded_at = d.concluded_at;
    })
    else none

-- `map` and `collect`: the first error ends it.
unfoldable pub of_raw_disputes : List RawDispute → Option (List DecodedDispute)
unfolding of_raw_dispute
of_raw_disputes [] = some []
of_raw_disputes (d ∷ ds) = do
  decoded ← of_raw_dispute d
  rest ← of_raw_disputes ds
  some (decoded ∷ rest)

abbrev pub core_occupied : RawCoreState → CoreOccupied
core_occupied (RawCoreState.occupied _) = CoreOccupied.occupied
core_occupied (RawCoreState.scheduled _) = CoreOccupied.scheduled
core_occupied RawCoreState.free = CoreOccupied.free

-- The epoch's configuration behind the randomness is not read.
pub record DecodedBabeEpoch : Type 0 where
  pub authorities : List (List ℕ × ℕ)
  pub randomness : List ℕ

pub record RawBabeEpoch : Type 0 where
  pub epoch_index : ℕ
  pub start_slot : ℕ
  pub duration : ℕ
  pub authorities : List (List ℕ × ℕ)
  pub randomness : List ℕ

module _ (S : Scale) where
  unfoldable pub decode_disputes : List ℕ → Option (List DecodedDispute)
  unfolding of_raw_disputes decode_all
  decode_disputes bytes = decode_all (S.vec (raw_dispute S)) bytes >>= of_raw_disputes

  unfoldable pub decode_availability_cores : List ℕ → Option (List CoreOccupied)
  unfolding decode_all
  decode_availability_cores bytes = do
    raw ← decode_all (S.vec (raw_core_state S)) bytes
    some (map core_occupied raw)

  unfoldable pub decode_claim_queue : List ℕ → Option (List (ℕ × List ℕ))
  unfolding decode_all
  decode_claim_queue bytes = decode_all (S.vec (S.u32 ▸ S.vec S.u32)) bytes

  -- The groups, without the three numbers of `GroupRotationInfo`.
  unfoldable pub decode_validator_groups : List ℕ → Option (List (List ℕ))
  unfolding decode_all
  decode_validator_groups bytes = do
    (groups, _) ← decode_all (S.vec (S.vec S.u32) ▸ (S.u32 ▸ S.u32 ▸ S.u32)) bytes
    some groups

  unfoldable pub decode_session_index : List ℕ → Option ℕ
  unfolding decode_all
  decode_session_index bytes = decode_all S.u32 bytes

  abbrev pub raw_babe_epoch : Coder RawBabeEpoch
  raw_babe_epoch =
      struct
        (λ p. record {
          epoch_index = p.0;
          start_slot = p.1.0;
          duration = p.1.1.0;
          authorities = p.1.1.1.0;
          randomness = p.1.1.1.1;
        })
        (λ e. (e.epoch_index, (e.start_slot, (e.duration, (e.authorities, e.randomness)))))
        (S.u64 ▸ S.u64 ▸ S.u64 ▸ S.vec (S.bytes 32 ▸ S.u64) ▸ S.bytes 32)

  -- `decode`, so that bytes behind the randomness are ignored.
  unfoldable pub decode_babe_epoch : List ℕ → Option DecodedBabeEpoch
  decode_babe_epoch bytes = do
    (raw, _) ← raw_babe_epoch.decode bytes
    some (record { authorities = raw.authorities; randomness = raw.randomness })
