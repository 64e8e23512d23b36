-- ===== src/Tracker/Inject.antt =====
-- parachain-tracer/src/tracker.rs: `inject_block`, the `set_*` methods that it calls for the cores,
-- the disputes, the channels and the availability, and `maybe_reset_state`.
use polkadot_introspector.Prelude.{
  ℕ, Bool, true, false, not, ◌&&◌, Option, none, some, List, [], ◌∷◌, ◌++◌, ◌==◌, nat_eq,
  if◌then◌else◌, unwrap_or, length, get_elem?, keep, Outcome, ok, ◌>>=◌, expect, as_u32,
}
use polkadot_introspector.Prelude.Assoc.{keys, map_values}
use polkadot_introspector.Tracker.BlockInfo.{H256, set_pending, set_availability, is_backed}
use polkadot_introspector.Tracker.Disputes.{extract_availability_bits_count, new_dispute}
use polkadot_introspector.Tracker.Queues.{set_hrmp_channels}
use polkadot_introspector.Tracker.Records.{
  TrackerStorage, session_keys, inherent_data_of, dispute_of, occupied_cores_of,
  inbound_outbound_hrmp_channels_of,
}
use polkadot_introspector.Tracker.State.{
  SubxtTracker, Slots, current_candidate, is_current_candidate_backed, is_just_backed, is_active,
}
use polkadot_introspector.Tracker.Types.{
  AvailabilityBitfield, CoreOccupied, occupied, DisputeInfo, DisputeStatementSet, DisputesTracker,
  InherentData, NewHeadEvent,
}
use polkadot_introspector.Tracker.Blocks.{
  modify_current, set_relay_block, set_forks, set_cores, validators_indices,
}
use polkadot_introspector.Tracker.Inclusion.{set_included_candidates}
use polkadot_introspector.Tracker.Backing.{set_backed_candidates, set_dropped_candidates}

abbrev pub is_occupied : CoreOccupied → Bool
is_occupied occupied = true
is_occupied _ = false

-- One round of `set_core_assignment`; an index out of range panics.
unfoldable pub assign_core : SubxtTracker → H256 → TrackerStorage → ℕ → Outcome SubxtTracker
unfolding current_candidate modify_current
assign_core t block_hash st core = elim (current_candidate t core) [
  | none ↦ ok t
  | some c ↦
      if is_backed c
      then (do
        stored ← occupied_cores_of st block_hash
        states ← expect stored
        state ← expect (get_elem? states core)
        ok (modify_current core (λ c. record c { core_occupied = is_occupied state }) t))
      else ok t
]

unfoldable pub assign_cores : SubxtTracker → H256 → TrackerStorage → List ℕ → Outcome SubxtTracker
unfolding assign_core
assign_cores t block_hash st [] = ok t
assign_cores t block_hash st (core ∷ cores) = do
  t' ← assign_core t block_hash st core
  assign_cores t' block_hash st cores

unfoldable pub set_core_assignment : SubxtTracker → H256 → TrackerStorage → Outcome SubxtTracker
unfolding assign_cores
set_core_assignment t block_hash st = assign_cores t block_hash st (keys t.cores)

-- `inherent_disputes.iter().find(..)`
unfoldable pub find_dispute : H256 → List DisputeStatementSet → Option DisputeStatementSet
find_dispute hash [] = none
find_dispute hash (d ∷ ds) = if d.candidate_hash == hash then some d else find_dispute hash ds

-- What one concluded dispute adds; a dispute that is missing or not resolved adds nothing, and one
-- with an outcome and no block of conclusion panics.
unfoldable pub conclude_dispute :
    List DisputeStatementSet
    → TrackerStorage
    → DisputeInfo
    → List DisputesTracker
    → Outcome (List DisputesTracker)
unfolding find_dispute
conclude_dispute inherent_disputes st concluded_dispute disputes =
    elim (find_dispute concluded_dispute.dispute.candidate_hash inherent_disputes) [
      | none ↦ ok disputes
      | some info ↦ (do
        stored ← dispute_of st info.candidate_hash
        elim stored [
          | none ↦ ok disputes
          | some d ↦ elim d.outcome [
            | none ↦ ok disputes
            | some outcome ↦ (do
              concluded ← expect d.concluded
              keys ← session_keys st info.session
              initiators_keys ← session_keys st d.session_index
              ok (
                  disputes
                  ++ new_dispute info outcome d.initiated d.initiator_indices concluded keys
                      initiators_keys
                    ∷ []))
          ]
        ])
    ]

unfoldable pub conclude_disputes :
    List DisputeStatementSet
    → TrackerStorage
    → List DisputeInfo
    → List DisputesTracker
    → Outcome (List DisputesTracker)
unfolding conclude_dispute
conclude_disputes inherent_disputes st [] disputes = ok disputes
conclude_disputes inherent_disputes st (d ∷ ds) disputes = do
  disputes' ← conclude_dispute inherent_disputes st d disputes
  conclude_disputes inherent_disputes st ds disputes'

unfoldable pub set_disputes :
    SubxtTracker
    → List DisputeStatementSet
    → List DisputeInfo
    → TrackerStorage
    → Outcome SubxtTracker
unfolding conclude_disputes
set_disputes t inherent_disputes concluded_disputes st = do
  disputes ← conclude_disputes inherent_disputes st concluded_disputes []
  ok (record t { disputes = disputes })

unfoldable pub set_channels : SubxtTracker → H256 → TrackerStorage → Outcome SubxtTracker
set_channels t block_hash st = do
  stored ← inbound_outbound_hrmp_channels_of st block_hash
  let (inbound, outbound) = unwrap_or stored ([], [])
  ok (record t { message_queues = set_hrmp_channels t.message_queues inbound outbound })

-- One round of the loop in `set_pending_availability`.
unfoldable pub await_core : SubxtTracker → List AvailabilityBitfield → ℕ → ℕ → Outcome SubxtTracker
unfolding is_current_candidate_backed is_just_backed modify_current
await_core t bitfields max core =
    if is_current_candidate_backed t core && not (is_just_backed t)
    then (do
      bits ← extract_availability_bits_count bitfields core
      ok (
          modify_current core
            (λ c. set_availability (record { current = bits; max = max }) (set_pending c)) t))
    else ok t

unfoldable pub await_cores :
    SubxtTracker → List AvailabilityBitfield → ℕ → List ℕ → Outcome SubxtTracker
unfolding await_core
await_cores t bitfields max [] = ok t
await_cores t bitfields max (core ∷ cores) = do
  t' ← await_core t bitfields max core
  await_cores t' bitfields max cores

unfoldable pub set_pending_availability :
    SubxtTracker → H256 → List AvailabilityBitfield → TrackerStorage → Outcome SubxtTracker
unfolding await_cores
set_pending_availability t block_hash bitfields st = do
  validators ← validators_indices block_hash st
  await_cores t bitfields (as_u32 (length validators)) (keys t.cores)

-- The block with its inherent data.
unfoldable pub inject_inherent :
    SubxtTracker → H256 → NewHeadEvent → InherentData → TrackerStorage → Outcome SubxtTracker
unfolding set_relay_block set_forks set_cores set_included_candidates set_backed_candidates
    set_core_assignment set_disputes set_channels set_pending_availability set_dropped_candidates
inject_inherent t block_hash new_head inherent st = do
  let block_number = new_head.relay_parent_number
  t₁ ← set_relay_block t block_hash block_number st
  t₂ ← set_cores (set_forks t₁ block_hash block_number) block_hash st
  t₃ ← set_included_candidates t₂ block_hash new_head.candidates_included inherent.bitfields st
  t₄ ←
      set_core_assignment (set_backed_candidates t₃ block_number new_head.candidates_backed)
        block_hash st
  t₅ ← set_disputes t₄ inherent.disputes new_head.disputes_concluded st
  t₆ ← set_channels t₅ block_hash st
  t₇ ← set_pending_availability t₆ block_hash inherent.bitfields st
  ok (set_dropped_candidates t₇)

-- A block whose inherent data is not stored is passed over.
unfoldable pub inject_block :
    SubxtTracker → H256 → NewHeadEvent → TrackerStorage → Outcome SubxtTracker
unfolding inject_inherent
inject_block t block_hash new_head st = do
  stored ← inherent_data_of st block_hash
  elim stored [ none ↦ ok t | some inherent ↦ inject_inherent t block_hash new_head inherent st ]

-- `self.candidates.retain(|_, v| !v.is_empty())`
unfoldable pub retain_filled : List (ℕ × Slots) → List (ℕ × Slots)
retain_filled [] = []
retain_filled ((core, []) ∷ rest) = retain_filled rest
retain_filled ((core, c ∷ slots) ∷ rest) = (core, c ∷ slots) ∷ retain_filled rest

unfoldable pub maybe_reset_state : SubxtTracker → SubxtTracker
unfolding retain_filled
maybe_reset_state t = record t {
  new_session = none;
  disputes = [];
  candidates = retain_filled (map_values (keep is_active) t.candidates);
}
