-- ===== src/Collector/Tests.antt =====
-- The theorems on the collector at concrete inputs.
mod Sample
use polkadot_introspector.Prelude.{
  ℕ, ◌+◌, ◌*◌, ◌-◌, ◌≤◌, ◌<◌, ◌≡◌, ◌≢◌, inl, inr, refl, arith, Bool, true, false, ◌++◌, Option,
  none, some, List, [], ◌∷◌, ◌==◌, nat_eq, map, keep, length, All, any, and_then,
}
use polkadot_introspector.Storage.Entry.{
  Codec, StorageEntry, RecordType, new_onchain, with_ts, into_inner,
}
use polkadot_introspector.Storage.Prefixed
use polkadot_introspector.Storage.Prefixed.{Prefixed}
use polkadot_introspector.Prelude.Assoc.{lookup}
use polkadot_introspector.Tracker.BlockInfo.{H256}
use polkadot_introspector.Tracker.State.{option_beq}
use polkadot_introspector.Tracker.Records.{
  CollectorPrefixType, Codecs, candidate, candidates_parachains, dispute, prefix_beq, prefix_eq,
}
use polkadot_introspector.Tracker.Types.{
  CandidateInclusionRecord, CandidateRecord, CandidateDisputed, DisputeInfo, DisputeResult, Header,
  InherentData, SubxtDispute, SubxtDisputeResult, valid, invalid, timed_out,
}
use polkadot_introspector.Collector.Types.{
  Collector, CollectorState, CollectorSubscribeMode, CollectorUpdateEvent, ChainEvent,
  ChainSubscriptionEvent, Sender, SubxtCandidateEvent, SubxtCandidateEventType, TerminationReason,
}
use polkadot_introspector.Collector.Action.{Result}
use polkadot_introspector.Collector.Node.{Node}
use polkadot_introspector.Collector.Disputes.{
  DecodedDispute, conclusions_of, disputes_to_chain_events, initiated_disputes, concluded_disputes,
}
use polkadot_introspector.Collector.Broadcast.{new_head_of, update_state}
use polkadot_introspector.Collector.Candidates.{process_candidate_change}
use polkadot_introspector.Collector.Disputed.{process_dispute_concluded}
use polkadot_introspector.Collector.Record.{dispute_resolution_time, parachain_id}
use polkadot_introspector.Collector.Run.{Round, Input, fresh, run_with_consumer_channel}
use polkadot_introspector.Collector.Heights.{HeadsGrow, run-HeadsGrow}
use polkadot_introspector.Collector.Connected.{run-IsStuck}
use polkadot_introspector.Collector.Delivery.{delivered, head_told, IsFresh, update_state-delivers}
use polkadot_introspector.Collector.Ending.{EndsTold, run-ends}
use polkadot_introspector.Collector.Verdicts.{
  IsAbout, verdicts, disputes_to_chain_events-reads, conclusions_of-overlap,
}
use polkadot_introspector.Collector.Stored.{
  RoundTrips, stored_candidate, process_candidate_change-included,
}
use polkadot_introspector.Collector.Tests.Sample.{
  quiet_node, candidate_codec-RoundTrips, backed_record, the_dispute, the_info, with_channel,
  new_block,
}
use polkadot_introspector.Collector.Resolved.{
  stored_parachain, stored_dispute, process_dispute_concluded-resolves,
}

run-HeadsGrow_example :
    HeadsGrow
      (with_channel true)
      (run_with_consumer_channel quiet_node (new_block ∷ new_block ∷ []) (with_channel true)).1
run-HeadsGrow_example = run-HeadsGrow quiet_node (new_block ∷ new_block ∷ []) (with_channel true)

run-IsStuck_example :
    (run_with_consumer_channel quiet_node (new_block ∷ []) (with_channel false)
      ).1.state.current_relay_chain_block_number
    ≡ 3
unfolding any
run-IsStuck_example = run-IsStuck quiet_node (new_block ∷ []) (with_channel false) refl

update_state-delivers_example :
    let c = with_channel true in
    let after = update_state 4 10 c in
    (after.0 ≡ Result.done tt)
    × (after.1.subscribe_channels
        ≡ delivered
            (λ para_id. CollectorUpdateEvent.new_head (head_told c.state para_id))
            c.subscribe_channels)
    × IsFresh 4 10 after.1.state
unfolding any
update_state-delivers_example = update_state-delivers 4 10 (with_channel true) refl refl

run-ends_example :
    let after =
      run_with_consumer_channel quiet_node
        ((new_block ∷ []) ++ Input.shutdown ∷ [])
        (with_channel true) in
    (after.0 ≢ Round.next) × EndsTold after
run-ends_example =
    run-ends quiet_node (new_block ∷ []) Input.shutdown (with_channel true) (inr refl)

-- Four validators, of which three voted for and three against.
abbrev both_ways : DecodedDispute
both_ways = record {
  session = 5;
  candidate_hash = 40;
  validators_for = 0 ∷ 1 ∷ 2 ∷ [];
  validators_against = 1 ∷ 2 ∷ 3 ∷ [];
  validator_count = 4;
  start = 3;
  concluded_at = some 4;
}

disputes_to_chain_events-reads_example :
    let events = disputes_to_chain_events 10 4 (both_ways ∷ []) in
    All (IsAbout 10) events
    × (initiated_disputes events
        ≡ map
            (λ (d : DecodedDispute). d.candidate_hash)
            (keep (λ (d : DecodedDispute). d.start == 4) (both_ways ∷ [])))
    × (concluded_disputes events
        ≡ verdicts
            (keep (λ (d : DecodedDispute). option_beq d.concluded_at (some 4)) (both_ways ∷ [])))
disputes_to_chain_events-reads_example = disputes_to_chain_events-reads 10 4 (both_ways ∷ [])

conclusions_of-overlap_example :
    (6 ≤ 4 → length (conclusions_of 10 both_ways) ≤ 1)
    × (length (conclusions_of 10 both_ways) ≡ 2 → 4 < 3 * (6 - 4))
conclusions_of-overlap_example = conclusions_of-overlap 10 both_ways

abbrev inclusion : SubxtCandidateEvent
inclusion = record {
  candidate_hash = 40;
  relay_parent = 8;
  parachain_id = 7;
  event_type = SubxtCandidateEventType.included;
  core_idx = 0;
}

process_candidate_change-included_example :
    let after = process_candidate_change quiet_node inclusion 2000 (with_channel true) in
    (after.0 ≡ Result.done tt)
    × (stored_candidate 7 40 after.1
        ≡ some (record backed_record {
          candidate_inclusion = record backed_record.candidate_inclusion { included = some 3 };
        }))
    × (after.1.state.candidates_included ≡ 40 ∷ [])
unfolding Prefixed.get_prefix lookup into_inner prefix_beq
process_candidate_change-included_example =
    process_candidate_change-included quiet_node inclusion 2000 (with_channel true) backed_record
      refl refl candidate_codec-RoundTrips tt

process_dispute_concluded-resolves_example :
    let after = process_dispute_concluded the_dispute invalid 2000 (with_channel true) in
    (after.0 ≡ Result.done tt)
    × (and_then (stored_candidate 7 40 after.1) dispute_resolution_time ≡ some 0)
unfolding Prefixed.get_prefix lookup into_inner parachain_id prefix_beq
process_dispute_concluded-resolves_example =
    process_dispute_concluded-resolves the_dispute invalid 2000 (with_channel true) backed_record
      the_info refl refl refl candidate_codec-RoundTrips tt
