-- ===== src/Collector/Disputed.antt =====
-- A dispute that is initiated or concluded: `process_dispute_initiated` and `process_dispute_concluded` of
-- essentials/src/collector/mod.rs, with what they read.
use polkadot_introspector.Prelude.{
  ℕ, Bool, true, false, Option, none, some, List, [], ◌∷◌, ◌++◌, ◌==◌, nat_eq, if◌then◌else◌,
  unwrap_or, keep, map,
}
use polkadot_introspector.Prelude.Assoc.{lookup, insert}
use polkadot_introspector.Storage.Entry.{StorageEntry, with_ts, new_onchain, into_inner}
use polkadot_introspector.Tracker.BlockInfo.{H256}
use polkadot_introspector.Tracker.Records.{candidate, candidates_parachains, inherent_data, dispute}
use polkadot_introspector.Tracker.Types.{
  CandidateRecord, DisputeInfo, DisputeStatement, DisputeStatementSet, SubxtDispute,
  SubxtDisputeResult, valid_statement, invalid_statement,
}
use polkadot_introspector.Collector.Types.{
  CollectorState, WebSocketEventType, WebSocketUpdateEvent, non_fatal,
}
use polkadot_introspector.Collector.Action.{
  Action, pure, gets, or_fail, or_panic, ◌>>=◌, ◌>>◌, modify_state, if_none, storage_read_prefixed,
  storage_replace_prefixed,
}
use polkadot_introspector.Collector.Heads.{write_onchain}
use polkadot_introspector.Collector.Candidates.{tell_websocket, replace_candidate}
use polkadot_introspector.Collector.Record.{parachain_id}

-- A record that does not decode is a panic here.
unfoldable pub candidate_of_para : H256 → ℕ → Action (Option CandidateRecord)
unfolding storage_read_prefixed into_inner
candidate_of_para candidate_hash para_id = do
  found ← storage_read_prefixed (candidate para_id) candidate_hash
  codecs ← gets (λ c. c.codecs)
  if_none found (pure none)
      (λ entry. do value ← or_panic (into_inner codecs.candidate_codec entry); pure (some value))

unfoldable pub find_candidate_by_hash : H256 → Action (Option CandidateRecord)
unfolding storage_read_prefixed into_inner candidate_of_para
find_candidate_by_hash candidate_hash = do
  found ← storage_read_prefixed candidates_parachains candidate_hash
  codecs ← gets (λ c. c.codecs)
  if_none found (pure none) (λ entry. do
    para_id ← or_panic (into_inner codecs.number_codec entry)
    candidate_of_para candidate_hash para_id)

abbrev is_invalid : DisputeStatement × ℕ → Bool
is_invalid (valid_statement k, i) = false
is_invalid (invalid_statement k, i) = true

-- The first set of statements about the candidate, or the default.
unfoldable pub initiators_in : H256 → List ℕ × ℕ → List DisputeStatementSet → List ℕ × ℕ
initiators_in candidate_hash default [] = default
initiators_in candidate_hash default (d ∷ disputes) =
    let later = initiators_in candidate_hash default disputes in
    if d.candidate_hash == candidate_hash
    then (map (λ (s : DisputeStatement × ℕ). s.1) (keep is_invalid d.statements), d.session)
    else later

unfoldable pub extract_dispute_initiators : SubxtDispute → Action (List ℕ × ℕ)
unfolding storage_read_prefixed into_inner initiators_in
extract_dispute_initiators event = do
  session ← gets (λ c. c.state.current_session_index)
  found ← storage_read_prefixed inherent_data event.relay_parent_block
  codecs ← gets (λ c. c.codecs)
  if_none found (pure ([], session)) (λ entry. do
    inherent ← or_fail (into_inner codecs.inherent_codec entry) non_fatal
    pure (initiators_in event.candidate_hash ([], session) inherent.disputes))

-- `disputes_seen.entry(para_id).or_default().push(dispute_info)`
unfoldable pub see_dispute : ℕ → DisputeInfo → CollectorState → CollectorState
see_dispute para_id info s = record s {
  disputes_seen =
      insert para_id (unwrap_or (lookup para_id s.disputes_seen) [] ++ info ∷ []) s.disputes_seen;
}

abbrev pub dispute_update : SubxtDispute → ℕ → ℕ → WebSocketEventType → WebSocketUpdateEvent
dispute_update of para_id now event = record {
  candidate_hash = of.candidate_hash;
  parachain_id = para_id;
  ts = now;
  event = event;
}

-- `DisputeInfo` of a dispute that is initiated
abbrev pub new_info : SubxtDispute → ℕ → ℕ → List ℕ × ℕ → DisputeInfo
new_info event para_id block_number initiators = record {
  initiated = block_number;
  initiator_indices = initiators.0;
  session_index = initiators.1;
  dispute = event;
  parachain_id = para_id;
  outcome = none;
  concluded = none;
}

unfoldable pub process_dispute_initiated : SubxtDispute → ℕ → Action (Unit {0})
unfolding find_candidate_by_hash parachain_id extract_dispute_initiators tell_websocket see_dispute
    write_onchain replace_candidate
process_dispute_initiated event now = do
  found ← find_candidate_by_hash event.candidate_hash
  record_of ← or_fail found non_fatal
  block_number ← gets (λ c. c.state.current_relay_chain_block_number)
  let para_id = parachain_id record_of
  initiators ← extract_dispute_initiators event
  tell_websocket (
      dispute_update event para_id now
        (WebSocketEventType.dispute_initiated event.relay_parent_block))
  let info = new_info event para_id block_number initiators
  modify_state (see_dispute para_id info)
  write_onchain (λ c. c.dispute_codec) (dispute para_id) event.candidate_hash
      (with_ts block_number now) info
  replace_candidate para_id event.candidate_hash block_number now (record record_of {
    candidate_disputed = some (record { disputed = block_number; concluded = none });
  })

-- The dispute's own record is changed if it is there.
unfoldable pub conclude_info :
    SubxtDispute → SubxtDisputeResult → ℕ → ℕ → ℕ → Option StorageEntry → Action (Unit {0})
unfolding into_inner see_dispute storage_replace_prefixed
conclude_info event result para_id block_number now none = pure tt
conclude_info event result para_id block_number now (some entry) = do
  codecs ← gets (λ c. c.codecs)
  info ← or_fail (into_inner codecs.dispute_codec entry) non_fatal
  let info' = record info { outcome = some result; concluded = some block_number }
  modify_state (see_dispute para_id info')
  storage_replace_prefixed (dispute para_id) event.candidate_hash
      (new_onchain codecs.dispute_codec (with_ts block_number now) info')

-- What the record of a candidate becomes when its dispute concludes.
unfoldable pub concluded_record : SubxtDisputeResult → ℕ → CandidateRecord → CandidateRecord
concluded_record result block_number r = record r {
  candidate_disputed = some (record {
    disputed = block_number;
    concluded = some (record { outcome = result; concluded_block = block_number });
  });
}

unfoldable pub process_dispute_concluded : SubxtDispute → SubxtDisputeResult → ℕ → Action (Unit {0})
unfolding find_candidate_by_hash parachain_id tell_websocket storage_read_prefixed conclude_info
    concluded_record replace_candidate
process_dispute_concluded event result now = do
  found ← find_candidate_by_hash event.candidate_hash
  record_of ← or_fail found non_fatal
  block_number ← gets (λ c. c.state.current_relay_chain_block_number)
  let para_id = parachain_id record_of
  tell_websocket (
      dispute_update event para_id now
        (WebSocketEventType.dispute_concluded event.relay_parent_block result))
  entry ← storage_read_prefixed (dispute para_id) event.candidate_hash
  conclude_info event result para_id block_number now entry
  replace_candidate para_id event.candidate_hash block_number now
      (concluded_record result block_number record_of)
