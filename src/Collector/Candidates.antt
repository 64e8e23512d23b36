-- ===== src/Collector/Candidates.antt =====
-- A candidate that is backed, included or timed out: `process_candidate_change` and
-- `read_or_fetch_header` of essentials/src/collector/mod.rs. `now` is the clock, in milliseconds.
use polkadot_introspector.Prelude.{
  ℕ, ◌-◌, Bool, Option, none, some, [], ◌∷◌, ◌++◌, nat_eq, if◌then◌else◌, unwrap_or, map_option,
}
use polkadot_introspector.Prelude.Assoc.{lookup, insert}
use polkadot_introspector.Storage.Entry.{StorageEntry, with_ts, new_onchain, into_inner}
use polkadot_introspector.Tracker.BlockInfo.{H256}
use polkadot_introspector.Tracker.Records.{candidate, relay_block_header, candidates_parachains}
use polkadot_introspector.Tracker.Types.{CandidateRecord, Header}
use polkadot_introspector.Collector.Types.{
  CollectorState, Sender, SubxtCandidateEvent, SubxtCandidateEventType, backed, included, timed_out,
  WebSocketEventType, WebSocketUpdateEvent, executor_fatal, non_fatal, send_fatal,
}
use polkadot_introspector.Collector.Action.{
  Action, Result, pure, gets, or_fail, ◌>>=◌, ◌>>◌, modify_state, if_none, storage_read_prefixed,
  storage_replace_prefixed,
}
use polkadot_introspector.Collector.Broadcast.{send}
use polkadot_introspector.Collector.Node.{Node}
use polkadot_introspector.Collector.Heads.{at_secs, write_onchain}

abbrev pub sent_to : Sender WebSocketUpdateEvent × Bool → Action (Unit {0})
sent_to (s, sent) c =
    (if sent then Result.done tt else Result.failed send_fatal, record c { to_websocket = some s })

abbrev pub told : Option (Sender WebSocketUpdateEvent) → WebSocketUpdateEvent → Action (Unit {0})
told none event = pure tt
told (some s) event = sent_to (send event s)

-- `if let Some(to_websocket) = self.to_websocket.as_mut()`
unfoldable pub tell_websocket : WebSocketUpdateEvent → Action (Unit {0})
unfolding send
tell_websocket event c = told c.to_websocket event c

-- `candidates_seen.entry(para_id).or_default().push(candidate_hash)`
unfoldable pub see_candidate : ℕ → H256 → CollectorState → CollectorState
see_candidate para_id candidate_hash s = record s {
  candidates_seen =
      insert para_id (unwrap_or (lookup para_id s.candidates_seen) [] ++ candidate_hash ∷ [])
        s.candidates_seen;
}

-- `storage_replace_prefixed` of a candidate's record
unfoldable pub replace_candidate : ℕ → H256 → ℕ → ℕ → CandidateRecord → Action (Unit {0})
unfolding storage_replace_prefixed
replace_candidate para_id candidate_hash block_number now value c =
    storage_replace_prefixed (candidate para_id) candidate_hash
      (new_onchain c.codecs.candidate_codec (with_ts block_number now) value) c

-- `known_candidate.into_inner()?`
unfoldable pub decode_candidate : StorageEntry → Action CandidateRecord
unfolding into_inner
decode_candidate entry = do
  codecs ← gets (λ c. c.codecs)
  or_fail (into_inner codecs.candidate_codec entry) non_fatal

-- `CandidateRecord` of a candidate that is backed
abbrev pub new_record : SubxtCandidateEvent → Header → ℕ → ℕ → CandidateRecord
new_record event relay_parent block_number now = record {
  candidate_first_seen = now;
  candidate_inclusion = record {
    parachain_id = event.parachain_id;
    backed = block_number;
    included = none;
    timedout = none;
    core_idx = event.core_idx;
    relay_parent = event.relay_parent;
    relay_parent_number = relay_parent.number;
  };
  candidate_disputed = none;
}

abbrev pub included_at : ℕ → CandidateRecord → CandidateRecord
included_at n r = record r {
  candidate_inclusion = record r.candidate_inclusion { included = some n };
}

abbrev pub timed_out_at : ℕ → CandidateRecord → CandidateRecord
timed_out_at n r = record r {
  candidate_inclusion = record r.candidate_inclusion { timedout = some n };
}

abbrev pub update_of : SubxtCandidateEvent → ℕ → WebSocketEventType → WebSocketUpdateEvent
update_of e now event = record {
  candidate_hash = e.candidate_hash;
  parachain_id = e.parachain_id;
  ts = now;
  event = event;
}

unfoldable pub process_included : SubxtCandidateEvent → ℕ → StorageEntry → Action (Unit {0})
unfolding decode_candidate tell_websocket see_candidate replace_candidate
process_included event now entry = do
  block_number ← gets (λ c. c.state.current_relay_chain_block_number)
  known ← decode_candidate entry
  tell_websocket
      (update_of event now (WebSocketEventType.included (now - known.candidate_first_seen)))
  modify_state (see_candidate event.parachain_id event.candidate_hash)
  modify_state
      (λ s. record s { candidates_included = s.candidates_included ++ event.candidate_hash ∷ [] })
  replace_candidate event.parachain_id event.candidate_hash block_number now
      (included_at block_number known)

unfoldable pub process_timed_out : SubxtCandidateEvent → ℕ → StorageEntry → Action (Unit {0})
unfolding decode_candidate tell_websocket see_candidate replace_candidate
process_timed_out event now entry = do
  known ← decode_candidate entry
  block_number ← gets (λ c. c.state.current_relay_chain_block_number)
  tell_websocket
      (update_of event now (WebSocketEventType.timed_out (now - known.candidate_first_seen)))
  modify_state (see_candidate event.parachain_id event.candidate_hash)
  modify_state
      (λ s. record s { candidates_timed_out = s.candidates_timed_out ++ event.candidate_hash ∷ [] })
  replace_candidate event.parachain_id event.candidate_hash block_number now
      (timed_out_at block_number known)

module _ (node : Node) where
  unfoldable pub store_header : H256 → Header → Action (Option Header)
  unfolding write_onchain
  store_header block_hash header = do
    ts ← or_fail (node.get_block_timestamp block_hash) executor_fatal
    write_onchain (λ c. c.header_codec) relay_block_header block_hash (at_secs header.number ts)
        header
    pure (some header)

  -- The header that the node has is stored for the next time.
  unfoldable pub fetch_header : H256 → Action (Option Header)
  unfolding store_header
  fetch_header block_hash = do
    found ← or_fail (node.get_block_head block_hash) executor_fatal
    if_none found (pure none) (store_header block_hash)

  unfoldable pub read_or_fetch_header : H256 → Action (Option Header)
  unfolding storage_read_prefixed fetch_header into_inner
  read_or_fetch_header block_hash = do
    stored ← storage_read_prefixed relay_block_header block_hash
    codecs ← gets (λ c. c.codecs)
    if_none stored (fetch_header block_hash)
        (λ entry. or_fail (map_option some (into_inner codecs.header_codec entry)) non_fatal)

  unfoldable pub store_backed : SubxtCandidateEvent → ℕ → Action (Unit {0})
  unfolding write_onchain read_or_fetch_header see_candidate tell_websocket
  store_backed event now = do
    block_number ← gets (λ c. c.state.current_relay_chain_block_number)
    write_onchain (λ c. c.number_codec) candidates_parachains event.candidate_hash
        (with_ts block_number now) event.parachain_id
    found ← read_or_fetch_header event.relay_parent
    relay_parent ← or_fail found non_fatal
    write_onchain (λ c. c.candidate_codec) (candidate event.parachain_id) event.candidate_hash
        (with_ts block_number now) (new_record event relay_parent block_number now)
    modify_state (see_candidate event.parachain_id event.candidate_hash)
    modify_state (λ s. record s {
      candidates_backed =
          s.candidates_backed
          ++ record {
            candidate_hash = event.candidate_hash;
            core_idx = event.core_idx;
            para_id = event.parachain_id;
          }
            ∷ [];
    })
    tell_websocket (update_of event now WebSocketEventType.backed)

  unfoldable pub change_candidate :
      SubxtCandidateEvent → ℕ → SubxtCandidateEventType → Option StorageEntry → Action (Unit {0})
  unfolding decode_candidate store_backed process_included process_timed_out
  change_candidate event now backed known =
      if_none known (store_backed event now) (λ entry. do _ ← decode_candidate entry; pure tt)
  change_candidate event now included known = if_none known (pure tt) (process_included event now)
  change_candidate event now timed_out known = if_none known (pure tt) (process_timed_out event now)

  -- A candidate that is stored already is decoded for the log alone.
  unfoldable pub process_candidate_change : SubxtCandidateEvent → ℕ → Action (Unit {0})
  unfolding storage_read_prefixed change_candidate
  process_candidate_change event now = do
    known ← storage_read_prefixed (candidate event.parachain_id) event.candidate_hash
    change_candidate event now event.event_type known
