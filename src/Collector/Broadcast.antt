-- ===== src/Collector/Broadcast.antt =====
-- What the collector sends to its subscribers: `update_state`, `broadcast_event` and `terminate`.
use polkadot_introspector.Prelude.{
  ℕ, Bool, true, false, List, [], ◌∷◌, ◌++◌, nat_eq, if◌then◌else◌, keep, ltb, is_some, unwrap_or,
  not, map, map_option, sub32,
}
use polkadot_introspector.Prelude.Assoc.{lookup, insert, keys, map_values}
use polkadot_introspector.Tracker.BlockInfo.{H256}
use polkadot_introspector.Tracker.Types.{DisputeInfo}
use polkadot_introspector.Collector.Action.{Action, Result, ◌>>◌, modify}
use polkadot_introspector.Collector.Types.{
  Collector, CollectorState, CollectorError, CollectorUpdateEvent, Sender, TerminationReason,
}

-- `send`: the message is sent if the receiver is there.
unfoldable pub send : {M : Type 0} → M → Sender M → Sender M × Bool
send m s = (if s.connected then record s { messages = s.messages ++ m ∷ [] } else s, s.connected)

-- `send_priority`, of which the collector ignores the error
unfoldable pub send_priority : {M : Type 0} → M → Sender M → Sender M
send_priority m s =
    if s.connected then record s { priority_messages = s.priority_messages ++ m ∷ [] } else s

-- A loop that goes on after a channel if it was sent to, with what the rest of it gives, and else ends
-- with the channels that are left.
abbrev pub go_on {ℓ} : {X : Type ℓ} → Bool → X → List X × Bool → List X → List X × Bool
go_on true x rest left = (x ∷ rest.0, rest.1)
go_on false x rest left = (x ∷ left, false)

-- One message after the other to one list of channels; the first channel that is gone ends the loop.
unfoldable pub send_each : {M : Type 0} → M → List (Sender M) → List (Sender M) × Bool
unfolding send
send_each m [] = ([], true)
send_each m (s ∷ channels) =
    let (s', sent) = send m s in let rest = send_each m channels in go_on sent s' rest channels

-- The message may differ for each parachain.
unfoldable pub send_by_para :
    {M : Type 0} → (ℕ → M) → List (ℕ × List (Sender M)) → List (ℕ × List (Sender M)) × Bool
unfolding send_each
send_by_para m [] = ([], true)
send_by_para m ((para_id, channels) ∷ paras) =
    let (channels', sent) = send_each (m para_id) channels in
    let rest = send_by_para m paras in go_on sent (para_id, channels') rest paras

-- `dispute_info.concluded.is_some()`, in the list of a parachain
unfoldable pub disputes_concluded_of : CollectorState → ℕ → List DisputeInfo
disputes_concluded_of s para_id =
    unwrap_or
      (map_option (keep (λ (d : DisputeInfo). is_some d.concluded))
        (lookup para_id s.disputes_seen))
      []

-- The update of one parachain. The authors are told to its own subscribers alone.
unfoldable pub new_head_of : CollectorState → List ℕ → ℕ → CollectorUpdateEvent
unfolding disputes_concluded_of
new_head_of s authors para_id = CollectorUpdateEvent.new_head (record {
  relay_parent_number = s.current_relay_chain_block_number;
  relay_parent_hashes = s.current_relay_chain_block_hashes;
  para_id = para_id;
  candidates_seen = unwrap_or (lookup para_id s.candidates_seen) [];
  candidates_backed = s.candidates_backed;
  candidates_included = s.candidates_included;
  candidates_timed_out = s.candidates_timed_out;
  disputes_concluded = disputes_concluded_of s para_id;
  authors_missing_their_slots = authors;
})

-- `paras_seen.insert` for every parachain with a candidate
unfoldable pub mark_seen : List ℕ → ℕ → List (ℕ × ℕ) → List (ℕ × ℕ)
mark_seen [] block_number paras = paras
mark_seen (para_id ∷ para_ids) block_number paras =
    mark_seen para_ids block_number (insert para_id block_number paras)

-- The parachains that were not seen for too long are removed.
unfoldable pub evict : ℕ → ℕ → List (ℕ × ℕ) → List (ℕ × ℕ)
evict block_number max_stall paras =
    keep (λ (p : ℕ × ℕ). not (ltb max_stall (sub32 block_number p.1))) paras

unfoldable pub refresh_paras : ℕ → CollectorState → CollectorState
unfolding mark_seen evict
refresh_paras max_stall s = record s {
  paras_seen =
      evict s.current_relay_chain_block_number max_stall
        (mark_seen (keys s.candidates_seen) s.current_relay_chain_block_number s.paras_seen);
}

-- One channel gets the updates of all parachains.
unfoldable pub send_heads :
    (ℕ → CollectorUpdateEvent)
    → List ℕ
    → Sender CollectorUpdateEvent
    → Sender CollectorUpdateEvent × Bool
unfolding send
send_heads m [] s = (s, true)
send_heads m (para_id ∷ para_ids) s =
    let (s', sent) = send (m para_id) s in
    let rest = send_heads m para_ids s' in if sent then rest else (s', false)

-- The same for the loop over the broadcast channels, which also changes the state.
abbrev pub Broadcast : Type 0
Broadcast = List (Sender CollectorUpdateEvent) × CollectorState × Bool

abbrev pub go_on_with :
    Bool
    → Sender CollectorUpdateEvent
    → Broadcast
    → List (Sender CollectorUpdateEvent)
    → CollectorState
    → Broadcast
go_on_with true b rest left s = (b ∷ rest.0, rest.1, rest.2)
go_on_with false b rest left s = (b ∷ left, s, false)

-- The loop over the broadcast channels; each round refreshes the parachains seen.
unfoldable pub send_broadcasts : ℕ → List (Sender CollectorUpdateEvent) → CollectorState → Broadcast
unfolding refresh_paras send_heads
send_broadcasts max_stall [] s = ([], s, true)
send_broadcasts max_stall (b ∷ channels) s =
    let s' = refresh_paras max_stall s in
    let (b', sent) = send_heads (new_head_of s' []) (keys s'.paras_seen) b in
    let rest = send_broadcasts max_stall channels s' in go_on_with sent b' rest channels s'

-- What is cleared for the next block.
unfoldable pub reset_state : ℕ → H256 → CollectorState → CollectorState
reset_state block_number block_hash s = record s {
  candidates_seen = [];
  candidates_backed = [];
  candidates_included = [];
  candidates_timed_out = [];
  disputes_seen = [];
  authors_missing_their_slots = [];
  current_relay_chain_block_number = block_number;
  current_relay_chain_block_hashes = block_hash ∷ [];
}

-- A channel that is gone is an error that does not end the collector.
abbrev pub sent_or_fail : Bool → Action (Unit {0})
sent_or_fail true c = (Result.done tt, c)
sent_or_fail false c = (Result.failed CollectorError.non_fatal, c)

unfoldable pub tell_subscribers : Action (Unit {0})
unfolding send_by_para new_head_of
tell_subscribers c =
    let (channels, sent) =
      send_by_para (new_head_of c.state c.state.authors_missing_their_slots) c.subscribe_channels in
    sent_or_fail sent (record c { subscribe_channels = channels })

unfoldable pub tell_broadcasts : Action (Unit {0})
unfolding send_broadcasts
tell_broadcasts c =
    let (channels, s, sent) = send_broadcasts c.max_parachain_stall c.broadcast_channels c.state in
    sent_or_fail sent (record c { broadcast_channels = channels; state = s })

unfoldable pub update_state : ℕ → H256 → Action (Unit {0})
unfolding tell_subscribers tell_broadcasts reset_state
update_state block_number block_hash = do
  tell_subscribers
  tell_broadcasts
  modify (λ c. record c { state = reset_state block_number block_hash c.state })

-- The broadcast channels are told if every subscriber was.
abbrev pub told_subscribers : Bool → List (Sender CollectorUpdateEvent) × Bool → Action (Unit {0})
told_subscribers true (channels, sent) c =
    sent_or_fail sent (record c { broadcast_channels = channels })
told_subscribers false r c = (Result.failed CollectorError.non_fatal, c)

unfoldable pub broadcast_event : CollectorUpdateEvent → Action (Unit {0})
unfolding send_by_para send_each
broadcast_event event c =
    let (paras, told) = send_by_para (λ para_id. event) c.subscribe_channels in
    told_subscribers told (send_each event c.broadcast_channels)
      (record c { subscribe_channels = paras })

unfoldable pub broadcast_event_priority : CollectorUpdateEvent → Collector → Collector
unfolding send_priority
broadcast_event_priority event c = record c {
  subscribe_channels = map_values (map (send_priority event)) c.subscribe_channels;
  broadcast_channels = map (send_priority event) c.broadcast_channels;
}

unfoldable pub terminate : TerminationReason → Collector → Collector
unfolding broadcast_event_priority
terminate reason = broadcast_event_priority (CollectorUpdateEvent.terminated reason)
