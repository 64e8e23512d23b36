-- ===== src/Collector/Import.antt =====
-- How essentials/src/collector/mod.rs imports a head: `process_new_head` and the two handlers that lead
-- to it.
use polkadot_introspector.Prelude.{
  ℕ, ◌-◌, Bool, true, false, Option, none, some, [], ◌∷◌, ◌++◌, ◌==◌, nat_eq, if◌then◌else◌, ltb,
  not,
}
use polkadot_introspector.Storage.Entry.{new_persistent}
use polkadot_introspector.Tracker.BlockInfo.{H256}
use polkadot_introspector.Tracker.Records.{
  to_be_bytes, account_keys, relay_block_header, relevant_finalized_block_number,
}
use polkadot_introspector.Tracker.Types.{Timestamp, Header}
use polkadot_introspector.Collector.Types.{
  Collector, CollectorState, CollectorUpdateEvent, CollectorSubscribeMode, executor_fatal,
  non_fatal, best, finalized,
}
use polkadot_introspector.Collector.Action.{
  Action, pure, fail, gets, or_fail, ◌>>=◌, ◌>>◌, modify_state, when, if_none,
  storage_read_prefixed, storage_write_prefixed, storage_delete_prefixed,
}
use polkadot_introspector.Collector.Broadcast.{update_state, broadcast_event}
use polkadot_introspector.Collector.Node.{Node}
use polkadot_introspector.Collector.Heads.{
  at_secs, write_onchain, write_hrmp_channels, write_parainherent_data, write_ts,
  write_occupied_cores, write_backing_groups, write_core_assignments, authors_missing_their_slots,
}

abbrev is_best : CollectorSubscribeMode → Bool
is_best best = true
is_best finalized = false

abbrev session_hash : ℕ → Collector → H256
session_hash session c = c.hash (to_be_bytes session)

unfoldable pub push_fork : H256 → CollectorState → CollectorState
push_fork block_hash s = record s {
  current_relay_chain_block_hashes = s.current_relay_chain_block_hashes ++ block_hash ∷ [];
}

unfoldable pub fork_or_refuse : H256 → Bool → Action (Unit {0})
unfolding push_fork
fork_or_refuse block_hash is_fork =
    if is_fork then modify_state (push_fork block_hash) else fail non_fatal

-- The removal's own result is ignored.
unfoldable pub remove_old_session : ℕ → Action (Unit {0})
unfolding storage_delete_prefixed
remove_old_session session = do
  key ← gets (session_hash (session - 2))
  _ ← storage_delete_prefixed account_keys key
  pure tt

unfoldable pub announce_session : ℕ → Action (Unit {0})
unfolding broadcast_event
announce_session session = do
  current ← gets (λ c. c.state.current_session_index)
  when (not (current == session)) (do
    modify_state (λ s. record s { current_session_index = session })
    broadcast_event (CollectorUpdateEvent.new_session session))

unfoldable pub write_relevant_finalized : H256 → ℕ → Timestamp → Action (Unit {0})
unfolding write_onchain
write_relevant_finalized block_hash block_number ts = do
  last_finalized ← gets (λ c. c.state.last_finalized_block_number)
  if_none last_finalized (pure tt) (
      write_onchain (λ c. c.number_codec) relevant_finalized_block_number block_hash
        (at_secs block_number ts))

-- The last finalized block only grows.
unfoldable pub finalize : ℕ → Option ℕ → Option ℕ
finalize block_number none = some block_number
finalize block_number (some n) = if ltb n block_number then some block_number else some n

module _ (node : Node) where
  unfoldable pub next_block : H256 → ℕ → Timestamp → Action (Unit {0})
  unfolding write_hrmp_channels update_state
  next_block block_hash block_number ts = do
    write_hrmp_channels node block_hash block_number ts
    update_state block_number block_hash

  -- The comparison with the block that is known.
  unfoldable pub advance : H256 → ℕ → Timestamp → Action (Unit {0})
  unfolding next_block fork_or_refuse
  advance block_hash block_number ts = do
    known ← gets (λ c. c.state.current_relay_chain_block_number)
    if ltb known block_number
        then next_block block_hash block_number ts
        else fork_or_refuse block_hash (known == block_number)

  -- The keys of a session that is not stored yet.
  unfoldable pub store_session : H256 → ℕ → Timestamp → ℕ → Action (Unit {0})
  unfolding storage_write_prefixed remove_old_session
  store_session block_hash block_number ts session = do
    key ← gets (session_hash session)
    found ← or_fail (node.get_session_account_keys session block_hash) executor_fatal
    accounts_keys ← or_fail found non_fatal
    codec ← gets (λ c. c.codecs)
    storage_write_prefixed account_keys key
        (new_persistent codec.keys_codec (at_secs block_number ts) accounts_keys)
    when (ltb 1 session) (remove_old_session session)

  unfoldable pub update_session_keys : H256 → ℕ → Timestamp → ℕ → Action (Unit {0})
  unfolding storage_read_prefixed store_session
  update_session_keys block_hash block_number ts session = do
    key ← gets (session_hash session)
    existing ← storage_read_prefixed account_keys key
    if_none existing (store_session block_hash block_number ts session) (λ entry. pure tt)

  unfoldable pub note_missing_authors : H256 → H256 → Action (Unit {0})
  unfolding authors_missing_their_slots
  note_missing_authors block_hash parent_hash = do
    authors ← authors_missing_their_slots node block_hash parent_hash
    modify_state
        (λ s. record s { authors_missing_their_slots = s.authors_missing_their_slots ++ authors })

  unfoldable pub process_new_head : H256 → Header → Timestamp → ℕ → Action (Unit {0})
  unfolding advance write_onchain update_session_keys announce_session write_parainherent_data
      write_ts write_occupied_cores write_backing_groups write_core_assignments note_missing_authors
  process_new_head block_hash header ts block_number = do
    advance block_hash block_number ts
    write_onchain (λ c. c.header_codec) relay_block_header block_hash (at_secs block_number ts)
        header
    session ← or_fail (node.get_session_index block_hash) executor_fatal
    update_session_keys block_hash block_number ts session
    announce_session session
    write_parainherent_data node block_hash block_number ts
    write_ts block_hash block_number ts
    write_occupied_cores node block_hash block_number ts
    write_backing_groups node block_hash block_number ts
    write_core_assignments node block_hash block_number ts
    note_missing_authors block_hash header.parent_hash

  unfoldable pub process_new_best_head : H256 → Header → Action (Unit {0})
  unfolding write_relevant_finalized process_new_head
  process_new_best_head block_hash header = do
    ts ← or_fail (node.get_block_timestamp block_hash) executor_fatal
    write_relevant_finalized block_hash header.number ts
    mode ← gets (λ c. c.subscribe_mode)
    when (is_best mode) (process_new_head block_hash header ts header.number)

  unfoldable pub process_new_finalized_head : H256 → Header → Action (Unit {0})
  unfolding finalize process_new_head
  process_new_finalized_head block_hash header = do
    ts ← or_fail (node.get_block_timestamp block_hash) executor_fatal
    modify_state (λ s. record s {
      last_finalized_block_number = finalize header.number s.last_finalized_block_number;
    })
    mode ← gets (λ c. c.subscribe_mode)
    when (not (is_best mode)) (process_new_head block_hash header ts header.number)
