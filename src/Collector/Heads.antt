-- ===== src/Collector/Heads.antt =====
-- A new head in essentials/src/collector/mod.rs: the handlers of best and of finalized heads, what they
-- write for the trackers, and the change of session.
use polkadot_introspector.Prelude.{
  ℕ, zero, suc, ◌+◌, ◌-◌, ◌*◌, ◌%◌, Option, none, some, List, [], ◌∷◌, ◌++◌, nat_eq, if◌then◌else◌,
  length, ltb, get_elem?,
}
use polkadot_introspector.Prelude.Assoc.{keys}
use polkadot_introspector.Storage.Entry.{RecordTime, Codec, with_ts, new_onchain}
use polkadot_introspector.Tracker.BlockInfo.{H256}
use polkadot_introspector.Tracker.Queues.{Channels}
use polkadot_introspector.Tracker.Records.{
  CollectorPrefixType, Codecs, inbound_outbound_hrmp_channels, inherent_data, timestamp,
  occupied_cores, backing_groups, core_assignments,
}
use polkadot_introspector.Tracker.Types.{AccountId32, Timestamp}
use polkadot_introspector.Collector.Types.{Collector, executor_fatal, non_fatal}
use polkadot_introspector.Collector.Action.{
  Action, pure, gets, or_fail, or_panic, ◌>>=◌, ◌>>◌, when, storage_write_prefixed,
}
use polkadot_introspector.Collector.Node.{Node}

-- `RecordTime::with_ts(block_number, Duration::from_secs(ts))`
abbrev pub at_secs : ℕ → Timestamp → RecordTime
at_secs block_number ts = with_ts block_number (ts * 1000)

-- `storage_write_prefixed` with `StorageEntry::new_onchain`
unfoldable pub write_onchain :
    {T : Type 0}
    → (Codecs → Codec T)
    → CollectorPrefixType
    → H256
    → RecordTime
    → T
    → Action (Unit {0})
unfolding storage_write_prefixed
write_onchain codec prefix block_hash time value c =
    storage_write_prefixed prefix block_hash (new_onchain (codec c.codecs) time value) c

unfoldable pub write_channels :
    H256 → RecordTime → List (ℕ × Channels × Channels) → Action (Unit {0})
unfolding write_onchain
write_channels block_hash time [] = pure tt
write_channels block_hash time ((para_id, inbound, outbound) ∷ rest) = do
  write_onchain (λ c. c.channels_codec) (inbound_outbound_hrmp_channels para_id) block_hash time
      (inbound, outbound)
  write_channels block_hash time rest

-- The parachains that are asked for: those with a subscriber, or else those with a candidate.
unfoldable pub hrmp_para_ids : Collector → List ℕ
hrmp_para_ids c = elim c.subscribe_channels [
  | [] ↦ keys c.state.candidates_seen
  | x ∷ xs ↦ keys c.subscribe_channels
]

unfoldable pub write_ts : H256 → ℕ → Timestamp → Action (Unit {0})
unfolding write_onchain
write_ts block_hash block_number ts =
    write_onchain (λ c. c.timestamp_codec) timestamp block_hash (at_secs block_number ts) ts

module _ (node : Node) where
  unfoldable pub ask_hrmp_channels : H256 → ℕ → Timestamp → Action (Unit {0})
  unfolding write_channels hrmp_para_ids
  ask_hrmp_channels block_hash block_number ts = do
    para_ids ← gets hrmp_para_ids
    channels ← or_fail (node.get_inbound_outbound_hrmp_channels block_hash para_ids) executor_fatal
    write_channels block_hash (at_secs block_number ts) channels

  unfoldable pub write_hrmp_channels : H256 → ℕ → Timestamp → Action (Unit {0})
  unfolding ask_hrmp_channels
  write_hrmp_channels block_hash block_number ts = do
    wanted ← gets (λ c. c.hrmp_channels)
    when wanted (ask_hrmp_channels block_hash block_number ts)

  unfoldable pub write_parainherent_data : H256 → ℕ → Timestamp → Action (Unit {0})
  unfolding write_onchain
  write_parainherent_data block_hash block_number ts = do
    data' ← or_fail (node.extract_parainherent_data block_hash) executor_fatal
    write_onchain (λ c. c.inherent_codec) inherent_data block_hash (at_secs block_number ts) data'

  unfoldable pub write_occupied_cores : H256 → ℕ → Timestamp → Action (Unit {0})
  unfolding write_onchain
  write_occupied_cores block_hash block_number ts = do
    cores ← or_fail (node.get_occupied_cores block_hash) executor_fatal
    write_onchain (λ c. c.occupied_codec) occupied_cores block_hash (at_secs block_number ts) cores

  unfoldable pub write_backing_groups : H256 → ℕ → Timestamp → Action (Unit {0})
  unfolding write_onchain
  write_backing_groups block_hash block_number ts = do
    groups ← or_fail (node.get_backing_groups block_hash) executor_fatal
    write_onchain (λ c. c.groups_codec) backing_groups block_hash (at_secs block_number ts) groups

  unfoldable pub write_core_assignments : H256 → ℕ → Timestamp → Action (Unit {0})
  unfolding write_onchain
  write_core_assignments block_hash block_number ts = do
    assignments ← or_fail (node.get_claim_queue block_hash) executor_fatal
    write_onchain (λ c. c.assignments_codec) core_assignments block_hash (at_secs block_number ts)
        assignments

  -- The author of one slot. The remainder by the number of authorities panics when there are none.
  unfoldable pub author_of_slot : H256 → List ℕ → Option ℕ → ℕ → Action (List AccountId32)
  author_of_slot parent_hash authorities none slot = pure []
  author_of_slot parent_hash authorities (some randomness) slot = do
    key ← or_panic (get_elem? authorities (node.rand randomness slot % length authorities))
    owner ← or_fail (node.get_babe_key_owner parent_hash key) non_fatal
    pure (elim owner [ none ↦ [] | some account ↦ account ∷ [] ])

  -- The loop over the missed slots, from the latest of them down to `parent_slot + 1`.
  unfoldable pub missed_authors : H256 → List ℕ → Option ℕ → ℕ → ℕ → Action (List AccountId32)
  unfolding author_of_slot
  missed_authors parent_hash authorities randomness parent_slot zero = pure []
  missed_authors parent_hash authorities randomness parent_slot (suc n) = do
    here ← author_of_slot parent_hash authorities randomness (parent_slot + suc n)
    rest ← missed_authors parent_hash authorities randomness parent_slot n
    pure (here ++ rest)

  unfoldable pub authors_between : H256 → H256 → ℕ → ℕ → Action (List AccountId32)
  unfolding missed_authors
  authors_between block_hash parent_hash current_slot parent_slot = do
    randomness ← or_fail (node.get_babe_randomness block_hash) non_fatal
    authorities ← or_fail (node.get_babe_authorities block_hash) non_fatal
    missed_authors parent_hash authorities randomness parent_slot (current_slot - 1 - parent_slot)

  unfoldable pub authors_of_gap : H256 → H256 → Option ℕ → Option ℕ → Action (List AccountId32)
  unfolding authors_between
  authors_of_gap block_hash parent_hash (some current_slot) (some parent_slot) =
      if ltb parent_slot (current_slot - 1)
      then authors_between block_hash parent_hash current_slot parent_slot
      else pure []
  authors_of_gap block_hash parent_hash _ _ = pure []

  unfoldable pub authors_missing_their_slots : H256 → H256 → Action (List AccountId32)
  unfolding authors_of_gap
  authors_missing_their_slots block_hash parent_hash = do
    current_slot ← or_fail (node.get_babe_current_slot block_hash) non_fatal
    parent_slot ← or_fail (node.get_babe_current_slot parent_hash) non_fatal
    authors_of_gap block_hash parent_hash current_slot parent_slot
