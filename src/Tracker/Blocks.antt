-- ===== src/Tracker/Blocks.antt =====
-- parachain-tracer/src/tracker.rs: the part of `inject_block` that enters a relay chain block, its
-- fork and its cores. `block_number - num` on `u32` wraps, as in a release build.
pub mod Timeline
use polkadot_introspector.Prelude.{
  ℕ, suc, ◌+◌, ◌-◌, ◌≡◌, Bool, true, false, not, ◌&&◌, ◌||◌, Option, none, some, List, [], ◌∷◌,
  ◌++◌, ◌==◌, nat_eq, if◌then◌else◌, is_some, is_some_and, and_then, map_option, unwrap_or, length,
  get_elem?, any, keep, count, contains, Outcome, ok, panic, ◌>>=◌, expect, sub32, as_u32, ltb,
}
use polkadot_introspector.Prelude.Assoc.{lookup, insert, keys, map_values}
use polkadot_introspector.Tracker.BlockInfo
use polkadot_introspector.Tracker.BlockInfo.{
  H256, ParachainBlockInfo, BlockAvailability, set_pending, set_included, set_dropped,
  set_availability, is_backed, is_included,
}
use polkadot_introspector.Tracker.Disputes.{extract_availability_bits_count, new_dispute}
use polkadot_introspector.Tracker.Queues.{set_hrmp_channels}
use polkadot_introspector.Tracker.Records.{
  TrackerStorage, session_keys, inherent_data_of, relevant_finalized_block_number_of, dispute_of,
  block_timestamp, occupied_cores_of, backing_groups_of, core_assignments_of,
  inbound_outbound_hrmp_channels_of,
}
use polkadot_introspector.Tracker.State.{
  SubxtTracker, Slots, BackingType, sync, async, is_sync, is_fork, current_candidate,
  has_backed_candidate, has_backed_or_included_candidate, is_current_candidate_backed,
  is_just_backed, is_active,
}
use polkadot_introspector.Tracker.Types.{
  AvailabilityBitfield, BackedCandidateInfo, Block, CoreOccupied, free, scheduled, occupied,
  DisputeInfo, DisputeStatementSet, DisputesTracker, ForkTracker, NewHeadEvent, without_hash,
}

-- `last_mut()` with a change
unfoldable pub modify_last {ℓ} : {A : Type ℓ} → (A → A) → List A → List A
modify_last f [] = []
modify_last f (x ∷ []) = f x ∷ []
modify_last f (x ∷ y ∷ xs) = x ∷ modify_last f (y ∷ xs)

-- `current_candidate_mut` with a change of the candidate, if there is one
unfoldable pub modify_current :
    ℕ → (ParachainBlockInfo → ParachainBlockInfo) → SubxtTracker → SubxtTracker
unfolding modify_last
modify_current core f t = elim (lookup core t.candidates) [
  | none ↦ t
  | some slots ↦ record t {
    candidates = insert core (modify_last (map_option f) slots) t.candidates;
  }
]

-- the part of `set_relay_block` that moves the timestamps
unfoldable pub move_timestamps : SubxtTracker → ℕ → SubxtTracker
move_timestamps t ts = if is_fork t then t else record t {
  last_non_fork_relay_block_ts = t.current_non_fork_relay_block_ts;
  current_non_fork_relay_block_ts = some ts;
}

unfoldable pub enter_block : SubxtTracker → Block → SubxtTracker
unfolding move_timestamps
enter_block t block =
    move_timestamps
      (record t { previous_relay_block = t.current_relay_block; current_relay_block = some block })
      block.ts

unfoldable pub set_relay_block : SubxtTracker → H256 → ℕ → TrackerStorage → Outcome SubxtTracker
unfolding enter_block
set_relay_block t block_hash block_number st = do
  stored ← block_timestamp st block_hash
  ts ← expect stored
  finalized ← relevant_finalized_block_number_of st block_hash
  let t' = enter_block t (record { hash = block_hash; num = block_number; ts = ts })
  ok (record t' { finality_lag = map_option (λ num. sub32 block_number num) finalized })

abbrev pub new_fork : H256 → ℕ → ForkTracker
new_fork block_hash block_number = record {
  relay_hash = block_hash;
  relay_number = block_number;
  backed_candidate = none;
  included_candidate = none;
}

unfoldable pub set_forks : SubxtTracker → H256 → ℕ → SubxtTracker
set_forks t block_hash block_number = record t {
  relay_forks = (if is_fork t then t.relay_forks else []) ++ new_fork block_hash block_number ∷ [];
}

-- `collect` into a map: a later entry of a core replaces an earlier one
unfoldable pub collect_cores : List (ℕ × List ℕ) → List (ℕ × List ℕ) → List (ℕ × List ℕ)
collect_cores [] cores = cores
collect_cores ((core, ids) ∷ rest) cores = collect_cores rest (insert core ids cores)

unfoldable pub set_cores : SubxtTracker → H256 → TrackerStorage → Outcome SubxtTracker
unfolding collect_cores
set_cores t block_hash st = do
  stored ← core_assignments_of st block_hash
  assignments ← expect stored
  ok (record t { cores = collect_cores (keep (λ a. contains t.para_id a.1) assignments) [] })

-- `into_iter().flatten().collect()`
unfoldable pub flatten_groups : List (List ℕ) → List ℕ
flatten_groups [] = []
flatten_groups (group ∷ groups) = group ++ flatten_groups groups

unfoldable pub validators_indices : H256 → TrackerStorage → Outcome (List ℕ)
unfolding flatten_groups
validators_indices block_hash st = do
  stored ← backing_groups_of st block_hash
  groups ← expect stored
  ok (flatten_groups groups)
