-- ===== src/Tracker/Backing.antt =====
-- parachain-tracer/src/tracker.rs: `set_backed_candidates` and `set_dropped_candidates`.
pub mod Interval
pub mod Dropping
use polkadot_introspector.Prelude.{
  ℕ, zero, suc, ◌+◌, ◌-◌, ◌≡◌, Bool, true, false, not, ◌&&◌, ◌||◌, Option, none, some, List, [],
  ◌∷◌, ◌++◌, ◌==◌, nat_eq, if◌then◌else◌, is_some, is_some_and, and_then, map_option, unwrap_or,
  length, get_elem?, any, keep, count, contains, Outcome, ok, panic, ◌>>=◌, expect, sub32, as_u32,
  ltb,
}
use polkadot_introspector.Prelude.Assoc.{lookup, insert, keys, map_values}
use polkadot_introspector.Tracker.BlockInfo
use polkadot_introspector.Tracker.BlockInfo.{
  H256, ParachainBlockInfo, BlockAvailability, set_pending, set_included, set_dropped,
  set_availability, is_backed, is_included,
}
use polkadot_introspector.Tracker.Disputes.{extract_availability_bits_count, new_dispute}
use polkadot_introspector.Tracker.Queues.{set_hrmp_channels}
use polkadot_introspector.Tracker.Records.{
  TrackerStorage, session_keys, inherent_data_of, relevant_finalized_block_number_of, dispute_of,
  block_timestamp, occupied_cores_of, backing_groups_of, core_assignments_of,
  inbound_outbound_hrmp_channels_of,
}
use polkadot_introspector.Tracker.State.{
  SubxtTracker, Slots, BackingType, sync, async, is_sync, is_fork, current_candidate,
  has_backed_candidate, has_backed_or_included_candidate, is_current_candidate_backed,
  is_just_backed, is_active,
}
use polkadot_introspector.Tracker.Types.{
  AvailabilityBitfield, BackedCandidateInfo, Block, CoreOccupied, free, scheduled, occupied,
  DisputeInfo, DisputeStatementSet, DisputesTracker, ForkTracker, NewHeadEvent, without_hash,
}
use polkadot_introspector.Tracker.Blocks.{modify_last}

-- `block_number - last == 1` on the last block that backed a candidate
unfoldable pub backed_one_block_ago : Option ℕ → ℕ → Bool
backed_one_block_ago last block_number = is_some_and last (λ n. sub32 block_number n == 1)

-- `self.candidates.entry(core).or_default().push(slot)`
unfoldable pub push_slot : ℕ → Option ParachainBlockInfo → List (ℕ × Slots) → List (ℕ × Slots)
push_slot core slot candidates =
    insert core (unwrap_or (lookup core candidates) [] ++ slot ∷ []) candidates

-- One round of the first loop.
unfoldable pub back_candidate : SubxtTracker → ℕ → BackedCandidateInfo → SubxtTracker
unfolding modify_last backed_one_block_ago push_slot BlockInfo.new
back_candidate t block_number c = record t {
  relay_forks =
      modify_last (λ f. record f { backed_candidate = some c.candidate_hash }) t.relay_forks;
  backing_type =
      if is_sync t.backing_type && backed_one_block_ago t.last_backed_at_block_number block_number
      then async
      else t.backing_type;
  last_backed_at_block_number = some block_number;
  candidates = push_slot c.core_idx (some (BlockInfo.new c.candidate_hash c.core_idx)) t.candidates;
}

unfoldable pub back_all : SubxtTracker → ℕ → List BackedCandidateInfo → SubxtTracker
unfolding back_candidate
back_all t block_number [] = t
back_all t block_number (c ∷ cs) = back_all (back_candidate t block_number c) block_number cs

-- whether a core without a candidate in this block counts as a skipped slot
unfoldable pub is_skipped : SubxtTracker → ℕ → Bool
unfolding has_backed_candidate has_backed_or_included_candidate
is_skipped t core = elim t.backing_type [
  | sync ↦ not (has_backed_or_included_candidate t core)
  | async ↦ not (has_backed_candidate t core)
]

unfoldable pub skip_slot : SubxtTracker → ℕ → SubxtTracker
unfolding is_skipped push_slot
skip_slot t core =
    if is_skipped t core then record t { candidates = push_slot core none t.candidates } else t

unfoldable pub skip_idle : SubxtTracker → List ℕ → SubxtTracker
unfolding skip_slot
skip_idle t [] = t
skip_idle t (core ∷ cores) = skip_idle (skip_slot t core) cores

abbrev pub is_of : ℕ → BackedCandidateInfo → Bool
is_of para_id c = c.para_id == para_id

unfoldable pub core_indices : List BackedCandidateInfo → List ℕ
core_indices [] = []
core_indices (c ∷ cs) = c.core_idx ∷ core_indices cs

unfoldable pub idle_cores : SubxtTracker → List ℕ → List ℕ
idle_cores t used_cores = keep (λ core. not (contains core used_cores)) (keys t.cores)

unfoldable pub set_backed_candidates : SubxtTracker → ℕ → List BackedCandidateInfo → SubxtTracker
unfolding back_all core_indices idle_cores skip_idle
set_backed_candidates t block_number backed_candidates =
    let mine = keep (is_of t.para_id) backed_candidates in
    skip_idle (back_all t block_number mine) (idle_cores t (core_indices mine))

-- a candidate that is not included
abbrev pub is_open : Option ParachainBlockInfo → Bool
is_open c = is_some_and c (λ c. not (is_included c))

-- `set_dropped` on the first candidates that are not included, as many as `n`
unfoldable pub drop_first : ℕ → Slots → Slots
drop_first zero slots = slots
drop_first (suc n) [] = []
drop_first (suc n) (none ∷ slots) = none ∷ drop_first (suc n) slots
drop_first (suc n) (some c ∷ slots) =
    if is_included c
    then some c ∷ drop_first (suc n) slots
    else some (set_dropped c) ∷ drop_first n slots

-- `backed_candidates.pop()` leaves all but the last of them.
unfoldable pub drop_slots : Slots → Slots
unfolding drop_first
drop_slots slots =
    let backed_candidates = count is_open slots in
    if ltb 1 backed_candidates then drop_first (backed_candidates - 1) slots else slots

unfoldable pub set_dropped_candidates : SubxtTracker → SubxtTracker
unfolding drop_slots
set_dropped_candidates t = record t { candidates = map_values drop_slots t.candidates }
