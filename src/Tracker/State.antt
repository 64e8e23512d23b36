-- ===== src/Tracker/State.antt =====
-- `SubxtTracker` of parachain-tracer/src/tracker.rs: its state and the methods that only read it.
-- `&mut self` methods return the new state; a method that may panic returns an `Outcome`.
use polkadot_introspector.Prelude.{
  ℕ, ◌-◌, Bool, true, false, not, ◌&&◌, ◌||◌, Option, none, some, List, [], ◌∷◌, ◌++◌, ◌==◌, nat_eq,
  is_some, is_some_and, and_then, map_option, unwrap_or, last?, any,
}
use polkadot_introspector.Prelude.Assoc.{lookup}
use polkadot_introspector.Tracker.BlockInfo.{ParachainBlockInfo, is_backed, is_included, is_dropped}
use polkadot_introspector.Tracker.Queues.{MessageQueuesTracker, empty_queues}
use polkadot_introspector.Tracker.Types.{
  Timestamp, Block, BlockWithoutHash, DisputesTracker, ForkTracker,
}

pub data BackingType : Type 0 where
  sync async : BackingType

abbrev pub is_sync : BackingType → Bool
is_sync sync = true
is_sync async = false

-- The candidates and skipped slots of one core; `none` is a skipped slot.
abbrev pub Slots : Type 0
Slots = List (Option ParachainBlockInfo)

pub record SubxtTracker : Type 0 where
  pub para_id : ℕ
  pub new_session : Option ℕ
  pub candidates : List (ℕ × Slots)
  pub cores : List (ℕ × List ℕ)
  pub current_relay_block : Option Block
  pub previous_relay_block : Option Block
  pub current_non_fork_relay_block_ts : Option Timestamp
  pub last_non_fork_relay_block_ts : Option Timestamp
  pub last_backed_at_block_number : Option ℕ
  pub backing_type : BackingType
  pub last_included_at : Option BlockWithoutHash
  pub previous_included_at : Option BlockWithoutHash
  pub finality_lag : Option ℕ
  pub disputes : List DisputesTracker
  pub message_queues : MessageQueuesTracker
  pub relay_forks : List ForkTracker

unfoldable pub new_tracker : ℕ → SubxtTracker
unfolding empty_queues
new_tracker para_id = record {
  para_id = para_id;
  new_session = none;
  candidates = [];
  cores = [];
  current_relay_block = none;
  previous_relay_block = none;
  current_non_fork_relay_block_ts = none;
  last_non_fork_relay_block_ts = none;
  last_backed_at_block_number = none;
  backing_type = sync;
  last_included_at = none;
  previous_included_at = none;
  finality_lag = none;
  disputes = [];
  message_queues = empty_queues;
  relay_forks = [];
}

unfoldable pub inject_new_session : SubxtTracker → ℕ → SubxtTracker
inject_new_session t session_index = record t { new_session = some session_index }

-- whether two relay chain blocks have one number
abbrev pub same_number : Option Block → Option Block → Bool
same_number (some a) (some b) = a.num == b.num
same_number (some a) none = false
same_number none b = false

unfoldable pub is_fork : SubxtTracker → Bool
is_fork t = same_number t.current_relay_block t.previous_relay_block

-- `v.last().and_then(|v| v.as_ref())`
abbrev pub last_candidate : Slots → Option ParachainBlockInfo
last_candidate slots = and_then (last? slots) (λ c. c)

unfoldable pub current_candidate : SubxtTracker → ℕ → Option ParachainBlockInfo
current_candidate t core = and_then (lookup core t.candidates) last_candidate

-- `self.candidates.values().flatten()`
unfoldable pub all_slots : List (ℕ × Slots) → Slots
all_slots [] = []
all_slots ((core, slots) ∷ rest) = slots ++ all_slots rest

unfoldable pub all_candidates_and_skipped_slots : SubxtTracker → Slots
unfolding all_slots
all_candidates_and_skipped_slots t = all_slots t.candidates

abbrev pub is_backed_slot : Option ParachainBlockInfo → Bool
is_backed_slot c = is_some_and c is_backed

abbrev pub has_backed : ForkTracker → Bool
has_backed fork = is_some fork.backed_candidate

abbrev pub has_backed_or_included : ForkTracker → Bool
has_backed_or_included fork = is_some fork.backed_candidate || is_some fork.included_candidate

unfoldable pub has_backed_candidate : SubxtTracker → ℕ → Bool
has_backed_candidate t core =
    is_some_and (lookup core t.candidates) (any is_backed_slot) || any has_backed t.relay_forks

unfoldable pub has_backed_or_included_candidate : SubxtTracker → ℕ → Bool
has_backed_or_included_candidate t core =
    is_some_and (lookup core t.candidates) (any is_some) || any has_backed_or_included t.relay_forks

unfoldable pub is_current_candidate_backed : SubxtTracker → ℕ → Bool
unfolding current_candidate
is_current_candidate_backed t core = is_some_and (current_candidate t core) is_backed

-- `a == b` on `Option<u32>`
abbrev pub option_beq : Option ℕ → Option ℕ → Bool
option_beq none none = true
option_beq none (some b) = false
option_beq (some a) none = false
option_beq (some a) (some b) = a == b

unfoldable pub is_just_backed : SubxtTracker → Bool
is_just_backed t =
    is_some t.last_backed_at_block_number
    && option_beq t.last_backed_at_block_number (map_option (λ b. b.num) t.current_relay_block)

unfoldable pub is_slow_availability : SubxtTracker → ℕ → Bool
unfolding current_candidate is_just_backed
is_slow_availability t core =
    is_some_and (current_candidate t core) (λ c. c.core_occupied) && not (is_just_backed t)

-- `Duration::saturating_sub`, in milliseconds
unfoldable pub current_block_time : SubxtTracker → ℕ
current_block_time t =
    let cur_ts = unwrap_or (map_option (λ b. b.ts) t.current_relay_block) 0 in
    cur_ts - unwrap_or t.last_non_fork_relay_block_ts cur_ts

-- the slots that stay in `maybe_reset_state`: candidates neither included nor dropped
abbrev pub is_active : Option ParachainBlockInfo → Bool
is_active c = is_some_and c (λ c. not (is_included c) && not (is_dropped c))
