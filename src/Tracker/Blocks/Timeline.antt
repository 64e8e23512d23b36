-- ===== src/Tracker/Blocks/Timeline.antt =====
-- Forks and block times: what the four fields that `set_relay_block` moves mean for the sequence of
-- relay chain blocks entered so far.
use polkadot_introspector.Prelude.{
  ℕ, ◌-◌, ◌≡◌, refl, List, [], ◌∷◌, arith, ◌==◌, nat_eq, if◌then◌else◌, map_option, unwrap_or,
  get_elem?,
}
use polkadot_introspector.Tracker.Blocks.{enter_block}
use polkadot_introspector.Tracker.State.{SubxtTracker, new_tracker, is_fork, current_block_time}
use polkadot_introspector.Tracker.Types.{Block}

-- The blocks of a history, the newest first, that began a new number: the others are forks of them.
unfoldable pub starts : List Block → List Block
starts [] = []
starts (b ∷ []) = b ∷ []
starts (b ∷ a ∷ history) =
    let rest = starts (a ∷ history) in if b.num == a.num then rest else b ∷ rest

unfoldable pub enter_history : SubxtTracker → List Block → SubxtTracker
enter_history t [] = t
enter_history t (b ∷ history) = enter_block (enter_history t history) b

-- The four fields after a history.
pub record Follows (t : SubxtTracker) (history : List Block) : Type 0 where
  pub current : t.current_relay_block ≡ get_elem? history 0
  pub previous : t.previous_relay_block ≡ get_elem? history 1
  pub current_start :
      t.current_non_fork_relay_block_ts
      ≡ map_option (λ (b : Block). b.ts) (get_elem? (starts history) 0)
  pub last_start :
      t.last_non_fork_relay_block_ts
      ≡ map_option (λ (b : Block). b.ts) (get_elem? (starts history) 1)

enter_block-Follows :
    (t : SubxtTracker) (b : Block) (history : List Block)
    → Follows t history
    → Follows (enter_block t b) (b ∷ history)
unfolding enter_block is_fork starts
enter_block-Follows t b [] f = ground arith
enter_block-Follows t b (a ∷ history) f = ground arith

-- After any sequence of blocks, entered in order into a new tracker, the tracker holds the last two
-- blocks, the time of the block that began the current number, and of the one that began the number
-- before it: forks move neither time.
pub enter_history-Follows :
    (para_id : ℕ) (history : List Block)
    → Follows (enter_history (new_tracker para_id) history) history
unfolding enter_history new_tracker starts
enter_history-Follows para_id [] = record {
  current = refl;
  previous = refl;
  current_start = refl;
  last_start = refl;
}
enter_history-Follows para_id (b ∷ history) =
    enter_block-Follows _ b history (enter_history-Follows para_id history)

-- The block time of the latest block is measured from the block that began the number before its
-- own, and is nothing while there is none.
pub current_block_time-history :
    (para_id : ℕ) (b : Block) (history : List Block)
    → current_block_time (enter_history (new_tracker para_id) (b ∷ history))
      ≡ b.ts
        - unwrap_or (map_option (λ (a : Block). a.ts) (get_elem? (starts (b ∷ history)) 1)) b.ts
unfolding current_block_time
current_block_time-history para_id b history =
    let f = enter_history-Follows para_id (b ∷ history) in rw (f.current, f.last_start)
