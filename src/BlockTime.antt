-- ===== src/BlockTime.antt =====
-- block-time/src/main.rs: the task that watches one node, with its timer of blocks, and what it
-- sends to the charts. An endpoint is named by any type with equality.
pub mod Charts
pub mod Times
mod Tests
use polkadot_introspector.Prelude.{
  ℕ, zero, suc, ◌+◌, ◌-◌, Bool, true, false, not, ◌&&◌, Option, none, some, List, [], ◌∷◌, ◌++◌,
  map, if◌then◌else◌, ltb, ◌==◌, nat_eq, Outcome, ok, panic, ◌>>=◌, expect,
}
use polkadot_introspector.Tracker.BlockInfo.{H256}
use polkadot_introspector.Tracker.Types.{Header}
use polkadot_introspector.Collector.Types.{ChainSubscriptionEvent}

-- The mode of the command; the charts have a width.
pub data BlockTimeMode : Type 0 where
  prometheus : BlockTimeMode
  cli : ℕ → BlockTimeMode

pub data BlockTimeMessage (U : Type 0) : Type 0 where
  endpoint_disconnected : BlockTimeMessage U
  new_block_time : U → ℕ → BlockTimeMessage U

-- What a task does: it sends a message, gives the histogram a value, or warns of missed blocks.
pub data Effect (U : Type 0) : Type 0 where
  sent : BlockTimeMessage U → Effect U
  observed missed : ℕ → Effect U

-- `prev_ts` and `prev_block`
pub record Watch : Type 0 where
  pub prev_ts : ℕ
  pub prev_block : ℕ

-- The calls of the executor while the charts are filled, by their round: a head, the hasher's hash of
-- it, and the time of a block.
pub record Node : Type 0 where
  pub get_block_head : ℕ → Option H256 → Option Header
  pub hash_of : Header → Option H256
  pub get_block_timestamp : ℕ → H256 → Option ℕ

-- The task of the charts holds the receiver of the messages; outside of the command line it returns
-- at once and drops it.
unfoldable pub receiver_is_there : BlockTimeMode → Bool
receiver_is_there prometheus = false
receiver_is_there (cli _) = true

module _ {U : Type 0} (mode : BlockTimeMode) where
  -- `message_tx.send(..).await.unwrap()`
  unfoldable pub send : BlockTimeMessage U → Outcome (List (Effect U))
  unfolding receiver_is_there
  send m = if receiver_is_there mode then ok (sent m ∷ []) else panic

  module _ (url : U) (has_metric : Bool) where
    unfoldable pub observe : ℕ → List (Effect U)
    observe ms = if has_metric then observed ms ∷ [] else []

    unfoldable pub publish : BlockTimeMode → ℕ → Outcome (List (Effect U))
    unfolding send observe
    publish (cli _) ms = send (new_block_time url ms)
    publish prometheus ms = ok (observe ms)

    -- A head whose time is known; a previous block of number 0 stands for none.
    unfoldable pub on_head : Watch → ℕ → ℕ → Outcome (List (Effect U))
    unfolding publish observe
    on_head w number ts =
        if not (w.prev_block == 0) && number - w.prev_block == 1
        then publish mode (ts - w.prev_ts)
        else if not (w.prev_block == 0) && ltb 1 (number - w.prev_block)
        then ok (missed (number - w.prev_block - 1) ∷ [])
        else if w.prev_block == 0
        then ok (observe 0)
        else ok []

    -- The loop over the events, each with the reply that `get_block_timestamp` gives for it; behind
    -- them the channel is closed. At the end, the charts are told.
    unfoldable pub watch_loop :
        Watch → List (ChainSubscriptionEvent × Option ℕ) → Outcome (List (Effect U))
    unfolding on_head send
    watch_loop w [] = send endpoint_disconnected
    watch_loop w ((ChainSubscriptionEvent.heartbeat, _) ∷ events) = watch_loop w events
    watch_loop w ((ChainSubscriptionEvent.termination, _) ∷ events) = send endpoint_disconnected
    watch_loop w ((ChainSubscriptionEvent.new_best_head _ header, none) ∷ events) =
        watch_loop w events
    watch_loop w ((ChainSubscriptionEvent.new_finalized_block _ header, none) ∷ events) =
        watch_loop w events
    watch_loop w ((ChainSubscriptionEvent.new_best_head _ header, some ts) ∷ events) = do
      effects ← on_head w header.number ts
      rest ← watch_loop (record { prev_ts = ts; prev_block = header.number }) events
      ok (effects ++ rest)
    watch_loop w ((ChainSubscriptionEvent.new_finalized_block _ header, some ts) ∷ events) = do
      effects ← on_head w header.number ts
      rest ← watch_loop (record { prev_ts = ts; prev_block = header.number }) events
      ok (effects ++ rest)

-- The walk back from the best head, by its rounds that are left, with the time of the block before
-- and the hash of its parent; the block times, the latest first.
module _ (node : Node) where
  unfoldable pub walk_back : ℕ → ℕ → Option H256 → Outcome (List ℕ)
  walk_back zero prev_ts parent_hash = ok []
  walk_back (suc rounds) prev_ts parent_hash = elim (node.get_block_head rounds parent_hash) [
    | none ↦ walk_back rounds prev_ts parent_hash
    | some header ↦ do
      hash ← expect (node.hash_of header)
      ts ← expect (node.get_block_timestamp rounds hash)
      rest ← walk_back rounds ts (some header.parent_hash)
      ok (if prev_ts == 0 then rest else (prev_ts - ts) ∷ rest)
  ]

-- `into_iter().rev()`
unfoldable pub reversed : List ℕ → List ℕ
reversed [] = []
reversed (x ∷ xs) = reversed xs ++ x ∷ []

module _ {U : Type 0} where
  unfoldable pub populate_view : Node → U → ℕ → Outcome (List (Effect U))
  unfolding walk_back reversed
  populate_view node url chart_width = do
    block_times ← walk_back node chart_width 0 none
    ok (map (λ ms. sent (new_block_time url ms)) (reversed block_times))

  unfoldable pub fill_view : BlockTimeMode → Node → U → Outcome (List (Effect U))
  unfolding populate_view
  fill_view prometheus node url = ok []
  fill_view (cli chart_width) node url = populate_view node url chart_width

  unfoldable pub watch_node :
      BlockTimeMode
      → Bool
      → Node
      → U
      → List (ChainSubscriptionEvent × Option ℕ)
      → Outcome (List (Effect U))
  unfolding fill_view watch_loop
  watch_node mode has_metric node url events = do
    filled ← fill_view mode node url
    watched ← watch_loop mode url has_metric (record { prev_ts = 0; prev_block = 0 }) events
    ok (filled ++ watched)
