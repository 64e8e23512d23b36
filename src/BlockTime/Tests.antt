-- ===== src/BlockTime/Tests.antt =====
-- Runs of the block-time tool, and the properties at them.
use polkadot_introspector.Prelude.{
  ℕ, ◌+◌, ◌*◌, ◌≡◌, refl, true, false, Option, none, some, List, [], ◌∷◌, ◌++◌, map, arith, nat_eq,
  ok, panic,
}
use polkadot_introspector.Prelude.Assoc.{lookup}
use polkadot_introspector.Prelude.Ends.{last_of}
use polkadot_introspector.Collector.Types.{ChainSubscriptionEvent}
use polkadot_introspector.BlockTime.{
  prometheus, cli, endpoint_disconnected, new_block_time, Effect, sent, Node, watch_node, fill_view,
}
use polkadot_introspector.BlockTime.Charts.{
  UiInput, ui_loop, ui_loop-IsRunning, ui_loop-kept, values_of, kept, times_for, IsRunning,
}
use polkadot_introspector.BlockTime.Times.{
  Events, heads_of, block_times, messages, Sends, watch_node-times, watch_node-panics,
}

abbrev head : ℕ → ℕ → ChainSubscriptionEvent × Option ℕ
head number ts = (
  ChainSubscriptionEvent.new_best_head number (record { number = number; parent_hash = 0 }),
  some ts,
)

-- Block 12 is missed.
abbrev heads : Events
heads =
    head 10 6000
    ∷ head 11 12500
    ∷ (ChainSubscriptionEvent.heartbeat, none)
    ∷ head 13 24000
    ∷ head 14 30000
    ∷ (ChainSubscriptionEvent.termination, none)
    ∷ []

-- A chain whose blocks are 6 seconds apart, by the hash of the parent, which is its number.
abbrev node : Node
node = record {
  get_block_head = λ _ parent. some (record { number = 9; parent_hash = 8 });
  hash_of = λ h. some h.number;
  get_block_timestamp = λ round _. some (round * 6000 + 1000);
}

abbrev filled : List (Effect ℕ)
filled = sent (new_block_time 1 6000) ∷ sent (new_block_time 1 6000) ∷ []

fills : fill_view (cli 3) node 1 ≡ ok filled
unfolding fill_view
fills = refl

watch_node-times_example : Sends (watch_node (cli 3) false node 1 heads) (
    messages filled
    ++ (map (λ ms. new_block_time 1 ms) (block_times (heads_of heads))
        ++ endpoint_disconnected ∷ []))
unfolding heads_of
watch_node-times_example =
    watch_node-times node 1 3 heads filled fills
      (omega arith, (omega arith, (omega arith, (omega arith, tt))))

times : block_times (heads_of heads) ≡ 6500 ∷ 6000 ∷ []
unfolding block_times heads_of
times = refl

watch_node-panics_example : watch_node {U = ℕ} prometheus true node 1 heads ≡ panic
watch_node-panics_example = watch_node-panics true node 1 heads

abbrev inputs : List (UiInput ℕ)
inputs =
    UiInput.message (new_block_time 1 6000)
    ∷ UiInput.tick
    ∷ UiInput.message (new_block_time 2 5000)
    ∷ UiInput.message (new_block_time 1 6100)
    ∷ UiInput.message (new_block_time 1 6200)
    ∷ UiInput.message endpoint_disconnected
    ∷ UiInput.message endpoint_disconnected
    ∷ UiInput.closed
    ∷ UiInput.tick
    ∷ []

ui_loop-kept_example : lookup 1 (values_of (ui_loop 2 2 [] inputs)) ≡ kept 2 (times_for 1 inputs)
ui_loop-kept_example = ui_loop-kept 2 2 (omega arith) (omega arith) inputs 1

last_two : kept 2 (times_for 1 inputs) ≡ some (6100 ∷ 6200 ∷ [])
unfolding times_for last_of
last_two = refl

ui_loop-IsRunning_example : IsRunning (ui_loop 2 2 [] inputs)
ui_loop-IsRunning_example = ui_loop-IsRunning 2 2 inputs [] (omega arith)
