-- ===== src/Collector/Heights.antt =====
-- The heads that the collector knows only move forward.
use polkadot_introspector.Prelude.{
  ℕ, ◌≤◌, ◌≡◌, refl, subst, arith, ◌∙◌, Bool, true, false, Option, none, some, List, [], ◌∷◌,
  nat_eq, if◌then◌else◌, ltb,
}
use polkadot_introspector.Prelude.Assoc.{keys}
use polkadot_introspector.Tracker.BlockInfo.{H256}
use polkadot_introspector.Collector.Types.{Collector, CollectorState, CollectorUpdateEvent, Sender}
use polkadot_introspector.Collector.Action.{modify}
use polkadot_introspector.Collector.Node.{Node}
use polkadot_introspector.Collector.Broadcast.{
  go_on_with, Broadcast, told_subscribers, send_by_para, send_each, send_heads, send_broadcasts,
  new_head_of, refresh_paras, reset_state, sent_or_fail, tell_subscribers, tell_broadcasts,
  update_state, broadcast_event, broadcast_event_priority, terminate,
}
use polkadot_introspector.Collector.Import.{finalize}
use polkadot_introspector.Collector.Run.{Input, run_with_consumer_channel}
use polkadot_introspector.Collector.Frame.{Frame, Quiet, Keeps, then-Keeps, HasSameHeads}
use polkadot_introspector.Collector.Frame.Loop.{run_with_consumer_channel-Rel}

-- A finalized block that is known is not forgotten, and not replaced by a lower one.
abbrev pub FinalizedLe : Option ℕ → Option ℕ → Type 0
FinalizedLe none n = Unit
FinalizedLe (some m) none = ⊥
FinalizedLe (some m) (some n) = m ≤ n

FinalizedLe-refl : (m : Option ℕ) → FinalizedLe m m
FinalizedLe-refl none = tt
FinalizedLe-refl (some m) = omega arith

FinalizedLe-trans : (l m n : Option ℕ) → FinalizedLe l m → FinalizedLe m n → FinalizedLe l n
FinalizedLe-trans none m n h k = tt
FinalizedLe-trans (some l) none n h k = elim h [ ]
FinalizedLe-trans (some l) (some m) none h k = elim k [ ]
FinalizedLe-trans (some l) (some m) (some n) h k = omega arith

finalize-FinalizedLe : (n : ℕ) (m : Option ℕ) → FinalizedLe m (finalize n m)
unfolding finalize
finalize-FinalizedLe n none = tt
finalize-FinalizedLe n (some m) =
    elim (ltb m n) as (λ b. ltb m n ≡ b → FinalizedLe (some m) (if b then some n else some m)) [
      | true ↦ λ e. ground arith
      | false ↦ λ e. omega arith
    ]
      refl

abbrev pub HeadsGrow : Collector → Collector → Type 0
HeadsGrow c d =
    (c.state.current_relay_chain_block_number ≤ d.state.current_relay_chain_block_number)
    × FinalizedLe c.state.last_finalized_block_number d.state.last_finalized_block_number

-- With a bound on the block's number, which a method keeps.
abbrev Within : ℕ → Collector → Collector → Type 0
Within n c d =
    c.state.current_relay_chain_block_number ≤ n
    → HeadsGrow c d × (d.state.current_relay_chain_block_number ≤ n)

HeadsGrow-refl : (c : Collector) → HeadsGrow c c
HeadsGrow-refl c = (omega arith, FinalizedLe-refl c.state.last_finalized_block_number)

HeadsGrow-trans : (a b c : Collector) → HeadsGrow a b → HeadsGrow b c → HeadsGrow a c
HeadsGrow-trans a b c h k = (omega arith, FinalizedLe-trans _ _ _ h.1 k.1)

HeadsGrow-same : (c d : Collector) → HasSameHeads c.state d.state → HeadsGrow c d
HeadsGrow-same c d e = (
  omega (arith, e.0),
  subst (FinalizedLe c.state.last_finalized_block_number) e.1
      (FinalizedLe-refl c.state.last_finalized_block_number),
)

abbrev within : ℕ → Quiet
within n = record {
  Rel = Within n;
  reflexive = λ c l. (HeadsGrow-refl c, l);
  transitive =
      λ a b c h k l. let h' = h l in let k' = k h'.1 in (HeadsGrow-trans a b c h'.0 k'.0, k'.1);
  of_storage = λ c s l. (HeadsGrow-refl c, l);
}

go_on_with-HasSameHeads :
    (sent : Bool) (b : Sender CollectorUpdateEvent) (rest : Broadcast)
    (left : List (Sender CollectorUpdateEvent)) (s t : CollectorState)
    → HasSameHeads s t
    → HasSameHeads t rest.1
    → HasSameHeads s (go_on_with sent b rest left t).1
go_on_with-HasSameHeads true b rest left s t e d = (e.0 ∙ d.0, e.1 ∙ d.1)
go_on_with-HasSameHeads false b rest left s t e d = e

send_broadcasts-HasSameHeads :
    (max : ℕ) (channels : List (Sender CollectorUpdateEvent)) (s : CollectorState)
    → HasSameHeads s (send_broadcasts max channels s).1
unfolding send_broadcasts refresh_paras
send_broadcasts-HasSameHeads max [] s = (refl, refl)
send_broadcasts-HasSameHeads max (b ∷ channels) s =
    let s' = refresh_paras max s in
    let h = send_broadcasts-HasSameHeads max channels s' in
    go_on_with-HasSameHeads (send_heads (new_head_of s' []) (keys s'.paras_seen) b).1 _
      (send_broadcasts max channels s') channels s s' (refl, refl) h

-- What leaves the heads alone stays within any bound.
Within-same : (n : ℕ) (c d : Collector) → HasSameHeads c.state d.state → Within n c d
Within-same n c d e l = (HeadsGrow-same c d e, omega (arith, e.0))

sent_or_fail-Within :
    (n : ℕ) (b : Bool) (c d : Collector)
    → HasSameHeads c.state d.state
    → Within n c (sent_or_fail b d).1
sent_or_fail-Within n true c d e = Within-same n c d e
sent_or_fail-Within n false c d e = Within-same n c d e

tell_subscribers-Keeps : (n : ℕ) → Keeps (within n) tell_subscribers
unfolding tell_subscribers
tell_subscribers-Keeps n = record { holds = λ c. sent_or_fail-Within n _ c _ (refl, refl) }

tell_broadcasts-Keeps : (n : ℕ) → Keeps (within n) tell_broadcasts
unfolding tell_broadcasts
tell_broadcasts-Keeps n = record {
  holds = λ c.
      sent_or_fail-Within n _ c _
        (send_broadcasts-HasSameHeads c.max_parachain_stall c.broadcast_channels c.state);
}

update_state-Keeps : (n : ℕ) (h : H256) → Keeps (within n) (update_state n h)
unfolding update_state modify reset_state
update_state-Keeps n h = then-Keeps (within n) _ _ (tell_subscribers-Keeps n) (
    then-Keeps (within n) _ _ (tell_broadcasts-Keeps n) (record {
      holds = λ c l. ((l, FinalizedLe-refl c.state.last_finalized_block_number), omega arith);
    }))

told_subscribers-HasSameHeads :
    (b : Bool) (r : List (Sender CollectorUpdateEvent) × Bool) (c : Collector)
    → HasSameHeads c.state (told_subscribers b r c).1.state
told_subscribers-HasSameHeads true (channels, true) c = (refl, refl)
told_subscribers-HasSameHeads true (channels, false) c = (refl, refl)
told_subscribers-HasSameHeads false r c = (refl, refl)

broadcast_event-HasSameHeads :
    (e : CollectorUpdateEvent) (c : Collector) → HasSameHeads c.state (broadcast_event e c).1.state
unfolding broadcast_event
broadcast_event-HasSameHeads e c =
    told_subscribers-HasSameHeads (send_by_para (λ p. e) c.subscribe_channels).1
      (send_each e c.broadcast_channels) _

abbrev heads_grow : Frame
unfolding terminate broadcast_event_priority
heads_grow = record {
  quiet = record {
    Rel = HeadsGrow;
    reflexive = HeadsGrow-refl;
    transitive = HeadsGrow-trans;
    of_storage = λ c s. HeadsGrow-refl c;
  };
  of_websocket = λ c w. HeadsGrow-refl c;
  of_state = λ c s e. HeadsGrow-same c (record c { state = s }) e;
  of_finalize = λ c n. (omega arith, finalize-FinalizedLe n c.state.last_finalized_block_number);
  of_broadcast = λ c e. HeadsGrow-same c (broadcast_event e c).1 (broadcast_event-HasSameHeads e c);
  of_update = λ c n h l. ((update_state-Keeps n h).holds c (omega arith)).0;
  of_terminate = λ c r. HeadsGrow-refl c;
}

-- Whatever the loop waits for and however it ends, and whatever the node answers, the number of the
-- current relay chain block does not go down, and a last finalized block that is known is neither
-- forgotten nor replaced by a lower one.
pub run-HeadsGrow :
    (node : Node) (inputs : List Input) (c : Collector)
    → HeadsGrow c (run_with_consumer_channel node inputs c).1
unfolding heads_grow
run-HeadsGrow node inputs c = run_with_consumer_channel-Rel heads_grow node inputs c
