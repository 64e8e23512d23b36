-- ===== src/Collector/Connected.antt =====
-- A subscriber that has gone: what the collector sends, and what becomes of its heads.
use polkadot_introspector.Prelude.{
  ℕ, ◌≡◌, refl, sym, ap, ◌++◌, arith, ◌∙◌, Bool, true, false, not, List, [], ◌∷◌, nat_eq, any,
  if◌then◌else◌,
}
use polkadot_introspector.Prelude.Assoc.{map_values}
use polkadot_introspector.Prelude.{map}
use polkadot_introspector.Tracker.BlockInfo.{H256}
use polkadot_introspector.Collector.Types.{Collector, CollectorUpdateEvent, Sender}
use polkadot_introspector.Collector.Action.{◌>>◌, ◌>>=◌}
use polkadot_introspector.Collector.Node.{Node}
use polkadot_introspector.Collector.Broadcast.{
  send, send_each, send_by_para, send_priority, go_on, told_subscribers, tell_subscribers,
  update_state, broadcast_event, broadcast_event_priority, terminate, new_head_of,
}
use polkadot_introspector.Collector.Run.{Input, run_with_consumer_channel}
use polkadot_introspector.Collector.Frame.{Frame}
use polkadot_introspector.Collector.Frame.Loop.{run_with_consumer_channel-Rel}

-- One round of a loop, by whether what it sends to has gone.
pub go_on-any :
    {X : Type 0} (gone : X → Bool) (b : Bool) (x y : X) (rest : List X × Bool) (left : List X)
    → gone x ≡ gone y
    → b ≡ not (gone y)
    → any gone rest.0 ≡ any gone left
    → rest.1 ≡ not (any gone left)
    → (any gone (go_on b x rest left).0 ≡ any gone (y ∷ left))
      × ((go_on b x rest left).1 ≡ not (any gone (y ∷ left)))
unfolding any
go_on-any gone true x y rest left e f g h = (ground arith, ground arith)
go_on-any gone false x y rest left e f g h = (ground arith, ground arith)

module _ {M : Type 0} where
  abbrev pub is_gone : Sender M → Bool
  is_gone s = not s.connected

  abbrev pub some_gone : List (Sender M) → Bool
  some_gone channels = any is_gone channels

  abbrev pub some_subscriber_gone : List (ℕ × List (Sender M)) → Bool
  some_subscriber_gone paras = any (λ (p : ℕ × List (Sender M)). some_gone p.1) paras

  send-connected : (m : M) (s : Sender M) → (send m s).0.connected ≡ s.connected
  unfolding send
  send-connected m s =
      elim s.connected
        as (λ b.
          (if b then record s { messages = s.messages ++ m ∷ [] } else s).connected ≡ s.connected) [
            | true ↦ refl
            | false ↦ refl
          ]

  -- A message changes no connection, and a loop gets through if every receiver is there.
  pub send_each-gone :
      (m : M) (channels : List (Sender M))
      → (some_gone (send_each m channels).0 ≡ some_gone channels)
        × ((send_each m channels).1 ≡ not (some_gone channels))
  unfolding send_each any send
  send_each-gone m [] = (refl, refl)
  send_each-gone m (s ∷ channels) =
      let h = send_each-gone m channels in
      go_on-any is_gone s.connected (send m s).0 s (send_each m channels) channels
        (ap not (send-connected m s)) (ground arith) h.0 h.1

  pub send_by_para-gone :
      (m : ℕ → M) (paras : List (ℕ × List (Sender M)))
      → (some_subscriber_gone (send_by_para m paras).0 ≡ some_subscriber_gone paras)
        × ((send_by_para m paras).1 ≡ not (some_subscriber_gone paras))
  unfolding send_by_para any
  send_by_para-gone m [] = (refl, refl)
  send_by_para-gone m ((p, channels) ∷ paras) =
      let h = send_by_para-gone m paras in
      let k = send_each-gone (m p) channels in
      go_on-any (λ (q : ℕ × List (Sender M)). some_gone q.1) (send_each (m p) channels).1
        (p, (send_each (m p) channels).0) (p, channels) (send_by_para m paras) paras k.0 k.1 h.0 h.1

  send_priority-connected : (m : M) (s : Sender M) → (send_priority m s).connected ≡ s.connected
  unfolding send_priority
  send_priority-connected m s =
      elim s.connected
        as (λ b.
          (if b
            then record s { priority_messages = s.priority_messages ++ m ∷ [] }
            else s).connected
          ≡ s.connected) [ true ↦ refl | false ↦ refl ]

  send_priority-gone :
      (m : M) (channels : List (Sender M))
      → some_gone (map (send_priority m) channels) ≡ some_gone channels
  unfolding any
  send_priority-gone m [] = refl
  send_priority-gone m (s ∷ channels) =
      ground (arith, send_priority-connected m s, send_priority-gone m channels)

  send_priority_all-gone :
      (m : M) (paras : List (ℕ × List (Sender M)))
      → some_subscriber_gone (map_values (map (send_priority m)) paras) ≡ some_subscriber_gone paras
  unfolding any map_values
  send_priority_all-gone m [] = refl
  send_priority_all-gone m ((p, channels) ∷ paras) =
      ground (arith, send_priority-gone m channels, send_priority_all-gone m paras)

-- Some subscriber of a parachain has gone.
abbrev pub HasGoneSubscriber : Collector → Type 0
HasGoneSubscriber c = some_subscriber_gone c.subscribe_channels ≡ true

-- The number of the block stands still, and the subscriber stays gone.
abbrev pub IsStuck : Collector → Collector → Type 0
IsStuck c d =
    HasGoneSubscriber c
    → HasGoneSubscriber d
      × (d.state.current_relay_chain_block_number ≡ c.state.current_relay_chain_block_number)

update_state-IsStuck : (c : Collector) (n : ℕ) (h : H256) → IsStuck c (update_state n h c).1
unfolding update_state ◌>>◌ ◌>>=◌ tell_subscribers
update_state-IsStuck c n h g =
    let m = new_head_of c.state c.state.authors_missing_their_slots in
    let k = send_by_para-gone m c.subscribe_channels in
    let e : (send_by_para m c.subscribe_channels).1 ≡ false = k.1 ∙ ap not g in rw e (k.0 ∙ g, refl)

told_subscribers-IsStuck :
    (b : Bool) (r : List (Sender CollectorUpdateEvent) × Bool) (c : Collector)
    → IsStuck c (told_subscribers b r c).1
told_subscribers-IsStuck true (channels, true) c g = (g, refl)
told_subscribers-IsStuck true (channels, false) c g = (g, refl)
told_subscribers-IsStuck false r c g = (g, refl)

broadcast_event-IsStuck :
    (c : Collector) (e : CollectorUpdateEvent) → IsStuck c (broadcast_event e c).1
unfolding broadcast_event
broadcast_event-IsStuck c e g =
    told_subscribers-IsStuck (send_by_para (λ p. e) c.subscribe_channels).1
      (send_each e c.broadcast_channels) _ ((send_by_para-gone (λ p. e) c.subscribe_channels).0 ∙ g)

abbrev stuck : Frame
unfolding terminate broadcast_event_priority
stuck = record {
  quiet = record {
    Rel = IsStuck;
    reflexive = λ c g. (g, refl);
    transitive = λ a b c h k g. let h' = h g in let k' = k h'.0 in (k'.0, k'.1 ∙ h'.1);
    of_storage = λ c s g. (g, refl);
  };
  of_websocket = λ c w g. (g, refl);
  of_state = λ c s e g. (g, sym e.0);
  of_finalize = λ c n g. (g, refl);
  of_broadcast = broadcast_event-IsStuck;
  of_update = λ c n h l. update_state-IsStuck c n h;
  of_terminate = λ c r g.
      (send_priority_all-gone (CollectorUpdateEvent.terminated r) c.subscribe_channels ∙ g, refl);
}

-- Once some subscriber of a parachain has gone, whatever the loop waits for and whatever the node
-- answers, the number of the current relay chain block stays what it is.
pub run-IsStuck :
    (node : Node) (inputs : List Input) (c : Collector)
    → HasGoneSubscriber c
    → (run_with_consumer_channel node inputs c).1.state.current_relay_chain_block_number
      ≡ c.state.current_relay_chain_block_number
unfolding stuck
run-IsStuck node inputs c g = (run_with_consumer_channel-Rel stuck node inputs c g).1
