-- ===== src/BlockTime/Times.antt =====
-- What `watch_node` of block-time/src/main.rs sends, against the heads that it sees.
use polkadot_introspector.Prelude.{
  ℕ, ◌+◌, ◌-◌, ◌<◌, ◌≡◌, refl, sym, ap, subst, Bool, true, false, Option, none, some, List, [], ◌∷◌,
  ◌++◌, map, All, if◌then◌else◌, ltb, ◌==◌, nat_eq, arith, Outcome, ok, panic, ◌>>=◌, inl, inr,
  Bool-cases,
}
use polkadot_introspector.Collector.Types.{ChainSubscriptionEvent}
use polkadot_introspector.BlockTime.{
  prometheus, cli, BlockTimeMessage, endpoint_disconnected, new_block_time, Effect, sent, observed,
  missed, Watch, Node, send, publish, observe, on_head, watch_loop, watch_node, receiver_is_there,
  fill_view,
}

abbrev pub Events : Type 0
Events = List (ChainSubscriptionEvent × Option ℕ)

-- The number and the time of each head before the end whose time was read.
unfoldable pub heads_of : Events → List (ℕ × ℕ)
heads_of [] = []
heads_of ((ChainSubscriptionEvent.heartbeat, _) ∷ events) = heads_of events
heads_of ((ChainSubscriptionEvent.termination, _) ∷ events) = []
heads_of ((ChainSubscriptionEvent.new_best_head _ header, some ts) ∷ events) =
    (header.number, ts) ∷ heads_of events
heads_of ((ChainSubscriptionEvent.new_finalized_block _ header, some ts) ∷ events) =
    (header.number, ts) ∷ heads_of events
heads_of ((_, none) ∷ events) = heads_of events

-- The time between a head and the one after it, where the later is the block behind the earlier.
unfoldable pub times_after : ℕ → ℕ → List (ℕ × ℕ) → List ℕ
times_after number ts [] = []
times_after number ts ((later, later_ts) ∷ heads) =
    let rest = times_after later later_ts heads in
    if later == number + 1 then (later_ts - ts) ∷ rest else rest

unfoldable pub block_times : List (ℕ × ℕ) → List ℕ
unfolding times_after
block_times [] = []
block_times ((number, ts) ∷ heads) = times_after number ts heads

module _ {U : Type 0} where
  -- The messages among what a task does.
  unfoldable pub messages : List (Effect U) → List (BlockTimeMessage U)
  messages [] = []
  messages (sent m ∷ effects) = m ∷ messages effects
  messages (_ ∷ effects) = messages effects

  messages-append : (xs ys : List (Effect U)) → messages (xs ++ ys) ≡ messages xs ++ messages ys
  unfolding messages
  messages-append [] ys = refl
  messages-append (sent m ∷ xs) ys = ap (λ t. m ∷ t) (messages-append xs ys)
  messages-append (observed ms ∷ xs) ys = messages-append xs ys
  messages-append (missed n ∷ xs) ys = messages-append xs ys

  -- A run that does not panic, with the messages that it sends.
  abbrev pub Sends : Outcome (List (Effect U)) → List (BlockTimeMessage U) → Type 0
  Sends run expected =
      (effects : List (Effect U)) × (run ≡ ok effects) × (messages effects ≡ expected)

  Sends-then :
      (m n : Outcome (List (Effect U))) (a b : List (BlockTimeMessage U))
      → Sends m a
      → Sends n b
      → Sends (m >>= λ x. n >>= λ y. ok (x ++ y)) (a ++ b)
  Sends-then m n a b (x, run_m, told_m) (y, run_n, told_n) =
      (x ++ y, rw (run_m, run_n) refl, rw (sym told_m, sym told_n) (messages-append x y))

  module _ (url : U) (width : ℕ) where
    abbrev told : List ℕ → List (BlockTimeMessage U)
    told times = map (λ ms. new_block_time url ms) times ++ endpoint_disconnected ∷ []

    on_head-first :
        (number ts prev_ts : ℕ)
        → Sends
            (on_head (cli width) url false (record { prev_ts = prev_ts; prev_block = 0 }) number ts)
            []
    unfolding on_head observe messages
    on_head-first number ts prev_ts = ([], refl, refl)

    on_head-gap : (b : Bool) (n : ℕ) → Sends (if b then ok (missed n ∷ []) else ok []) []
    unfolding messages
    on_head-gap true n = (missed n ∷ [], refl, refl)
    on_head-gap false n = ([], refl, refl)

    on_head-next :
        (w : Watch) (number ts : ℕ)
        → 0 < w.prev_block
        → Sends
            (on_head (cli width) url false w number ts)
            (if number == w.prev_block + 1 then new_block_time url (ts - w.prev_ts) ∷ [] else [])
    unfolding on_head publish observe send receiver_is_there messages
    on_head-next w number ts h =
        let some_block : (w.prev_block == 0) ≡ false = ground arith in
        elim (Bool-cases (number == w.prev_block + 1)) [
          | inl e ↦
              let next : (number - w.prev_block == 1) ≡ true = ground arith in
              rw (e, some_block, next) (sent (new_block_time url (ts - w.prev_ts)) ∷ [], refl, refl)
          | inr e ↦
              let other : (number - w.prev_block == 1) ≡ false = ground arith in
              rw (e, some_block, other) (on_head-gap (ltb 1 (number - w.prev_block)) _)
        ]

    told_one :
        (b : Bool) (ms : ℕ) (rest : List ℕ)
        → (if b then new_block_time url ms ∷ [] else []) ++ told rest
          ≡ told (if b then ms ∷ rest else rest)
    told_one true ms rest = refl
    told_one false ms rest = refl

    abbrev watching : ℕ → ℕ → Events → Outcome (List (Effect U))
    watching number ts events =
        watch_loop (cli width) url false (record { prev_ts = ts; prev_block = number }) events

    ends : Sends (send (cli width) endpoint_disconnected) (told [])
    unfolding send receiver_is_there messages
    ends = (sent endpoint_disconnected ∷ [], refl, refl)

    after_head :
        (number ts later later_ts : ℕ) (events : Events)
        → 0 < number
        → Sends
            (watching later later_ts events)
            (told (times_after later later_ts (heads_of events)))
        → Sends
            (on_head
                (cli width)
                url
                false
                (record { prev_ts = ts; prev_block = number })
                later
                later_ts
              >>= λ x. watching later later_ts events >>= λ y. ok (x ++ y))
            (told (times_after number ts ((later, later_ts) ∷ heads_of events)))
    unfolding times_after
    after_head number ts later later_ts events h rest =
        let w : Watch = record { prev_ts = ts; prev_block = number } in
        let one = on_head-next w later later_ts h in
        subst (Sends _) (told_one (later == number + 1) (later_ts - ts) _)
          (Sends-then _ (watching later later_ts events) _ _ one rest)

    watching-after :
        (events : Events) (number ts : ℕ)
        → 0 < number
        → All (λ h. 0 < h.0) (heads_of events)
        → Sends (watching number ts events) (told (times_after number ts (heads_of events)))
    unfolding watch_loop heads_of times_after
    watching-after [] number ts h positive = ends
    watching-after ((ChainSubscriptionEvent.heartbeat, _) ∷ events) number ts h positive =
        watching-after events number ts h positive
    watching-after ((ChainSubscriptionEvent.termination, _) ∷ events) number ts h positive = ends
    watching-after ((ChainSubscriptionEvent.new_best_head _ header, none) ∷ events) number ts h
          positive =
        watching-after events number ts h positive
    watching-after ((ChainSubscriptionEvent.new_finalized_block _ header, none) ∷ events) number ts
          h positive =
        watching-after events number ts h positive
    watching-after ((ChainSubscriptionEvent.new_best_head _ header, some later_ts) ∷ events) number
          ts h positive =
        after_head number ts header.number later_ts events h
          (watching-after events header.number later_ts positive.0 positive.1)
    watching-after ((ChainSubscriptionEvent.new_finalized_block _ header, some later_ts) ∷ events)
          number ts h positive =
        after_head number ts header.number later_ts events h
          (watching-after events header.number later_ts positive.0 positive.1)

    watching-first :
        (events : Events)
        → All (λ h. 0 < h.0) (heads_of events)
        → Sends (watching 0 0 events) (told (block_times (heads_of events)))
    unfolding watch_loop heads_of block_times
    watching-first [] positive = ends
    watching-first ((ChainSubscriptionEvent.heartbeat, _) ∷ events) positive =
        watching-first events positive
    watching-first ((ChainSubscriptionEvent.termination, _) ∷ events) positive = ends
    watching-first ((ChainSubscriptionEvent.new_best_head _ header, none) ∷ events) positive =
        watching-first events positive
    watching-first ((ChainSubscriptionEvent.new_finalized_block _ header, none) ∷ events) positive =
        watching-first events positive
    watching-first ((ChainSubscriptionEvent.new_best_head _ header, some ts) ∷ events) positive =
        Sends-then _ (watching header.number ts events) _ _ (on_head-first header.number ts 0)
          (watching-after events header.number ts positive.0 positive.1)
    watching-first ((ChainSubscriptionEvent.new_finalized_block _ header, some ts) ∷ events)
          positive =
        Sends-then _ (watching header.number ts events) _ _ (on_head-first header.number ts 0)
          (watching-after events header.number ts positive.0 positive.1)

  -- On the command line, if the view is filled without a panic and no head has number 0: behind what
  -- fills the view, the watcher sends the time between every two heads in a row whose numbers follow
  -- one another, in order, of those heads before the end whose time could be read, and at the end that
  -- the endpoint is gone; it does not panic.
  pub watch_node-times :
      (node : Node) (url : U) (width : ℕ) (events : Events) (filled : List (Effect U))
      → fill_view (cli width) node url ≡ ok filled
      → All (λ h. 0 < h.0) (heads_of events)
      → Sends (watch_node (cli width) false node url events) (
          messages filled
          ++ (map (λ ms. new_block_time url ms) (block_times (heads_of events))
              ++ endpoint_disconnected ∷ []))
  unfolding watch_node
  watch_node-times node url width events filled h positive =
      Sends-then _ (watching url width 0 0 events) _ _ (filled, h, refl)
        (watching-first url width events positive)

head_panics :
    {U : Type 0} (m n : Outcome (List (Effect U)))
    → n ≡ panic
    → (m >>= λ x. n >>= λ y. ok (x ++ y)) ≡ panic
head_panics (ok x) n h = rw h refl
head_panics panic n h = refl

watch_loop-panics :
    {U : Type 0} (url : U) (has_metric : Bool) (events : Events) (w : Watch)
    → watch_loop prometheus url has_metric w events ≡ panic
unfolding watch_loop send receiver_is_there
watch_loop-panics url m [] w = refl
watch_loop-panics url m ((ChainSubscriptionEvent.heartbeat, _) ∷ events) w =
    watch_loop-panics url m events w
watch_loop-panics url m ((ChainSubscriptionEvent.termination, _) ∷ events) w = refl
watch_loop-panics url m ((ChainSubscriptionEvent.new_best_head _ header, none) ∷ events) w =
    watch_loop-panics url m events w
watch_loop-panics url m ((ChainSubscriptionEvent.new_finalized_block _ header, none) ∷ events) w =
    watch_loop-panics url m events w
watch_loop-panics url m ((ChainSubscriptionEvent.new_best_head _ header, some ts) ∷ events) w =
    head_panics _ (watch_loop prometheus url m _ events)
      (watch_loop-panics url m events (record { prev_ts = ts; prev_block = header.number }))
watch_loop-panics url m ((ChainSubscriptionEvent.new_finalized_block _ header, some ts) ∷ events)
      w =
    head_panics _ (watch_loop prometheus url m _ events)
      (watch_loop-panics url m events (record { prev_ts = ts; prev_block = header.number }))

-- In the Prometheus mode, where nobody receives the messages, a watcher ends in a panic, whatever it
-- watched before its end.
pub watch_node-panics :
    {U : Type 0} (has_metric : Bool) (node : Node) (url : U) (events : Events)
    → watch_node prometheus has_metric node url events ≡ panic
unfolding watch_node fill_view
watch_node-panics has_metric node url events = rw (watch_loop-panics url has_metric events _) refl
