-- ===== src/Channel/Tests.antt =====
-- Examples of the channel, over a queue that keeps the laws.
use polkadot_introspector.Prelude.{
  ℕ, ◌≡◌, refl, Bool, true, false, ◌&&◌, Option, none, some, List, [], ◌∷◌, ◌++◌, arith, ltb,
  length, if◌then◌else◌,
}
use polkadot_introspector.Channel.{
  AsyncChannel, ChannelLaws, Receiver, Received, TryRecvError, Poll, Sent, try_next, poll_next,
  is_terminated, drop_sender,
}
use polkadot_introspector.Channel.Order.{
  waiting, IsOpen, take_next, drained_in_order, drop_sender_strands,
}

record Queue : Type 0 where
  messages : List ℕ
  is_closed : Bool
  capacity : ℕ

abbrev queue_try_recv : Queue → Received ℕ × Queue
queue_try_recv q = elim q.messages [
  | [] ↦ (
    (if q.is_closed then Received.err TryRecvError.closed else Received.err TryRecvError.empty),
    record q { messages = [] },
  )
  | x ∷ xs ↦ (Received.ok x, record q { messages = xs })
]

abbrev queue_poll_next : Queue → Poll (Option ℕ) × Queue
queue_poll_next q = elim q.messages [
  | [] ↦ ((if q.is_closed then Poll.ready none else Poll.pending), record q { messages = [] })
  | x ∷ xs ↦ (Poll.ready (some x), record q { messages = xs })
]

abbrev queue_try_send : Queue → ℕ → Sent × Queue
queue_try_send q x =
    if q.is_closed
    then (Sent.disconnected, q)
    else if ltb (length q.messages) q.capacity
    then (Sent.sent, record q { messages = q.messages ++ x ∷ [] })
    else (Sent.full, q)

abbrev is_nil : List ℕ → Bool
is_nil [] = true
is_nil (x ∷ xs) = false

abbrev queues : AsyncChannel ℕ
queues = record {
  State = Queue;
  bounded = λ n. record { messages = []; is_closed = false; capacity = n };
  try_recv = queue_try_recv;
  poll_next = queue_poll_next;
  try_send = queue_try_send;
  close = λ q. record q { is_closed = true };
  len = λ q. length q.messages;
  is_empty = λ q. is_nil q.messages;
  is_terminated = λ q. q.is_closed && is_nil q.messages;
}

abbrev queue_laws : ChannelLaws ℕ queues
queue_laws = record {
  messages = λ q. q.messages;
  is_closed = λ q. q.is_closed;
  capacity = λ q. q.capacity;
  bounded_lem = λ n. (refl, refl, refl);
  try_recv_some = λ q x xs e. rw e (refl, refl, refl);
  try_recv_none = λ q e. rw e (refl, refl, refl);
  poll_next_some = λ q x xs e. rw e (refl, refl, refl);
  poll_next_none = λ q e. rw e (refl, refl, refl);
  try_send_room = λ q x unclosed room. ground arith;
  close_lem = λ q. (refl, refl);
  len_lem = λ q. refl;
  is_terminated_lem = λ q e. ground arith;
}

abbrev queue_of : List ℕ → Queue
queue_of xs = record { messages = xs; is_closed = false; capacity = 5 }

abbrev both : Receiver queues
both = record { inner = queue_of (1 ∷ 2 ∷ []); inner_priority = queue_of (9 ∷ []) }

drained_in_order_example :
    let (vs, r') = take_next queues queue_laws 3 both in
    (vs ≡ Received.ok 9 ∷ Received.ok 1 ∷ Received.ok 2 ∷ [])
    × (waiting queues queue_laws r' ≡ [])
    × ((try_next queues r').0 ≡ Received.err TryRecvError.empty)
unfolding waiting IsOpen
drained_in_order_example = drained_in_order queues queue_laws both (refl, refl)

abbrev regular_only : Receiver queues
regular_only = record { inner = queue_of (1 ∷ 2 ∷ []); inner_priority = queue_of [] }

drop_sender_strands_example :
    let r' = drop_sender queues regular_only in
    ((try_next queues r').0 ≡ Received.err TryRecvError.closed)
    × ((poll_next queues r').0 ≡ Poll.ready none)
    × (is_terminated queues r' ≡ true)
    × (waiting queues queue_laws (try_next queues r').1 ≡ 1 ∷ 2 ∷ [])
    × (waiting queues queue_laws (poll_next queues r').1 ≡ 1 ∷ 2 ∷ [])
drop_sender_strands_example = drop_sender_strands queues queue_laws regular_only refl
