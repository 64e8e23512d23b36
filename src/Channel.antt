-- ===== src/Channel.antt =====
-- priority-channel/src/lib.rs: a channel made of a regular and a priority channel of the package
-- async_channel, which is a parameter: `AsyncChannel` has the calls that the code makes, and
-- `ChannelLaws` what the package documents of them. Both ends hold handles of the same two channels,
-- so the state is one record, and dropping the last `Sender` closes both. Waiting (the futures of
-- `send`) is not modelled: a call that would wait is one that returns `Pending` or an error.
pub mod Order
mod Tests
use polkadot_introspector.Prelude.{
  ℕ, ◌+◌, ◌<◌, ◌≤◌, ◌≡◌, Bool, true, false, ◌&&◌, ◌||◌, Option, none, some, List, [], ◌∷◌, ◌++◌,
  if◌then◌else◌, length, arith,
}

pub data TryRecvError : Type 0 where
  empty closed : TryRecvError

pub data Received (T : Type 0) : Type 0 where
  ok : T → Received T
  err : TryRecvError → Received T

pub data Poll (A : Type 0) : Type 0 where
  ready : A → Poll A
  pending : Poll A

pub data Sent : Type 0 where
  sent full disconnected : Sent

pub record AsyncChannel (T : Type 0) : Type 1 where
  pub State : Type 0
  pub bounded : ℕ → State
  pub try_recv : State → Received T × State
  pub poll_next : State → Poll (Option T) × State
  pub try_send : State → T → Sent × State
  pub close : State → State
  pub len : State → ℕ
  pub is_empty : State → Bool
  pub is_terminated : State → Bool

-- The queue of a channel, whether it is closed, and what each call does to them.
pub record ChannelLaws (T : Type 0) (c : AsyncChannel T) : Type 0 where
  pub messages : c.State → List T
  pub is_closed : c.State → Bool
  pub capacity : c.State → ℕ
  pub bounded_lem :
      (n : ℕ)
      → (messages (c.bounded n) ≡ [])
        × (is_closed (c.bounded n) ≡ false)
        × (capacity (c.bounded n) ≡ n)
  pub try_recv_some :
      (s : c.State) (x : T) (xs : List T)
      → messages s ≡ x ∷ xs
      → ((c.try_recv s).0 ≡ Received.ok x)
        × (messages (c.try_recv s).1 ≡ xs)
        × (is_closed (c.try_recv s).1 ≡ is_closed s)
  pub try_recv_none :
      (s : c.State)
      → messages s ≡ []
      → ((c.try_recv s).0 ≡ (
          if is_closed s
          then Received.err TryRecvError.closed
          else Received.err TryRecvError.empty))
        × (messages (c.try_recv s).1 ≡ [])
        × (is_closed (c.try_recv s).1 ≡ is_closed s)
  pub poll_next_some :
      (s : c.State) (x : T) (xs : List T)
      → messages s ≡ x ∷ xs
      → ((c.poll_next s).0 ≡ Poll.ready (some x))
        × (messages (c.poll_next s).1 ≡ xs)
        × (is_closed (c.poll_next s).1 ≡ is_closed s)
  pub poll_next_none :
      (s : c.State)
      → messages s ≡ []
      → ((c.poll_next s).0 ≡ (if is_closed s then Poll.ready none else Poll.pending))
        × (messages (c.poll_next s).1 ≡ [])
        × (is_closed (c.poll_next s).1 ≡ is_closed s)
  pub try_send_room :
      (s : c.State) (x : T)
      → is_closed s ≡ false
      → length (messages s) < capacity s
      → ((c.try_send s x).0 ≡ Sent.sent)
        × (messages (c.try_send s x).1 ≡ messages s ++ x ∷ [])
        × (is_closed (c.try_send s x).1 ≡ false)
  pub close_lem :
      (s : c.State) → (messages (c.close s) ≡ messages s) × (is_closed (c.close s) ≡ true)
  pub len_lem : (s : c.State) → c.len s ≡ length (messages s)
  pub is_terminated_lem : (s : c.State) → messages s ≡ [] → c.is_terminated s ≡ is_closed s

module _ {T : Type 0} (c : AsyncChannel T) where
  -- `Sender` and `Receiver`
  pub record Receiver : Type 0 where
    pub inner : c.State
    pub inner_priority : c.State

  -- `channel` and `channel_with_capacities`
  unfoldable pub channel_with_capacities : ℕ → ℕ → Receiver
  channel_with_capacities bulk_capacity priority_capacity = record {
    inner = c.bounded bulk_capacity;
    inner_priority = c.bounded priority_capacity;
  }

  unfoldable pub channel : ℕ → Receiver
  channel capacity = record { inner = c.bounded capacity; inner_priority = c.bounded capacity }

  unfoldable pub recv_inner : Receiver → Received T × Receiver
  recv_inner r = let (v, s) = c.try_recv r.inner in (v, record r { inner = s })

  unfoldable pub recv_priority : Receiver → Received T × Receiver
  recv_priority r = let (v, s) = c.try_recv r.inner_priority in (v, record r { inner_priority = s })

  -- The second channel is tried only when the first one is empty, not when it is closed.
  unfoldable pub or_else :
      Received T × Receiver → (Receiver → Received T × Receiver) → Received T × Receiver
  or_else (Received.ok v, r) second = (Received.ok v, r)
  or_else (Received.err TryRecvError.empty, r) second = second r
  or_else (Received.err TryRecvError.closed, r) second = (Received.err TryRecvError.closed, r)

  -- The argument is what `S::should_try_priority` returns.
  unfoldable pub try_next_with_strategy : Bool → Receiver → Received T × Receiver
  try_next_with_strategy true r = or_else (recv_priority r) recv_inner
  try_next_with_strategy false r = or_else (recv_inner r) recv_priority

  -- `PriorityFirst`
  unfoldable pub try_next : Receiver → Received T × Receiver
  try_next r = try_next_with_strategy true r

  unfoldable pub poll_regular : Poll (Option T) × c.State → c.State → Poll (Option T) × Receiver
  poll_regular (Poll.ready v, p) inner =
      (Poll.ready v, record { inner = inner; inner_priority = p })
  poll_regular (Poll.pending, p) inner =
      let (v, s) = c.poll_next inner in (v, record { inner = s; inner_priority = p })

  unfoldable pub poll_next : Receiver → Poll (Option T) × Receiver
  poll_next r = poll_regular (c.poll_next r.inner_priority) r.inner

  unfoldable pub len : Receiver → ℕ
  len r = c.len r.inner + c.len r.inner_priority

  unfoldable pub is_empty : Receiver → Bool
  is_empty r = c.is_empty r.inner && c.is_empty r.inner_priority

  unfoldable pub is_terminated : Receiver → Bool
  is_terminated r = c.is_terminated r.inner || c.is_terminated r.inner_priority

  unfoldable pub try_send : Receiver → T → Sent × Receiver
  try_send r msg = let (v, s) = c.try_send r.inner msg in (v, record r { inner = s })

  unfoldable pub try_send_priority : Receiver → T → Sent × Receiver
  try_send_priority r msg =
      let (v, s) = c.try_send r.inner_priority msg in (v, record r { inner_priority = s })

  -- The last `Sender` is dropped.
  unfoldable pub drop_sender : Receiver → Receiver
  drop_sender r = record { inner = c.close r.inner; inner_priority = c.close r.inner_priority }
