-- ===== src/Channel/Order.antt =====
-- The order in which a receiver of priority-channel/src/lib.rs hands out messages.
use polkadot_introspector.Prelude.{
  ℕ, zero, map, suc, ◌+◌, ◌<◌, ◌≡◌, refl, ◌∙◌, true, false, none, List, [], ◌∷◌, ◌++◌, length,
  arith, length-append,
}
use polkadot_introspector.Channel.{
  AsyncChannel, ChannelLaws, Receiver, Received, TryRecvError, Poll, Sent, recv_inner,
  recv_priority, or_else, try_next_with_strategy, try_next, poll_regular, poll_next, len,
  is_terminated, try_send, try_send_priority, drop_sender,
}

append-nil : {A : Type 0} (xs ys : List A) → xs ++ ys ≡ [] → (xs ≡ []) × (ys ≡ [])
append-nil [] ys e = (refl, e)
append-nil (x ∷ xs) ys e = ground (arith, e)

module _ {T : Type 0} (c : AsyncChannel T) (l : ChannelLaws T c) where
  -- What a receiver still holds, in the order of `PriorityFirst`.
  unfoldable pub waiting : Receiver c → List T
  waiting r = l.messages r.inner_priority ++ l.messages r.inner

  unfoldable pub IsOpen : Receiver c → Type 0
  IsOpen r = (l.is_closed r.inner_priority ≡ false) × (l.is_closed r.inner ≡ false)

  -- A message of the priority channel comes first, whatever the regular one holds.
  from_priority :
      (r : Receiver c) (x : T) (xs : List T)
      → l.messages r.inner_priority ≡ x ∷ xs
      → let (v, r') = try_next c r in
        (v ≡ Received.ok x)
        × (l.messages r'.inner_priority ≡ xs)
        × (l.is_closed r'.inner_priority ≡ l.is_closed r.inner_priority)
        × (r'.inner ≡ r.inner)
  unfolding try_next try_next_with_strategy recv_inner recv_priority or_else
  from_priority r x xs e =
      let (value, rest, same) = l.try_recv_some r.inner_priority x xs e in
      rw value (refl, rest, same, refl)

  -- With the priority channel empty and open, it is the regular one that is read.
  from_regular :
      (r : Receiver c)
      → l.messages r.inner_priority ≡ []
      → l.is_closed r.inner_priority ≡ false
      → let (v, r') = try_next c r in
        (v ≡ (c.try_recv r.inner).0)
        × (l.messages r'.inner_priority ≡ [])
        × (l.is_closed r'.inner_priority ≡ false)
        × (r'.inner ≡ (c.try_recv r.inner).1)
  unfolding try_next try_next_with_strategy recv_inner recv_priority or_else
  from_regular r e unclosed =
      let (value, rest, same) = l.try_recv_none r.inner_priority e in
      let missing : (c.try_recv r.inner_priority).0 ≡ Received.err TryRecvError.empty =
        value ∙ rw unclosed refl in
      rw missing (refl, rest, same ∙ unclosed, refl)

  next_is_head :
      (r : Receiver c) (ps : List T) (x : T) (xs : List T)
      → IsOpen r
      → l.messages r.inner_priority ≡ ps
      → waiting r ≡ x ∷ xs
      → let (v, r') = try_next c r in (v ≡ Received.ok x) × (waiting r' ≡ xs) × IsOpen r'
  unfolding waiting IsOpen
  next_is_head r [] x xs h e w =
      let regular : l.messages r.inner ≡ x ∷ xs = rw e at w in
      let (value, rest, unclosed, inner) = from_regular r e h.0 in
      let (head, tail, same) = l.try_recv_some r.inner x xs regular in
      (value ∙ head, rw (rest, inner, tail) refl, (unclosed, rw inner (same ∙ h.1)))
  next_is_head r (p ∷ ps) x xs h e w =
      let (value, rest, same, inner) = from_priority r p ps e in
      let split : p ∷ (ps ++ l.messages r.inner) ≡ x ∷ xs = rw e at w in
      ground (arith, value, rest, same, inner, split, h)

  nothing_left :
      (r : Receiver c)
      → IsOpen r
      → waiting r ≡ []
      → (try_next c r).0 ≡ Received.err TryRecvError.empty
  unfolding waiting IsOpen
  nothing_left r h w =
      let (no_priority, no_regular) = append-nil (l.messages r.inner_priority) _ w in
      let (value, _, _, _) = from_regular r no_priority h.0 in
      value ∙ (l.try_recv_none r.inner no_regular).0 ∙ rw h.1 refl

  unfoldable pub take_next : ℕ → Receiver c → List (Received T) × Receiver c
  take_next zero r = ([], r)
  take_next (suc n) r =
      let (v, r') = try_next c r in let (vs, r'') = take_next n r' in (v ∷ vs, r'')

  taken :
      (xs : List T) (r : Receiver c)
      → IsOpen r
      → waiting r ≡ xs
      → let (vs, r') = take_next (length xs) r in
        (vs ≡ map Received.ok xs) × (waiting r' ≡ []) × IsOpen r'
  unfolding take_next
  taken [] r h w = (refl, w, h)
  taken (x ∷ xs) r h w =
      let (value, rest, next) = next_is_head r (l.messages r.inner_priority) x xs h refl w in
      let (values, done, last) = taken xs (try_next c r).1 next rest in
      (rw (value, values) refl, done, last)

  -- While both channels are open, as many calls of `try_next` as there are messages return all of
  -- them: first those of the priority channel, then those of the regular one, each in the order in
  -- which they were sent; nothing is left, and the next call says so.
  pub drained_in_order :
      (r : Receiver c)
      → IsOpen r
      → let (vs, r') = take_next (length (waiting r)) r in
        (vs ≡ map Received.ok (l.messages r.inner_priority ++ l.messages r.inner))
        × (waiting r' ≡ [])
        × ((try_next c r').0 ≡ Received.err TryRecvError.empty)
  unfolding waiting IsOpen
  drained_in_order r h =
      let (values, done, open') = taken (waiting r) r h refl in
      (values, done, nothing_left (take_next (length (waiting r)) r).1 open' done)

  -- Once the senders are gone, the regular messages that still wait cannot be received when the
  -- priority channel is empty: `try_next` says that the channel is closed, the stream ends, and
  -- `is_terminated` holds, while the messages are still there.
  pub drop_sender_strands :
      (r : Receiver c)
      → l.messages r.inner_priority ≡ []
      → let r' = drop_sender c r in
        ((try_next c r').0 ≡ Received.err TryRecvError.closed)
        × ((poll_next c r').0 ≡ Poll.ready none)
        × (is_terminated c r' ≡ true)
        × (waiting (try_next c r').1 ≡ l.messages r.inner)
        × (waiting (poll_next c r').1 ≡ l.messages r.inner)
  unfolding drop_sender try_next try_next_with_strategy recv_priority or_else poll_next poll_regular
      is_terminated waiting
  drop_sender_strands r e =
      let (same_p, closed_p) = l.close_lem r.inner_priority in
      let (same_i, closed_i) = l.close_lem r.inner in
      let gone = same_p ∙ e in
      let (recv, recv_left, _) = l.try_recv_none (c.close r.inner_priority) gone in
      let (poll, poll_left, _) = l.poll_next_none (c.close r.inner_priority) gone in
      let ended = l.is_terminated_lem (c.close r.inner_priority) gone in
      let recv' : (c.try_recv (c.close r.inner_priority)).0 ≡ Received.err TryRecvError.closed =
        recv ∙ rw closed_p refl in
      let poll' : (c.poll_next (c.close r.inner_priority)).0 ≡ Poll.ready none =
        poll ∙ rw closed_p refl in
      (
        rw recv' refl,
        rw poll' refl,
        ground (arith, ended, closed_p),
        rw (recv', recv_left, same_i) refl,
        rw (poll', poll_left, same_i) refl,
      )

  -- With room in both channels, a regular message and then a priority one are accepted; the priority
  -- message waits behind the earlier priority messages and before all regular ones, the regular
  -- message waits last, and the length counts both.
  pub send_both :
      (r : Receiver c) (a b : T)
      → IsOpen r
      → length (l.messages r.inner) < l.capacity r.inner
      → length (l.messages r.inner_priority) < l.capacity r.inner_priority
      → let (sent_a, r₁) = try_send c r a in
        let (sent_b, r₂) = try_send_priority c r₁ b in
        (sent_a ≡ Sent.sent)
        × (sent_b ≡ Sent.sent)
        × (waiting r₂ ≡ (l.messages r.inner_priority ++ b ∷ []) ++ (l.messages r.inner ++ a ∷ []))
        × (len c r₂ ≡ len c r + 2)
  unfolding try_send try_send_priority waiting len IsOpen
  send_both r a b h room_a room_b =
      let (sent_a, new_a, _) = l.try_send_room r.inner a h.1 room_a in
      let (sent_b, new_b, _) = l.try_send_room r.inner_priority b h.0 room_b in
      (
        sent_a,
        sent_b,
        rw (new_a, new_b) refl,
        rw
            (
              l.len_lem (c.try_send r.inner a).1,
              l.len_lem (c.try_send r.inner_priority b).1,
              l.len_lem r.inner,
              l.len_lem r.inner_priority,
              new_a,
              new_b,
            )
            (omega (
              arith,
              length-append (l.messages r.inner) (a ∷ []),
              length-append (l.messages r.inner_priority) (b ∷ []),
            )),
      )
