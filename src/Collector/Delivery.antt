-- ===== src/Collector/Delivery.antt =====
-- What a new head tells the subscribers when none of them has gone.
use mathlib.Core.Path.{fun_ext}
use polkadot_introspector.Prelude.{
  ℕ, ◌≡◌, refl, arith, true, false, ◌++◌, List, [], ◌∷◌, map, nat_eq, any, ap, Option, none, some,
  is_some, keep, if◌then◌else◌, unwrap_or, Option-cases, inl, inr,
}
use polkadot_introspector.Prelude.Assoc.{keys, lookup}
use polkadot_introspector.Tracker.BlockInfo.{H256}
use polkadot_introspector.Tracker.Types.{DisputeInfo, NewHeadEvent}
use polkadot_introspector.Collector.Types.{Collector, CollectorState, CollectorUpdateEvent, Sender}
use polkadot_introspector.Collector.Action.{Result, modify, ◌>>◌, ◌>>=◌}
use polkadot_introspector.Collector.Broadcast.{
  send, send_each, send_by_para, send_heads, send_broadcasts, refresh_paras, reset_state,
  tell_subscribers, tell_broadcasts, update_state, new_head_of, disputes_concluded_of,
}
use polkadot_introspector.Collector.Connected.{is_gone, some_gone, some_subscriber_gone}

module _ {M : Type 0} where
  abbrev pub receive : M → Sender M → Sender M
  receive m s = record s { messages = s.messages ++ m ∷ [] }

  -- Every channel has the message of its parachain as its last.
  unfoldable pub delivered : (ℕ → M) → List (ℕ × List (Sender M)) → List (ℕ × List (Sender M))
  delivered m [] = []
  delivered m ((para_id, channels) ∷ paras) =
      (para_id, map (receive (m para_id)) channels) ∷ delivered m paras

  send_each-delivers :
      (m : M) (channels : List (Sender M))
      → some_gone channels ≡ false
      → send_each m channels ≡ (map (receive m) channels, true)
  unfolding send_each send any
  send_each-delivers m [] e = refl
  send_each-delivers m (s ∷ channels) e =
      let h : s.connected ≡ true = ground arith in
      let k : some_gone channels ≡ false = ground arith in
      rw (send_each-delivers m channels k, h) refl

  send_by_para-delivers :
      (m : ℕ → M) (paras : List (ℕ × List (Sender M)))
      → some_subscriber_gone paras ≡ false
      → send_by_para m paras ≡ (delivered m paras, true)
  unfolding send_by_para delivered any
  send_by_para-delivers m [] e = refl
  send_by_para-delivers m ((p, channels) ∷ paras) e =
      let h : some_gone channels ≡ false = ground arith in
      let k : some_subscriber_gone paras ≡ false = ground arith in
      rw (send_by_para, send_each-delivers (m p) channels h, send_by_para-delivers m paras k) refl

send_heads-sent :
    (m : ℕ → CollectorUpdateEvent) (paras : List ℕ) (s : Sender CollectorUpdateEvent)
    → is_gone s ≡ false
    → (send_heads m paras s).1 ≡ true
unfolding send_heads send
send_heads-sent m [] s e = refl
send_heads-sent m (p ∷ paras) s e =
    let rest =
      send_heads-sent m paras
        (record {
          connected = true;
          messages = s.messages ++ m p ∷ [];
          priority_messages = s.priority_messages;
        })
        refl in
    let h : s.connected ≡ true = ground arith in rw h rest

send_broadcasts-sent :
    (max : ℕ) (channels : List (Sender CollectorUpdateEvent)) (s : CollectorState)
    → some_gone channels ≡ false
    → (send_broadcasts max channels s).2 ≡ true
unfolding send_broadcasts any
send_broadcasts-sent max [] s e = refl
send_broadcasts-sent max (b ∷ channels) s e =
    let s' = refresh_paras max s in
    let h : is_gone b ≡ false = ground arith in
    let k : some_gone channels ≡ false = ground arith in
    let rest = send_broadcasts-sent max channels s' k in
    rw (send_broadcasts, send_heads-sent (new_head_of s' []) (keys s'.paras_seen) b h) rest

-- The disputes of a parachain that have a block at which they concluded.
abbrev pub with_a_block : List DisputeInfo → List DisputeInfo
with_a_block [] = []
with_a_block (d ∷ ds) =
    let rest = with_a_block ds in elim d.concluded [ none ↦ rest | some block ↦ d ∷ rest ]

-- The head that a parachain's subscribers are to be told when a block is over.
abbrev pub head_told : CollectorState → ℕ → NewHeadEvent
head_told s para_id = record {
  relay_parent_number = s.current_relay_chain_block_number;
  relay_parent_hashes = s.current_relay_chain_block_hashes;
  para_id = para_id;
  candidates_seen = elim (lookup para_id s.candidates_seen) [ none ↦ [] | some hashes ↦ hashes ];
  candidates_backed = s.candidates_backed;
  candidates_included = s.candidates_included;
  candidates_timed_out = s.candidates_timed_out;
  disputes_concluded = elim (lookup para_id s.disputes_seen) [
    | none ↦ []
    | some ds ↦ with_a_block ds
  ];
  authors_missing_their_slots = s.authors_missing_their_slots;
}

listed :
    (block : Option ℕ) (d : DisputeInfo) (ds : List DisputeInfo)
    → (if is_some block then d ∷ ds else ds) ≡ elim block [ none ↦ ds | some block ↦ d ∷ ds ]
listed none d ds = refl
listed (some block) d ds = refl

keep-with_a_block : (ds : List DisputeInfo) → keep (λ d. is_some d.concluded) ds ≡ with_a_block ds
unfolding keep
keep-with_a_block [] = refl
keep-with_a_block (d ∷ ds) = rw (keep-with_a_block ds) (listed d.concluded d (with_a_block ds))

disputes_concluded_of-told :
    (s : CollectorState) (para_id : ℕ)
    → disputes_concluded_of s para_id
      ≡ elim (lookup para_id s.disputes_seen) [ none ↦ [] | some ds ↦ with_a_block ds ]
unfolding disputes_concluded_of
disputes_concluded_of-told s para_id = elim (Option-cases (lookup para_id s.disputes_seen)) [
  | inl e ↦ rw e refl
  | inr (ds, e) ↦ rw (e, keep-with_a_block ds) refl
]

unwrap_or-nil :
    {T : Type 0} → (o : Option (List T)) → unwrap_or o [] ≡ elim o [ none ↦ [] | some xs ↦ xs ]
unwrap_or-nil none = refl
unwrap_or-nil (some xs) = refl

new_head_of-told :
    (s : CollectorState) (para_id : ℕ)
    → new_head_of s s.authors_missing_their_slots para_id
      ≡ CollectorUpdateEvent.new_head (head_told s para_id)
unfolding new_head_of
new_head_of-told s para_id =
    rw (unwrap_or-nil (lookup para_id s.candidates_seen), disputes_concluded_of-told s para_id) refl

all_told :
    (s : CollectorState)
    → new_head_of s s.authors_missing_their_slots ≡ λ para_id.
        CollectorUpdateEvent.new_head (head_told s para_id)
all_told s = fun_ext (new_head_of-told s)

-- The state of a block of which nothing has been seen yet.
abbrev pub IsFresh : ℕ → H256 → CollectorState → Type 0
IsFresh n h s =
    (s.current_relay_chain_block_number ≡ n)
    × (s.current_relay_chain_block_hashes ≡ h ∷ [])
    × (s.candidates_seen ≡ [])
    × (s.candidates_backed ≡ [])
    × (s.candidates_included ≡ [])
    × (s.candidates_timed_out ≡ [])
    × (s.disputes_seen ≡ [])
    × (s.authors_missing_their_slots ≡ [])

-- When no receiver has gone, the update of the state succeeds, and each subscriber of a parachain gets
-- one message: the number, the hashes and the backed, included and timed out candidates of the block
-- that is over, the parachain's own candidates, those of its disputes that have a block at which they
-- concluded, and the authors that missed their slots. Then the state has the new block's number and
-- hash, and no candidates, disputes or authors.
pub update_state-delivers :
    (n : ℕ) (h : H256) (c : Collector)
    → some_subscriber_gone c.subscribe_channels ≡ false
    → some_gone c.broadcast_channels ≡ false
    → let after = update_state n h c in
      (after.0 ≡ Result.done tt)
      × (after.1.subscribe_channels
          ≡ delivered
              (λ para_id. CollectorUpdateEvent.new_head (head_told c.state para_id))
              c.subscribe_channels)
      × IsFresh n h after.1.state
unfolding update_state ◌>>◌ ◌>>=◌ tell_subscribers tell_broadcasts modify reset_state
update_state-delivers n h c e f =
    let m = new_head_of c.state c.state.authors_missing_their_slots in
    rw
      (
        send_by_para-delivers m c.subscribe_channels e,
        send_broadcasts-sent c.max_parachain_stall c.broadcast_channels c.state f,
      )
      (
        refl,
        ap (λ m. delivered m c.subscribe_channels) (all_told c.state),
        (refl, refl, refl, refl, refl, refl, refl, refl),
      )
