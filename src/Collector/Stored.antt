-- ===== src/Collector/Stored.antt =====
-- What the handlers of events leave in the storage for the trackers.
use polkadot_introspector.Prelude.{
  ℕ, ◌≡◌, refl, ap, true, ◌++◌, Option, none, some, [], ◌∷◌, nat_eq, is_some, and_then, ◌-◌,
}
use polkadot_introspector.Api
use polkadot_introspector.Api.{reply, reply_if}
use polkadot_introspector.Api.Executor
use polkadot_introspector.Api.Executor.{as_read-read}
use polkadot_introspector.Storage.Entry.{StorageEntry, Codec, new_onchain, into_inner, with_ts}
use polkadot_introspector.Storage.Prefixed
use polkadot_introspector.Storage.Prefixed.{Prefixed}
use polkadot_introspector.Storage.Prefixed.Reads.{get_prefix-replace_prefixed}
use polkadot_introspector.Tracker.BlockInfo.{H256}
use polkadot_introspector.Tracker.Records.{CollectorPrefixType, candidate, prefix_eq}
use polkadot_introspector.Tracker.Types.{CandidateRecord}
use polkadot_introspector.Collector.Types.{
  Collector, CollectorState, Sender, SubxtCandidateEvent, WebSocketUpdateEvent, WebSocketEventType,
  included,
}
use polkadot_introspector.Collector.Action.{
  Result, ◌>>=◌, ◌>>◌, gets, pure, or_fail, modify_state, if_none, storage_read_prefixed,
  storage_replace_prefixed,
}
use polkadot_introspector.Collector.Broadcast.{send}
use polkadot_introspector.Collector.Node.{Node}
use polkadot_introspector.Collector.Candidates.{
  told, tell_websocket, see_candidate, replace_candidate, decode_candidate, update_of,
  process_included, included_at, change_candidate, process_candidate_change,
}

pub storage_read_prefixed_lem :
    (p : CollectorPrefixType) (k : H256) (c : Collector)
    → storage_read_prefixed p k c ≡ (Result.done (Prefixed.get_prefix c.storage p k), c)
unfolding storage_read_prefixed Executor.storage_read_prefixed Executor.ask Api.handle_prefixed
    reply
storage_read_prefixed_lem p k c =
    rw (as_read-read H256 CollectorPrefixType (Prefixed.get_prefix c.storage p k)) refl

pub storage_replace_prefixed_lem :
    (p : CollectorPrefixType) (k : H256) (v : StorageEntry) (c : Collector)
    → storage_replace_prefixed p k v c
      ≡ (Result.done tt, record c { storage = (Prefixed.replace_prefixed c.storage p k v).0 })
unfolding storage_replace_prefixed Executor.storage_replace_prefixed Executor.ask
    Api.handle_prefixed reply_if
storage_replace_prefixed_lem p k v c = refl

-- A codec reads what it wrote.
abbrev pub RoundTrips : {T : Type 0} → Codec T → Type 0
RoundTrips {T = T} codec = (x : T) → codec.decode (codec.encode x) ≡ some x

-- There is no websocket, or its end is still there.
abbrev pub CanTell : Option (Sender WebSocketUpdateEvent) → Type 0
CanTell none = Unit
CanTell (some s) = s.connected ≡ true

-- The candidate's record under its parachain.
abbrev pub stored_candidate : ℕ → H256 → Collector → Option CandidateRecord
stored_candidate para_id candidate_hash c =
    and_then (Prefixed.get_prefix c.storage (candidate para_id) candidate_hash)
      (λ entry. into_inner c.codecs.candidate_codec entry)

pub tell_websocket-told :
    (e : WebSocketUpdateEvent) (c : Collector)
    → CanTell c.to_websocket
    → tell_websocket e c
      ≡ (Result.done tt, record c { to_websocket = (tell_websocket e c).1.to_websocket })
unfolding tell_websocket send pure
tell_websocket-told e c h = told_lem c.to_websocket refl h
  where
    told_lem :
        (w : Option (Sender WebSocketUpdateEvent))
        → c.to_websocket ≡ w
        → CanTell w
        → told w e c ≡ (Result.done tt, record c { to_websocket = (told w e c).1.to_websocket })
    told_lem none q k = refl
    told_lem (some s) q k = rw k refl

pub replace_candidate-stores :
    (para_id : ℕ) (h : H256) (n now : ℕ) (r : CandidateRecord) (c : Collector)
    → RoundTrips c.codecs.candidate_codec
    → is_some (Prefixed.get_prefix c.storage (candidate para_id) h) ≡ true
    → ((replace_candidate para_id h n now r c).0 ≡ Result.done tt)
      × (stored_candidate para_id h (replace_candidate para_id h n now r c).1 ≡ some r)
      × ((replace_candidate para_id h n now r c).1.state ≡ c.state)
unfolding replace_candidate into_inner new_onchain
replace_candidate-stores para_id h n now r c law known =
    let entry = new_onchain c.codecs.candidate_codec (with_ts n now) r in
    let key = candidate para_id in
    let reads = (get_prefix-replace_prefixed c.storage key key h h entry).1 in
    rw (storage_replace_prefixed_lem key h entry c) (
      refl,
      rw (reads, known, (prefix_eq.decides key key).1 refl, (nat_eq.decides h h).1 refl) (law r),
      refl,
    )

-- The entry behind a record that was read.
pub entry_of :
    {T : Type 0} (codec : Codec T) (o : Option StorageEntry) (x : T)
    → and_then o (into_inner codec) ≡ some x
    → (e : StorageEntry) × (o ≡ some e) × (into_inner codec e ≡ some x)
entry_of codec none x h = cc
entry_of codec (some e) x h = (e, refl, h)

process_included-stores :
    (event : SubxtCandidateEvent) (now : ℕ) (c : Collector) (entry : StorageEntry)
    (known : CandidateRecord)
    → Prefixed.get_prefix c.storage (candidate event.parachain_id) event.candidate_hash ≡ some entry
    → into_inner c.codecs.candidate_codec entry ≡ some known
    → RoundTrips c.codecs.candidate_codec
    → CanTell c.to_websocket
    → let after = process_included event now entry c in
      let n = c.state.current_relay_chain_block_number in
      (after.0 ≡ Result.done tt)
      × (stored_candidate event.parachain_id event.candidate_hash after.1
          ≡ some (record known {
            candidate_inclusion = record known.candidate_inclusion { included = some n };
          }))
      × (after.1.state.candidates_included
          ≡ c.state.candidates_included ++ event.candidate_hash ∷ [])
unfolding process_included ◌>>=◌ ◌>>◌ gets decode_candidate or_fail modify_state see_candidate
process_included-stores event now c entry known g d law w =
    let update =
      update_of event now (WebSocketEventType.included (now - known.candidate_first_seen)) in
    let n = c.state.current_relay_chain_block_number in
    let seen = see_candidate event.parachain_id event.candidate_hash c.state in
    let told_c : Collector = record c {
      to_websocket = (tell_websocket update c).1.to_websocket;
      state = record seen {
        candidates_included = seen.candidates_included ++ event.candidate_hash ∷ [];
      };
    } in
    let r =
      replace_candidate-stores event.parachain_id event.candidate_hash n now (included_at n known)
        told_c law (rw g refl) in
    rw (d, tell_websocket-told update c w)
      (r.0, r.1, ap (λ (t : CollectorState). t.candidates_included) r.2)

-- When a candidate that the storage knows is included, and the websocket has not gone, the handler
-- succeeds; the record that is read back has the current block as the one of its inclusion and is else
-- what it was, and the block's list of included candidates ends with the candidate.
pub process_candidate_change-included :
    (node : Node) (event : SubxtCandidateEvent) (now : ℕ) (c : Collector) (known : CandidateRecord)
    → event.event_type ≡ included
    → stored_candidate event.parachain_id event.candidate_hash c ≡ some known
    → RoundTrips c.codecs.candidate_codec
    → CanTell c.to_websocket
    → let after = process_candidate_change node event now c in
      let n = c.state.current_relay_chain_block_number in
      (after.0 ≡ Result.done tt)
      × (stored_candidate event.parachain_id event.candidate_hash after.1
          ≡ some (record known {
            candidate_inclusion = record known.candidate_inclusion { included = some n };
          }))
      × (after.1.state.candidates_included
          ≡ c.state.candidates_included ++ event.candidate_hash ∷ [])
unfolding process_candidate_change ◌>>=◌ change_candidate if_none
process_candidate_change-included node event now c known t k law w =
    let found =
      entry_of c.codecs.candidate_codec
        (Prefixed.get_prefix c.storage (candidate event.parachain_id) event.candidate_hash) known
        k in
    let r = process_included-stores event now c found.0 known found.1 found.2 law w in
    rw (storage_read_prefixed_lem (candidate event.parachain_id) event.candidate_hash c, t, found.1)
      r
