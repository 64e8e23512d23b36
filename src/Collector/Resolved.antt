-- ===== src/Collector/Resolved.antt =====
-- What the conclusion of a dispute leaves in the storage.
use polkadot_introspector.Prelude.{
  ℕ, ◌≡◌, refl, arith, false, Option, some, nat_eq, ◌==◌, and_then, inl, inr, Bool-cases,
}
use polkadot_introspector.Storage.Entry.{StorageEntry, new_onchain, into_inner, with_ts}
use polkadot_introspector.Storage.Prefixed
use polkadot_introspector.Storage.Prefixed.Reads.{get_prefix-replace_prefixed}
use polkadot_introspector.Tracker.BlockInfo.{H256}
use polkadot_introspector.Tracker.Records.{candidate, candidates_parachains, dispute, prefix_eq}
use polkadot_introspector.Tracker.Types.{
  CandidateRecord, DisputeInfo, SubxtDispute, SubxtDisputeResult,
}
use polkadot_introspector.Collector.Types.{Collector, WebSocketEventType}
use polkadot_introspector.Collector.Action.{
  Result, ◌>>=◌, ◌>>◌, gets, pure, or_fail, or_panic, modify_state, if_none,
}
use polkadot_introspector.Collector.Candidates.{tell_websocket}
use polkadot_introspector.Collector.Disputed.{
  candidate_of_para, find_candidate_by_hash, see_dispute, conclude_info, concluded_record,
  dispute_update, process_dispute_concluded,
}
use polkadot_introspector.Collector.Record.{dispute_resolution_time, checked_sub, parachain_id}
use polkadot_introspector.Collector.Stored.{
  storage_read_prefixed_lem, storage_replace_prefixed_lem, tell_websocket-told,
  replace_candidate-stores, entry_of, stored_candidate, RoundTrips, CanTell,
}

-- The parachain that is stored for a candidate.
abbrev pub stored_parachain : H256 → Collector → Option ℕ
stored_parachain candidate_hash c =
    and_then (Prefixed.get_prefix c.storage candidates_parachains candidate_hash)
      (λ entry. into_inner c.codecs.number_codec entry)

abbrev pub stored_dispute : ℕ → H256 → Collector → Option DisputeInfo
stored_dispute para_id candidate_hash c =
    and_then (Prefixed.get_prefix c.storage (dispute para_id) candidate_hash)
      (λ entry. into_inner c.codecs.dispute_codec entry)

find_candidate_by_hash_lem :
    (h : H256) (para_id : ℕ) (known : CandidateRecord) (c : Collector)
    → stored_parachain h c ≡ some para_id
    → stored_candidate para_id h c ≡ some known
    → find_candidate_by_hash h c ≡ (Result.done (some known), c)
unfolding find_candidate_by_hash candidate_of_para ◌>>=◌ gets if_none or_panic pure
find_candidate_by_hash_lem h para_id known c p k =
    let e =
      entry_of c.codecs.number_codec (Prefixed.get_prefix c.storage candidates_parachains h) para_id
        p in
    let f =
      entry_of c.codecs.candidate_codec (Prefixed.get_prefix c.storage (candidate para_id) h) known
        k in
    rw
      (
        storage_read_prefixed_lem candidates_parachains h c,
        e.1,
        e.2,
        storage_read_prefixed_lem (candidate para_id) h c,
        f.1,
        f.2,
      )
      refl

dispute-not-candidate : (p q : ℕ) → (dispute p == candidate q) ≡ false
dispute-not-candidate p q = elim (Bool-cases (dispute p == candidate q)) [
  | inl e ↦
      let same : dispute p ≡ candidate q = (prefix_eq.decides (dispute p) (candidate q)).0 e in
      let impossible : ⊥ = cc in absurd impossible
  | inr e ↦ e
]

-- The change of the dispute's record leaves the candidate's alone.
conclude_info-candidate :
    (event : SubxtDispute) (result : SubxtDisputeResult) (para_id n now : ℕ) (info : DisputeInfo)
    (entry : StorageEntry) (c : Collector)
    → into_inner c.codecs.dispute_codec entry ≡ some info
    → let after = conclude_info event result para_id n now (some entry) c in
      (after.0 ≡ Result.done tt)
      × (after.1.codecs ≡ c.codecs)
      × (Prefixed.get_prefix after.1.storage (candidate para_id) event.candidate_hash
          ≡ Prefixed.get_prefix c.storage (candidate para_id) event.candidate_hash)
unfolding conclude_info ◌>>=◌ ◌>>◌ gets or_fail modify_state see_dispute
conclude_info-candidate event result para_id n now info entry c d =
    let h = event.candidate_hash in
    let info' : DisputeInfo = record info { outcome = some result; concluded = some n } in
    let entry' = new_onchain c.codecs.dispute_codec (with_ts n now) info' in
    let reads =
      (get_prefix-replace_prefixed c.storage (dispute para_id) (candidate para_id) h h entry').1 in
    rw
      (
        d,
        storage_replace_prefixed_lem (dispute para_id) h entry'
            (record c { state = see_dispute para_id info' c.state }),
      )
      (refl, refl, ground (arith, reads, dispute-not-candidate para_id para_id))

concluded_record-resolves :
    (result : SubxtDisputeResult) (n : ℕ) (r : CandidateRecord)
    → dispute_resolution_time (concluded_record result n r) ≡ some 0
unfolding dispute_resolution_time concluded_record checked_sub
concluded_record-resolves result n r = ground arith

-- When the dispute of a candidate that the storage knows concludes, and neither the websocket nor the
-- dispute's own record is in the way, the handler succeeds, and the record that is read back for the
-- candidate has a resolution time of no blocks, whenever the dispute was initiated.
pub process_dispute_concluded-resolves :
    (event : SubxtDispute) (result : SubxtDisputeResult) (now : ℕ) (c : Collector)
    (known : CandidateRecord) (info : DisputeInfo)
    → stored_parachain event.candidate_hash c ≡ some (parachain_id known)
    → stored_candidate (parachain_id known) event.candidate_hash c ≡ some known
    → stored_dispute (parachain_id known) event.candidate_hash c ≡ some info
    → RoundTrips c.codecs.candidate_codec
    → CanTell c.to_websocket
    → let after = process_dispute_concluded event result now c in
      (after.0 ≡ Result.done tt)
      × (and_then
            (stored_candidate (parachain_id known) event.candidate_hash after.1)
            dispute_resolution_time
          ≡ some 0)
unfolding process_dispute_concluded ◌>>=◌ ◌>>◌ gets or_fail
process_dispute_concluded-resolves event result now c known info p k i law w =
    let h = event.candidate_hash in
    let para_id = parachain_id known in
    let n = c.state.current_relay_chain_block_number in
    let update =
      dispute_update event para_id now
        (WebSocketEventType.dispute_concluded event.relay_parent_block result) in
    let told_c : Collector = record c { to_websocket = (tell_websocket update c).1.to_websocket } in
    let e =
      entry_of c.codecs.dispute_codec (Prefixed.get_prefix c.storage (dispute para_id) h) info i in
    let m = conclude_info-candidate event result para_id n now info e.0 told_c e.2 in
    let f =
      entry_of c.codecs.candidate_codec (Prefixed.get_prefix c.storage (candidate para_id) h) known
        k in
    let last = (conclude_info event result para_id n now (some e.0) told_c).1 in
    let r =
      replace_candidate-stores para_id h n now (concluded_record result n known) last (rw m.1 law)
        (rw (m.2, f.1) refl) in
    rw
      (
        find_candidate_by_hash_lem h para_id known c p k,
        tell_websocket-told update c w,
        storage_read_prefixed_lem (dispute para_id) h told_c,
        e.1,
        m.0,
      )
      (r.0, rw r.1 (concluded_record-resolves result n known))
