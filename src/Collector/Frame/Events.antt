-- ===== src/Collector/Frame/Events.antt =====
-- Every handler of an event, and the whole loop, respects every frame.
use polkadot_introspector.Prelude.{ℕ, refl, Option, none, some, nat_eq}
use polkadot_introspector.Storage.Entry.{StorageEntry, new_onchain, with_ts}
use polkadot_introspector.Tracker.BlockInfo.{H256}
use polkadot_introspector.Tracker.Records.{candidate}
use polkadot_introspector.Tracker.Types.{
  CandidateRecord, DisputeInfo, SubxtDispute, SubxtDisputeResult,
}
use polkadot_introspector.Collector.Types.{SubxtCandidateEvent}
use polkadot_introspector.Collector.Action.{modify_state}
use polkadot_introspector.Collector.Candidates.{
  see_candidate, replace_candidate, decode_candidate, process_included, process_timed_out,
}
use polkadot_introspector.Collector.Disputed.{
  candidate_of_para, find_candidate_by_hash, extract_dispute_initiators, see_dispute,
  process_dispute_initiated, conclude_info, process_dispute_concluded,
}
use polkadot_introspector.Collector.Frame.{
  Frame, Keeps, bind-Keeps, then-Keeps, modify_state-Keeps, frame_rules,
  storage_replace_prefixed-Keeps,
}
use polkadot_introspector.Collector.Frame.Heads.{
  write_rules, announce_session-Keeps, fork_or_refuse-Keeps, remove_old_session-Keeps,
  write_ts-Keeps, write_relevant_finalized-Keeps, write_hrmp_channels-Keeps,
  write_parainherent_data-Keeps, write_occupied_cores-Keeps, write_backing_groups-Keeps,
  write_core_assignments-Keeps, note_missing_authors-Keeps,
}

module _ (F : Frame) where
  pub see_candidate-Keeps : (p : ℕ) (h : H256) → Keeps F.quiet (modify_state (see_candidate p h))
  unfolding see_candidate
  see_candidate-Keeps p h = modify_state-Keeps F _ (λ s. (refl, refl))

  pub see_dispute-Keeps : (p : ℕ) (d : DisputeInfo) → Keeps F.quiet (modify_state (see_dispute p d))
  unfolding see_dispute
  see_dispute-Keeps p d = modify_state-Keeps F _ (λ s. (refl, refl))

  pub replace_candidate-Keeps :
      (p : ℕ) (h : H256) (n now : ℕ) (r : CandidateRecord)
      → Keeps F.quiet (replace_candidate p h n now r)
  unfolding replace_candidate
  replace_candidate-Keeps p h n now r = record {
    holds = λ c.
        (storage_replace_prefixed-Keeps F.quiet (candidate p) h
            (new_onchain c.codecs.candidate_codec (with_ts n now) r)).holds
          c;
  }

  pub decode_candidate-Keeps : (e : StorageEntry) → Keeps F.quiet (decode_candidate e)
  unfolding decode_candidate
  decode_candidate-Keeps e = search frame_rules

  pub ruleset event_rules = (
    write_rules, see_candidate-Keeps, see_dispute-Keeps, replace_candidate-Keeps,
    decode_candidate-Keeps,
  )

  pub process_included-Keeps :
      (e : SubxtCandidateEvent) (now : ℕ) (x : StorageEntry)
      → Keeps F.quiet (process_included e now x)
  unfolding process_included
  process_included-Keeps e now x = bind-Keeps F.quiet _ _ (search frame_rules) (λ n.
      bind-Keeps F.quiet _ _ (search event_rules) (λ known.
        then-Keeps F.quiet _ _ (search frame_rules) (
          then-Keeps F.quiet _ _ (search event_rules) (
            then-Keeps F.quiet _ _ (modify_state-Keeps F _ (λ s. (refl, refl)))
              (search event_rules)))))

  pub process_timed_out-Keeps :
      (e : SubxtCandidateEvent) (now : ℕ) (x : StorageEntry)
      → Keeps F.quiet (process_timed_out e now x)
  unfolding process_timed_out
  process_timed_out-Keeps e now x = bind-Keeps F.quiet _ _ (search event_rules) (λ known.
      bind-Keeps F.quiet _ _ (search frame_rules) (λ n.
        then-Keeps F.quiet _ _ (search frame_rules) (
          then-Keeps F.quiet _ _ (search event_rules) (
            then-Keeps F.quiet _ _ (modify_state-Keeps F _ (λ s. (refl, refl)))
              (search event_rules)))))

  pub candidate_of_para-Keeps : (h : H256) (p : ℕ) → Keeps F.quiet (candidate_of_para h p)
  unfolding candidate_of_para
  candidate_of_para-Keeps h p = search frame_rules depth 9

  pub find_candidate_by_hash-Keeps : (h : H256) → Keeps F.quiet (find_candidate_by_hash h)
  unfolding find_candidate_by_hash
  find_candidate_by_hash-Keeps h = search (frame_rules, candidate_of_para-Keeps) depth 9

  pub extract_dispute_initiators-Keeps :
      (d : SubxtDispute) → Keeps F.quiet (extract_dispute_initiators d)
  unfolding extract_dispute_initiators
  extract_dispute_initiators-Keeps d = search frame_rules depth 9

  pub process_dispute_initiated-Keeps :
      (d : SubxtDispute) (now : ℕ) → Keeps F.quiet (process_dispute_initiated d now)
  unfolding process_dispute_initiated
  process_dispute_initiated-Keeps d now =
      search (event_rules, find_candidate_by_hash-Keeps, extract_dispute_initiators-Keeps) depth 12

  pub conclude_info-Keeps :
      (d : SubxtDispute) (r : SubxtDisputeResult) (p n now : ℕ) (e : Option StorageEntry)
      → Keeps F.quiet (conclude_info d r p n now e)
  unfolding conclude_info
  conclude_info-Keeps d r p n now none = search frame_rules
  conclude_info-Keeps d r p n now (some e) = search event_rules depth 9

  pub process_dispute_concluded-Keeps :
      (d : SubxtDispute) (r : SubxtDisputeResult) (now : ℕ)
      → Keeps F.quiet (process_dispute_concluded d r now)
  unfolding process_dispute_concluded
  process_dispute_concluded-Keeps d r now =
      search (event_rules, find_candidate_by_hash-Keeps, conclude_info-Keeps) depth 12
