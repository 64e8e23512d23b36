-- ===== src/Collector/Frame/Heads.antt =====
-- What the import of a head calls respects every frame.
use polkadot_introspector.Prelude.{
  ℕ, zero, suc, ◌+◌, ◌-◌, refl, Bool, true, false, Option, none, some, List, [], ◌∷◌, ◌++◌, nat_eq,
  ltb,
}
use polkadot_introspector.Storage.Entry.{Codec, RecordTime, new_onchain}
use polkadot_introspector.Tracker.BlockInfo.{H256}
use polkadot_introspector.Tracker.Queues.{Channels}
use polkadot_introspector.Tracker.Records.{CollectorPrefixType, Codecs}
use polkadot_introspector.Tracker.Types.{Timestamp}
use polkadot_introspector.Collector.Types.{CollectorUpdateEvent, non_fatal}
use polkadot_introspector.Collector.Node.{Node}
use polkadot_introspector.Collector.Broadcast.{broadcast_event}
use polkadot_introspector.Collector.Heads.{
  write_onchain, write_channels, ask_hrmp_channels, write_hrmp_channels, write_parainherent_data,
  write_ts, write_occupied_cores, write_backing_groups, write_core_assignments, author_of_slot,
  missed_authors, authors_between, authors_of_gap, authors_missing_their_slots,
}
use polkadot_introspector.Collector.Import.{
  push_fork, fork_or_refuse, remove_old_session, announce_session, note_missing_authors,
  write_relevant_finalized,
}
use polkadot_introspector.Collector.Frame.{
  Frame, Quiet, Keeps, bind-Keeps, modify_state-Keeps, frame_rules, storage_write_prefixed-Keeps,
  if-Keeps, then-Keeps, when-Keeps, fail-Keeps,
}

module _ (Q : Quiet) where
  pub write_onchain-Keeps :
      {T : Type 0} (g : Codecs → Codec T) (p : CollectorPrefixType) (h : H256) (t : RecordTime)
      (x : T)
      → Keeps Q (write_onchain g p h t x)
  unfolding write_onchain
  write_onchain-Keeps g p h t x = record {
    holds = λ c. (storage_write_prefixed-Keeps Q p h (new_onchain (g c.codecs) t x)).holds c;
  }

  pub write_channels-Keeps :
      (h : H256) (t : RecordTime) (cs : List (ℕ × Channels × Channels))
      → Keeps Q (write_channels h t cs)
  unfolding write_channels
  write_channels-Keeps h t [] = search frame_rules
  write_channels-Keeps h t ((p, i, o) ∷ cs) =
      then-Keeps Q _ _ (search (frame_rules, write_onchain-Keeps)) (write_channels-Keeps h t cs)

  pub ruleset write_rules = (frame_rules, write_onchain-Keeps, write_channels-Keeps)

  pub write_ts-Keeps : (h : H256) (n : ℕ) (ts : Timestamp) → Keeps Q (write_ts h n ts)
  unfolding write_ts
  write_ts-Keeps h n ts = search write_rules

  pub remove_old_session-Keeps : (s : ℕ) → Keeps Q (remove_old_session s)
  unfolding remove_old_session
  remove_old_session-Keeps s = search write_rules

  pub write_relevant_finalized-Keeps :
      (h : H256) (n : ℕ) (ts : Timestamp) → Keeps Q (write_relevant_finalized h n ts)
  unfolding write_relevant_finalized
  write_relevant_finalized-Keeps h n ts = search write_rules

  module _ (node : Node) where
    pub write_hrmp_channels-Keeps :
        (h : H256) (n : ℕ) (ts : Timestamp) → Keeps Q (write_hrmp_channels node h n ts)
    unfolding write_hrmp_channels ask_hrmp_channels
    write_hrmp_channels-Keeps h n ts = search write_rules depth 9

    pub write_parainherent_data-Keeps :
        (h : H256) (n : ℕ) (ts : Timestamp) → Keeps Q (write_parainherent_data node h n ts)
    unfolding write_parainherent_data
    write_parainherent_data-Keeps h n ts = search write_rules

    pub write_occupied_cores-Keeps :
        (h : H256) (n : ℕ) (ts : Timestamp) → Keeps Q (write_occupied_cores node h n ts)
    unfolding write_occupied_cores
    write_occupied_cores-Keeps h n ts = search write_rules

    pub write_backing_groups-Keeps :
        (h : H256) (n : ℕ) (ts : Timestamp) → Keeps Q (write_backing_groups node h n ts)
    unfolding write_backing_groups
    write_backing_groups-Keeps h n ts = search write_rules

    pub write_core_assignments-Keeps :
        (h : H256) (n : ℕ) (ts : Timestamp) → Keeps Q (write_core_assignments node h n ts)
    unfolding write_core_assignments
    write_core_assignments-Keeps h n ts = search write_rules

    pub author_of_slot-Keeps :
        (h : H256) (ks : List ℕ) (r : Option ℕ) (s : ℕ) → Keeps Q (author_of_slot node h ks r s)
    unfolding author_of_slot
    author_of_slot-Keeps h ks none s = search frame_rules
    author_of_slot-Keeps h ks (some r) s = search frame_rules

    pub missed_authors-Keeps :
        (h : H256) (ks : List ℕ) (r : Option ℕ) (p n : ℕ) → Keeps Q (missed_authors node h ks r p n)
    unfolding missed_authors
    missed_authors-Keeps h ks r p zero = search frame_rules
    missed_authors-Keeps h ks r p (suc n) =
        bind-Keeps Q _ _ (author_of_slot-Keeps h ks r (p + suc n))
          (λ x. bind-Keeps Q _ _ (missed_authors-Keeps h ks r p n) (λ xs. search frame_rules))

    pub authors_of_gap-Keeps : (h g : H256) (s p : Option ℕ) → Keeps Q (authors_of_gap node h g s p)
    unfolding authors_of_gap authors_between
    authors_of_gap-Keeps h g (some s) (some p) =
        if-Keeps Q (ltb p (s - 1)) _ _ (search (frame_rules, missed_authors-Keeps))
          (search frame_rules)
    authors_of_gap-Keeps h g (some s) none = search frame_rules
    authors_of_gap-Keeps h g none p = search frame_rules

module _ (F : Frame) where
  pub broadcast_event-Keeps : (e : CollectorUpdateEvent) → Keeps F.quiet (broadcast_event e)
  broadcast_event-Keeps e = record { holds = λ c. F.of_broadcast c e }

  pub announce_session-Keeps : (s : ℕ) → Keeps F.quiet (announce_session s)
  unfolding announce_session
  announce_session-Keeps s = bind-Keeps F.quiet _ _ (search frame_rules) (λ current.
      when-Keeps F.quiet _ _ (
        then-Keeps F.quiet _ _ (modify_state-Keeps F _ (λ t. (refl, refl)))
          (broadcast_event-Keeps (CollectorUpdateEvent.new_session s))))

  pub fork_or_refuse-Keeps : (h : H256) (b : Bool) → Keeps F.quiet (fork_or_refuse h b)
  unfolding fork_or_refuse push_fork
  fork_or_refuse-Keeps h true = modify_state-Keeps F (push_fork h) (λ t. (refl, refl))
  fork_or_refuse-Keeps h false = fail-Keeps F.quiet non_fatal

  module _ (node : Node) where
    pub note_missing_authors-Keeps : (h g : H256) → Keeps F.quiet (note_missing_authors node h g)
    unfolding note_missing_authors authors_missing_their_slots
    note_missing_authors-Keeps h g =
        bind-Keeps F.quiet _ _ (search (frame_rules, authors_of_gap-Keeps)) (λ ks.
          modify_state-Keeps F
            (λ t. record t { authors_missing_their_slots = t.authors_missing_their_slots ++ ks })
            (λ t. (refl, refl)))
