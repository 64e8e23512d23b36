-- ===== src/Tracker/Progress/Report.antt =====
-- The report of a block against the slots that the tracker holds.
use polkadot_introspector.Prelude.{
  ℕ, ◌≡◌, refl, ◌∙◌, ap, sym, Bool, true, false, Option, none, some, List, [], ◌∷◌, ◌++◌, map, keep,
  keep-append, is_some, ok, IfOk, IfOk-bind, IfOk-then, IfOk-mono, IfOk-result, Bool-cases,
  Option-cases, inl, inr, nat_eq,
}
use mathlib.Core.List.{append-nil, append_assoc}
use polkadot_introspector.Prelude.Assoc.{keys}
use polkadot_introspector.Tracker.BlockInfo.{
  BlockAvailability, is_bitfield_propagation_slow, ParachainBlockInfo, ParachainBlockState,
}
use polkadot_introspector.Tracker.Calls.{Journal}
use polkadot_introspector.Tracker.Queues.{has_hrmp_messages}
use polkadot_introspector.Tracker.Records.{TrackerStorage}
use polkadot_introspector.Tracker.State.{
  SubxtTracker, Slots, all_candidates_and_skipped_slots, current_candidate, is_slow_availability,
  is_fork,
}
use polkadot_introspector.Tracker.Types.{Block, DisputesTracker, ParachainConsensusEvent}
use polkadot_introspector.Tracker.Progress.{
  note, event_of, notify_new_session, notify_cores, notify_core_assignment, note_bits, notify_bits,
  notify_bitfield_propagation, candidate_backed_in, note_candidate, note_skipped, notify_slots,
  notify_candidate_state, notify_disputes, notify_active_message_queues, notify_current_block_time,
  notify_finality_lag, start_journal, progress_at,
}

-- the events that stand for a slot
abbrev pub is_slot_event : ParachainConsensusEvent → Bool
is_slot_event (ParachainConsensusEvent.backed hash) = true
is_slot_event (ParachainConsensusEvent.included hash current max) = true
is_slot_event (ParachainConsensusEvent.dropped hash) = true
is_slot_event (ParachainConsensusEvent.pending_availability hash) = true
is_slot_event ParachainConsensusEvent.skipped_slot = true
is_slot_event _ = false

abbrev pub state_events : ParachainBlockInfo → ParachainBlockState → List ParachainConsensusEvent
state_events c ParachainBlockState.backed = ParachainConsensusEvent.backed c.candidate_hash ∷ []
state_events c ParachainBlockState.pending_availability =
    ParachainConsensusEvent.pending_availability c.candidate_hash ∷ []
state_events c ParachainBlockState.included =
    event_of c.availability (λ a. ParachainConsensusEvent.included c.candidate_hash a.current a.max)
state_events c ParachainBlockState.dropped = ParachainConsensusEvent.dropped c.candidate_hash ∷ []

-- What a report says of the slots, in their order.
unfoldable pub slot_events : Slots → List ParachainConsensusEvent
slot_events [] = []
slot_events (none ∷ slots) = ParachainConsensusEvent.skipped_slot ∷ slot_events slots
slot_events (some c ∷ slots) = state_events c c.state ++ slot_events slots

-- the slot events of a journal
abbrev told : Journal → List ParachainConsensusEvent
told j = keep is_slot_event j.update.events

told_event {ℓ} :
    {A : Type ℓ} (o : Option A) (f : A → ParachainConsensusEvent)
    → ((a : A) → is_slot_event (f a) ≡ true)
    → keep is_slot_event (event_of o f) ≡ event_of o f
unfolding keep
told_event none f h = refl
told_event (some a) f h = rw (h a)

untold_event {ℓ} :
    {A : Type ℓ} (o : Option A) (f : A → ParachainConsensusEvent)
    → ((a : A) → is_slot_event (f a) ≡ false)
    → keep is_slot_event (event_of o f) ≡ []
unfolding keep
untold_event none f h = refl
untold_event (some a) f h = rw (h a)

abbrev Events : Type 0
Events = List ParachainConsensusEvent

tell :
    (old new : Events)
    → keep is_slot_event (old ++ new) ≡ keep is_slot_event old ++ keep is_slot_event new
tell old new = keep-append is_slot_event old new

-- Notes with no slot event leave what is told.
untold :
    (old new : Events)
    → keep is_slot_event new ≡ []
    → keep is_slot_event (old ++ new) ≡ keep is_slot_event old
untold old new h =
    tell old new ∙ ap (◌++◌ (keep is_slot_event old)) h ∙ append-nil (keep is_slot_event old)

note_candidate-told :
    (t : SubxtTracker) (b : Block) (st : TrackerStorage) (c : ParachainBlockInfo)
    (s : ParachainBlockState) (j : Journal)
    → IfOk (note_candidate t b st c s j) (λ k. told k ≡ told j ++ state_events c s)
unfolding note_candidate keep
note_candidate-told t b st c ParachainBlockState.backed j = tell j.update.events _
note_candidate-told t b st c ParachainBlockState.pending_availability j =
    let j' = note j (ParachainConsensusEvent.pending_availability c.candidate_hash ∷ []) [] [] in
    elim (Bool-cases (is_slow_availability t c.assigned_core)) [
      | inl slow ↦ rw slow (
          untold j'.update.events _ (
            untold_event c.availability
              (λ a. ParachainConsensusEvent.slow_availability a.current a.max) (λ a. refl))
          ∙ tell j.update.events _)
      | inr quick ↦ rw quick (tell j.update.events _)
    ]
note_candidate-told t b st c ParachainBlockState.included j =
    IfOk-then (λ k. told k ≡ told j ++ state_events c ParachainBlockState.included)
      (candidate_backed_in c.candidate_hash st) _
      λ backed_in.
        tell j.update.events _
        ∙ ap (◌++◌ (told j)) (
            told_event c.availability
              (λ a. ParachainConsensusEvent.included c.candidate_hash a.current a.max) (λ a. refl))
note_candidate-told t b st c ParachainBlockState.dropped j = tell j.update.events _

note_skipped-told :
    (j : Journal) → told (note_skipped j) ≡ told j ++ ParachainConsensusEvent.skipped_slot ∷ []
unfolding note_skipped keep
note_skipped-told j =
    let j' = note j (ParachainConsensusEvent.skipped_slot ∷ []) [] [] in
    untold j'.update.events [] refl ∙ tell j.update.events _

notify_slots-told :
    (t : SubxtTracker) (b : Block) (st : TrackerStorage) (slots : Slots) (j : Journal)
    → IfOk (notify_slots t b st slots j) (λ k. told k ≡ told j ++ slot_events slots)
unfolding notify_slots slot_events
notify_slots-told t b st [] j = sym (append-nil (told j))
notify_slots-told t b st (none ∷ slots) j =
    IfOk-mono _ (λ k. told k ≡ told j ++ slot_events (none ∷ slots))
      (notify_slots t b st slots (note_skipped j)) (notify_slots-told t b st slots (note_skipped j))
      (λ k h.
        h
        ∙ ap (λ l. l ++ slot_events slots) (note_skipped-told j)
        ∙ append_assoc (told j) (ParachainConsensusEvent.skipped_slot ∷ []) (slot_events slots))
notify_slots-told t b st (some c ∷ slots) j =
    IfOk-bind (λ k. told k ≡ told j ++ state_events c c.state)
      (λ k. told k ≡ told j ++ slot_events (some c ∷ slots)) (note_candidate t b st c c.state j) _
      (note_candidate-told t b st c c.state j)
      (λ k h.
        IfOk-mono _ (λ l. told l ≡ told j ++ slot_events (some c ∷ slots))
          (notify_slots t b st slots k) (notify_slots-told t b st slots k)
          (λ l g.
            g
            ∙ ap (λ (e : List ParachainConsensusEvent). e ++ slot_events slots) h
            ∙ append_assoc (told j) (state_events c c.state) (slot_events slots)))

notify_cores-told :
    (t : SubxtTracker) (cores : List ℕ) (j : Journal) → told (notify_cores t cores j) ≡ told j
unfolding notify_cores keep
notify_cores-told t [] j = refl
notify_cores-told t (core ∷ cores) j =
    notify_cores-told t cores _ ∙ elim (Bool-cases (is_some (current_candidate t core))) [
      | inl held ↦
          rw held (untold j.update.events (ParachainConsensusEvent.core_assigned core ∷ []) refl)
      | inr empty ↦ rw empty
    ]

note_bits-told :
    (t : SubxtTracker) (c : ParachainBlockInfo) (a : BlockAvailability) (j : Journal)
    → told (note_bits t c a j) ≡ told j
unfolding note_bits keep
note_bits-told t c a j = elim (Bool-cases (is_bitfield_propagation_slow c)) [
  | inl slow ↦ rw slow (
      untold j.update.events
        (ParachainConsensusEvent.slow_bitfield_propagation a.current a.max ∷ []) refl)
  | inr quick ↦ rw quick (untold j.update.events [] refl)
]

notify_bits-told :
    (t : SubxtTracker) (cores : List ℕ) (j : Journal) → told (notify_bits t cores j) ≡ told j
unfolding notify_bits keep
notify_bits-told t [] j = refl
notify_bits-told t (core ∷ cores) j =
    notify_bits-told t cores _ ∙ elim (Option-cases (current_candidate t core)) [
      | inl missing ↦ rw missing
      | inr (c, found) ↦ elim (Option-cases c.availability) [
        | inl unknown ↦ rw (found, unknown)
        | inr (a, known) ↦ rw (found, known) (note_bits-told t c a j)
      ]
    ]

notify_new_session-told : (t : SubxtTracker) (j : Journal) → told (notify_new_session t j) ≡ told j
unfolding notify_new_session
notify_new_session-told t j =
    untold j.update.events _
      (untold_event t.new_session ParachainConsensusEvent.new_session (λ n. refl))

disputed-untold :
    (ds : List DisputesTracker) → keep is_slot_event (map ParachainConsensusEvent.disputed ds) ≡ []
unfolding keep
disputed-untold [] = refl
disputed-untold (d ∷ ds) = disputed-untold ds

notify_disputes-told : (t : SubxtTracker) (j : Journal) → told (notify_disputes t j) ≡ told j
unfolding notify_disputes
notify_disputes-told t j = elim (Bool-cases (is_fork t)) [
  | inl fork ↦ rw fork
  | inr first ↦ rw first (untold j.update.events _ (disputed-untold t.disputes))
]

notify_queues-told :
    (t : SubxtTracker) (j : Journal) → told (notify_active_message_queues t j) ≡ told j
unfolding notify_active_message_queues keep
notify_queues-told t j = elim (Bool-cases (has_hrmp_messages t.message_queues)) [
  | inl some_sent ↦ rw some_sent (untold j.update.events _ refl)
  | inr quiet ↦ rw quiet
]

notify_block-told : (t : SubxtTracker) (j : Journal) → told (notify_current_block_time t j) ≡ told j
unfolding notify_current_block_time
notify_block-told t j = elim (Bool-cases (is_fork t)) [
  | inl fork ↦ rw fork
  | inr first ↦ rw first (untold j.update.events [] (unfold keep in refl))
]

notify_lag-told : (t : SubxtTracker) (j : Journal) → told (notify_finality_lag t j) ≡ told j
unfolding notify_finality_lag
notify_lag-told t j = elim (Option-cases t.finality_lag) [
  | inl unknown ↦ rw (unknown, notify_finality_lag)
  | inr (lag, known) ↦
      rw (known, notify_finality_lag) (untold j.update.events [] (unfold keep in refl))
]

before_told :
    (t : SubxtTracker) (b : Block)
    → told (
        notify_bitfield_propagation t
          (notify_core_assignment t (notify_new_session t (start_journal t b))))
      ≡ []
unfolding notify_bitfield_propagation notify_core_assignment
before_told t b =
    notify_bits-told t (keys t.cores) _
    ∙ notify_cores-told t (keys t.cores) _
    ∙ notify_new_session-told t (start_journal t b)
    ∙ unfold start_journal keep in refl

-- A report tells of each slot of each core exactly what its state says, in the order of the slots:
-- one event for every skipped slot, for every backed, pending or dropped candidate and for every
-- included one whose availability is known, and no other event of these kinds.
pub progress_at-slot_events :
    (t : SubxtTracker) (b : Block) (st : TrackerStorage) (j : Journal)
    → progress_at t b st ≡ ok j
    → keep is_slot_event j.update.events ≡ slot_events (all_candidates_and_skipped_slots t)
unfolding progress_at
progress_at-slot_events t b st j run =
    let slots = all_candidates_and_skipped_slots t in
    let before =
      notify_bitfield_propagation t
        (notify_core_assignment t (notify_new_session t (start_journal t b))) in
    IfOk-result (λ k. told k ≡ slot_events slots) (progress_at t b st) j
      (IfOk-bind (λ k. told k ≡ told before ++ slot_events slots) (λ k. told k ≡ slot_events slots)
        (notify_candidate_state t b st before) _
        (unfold notify_candidate_state in notify_slots-told t b st slots before)
        (λ k h.
          notify_lag-told t _
          ∙ notify_block-told t _
          ∙ notify_queues-told t _
          ∙ notify_disputes-told t k
          ∙ h
          ∙ ap (λ (e : Events). e ++ slot_events slots) (before_told t b)))
      run
