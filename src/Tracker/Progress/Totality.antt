-- ===== src/Tracker/Progress/Totality.antt =====
-- A report is produced whenever the stored candidates decode.
use polkadot_introspector.Prelude.{
  ◌≡◌, refl, ◌∙◌, ap, Option, none, some, [], ◌∷◌, Outcome, ok, ◌>>=◌, nat_eq, ◌⊎◌, inl, inr,
  Option-cases,
}
use polkadot_introspector.Tracker.BlockInfo.{H256, ParachainBlockInfo, ParachainBlockState}
use polkadot_introspector.Tracker.Calls.{Journal}
use polkadot_introspector.Tracker.Records.{TrackerStorage, candidate_of}
use polkadot_introspector.Tracker.State.{SubxtTracker, Slots, all_candidates_and_skipped_slots}
use polkadot_introspector.Tracker.Types.{Block, CandidateRecord}
use polkadot_introspector.Tracker.Progress.{
  candidate_backed_in, note_candidate, note_skipped, notify_slots, notify_candidate_state,
  progress_at, progress,
}

bind-returns :
    {A B : Type 0} (o : Outcome A) (f : A → Outcome B) (a : A)
    → o ≡ ok a
    → (b : B) × (f a ≡ ok b)
    → (b : B) × ((o >>= f) ≡ ok b)
bind-returns o f a e (b, p) = (b, rw e p)

-- Every record stored for a candidate of the parachain decodes.
abbrev pub CandidatesDecode : TrackerStorage → Type 0
CandidatesDecode st =
    (hash : H256) → (stored : Option CandidateRecord) × (candidate_of st hash ≡ ok stored)

note_candidate-returns :
    (t : SubxtTracker) (b : Block) (st : TrackerStorage) (c : ParachainBlockInfo)
    (s : ParachainBlockState) (j : Journal)
    → CandidatesDecode st
    → (k : Journal) × (note_candidate t b st c s j ≡ ok k)
unfolding note_candidate candidate_backed_in
note_candidate-returns t b st c ParachainBlockState.backed j h = (_, refl)
note_candidate-returns t b st c ParachainBlockState.pending_availability j h = (_, refl)
note_candidate-returns t b st c ParachainBlockState.included j h =
    let (stored, found) = h c.candidate_hash in
    let (backed_in, known) =
      bind-returns (candidate_of st c.candidate_hash) _ stored found (_, refl) in
    bind-returns (candidate_backed_in c.candidate_hash st) _ backed_in known (_, refl)
note_candidate-returns t b st c ParachainBlockState.dropped j h = (_, refl)

notify_slots-returns :
    (t : SubxtTracker) (b : Block) (st : TrackerStorage) (slots : Slots) (j : Journal)
    → CandidatesDecode st
    → (k : Journal) × (notify_slots t b st slots j ≡ ok k)
unfolding notify_slots
notify_slots-returns t b st [] j h = (j, refl)
notify_slots-returns t b st (none ∷ slots) j h =
    notify_slots-returns t b st slots (note_skipped j) h
notify_slots-returns t b st (some c ∷ slots) j h =
    let (k, noted) = note_candidate-returns t b st c c.state j h in
    let (l, rest) = notify_slots-returns t b st slots k h in (l, rw noted rest)

progress_at-returns :
    (t : SubxtTracker) (b : Block) (st : TrackerStorage)
    → CandidatesDecode st
    → (j : Journal) × (progress_at t b st ≡ ok j)
unfolding progress_at notify_candidate_state
progress_at-returns t b st h =
    let (k, told) = notify_slots-returns t b st (all_candidates_and_skipped_slots t) _ h in
    bind-returns (notify_candidate_state t b st _) _ k told (_, refl)

progress-some :
    (t : SubxtTracker) (b : Block) (st : TrackerStorage) (j : Journal)
    → t.current_relay_block ≡ some b
    → progress_at t b st ≡ ok j
    → progress t st ≡ ok (some j)
unfolding progress
progress-some t b st j current reported =
    ap
      (λ (o : Option Block). elim o as (λ x. Outcome (Option Journal)) [
        | none ↦ ok none
        | some block ↦ (progress_at t block st >>= (λ r. ok (some r)))
      ])
      current
    ∙ ap (λ (o : Outcome Journal). o >>= (λ r. ok (some r))) reported

-- If every record stored for a candidate of the parachain decodes, `progress` never panics: it
-- returns a report once there is a current relay chain block, and nothing before.
pub progress-returns :
    (t : SubxtTracker) (st : TrackerStorage)
    → CandidatesDecode st
    → ((t.current_relay_block ≡ none) × (progress t st ≡ ok none))
      ⊎ ((b : Block) × (j : Journal) × (t.current_relay_block ≡ some b)
          × (progress t st ≡ ok (some j))
          × (progress_at t b st ≡ ok j))
unfolding progress
progress-returns t st h = elim (Option-cases t.current_relay_block) [
  | inl missing ↦ inl (missing, rw missing refl)
  | inr (b, current) ↦
      let (j, reported) = progress_at-returns t b st h in
      inr (b, j, current, progress-some t b st j current reported, reported)
]
