-- ===== src/Tracker/Evolution/Cores.antt =====
-- The evolution of the slots over a whole block.
use polkadot_introspector.Prelude.{
  ℕ, ◌≡◌, refl, true, not, ◌&&◌, Option, none, some, List, [], ◌∷◌, arith, Outcome, ok, panic,
  ◌>>=◌, expect, IfOk, IfOk-bind, IfOk-then, IfOk-mono, IfOk-result, Option-cases, Bool-cases, inl,
  inr, get_elem?, as_u32, length, nat_eq,
}
use polkadot_introspector.Prelude.Assoc.{keys}
use polkadot_introspector.Tracker.BlockInfo.{
  H256, ParachainBlockInfo, set_pending, set_availability, is_backed,
}
use polkadot_introspector.Tracker.Backing.{set_backed_candidates}
use polkadot_introspector.Tracker.Blocks.{
  set_relay_block, enter_block, set_forks, set_cores, validators_indices,
}
use polkadot_introspector.Tracker.Disputes.{extract_availability_bits_count}
use polkadot_introspector.Tracker.Inclusion.{set_included_candidates, include_cores, note_included}
use polkadot_introspector.Tracker.Inject.{
  is_occupied, assign_core, assign_cores, set_core_assignment, conclude_disputes, set_disputes,
  set_channels, await_core, await_cores, set_pending_availability, inject_inherent, inject_block,
}
use polkadot_introspector.Tracker.Records.{
  TrackerStorage, occupied_cores_of, block_timestamp, relevant_finalized_block_number_of,
  core_assignments_of, inbound_outbound_hrmp_channels_of, inherent_data_of,
}
use polkadot_introspector.Tracker.State.{
  SubxtTracker, current_candidate, is_current_candidate_backed, is_just_backed,
}
use polkadot_introspector.Tracker.Types.{
  AvailabilityBitfield, BackedCandidateInfo, DisputeInfo, DisputeStatementSet, Block, ForkTracker,
  InherentData, NewHeadEvent,
}
use polkadot_introspector.Tracker.Evolution.{
  Succeeds, slots_of, Evolves, AllEvolve, AllEvolve-refl, AllEvolve-trans,
}
use polkadot_introspector.Tracker.Evolution.Steps.{
  set_dropped_candidates-AllEvolve, set_backed_candidates-AllEvolve, include_cores-AllEvolve,
  modify_current-AllEvolve,
}

-- The state after a step has slots that evolved from those before it.
abbrev Onward : SubxtTracker → SubxtTracker → Type 0
Onward t t' = AllEvolve t.candidates t'.candidates

Onward-refl : (t : SubxtTracker) → Onward t t
Onward-refl t = AllEvolve-refl t.candidates

Onward-trans : (t u v : SubxtTracker) → Onward t u → Onward u v → Onward t v
Onward-trans t u v p q = AllEvolve-trans t.candidates u.candidates v.candidates p q

-- Two steps in a row.
Onward-bind :
    (t : SubxtTracker) (m : Outcome SubxtTracker) (f : SubxtTracker → Outcome SubxtTracker)
    → IfOk m (Onward t)
    → ((u : SubxtTracker) → IfOk (f u) (Onward u))
    → IfOk (m >>= f) (Onward t)
Onward-bind t (ok u) f p q =
    IfOk-mono (Onward u) (Onward t) (f u) (q u) (λ v r. Onward-trans t u v p r)
Onward-bind t panic f p q = tt

assign_core-Onward :
    (t : SubxtTracker) (h : H256) (st : TrackerStorage) (core : ℕ)
    → IfOk (assign_core t h st core) (Onward t)
unfolding assign_core
assign_core-Onward t h st core = elim (Option-cases (current_candidate t core)) [
  | inl missing ↦ rw (missing, assign_core) (Onward-refl t)
  | inr (c, found) ↦ elim (Bool-cases (is_backed c)) [
    | inr other ↦ rw (found, assign_core, other) (Onward-refl t)
    | inl waits ↦
        rw (found, assign_core, waits)
          (IfOk-then (Onward t) (occupied_cores_of st h) _ λ stored.
            IfOk-then (Onward t) (expect stored) _ λ states.
              IfOk-then (Onward t) (expect (get_elem? states core)) _ λ state.
                modify_current-AllEvolve core (λ c. record c { core_occupied = is_occupied state })
                  t (λ d e. (refl, refl, omega arith)))
  ]
]

await_candidate :
    (t : SubxtTracker) (core : ℕ) (c : ParachainBlockInfo) (bits max : ℕ)
    → current_candidate t core ≡ some c
    → (is_current_candidate_backed t core && not (is_just_backed t)) ≡ true
    → Succeeds
        (some c)
        (some (set_availability (record { current = bits; max = max }) (set_pending c)))
unfolding is_current_candidate_backed set_availability set_pending
await_candidate t core c bits max e waits = ground arith

await_core-Onward :
    (t : SubxtTracker) (bitfields : List AvailabilityBitfield) (max core : ℕ)
    → IfOk (await_core t bitfields max core) (Onward t)
unfolding await_core
await_core-Onward t bitfields max core =
    elim (Bool-cases (is_current_candidate_backed t core && not (is_just_backed t))) [
      | inr other ↦ rw (other, await_core) (Onward-refl t)
      | inl waits ↦
          rw (waits, await_core)
            (IfOk-then (Onward t) (extract_availability_bits_count bitfields core) _ λ bits.
              modify_current-AllEvolve core
                (λ c. set_availability (record { current = bits; max = max }) (set_pending c)) t
                (λ c e. await_candidate t core c bits max e waits))
    ]

assign_cores-Onward :
    (t : SubxtTracker) (h : H256) (st : TrackerStorage) (cores : List ℕ)
    → IfOk (assign_cores t h st cores) (Onward t)
unfolding assign_cores
assign_cores-Onward t h st [] = Onward-refl t
assign_cores-Onward t h st (core ∷ cores) =
    Onward-bind t (assign_core t h st core) _ (assign_core-Onward t h st core)
      (λ u. assign_cores-Onward u h st cores)

await_cores-Onward :
    (t : SubxtTracker) (bitfields : List AvailabilityBitfield) (max : ℕ) (cores : List ℕ)
    → IfOk (await_cores t bitfields max cores) (Onward t)
unfolding await_cores
await_cores-Onward t bitfields max [] = Onward-refl t
await_cores-Onward t bitfields max (core ∷ cores) =
    Onward-bind t (await_core t bitfields max core) _ (await_core-Onward t bitfields max core)
      (λ u. await_cores-Onward u bitfields max cores)

enter_block-candidates :
    (t : SubxtTracker) (b : Block) → (enter_block t b).candidates ≡ t.candidates
unfolding enter_block
enter_block-candidates t b = ground arith

set_relay_block-Onward :
    (t : SubxtTracker) (h : H256) (n : ℕ) (st : TrackerStorage)
    → IfOk (set_relay_block t h n st) (Onward t)
unfolding set_relay_block
set_relay_block-Onward t h n st = IfOk-then (Onward t) (block_timestamp st h) _ λ stored.
    IfOk-then (Onward t) (expect stored) _ λ ts.
      IfOk-then (Onward t) (relevant_finalized_block_number_of st h) _ λ finalized.
        rw (enter_block-candidates t (record { hash = h; num = n; ts = ts })) (Onward-refl t)

set_cores-Onward :
    (t : SubxtTracker) (h : H256) (n : ℕ) (st : TrackerStorage)
    → IfOk (set_cores (set_forks t h n) h st) (Onward t)
unfolding set_cores set_forks
set_cores-Onward t h n st =
    IfOk-then (Onward t) (core_assignments_of st h) _
      λ stored. IfOk-then (Onward t) (expect stored) _ λ assignments. Onward-refl t

note_included-Onward :
    (t : SubxtTracker) (last : Option H256) (forks : List ForkTracker)
    → t.relay_forks ≡ forks
    → IfOk (note_included t last) (Onward t)
unfolding note_included
note_included-Onward t none forks e = Onward-refl t
note_included-Onward t (some hash) [] e = rw (e, note_included) tt
note_included-Onward t (some hash) (f ∷ forks) e = rw (e, note_included) (Onward-refl t)

set_included_candidates-Onward :
    (t : SubxtTracker) (h : H256) (hashes : List H256) (bitfields : List AvailabilityBitfield)
    (st : TrackerStorage)
    → IfOk (set_included_candidates t h hashes bitfields st) (Onward t)
unfolding set_included_candidates
set_included_candidates-Onward t h hashes bitfields st =
    IfOk-then (Onward t) (validators_indices h st) _ λ validators.
      let max = as_u32 (length validators) in
      IfOk-bind (λ r. AllEvolve t.candidates r.0) (Onward t)
        (include_cores hashes bitfields max t.candidates none) _
        (include_cores-AllEvolve hashes bitfields max t.candidates none)
        (λ r on.
          let t' = record t { candidates = r.0 } in
          IfOk-mono (Onward t') (Onward t) (note_included t' r.1)
            (note_included-Onward t' r.1 t.relay_forks refl) (λ u on'. Onward-trans t t' u on on'))

set_core_assignment-Onward :
    (t : SubxtTracker) (n : ℕ) (cs : List BackedCandidateInfo) (h : H256) (st : TrackerStorage)
    → IfOk (set_core_assignment (set_backed_candidates t n cs) h st) (Onward t)
unfolding set_core_assignment
set_core_assignment-Onward t n cs h st =
    let u = set_backed_candidates t n cs in
    IfOk-mono (Onward u) (Onward t) (assign_cores u h st (keys u.cores))
      (assign_cores-Onward u h st (keys u.cores))
      (λ v on. Onward-trans t u v (set_backed_candidates-AllEvolve t n cs) on)

set_disputes-Onward :
    (t : SubxtTracker) (ds : List DisputeStatementSet) (cs : List DisputeInfo) (st : TrackerStorage)
    → IfOk (set_disputes t ds cs st) (Onward t)
unfolding set_disputes
set_disputes-Onward t ds cs st =
    IfOk-then (Onward t) (conclude_disputes ds st cs []) _ λ disputes. Onward-refl t

set_channels-Onward :
    (t : SubxtTracker) (h : H256) (st : TrackerStorage) → IfOk (set_channels t h st) (Onward t)
unfolding set_channels
set_channels-Onward t h st =
    IfOk-then (Onward t) (inbound_outbound_hrmp_channels_of st h) _ λ stored. Onward-refl t

set_pending_availability-Onward :
    (t : SubxtTracker) (h : H256) (bitfields : List AvailabilityBitfield) (st : TrackerStorage)
    → IfOk (set_pending_availability t h bitfields st) (Onward t)
unfolding set_pending_availability
set_pending_availability-Onward t h bitfields st =
    IfOk-then (Onward t) (validators_indices h st) _
      λ validators. await_cores-Onward t bitfields (as_u32 (length validators)) (keys t.cores)

inject_inherent-Onward :
    (t : SubxtTracker) (h : H256) (e : NewHeadEvent) (i : InherentData) (st : TrackerStorage)
    → IfOk (inject_inherent t h e i st) (Onward t)
unfolding inject_inherent
inject_inherent-Onward t h e i st =
    let n = e.relay_parent_number in
    Onward-bind t _ _ (set_relay_block-Onward t h n st) λ t₁.
      Onward-bind t₁ _ _ (set_cores-Onward t₁ h n st) λ t₂.
        Onward-bind t₂ _ _
          (set_included_candidates-Onward t₂ h e.candidates_included i.bitfields st)
          λ t₃. Onward-bind t₃ _ _ (set_core_assignment-Onward t₃ n e.candidates_backed h st) λ t₄.
            Onward-bind t₄ _ _ (set_disputes-Onward t₄ i.disputes e.disputes_concluded st) λ t₅.
              Onward-bind t₅ _ _ (set_channels-Onward t₅ h st) λ t₆.
                Onward-bind t₆ _ _ (set_pending_availability-Onward t₆ h i.bitfields st)
                  λ t₇. set_dropped_candidates-AllEvolve t₇

-- If a block is injected, then on every core each slot is still in its place, with the same
-- candidate in the same or a later state (backed, pending, dropped, included), and what is new
-- stands behind: nothing is lost, reordered or taken back, and an included candidate stays included.
pub inject_block-Evolves :
    (t t' : SubxtTracker) (h : H256) (e : NewHeadEvent) (st : TrackerStorage)
    → inject_block t h e st ≡ ok t'
    → (core : ℕ) → Evolves (slots_of core t.candidates) (slots_of core t'.candidates)
unfolding inject_block
inject_block-Evolves t t' h e st run =
    IfOk-result (Onward t) (inject_block t h e st) t'
      (IfOk-then (Onward t) (inherent_data_of st h) _
        (elim [ none ↦ Onward-refl t | some i ↦ inject_inherent-Onward t h e i st ]))
      run
