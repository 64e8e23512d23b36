-- ===== src/Tracker/Evolution/Steps.antt =====
-- Each change that the `set_*` methods make to the candidates lets every core's slots evolve.
use polkadot_introspector.Prelude.{
  ℕ, zero, suc, ◌-◌, ◌≡◌, refl, Option, none, some, List, [], ◌∷◌, ◌++◌, arith, ◌==◌, nat_eq,
  nat_beq_iff, map_option, IfOk, IfOk-bind, IfOk-then, Option-cases, Bool-cases, inl, inr, count,
  keep, contains,
}
use polkadot_introspector.Prelude.Assoc.{lookup, lookup-insert, lookup-map_values}
use polkadot_introspector.Tracker.BlockInfo.{
  H256, ParachainBlockInfo, set_included, set_dropped, set_availability,
}
use polkadot_introspector.Tracker.Blocks.{modify_last, modify_current}
use polkadot_introspector.Tracker.Inclusion.{include_candidate, include_slots, include_cores}
use polkadot_introspector.Tracker.Backing.{
  push_slot, back_candidate, back_all, skip_slot, skip_idle, is_skipped, is_of,
  set_backed_candidates, drop_first, drop_slots, idle_cores, set_dropped_candidates, is_open,
  core_indices,
}
use polkadot_introspector.Tracker.Disputes.{extract_availability_bits_count}
use polkadot_introspector.Tracker.State.{Slots, SubxtTracker, last_candidate, current_candidate}
use polkadot_introspector.Tracker.Types.{AvailabilityBitfield, BackedCandidateInfo}
use polkadot_introspector.Tracker.Evolution.{
  Succeeds, Evolves, Succeeds-refl, Evolves-refl, Evolves-append, slots_of, AllEvolve,
  AllEvolve-refl, AllEvolve-trans,
}

push_slot-AllEvolve :
    (core : ℕ) (slot : Option ParachainBlockInfo) (m : List (ℕ × Slots))
    → AllEvolve m (push_slot core slot m)
unfolding push_slot
push_slot-AllEvolve core slot m j =
    rw (lookup-insert core j (slots_of core m ++ slot ∷ []) m) (elim (Bool-cases (core == j)) [
      | inl same ↦
          rw (same, (nat_beq_iff core j).0 same) (Evolves-append (slots_of j m) (slot ∷ []))
      | inr other ↦ rw other (Evolves-refl (slots_of j m))
    ])

drop_first-Evolves : (n : ℕ) (slots : Slots) → Evolves slots (drop_first n slots)
unfolding drop_first set_dropped
drop_first-Evolves zero slots = Evolves-refl slots
drop_first-Evolves (suc n) [] = tt
drop_first-Evolves (suc n) (none ∷ slots) = (tt, drop_first-Evolves (suc n) slots)
drop_first-Evolves (suc n) (some c ∷ slots) =
    ground (arith, drop_first-Evolves (suc n) slots, drop_first-Evolves n slots)

drop_slots-Evolves : (slots : Slots) → Evolves slots (drop_slots slots)
unfolding drop_slots
drop_slots-Evolves slots =
    ground (arith, drop_first-Evolves (count is_open slots - 1) slots, Evolves-refl slots)

pub set_dropped_candidates-AllEvolve :
    (t : SubxtTracker) → AllEvolve t.candidates (set_dropped_candidates t).candidates
unfolding set_dropped_candidates
set_dropped_candidates-AllEvolve t core =
    rw (lookup-map_values drop_slots core t.candidates)
      (elim (Option-cases (lookup core t.candidates)) [
        | inl h ↦ rw h tt
        | inr (slots, h) ↦ rw h (drop_slots-Evolves slots)
      ])

back_all-AllEvolve :
    (t : SubxtTracker) (n : ℕ) (cs : List BackedCandidateInfo)
    → AllEvolve t.candidates (back_all t n cs).candidates
unfolding back_all
back_all-AllEvolve t n [] = AllEvolve-refl t.candidates
back_all-AllEvolve t n (c ∷ cs) =
    AllEvolve-trans t.candidates (back_candidate t n c).candidates _
      (unfold back_candidate in push_slot-AllEvolve c.core_idx _ t.candidates)
      (back_all-AllEvolve (back_candidate t n c) n cs)

skip_slot-AllEvolve :
    (t : SubxtTracker) (core : ℕ) → AllEvolve t.candidates (skip_slot t core).candidates
unfolding skip_slot
skip_slot-AllEvolve t core = elim (Bool-cases (is_skipped t core)) [
  | inl skipped ↦ rw (skipped, skip_slot) (push_slot-AllEvolve core none t.candidates)
  | inr busy ↦ rw (busy, skip_slot) (AllEvolve-refl t.candidates)
]

skip_idle-AllEvolve :
    (t : SubxtTracker) (cores : List ℕ) → AllEvolve t.candidates (skip_idle t cores).candidates
unfolding skip_idle
skip_idle-AllEvolve t [] = AllEvolve-refl t.candidates
skip_idle-AllEvolve t (core ∷ cores) =
    AllEvolve-trans t.candidates (skip_slot t core).candidates _ (skip_slot-AllEvolve t core)
      (skip_idle-AllEvolve (skip_slot t core) cores)

pub set_backed_candidates-AllEvolve :
    (t : SubxtTracker) (n : ℕ) (cs : List BackedCandidateInfo)
    → AllEvolve t.candidates (set_backed_candidates t n cs).candidates
unfolding set_backed_candidates
set_backed_candidates-AllEvolve t n cs =
    let mine = keep (is_of t.para_id) cs in
    AllEvolve-trans t.candidates (back_all t n mine).candidates _ (back_all-AllEvolve t n mine)
      (skip_idle-AllEvolve (back_all t n mine) (idle_cores t (core_indices mine)))

include_candidate-Succeeds :
    (hashes : List H256) (bitfields : List AvailabilityBitfield) (max : ℕ) (c : ParachainBlockInfo)
    (last : Option H256)
    → IfOk (include_candidate hashes bitfields max c last) (λ r. Succeeds (some c) (some r.0))
unfolding include_candidate set_included set_availability
include_candidate-Succeeds hashes bitfields max c last =
    elim (Bool-cases (contains c.candidate_hash hashes)) [
      | inl hit ↦ rw hit (
          IfOk-then (λ r. Succeeds (some c) (some r.0))
            (extract_availability_bits_count bitfields c.assigned_core) _ (λ bits. ground arith))
      | inr miss ↦ rw miss (Succeeds-refl (some c))
    ]

include_slots-Evolves :
    (hashes : List H256) (bitfields : List AvailabilityBitfield) (max : ℕ) (slots : Slots)
    (last : Option H256)
    → IfOk (include_slots hashes bitfields max slots last) (λ r. Evolves slots r.0)
unfolding include_slots
include_slots-Evolves hashes bitfields max [] last = tt
include_slots-Evolves hashes bitfields max (none ∷ slots) last =
    IfOk-bind (λ r. Evolves slots r.0) (λ r. Evolves (none ∷ slots) r.0)
      (include_slots hashes bitfields max slots last) _
      (include_slots-Evolves hashes bitfields max slots last) (λ r h. (tt, h))
include_slots-Evolves hashes bitfields max (some c ∷ slots) last =
    IfOk-bind (λ r. Succeeds (some c) (some r.0)) (λ r. Evolves (some c ∷ slots) r.0)
      (include_candidate hashes bitfields max c last) _
      (include_candidate-Succeeds hashes bitfields max c last)
      (λ r h.
        IfOk-bind (λ s. Evolves slots s.0) (λ s. Evolves (some c ∷ slots) s.0)
          (include_slots hashes bitfields max slots r.1) _
          (include_slots-Evolves hashes bitfields max slots r.1) (λ s k. (h, k)))

pub include_cores-AllEvolve :
    (hashes : List H256) (bitfields : List AvailabilityBitfield) (max : ℕ) (m : List (ℕ × Slots))
    (last : Option H256)
    → IfOk (include_cores hashes bitfields max m last) (λ r. AllEvolve m r.0)
unfolding include_cores
include_cores-AllEvolve hashes bitfields max [] last = AllEvolve-refl []
include_cores-AllEvolve hashes bitfields max ((core, slots) ∷ m) last =
    IfOk-bind (λ r. Evolves slots r.0) (λ r. AllEvolve ((core, slots) ∷ m) r.0)
      (include_slots hashes bitfields max slots last) _
      (include_slots-Evolves hashes bitfields max slots last)
      (λ r h.
        IfOk-bind (λ s. AllEvolve m s.0) (λ s. AllEvolve ((core, slots) ∷ m) s.0)
          (include_cores hashes bitfields max m r.1) _
          (include_cores-AllEvolve hashes bitfields max m r.1)
          (λ s k j. unfold lookup in ground (arith, k j)))

modify_last-Evolves :
    (f : ParachainBlockInfo → ParachainBlockInfo) (slots : Slots)
    → ((c : ParachainBlockInfo) → last_candidate slots ≡ some c → Succeeds (some c) (some (f c)))
    → Evolves slots (modify_last (map_option f) slots)
unfolding modify_last
modify_last-Evolves f [] h = tt
modify_last-Evolves f (none ∷ []) h = (tt, tt)
modify_last-Evolves f (some c ∷ []) h = (h c refl, tt)
modify_last-Evolves f (c ∷ d ∷ slots) h = (Succeeds-refl c, modify_last-Evolves f (d ∷ slots) h)

pub modify_current-AllEvolve :
    (core : ℕ) (f : ParachainBlockInfo → ParachainBlockInfo) (t : SubxtTracker)
    → ((c : ParachainBlockInfo)
        → current_candidate t core ≡ some c
        → Succeeds (some c) (some (f c)))
    → AllEvolve t.candidates (modify_current core f t).candidates
unfolding modify_current current_candidate
modify_current-AllEvolve core f t h j = elim (Option-cases (lookup core t.candidates)) [
  | inl missing ↦ rw (missing, modify_current) (Evolves-refl (slots_of j t.candidates))
  | inr (slots, found) ↦
      rw
        (
          found,
          modify_current,
          lookup-insert core j (modify_last (map_option f) slots) t.candidates,
        )
        (elim (Bool-cases (core == j)) [
          | inl same ↦
              rw (same, ← (nat_beq_iff core j).0 same, found)
                (modify_last-Evolves f slots (λ c e. h c (rw (found, current_candidate) e)))
          | inr other ↦ rw other (Evolves-refl (slots_of j t.candidates))
        ])
]
