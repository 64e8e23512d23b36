-- ===== src/Tracker/Backing/Dropping.antt =====
-- `set_dropped_candidates` against a description of what it is for, and what `maybe_reset_state`
-- leaves after it.
use polkadot_introspector.Prelude.{
  ℕ, zero, suc, ◌-◌, ◌≤◌, ◌≡◌, refl, ap, sym, Bool, true, not, ◌&&◌, Option, none, some, List, [],
  ◌∷◌, arith, nat_eq, if◌then◌else◌, keep, any, count, length, ltb, Bool-cases, inl, inr, All,
  length-keep, ok, IfOk, IfOk-then, IfOk-result,
}
use polkadot_introspector.Prelude.Assoc.{map_values}
use polkadot_introspector.Tracker.BlockInfo.{H256, ParachainBlockInfo, set_dropped, is_included}
use polkadot_introspector.Tracker.Backing.{
  is_open, drop_first, drop_slots, set_dropped_candidates, set_backed_candidates,
}
use polkadot_introspector.Tracker.Blocks.{set_relay_block, set_forks, set_cores}
use polkadot_introspector.Tracker.Inclusion.{set_included_candidates}
use polkadot_introspector.Tracker.Records.{TrackerStorage, inherent_data_of}
use polkadot_introspector.Tracker.Types.{InherentData, NewHeadEvent}
use polkadot_introspector.Tracker.Inject.{
  retain_filled, maybe_reset_state, set_core_assignment, set_disputes, set_channels,
  set_pending_availability, inject_inherent, inject_block,
}
use polkadot_introspector.Tracker.State.{Slots, SubxtTracker, is_active}

-- A candidate that is not included is superseded by a later one that is not.
unfoldable pub superseded : Slots → Slots
superseded [] = []
superseded (none ∷ slots) = none ∷ superseded slots
superseded (some c ∷ slots) =
    (if not (is_included c) && any is_open slots then some (set_dropped c) else some c)
    ∷ superseded slots

any-count {ℓ} : {A : Type ℓ} (p : A → Bool) (xs : List A) → any p xs ≡ ltb 0 (count p xs)
unfolding any count
any-count p [] = refl
any-count p (x ∷ xs) = ground (arith, any-count p xs)

superseded-none : (slots : Slots) → count is_open slots ≡ 0 → superseded slots ≡ slots
unfolding superseded count
superseded-none [] h = refl
superseded-none (none ∷ slots) h = ap (◌∷◌ none) (superseded-none slots (omega arith))
superseded-none (some c ∷ slots) h = ground (arith, superseded-none slots, any-count is_open slots)

drop_first-superseded :
    (n : ℕ) (slots : Slots) → count is_open slots ≡ suc n → drop_first n slots ≡ superseded slots
unfolding drop_first superseded count
drop_first-superseded n [] h = absurd (omega arith)
drop_first-superseded zero (none ∷ slots) h =
    ap (◌∷◌ none) (drop_first-superseded zero slots (omega arith))
drop_first-superseded (suc n) (none ∷ slots) h =
    ap (◌∷◌ none) (drop_first-superseded (suc n) slots (omega arith))
drop_first-superseded zero (some c ∷ slots) h =
    ground (arith, drop_first-superseded zero slots, superseded-none slots, any-count is_open slots)
drop_first-superseded (suc n) (some c ∷ slots) h = ground (
  arith,
  drop_first-superseded (suc n) slots,
  drop_first-superseded n slots,
  any-count is_open slots,
)

superseded-few : (slots : Slots) → count is_open slots ≤ 1 → superseded slots ≡ slots
unfolding superseded count
superseded-few [] h = refl
superseded-few (none ∷ slots) h = ap (◌∷◌ none) (superseded-few slots (omega arith))
superseded-few (some c ∷ slots) h =
    ground (arith, superseded-few slots, superseded-none slots, any-count is_open slots)

-- All candidates of a core that are not included are dropped but the last of them; every other slot
-- is left as it was.
pub drop_slots-superseded : (slots : Slots) → drop_slots slots ≡ superseded slots
unfolding drop_slots
drop_slots-superseded slots =
    let n = count is_open slots in
    elim (Bool-cases (ltb 1 n)) [
      | inl many ↦ rw many (drop_first-superseded (n - 1) slots (ground arith))
      | inr few ↦ rw few (sym (superseded-few slots (ground arith)))
    ]

active-superseded :
    (slots : Slots) → count is_active (superseded slots) ≤ (if any is_open slots then 1 else 0)
unfolding superseded count any set_dropped
active-superseded [] = omega arith
active-superseded (none ∷ slots) = ground (arith, active-superseded slots)
active-superseded (some c ∷ slots) = ground (arith, active-superseded slots)

active_le_one : (slots : Slots) → count is_active (superseded slots) ≤ 1
active_le_one slots = ground (arith, active-superseded slots)

-- A core with one candidate, which is backed or pending.
abbrev pub TracksOne : ℕ × Slots → Type 0
TracksOne p = (c : ParachainBlockInfo) × (p.1 ≡ some c ∷ []) × (is_active (some c) ≡ true)

keep-active : (slots : Slots) → All (λ c. is_active c ≡ true) (keep is_active slots)
unfolding keep
keep-active [] = tt
keep-active (c ∷ slots) = ground (arith, keep-active slots)

single :
    (core : ℕ) (c : Option ParachainBlockInfo) (slots : Slots)
    → length (c ∷ slots) ≤ 1
    → is_active c ≡ true
    → TracksOne (core, c ∷ slots)
single core (some c) [] h a = (c, refl, a)
single core none slots h a = cc
single core c (d ∷ slots) h a = absurd (omega arith)

retain_filled-cases :
    (core : ℕ) (slots : Slots) (rest : List (ℕ × Slots))
    → length slots ≤ 1
    → All (λ c. is_active c ≡ true) slots
    → All TracksOne (retain_filled rest)
    → All TracksOne (retain_filled ((core, slots) ∷ rest))
unfolding retain_filled
retain_filled-cases core [] rest h a others = others
retain_filled-cases core (c ∷ slots) rest h a others = (single core c slots h a.0, others)

reset-TracksOne :
    (m : List (ℕ × Slots))
    → All TracksOne (retain_filled (map_values (keep is_active) (map_values drop_slots m)))
unfolding retain_filled map_values
reset-TracksOne [] = tt
reset-TracksOne ((core, slots) ∷ m) =
    retain_filled-cases core (keep is_active (drop_slots slots)) _
      (rw (drop_slots-superseded slots)
        (omega (arith, length-keep is_active (superseded slots), active_le_one slots)))
      (keep-active (drop_slots slots)) (reset-TracksOne m)

maybe_reset_state-dropped :
    (t : SubxtTracker)
    → let r = maybe_reset_state (set_dropped_candidates t) in
      All TracksOne r.candidates × (r.new_session ≡ none) × (r.disputes ≡ [])
unfolding maybe_reset_state set_dropped_candidates
maybe_reset_state-dropped t = (reset-TracksOne t.candidates, refl, refl)

-- What a tracker is to be once it was reported and reset.
abbrev pub IsReset : SubxtTracker → Type 0
IsReset t =
    let r = maybe_reset_state t in
    All TracksOne r.candidates × (r.new_session ≡ none) × (r.disputes ≡ [])

inject_inherent-IsReset :
    (t : SubxtTracker) (h : H256) (e : NewHeadEvent) (i : InherentData) (st : TrackerStorage)
    → IfOk (inject_inherent t h e i st) IsReset
unfolding inject_inherent
inject_inherent-IsReset t h e i st =
    IfOk-then IsReset (set_relay_block t h e.relay_parent_number st) _ λ t₁.
      IfOk-then IsReset (set_cores (set_forks t₁ h e.relay_parent_number) h st) _ λ t₂.
        IfOk-then IsReset (set_included_candidates t₂ h e.candidates_included i.bitfields st) _
          λ t₃.
            IfOk-then IsReset
              (set_core_assignment
                (set_backed_candidates t₃ e.relay_parent_number e.candidates_backed) h st)
              _
              λ t₄. IfOk-then IsReset (set_disputes t₄ i.disputes e.disputes_concluded st) _ λ t₅.
                IfOk-then IsReset (set_channels t₅ h st) _ λ t₆.
                  IfOk-then IsReset (set_pending_availability t₆ h i.bitfields st) _
                    λ t₇. maybe_reset_state-dropped t₇

-- Once a block whose inherent data is stored is injected, the reset leaves each core that is kept with
-- exactly one candidate, backed or pending, and clears the session and the disputes.
pub maybe_reset_state-TracksOne :
    (t t' : SubxtTracker) (h : H256) (e : NewHeadEvent) (i : InherentData) (st : TrackerStorage)
    → inherent_data_of st h ≡ ok (some i)
    → inject_block t h e st ≡ ok t'
    → let r = maybe_reset_state t' in
      All TracksOne r.candidates × (r.new_session ≡ none) × (r.disputes ≡ [])
unfolding inject_block
maybe_reset_state-TracksOne t t' h e i st stored run =
    let injected : inject_inherent t h e i st ≡ ok t' = rw stored at run in
    IfOk-result IsReset (inject_inherent t h e i st) t' (inject_inherent-IsReset t h e i st)
      injected
