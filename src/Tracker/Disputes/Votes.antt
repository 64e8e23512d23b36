-- ===== src/Tracker/Disputes/Votes.antt =====
-- The votes of a dispute: what is counted for each side, and who is held to have misbehaved.
use polkadot_introspector.Prelude.{
  ℕ, ◌+◌, ◌<◌, ◌^◌, ◌≡◌, refl, ◌∙◌, Bool, true, false, not, Option, List, [], ◌∷◌, map, arith,
  length, keep, count, length-keep, if◌then◌else◌, as_u32, sub32,
}
use polkadot_introspector.Tracker.Types.{AccountId32, DisputeStatementSet, SubxtDisputeResult}
use polkadot_introspector.Tracker.Disputes.{
  extract_validator_address, extract_misbehaving_validators, extract_votes, is_valid_statement,
  votes_against, is_valid_outcome, new_dispute,
}

count-not {ℓ} :
    {A : Type ℓ} (p : A → Bool) (xs : List A) → count p xs + count (λ x. not (p x)) xs ≡ length xs
unfolding count
count-not p [] = omega arith
count-not p (x ∷ xs) = ground (arith, count-not p xs)

length-map {ℓ κ} :
    {A : Type ℓ} {B : Type κ} (f : A → B) (xs : List A) → length (map f xs) ≡ length xs
length-map f [] = refl
length-map f (x ∷ xs) = omega (arith, length-map f xs)

-- Both tallies are exact, whatever the kinds of the statements, and add up to their number.
pub extract_votes_counts :
    (info : DisputeStatementSet)
    → length info.statements < 2 ^ 32
    → ((extract_votes info).0 ≡ count is_valid_statement info.statements)
      × ((extract_votes info).1 ≡ count (λ s. not (is_valid_statement s)) info.statements)
      × ((extract_votes info).0 + (extract_votes info).1 ≡ length info.statements)
unfolding extract_votes as_u32 sub32
extract_votes_counts info fits = omega (
  arith,
  length-keep is_valid_statement info.statements,
  count-not is_valid_statement info.statements,
)

misbehaving_count :
    (keys : Option (List AccountId32)) (info : DisputeStatementSet) (against : Bool)
    → length (extract_misbehaving_validators keys info against) ≡ (
        if against
        then count (λ s. not (is_valid_statement s)) info.statements
        else count is_valid_statement info.statements)
unfolding extract_misbehaving_validators
misbehaving_count keys info true =
    length-map (λ s. extract_validator_address keys s.1) (keep (votes_against true) info.statements)
    ∙ length-keep (votes_against true) info.statements
misbehaving_count keys info false =
    length-map (λ s. extract_validator_address keys s.1)
      (keep (votes_against false) info.statements)
    ∙ length-keep (votes_against false) info.statements

-- The validators held to have misbehaved are as many as the votes of the losing side: those
-- against a candidate that was found valid, and else those for it.
pub misbehaving_losers :
    (info : DisputeStatementSet) (outcome : SubxtDisputeResult) (initiated : ℕ) (indices : List ℕ)
    (concluded : ℕ) (keys initiators_keys : Option (List AccountId32))
    → length info.statements < 2 ^ 32
    → let d = new_dispute info outcome initiated indices concluded keys initiators_keys in
      length d.misbehaving_validators
      ≡ (if is_valid_outcome outcome then d.voted_against else d.voted_for)
unfolding new_dispute
misbehaving_losers info outcome initiated indices concluded keys initiators_keys fits =
    let (won, lost, total) = extract_votes_counts info fits in
    misbehaving_count keys info (is_valid_outcome outcome) ∙ ground (arith, won, lost)
