-- ===== src/Whois/Closest.antt =====
-- Which session's knowledge of the network `get_closest_to_session` takes.
use polkadot_introspector.Prelude.{
  ℕ, ◌≤◌, ◌<◌, ◌≡◌, refl, sym, subst, ap, ◌∙◌, Bool, true, false, Option, none, some, List, [], ◌∷◌,
  All, keep, contains, leb, ltb, nat_eq, ◌==◌, arith, Bool-cases, inl, inr, ◌⊎◌, keep,
}
use polkadot_introspector.Prelude.Assoc.{lookup, keys}
use polkadot_introspector.Whois.{
  Network, NetworkCache, PerSessionNetworkCache, Result, ok, err, invalid_p2p_cache, max_of, min_of,
  greater, smaller, closest, get_closest_to_session,
}

-- The greatest and the least element.
abbrev IsMax : ℕ → List ℕ → Type 0
IsMax m xs = (contains m xs ≡ true) × All (λ k. k ≤ m) xs

abbrev IsMin : ℕ → List ℕ → Type 0
IsMin m xs = (contains m xs ≡ true) × All (λ k. m ≤ k) xs

abbrev MaxOf : Option ℕ → List ℕ → Type 0
MaxOf none xs = xs ≡ []
MaxOf (some m) xs = IsMax m xs

abbrev MinOf : Option ℕ → List ℕ → Type 0
MinOf none xs = xs ≡ []
MinOf (some m) xs = IsMin m xs

All-mono : (P Q : ℕ → Type 0) (xs : List ℕ) → ((k : ℕ) → P k → Q k) → All P xs → All Q xs
All-mono P Q [] f h = tt
All-mono P Q (x ∷ xs) f h = (f x h.0, All-mono P Q xs f h.1)

greater-IsMax : (x : ℕ) (xs : List ℕ) (o : Option ℕ) → MaxOf o xs → IsMax (greater x o) (x ∷ xs)
unfolding contains
greater-IsMax x [] none h = (ground arith, (omega arith, tt))
greater-IsMax x (y ∷ ys) none h = absurd (cc h)
greater-IsMax x xs (some m) (member, bound) = elim (Bool-cases (ltb x m)) [
  | inl e ↦
      let taken : greater x (some m) ≡ m = rw e refl in
      let order : x ≤ m = ground arith in
      let there : contains m (x ∷ xs) ≡ true = ground (arith, member) in
      subst (λ k. IsMax k (x ∷ xs)) (sym taken) (there, (order, bound))
  | inr e ↦
      let taken : greater x (some m) ≡ x = rw e refl in
      let order : m ≤ x = ground arith in
      let there : contains x (x ∷ xs) ≡ true = ground arith in
      subst (λ k. IsMax k (x ∷ xs)) (sym taken)
        (there, (omega arith, All-mono _ _ xs (λ k h. omega arith) bound))
]

smaller-IsMin : (x : ℕ) (xs : List ℕ) (o : Option ℕ) → MinOf o xs → IsMin (smaller x o) (x ∷ xs)
unfolding contains
smaller-IsMin x [] none h = (ground arith, (omega arith, tt))
smaller-IsMin x (y ∷ ys) none h = absurd (cc h)
smaller-IsMin x xs (some m) (member, bound) = elim (Bool-cases (ltb m x)) [
  | inl e ↦
      let taken : smaller x (some m) ≡ m = rw e refl in
      let order : m ≤ x = ground arith in
      let there : contains m (x ∷ xs) ≡ true = ground (arith, member) in
      subst (λ k. IsMin k (x ∷ xs)) (sym taken) (there, (order, bound))
  | inr e ↦
      let taken : smaller x (some m) ≡ x = rw e refl in
      let order : x ≤ m = ground arith in
      let there : contains x (x ∷ xs) ≡ true = ground arith in
      subst (λ k. IsMin k (x ∷ xs)) (sym taken)
        (there, (omega arith, All-mono _ _ xs (λ k h. omega arith) bound))
]

max_of-MaxOf : (xs : List ℕ) → MaxOf (max_of xs) xs
unfolding max_of
max_of-MaxOf [] = refl
max_of-MaxOf (x ∷ xs) = greater-IsMax x xs (max_of xs) (max_of-MaxOf xs)

min_of-MinOf : (xs : List ℕ) → MinOf (min_of xs) xs
unfolding min_of
min_of-MinOf [] = refl
min_of-MinOf (x ∷ xs) = smaller-IsMin x xs (min_of xs) (min_of-MinOf xs)

module _ (p : ℕ → Bool) where
  contains-keep :
      (m : ℕ) (xs : List ℕ) → contains m (keep p xs) ≡ true → (contains m xs ≡ true) × (p m ≡ true)
  unfolding contains keep
  contains-keep m [] h = absurd (cc h)
  contains-keep m (x ∷ xs) h =
      let later = contains-keep m xs in
      elim (Bool-cases (p x)) [
        | inr e ↦
            let rest : contains m (keep p xs) ≡ true = rw e at h in
            let (there, holds) = later rest in (ground (arith, there), holds)
        | inl e ↦
            let whole : contains m (x ∷ keep p xs) ≡ true = rw e at h in
            elim (Bool-cases (m == x)) [
              | inl same ↦ (rw same refl, ap p ((nat_eq.decides m x).0 same) ∙ e)
              | inr other ↦
                  let rest : contains m (keep p xs) ≡ true = rw other at whole in
                  let (there, holds) = later rest in (rw other there, holds)
            ]
      ]

  All-keep : (Q : ℕ → Type 0) (xs : List ℕ) → All Q (keep p xs) → All (λ k. p k ≡ true → Q k) xs
  unfolding keep
  All-keep Q [] h = tt
  All-keep Q (x ∷ xs) h = elim (Bool-cases (p x)) [
    | inl e ↦ let both : All Q (x ∷ keep p xs) = rw e at h in ((λ _. both.0), All-keep Q xs both.1)
    | inr e ↦
        let rest : All Q (keep p xs) = rw e at h in
        ((λ yes. let no : true ≡ false = sym yes ∙ e in absurd (cc no)), All-keep Q xs rest)
  ]

-- The greatest session up to the one that is asked for, or else the least of those above it.
pub record IsClosest (c s : ℕ) (sessions : List ℕ) : Type 0 where
  pub member : contains c sessions ≡ true
  pub nearest :
      ((c ≤ s) × All (λ k. leb k s ≡ true → k ≤ c) sessions)
      ⊎ (All (λ k. s < k) sessions × All (λ k. leb s k ≡ true → c ≤ k) sessions)

lookup-contains :
    {V : Type 0} (c : ℕ) (m : List (ℕ × V))
    → contains c (keys m) ≡ true
    → (v : V) × (lookup c m ≡ some v)
unfolding lookup contains keys
lookup-contains c [] h = absurd (cc h)
lookup-contains c ((k, v) ∷ m) h =
    let later = lookup-contains c m in
    elim (Bool-cases (k == c)) [
      | inl e ↦ (v, rw e refl)
      | inr e ↦
          let rest : contains c (keys m) ≡ true = ground (arith, h, e) in
          let (w, found) = later rest in (w, rw e found)
    ]

nothing_left : (s : ℕ) (xs : List ℕ) → All (λ k. s < k) xs → keep (λ k. leb s k) xs ≡ [] → xs ≡ []
unfolding keep
nothing_left s [] h e = refl
nothing_left s (x ∷ xs) h e =
    let above = h.0 in
    let kept : leb s x ≡ true = ground (arith, above) in
    let impossible : (x ∷ keep (λ k. leb s k) xs) ≡ [] = rw kept at e in absurd (cc impossible)

module _ (N : Network) (cache : NetworkCache N) (s : ℕ) where
  none_below : keep (λ k. leb k s) (keys cache) ≡ [] → All (λ k. s < k) (keys cache)
  none_below e =
      let kept : All (λ _. ⊥) (keep (λ k. leb k s) (keys cache)) = rw e tt in
      All-mono _ _ (keys cache) (λ k h. above k (λ yes. h yes))
        (All-keep (λ k. leb k s) (λ _. ⊥) (keys cache) kept)
    where
      above : (k : ℕ) → (leb k s ≡ true → ⊥) → s < k
      above k h = elim (Bool-cases (leb k s)) [ inl e ↦ absurd (h e) | inr e ↦ ground arith ]

  chosen :
      (low high : Option ℕ)
      → MaxOf low (keep (λ k. leb k s) (keys cache))
      → MinOf high (keep (λ k. leb s k) (keys cache))
      → ((c : ℕ) × (closest N cache low high ≡ ok (lookup c cache)) × IsClosest c s (keys cache))
        ⊎ ((keys cache ≡ []) × (closest N cache low high ≡ err invalid_p2p_cache))
  chosen (some c) high (member, bound) h =
      let (there, below) = contains-keep (λ k. leb k s) c (keys cache) member in
      let order : c ≤ s = ground (arith, below) in
      inl (
        c,
        refl,
        record {
          member = there;
          nearest = inl (order, All-keep (λ k. leb k s) (λ k. k ≤ c) (keys cache) bound);
        },
      )
  chosen none (some c) low (member, bound) =
      let (there, above) = contains-keep (λ k. leb s k) c (keys cache) member in
      inl (
        c,
        refl,
        record {
          member = there;
          nearest = inr (none_below low, All-keep (λ k. leb s k) (λ k. c ≤ k) (keys cache) bound);
        },
      )
  chosen none none low high = inr (nothing_left s (keys cache) (none_below low) high, refl)

  -- The knowledge of the greatest session that is not above the given one is taken, whatever stands
  -- above it, and of the least session above where there is none; it is there, so that nothing panics,
  -- and it is an error exactly if there is no session at all.
  pub get_closest_to_session-IsClosest :
      ((c : ℕ) × (taken : PerSessionNetworkCache N) × (get_closest_to_session N cache s
          ≡ ok (some taken))
        × (lookup c cache ≡ some taken)
        × IsClosest c s (keys cache))
      ⊎ ((keys cache ≡ []) × (get_closest_to_session N cache s ≡ err invalid_p2p_cache))
  unfolding get_closest_to_session
  get_closest_to_session-IsClosest = there (
      chosen (max_of (keep (λ k. leb k s) (keys cache))) (min_of (keep (λ k. leb s k) (keys cache)))
        (max_of-MaxOf (keep (λ k. leb k s) (keys cache)))
        (min_of-MinOf (keep (λ k. leb s k) (keys cache))))
    where
      there :
          {r : Result N.PeerId (Option (PerSessionNetworkCache N))}
          → ((c : ℕ) × (r ≡ ok (lookup c cache)) × IsClosest c s (keys cache))
            ⊎ ((keys cache ≡ []) × (r ≡ err invalid_p2p_cache))
          → ((c : ℕ) × (taken : PerSessionNetworkCache N) × (r ≡ ok (some taken))
              × (lookup c cache ≡ some taken)
              × IsClosest c s (keys cache))
            ⊎ ((keys cache ≡ []) × (r ≡ err invalid_p2p_cache))
      there (inr h) = inr h
      there (inl (c, e, near)) =
          let (taken, found) = lookup-contains c cache near.member in
          inl (c, taken, e ∙ ap ok found, found, near)
