-- ===== src/Whois/Indexed.antt =====
-- What a command finds, against the keys of the session.
use polkadot_introspector.Prelude.{
  ℕ, suc, ◌+◌, ◌≡◌, refl, sym, ap, subst, Bool, false, not, ◌&&◌, ◌||◌, Option, none, some, List,
  [], ◌∷◌, map, All, if◌then◌else◌, ltb, ◌==◌, nat_eq, get_elem?, contains, arith, Bool-cases,
  Option-cases, inl, inr, is_some, map_option, sub32, ◌⊎◌,
}
use polkadot_introspector.Tracker.Types.{AccountId32}
use polkadot_introspector.Whois.{
  Network, PerSessionNetworkCache, Result, ok, err, ◌>>=◌, ok_or, invalid_session_index,
  invalid_validator_index, invalid_peer_id, get_authority_key_from_peer_id, WhoisError,
}
use polkadot_introspector.Whois.Discover.{
  WhoisCommand, by_account, by_validator_index, by_authority_discovery, by_peer_id, dump_all, Found,
  position, enumerated, collect, check_session, with_position, at_index, at_discovery, at_peer,
  accounts_to_discover,
}

-- The index is one at which the account stands, and there is none only if it stands nowhere.
abbrev pub IsIndexedAt : List AccountId32 → AccountId32 → Option ℕ → Type 0
IsIndexedAt keys account none = contains account keys ≡ false
IsIndexedAt keys account (some i) = get_elem? keys i ≡ some account

abbrev pub IsIndexed : List AccountId32 → Found → Type 0
IsIndexed keys f = IsIndexedAt keys f.0 f.1

behind :
    (v x : ℕ) (xs : List ℕ) (o : Option ℕ)
    → (v == x) ≡ false
    → IsIndexedAt xs v o
    → IsIndexedAt (x ∷ xs) v (map_option (λ i. suc i) o)
unfolding contains
behind v x xs none e h = rw e h
behind v x xs (some i) e h = h

position-IsIndexed : (v : ℕ) (xs : List ℕ) → IsIndexedAt xs v (position v xs)
unfolding position contains
position-IsIndexed v [] = refl
position-IsIndexed v (x ∷ xs) =
    let rest = position-IsIndexed v xs in
    elim (Bool-cases (v == x)) [
      | inl e ↦ rw e (ap some (sym ((nat_eq.decides v x).0 e)))
      | inr e ↦ rw e (behind v x xs (position v xs) e rest)
    ]

-- A part of the keys, from an index on, is enumerated with their indices.
enumerated-IsIndexed :
    (keys xs : List AccountId32) (i : ℕ)
    → ((j k : ℕ) → i + j ≡ k → get_elem? keys k ≡ get_elem? xs j)
    → All (IsIndexed keys) (enumerated i xs)
unfolding enumerated
enumerated-IsIndexed keys [] i h = tt
enumerated-IsIndexed keys (x ∷ xs) i h =
    (h 0 i (omega arith), enumerated-IsIndexed keys xs (suc i) (λ j k e. h (suc j) k (omega arith)))

Result-cases :
    {P A : Type 0} (r : Result P A) → ((a : A) × (r ≡ ok a)) ⊎ ((e : WhoisError P) × (r ≡ err e))
Result-cases (ok a) = inl (a, refl)
Result-cases (err e) = inr (e, refl)

module _ {P A B : Type 0} (Q : B → Type 0) (f : A → Result P B)
    (each : (x : A) (y : B) → f x ≡ ok y → Q y) where
  collect-All : (xs : List A) (ys : List B) → collect f xs ≡ ok ys → All Q ys
  unfolding collect
  collect-All [] ys h = let e : [] ≡ ys = cc h in subst (All Q) e tt
  collect-All (x ∷ xs) ys h =
      let rest = collect-All xs in
      elim (Result-cases (f x)) [
        | inr (e, e1) ↦ let impossible : err e ≡ ok ys = rw e1 at h in absurd (cc impossible)
        | inl (y, e1) ↦ elim (Result-cases (collect f xs)) [
          | inr (e, e2) ↦
              let impossible : err e ≡ ok ys = rw (e1, e2) at h in absurd (cc impossible)
          | inl (zs, e2) ↦
              let whole : ok (y ∷ zs) ≡ ok ys = rw (e1, e2) at h in
              let e : (y ∷ zs) ≡ ys = cc whole in subst (All Q) e (each x y e1, rest zs e2)
        ]
      ]

module _ (N : Network) (hex_of : ℕ → List ℕ → Bool) (keys : List AccountId32)
    (queued : List (AccountId32 × ℕ)) (cache : PerSessionNetworkCache N) where
  map-IsIndexed :
      (accounts : List AccountId32)
      → All (IsIndexed keys) (map (with_position N hex_of keys queued cache) accounts)
  unfolding with_position
  map-IsIndexed [] = tt
  map-IsIndexed (x ∷ xs) = (position-IsIndexed x keys, map-IsIndexed xs)

  found-IsIndexed :
      (o : Option AccountId32) (e : WhoisError N.PeerId) (f : Found)
      → (ok_or o e >>= λ account. ok (with_position N hex_of keys queued cache account)) ≡ ok f
      → IsIndexed keys f
  unfolding with_position
  found-IsIndexed none e f h = absurd (cc h)
  found-IsIndexed (some account) e f h =
      let same : (account, position account keys) ≡ f = cc h in
      subst (IsIndexed keys) same (position-IsIndexed account keys)

  at_index-IsIndexed :
      (i : ℕ) (f : Found) → at_index N hex_of keys queued cache i ≡ ok f → IsIndexed keys f
  unfolding at_index
  at_index-IsIndexed i f h = elim (Option-cases (get_elem? keys i)) [
    | inl e ↦
        let impossible : err (invalid_validator_index i) ≡ ok f = rw e at h in
        absurd (cc impossible)
    | inr (account, e) ↦
        let whole : ok (account, some i) ≡ ok f = rw e at h in
        let same : (account, some i) ≡ f = cc whole in subst (IsIndexed keys) same e
  ]

  at_peer-IsIndexed :
      (p : N.PeerId) (f : Found) → at_peer N hex_of keys queued cache p ≡ ok f → IsIndexed keys f
  unfolding at_peer
  at_peer-IsIndexed p f h = elim (Option-cases (get_authority_key_from_peer_id N cache p)) [
    | inl e ↦ let impossible : err (invalid_peer_id p) ≡ ok f = rw e at h in absurd (cc impossible)
    | inr (key, e) ↦ found-IsIndexed _ _ f (rw e at h)
  ]

  accounts-IsIndexed :
      (command : WhoisCommand N) (found : List Found)
      → accounts_to_discover N hex_of keys queued cache command ≡ ok found
      → All (IsIndexed keys) found
  unfolding accounts_to_discover at_discovery
  accounts-IsIndexed (by_account accounts) found h =
      let same : map (with_position N hex_of keys queued cache) accounts ≡ found = cc h in
      subst (All (IsIndexed keys)) same (map-IsIndexed accounts)
  accounts-IsIndexed (by_validator_index is) found h =
      collect-All (IsIndexed keys) (at_index N hex_of keys queued cache) at_index-IsIndexed is found
        h
  accounts-IsIndexed (by_authority_discovery texts) found h =
      collect-All (IsIndexed keys) (at_discovery N hex_of keys queued cache)
        (λ text f e. found-IsIndexed _ _ f e) texts found h
  accounts-IsIndexed (by_peer_id peers) found h =
      collect-All (IsIndexed keys) (at_peer N hex_of keys queued cache) at_peer-IsIndexed peers
        found h
  accounts-IsIndexed dump_all found h =
      let same : enumerated 0 keys ≡ found = cc h in
      let agree : (j k : ℕ) → j ≡ k → get_elem? keys k ≡ get_elem? keys j =
        λ j k e. ap (get_elem? keys) (sym e) in
      subst (All (IsIndexed keys)) same
        (enumerated-IsIndexed keys keys 0 (λ j k e. agree j k (omega arith)))

-- Whatever the command asks for, if it is found, each account that it lists stands among the session's
-- keys at the index that is told for it, and stands nowhere among them if none is told.
pub accounts_to_discover-IsIndexed :
    (N : Network) (hex_of : ℕ → List ℕ → Bool) (keys : List AccountId32)
    (queued : List (AccountId32 × ℕ)) (cache : PerSessionNetworkCache N) (command : WhoisCommand N)
    (found : List Found)
    → accounts_to_discover N hex_of keys queued cache command ≡ ok found
    → All (IsIndexed keys) found
accounts_to_discover-IsIndexed N hex_of keys queued cache command found h =
    accounts-IsIndexed N hex_of keys queued cache command found h

-- Without a block, exactly the sessions from six before the current one to the current one are let
-- through, and any other is an error whose lower bound wraps around if the current session is below
-- six; with a block, every session is let through.
pub check_session-window :
    {P : Type 0} (at_block : Option ℕ) (session_index_now session_index : ℕ)
    → check_session {P = P} at_block session_index_now session_index ≡ (
        if is_some at_block
          || (not (ltb session_index_now session_index)
              && not (ltb (session_index + 6) session_index_now))
        then ok tt
        else err (invalid_session_index (sub32 session_index_now 6) session_index_now))
unfolding check_session
check_session-window none now index = ground arith
check_session-window (some _) now index = refl
