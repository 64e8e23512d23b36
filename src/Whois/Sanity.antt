-- ===== src/Whois/Sanity.antt =====
-- The sanity check of whois/src/main.rs: what it warns of, in the order of its loops.
use polkadot_introspector.Prelude.{
  ℕ, ◌≡◌, Bool, true, false, Option, none, some, List, [], ◌∷◌, ◌++◌, All, if◌then◌else◌, ltb, ◌==◌,
  nat_eq, Eq, length, contains, unwrap_or, Bool-cases, inl, inr,
}
use polkadot_introspector.Prelude.Assoc.{lookup, insert}
use polkadot_introspector.Storage.Schedule.{set_insert}
use polkadot_introspector.Whois.{Network, PerSessionNetworkCache}

pub data Warning (P : Type 0) : Type 0 where
  too_many_addresses : ℕ → ℕ → Warning P
  multiple_peers : ℕ → List P → Warning P
  no_peers : ℕ → Warning P
  serves_multiple : P → List ℕ → Warning P

abbrev pub max_addresses_per_authority : ℕ
max_addresses_per_authority = 10

All-append : {A : Type 0} (P : A → Type 0) (xs ys : List A) → All P xs → All P ys → All P (xs ++ ys)
All-append P [] ys h k = k
All-append P (x ∷ xs) ys h k = (h.0, All-append P xs ys h.1 k)

set_insert-All : (P : ℕ → Type 0) (k : ℕ) (ks : List ℕ) → P k → All P ks → All P (set_insert k ks)
unfolding set_insert
set_insert-All P k ks h hs = elim (Bool-cases (contains k ks)) [
  | inl e ↦ rw e hs
  | inr e ↦ rw e (All-append P ks (k ∷ []) hs (h, tt))
]

one_if : {A : Type 0} (P : A → Type 0) (b : Bool) (x : A) → P x → All P (if b then x ∷ [] else [])
one_if P true x h = (h, tt)
one_if P false x h = tt

module _ (N : Network) (same_peer : Eq N.PeerId) where
  abbrev Served : Type 0
  Served = List (N.PeerId × List ℕ)

  -- `peer_ids` and `served_authorithies_by_peer` after one address.
  abbrev note_address : ℕ → Option N.PeerId → List N.PeerId × Served → List N.PeerId × Served
  note_address id none s = s
  note_address id (some peer) s = (
    set_insert ⦃e = same_peer⦄ peer s.0,
    insert ⦃e = same_peer⦄ peer (set_insert id (unwrap_or (lookup ⦃e = same_peer⦄ peer s.1) []))
        s.1,
  )

  unfoldable pub note_addresses :
      ℕ → List N.Multiaddr → List N.PeerId × Served → List N.PeerId × Served
  note_addresses id [] s = s
  note_addresses id (address ∷ addresses) s =
      note_addresses id addresses (note_address id (N.get_peer_id address) s)

  unfoldable pub address_warnings : ℕ → List N.Multiaddr → List N.PeerId → List (Warning N.PeerId)
  address_warnings id addresses peer_ids =
      (if ltb max_addresses_per_authority (length addresses)
        then too_many_addresses id (length addresses) ∷ []
        else [])
      ++ (if ltb 1 (length peer_ids) then multiple_peers id peer_ids ∷ [] else [])
      ++ (if length peer_ids == 0 then no_peers id ∷ [] else [])

  unfoldable pub shared_peers : Served → List (Warning N.PeerId)
  shared_peers [] = []
  shared_peers ((peer, ids) ∷ served) =
      let rest = shared_peers served in
      if ltb 1 (length ids) then serves_multiple peer ids ∷ rest else rest

  -- The authorities one after the other, and then the peers.
  unfoldable pub check_authorities :
      List ℕ → List (ℕ × List N.Multiaddr) → Served → List (Warning N.PeerId)
  unfolding note_addresses address_warnings shared_peers
  check_authorities current [] served = shared_peers served
  check_authorities current ((id, addresses) ∷ authorities) served =
      let noted = note_addresses id addresses ([], served) in
      let others = check_authorities current authorities served in
      let rest = check_authorities current authorities noted.1 in
      if contains id current then address_warnings id addresses noted.0 ++ rest else others

  unfoldable pub sanity_check : PerSessionNetworkCache N → List ℕ → List (Warning N.PeerId)
  unfolding check_authorities
  sanity_check cache current = check_authorities current cache.authority_to_details []

  -- A warning that names no authority but those of a list.
  abbrev pub IsAbout : List ℕ → Warning N.PeerId → Type 0
  IsAbout current (too_many_addresses id _) = contains id current ≡ true
  IsAbout current (multiple_peers id _) = contains id current ≡ true
  IsAbout current (no_peers id) = contains id current ≡ true
  IsAbout current (serves_multiple _ ids) = All (λ id. contains id current ≡ true) ids

  module _ (current : List ℕ) where
    abbrev IsCurrent : List ℕ → Type 0
    IsCurrent = All (λ id. contains id current ≡ true)

    abbrev AllCurrent : Served → Type 0
    AllCurrent = All (λ p. IsCurrent p.1)

    insert-AllCurrent :
        (peer : N.PeerId) (ids : List ℕ) (served : Served)
        → IsCurrent ids
        → AllCurrent served
        → AllCurrent (insert ⦃e = same_peer⦄ peer ids served)
    unfolding insert
    insert-AllCurrent peer ids [] h hs = (h, tt)
    insert-AllCurrent peer ids ((other, old) ∷ served) h hs =
        let rest = insert-AllCurrent peer ids served h hs.1 in
        elim (Bool-cases (same_peer.same other peer)) [
          | inl e ↦ rw e (h, hs.1)
          | inr e ↦ rw e (hs.0, rest)
        ]

    known-IsCurrent :
        (peer : N.PeerId) (served : Served)
        → AllCurrent served
        → IsCurrent (unwrap_or (lookup ⦃e = same_peer⦄ peer served) [])
    unfolding lookup
    known-IsCurrent peer [] hs = tt
    known-IsCurrent peer ((other, ids) ∷ served) hs =
        let rest = known-IsCurrent peer served hs.1 in
        elim (Bool-cases (same_peer.same other peer)) [ inl e ↦ rw e hs.0 | inr e ↦ rw e rest ]

    note_addresses-AllCurrent :
        (id : ℕ) (addresses : List N.Multiaddr) (s : List N.PeerId × Served)
        → contains id current ≡ true
        → AllCurrent s.1
        → AllCurrent (note_addresses id addresses s).1
    unfolding note_addresses
    note_addresses-AllCurrent id [] s h hs = hs
    note_addresses-AllCurrent id (address ∷ addresses) s h hs =
        note_addresses-AllCurrent id addresses _ h (noted (N.get_peer_id address))
      where
        noted : (o : Option N.PeerId) → AllCurrent (note_address id o s).1
        noted none = hs
        noted (some peer) =
            insert-AllCurrent peer _ s.1 (set_insert-All _ id _ h (known-IsCurrent peer s.1 hs)) hs

    shared_peers-IsAbout :
        (served : Served) → AllCurrent served → All (IsAbout current) (shared_peers served)
    unfolding shared_peers
    shared_peers-IsAbout [] hs = tt
    shared_peers-IsAbout ((peer, ids) ∷ served) hs =
        let rest = shared_peers-IsAbout served hs.1 in
        elim (Bool-cases (ltb 1 (length ids))) [ inl e ↦ rw e (hs.0, rest) | inr e ↦ rw e rest ]

    address_warnings-IsAbout :
        (id : ℕ) (addresses : List N.Multiaddr) (peers : List N.PeerId)
        → contains id current ≡ true
        → All (IsAbout current) (address_warnings id addresses peers)
    unfolding address_warnings
    address_warnings-IsAbout id addresses peers h =
        let about = IsAbout current in
        let many =
          one_if about (ltb max_addresses_per_authority (length addresses))
            (too_many_addresses id (length addresses)) h in
        let several = one_if about (ltb 1 (length peers)) (multiple_peers id peers) h in
        let none_at_all = one_if about (length peers == 0) (no_peers id) h in
        All-append about _ _ (All-append about _ _ many several) none_at_all

    check_authorities-IsAbout :
        (authorities : List (ℕ × List N.Multiaddr)) (served : Served)
        → AllCurrent served
        → All (IsAbout current) (check_authorities current authorities served)
    unfolding check_authorities
    check_authorities-IsAbout [] served hs = shared_peers-IsAbout served hs
    check_authorities-IsAbout ((id, addresses) ∷ authorities) served hs =
        let noted = note_addresses id addresses ([], served) in
        let others = check_authorities-IsAbout authorities served hs in
        let rest : AllCurrent noted.1
            → All (IsAbout current) (check_authorities current authorities noted.1) =
          λ h. check_authorities-IsAbout authorities noted.1 h in
        elim (Bool-cases (contains id current)) [
          | inr e ↦ rw e others
          | inl e ↦ rw e (
              All-append (IsAbout current) _ _ (address_warnings-IsAbout id addresses noted.0 e)
                (rest (note_addresses-AllCurrent id addresses ([], served) e hs)))
        ]

    -- Every warning names authorities of the given set alone, also where it names those that one peer
    -- serves.
    pub sanity_check-IsAbout :
        (cache : PerSessionNetworkCache N) → All (IsAbout current) (sanity_check cache current)
    unfolding sanity_check
    sanity_check-IsAbout cache = check_authorities-IsAbout cache.authority_to_details [] tt
