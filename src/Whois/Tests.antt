-- ===== src/Whois/Tests.antt =====
-- Runs of the choice of a session and of the commands, and the properties at them.
use polkadot_introspector.Prelude.{
  ℕ, ◌≡◌, refl, keep, contains, subst, inl, inr, Bool-cases, ◌==◌, ◌⊎◌, Bool, true, false, none,
  some, List, [], ◌∷◌, All, Eq, nat_eq, sub32,
}
use polkadot_introspector.Whois.Sanity.{
  sanity_check, multiple_peers, no_peers, serves_multiple, IsAbout, sanity_check-IsAbout,
}
use polkadot_introspector.Storage.Schedule.{set_insert}
use polkadot_introspector.Prelude.Assoc.{insert, lookup, keys}
use polkadot_introspector.Kvdb.{bytes_beq}
use polkadot_introspector.Kvdb.Fields.{bytes_beq_refl}
use polkadot_introspector.Whois.{get_details}
use polkadot_introspector.Whois.{
  Network, NetworkCache, PerSessionNetworkCache, ok, err, invalid_p2p_cache, get_details,
  invalid_session_index, invalid_validator_index, get_closest_to_session,
}
use polkadot_introspector.Whois.Discover.{
  by_account, by_validator_index, accounts_to_discover, check_session,
}
use polkadot_introspector.Whois.Run.{Line, run}
use polkadot_introspector.Whois.Closest.{IsClosest, get_closest_to_session-IsClosest}
use polkadot_introspector.Whois.Indexed.{
  IsIndexed, accounts_to_discover-IsIndexed, check_session-window,
}

-- Equal byte strings.
bytes_equal : (xs ys : List ℕ) → bytes_beq xs ys ≡ true → xs ≡ ys
unfolding bytes_beq
bytes_equal [] [] h = refl
bytes_equal [] (y ∷ ys) h = absurd (cc h)
bytes_equal (x ∷ xs) [] h = absurd (cc h)
bytes_equal (x ∷ xs) (y ∷ ys) h =
    let rest = bytes_equal xs ys in
    elim (Bool-cases (x == y)) [
      | inl e ↦
          let tails : bytes_beq xs ys ≡ true = rw e at h in
          cc ((nat_eq.decides x y).0 e, rest tails)
      | inr e ↦ let impossible : false ≡ true = rw e at h in absurd (cc impossible)
    ]

abbrev same : Eq (List ℕ)
same = record {
  same = bytes_beq;
  decides =
      λ xs ys. (bytes_equal xs ys, λ e. subst (λ z. bytes_beq xs z ≡ true) e (bytes_beq_refl xs));
}

-- Peers and addresses are numbers, and a peer's text is its number.
abbrev network : Network
network = record {
  PeerId = ℕ;
  Multiaddr = ℕ;
  PeerDetails = ℕ;
  get_peer_id = λ a. some a;
  to_bytes = λ p. p ∷ [];
  authority_id = λ d. d;
  same_bytes = same;
}

abbrev nothing : PerSessionNetworkCache network
nothing = record { peer_details = []; peer_versions = []; authority_to_details = [] }

-- What is known of two sessions.
abbrev cache : NetworkCache network
cache = (3, nothing) ∷ (100, nothing) ∷ []

get_closest_to_session-IsClosest_example :
    ((c : ℕ) × (taken : PerSessionNetworkCache network) × (get_closest_to_session network cache 99
        ≡ ok (some taken))
      × (lookup c cache ≡ some taken)
      × IsClosest c 99 (keys cache))
    ⊎ ((keys cache ≡ []) × (get_closest_to_session network cache 99 ≡ err invalid_p2p_cache))
get_closest_to_session-IsClosest_example = get_closest_to_session-IsClosest network cache 99

-- The session that is 96 sessions back is taken, and not the one that is one ahead.
takes_lower : get_closest_to_session network cache 99 ≡ ok (lookup 3 cache)
unfolding get_closest_to_session keep keys
takes_lower = refl

abbrev key_text : ℕ → List ℕ → Bool
key_text key text = bytes_beq (key ∷ []) text

finds :
    accounts_to_discover network key_text (7 ∷ 8 ∷ []) [] nothing (by_account (8 ∷ 9 ∷ []))
    ≡ ok ((8, some 1) ∷ (9, none) ∷ [])
unfolding accounts_to_discover
finds = refl

misses :
    accounts_to_discover network key_text (7 ∷ 8 ∷ []) [] nothing (by_validator_index (0 ∷ 2 ∷ []))
    ≡ err (invalid_validator_index 2)
unfolding accounts_to_discover
misses = refl

accounts_to_discover-IsIndexed_example : All (IsIndexed (7 ∷ 8 ∷ [])) ((8, some 1) ∷ (9, none) ∷ [])
accounts_to_discover-IsIndexed_example =
    accounts_to_discover-IsIndexed network key_text (7 ∷ 8 ∷ []) [] nothing
      (by_account (8 ∷ 9 ∷ [])) ((8, some 1) ∷ (9, none) ∷ []) finds

window_wraps : check_session {P = ℕ} none 4 5 ≡ err (invalid_session_index 4294967294 4)
unfolding sub32
window_wraps = check_session-window none 4 5

-- Peer 5 serves both authorities, and authority 2 has no address.
abbrev suspect : PerSessionNetworkCache network
suspect = record {
  peer_details = [];
  peer_versions = [];
  authority_to_details = (1, 5 ∷ 6 ∷ []) ∷ (2, []) ∷ (3, 5 ∷ []) ∷ (4, 5 ∷ []) ∷ [];
}

warns :
    sanity_check network nat_eq suspect (1 ∷ 2 ∷ 4 ∷ [])
    ≡ multiple_peers 1 (5 ∷ 6 ∷ []) ∷ no_peers 2 ∷ serves_multiple 5 (1 ∷ 4 ∷ []) ∷ []
unfolding sanity_check lookup set_insert insert contains
warns = refl

sanity_check-IsAbout_example :
    All
      (IsAbout network nat_eq (1 ∷ 2 ∷ 4 ∷ []))
      (sanity_check network nat_eq suspect (1 ∷ 2 ∷ 4 ∷ []))
sanity_check-IsAbout_example = sanity_check-IsAbout network nat_eq (1 ∷ 2 ∷ 4 ∷ []) suspect

-- No cache is there, so the network is asked, and validator 0 is found with the key 40.
runs :
    run network nat_eq key_text
      (record {
        get_block_hash = some (some 1);
        get_chain_name = some [];
        get_session_index_now = some 9;
        get_session_account_keys = λ _ _. some (some (7 ∷ 8 ∷ []));
        get_session_queued_keys = λ _. some (some ((7, 40) ∷ []));
      })
      (record {
        read = none;
        from_vec = λ _. none;
        to_vec = λ _. some [];
        discover_authorities = some nothing;
        create = true;
        write_all = λ _. true;
      })
      (record {
        command = by_validator_index (0 ∷ 1 ∷ []);
        session_index = 9;
        at_block = none;
        update_p2p_cache = false;
      })
    ≡ ok (some (Line.known 0 7 40 (none, ([], none)) ∷ Line.unknown 1 8 ∷ [], []))
unfolding run get_closest_to_session keep keys insert lookup get_details
runs = refl
