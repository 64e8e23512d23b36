-- ===== src/Whois.antt =====
-- whois/src/main.rs: the cache of what the network knows of authorities, by session. Addresses and
-- peers are those of a library, a parameter.
pub mod Discover
pub mod Closest
pub mod Indexed
pub mod Sanity
pub mod Run
mod Tests
use polkadot_introspector.Prelude.{
  ℕ, Bool, true, false, Option, none, some, List, [], ◌∷◌, if◌then◌else◌, ltb, leb, keep,
  map_option, unwrap_or, Eq, nat_eq,
}
use polkadot_introspector.Prelude.Assoc.{lookup, insert, keys}

-- `PeerId`, `Multiaddr` and `PeerDetails`, with `get_peer_id`, `to_bytes` and the accessors. Equal
-- peers have equal bytes.
pub record Network : Type 1 where
  pub PeerId : Type 0
  pub Multiaddr : Type 0
  pub PeerDetails : Type 0
  pub get_peer_id : Multiaddr → Option PeerId
  pub to_bytes : PeerId → List ℕ
  pub authority_id : PeerDetails → ℕ
  pub same_bytes : Eq (List ℕ)

pub data WhoisError (P : Type 0) : Type 0 where
  no_session_index no_genesis_hash no_chain_name : WhoisError P
  invalid_session_index : ℕ → ℕ → WhoisError P
  subxt_error no_para_session_account_keys no_session_queued_keys : WhoisError P
  invalid_validator_index : ℕ → WhoisError P
  invalid_authority_discovery : List ℕ → WhoisError P
  invalid_peer_id invalid_peer_id_no_authority : P → WhoisError P
  invalid_p2p_cache : WhoisError P

-- `Result<_, WhoisError>`
pub data Result (P A : Type 0) : Type 0 where
  ok : A → Result P A
  err : WhoisError P → Result P A

infixl 5 ◌>>=◌
abbrev pub ◌>>=◌ : {P A B : Type 0} → Result P A → (A → Result P B) → Result P B
ok a >>= f = f a
err e >>= f = err e

-- `Option::ok_or`
abbrev pub ok_or : {P A : Type 0} → Option A → WhoisError P → Result P A
ok_or none e = err e
ok_or (some a) e = ok a

-- Authorities are the numbers that their 32 bytes spell.
pub record PerSessionNetworkCache (N : Network) : Type 0 where
  pub peer_details : List (List ℕ × N.PeerDetails)
  pub peer_versions : List (List ℕ × List ℕ)
  pub authority_to_details : List (ℕ × List N.Multiaddr)

-- `session_to_network_info`
abbrev pub NetworkCache : Network → Type 0
NetworkCache N = List (ℕ × PerSessionNetworkCache N)

abbrev greater : ℕ → Option ℕ → ℕ
greater x none = x
greater x (some m) = if ltb x m then m else x

abbrev smaller : ℕ → Option ℕ → ℕ
smaller x none = x
smaller x (some m) = if ltb m x then m else x

-- `Iterator::max` and `Iterator::min`
unfoldable pub max_of : List ℕ → Option ℕ
max_of [] = none
max_of (x ∷ xs) = some (greater x (max_of xs))

unfoldable pub min_of : List ℕ → Option ℕ
min_of [] = none
min_of (x ∷ xs) = some (smaller x (min_of xs))

module _ (N : Network) where
  abbrev closest :
      NetworkCache N → Option ℕ → Option ℕ → Result N.PeerId (Option (PerSessionNetworkCache N))
  closest cache (some lower) _ = ok (lookup lower cache)
  closest cache none (some larger) = ok (lookup larger cache)
  closest cache none none = err invalid_p2p_cache

  -- The inner `none` would be the panic of an `expect`.
  unfoldable pub get_closest_to_session :
      NetworkCache N → ℕ → Result N.PeerId (Option (PerSessionNetworkCache N))
  unfolding max_of min_of
  get_closest_to_session cache session_index =
      closest cache (max_of (keep (λ s. leb s session_index) (keys cache)))
        (min_of (keep (λ s. leb session_index s) (keys cache)))

  module _ (cache : PerSessionNetworkCache N) where
    abbrev text_unknown : List ℕ
    text_unknown = 117 ∷ 110 ∷ 107 ∷ 110 ∷ 111 ∷ 119 ∷ 110 ∷ []

    abbrev by_address : Option N.PeerId → Option N.PeerDetails × (List ℕ × Option N.PeerId)
    by_address peer_id =
        let serialized_key = unwrap_or (map_option N.to_bytes peer_id) [] in
        (
          lookup ⦃e = N.same_bytes⦄ serialized_key cache.peer_details,
          (
            unwrap_or (lookup ⦃e = N.same_bytes⦄ serialized_key cache.peer_versions) text_unknown,
            peer_id,
          ),
        )

    -- The first address of a set stands for the one that its iterator gives first.
    abbrev by_addresses :
        Option (List N.Multiaddr) → Option N.PeerDetails × (List ℕ × Option N.PeerId)
    by_addresses none = (none, ([], none))
    by_addresses (some []) = (none, ([], none))
    by_addresses (some (addr ∷ _)) = by_address (N.get_peer_id addr)

    unfoldable pub get_details : ℕ → Option N.PeerDetails × (List ℕ × Option N.PeerId)
    get_details authority_discovery_key =
        by_addresses (lookup authority_discovery_key cache.authority_to_details)

    unfoldable pub get_authority_key_from_peer_id : N.PeerId → Option ℕ
    get_authority_key_from_peer_id peer_id =
        map_option N.authority_id
          (lookup ⦃e = N.same_bytes⦄ (N.to_bytes peer_id) cache.peer_details)
