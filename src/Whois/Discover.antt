-- ===== src/Whois/Discover.antt =====
-- `Whois::run` of whois/src/main.rs: the checks, and the accounts that a command asks for. The
-- replies of the executor are a parameter.
use polkadot_introspector.Prelude.{
  ℕ, zero, suc, ◌-◌, Bool, ◌&&◌, ◌||◌, not, Option, none, some, List, [], ◌∷◌, map, if◌then◌else◌,
  ltb, ◌==◌, nat_eq, get_elem?, sub32, map_option, is_some,
}
use polkadot_introspector.Tracker.Types.{AccountId32}
use polkadot_introspector.Whois.{
  Network, PerSessionNetworkCache, Result, ok, err, ◌>>=◌, ok_or, get_authority_key_from_peer_id,
  invalid_session_index, invalid_validator_index, invalid_authority_discovery, invalid_peer_id,
  invalid_peer_id_no_authority,
}

pub data WhoisCommand (N : Network) : Type 0 where
  by_account : List AccountId32 → WhoisCommand N
  by_validator_index : List ℕ → WhoisCommand N
  by_authority_discovery : List (List ℕ) → WhoisCommand N
  by_peer_id : List N.PeerId → WhoisCommand N
  dump_all : WhoisCommand N

abbrev pub number_of_stored_sessions : ℕ
number_of_stored_sessions = 6

-- An account with its index in the session, if it has one.
abbrev pub Found : Type 0
Found = AccountId32 × Option ℕ

-- `Iterator::position`
unfoldable pub position : ℕ → List ℕ → Option ℕ
position v [] = none
position v (x ∷ xs) =
    let later = map_option (λ i. suc i) (position v xs) in if v == x then some zero else later

-- `Iterator::enumerate`, from an index on
unfoldable pub enumerated : ℕ → List AccountId32 → List Found
enumerated i [] = []
enumerated i (account ∷ accounts) = (account, some i) ∷ enumerated (suc i) accounts

-- `Iterator::find` among the queued keys, by a test of the key.
unfoldable pub find_key : (ℕ → Bool) → List (AccountId32 × ℕ) → Option AccountId32
find_key p [] = none
find_key p ((account, key) ∷ queued) =
    let later = find_key p queued in if p key then some account else later

-- `map` and `collect` into a `Result`: the first error ends it.
unfoldable pub collect : {P A B : Type 0} → (A → Result P B) → List A → Result P (List B)
collect f [] = ok []
collect f (x ∷ xs) = do y ← f x; ys ← collect f xs; ok (y ∷ ys)

-- The session that is asked for is one that the node still stores; the bound that the error tells is
-- a subtraction of `u32` that may wrap.
unfoldable pub check_session : {P : Type 0} → Option ℕ → ℕ → ℕ → Result P Unit
check_session at_block session_index_now session_index =
    if not (is_some at_block)
      && (ltb session_index_now session_index
          || ltb number_of_stored_sessions (session_index_now - session_index))
    then err (
        invalid_session_index (sub32 session_index_now number_of_stored_sessions) session_index_now)
    else ok tt

-- `hex_of` is the text `0x` and the hexadecimal digits of a key, from a library.
module _ (N : Network) (hex_of : ℕ → List ℕ → Bool) (keys : List AccountId32)
    (queued : List (AccountId32 × ℕ)) (cache : PerSessionNetworkCache N) where
  unfoldable pub with_position : AccountId32 → Found
  unfolding position
  with_position account = (account, position account keys)

  unfoldable pub at_index : ℕ → Result N.PeerId Found
  at_index i = do
    account ← ok_or (get_elem? keys i) (invalid_validator_index i)
    ok (account, some i)

  unfoldable pub at_discovery : List ℕ → Result N.PeerId Found
  unfolding with_position find_key
  at_discovery text = do
    account ← ok_or (find_key (λ key. hex_of key text) queued) (invalid_authority_discovery text)
    ok (with_position account)

  unfoldable pub at_peer : N.PeerId → Result N.PeerId Found
  unfolding with_position find_key
  at_peer peer_id = do
    authority_key ← ok_or (get_authority_key_from_peer_id N cache peer_id) (invalid_peer_id peer_id)
    account ←
        ok_or (find_key (λ key. key == authority_key) queued) (invalid_peer_id_no_authority peer_id)
    ok (with_position account)

  unfoldable pub accounts_to_discover : WhoisCommand N → Result N.PeerId (List Found)
  unfolding with_position at_index at_discovery at_peer enumerated collect
  accounts_to_discover (by_account accounts) = ok (map with_position accounts)
  accounts_to_discover (by_validator_index is) = collect at_index is
  accounts_to_discover (by_authority_discovery texts) = collect at_discovery texts
  accounts_to_discover (by_peer_id peers) = collect at_peer peers
  accounts_to_discover dump_all = ok (enumerated 0 keys)
