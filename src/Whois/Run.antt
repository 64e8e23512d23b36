-- ===== src/Whois/Run.antt =====
-- `Whois::run` and `NetworkCache::build_cache` of whois/src/main.rs, over the replies of the executor
-- and of the file system.
use polkadot_introspector.Prelude.{
  ℕ, ◌-◌, ◌^◌, Bool, true, false, Option, none, some, List, [], ◌∷◌, if◌then◌else◌, ◌==◌, nat_eq,
  Eq, unwrap_or,
}
use polkadot_introspector.Prelude.Assoc.{insert}
use polkadot_introspector.Storage.Schedule.{set_insert}
use polkadot_introspector.Tracker.BlockInfo.{H256}
use polkadot_introspector.Tracker.Types.{AccountId32}
use polkadot_introspector.Whois.{
  Network, NetworkCache, PerSessionNetworkCache, WhoisError, Result, ok, err, ◌>>=◌, ok_or,
  get_closest_to_session, get_details, no_session_index, no_genesis_hash, no_chain_name,
  subxt_error, no_para_session_account_keys, no_session_queued_keys, invalid_p2p_cache,
}
use polkadot_introspector.Whois.Discover.{
  WhoisCommand, dump_all, Found, check_session, accounts_to_discover,
}
use polkadot_introspector.Whois.Sanity.{Warning, sanity_check}

-- A call of the executor: `none` is an error, and `some none` is `Ok(None)`.
pub record Replies : Type 0 where
  pub get_block_hash : Option (Option H256)
  pub get_chain_name : Option (List ℕ)
  pub get_session_index_now : Option ℕ
  pub get_session_account_keys : ℕ → Option ℕ → Option (Option (List AccountId32))
  pub get_session_queued_keys : Option ℕ → Option (Option (List (AccountId32 × ℕ)))

-- The file of the cache, its binary format, and the discovery of authorities.
pub record Files (N : Network) : Type 0 where
  pub read : Option (List ℕ)
  pub from_vec : List ℕ → Option (NetworkCache N)
  pub to_vec : NetworkCache N → Option (List ℕ)
  pub discover_authorities : Option (PerSessionNetworkCache N)
  pub create : Bool
  pub write_all : List ℕ → Bool

pub record WhoIsOptions (N : Network) : Type 0 where
  pub command : WhoisCommand N
  pub session_index : ℕ
  pub at_block : Option ℕ
  pub update_p2p_cache : Bool

-- What is printed of an account: its index, or `usize::MAX`, and what is known of its key.
pub data Line (N : Network) : Type 0 where
  known : ℕ → AccountId32 → ℕ → Option N.PeerDetails × (List ℕ × Option N.PeerId) → Line N
  unknown : ℕ → AccountId32 → Line N

-- `Ok(Some(x))`, or the errors for `Err(_)` and `Ok(None)`
unfoldable pub answered : {P A : Type 0} → Option (Option A) → WhoisError P → Result P A
answered none missing = err subxt_error
answered (some none) missing = err missing
answered (some (some a)) missing = ok a

unfoldable pub genesis_of : {P : Type 0} → Option (Option H256) → Result P H256
genesis_of (some (some hash)) = ok hash
genesis_of _ = err no_genesis_hash

module _ (N : Network) (files : Files N) where
  -- The cache that is there, and whether it must be updated.
  unfoldable pub loaded : Bool → Option (List ℕ) → Result N.PeerId (NetworkCache N × Bool)
  loaded update none = ok ([], true)
  loaded update (some bytes) = do
    cache ← ok_or (files.from_vec bytes) invalid_p2p_cache
    ok (cache, update)

  unfoldable pub updated : ℕ → NetworkCache N × Bool → Result N.PeerId (NetworkCache N)
  updated session_index_now (cache, false) = ok cache
  updated session_index_now (cache, true) = do
    discovered ← ok_or files.discover_authorities invalid_p2p_cache
    ok (insert session_index_now discovered cache)

  unfoldable pub saved : NetworkCache N → Result N.PeerId (NetworkCache N)
  saved cache = do
    bytes ← ok_or (files.to_vec cache) invalid_p2p_cache
    if files.create
        then (if files.write_all bytes then ok cache else err invalid_p2p_cache)
        else err invalid_p2p_cache

  unfoldable pub build_cache : ℕ → Bool → Result N.PeerId (NetworkCache N)
  unfolding loaded updated saved
  build_cache session_index_now update_p2p_cache = do
    start ← loaded update_p2p_cache files.read
    cache ← updated session_index_now start
    saved cache

-- The key that is queued for an account.
unfoldable pub queued_key : AccountId32 → List (AccountId32 × ℕ) → Option ℕ
queued_key validator [] = none
queued_key validator ((account, key) ∷ queued) =
    let later = queued_key validator queued in if account == validator then some key else later

abbrev pub usize_max : ℕ
usize_max = 2 ^ 64 - 1

module _ (N : Network) (cache : PerSessionNetworkCache N) (queued : List (AccountId32 × ℕ)) where
  unfoldable pub line_of : Found → Option ℕ → Line N
  line_of (account, index) none = unknown (unwrap_or index usize_max) account
  line_of (account, index) (some key) =
      known (unwrap_or index usize_max) account key (get_details N cache key)

  abbrev with_key : Option ℕ → List ℕ → List ℕ
  with_key none keys = keys
  with_key (some key) keys = set_insert key keys

  -- The lines, and `current_authority_discovery_keys`.
  unfoldable pub report : List ℕ → List Found → List (Line N) × List ℕ
  unfolding line_of queued_key
  report keys [] = ([], keys)
  report keys (found ∷ accounts) =
      let key = queued_key found.0 queued in
      let (lines, current) = report (with_key key keys) accounts in
      (line_of found key ∷ lines, current)

module _ (N : Network) (same_peer : Eq N.PeerId) (hex_of : ℕ → List ℕ → Bool) where
  abbrev checked : WhoisCommand N → PerSessionNetworkCache N → List ℕ → List (Warning N.PeerId)
  checked dump_all cache current = sanity_check N same_peer cache current
  checked _ cache current = []

  -- The inner `none` is the panic of an `expect` in `get_closest_to_session`.
  unfoldable pub run :
      Replies
      → Files N
      → WhoIsOptions N
      → Result N.PeerId (Option (List (Line N) × List (Warning N.PeerId)))
  unfolding genesis_of answered build_cache check_session accounts_to_discover report
  run replies files opts = do
    genesis_hash ← genesis_of replies.get_block_hash
    chain_name ← ok_or replies.get_chain_name no_chain_name
    now ← ok_or replies.get_session_index_now no_session_index
    _ ← check_session opts.at_block now opts.session_index
    keys ←
        answered (replies.get_session_account_keys opts.session_index opts.at_block)
          no_para_session_account_keys
    queued ← answered (replies.get_session_queued_keys opts.at_block) no_session_queued_keys
    caches ← build_cache N files now opts.update_p2p_cache
    closest ← get_closest_to_session N caches opts.session_index
    shown keys queued closest
    where
      shown :
          List AccountId32
          → List (AccountId32 × ℕ)
          → Option (PerSessionNetworkCache N)
          → Result N.PeerId (Option (List (Line N) × List (Warning N.PeerId)))
      shown keys queued none = ok none
      shown keys queued (some cache) = do
        found ← accounts_to_discover N hex_of keys queued cache opts.command
        let (lines, current) = report N cache queued [] found
        ok (some (lines, checked opts.command cache current))
