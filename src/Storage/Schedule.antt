-- ===== src/Storage/Schedule.antt =====
-- `ephemeral_records: BTreeMap<BlockNumber, HashSet<K>>` of both storages, as an association list
-- in ascending order of the blocks.
use polkadot_introspector.Prelude.{
  ℕ, suc, ◌+◌, ◌≤◌, ◌<◌, ◌≡◌, refl, Bool, true, false, ◌&&◌, ◌||◌, List, [], ◌∷◌, ◌++◌, arith, Eq,
  ◌==◌, nat_eq, ltb, if◌then◌else◌, length, contains, contains-append, Bool-cases, inl, inr,
}
use polkadot_introspector.Storage.Entry.{BlockNumber}

abbrev pub Schedule {ℓ} : Type ℓ → Type ℓ
Schedule K = List (BlockNumber × List K)

-- The blocks ascend, and are above `b`.
abbrev pub Above {ℓ} : {K : Type ℓ} → BlockNumber → Schedule K → Type 0
Above b [] = Unit
Above b ((c, ks) ∷ m) = (b < c) × Above c m

abbrev pub IsAscending {ℓ} : {K : Type ℓ} → Schedule K → Type 0
IsAscending [] = Unit
IsAscending ((c, ks) ∷ m) = Above c m

module _ {ℓ} {K : Type ℓ} ⦃e : Eq K⦄ where
  -- `HashSet::insert`
  unfoldable pub set_insert : K → List K → List K
  set_insert k ks = if contains k ks then ks else ks ++ k ∷ []

  -- `ephemeral_records.entry(block_number).or_default().insert(key)`
  unfoldable pub schedule : BlockNumber → K → Schedule K → Schedule K
  schedule b k [] = (b, k ∷ []) ∷ []
  schedule b k ((c, ks) ∷ m) =
      if b == c
      then (c, set_insert k ks) ∷ m
      else if ltb b c
      then (b, k ∷ []) ∷ (c, ks) ∷ m
      else (c, ks) ∷ schedule b k m

  -- whether `k` stands under block `b`
  unfoldable pub listed : BlockNumber → K → Schedule K → Bool
  listed b k [] = false
  listed b k ((c, ks) ∷ m) = (b == c && contains k ks) || listed b k m

  -- whether a block has an entry
  unfoldable pub has_block : BlockNumber → Schedule K → Bool
  has_block b [] = false
  has_block b ((c, ks) ∷ m) = b == c || has_block b m

  -- the keys that pruning to `max_blocks` blocks drops: those of the oldest block, if there are
  -- more blocks than that
  unfoldable pub expiring : ℕ → Schedule K → List K
  expiring max [] = []
  expiring max ((c, ks) ∷ m) = if ltb max (suc (length m)) then ks else []

  pub contains-set_insert :
      (k j : K) (ks : List K) → contains j (set_insert k ks) ≡ (j == k || contains j ks)
  unfolding set_insert contains
  contains-set_insert k j ks = elim (Bool-cases (contains k ks)) [
    | inl old ↦ rw old (ground (arith, e.decides j k))
    | inr new ↦ rw (new, contains-append j ks (k ∷ [])) (ground arith)
  ]

  pub listed-schedule :
      (b c : BlockNumber) (k j : K) (m : Schedule K)
      → listed c j (schedule b k m) ≡ ((c == b && j == k) || listed c j m)
  unfolding schedule listed contains
  listed-schedule b c k j [] = ground arith
  listed-schedule b c k j ((d, ks) ∷ m) =
      ground (arith, listed-schedule b c k j m, contains-set_insert k j ks)

  pub length-schedule :
      (b : BlockNumber) (k : K) (m : Schedule K) → length (schedule b k m) ≤ length m + 1
  unfolding schedule
  length-schedule b k [] = omega arith
  length-schedule b k ((c, ks) ∷ m) = ground (arith, length-schedule b k m)

  schedule-Above :
      (a b : BlockNumber) (k : K) (m : Schedule K) → a < b → Above a m → Above a (schedule b k m)
  unfolding schedule
  schedule-Above a b k [] h asc = (h, tt)
  schedule-Above a b k ((c, ks) ∷ m) h asc = ground (arith, schedule-Above c b k m)

  pub schedule-IsAscending :
      (b : BlockNumber) (k : K) (m : Schedule K) → IsAscending m → IsAscending (schedule b k m)
  unfolding schedule
  schedule-IsAscending b k [] asc = tt
  schedule-IsAscending b k ((c, ks) ∷ m) asc = ground (arith, schedule-Above c b k m)

  -- the schedule after pruning to `max_blocks` blocks
  unfoldable pub pruned : ℕ → Schedule K → Schedule K
  pruned max [] = []
  pruned max ((c, ks) ∷ m) = if ltb max (suc (length m)) then m else (c, ks) ∷ m

  Above-IsAscending : (b : BlockNumber) (m : Schedule K) → Above b m → IsAscending m
  Above-IsAscending b [] h = tt
  Above-IsAscending b ((c, ks) ∷ m) h = h.1

  pub pruned-IsAscending : (max : ℕ) (m : Schedule K) → IsAscending m → IsAscending (pruned max m)
  unfolding pruned
  pruned-IsAscending max [] h = tt
  pruned-IsAscending max ((c, ks) ∷ m) h = ground (arith, Above-IsAscending c m)

  pub length-pruned : (max : ℕ) (m : Schedule K) → length m ≤ max + 1 → length (pruned max m) ≤ max
  unfolding pruned
  length-pruned max [] h = omega arith
  length-pruned max ((c, ks) ∷ m) h = ground arith

  -- A key that pruning does not drop keeps its place.
  pub listed-pruned :
      (max : ℕ) (b : BlockNumber) (k : K) (m : Schedule K)
      → listed b k m ≡ true
      → contains k (expiring max m) ≡ false
      → listed b k (pruned max m) ≡ true
  unfolding pruned listed expiring contains
  listed-pruned max b k [] h n = h
  listed-pruned max b k ((c, ks) ∷ m) h n = ground arith

  pub length-schedule_new :
      (b : BlockNumber) (k : K) (m : Schedule K)
      → has_block b m ≡ false
      → length (schedule b k m) ≡ length m + 1
  unfolding schedule has_block
  length-schedule_new b k [] h = omega arith
  length-schedule_new b k ((c, ks) ∷ m) h = ground (arith, length-schedule_new b k m)

  pub has_block-schedule :
      (b c : BlockNumber) (k : K) (m : Schedule K)
      → has_block c (schedule b k m) ≡ (c == b || has_block c m)
  unfolding schedule has_block
  has_block-schedule b c k [] = ground arith
  has_block-schedule b c k ((d, ks) ∷ m) = ground (arith, has_block-schedule b c k m)

  -- Blocks that stand above `c` are greater, and so are those that list a key.
  pub has_block-Above :
      (b c : BlockNumber) (m : Schedule K) → Above c m → has_block b m ≡ true → c < b
  unfolding has_block
  has_block-Above b c [] above h = cc
  has_block-Above b c ((d, ks) ∷ m) above h = ground (arith, has_block-Above b d m)

  pub listed-has_block :
      (b : BlockNumber) (k : K) (m : Schedule K) → listed b k m ≡ true → has_block b m ≡ true
  unfolding listed has_block
  listed-has_block b k [] h = cc
  listed-has_block b k ((c, ks) ∷ m) h = ground (arith, listed-has_block b k m)

  pub listed-pruned_mono :
      (max : ℕ) (b : BlockNumber) (k : K) (m : Schedule K)
      → listed b k (pruned max m) ≡ true
      → listed b k m ≡ true
  unfolding pruned listed
  listed-pruned_mono max b k [] h = h
  listed-pruned_mono max b k ((c, ks) ∷ m) h = ground arith

  -- A key that is listed nowhere does not expire.
  pub expiring-unlisted :
      (max : ℕ) (k : K) (m : Schedule K)
      → ((b : BlockNumber) → listed b k m ≡ false)
      → contains k (expiring max m) ≡ false
  unfolding expiring listed contains
  expiring-unlisted max k [] h = refl
  expiring-unlisted max k ((c, ks) ∷ m) h = ground (arith, h c)

  -- A key that expires is listed under a block below all those that stay.
  pub expiring-oldest :
      (max : ℕ) (k : K) (m : Schedule K)
      → IsAscending m
      → contains k (expiring max m) ≡ true
      → (c : BlockNumber) × (listed c k m ≡ true)
        × ((b : BlockNumber) → has_block b (pruned max m) ≡ true → c < b)
  unfolding expiring listed contains pruned
  expiring-oldest max k [] asc h = cc
  expiring-oldest max k ((c, ks) ∷ m) asc h =
      (c, ground arith, λ b hb. ground (arith, has_block-Above b c m asc))

  pub unlisted-pruned :
      (max : ℕ) (b : BlockNumber) (k : K) (m : Schedule K)
      → listed b k m ≡ false
      → listed b k (pruned max m) ≡ false
  unfolding pruned listed
  unlisted-pruned max b k [] h = h
  unlisted-pruned max b k ((c, ks) ∷ m) h = ground arith

  -- A new block after the oldest one makes a full schedule drop the keys of the oldest.
  pub expiring-schedule_newer :
      (max : ℕ) (b c : BlockNumber) (k : K) (ks : List K) (m : Schedule K)
      → c < b
      → has_block b m ≡ false
      → max ≤ suc (length m)
      → expiring max (schedule b k ((c, ks) ∷ m)) ≡ ks
  unfolding expiring schedule
  expiring-schedule_newer max b c k ks m newer new_block full =
      ground (arith, length-schedule_new b k m)
