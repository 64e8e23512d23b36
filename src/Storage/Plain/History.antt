-- ===== src/Storage/Plain/History.antt =====
-- Histories of the plain storage: the invariant in every reachable state, and what insertions keep.
use polkadot_introspector.Prelude.{
  ◌≡◌, true, false, none, some, List, [], ◌∷◌, arith, Eq, ◌==◌, is_some, Bool-cases, inl, inr,
}
use polkadot_introspector.Storage.Entry.{
  BlockNumber, StorageEntry, RecordsStorageConfig, is_persistent, block_of,
}
use polkadot_introspector.Storage.Schedule.{
  listed, listed-schedule, unlisted-pruned, expiring-unlisted,
}
use polkadot_introspector.Storage.Plain.{Plain, new, prune, insert, replace, get, delete}
use polkadot_introspector.Storage.Plain.Reads.{get-insert, scheduled, insert-schedule}
use polkadot_introspector.Storage.Plain.Bounds.{
  IsValid, new-IsValid, insert-IsValid, delete-IsValid, replace-IsValid, prune-IsValid,
}

module _ {ℓ} {K : Type ℓ} ⦃e : Eq K⦄ where
  -- One call of a method that changes the storage. A replacement puts an entry that is persistent,
  -- or that expires with the block of the entry before it.
  pub data Step : Plain K → Plain K → Type ℓ where
    inserting : (s : Plain K) (k : K) (x : StorageEntry) → Step s (insert s k x).0
    deleting : (s : Plain K) (k : K) → Step s (delete s k).0
    replacing :
        (s : Plain K) (k : K) (x : StorageEntry)
        → ((old : StorageEntry)
            → get s k ≡ some old
            → is_persistent x ≡ false
            → (is_persistent old ≡ false) × (block_of old ≡ block_of x))
        → Step s (replace s k x).0
    pruning : (s : Plain K) → Step s (prune s)

  pub data Reach (s : Plain K) : Plain K → Type ℓ where
    here : Reach s s
    next : {t u : Plain K} → Reach s t → Step t u → Reach s u

  Step-IsValid : {s t : Plain K} → Step s t → IsValid s → IsValid t
  Step-IsValid (inserting s k x) v = insert-IsValid s k x v
  Step-IsValid (deleting s k) v = delete-IsValid s k v
  Step-IsValid (replacing s k x like) v = replace-IsValid s k x like v
  Step-IsValid (pruning s) v = prune-IsValid s v.ascending (omega arith) v.traced

  Reach-IsValid : {s t : Plain K} → IsValid s → Reach s t → IsValid t
  Reach-IsValid v here = v
  Reach-IsValid v (next r st) = Step-IsValid st (Reach-IsValid v r)

  -- From the empty storage every history keeps at most `max_blocks` blocks scheduled, in ascending
  -- order, and no record that may expire is ever missing from the schedule. In a history, every
  -- replacement of an entry that is there puts a persistent one, or one of the same block as the
  -- entry before it, which was not persistent either.
  pub history-IsValid :
      (config : RecordsStorageConfig) (t : Plain K) → Reach (new config) t → IsValid t
  history-IsValid config t r = Reach-IsValid (new-IsValid config) r

  unfoldable pub insert_all : Plain K → List (K × StorageEntry) → Plain K
  insert_all s [] = s
  insert_all s ((k, x) ∷ rest) = insert_all (insert s k x).0 rest

  -- The schedule lists no block for `k`.
  abbrev pub IsUnlisted : K → Plain K → Type 0
  IsUnlisted k s = (b : BlockNumber) → listed b k s.ephemeral_records ≡ false

  scheduled-unlisted :
      (s : Plain K) (k j : K) (y : StorageEntry)
      → (k == j) ≡ false
      → IsUnlisted k s
      → (b : BlockNumber) → listed b k (scheduled s j y) ≡ false
  scheduled-unlisted s k j y ne h b =
      ground (arith, h b, listed-schedule (block_of y) b j k s.ephemeral_records)

  insert-keeps :
      (s : Plain K) (k j : K) (x y : StorageEntry)
      → get s k ≡ some x
      → IsUnlisted k s
      → (get (insert s j y).0 k ≡ some x) × IsUnlisted k (insert s j y).0
  insert-keeps s k j x y h un = elim (Bool-cases (is_some (get s j))) [
    | inl old ↦
        (ground (arith, (get-insert s j k y).1), λ b. rw (insert-schedule s j y, old) (un b))
    | inr fresh ↦
        let apart : (k == j) ≡ false = ground (arith, e.decides k j) in
        let still = scheduled-unlisted s k j y apart un in
        (
          ground (
            arith,
            (get-insert s j k y).1,
            expiring-unlisted s.max_blocks k _ still,
            e.decides k j,
            e.decides j k,
          ),
          λ b. rw (insert-schedule s j y, fresh) (unlisted-pruned s.max_blocks b k _ (still b)),
        )
  ]

  insert_all-keeps :
      (ops : List (K × StorageEntry)) (s : Plain K) (k : K) (x : StorageEntry)
      → get s k ≡ some x
      → IsUnlisted k s
      → get (insert_all s ops) k ≡ some x
  unfolding insert_all
  insert_all-keeps [] s k x h un = h
  insert_all-keeps ((j, y) ∷ ops) s k x h un =
      let (h', un') = insert-keeps s k j x y h un in
      insert_all-keeps ops (insert s j y).0 k x h' un'

  -- A persistent record that is inserted under a key which is neither stored nor scheduled is read
  -- back after any further insertions: pruning never reaches it.
  pub persistent_survives :
      (s : Plain K) (k : K) (x : StorageEntry) (ops : List (K × StorageEntry))
      → is_persistent x ≡ true
      → get s k ≡ none
      → IsUnlisted k s
      → get (insert_all (insert s k x).0 ops) k ≡ some x
  persistent_survives s k x ops per missing un =
      let still : IsUnlisted k s = un in
      let same : (b : BlockNumber) → listed b k (scheduled s k x) ≡ false = λ b. rw per (un b) in
      insert_all-keeps ops (insert s k x).0 k x
        (ground
          (arith, (get-insert s k k x).1, expiring-unlisted s.max_blocks k _ same, e.decides k k))
        (λ b. ground (arith, insert-schedule s k x, unlisted-pruned s.max_blocks b k _ (same b)))
