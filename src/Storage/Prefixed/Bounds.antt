-- ===== src/Storage/Prefixed/Bounds.antt =====
-- The invariant of the prefixed storage, in every state that its methods reach, and the expiry of
-- its records.
use polkadot_introspector.Prelude.{
  Bool, ◌||◌, [], ◌≡◌, ◌≤◌, ◌<◌, suc, true, false, none, some, List, ◌∷◌, arith, Eq, length,
  contains,
}
use polkadot_introspector.Storage.Entry.{BlockNumber, StorageEntry, block_of}
use polkadot_introspector.Storage.Schedule.{
  Schedule, IsAscending, has_block, expiring, expiring-schedule_newer,
}
use polkadot_introspector.Storage.Prefixed.{
  Prefixed, insert_prefix, replace_prefixed, get_prefix, delete_prefix,
}
use polkadot_introspector.Storage.Prefixed.Reads.{get_prefix-insert_prefix, scheduled}

module _ {ℓ} {K : Type ℓ} ⦃e : Eq K⦄ where
  -- Some block lists the key.
  unfoldable pub is_scheduled : K → Schedule K → Bool
  is_scheduled k [] = false
  is_scheduled k ((b, ks) ∷ m) = contains k ks || is_scheduled k m

module _ {ℓ κ} {K : Type ℓ} {P : Type κ} ⦃e : Eq K⦄ ⦃d : Eq P⦄ where
  -- Every record, also a persistent one, has its key scheduled under some block.
  abbrev pub IsTraced : Prefixed K P → Type (ℓ ⊔ κ)
  IsTraced s =
      (p : P) (k : K) (x : StorageEntry)
      → get_prefix s p k ≡ some x
      → is_scheduled k s.ephemeral_records ≡ true

  pub record IsValid (s : Prefixed K P) : Type (ℓ ⊔ κ) where
    pub ascending : IsAscending s.ephemeral_records
    pub bounded : length s.ephemeral_records ≤ s.max_blocks
    pub traced : IsTraced s

  -- One call of a method by prefix.
  pub data Step : Prefixed K P → Prefixed K P → Type (ℓ ⊔ κ) where
    inserting :
        (s : Prefixed K P) (p : P) (k : K) (x : StorageEntry) → Step s (insert_prefix s p k x).0
    replacing :
        (s : Prefixed K P) (p : P) (k : K) (x : StorageEntry) → Step s (replace_prefixed s p k x).0
    deleting : (s : Prefixed K P) (p : P) (k : K) → Step s (delete_prefix s p k).0

  pub data Reach (s : Prefixed K P) : Prefixed K P → Type (ℓ ⊔ κ) where
    here : Reach s s
    next : {t u : Prefixed K P} → Reach s t → Step t u → Reach s u

  -- When a new entry at a newer block makes a full storage prune its oldest block, a key that is
  -- listed there is missing under every prefix afterwards, whatever the type of its record: a
  -- persistent record is dropped as the others are.
  pub persistent_expires :
      (s : Prefixed K P) (q : P) (j : K) (y : StorageEntry) (p : P) (k : K) (c : BlockNumber)
      (ks : List K) (rest : Schedule K)
      → s.ephemeral_records ≡ (c, ks) ∷ rest
      → contains k ks ≡ true
      → get_prefix s q j ≡ none
      → c < block_of y
      → has_block (block_of y) rest ≡ false
      → s.max_blocks ≤ suc (length rest)
      → get_prefix (insert_prefix s q j y).0 p k ≡ none
  persistent_expires s q j y p k c ks rest eph old missing newer new_block full =
      let drops : expiring s.max_blocks (scheduled s j y) ≡ ks =
        rw eph
          (expiring-schedule_newer s.max_blocks (block_of y) c j ks rest newer new_block full) in
      ground (arith, (get_prefix-insert_prefix s q p j k y).1)
