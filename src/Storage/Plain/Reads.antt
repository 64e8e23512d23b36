-- ===== src/Storage/Plain/Reads.antt =====
-- What a read sees after each method of the plain storage.
use polkadot_introspector.Prelude.{
  ◌≡◌, refl, ◌&&◌, none, some, List, [], ◌∷◌, arith, Eq, ◌==◌, if◌then◌else◌, is_some, contains,
  ◌∙◌, Bool-cases, inl, inr,
}
use polkadot_introspector.Prelude.Assoc.{lookup, remove, lookup-insert, lookup-remove}
use polkadot_introspector.Storage.Entry.{
  StorageEntry, inserted, duplicate_key, is_persistent, block_of,
}
use polkadot_introspector.Storage.Schedule.{Schedule, schedule, expiring, pruned}
use polkadot_introspector.Storage.Plain.{
  Plain, remove_all, drop_oldest, prune, record_entry, insert, replace, get, delete,
}

module _ {ℓ} {K : Type ℓ} ⦃e : Eq K⦄ where
  pub lookup-remove_all {κ} :
      {V : Type κ} (ks : List K) (j : K) (m : List (K × V))
      → lookup j (remove_all ks m) ≡ (if contains j ks then none else lookup j m)
  unfolding remove_all contains
  lookup-remove_all [] j m = refl
  lookup-remove_all (k ∷ ks) j m = ground (
    arith,
    e.decides j k,
    e.decides k j,
    lookup-remove k j m,
    lookup-remove_all ks j (remove k m),
  )

  pub get-prune_cases :
      (s : Plain K) (eph : Schedule K) (j : K)
      → s.ephemeral_records ≡ eph
      → get (prune s) j ≡ (if contains j (expiring s.max_blocks eph) then none else get s j)
  unfolding get prune expiring contains
  get-prune_cases s [] j h = ground arith
  get-prune_cases s ((c, ks) ∷ m) j h =
      rw (h, prune) (ground (arith, lookup-remove_all ks j s.direct_records))

  -- Pruning hides exactly the keys of the oldest block, and only if there are too many blocks.
  pub get-prune :
      (s : Plain K) (j : K)
      → get (prune s) j
        ≡ (if contains j (expiring s.max_blocks s.ephemeral_records) then none else get s j)
  get-prune s j = get-prune_cases s s.ephemeral_records j refl

  -- the schedule that an insertion prunes
  abbrev pub scheduled : Plain K → K → StorageEntry → Schedule K
  scheduled s key entry =
      if is_persistent entry
      then s.ephemeral_records
      else schedule (block_of entry) key s.ephemeral_records

  pub get-insert :
      (s : Plain K) (key j : K) (entry : StorageEntry)
      → ((insert s key entry).1 ≡ (if is_some (get s key) then duplicate_key key else inserted))
        × (get (insert s key entry).0 j ≡ (
            if is_some (get s key)
            then get s j
            else if contains j (expiring s.max_blocks (scheduled s key entry))
            then none
            else if key == j
            then some entry
            else get s j))
  unfolding get insert record_entry
  get-insert s key j entry = elim (Bool-cases (is_some (lookup key s.direct_records))) [
    | inl old ↦ rw old (refl, refl)
    | inr new ↦ rw new (
      refl,
      get-prune (record_entry s key entry) j ∙ rw (lookup-insert key j entry s.direct_records),
    )
  ]

  -- `replace` writes a key that is there, returns what it held, and never adds a key.
  pub get-replace :
      (s : Plain K) (key j : K) (entry : StorageEntry)
      → ((replace s key entry).1 ≡ get s key)
        × (get (replace s key entry).0 j
            ≡ (if is_some (get s key) && key == j then some entry else get s j))
  unfolding get replace
  get-replace s key j entry = ground (arith, lookup-insert key j entry s.direct_records)

  -- `delete` hides the key, returns what it held, and leaves every other key.
  pub get-delete :
      (s : Plain K) (key j : K)
      → ((delete s key).1 ≡ get s key)
        × (get (delete s key).0 j ≡ (if key == j then none else get s j))
  unfolding get delete
  get-delete s key j = ground (arith, lookup-remove key j s.direct_records)

  prune-schedule_cases :
      (s : Plain K) (eph : Schedule K)
      → s.ephemeral_records ≡ eph
      → (prune s).ephemeral_records ≡ pruned s.max_blocks eph
  unfolding prune pruned
  prune-schedule_cases s [] h = ground arith
  prune-schedule_cases s ((c, ks) ∷ m) h = rw (h, prune) (ground arith)

  pub prune-schedule :
      (s : Plain K) → (prune s).ephemeral_records ≡ pruned s.max_blocks s.ephemeral_records
  prune-schedule s = prune-schedule_cases s s.ephemeral_records refl

  drop_oldest-config : (s : Plain K) (eph : Schedule K) → (drop_oldest s eph).config ≡ s.config
  unfolding drop_oldest
  drop_oldest-config s [] = refl
  drop_oldest-config s ((c, ks) ∷ m) = refl

  pub prune-config : (s : Plain K) → (prune s).config ≡ s.config
  unfolding prune
  prune-config s = ground (arith, drop_oldest-config s s.ephemeral_records)

  pub insert_lem :
      (s : Plain K) (key : K) (entry : StorageEntry)
      → insert s key entry ≡ (
          if is_some (get s key)
          then (s, duplicate_key key)
          else (prune (record_entry s key entry), inserted))
  unfolding insert get
  insert_lem s key entry = refl

  pub replace-schedule :
      (s : Plain K) (key : K) (entry : StorageEntry)
      → ((replace s key entry).0.ephemeral_records ≡ s.ephemeral_records)
        × ((replace s key entry).0.config ≡ s.config)
  unfolding replace
  replace-schedule s key entry = ground arith

  pub insert-schedule :
      (s : Plain K) (key : K) (entry : StorageEntry)
      → (insert s key entry).0.ephemeral_records ≡ (
          if is_some (get s key)
          then s.ephemeral_records
          else pruned s.max_blocks (scheduled s key entry))
  insert-schedule s key entry = elim (Bool-cases (is_some (get s key))) [
    | inl old ↦ rw (insert_lem s key entry, old)
    | inr new ↦
        rw (insert_lem s key entry, new)
          (prune-schedule (record_entry s key entry) ∙ unfold record_entry in refl)
  ]
