-- ===== src/Storage/Prefixed/Reads.antt =====
-- What a read by prefix and key sees after each method of the prefixed storage.
use polkadot_introspector.Prelude.{
  ◌≡◌, refl, ◌∙◌, ◌&&◌, Option, none, some, List, [], ◌∷◌, arith, Eq, ◌==◌, if◌then◌else◌, is_some,
  contains, Option-cases, Bool-cases, inl, inr, and_then,
}
use polkadot_introspector.Prelude.Assoc.{
  lookup, insert as insert_record, remove, lookup-insert, lookup-remove, lookup-map_values,
  map_values,
}
use polkadot_introspector.Storage.Entry.{StorageEntry, inserted, duplicate_key, block_of}
use polkadot_introspector.Storage.Schedule.{Schedule, schedule, expiring, pruned}
use polkadot_introspector.Storage.Plain.{remove_all}
use polkadot_introspector.Storage.Plain.Reads.{lookup-remove_all}
use polkadot_introspector.Storage.Prefixed.{
  Prefixed, Records, prune, record_entry, direct_storage, insert_prefix, replace_prefixed,
  get_prefix, delete_prefix,
}

module _ {ℓ κ} {K : Type ℓ} {P : Type κ} ⦃e : Eq K⦄ ⦃d : Eq P⦄ where
  -- the record of a key under a prefix
  abbrev read : P → K → List (P × Records K) → Option StorageEntry
  read p k m = and_then (lookup p m) (lookup k)

  read-remove_all :
      (ks : List K) (p : P) (k : K) (m : List (P × Records K))
      → read p k (map_values (remove_all ks) m) ≡ (if contains k ks then none else read p k m)
  read-remove_all ks p k m = elim (Option-cases (lookup p m)) [
    | inl h ↦ rw (lookup-map_values (remove_all ks) p m, h) (ground arith)
    | inr (r, h) ↦ rw (lookup-map_values (remove_all ks) p m, h) (lookup-remove_all ks k r)
  ]

  read-insert :
      (p q : P) (k : K) (r : Records K) (m : List (P × Records K))
      → read q k (insert_record p r m) ≡ (if p == q then lookup k r else read q k m)
  read-insert p q k r m = rw (lookup-insert p q r m) (ground arith)

  get_prefix-prune_cases :
      (s : Prefixed K P) (eph : Schedule K) (p : P) (k : K)
      → s.ephemeral_records ≡ eph
      → (get_prefix (prune s) p k
          ≡ (if contains k (expiring s.max_blocks eph) then none else get_prefix s p k))
        × ((prune s).ephemeral_records ≡ pruned s.max_blocks eph)
        × ((prune s).config ≡ s.config)
  unfolding get_prefix prune expiring pruned contains
  get_prefix-prune_cases s [] p k h = ground arith
  get_prefix-prune_cases s ((c, ks) ∷ m) p k h =
      rw (h, prune) (ground (arith, read-remove_all ks p k s.prefixed_records))

  -- Pruning hides the keys of the oldest block under every prefix, if there are too many blocks.
  pub get_prefix-prune :
      (s : Prefixed K P) (p : P) (k : K)
      → (get_prefix (prune s) p k ≡ (
          if contains k (expiring s.max_blocks s.ephemeral_records)
          then none
          else get_prefix s p k))
        × ((prune s).ephemeral_records ≡ pruned s.max_blocks s.ephemeral_records)
        × ((prune s).config ≡ s.config)
  get_prefix-prune s p k = get_prefix-prune_cases s s.ephemeral_records p k refl

  direct_storage-lookup :
      (s : Prefixed K P) (p : P) (k : K) → lookup k (direct_storage s p) ≡ get_prefix s p k
  unfolding direct_storage get_prefix lookup
  direct_storage-lookup s p k = ground arith

  abbrev pub scheduled : Prefixed K P → K → StorageEntry → Schedule K
  scheduled s key entry = schedule (block_of entry) key s.ephemeral_records

  pub get_prefix-record_entry :
      (s : Prefixed K P) (p q : P) (k j : K) (x : StorageEntry)
      → get_prefix (record_entry s p k x) q j
        ≡ (if p == q && k == j then some x else get_prefix s q j)
  unfolding get_prefix record_entry
  get_prefix-record_entry s p q k j x =
      read-insert p q j (insert_record k x (direct_storage s p)) s.prefixed_records
      ∙ ground (
        arith,
        lookup-insert k j x (direct_storage s p),
        direct_storage-lookup s p j,
        d.decides p q,
      )

  pub insert_prefix_lem :
      (s : Prefixed K P) (p : P) (k : K) (x : StorageEntry)
      → insert_prefix s p k x ≡ (
          if is_some (get_prefix s p k)
          then (s, duplicate_key k)
          else (prune (record_entry s p k x), inserted))
  unfolding insert_prefix
  insert_prefix_lem s p k x = rw (← direct_storage-lookup s p k)

  -- An insertion is refused, and changes nothing, exactly when the prefix has the key. Otherwise it
  -- makes that prefix and key read as the entry and leaves all others, but for the keys that the
  -- pruning drops under every prefix.
  pub get_prefix-insert_prefix :
      (s : Prefixed K P) (p q : P) (k j : K) (x : StorageEntry)
      → ((insert_prefix s p k x).1
          ≡ (if is_some (get_prefix s p k) then duplicate_key k else inserted))
        × (get_prefix (insert_prefix s p k x).0 q j ≡ (
            if is_some (get_prefix s p k)
            then get_prefix s q j
            else if contains j (expiring s.max_blocks (scheduled s k x))
            then none
            else if p == q && k == j
            then some x
            else get_prefix s q j))
  get_prefix-insert_prefix s p q k j x = elim (Bool-cases (is_some (get_prefix s p k))) [
    | inl old ↦ rw (insert_prefix_lem s p k x, old) (refl, refl)
    | inr new ↦
        rw (insert_prefix_lem s p k x, new)
          (
            refl,
            (get_prefix-prune (record_entry s p k x) q j).0
                ∙ rw (get_prefix-record_entry s p q k j x) (unfold record_entry in refl),
          )
  ]

  -- `replace_prefixed` writes a key that its prefix has, returns what it held, and adds none.
  pub get_prefix-replace_prefixed :
      (s : Prefixed K P) (p q : P) (k j : K) (x : StorageEntry)
      → ((replace_prefixed s p k x).1 ≡ get_prefix s p k)
        × (get_prefix (replace_prefixed s p k x).0 q j
            ≡ (if is_some (get_prefix s p k) && p == q && k == j then some x else get_prefix s q j))
  unfolding replace_prefixed get_prefix
  get_prefix-replace_prefixed s p q k j x = elim (Option-cases (lookup p s.prefixed_records)) [
    | inl h ↦ rw (h, replace_prefixed) (refl, refl)
    | inr (r, h) ↦ elim (Option-cases (lookup k r)) [
      | inl missing ↦ rw (h, replace_prefixed, missing) (refl, refl)
      | inr (old, found) ↦
          rw (h, replace_prefixed, found)
            (
              refl,
              read-insert p q j (insert_record k x r) s.prefixed_records
                  ∙ ground (arith, lookup-insert k j x r, d.decides p q),
            )
    ]
  ]

  -- `delete_prefix` hides the key under its prefix alone, and returns what it held.
  pub get_prefix-delete_prefix :
      (s : Prefixed K P) (p q : P) (k j : K)
      → ((delete_prefix s p k).1 ≡ get_prefix s p k)
        × (get_prefix (delete_prefix s p k).0 q j
            ≡ (if p == q && k == j then none else get_prefix s q j))
  unfolding delete_prefix get_prefix
  get_prefix-delete_prefix s p q k j = elim (Option-cases (lookup p s.prefixed_records)) [
    | inl h ↦ rw (h, delete_prefix) (ground (arith, d.decides p q))
    | inr (r, h) ↦
        rw (h, delete_prefix)
          (
            refl,
            read-insert p q j (remove k r) s.prefixed_records
                ∙ ground (arith, lookup-remove k j r, d.decides p q),
          )
  ]

  pub insert_prefix-schedule :
      (s : Prefixed K P) (p : P) (k : K) (x : StorageEntry)
      → (insert_prefix s p k x).0.ephemeral_records ≡ (
          if is_some (get_prefix s p k)
          then s.ephemeral_records
          else pruned s.max_blocks (scheduled s k x))
  insert_prefix-schedule s p k x = elim (Bool-cases (is_some (get_prefix s p k))) [
    | inl old ↦ rw (insert_prefix_lem s p k x, old)
    | inr fresh ↦
        rw (insert_prefix_lem s p k x, fresh)
          ((get_prefix-prune (record_entry s p k x) p k).1 ∙ unfold record_entry in refl)
  ]

  -- The other methods leave the schedule and the configuration.
  pub replace_prefixed-schedule :
      (s : Prefixed K P) (p : P) (k : K) (x : StorageEntry)
      → ((replace_prefixed s p k x).0.ephemeral_records ≡ s.ephemeral_records)
        × ((replace_prefixed s p k x).0.config ≡ s.config)
  unfolding replace_prefixed
  replace_prefixed-schedule s p k x = ground arith

  pub delete_prefix-schedule :
      (s : Prefixed K P) (p : P) (k : K)
      → ((delete_prefix s p k).0.ephemeral_records ≡ s.ephemeral_records)
        × ((delete_prefix s p k).0.config ≡ s.config)
  unfolding delete_prefix
  delete_prefix-schedule s p k = ground arith
