-- ===== src/Storage/Prefixed/Search.antt =====
-- The methods of the prefixed storage that take a key with no prefix: they search the prefixes.
use polkadot_introspector.Prelude.{
  ◌≡◌, refl, none, some, List, [], ◌∷◌, arith, Eq, ◌==◌, ◌⊎◌, false, is_some, if◌then◌else◌,
  and_then, Option-cases, inl, inr,
}
use polkadot_introspector.Prelude.Assoc.{lookup, lookup-insert, lookup-remove, HasUniqueKeys}
use polkadot_introspector.Storage.Entry.{StorageEntry}
use polkadot_introspector.Storage.Prefixed.{
  Prefixed, Records, find_first, replace_first, delete_first, get, get_prefix, replace, delete,
}

module _ {ℓ κ} {K : Type ℓ} {P : Type κ} ⦃e : Eq K⦄ ⦃d : Eq P⦄ where
  find_first-none :
      (m : List (P × Records K)) (p : P) (k : K)
      → find_first k m ≡ none
      → and_then (lookup p m) (lookup k) ≡ none
  unfolding find_first lookup
  find_first-none [] p k h = refl
  find_first-none ((q, r) ∷ m) p k h = elim (Option-cases (lookup k r)) [
    | inl missing ↦ ground (arith, find_first-none m p k)
    | inr (x, found) ↦ absurd (ground arith)
  ]

  find_first-some :
      (m : List (P × Records K)) (k : K) (x : StorageEntry)
      → HasUniqueKeys m
      → find_first k m ≡ some x
      → (p : P) × (and_then (lookup p m) (lookup k) ≡ some x)
  unfolding find_first lookup
  find_first-some [] k x u h = cc
  find_first-some ((q, r) ∷ m) k x u h = elim (Option-cases (lookup k r)) [
    | inr (y, found) ↦ (q, ground (arith, d.decides q q))
    | inl missing ↦
        let (p, there) = find_first-some m k x u.1 (ground arith) in
        (p, ground (arith, d.decides q p, u.0))
  ]

  -- Reading with no prefix finds a record exactly if some prefix has the key, and then the record
  -- of such a prefix.
  pub get_searches :
      (s : Prefixed K P) (k : K)
      → HasUniqueKeys s.prefixed_records
      → ((get s k ≡ none) × ((p : P) → get_prefix s p k ≡ none))
        ⊎ ((x : StorageEntry) × (p : P) × (get s k ≡ some x) × (get_prefix s p k ≡ some x))
  unfolding get get_prefix
  get_searches s k u = elim (Option-cases (find_first k s.prefixed_records)) [
    | inl missing ↦ inl (missing, λ p. find_first-none s.prefixed_records p k missing)
    | inr (x, found) ↦
        let (p, there) = find_first-some s.prefixed_records k x u found in inr (x, p, found, there)
  ]

  replace_first-find :
      (m : List (P × Records K)) (k j : K) (x : StorageEntry)
      → ((replace_first k x m).1 ≡ find_first k m)
        × (find_first k (replace_first k x m).0
            ≡ (if is_some (find_first k m) then some x else none))
        × ((k == j) ≡ false → find_first j (replace_first k x m).0 ≡ find_first j m)
  unfolding replace_first find_first
  replace_first-find [] k j x = (refl, refl, λ ne. refl)
  replace_first-find ((q, r) ∷ m) k j x = ground (
    arith,
    replace_first-find m k j x,
    lookup-insert k j x r,
    lookup-insert k k x r,
    e.decides k k,
  )

  -- `replace` with no prefix returns what a read would have found, writes that record if there is
  -- one, and leaves what is read at every other key.
  pub get-replace :
      (s : Prefixed K P) (k j : K) (x : StorageEntry)
      → ((replace s k x).1 ≡ get s k)
        × (get (replace s k x).0 k ≡ (if is_some (get s k) then some x else none))
        × ((k == j) ≡ false → get (replace s k x).0 j ≡ get s j)
  unfolding get replace
  get-replace s k j x = replace_first-find s.prefixed_records k j x

  delete_first-find :
      (m : List (P × Records K)) (k j : K)
      → ((delete_first k m).1 ≡ find_first k m)
        × ((k == j) ≡ false → find_first j (delete_first k m).0 ≡ find_first j m)
  unfolding delete_first find_first
  delete_first-find [] k j = (refl, λ ne. refl)
  delete_first-find ((q, r) ∷ m) k j = ground (arith, delete_first-find m k j, lookup-remove k j r)

  -- `delete` with no prefix returns what a read would have found, and leaves what is read at every
  -- other key.
  pub get-delete :
      (s : Prefixed K P) (k j : K)
      → ((delete s k).1 ≡ get s k) × ((k == j) ≡ false → get (delete s k).0 j ≡ get s j)
  unfolding get delete
  get-delete s k j = delete_first-find s.prefixed_records k j
