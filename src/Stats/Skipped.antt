-- ===== src/Stats/Skipped.antt =====
-- The blocks of the last skipped slots that `ParachainStats` keeps.
use polkadot_introspector.Prelude.{
  ℕ, ◌-◌, ◌≤◌, ◌<◌, ◌≡◌, refl, sym, ap, ◌∙◌, List, [], ◌∷◌, ◌++◌, arith, length, drop,
  length-append,
}
use polkadot_introspector.Prelude.Ends.{last_of, last_of-append, drop-append, length-drop}
use polkadot_introspector.Stats.Bucket.{Floats}
use polkadot_introspector.Stats.{
  ParachainStats, SkippedSlotBlock, Deque, skipped_slot_block, pop_front, push_back, remember,
  apply, apply_all, on_backed, on_included, on_disputed, on_block, on_bitfields,
  on_slow_availability, on_skipped_slot,
}
use polkadot_introspector.Tracker.Calls.{StatsCall}

last_of-room :
    {A : Type 0} (n : ℕ) (xs : List A) (x : A)
    → length xs < n
    → last_of n (xs ++ x ∷ []) ≡ xs ++ x ∷ []
unfolding last_of
last_of-room n xs x h =
    let e : length (xs ++ x ∷ []) - n ≡ 0 = omega (arith, length-append xs (x ∷ []), h) in
    ap (λ k. drop k (xs ++ x ∷ [])) e

last_of-full :
    {A : Type 0} (n : ℕ) (xs : List A) (x : A)
    → length xs ≡ n
    → 0 < n
    → last_of n (xs ++ x ∷ []) ≡ drop 1 xs ++ x ∷ []
unfolding last_of
last_of-full n xs x e h =
    let e1 : length (xs ++ x ∷ []) - n ≡ 1 = omega (arith, length-append xs (x ∷ []), e, h) in
    ap (λ k. drop k (xs ++ x ∷ [])) e1 ∙ drop-append 1 xs (x ∷ []) (omega (arith, e, h))

append_nil : {A : Type 0} (xs : List A) → xs ++ [] ≡ xs
append_nil [] = refl
append_nil (x ∷ xs) = ap (λ l. x ∷ l) (append_nil xs)

module _ (fl : Floats) (allocated grown : ℕ → ℕ) where
  -- The blocks of the skipped slots among the calls.
  unfoldable pub skipped_blocks : List StatsCall → List (SkippedSlotBlock fl)
  skipped_blocks [] = []
  skipped_blocks (StatsCall.on_skipped_slot u ∷ cs) = skipped_slot_block fl u ∷ skipped_blocks cs
  skipped_blocks (c ∷ cs) = skipped_blocks cs

  unfoldable pub IsBounded : {A : Type 0} → Deque fl A → Type 0
  IsBounded d = (0 < d.capacity) × (length d.items ≤ d.capacity)

  remember_lem :
      (d : Deque fl (SkippedSlotBlock fl)) (b : SkippedSlotBlock fl)
      → IsBounded d
      → let e = remember fl allocated grown d b in
        IsBounded e × (e.capacity ≡ d.capacity) × (e.items ≡ last_of d.capacity (d.items ++ b ∷ []))
  unfolding remember push_back pop_front IsBounded
  remember_lem d b h = ground (
    arith,
    length-drop 1 d.items,
    length-append (drop 1 d.items) (b ∷ []),
    length-append d.items (b ∷ []),
    last_of-room d.capacity d.items b,
    last_of-full d.capacity d.items b,
  )

  last_of-within :
      (d : Deque fl (SkippedSlotBlock fl))
      → IsBounded d
      → d.items ≡ last_of d.capacity (d.items ++ [])
  unfolding last_of IsBounded
  last_of-within d h =
      let e : length (d.items ++ []) - d.capacity ≡ 0 =
        omega (arith, length-append d.items [], h) in
      sym (ap (λ k. drop k (d.items ++ [])) e ∙ append_nil d.items)

  apply_lem :
      (s : ParachainStats fl) (c : StatsCall)
      → IsBounded s.last_skipped_slot_blocks
      → let d = s.last_skipped_slot_blocks in
        let e = (apply fl allocated grown s c).last_skipped_slot_blocks in
        IsBounded e
        × (e.capacity ≡ d.capacity)
        × (e.items ≡ last_of d.capacity (d.items ++ skipped_blocks (c ∷ [])))
  unfolding apply on_backed on_included on_disputed on_block on_bitfields on_slow_availability
      on_skipped_slot skipped_blocks
  apply_lem s StatsCall.on_backed h = (h, refl, last_of-within s.last_skipped_slot_blocks h)
  apply_lem s (StatsCall.on_included n p b) h =
      (h, refl, last_of-within s.last_skipped_slot_blocks h)
  apply_lem s (StatsCall.on_disputed d) h = (h, refl, last_of-within s.last_skipped_slot_blocks h)
  apply_lem s (StatsCall.on_block t) h = (h, refl, last_of-within s.last_skipped_slot_blocks h)
  apply_lem s (StatsCall.on_bitfields n l) h =
      (h, refl, last_of-within s.last_skipped_slot_blocks h)
  apply_lem s StatsCall.on_slow_availability h =
      (h, refl, last_of-within s.last_skipped_slot_blocks h)
  apply_lem s (StatsCall.on_skipped_slot u) h =
      remember_lem s.last_skipped_slot_blocks (skipped_slot_block fl u) h

  skipped_blocks-cons :
      (c : StatsCall) (cs : List StatsCall) (xs : List (SkippedSlotBlock fl))
      → (xs ++ skipped_blocks (c ∷ [])) ++ skipped_blocks cs ≡ xs ++ skipped_blocks (c ∷ cs)
  unfolding skipped_blocks
  skipped_blocks-cons c cs [] = cons_lem c
    where
      cons_lem :
          (c : StatsCall) → skipped_blocks (c ∷ []) ++ skipped_blocks cs ≡ skipped_blocks (c ∷ cs)
      cons_lem StatsCall.on_backed = refl
      cons_lem (StatsCall.on_included _ _ _) = refl
      cons_lem (StatsCall.on_disputed _) = refl
      cons_lem (StatsCall.on_block _) = refl
      cons_lem (StatsCall.on_bitfields _ _) = refl
      cons_lem StatsCall.on_slow_availability = refl
      cons_lem (StatsCall.on_skipped_slot _) = refl
  skipped_blocks-cons c cs (x ∷ xs) = ap (λ l. x ∷ l) (skipped_blocks-cons c cs xs)

  -- Once it has room for at least one block and is not over its capacity, the buffer holds, after
  -- any calls, the last blocks among its own and those of the skipped slots, as many as its capacity
  -- allows, the oldest first; its capacity stays.
  pub keeps_last_skipped :
      (s : ParachainStats fl) (cs : List StatsCall)
      → IsBounded s.last_skipped_slot_blocks
      → let d = s.last_skipped_slot_blocks in
        let e = (apply_all fl allocated grown s cs).last_skipped_slot_blocks in
        (e.capacity ≡ d.capacity) × (e.items ≡ last_of d.capacity (d.items ++ skipped_blocks cs))
  unfolding apply_all skipped_blocks
  keeps_last_skipped s [] h = (refl, last_of-within s.last_skipped_slot_blocks h)
  keeps_last_skipped s (c ∷ cs) h =
      let (bounded, cap, items) = apply_lem s c h in
      let (cap', items') = keeps_last_skipped (apply fl allocated grown s c) cs bounded in
      let d = s.last_skipped_slot_blocks in
      (
        cap' ∙ cap,
        items'
            ∙ rw (cap, items) refl
            ∙ last_of-append d.capacity (d.items ++ skipped_blocks (c ∷ [])) (skipped_blocks cs)
            ∙ ap (last_of d.capacity) (skipped_blocks-cons c cs d.items),
      )
