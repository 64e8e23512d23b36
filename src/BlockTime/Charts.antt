-- ===== src/BlockTime/Charts.antt =====
-- The task of the charts in block-time/src/main.rs: the block times that it keeps for each endpoint,
-- and its loop. Drawing is left out.
use mathlib.Core.List.{append_assoc, append-nil}
use polkadot_introspector.Prelude.{
  ℕ, ◌-◌, ◌<◌, ◌≡◌, refl, Bool, true, false, Option, none, some, List, [], ◌∷◌, ◌++◌, if◌then◌else◌,
  ltb, ◌==◌, nat_eq, Eq, Bool-cases, inl, inr, ap, ◌∙◌, length, drop, arith,
}
use polkadot_introspector.Prelude.Assoc.{lookup, insert, lookup-insert}
use polkadot_introspector.Prelude.Ends.{last_of, last_of-append}
use polkadot_introspector.BlockTime.{BlockTimeMessage, endpoint_disconnected, new_block_time}

-- What the loop waits for: a message, the news that every sender has gone, or its timer.
pub data UiInput (U : Type 0) : Type 0 where
  message : BlockTimeMessage U → UiInput U
  closed tick : UiInput U

pub data UiState (U : Type 0) : Type 0 where
  running ended : List (U × List ℕ) → UiState U

-- The drain of old data points.
unfoldable pub drained : ℕ → List ℕ → List ℕ
drained chart_width v = if ltb chart_width (length v) then drop (length v - chart_width) v else v

unfoldable pub entry_of : ℕ → Option (List ℕ) → ℕ → List ℕ
unfolding drained
entry_of chart_width none block_time = block_time ∷ []
entry_of chart_width (some v) block_time = drained chart_width (v ++ block_time ∷ [])

module _ {U : Type 0} ⦃e : Eq U⦄ (chart_width : ℕ) where
  -- `endpoint_disconnected`: the difference is computed and dropped, so the number of active
  -- endpoints stays.
  unfoldable pub on_message : BlockTimeMessage U → List (U × List ℕ) → List (U × List ℕ)
  unfolding entry_of
  on_message endpoint_disconnected values = values
  on_message (new_block_time url block_time) values =
      insert url (entry_of chart_width (lookup url values) block_time) values

  unfoldable pub ui_loop : ℕ → List (U × List ℕ) → List (UiInput U) → UiState U
  unfolding on_message
  ui_loop active values [] = running values
  ui_loop active values (UiInput.message m ∷ inputs) = ui_loop active (on_message m values) inputs
  ui_loop active values (UiInput.closed ∷ inputs) = ui_loop active values inputs
  ui_loop active values (UiInput.tick ∷ inputs) =
      let rest = ui_loop active values inputs in if active == 0 then ended values else rest

-- The values that the task has, whether it goes on or not.
abbrev pub values_of : {U : Type 0} → UiState U → List (U × List ℕ)
values_of (running values) = values
values_of (ended values) = values

abbrev pub IsRunning : {U : Type 0} → UiState U → Type 0
IsRunning (running _) = Unit
IsRunning (ended _) = ⊥

-- The end of a list that is not empty.
abbrev pub kept : ℕ → List ℕ → Option (List ℕ)
kept n [] = none
kept n (x ∷ xs) = some (last_of n (x ∷ xs))

module _ {U : Type 0} ⦃e : Eq U⦄ where
  -- The block times of an endpoint among the inputs, in order.
  unfoldable pub times_for : U → List (UiInput U) → List ℕ
  times_for url [] = []
  times_for url (UiInput.message (new_block_time other block_time) ∷ inputs) =
      let rest = times_for url inputs in if other == url then block_time ∷ rest else rest
  times_for url (_ ∷ inputs) = times_for url inputs

  -- Once there is an endpoint the loop never ends, whatever it is told: not when the last endpoint is
  -- disconnected, and not when every sender has gone.
  pub ui_loop-IsRunning :
      (chart_width active : ℕ) (inputs : List (UiInput U)) (values : List (U × List ℕ))
      → 0 < active
      → IsRunning (ui_loop chart_width active values inputs)
  unfolding ui_loop
  ui_loop-IsRunning w active [] values h = tt
  ui_loop-IsRunning w active (UiInput.message m ∷ inputs) values h =
      ui_loop-IsRunning w active inputs _ h
  ui_loop-IsRunning w active (UiInput.closed ∷ inputs) values h =
      ui_loop-IsRunning w active inputs values h
  ui_loop-IsRunning w active (UiInput.tick ∷ inputs) values h =
      let rest = ui_loop-IsRunning w active inputs values h in
      let there : (active == 0) ≡ false = ground arith in rw there rest

drained-last_of : (n : ℕ) (xs : List ℕ) → drained n xs ≡ last_of n xs
unfolding drained last_of
drained-last_of n xs = elim (Bool-cases (ltb n (length xs))) [
  | inl e ↦ rw e refl
  | inr e ↦ let all : 0 ≡ length xs - n = ground arith in rw e (ap (λ k. drop k xs) all)
]

kept-append :
    (n : ℕ) (xs : List ℕ) (x : ℕ) → 0 < n → some (entry_of n (kept n xs) x) ≡ kept n (xs ++ x ∷ [])
unfolding entry_of last_of
kept-append n [] x h = let all : 0 ≡ 1 - n = omega arith in ap (λ k. some (drop k (x ∷ []))) all
kept-append n (y ∷ ys) x h = ap some (drained-last_of n _ ∙ last_of-append n (y ∷ ys) (x ∷ []))

one_then :
    (b : Bool) (x : ℕ) (xs : List ℕ) → (if b then x ∷ [] else []) ++ xs ≡ (if b then x ∷ xs else xs)
one_then true x xs = refl
one_then false x xs = refl

module _ {U : Type 0} ⦃e : Eq U⦄ (w active : ℕ) (wide : 0 < w) (some_active : 0 < active) where
  on_message-kept :
      (url other : U) (block_time : ℕ) (values : List (U × List ℕ)) (history : List ℕ)
      → lookup url values ≡ kept w history
      → lookup url (on_message w (new_block_time other block_time) values)
        ≡ kept w (history ++ (if other == url then block_time ∷ [] else []))
  unfolding on_message
  on_message-kept url other block_time values history h = elim (Bool-cases (other == url)) [
    | inl same ↦
        let equal = (e.decides other url).0 same in
        let before : lookup other values ≡ kept w history = rw equal h in
        rw (lookup-insert other url _ values)
          (rw same (rw before (kept-append w history block_time wide)))
    | inr differ ↦ rw (lookup-insert other url _ values) (rw differ (rw (append-nil history) h))
  ]

  ui_loop-history :
      (inputs : List (UiInput U)) (values : List (U × List ℕ)) (history : List ℕ) (url : U)
      → lookup url values ≡ kept w history
      → lookup url (values_of (ui_loop w active values inputs))
        ≡ kept w (history ++ times_for url inputs)
  unfolding ui_loop times_for
  ui_loop-history [] values history url h = rw (append-nil history) h
  ui_loop-history (UiInput.closed ∷ inputs) values history url h =
      ui_loop-history inputs values history url h
  ui_loop-history (UiInput.message endpoint_disconnected ∷ inputs) values history url h =
      ui_loop-history inputs values history url h
  ui_loop-history (UiInput.tick ∷ inputs) values history url h =
      let rest = ui_loop-history inputs values history url h in
      let there : (active == 0) ≡ false = ground arith in rw there rest
  ui_loop-history (UiInput.message (new_block_time other ms) ∷ inputs) values history url h =
      let one = on_message-kept url other ms values history h in
      let rest = ui_loop-history inputs _ _ url one in
      rest
      ∙ ap (kept w) (
          append_assoc history _ (times_for url inputs)
          ∙ ap (λ t. history ++ t) (one_then (other == url) ms (times_for url inputs)))

  -- With charts that are one value wide at least, and one endpoint at least: whatever the charts are
  -- told, in which order and between which ticks, they keep for each endpoint its last block times,
  -- as many as the chart is wide, and nothing for one that sent none.
  pub ui_loop-kept :
      (inputs : List (UiInput U)) (url : U)
      → lookup url (values_of (ui_loop w active [] inputs)) ≡ kept w (times_for url inputs)
  unfolding lookup
  ui_loop-kept inputs url = ui_loop-history inputs [] [] url refl
