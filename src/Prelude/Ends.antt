-- ===== src/Prelude/Ends.antt =====
-- The last elements of a list.
use Prim.Native.Nat.{ℕ, zero, suc, ◌+◌, ◌-◌, ◌≤◌}
use mathlib.Core.Path.{◌≡◌, refl, sym, ap, ◌∙◌}
use mathlib.Core.List.{List, [], ◌∷◌, ◌++◌}
use native.Mathlib.Omega.{arith}
use polkadot_introspector.Prelude.Lists.{length, drop, length-append}

-- The last `n` elements of a list.
unfoldable pub last_of : {A : Type 0} → ℕ → List A → List A
last_of n xs = drop (length xs - n) xs

pub length-drop : {A : Type 0} (k : ℕ) (xs : List A) → length (drop k xs) ≡ length xs - k
length-drop zero xs = omega arith
length-drop (suc k) [] = omega arith
length-drop (suc k) (x ∷ xs) = omega (arith, length-drop k xs)

pub drop-append :
    {A : Type 0} (k : ℕ) (xs ys : List A) → k ≤ length xs → drop k (xs ++ ys) ≡ drop k xs ++ ys
drop-append zero xs ys h = refl
drop-append (suc k) [] ys h = ground (arith, h)
drop-append (suc k) (x ∷ xs) ys h = drop-append k xs ys (omega (arith, h))

suc_add : (k j : ℕ) → suc (k + j) ≡ suc k + j
suc_add k j = omega arith

drop_nil : {A : Type 0} (k : ℕ) → drop {A = A} k [] ≡ []
drop_nil zero = refl
drop_nil (suc k) = refl

pub drop-drop : {A : Type 0} (j k : ℕ) (xs : List A) → drop j (drop k xs) ≡ drop (k + j) xs
drop-drop j zero xs = ap (λ m. drop m xs) (omega arith)
drop-drop j (suc k) [] = drop_nil j ∙ sym (drop_nil (suc k + j))
drop-drop j (suc k) (x ∷ xs) = drop-drop j k xs ∙ ap (λ m. drop m (x ∷ xs)) (suc_add k j)

-- Keeping the last `n` before more elements come changes nothing.
pub last_of-append :
    {A : Type 0} (n : ℕ) (xs ys : List A) → last_of n (last_of n xs ++ ys) ≡ last_of n (xs ++ ys)
unfolding last_of
last_of-append n xs ys =
    let k = length xs - n in
    let e = drop-append k xs ys (omega arith) in
    let size = length-drop k xs in
    let eq : length (drop k xs ++ ys) - n + k ≡ length (xs ++ ys) - n =
      omega (arith, length-append (drop k xs) ys, length-append xs ys, size) in
    ap (drop _) (sym e) ∙ drop-drop _ k (xs ++ ys) ∙ ap (λ m. drop m (xs ++ ys)) (omega (arith, eq))
