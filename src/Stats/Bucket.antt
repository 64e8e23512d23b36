-- ===== src/Stats/Bucket.antt =====
-- `AvgBucket` of parachain-tracer/src/stats.rs.
use polkadot_introspector.Prelude.{
  ℕ, ◌+◌, ◌-◌, ◌^◌, ◌≤◌, ◌<◌, ◌≡◌, refl, Bool, true, List, [], ◌∷◌, arith, ltb, if◌then◌else◌,
  length, All, contains, nat_eq, ◌⊎◌, inl,
}

-- The operations on `f64` that the averages use, and the `f32` of the block times.
pub record Floats : Type 1 where
  pub F64 : Type 0
  pub F32 : Type 0
  pub zero_float : F64
  pub nan : F64
  pub add : F64 → F64 → F64
  pub sub : F64 → F64 → F64
  pub div : F64 → F64 → F64
  pub from_ℕ : ℕ → F64
  pub from_f32 : F32 → F64
  pub lt_f32 : F32 → F32 → Bool
  pub max_f32 : F32
  pub min_f32 : F32
  -- `Duration::as_secs_f32`, of milliseconds
  pub as_secs_f32 : ℕ → F32

-- The trait `UsableNumber`: the bounds, the order and the conversion of a number type.
pub record UsableNumber (T F : Type 0) : Type 0 where
  pub max_value : T
  pub min_value : T
  pub less : T → T → Bool
  pub to_float : T → F

pub record AvgBucket (T F : Type 0) : Type 0 where
  pub avg : F
  pub max : T
  pub min : T
  pub num_samples : ℕ

module _ (fl : Floats) where
  abbrev pub u32_number : UsableNumber ℕ fl.F64
  u32_number = record { max_value = 2 ^ 32 - 1; min_value = 0; less = ltb; to_float = fl.from_ℕ }

  abbrev pub u16_number : UsableNumber ℕ fl.F64
  u16_number = record { max_value = 2 ^ 16 - 1; min_value = 0; less = ltb; to_float = fl.from_ℕ }

  abbrev pub f32_number : UsableNumber fl.F32 fl.F64
  f32_number = record {
    max_value = fl.max_f32;
    min_value = fl.min_f32;
    less = fl.lt_f32;
    to_float = fl.from_f32;
  }

  -- `Default`: the bounds are crossed, so that the first sample sets both.
  unfoldable pub new_bucket : {T : Type 0} → UsableNumber T fl.F64 → AvgBucket T fl.F64
  new_bucket n = record {
    avg = fl.zero_float;
    max = n.min_value;
    min = n.max_value;
    num_samples = 0;
  }

  unfoldable pub update :
      {T : Type 0} → UsableNumber T fl.F64 → AvgBucket T fl.F64 → T → AvgBucket T fl.F64
  update n b new_value = record {
    max = if n.less b.max new_value then new_value else b.max;
    min = if n.less new_value b.min then new_value else b.min;
    num_samples = b.num_samples + 1;
    avg =
        fl.add b.avg (fl.div (fl.sub (n.to_float new_value) b.avg) (fl.from_ℕ (b.num_samples + 1)));
  }

  unfoldable pub value : {T : Type 0} → AvgBucket T fl.F64 → fl.F64
  value b = if ltb 0 b.num_samples then b.avg else fl.nan

  unfoldable pub update_all :
      {T : Type 0} → UsableNumber T fl.F64 → AvgBucket T fl.F64 → List T → AvgBucket T fl.F64
  update_all n b [] = b
  update_all n b (x ∷ xs) = update_all n (update n b x) xs

  update_lem :
      (n : UsableNumber ℕ fl.F64) (b : AvgBucket ℕ fl.F64) (x : ℕ)
      → n.less ≡ ltb
      → ((update n b x).max ≡ (if ltb b.max x then x else b.max))
        × ((update n b x).min ≡ (if ltb x b.min then x else b.min))
        × ((update n b x).num_samples ≡ b.num_samples + 1)
  unfolding update
  update_lem n b x e = rw e (refl, refl, refl)

  -- What a bucket has learned from more samples: their number, and bounds that hold of the old
  -- bounds and of the samples and are among them.
  pub record Learned (b c : AvgBucket ℕ fl.F64) (xs : List ℕ) : Type 0 where
    pub counted : c.num_samples ≡ b.num_samples + length xs
    pub max_grows : b.max ≤ c.max
    pub min_falls : c.min ≤ b.min
    pub within : All (λ x. (x ≤ c.max) × (c.min ≤ x)) xs
    pub max_attained : (c.max ≡ b.max) ⊎ (contains c.max xs ≡ true)
    pub min_attained : (c.min ≡ b.min) ⊎ (contains c.min xs ≡ true)

  update_all-Learned :
      (n : UsableNumber ℕ fl.F64) (b : AvgBucket ℕ fl.F64) (xs : List ℕ)
      → n.less ≡ ltb
      → Learned b (update_all n b xs) xs
  unfolding update_all contains
  update_all-Learned n b [] e = record {
    counted = omega arith;
    max_grows = omega arith;
    min_falls = omega arith;
    within = tt;
    max_attained = inl refl;
    min_attained = inl refl;
  }
  update_all-Learned n b (x ∷ xs) e =
      let rest = update_all-Learned n (update n b x) xs e in
      let (hi, lo, num) = update_lem n b x e in
      record {
        counted = ground (arith, rest.counted);
        max_grows = ground (arith, rest.max_grows);
        min_falls = ground (arith, rest.min_falls);
        within = (ground (arith, rest.max_grows, rest.min_falls), rest.within);
        max_attained = ground (arith, rest.max_attained);
        min_attained = ground (arith, rest.min_attained);
      }

  -- After at least one sample, each within the type, a bucket holds their number, and its `max` and
  -- `min` are samples that bound all of them; with no sample its value is not a number.
  pub bucket_bounds :
      (x : ℕ) (xs : List ℕ)
      → x < 2 ^ 32
      → let c = update_all u32_number (new_bucket u32_number) (x ∷ xs) in
        (c.num_samples ≡ length (x ∷ xs))
        × All (λ y. (y ≤ c.max) × (c.min ≤ y)) (x ∷ xs)
        × (contains c.max (x ∷ xs) ≡ true)
        × (contains c.min (x ∷ xs) ≡ true)
        × (value c ≡ c.avg)
        × (value (new_bucket u32_number) ≡ fl.nan)
  unfolding update_all value new_bucket contains
  bucket_bounds x xs fits =
      let u = u32_number in
      let (hi, lo, num) = update_lem u (new_bucket u) x refl in
      let rest = update_all-Learned u (update u (new_bucket u) x) xs refl in
      (
        ground (arith, rest.counted),
        (ground (arith, rest.max_grows, rest.min_falls), rest.within),
        ground (arith, rest.max_attained),
        ground (arith, rest.min_attained),
        ground (arith, rest.counted),
        refl,
      )
