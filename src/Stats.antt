-- ===== src/Stats.antt =====
-- parachain-tracer/src/stats.rs: the statistics of one parachain. Floating point is a parameter:
-- the averages are computed with its operations and nothing is assumed of them. So is the capacity
-- of a `VecDeque`, which the standard library chooses: `allocated n` is what `with_capacity(n)`
-- gives and `grown c` what a full deque of capacity `c` grows to.  The counters of
-- type u32 wrap around, as in a release build.
pub mod Bucket
pub mod Counters
pub mod Skipped
mod Tests
use polkadot_introspector.Prelude.{
  ℕ, ◌+◌, ◌-◌, ◌≡◌, Bool, true, false, Option, none, some, List, [], ◌∷◌, ◌++◌, if◌then◌else◌, ltb,
  leb, length, add32, as_u16, as_u32, ◌^◌, drop, map_option, arith,
}
use polkadot_introspector.Stats.Bucket.{
  Floats, UsableNumber, AvgBucket, u32_number, u16_number, f32_number, new_bucket, update,
}
use polkadot_introspector.Tracker.BlockInfo.{H256}
use polkadot_introspector.Tracker.Calls.{StatsCall}
use polkadot_introspector.Tracker.Types.{
  DisputesTracker, SubxtDisputeResult, valid, invalid, timed_out, ParachainProgressUpdate,
}

module _ (fl : Floats) where
  pub record DisputesStats : Type 0 where
    pub disputed_count : ℕ
    pub concluded_valid : ℕ
    pub concluded_invalid : ℕ
    pub concluded_timed_out : ℕ
    pub misbehaving_validators : AvgBucket ℕ fl.F64
    pub resolution_time : AvgBucket ℕ fl.F64

  pub record SkippedSlotBlock : Type 0 where
    pub block_number : ℕ
    pub block_hash : H256

  -- `SkippedSlotBlock::new`
  unfoldable pub skipped_slot_block : ParachainProgressUpdate → SkippedSlotBlock
  skipped_slot_block update = record {
    block_number = update.block_number;
    block_hash = update.block_hash;
  }

  -- A `VecDeque`: its items, the front first, and its capacity.
  pub record Deque (A : Type 0) : Type 0 where
    pub items : List A
    pub capacity : ℕ

  pub record ParachainStats : Type 0 where
    pub para_id : ℕ
    pub backed_count : ℕ
    pub skipped_slots : ℕ
    pub last_skipped_slot_blocks : Deque SkippedSlotBlock
    pub included_count : ℕ
    pub disputes_stats : DisputesStats
    pub block_times : AvgBucket fl.F32 fl.F64
    pub slow_avail_count : ℕ
    pub low_bitfields_count : ℕ
    pub bitfields : AvgBucket ℕ fl.F64
    pub included_times : AvgBucket ℕ fl.F64
    pub backed_times : AvgBucket ℕ fl.F64

  module _ (allocated grown : ℕ → ℕ) where
    unfoldable pub pop_front : {A : Type 0} → Deque A → Deque A
    pop_front d = record d { items = drop 1 d.items }

    unfoldable pub push_back : {A : Type 0} → Deque A → A → Deque A
    push_back d x = record {
      items = d.items ++ (x ∷ []);
      capacity = if leb d.capacity (length d.items) then grown d.capacity else d.capacity;
    }

    -- `ParachainStats::new`
    unfoldable pub new_stats : ℕ → ℕ → ParachainStats
    new_stats para_id limit = record {
      para_id = para_id;
      backed_count = 0;
      skipped_slots = 0;
      last_skipped_slot_blocks = record { items = []; capacity = allocated limit };
      included_count = 0;
      disputes_stats = record {
        disputed_count = 0;
        concluded_valid = 0;
        concluded_invalid = 0;
        concluded_timed_out = 0;
        misbehaving_validators = new_bucket fl (u32_number fl);
        resolution_time = new_bucket fl (u32_number fl);
      };
      block_times = new_bucket fl (f32_number fl);
      slow_avail_count = 0;
      low_bitfields_count = 0;
      bitfields = new_bucket fl (u32_number fl);
      included_times = new_bucket fl (u16_number fl);
      backed_times = new_bucket fl (u16_number fl);
    }

    unfoldable pub on_backed : ParachainStats → ParachainStats
    on_backed s = record s { backed_count = add32 s.backed_count 1 }

    unfoldable pub update_some :
        UsableNumber ℕ fl.F64 → AvgBucket ℕ fl.F64 → Option ℕ → AvgBucket ℕ fl.F64
    update_some n b none = b
    update_some n b (some x) = update fl n b x

    unfoldable pub on_included : ParachainStats → ℕ → Option ℕ → Option ℕ → ParachainStats
    on_included s relay_parent_number previous_included backed_in = record s {
      included_count = add32 s.included_count 1;
      included_times =
          update_some (u16_number fl) s.included_times
            (map_option (λ previous. as_u16 (relay_parent_number - previous)) previous_included);
      backed_times = update_some (u16_number fl) s.backed_times (map_option as_u16 backed_in);
    }

    -- The counters of the outcomes.
    unfoldable pub conclude : SubxtDisputeResult → DisputesStats → DisputesStats
    conclude valid d = record d { concluded_valid = add32 d.concluded_valid 1 }
    conclude invalid d = record d { concluded_invalid = add32 d.concluded_invalid 1 }
    conclude timed_out d = record d { concluded_timed_out = add32 d.concluded_timed_out 1 }

    unfoldable pub on_disputed : ParachainStats → DisputesTracker → ParachainStats
    on_disputed s dispute =
        let d = s.disputes_stats in
        let counted =
          conclude dispute.outcome (record d { disputed_count = add32 d.disputed_count 1 }) in
        record s {
          disputes_stats = record counted {
            misbehaving_validators =
                update fl (u32_number fl) counted.misbehaving_validators
                  (as_u32 (length dispute.misbehaving_validators));
            resolution_time =
                update fl (u32_number fl) counted.resolution_time dispute.resolve_time;
          };
        }

    unfoldable pub on_block : ParachainStats → ℕ → ParachainStats
    on_block s time = record s {
      block_times = update fl (f32_number fl) s.block_times (fl.as_secs_f32 time);
    }

    unfoldable pub on_bitfields : ParachainStats → ℕ → Bool → ParachainStats
    on_bitfields s nbits is_low = record s {
      bitfields = update fl (u32_number fl) s.bitfields nbits;
      low_bitfields_count = if is_low then add32 s.low_bitfields_count 1 else s.low_bitfields_count;
    }

    unfoldable pub on_slow_availability : ParachainStats → ParachainStats
    on_slow_availability s = record s { slow_avail_count = add32 s.slow_avail_count 1 }

    -- A full buffer loses its oldest block.
    unfoldable pub remember : Deque SkippedSlotBlock → SkippedSlotBlock → Deque SkippedSlotBlock
    remember d b = push_back (if leb d.capacity (length d.items) then pop_front d else d) b

    unfoldable pub on_skipped_slot : ParachainStats → ParachainProgressUpdate → ParachainStats
    on_skipped_slot s update = record s {
      skipped_slots = add32 s.skipped_slots 1;
      last_skipped_slot_blocks = remember s.last_skipped_slot_blocks (skipped_slot_block update);
    }

    -- The method that a call names.
    unfoldable pub apply : ParachainStats → StatsCall → ParachainStats
    apply s StatsCall.on_backed = on_backed s
    apply s (StatsCall.on_included n previous backed_in) = on_included s n previous backed_in
    apply s (StatsCall.on_disputed d) = on_disputed s d
    apply s (StatsCall.on_block t) = on_block s t
    apply s (StatsCall.on_bitfields n low) = on_bitfields s n low
    apply s StatsCall.on_slow_availability = on_slow_availability s
    apply s (StatsCall.on_skipped_slot u) = on_skipped_slot s u

    unfoldable pub apply_all : ParachainStats → List StatsCall → ParachainStats
    apply_all s [] = s
    apply_all s (c ∷ cs) = apply_all (apply s c) cs
