-- ===== src/Stats/Tests.antt =====
-- Examples of the statistics, with numbers of milliseconds for both kinds of floating point.
use polkadot_introspector.Stats.{skipped_slot_block}
use polkadot_introspector.Prelude.{
  ℕ, ◌+◌, ◌-◌, ◌^◌, ◌≡◌, true, false, none, some, List, [], ◌∷◌, arith, ltb, count, nat_eq,
}
use polkadot_introspector.Stats.Bucket.{Floats}
use polkadot_introspector.Stats.{new_stats, apply_all}
use polkadot_introspector.Stats.Counters.{
  is_backed, is_included, is_disputed, is_concluded, is_skipped, is_slow, is_low,
  counters_count_calls,
}
use polkadot_introspector.Prelude.Ends.{last_of}
use polkadot_introspector.Stats.Skipped.{keeps_last_skipped, skipped_blocks, IsBounded}
use polkadot_introspector.Tracker.Calls.{StatsCall}
use polkadot_introspector.Tracker.Types.{DisputesTracker, invalid}

-- Natural numbers for both float types.
abbrev whole : Floats
whole = record {
  F64 = ℕ;
  F32 = ℕ;
  zero_float = 0;
  nan = 0;
  add = λ a b. a + b;
  sub = λ a b. a - b;
  div = λ a b. a;
  from_ℕ = λ n. n;
  from_f32 = λ x. x;
  lt_f32 = ltb;
  max_f32 = 2 ^ 24;
  min_f32 = 0;
  as_secs_f32 = λ ms. ms;
}

-- what `with_capacity` allocates, and what a full deque grows to
abbrev exact : ℕ → ℕ
exact n = n

abbrev larger : ℕ → ℕ
larger n = n + n + 1

abbrev skipped_at : ℕ → StatsCall
skipped_at n = StatsCall.on_skipped_slot (record {
  para_id = 100;
  timestamp = 0;
  prev_timestamp = 0;
  block_number = n;
  block_hash = n;
  core_occupied = [];
  events = [];
  is_fork = false;
  finality_lag = none;
})

abbrev calls : List StatsCall
calls =
    skipped_at 41
    ∷ StatsCall.on_backed
    ∷ StatsCall.on_bitfields 3 true
    ∷ skipped_at 42
    ∷ StatsCall.on_included 43 (some 40) none
    ∷ skipped_at 44
    ∷ []

-- A dispute that ends invalid.
abbrev lost : DisputesTracker
lost = record {
  candidate = 1;
  outcome = invalid;
  voted_for = 1;
  voted_against = 3;
  initiators = [];
  misbehaving_validators = [];
  resolve_time = 4;
  session_index = 2;
}

counters_count_calls_example :
    let s =
      apply_all whole exact larger
        (new_stats whole exact larger 100 2)
        (StatsCall.on_disputed lost ∷ calls) in
    (s.backed_count ≡ 1)
    × (s.included_count ≡ 1)
    × (s.disputes_stats.disputed_count ≡ 1)
    × (s.skipped_slots ≡ 3)
    × (s.slow_avail_count ≡ 0)
    × (s.low_bitfields_count ≡ 1)
    × (s.disputes_stats.concluded_valid ≡ 0)
    × (s.disputes_stats.concluded_invalid ≡ 1)
    × (s.disputes_stats.concluded_timed_out ≡ 0)
unfolding count is_backed is_included is_disputed is_concluded is_skipped is_slow is_low
counters_count_calls_example =
    counters_count_calls whole exact larger 100 2 (StatsCall.on_disputed lost ∷ calls)

keeps_last_skipped_example :
    let s = new_stats whole exact larger 100 2 in
    let e = (apply_all whole exact larger s calls).last_skipped_slot_blocks in
    (e.capacity ≡ 2)
    × (e.items
        ≡ record { block_number = 42; block_hash = 42 }
          ∷ record { block_number = 44; block_hash = 44 }
          ∷ [])
unfolding new_stats IsBounded last_of skipped_blocks skipped_slot_block
keeps_last_skipped_example =
    keeps_last_skipped whole exact larger (new_stats whole exact larger 100 2) calls
      (omega arith, omega arith)
