-- ===== src/Stats/Counters.antt =====
-- The counters of `ParachainStats`, after any sequence of calls.
use polkadot_introspector.Prelude.{
  ℕ, ◌+◌, ◌^◌, ◌%◌, ◌<◌, ◌≡◌, refl, Bool, true, false, List, [], ◌∷◌, count, arith, if◌then◌else◌,
  add32,
}
use polkadot_introspector.Stats.Bucket.{Floats}
use polkadot_introspector.Stats.{
  ParachainStats, DisputesStats, apply, apply_all, new_stats, on_backed, on_included, on_disputed,
  on_block, on_bitfields, on_slow_availability, on_skipped_slot, conclude,
}
use polkadot_introspector.Tracker.Calls.{StatsCall}
use polkadot_introspector.Tracker.Types.{SubxtDisputeResult, valid, invalid, timed_out}

unfoldable pub is_backed : StatsCall → Bool
is_backed StatsCall.on_backed = true
is_backed _ = false

unfoldable pub is_included : StatsCall → Bool
is_included (StatsCall.on_included _ _ _) = true
is_included _ = false

unfoldable pub is_disputed : StatsCall → Bool
is_disputed (StatsCall.on_disputed _) = true
is_disputed _ = false

-- The dispute ended in this way.
abbrev same_outcome : SubxtDisputeResult → SubxtDisputeResult → Bool
same_outcome valid valid = true
same_outcome invalid invalid = true
same_outcome timed_out timed_out = true
same_outcome _ _ = false

unfoldable pub is_concluded : SubxtDisputeResult → StatsCall → Bool
is_concluded o (StatsCall.on_disputed d) = same_outcome o d.outcome
is_concluded o _ = false

unfoldable pub is_skipped : StatsCall → Bool
is_skipped (StatsCall.on_skipped_slot _) = true
is_skipped _ = false

unfoldable pub is_slow : StatsCall → Bool
is_slow StatsCall.on_slow_availability = true
is_slow _ = false

unfoldable pub is_low : StatsCall → Bool
is_low (StatsCall.on_bitfields _ low) = low
is_low _ = false

module _ (fl : Floats) (allocated grown : ℕ → ℕ) where
  -- A counter of calls that satisfy a test holds their number modulo 2^32.
  counter_counts :
      (counter : ParachainStats fl → ℕ) (p : StatsCall → Bool)
      → ((s : ParachainStats fl) (c : StatsCall)
          → counter (apply fl allocated grown s c)
            ≡ (if p c then add32 (counter s) 1 else counter s))
      → (s : ParachainStats fl) (cs : List StatsCall) → counter s < 2 ^ 32
      → counter (apply_all fl allocated grown s cs) ≡ (counter s + count p cs) % 2 ^ 32
  unfolding apply_all count add32
  counter_counts counter p step s [] h = omega arith
  counter_counts counter p step s (c ∷ cs) h =
      let e = step s c in
      ground (arith, counter_counts counter p step (apply fl allocated grown s c) cs)

  from_zero :
      (counter : ParachainStats fl → ℕ) (p : StatsCall → Bool)
      → ((s : ParachainStats fl) (c : StatsCall)
          → counter (apply fl allocated grown s c)
            ≡ (if p c then add32 (counter s) 1 else counter s))
      → (s : ParachainStats fl) (cs : List StatsCall) → counter s ≡ 0
      → counter (apply_all fl allocated grown s cs) ≡ count p cs % 2 ^ 32
  from_zero counter p step s cs e = omega (arith, counter_counts counter p step s cs, e)

  -- What the outcome does to the counters of the disputes.
  abbrev ConcludeCounts : SubxtDisputeResult → DisputesStats fl → Type 0
  ConcludeCounts o d =
      let d' = conclude fl allocated grown o d in
      (d'.disputed_count ≡ d.disputed_count)
      × (d'.concluded_valid
          ≡ (if same_outcome valid o then add32 d.concluded_valid 1 else d.concluded_valid))
      × (d'.concluded_invalid
          ≡ (if same_outcome invalid o then add32 d.concluded_invalid 1 else d.concluded_invalid))
      × (d'.concluded_timed_out ≡ (
          if same_outcome timed_out o
          then add32 d.concluded_timed_out 1
          else d.concluded_timed_out))

  conclude_counts : (o : SubxtDisputeResult) (d : DisputesStats fl) → ConcludeCounts o d
  unfolding conclude
  conclude_counts valid d = (refl, refl, refl, refl)
  conclude_counts invalid d = (refl, refl, refl, refl)
  conclude_counts timed_out d = (refl, refl, refl, refl)

  -- What one call does to the counters.
  apply_counts :
      (s : ParachainStats fl) (c : StatsCall)
      → let s' = apply fl allocated grown s c in
        (s'.backed_count ≡ (if is_backed c then add32 s.backed_count 1 else s.backed_count))
        × (s'.included_count
            ≡ (if is_included c then add32 s.included_count 1 else s.included_count))
        × (s'.disputes_stats.disputed_count ≡ (
            if is_disputed c
            then add32 s.disputes_stats.disputed_count 1
            else s.disputes_stats.disputed_count))
        × (s'.skipped_slots ≡ (if is_skipped c then add32 s.skipped_slots 1 else s.skipped_slots))
        × (s'.slow_avail_count
            ≡ (if is_slow c then add32 s.slow_avail_count 1 else s.slow_avail_count))
        × (s'.low_bitfields_count
            ≡ (if is_low c then add32 s.low_bitfields_count 1 else s.low_bitfields_count))
        × (s'.disputes_stats.concluded_valid ≡ (
            if is_concluded valid c
            then add32 s.disputes_stats.concluded_valid 1
            else s.disputes_stats.concluded_valid))
        × (s'.disputes_stats.concluded_invalid ≡ (
            if is_concluded invalid c
            then add32 s.disputes_stats.concluded_invalid 1
            else s.disputes_stats.concluded_invalid))
        × (s'.disputes_stats.concluded_timed_out ≡ (
            if is_concluded timed_out c
            then add32 s.disputes_stats.concluded_timed_out 1
            else s.disputes_stats.concluded_timed_out))
  unfolding apply on_backed on_included on_disputed on_block on_bitfields on_slow_availability
      on_skipped_slot conclude is_backed is_included is_disputed is_concluded is_skipped is_slow
      is_low
  apply_counts s StatsCall.on_backed = (refl, refl, refl, refl, refl, refl, refl, refl, refl)
  apply_counts s (StatsCall.on_included n p b) =
      (refl, refl, refl, refl, refl, refl, refl, refl, refl)
  apply_counts s (StatsCall.on_disputed d) =
      let c =
        conclude_counts d.outcome
          (record s.disputes_stats { disputed_count = add32 s.disputes_stats.disputed_count 1 }) in
      (refl, refl, c.0, refl, refl, refl, c.1, c.2, c.3)
  apply_counts s (StatsCall.on_block t) = (refl, refl, refl, refl, refl, refl, refl, refl, refl)
  apply_counts s (StatsCall.on_bitfields n low) =
      (refl, refl, refl, refl, refl, refl, refl, refl, refl)
  apply_counts s StatsCall.on_slow_availability =
      (refl, refl, refl, refl, refl, refl, refl, refl, refl)
  apply_counts s (StatsCall.on_skipped_slot u) =
      (refl, refl, refl, refl, refl, refl, refl, refl, refl)

  -- From fresh statistics, every counter is the number of the calls it stands for, modulo 2^32: the
  -- candidates backed and included, the disputes and those that ended valid, invalid and timed out,
  -- the skipped slots, the slow availabilities and the blocks of which the bitfields were low.
  pub counters_count_calls :
      (para_id limit : ℕ) (cs : List StatsCall)
      → let s = apply_all fl allocated grown (new_stats fl allocated grown para_id limit) cs in
        (s.backed_count ≡ count is_backed cs % 2 ^ 32)
        × (s.included_count ≡ count is_included cs % 2 ^ 32)
        × (s.disputes_stats.disputed_count ≡ count is_disputed cs % 2 ^ 32)
        × (s.skipped_slots ≡ count is_skipped cs % 2 ^ 32)
        × (s.slow_avail_count ≡ count is_slow cs % 2 ^ 32)
        × (s.low_bitfields_count ≡ count is_low cs % 2 ^ 32)
        × (s.disputes_stats.concluded_valid ≡ count (is_concluded valid) cs % 2 ^ 32)
        × (s.disputes_stats.concluded_invalid ≡ count (is_concluded invalid) cs % 2 ^ 32)
        × (s.disputes_stats.concluded_timed_out ≡ count (is_concluded timed_out) cs % 2 ^ 32)
  unfolding new_stats
  counters_count_calls para_id limit cs =
      let s0 = new_stats fl allocated grown para_id limit in
      (
        from_zero (λ s. s.backed_count) is_backed (λ s c. (apply_counts s c).0) s0 cs refl,
        from_zero (λ s. s.included_count) is_included (λ s c. (apply_counts s c).1) s0 cs refl,
        from_zero (λ s. s.disputes_stats.disputed_count) is_disputed (λ s c. (apply_counts s c).2)
            s0 cs refl,
        from_zero (λ s. s.skipped_slots) is_skipped (λ s c. (apply_counts s c).3) s0 cs refl,
        from_zero (λ s. s.slow_avail_count) is_slow (λ s c. (apply_counts s c).4) s0 cs refl,
        from_zero (λ s. s.low_bitfields_count) is_low (λ s c. (apply_counts s c).5) s0 cs refl,
        from_zero (λ s. s.disputes_stats.concluded_valid) (is_concluded valid)
            (λ s c. (apply_counts s c).6) s0 cs refl,
        from_zero (λ s. s.disputes_stats.concluded_invalid) (is_concluded invalid)
            (λ s c. (apply_counts s c).7) s0 cs refl,
        from_zero (λ s. s.disputes_stats.concluded_timed_out) (is_concluded timed_out)
            (λ s c. (apply_counts s c).8) s0 cs refl,
      )
