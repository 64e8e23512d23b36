-- ===== src/Tracker/Calls.antt =====
-- The calls that `progress` makes of the statistics (the trait `Stats` of
-- parachain-tracer/src/stats.rs) and of the metrics (the trait `PrometheusMetrics` of
-- parachain-tracer/src/prometheus.rs), in the order in which they are made.
use polkadot_introspector.Prelude.{ℕ, Bool, Option, List}
use polkadot_introspector.Tracker.Types.{DisputesTracker, ParachainProgressUpdate}

pub data StatsCall : Type 0 where
  on_backed : StatsCall
  on_included : ℕ → Option ℕ → Option ℕ → StatsCall
  on_disputed : DisputesTracker → StatsCall
  on_block : ℕ → StatsCall
  on_bitfields : ℕ → Bool → StatsCall
  on_slow_availability : StatsCall
  on_skipped_slot : ParachainProgressUpdate → StatsCall

pub data MetricsCall : Type 0 where
  on_backed : ℕ → MetricsCall
  on_included : ℕ → Option ℕ → Option ℕ → Option ℕ → ℕ → MetricsCall
  on_disputed : DisputesTracker → ℕ → MetricsCall
  on_bitfields : ℕ → Bool → ℕ → MetricsCall
  on_slow_availability : ℕ → MetricsCall
  on_skipped_slot : ParachainProgressUpdate → MetricsCall
  on_finality_lag : ℕ → MetricsCall

-- What `progress` has produced so far.
pub record Journal : Type 0 where
  pub update : ParachainProgressUpdate
  pub stats : List StatsCall
  pub metrics : List MetricsCall
