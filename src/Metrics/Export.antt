-- ===== src/Metrics/Export.antt =====
-- The background task of src/metrics/exporter.rs that copies the counters to the Prometheus registry:
-- each tick adds what a counter has grown by since the last tick. The registry (the crate `metrics`) is
-- the values of its counters, which `increment` adds to, and of its gauge, which `set` overwrites.
pub mod Totals
use mytunnel.Prelude.{ℕ, ◌+◌, List, [], ◌∷◌, ltb, if◌then◌else◌, saturating_sub}
use mytunnel.Metrics.{MetricsSnapshot}

-- The registered metrics, by the names under which they are exported without their prefix.
pub record Registry : Type 0 where
  pub connections_total : ℕ
  pub connections_failed : ℕ
  pub bytes_received : ℕ
  pub bytes_sent : ℕ
  pub packets_received : ℕ
  pub packets_sent : ℕ
  pub streams_opened : ℕ
  pub streams_closed : ℕ
  pub datagrams_received : ℕ
  pub datagrams_sent : ℕ
  pub errors_total : ℕ
  pub timeouts_total : ℕ
  pub gauge_active : ℕ

-- `if delta > 0 { counter!(..).increment(delta) }`
abbrev increment_by_delta : ℕ → ℕ → ℕ → ℕ
unfolding saturating_sub
increment_by_delta exported current last =
    let delta = saturating_sub current last in if ltb 0 delta then exported + delta else exported

-- One round of the loop of `sync_metrics_task`, from the last snapshot and the current one.
unfoldable pub sync_tick : Registry → MetricsSnapshot → MetricsSnapshot → Registry
unfolding saturating_sub
sync_tick r last s = record {
  connections_total =
      increment_by_delta r.connections_total s.connections_total last.connections_total;
  connections_failed =
      increment_by_delta r.connections_failed s.connections_failed last.connections_failed;
  bytes_received = increment_by_delta r.bytes_received s.bytes_received last.bytes_received;
  bytes_sent = increment_by_delta r.bytes_sent s.bytes_sent last.bytes_sent;
  packets_received = increment_by_delta r.packets_received s.packets_received last.packets_received;
  packets_sent = increment_by_delta r.packets_sent s.packets_sent last.packets_sent;
  streams_opened = increment_by_delta r.streams_opened s.streams_opened last.streams_opened;
  streams_closed = increment_by_delta r.streams_closed s.streams_closed last.streams_closed;
  datagrams_received =
      increment_by_delta r.datagrams_received s.datagrams_received last.datagrams_received;
  datagrams_sent = increment_by_delta r.datagrams_sent s.datagrams_sent last.datagrams_sent;
  errors_total = increment_by_delta r.errors_total s.errors_total last.errors_total;
  timeouts_total = increment_by_delta r.timeouts_total s.timeouts_total last.timeouts_total;
  gauge_active = s.connections_active;
}

-- The loop of `sync_metrics_task` over the snapshots that its ticks take.
unfoldable pub sync_metrics : Registry → MetricsSnapshot → List MetricsSnapshot → Registry
sync_metrics r last [] = r
sync_metrics r last (s ∷ rest) = sync_metrics (sync_tick r last s) s rest
