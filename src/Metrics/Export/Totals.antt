-- ===== src/Metrics/Export/Totals.antt =====
-- What the exporter's counters add up to over any number of ticks.
use mytunnel.Prelude.{ℕ, ◌+◌, ◌≤◌, ◌≡◌, arith, saturating_sub, List, [], ◌∷◌}
use mytunnel.Metrics.{MetricsSnapshot}
use mytunnel.Metrics.Export.{Registry, increment_by_delta, sync_tick, sync_metrics}

-- No counter falls from one snapshot to the other. (The gauge may.)
pub record Grows (a b : MetricsSnapshot) : Type 0 where
  pub connections_total : a.connections_total ≤ b.connections_total
  pub connections_failed : a.connections_failed ≤ b.connections_failed
  pub bytes_received : a.bytes_received ≤ b.bytes_received
  pub bytes_sent : a.bytes_sent ≤ b.bytes_sent
  pub packets_received : a.packets_received ≤ b.packets_received
  pub packets_sent : a.packets_sent ≤ b.packets_sent
  pub streams_opened : a.streams_opened ≤ b.streams_opened
  pub streams_closed : a.streams_closed ≤ b.streams_closed
  pub datagrams_received : a.datagrams_received ≤ b.datagrams_received
  pub datagrams_sent : a.datagrams_sent ≤ b.datagrams_sent
  pub errors_total : a.errors_total ≤ b.errors_total
  pub timeouts_total : a.timeouts_total ≤ b.timeouts_total

-- Each snapshot has grown from the one before.
abbrev pub GrowsAlong : MetricsSnapshot → List MetricsSnapshot → Type 0
GrowsAlong last [] = Unit {0}
GrowsAlong last (s ∷ rest) = Grows last s × GrowsAlong s rest

abbrev pub final : MetricsSnapshot → List MetricsSnapshot → MetricsSnapshot
final last [] = last
final last (s ∷ rest) = final s rest

-- What every exported counter has gained is what its source has gained between two snapshots.
pub record Gained (r r' : Registry) (last s : MetricsSnapshot) : Type 0 where
  pub connections_total :
      r'.connections_total + last.connections_total ≡ r.connections_total + s.connections_total
  pub connections_failed :
      r'.connections_failed + last.connections_failed ≡ r.connections_failed + s.connections_failed
  pub bytes_received : r'.bytes_received + last.bytes_received ≡ r.bytes_received + s.bytes_received
  pub bytes_sent : r'.bytes_sent + last.bytes_sent ≡ r.bytes_sent + s.bytes_sent
  pub packets_received :
      r'.packets_received + last.packets_received ≡ r.packets_received + s.packets_received
  pub packets_sent : r'.packets_sent + last.packets_sent ≡ r.packets_sent + s.packets_sent
  pub streams_opened : r'.streams_opened + last.streams_opened ≡ r.streams_opened + s.streams_opened
  pub streams_closed : r'.streams_closed + last.streams_closed ≡ r.streams_closed + s.streams_closed
  pub datagrams_received :
      r'.datagrams_received + last.datagrams_received ≡ r.datagrams_received + s.datagrams_received
  pub datagrams_sent : r'.datagrams_sent + last.datagrams_sent ≡ r.datagrams_sent + s.datagrams_sent
  pub errors_total : r'.errors_total + last.errors_total ≡ r.errors_total + s.errors_total
  pub timeouts_total : r'.timeouts_total + last.timeouts_total ≡ r.timeouts_total + s.timeouts_total

increment_by_delta_lem :
    (exported current last : ℕ)
    → last ≤ current
    → increment_by_delta exported current last + last ≡ exported + current
unfolding saturating_sub
increment_by_delta_lem exported current last h = ground arith

sync_tick-Gained :
    (r : Registry) (last s : MetricsSnapshot) → Grows last s → Gained r (sync_tick r last s) last s
unfolding sync_tick
sync_tick-Gained r last s g = record {
  connections_total =
      increment_by_delta_lem r.connections_total s.connections_total last.connections_total
        g.connections_total;
  connections_failed =
      increment_by_delta_lem r.connections_failed s.connections_failed last.connections_failed
        g.connections_failed;
  bytes_received =
      increment_by_delta_lem r.bytes_received s.bytes_received last.bytes_received g.bytes_received;
  bytes_sent = increment_by_delta_lem r.bytes_sent s.bytes_sent last.bytes_sent g.bytes_sent;
  packets_received =
      increment_by_delta_lem r.packets_received s.packets_received last.packets_received
        g.packets_received;
  packets_sent =
      increment_by_delta_lem r.packets_sent s.packets_sent last.packets_sent g.packets_sent;
  streams_opened =
      increment_by_delta_lem r.streams_opened s.streams_opened last.streams_opened g.streams_opened;
  streams_closed =
      increment_by_delta_lem r.streams_closed s.streams_closed last.streams_closed g.streams_closed;
  datagrams_received =
      increment_by_delta_lem r.datagrams_received s.datagrams_received last.datagrams_received
        g.datagrams_received;
  datagrams_sent =
      increment_by_delta_lem r.datagrams_sent s.datagrams_sent last.datagrams_sent g.datagrams_sent;
  errors_total =
      increment_by_delta_lem r.errors_total s.errors_total last.errors_total g.errors_total;
  timeouts_total =
      increment_by_delta_lem r.timeouts_total s.timeouts_total last.timeouts_total g.timeouts_total;
}

Gained-trans :
    {r r' r'' : Registry} {a b c : MetricsSnapshot}
    → Gained r r' a b
    → Gained r' r'' b c
    → Gained r r'' a c
Gained-trans g h = record {
  connections_total = omega (arith, g.connections_total, h.connections_total);
  connections_failed = omega (arith, g.connections_failed, h.connections_failed);
  bytes_received = omega (arith, g.bytes_received, h.bytes_received);
  bytes_sent = omega (arith, g.bytes_sent, h.bytes_sent);
  packets_received = omega (arith, g.packets_received, h.packets_received);
  packets_sent = omega (arith, g.packets_sent, h.packets_sent);
  streams_opened = omega (arith, g.streams_opened, h.streams_opened);
  streams_closed = omega (arith, g.streams_closed, h.streams_closed);
  datagrams_received = omega (arith, g.datagrams_received, h.datagrams_received);
  datagrams_sent = omega (arith, g.datagrams_sent, h.datagrams_sent);
  errors_total = omega (arith, g.errors_total, h.errors_total);
  timeouts_total = omega (arith, g.timeouts_total, h.timeouts_total);
}

-- Over any ticks between which no counter falls, every exported counter gains exactly what its source
-- has gained since the snapshot before the first tick.
pub sync_metrics-Gained :
    (r : Registry) (last : MetricsSnapshot) (ticks : List MetricsSnapshot)
    → GrowsAlong last ticks
    → Gained r (sync_metrics r last ticks) last (final last ticks)
unfolding sync_metrics
sync_metrics-Gained r last [] h = omega arith
sync_metrics-Gained r last (s ∷ rest) h =
    Gained-trans (sync_tick-Gained r last s h.0)
      (sync_metrics-Gained (sync_tick r last s) s rest h.1)
