-- ===== src/Metrics/Tests.antt =====
-- The exporter over two ticks.
use mytunnel.Prelude.{[], ◌∷◌, arith}
use mytunnel.Metrics.{MetricsSnapshot}
use mytunnel.Metrics.Export.{Registry, sync_metrics}
use mytunnel.Metrics.Export.Totals.{Gained, sync_metrics-Gained}

abbrev registry : Registry
registry = record {
  connections_total = 0;
  connections_failed = 0;
  bytes_received = 0;
  bytes_sent = 0;
  packets_received = 0;
  packets_sent = 0;
  streams_opened = 0;
  streams_closed = 0;
  datagrams_received = 0;
  datagrams_sent = 0;
  errors_total = 0;
  timeouts_total = 0;
  gauge_active = 0;
}

abbrev first : MetricsSnapshot
first = record {
  connections_total = 3;
  connections_active = 2;
  connections_failed = 0;
  bytes_received = 100;
  bytes_sent = 7;
  packets_received = 4;
  packets_sent = 1;
  streams_opened = 5;
  streams_closed = 2;
  datagrams_received = 0;
  datagrams_sent = 0;
  errors_total = 0;
  timeouts_total = 0;
}

abbrev second : MetricsSnapshot
second = record first { connections_total = 9; connections_active = 0; bytes_sent = 20 }

sync_metrics-Gained_example :
    Gained registry (sync_metrics registry first (second ∷ second ∷ [])) first second
sync_metrics-Gained_example =
    sync_metrics-Gained registry first (second ∷ second ∷ []) (omega arith)
