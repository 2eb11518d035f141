-- ===== src/Metrics.antt =====
-- src/metrics/counters.rs and the counters of src/metrics/exporter.rs. A counter is a 64-bit atomic:
-- `fetch_add` and `fetch_sub` wrap around. Each method is one step; the global `METRICS` is a value that
-- the model's operations pass along.
pub mod Export
pub mod Api
pub mod Tests
use mytunnel.Prelude.{ℕ, wrapping_add, wrapping_sub}

-- `struct Metrics`
pub record Metrics : Type 0 where
  pub connections_total : ℕ
  pub connections_active : ℕ
  pub connections_failed : ℕ
  pub bytes_received : ℕ
  pub bytes_sent : ℕ
  pub packets_received : ℕ
  pub packets_sent : ℕ
  pub streams_opened : ℕ
  pub streams_closed : ℕ
  pub datagrams_received : ℕ
  pub datagrams_sent : ℕ
  pub errors_total : ℕ
  pub timeouts_total : ℕ
  pub buffer_pool_acquires : ℕ
  pub buffer_pool_releases : ℕ
  pub buffer_pool_misses : ℕ

-- `Metrics::new`
abbrev pub new : Metrics
new = record {
  connections_total = 0;
  connections_active = 0;
  connections_failed = 0;
  bytes_received = 0;
  bytes_sent = 0;
  packets_received = 0;
  packets_sent = 0;
  streams_opened = 0;
  streams_closed = 0;
  datagrams_received = 0;
  datagrams_sent = 0;
  errors_total = 0;
  timeouts_total = 0;
  buffer_pool_acquires = 0;
  buffer_pool_releases = 0;
  buffer_pool_misses = 0;
}

-- `Metrics::connection_opened`
unfoldable pub connection_opened : Metrics → Metrics
unfolding wrapping_add wrapping_sub
connection_opened m = record m {
  connections_total = wrapping_add m.connections_total 1;
  connections_active = wrapping_add m.connections_active 1;
}

-- `Metrics::connection_closed`
unfoldable pub connection_closed : Metrics → Metrics
unfolding wrapping_add wrapping_sub
connection_closed m = record m { connections_active = wrapping_sub m.connections_active 1 }

-- `Metrics::connection_failed`
unfoldable pub connection_failed : Metrics → Metrics
unfolding wrapping_add wrapping_sub
connection_failed m = record m { connections_failed = wrapping_add m.connections_failed 1 }

-- `Metrics::bytes_rx`
unfoldable pub bytes_rx : ℕ → Metrics → Metrics
unfolding wrapping_add wrapping_sub
bytes_rx count m = record m {
  bytes_received = wrapping_add m.bytes_received count;
  packets_received = wrapping_add m.packets_received 1;
}

-- `Metrics::bytes_tx`
unfoldable pub bytes_tx : ℕ → Metrics → Metrics
unfolding wrapping_add wrapping_sub
bytes_tx count m = record m {
  bytes_sent = wrapping_add m.bytes_sent count;
  packets_sent = wrapping_add m.packets_sent 1;
}

-- `Metrics::stream_opened`
unfoldable pub stream_opened : Metrics → Metrics
unfolding wrapping_add wrapping_sub
stream_opened m = record m { streams_opened = wrapping_add m.streams_opened 1 }

-- `Metrics::stream_closed`
unfoldable pub stream_closed : Metrics → Metrics
unfolding wrapping_add wrapping_sub
stream_closed m = record m { streams_closed = wrapping_add m.streams_closed 1 }

-- `Metrics::datagram_rx`
unfoldable pub datagram_rx : Metrics → Metrics
unfolding wrapping_add wrapping_sub
datagram_rx m = record m { datagrams_received = wrapping_add m.datagrams_received 1 }

-- `Metrics::datagram_tx`
unfoldable pub datagram_tx : Metrics → Metrics
unfolding wrapping_add wrapping_sub
datagram_tx m = record m { datagrams_sent = wrapping_add m.datagrams_sent 1 }

-- `Metrics::error`
unfoldable pub error : Metrics → Metrics
unfolding wrapping_add wrapping_sub
error m = record m { errors_total = wrapping_add m.errors_total 1 }

-- `Metrics::timeout`
unfoldable pub timeout : Metrics → Metrics
unfolding wrapping_add wrapping_sub
timeout m = record m { timeouts_total = wrapping_add m.timeouts_total 1 }

-- `Metrics::buffer_acquired`
unfoldable pub buffer_acquired : Metrics → Metrics
unfolding wrapping_add wrapping_sub
buffer_acquired m = record m { buffer_pool_acquires = wrapping_add m.buffer_pool_acquires 1 }

-- `Metrics::buffer_released`
unfoldable pub buffer_released : Metrics → Metrics
unfolding wrapping_add wrapping_sub
buffer_released m = record m { buffer_pool_releases = wrapping_add m.buffer_pool_releases 1 }

-- `Metrics::buffer_miss`
unfoldable pub buffer_miss : Metrics → Metrics
unfolding wrapping_add wrapping_sub
buffer_miss m = record m { buffer_pool_misses = wrapping_add m.buffer_pool_misses 1 }

-- `struct MetricsSnapshot`
pub record MetricsSnapshot : Type 0 where
  pub connections_total : ℕ
  pub connections_active : ℕ
  pub connections_failed : ℕ
  pub bytes_received : ℕ
  pub bytes_sent : ℕ
  pub packets_received : ℕ
  pub packets_sent : ℕ
  pub streams_opened : ℕ
  pub streams_closed : ℕ
  pub datagrams_received : ℕ
  pub datagrams_sent : ℕ
  pub errors_total : ℕ
  pub timeouts_total : ℕ

-- `Metrics::snapshot`
unfoldable pub snapshot : Metrics → MetricsSnapshot
snapshot m = record {
  connections_total = m.connections_total;
  connections_active = m.connections_active;
  connections_failed = m.connections_failed;
  bytes_received = m.bytes_received;
  bytes_sent = m.bytes_sent;
  packets_received = m.packets_received;
  packets_sent = m.packets_sent;
  streams_opened = m.streams_opened;
  streams_closed = m.streams_closed;
  datagrams_received = m.datagrams_received;
  datagrams_sent = m.datagrams_sent;
  errors_total = m.errors_total;
  timeouts_total = m.timeouts_total;
}
