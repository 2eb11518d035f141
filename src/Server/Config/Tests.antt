-- ===== src/Server/Config/Tests.antt =====
-- The server's configuration from concrete tables.
use mytunnel.Prelude.{ℕ, ◌≡◌, refl, false, ◌↔◌, Option, none, some, Text, text, [], ok, err}
use mytunnel.Connection.{new, is_full}
use mytunnel.Connection.Tests.{handles}
use mytunnel.Server.Config.{
  Tables, Config, effective_workers, quic_config, pool_config, limits_config, validate, deserialize,
  load, manager_config, cleanup_interval, zero_idle_timeout_secs,
}
use mytunnel.Server.Config.Loaded.{Loads, load_lem, load-starts}

-- A file that gives what has no default, and an idle timeout; an address is its port.
abbrev tables : (idle_timeout_secs : Option ℕ) → Tables ℕ
tables idle = record {
  server = some (record { bind_addr = some 443; workers = none });
  quic = some (record {
    max_connections = none;
    max_streams_per_conn = none;
    idle_timeout_secs = idle;
    max_udp_payload = none;
    enable_0rtt = some false;
    congestion_control = none;
  });
  tls =
      some
        (record { cert_path = some (text "c"); key_path = some (text "k"); auto_generate = none });
  pool = some (record {
    buffer_count_4k = none;
    buffer_count_16k = none;
    buffer_count_64k = none;
    connection_slots = some 64;
  });
  metrics = some (record { enabled = none; bind_addr = none; api_bind_addr = none });
  logging = some (record { level = none; format = none });
  limits = none;
}

abbrev port : ℕ → ℕ
port n = n

abbrev parse : Option ℕ → Text → Option (Tables ℕ)
parse idle contents = some (tables idle)

abbrev defaults : Config ℕ
defaults = record {
  server = record { bind_addr = 443; workers = 0 };
  quic = record {
    max_connections = 100000;
    max_streams_per_conn = 100;
    idle_timeout_secs = 1;
    max_udp_payload = 1350;
    enable_0rtt = false;
    congestion_control = text "bbr";
  };
  tls = record { cert_path = text "c"; key_path = text "k"; auto_generate = false };
  pool = record {
    buffer_count_4k = 16384;
    buffer_count_16k = 4096;
    buffer_count_64k = 1024;
    connection_slots = 64;
  };
  metrics = record { enabled = false; bind_addr = 9090; api_bind_addr = 9091 };
  logging = record { level = text "info"; format = text "json" };
  limits = record { max_bandwidth_per_conn = 0; max_new_conn_per_sec = 0; max_memory_mb = 0 };
}

loaded : load port (parse (some 1)) (some []) ≡ ok defaults
unfolding load deserialize quic_config pool_config limits_config validate
loaded = refl

zero_timeout : load port (parse (some 0)) (some []) ≡ err zero_idle_timeout_secs
unfolding load deserialize quic_config pool_config limits_config validate
zero_timeout = refl

load_lem_example :
    (load port (parse (some 1)) (some []) ≡ ok defaults)
    ↔ Loads port (parse (some 1)) (some []) defaults
load_lem_example = load_lem port (parse (some 1)) (some []) defaults

load-starts_example :
    (is_full (new ℕ handles (manager_config defaults)) ≡ false)
    × ((cleanup_interval defaults ≡ 0) ↔ (defaults.quic.idle_timeout_secs ≡ 1))
load-starts_example = load-starts port (parse (some 1)) handles (some []) defaults loaded

workers : effective_workers 8 defaults.server ≡ 8
unfolding effective_workers
workers = refl
