-- ===== src/Server/Config.antt =====
-- src/config.rs: the configuration of the server. A file is the text that `read_to_string` returns; the
-- toml crate turns it into tables, whose fields are options here, and the `#[serde(default)]` attributes
-- say what stands for a missing field. Durations are numbers of milliseconds for the server, of seconds
-- in the file.
pub mod Fields
pub mod Deserialized
pub mod Loaded
pub mod Tests
use mytunnel.Prelude.{
  if◌then◌else◌, ℕ, ◌*◌, ◌/◌, Bool, true, false, Option, none, some, Text, text, Result, ok, ◌>>=◌,
  ◌>>◌, bail_if, ok_or, unwrap_or, ◌==◌,
}
use mytunnel.Connection.{ConnectionManagerConfig}

pub data Error : Type 0 where
  unreadable unparsable missing_field : Error
  zero_max_connections zero_max_streams_per_conn zero_idle_timeout_secs zero_connection_slots :
      Error

-- The tables of a file, as they are written.
pub record QuicTable : Type 0 where
  pub max_connections : Option ℕ
  pub max_streams_per_conn : Option ℕ
  pub idle_timeout_secs : Option ℕ
  pub max_udp_payload : Option ℕ
  pub enable_0rtt : Option Bool
  pub congestion_control : Option Text

pub record TlsTable : Type 0 where
  pub cert_path : Option Text
  pub key_path : Option Text
  pub auto_generate : Option Bool

pub record PoolTable : Type 0 where
  pub buffer_count_4k : Option ℕ
  pub buffer_count_16k : Option ℕ
  pub buffer_count_64k : Option ℕ
  pub connection_slots : Option ℕ

pub record LoggingTable : Type 0 where
  pub level : Option Text
  pub format : Option Text

pub record LimitsTable : Type 0 where
  pub max_bandwidth_per_conn : Option ℕ
  pub max_new_conn_per_sec : Option ℕ
  pub max_memory_mb : Option ℕ

module _ (Addr : Type 0) where
  pub record ServerTable : Type 0 where
    pub bind_addr : Option Addr
    pub workers : Option ℕ

  pub record MetricsTable : Type 0 where
    pub enabled : Option Bool
    pub bind_addr : Option Addr
    pub api_bind_addr : Option Addr

  pub record Tables : Type 0 where
    pub server : Option ServerTable
    pub quic : Option QuicTable
    pub tls : Option TlsTable
    pub pool : Option PoolTable
    pub metrics : Option MetricsTable
    pub logging : Option LoggingTable
    pub limits : Option LimitsTable

-- The structures of the configuration.
pub record QuicConfig : Type 0 where
  pub max_connections : ℕ
  pub max_streams_per_conn : ℕ
  pub idle_timeout_secs : ℕ
  pub max_udp_payload : ℕ
  pub enable_0rtt : Bool
  pub congestion_control : Text

pub record TlsConfig : Type 0 where
  pub cert_path : Text
  pub key_path : Text
  pub auto_generate : Bool

pub record PoolConfig : Type 0 where
  pub buffer_count_4k : ℕ
  pub buffer_count_16k : ℕ
  pub buffer_count_64k : ℕ
  pub connection_slots : ℕ

pub record LoggingConfig : Type 0 where
  pub level : Text
  pub format : Text

pub record LimitsConfig : Type 0 where
  pub max_bandwidth_per_conn : ℕ
  pub max_new_conn_per_sec : ℕ
  pub max_memory_mb : ℕ

module _ (Addr : Type 0) where
  pub record ServerConfig : Type 0 where
    pub bind_addr : Addr
    pub workers : ℕ

  pub record MetricsConfig : Type 0 where
    pub enabled : Bool
    pub bind_addr : Addr
    pub api_bind_addr : Addr

  pub record Config : Type 0 where
    pub server : ServerConfig
    pub quic : QuicConfig
    pub tls : TlsConfig
    pub pool : PoolConfig
    pub metrics : MetricsConfig
    pub logging : LoggingConfig
    pub limits : LimitsConfig

-- `ServerConfig::effective_workers`; `num_cpus` is what the crate of that name counts.
unfoldable pub effective_workers : {Addr : Type 0} → (num_cpus : ℕ) → ServerConfig Addr → ℕ
effective_workers num_cpus c = if c.workers == 0 then num_cpus else c.workers

unfoldable pub quic_config : QuicTable → QuicConfig
quic_config t = record {
  max_connections = unwrap_or t.max_connections 100000;
  max_streams_per_conn = unwrap_or t.max_streams_per_conn 100;
  idle_timeout_secs = unwrap_or t.idle_timeout_secs 30;
  max_udp_payload = unwrap_or t.max_udp_payload 1350;
  enable_0rtt = unwrap_or t.enable_0rtt true;
  congestion_control = unwrap_or t.congestion_control (text "bbr");
}

pub tls_config : TlsTable → Result Error TlsConfig
tls_config t = ok_or t.cert_path missing_field >>= λ cert_path.
    ok_or t.key_path missing_field >>= λ key_path. ok (record {
      cert_path = cert_path;
      key_path = key_path;
      auto_generate = unwrap_or t.auto_generate false;
    })

unfoldable pub pool_config : PoolTable → PoolConfig
pool_config t = record {
  buffer_count_4k = unwrap_or t.buffer_count_4k 16384;
  buffer_count_16k = unwrap_or t.buffer_count_16k 4096;
  buffer_count_64k = unwrap_or t.buffer_count_64k 1024;
  connection_slots = unwrap_or t.connection_slots 100000;
}

pub logging_config : LoggingTable → LoggingConfig
logging_config t = record {
  level = unwrap_or t.level (text "info");
  format = unwrap_or t.format (text "json");
}

-- A missing table is `LimitsConfig::default()`, which the derive makes of zeros.
unfoldable pub limits_config : Option LimitsTable → LimitsConfig
limits_config none = record {
  max_bandwidth_per_conn = 0;
  max_new_conn_per_sec = 0;
  max_memory_mb = 0;
}
limits_config (some t) = record {
  max_bandwidth_per_conn = unwrap_or t.max_bandwidth_per_conn 0;
  max_new_conn_per_sec = unwrap_or t.max_new_conn_per_sec 10000;
  max_memory_mb = unwrap_or t.max_memory_mb 0;
}

module _ {Addr : Type 0} where
  -- `Config::validate`
  unfoldable pub validate : Config Addr → Result Error (Unit {0})
  validate c =
      bail_if (c.quic.max_connections == 0) zero_max_connections
      >> bail_if (c.quic.max_streams_per_conn == 0) zero_max_streams_per_conn
      >> bail_if (c.quic.idle_timeout_secs == 0) zero_idle_timeout_secs
      >> bail_if (c.pool.connection_slots == 0) zero_connection_slots
      >> ok tt

  -- `loopback` gives the address that "127.0.0.1" with a port is parsed to.
  module _ (loopback : ℕ → Addr) where
    pub metrics_config : MetricsTable Addr → MetricsConfig Addr
    metrics_config t = record {
      enabled = unwrap_or t.enabled false;
      bind_addr = unwrap_or t.bind_addr (loopback 9090);
      api_bind_addr = unwrap_or t.api_bind_addr (loopback 9091);
    }

    pub server_config : ServerTable Addr → Result Error (ServerConfig Addr)
    server_config t = ok_or t.bind_addr missing_field >>= λ bind_addr.
        ok (record { bind_addr = bind_addr; workers = unwrap_or t.workers 0 })

    -- What the derived `Deserialize` makes of the tables.
    unfoldable pub deserialize : Tables Addr → Result Error (Config Addr)
    unfolding tls_config logging_config metrics_config server_config
    deserialize t = (ok_or t.server missing_field >>= server_config) >>= λ server.
        ok_or t.quic missing_field >>= λ quic. (ok_or t.tls missing_field >>= tls_config) >>= λ tls.
        ok_or t.pool missing_field >>= λ pool. ok_or t.metrics missing_field >>= λ metrics.
        ok_or t.logging missing_field >>= λ logging. ok (record {
          server = server;
          quic = quic_config quic;
          tls = tls;
          pool = pool_config pool;
          metrics = metrics_config metrics;
          logging = logging_config logging;
          limits = limits_config t.limits;
        })

    -- `Config::load`; `parse` is the toml crate, with the types and ranges of the fields.
    unfoldable pub load :
        (parse : Text → Option (Tables Addr)) → Option Text → Result Error (Config Addr)
    load parse file = ok_or file unreadable >>= λ contents.
        ok_or (parse contents) unparsable >>= λ tables.
        deserialize tables >>= λ config. validate config >> ok config

  -- What `Server::new` makes of it for the connection manager, and the interval of the cleanup task in seconds.
  abbrev pub manager_config : Config Addr → ConnectionManagerConfig
  manager_config c = record {
    max_connections = c.pool.connection_slots;
    idle_timeout = c.quic.idle_timeout_secs * 1000;
  }

  abbrev pub cleanup_interval : Config Addr → ℕ
  cleanup_interval c = c.quic.idle_timeout_secs / 2
