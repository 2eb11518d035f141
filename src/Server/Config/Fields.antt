-- ===== src/Server/Config/Fields.antt =====
-- What each field of the configuration of src/config.rs must be, for the tables of a file: the value that
-- is given, or the default of the field's attribute. The defaults are written out here once more.
use mytunnel.Prelude.{
  ◌≡◌, refl, sym, ap, ◌∙◌, subst, true, false, Option, none, some, text, ok, err, ok_or, ok_or-ok,
  then_ok, unwrap_or,
}
use mytunnel.Server.Config.{
  QuicTable, TlsTable, PoolTable, LoggingTable, LimitsTable, QuicConfig, TlsConfig, PoolConfig,
  LoggingConfig, LimitsConfig, quic_config, tls_config, pool_config, logging_config, limits_config,
}

-- A field has the value that is given, or its default if none is.
abbrev pub Given : {A : Type 0} → Option A → (default value : A) → Type 0
Given none default value = value ≡ default
Given (some a) default value = value ≡ a

pub unwrap_or-Given :
    {A : Type 0} (o : Option A) (default : A) → Given o default (unwrap_or o default)
unwrap_or-Given none default = refl
unwrap_or-Given (some a) default = refl

pub Given-unwrap_or :
    {A : Type 0} (o : Option A) (default value : A)
    → Given o default value
    → unwrap_or o default ≡ value
Given-unwrap_or none default value g = sym g
Given-unwrap_or (some a) default value g = sym g

pub record QuicFields (t : QuicTable) (c : QuicConfig) : Type 0 where
  pub max_connections : Given t.max_connections 100000 c.max_connections
  pub max_streams_per_conn : Given t.max_streams_per_conn 100 c.max_streams_per_conn
  pub idle_timeout_secs : Given t.idle_timeout_secs 30 c.idle_timeout_secs
  pub max_udp_payload : Given t.max_udp_payload 1350 c.max_udp_payload
  pub enable_0rtt : Given t.enable_0rtt true c.enable_0rtt
  pub congestion_control : Given t.congestion_control (text "bbr") c.congestion_control

pub record TlsFields (t : TlsTable) (c : TlsConfig) : Type 0 where
  pub cert_path : t.cert_path ≡ some c.cert_path
  pub key_path : t.key_path ≡ some c.key_path
  pub auto_generate : Given t.auto_generate false c.auto_generate

pub record PoolFields (t : PoolTable) (c : PoolConfig) : Type 0 where
  pub buffer_count_4k : Given t.buffer_count_4k 16384 c.buffer_count_4k
  pub buffer_count_16k : Given t.buffer_count_16k 4096 c.buffer_count_16k
  pub buffer_count_64k : Given t.buffer_count_64k 1024 c.buffer_count_64k
  pub connection_slots : Given t.connection_slots 100000 c.connection_slots

pub record LoggingFields (t : LoggingTable) (c : LoggingConfig) : Type 0 where
  pub level : Given t.level (text "info") c.level
  pub format : Given t.format (text "json") c.format

-- Without the table the limits are 0; in a table, new connections per second default to 10000.
abbrev pub LimitsFields : Option LimitsTable → LimitsConfig → Type 0
LimitsFields none c =
    (c.max_bandwidth_per_conn ≡ 0) × (c.max_new_conn_per_sec ≡ 0) × (c.max_memory_mb ≡ 0)
LimitsFields (some t) c =
    Given t.max_bandwidth_per_conn 0 c.max_bandwidth_per_conn
    × Given t.max_new_conn_per_sec 10000 c.max_new_conn_per_sec
    × Given t.max_memory_mb 0 c.max_memory_mb

pub quic_fields : (t : QuicTable) → QuicFields t (quic_config t)
unfolding quic_config
quic_fields t = record {
  max_connections = unwrap_or-Given t.max_connections _;
  max_streams_per_conn = unwrap_or-Given t.max_streams_per_conn _;
  idle_timeout_secs = unwrap_or-Given t.idle_timeout_secs _;
  max_udp_payload = unwrap_or-Given t.max_udp_payload _;
  enable_0rtt = unwrap_or-Given t.enable_0rtt _;
  congestion_control = unwrap_or-Given t.congestion_control _;
}

pub fields_quic : (t : QuicTable) (c : QuicConfig) → QuicFields t c → quic_config t ≡ c
unfolding quic_config
fields_quic t c g = λ i. record {
  max_connections = Given-unwrap_or t.max_connections _ _ g.max_connections i;
  max_streams_per_conn = Given-unwrap_or t.max_streams_per_conn _ _ g.max_streams_per_conn i;
  idle_timeout_secs = Given-unwrap_or t.idle_timeout_secs _ _ g.idle_timeout_secs i;
  max_udp_payload = Given-unwrap_or t.max_udp_payload _ _ g.max_udp_payload i;
  enable_0rtt = Given-unwrap_or t.enable_0rtt _ _ g.enable_0rtt i;
  congestion_control = Given-unwrap_or t.congestion_control _ _ g.congestion_control i;
}

pub tls_fields : (t : TlsTable) (c : TlsConfig) → tls_config t ≡ ok c → TlsFields t c
unfolding tls_config
tls_fields t c e =
    let (cert, e₁, rest) = then_ok (ok_or t.cert_path _) _ c e in
    let (key, e₂, made) = then_ok (ok_or t.key_path _) _ c rest in
    let cert' : cert ≡ c.cert_path = ap (λ r. elim r [ ok d ↦ d.cert_path | err d ↦ cert ]) made in
    let key' : key ≡ c.key_path = ap (λ r. elim r [ ok d ↦ d.key_path | err d ↦ key ]) made in
    let auto : unwrap_or t.auto_generate false ≡ c.auto_generate =
      ap (λ r. elim r [ ok d ↦ d.auto_generate | err d ↦ unwrap_or t.auto_generate false ]) made in
    record {
      cert_path = ok_or-ok t.cert_path _ cert e₁ ∙ ap some cert';
      key_path = ok_or-ok t.key_path _ key e₂ ∙ ap some key';
      auto_generate =
          subst (Given t.auto_generate false) auto (unwrap_or-Given t.auto_generate false);
    }

pub fields_tls : (t : TlsTable) (c : TlsConfig) → TlsFields t c → tls_config t ≡ ok c
unfolding tls_config
fields_tls t c g =
    rw (g.cert_path, g.key_path)
      (λ i. ok (record {
        cert_path = c.cert_path;
        key_path = c.key_path;
        auto_generate = Given-unwrap_or t.auto_generate _ _ g.auto_generate i;
      }))

pub pool_fields : (t : PoolTable) → PoolFields t (pool_config t)
unfolding pool_config
pool_fields t = record {
  buffer_count_4k = unwrap_or-Given t.buffer_count_4k _;
  buffer_count_16k = unwrap_or-Given t.buffer_count_16k _;
  buffer_count_64k = unwrap_or-Given t.buffer_count_64k _;
  connection_slots = unwrap_or-Given t.connection_slots _;
}

pub fields_pool : (t : PoolTable) (c : PoolConfig) → PoolFields t c → pool_config t ≡ c
unfolding pool_config
fields_pool t c g = λ i. record {
  buffer_count_4k = Given-unwrap_or t.buffer_count_4k _ _ g.buffer_count_4k i;
  buffer_count_16k = Given-unwrap_or t.buffer_count_16k _ _ g.buffer_count_16k i;
  buffer_count_64k = Given-unwrap_or t.buffer_count_64k _ _ g.buffer_count_64k i;
  connection_slots = Given-unwrap_or t.connection_slots _ _ g.connection_slots i;
}

pub logging_fields : (t : LoggingTable) → LoggingFields t (logging_config t)
unfolding logging_config
logging_fields t = record { level = unwrap_or-Given t.level _; format = unwrap_or-Given t.format _ }

pub fields_logging :
    (t : LoggingTable) (c : LoggingConfig) → LoggingFields t c → logging_config t ≡ c
unfolding logging_config
fields_logging t c g = λ i. record {
  level = Given-unwrap_or t.level _ _ g.level i;
  format = Given-unwrap_or t.format _ _ g.format i;
}

pub limits_fields : (o : Option LimitsTable) → LimitsFields o (limits_config o)
unfolding limits_config
limits_fields none = (refl, refl, refl)
limits_fields (some t) = (
  unwrap_or-Given t.max_bandwidth_per_conn 0,
  unwrap_or-Given t.max_new_conn_per_sec 10000,
  unwrap_or-Given t.max_memory_mb 0,
)

pub fields_limits :
    (o : Option LimitsTable) (c : LimitsConfig) → LimitsFields o c → limits_config o ≡ c
unfolding limits_config
fields_limits none c (a, b, d) = λ i. record {
  max_bandwidth_per_conn = sym a i;
  max_new_conn_per_sec = sym b i;
  max_memory_mb = sym d i;
}
fields_limits (some t) c (a, b, d) = λ i. record {
  max_bandwidth_per_conn = Given-unwrap_or t.max_bandwidth_per_conn _ _ a i;
  max_new_conn_per_sec = Given-unwrap_or t.max_new_conn_per_sec _ _ b i;
  max_memory_mb = Given-unwrap_or t.max_memory_mb _ _ d i;
}
