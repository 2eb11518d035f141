-- ===== src/Client/Config.antt =====
-- mytunnel-client/src/config.rs: the configuration of the client. A file is the text that
-- `read_to_string` returns; the toml crate turns it into tables, whose fields are options here, and the
-- `#[serde(default)]` attributes say what stands for a missing field or table.
use mytunnel.Prelude.{
  ℕ, Bool, true, false, Option, none, some, [], ◌∷◌, Text, text, Result, ok, ◌>>=◌, ◌>>◌, bail_if,
  ok_or, unwrap_or, ◌==◌, split_last,
}

pub data Error : Type 0 where
  unreadable unparsable missing_field empty_address zero_idle_timeout_secs zero_max_streams : Error

pub record ServerTable : Type 0 where
  pub address : Option Text
  pub server_name : Option Text
  pub insecure : Option Bool

pub record QuicTable : Type 0 where
  pub idle_timeout_secs : Option ℕ
  pub enable_0rtt : Option Bool
  pub max_streams : Option ℕ

pub record LoggingTable : Type 0 where
  pub level : Option Text
  pub format : Option Text

module _ (Addr : Type 0) where
  pub record ProxyTable : Type 0 where
    pub socks5_bind : Option Addr
    pub http_bind : Option Addr
    pub socks5_enabled : Option Bool
    pub http_enabled : Option Bool

  pub record Tables : Type 0 where
    pub server : Option ServerTable
    pub proxy : Option ProxyTable
    pub quic : Option QuicTable
    pub logging : Option LoggingTable

pub record ServerConfig : Type 0 where
  pub address : Text
  pub server_name : Option Text
  pub insecure : Bool

pub record QuicConfig : Type 0 where
  pub idle_timeout_secs : ℕ
  pub enable_0rtt : Bool
  pub max_streams : ℕ

pub record LoggingConfig : Type 0 where
  pub level : Text
  pub format : Text

module _ (Addr : Type 0) where
  pub record ProxyConfig : Type 0 where
    pub socks5_bind : Addr
    pub http_bind : Addr
    pub socks5_enabled : Bool
    pub http_enabled : Bool

  pub record Config : Type 0 where
    pub server : ServerConfig
    pub proxy : ProxyConfig
    pub quic : QuicConfig
    pub logging : LoggingConfig

-- `ServerConfig::get_server_name`
unfoldable pub get_server_name : ServerConfig → Text
get_server_name c =
    unwrap_or c.server_name
      (elim (split_last 58 c.address) [ none ↦ c.address | some (host, port) ↦ host ])

-- `QuicConfig::default` and `LoggingConfig::default`
abbrev pub default_quic : QuicConfig
default_quic = record { idle_timeout_secs = 30; enable_0rtt = true; max_streams = 100 }

abbrev pub default_logging : LoggingConfig
default_logging = record { level = text "info"; format = text "pretty" }

server_config : ServerTable → Result Error ServerConfig
server_config t = ok_or t.address missing_field >>= λ address. ok (record {
  address = address;
  server_name = t.server_name;
  insecure = unwrap_or t.insecure false;
})

unfoldable pub quic_config : Option QuicTable → QuicConfig
quic_config none = default_quic
quic_config (some t) = record {
  idle_timeout_secs = unwrap_or t.idle_timeout_secs 30;
  enable_0rtt = unwrap_or t.enable_0rtt true;
  max_streams = unwrap_or t.max_streams 100;
}

logging_config : Option LoggingTable → LoggingConfig
logging_config none = default_logging
logging_config (some t) = record {
  level = unwrap_or t.level (text "info");
  format = unwrap_or t.format (text "pretty");
}

-- `String::is_empty`
abbrev is_empty : Text → Bool
is_empty [] = true
is_empty (c ∷ s) = false

module _ {Addr : Type 0} where
  -- `Config::validate`
  unfoldable pub validate : Config Addr → Result Error (Unit {0})
  validate c =
      bail_if (is_empty c.server.address) empty_address
      >> bail_if (c.quic.idle_timeout_secs == 0) zero_idle_timeout_secs
      >> bail_if (c.quic.max_streams == 0) zero_max_streams
      >> ok tt

  -- `loopback` gives the address that "127.0.0.1" with a port is parsed to.
  module _ (loopback : ℕ → Addr) where
    proxy_config : ProxyTable Addr → ProxyConfig Addr
    proxy_config t = record {
      socks5_bind = unwrap_or t.socks5_bind (loopback 1080);
      http_bind = unwrap_or t.http_bind (loopback 8080);
      socks5_enabled = unwrap_or t.socks5_enabled true;
      http_enabled = unwrap_or t.http_enabled true;
    }

    -- What the derived `Deserialize` makes of the tables.
    unfoldable pub deserialize : Tables Addr → Result Error (Config Addr)
    unfolding server_config proxy_config logging_config
    deserialize t = (ok_or t.server missing_field >>= server_config) >>= λ server.
        ok_or t.proxy missing_field >>= λ proxy. ok (record {
          server = server;
          proxy = proxy_config proxy;
          quic = quic_config t.quic;
          logging = logging_config t.logging;
        })

    -- `Config::load`; `parse` is the toml crate, with the types and ranges of the fields.
    unfoldable pub load :
        (parse : Text → Option (Tables Addr)) → Option Text → Result Error (Config Addr)
    load parse file = ok_or file unreadable >>= λ contents.
        ok_or (parse contents) unparsable >>= λ tables.
        deserialize tables >>= λ config. validate config >> ok config
