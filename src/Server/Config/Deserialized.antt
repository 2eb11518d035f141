-- ===== src/Server/Config/Deserialized.antt =====
-- What the derived `Deserialize` of src/config.rs makes of the tables of a file.
use mytunnel.Prelude.{
  ℕ, ◌≡◌, ap, ◌∙◌, subst, false, some, ok, err, ◌>>=◌, ok_or, ok_or-ok, then_ok, unwrap_or,
}
use mytunnel.Server.Config.{
  QuicTable, TlsTable, PoolTable, LoggingTable, ServerTable, MetricsTable, Tables, ServerConfig,
  MetricsConfig, Config, tls_config, metrics_config, server_config, deserialize,
}
use mytunnel.Server.Config.Fields.{
  Given, unwrap_or-Given, Given-unwrap_or, QuicFields, TlsFields, PoolFields, LoggingFields,
  LimitsFields, quic_fields, fields_quic, tls_fields, fields_tls, pool_fields, fields_pool,
  logging_fields, fields_logging, limits_fields, fields_limits,
}

module _ {Addr : Type 0} where
  pub record ServerFields (t : ServerTable Addr) (c : ServerConfig Addr) : Type 0 where
    pub bind_addr : t.bind_addr ≡ some c.bind_addr
    pub workers : Given t.workers 0 c.workers

  server_fields :
      (t : ServerTable Addr) (c : ServerConfig Addr) (loopback : ℕ → Addr)
      → server_config loopback t ≡ ok c
      → ServerFields t c
  unfolding server_config
  server_fields t c loopback e =
      let (addr, e₁, made) = then_ok (ok_or t.bind_addr _) _ c e in
      let addr' : addr ≡ c.bind_addr =
        ap (λ r. elim r [ ok d ↦ d.bind_addr | err d ↦ addr ]) made in
      let workers : unwrap_or t.workers 0 ≡ c.workers =
        ap (λ r. elim r [ ok d ↦ d.workers | err d ↦ unwrap_or t.workers 0 ]) made in
      record {
        bind_addr = ok_or-ok t.bind_addr _ addr e₁ ∙ ap some addr';
        workers = subst (Given t.workers 0) workers (unwrap_or-Given t.workers 0);
      }

  fields_server :
      (t : ServerTable Addr) (c : ServerConfig Addr) (loopback : ℕ → Addr)
      → ServerFields t c
      → server_config loopback t ≡ ok c
  unfolding server_config
  fields_server t c loopback g = rw g.bind_addr (λ i.
      ok (record { bind_addr = c.bind_addr; workers = Given-unwrap_or t.workers _ _ g.workers i }))

  module _ (loopback : ℕ → Addr) where
    pub record MetricsFields (t : MetricsTable Addr) (c : MetricsConfig Addr) : Type 0 where
      pub enabled : Given t.enabled false c.enabled
      pub bind_addr : Given t.bind_addr (loopback 9090) c.bind_addr
      pub api_bind_addr : Given t.api_bind_addr (loopback 9091) c.api_bind_addr

    metrics_fields : (t : MetricsTable Addr) → MetricsFields t (metrics_config loopback t)
    unfolding metrics_config
    metrics_fields t = record {
      enabled = unwrap_or-Given t.enabled _;
      bind_addr = unwrap_or-Given t.bind_addr _;
      api_bind_addr = unwrap_or-Given t.api_bind_addr _;
    }

    fields_metrics :
        (t : MetricsTable Addr) (c : MetricsConfig Addr)
        → MetricsFields t c
        → metrics_config loopback t ≡ c
    unfolding metrics_config
    fields_metrics t c g = λ i. record {
      enabled = Given-unwrap_or t.enabled _ _ g.enabled i;
      bind_addr = Given-unwrap_or t.bind_addr _ _ g.bind_addr i;
      api_bind_addr = Given-unwrap_or t.api_bind_addr _ _ g.api_bind_addr i;
    }

    -- Every table but that of the limits is there, with the fields that have no default.
    pub record Fields (t : Tables Addr) (c : Config Addr) : Type 0 where
      pub server : ServerTable Addr
      pub quic : QuicTable
      pub tls : TlsTable
      pub pool : PoolTable
      pub metrics : MetricsTable Addr
      pub logging : LoggingTable
      pub server_given : t.server ≡ some server
      pub quic_given : t.quic ≡ some quic
      pub tls_given : t.tls ≡ some tls
      pub pool_given : t.pool ≡ some pool
      pub metrics_given : t.metrics ≡ some metrics
      pub logging_given : t.logging ≡ some logging
      pub server_fields : ServerFields server c.server
      pub quic_fields : QuicFields quic c.quic
      pub tls_fields : TlsFields tls c.tls
      pub pool_fields : PoolFields pool c.pool
      pub metrics_fields : MetricsFields metrics c.metrics
      pub logging_fields : LoggingFields logging c.logging
      pub limits_fields : LimitsFields t.limits c.limits

    pub deserialize-Fields :
        (t : Tables Addr) (c : Config Addr) → deserialize loopback t ≡ ok c → Fields t c
    unfolding deserialize
    deserialize-Fields t c e =
        let (server, made_server, e₁) =
          then_ok (ok_or t.server _ >>= server_config loopback) _ c e in
        let (server', e_server, server_ok) =
          then_ok (ok_or t.server _) (server_config loopback) server made_server in
        let (quic, e_quic, e₂) = then_ok (ok_or t.quic _) _ c e₁ in
        let (tls, made_tls, e₃) = then_ok (ok_or t.tls _ >>= tls_config) _ c e₂ in
        let (tls', e_tls, tls_ok) = then_ok (ok_or t.tls _) tls_config tls made_tls in
        let (pool, e_pool, e₄) = then_ok (ok_or t.pool _) _ c e₃ in
        let (metrics, e_metrics, e₅) = then_ok (ok_or t.metrics _) _ c e₄ in
        let (logging, e_logging, e₆) = then_ok (ok_or t.logging _) _ c e₅ in
        subst (Fields t) (ap (λ r. elim r [ ok d ↦ d | err d ↦ c ]) e₆) (record {
          server = server';
          quic = quic;
          tls = tls';
          pool = pool;
          metrics = metrics;
          logging = logging;
          server_given = ok_or-ok t.server _ server' e_server;
          quic_given = ok_or-ok t.quic _ quic e_quic;
          tls_given = ok_or-ok t.tls _ tls' e_tls;
          pool_given = ok_or-ok t.pool _ pool e_pool;
          metrics_given = ok_or-ok t.metrics _ metrics e_metrics;
          logging_given = ok_or-ok t.logging _ logging e_logging;
          server_fields = server_fields server' server loopback server_ok;
          quic_fields = quic_fields quic;
          tls_fields = tls_fields tls' tls tls_ok;
          pool_fields = pool_fields pool;
          metrics_fields = metrics_fields metrics;
          logging_fields = logging_fields logging;
          limits_fields = limits_fields t.limits;
        })

    pub Fields-deserialize :
        (t : Tables Addr) (c : Config Addr) → Fields t c → deserialize loopback t ≡ ok c
    unfolding deserialize
    Fields-deserialize t c g =
        rw
          (
            g.server_given,
            g.quic_given,
            g.tls_given,
            g.pool_given,
            g.metrics_given,
            g.logging_given,
            fields_server g.server c.server loopback g.server_fields,
            fields_tls g.tls c.tls g.tls_fields,
          )
          (λ i. ok (record {
            server = c.server;
            quic = fields_quic g.quic c.quic g.quic_fields i;
            tls = c.tls;
            pool = fields_pool g.pool c.pool g.pool_fields i;
            metrics = fields_metrics g.metrics c.metrics g.metrics_fields i;
            logging = fields_logging g.logging c.logging g.logging_fields i;
            limits = fields_limits t.limits c.limits g.limits_fields i;
          }))
