-- ===== src/Server/Config/Loaded.antt =====
-- What `Config::load` accepts, and what the server does with it.
use mytunnel.Prelude.{
  ℕ, ◌<◌, ◌≡◌, refl, ◌∙◌, subst, Bool, true, false, ◌↔◌, Option, some, Text, arith, Result, ok, err,
  ◌>>◌, bail_if, ok_or, ok_or-ok, then_ok, ◌==◌,
}
use mytunnel.Dash.{DashMap}
use mytunnel.Pool.Slab
use mytunnel.Pool.Slab.{SlabHandle}
use mytunnel.Connection.State.{ConnectionId}
use mytunnel.Connection.{new, is_full}
use mytunnel.Server.Config.Deserialized.{Fields, deserialize-Fields, Fields-deserialize}
use mytunnel.Server.Config.{
  Error, zero_max_connections, zero_max_streams_per_conn, zero_idle_timeout_secs,
  zero_connection_slots, Tables, Config, validate, deserialize, load, manager_config,
  cleanup_interval,
}

passes :
    (m : Result Error (Unit {0})) (b : Bool) (e : Error)
    → (m >> bail_if b e) ≡ ok tt
    → (m ≡ ok tt) × (b ≡ false)
passes (ok u) true e h = absurd cc
passes (ok u) false e h = (refl, refl)
passes (err f) b e h = absurd cc

module _ {Addr : Type 0} where
  pub record IsValid (c : Config Addr) : Type 0 where
    pub max_connections : 0 < c.quic.max_connections
    pub max_streams_per_conn : 0 < c.quic.max_streams_per_conn
    pub idle_timeout_secs : 0 < c.quic.idle_timeout_secs
    pub connection_slots : 0 < c.pool.connection_slots

  validate-IsValid : (c : Config Addr) → validate c ≡ ok tt → IsValid c
  unfolding validate
  validate-IsValid c e =
      let (u, e₁, last) = then_ok _ _ tt e in
      let (e₂, d) = passes _ (c.pool.connection_slots == 0) zero_connection_slots (e₁ ∙ refl) in
      let (e₃, b) = passes _ (c.quic.idle_timeout_secs == 0) zero_idle_timeout_secs e₂ in
      let (e₄, a) = passes _ (c.quic.max_streams_per_conn == 0) zero_max_streams_per_conn e₃ in
      let (e₅, g) = passes (ok tt) (c.quic.max_connections == 0) zero_max_connections e₄ in
      record {
        max_connections = ground arith;
        max_streams_per_conn = ground arith;
        idle_timeout_secs = ground arith;
        connection_slots = ground arith;
      }

  IsValid-validate : (c : Config Addr) → IsValid c → validate c ≡ ok tt
  unfolding validate
  IsValid-validate c v =
      ground
        (arith, v.max_connections, v.max_streams_per_conn, v.idle_timeout_secs, v.connection_slots)

  module _ (loopback : ℕ → Addr) (parse : Text → Option (Tables Addr)) where
    -- The file is read and parsed, its tables give the fields, and the values are valid.
    pub record Loads (file : Option Text) (c : Config Addr) : Type 0 where
      pub contents : Text
      pub read : file ≡ some contents
      pub tables : Tables Addr
      pub parsed : parse contents ≡ some tables
      pub fields : Fields loopback tables c
      pub valid : IsValid c

    load-Loads :
        (file : Option Text) (c : Config Addr) → load loopback parse file ≡ ok c → Loads file c
    unfolding load
    load-Loads file c e =
        let (contents, read, e₁) = then_ok (ok_or file _) _ c e in
        let (tables, parsed, e₂) = then_ok (ok_or (parse contents) _) _ c e₁ in
        let (c', made, e₃) = then_ok (deserialize loopback tables) _ c e₂ in
        let (u, valid, same) = then_ok (validate c') _ c e₃ in
        let same' : c' ≡ c = cc in
        record {
          contents = contents;
          read = ok_or-ok file _ contents read;
          tables = tables;
          parsed = ok_or-ok (parse contents) _ tables parsed;
          fields = deserialize-Fields loopback tables c (made ∙ same);
          valid = subst IsValid same' (validate-IsValid c' valid);
        }

    Loads-load :
        (file : Option Text) (c : Config Addr) → Loads file c → load loopback parse file ≡ ok c
    unfolding load
    Loads-load file c l =
        rw
          (
            l.read,
            l.parsed,
            Fields-deserialize loopback l.tables c l.fields,
            IsValid-validate c l.valid,
          )
          refl

    -- `load` returns a configuration exactly if the file can be read and parsed; all of its tables but
    -- the limits are there, with the server's address and the paths of certificate and key; each field is
    -- what the file gives for it, or else has its default; and the limits on connections and streams, the
    -- idle timeout and the number of slots are not 0. The defaults are 100000 connections, 100 streams,
    -- 30 seconds, 1350 bytes, 0-RTT, "bbr", no generated certificate, 16384, 4096 and 1024 buffers, 100000
    -- slots, no metrics, the loopback ports 9090 and 9091, "info", "json", 0 workers, and as limits 0,
    -- 10000 (but 0 without the table) and 0.
    pub load_lem :
        (file : Option Text) (c : Config Addr) → (load loopback parse file ≡ ok c) ↔ Loads file c
    load_lem file c = (load-Loads file c, Loads-load file c)

    -- A server with a configuration that was loaded has room for a connection, and its cleanup task's
    -- interval, which must not be 0 for tokio, is 0 exactly if the idle timeout is one second.
    pub load-starts :
        (dash : DashMap ConnectionId SlabHandle) (file : Option Text) (c : Config Addr)
        → load loopback parse file ≡ ok c
        → (is_full (new Addr dash (manager_config c)) ≡ false)
          × ((cleanup_interval c ≡ 0) ↔ (c.quic.idle_timeout_secs ≡ 1))
    unfolding is_full new Slab.is_full Slab.new Slab.len
    load-starts dash file c e =
        let v = (load-Loads file c e).valid in
        let slots = v.connection_slots in
        let idle = v.idle_timeout_secs in (ground arith, (λ q. omega arith, λ q. omega arith))
