-- ===== src/Client/Connection.antt =====
-- mytunnel-client/src/tunnel/connection.rs: how the client finds, keeps and renews its QUIC connection to
-- the server. The resolver and the quinn crate are an interface over a state of the network, which also
-- changes by itself between the calls; the endpoint's TLS configuration is left out. The lock is held for
-- a single access only, so a call that dials is not interrupted here by another one.
pub mod Live
pub mod Tests
use mytunnel.Prelude.{
  ◌≡◌, Bool, true, Option, none, some, List, [], ◌∷◌, Text, Result, ok, err, if◌then◌else◌,
}
use mytunnel.Client.Config.{ServerConfig, get_server_name}

pub data Error : Type 0 where
  resolve_failed no_addresses connect_failed use_failed : Error

-- Of the standard library, `parse::<SocketAddr>`; of tokio, `lookup_host`; of quinn, `Endpoint::connect`
-- with the wait for the handshake, `Connection::close_reason` and `Connection::close`.
pub record Network : Type 1 where
  pub World : Type 0
  pub Addr : Type 0
  pub Connection : Type 0
  pub parse_addr : Text → Option Addr
  pub lookup_host : Text → World → Option (List Addr) × World
  pub connect : Addr → Text → World → Option Connection × World
  pub is_closed : Connection → World → Bool
  pub close : Connection → World → World
  -- A connection is closed once it was closed.
  pub close-closed : (c : Connection) (w : World) → is_closed c (close c w) ≡ true

module _ (net : Network) where
  -- `struct TunnelClient`, of which a `TunnelClientHandle` shares the connection, and the network.
  pub record TunnelClient : Type 0 where
    pub connection : Option net.Connection
    pub world : net.World

  first_address : Option (List net.Addr) → Result Error net.Addr
  first_address none = err resolve_failed
  first_address (some []) = err no_addresses
  first_address (some (addr ∷ addrs)) = ok addr

  -- `resolve_address`
  unfoldable pub resolve_address : Text → net.World → Result Error net.Addr × net.World
  unfolding first_address
  resolve_address address w = elim (net.parse_addr address) [
    | some addr ↦ (ok addr, w)
    | none ↦ let (found, w₁) = net.lookup_host address w in (first_address found, w₁)
  ]

  connected : Option net.Connection × net.World → Result Error net.Connection × net.World
  connected (none, w) = (err connect_failed, w)
  connected (some c, w) = (ok c, w)

  dial : Text → Result Error net.Addr × net.World → Result Error net.Connection × net.World
  unfolding connected
  dial name (err e, w) = (err e, w)
  dial name (ok addr, w) = connected (net.connect addr name w)

  -- `TunnelClient::connect` and `reconnect`
  unfoldable pub reconnect : ServerConfig → net.World → Result Error net.Connection × net.World
  unfolding dial
  reconnect config w = dial (get_server_name config) (resolve_address config.address w)

  -- The connection that is stored, if it is not closed.
  unfoldable pub live : TunnelClient → Option net.Connection
  live t = elim t.connection [
    | none ↦ none
    | some c ↦ if net.is_closed c t.world then none else some c
  ]

  -- A new connection is stored.
  store :
      TunnelClient
      → Result Error net.Connection × net.World
      → Result Error net.Connection × TunnelClient
  store t (err e, w) = (err e, record t { world = w })
  store t (ok c, w) = (ok c, record { connection = some c; world = w })

  -- `get_connection`, of the client and of the handle
  unfoldable pub get_connection :
      ServerConfig → TunnelClient → Result Error net.Connection × TunnelClient
  unfolding store
  get_connection config t = elim (live t) [
    | some c ↦ (ok c, t)
    | none ↦ store t (reconnect config t.world)
  ]

  -- `open_stream`, `send_datagram` and `recv_datagram`; `use_it` is the call of the connection.
  module _ {A : Type 0} (use_it : net.Connection → net.World → Option A × net.World) where
    used : TunnelClient → Option A × net.World → Result Error A × TunnelClient
    used t (none, w) = (err use_failed, record t { world = w })
    used t (some a, w) = (ok a, record t { world = w })

    apply_to : Result Error net.Connection × TunnelClient → Result Error A × TunnelClient
    unfolding used
    apply_to (err e, t) = (err e, t)
    apply_to (ok c, t) = used t (use_it c t.world)

    unfoldable pub with_connection : ServerConfig → TunnelClient → Result Error A × TunnelClient
    unfolding apply_to
    with_connection config t = apply_to (get_connection config t)

  -- One pass of the loop that monitors the connection's health, once it has slept.
  unfoldable pub monitor_tick : ServerConfig → TunnelClient → TunnelClient
  unfolding store
  monitor_tick config t = elim (live t) [
    | some c ↦ t
    | none ↦ (store t (reconnect config t.world)).1
  ]

  -- The loop, over what the network does in each sleep.
  unfoldable pub monitor : ServerConfig → List (net.World → net.World) → TunnelClient → TunnelClient
  monitor config [] t = t
  monitor config (sleep ∷ sleeps) t =
      monitor config sleeps (monitor_tick config (record t { world = sleep t.world }))

  -- What `TunnelClient::run` does first.
  unfoldable pub start : ServerConfig → net.World → Result Error net.Connection × TunnelClient
  unfolding store
  start config w = store (record { connection = none; world = w }) (reconnect config w)

  -- `TunnelClient::shutdown`, but for the signal to the tasks
  unfoldable pub shutdown : TunnelClient → TunnelClient
  shutdown t = elim t.connection [
    | none ↦ t
    | some c ↦ record { connection = none; world = net.close c t.world }
  ]

  tested : Result Error net.Connection × net.World → Result Error (Unit {0}) × net.World
  tested (err e, w) = (err e, w)
  tested (ok c, w) = (ok tt, net.close c w)

  -- `TunnelClient::test_connection`
  unfoldable pub test_connection : ServerConfig → net.World → Result Error (Unit {0}) × net.World
  unfolding tested
  test_connection config w = tested (reconnect config w)
