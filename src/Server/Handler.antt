-- ===== src/Server/Handler.antt =====
-- `ConnectionHandler` of src/server/acceptor.rs: the life of one connection, from its registration to its
-- removal. What happens while its loop runs is a list of events, among them the calls of the manager that
-- other tasks make, in any order; between `register` and `activate` none runs. The handlers of the streams and datagrams are Server/Stream and
-- Server/Datagram, with what they count.
pub mod Registered
pub mod Idle
pub mod Tests
use mytunnel.Prelude.{ℕ, Bool, List, [], ◌∷◌, Option, none, some, Result, ok, err, if◌then◌else◌}
use mytunnel.Dash.{DashMap}
use mytunnel.Metrics.{Metrics, connection_failed, stream_opened, stream_closed, datagram_rx}
use mytunnel.Pool.Slab.{SlabHandle}
use mytunnel.Connection.State.{ConnectionId}
use mytunnel.Connection.{ConnectionManager, register, activate, unregister}
use mytunnel.Connection.History.{Call, step}

pub data Error : Type 0 where
  handshake_failed : Error

-- What happens while the loop runs: the peer opens a stream, or `accept_bi` fails (the peer has closed
-- the connection, or another error); a datagram arrives, or `read_datagram` fails because the peer has
-- closed the connection, or otherwise; the shutdown is signalled; a stream's task ends; and another
-- task calls the manager at a time.
pub data Event (Addr : Type 0) : Type 0 where
  stream_accepted : Event Addr
  accept_failed : Event Addr
  datagram_received : Event Addr
  datagram_closed : Event Addr
  datagram_failed : Event Addr
  shutdown_signalled : Event Addr
  stream_done : Event Addr
  called : ℕ → Call Addr → Event Addr

-- Whether the loop has ended, and with which code it has closed the connection, if it has.
pub data Outcome : Type 0 where
  running : Outcome
  ended : Option ℕ → Outcome

-- The code with which the handler has closed the connection, if it has, and its result once it returns.
pub record Handled : Type 0 where
  pub closed : Option ℕ
  pub result : Option (Result Error (Unit {0}))

module _ {Addr : Type 0} {dash : DashMap ConnectionId SlabHandle} where
  -- `ConnectionHandler::handle_connection`
  unfoldable pub handle_connection :
      List (Event Addr)
      → ConnectionManager Addr dash × Metrics
      → Outcome × (ConnectionManager Addr dash × Metrics)
  handle_connection [] s = (running, s)
  handle_connection (stream_accepted ∷ events) (m, metrics) =
      handle_connection events (m, stream_opened metrics)
  handle_connection (accept_failed ∷ events) s = (ended none, s)
  handle_connection (datagram_received ∷ events) (m, metrics) =
      handle_connection events (m, datagram_rx metrics)
  handle_connection (datagram_closed ∷ events) s = (ended none, s)
  handle_connection (datagram_failed ∷ events) s = handle_connection events s
  handle_connection (shutdown_signalled ∷ events) s = (ended (some 0), s)
  handle_connection (stream_done ∷ events) (m, metrics) =
      handle_connection events (m, stream_closed metrics)
  handle_connection (called now c ∷ events) s = handle_connection events (step s (now, c))

  -- The cleanup behind the loop, once it has ended.
  cleanup :
      ConnectionId
      → Outcome × (ConnectionManager Addr dash × Metrics)
      → Handled × (ConnectionManager Addr dash × Metrics)
  cleanup id (running, s) = (record { closed = none; result = none }, s)
  cleanup id (ended code, s) = (record { closed = code; result = some (ok tt) }, unregister id s)

  -- What `handle` does with the answer of `register`.
  after_register :
      (activated_at : ℕ)
      → List (Event Addr)
      → Option ConnectionId × (ConnectionManager Addr dash × Metrics)
      → Handled × (ConnectionManager Addr dash × Metrics)
  unfolding cleanup
  after_register activated_at events (none, s) =
      (record { closed = some 1; result = some (ok tt) }, s)
  after_register activated_at events (some id, (m, metrics)) =
      cleanup id (handle_connection events (activate id activated_at m, metrics))

  -- `ConnectionHandler::handle`; `accepted` says whether the handshake succeeds.
  unfoldable pub handle :
      (accepted : Bool) (client_addr : Addr) (registered_at activated_at : ℕ)
      → List (Event Addr)
      → ConnectionManager Addr dash × Metrics
      → Handled × (ConnectionManager Addr dash × Metrics)
  unfolding after_register
  handle accepted client_addr registered_at activated_at events (m, metrics) =
      if accepted
      then after_register activated_at events (register client_addr registered_at (m, metrics))
      else (
        record { closed = none; result = some (err handshake_failed) },
        (m, connection_failed metrics),
      )
