-- ===== src/Server/Handler/Registered.antt =====
-- A connection's registration: it is removed when its handler ends, and by `cleanup_idle` also before.
use mytunnel.Prelude.{
  ℕ, suc, ◌+◌, ◌≡◌, ◌<◌, refl, ◌∙◌, subst, Bool, true, false, Option, none, some, List, [], ◌∷◌,
  length, arith, u64_mod, Result, ==_refl, if◌then◌else◌,
}
use mytunnel.Dash.{DashMap}
use mytunnel.Metrics
use mytunnel.Metrics.{Metrics}
use mytunnel.Pool.Slab.{SlabHandle}
use mytunnel.Connection.State.{ConnectionId, ConnectionState}
use mytunnel.Connection.{ConnectionManager, get, register, activate, unregister}
use mytunnel.Connection.Tracks.{Tracks}
use mytunnel.Connection.Tracks.Unregister.{Unregisters, unregister-Unregisters}
use mytunnel.Connection.History.{Call, registers, activates, step}
use mytunnel.Connection.History.Frame.{next_id-step}
use mytunnel.Connection.History.Accounted.{IsAccounted, step-IsAccounted, unregister-IsAccounted}
use mytunnel.Server.Handler.{
  Error, Event, stream_accepted, accept_failed, datagram_received, datagram_closed, datagram_failed,
  shutdown_signalled, stream_done, called, Outcome, running, ended, Handled, handle_connection,
  cleanup, after_register, handle,
}

module _ {Addr : Type 0} {dash : DashMap ConnectionId SlabHandle} where
  -- Counting what does not concern the gauge keeps the account.
  pub recount :
      (m : ConnectionManager Addr dash) (metrics metrics' : Metrics)
      → metrics'.connections_active ≡ metrics.connections_active
      → IsAccounted (m, metrics)
      → IsAccounted (m, metrics')
  recount m metrics metrics' same accounted = record {
    tracks = accounted.tracks;
    gauge = same ∙ accounted.gauge;
    fits = accounted.fits;
  }

  handle_connection-IsAccounted :
      (events : List (Event Addr)) (s : ConnectionManager Addr dash × Metrics)
      → s.0.next_id + length events < u64_mod
      → IsAccounted s
      → IsAccounted (handle_connection events s).1
  unfolding handle_connection Metrics.stream_opened Metrics.stream_closed Metrics.datagram_rx
  handle_connection-IsAccounted [] s room accounted = accounted
  handle_connection-IsAccounted (stream_accepted ∷ events) (m, metrics) room accounted =
      handle_connection-IsAccounted events _ (omega arith) (recount m metrics _ refl accounted)
  handle_connection-IsAccounted (accept_failed ∷ events) s room accounted = accounted
  handle_connection-IsAccounted (datagram_received ∷ events) (m, metrics) room accounted =
      handle_connection-IsAccounted events _ (omega arith) (recount m metrics _ refl accounted)
  handle_connection-IsAccounted (datagram_closed ∷ events) s room accounted = accounted
  handle_connection-IsAccounted (datagram_failed ∷ events) s room accounted =
      handle_connection-IsAccounted events s (omega arith) accounted
  handle_connection-IsAccounted (shutdown_signalled ∷ events) s room accounted = accounted
  handle_connection-IsAccounted (stream_done ∷ events) (m, metrics) room accounted =
      handle_connection-IsAccounted events _ (omega arith) (recount m metrics _ refl accounted)
  handle_connection-IsAccounted (called now c ∷ events) s room accounted =
      handle_connection-IsAccounted events _ (omega (arith, next_id-step s (now, c)))
        (step-IsAccounted s (now, c) (omega arith) accounted)

  pub get-unregister :
      (id : ConnectionId) (s : ConnectionManager Addr dash × Metrics)
      → Tracks s.0
      → get id (unregister id s).0 ≡ none
  get-unregister id (m, metrics) tracks =
      by_state (get id m) refl (unregister id (m, metrics))
        (unregister-Unregisters m metrics id tracks)
    where
      by_state :
          (o : Option (ConnectionState Addr))
          → get id m ≡ o
          → (s : ConnectionManager Addr dash × Metrics)
          → Unregisters m metrics id tracks (get id m) s
          → get id s.0 ≡ none
      by_state none e (m', metrics') u =
          let (tracks', config, same, count, unchanged) : Unregisters m metrics id tracks none
              (m', metrics') =
            subst (λ o. Unregisters m metrics id tracks o (m', metrics')) e u in
          same id ∙ e
      by_state (some st) e (m', metrics') u =
          let (tracks', config, gone, count, closed) : Unregisters m metrics id tracks (some st)
              (m', metrics') =
            subst (λ o. Unregisters m metrics id tracks o (m', metrics')) e u in
          gone id ∙ rw (==_refl id) refl

  -- The identifier of a connection whose handler has returned belongs to no connection.
  abbrev pub Released :
      Option ConnectionId → Option (Result Error (Unit {0})) → ConnectionManager Addr dash → Type 0
  Released none result m = Unit {0}
  Released (some id) none m = Unit {0}
  Released (some id) (some r) m = get id m ≡ none

  -- What is true once `handle` has run for as long as its events last.
  abbrev pub Handles :
      Option ConnectionId → Handled × (ConnectionManager Addr dash × Metrics) → Type 0
  Handles registered (h, s) = IsAccounted s × Released registered h.result s.0

  cleanup-Handles :
      (id : ConnectionId) (r : Outcome × (ConnectionManager Addr dash × Metrics))
      → IsAccounted r.1
      → Handles (some id) (cleanup id r)
  unfolding cleanup
  cleanup-Handles id (running, s) accounted = (accounted, tt)
  cleanup-Handles id (ended code, s) accounted =
      (unregister-IsAccounted id s accounted, get-unregister id s accounted.tracks)

  after_register-Handles :
      (activated_at : ℕ) (events : List (Event Addr))
      → (r : Option ConnectionId × (ConnectionManager Addr dash × Metrics))
      → suc (r.1.0.next_id + length events) < u64_mod
      → IsAccounted r.1
      → Handles r.0 (after_register activated_at events r)
  unfolding after_register step
  after_register-Handles activated_at events (none, s) room accounted = (accounted, tt)
  after_register-Handles activated_at events (some id, (m, metrics)) room accounted =
      let c : ℕ × Call Addr = (activated_at, activates id) in
      cleanup-Handles id (handle_connection events (activate id activated_at m, metrics)) (
        handle_connection-IsAccounted events (activate id activated_at m, metrics)
          (omega (arith, next_id-step (m, metrics) c))
          (step-IsAccounted (m, metrics) c (omega arith) accounted))

  -- The identifier under which `handle` registers the connection, if it does.
  abbrev pub id_of :
      (accepted : Bool) (client_addr : Addr) (registered_at : ℕ)
      → ConnectionManager Addr dash × Metrics
      → Option ConnectionId
  id_of accepted client_addr registered_at s =
      if accepted then (register client_addr registered_at s).0 else none

  -- Whatever happens while a connection is handled, the calls that other tasks make to the manager
  -- included: the manager's invariant holds, the gauge of active connections is their number, and once
  -- the handler has returned, the identifier under which it registered the connection belongs to none.
  -- The manager satisfies this before, and there are identifiers for all the events.
  pub handle-Handles :
      (accepted : Bool) (client_addr : Addr) (registered_at activated_at : ℕ)
      (events : List (Event Addr))
      → (s : ConnectionManager Addr dash × Metrics) → s.0.next_id + length events + 2 < u64_mod
      → IsAccounted s
      → Handles
          (id_of accepted client_addr registered_at s)
          (handle accepted client_addr registered_at activated_at events s)
  unfolding handle step Metrics.connection_failed
  handle-Handles false client_addr registered_at activated_at events (m, metrics) room accounted =
      (recount m metrics _ refl accounted, tt)
  handle-Handles true client_addr registered_at activated_at events s room accounted =
      let c : ℕ × Call Addr = (registered_at, registers client_addr) in
      after_register-Handles activated_at events (register client_addr registered_at s)
        (omega (arith, next_id-step s c)) (step-IsAccounted s c (omega arith) accounted)
