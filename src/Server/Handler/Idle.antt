-- ===== src/Server/Handler/Idle.antt =====
-- The traffic of a connection does not count as activity: no code calls `record_traffic`.
use mytunnel.Prelude.{
  ℕ, suc, ◌+◌, ◌≡◌, ◌≢◌, ◌<◌, refl, sym, ap, ◌∙◌, subst, true, Option, none, some, List, [], ◌∷◌,
  All, arith, u64_mod, lt→ltb, ==_refl,
}
use mytunnel.Dash.{DashMap}
use mytunnel.Metrics.{Metrics}
use mytunnel.Pool.Slab
use mytunnel.Pool.Slab.{SlabHandle, ConnectionSlab}
use mytunnel.Connection.State
use mytunnel.Connection.State.{ConnectionId, ConnectionState}
use mytunnel.Connection.{
  ConnectionManager, ConnectionManagerConfig, get, register, activate, cleanup_idle, after_insert,
}
use mytunnel.Connection.Tracks.{Tracks}
use mytunnel.Connection.Tracks.Register.{Registers, register-Registers}
use mytunnel.Connection.Tracks.Write.{activate-Writes}
use mytunnel.Connection.Cleanup.{overdue, is_overdue, cleanup_idle-Cleans}
use mytunnel.Server.Handler.{
  Event, stream_accepted, accept_failed, datagram_received, datagram_closed, datagram_failed,
  shutdown_signalled, stream_done, called, Outcome, running, ended, Handled, handle_connection,
  cleanup, after_register, handle,
}

-- Streams and datagrams come and go.
abbrev pub IsTraffic : {Addr : Type 0} → Event Addr → Type 0
IsTraffic stream_accepted = Unit {0}
IsTraffic accept_failed = ⊥
IsTraffic datagram_received = Unit {0}
IsTraffic datagram_closed = ⊥
IsTraffic datagram_failed = Unit {0}
IsTraffic shutdown_signalled = ⊥
IsTraffic stream_done = Unit {0}
IsTraffic (called now c) = ⊥

module _ {Addr : Type 0} {dash : DashMap ConnectionId SlabHandle} where
  handle_connection-traffic :
      (events : List (Event Addr)) (s : ConnectionManager Addr dash × Metrics)
      → All IsTraffic events
      → ((handle_connection events s).0 ≡ running) × ((handle_connection events s).1.0 ≡ s.0)
  unfolding handle_connection
  handle_connection-traffic [] s h = (refl, refl)
  handle_connection-traffic (stream_accepted ∷ events) (m, metrics) h =
      handle_connection-traffic events _ h.1
  handle_connection-traffic (accept_failed ∷ events) s h = absurd h.0
  handle_connection-traffic (datagram_received ∷ events) (m, metrics) h =
      handle_connection-traffic events _ h.1
  handle_connection-traffic (datagram_closed ∷ events) s h = absurd h.0
  handle_connection-traffic (datagram_failed ∷ events) s h = handle_connection-traffic events s h.1
  handle_connection-traffic (shutdown_signalled ∷ events) s h = absurd h.0
  handle_connection-traffic (stream_done ∷ events) (m, metrics) h =
      handle_connection-traffic events _ h.1
  handle_connection-traffic (called now c ∷ events) s h = absurd h.0

  cleanup-running :
      (id : ConnectionId) (r : Outcome × (ConnectionManager Addr dash × Metrics))
      → r.0 ≡ running
      → cleanup id r ≡ (record { closed = none; result = none }, r.1)
  unfolding cleanup
  cleanup-running id (running, s) e = refl
  cleanup-running id (ended code, s) e = absurd cc

  config-activate :
      (id : ConnectionId) (now : ℕ) (m : ConnectionManager Addr dash)
      → (activate id now m).config ≡ m.config
  unfolding activate
  config-activate id now m = ground arith

  config-register :
      (client_addr : Addr) (now : ℕ) (m : ConnectionManager Addr dash) (metrics : Metrics)
      → (register client_addr now (m, metrics)).1.0.config ≡ m.config
  unfolding register
  config-register client_addr now m metrics =
      by_answer (Slab.insert (State.new m.next_id client_addr now) m.connections)
    where
      by_answer :
          (r : Option SlabHandle × ConnectionSlab (ConnectionState Addr))
          → (after_insert (m, metrics) r).1.0.config ≡ m.config
      by_answer (none, slab) = refl
      by_answer (some h, slab) = refl

  -- The connection that `register` has stored, once it is activated.
  get-activate :
      (m₁ : ConnectionManager Addr dash) (id : ConnectionId) (client_addr : Addr)
      (registered_at now : ℕ)
      → Tracks m₁
      → get id m₁ ≡ some (State.new id client_addr registered_at)
      → get id (activate id now m₁)
        ≡ some (State.set_active now (State.new id client_addr registered_at))
  get-activate m₁ id client_addr registered_at now tracks e =
      let (tracks', all, count) = activate-Writes m₁ tracks id now in
      all id ∙ rw (==_refl id, e) refl

  -- Whether the manager has forgotten a connection of a running handler.
  abbrev pub Forgets : ConnectionId → ℕ → Handled × (ConnectionManager Addr dash × Metrics) → Type 0
  Forgets id now (h, s) =
      (h.result ≡ none) × (get id s.0 ≢ none) × (get id (cleanup_idle now s).1.0 ≡ none)

  activated-Forgets :
      (m : ConnectionManager Addr dash) (id : ConnectionId) (state : ConnectionState Addr) (now : ℕ)
      → (r : Outcome × (ConnectionManager Addr dash × Metrics)) → Tracks m
      → get id m ≡ some state
      → state.last_active + m.config.idle_timeout < now
      → r.0 ≡ running
      → r.1.0 ≡ m
      → Forgets id now (cleanup id r)
  activated-Forgets m id state now r tracks e long runs same =
      let (tracks', gone, total) = cleanup_idle-Cleans now m tracks r.1.1 in
      let late : overdue now m id ≡ true =
        ap (is_overdue now m.config.idle_timeout) e
        ∙ lt→ltb (state.last_active + m.config.idle_timeout) now long in
      let forgotten : get id (cleanup_idle now (m, r.1.1)).1.0 ≡ none = gone id ∙ rw late refl in
      let held : get id m ≢ none = λ q. cc in
      rw (cleanup-running id r runs) (
        refl,
        subst (λ k. get id k ≢ none) (sym same) held,
        subst (λ k. get id (cleanup_idle now (k, r.1.1)).1.0 ≡ none) (sym same) forgotten,
      )

  after_register-Forgets :
      (m : ConnectionManager Addr dash) (metrics : Metrics) (client_addr : Addr)
      → (registered_at activated_at now : ℕ) (events : List (Event Addr)) (id : ConnectionId)
      → (r : Option ConnectionId × (ConnectionManager Addr dash × Metrics))
      → Registers m metrics client_addr registered_at r
      → r.1.0.config ≡ m.config
      → r.0 ≡ some id
      → All IsTraffic events
      → activated_at + m.config.idle_timeout < now
      → Forgets id now (after_register activated_at events r)
  unfolding after_register State.set_active State.touch State.new
  after_register-Forgets m metrics client_addr registered_at activated_at now events id (none, s)
        reg config e traffic late =
      absurd cc
  after_register-Forgets m metrics client_addr registered_at activated_at now events id
        (some j, (m₁, metrics₁)) reg config e traffic late =
      let (free, tracks, fresh, stored, count, opened) = reg in
      let same : j ≡ id = ground arith in
      let known : get j m₁ ≡ some (State.new j client_addr registered_at) =
        stored j ∙ rw (==_refl j) refl in
      let active = get-activate m₁ j client_addr registered_at activated_at tracks known in
      let (runs, kept) =
        handle_connection-traffic events (activate j activated_at m₁, metrics₁) traffic in
      let limit : (activate j activated_at m₁).config.idle_timeout ≡ m.config.idle_timeout =
        ap (λ (c : ConnectionManagerConfig). c.idle_timeout)
          (config-activate j activated_at m₁ ∙ config) in
      subst
        (λ i.
          Forgets i now
            (cleanup j (handle_connection events (activate j activated_at m₁, metrics₁))))
        same
        (activated-Forgets (activate j activated_at m₁) j
          (State.set_active activated_at (State.new j client_addr registered_at)) now
          (handle_connection events (activate j activated_at m₁, metrics₁))
          (activate-Writes m₁ tracks j activated_at).0 active (omega (arith, limit, late)) runs
          kept)

  -- A connection over which only streams and datagrams come and go, however many: as soon as its idle
  -- timeout has passed since it was activated, `cleanup_idle` unregisters it, though until then it was
  -- registered and its handler is still running. (The connection was registered, in a manager that
  -- satisfies its invariant and has an identifier left.)
  pub handle-Forgets :
      (client_addr : Addr) (registered_at activated_at now : ℕ) (events : List (Event Addr))
      (id : ConnectionId)
      → (m : ConnectionManager Addr dash) (metrics : Metrics) → Tracks m
      → suc m.next_id < u64_mod
      → (register client_addr registered_at (m, metrics)).0 ≡ some id
      → All IsTraffic events
      → activated_at + m.config.idle_timeout < now
      → Forgets id now (handle true client_addr registered_at activated_at events (m, metrics))
  unfolding handle
  handle-Forgets client_addr registered_at activated_at now events id m metrics tracks room
        registered traffic late =
      after_register-Forgets m metrics client_addr registered_at activated_at now events id
        (register client_addr registered_at (m, metrics))
        (register-Registers m metrics client_addr registered_at tracks room)
        (config-register client_addr registered_at m metrics) registered traffic late
