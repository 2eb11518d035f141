-- ===== src/Connection/History/Accounted.antt =====
-- The gauge of active connections is the number of occupied slots, and that never passes the capacity.
use mytunnel.Prelude.{
  ℕ, suc, ◌+◌, ◌≡◌, ◌<◌, ◌≤◌, refl, sym, ap, ◌∙◌, Option, none, some, List, [], ◌∷◌, arith, length,
  u64_mod, wrapping_add, wrapping_sub,
}
use mytunnel.Dash.{DashMap}
use mytunnel.Metrics
use mytunnel.Metrics.{Metrics}
use mytunnel.Pool.Slab
use mytunnel.Pool.Slab.{SlabHandle, ConnectionSlab}
use mytunnel.Connection.State.{ConnectionId, ConnectionState}
use mytunnel.Connection.{
  ConnectionManagerConfig, ConnectionManager, new, get, unregister, cleanup_idle, unregister_all,
  connection_count,
}
use mytunnel.Pool.Slab.Occupied.{occupied-le}
use mytunnel.Pool.Slab.Consistent.{IsConsistent}
use mytunnel.Connection.Tracks.{Tracks, new-Tracks}
use mytunnel.Connection.Tracks.Register.{Registers, register-Registers}
use mytunnel.Connection.Tracks.Unregister.{Unregisters, unregister-Unregisters}
use mytunnel.Connection.Tracks.Write.{counted, activate-Writes, record_traffic-Writes}
use mytunnel.Connection.Drain.{start_drain-Tracks}
use mytunnel.Connection.History.{
  Call, registers, activates, records, unregisters, drains, cleans, step, run,
}
use mytunnel.Connection.History.Frame.{capacity-step, next_id-step}

-- A consistent slab holds at most as many values as it has slots.
len-le : {T : Type 0} (s : ConnectionSlab T) → IsConsistent s → Slab.len s ≤ s.capacity
unfolding Slab.len
len-le s ok = omega (arith, ok.counted, occupied-le s.slots s.capacity ok.beyond)

gauge_opened :
    (metrics : Metrics) (n : ℕ)
    → metrics.connections_active ≡ n
    → suc n < u64_mod
    → (Metrics.connection_opened metrics).connections_active ≡ suc n
unfolding Metrics.connection_opened wrapping_add
gauge_opened metrics n e h = omega arith

gauge_closed :
    (metrics : Metrics) (n : ℕ)
    → metrics.connections_active ≡ suc n
    → suc n < u64_mod
    → (Metrics.connection_closed metrics).connections_active ≡ n
unfolding Metrics.connection_closed wrapping_sub
gauge_closed metrics n e h = omega arith

module _ {Addr : Type 0} {dash : DashMap ConnectionId SlabHandle} where
  -- The invariant, the gauge, and the bound on the number of connections.
  pub record IsAccounted (s : ConnectionManager Addr dash × Metrics) : Type 0 where
    pub tracks : Tracks s.0
    pub gauge : s.1.connections_active ≡ connection_count s.0
    pub fits : connection_count s.0 ≤ s.0.connections.capacity

  fits_of :
      (m : ConnectionManager Addr dash) → Tracks m → connection_count m ≤ m.connections.capacity
  unfolding connection_count
  fits_of m ok = len-le m.connections ok.slab_ok

  accounted :
      (m : ConnectionManager Addr dash) (metrics : Metrics)
      → Tracks m
      → metrics.connections_active ≡ connection_count m
      → IsAccounted (m, metrics)
  accounted m metrics ok gauge = record { tracks = ok; gauge = gauge; fits = fits_of m ok }

  registered :
      (m : ConnectionManager Addr dash) (metrics : Metrics) (client_addr : Addr) (now : ℕ)
      → (r : Option ConnectionId × (ConnectionManager Addr dash × Metrics))
      → IsAccounted (m, metrics)
      → Registers m metrics client_addr now r
      → IsAccounted r.1
  registered m metrics client_addr now (none, (m', metrics')) ok
        (full, ok', same, count, unchanged) =
      accounted m' metrics' ok'
        (ap (λ (x : Metrics). x.connections_active) unchanged ∙ ok.gauge ∙ sym count)
  registered m metrics client_addr now (some id, (m', metrics')) ok
        (free, ok', new, stored, count, opened) =
      let small : suc (connection_count m) < u64_mod =
        omega (arith, count, fits_of m' ok', ok'.slab_ok.small) in
      accounted m' metrics' ok' (
        ap (λ (x : Metrics). x.connections_active) opened
        ∙ gauge_opened metrics (connection_count m) ok.gauge small
        ∙ sym count)

  unregistered :
      (m : ConnectionManager Addr dash) (metrics : Metrics) (id : ConnectionId)
      → (o : Option (ConnectionState Addr)) (s : ConnectionManager Addr dash × Metrics)
      → (ok : IsAccounted (m, metrics)) → Unregisters m metrics id ok.tracks o s
      → IsAccounted s
  unregistered m metrics id none (m', metrics') ok (ok', config, same, count, unchanged) =
      accounted m' metrics' ok'
        (ap (λ (x : Metrics). x.connections_active) unchanged ∙ ok.gauge ∙ sym count)
  unregistered m metrics id (some st) (m', metrics') ok (ok', config, gone, count, closed) =
      let small : suc (connection_count m') < u64_mod =
        omega (arith, count, fits_of m ok.tracks, ok.tracks.slab_ok.small) in
      accounted m' metrics' ok' (
        ap (λ (x : Metrics). x.connections_active) closed
        ∙ gauge_closed metrics (connection_count m') (ok.gauge ∙ sym count) small)

  pub unregister-IsAccounted :
      (id : ConnectionId) (s : ConnectionManager Addr dash × Metrics)
      → IsAccounted s
      → IsAccounted (unregister id s)
  unregister-IsAccounted id (m, metrics) ok =
      unregistered m metrics id (get id m) _ ok (unregister-Unregisters m metrics id ok.tracks)

  unregister_all-IsAccounted :
      (ids : List ConnectionId) (n : ℕ) (s : ConnectionManager Addr dash × Metrics)
      → IsAccounted s
      → IsAccounted (unregister_all ids n s).1
  unfolding unregister_all
  unregister_all-IsAccounted [] n s ok = ok
  unregister_all-IsAccounted (id ∷ ids) n s ok =
      unregister_all-IsAccounted ids (suc n) (unregister id s) (unregister-IsAccounted id s ok)

  gauge-counted :
      (m : ConnectionManager Addr dash) (ok : Tracks m) (id : ConnectionId) (rx tx : ℕ)
      → (o : Option (ConnectionState Addr)) (metrics : Metrics)
      → (counted m ok id rx tx o metrics).connections_active ≡ metrics.connections_active
  unfolding Metrics.bytes_rx Metrics.bytes_tx
  gauge-counted m ok id rx tx none metrics = refl
  gauge-counted m ok id rx tx (some st) metrics = ground arith

  -- Every call keeps the account, while identifiers are left.
  pub step-IsAccounted :
      (s : ConnectionManager Addr dash × Metrics) (c : ℕ × Call Addr)
      → suc s.0.next_id < u64_mod
      → IsAccounted s
      → IsAccounted (step s c)
  unfolding step cleanup_idle
  step-IsAccounted (m, metrics) (now, registers client_addr) room ok =
      registered m metrics client_addr now _ ok
        (register-Registers m metrics client_addr now ok.tracks room)
  step-IsAccounted (m, metrics) (now, activates id) room ok =
      let (ok', all, count) = activate-Writes m ok.tracks id now in
      accounted _ metrics ok' (ok.gauge ∙ sym count)
  step-IsAccounted (m, metrics) (now, records id rx tx) room ok =
      let ((ok', all, count), traffic) = record_traffic-Writes m ok.tracks id now rx tx metrics in
      accounted _ _ ok' (
        ap (λ (x : Metrics). x.connections_active) traffic
        ∙ gauge-counted m ok.tracks id rx tx (get id m) metrics
        ∙ ok.gauge
        ∙ sym count)
  step-IsAccounted s (now, unregisters id) room ok = unregister-IsAccounted id s ok
  step-IsAccounted (m, metrics) (now, drains) room ok =
      let (ok', all, count) = start_drain-Tracks m ok.tracks in
      accounted _ metrics ok' (ok.gauge ∙ sym count)
  step-IsAccounted (m, metrics) (now, cleans) room ok =
      unregister_all-IsAccounted _ 0 (m, metrics) ok

  run-IsAccounted :
      (cs : List (ℕ × Call Addr)) (s : ConnectionManager Addr dash × Metrics)
      → s.0.next_id + length cs < u64_mod
      → IsAccounted s
      → IsAccounted (run s cs) × ((run s cs).0.connections.capacity ≡ s.0.connections.capacity)
  unfolding run
  run-IsAccounted [] s room ok = (ok, refl)
  run-IsAccounted (c ∷ cs) s room ok =
      let (later, same) =
        run-IsAccounted cs (step s c) (omega (arith, next_id-step s c))
          (step-IsAccounted s c (omega arith) ok) in
      (later, same ∙ capacity-step s c)

-- After any sequence of calls on a new manager, fewer than there are identifiers, the invariant holds,
-- the gauge `connections_active` is the number of connections, and that number is at most
-- `max_connections`.
pub run-new-IsAccounted :
    (Addr : Type 0) (dash : DashMap ConnectionId SlabHandle) (config : ConnectionManagerConfig)
    → (calls : List (ℕ × Call Addr)) → config.max_connections < u64_mod
    → suc (length calls) < u64_mod
    → let s = run (new Addr dash config, Metrics.new) calls in
      Tracks s.0
      × (s.1.connections_active ≡ connection_count s.0)
      × (connection_count s.0 ≤ config.max_connections)
unfolding new connection_count Slab.new Slab.len
run-new-IsAccounted Addr dash config calls small few =
    let start =
      accounted (new Addr dash config) Metrics.new (new-Tracks Addr dash config small).0 refl in
    let (ok, same) =
      run-IsAccounted calls (new Addr dash config, Metrics.new) (omega arith) start in
    (ok.tracks, ok.gauge, omega (arith, ok.fits, same))
