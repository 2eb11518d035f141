-- ===== src/Connection/History.antt =====
-- The connection manager of src/connection/manager.rs over any sequence of its calls, with the counters
-- that the calls raise.
pub mod Frame
pub mod Accounted
use mytunnel.Prelude.{ℕ, List, [], ◌∷◌}
use mytunnel.Dash.{DashMap}
use mytunnel.Metrics
use mytunnel.Metrics.{Metrics}
use mytunnel.Pool.Slab.{SlabHandle}
use mytunnel.Connection.State.{ConnectionId}
use mytunnel.Connection.{
  ConnectionManager, register, activate, record_traffic, unregister, start_drain, cleanup_idle,
}

-- The calls that change a manager.
pub data Call (Addr : Type 0) : Type 0 where
  registers : Addr → Call Addr
  activates : ConnectionId → Call Addr
  records : ConnectionId → ℕ → ℕ → Call Addr
  unregisters : ConnectionId → Call Addr
  drains : Call Addr
  cleans : Call Addr

module _ {Addr : Type 0} {dash : DashMap ConnectionId SlabHandle} where
  -- A call made at a time.
  unfoldable pub step :
      ConnectionManager Addr dash × Metrics → ℕ × Call Addr → ConnectionManager Addr dash × Metrics
  step s (now, registers client_addr) = (register client_addr now s).1
  step s (now, activates id) = (activate id now s.0, s.1)
  step s (now, records id rx tx) = record_traffic id now rx tx s
  step s (now, unregisters id) = unregister id s
  step s (now, drains) = (start_drain s.0, s.1)
  step s (now, cleans) = (cleanup_idle now s).1

  unfoldable pub run :
      ConnectionManager Addr dash × Metrics
      → List (ℕ × Call Addr)
      → ConnectionManager Addr dash × Metrics
  run s [] = s
  run s (c ∷ cs) = run (step s c) cs
