-- ===== src/Connection/Tests.antt =====
-- The connection manager at concrete calls.
use native.Mathlib.Decide.{ℕ_discrete}
use mytunnel.Prelude.{ℕ, ◌≡◌, ◌≤◌, refl, none, List, [], ◌∷◌, arith, text}
use mytunnel.Dash.{DashMap}
use mytunnel.Dash.Assoc.{assoc_map}
use mytunnel.Metrics
use mytunnel.Metrics.{Metrics}
use mytunnel.Pool.Slab.{SlabHandle}
use mytunnel.Connection.State
use mytunnel.Connection.State.{ConnectionId, show_id, show_hex}
use mytunnel.Connection.{
  ConnectionManager, ConnectionManagerConfig, new, get, register, unregister, activate,
  record_traffic, cleanup_idle, connection_count, with_traffic,
}
use mytunnel.Connection.Tracks.{Tracks, new-Tracks}
use mytunnel.Connection.Tracks.Register.{Registers, register-Registers}
use mytunnel.Connection.Tracks.Unregister.{Unregisters, unregister-Unregisters}
use mytunnel.Connection.Tracks.Write.{Writes, activate-Writes, record_traffic-Writes}
use mytunnel.Connection.Cleanup.{Cleans, overdue, cleanup_idle-Cleans}
use mytunnel.Connection.History.{Call, registers, activates, run}
use mytunnel.Connection.History.Accounted.{run-new-IsAccounted}

abbrev pub handles : DashMap ConnectionId SlabHandle
handles = assoc_map SlabHandle ℕ_discrete

abbrev pub config : ConnectionManagerConfig
config = record { max_connections = 2; idle_timeout = 30 }

abbrev empty : ConnectionManager ℕ handles
empty = new ℕ handles config

empty-Tracks : Tracks empty
empty-Tracks = (new-Tracks ℕ handles config (omega arith)).0

-- The client at address 7 has registered at time 10 and is active.
abbrev calls : List (ℕ × Call ℕ)
calls = (10, registers 7) ∷ (11, activates 1) ∷ []

abbrev busy : ConnectionManager ℕ handles
busy = (run (empty, Metrics.new) calls).0

busy-Tracks : Tracks busy
busy-Tracks = (run-new-IsAccounted ℕ handles config calls (omega arith) (omega arith)).0

shown : show_id 255 ≡ text "00000000000000ff"
unfolding show_id show_hex
shown = refl

new-Tracks_example : get 1 (new ℕ handles config) ≡ none
new-Tracks_example = (new-Tracks ℕ handles config (omega arith)).1 1

register-Registers_example : Registers empty Metrics.new 7 10 (register 7 10 (empty, Metrics.new))
unfolding new
register-Registers_example = register-Registers empty Metrics.new 7 10 empty-Tracks (omega arith)

unregister-Unregisters_example :
    Unregisters busy Metrics.new 1 busy-Tracks (get 1 busy) (unregister 1 (busy, Metrics.new))
unregister-Unregisters_example = unregister-Unregisters busy Metrics.new 1 busy-Tracks

activate-Writes_example : Writes busy 1 (State.set_active 20) (activate 1 20 busy)
activate-Writes_example = activate-Writes busy busy-Tracks 1 20

record_traffic-Writes_example :
    Writes busy 1 (with_traffic 20 100 0) (record_traffic 1 20 100 0 (busy, Metrics.new)).0
record_traffic-Writes_example = (record_traffic-Writes busy busy-Tracks 1 20 100 0 Metrics.new).0

cleanup_idle-Cleans_example : Cleans (overdue 99 busy) 0 busy (cleanup_idle 99 (busy, Metrics.new))
cleanup_idle-Cleans_example = cleanup_idle-Cleans 99 busy busy-Tracks Metrics.new

run-new-IsAccounted_example : connection_count (run (new ℕ handles config, Metrics.new) calls).0 ≤ 2
run-new-IsAccounted_example =
    (run-new-IsAccounted ℕ handles config calls (omega arith) (omega arith)).2
