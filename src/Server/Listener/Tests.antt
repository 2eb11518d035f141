-- ===== src/Server/Listener/Tests.antt =====
-- The server at a schedule: two connections come in, one is served.
use mytunnel.Prelude.{ℕ, ◌≡◌, ◌≤◌, refl, zero, suc, List, [], ◌∷◌, ◌++◌, ◌<◌, arith, length}
use mytunnel.Metrics
use native.Mathlib.Decide.{ℕ_discrete}
use mytunnel.Dash.Assoc
use mytunnel.Pool.Bits
use mytunnel.Pool.Slab
use mytunnel.Connection.{
  new, register, activate, start_drain, unregister, is_full, connection_count,
}
use mytunnel.Connection.Tests.{handles, config}
use mytunnel.Server.Handler.{handle_connection}
use mytunnel.Server.Listener.{
  Action, comes, fails, registers, activates, passes, returns, ticks, drains, stream, shutdown,
  closed_datagram, System, act, run, start, shutdown_server,
}
use mytunnel.Server.Listener.Owned.{IsOwned}
use mytunnel.Server.Listener.Tasks.{holders}
use mytunnel.Server.Listener.Counted.{run-start-holders}
use mytunnel.Server.Listener.Finish.{stages}
use mytunnel.Server.Listener.Quit.{Quits}
use mytunnel.Server.Listener.Drained.{
  AreLong, actions_of, Ends, Drains, run-start-IsOwned, shutdown_server-Ends,
  shutdown_server-Drains,
}

abbrev schedule : List (Action ℕ)
schedule =
    comes 7 ∷ comes 8 ∷ registers 0 10 ∷ activates 0 11 ∷ passes 0 stream ∷ fails 1 ∷ ticks 12 ∷ []

abbrev idle : System ℕ handles
idle = start (new ℕ handles config, Metrics.new)

run-start-IsOwned_example : IsOwned (run schedule idle)
run-start-IsOwned_example = run-start-IsOwned ℕ handles config schedule (omega arith) (omega arith)

-- Two connections are open: one is served, and one waits for its handshake.
abbrev open_server : System ℕ handles
open_server = run (comes 7 ∷ comes 8 ∷ registers 0 10 ∷ activates 0 11 ∷ []) idle

-- A third connection still comes in; the handlers end in two rounds, their actions interleaved.
abbrev first_round : List (Action ℕ)
first_round = passes 0 stream ∷ comes 9 ∷ passes 0 shutdown ∷ registers 1 30 ∷ fails 2 ∷ []

abbrev second_round : List (Action ℕ)
second_round = activates 1 31 ∷ returns 0 ∷ passes 1 closed_datagram ∷ returns 1 ∷ []

abbrev early : List (ℕ × List (Action ℕ))
early = (100, first_round) ∷ (150, second_round) ∷ []

abbrev draining : System ℕ handles
draining = act drains open_server

early-Quits :
    (i : ℕ)
    → i < length (run (actions_of early) draining).tasks
    → Quits (actions_of early) draining i
unfolding run act new register activate Slab.new Slab.insert Slab.claim Bits.trailing_zeros is_full
    Slab.len Slab.is_full Assoc.get Assoc.dedup Assoc.without ℕ_discrete stages handle_connection
    start_drain Slab.modify Slab.get Slab.remove Bits.clear_bit Bits.set_bit unregister
early-Quits zero small = record {
  before = [];
  after = actions_of early;
  split = refl;
  there = omega arith;
  quits = refl;
}
early-Quits (suc zero) small = record {
  before = [];
  after = actions_of early;
  split = refl;
  there = omega arith;
  quits = refl;
}
early-Quits (suc (suc zero)) small = record {
  before = passes 0 stream ∷ comes 9 ∷ [];
  after = passes 0 shutdown ∷ registers 1 30 ∷ fails 2 ∷ second_round;
  split = refl;
  there = omega arith;
  quits = refl;
}
early-Quits (suc (suc (suc i))) small = absurd (omega arith)

shutdown_server-Drains_example : Drains 250 (shutdown_server (early ++ (100, []) ∷ []) open_server)
unfolding run act new register activate Slab.new Slab.insert Slab.claim Bits.trailing_zeros is_full
    Slab.len Slab.is_full Assoc.get ℕ_discrete
shutdown_server-Drains_example =
    shutdown_server-Drains early ((100, []) ∷ []) open_server (omega arith)
      (run-start-IsOwned ℕ handles config (comes 7 ∷ comes 8 ∷ registers 0 10 ∷ activates 0 11 ∷ [])
        (omega arith) (omega arith))
      (omega arith) early-Quits

rounds : ℕ → List (ℕ × List (Action ℕ))
rounds zero = []
rounds (suc n) = (100, passes 0 stream ∷ []) ∷ rounds n

rounds-AreLong : (n : ℕ) → AreLong (rounds n)
unfolding rounds
rounds-AreLong zero = tt
rounds-AreLong (suc n) = (omega arith, rounds-AreLong n)

length-rounds : (n : ℕ) → length (rounds n) ≡ n
unfolding rounds
length-rounds zero = refl
length-rounds (suc n) = omega (arith, length-rounds n)

shutdown_server-Ends_example : Ends 30000 (shutdown_server (rounds 300) open_server)
shutdown_server-Ends_example =
    shutdown_server-Ends (rounds 300) open_server (rounds-AreLong 300)
      (omega (arith, length-rounds 300))

abbrev quiet_schedule : List (Action ℕ)
quiet_schedule =
    comes 7 ∷ comes 8 ∷ registers 0 10 ∷ activates 0 11 ∷ passes 0 stream ∷ fails 1 ∷ []

run-start-holders_example :
    (holders (run quiet_schedule idle).tasks ≡ connection_count (run quiet_schedule idle).server.0)
    × (holders (run quiet_schedule idle).tasks ≤ 2)
run-start-holders_example =
    run-start-holders ℕ handles config quiet_schedule (omega arith) (omega arith)
      (tt, (tt, (tt, (tt, (tt, (tt, tt))))))
