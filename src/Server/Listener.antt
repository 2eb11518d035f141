-- ===== src/Server/Listener.antt =====
-- src/server/listener.rs: the accept loop of `Server::run` with the tasks that it spawns, which are the
-- handlers of Server/Handler cut where they wait, and the cleanup task. The tasks run in any order, one
-- access of the connection manager after another: a list of actions is a schedule. Certificates, the
-- QUIC settings and the endpoint are left out; what comes from them is an action.
pub mod Tasks
pub mod Owned
pub mod Moves
pub mod Finish
pub mod Quit
pub mod Drained
pub mod Served
pub mod Counted
pub mod Tests
use mytunnel.Prelude.{
  ℕ, ◌+◌, Bool, true, false, List, [], ◌∷◌, ◌++◌, Option, none, some, get_or, set, if◌then◌else◌,
}
use mytunnel.Dash.{DashMap}
use mytunnel.Metrics.{Metrics, connection_failed, stream_closed}
use mytunnel.Pool.Slab.{SlabHandle}
use mytunnel.Connection.State.{ConnectionId}
use mytunnel.Connection.{
  ConnectionManager, register, activate, unregister, cleanup_idle, start_drain, is_full,
  keeps_waiting,
}
use mytunnel.Server.Handler.{
  Event, stream_accepted, accept_failed, datagram_received, datagram_closed, datagram_failed,
  shutdown_signalled, Outcome, running, ended, handle_connection,
}

-- Where a spawned handler stands: it waits for the handshake, has registered the connection, runs its
-- loop, has left the loop, or has returned.
pub data Task (Addr : Type 0) : Type 0 where
  handshaking : Addr → Task Addr
  registered : ConnectionId → Task Addr
  serving : ConnectionId → Task Addr
  leaving : ConnectionId → Task Addr
  finished : Task Addr

-- What one pass of a handler's loop takes.
pub data Pass : Type 0 where
  stream failed_accept datagram closed_datagram failed_datagram shutdown : Pass

abbrev pub event_of : (Addr : Type 0) → Pass → Event Addr
event_of Addr stream = stream_accepted
event_of Addr failed_accept = accept_failed
event_of Addr datagram = datagram_received
event_of Addr closed_datagram = datagram_closed
event_of Addr failed_datagram = datagram_failed
event_of Addr shutdown = shutdown_signalled

-- The actions: of the accept loop (a connection comes in, or the loop breaks), of the task with a number,
-- of a stream's task that ends, of the cleanup task at a time, and of `drain`.
pub data Action (Addr : Type 0) : Type 0 where
  comes : Addr → Action Addr
  breaks : Action Addr
  fails : (i : ℕ) → Action Addr
  registers : (i now : ℕ) → Action Addr
  activates : (i now : ℕ) → Action Addr
  passes : (i : ℕ) → Pass → Action Addr
  returns : (i : ℕ) → Action Addr
  ends_stream : Action Addr
  ticks : (now : ℕ) → Action Addr
  drains : Action Addr

-- The manager with the counters, the spawned tasks in the order of their numbers, and whether the accept
-- loop runs.
pub record System (Addr : Type 0) (dash : DashMap ConnectionId SlabHandle) : Type 0 where
  pub server : ConnectionManager Addr dash × Metrics
  pub tasks : List (Task Addr)
  pub accepting : Bool

abbrev pub registered_as : {Addr : Type 0} → Option ConnectionId → Task Addr
registered_as none = finished
registered_as (some id) = registered id

abbrev pub after_pass : {Addr : Type 0} → ConnectionId → Outcome → Task Addr
after_pass id running = serving id
after_pass id (ended code) = leaving id

module _ {Addr : Type 0} {dash : DashMap ConnectionId SlabHandle} where
  -- The arm `incoming` of the accept loop: a connection is dropped at capacity, else a task is spawned.
  pub accept : Addr → System Addr dash → System Addr dash
  accept addr s =
      if is_full s.server.0 then s else record s { tasks = s.tasks ++ handshaking addr ∷ [] }

  abbrev pub task_at : ℕ → System Addr dash → Task Addr
  task_at i s = get_or s.tasks i finished

  -- The moves of a task; one that does not fit where the task stands changes nothing.
  pub fail_task : ℕ → Task Addr → System Addr dash → System Addr dash
  fail_task i (handshaking addr) s = record s {
    server = (s.server.0, connection_failed s.server.1);
    tasks = set s.tasks i finished;
  }
  fail_task i _ s = s

  pub register_task : ℕ → ℕ → Task Addr → System Addr dash → System Addr dash
  register_task i now (handshaking addr) s =
      let (found, server) = register addr now s.server in
      record s { server = server; tasks = set s.tasks i (registered_as found) }
  register_task i now _ s = s

  pub activate_task : ℕ → ℕ → Task Addr → System Addr dash → System Addr dash
  activate_task i now (registered id) s = record s {
    server = (activate id now s.server.0, s.server.1);
    tasks = set s.tasks i (serving id);
  }
  activate_task i now _ s = s

  pub pass_task : ℕ → Pass → Task Addr → System Addr dash → System Addr dash
  pass_task i p (serving id) s =
      let (outcome, server) = handle_connection (event_of Addr p ∷ []) s.server in
      record s { server = server; tasks = set s.tasks i (after_pass id outcome) }
  pass_task i p _ s = s

  pub return_task : ℕ → Task Addr → System Addr dash → System Addr dash
  return_task i (leaving id) s = record s {
    server = unregister id s.server;
    tasks = set s.tasks i finished;
  }
  return_task i _ s = s

  unfoldable pub act : Action Addr → System Addr dash → System Addr dash
  unfolding accept fail_task register_task activate_task pass_task return_task
  act (comes addr) s = if s.accepting then accept addr s else s
  act breaks s = record s { accepting = false }
  act (fails i) s = fail_task i (task_at i s) s
  act (registers i now) s = register_task i now (task_at i s) s
  act (activates i now) s = activate_task i now (task_at i s) s
  act (passes i p) s = pass_task i p (task_at i s) s
  act (returns i) s = return_task i (task_at i s) s
  act ends_stream s = record s { server = (s.server.0, stream_closed s.server.1) }
  act (ticks now) s = record s { server = (cleanup_idle now s.server).1 }
  act drains s = record s { server = (start_drain s.server.0, s.server.1) }

  unfoldable pub run : List (Action Addr) → System Addr dash → System Addr dash
  run [] s = s
  run (a ∷ actions) s = run actions (act a s)

  -- The `while` of `drain`: in each round the task sleeps for a time, while others act.
  unfoldable pub wait :
      (timeout elapsed : ℕ)
      → (rounds : List (ℕ × List (Action Addr))) → System Addr dash
      → Option (ℕ × System Addr dash)
  wait timeout elapsed [] s =
      if keeps_waiting timeout elapsed s.server.0 then none else some (elapsed, s)
  wait timeout elapsed ((slept, actions) ∷ rounds) s =
      let rest = wait timeout (elapsed + slept) rounds (run actions s) in
      if keeps_waiting timeout elapsed s.server.0 then rest else some (elapsed, s)

  -- `Server::shutdown` up to where the endpoint is closed; the accept loop and the handlers see the signal
  -- in one of the rounds.
  unfoldable pub shutdown_server :
      List (ℕ × List (Action Addr)) → System Addr dash → Option (ℕ × System Addr dash)
  shutdown_server rounds s = wait 30000 0 rounds (act drains s)

  -- The server when its loop begins.
  abbrev pub start : ConnectionManager Addr dash × Metrics → System Addr dash
  start server = record { server = server; tasks = []; accepting = true }
