-- ===== src/Server/Listener/Counted.antt =====
-- The number of connections that are served is at most `max_connections`, as long as the cleanup task does
-- not run.
use mytunnel.Prelude.{
  ℕ, suc, ◌+◌, ◌≤◌, ◌<◌, ◌≡◌, refl, sym, ap, ◌∙◌, subst, Option, none, some, List, [], ◌∷◌, length,
  set, ◌==◌, if◌then◌else◌, Bool-cases, inl, inr, arith, u64_mod, ==_refl, All,
}
use mytunnel.Dash.{DashMap}
use mytunnel.Metrics
use mytunnel.Metrics.{Metrics}
use mytunnel.Pool.Slab
use mytunnel.Pool.Slab.{SlabHandle}
use mytunnel.Connection.State
use mytunnel.Connection.State.{ConnectionId}
use mytunnel.Connection.{
  ConnectionManager, ConnectionManagerConfig, new, get, register, unregister, start_drain,
  connection_count,
}
use mytunnel.Connection.Tracks.{Tracks}
use mytunnel.Connection.Tracks.Register.{Registers, register-Registers}
use mytunnel.Connection.Tracks.Unregister.{Unregisters, unregister-Unregisters}
use mytunnel.Connection.Drain.{start_drain-Tracks}
use mytunnel.Server.Listener.{
  Task, handshaking, registered, serving, leaving, finished, Action, comes, breaks, fails,
  registers, activates, passes, returns, ends_stream, ticks, drains, System, registered_as, task_at,
  accept, register_task, return_task, act, run, start,
}
use mytunnel.Server.Listener.Tasks.{task_id, IsLive, weight, holders, holders-set}
use mytunnel.Server.Listener.Owned.{IsOwned, ids-set, SameIds-set}
use mytunnel.Server.Listener.Drained.{run-start-IsOwned}
use mytunnel.Server.Listener.Moves.{act-IsOwned, next_id-act, capacity-act}
use mytunnel.Server.Listener.Served.{
  IsServed, Keeps, frame, moved, accept-IsServed, fail_task-IsServed, activate_task-IsServed,
  pass_task-IsServed,
}

-- The cleanup task does not run.
abbrev pub NoTick : {Addr : Type 0} → Action Addr → Type 0
NoTick (ticks now) = ⊥
NoTick _ = Unit {0}

module _ {Addr : Type 0} {dash : DashMap ConnectionId SlabHandle} where
  register_task-IsServed :
      (i now : ℕ) (t : Task Addr) (s : System Addr dash)
      → suc s.server.0.next_id < u64_mod
      → task_at i s ≡ t
      → IsOwned s
      → IsServed s
      → IsServed (register_task i now t s)
  unfolding register_task
  register_task-IsServed i now (handshaking addr) s room at ow is =
      by_answer (register addr now s.server)
        (register-Registers s.server.0 s.server.1 addr now ow.accounted.tracks room)
    where
      by_answer :
          (r : Option ConnectionId × (ConnectionManager Addr dash × Metrics))
          → Registers s.server.0 s.server.1 addr now r
          → IsServed (record s { server = r.1; tasks = set s.tasks i (registered_as r.0) })
      by_answer (none, server) (full, tracks, same, count, unchanged) =
          let s' : System Addr dash = record s {
            server = server;
            tasks = set s.tasks i finished;
          } in
          frame s s' is (SameIds-set s s' i (handshaking addr) finished at tt refl refl)
            (moved s i (handshaking addr) finished at tt refl) count (λ j st e. (st, same j ∙ e))
      by_answer (some id, server) (free, tracks, new, gets, count, opened) =
          let s' : System Addr dash = record s {
            server = server;
            tasks = set s.tasks i (registered id);
          } in
          let ids = ids-set s s' i (handshaking addr) (registered id) at tt refl in
          let given : get id server.0 ≡ some (State.new id addr now) =
            gets id ∙ rw (==_refl id) refl in
          record {
            known = λ k j h. elim (Bool-cases (k == i)) [
              | inl q ↦
                  let e : some id ≡ some j = sym (ids k ∙ rw q refl) ∙ h in
                  let same : id ≡ j = cc in
                  (State.new id addr now, ap (λ x. get x server.0) (sym same) ∙ given)
              | inr q ↦
                  let (st, e) = is.known k j (sym (ids k ∙ rw q refl) ∙ h) in
                  elim (Bool-cases (j == id)) [
                    | inl r ↦ (State.new id addr now, gets j ∙ rw r refl)
                    | inr r ↦ (st, gets j ∙ rw r e)
                  ]
            ];
            served = omega (
              arith,
              holders-set s.tasks i (registered id) (subst IsLive (sym at) tt),
              ap (λ x. weight (task_id x)) at,
              is.served,
              count,
            );
          }
  register_task-IsServed i now (registered id) s room at ow is = is
  register_task-IsServed i now (serving id) s room at ow is = is
  register_task-IsServed i now (leaving id) s room at ow is = is
  register_task-IsServed i now finished s room at ow is = is

  return_task-IsServed :
      (i : ℕ) (t : Task Addr) (s : System Addr dash)
      → task_at i s ≡ t
      → IsOwned s
      → IsServed s
      → IsServed (return_task i t s)
  unfolding return_task
  return_task-IsServed i (handshaking addr) s at ow is = is
  return_task-IsServed i (registered id) s at ow is = is
  return_task-IsServed i (serving id) s at ow is = is
  return_task-IsServed i (leaving id) s at ow is =
      let (st, there) = is.known i id (ap task_id at) in
      let s' = return_task i (leaving id) s in
      let ids = ids-set s s' i (leaving id) finished at tt refl in
      let (tracks, config, gone, count, closed) : Unregisters s.server.0 s.server.1 id
          ow.accounted.tracks (some st) (unregister id s.server) =
        subst
          (λ o. Unregisters s.server.0 s.server.1 id ow.accounted.tracks o (unregister id s.server))
          there (unregister-Unregisters s.server.0 s.server.1 id ow.accounted.tracks) in
      record {
        known = λ k j h. elim (Bool-cases (k == i)) [
          | inl q ↦ let e : none ≡ some j = sym (ids k ∙ rw q refl) ∙ h in absurd cc
          | inr q ↦
              let held : task_id (task_at k s) ≡ some j = sym (ids k ∙ rw q refl) ∙ h in
              let (st', e) = is.known k j held in
              elim (Bool-cases (j == id)) [
                | inl r ↦
                    let same : j ≡ id = ground arith in
                    let clash : k ≡ i =
                      ow.distinct k i j held (ap task_id at ∙ ap some (sym same)) in
                    absurd (ground arith)
                | inr r ↦ (st', gone j ∙ rw r e)
              ]
        ];
        served = omega (
          arith,
          holders-set s.tasks i finished (subst IsLive (sym at) tt),
          ap (λ x. weight (task_id x)) at,
          is.served,
          count,
        );
      }
  return_task-IsServed i finished s at ow is = is

  start_drain-Keeps : (m : ConnectionManager Addr dash) → Tracks m → Keeps m (start_drain m)
  start_drain-Keeps m tracks j st e =
      let (tracks', all, count) = start_drain-Tracks m tracks in
      (State.set_draining st, all j ∙ rw e refl)

  act-IsServed :
      (a : Action Addr) (s : System Addr dash)
      → suc s.server.0.next_id < u64_mod
      → NoTick a
      → IsOwned s
      → IsServed s
      → IsServed (act a s)
  unfolding act
  act-IsServed (comes addr) s room quiet ow is = elim (Bool-cases s.accepting) [
    | inl e ↦
        subst (λ c. IsServed (if c then accept addr s else s)) (sym e) (accept-IsServed addr s is)
    | inr e ↦ subst (λ c. IsServed (if c then accept addr s else s)) (sym e) is
  ]
  act-IsServed breaks s room quiet ow is =
      frame s (act breaks s) is (λ j. refl) refl refl (λ j st e. (st, e))
  act-IsServed (fails i) s room quiet ow is = fail_task-IsServed i (task_at i s) s refl is
  act-IsServed (registers i now) s room quiet ow is =
      register_task-IsServed i now (task_at i s) s room refl ow is
  act-IsServed (activates i now) s room quiet ow is =
      activate_task-IsServed i now (task_at i s) s ow.accounted.tracks refl is
  act-IsServed (passes i p) s room quiet ow is = pass_task-IsServed i p (task_at i s) s refl is
  act-IsServed (returns i) s room quiet ow is = return_task-IsServed i (task_at i s) s refl ow is
  act-IsServed ends_stream s room quiet ow is =
      frame s (act ends_stream s) is (λ j. refl) refl refl (λ j st e. (st, e))
  act-IsServed (ticks now) s room quiet ow is = absurd quiet
  act-IsServed drains s room quiet ow is =
      let (tracks', all, count) = start_drain-Tracks s.server.0 ow.accounted.tracks in
      frame s (act drains s) is (λ j. refl) refl count
        (start_drain-Keeps s.server.0 ow.accounted.tracks)

  run-IsServed :
      (actions : List (Action Addr)) (s : System Addr dash)
      → s.server.0.next_id + length actions < u64_mod
      → All NoTick actions
      → IsOwned s
      → IsServed s
      → IsServed (run actions s)
  unfolding run
  run-IsServed [] s room quiet ow is = is
  run-IsServed (a ∷ actions) s room (quiet, rest) ow is =
      run-IsServed actions (act a s) (omega (arith, next_id-act a s)) rest
        (act-IsOwned a s (omega arith) ow) (act-IsServed a s (omega arith) quiet ow is)

  capacity-run :
      (actions : List (Action Addr)) (s : System Addr dash)
      → (run actions s).server.0.connections.capacity ≡ s.server.0.connections.capacity
  unfolding run
  capacity-run [] s = refl
  capacity-run (a ∷ actions) s = capacity-run actions (act a s) ∙ capacity-act a s

-- As long as the cleanup task does not run: the handlers that have registered a connection and not yet
-- unregistered it are as many as the connections that are counted, and at most `max_connections`. The
-- server is new, and the schedule is shorter than there are identifiers.
pub run-start-holders :
    (Addr : Type 0) (dash : DashMap ConnectionId SlabHandle) (config : ConnectionManagerConfig)
    (actions : List (Action Addr))
    → config.max_connections < u64_mod
    → suc (length actions) < u64_mod
    → All NoTick actions
    → let s = run actions (start (new Addr dash config, Metrics.new)) in
      (holders s.tasks ≡ connection_count s.server.0) × (holders s.tasks ≤ config.max_connections)
unfolding run new connection_count Slab.new Slab.len holders
run-start-holders Addr dash config actions small few quiet =
    let s₀ = start (new Addr dash config, Metrics.new) in
    let ow₀ = run-start-IsOwned Addr dash config [] small (omega arith) in
    let ow = run-start-IsOwned Addr dash config actions small few in
    let is =
      run-IsServed actions s₀ (omega arith) quiet ow₀
        (record { known = λ i id e. absurd cc; served = refl }) in
    (is.served, omega (arith, is.served, ow.accounted.fits, capacity-run actions s₀))
