-- ===== src/Server/Listener/Moves.antt =====
-- Every action of the server keeps the agreement of the tasks with the registered connections.
use mytunnel.Prelude.{
  ◌⊎◌, ℕ, suc, ◌≤◌, ◌<◌, ◌≡◌, refl, sym, ap, ◌∙◌, subst, Option, none, some, [], ◌∷◌, ◌++◌, set,
  if◌then◌else◌, Bool-cases, inl, inr, arith, u64_mod,
}
use mytunnel.Dash.{DashMap}
use mytunnel.Metrics
use mytunnel.Metrics.{Metrics}
use mytunnel.Pool.Slab.{SlabHandle}
use mytunnel.Connection.State
use mytunnel.Connection.State.{ConnectionId}
use mytunnel.Connection.{
  ConnectionManager, get, register, cleanup_idle, start_drain, is_full, idle_ids,
}
use mytunnel.Connection.Tracks.Register.{Registers, register-Registers}
use mytunnel.Connection.History
use mytunnel.Connection.History.{Call, step}
use mytunnel.Connection.History.Frame.{
  capacity-step, next_id-step, next_id-unregister, next_id-unregister_all,
}
use mytunnel.Connection.History.Accounted.{IsAccounted, step-IsAccounted, unregister-IsAccounted}
use mytunnel.Server.Handler.{handle_connection}
use mytunnel.Server.Handler.Registered.{recount, get-unregister}
use mytunnel.Server.Listener.{
  Task, handshaking, registered, serving, leaving, finished, Pass, stream, failed_accept, datagram,
  closed_datagram, failed_datagram, shutdown, event_of, Action, comes, breaks, fails, registers,
  activates, passes, returns, ends_stream, ticks, drains, System, registered_as, after_pass,
  task_at, accept, fail_task, register_task, activate_task, pass_task, return_task, act,
}
use mytunnel.Server.Listener.Tasks.{
  task_id, id-append, register-next_id, next_id-register_le, next_id-activate,
}
use mytunnel.Server.Listener.Owned.{
  IsOwned, frame, ids-set, SameIds-set, take, give, activate-Shrinks, start_drain-Shrinks,
  cleanup_idle-Shrinks, unregister-Shrinks,
}

module _ {Addr : Type 0} {dash : DashMap ConnectionId SlabHandle} where
  accept-IsOwned : (addr : Addr) (s : System Addr dash) → IsOwned s → IsOwned (accept addr s)
  unfolding accept
  accept-IsOwned addr s ok = elim (Bool-cases (is_full s.server.0)) [
    | inl e ↦ rw (e, accept) ok
    | inr e ↦
        rw (e, accept)
          (frame s (record s { tasks = s.tasks ++ handshaking addr ∷ [] }) ok ok.accounted
            (omega arith) (λ j st e. (st, e)) (λ j. id-append s.tasks j addr))
  ]

  fail_task-IsOwned :
      (i : ℕ) (t : Task Addr) (s : System Addr dash)
      → task_at i s ≡ t
      → IsOwned s
      → IsOwned (fail_task i t s)
  unfolding fail_task Metrics.connection_failed
  fail_task-IsOwned i (handshaking addr) s at ok =
      let s' = fail_task i (handshaking addr) s in
      frame s s' ok (recount s.server.0 s.server.1 s'.server.1 refl ok.accounted) (omega arith)
        (λ j st e. (st, e)) (SameIds-set s s' i (handshaking addr) finished at tt refl refl)
  fail_task-IsOwned i (registered id) s at ok = ok
  fail_task-IsOwned i (serving id) s at ok = ok
  fail_task-IsOwned i (leaving id) s at ok = ok
  fail_task-IsOwned i finished s at ok = ok

  activate_task-IsOwned :
      (i now : ℕ) (t : Task Addr) (s : System Addr dash)
      → suc s.server.0.next_id < u64_mod
      → task_at i s ≡ t
      → IsOwned s
      → IsOwned (activate_task i now t s)
  unfolding activate_task step
  activate_task-IsOwned i now (handshaking addr) s room at ok = ok
  activate_task-IsOwned i now (registered id) s room at ok =
      let s' = activate_task i now (registered id) s in
      frame s s' ok (step-IsAccounted s.server (now, History.activates id) room ok.accounted)
        (omega (arith, next_id-activate id now s.server.0))
        (activate-Shrinks s.server.0 id now ok.accounted.tracks)
        (SameIds-set s s' i (registered id) (serving id) at tt refl refl)
  activate_task-IsOwned i now (serving id) s room at ok = ok
  activate_task-IsOwned i now (leaving id) s room at ok = ok
  activate_task-IsOwned i now finished s room at ok = ok

  -- A pass changes what is counted, and neither the manager nor the gauge.
  pub passed :
      (p : Pass) (s : ConnectionManager Addr dash × Metrics)
      → ((handle_connection (event_of Addr p ∷ []) s).1.0 ≡ s.0)
        × ((handle_connection (event_of Addr p ∷ []) s).1.1.connections_active
            ≡ s.1.connections_active)
        × ((id : ConnectionId)
            → task_id (after_pass {Addr = Addr} id (handle_connection (event_of Addr p ∷ []) s).0)
              ≡ some id)
  unfolding handle_connection Metrics.stream_opened Metrics.datagram_rx
  passed stream s = (refl, refl, λ id. refl)
  passed failed_accept s = (refl, refl, λ id. refl)
  passed datagram s = (refl, refl, λ id. refl)
  passed closed_datagram s = (refl, refl, λ id. refl)
  passed failed_datagram s = (refl, refl, λ id. refl)
  passed shutdown s = (refl, refl, λ id. refl)

  pass_task-IsOwned :
      (i : ℕ) (p : Pass) (t : Task Addr) (s : System Addr dash)
      → task_at i s ≡ t
      → IsOwned s
      → IsOwned (pass_task i p t s)
  unfolding pass_task
  pass_task-IsOwned i p (handshaking addr) s at ok = ok
  pass_task-IsOwned i p (registered id) s at ok = ok
  pass_task-IsOwned i p (serving id) s at ok =
      let s' = pass_task i p (serving id) s in
      let (manager, gauge, kept) = passed p s.server in
      let same : s'.server.0 ≡ s.server.0 = manager in
      frame s s' ok
        (subst (λ m. IsAccounted (m, s'.server.1)) (sym same)
          (recount s.server.0 s.server.1 s'.server.1 gauge ok.accounted))
        (omega (arith, ap (λ m. m.next_id) same)) (λ j st e. (st, ap (λ m. get j m) (sym same) ∙ e))
        (SameIds-set s s' i (serving id)
          (after_pass id (handle_connection (event_of Addr p ∷ []) s.server).0) at tt refl
          (kept id))
  pass_task-IsOwned i p (leaving id) s at ok = ok
  pass_task-IsOwned i p finished s at ok = ok

  return_task-IsOwned :
      (i : ℕ) (t : Task Addr) (s : System Addr dash)
      → task_at i s ≡ t
      → IsOwned s
      → IsOwned (return_task i t s)
  unfolding return_task
  return_task-IsOwned i (handshaking addr) s at ok = ok
  return_task-IsOwned i (registered id) s at ok = ok
  return_task-IsOwned i (serving id) s at ok = ok
  return_task-IsOwned i (leaving id) s at ok =
      let s' = return_task i (leaving id) s in
      give s s' i id ok (unregister-IsAccounted id s.server ok.accounted) (ap task_id at)
        (ids-set s s' i (leaving id) finished at tt refl) (next_id-unregister id s.server)
        (get-unregister id s.server ok.accounted.tracks)
        (unregister-Shrinks id s.server ok.accounted.tracks)
  return_task-IsOwned i finished s at ok = ok

  register_task-IsOwned :
      (i now : ℕ) (t : Task Addr) (s : System Addr dash)
      → suc s.server.0.next_id < u64_mod
      → task_at i s ≡ t
      → IsOwned s
      → IsOwned (register_task i now t s)
  unfolding register_task step
  register_task-IsOwned i now (handshaking addr) s room at ok =
      by_answer (register addr now s.server) refl
        (register-Registers s.server.0 s.server.1 addr now ok.accounted.tracks room)
    where
      by_answer :
          (r : Option ConnectionId × (ConnectionManager Addr dash × Metrics))
          → register addr now s.server ≡ r
          → Registers s.server.0 s.server.1 addr now r
          → IsOwned (record s { server = r.1; tasks = set s.tasks i (registered_as r.0) })
      by_answer (none, server) e (full, tracks, same, count, unchanged) =
          let s' : System Addr dash = record s {
            server = server;
            tasks = set s.tasks i finished;
          } in
          let e' : (register addr now s.server).1 ≡ server = ap (λ r. r.1) e in
          frame s s' ok
            (subst IsAccounted e'
              (step-IsAccounted s.server (now, History.registers addr) room ok.accounted))
            (omega (
              arith,
              ap (λ x. x.0.next_id) e',
              next_id-register_le addr now s.server.0 s.server.1 room,
            ))
            (λ j st h. (st, sym (same j) ∙ h))
            (SameIds-set s s' i (handshaking addr) finished at tt refl refl)
      by_answer (some id, server) e (free, tracks, new, gets, count, opened) =
          let s' : System Addr dash = record s {
            server = server;
            tasks = set s.tasks i (registered id);
          } in
          let (fresh, next) =
            register-next_id addr now s.server.0 s.server.1 id room (ap (λ r. r.0) e) in
          let e' : (register addr now s.server).1 ≡ server = ap (λ r. r.1) e in
          take s s' i id (State.new id addr now) ok
            (subst IsAccounted e'
              (step-IsAccounted s.server (now, History.registers addr) room ok.accounted))
            (ap task_id at) (ids-set s s' i (handshaking addr) (registered id) at tt refl) fresh
            (sym (ap (λ x. x.0.next_id) e') ∙ next) gets
  register_task-IsOwned i now (registered id) s room at ok = ok
  register_task-IsOwned i now (serving id) s room at ok = ok
  register_task-IsOwned i now (leaving id) s room at ok = ok
  register_task-IsOwned i now finished s room at ok = ok

  next_id-cleanup_idle :
      (now : ℕ) (s : ConnectionManager Addr dash × Metrics)
      → (cleanup_idle now s).1.0.next_id ≡ s.0.next_id
  unfolding cleanup_idle
  next_id-cleanup_idle now (m, metrics) =
      next_id-unregister_all
        (idle_ids now m.config.idle_timeout m.connections (dash.iter m.id_to_handle)) 0 (m, metrics)

  -- An action keeps the agreement, while identifiers are left.
  pub act-IsOwned :
      (a : Action Addr) (s : System Addr dash)
      → suc s.server.0.next_id < u64_mod
      → IsOwned s
      → IsOwned (act a s)
  unfolding act accept Metrics.stream_closed step start_drain
  act-IsOwned (comes addr) s room ok = elim (Bool-cases s.accepting) [
    | inl e ↦
        subst (λ c. IsOwned (if c then accept addr s else s)) (sym e) (accept-IsOwned addr s ok)
    | inr e ↦ subst (λ c. IsOwned (if c then accept addr s else s)) (sym e) ok
  ]
  act-IsOwned breaks s room ok =
      frame s (act breaks s) ok ok.accounted (omega arith) (λ j st e. (st, e)) (λ j. refl)
  act-IsOwned (fails i) s room ok = fail_task-IsOwned i (task_at i s) s refl ok
  act-IsOwned (registers i now) s room ok = register_task-IsOwned i now (task_at i s) s room refl ok
  act-IsOwned (activates i now) s room ok = activate_task-IsOwned i now (task_at i s) s room refl ok
  act-IsOwned (passes i p) s room ok = pass_task-IsOwned i p (task_at i s) s refl ok
  act-IsOwned (returns i) s room ok = return_task-IsOwned i (task_at i s) s refl ok
  act-IsOwned ends_stream s room ok =
      let s' = act ends_stream s in
      frame s s' ok (recount s.server.0 s.server.1 s'.server.1 refl ok.accounted) (omega arith)
        (λ j st e. (st, e)) (λ j. refl)
  act-IsOwned (ticks now) s room ok =
      frame s (act (ticks now) s) ok
        (step-IsAccounted s.server (now, History.cleans) room ok.accounted)
        (omega (arith, next_id-cleanup_idle now s.server))
        (cleanup_idle-Shrinks now s.server ok.accounted.tracks) (λ j. refl)
  act-IsOwned drains s room ok =
      frame s (act drains s) ok (step-IsAccounted s.server (0, History.drains) room ok.accounted)
        (omega arith) (start_drain-Shrinks s.server.0 ok.accounted.tracks) (λ j. refl)

  -- What an action does to the manager: nothing, or one call.
  abbrev pub Calls : System Addr dash → System Addr dash → Type 0
  Calls s s' =
      (s'.server.0 ≡ s.server.0) ⊎ ((c : ℕ × Call Addr) × (s'.server.0 ≡ (step s.server c).0))

  fail_task-Calls : (i : ℕ) (t : Task Addr) (s : System Addr dash) → Calls s (fail_task i t s)
  unfolding fail_task
  fail_task-Calls i (handshaking addr) s = inl refl
  fail_task-Calls i (registered id) s = inl refl
  fail_task-Calls i (serving id) s = inl refl
  fail_task-Calls i (leaving id) s = inl refl
  fail_task-Calls i finished s = inl refl

  register_task-Calls :
      (i now : ℕ) (t : Task Addr) (s : System Addr dash) → Calls s (register_task i now t s)
  unfolding register_task step
  register_task-Calls i now (handshaking addr) s = inr ((now, History.registers addr), refl)
  register_task-Calls i now (registered id) s = inl refl
  register_task-Calls i now (serving id) s = inl refl
  register_task-Calls i now (leaving id) s = inl refl
  register_task-Calls i now finished s = inl refl

  activate_task-Calls :
      (i now : ℕ) (t : Task Addr) (s : System Addr dash) → Calls s (activate_task i now t s)
  unfolding activate_task step
  activate_task-Calls i now (handshaking addr) s = inl refl
  activate_task-Calls i now (registered id) s = inr ((now, History.activates id), refl)
  activate_task-Calls i now (serving id) s = inl refl
  activate_task-Calls i now (leaving id) s = inl refl
  activate_task-Calls i now finished s = inl refl

  pass_task-Calls :
      (i : ℕ) (p : Pass) (t : Task Addr) (s : System Addr dash) → Calls s (pass_task i p t s)
  unfolding pass_task
  pass_task-Calls i p (handshaking addr) s = inl refl
  pass_task-Calls i p (registered id) s = inl refl
  pass_task-Calls i p (serving id) s = inl (passed p s.server).0
  pass_task-Calls i p (leaving id) s = inl refl
  pass_task-Calls i p finished s = inl refl

  return_task-Calls : (i : ℕ) (t : Task Addr) (s : System Addr dash) → Calls s (return_task i t s)
  unfolding return_task step
  return_task-Calls i (handshaking addr) s = inl refl
  return_task-Calls i (registered id) s = inl refl
  return_task-Calls i (serving id) s = inl refl
  return_task-Calls i (leaving id) s = inr ((0, History.unregisters id), refl)
  return_task-Calls i finished s = inl refl

  accept-Calls : (addr : Addr) (s : System Addr dash) → Calls s (accept addr s)
  unfolding accept
  accept-Calls addr s = elim (Bool-cases (is_full s.server.0)) [
    | inl e ↦ rw (e, accept) (inl refl)
    | inr e ↦ rw (e, accept) (inl refl)
  ]

  act-Calls : (a : Action Addr) (s : System Addr dash) → Calls s (act a s)
  unfolding act step
  act-Calls (comes addr) s = elim (Bool-cases s.accepting) [
    | inl e ↦ subst (λ c. Calls s (if c then accept addr s else s)) (sym e) (accept-Calls addr s)
    | inr e ↦ subst (λ c. Calls s (if c then accept addr s else s)) (sym e) (inl refl)
  ]
  act-Calls breaks s = inl refl
  act-Calls (fails i) s = fail_task-Calls i (task_at i s) s
  act-Calls (registers i now) s = register_task-Calls i now (task_at i s) s
  act-Calls (activates i now) s = activate_task-Calls i now (task_at i s) s
  act-Calls (passes i p) s = pass_task-Calls i p (task_at i s) s
  act-Calls (returns i) s = return_task-Calls i (task_at i s) s
  act-Calls ends_stream s = inl refl
  act-Calls (ticks now) s = inr ((now, History.cleans), refl)
  act-Calls drains s = inr ((0, History.drains), refl)

  -- An action takes one identifier at most.
  pub next_id-act :
      (a : Action Addr) (s : System Addr dash) → (act a s).server.0.next_id ≤ suc s.server.0.next_id
  next_id-act a s = elim (act-Calls a s) [
    | inl e ↦ omega (arith, ap (λ m. m.next_id) e)
    | inr (c, e) ↦ omega (arith, ap (λ m. m.next_id) e, next_id-step s.server c)
  ]

  -- No action changes the number of slots.
  pub capacity-act :
      (a : Action Addr) (s : System Addr dash)
      → (act a s).server.0.connections.capacity ≡ s.server.0.connections.capacity
  capacity-act a s = elim (act-Calls a s) [
    | inl e ↦ ap (λ m. m.connections.capacity) e
    | inr (c, e) ↦ ap (λ m. m.connections.capacity) e ∙ capacity-step s.server c
  ]
