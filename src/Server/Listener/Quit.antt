-- ===== src/Server/Listener/Quit.antt =====
-- Every handler whose actions bring it to its end has returned after them.
use mytunnel.Prelude.{
  ℕ, zero, suc, ◌≤◌, ◌<◌, ◌≡◌, refl, sym, ap, ◌∙◌, subst, Option, none, some, List, [], ◌∷◌, ◌++◌,
  length, length-append, get_or, ◌==◌, if◌then◌else◌, Bool-cases, inl, inr, arith, ltb,
}
use mytunnel.Dash.{DashMap}
use mytunnel.Pool.Slab.{SlabHandle}
use mytunnel.Connection.State.{ConnectionId}
use mytunnel.Connection.{register, is_full}
use mytunnel.Server.Handler.{handle_connection}
use mytunnel.Server.Listener.{
  Task, handshaking, registered, serving, leaving, finished, Pass, stream, failed_accept, datagram,
  closed_datagram, failed_datagram, shutdown, Action, comes, breaks, fails, registers, activates,
  passes, returns, ends_stream, ticks, drains, System, accept, task_at, registered_as, fail_task,
  register_task, activate_task, pass_task, return_task, act, run,
}
use mytunnel.Server.Listener.Finish.{
  Stage, over, stage_of, mover, own_stage, is_move, stages, Fits, Shifts, Fits-over, get_or-append,
  Shifts-Fits, Shifts-length,
}

module _ {Addr : Type 0} where
  -- A handler that is there stays there, and stands where the action brings it, or has returned.
  abbrev Stands : ℕ → Stage → List (Task Addr) → Type 0
  Stands i stage ts = (i < length ts) × Fits stage (get_or ts i finished)

  moved :
      (a : Action Addr) (i j : ℕ) (stage : Stage) (ts ts' : List (Task Addr))
      → Shifts a j (get_or ts j finished) ts ts'
      → Stands i stage ts
      → Stands i (if i == j then own_stage a stage else stage) ts'
  moved a i j stage ts ts' shifts (small, fits) = (
    omega (arith, Shifts-length a j (get_or ts j finished) ts ts' shifts),
    Shifts-Fits a i j stage ts ts' shifts fits,
  )

  task_at-beyond : (ts : List (Task Addr)) (i : ℕ) → length ts ≤ i → get_or ts i finished ≡ finished
  task_at-beyond [] i far = refl
  task_at-beyond (t ∷ ts) zero far = absurd (omega arith)
  task_at-beyond (t ∷ ts) (suc i) far = task_at-beyond ts i (omega arith)

module _ {Addr : Type 0} {dash : DashMap ConnectionId SlabHandle} where
  pub run-append :
      (actions more : List (Action Addr)) (s : System Addr dash)
      → run (actions ++ more) s ≡ run more (run actions s)
  unfolding run
  run-append [] more s = refl
  run-append (a ∷ actions) more s = run-append actions more (act a s)

  fail_task-Shifts :
      (i : ℕ) (t : Task Addr) (s : System Addr dash)
      → Shifts (fails i) i t s.tasks (fail_task i t s).tasks
  unfolding fail_task
  fail_task-Shifts i (handshaking addr) s = inr (finished, tt, refl, inl refl)
  fail_task-Shifts i (registered id) s = inl (refl, refl)
  fail_task-Shifts i (serving id) s = inl (refl, refl)
  fail_task-Shifts i (leaving id) s = inl (refl, refl)
  fail_task-Shifts i finished s = inl (refl, refl)

  register_task-Shifts :
      (i now : ℕ) (t : Task Addr) (s : System Addr dash)
      → Shifts (registers i now) i t s.tasks (register_task i now t s).tasks
  unfolding register_task
  register_task-Shifts i now (handshaking addr) s =
      inr (registered_as found, tt, refl, answered found)
    where
      found : Option ConnectionId
      found = (register addr now s.server).0

      answered :
          (o : Option ConnectionId)
          → Fits {Addr = Addr}
              (own_stage {Addr = Addr} (registers i now) (stage_of (handshaking addr)))
              (registered_as o)
      answered none = inl refl
      answered (some id) = inr refl
  register_task-Shifts i now (registered id) s = inl (refl, refl)
  register_task-Shifts i now (serving id) s = inl (refl, refl)
  register_task-Shifts i now (leaving id) s = inl (refl, refl)
  register_task-Shifts i now finished s = inl (refl, refl)

  activate_task-Shifts :
      (i now : ℕ) (t : Task Addr) (s : System Addr dash)
      → Shifts (activates i now) i t s.tasks (activate_task i now t s).tasks
  unfolding activate_task
  activate_task-Shifts i now (handshaking addr) s = inl (refl, refl)
  activate_task-Shifts i now (registered id) s = inr (serving id, tt, refl, inr refl)
  activate_task-Shifts i now (serving id) s = inl (refl, refl)
  activate_task-Shifts i now (leaving id) s = inl (refl, refl)
  activate_task-Shifts i now finished s = inl (refl, refl)

  pass_task-Shifts :
      (i : ℕ) (p : Pass) (t : Task Addr) (s : System Addr dash)
      → Shifts (passes i p) i t s.tasks (pass_task i p t s).tasks
  unfolding pass_task handle_connection
  pass_task-Shifts i p (handshaking addr) s = inl (refl, refl)
  pass_task-Shifts i p (registered id) s = inl (refl, refl)
  pass_task-Shifts i stream (serving id) s = inr (serving id, tt, refl, inr refl)
  pass_task-Shifts i failed_accept (serving id) s = inr (leaving id, tt, refl, inr refl)
  pass_task-Shifts i datagram (serving id) s = inr (serving id, tt, refl, inr refl)
  pass_task-Shifts i closed_datagram (serving id) s = inr (leaving id, tt, refl, inr refl)
  pass_task-Shifts i failed_datagram (serving id) s = inr (serving id, tt, refl, inr refl)
  pass_task-Shifts i shutdown (serving id) s = inr (leaving id, tt, refl, inr refl)
  pass_task-Shifts i p (leaving id) s = inl (refl, refl)
  pass_task-Shifts i p finished s = inl (refl, refl)

  return_task-Shifts :
      (i : ℕ) (t : Task Addr) (s : System Addr dash)
      → Shifts (returns i) i t s.tasks (return_task i t s).tasks
  unfolding return_task
  return_task-Shifts i (handshaking addr) s = inl (refl, refl)
  return_task-Shifts i (registered id) s = inl (refl, refl)
  return_task-Shifts i (serving id) s = inl (refl, refl)
  return_task-Shifts i (leaving id) s = inr (finished, tt, refl, inl refl)
  return_task-Shifts i finished s = inl (refl, refl)

  accept-Stands :
      (addr : Addr) (i : ℕ) (stage : Stage) (s : System Addr dash)
      → Stands i stage s.tasks
      → Stands i stage (accept addr s).tasks
  unfolding accept
  accept-Stands addr i stage s (small, fits) = elim (Bool-cases (is_full s.server.0)) [
    | inl q ↦ rw q (small, fits)
    | inr q ↦ rw q (
      omega (arith, length-append s.tasks (handshaking addr ∷ [])),
      subst (Fits stage) (sym (get_or-append s.tasks (handshaking addr ∷ []) i small)) fits,
    )
  ]

  act-Stands :
      (a : Action Addr) (i : ℕ) (stage : Stage) (s : System Addr dash)
      → Stands i stage s.tasks
      → Stands i (if is_move i (mover a) then own_stage a stage else stage) (act a s).tasks
  unfolding act
  act-Stands (comes addr) i stage s h = elim (Bool-cases s.accepting) [
    | inl q ↦
        subst (λ c. Stands i stage (if c then accept addr s else s).tasks) (sym q)
          (accept-Stands addr i stage s h)
    | inr q ↦ subst (λ c. Stands i stage (if c then accept addr s else s).tasks) (sym q) h
  ]
  act-Stands breaks i stage s h = h
  act-Stands (fails j) i stage s h =
      moved (fails j) i j stage s.tasks _ (fail_task-Shifts j (task_at j s) s) h
  act-Stands (registers j now) i stage s h =
      moved (registers j now) i j stage s.tasks _ (register_task-Shifts j now (task_at j s) s) h
  act-Stands (activates j now) i stage s h =
      moved (activates j now) i j stage s.tasks _ (activate_task-Shifts j now (task_at j s) s) h
  act-Stands (passes j p) i stage s h =
      moved (passes j p) i j stage s.tasks _ (pass_task-Shifts j p (task_at j s) s) h
  act-Stands (returns j) i stage s h =
      moved (returns j) i j stage s.tasks _ (return_task-Shifts j (task_at j s) s) h
  act-Stands ends_stream i stage s h = h
  act-Stands (ticks now) i stage s h = h
  act-Stands drains i stage s h = h

  run-Stands :
      (actions : List (Action Addr)) (i : ℕ) (stage : Stage) (s : System Addr dash)
      → Stands i stage s.tasks
      → Stands i (stages i actions stage) (run actions s).tasks
  unfolding run stages
  run-Stands [] i stage s h = h
  run-Stands (a ∷ actions) i stage s h = run-Stands actions i _ (act a s) (act-Stands a i stage s h)

  -- At some point of the schedule the handler is there, and the actions that follow bring it from where
  -- it then stands to its end.
  pub record Quits (actions : List (Action Addr)) (s : System Addr dash) (i : ℕ) : Type 0 where
    pub before : List (Action Addr)
    pub after : List (Action Addr)
    pub split : actions ≡ before ++ after
    pub there : i < length (run before s).tasks
    pub quits : stages i after (stage_of (task_at i (run before s))) ≡ over

  Quits-finished :
      (actions : List (Action Addr)) (s : System Addr dash) (i : ℕ)
      → Quits actions s i
      → task_at i (run actions s) ≡ finished
  Quits-finished actions s i q =
      let mid = run q.before s in
      let (small, fits) = run-Stands q.after i (stage_of (task_at i mid)) mid (q.there, inr refl) in
      ap (λ l. task_at i (run l s)) q.split
      ∙ ap (task_at i) (run-append q.before q.after s)
      ∙ Fits-over _ (subst (λ g. Fits g (task_at i (run q.after mid))) q.quits fits)

  pub all_quit :
      (actions : List (Action Addr)) (s : System Addr dash)
      → ((i : ℕ) → i < length (run actions s).tasks → Quits actions s i)
      → (i : ℕ) → task_at i (run actions s) ≡ finished
  all_quit actions s quit i = elim (Bool-cases (ltb i (length (run actions s).tasks))) [
    | inl q ↦ Quits-finished actions s i (quit i (ground arith))
    | inr q ↦ task_at-beyond (run actions s).tasks i (ground arith)
  ]
