-- ===== src/Server/Listener/Served.antt =====
-- How many connections are served: one for each that is counted, as long as the cleanup task does not run.
use mytunnel.Prelude.{
  ℕ, ◌≡◌, refl, sym, ap, ◌∙◌, subst, some, [], ◌∷◌, ◌++◌, set, ◌==◌, Bool-cases, inl, inr, arith,
}
use mytunnel.Dash.{DashMap}
use mytunnel.Pool.Slab.{SlabHandle}
use mytunnel.Connection.State
use mytunnel.Connection.State.{ConnectionId, ConnectionState}
use mytunnel.Connection.{ConnectionManager, get, activate, is_full, connection_count}
use mytunnel.Connection.Tracks.{Tracks}
use mytunnel.Connection.Tracks.Write.{activate-Writes}
use mytunnel.Server.Handler.{handle_connection}
use mytunnel.Server.Listener.{
  Task, handshaking, registered, serving, leaving, finished, Pass, event_of, System, after_pass,
  task_at, accept, fail_task, activate_task, pass_task,
}
use mytunnel.Server.Listener.Tasks.{
  task_id, IsLive, weight, id-append, holders, holders-set, holders-append,
}
use mytunnel.Server.Listener.Owned.{SameIds, SameIds-set}
use mytunnel.Server.Listener.Moves.{passed}

module _ {Addr : Type 0} {dash : DashMap ConnectionId SlabHandle} where
  -- Every handler that is to unregister an identifier has its connection registered, and there are as many
  -- of them as connections.
  pub record IsServed (s : System Addr dash) : Type 0 where
    pub known :
        (i : ℕ) (id : ConnectionId)
        → task_id (task_at i s) ≡ some id
        → (st : ConnectionState Addr) × (get id s.server.0 ≡ some st)
    pub served : holders s.tasks ≡ connection_count s.server.0

  -- Every connection is still there.
  abbrev pub Keeps : (m m' : ConnectionManager Addr dash) → Type 0
  Keeps m m' =
      (j : ConnectionId) (st : ConnectionState Addr)
      → get j m ≡ some st
      → (st' : ConnectionState Addr) × (get j m' ≡ some st')

  pub frame :
      (s s' : System Addr dash)
      → IsServed s
      → SameIds s s'
      → holders s'.tasks ≡ holders s.tasks
      → connection_count s'.server.0 ≡ connection_count s.server.0
      → Keeps s.server.0 s'.server.0
      → IsServed s'
  frame s s' is same as_many count keeps = record {
    known = λ i id h. let (st, e) = is.known i id (sym (same i) ∙ h) in keeps id st e;
    served = as_many ∙ is.served ∙ sym count;
  }

  pub moved :
      (s : System Addr dash) (i : ℕ) (t₀ t : Task Addr)
      → task_at i s ≡ t₀
      → IsLive t₀
      → task_id t ≡ task_id t₀
      → holders (set s.tasks i t) ≡ holders s.tasks
  moved s i t₀ t at live same = omega (
    arith,
    holders-set s.tasks i t (subst IsLive (sym at) live),
    ap (λ x. weight (task_id x)) at,
    ap weight same,
  )

  pub accept-IsServed : (addr : Addr) (s : System Addr dash) → IsServed s → IsServed (accept addr s)
  unfolding accept
  accept-IsServed addr s is = elim (Bool-cases (is_full s.server.0)) [
    | inl e ↦ rw (e, accept) is
    | inr e ↦
        rw (e, accept)
          (frame s (record s { tasks = s.tasks ++ handshaking addr ∷ [] }) is
            (λ j. id-append s.tasks j addr) (holders-append s.tasks addr) refl (λ j st e. (st, e)))
  ]

  pub fail_task-IsServed :
      (i : ℕ) (t : Task Addr) (s : System Addr dash)
      → task_at i s ≡ t
      → IsServed s
      → IsServed (fail_task i t s)
  unfolding fail_task
  fail_task-IsServed i (handshaking addr) s at is =
      let s' = fail_task i (handshaking addr) s in
      frame s s' is (SameIds-set s s' i (handshaking addr) finished at tt refl refl)
        (moved s i (handshaking addr) finished at tt refl) refl (λ j st e. (st, e))
  fail_task-IsServed i (registered id) s at is = is
  fail_task-IsServed i (serving id) s at is = is
  fail_task-IsServed i (leaving id) s at is = is
  fail_task-IsServed i finished s at is = is

  activate-Keeps :
      (m : ConnectionManager Addr dash) (id : ConnectionId) (now : ℕ)
      → Tracks m
      → Keeps m (activate id now m)
  activate-Keeps m id now tracks j st e =
      let (tracks', all, count) = activate-Writes m tracks id now in
      elim (Bool-cases (j == id)) [
        | inl q ↦
            let same : j ≡ id = ground arith in
            let there : get id m ≡ some st = subst (λ k. get k m ≡ some st) same e in
            (State.set_active now st, all j ∙ rw (q, there) refl)
        | inr q ↦ (st, all j ∙ rw q e)
      ]

  pub activate_task-IsServed :
      (i now : ℕ) (t : Task Addr) (s : System Addr dash)
      → Tracks s.server.0
      → task_at i s ≡ t
      → IsServed s
      → IsServed (activate_task i now t s)
  unfolding activate_task
  activate_task-IsServed i now (handshaking addr) s tracks at is = is
  activate_task-IsServed i now (registered id) s tracks at is =
      let s' = activate_task i now (registered id) s in
      let (tracks', all, count) = activate-Writes s.server.0 tracks id now in
      frame s s' is (SameIds-set s s' i (registered id) (serving id) at tt refl refl)
        (moved s i (registered id) (serving id) at tt refl) count
        (activate-Keeps s.server.0 id now tracks)
  activate_task-IsServed i now (serving id) s tracks at is = is
  activate_task-IsServed i now (leaving id) s tracks at is = is
  activate_task-IsServed i now finished s tracks at is = is

  pub pass_task-IsServed :
      (i : ℕ) (p : Pass) (t : Task Addr) (s : System Addr dash)
      → task_at i s ≡ t
      → IsServed s
      → IsServed (pass_task i p t s)
  unfolding pass_task
  pass_task-IsServed i p (handshaking addr) s at is = is
  pass_task-IsServed i p (registered id) s at is = is
  pass_task-IsServed i p (serving id) s at is =
      let s' = pass_task i p (serving id) s in
      let (manager, gauge, kept) = passed p s.server in
      let same : s'.server.0 ≡ s.server.0 = manager in
      let t' = after_pass id (handle_connection (event_of Addr p ∷ []) s.server).0 in
      frame s s' is (SameIds-set s s' i (serving id) t' at tt refl (kept id))
        (moved s i (serving id) t' at tt (kept id)) (ap connection_count same)
        (λ j st e. (st, ap (get j) same ∙ e))
  pass_task-IsServed i p (leaving id) s at is = is
  pass_task-IsServed i p finished s at is = is
