-- ===== src/Server/Listener/Drained.antt =====
-- The end of the server: no connection is registered once the tasks have returned.
use mytunnel.Prelude.{
  ℕ, suc, ◌+◌, ◌*◌, ◌≤◌, ◌<◌, ◌≡◌, refl, sym, ap, ◌∙◌, subst, true, false, Option, none, some,
  Option-cases, List, [], ◌∷◌, ◌++◌, length, get_or, if◌then◌else◌, Bool-cases, inl, inr, ◌⊎◌,
  arith, u64_mod, leb, ltb,
}
use mytunnel.Dash.{DashMap}
use mytunnel.Metrics
use mytunnel.Metrics.{Metrics}
use mytunnel.Pool.Slab
use mytunnel.Pool.Slab.{SlabHandle}
use mytunnel.Pool.Slab.Occupied.{occupied-none}
use mytunnel.Connection.State.{ConnectionId}
use mytunnel.Connection.{
  ConnectionManagerConfig, ConnectionManager, new, get, connection_count, keeps_waiting,
}
use mytunnel.Connection.Tracks.{Tracks, new-Tracks, get_known}
use mytunnel.Server.Listener.{
  finished, Action, drains, System, task_at, act, run, start, wait, shutdown_server,
}
use mytunnel.Server.Listener.Tasks.{task_id}
use mytunnel.Server.Listener.Quit.{run-append, Quits, all_quit}
use mytunnel.Server.Listener.Owned.{IsOwned}
use mytunnel.Server.Listener.Moves.{act-IsOwned, next_id-act}

-- Each round sleeps for 100 ms at least.
abbrev pub AreLong : {Addr : Type 0} → List (ℕ × List (Action Addr)) → Type 0
AreLong [] = Unit {0}
AreLong ((slept, actions) ∷ rounds) = (100 ≤ slept) × AreLong rounds

-- All the actions of the rounds, and how long they sleep together.
abbrev pub actions_of : {Addr : Type 0} → List (ℕ × List (Action Addr)) → List (Action Addr)
actions_of [] = []
actions_of ((slept, actions) ∷ rounds) = actions ++ actions_of rounds

abbrev pub slept_in : {Addr : Type 0} → List (ℕ × List (Action Addr)) → ℕ
slept_in [] = 0
slept_in ((slept, actions) ∷ rounds) = slept + slept_in rounds

module _ {Addr : Type 0} {dash : DashMap ConnectionId SlabHandle} where
  pub run-IsOwned :
      (actions : List (Action Addr)) (s : System Addr dash)
      → s.server.0.next_id + length actions < u64_mod
      → IsOwned s
      → IsOwned (run actions s)
  unfolding run
  run-IsOwned [] s room ok = ok
  run-IsOwned (a ∷ actions) s room ok =
      run-IsOwned actions (act a s) (omega (arith, next_id-act a s))
        (act-IsOwned a s (omega arith) ok)

  none_registered :
      (m : ConnectionManager Addr dash)
      → Tracks m
      → ((id : ConnectionId) → get id m ≡ none)
      → connection_count m ≡ 0
  unfolding connection_count Slab.len Slab.get
  none_registered m ok free =
      ok.slab_ok.counted ∙ occupied-none _ m.connections.slots (λ i. by_place i)
    where
      unused : (i : ℕ) → Slab.get (record { index = i }) m.connections ≡ none
      unused i = elim (Option-cases (Slab.get (record { index = i }) m.connections)) [
        | inl e ↦ e
        | inr (st, e) ↦
            let h = ok.linked.tracked (record { index = i }) st e in
            let q = sym (free st.id) ∙ get_known m st.id (record { index = i }) h ∙ e in absurd cc
      ]

      by_place : (i : ℕ) → get_or m.connections.slots i none ≡ none
      by_place i = elim (Bool-cases (leb m.connections.capacity i)) [
        | inl q ↦ ok.slab_ok.beyond i (ground arith)
        | inr q ↦
            subst (λ c. (if c then none else get_or m.connections.slots i none) ≡ none) q (unused i)
      ]

  -- Once every task has returned, no connection is registered.
  pub all_finished :
      (s : System Addr dash)
      → IsOwned s
      → ((i : ℕ) → task_at i s ≡ finished)
      → connection_count s.server.0 ≡ 0
  all_finished s ok done = none_registered s.server.0 ok.accounted.tracks (λ id.
      elim (Option-cases (get id s.server.0)) [
        | inl e ↦ e
        | inr (st, e) ↦
            let (i, h) = ok.owned id st e in let q = sym (ap task_id (done i)) ∙ h in absurd cc
      ])

  -- A loop that has ended leaves no connection, or has waited for the timeout.
  abbrev pub Ends : (timeout : ℕ) → Option (ℕ × System Addr dash) → Type 0
  Ends timeout none = ⊥
  Ends timeout (some (elapsed, s)) = (connection_count s.server.0 ≡ 0) ⊎ (timeout ≤ elapsed)

  not_waiting :
      (timeout elapsed : ℕ) (s : System Addr dash)
      → keeps_waiting timeout elapsed s.server.0 ≡ false
      → Ends timeout (some (elapsed, s))
  unfolding keeps_waiting
  not_waiting timeout elapsed s e = elim (Bool-cases (ltb 0 (connection_count s.server.0))) [
    | inl q ↦ inr (ground arith)
    | inr q ↦ inl (ground arith)
  ]

  waiting_lt :
      (timeout elapsed : ℕ) (m : ConnectionManager Addr dash)
      → keeps_waiting timeout elapsed m ≡ true
      → elapsed < timeout
  unfolding keeps_waiting
  waiting_lt timeout elapsed m e = ground arith

  no_connection_waits :
      (timeout elapsed : ℕ) (m : ConnectionManager Addr dash)
      → connection_count m ≡ 0
      → keeps_waiting timeout elapsed m ≡ false
  unfolding keeps_waiting
  no_connection_waits timeout elapsed m e = ground arith

  wait-none :
      (timeout elapsed : ℕ) (rounds : List (ℕ × List (Action Addr))) (s : System Addr dash)
      → connection_count s.server.0 ≡ 0
      → wait timeout elapsed rounds s ≡ some (elapsed, s)
  unfolding wait
  wait-none timeout elapsed [] s e = rw (no_connection_waits timeout elapsed s.server.0 e) refl
  wait-none timeout elapsed ((slept, actions) ∷ rounds) s e =
      rw (no_connection_waits timeout elapsed s.server.0 e) refl

  wait-Ends :
      (timeout elapsed : ℕ) (rounds : List (ℕ × List (Action Addr))) (s : System Addr dash)
      → AreLong rounds
      → timeout ≤ elapsed + 100 * length rounds
      → Ends timeout (wait timeout elapsed rounds s)
  unfolding wait
  wait-Ends timeout elapsed [] s long enough =
      elim (Bool-cases (keeps_waiting timeout elapsed s.server.0)) [
        | inl q ↦ absurd (omega (arith, waiting_lt timeout elapsed s.server.0 q))
        | inr q ↦ rw q (not_waiting timeout elapsed s q)
      ]
  wait-Ends timeout elapsed ((slept, actions) ∷ rounds) s (long, longs) enough =
      elim (Bool-cases (keeps_waiting timeout elapsed s.server.0)) [
        | inl q ↦
            rw q (wait-Ends timeout (elapsed + slept) rounds (run actions s) longs (omega arith))
        | inr q ↦ rw q (not_waiting timeout elapsed s q)
      ]

  -- The shutdown ends, whatever the other tasks do meanwhile: with no connection left, or after 30 seconds.
  -- The loop of `drain` has 300 rounds to run, and each of them sleeps for 100 ms at least.
  pub shutdown_server-Ends :
      (rounds : List (ℕ × List (Action Addr))) (s : System Addr dash)
      → AreLong rounds
      → 300 ≤ length rounds
      → Ends 30000 (shutdown_server rounds s)
  unfolding shutdown_server
  shutdown_server-Ends rounds s long enough =
      wait-Ends 30000 0 rounds (act drains s) long (omega arith)

  -- The shutdown has ended within the time, and no connection is left.
  abbrev pub Drains : (slept : ℕ) → Option (ℕ × System Addr dash) → Type 0
  Drains slept none = ⊥
  Drains slept (some (elapsed, s)) = (elapsed ≤ slept) × (connection_count s.server.0 ≡ 0)

  -- If no connection is left after some rounds that end in time, the loop ends with them or before.
  wait-Drains :
      (timeout elapsed : ℕ) (early late : List (ℕ × List (Action Addr))) (s : System Addr dash)
      → elapsed + slept_in early < timeout
      → connection_count (run (actions_of early) s).server.0 ≡ 0
      → Drains (elapsed + slept_in early) (wait timeout elapsed (early ++ late) s)
  unfolding wait run
  wait-Drains timeout elapsed [] late s short none_left =
      subst (Drains (elapsed + 0)) (sym (wait-none timeout elapsed late s none_left))
        (omega arith, none_left)
  wait-Drains timeout elapsed ((slept, actions) ∷ early) late s short none_left =
      elim (Bool-cases (keeps_waiting timeout elapsed s.server.0)) [
        | inl q ↦ rw q (
            subst
              (λ (n : ℕ). Drains n (wait timeout (elapsed + slept) (early ++ late) (run actions s)))
              (omega arith)
              (wait-Drains timeout (elapsed + slept) early late (run actions s) (omega arith) (
                ap (λ t. connection_count t.server.0)
                  (sym (run-append actions (actions_of early) s))
                ∙ none_left)))
        | inr q ↦ rw q (
          omega arith,
          elim (not_waiting timeout elapsed s q) [ inl e ↦ e | inr e ↦ absurd (omega arith) ],
        )
      ]

  -- From a server that satisfies the invariant and has identifiers left, under any schedule: if every
  -- handler that there is after some rounds, those of connections that still came in included, has come
  -- to its end in them (its handshake failed, or it registered, was activated, saw the signal or an error
  -- of its connection, and returned, from where it stood and in this order, with whatever else between),
  -- and these rounds sleep for less than 30 seconds, then the shutdown ends, with these rounds at the
  -- latest, and no connection is left.
  pub shutdown_server-Drains :
      (early late : List (ℕ × List (Action Addr))) (s : System Addr dash)
      → s.server.0.next_id + length (actions_of early) + 2 < u64_mod
      → IsOwned s
      → slept_in early < 30000
      → ((i : ℕ)
          → i < length (run (actions_of early) (act drains s)).tasks
          → Quits (actions_of early) (act drains s) i)
      → Drains (slept_in early) (shutdown_server (early ++ late) s)
  unfolding shutdown_server
  shutdown_server-Drains early late s room ok short quit =
      subst (λ (n : ℕ). Drains n (wait 30000 0 (early ++ late) drained)) (omega arith)
        (wait-Drains 30000 0 early late drained (omega arith) none_left)
    where
      drained : System Addr dash
      drained = act drains s

      none_left : connection_count (run (actions_of early) drained).server.0 ≡ 0
      none_left =
          all_finished (run (actions_of early) drained)
            (run-IsOwned (actions_of early) drained (omega (arith, next_id-act drains s))
              (act-IsOwned drains s (omega arith) ok))
            (all_quit (actions_of early) drained quit)

-- In every schedule of a new server's accept loop, handlers and cleanup task: the invariant of the
-- manager holds, and each registered connection has exactly one handler that is still to unregister it.
-- The schedule is shorter than there are identifiers.
pub run-start-IsOwned :
    (Addr : Type 0) (dash : DashMap ConnectionId SlabHandle) (config : ConnectionManagerConfig)
    (actions : List (Action Addr))
    → config.max_connections < u64_mod
    → suc (length actions) < u64_mod
    → IsOwned (run actions (start (new Addr dash config, Metrics.new)))
unfolding new connection_count Slab.new Slab.len
run-start-IsOwned Addr dash config actions small few =
    let (tracks, none_yet) = new-Tracks Addr dash config small in
    run-IsOwned actions (start (new Addr dash config, Metrics.new)) (omega arith) (record {
      accounted = record { tracks = tracks; gauge = refl; fits = omega arith };
      owned = λ id st e. let q = none_yet id in absurd cc;
      below = λ i id e. absurd cc;
      distinct = λ i j id e f. absurd cc;
    })
