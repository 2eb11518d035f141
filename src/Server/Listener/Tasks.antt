-- ===== src/Server/Listener/Tasks.antt =====
-- The tasks of the server, and what the manager's calls do to the identifiers that are registered.
use mytunnel.Prelude.{
  ℕ, zero, suc, ◌+◌, ◌≤◌, ◌<◌, ◌≡◌, refl, ap, ◌∙◌, Option, none, some, List, [], ◌∷◌, ◌++◌, get_or,
  set, ◌==◌, if◌then◌else◌, arith, u64_mod, wrapping_add,
}
use mytunnel.Dash.{DashMap}
use mytunnel.Metrics.{Metrics}
use mytunnel.Pool.Slab
use mytunnel.Pool.Slab.{SlabHandle, ConnectionSlab}
use mytunnel.Connection.State
use mytunnel.Connection.State.{ConnectionId, ConnectionState}
use mytunnel.Connection.{ConnectionManager, register, activate, after_insert}
use mytunnel.Server.Listener.{Task, handshaking, registered, serving, leaving, finished}

-- The identifier that a task is going to unregister.
abbrev pub task_id : {Addr : Type 0} → Task Addr → Option ConnectionId
task_id (handshaking addr) = none
task_id (registered id) = some id
task_id (serving id) = some id
task_id (leaving id) = some id
task_id finished = none

abbrev pub IsLive : {Addr : Type 0} → Task Addr → Type 0
IsLive finished = ⊥
IsLive _ = Unit {0}

abbrev pub weight : Option ConnectionId → ℕ
weight none = 0
weight (some id) = 1

module _ {Addr : Type 0} where
  pub at-set :
      (ts : List (Task Addr)) (i j : ℕ) (t : Task Addr)
      → IsLive (get_or ts i finished)
      → get_or (set ts i t) j finished ≡ (if j == i then t else get_or ts j finished)
  at-set [] i j t live = absurd live
  at-set (x ∷ ts) zero zero t live = refl
  at-set (x ∷ ts) zero (suc j) t live = ground arith
  at-set (x ∷ ts) (suc i) zero t live = ground arith
  at-set (x ∷ ts) (suc i) (suc j) t live = at-set ts i j t live ∙ ground arith

  pub id-append :
      (ts : List (Task Addr)) (j : ℕ) (addr : Addr)
      → task_id (get_or (ts ++ handshaking addr ∷ []) j finished) ≡ task_id (get_or ts j finished)
  id-append [] zero addr = refl
  id-append [] (suc j) addr = refl
  id-append (x ∷ ts) zero addr = refl
  id-append (x ∷ ts) (suc j) addr = id-append ts j addr

  -- How many tasks are going to unregister an identifier.
  unfoldable pub holders : List (Task Addr) → ℕ
  holders [] = 0
  holders (t ∷ ts) = weight (task_id t) + holders ts

  pub holders-set :
      (ts : List (Task Addr)) (i : ℕ) (t : Task Addr)
      → IsLive (get_or ts i finished)
      → holders (set ts i t) + weight (task_id (get_or ts i finished))
        ≡ holders ts + weight (task_id t)
  unfolding holders
  holders-set [] i t live = absurd live
  holders-set (x ∷ ts) zero t live = omega arith
  holders-set (x ∷ ts) (suc i) t live = omega (arith, holders-set ts i t live)

  pub holders-append :
      (ts : List (Task Addr)) (addr : Addr) → holders (ts ++ handshaking addr ∷ []) ≡ holders ts
  unfolding holders
  holders-append [] addr = refl
  holders-append (x ∷ ts) addr = ap (λ n. weight (task_id x) + n) (holders-append ts addr)

module _ {Addr : Type 0} {dash : DashMap ConnectionId SlabHandle} where
  -- The identifier that `register` gives out is the next one.
  pub register-next_id :
      (addr : Addr) (now : ℕ) (m : ConnectionManager Addr dash) (metrics : Metrics)
      (id : ConnectionId)
      → suc m.next_id < u64_mod
      → (register addr now (m, metrics)).0 ≡ some id
      → (id ≡ m.next_id) × ((register addr now (m, metrics)).1.0.next_id ≡ suc m.next_id)
  unfolding register wrapping_add
  register-next_id addr now m metrics id room e =
      by_answer (Slab.insert (State.new m.next_id addr now) m.connections) e
    where
      by_answer :
          (r : Option SlabHandle × ConnectionSlab (ConnectionState Addr))
          → (after_insert (m, metrics) r).0 ≡ some id
          → (id ≡ m.next_id) × ((after_insert (m, metrics) r).1.0.next_id ≡ suc m.next_id)
      by_answer (none, slab) e = absurd cc
      by_answer (some h, slab) e = (ground arith, omega arith)

  pub next_id-register_le :
      (addr : Addr) (now : ℕ) (m : ConnectionManager Addr dash) (metrics : Metrics)
      → suc m.next_id < u64_mod
      → m.next_id ≤ (register addr now (m, metrics)).1.0.next_id
  unfolding register wrapping_add
  next_id-register_le addr now m metrics room =
      by_answer (Slab.insert (State.new m.next_id addr now) m.connections)
    where
      by_answer :
          (r : Option SlabHandle × ConnectionSlab (ConnectionState Addr))
          → m.next_id ≤ (after_insert (m, metrics) r).1.0.next_id
      by_answer (none, slab) = omega arith
      by_answer (some h, slab) = omega arith

  pub next_id-activate :
      (id : ConnectionId) (now : ℕ) (m : ConnectionManager Addr dash)
      → (activate id now m).next_id ≡ m.next_id
  unfolding activate
  next_id-activate id now m = ground arith
