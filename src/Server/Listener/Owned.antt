-- ===== src/Server/Listener/Owned.antt =====
-- Every registered connection has one task that is going to unregister it, in every schedule.
use mathlib.Core.Option
use mytunnel.Prelude.{
  ℕ, suc, ◌≤◌, ◌<◌, ◌≡◌, refl, sym, ap, ◌∙◌, subst, Bool, true, false, Option, none, some, List,
  get_or, set, ◌==◌, if◌then◌else◌, Bool-cases, inl, inr, arith, ==_refl,
}
use mytunnel.Dash.{DashMap}
use mytunnel.Metrics.{Metrics}
use mytunnel.Pool.Slab.{SlabHandle}
use mytunnel.Connection.State
use mytunnel.Connection.State.{ConnectionId, ConnectionState}
use mytunnel.Connection.{ConnectionManager, get, activate, unregister, cleanup_idle, start_drain}
use mytunnel.Connection.Tracks.{Tracks}
use mytunnel.Connection.Tracks.Unregister.{Unregisters, unregister-Unregisters}
use mytunnel.Connection.Tracks.Write.{activate-Writes}
use mytunnel.Connection.Cleanup.{overdue, cleanup_idle-Cleans}
use mytunnel.Connection.Drain.{start_drain-Tracks}
use mytunnel.Connection.History.Accounted.{IsAccounted}
use mytunnel.Server.Listener.{Task, finished, System, task_at}
use mytunnel.Server.Listener.Tasks.{task_id, IsLive, at-set}

if_true : {A : Type 0} {x a : A} (b : A) (c : Bool) → c ≡ true → x ≡ (if c then a else b) → x ≡ a
if_true b c q e = e ∙ rw q refl

if_false : {A : Type 0} {x b : A} (a : A) (c : Bool) → c ≡ false → x ≡ (if c then a else b) → x ≡ b
if_false a c q e = e ∙ rw q refl

map-some :
    {A : Type 0} (f : A → A) (o : Option A) (b : A)
    → Option.map f o ≡ some b
    → (a : A) × (o ≡ some a)
map-some f none b e = absurd cc
map-some f (some a) b e = (a, refl)

some_unless :
    {A : Type 0} (c : Bool) (o : Option A) (b : A)
    → (if c then none else o) ≡ some b
    → (a : A) × (o ≡ some a)
some_unless true o b e = absurd cc
some_unless false o b e = (b, e)

module _ {Addr : Type 0} {dash : DashMap ConnectionId SlabHandle} where
  pub record IsOwned (s : System Addr dash) : Type 0 where
    pub accounted : IsAccounted s.server
    pub owned :
        (id : ConnectionId) (st : ConnectionState Addr)
        → get id s.server.0 ≡ some st
        → (i : ℕ) × (task_id (task_at i s) ≡ some id)
    pub below :
        (i : ℕ) (id : ConnectionId) → task_id (task_at i s) ≡ some id → id < s.server.0.next_id
    pub distinct :
        (i j : ℕ) (id : ConnectionId)
        → task_id (task_at i s) ≡ some id
        → task_id (task_at j s) ≡ some id
        → i ≡ j

  -- Every connection was there before.
  abbrev pub Shrinks : (m m' : ConnectionManager Addr dash) → Type 0
  Shrinks m m' =
      (j : ConnectionId) (st' : ConnectionState Addr)
      → get j m' ≡ some st'
      → (st : ConnectionState Addr) × (get j m ≡ some st)

  -- The tasks are going to unregister the same identifiers.
  abbrev pub SameIds : (s s' : System Addr dash) → Type 0
  SameIds s s' = (j : ℕ) → task_id (task_at j s') ≡ task_id (task_at j s)

  pub frame :
      (s s' : System Addr dash)
      → IsOwned s
      → IsAccounted s'.server
      → s.server.0.next_id ≤ s'.server.0.next_id
      → Shrinks s.server.0 s'.server.0
      → SameIds s s'
      → IsOwned s'
  frame s s' ok accounted next shrinks same = record {
    accounted = accounted;
    owned = λ id st e.
        let (st₀, e₀) = shrinks id st e in let (i, h) = ok.owned id st₀ e₀ in (i, same i ∙ h);
    below = λ i id h. omega (arith, next, ok.below i id (sym (same i) ∙ h));
    distinct = λ i j id h k. ok.distinct i j id (sym (same i) ∙ h) (sym (same j) ∙ k);
  }

  -- The identifiers once a task has moved.
  pub ids-set :
      (s s' : System Addr dash) (i : ℕ) (t₀ t : Task Addr)
      → task_at i s ≡ t₀
      → IsLive t₀
      → s'.tasks ≡ set s.tasks i t
      → (j : ℕ) → task_id (task_at j s') ≡ (if j == i then task_id t else task_id (task_at j s))
  ids-set s s' i t₀ t at live tasks j =
      ap (λ (ts : List (Task Addr)). task_id (get_or ts j finished)) tasks
      ∙ ap task_id (at-set s.tasks i j t (subst IsLive (sym at) live))
      ∙ elim (Bool-cases (j == i)) [ inl q ↦ rw q refl | inr q ↦ rw q refl ]

  pub SameIds-set :
      (s s' : System Addr dash) (i : ℕ) (t₀ t : Task Addr)
      → task_at i s ≡ t₀
      → IsLive t₀
      → s'.tasks ≡ set s.tasks i t
      → task_id t ≡ task_id t₀
      → SameIds s s'
  SameIds-set s s' i t₀ t at live tasks same j =
      ids-set s s' i t₀ t at live tasks j ∙ elim (Bool-cases (j == i)) [
        | inl q ↦
            let e : j ≡ i = ground arith in
            rw q (same ∙ ap task_id (sym at) ∙ ap (λ (k : ℕ). task_id (task_at k s)) (sym e))
        | inr q ↦ rw q refl
      ]

  -- A task that has no identifier takes the next one, which is registered.
  pub take :
      (s s' : System Addr dash) (i : ℕ) (id : ConnectionId) (st₀ : ConnectionState Addr)
      → IsOwned s
      → IsAccounted s'.server
      → task_id (task_at i s) ≡ none
      → ((j : ℕ) → task_id (task_at j s') ≡ (if j == i then some id else task_id (task_at j s)))
      → id ≡ s.server.0.next_id
      → s'.server.0.next_id ≡ suc s.server.0.next_id
      → ((j : ConnectionId) → get j s'.server.0 ≡ (if j == id then some st₀ else get j s.server.0))
      → IsOwned s'
  take s s' i id st₀ ok accounted free ids fresh next gets = record {
    accounted = accounted;
    owned = λ j st e. elim (Bool-cases (j == id)) [
      | inl q ↦ let same : j ≡ id = ground arith in (i, ids i ∙ rw (==_refl i) (ap some (sym same)))
      | inr q ↦
          let (k, h) = ok.owned j st (sym (if_false _ (j == id) q (gets j)) ∙ e) in
          elim (Bool-cases (k == i)) [
            | inl r ↦ let same : k ≡ i = ground arith in absurd cc
            | inr r ↦ (k, ids k ∙ rw r h)
          ]
    ];
    below = λ k j h. elim (Bool-cases (k == i)) [
      | inl r ↦
          let e : some id ≡ some j = sym (if_true _ (k == i) r (ids k)) ∙ h in
          let same : id ≡ j = cc in omega (arith, same, fresh, next)
      | inr r ↦ omega (arith, next, ok.below k j (sym (if_false _ (k == i) r (ids k)) ∙ h))
    ];
    distinct = λ a b j h k. elim (Bool-cases (a == i)) [
      | inl q ↦ elim (Bool-cases (b == i)) [
        | inl r ↦ ground arith
        | inr r ↦
            let e : some id ≡ some j = sym (if_true _ (a == i) q (ids a)) ∙ h in
            let same : id ≡ j = cc in
            absurd
              (omega (arith, same, fresh, ok.below b j (sym (if_false _ (b == i) r (ids b)) ∙ k)))
      ]
      | inr q ↦ elim (Bool-cases (b == i)) [
        | inl r ↦
            let e : some id ≡ some j = sym (if_true _ (b == i) r (ids b)) ∙ k in
            let same : id ≡ j = cc in
            absurd
              (omega (arith, same, fresh, ok.below a j (sym (if_false _ (a == i) q (ids a)) ∙ h)))
        | inr r ↦
            ok.distinct a b j (sym (if_false _ (a == i) q (ids a)) ∙ h)
              (sym (if_false _ (b == i) r (ids b)) ∙ k)
      ]
    ];
  }

  -- A task gives its identifier back, which is no longer registered.
  pub give :
      (s s' : System Addr dash) (i : ℕ) (id : ConnectionId)
      → IsOwned s
      → IsAccounted s'.server
      → task_id (task_at i s) ≡ some id
      → ((j : ℕ) → task_id (task_at j s') ≡ (if j == i then none else task_id (task_at j s)))
      → s'.server.0.next_id ≡ s.server.0.next_id
      → get id s'.server.0 ≡ none
      → Shrinks s.server.0 s'.server.0
      → IsOwned s'
  give s s' i id ok accounted held ids next gone shrinks = record {
    accounted = accounted;
    owned = λ j st e.
        let (st₀, e₀) = shrinks j st e in
        let (k, h) = ok.owned j st₀ e₀ in
        elim (Bool-cases (k == i)) [
          | inl q ↦
              let same : k ≡ i = ground arith in
              let e₁ : some id ≡ some j =
                sym held ∙ ap (λ (x : ℕ). task_id (task_at x s)) (sym same) ∙ h in
              let e₂ : id ≡ j = cc in
              let e₃ = sym gone ∙ ap (λ x. get x s'.server.0) e₂ ∙ e in absurd cc
          | inr q ↦ (k, ids k ∙ rw q h)
        ];
    below = λ k j h. elim (Bool-cases (k == i)) [
      | inl q ↦ let e : none ≡ some j = sym (if_true _ (k == i) q (ids k)) ∙ h in absurd cc
      | inr q ↦ omega (arith, next, ok.below k j (sym (if_false _ (k == i) q (ids k)) ∙ h))
    ];
    distinct = λ a b j h k. elim (Bool-cases (a == i)) [
      | inl q ↦ let e : none ≡ some j = sym (if_true _ (a == i) q (ids a)) ∙ h in absurd cc
      | inr q ↦ elim (Bool-cases (b == i)) [
        | inl r ↦ let e : none ≡ some j = sym (if_true _ (b == i) r (ids b)) ∙ k in absurd cc
        | inr r ↦
            ok.distinct a b j (sym (if_false _ (a == i) q (ids a)) ∙ h)
              (sym (if_false _ (b == i) r (ids b)) ∙ k)
      ]
    ];
  }

  pub activate-Shrinks :
      (m : ConnectionManager Addr dash) (id : ConnectionId) (now : ℕ)
      → Tracks m
      → Shrinks m (activate id now m)
  activate-Shrinks m id now ok j st' e =
      let (tracks, all, count) = activate-Writes m ok id now in
      elim (Bool-cases (j == id)) [
        | inl q ↦
            let same : id ≡ j = ground arith in
            let (st, known) =
              map-some (State.set_active now) (get id m) st' (sym (all j ∙ rw q refl) ∙ e) in
            (st, subst (λ k. get k m ≡ some st) same known)
        | inr q ↦ (st', sym (all j ∙ rw q refl) ∙ e)
      ]

  pub start_drain-Shrinks : (m : ConnectionManager Addr dash) → Tracks m → Shrinks m (start_drain m)
  start_drain-Shrinks m ok j st' e =
      let (tracks, all, count) = start_drain-Tracks m ok in
      map-some State.set_draining (get j m) st' (sym (all j) ∙ e)

  pub cleanup_idle-Shrinks :
      (now : ℕ) (s : ConnectionManager Addr dash × Metrics)
      → Tracks s.0
      → Shrinks s.0 (cleanup_idle now s).1.0
  cleanup_idle-Shrinks now (m, metrics) ok j st' e =
      let (tracks, gone, total) = cleanup_idle-Cleans now m ok metrics in
      some_unless (overdue now m j) (get j m) st' (sym (gone j) ∙ e)

  pub unregister-Shrinks :
      (id : ConnectionId) (s : ConnectionManager Addr dash × Metrics)
      → Tracks s.0
      → Shrinks s.0 (unregister id s).0
  unregister-Shrinks id (m, metrics) ok j st' e =
      by_state (get id m) (unregister id (m, metrics)) (unregister-Unregisters m metrics id ok) e
    where
      by_state :
          (o : Option (ConnectionState Addr)) (s' : ConnectionManager Addr dash × Metrics)
          → Unregisters m metrics id ok o s'
          → get j s'.0 ≡ some st'
          → (st : ConnectionState Addr) × (get j m ≡ some st)
      by_state none (m', metrics') (tracks, config, same, count, unchanged) e =
          (st', sym (same j) ∙ e)
      by_state (some st) (m', metrics') (tracks, config, gone, count, closed) e =
          some_unless (j == id) (get j m) st' (sym (gone j) ∙ e)
