-- ===== src/Connection/History/Frame.antt =====
-- What no call of the connection manager changes: the number of slots, and the identifiers but for one.
use mytunnel.Prelude.{
  ℕ, suc, ◌≡◌, ◌≤◌, refl, sym, ap, ◌∙◌, Option, none, some, List, [], ◌∷◌, arith, wrapping_add,
  Option-cases, inl, inr,
}
use mytunnel.Dash.{DashMap}
use mytunnel.Metrics.{Metrics}
use mytunnel.Pool.Slab
use mytunnel.Pool.Slab.{SlabHandle, ConnectionSlab}
use mytunnel.Connection.State
use mytunnel.Connection.State.{ConnectionId, ConnectionState, set_draining}
use mytunnel.Connection.{
  ConnectionManager, register, activate, record_traffic, unregister, start_drain, drain_entries,
  cleanup_idle, unregister_all, after_insert, after_remove, with_traffic, idle_ids,
}
use mytunnel.Pool.Slab.Capacity.{capacity-insert, capacity-remove, capacity-modify}
use mytunnel.Connection.History.{
  Call, registers, activates, records, unregisters, drains, cleans, step,
}

module _ {Addr : Type 0} where
  capacity-drain_entries :
      (es : List (ConnectionId × SlabHandle)) (slab : ConnectionSlab (ConnectionState Addr))
      → (drain_entries es slab).capacity ≡ slab.capacity
  capacity-drain_entries [] slab = refl
  capacity-drain_entries ((id, h) ∷ es) slab =
      capacity-drain_entries es (Slab.modify h set_draining slab)
      ∙ capacity-modify slab h set_draining

module _ {Addr : Type 0} {dash : DashMap ConnectionId SlabHandle} where
  -- No call changes the number of slots.
  capacity-unregister :
      (id : ConnectionId) (s : ConnectionManager Addr dash × Metrics)
      → (unregister id s).0.connections.capacity ≡ s.0.connections.capacity
  unfolding unregister
  capacity-unregister id (m, metrics) = elim (Option-cases (dash.remove id m.id_to_handle).0) [
    | inl e ↦ rw (e, unregister) refl
    | inr (h, e) ↦ rw (e, unregister) (by_answer h (Slab.remove h m.connections) refl)
  ]
    where
      by_answer :
          (h : SlabHandle)
          (r : Option (ConnectionState Addr) × ConnectionSlab (ConnectionState Addr))
          → Slab.remove h m.connections ≡ r
          → (after_remove (dash.remove id m.id_to_handle).1 (m, metrics) r).0.connections.capacity
            ≡ m.connections.capacity
      by_answer h (none, slab) e = ap (λ x. x.1.capacity) (sym e) ∙ capacity-remove m.connections h
      by_answer h (some st, slab) e =
          ap (λ x. x.1.capacity) (sym e) ∙ capacity-remove m.connections h

  capacity-unregister_all :
      (ids : List ConnectionId) (n : ℕ) (s : ConnectionManager Addr dash × Metrics)
      → (unregister_all ids n s).1.0.connections.capacity ≡ s.0.connections.capacity
  unfolding unregister_all
  capacity-unregister_all [] n s = refl
  capacity-unregister_all (id ∷ ids) n s =
      capacity-unregister_all ids (suc n) (unregister id s) ∙ capacity-unregister id s

  capacity-register :
      (client_addr : Addr) (now : ℕ) (m : ConnectionManager Addr dash) (metrics : Metrics)
      → (register client_addr now (m, metrics)).1.0.connections.capacity ≡ m.connections.capacity
  unfolding register
  capacity-register client_addr now m metrics = by_answer (Slab.insert fresh m.connections) refl
    where
      fresh : ConnectionState Addr
      fresh = State.new m.next_id client_addr now

      by_answer :
          (r : Option SlabHandle × ConnectionSlab (ConnectionState Addr))
          → Slab.insert fresh m.connections ≡ r
          → (after_insert (m, metrics) r).1.0.connections.capacity ≡ m.connections.capacity
      by_answer (none, slab) e =
          ap (λ x. x.1.capacity) (sym e) ∙ capacity-insert m.connections fresh
      by_answer (some h, slab) e =
          ap (λ x. x.1.capacity) (sym e) ∙ capacity-insert m.connections fresh

  capacity-activate :
      (id : ConnectionId) (now : ℕ) (m : ConnectionManager Addr dash)
      → (activate id now m).connections.capacity ≡ m.connections.capacity
  unfolding activate
  capacity-activate id now m = elim (Option-cases (dash.get id m.id_to_handle)) [
    | inl e ↦ rw (e, activate) refl
    | inr (h, e) ↦ rw (e, activate) (capacity-modify m.connections h (State.set_active now))
  ]

  capacity-record_traffic :
      (id : ConnectionId) (now rx tx : ℕ) (s : ConnectionManager Addr dash × Metrics)
      → (record_traffic id now rx tx s).0.connections.capacity ≡ s.0.connections.capacity
  unfolding record_traffic
  capacity-record_traffic id now rx tx (m, metrics) =
      elim (Option-cases (dash.get id m.id_to_handle)) [
        | inl e ↦ rw (e, record_traffic) refl
        | inr (h, e) ↦ elim (Option-cases (Slab.get h m.connections)) [
          | inl f ↦ rw (e, f, record_traffic) refl
          | inr (st, f) ↦
              rw (e, f, record_traffic) (capacity-modify m.connections h (with_traffic now rx tx))
        ]
      ]

  pub capacity-step :
      (s : ConnectionManager Addr dash × Metrics) (c : ℕ × Call Addr)
      → (step s c).0.connections.capacity ≡ s.0.connections.capacity
  unfolding step start_drain cleanup_idle
  capacity-step (m, metrics) (now, registers client_addr) =
      capacity-register client_addr now m metrics
  capacity-step (m, metrics) (now, activates id) = capacity-activate id now m
  capacity-step s (now, records id rx tx) = capacity-record_traffic id now rx tx s
  capacity-step s (now, unregisters id) = capacity-unregister id s
  capacity-step (m, metrics) (now, drains) =
      capacity-drain_entries (dash.iter m.id_to_handle) m.connections
  capacity-step (m, metrics) (now, cleans) = capacity-unregister_all _ 0 (m, metrics)

  pub next_id-unregister :
      (id : ConnectionId) (s : ConnectionManager Addr dash × Metrics)
      → (unregister id s).0.next_id ≡ s.0.next_id
  unfolding unregister
  next_id-unregister id (m, metrics) = elim (Option-cases (dash.remove id m.id_to_handle).0) [
    | inl e ↦ rw (e, unregister) refl
    | inr (h, e) ↦ rw (e, unregister) (by_answer (Slab.remove h m.connections))
  ]
    where
      by_answer :
          (r : Option (ConnectionState Addr) × ConnectionSlab (ConnectionState Addr))
          → (after_remove (dash.remove id m.id_to_handle).1 (m, metrics) r).0.next_id ≡ m.next_id
      by_answer (none, slab) = refl
      by_answer (some st, slab) = refl

  pub next_id-unregister_all :
      (ids : List ConnectionId) (n : ℕ) (s : ConnectionManager Addr dash × Metrics)
      → (unregister_all ids n s).1.0.next_id ≡ s.0.next_id
  unfolding unregister_all
  next_id-unregister_all [] n s = refl
  next_id-unregister_all (id ∷ ids) n s =
      next_id-unregister_all ids (suc n) (unregister id s) ∙ next_id-unregister id s

  next_id-register :
      (client_addr : Addr) (now : ℕ) (m : ConnectionManager Addr dash) (metrics : Metrics)
      → (register client_addr now (m, metrics)).1.0.next_id ≤ suc m.next_id
  unfolding register wrapping_add
  next_id-register client_addr now m metrics =
      by_answer (Slab.insert (State.new m.next_id client_addr now) m.connections)
    where
      by_answer :
          (r : Option SlabHandle × ConnectionSlab (ConnectionState Addr))
          → (after_insert (m, metrics) r).1.0.next_id ≤ suc m.next_id
      by_answer (none, slab) = omega arith
      by_answer (some h, slab) = omega arith

  -- A call takes one identifier at most.
  pub next_id-step :
      (s : ConnectionManager Addr dash × Metrics) (c : ℕ × Call Addr)
      → (step s c).0.next_id ≤ suc s.0.next_id
  unfolding step start_drain cleanup_idle activate record_traffic
  next_id-step (m, metrics) (now, registers client_addr) =
      next_id-register client_addr now m metrics
  next_id-step (m, metrics) (now, activates id) = ground arith
  next_id-step (m, metrics) (now, records id rx tx) = ground arith
  next_id-step s (now, unregisters id) = omega (arith, next_id-unregister id s)
  next_id-step (m, metrics) (now, drains) = omega arith
  next_id-step (m, metrics) (now, cleans) = omega (
    arith,
    next_id-unregister_all
        (idle_ids now m.config.idle_timeout m.connections (dash.iter m.id_to_handle)) 0
        (m, metrics),
  )
