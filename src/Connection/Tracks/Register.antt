-- ===== src/Connection/Tracks/Register.antt =====
-- `register`: a fresh identifier and a connecting state, or nothing when no slot is free.
use mytunnel.Prelude.{
  ℕ, suc, ◌<◌, ◌≡◌, ◌≢◌, refl, sym, ap, ◌∙◌, subst, true, false, Option, none, some, arith, ◌==◌,
  if◌then◌else◌, Bool-cases, Option-cases, inl, inr, u64_mod, wrapping_add,
}
use mytunnel.Dash.{DashMap}
use mytunnel.Metrics
use mytunnel.Metrics.{Metrics}
use mytunnel.Pool.Slab
use mytunnel.Pool.Slab.{SlabHandle, ConnectionSlab}
use mytunnel.Pool.Slab.Consistent.Contents.{Inserts, insert-Inserts}
use mytunnel.Connection.State
use mytunnel.Connection.State.{ConnectionId, ConnectionState}
use mytunnel.Connection.Links.{link, if_index_self}
use mytunnel.Connection.{ConnectionManager, get, after_insert, register, is_full, connection_count}
use mytunnel.Connection.Tracks.{Tracks, get_unknown, get_known, get_fresh}

module _ {Addr : Type 0} {dash : DashMap ConnectionId SlabHandle} (m : ConnectionManager Addr dash)
    (metrics : Metrics) (client_addr : Addr) (now : ℕ) where
  -- What `register` may return.
  abbrev pub Registers : Option ConnectionId × (ConnectionManager Addr dash × Metrics) → Type 0
  Registers (none, (m', metrics')) =
      (is_full m ≡ true)
      × Tracks m'
      × ((j : ConnectionId) → get j m' ≡ get j m)
      × (connection_count m' ≡ connection_count m)
      × (metrics' ≡ metrics)
  Registers (some id, (m', metrics')) =
      (is_full m ≡ false)
      × Tracks m'
      × (get id m ≡ none)
      × ((j : ConnectionId)
          → get j m' ≡ (if j == id then some (State.new id client_addr now) else get j m))
      × (connection_count m' ≡ suc (connection_count m))
      × (metrics' ≡ Metrics.connection_opened metrics)

  get-next_id : (j : ConnectionId) (n : ℕ) → get j (record m { next_id = n }) ≡ get j m
  unfolding get
  get-next_id j n = refl

  module _ (ok : Tracks m) (room : suc m.next_id < u64_mod) where
    -- The manager after a slot was found.
    abbrev registered :
        SlabHandle → ConnectionSlab (ConnectionState Addr) → ConnectionManager Addr dash
    registered h slab = record m {
      connections = slab;
      id_to_handle = dash.insert m.next_id h m.id_to_handle;
      next_id = wrapping_add m.next_id 1;
    }

    abbrev fresh : ConnectionState Addr
    fresh = State.new m.next_id client_addr now

    module _ (h : SlabHandle) (slab : ConnectionSlab (ConnectionState Addr))
        (ins : Inserts m.connections ok.slab_ok fresh (some h, slab)) where
      registered-below :
          (id : ConnectionId) (k : SlabHandle)
          → dash.get id (dash.insert m.next_id h m.id_to_handle) ≡ some k
          → id < wrapping_add m.next_id 1
      unfolding wrapping_add
      registered-below id k e = elim (Bool-cases (id == m.next_id)) [
        | inl same ↦ ground arith
        | inr other ↦ omega (
          arith,
          room,
          ok.below id k
              (sym (dash.get-insert_ne m.next_id id h m.id_to_handle (λ q. ground arith)) ∙ e),
        )
      ]

      registered-Tracks : Tracks (registered h slab)
      unfolding State.new
      registered-Tracks =
          let (slab_ok, full, low, lowest, stored, free, count) = ins in
          record {
            slab_ok = slab_ok;
            linked =
                link (λ id. dash.get id m.id_to_handle) _ (λ k. Slab.get k m.connections) _
                  m.next_id h fresh ok.linked
                  (λ j n. dash.get-insert_ne m.next_id j h m.id_to_handle n) refl free
                  (get_fresh m ok) (dash.get-insert_self m.next_id h m.id_to_handle) stored;
            below = registered-below;
          }

      registered-get_self : get m.next_id (registered h slab) ≡ some fresh
      registered-get_self =
          let (slab_ok, full, low, lowest, stored, free, count) = ins in
          get_known (registered h slab) m.next_id h
            (dash.get-insert_self m.next_id h m.id_to_handle)
          ∙ stored h
          ∙ if_index_self h _ _

      registered-get_other :
          (j : ConnectionId) → j ≢ m.next_id → get j (registered h slab) ≡ get j m
      registered-get_other j n =
          let (slab_ok, full, low, lowest, stored, free, count) = ins in
          let same = dash.get-insert_ne m.next_id j h m.id_to_handle n in
          elim (Option-cases (dash.get j m.id_to_handle)) [
            | inl e ↦ get_unknown (registered h slab) j (same ∙ e) ∙ sym (get_unknown m j e)
            | inr (k, e) ↦
                let (st, (held, its_id)) = ok.linked.pointing j k e in
                elim (Bool-cases (k.index == h.index)) [
                  | inl at_h ↦
                      let q : k.index ≡ h.index = ground arith in
                      let r : Slab.get k m.connections ≡ none =
                        ap (λ i. Slab.get (record { index = i }) m.connections) q ∙ free in
                      absurd cc
                  | inr away ↦
                      get_known (registered h slab) j k (same ∙ e)
                      ∙ stored k
                      ∙ rw away (sym (get_known m j k e))
                ]
          ]

      registered-get :
          (j : ConnectionId)
          → get j (registered h slab) ≡ (if j == m.next_id then some fresh else get j m)
      registered-get j = elim (Bool-cases (j == m.next_id)) [
        | inl same ↦
            let q : j ≡ m.next_id = ground arith in
            rw same (ap (λ (i : ℕ). get i (registered h slab)) q ∙ registered-get_self)
        | inr other ↦ rw other (registered-get_other j (λ q. ground arith))
      ]

    refused-Tracks : Tracks (record m { next_id = wrapping_add m.next_id 1 })
    unfolding wrapping_add
    refused-Tracks = record {
      slab_ok = ok.slab_ok;
      linked = ok.linked;
      below = λ id h e. omega (arith, room, ok.below id h e);
    }

    register-inserted :
        (o : Option SlabHandle × ConnectionSlab (ConnectionState Addr))
        → Inserts m.connections ok.slab_ok fresh o
        → Registers (after_insert (m, metrics) o)
    unfolding is_full connection_count
    register-inserted (none, slab) (same, full) = (
      full,
      subst (λ s. Tracks (record m { connections = s; next_id = wrapping_add m.next_id 1 }))
          (sym same) refused-Tracks,
      λ j.
          ap (λ s. get j (record m { connections = s; next_id = wrapping_add m.next_id 1 })) same
          ∙ get-next_id j (wrapping_add m.next_id 1),
      ap Slab.len same,
      refl,
    )
    register-inserted (some h, slab) ins =
        let (slab_ok, full, low, lowest, stored, free, count) = ins in
        (
          full,
          registered-Tracks h slab ins,
          get_unknown m m.next_id (get_fresh m ok),
          registered-get h slab ins,
          count,
          refl,
        )

    -- `register` returns nothing exactly when the manager is full: then every connection, their number
    -- and the counters stay as they were. Else it returns an identifier that no connection had, under which a connecting
    -- state is found from now on; no other connection changes, the count goes up by one, and
    -- `connection_opened` is counted. The invariant is kept, for a manager that satisfies it and whose
    -- identifiers are not used up.
    pub register-Registers : Registers (register client_addr now (m, metrics))
    unfolding register
    register-Registers =
        register-inserted (Slab.insert fresh m.connections)
          (insert-Inserts m.connections ok.slab_ok fresh)
