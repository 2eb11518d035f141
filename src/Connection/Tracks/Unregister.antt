-- ===== src/Connection/Tracks/Unregister.antt =====
-- `unregister`: the identifier is forgotten, and its slot is free again.
use mytunnel.Prelude.{
  ℕ, suc, ◌<◌, ◌≡◌, ◌≢◌, refl, sym, ap, ◌∙◌, Option, none, some, arith, ◌==◌, if◌then◌else◌,
  Bool-cases, Option-cases, inl, inr,
}
use mytunnel.Dash.{DashMap}
use mytunnel.Metrics
use mytunnel.Metrics.{Metrics}
use mytunnel.Pool.Slab
use mytunnel.Pool.Slab.{SlabHandle, ConnectionSlab}
use mytunnel.Pool.Slab.Consistent.Contents.{Removes, remove-Removes}
use mytunnel.Connection.State.{ConnectionId, ConnectionState}
use mytunnel.Connection.Links.{unlink, same_handle}
use mytunnel.Connection.{ConnectionManager, get, after_remove, unregister, connection_count}
use mytunnel.Connection.Tracks.{Tracks, get_unknown, get_known}

module _ {Addr : Type 0} {dash : DashMap ConnectionId SlabHandle} (m : ConnectionManager Addr dash)
    (metrics : Metrics) (id : ConnectionId) (ok : Tracks m) where
  -- What `unregister` has done, by the connection that the identifier had.
  abbrev pub Unregisters :
      Option (ConnectionState Addr) → ConnectionManager Addr dash × Metrics → Type 0
  Unregisters none (m', metrics') =
      Tracks m'
      × (m'.config ≡ m.config)
      × ((j : ConnectionId) → get j m' ≡ get j m)
      × (connection_count m' ≡ connection_count m)
      × (metrics' ≡ metrics)
  Unregisters (some st) (m', metrics') =
      Tracks m'
      × (m'.config ≡ m.config)
      × ((j : ConnectionId) → get j m' ≡ (if j == id then none else get j m))
      × (suc (connection_count m') ≡ connection_count m)
      × (metrics' ≡ Metrics.connection_closed metrics)

  abbrev ids : dash.Map
  ids = (dash.remove id m.id_to_handle).1

  abbrev forgotten : ConnectionSlab (ConnectionState Addr) → ConnectionManager Addr dash
  forgotten slab = record m { connections = slab; id_to_handle = ids }

  forgotten-below :
      (slab : ConnectionSlab (ConnectionState Addr)) (j : ConnectionId) (h : SlabHandle)
      → dash.get j ids ≡ some h
      → j < m.next_id
  forgotten-below slab j h e = elim (Bool-cases (j == id)) [
    | inl same ↦
        let q : j ≡ id = ground arith in
        let gone : dash.get j ids ≡ none =
          ap (λ i. dash.get i ids) q ∙ dash.get-remove_self id m.id_to_handle in
        absurd cc
    | inr other ↦
        ok.below j h (sym (dash.get-remove_ne id j m.id_to_handle (λ q. ground arith)) ∙ e)
  ]

  module _ (unknown : dash.get id m.id_to_handle ≡ none) where
    ids_same : (j : ConnectionId) → dash.get j ids ≡ dash.get j m.id_to_handle
    ids_same j = elim (Bool-cases (j == id)) [
      | inl same ↦
          let q : j ≡ id = ground arith in
          ap (λ i. dash.get i ids) q
          ∙ dash.get-remove_self id m.id_to_handle
          ∙ sym unknown
          ∙ ap (λ i. dash.get i m.id_to_handle) (sym q)
      | inr other ↦ dash.get-remove_ne id j m.id_to_handle (λ q. ground arith)
    ]

    unknown-Unregisters : Unregisters none (forgotten m.connections, metrics)
    unfolding get connection_count
    unknown-Unregisters = (
      record {
        slab_ok = ok.slab_ok;
        linked = record {
          pointing = λ j h e. ok.linked.pointing j h (sym (ids_same j) ∙ e);
          tracked = λ h st e. ids_same st.id ∙ ok.linked.tracked h st e;
        };
        below = forgotten-below m.connections;
      },
      refl,
      λ j. rw (ids_same j, get) refl,
      refl,
      refl,
    )

  module _ (h : SlabHandle) (st : ConnectionState Addr)
      (slab : ConnectionSlab (ConnectionState Addr)) (known : dash.get id m.id_to_handle ≡ some h)
      (named : st.id ≡ id) (rem : Removes m.connections ok.slab_ok h (some st, slab)) where
    forgotten-Tracks : Tracks (forgotten slab)
    forgotten-Tracks =
        let (held, slab_ok, emptied, count) = rem in
        record {
          slab_ok = slab_ok;
          linked =
              unlink (λ j. dash.get j m.id_to_handle) _ (λ k. Slab.get k m.connections) _ id h st
                ok.linked (λ j n. dash.get-remove_ne id j m.id_to_handle n) named held known
                (dash.get-remove_self id m.id_to_handle) emptied;
          below = forgotten-below slab;
        }

    forgotten-get_other : (j : ConnectionId) → j ≢ id → get j (forgotten slab) ≡ get j m
    forgotten-get_other j n =
        let (held, slab_ok, emptied, count) = rem in
        let same = dash.get-remove_ne id j m.id_to_handle n in
        elim (Option-cases (dash.get j m.id_to_handle)) [
          | inl e ↦ get_unknown (forgotten slab) j (same ∙ e) ∙ sym (get_unknown m j e)
          | inr (k, e) ↦
              let (other, (there, its_id)) = ok.linked.pointing j k e in
              elim (Bool-cases (k.index == h.index)) [
                | inl at_h ↦
                    let q : k ≡ h = same_handle k h (ground arith) in
                    let r : some other ≡ some st =
                      sym there ∙ ap (λ i. Slab.get i m.connections) q ∙ held in
                    let s : other ≡ st = cc in
                    absurd (n (sym its_id ∙ ap (λ (x : ConnectionState Addr). x.id) s ∙ named))
                | inr away ↦
                    get_known (forgotten slab) j k (same ∙ e)
                    ∙ emptied k
                    ∙ rw away (sym (get_known m j k e))
              ]
        ]

    forgotten-get :
        (j : ConnectionId) → get j (forgotten slab) ≡ (if j == id then none else get j m)
    forgotten-get j = elim (Bool-cases (j == id)) [
      | inl same ↦
          let q : j ≡ id = ground arith in
          rw same (
            ap (λ (i : ℕ). get i (forgotten slab)) q
            ∙ get_unknown (forgotten slab) id (dash.get-remove_self id m.id_to_handle))
      | inr other ↦ rw other (forgotten-get_other j (λ q. ground arith))
    ]

  unregister-removed :
      (h : SlabHandle) (st : ConnectionState Addr)
      (o : Option (ConnectionState Addr) × ConnectionSlab (ConnectionState Addr))
      → dash.get id m.id_to_handle ≡ some h
      → Slab.get h m.connections ≡ some st
      → st.id ≡ id
      → Removes m.connections ok.slab_ok h o
      → Unregisters (some st) (after_remove ids (m, metrics) o)
  unfolding connection_count
  unregister-removed h st (none, slab) known held named (gone, same) = absurd cc
  unregister-removed h st (some old, slab) known held named rem =
      let (found, slab_ok, emptied, count) = rem in
      let q : some old ≡ some st = sym found ∙ held in
      let old_named : old.id ≡ id =
        ap (λ (x : ConnectionState Addr). x.id) (let r : old ≡ st = cc in r) ∙ named in
      (
        forgotten-Tracks h old slab known old_named rem,
        refl,
        forgotten-get h old slab known old_named rem,
        count,
        refl,
      )

  unregister-unknown :
      dash.get id m.id_to_handle ≡ none → Unregisters none (unregister id (m, metrics))
  unfolding unregister
  unregister-unknown unknown =
      rw (dash.remove_value id m.id_to_handle, unknown, unregister) (unknown-Unregisters unknown)

  -- On a manager that satisfies the invariant, `unregister` of an identifier that no connection has
  -- changes no connection, not the count and not the counters. Else that connection is gone, no
  -- other one changes, the count goes down by one, and `connection_closed` is counted. The
  -- invariant is kept.
  pub unregister-Unregisters : Unregisters (get id m) (unregister id (m, metrics))
  unfolding unregister
  unregister-Unregisters = elim (Option-cases (dash.get id m.id_to_handle)) [
    | inl e ↦ rw (get_unknown m id e) (unregister-unknown e)
    | inr (h, e) ↦
        let (st, (held, named)) = ok.linked.pointing id h e in
        rw (get_known m id h e ∙ held, dash.remove_value id m.id_to_handle, e, unregister)
          (unregister-removed h st (Slab.remove h m.connections) e held named
            (remove-Removes m.connections ok.slab_ok h))
  ]
