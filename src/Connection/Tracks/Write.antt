-- ===== src/Connection/Tracks/Write.antt =====
-- The operations that write the state of one connection: `get_mut`, `activate` and `record_traffic`.
use mathlib.Core.Option
use mytunnel.Prelude.{
  ℕ, ◌≡◌, ◌≢◌, refl, sym, ap, ◌∙◌, Option, none, some, arith, ltb, ◌==◌, if◌then◌else◌, Bool-cases,
  Option-cases, inl, inr,
}
use mytunnel.Dash.{DashMap}
use mytunnel.Metrics
use mytunnel.Metrics.{Metrics}
use mytunnel.Pool.Slab
use mytunnel.Pool.Slab.{SlabHandle}
use mytunnel.Pool.Slab.Consistent.{IsConsistent}
use mytunnel.Pool.Slab.Consistent.Contents.{modify_lem}
use mytunnel.Connection.State
use mytunnel.Connection.State.{ConnectionId, ConnectionState}
use mytunnel.Connection.Links.{relink, same_handle, if_index_self}
use mytunnel.Connection.{
  ConnectionManager, get, modify, activate, with_traffic, record_traffic, connection_count,
}
use mytunnel.Connection.Tracks.{Tracks, get_unknown, get_known}

module _ {Addr : Type 0} {dash : DashMap ConnectionId SlabHandle} (m : ConnectionManager Addr dash)
    (id : ConnectionId) (f : ConnectionState Addr → ConnectionState Addr) where
  -- The manager in which `f` was applied to the connection of `id`.
  abbrev pub Writes : ConnectionManager Addr dash → Type 0
  Writes m' =
      Tracks m'
      × ((j : ConnectionId) → get j m' ≡ (if j == id then Option.map f (get id m) else get j m))
      × (connection_count m' ≡ connection_count m)

module _ {Addr : Type 0} {dash : DashMap ConnectionId SlabHandle} (m : ConnectionManager Addr dash)
    (ok : Tracks m) (id : ConnectionId) (f : ConnectionState Addr → ConnectionState Addr)
    (keeps : (st : ConnectionState Addr) → (f st).id ≡ st.id) where
  module _ (h : SlabHandle) (known : dash.get id m.id_to_handle ≡ some h) where
    abbrev pub written : ConnectionManager Addr dash
    written = record m { connections = Slab.modify h f m.connections }

    abbrev slab_lem :
        IsConsistent written.connections
        × ((j : SlabHandle)
            → Slab.get j written.connections ≡ (
                if j.index == h.index
                then Option.map f (Slab.get h m.connections)
                else Slab.get j m.connections))
        × (Slab.len written.connections ≡ Slab.len m.connections)
    slab_lem = modify_lem m.connections ok.slab_ok h f

    written-Tracks : Tracks written
    written-Tracks =
        let (slab_ok, others, count) = slab_lem in
        record {
          slab_ok = slab_ok;
          linked = relink _ (λ k. Slab.get k m.connections) _ h f ok.linked keeps others;
          below = ok.below;
        }

    written-get_other : (j : ConnectionId) → j ≢ id → get j written ≡ get j m
    written-get_other j n = elim (Option-cases (dash.get j m.id_to_handle)) [
      | inl e ↦ get_unknown written j e ∙ sym (get_unknown m j e)
      | inr (k, e) ↦
          let (slab_ok, others, count) = slab_lem in
          let (st, (held, its_id)) = ok.linked.pointing j k e in
          let (own, (own_held, own_id)) = ok.linked.pointing id h known in
          elim (Bool-cases (k.index == h.index)) [
            | inl at_h ↦
                let q : k ≡ h = same_handle k h (ground arith) in
                let r : some st ≡ some own =
                  sym held ∙ ap (λ i. Slab.get i m.connections) q ∙ own_held in
                let s : st ≡ own = cc in
                absurd (n (sym its_id ∙ ap (λ (x : ConnectionState Addr). x.id) s ∙ own_id))
            | inr away ↦ get_known written j k e ∙ others k ∙ rw away (sym (get_known m j k e))
          ]
    ]

    pub written-Writes : Writes m id f written
    unfolding connection_count
    written-Writes =
        let (slab_ok, others, count) = slab_lem in
        (
          written-Tracks,
          λ j. elim (Bool-cases (j == id)) [
            | inl same ↦
                let q : j ≡ id = ground arith in
                rw (same, get_known m id h known)
                  (ap (λ (i : ℕ). get i written) q
                    ∙ get_known written id h known
                    ∙ others h
                    ∙ if_index_self h _ _)
            | inr other ↦ rw other (written-get_other j (λ q. ground arith))
          ],
          count,
        )

  pub unknown-Writes : get id m ≡ none → Writes m id f m
  unknown-Writes e = (
    ok,
    λ j. elim (Bool-cases (j == id)) [
      | inl same ↦ let q : j ≡ id = ground arith in rw (same, e) (ap (λ (i : ℕ). get i m) q ∙ e)
      | inr other ↦ rw other refl
    ],
    refl,
  )

  modify-Writes : Writes m id f (modify id f m)
  unfolding modify
  modify-Writes = elim (Option-cases (dash.get id m.id_to_handle)) [
    | inl e ↦ rw (e, modify) (unknown-Writes (get_unknown m id e))
    | inr (h, e) ↦ rw (e, modify) (written-Writes h e)
  ]

module _ {Addr : Type 0} {dash : DashMap ConnectionId SlabHandle} (m : ConnectionManager Addr dash)
    (ok : Tracks m) (id : ConnectionId) where
  -- `activate` makes the connection of the identifier active and touches it, if there is one. No other
  -- connection changes and the invariant is kept.
  pub activate-Writes : (now : ℕ) → Writes m id (State.set_active now) (activate id now m)
  unfolding activate modify State.set_active State.touch
  activate-Writes now = modify-Writes m ok id (State.set_active now) (λ st. refl)

  keeps_id : (now rx tx : ℕ) (st : ConnectionState Addr) → (with_traffic now rx tx st).id ≡ st.id
  unfolding with_traffic State.record_rx State.record_tx State.touch
  keeps_id now rx tx st = ground arith

  -- The counters after the traffic of a connection was recorded.
  abbrev pub counted : (rx tx : ℕ) → Option (ConnectionState Addr) → Metrics → Metrics
  counted rx tx none metrics = metrics
  counted rx tx (some st) metrics =
      let received = if ltb 0 rx then Metrics.bytes_rx rx metrics else metrics in
      if ltb 0 tx then Metrics.bytes_tx tx received else received

  -- `record_traffic` adds the bytes to the connection of the identifier, if there is one, and to the
  -- counters if there is one, each direction only if it has bytes. No other connection changes and the
  -- invariant is kept.
  pub record_traffic-Writes :
      (now rx tx : ℕ) (metrics : Metrics)
      → Writes m id (with_traffic now rx tx) (record_traffic id now rx tx (m, metrics)).0
        × ((record_traffic id now rx tx (m, metrics)).1 ≡ counted rx tx (get id m) metrics)
  unfolding record_traffic
  record_traffic-Writes now rx tx metrics = elim (Option-cases (dash.get id m.id_to_handle)) [
    | inl e ↦
        let f = with_traffic now rx tx in
        let unknown = get_unknown m id e in
        rw (e, record_traffic)
          (unknown-Writes m ok id f (keeps_id now rx tx) unknown, rw unknown refl)
    | inr (h, e) ↦
        let f = with_traffic now rx tx in
        let (st, (held, its_id)) = ok.linked.pointing id h e in
        rw (e, held, record_traffic)
          (written-Writes m ok id f (keeps_id now rx tx) h e, rw (get_known m id h e ∙ held) refl)
  ]
