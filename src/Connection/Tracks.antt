-- ===== src/Connection/Tracks.antt =====
-- The invariant of the connection manager, and what `register`, `unregister` and the writes do to the
-- connections as a partial function of their identifiers.
pub mod Register
pub mod Unregister
pub mod Write
use mytunnel.Prelude.{◌<◌, ◌≡◌, refl, none, some, arith, Option-cases, inl, inr, u64_mod}
use mytunnel.Dash.{DashMap}
use mytunnel.Pool.Slab
use mytunnel.Pool.Slab.{SlabHandle}
use mytunnel.Pool.Slab.Consistent.{IsConsistent}
use mytunnel.Pool.Slab.Consistent.Create.{new-IsConsistent}
use mytunnel.Connection.State.{ConnectionId, ConnectionState}
use mytunnel.Connection.Links.{Linked}
use mytunnel.Connection.{ConnectionManagerConfig, ConnectionManager, new, get}

-- The slab is consistent, the map and the slab agree, and each identifier was given out.
pub record Tracks {Addr : Type 0} {dash : DashMap ConnectionId SlabHandle}
    (m : ConnectionManager Addr dash) : Type 0 where
  pub slab_ok : IsConsistent m.connections
  pub linked : Linked (λ id. dash.get id m.id_to_handle) (λ h. Slab.get h m.connections)
  pub below :
      (id : ConnectionId) (h : SlabHandle) → dash.get id m.id_to_handle ≡ some h → id < m.next_id

module _ {Addr : Type 0} {dash : DashMap ConnectionId SlabHandle}
    (m : ConnectionManager Addr dash) where
  pub get_unknown : (id : ConnectionId) → dash.get id m.id_to_handle ≡ none → get id m ≡ none
  unfolding get
  get_unknown id e = rw (e, get) refl

  pub get_known :
      (id : ConnectionId) (h : SlabHandle)
      → dash.get id m.id_to_handle ≡ some h
      → get id m ≡ Slab.get h m.connections
  unfolding get
  get_known id h e = rw (e, get) refl

  pub get_fresh : Tracks m → dash.get m.next_id m.id_to_handle ≡ none
  get_fresh ok = elim (Option-cases (dash.get m.next_id m.id_to_handle)) [
    | inl e ↦ e
    | inr (h, e) ↦ absurd (omega (arith, ok.below m.next_id h e))
  ]

-- A new manager satisfies the invariant and has no connection, for every number of slots that fits in a
-- `usize`.
pub new-Tracks :
    (Addr : Type 0) (dash : DashMap ConnectionId SlabHandle) (config : ConnectionManagerConfig)
    → config.max_connections < u64_mod
    → Tracks (new Addr dash config) × ((id : ConnectionId) → get id (new Addr dash config) ≡ none)
unfolding new
new-Tracks Addr dash config small =
    let (slab_ok, empty) = new-IsConsistent (ConnectionState Addr) config.max_connections small in
    (
      record {
        slab_ok = slab_ok;
        linked = record {
          pointing = λ id h e. let q = dash.get-empty id in absurd cc;
          tracked = λ h st e. let q = empty h in absurd cc;
        };
        below = λ id h e. let q = dash.get-empty id in absurd cc;
      },
      λ id. get_unknown (new Addr dash config) id (dash.get-empty id),
    )
