-- ===== src/Connection.antt =====
-- src/connection/manager.rs: the connections in a slab, with a map from identifiers to their handles.
-- A method runs to its end before another begins. The operations that read the clock take its time, the
-- global `METRICS` is passed along, and the shutdown channel and the log are left out.
pub mod State
pub mod Links
pub mod Tracks
pub mod Cleanup
pub mod Drain
pub mod History
pub mod Listed
pub mod Tests
use mytunnel.Prelude.{
  ℕ, suc, Bool, false, Option, none, some, List, [], ◌∷◌, Text, ltb, ◌&&◌, if◌then◌else◌,
  wrapping_add,
}
use mytunnel.Dash.{DashMap}
use mytunnel.Metrics
use mytunnel.Metrics.{Metrics}
use mytunnel.Pool.Slab
use mytunnel.Pool.Slab.{SlabHandle, ConnectionSlab}
use mytunnel.Connection.State
use mytunnel.Connection.State.{ConnectionId, ConnectionState, ConnectionInfo}

-- `struct ConnectionManagerConfig`
pub record ConnectionManagerConfig : Type 0 where
  pub max_connections : ℕ
  pub idle_timeout : ℕ

-- `struct ConnectionManager`
pub record ConnectionManager (Addr : Type 0) (dash : DashMap ConnectionId SlabHandle) : Type 0 where
  pub connections : ConnectionSlab (ConnectionState Addr)
  pub id_to_handle : dash.Map
  pub next_id : ℕ
  pub config : ConnectionManagerConfig

-- `ConnectionManager::new`
unfoldable pub new :
    (Addr : Type 0) (dash : DashMap ConnectionId SlabHandle)
    → ConnectionManagerConfig
    → ConnectionManager Addr dash
new Addr dash config = record {
  connections = Slab.new (ConnectionState Addr) config.max_connections;
  id_to_handle = dash.empty;
  next_id = 1;
  config = config;
}

module _ {Addr : Type 0} where
  -- What `record_traffic` does to the state: a direction without bytes is left alone.
  unfoldable pub with_traffic : ℕ → ℕ → ℕ → ConnectionState Addr → ConnectionState Addr
  with_traffic now rx tx state =
      let received = if ltb 0 rx then State.record_rx now rx state else state in
      if ltb 0 tx then State.record_tx now tx received else received

  -- The `filter_map` of `list_connections` over the entries of the map.
  abbrev list_entries :
      (Addr → Text)
      → ℕ
      → ConnectionSlab (ConnectionState Addr)
      → List (ConnectionId × SlabHandle)
      → List ConnectionInfo
  list_entries show_addr now slab [] = []
  list_entries show_addr now slab ((id, handle) ∷ entries) = elim (Slab.get handle slab) [
    | none ↦ list_entries show_addr now slab entries
    | some state ↦ State.to_info show_addr now state ∷ list_entries show_addr now slab entries
  ]

  -- The loop of `drain` over the entries of the map.
  abbrev drain_entries :
      List (ConnectionId × SlabHandle)
      → ConnectionSlab (ConnectionState Addr)
      → ConnectionSlab (ConnectionState Addr)
  drain_entries [] slab = slab
  drain_entries ((id, handle) ∷ entries) slab =
      drain_entries entries (Slab.modify handle State.set_draining slab)

  -- The test of `cleanup_idle` on what the slab holds.
  unfoldable pub is_idle : (now idle_timeout : ℕ) → Option (ConnectionState Addr) → Bool
  is_idle now idle_timeout none = false
  is_idle now idle_timeout (some state) = ltb idle_timeout (State.idle_duration now state)

  -- The `filter_map` of `cleanup_idle` over the entries of the map.
  unfoldable pub idle_ids :
      (now idle_timeout : ℕ)
      → ConnectionSlab (ConnectionState Addr)
      → List (ConnectionId × SlabHandle)
      → List ConnectionId
  idle_ids now idle_timeout slab [] = []
  idle_ids now idle_timeout slab ((id, handle) ∷ entries) =
      let later = idle_ids now idle_timeout slab entries in
      if is_idle now idle_timeout (Slab.get handle slab) then id ∷ later else later

module _ {Addr : Type 0} {dash : DashMap ConnectionId SlabHandle} where
  -- What `register` does with the slab's answer.
  abbrev pub after_insert :
      ConnectionManager Addr dash × Metrics
      → Option SlabHandle × ConnectionSlab (ConnectionState Addr)
      → Option ConnectionId × (ConnectionManager Addr dash × Metrics)
  after_insert (m, metrics) (none, slab) =
      (none, (record m { connections = slab; next_id = wrapping_add m.next_id 1 }, metrics))
  after_insert (m, metrics) (some handle, slab) =
      let m₁ = record m {
        connections = slab;
        id_to_handle = dash.insert m.next_id handle m.id_to_handle;
        next_id = wrapping_add m.next_id 1;
      } in
      (some m.next_id, (m₁, Metrics.connection_opened metrics))

  -- `ConnectionManager::register`
  unfoldable pub register :
      Addr
      → ℕ
      → ConnectionManager Addr dash × Metrics
      → Option ConnectionId × (ConnectionManager Addr dash × Metrics)
  register client_addr now (m, metrics) =
      let state = State.new m.next_id client_addr now in
      after_insert (m, metrics) (Slab.insert state m.connections)

  -- `ConnectionManager::get`
  unfoldable pub get : ConnectionId → ConnectionManager Addr dash → Option (ConnectionState Addr)
  get id m = elim (dash.get id m.id_to_handle) [
    | none ↦ none
    | some handle ↦ Slab.get handle m.connections
  ]

  -- A write through the guard that `ConnectionManager::get_mut` returns.
  unfoldable pub modify :
      ConnectionId
      → (ConnectionState Addr → ConnectionState Addr)
      → ConnectionManager Addr dash
      → ConnectionManager Addr dash
  modify id f m = elim (dash.get id m.id_to_handle) [
    | none ↦ m
    | some handle ↦ record m { connections = Slab.modify handle f m.connections }
  ]

  -- `ConnectionManager::activate`
  unfoldable pub activate :
      ConnectionId → ℕ → ConnectionManager Addr dash → ConnectionManager Addr dash
  activate id now m = elim (dash.get id m.id_to_handle) [
    | none ↦ m
    | some handle ↦ record m {
      connections = Slab.modify handle (State.set_active now) m.connections;
    }
  ]

  -- What `unregister` does with the slab's answer, once the map has forgotten the identifier.
  abbrev pub after_remove :
      dash.Map
      → ConnectionManager Addr dash × Metrics
      → Option (ConnectionState Addr) × ConnectionSlab (ConnectionState Addr)
      → ConnectionManager Addr dash × Metrics
  after_remove ids (m, metrics) (none, slab) =
      (record m { connections = slab; id_to_handle = ids }, metrics)
  after_remove ids (m, metrics) (some state, slab) =
      (record m { connections = slab; id_to_handle = ids }, Metrics.connection_closed metrics)

  -- `ConnectionManager::unregister`
  unfoldable pub unregister :
      ConnectionId → ConnectionManager Addr dash × Metrics → ConnectionManager Addr dash × Metrics
  unregister id (m, metrics) =
      let (found, ids) = dash.remove id m.id_to_handle in
      elim found [
        | none ↦ (record m { id_to_handle = ids }, metrics)
        | some handle ↦ after_remove ids (m, metrics) (Slab.remove handle m.connections)
      ]

  -- `ConnectionManager::record_traffic`
  unfoldable pub record_traffic :
      ConnectionId
      → ℕ
      → ℕ
      → ℕ
      → ConnectionManager Addr dash × Metrics
      → ConnectionManager Addr dash × Metrics
  record_traffic id now rx tx (m, metrics) = elim (dash.get id m.id_to_handle) [
    | none ↦ (m, metrics)
    | some handle ↦ elim (Slab.get handle m.connections) [
      | none ↦ (m, metrics)
      | some state ↦
          let received = if ltb 0 rx then Metrics.bytes_rx rx metrics else metrics in
          (
            record m { connections = Slab.modify handle (with_traffic now rx tx) m.connections },
            if ltb 0 tx then Metrics.bytes_tx tx received else received,
          )
    ]
  ]

  -- `ConnectionManager::connection_count`
  unfoldable pub connection_count : ConnectionManager Addr dash → ℕ
  connection_count m = Slab.len m.connections

  -- `ConnectionManager::list_connections`
  unfoldable pub list_connections :
      (Addr → Text) → ℕ → ConnectionManager Addr dash → List ConnectionInfo
  list_connections show_addr now m =
      list_entries show_addr now m.connections (dash.iter m.id_to_handle)

  -- `ConnectionManager::is_full`
  unfoldable pub is_full : ConnectionManager Addr dash → Bool
  is_full m = Slab.is_full m.connections

  -- `ConnectionManager::drain` up to its wait, in which other tasks run.
  unfoldable pub start_drain : ConnectionManager Addr dash → ConnectionManager Addr dash
  start_drain m = record m { connections = drain_entries (dash.iter m.id_to_handle) m.connections }

  -- The condition of the `while` in which `drain` sleeps.
  unfoldable pub keeps_waiting : (timeout elapsed : ℕ) → ConnectionManager Addr dash → Bool
  keeps_waiting timeout elapsed m = ltb 0 (connection_count m) && ltb elapsed timeout

  -- The loop of `cleanup_idle` that unregisters and counts.
  unfoldable pub unregister_all :
      List ConnectionId
      → ℕ
      → ConnectionManager Addr dash × Metrics
      → ℕ × (ConnectionManager Addr dash × Metrics)
  unregister_all [] cleaned m = (cleaned, m)
  unregister_all (id ∷ ids) cleaned m = unregister_all ids (suc cleaned) (unregister id m)

  -- `ConnectionManager::cleanup_idle`
  unfoldable pub cleanup_idle :
      ℕ → ConnectionManager Addr dash × Metrics → ℕ × (ConnectionManager Addr dash × Metrics)
  cleanup_idle now (m, metrics) =
      let to_remove = idle_ids now m.config.idle_timeout m.connections (dash.iter m.id_to_handle) in
      unregister_all to_remove 0 (m, metrics)
