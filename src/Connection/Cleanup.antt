-- ===== src/Connection/Cleanup.antt =====
-- `cleanup_idle` of src/connection/manager.rs: the loop unregisters exactly the connections that were idle
-- for too long.
mod Loop
pub use Loop.{Distinct, Cleans, unregister_all-Cleans}
use mytunnel.Prelude.{
  ℕ, ◌+◌, ◌≡◌, ◌≢◌, refl, sym, ap, ◌∙◌, subst, Bool, true, false, ◌||◌, Option, none, some, List,
  [], ◌∷◌, All, contains, arith, ◌==◌, ltb, if◌then◌else◌, Bool-cases, Option-cases, inl, inr,
  ==_refl,
}
use mytunnel.Dash.{DashMap, Elem, DistinctKeys}
use mytunnel.Metrics.{Metrics}
use mytunnel.Pool.Slab
use mytunnel.Pool.Slab.{SlabHandle}
use mytunnel.Connection.State.{ConnectionId, ConnectionState, idle_duration}
use mytunnel.Connection.{ConnectionManager, get, is_idle, idle_ids, cleanup_idle}
use mytunnel.Connection.Tracks.{Tracks, get_unknown, get_known}

-- Its last activity, with the limit, lies before now.
abbrev pub is_overdue : {Addr : Type 0} → ℕ → ℕ → Option (ConnectionState Addr) → Bool
is_overdue now limit none = false
is_overdue now limit (some state) = ltb (state.last_active + limit) now

is_idle_lem :
    {Addr : Type 0} (now limit : ℕ) (o : Option (ConnectionState Addr))
    → is_idle now limit o ≡ is_overdue now limit o
unfolding is_idle idle_duration
is_idle_lem now limit none = refl
is_idle_lem now limit (some state) = ground arith

module _ {Addr : Type 0} {dash : DashMap ConnectionId SlabHandle} (now : ℕ)
    (m : ConnectionManager Addr dash) where
  -- Whether the connection of an identifier has been idle for longer than the limit.
  abbrev too_idle : ConnectionId → Bool
  too_idle j = is_idle now m.config.idle_timeout (get j m)

  -- Whether an identifier is that of a connection whose last activity, with the limit, lies before now.
  abbrev pub overdue : ConnectionId → Bool
  overdue j = is_overdue now m.config.idle_timeout (get j m)

  abbrev idle : List (ConnectionId × SlabHandle) → List ConnectionId
  idle entries = idle_ids now m.config.idle_timeout m.connections entries

  abbrev Held : List (ConnectionId × SlabHandle) → Type 0
  Held entries = All (λ e. dash.get e.0 m.id_to_handle ≡ some e.1) entries

  idle_head :
      (id : ConnectionId) (h : SlabHandle)
      → dash.get id m.id_to_handle ≡ some h
      → is_idle now m.config.idle_timeout (Slab.get h m.connections) ≡ too_idle id
  idle_head id h e = ap (is_idle now m.config.idle_timeout) (sym (get_known m id h e))

  -- What the filter lets through is too idle,
  idle-too_idle :
      (entries : List (ConnectionId × SlabHandle)) (j : ConnectionId)
      → Held entries
      → contains (idle entries) j ≡ true
      → too_idle j ≡ true
  unfolding idle_ids contains
  idle-too_idle [] j held h = cc
  idle-too_idle ((id, k) ∷ entries) j held h =
      let later = idle-too_idle entries j held.1 in
      elim (Bool-cases (is_idle now m.config.idle_timeout (Slab.get k m.connections))) [
        | inl long ↦
            let r : (id == j || contains (idle entries) j) ≡ true =
              subst (λ b. contains (if b then id ∷ idle entries else idle entries) j ≡ true) long
                h in
            elim (Bool-cases (id == j)) [
              | inl same ↦
                  let q : id ≡ j = ground arith in
                  ap too_idle (sym q) ∙ sym (idle_head id k held.0) ∙ long
              | inr other ↦ later (subst (λ b. (b || contains (idle entries) j) ≡ true) other r)
            ]
        | inr short ↦
            later (
              subst (λ b. contains (if b then id ∷ idle entries else idle entries) j ≡ true) short
                h)
      ]

  -- and an entry that is too idle is let through.
  too_idle-idle :
      (entries : List (ConnectionId × SlabHandle)) (j : ConnectionId) (h : SlabHandle)
      → Held entries
      → Elem (j, h) entries
      → too_idle j ≡ true
      → contains (idle entries) j ≡ true
  unfolding idle_ids contains
  too_idle-idle [] j h held here idles = absurd here
  too_idle-idle ((id, k) ∷ entries) j h held (inl e) idles =
      let q : j ≡ id = ap (λ (p : ConnectionId × SlabHandle). p.0) e in
      rw (idle_head id k held.0 ∙ ap too_idle (sym q) ∙ idles, q, ==_refl id) refl
  too_idle-idle ((id, k) ∷ entries) j h held (inr there) idles =
      let later = too_idle-idle entries j h held.1 there idles in
      elim (Bool-cases (is_idle now m.config.idle_timeout (Slab.get k m.connections))) [
        | inl long ↦ rw (long, later) (ground arith)
        | inr short ↦ rw (short, later) refl
      ]

  idle-absent :
      (entries : List (ConnectionId × SlabHandle)) (id : ConnectionId)
      → All (λ d. d.0 ≢ id) entries
      → contains (idle entries) id ≡ false
  unfolding idle_ids contains
  idle-absent [] id others = refl
  idle-absent ((j, k) ∷ entries) id others =
      let later = idle-absent entries id others.1 in
      elim (Bool-cases (is_idle now m.config.idle_timeout (Slab.get k m.connections))) [
        | inl long ↦ rw (long, later) (ground (arith, others.0))
        | inr short ↦ rw (short, later) refl
      ]

  idle-Distinct :
      (entries : List (ConnectionId × SlabHandle))
      → Held entries
      → DistinctKeys entries
      → Distinct (idle entries)
  unfolding idle_ids
  idle-Distinct [] held distinct = tt
  idle-Distinct ((id, k) ∷ entries) held distinct =
      let later = idle-Distinct entries held.1 distinct.1 in
      elim (Bool-cases (is_idle now m.config.idle_timeout (Slab.get k m.connections))) [
        | inl long ↦ rw long (idle-absent entries id distinct.0, later)
        | inr short ↦ rw short later
      ]

  idle-Known :
      (entries : List (ConnectionId × SlabHandle))
      → Held entries
      → All (λ i. get i m ≢ none) (idle entries)
  unfolding idle_ids is_idle
  idle-Known [] held = tt
  idle-Known ((id, k) ∷ entries) held =
      let later = idle-Known entries held.1 in
      elim (Option-cases (Slab.get k m.connections)) [
        | inl e ↦ rw (e, is_idle) later
        | inr (st, e) ↦
            let known : get id m ≡ some st = get_known m id k held.0 ∙ e in
            elim (Bool-cases (is_idle now m.config.idle_timeout (Slab.get k m.connections))) [
              | inl long ↦ rw long ((λ (q : get id m ≡ none). cc), later)
              | inr short ↦ rw short later
            ]
      ]

  module _ (ok : Tracks m) where
    contains-idle : (j : ConnectionId) → contains (idle (dash.iter m.id_to_handle)) j ≡ too_idle j
    unfolding is_idle
    contains-idle j =
        let held = dash.iter_held m.id_to_handle in
        elim (Bool-cases (too_idle j)) [
          | inl long ↦ elim (Option-cases (dash.get j m.id_to_handle)) [
            | inl e ↦
                let q : false ≡ too_idle j =
                  sym (ap (is_idle now m.config.idle_timeout) (get_unknown m j e)) in
                absurd cc
            | inr (h, e) ↦
                too_idle-idle (dash.iter m.id_to_handle) j h held
                  (dash.iter_all j h m.id_to_handle e) long
                ∙ sym long
          ]
          | inr short ↦ elim (Bool-cases (contains (idle (dash.iter m.id_to_handle)) j)) [
            | inl there ↦
                absurd (let q = idle-too_idle (dash.iter m.id_to_handle) j held there in cc)
            | inr away ↦ away ∙ sym short
          ]
        ]

    -- On a manager that satisfies the invariant, `cleanup_idle` unregisters the connections that
    -- are registered and whose last activity, with the idle timeout, lies before the given time,
    -- and no others; it returns how many those are, and keeps the invariant.
    pub cleanup_idle-Cleans :
        (metrics : Metrics) → Cleans overdue 0 m (cleanup_idle now (m, metrics))
    unfolding cleanup_idle
    cleanup_idle-Cleans metrics =
        let entries = dash.iter m.id_to_handle in
        let held = dash.iter_held m.id_to_handle in
        let (ok', gone, total) =
          unregister_all-Cleans (idle entries) 0 m metrics ok
            (idle-Distinct entries held (dash.iter_distinct m.id_to_handle))
            (idle-Known entries held) in
        (
          ok',
          λ j.
              gone j
              ∙ ap (λ b. if b then none else get j m)
                  (contains-idle j ∙ is_idle_lem now m.config.idle_timeout (get j m)),
          total,
        )
