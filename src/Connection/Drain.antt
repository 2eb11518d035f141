-- ===== src/Connection/Drain.antt =====
-- `drain` up to its wait: every connection is marked as draining.
use mathlib.Core.Option
use mytunnel.Prelude.{
  ◌≡◌, refl, sym, ap, ◌∙◌, Bool, true, false, ◌||◌, Option, none, some, List, [], ◌∷◌, All, arith,
  ◌==◌, if◌then◌else◌, Bool-cases, Option-cases, inl, inr,
}
use mytunnel.Dash.{DashMap, Elem}
use mytunnel.Pool.Slab.{SlabHandle}
use mytunnel.Connection.State.{ConnectionId, ConnectionState, set_draining}
use mytunnel.Connection.{ConnectionManager, get, drain_entries, start_drain, connection_count}
use mytunnel.Connection.Tracks.{Tracks, get_unknown}
use mytunnel.Connection.Tracks.Write.{written, written-Writes}

named : ConnectionId → List (ConnectionId × SlabHandle) → Bool
named j [] = false
named j ((id, h) ∷ es) = j == id || named j es

named-Elem :
    (j : ConnectionId) (h : SlabHandle) (es : List (ConnectionId × SlabHandle))
    → Elem (j, h) es
    → named j es ≡ true
unfolding named
named-Elem j h [] e = absurd e
named-Elem j h ((id, k) ∷ es) (inl e) =
    let q : j ≡ id = ap (λ (x : ConnectionId × SlabHandle). x.0) e in ground arith
named-Elem j h ((id, k) ∷ es) (inr e) = ground (arith, named-Elem j h es e)

keeps_id : {Addr : Type 0} (st : ConnectionState Addr) → (set_draining st).id ≡ st.id
unfolding set_draining
keeps_id st = refl

-- Marking twice is marking once.
drained_twice :
    {Addr : Type 0} (o : Option (ConnectionState Addr))
    → Option.map set_draining (Option.map set_draining o) ≡ Option.map set_draining o
unfolding set_draining
drained_twice none = refl
drained_twice (some st) = refl

module _ {Addr : Type 0} {dash : DashMap ConnectionId SlabHandle} where
  -- What the loop over some entries of the map has done.
  abbrev Drains :
      ConnectionManager Addr dash
      → List (ConnectionId × SlabHandle)
      → ConnectionManager Addr dash
      → Type 0
  Drains m es m' =
      Tracks m'
      × ((j : ConnectionId)
          → get j m' ≡ (if named j es then Option.map set_draining (get j m) else get j m))
      × (connection_count m' ≡ connection_count m)

  drain_entries-Drains :
      (es : List (ConnectionId × SlabHandle)) (m : ConnectionManager Addr dash)
      → Tracks m
      → All (λ e. dash.get e.0 m.id_to_handle ≡ some e.1) es
      → Drains m es (record m { connections = drain_entries es m.connections })
  unfolding named
  drain_entries-Drains [] m ok held = (ok, (λ j. refl), refl)
  drain_entries-Drains ((id, h) ∷ es) m ok held =
      let (ok', one, count) = written-Writes m ok id set_draining keeps_id h held.0 in
      let m' : ConnectionManager Addr dash = written m ok id set_draining keeps_id h held.0 in
      let (ok'', rest, total) = drain_entries-Drains es m' ok' held.1 in
      (
        ok'',
        λ j. elim (Bool-cases (j == id)) [
          | inl same ↦
              let q : j ≡ id = ground arith in
              let first : get j m' ≡ Option.map set_draining (get j m) =
                one j
                ∙ rw same (ap (λ (i : ConnectionId). Option.map set_draining (get i m)) (sym q)) in
              rest j ∙ elim (Bool-cases (named j es)) [
                | inl again ↦
                    rw (again, same) (ap (Option.map set_draining) first ∙ drained_twice (get j m))
                | inr last ↦ rw (last, same) first
              ]
          | inr other ↦
              let first : get j m' ≡ get j m = one j ∙ rw other refl in
              rest j ∙ rw (other, first) refl
        ],
        total ∙ count,
      )

  pub start_drain-Tracks :
      (m : ConnectionManager Addr dash)
      → Tracks m
      → Tracks (start_drain m)
        × ((j : ConnectionId) → get j (start_drain m) ≡ Option.map set_draining (get j m))
        × (connection_count (start_drain m) ≡ connection_count m)
  unfolding start_drain
  start_drain-Tracks m ok =
      let entries = dash.iter m.id_to_handle in
      let (ok', all, count) = drain_entries-Drains entries m ok (dash.iter_held m.id_to_handle) in
      let m' : ConnectionManager Addr dash = record m {
        connections = drain_entries entries m.connections;
      } in
      (
        ok',
        λ j. elim (Option-cases (dash.get j m.id_to_handle)) [
          | inl e ↦ rw (get_unknown m j e, get_unknown m' j e) refl
          | inr (h, e) ↦
              all j ∙ rw (named-Elem j h entries (dash.iter_all j h m.id_to_handle e)) refl
        ],
        count,
      )
