-- ===== src/Connection/Listed.antt =====
-- `list_connections`: it lists as many connections as `connection_count` counts.
use mytunnel.Prelude.{
  ℕ, suc, ◌<◌, ◌≡◌, ◌≢◌, refl, sym, ap, ◌∙◌, Bool-cases, inl, inr, Option, none, some, Option-cases,
  List, [], ◌∷◌, length, All, set, get_or, arith, ◌==◌, zero, leb, Text,
}
use mytunnel.Dash.{DashMap, DistinctKeys, Elem}
use mytunnel.Pool.Slab
use mytunnel.Pool.Slab.{SlabHandle}
use mytunnel.Pool.Slab.Occupied.{
  occupied, occupied-none, occupied-set-none, get_or-set_self, get_or-set_ne,
}
use mytunnel.Connection.State.{ConnectionId}
use mytunnel.Connection.Links.{same_handle}
use mytunnel.Connection.{ConnectionManager, list_connections, list_entries, connection_count}
use mytunnel.Connection.Tracks.{Tracks}

-- The slots that some entries lead to, each entry to one of its own.
module _ {T : Type 0} where
  -- Every entry's slot is occupied, and no two entries share one.
  abbrev AreHeld : List (ConnectionId × SlabHandle) → List (Option T) → Type 0
  AreHeld [] slots = Unit {0}
  AreHeld ((id, h) ∷ es) slots =
      ((v : T) × (get_or slots h.index none ≡ some v))
      × All (λ d. d.1.index ≢ h.index) es
      × AreHeld es slots

  -- Every occupied slot is the one of an entry.
  abbrev AreAll : List (ConnectionId × SlabHandle) → List (Option T) → Type 0
  AreAll es slots =
      (i : ℕ) (v : T)
      → get_or slots i none ≡ some v
      → (id : ConnectionId) × Elem (id, record { index = i }) es

  in_range :
      (slots : List (Option T)) (i : ℕ) (v : T) → get_or slots i none ≡ some v → i < length slots
  in_range [] i v e = absurd cc
  in_range (x ∷ slots) zero v e = omega arith
  in_range (x ∷ slots) (suc i) v e = omega (arith, in_range slots i v e)

  held-set :
      (i : ℕ) (es : List (ConnectionId × SlabHandle)) (slots : List (Option T))
      → All (λ d. d.1.index ≢ i) es
      → AreHeld es slots
      → AreHeld es (set slots i none)
  held-set i [] slots ne held = tt
  held-set i ((id, h) ∷ es) slots (n, ne) ((v, e), others, held) =
      ((v, get_or-set_ne slots i h.index none n ∙ e), others, held-set i es slots ne held)

  all-set :
      (id : ConnectionId) (h : SlabHandle) (es : List (ConnectionId × SlabHandle))
      (slots : List (Option T)) (v : T)
      → get_or slots h.index none ≡ some v
      → AreAll ((id, h) ∷ es) slots
      → AreAll es (set slots h.index none)
  all-set id h es slots v e all i w f = elim (Bool-cases (i == h.index)) [
    | inl q ↦
        let same : i ≡ h.index = ground arith in
        let gone = get_or-set_self slots h.index none (in_range slots h.index v e) in
        let found : some w ≡ none =
          sym f ∙ ap (λ (k : ℕ). get_or (set slots h.index none) k none) same ∙ gone in
        absurd cc
    | inr q ↦
        let other : i ≢ h.index = λ r. ground arith in
        let (id', found) = all i w (sym (get_or-set_ne slots h.index i none other) ∙ f) in
        elim found [ inl r ↦ absurd (other (ap (λ x. x.1.index) r)) | inr r ↦ (id', r) ]
  ]

  occupied-held :
      (es : List (ConnectionId × SlabHandle)) (slots : List (Option T))
      → AreHeld es slots
      → AreAll es slots
      → occupied slots ≡ length es
  occupied-held [] slots held all = occupied-none T slots (λ i.
      elim (Option-cases (get_or slots i none)) [
        | inl e ↦ e
        | inr (v, e) ↦ let (id, found) = all i v e in absurd found
      ])
  occupied-held ((id, h) ∷ es) slots ((v, e), others, held) all =
      sym (occupied-set-none slots h.index v e)
      ∙ ap suc (
          occupied-held es (set slots h.index none) (held-set h.index es slots others held)
            (all-set id h es slots v e all))

module _ {Addr : Type 0} {dash : DashMap ConnectionId SlabHandle} (m : ConnectionManager Addr dash)
    (ok : Tracks m) where
  get_slot : (h : SlabHandle) → Slab.get h m.connections ≡ get_or m.connections.slots h.index none
  unfolding Slab.get
  get_slot h = elim (Bool-cases (leb m.connections.capacity h.index)) [
    | inl q ↦ rw q (sym (ok.slab_ok.beyond h.index (ground arith)))
    | inr q ↦ rw q refl
  ]

  -- Two identifiers do not lead to one slot.
  own_slot :
      (id id' : ConnectionId) (h h' : SlabHandle)
      → dash.get id m.id_to_handle ≡ some h
      → dash.get id' m.id_to_handle ≡ some h'
      → id' ≢ id
      → h'.index ≢ h.index
  own_slot id id' h h' e e' ne same =
      let (st, (stored, named)) = ok.linked.pointing id h e in
      let (st', (stored', named')) = ok.linked.pointing id' h' e' in
      let equal : some st' ≡ some st =
        sym stored' ∙ ap (λ k. Slab.get k m.connections) (same_handle h' h same) ∙ stored in
      let states : st' ≡ st = cc in ne (sym named' ∙ ap (λ x. x.id) states ∙ named)

  own_slots :
      (id : ConnectionId) (h : SlabHandle) (es : List (ConnectionId × SlabHandle))
      → dash.get id m.id_to_handle ≡ some h
      → All (λ d. d.0 ≢ id) es
      → All (λ d. dash.get d.0 m.id_to_handle ≡ some d.1) es
      → All (λ d. d.1.index ≢ h.index) es
  own_slots id h [] e ne held = tt
  own_slots id h ((id', h') ∷ es) e (n, ne) (f, held) =
      (own_slot id id' h h' e f n, own_slots id h es e ne held)

  entries-AreHeld :
      (es : List (ConnectionId × SlabHandle))
      → DistinctKeys es
      → All (λ d. dash.get d.0 m.id_to_handle ≡ some d.1) es
      → AreHeld es m.connections.slots
  entries-AreHeld [] distinct held = tt
  entries-AreHeld ((id, h) ∷ es) (ne, distinct) (e, held) =
      let (st, (stored, named)) = ok.linked.pointing id h e in
      (
        (st, sym (get_slot h) ∙ stored),
        own_slots id h es e ne held,
        entries-AreHeld es distinct held,
      )

  entries-AreAll : AreAll (dash.iter m.id_to_handle) m.connections.slots
  entries-AreAll i st e = (
    st.id,
    dash.iter_all st.id (record { index = i }) m.id_to_handle
        (ok.linked.tracked (record { index = i }) st (get_slot (record { index = i }) ∙ e)),
  )

  length-list_entries :
      (show_addr : Addr → Text) (now : ℕ) (es : List (ConnectionId × SlabHandle))
      → All (λ d. dash.get d.0 m.id_to_handle ≡ some d.1) es
      → length (list_entries show_addr now m.connections es) ≡ length es
  length-list_entries show_addr now [] held = refl
  length-list_entries show_addr now ((id, h) ∷ es) (e, held) =
      let (st, (stored, named)) = ok.linked.pointing id h e in
      rw (stored, list_entries) (ap suc (length-list_entries show_addr now es held))

  -- The list has as many connections as are counted. The manager satisfies its invariant.
  pub length-list_connections :
      (show_addr : Addr → Text) (now : ℕ)
      → length (list_connections show_addr now m) ≡ connection_count m
  unfolding list_connections connection_count Slab.len
  length-list_connections show_addr now =
      let held = dash.iter_held m.id_to_handle in
      length-list_entries show_addr now (dash.iter m.id_to_handle) held
      ∙ sym (
          occupied-held (dash.iter m.id_to_handle) m.connections.slots
            (entries-AreHeld (dash.iter m.id_to_handle) (dash.iter_distinct m.id_to_handle) held)
            entries-AreAll)
      ∙ sym ok.slab_ok.counted
