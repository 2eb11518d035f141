-- ===== src/Connection/Links.antt =====
-- The link between the map of identifiers and the slots of a connection manager, for any two functions
-- that look up a handle and a slot.
use mathlib.Core.Option
use mytunnel.Prelude.{
  ◌≡◌, ◌≢◌, refl, sym, ap, ◌∙◌, subst, Option, none, some, arith, ◌==◌, if◌then◌else◌, Bool-cases,
  Option-cases, inl, inr, ==_refl,
}
use mytunnel.Pool.Slab.{SlabHandle}
use mytunnel.Connection.State.{ConnectionId, ConnectionState}

-- Each identifier of the map leads to a slot with its connection, and each connection is in the map.
pub record Linked {Addr : Type 0} (lookup : ConnectionId → Option SlabHandle)
    (slot : SlabHandle → Option (ConnectionState Addr)) : Type 0 where
  pub pointing :
      (id : ConnectionId) (h : SlabHandle)
      → lookup id ≡ some h
      → (st : ConnectionState Addr) × ((slot h ≡ some st) × (st.id ≡ id))
  pub tracked :
      (h : SlabHandle) (st : ConnectionState Addr) → slot h ≡ some st → lookup st.id ≡ some h

pub same_handle : (h j : SlabHandle) → h.index ≡ j.index → h ≡ j
same_handle h j e = ap (λ i. record { index = i }) e

pub if_index_self {ℓ} :
    {A : Type ℓ} (h : SlabHandle) (a b : A) → (if h.index == h.index then a else b) ≡ a
if_index_self h a b = rw (==_refl h.index) refl

module _ {Addr : Type 0} (lookup lookup' : ConnectionId → Option SlabHandle)
    (slot slot' : SlabHandle → Option (ConnectionState Addr)) (id : ConnectionId) (h : SlabHandle)
    (st : ConnectionState Addr) (linked : Linked lookup slot)
    (others : (j : ConnectionId) → j ≢ id → lookup' j ≡ lookup j) where
  -- Linking a free slot under an identifier that was not in the map.
  pub link :
      st.id ≡ id
      → slot h ≡ none
      → lookup id ≡ none
      → lookup' id ≡ some h
      → ((j : SlabHandle) → slot' j ≡ (if j.index == h.index then some st else slot j))
      → Linked lookup' slot'
  link named free unknown known stored = record {
    pointing = λ j k e. elim (Bool-cases (j == id)) [
      | inl same ↦
          let q : j ≡ id = ground arith in
          let r : lookup' j ≡ some h = ap lookup' q ∙ known in
          let s : k ≡ h = cc in
          (st, (ap slot' s ∙ stored h ∙ if_index_self h (some st) (slot h), named ∙ sym q))
      | inr other ↦
          let (old, (held, its_id)) =
            linked.pointing j k (sym (others j (λ q. ground arith)) ∙ e) in
          elim (Bool-cases (k.index == h.index)) [
            | inl at_h ↦
                let q : k ≡ h = same_handle k h (ground arith) in
                let r : slot k ≡ none = ap slot q ∙ free in absurd cc
            | inr away ↦ (old, (stored k ∙ rw away held, its_id))
          ]
    ];
    tracked = λ k other held. elim (Bool-cases (k.index == h.index)) [
      | inl at_h ↦
          let q : k ≡ h = same_handle k h (ground arith) in
          let r : some st ≡ some other = sym (stored k ∙ rw at_h refl) ∙ held in
          let s : st ≡ other = cc in
          ap (λ (x : ConnectionState Addr). lookup' x.id) (sym s)
          ∙ ap lookup' named
          ∙ known
          ∙ ap some (sym q)
      | inr away ↦
          let e : lookup other.id ≡ some k =
            linked.tracked k other (sym (stored k ∙ rw away refl) ∙ held) in
          let differs : other.id ≢ id =
            λ q. let r : lookup other.id ≡ none = ap lookup q ∙ unknown in absurd cc in
          others other.id differs ∙ e
    ];
  }

  -- Unlinking an identifier and emptying the slot it led to.
  pub unlink :
      st.id ≡ id
      → slot h ≡ some st
      → lookup id ≡ some h
      → lookup' id ≡ none
      → ((j : SlabHandle) → slot' j ≡ (if j.index == h.index then none else slot j))
      → Linked lookup' slot'
  unlink named held known gone emptied = record {
    pointing = λ j k e. elim (Bool-cases (j == id)) [
      | inl same ↦
          let q : j ≡ id = ground arith in
          let r : lookup' j ≡ none = ap lookup' q ∙ gone in absurd cc
      | inr other ↦
          let (old, (there, its_id)) =
            linked.pointing j k (sym (others j (λ q. ground arith)) ∙ e) in
          elim (Bool-cases (k.index == h.index)) [
            | inl at_h ↦
                let q : k ≡ h = same_handle k h (ground arith) in
                let r : some old ≡ some st = sym there ∙ ap slot q ∙ held in
                let s : old ≡ st = cc in
                let t : j ≡ id = sym its_id ∙ ap (λ (x : ConnectionState Addr). x.id) s ∙ named in
                ground arith
            | inr away ↦ (old, (emptied k ∙ rw away there, its_id))
          ]
    ];
    tracked = λ k other there. elim (Bool-cases (k.index == h.index)) [
      | inl at_h ↦ let r : slot' k ≡ none = emptied k ∙ rw at_h refl in absurd cc
      | inr away ↦
          let e : lookup other.id ≡ some k =
            linked.tracked k other (sym (emptied k ∙ rw away refl) ∙ there) in
          let differs : other.id ≢ id = λ q.
            let r : some k ≡ some h = sym e ∙ ap lookup q ∙ known in
            let s : k ≡ h = cc in
            let t : k.index ≡ h.index = ap (λ (x : SlabHandle). x.index) s in ground arith in
          others other.id differs ∙ e
    ];
  }

-- Writing a slot's connection without changing its identifier.
pub relink :
    {Addr : Type 0} (lookup : ConnectionId → Option SlabHandle)
    (slot slot' : SlabHandle → Option (ConnectionState Addr)) (h : SlabHandle)
    (f : ConnectionState Addr → ConnectionState Addr)
    → Linked lookup slot
    → ((st : ConnectionState Addr) → (f st).id ≡ st.id)
    → ((j : SlabHandle) → slot' j ≡ (if j.index == h.index then Option.map f (slot h) else slot j))
    → Linked lookup slot'
relink {Addr = Addr} lookup slot slot' h f linked keeps written = record {
  pointing = λ j k e.
      let (st, (held, its_id)) = linked.pointing j k e in
      elim (Bool-cases (k.index == h.index)) [
        | inl at_h ↦
            let q : slot h ≡ some st = ap slot (sym (same_handle k h (ground arith))) ∙ held in
            (f st, (written k ∙ rw (at_h, q) refl, keeps st ∙ its_id))
        | inr away ↦ (st, (written k ∙ rw away held, its_id))
      ];
  tracked = λ k st held. elim (Bool-cases (k.index == h.index)) [
    | inl at_h ↦
        let q : k ≡ h = same_handle k h (ground arith) in
        let r : Option.map f (slot h) ≡ some st = sym (written k ∙ rw at_h refl) ∙ held in
        elim (Option-cases (slot h)) [
          | inl e ↦ let t : none ≡ some st = subst (λ o. Option.map f o ≡ some st) e r in absurd cc
          | inr (old, e) ↦
              let t : some (f old) ≡ some st = subst (λ o. Option.map f o ≡ some st) e r in
              let u : f old ≡ st = cc in
              ap lookup (sym (ap (λ (x : ConnectionState Addr). x.id) u) ∙ keeps old)
              ∙ linked.tracked h old e
              ∙ ap some (sym q)
        ]
    | inr away ↦ linked.tracked k st (sym (written k ∙ rw away refl) ∙ held)
  ];
}
