-- ===== src/Pool/Slab/Consistent/Contents.antt =====
-- The slab as a partial function from handles to values: what each operation does to it.
use mathlib.Core.Option
use mytunnel.Prelude.{
  ℕ, suc, ◌<◌, ◌≡◌, ◌≢◌, refl, sym, ap, ◌∙◌, true, false, Option, none, some, List, get_or, set,
  arith, leb, ◌==◌, if◌then◌else◌, Bool-cases, Option-cases, inl, inr, ==_refl, length-set,
}
use mytunnel.Pool.Slab.{
  SlabHandle, ConnectionSlab, claim, insert, remove, get, modify, len, is_full,
}
use mytunnel.Prelude.{wrapping_add, wrapping_sub}
use mytunnel.Pool.Slab.Bitset.{Claimed, Claims, claim-Claims}
use mytunnel.Pool.Slab.Occupied.{
  is_none, get_or-set_self, get_or-set_ne, occupied-set-none, occupied-le, occupied-lt,
  occupied-full, occupied-set_again,
}
use mytunnel.Pool.Slab.Consistent.{
  IsConsistent, inserted, removed, Claimed-free, Claimed-offset, inserted-IsConsistent,
  removed-IsConsistent,
}

abbrev pub at : ℕ → SlabHandle
at i = record { index = i }

module _ {T : Type 0} (s : ConnectionSlab T) (ok : IsConsistent s) where
  -- A slot below the capacity that is written, as `get` sees it.
  get-set :
      (idx : ℕ) (v : Option T) (j : SlabHandle) (words : List ℕ) (n : ℕ)
      → idx < s.capacity
      → get j (record s { slots = set s.slots idx v; free_bitset = words; allocated = n })
        ≡ (if j.index == idx then v else get j s)
  unfolding get
  get-set idx v j words n h = elim (Bool-cases (j.index == idx)) [
    | inl same ↦
        let e : j.index ≡ idx = ground arith in
        rw (e, ==_refl idx, get_or-set_self s.slots idx v (omega (arith, ok.room))) (ground arith)
    | inr other ↦ rw (other, get_or-set_ne s.slots idx j.index v (λ q. ground arith)) refl
  ]

  -- What `insert` may return, and with which slab.
  abbrev pub Inserts : T → Option SlabHandle × ConnectionSlab T → Type 0
  Inserts value (none, s') = (s' ≡ s) × (is_full s ≡ true)
  Inserts value (some h, s') =
      IsConsistent s'
      × (is_full s ≡ false)
      × (h.index < s.capacity)
      × ((i : ℕ) → i < h.index → get (at i) s ≢ none)
      × ((j : SlabHandle) → get j s' ≡ (if j.index == h.index then some value else get j s))
      × (get h s ≡ none)
      × (len s' ≡ suc (len s))

  full_of_claim : Claims s.capacity 0 s.free_bitset none → is_full s ≡ true
  unfolding is_full
  full_of_claim c =
      let full =
        occupied-full s.slots s.capacity (λ i h. sym (ok.marked i h) ∙ c i (omega arith)) in
      ground (arith, full, ok.counted)

  get_below : (i : ℕ) → i < s.capacity → get (at i) s ≡ get_or s.slots i none
  unfolding get
  get_below i h = ground arith

  inserted-Inserts :
      (value : T) (idx : ℕ) (words : List ℕ)
      → Claimed s.capacity 0 s.free_bitset idx words
      → Inserts value (some (at idx), inserted s ok value idx words)
  unfolding is_full wrapping_add
  inserted-Inserts value idx words c =
      let free = Claimed-free s ok idx words c in
      let fewer = occupied-lt s.slots s.capacity idx ok.beyond c.in_range free in
      (
        inserted-IsConsistent s ok value idx words c,
        ground (arith, ok.counted, fewer),
        c.in_range,
        λ i h none_there. ground (
          arith,
          c.lowest i (omega (arith, Claimed-offset s ok idx words c, h)),
          ok.marked i (omega (arith, c.in_range, h)),
          get_below i (omega (arith, c.in_range, h)),
        ),
        λ j. get-set idx (some value) j words (wrapping_add s.allocated 1) c.in_range,
        get_below idx c.in_range ∙ free,
        omega (arith, ok.counted, ok.small, fewer),
      )

  insert-claimed :
      (value : T) (found : Option (ℕ × List ℕ))
      → claim s.capacity 0 s.free_bitset ≡ found
      → Claims s.capacity 0 s.free_bitset found
      → Inserts value (insert value s)
  unfolding insert
  insert-claimed value none e c = rw (e, insert) (refl, full_of_claim c)
  insert-claimed value (some (idx, words)) e c = rw (e, insert) (inserted-Inserts value idx words c)

  -- On a consistent slab, `insert` fails exactly when the slab is full, and then changes nothing.
  -- Else it stores the value under the lowest handle that was free, which lies below the capacity,
  -- leaves every other handle's value, adds one to the count, and keeps the slab consistent.
  pub insert-Inserts : (value : T) → Inserts value (insert value s)
  insert-Inserts value =
      insert-claimed value (claim s.capacity 0 s.free_bitset) refl
        (claim-Claims s.capacity 0 s.free_bitset ok.are_words)

  -- What `remove` has done with the slab.
  abbrev pub Removes : SlabHandle → Option T × ConnectionSlab T → Type 0
  Removes h (none, s') = (get h s ≡ none) × (s' ≡ s)
  Removes h (some v, s') =
      (get h s ≡ some v)
      × IsConsistent s'
      × ((j : SlabHandle) → get j s' ≡ (if j.index == h.index then none else get j s))
      × (suc (len s') ≡ len s)

  removed-Removes :
      (idx : ℕ) (v : T)
      → idx < s.capacity
      → get_or s.slots idx none ≡ some v
      → Removes (at idx) (some v, removed s ok idx)
  unfolding is_full wrapping_sub
  removed-Removes idx v h e =
      let fewer = occupied-set-none s.slots idx v e in
      let bound = occupied-le s.slots s.capacity ok.beyond in
      (
        get_below idx h ∙ e,
        removed-IsConsistent s ok idx v h e,
        λ j. get-set idx none j (removed s ok idx).free_bitset (wrapping_sub s.allocated 1) h,
        omega (arith, ok.counted, ok.small, fewer, bound),
      )

  -- On a consistent slab, `remove` returns what the handle holds. If that is nothing it changes
  -- nothing; else it empties the handle's slot, leaves every other handle's value, takes one from
  -- the count, and keeps the slab consistent.
  pub remove-Removes : (h : SlabHandle) → Removes h (remove h s)
  unfolding remove get
  remove-Removes h = elim (Bool-cases (leb s.capacity h.index)) [
    | inl past ↦ rw (past, remove) (rw past refl, refl)
    | inr below ↦ elim (Option-cases (get_or s.slots h.index none)) [
      | inl e ↦ rw (below, remove) (rw (e, remove) (rw (below, e) refl, refl))
      | inr (v, e) ↦
          rw (below, remove) (rw (e, remove) (removed-Removes h.index v (ground arith) e))
    ]
  ]

  modified-marked :
      (idx : ℕ) (v w : T) (i : ℕ)
      → idx < s.capacity
      → get_or s.slots idx none ≡ some v
      → is_none (get_or (set s.slots idx (some w)) i none) ≡ is_none (get_or s.slots i none)
  modified-marked idx v w i h e = elim (Bool-cases (i == idx)) [
    | inl same ↦
        let q : i ≡ idx = ground arith in
        rw (q, get_or-set_self s.slots idx (some w) (omega (arith, ok.room)), e) refl
    | inr other ↦ rw (get_or-set_ne s.slots idx i (some w) (λ q. ground arith)) refl
  ]

  modified-IsConsistent :
      (idx : ℕ) (v w : T)
      → idx < s.capacity
      → get_or s.slots idx none ≡ some v
      → IsConsistent (record s { slots = set s.slots idx (some w) })
  modified-IsConsistent idx v w h e = record {
    sizes = length-set s.slots idx (some w) ∙ ok.sizes;
    room = omega (arith, ok.room, length-set s.slots idx (some w));
    small = ok.small;
    are_words = ok.are_words;
    marked = λ i k. ok.marked i k ∙ sym (modified-marked idx v w i h e);
    beyond = λ i k. get_or-set_ne s.slots idx i (some w) (λ q. omega (arith, q, h)) ∙ ok.beyond i k;
    counted = ok.counted ∙ sym (occupied-set_again s.slots idx v w e);
  }

  get_some-lt : (h : SlabHandle) (v : T) → get h s ≡ some v → h.index < s.capacity
  unfolding get
  get_some-lt h v e = ground arith

  untouched :
      (h j : SlabHandle) → get h s ≡ none → get j s ≡ (if j.index == h.index then none else get j s)
  untouched h j e = elim (Bool-cases (j.index == h.index)) [
    | inl same ↦ let q : j.index ≡ h.index = ground arith in rw same (ap (λ i. get (at i) s) q ∙ e)
    | inr other ↦ rw other refl
  ]

  -- A write through `get_mut` changes the value of its own handle, if it holds one, and of no other; it
  -- keeps the slab consistent, and its count.
  pub modify_lem :
      (h : SlabHandle) (f : T → T)
      → IsConsistent (modify h f s)
        × ((j : SlabHandle)
            → get j (modify h f s)
              ≡ (if j.index == h.index then Option.map f (get h s) else get j s))
        × (len (modify h f s) ≡ len s)
  unfolding modify len
  modify_lem h f = elim (Option-cases (get h s)) [
    | inl e ↦ rw (e, modify) (ok, (λ j. untouched h j e), refl)
    | inr (v, e) ↦
        let below : h.index < s.capacity = get_some-lt h v e in
        let held = sym (get_below h.index below) ∙ e in
        rw (e, modify)
          (
            modified-IsConsistent h.index v (f v) below held,
            λ j. get-set h.index (some (f v)) j s.free_bitset s.allocated below,
            refl,
          )
  ]
