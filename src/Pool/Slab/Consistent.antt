-- ===== src/Pool/Slab/Consistent.antt =====
-- The invariant of the slab: the bitset marks exactly the empty slots below the capacity, and the count
-- is the number of occupied slots. Every operation keeps it.
pub mod Create
pub mod Contents
pub mod Tests
use mytunnel.Prelude.{
  ℕ, ◌+◌, ◌-◌, ◌*◌, ◌/◌, ◌%◌, ◌≤◌, ◌<◌, ◌≡◌, ◌≢◌, refl, sym, ap, ◌∙◌, subst, true, false, Option,
  none, some, List, length, get_or, set, arith, inl, inr, u64_mod, length-set, wrapping_add,
  wrapping_sub, ◌⊎◌,
}
use native.Mathlib.Decide.{ℕ_discrete}
use mytunnel.Pool.Bits.{set_bit}
use mytunnel.Pool.Slab.{ConnectionSlab}
use mytunnel.Pool.Slab.Bitset.{bit, AreWords, Claimed}
use mytunnel.Pool.Slab.Occupied.{
  is_none, occupied, get_or-set_self, get_or-set_ne, occupied-set-some, occupied-set-none,
  occupied-le, occupied-lt, mark, bit-mark_self, bit-mark_ne, mark-AreWords,
}

pub record IsConsistent {T : Type 0} (s : ConnectionSlab T) : Type 0 where
  pub sizes : length s.slots ≡ length s.free_bitset * 64
  pub room : s.capacity ≤ length s.slots
  pub small : s.capacity < u64_mod
  pub are_words : AreWords s.free_bitset
  pub marked : (i : ℕ) → i < s.capacity → bit s.free_bitset i ≡ is_none (get_or s.slots i none)
  pub beyond : (i : ℕ) → s.capacity ≤ i → get_or s.slots i none ≡ none
  pub counted : s.allocated ≡ occupied s.slots

none_of_is_none : {T : Type 0} (o : Option T) → is_none o ≡ true → o ≡ none
none_of_is_none none h = refl
none_of_is_none (some v) h = cc

nat_eq_or_ne : (i j : ℕ) → (i ≡ j) ⊎ (i ≢ j)
nat_eq_or_ne i j = elim (ℕ_discrete i j) [ yes e ↦ inl e | no n ↦ inr n ]

module _ {T : Type 0} (s : ConnectionSlab T) (ok : IsConsistent s) where
  -- The slab after `insert` has claimed a slot.
  abbrev pub inserted : T → ℕ → List ℕ → ConnectionSlab T
  inserted value idx words = record s {
    slots = set s.slots idx (some value);
    free_bitset = words;
    allocated = wrapping_add s.allocated 1;
  }

  -- What was claimed is the index itself, as the search starts at the first word.
  pub Claimed-offset :
      (idx : ℕ) (words : List ℕ)
      → (c : Claimed s.capacity 0 s.free_bitset idx words) → c.offset ≡ idx
  Claimed-offset idx words c = omega (arith, c.place)

  pub Claimed-free :
      (idx : ℕ) (words : List ℕ)
      → Claimed s.capacity 0 s.free_bitset idx words
      → get_or s.slots idx none ≡ none
  Claimed-free idx words c = none_of_is_none (get_or s.slots idx none) (
      sym (ok.marked idx c.in_range)
      ∙ subst (λ j. bit s.free_bitset j ≡ true) (Claimed-offset idx words c) c.was_free)

  inserted-marked :
      (value : T) (idx : ℕ) (words : List ℕ) (c : Claimed s.capacity 0 s.free_bitset idx words)
      → (i : ℕ) → i < s.capacity
      → (i ≡ idx) ⊎ (i ≢ idx)
      → bit words i ≡ is_none (get_or (set s.slots idx (some value)) i none)
  inserted-marked value idx words c i h (inl e) =
      let at = Claimed-offset idx words c in
      rw (e, get_or-set_self s.slots idx (some value) (omega (arith, c.in_range, ok.room)))
        (subst (λ j. bit words j ≡ false) at c.now_taken)
  inserted-marked value idx words c i h (inr n) =
      rw (get_or-set_ne s.slots idx i (some value) n)
        (c.others i (λ q. n (q ∙ Claimed-offset idx words c)) ∙ ok.marked i h)

  pub inserted-IsConsistent :
      (value : T) (idx : ℕ) (words : List ℕ)
      → Claimed s.capacity 0 s.free_bitset idx words
      → IsConsistent (inserted value idx words)
  unfolding wrapping_add
  inserted-IsConsistent value idx words c =
      let free = Claimed-free idx words c in
      let fits : idx < length s.slots = omega (arith, c.in_range, ok.room) in
      let fewer = occupied-lt s.slots s.capacity idx ok.beyond c.in_range free in
      record {
        sizes =
            length-set s.slots idx (some value)
            ∙ ok.sizes
            ∙ ap (λ (n : ℕ). n * 64) (sym c.same_length);
        room = omega (arith, ok.room, length-set s.slots idx (some value));
        small = ok.small;
        are_words = c.are_words;
        marked = λ i h. inserted-marked value idx words c i h (nat_eq_or_ne i idx);
        beyond = λ i h.
            get_or-set_ne s.slots idx i (some value) (λ q. omega (arith, q, c.in_range))
            ∙ ok.beyond i h;
        counted =
            omega
              (arith, ok.counted, ok.small, fewer, occupied-set-some s.slots idx value fits free);
      }

  -- The slab after `remove` has emptied an occupied slot below the capacity.
  abbrev pub removed : ℕ → ConnectionSlab T
  removed idx = record s {
    slots = set s.slots idx none;
    free_bitset = mark s.free_bitset (idx / 64) (idx % 64);
    allocated = wrapping_sub s.allocated 1;
  }

  removed-marked :
      (idx : ℕ) (i : ℕ)
      → idx < s.capacity
      → i < s.capacity
      → (i ≡ idx) ⊎ (i ≢ idx)
      → bit (removed idx).free_bitset i ≡ is_none (get_or (set s.slots idx none) i none)
  removed-marked idx i f h (inl e) =
      let split : idx ≡ idx / 64 * 64 + idx % 64 = omega arith in
      rw (e, get_or-set_self s.slots idx none (omega (arith, ok.room)))
        (subst (λ j. bit (removed idx).free_bitset j ≡ true) (sym split)
          (bit-mark_self s.free_bitset (idx / 64) (idx % 64) (omega (arith, ok.sizes, ok.room))
            (omega arith)))
  removed-marked idx i f h (inr n) = rw (get_or-set_ne s.slots idx i none n) (
      bit-mark_ne s.free_bitset (idx / 64) (idx % 64) i (omega arith) (λ q. n (omega (arith, q)))
      ∙ ok.marked i h)

  pub removed-IsConsistent :
      (idx : ℕ) (value : T)
      → idx < s.capacity
      → get_or s.slots idx none ≡ some value
      → IsConsistent (removed idx)
  unfolding wrapping_sub
  removed-IsConsistent idx value f e =
      let fewer = occupied-set-none s.slots idx value e in
      let bound = occupied-le s.slots s.capacity ok.beyond in
      record {
        sizes =
            length-set s.slots idx none
            ∙ ok.sizes
            ∙ ap (λ (n : ℕ). n * 64)
                (sym (
                  length-set s.free_bitset (idx / 64)
                    (set_bit (get_or s.free_bitset (idx / 64) 0) (idx % 64))));
        room = omega (arith, ok.room, length-set s.slots idx none);
        small = ok.small;
        are_words = mark-AreWords s.free_bitset (idx / 64) (idx % 64) (omega arith) ok.are_words;
        marked = λ i h. removed-marked idx i f h (nat_eq_or_ne i idx);
        beyond = λ i h. get_or-set_ne s.slots idx i none (λ q. omega (arith, q, f)) ∙ ok.beyond i h;
        counted = omega (arith, ok.counted, ok.small, fewer, bound);
      }
