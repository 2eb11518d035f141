-- ===== src/Pool/Buffer/Create.antt =====
-- `BufferPool::new`: the loops fill the queues, and every size of the new pool is balanced.
use mytunnel.Prelude.{
  ℕ, zero, suc, ◌+◌, ◌≡◌, ◌<◌, ◌≤◌, sym, ap, subst, List, [], ◌∷◌, length, replicate, All,
  All-append, length-append, length-replicate, u64_mod, arith, wrapping_add,
}
use mytunnel.Pool.Buffer.{
  ArrayQueue, BufferSize, small, medium, large, as_usize, in_use, allocated, preallocate, new,
}
use mytunnel.Pool.Buffer.Balance.{IsBalanced}

abbrev HasSize : BufferSize → List (List ℕ) → Type 0
HasSize size = All (λ bytes. length bytes ≡ as_usize size)

module _ (crossbeam : ArrayQueue (List ℕ)) where
  -- A queue with room for `count` buffers of a size gets them, and each is counted.
  record Fills (size : BufferSize) (count : ℕ) (before after : crossbeam.Queue × ℕ) : Type 0 where
    more : length (crossbeam.items after.0) ≡ length (crossbeam.items before.0) + count
    same_capacity : crossbeam.capacity after.0 ≡ crossbeam.capacity before.0
    counted : after.1 ≡ before.1 + count
    sizes : HasSize size (crossbeam.items after.0)

  preallocate-Fills :
      (count : ℕ) (size : BufferSize) (q : crossbeam.Queue) (n : ℕ)
      → length (crossbeam.items q) + count ≤ crossbeam.capacity q
      → n + count < u64_mod
      → HasSize size (crossbeam.items q)
      → Fills size count (q, n) (preallocate crossbeam count size (q, n))
  unfolding preallocate
  preallocate-Fills zero size q n room few sizes = record {
    more = omega arith;
    same_capacity = omega arith;
    counted = omega arith;
    sizes = sizes;
  }
  preallocate-Fills (suc count) size q n room few sizes =
      let buf : List ℕ = replicate (as_usize size) 0 in
      let pushed = crossbeam.push_room buf q (omega arith) in
      let longer : length (crossbeam.items (crossbeam.push buf q))
          ≡ suc (length (crossbeam.items q)) =
        omega (arith, ap length pushed, length-append (crossbeam.items q) (buf ∷ [])) in
      let kept = crossbeam.capacity-push buf q in
      let next : wrapping_add n 1 ≡ suc n = omega arith in
      let rest =
        preallocate-Fills count size (crossbeam.push buf q) (wrapping_add n 1)
          (omega (arith, longer, kept)) (omega (arith, next))
          (subst (HasSize size) (sym pushed) (
            All-append (λ bytes. length bytes ≡ as_usize size) (crossbeam.items q) (buf ∷ []) sizes
              (length-replicate (as_usize size) 0, tt))) in
      record {
        more = omega (arith, rest.more, longer);
        same_capacity = omega (arith, rest.same_capacity, kept);
        counted = omega (arith, rest.counted, next);
        sizes = rest.sizes;
      }

  filled :
      (count : ℕ) (size : BufferSize)
      → 0 < count
      → count < u64_mod
      → let r = preallocate crossbeam count size (crossbeam.new count, 0) in
        (length (crossbeam.items r.0) ≡ count)
        × (crossbeam.capacity r.0 ≡ count)
        × (r.1 ≡ count)
        × HasSize size (crossbeam.items r.0)
  filled count size some few =
      let empty = crossbeam.items-new count some in
      let cap = crossbeam.capacity-new count some in
      let f =
        preallocate-Fills count size (crossbeam.new count) 0 (omega (arith, ap length empty, cap))
          (omega arith) (subst (HasSize size) (sym empty) tt) in
      (
        omega (arith, f.more, ap length empty),
        omega (arith, f.same_capacity, cap),
        omega (arith, f.counted),
        f.sizes,
      )

  -- The count that `new` is given for a size.
  abbrev pub count_of : BufferSize → ℕ → ℕ → ℕ → ℕ
  count_of small s m l = s
  count_of medium s m l = m
  count_of large s m l = l

  -- In a new pool, made with counts that are positive and fit in a word, every size is balanced: as many
  -- buffers as were asked for are in its queue, each of exactly the size, and none is in use.
  pub new-IsBalanced :
      (s m l : ℕ) (size : BufferSize)
      → 0 < s
      → 0 < m
      → 0 < l
      → s < u64_mod
      → m < u64_mod
      → l < u64_mod
      → IsBalanced size (new crossbeam s m l)
        × (allocated size (new crossbeam s m l) ≡ count_of size s m l)
        × (in_use size (new crossbeam s m l) ≡ 0)
  unfolding new
  new-IsBalanced s m l size hs hm hl fs fm fl = by_size size
    where
      balanced :
          (q : crossbeam.Queue) (n count : ℕ)
          → (length (crossbeam.items q) ≡ count) × (crossbeam.capacity q ≡ count) × (n ≡ count)
          → count < u64_mod
          → (length (crossbeam.items q) + 0 ≡ n) × (n ≤ crossbeam.capacity q) × (n < u64_mod)
      balanced q n count f few = omega arith

      by_size :
          (size : BufferSize)
          → IsBalanced size (new crossbeam s m l)
            × (allocated size (new crossbeam s m l) ≡ count_of size s m l)
            × (in_use size (new crossbeam s m l) ≡ 0)
      by_size small =
          let (n, c, a, z) = filled s small hs fs in
          let (b, r, f) = balanced _ _ s (n, c, a) fs in
          (record { balance = b; room = r; small_count = f; sizes = z }, a, omega arith)
      by_size medium =
          let (n, c, a, z) = filled m medium hm fm in
          let (b, r, f) = balanced _ _ m (n, c, a) fm in
          (record { balance = b; room = r; small_count = f; sizes = z }, a, omega arith)
      by_size large =
          let (n, c, a, z) = filled l large hl fl in
          let (b, r, f) = balanced _ _ l (n, c, a) fl in
          (record { balance = b; room = r; small_count = f; sizes = z }, a, omega arith)
