-- ===== src/Pool/Buffer/Balance.antt =====
-- The balance of a size: each buffer made for it is in the queue or in use. `acquire` and the drop of
-- what it returned keep it; `acquire_or_alloc` on an empty queue and the drop of its buffer do not.
use mytunnel.Prelude.{
  ℕ, suc, ◌+◌, ◌≡◌, ◌<◌, ◌≤◌, refl, sym, ap, ◌∙◌, Option, none, some, List, [], ◌∷◌, length,
  replicate, All, All-append, length-append, u64_mod, arith, wrapping_add, wrapping_sub,
  length-replicate, subst,
}
use mytunnel.Pool.Buffer.{
  ArrayQueue, BufferSize, small, medium, large, as_usize, Buffer, BufferPoolInner, queue, in_use,
  allocated, with_queue, acquire, acquire_or_alloc, return_buffer, drop_buffer, capacity,
}

module _ {crossbeam : ArrayQueue (List ℕ)} where
  pub record IsBalanced (size : BufferSize) (p : BufferPoolInner crossbeam) : Type 0 where
    pub balance : length (crossbeam.items (queue size p)) + in_use size p ≡ allocated size p
    pub room : allocated size p ≤ crossbeam.capacity (queue size p)
    pub small_count : allocated size p < u64_mod
    pub sizes : All (λ bytes. length bytes ≡ as_usize size) (crossbeam.items (queue size p))

  queue-with_queue :
      (size : BufferSize) (q : crossbeam.Queue) (n : ℕ) (p : BufferPoolInner crossbeam)
      → queue size (with_queue size q n p) ≡ q
  queue-with_queue small q n p = refl
  queue-with_queue medium q n p = refl
  queue-with_queue large q n p = refl

  in_use-with_queue :
      (size : BufferSize) (q : crossbeam.Queue) (n : ℕ) (p : BufferPoolInner crossbeam)
      → in_use size (with_queue size q n p) ≡ n
  in_use-with_queue small q n p = refl
  in_use-with_queue medium q n p = refl
  in_use-with_queue large q n p = refl

  allocated-with_queue :
      (size : BufferSize) (q : crossbeam.Queue) (n : ℕ) (p : BufferPoolInner crossbeam)
      → allocated size (with_queue size q n p) ≡ allocated size p
  allocated-with_queue small q n p = refl
  allocated-with_queue medium q n p = refl
  allocated-with_queue large q n p = refl

  with_queue_same :
      (size : BufferSize) (p : BufferPoolInner crossbeam)
      → with_queue size (queue size p) (in_use size p) p ≡ p
  with_queue_same small p = refl
  with_queue_same medium p = refl
  with_queue_same large p = refl

  return_buffer_lem :
      (bytes : List ℕ) (size : BufferSize) (p : BufferPoolInner crossbeam)
      → return_buffer bytes size p
        ≡ with_queue size (crossbeam.push bytes (queue size p)) (wrapping_sub (in_use size p) 1) p
  unfolding return_buffer
  return_buffer_lem bytes small p = refl
  return_buffer_lem bytes medium p = refl
  return_buffer_lem bytes large p = refl

  with_queue-IsBalanced :
      (size : BufferSize) (q : crossbeam.Queue) (n : ℕ) (p : BufferPoolInner crossbeam)
      → length (crossbeam.items q) + n ≡ allocated size p
      → allocated size p ≤ crossbeam.capacity q
      → allocated size p < u64_mod
      → All (λ bytes. length bytes ≡ as_usize size) (crossbeam.items q)
      → IsBalanced size (with_queue size q n p)
  with_queue-IsBalanced small q n p b r s z = record {
    balance = b;
    room = r;
    small_count = s;
    sizes = z;
  }
  with_queue-IsBalanced medium q n p b r s z = record {
    balance = b;
    room = r;
    small_count = s;
    sizes = z;
  }
  with_queue-IsBalanced large q n p b r s z = record {
    balance = b;
    room = r;
    small_count = s;
    sizes = z;
  }

  module _ (size : BufferSize) (p : BufferPoolInner crossbeam) (ok : IsBalanced size p) where
    -- What `acquire` may return.
    abbrev pub Acquires : Option Buffer × BufferPoolInner crossbeam → Type 0
    Acquires (none, p') = (p' ≡ p) × (in_use size p ≡ allocated size p)
    Acquires (some b, p') =
        IsBalanced size p'
        × (capacity b ≡ as_usize size)
        × (b.size ≡ size)
        × (in_use size p' ≡ suc (in_use size p))

    acquire-items :
        (items : List (List ℕ)) → crossbeam.items (queue size p) ≡ items → Acquires (acquire size p)
    unfolding acquire capacity wrapping_add
    acquire-items [] e =
        rw (crossbeam.pop_empty (queue size p) e, acquire)
          (with_queue_same size p, omega (arith, ok.balance, ap length e))
    acquire-items (bytes ∷ rest) e =
        let q = (crossbeam.pop (queue size p)).1 in
        let (popped, left) = crossbeam.pop_front bytes rest (queue size p) e in
        let n : wrapping_add (in_use size p) 1 ≡ suc (in_use size p) =
          omega (arith, ok.balance, ok.small_count, ap length e) in
        let all = subst (All (λ bytes. length bytes ≡ as_usize size)) e ok.sizes in
        rw (popped, acquire)
          (
            with_queue-IsBalanced size q (wrapping_add (in_use size p) 1) p
                (omega (arith, ok.balance, n, ap length e, ap length left))
                (omega (arith, ok.room, crossbeam.capacity-pop (queue size p))) ok.small_count
                (subst (All (λ bytes. length bytes ≡ as_usize size)) (sym left) all.1),
            all.0,
            refl,
            in_use-with_queue size q (wrapping_add (in_use size p) 1) p ∙ n,
          )

    -- On a pool in which the size is balanced, `acquire` returns nothing only when every buffer of
    -- the size is in use, and then changes nothing. Else it returns a buffer of exactly the size,
    -- counts one more in use, and keeps the balance.
    pub acquire-Acquires : Acquires (acquire size p)
    acquire-Acquires = acquire-items (crossbeam.items (queue size p)) refl

    -- On a pool in which the size is balanced and one buffer of it is counted in use, dropping a
    -- buffer of exactly the size puts it back: one less is in use, and the balance is kept.
    pub drop_buffer-IsBalanced :
        (bytes : List ℕ)
        → length bytes ≡ as_usize size
        → 0 < in_use size p
        → IsBalanced size (drop_buffer (record { bytes = bytes; size = size }) p)
          × (suc (in_use size (drop_buffer (record { bytes = bytes; size = size }) p))
              ≡ in_use size p)
    unfolding drop_buffer wrapping_sub
    drop_buffer-IsBalanced bytes fits used =
        let q = crossbeam.push bytes (queue size p) in
        let n : suc (wrapping_sub (in_use size p) 1) ≡ in_use size p =
          omega (arith, ok.balance, ok.small_count) in
        let pushed =
          crossbeam.push_room bytes (queue size p) (omega (arith, ok.balance, ok.room)) in
        rw (return_buffer_lem bytes size p) (
          with_queue-IsBalanced size q (wrapping_sub (in_use size p) 1) p
              (omega (
                arith,
                ok.balance,
                n,
                ap length pushed,
                length-append (crossbeam.items (queue size p)) (bytes ∷ []),
              ))
              (omega (arith, ok.room, crossbeam.capacity-push bytes (queue size p))) ok.small_count
              (subst (All (λ bytes. length bytes ≡ as_usize size)) (sym pushed)
                (All-append _ (crossbeam.items (queue size p)) (bytes ∷ []) ok.sizes (fits, tt))),
          ap suc (in_use-with_queue size q (wrapping_sub (in_use size p) 1) p) ∙ n,
        )

  -- On a size whose queue is empty, `acquire_or_alloc` hands out a new buffer of the size without
  -- counting it, so once it is dropped one less is counted in use than before, modulo the word.
  pub acquire_or_alloc-drop_buffer :
      (size : BufferSize) (p : BufferPoolInner crossbeam)
      → crossbeam.items (queue size p) ≡ []
      → (in_use size (acquire_or_alloc size p).1 ≡ in_use size p)
        × (in_use size (drop_buffer (acquire_or_alloc size p).0 (acquire_or_alloc size p).1)
            ≡ wrapping_sub (in_use size p) 1)
        × (capacity (acquire_or_alloc size p).0 ≡ as_usize size)
  unfolding acquire_or_alloc acquire drop_buffer capacity
  acquire_or_alloc-drop_buffer size p e =
      let popped = crossbeam.pop_empty (queue size p) e in
      let q = crossbeam.push (replicate (as_usize size) 0) (queue size p) in
      rw popped (
        rw (with_queue_same size p) (
          refl,
          ap (in_use size) (return_buffer_lem (replicate (as_usize size) 0) size p)
              ∙ in_use-with_queue size q (wrapping_sub (in_use size p) 1) p,
          length-replicate (as_usize size) 0,
        ))
