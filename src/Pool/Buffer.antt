-- ===== src/Pool/Buffer.antt =====
-- src/pool/buffer.rs: the pool of buffers of three sizes. `crossbeam`'s `ArrayQueue` (a dependency) is an
-- interface with its documented behaviour; each queue or atomic operation is one step. A dropped buffer
-- is a call of `drop_buffer`.
pub mod Balance
pub mod Create
pub mod Tests
use mytunnel.Prelude.{
  ℕ, zero, suc, ◌≡◌, ◌<◌, ◌≤◌, Option, none, some, List, [], ◌∷◌, ◌++◌, length, replicate,
  wrapping_add, wrapping_sub,
}

-- A queue of bounded size. `new` panics for the capacity 0, so nothing is said of it there.
pub record ArrayQueue (A : Type 0) : Type 1 where
  pub Queue : Type 0
  pub new : ℕ → Queue
  pub push : A → Queue → Queue
  pub pop : Queue → Option A × Queue
  pub items : Queue → List A
  pub capacity : Queue → ℕ
  pub items-new : (n : ℕ) → 0 < n → items (new n) ≡ []
  pub capacity-new : (n : ℕ) → 0 < n → capacity (new n) ≡ n
  pub push_room :
      (a : A) (q : Queue) → length (items q) < capacity q → items (push a q) ≡ items q ++ a ∷ []
  pub push_full : (a : A) (q : Queue) → capacity q ≤ length (items q) → push a q ≡ q
  pub capacity-push : (a : A) (q : Queue) → capacity (push a q) ≡ capacity q
  pub pop_empty : (q : Queue) → items q ≡ [] → pop q ≡ (none, q)
  pub pop_front :
      (a : A) (rest : List A) (q : Queue)
      → items q ≡ a ∷ rest
      → ((pop q).0 ≡ some a) × (items (pop q).1 ≡ rest)
  pub capacity-pop : (q : Queue) → capacity (pop q).1 ≡ capacity q

-- `enum BufferSize`
pub data BufferSize : Type 0 where
  small medium large : BufferSize

-- `BufferSize::as_usize`
abbrev pub as_usize : BufferSize → ℕ
as_usize small = 4096
as_usize medium = 16384
as_usize large = 65536

-- `struct Buffer`, whose `data` is `bytes` here; its `Arc` is the pool that the operations pass along.
pub record Buffer : Type 0 where
  pub bytes : List ℕ
  pub size : BufferSize

-- `Buffer::capacity`
unfoldable pub capacity : Buffer → ℕ
capacity b = length b.bytes

-- `Buffer::size_tier`
unfoldable pub size_tier : Buffer → BufferSize
size_tier b = b.size

-- `struct BufferPoolInner`
pub record BufferPoolInner (crossbeam : ArrayQueue (List ℕ)) : Type 0 where
  pub small_buffers : crossbeam.Queue
  pub medium_buffers : crossbeam.Queue
  pub large_buffers : crossbeam.Queue
  pub small_allocated : ℕ
  pub medium_allocated : ℕ
  pub large_allocated : ℕ
  pub small_in_use : ℕ
  pub medium_in_use : ℕ
  pub large_in_use : ℕ

-- `struct BufferPoolStats`
pub record BufferPoolStats : Type 0 where
  pub small_allocated : ℕ
  pub small_in_use : ℕ
  pub medium_allocated : ℕ
  pub medium_in_use : ℕ
  pub large_allocated : ℕ
  pub large_in_use : ℕ

-- A loop of `BufferPool::new` that fills a queue and counts.
unfoldable pub preallocate :
    (crossbeam : ArrayQueue (List ℕ)) → ℕ → BufferSize → crossbeam.Queue × ℕ → crossbeam.Queue × ℕ
unfolding wrapping_add
preallocate crossbeam zero size (queue, allocated) = (queue, allocated)
preallocate crossbeam (suc count) size (queue, allocated) =
    let buf = replicate (as_usize size) 0 in
    preallocate crossbeam count size (crossbeam.push buf queue, wrapping_add allocated 1)

module _ {crossbeam : ArrayQueue (List ℕ)} where
  -- `BufferPoolInner::return_buffer`
  unfoldable pub return_buffer :
      List ℕ → BufferSize → BufferPoolInner crossbeam → BufferPoolInner crossbeam
  return_buffer bytes small p = record p {
    small_in_use = wrapping_sub p.small_in_use 1;
    small_buffers = crossbeam.push bytes p.small_buffers;
  }
  return_buffer bytes medium p = record p {
    medium_in_use = wrapping_sub p.medium_in_use 1;
    medium_buffers = crossbeam.push bytes p.medium_buffers;
  }
  return_buffer bytes large p = record p {
    large_in_use = wrapping_sub p.large_in_use 1;
    large_buffers = crossbeam.push bytes p.large_buffers;
  }

  -- `Buffer::drop`
  unfoldable pub drop_buffer : Buffer → BufferPoolInner crossbeam → BufferPoolInner crossbeam
  drop_buffer b p = return_buffer b.bytes b.size p

  -- The queue and the count that `acquire` chooses by the size, and the number of buffers made for it.
  abbrev pub queue : BufferSize → BufferPoolInner crossbeam → crossbeam.Queue
  queue small p = p.small_buffers
  queue medium p = p.medium_buffers
  queue large p = p.large_buffers

  abbrev pub in_use : BufferSize → BufferPoolInner crossbeam → ℕ
  in_use small p = p.small_in_use
  in_use medium p = p.medium_in_use
  in_use large p = p.large_in_use

  abbrev pub allocated : BufferSize → BufferPoolInner crossbeam → ℕ
  allocated small p = p.small_allocated
  allocated medium p = p.medium_allocated
  allocated large p = p.large_allocated

  -- The pool with another queue and count for a size.
  abbrev pub with_queue :
      BufferSize → crossbeam.Queue → ℕ → BufferPoolInner crossbeam → BufferPoolInner crossbeam
  with_queue small q n p = record p { small_buffers = q; small_in_use = n }
  with_queue medium q n p = record p { medium_buffers = q; medium_in_use = n }
  with_queue large q n p = record p { large_buffers = q; large_in_use = n }

  -- What `acquire` does with the queue's answer.
  abbrev pub after_pop :
      BufferSize
      → BufferPoolInner crossbeam
      → Option (List ℕ) × crossbeam.Queue
      → Option Buffer × BufferPoolInner crossbeam
  after_pop size p (none, q) = (none, with_queue size q (in_use size p) p)
  after_pop size p (some bytes, q) = (
    some (record { bytes = bytes; size = size }),
    with_queue size q (wrapping_add (in_use size p) 1) p,
  )

  -- `BufferPool::acquire`
  unfoldable pub acquire :
      BufferSize → BufferPoolInner crossbeam → Option Buffer × BufferPoolInner crossbeam
  acquire size p = after_pop size p (crossbeam.pop (queue size p))

  -- `unwrap_or_else` of `acquire_or_alloc`.
  abbrev pub or_alloc :
      BufferSize → Option Buffer × BufferPoolInner crossbeam → Buffer × BufferPoolInner crossbeam
  or_alloc size (some b, p) = (b, p)
  or_alloc size (none, p) = (record { bytes = replicate (as_usize size) 0; size = size }, p)

  -- `BufferPool::acquire_or_alloc`
  unfoldable pub acquire_or_alloc :
      BufferSize → BufferPoolInner crossbeam → Buffer × BufferPoolInner crossbeam
  acquire_or_alloc size p = or_alloc size (acquire size p)

  -- `BufferPool::stats`
  unfoldable pub stats : BufferPoolInner crossbeam → BufferPoolStats
  stats p = record {
    small_allocated = p.small_allocated;
    small_in_use = p.small_in_use;
    medium_allocated = p.medium_allocated;
    medium_in_use = p.medium_in_use;
    large_allocated = p.large_allocated;
    large_in_use = p.large_in_use;
  }

-- `BufferPool::new`
unfoldable pub new : (crossbeam : ArrayQueue (List ℕ)) → ℕ → ℕ → ℕ → BufferPoolInner crossbeam
new crossbeam small_count medium_count large_count =
    let (small_buffers, small_allocated) =
      preallocate crossbeam small_count small (crossbeam.new small_count, 0) in
    let (medium_buffers, medium_allocated) =
      preallocate crossbeam medium_count medium (crossbeam.new medium_count, 0) in
    let (large_buffers, large_allocated) =
      preallocate crossbeam large_count large (crossbeam.new large_count, 0) in
    record {
      small_buffers = small_buffers;
      medium_buffers = medium_buffers;
      large_buffers = large_buffers;
      small_allocated = small_allocated;
      medium_allocated = medium_allocated;
      large_allocated = large_allocated;
      small_in_use = 0;
      medium_in_use = 0;
      large_in_use = 0;
    }
