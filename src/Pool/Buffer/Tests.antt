-- ===== src/Pool/Buffer/Tests.antt =====
-- A queue as a list with its capacity, and the theorems on the buffer pool at concrete inputs.
use mytunnel.Prelude.{
  ℕ, ◌≡◌, ◌<◌, ◌≤◌, refl, Option, none, some, List, [], ◌∷◌, ◌++◌, length, replicate, ltb, lt→ltb,
  le→not_ltb, if◌then◌else◌, arith, length-replicate,
}
use mytunnel.Pool.Buffer.{
  ArrayQueue, small, medium, BufferPoolInner, in_use, allocated, acquire, acquire_or_alloc,
  drop_buffer, new,
}
use mytunnel.Pool.Buffer.Balance.{
  IsBalanced, Acquires, acquire-Acquires, drop_buffer-IsBalanced, acquire_or_alloc-drop_buffer,
}
use mytunnel.Pool.Buffer.Create.{new-IsBalanced}

abbrev push : List ℕ → List (List ℕ) × ℕ → List (List ℕ) × ℕ
push a (xs, cap) = if ltb (length xs) cap then (xs ++ a ∷ [], cap) else (xs, cap)

abbrev pop : List (List ℕ) × ℕ → Option (List ℕ) × (List (List ℕ) × ℕ)
pop ([], cap) = (none, ([], cap))
pop (a ∷ xs, cap) = (some a, (xs, cap))

push_room : (a : List ℕ) (q : List (List ℕ) × ℕ) → length q.0 < q.1 → (push a q).0 ≡ q.0 ++ a ∷ []
push_room a (xs, cap) h = rw (lt→ltb (length xs) cap h) refl

push_full : (a : List ℕ) (q : List (List ℕ) × ℕ) → q.1 ≤ length q.0 → push a q ≡ q
push_full a (xs, cap) h = rw (le→not_ltb (length xs) cap h) refl

capacity-push : (a : List ℕ) (q : List (List ℕ) × ℕ) → (push a q).1 ≡ q.1
capacity-push a (xs, cap) = ground arith

pop_empty : (q : List (List ℕ) × ℕ) → q.0 ≡ [] → pop q ≡ (none, q)
pop_empty ([], cap) h = refl
pop_empty (a ∷ xs, cap) h = cc

pop_front :
    (a : List ℕ) (rest : List (List ℕ)) (q : List (List ℕ) × ℕ)
    → q.0 ≡ a ∷ rest
    → ((pop q).0 ≡ some a) × ((pop q).1.0 ≡ rest)
pop_front a rest ([], cap) h = cc
pop_front a rest (b ∷ xs, cap) h = ground arith

capacity-pop : (q : List (List ℕ) × ℕ) → (pop q).1.1 ≡ q.1
capacity-pop ([], cap) = refl
capacity-pop (a ∷ xs, cap) = refl

abbrev list_queue : ArrayQueue (List ℕ)
list_queue = record {
  Queue = List (List ℕ) × ℕ;
  new = λ cap. ([], cap);
  push = push;
  pop = pop;
  items = λ q. q.0;
  capacity = λ q. q.1;
  items-new = λ n h. refl;
  capacity-new = λ n h. refl;
  push_room = push_room;
  push_full = push_full;
  capacity-push = capacity-push;
  pop_empty = pop_empty;
  pop_front = pop_front;
  capacity-pop = capacity-pop;
}

abbrev pool : BufferPoolInner list_queue
pool = new list_queue 2 1 1

pool_balanced : IsBalanced small pool
pool_balanced =
    (new-IsBalanced list_queue 2 1 1 small (omega arith) (omega arith) (omega arith) (omega arith)
      (omega arith) (omega arith)).0

-- One small buffer is out, and the other in the queue.
abbrev one_out : BufferPoolInner list_queue
one_out = record {
  small_buffers = (replicate 4096 0 ∷ [], 2);
  medium_buffers = ([], 1);
  large_buffers = ([], 1);
  small_allocated = 2;
  medium_allocated = 1;
  large_allocated = 1;
  small_in_use = 1;
  medium_in_use = 1;
  large_in_use = 1;
}

new-IsBalanced_example : allocated small (new list_queue 2 1 1) ≡ 2
new-IsBalanced_example =
    (new-IsBalanced list_queue 2 1 1 small (omega arith) (omega arith) (omega arith) (omega arith)
      (omega arith) (omega arith)).1

acquire-Acquires_example : Acquires small pool pool_balanced (acquire small pool)
acquire-Acquires_example = acquire-Acquires small pool pool_balanced

one_out_balanced : IsBalanced small one_out
one_out_balanced = record {
  balance = refl;
  room = omega arith;
  small_count = omega arith;
  sizes = (length-replicate {A = ℕ} 4096 0, tt);
}

drop_buffer-IsBalanced_example :
    IsBalanced small (drop_buffer (record { bytes = replicate 4096 0; size = small }) one_out)
drop_buffer-IsBalanced_example =
    (drop_buffer-IsBalanced small one_out one_out_balanced (replicate 4096 0)
      (length-replicate {A = ℕ} 4096 0) (omega arith)).0

-- A size of which no buffer is left.
acquire_or_alloc-drop_buffer_example : in_use medium (acquire_or_alloc medium one_out).1 ≡ 1
acquire_or_alloc-drop_buffer_example = (acquire_or_alloc-drop_buffer medium one_out refl).0
