-- ===== src/Proxy/Tcp/Splice.antt =====
-- `SpliceProxy::splice_tcp_to_tcp` of src/proxy/tcp.rs, which moves bytes from a socket through a pipe to
-- another one by the system call `splice`. What the calls do is two lists: of those that fill the pipe,
-- the bytes that each moves or its failure; of those that empty it, how many bytes each moves at most or
-- its failure. A call that the lists no longer have is one that has not returned yet.
use mytunnel.Prelude.{
  ℕ, ◌%◌, ◌≡◌, refl, sym, ap, ◌∙◌, subst, Option, none, some, List, [], ◌∷◌, ◌++◌, append_assoc,
  append-nil, length, length-append, take, drop, take-append-drop, arith, u64_mod, wrapping_add,
}

-- Whether the loop waits for a call, has ended with the number of bytes, or has failed.
pub data Outcome : Type 0 where
  waiting : Outcome
  done : (total : ℕ) → Outcome
  failed : Outcome

-- Whether the inner loop waits for a call, has failed, or has emptied the pipe, with the calls left.
pub data Drained : Type 0 where
  blocked broken : Drained
  emptied : List (Option ℕ) → Drained

-- The inner loop, from what is in the pipe and what has been delivered.
unfoldable pub empty_pipe : List (Option ℕ) → List ℕ → List ℕ → Drained × List ℕ
empty_pipe writes [] delivered = (emptied writes, delivered)
empty_pipe [] (b ∷ pipe) delivered = (blocked, delivered)
empty_pipe (none ∷ writes) (b ∷ pipe) delivered = (broken, delivered)
empty_pipe (some written ∷ writes) (b ∷ pipe) delivered =
    empty_pipe writes (drop written (b ∷ pipe)) (delivered ++ take written (b ∷ pipe))

-- The outer loop.
unfoldable pub splice_loop :
    List (Option (List ℕ)) → List (Option ℕ) → List ℕ → (total : ℕ) → Outcome × List ℕ
splice_loop [] writes delivered total = (waiting, delivered)
splice_loop (none ∷ reads) writes delivered total = (failed, delivered)
splice_loop (some [] ∷ reads) writes delivered total = (done total, delivered)
splice_loop (some (b ∷ bytes) ∷ reads) writes delivered total =
    let (state, d) = empty_pipe writes (b ∷ bytes) delivered in
    elim state [
      | blocked ↦ (waiting, d)
      | broken ↦ (failed, d)
      | emptied more ↦ splice_loop reads more d (wrapping_add total (length (b ∷ bytes)))
    ]

-- `SpliceProxy::splice_tcp_to_tcp`
unfoldable pub splice_tcp_to_tcp : List (Option (List ℕ)) → List (Option ℕ) → Outcome × List ℕ
splice_tcp_to_tcp reads writes = splice_loop reads writes [] 0

-- The bytes that the source gives, up to its end or a failure.
unfoldable pub received : List (Option (List ℕ)) → List ℕ
received [] = []
received (none ∷ reads) = []
received (some [] ∷ reads) = []
received (some (b ∷ bytes) ∷ reads) = (b ∷ bytes) ++ received reads

-- What the target has got is a beginning of `all`; once the loop is done it is all of it, and its length
-- modulo 2^64 is the total.
abbrev pub Delivers : (all : List ℕ) → Outcome × List ℕ → Type 0
Delivers all (done total, delivered) = (delivered ≡ all) × (total ≡ length delivered % u64_mod)
Delivers all (failed, delivered) = (lost : List ℕ) × (delivered ++ lost ≡ all)
Delivers all (waiting, delivered) = (pending : List ℕ) × (delivered ++ pending ≡ all)

-- The inner loop delivers what is in the pipe, or a beginning of it.
abbrev Empties : (all : List ℕ) → Drained × List ℕ → Type 0
Empties all (emptied writes, delivered) = delivered ≡ all
Empties all (blocked, delivered) = (left : List ℕ) × (delivered ++ left ≡ all)
Empties all (broken, delivered) = (left : List ℕ) × (delivered ++ left ≡ all)

empty_pipe-Empties :
    (writes : List (Option ℕ)) (pipe delivered : List ℕ)
    → Empties (delivered ++ pipe) (empty_pipe writes pipe delivered)
unfolding empty_pipe
empty_pipe-Empties writes [] delivered = sym (append-nil delivered)
empty_pipe-Empties [] (b ∷ pipe) delivered = (b ∷ pipe, refl)
empty_pipe-Empties (none ∷ writes) (b ∷ pipe) delivered = (b ∷ pipe, refl)
empty_pipe-Empties (some w ∷ writes) (b ∷ pipe) delivered =
    let moved = take w (b ∷ pipe) in
    let rest = drop w (b ∷ pipe) in
    let whole : (delivered ++ moved) ++ rest ≡ delivered ++ b ∷ pipe =
      append_assoc delivered moved rest ∙ ap (◌++◌ delivered) (take-append-drop w (b ∷ pipe)) in
    subst (λ all. Empties all (empty_pipe writes rest (delivered ++ moved))) whole
      (empty_pipe-Empties writes rest (delivered ++ moved))

splice_loop-Delivers :
    (reads : List (Option (List ℕ))) (writes : List (Option ℕ)) (delivered : List ℕ) (total : ℕ)
    → total ≡ length delivered % u64_mod
    → Delivers (delivered ++ received reads) (splice_loop reads writes delivered total)
unfolding splice_loop received wrapping_add
splice_loop-Delivers [] writes delivered total count = ([], refl)
splice_loop-Delivers (none ∷ reads) writes delivered total count = ([], refl)
splice_loop-Delivers (some [] ∷ reads) writes delivered total count =
    (sym (append-nil delivered), count)
splice_loop-Delivers (some (b ∷ bytes) ∷ reads) writes delivered total count =
    by_pipe (λ more d next h. splice_loop-Delivers reads more d next h)
      (empty_pipe writes (b ∷ bytes) delivered) (empty_pipe-Empties writes (b ∷ bytes) delivered)
  where
    whole :
        (delivered ++ b ∷ bytes) ++ received reads
        ≡ delivered ++ received (some (b ∷ bytes) ∷ reads)
    whole = append_assoc delivered (b ∷ bytes) (received reads)

    missing :
        (d left : List ℕ)
        → d ++ left ≡ delivered ++ b ∷ bytes
        → d ++ (left ++ received reads) ≡ delivered ++ received (some (b ∷ bytes) ∷ reads)
    missing d left e =
        sym (append_assoc d left (received reads)) ∙ ap (λ x. x ++ received reads) e ∙ whole

    by_pipe :
        ((more : List (Option ℕ)) (d : List ℕ) (next : ℕ)
          → next ≡ length d % u64_mod
          → Delivers (d ++ received reads) (splice_loop reads more d next))
        → (r : Drained × List ℕ) → Empties (delivered ++ b ∷ bytes) r
        → Delivers (delivered ++ received (some (b ∷ bytes) ∷ reads)) (elim r.0 [
          | blocked ↦ (waiting, r.1)
          | broken ↦ (failed, r.1)
          | emptied more ↦ splice_loop reads more r.1 (wrapping_add total (length (b ∷ bytes)))
        ])
    by_pipe again (blocked, d) (left, e) = (left ++ received reads, missing d left e)
    by_pipe again (broken, d) (left, e) = (left ++ received reads, missing d left e)
    by_pipe again (emptied more, d) e =
        let next = wrapping_add total (length (b ∷ bytes)) in
        let size = ap length e ∙ length-append delivered (b ∷ bytes) in
        subst (λ x. Delivers x (splice_loop reads more d next))
          (ap (λ x. x ++ received reads) e ∙ whole) (again more d next (omega (arith, size, count)))

-- A beginning of what the source gave has reached the target, in order; once the call returns a number,
-- the target has got every byte up to the source's end, and the number is how many, modulo 2^64.
pub splice_tcp_to_tcp-Delivers :
    (reads : List (Option (List ℕ))) (writes : List (Option ℕ))
    → Delivers (received reads) (splice_tcp_to_tcp reads writes)
unfolding splice_tcp_to_tcp
splice_tcp_to_tcp-Delivers reads writes = splice_loop-Delivers reads writes [] 0 (omega arith)
