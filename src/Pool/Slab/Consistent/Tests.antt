-- ===== src/Pool/Slab/Consistent/Tests.antt =====
-- The slab on the inputs of the source's own tests, and the theorems at them.
use mytunnel.Prelude.{ℕ, ◌≡◌, refl, none, some, arith}
use mytunnel.Pool.Bits.{trailing_zeros, clear_bit, set_bit}
use mytunnel.Pool.Slab.{SlabHandle, ConnectionSlab, new, insert, remove, get, modify, len, claim}
use mytunnel.Pool.Slab.Consistent.{IsConsistent}
use mytunnel.Pool.Slab.Consistent.Create.{new-IsConsistent}
use mytunnel.Pool.Slab.Consistent.Contents.{
  at, Inserts, Removes, insert-Inserts, remove-Removes, modify_lem,
}

abbrev empty : ConnectionSlab ℕ
empty = new ℕ 2

empty-IsConsistent : IsConsistent empty
empty-IsConsistent = (new-IsConsistent ℕ 2 (omega arith)).0

reuse :
    let one = (insert 1 empty).1 in
    let two = (insert 2 one).1 in
    let freed = (remove (at 0) two).1 in
    ((insert 3 two).0 ≡ none) × ((insert 3 freed).0 ≡ some (at 0))
unfolding new insert remove claim trailing_zeros clear_bit set_bit
reuse = (refl, refl)

new-IsConsistent_example : IsConsistent (new ℕ 100) × ((h : SlabHandle) → get h (new ℕ 100) ≡ none)
new-IsConsistent_example = new-IsConsistent ℕ 100 (omega arith)

insert-Inserts_example : Inserts empty empty-IsConsistent 42 (insert 42 empty)
insert-Inserts_example = insert-Inserts empty empty-IsConsistent 42

abbrev filled : ConnectionSlab ℕ
filled = (insert 42 empty).1

filled-IsConsistent : IsConsistent filled
unfolding new insert claim trailing_zeros clear_bit
filled-IsConsistent = (insert-Inserts empty empty-IsConsistent 42).0

remove-Removes_example : Removes filled filled-IsConsistent (at 0) (remove (at 0) filled)
remove-Removes_example = remove-Removes filled filled-IsConsistent (at 0)

modify_lem_example : len (modify (at 0) (λ n. n) empty) ≡ len empty
modify_lem_example = (modify_lem empty empty-IsConsistent (at 0) (λ n. n)).2
