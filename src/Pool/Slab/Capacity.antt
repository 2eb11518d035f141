-- ===== src/Pool/Slab/Capacity.antt =====
-- No operation of the slab changes its capacity.
use mytunnel.Prelude.{◌≡◌, arith}
use mytunnel.Pool.Slab.{SlabHandle, ConnectionSlab, insert, remove, modify}

module _ {T : Type 0} (s : ConnectionSlab T) where
  pub capacity-insert : (value : T) → (insert value s).1.capacity ≡ s.capacity
  unfolding insert
  capacity-insert value = ground arith

  pub capacity-remove : (h : SlabHandle) → (remove h s).1.capacity ≡ s.capacity
  unfolding remove
  capacity-remove h = ground arith

  pub capacity-modify : (h : SlabHandle) (f : T → T) → (modify h f s).capacity ≡ s.capacity
  unfolding modify
  capacity-modify h f = ground arith
