-- ===== src/Pool.antt =====
-- src/pool: the slab of connection slots and the pool of buffers.
pub mod Bits
pub mod Slab
pub mod Buffer
