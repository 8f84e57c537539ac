-- ===== src/Pool.antt =====
-- The data that the parts of src/pool.c share, and what they use of code that is not in this
-- repository: double-precision arithmetic and LMDB.
pub mod Types
pub mod Double
pub mod Lmdb
pub mod Memory
pub mod Rational
