-- ===== src/Pool/Double.antt =====
-- What src/pool.c uses of C's `double`: a type with its conversions from and to `uint64_t`, its
-- arithmetic and `exp` and `floor` of math.h. Nothing is assumed of them here; a theorem names what it
-- needs.
use salvium_pool.Prelude.{ℕ, Bool}

pub record Double : Type 1 where
  pub D : Type 0
  pub of_u64 : ℕ → D
  pub to_u64 : D → ℕ
  pub add : D → D → D
  pub sub : D → D → D
  pub mul : D → D → D
  pub div : D → D → D
  pub floor : D → D
  pub exp : D → D
  pub lt : D → D → Bool
  -- the constant 2e-16
  pub tiny : D
