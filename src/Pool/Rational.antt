-- ===== src/Pool/Rational.antt =====
-- Fractions as a `double` for the tests: the interface of `Pool.Double` with exact arithmetic, but for
-- `exp`, which is cut after its quadratic term.
use salvium_pool.Prelude.{ℕ, ◌+◌, ◌-◌, ◌*◌, ◌/◌, ◌^◌, ltb}
use salvium_pool.Pool.Double.{Double}

abbrev pub rational : Double
rational = record {
  D = ℕ × ℕ;
  of_u64 = λ n. (n, 1);
  to_u64 = λ x. x.0 / x.1;
  add = λ x y. (x.0 * y.1 + y.0 * x.1, x.1 * y.1);
  sub = λ x y. (x.0 * y.1 - y.0 * x.1, x.1 * y.1);
  mul = λ x y. (x.0 * y.0, x.1 * y.1);
  div = λ x y. (x.0 * y.1, x.1 * y.0);
  floor = λ x. (x.0 / x.1, 1);
  exp = λ x. (2 * x.1 * x.1 + 2 * x.0 * x.1 + x.0 * x.0, 2 * x.1 * x.1);
  lt = λ x y. ltb (x.0 * y.1) (y.0 * x.1);
  tiny = (2, 10 ^ 16);
}
