-- ===== src/Prelude/Mod.antt =====
-- Remainders by a variable: two numbers less than `c` apart leave different remainders.
use Prim.Native.Nat.{ℕ, ◌+◌, ◌%◌, ◌<◌}
use mathlib.Core.Logic.{◌≢◌}
use native.Mathlib.Omega.{arith}

pub mod-ne : (c m k : ℕ) → 0 < c → 0 < k → k < c → (m + k) % c ≢ m % c
mod-ne c m k pc pk hk e = grind arith

pub mod_lt : (m c : ℕ) → 0 < c → m % c < c
mod_lt m c h = omega arith
