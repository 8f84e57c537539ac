-- ===== src/Difficulty/Rate.antt =====
-- hr_update of src/pool.c: the decay of one average, and an update after an update at one time.
use salvium_pool.Prelude.{ℕ, ◌-◌, ◌<◌, ◌≡◌, [], ◌∷◌, arith}
use salvium_pool.Pool.Types.{HrStats}
use salvium_pool.Pool.Double.{Double}
use salvium_pool.Difficulty.{decay, decay_loop, hr_update}

module _ (fp : Double) (now : ℕ) where
  -- When the clock has moved on, each of the six averages decays over its own interval, from the value
  -- that it had, the difficulty since the last update is counted once, and the counter starts again.
  pub hr_update-decay :
      (stats : HrStats fp.D) (a b c d e f : fp.D)
      → stats.last_calc < now
      → stats.avg ≡ a ∷ b ∷ c ∷ d ∷ e ∷ f ∷ []
      → let step = decay fp (fp.of_u64 (now - stats.last_calc)) (fp.of_u64 stats.diff_since) in
        hr_update fp now stats ≡ record {
          last_calc = now;
          diff_since = 0;
          avg =
              step 120 a
              ∷ step 600 b
              ∷ step 1800 c
              ∷ step 3600 d
              ∷ step 86400 e
              ∷ step 604800 f
              ∷ [];
        }
  unfolding hr_update decay_loop
  hr_update-decay stats a b c d e f later e6 = rw e6 (ground arith)

  -- A second update at the same time changes nothing.
  pub hr_update-twice :
      (stats : HrStats fp.D) → hr_update fp now (hr_update fp now stats) ≡ hr_update fp now stats
  unfolding hr_update
  hr_update-twice stats = ground arith
