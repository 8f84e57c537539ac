-- ===== src/Difficulty/Target.antt =====
-- client_target and retarget of src/pool.c: the range of a target, and the target right after a retarget.
use salvium_pool.Prelude.{ℕ, ◌≤◌, ◌≡◌, min, true, false, arith}
use salvium_pool.Pool.Types.{Config, Job, Client}
use salvium_pool.Pool.Double.{Double}
use salvium_pool.Difficulty.{
  minimum, template_difficulty, client_target, retarget_required, retarget,
}

module _ (fp : Double) (config : Config fp.D) (now : ℕ) (client : Client fp.D) (job : Job) where
  -- A target that was not fixed is at most the difficulty of the block template. It is at least the
  -- pool's minimum, what the miner asked for, and the minimum for a NiceHash miner, each of them as far
  -- as the block's difficulty allows.
  pub client_target-bounds :
      config.pool_fixed_diff ≡ 0
      → (client_target fp config now client job ≤ template_difficulty fp config job)
        × (min config.pool_min_diff (template_difficulty fp config job)
            ≤ client_target fp config now client job)
        × (min client.req_diff (template_difficulty fp config job)
            ≤ client_target fp config now client job)
        × (client.is_nicehash ≡ true
            → min config.pool_nicehash_diff (template_difficulty fp config job)
              ≤ client_target fp config now client job)
  unfolding client_target minimum
  client_target-bounds e = (ground arith, ground arith, ground arith, ground arith)

  -- Right after a retarget, at the same time, no retarget is required, if a number divided by itself is not
  -- less than the ratio.
  pub retarget-settles :
      ((n : ℕ) → fp.lt (fp.div (fp.of_u64 n) (fp.of_u64 n)) config.retarget_ratio ≡ false)
      → retarget_required fp config now client (retarget fp config now client job) ≡ false
  unfolding retarget_required retarget client_target template_difficulty
  retarget-settles one = ground (arith, one (client_target fp config now client job))
