-- ===== src/Difficulty.antt =====
-- src/pool.c on difficulty: the decaying averages of a miner's hashrate, the target that is chosen from
-- them, and a target as the text that is sent to the miner.
pub mod Target
pub mod Rate
pub mod Word
mod Tests
use salvium_pool.Prelude.{
  ℕ, zero, suc, ◌+◌, ◌-◌, ◌*◌, ◌/◌, ◌%◌, ◌^◌, min, max, bit_and, Bool, true, false, Option, none,
  some, List, [], ◌∷◌, length, get_or, set, not, ◌==◌, ltb, if◌then◌else◌,
}
use salvium_pool.Pool.Types.{Config, HrStats, BlockTemplate, Job, Client}
use salvium_pool.Pool.Double.{Double}
use salvium_pool.Util.Hex.{bin_to_hex}

-- two minutes, ten, thirty, one hour, one day, one week
abbrev pub hr_intervals : List ℕ
hr_intervals = 120 ∷ 600 ∷ 1800 ∷ 3600 ∷ 86400 ∷ 604800 ∷ []

module _ (fp : Double) where
  open fp use {D, of_u64, to_u64, add, sub, mul, div, exp, lt, tiny}

  -- An average after `t` seconds in which `h` hashes were done.
  pub decay : D → D → ℕ → D → D
  decay t h inter f =
      let d = div t (of_u64 inter) in
      let d = if lt (of_u64 32) d then of_u64 32 else d in
      let p = sub (of_u64 1) (div (of_u64 1) (exp d)) in
      let z = add (of_u64 1) p in
      let f = div (add f (mul (div h t) p)) z in if lt f tiny then of_u64 0 else f

  -- `while (i--)`
  pub decay_loop : D → D → ℕ → List D → List D
  decay_loop t h zero avg = avg
  decay_loop t h (suc i) avg =
      decay_loop t h i (set avg i (decay t h (get_or hr_intervals i 0) (get_or avg i (of_u64 0))))

  -- The time is a parameter; `difftime` is not positive when the clock has not moved on.
  pub hr_update : ℕ → HrStats D → HrStats D
  hr_update now stats =
      let t = of_u64 (now - stats.last_calc) in
      let avg = decay_loop t (of_u64 stats.diff_since) (length hr_intervals) stats.avg in
      if not (ltb stats.last_calc now)
      then stats
      else (record { last_calc = now; diff_since = 0; avg = avg })

  module _ (config : Config D) where
    -- The least difficulty: the pool's, a NiceHash miner's, the one that the miner asked for.
    pub minimum : Client D → ℕ
    minimum client =
        let md = config.pool_min_diff in
        let md = if client.is_nicehash then max config.pool_nicehash_diff md else md in
        if client.req_diff == 0 then md else max client.req_diff md

    pub template_difficulty : Job → ℕ
    template_difficulty job = elim job.block_template [
      | none ↦ 0xFFFFFFFFFFFFFFFF
      | some bt ↦ bt.difficulty
    ]

    -- What the hashrate calls for, or in the first minute the difficulty to start with.
    pub calculated : ℕ → Client D → ℕ
    calculated now client =
        let rtt = if client.is_xnp then 5 else config.retarget_time in
        let duration = now - client.connected_since in
        let idx = if ltb (get_or hr_intervals 2 0) duration then 1 else 0 in
        if ltb duration 60
        then config.pool_start_diff
        else to_u64 (mul (get_or client.hr_stats.avg idx (of_u64 0)) (of_u64 rtt))

    pub client_target : ℕ → Client D → Job → ℕ
    client_target now client job =
        if not (config.pool_fixed_diff == 0)
        then config.pool_fixed_diff
        else min (max (calculated now client) (minimum client)) (template_difficulty job)

    pub retarget_required : ℕ → Client D → Job → Bool
    retarget_required now client job =
        if not (config.pool_fixed_diff == 0)
        then false
        else lt (div (of_u64 job.target) (of_u64 (client_target now client job)))
            config.retarget_ratio

    unfoldable pub retarget : ℕ → Client D → Job → Job
    retarget now client job = record job { target = client_target now client job }

-- The bytes of a number in the order that a little-endian machine stores them.
unfoldable pub le_bytes : ℕ → ℕ → List ℕ
le_bytes zero value = []
le_bytes (suc size) value = value % 256 ∷ le_bytes size (value / 256)

-- 2 ^ 256 - 1, which `main` reads from its hexadecimal digits
abbrev pub base_diff : ℕ
base_diff = 0xFFFFFFFFFFFFFFFFFFFFFFFFFFFFFFFFFFFFFFFFFFFFFFFFFFFFFFFFFFFFFFFF

-- `BN_div` refuses a divisor of 0, and leaves `diff` at 0.
pub bn_div : ℕ → ℕ → ℕ
bn_div a b = if b == 0 then 0 else a / b

pub target_to_hex : ℕ → List ℕ
target_to_hex target =
    let diff = bn_div base_diff target / 2 ^ 224 in
    if not (bit_and target 0xFFFFFFFF00000000 == 0)
    then bin_to_hex (le_bytes 8 target)
    else bin_to_hex (le_bytes 4 (diff % 2 ^ 32))
