-- ===== src/Difficulty/Tests.antt =====
-- Runs of the model of difficulty and targets.
use salvium_pool.Prelude.{
  ◌*◌, ℕ, ◌≤◌, min, ◌≡◌, refl, true, false, none, some, List, [], ◌∷◌, ◌++◌, length, arith,
}
use salvium_pool.Pool.Types.{Config, HrStats, BlockTemplate, Job, Client}
use salvium_pool.Pool.Rational.{rational}
use salvium_pool.Util.Hex.{bin_to_hex, hex_to_bin}
use salvium_pool.Difficulty.{
  decay, hr_update, minimum, calculated, client_target, template_difficulty, retarget_required,
  retarget, target_to_hex, bn_div, le_bytes,
}
use salvium_pool.Difficulty.Target.{client_target-bounds, retarget-settles}
use salvium_pool.Difficulty.Rate.{hr_update-decay, hr_update-twice}
use salvium_pool.Difficulty.Word.{target_to_hex-hex_to_bin, of_le, sent_word}

abbrev config : Config (ℕ × ℕ)
config = record {
  pool_fee_wallet = 0;
  pool_start_diff = 100;
  pool_min_diff = 50;
  pool_fixed_diff = 0;
  pool_nicehash_diff = 400;
  share_mul = (2, 1);
  retarget_time = 120;
  retarget_ratio = (1, 2);
  pool_fee = (0, 1);
  payment_threshold = (1, 10);
  has_upstream = false;
  disable_payouts = false;
  disable_hash_check = false;
}

abbrev stats : HrStats (ℕ × ℕ)
stats = record {
  last_calc = 1000;
  diff_since = 600;
  avg = (10, 1) ∷ (9, 1) ∷ (8, 1) ∷ (7, 1) ∷ (6, 1) ∷ (5, 1) ∷ [];
}

abbrev client : Client (ℕ × ℕ)
client = record {
  fd = 5;
  address = 3;
  hashes = 0;
  hr_stats = stats;
  connected_since = 1000;
  is_xnp = false;
  is_nicehash = true;
  mode = 0;
  bad_shares = 0;
  downstream = false;
  downstream_accounts = 0;
  req_diff = 70;
}

abbrev template : BlockTemplate
template = record {
  hashing_blob = [];
  block_blob = [];
  difficulty = 1100;
  height = 7;
  prev_hash = 1;
  reserved_offset = 0;
  seed_hash = 2;
  next_seed_hash = 0;
  tx_count = 0;
}

abbrev job : Job
job = record {
  id = [];
  blob = [];
  block_template = some template;
  extra_nonce = 1;
  target = 400;
  submissions = [];
  miner_template = none;
}

-- The minimum for NiceHash in the first minute, then ten hashes a second for two minutes, which the
-- template's difficulty cuts.
targets :
    client_target rational config 1030 client job
      ∷ client_target rational config 1200 client job
      ∷ []
    ≡ 400 ∷ 1100 ∷ []
unfolding client_target minimum calculated template_difficulty
targets = refl

client_target-bounds_example :
    (client_target rational config 1200 client job ≤ template_difficulty rational config job)
    × (min 50 (template_difficulty rational config job)
        ≤ client_target rational config 1200 client job)
    × (min 70 (template_difficulty rational config job)
        ≤ client_target rational config 1200 client job)
    × (true ≡ true
        → min 400 (template_difficulty rational config job)
          ≤ client_target rational config 1200 client job)
client_target-bounds_example = client_target-bounds rational config 1200 client job refl

one_not_less : (n : ℕ) → rational.lt (rational.div (n, 1) (n, 1)) (1, 2) ≡ false
one_not_less n = ground arith

retarget-settles_run :
    retarget_required rational config 1200 client (retarget rational config 1200 client job) ≡ false
retarget-settles_run = retarget-settles rational config 1200 client job one_not_less

-- A share that fills the first target's range is a reason for a new target.
required : retarget_required rational config 1200 client job ≡ true
unfolding retarget_required client_target minimum calculated template_difficulty
required = refl

abbrev step : ℕ → ℕ × ℕ → ℕ × ℕ
step = decay rational (60, 1) (600, 1)

hr_update-decay_run : hr_update rational 1060 stats ≡ record {
  last_calc = 1060;
  diff_since = 0;
  avg =
      step 120 (10, 1)
      ∷ step 600 (9, 1)
      ∷ step 1800 (8, 1)
      ∷ step 3600 (7, 1)
      ∷ step 86400 (6, 1)
      ∷ step 604800 (5, 1)
      ∷ [];
}
hr_update-decay_run =
    hr_update-decay rational 1060 stats (10, 1) (9, 1) (8, 1) (7, 1) (6, 1) (5, 1) (omega arith)
      refl

hr_update-twice_run :
    hr_update rational 1060 (hr_update rational 1060 stats) ≡ hr_update rational 1060 stats
hr_update-twice_run = hr_update-twice rational 1060 stats

target_to_hex-hex_to_bin_example :
    (bytes : List ℕ) × (hex_to_bin (target_to_hex 1000 ++ (0 ∷ [])) (length bytes) ≡ some bytes)
    × (length bytes ≡ 4)
    × (length (target_to_hex 1000) ≡ 2 * length bytes)
    × (of_le bytes ≡ sent_word 1000)
target_to_hex-hex_to_bin_example = target_to_hex-hex_to_bin 1000 [] (omega arith) (omega arith)

-- 4294967 is 0x418937, lowest byte first.
thousand : target_to_hex 1000 ≡ b'3' ∷ b'7' ∷ b'8' ∷ b'9' ∷ b'4' ∷ b'1' ∷ b'0' ∷ b'0' ∷ []
unfolding target_to_hex bn_div le_bytes bin_to_hex
thousand = refl
