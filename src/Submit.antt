-- ===== src/Submit.antt =====
-- miner_on_submit of src/pool.c: the checks of a miner's submission, from its fields to its hash, and what
-- becomes of it. What the pool sends and stores is a list of effects. `early` is the job that
-- miner_send_job puts on top of a client's stack, which is modelled in `Jobs`.
pub mod Stored
pub mod Accept
pub mod Twice
mod Tests
use salvium_pool.Prelude.{
  take, ℕ, zero, suc, ◌+◌, ◌-◌, ◌*◌, ◌/◌, ◌%◌, ◌^◌, Bool, true, false, Option, none, some, List, [],
  ◌∷◌, ◌++◌, length, get_or, get_elem?, set, not, ◌&&◌, ◌||◌, ◌==◌, ltb, leb, if◌then◌else◌,
}
use salvium_pool.Pool.Types.{
  Config, HrStats, BlockTemplate, Job, Client, Share, Block, block_locked,
}
use salvium_pool.Pool.Double.{Double}
use salvium_pool.Util.Hex.{HexCheck, hex, is_hex_string, hex_to_bin}
use salvium_pool.Util.Reverse.{reverse_bin}
use salvium_pool.Difficulty.{hr_update, retarget_required, le_bytes, base_diff, bn_div}
use salvium_pool.Jobs.{client_jobs_max}
use salvium_pool.Work.{
  Crypto, Request, mode_self_select, same_bytes, client_find_job, ntohl, write, already_submitted,
  fill_reserved, submission_of, pow_hash, hash_difficulty,
}

-- the errors that a submission is answered with
pub data Refusal : Type 0 where
  nonce_not_number : Refusal
  result_length : Refusal
  result_not_hex : Refusal
  job_id_length : Refusal
  job_not_found : Refusal
  no_template : Refusal
  duplicate_share : Refusal
  invalid_block : Refusal
  invalid_share : Refusal
  low_difficulty : Refusal

-- `crash` is the use of a template that is NULL.
pub data Effect : Type 0 where
  refuse : Refusal → Effect
  accept : Effect
  submit_block : List ℕ → Block → Effect
  store_share : Share → Effect
  send_job : Effect
  crash : Effect

-- The miner with its jobs, newest first, the account of its address, and the hashes of the round. The miner
-- is one that has signed in, so that there is such an account.
pub record Miner (D : Type 0) : Type 0 where
  pub client : Client D
  pub jobs : List Job
  pub account_hashes : ℕ
  pub account_stats : HrStats D
  pub round_hashes : ℕ

module _ (fp : Double) (config : Config fp.D) (crypto : Crypto) (upstream : Bool) (now : ℕ)
    (early : Client fp.D → Job) where
  open fp use {D}

  -- The hashes of the target count for the miner and for its account.
  pub count_hashes : ℕ → Miner D → Miner D
  count_hashes target m =
      let stats = m.client.hr_stats in
      let client = record m.client {
        hashes = (m.client.hashes + target) % 2 ^ 64;
        hr_stats =
            hr_update fp now (record stats { diff_since = (stats.diff_since + target) % 2 ^ 64 });
      } in
      let account = m.account_stats in
      record m {
        client = client;
        account_hashes = (m.account_hashes + target) % 2 ^ 64;
        account_stats =
            hr_update fp now
              (record account { diff_since = (account.diff_since + target) % 2 ^ 64 });
      }

  pub more_bad_shares : Miner D → Miner D
  more_bad_shares m =
      let client = record m.client { bad_shares = (m.client.bad_shares + 1) % 2 ^ 8 } in
      record m { client = client }

  -- `if (can_store)`
  pub store : ℕ → ℕ → Miner D → Miner D × List Effect
  store height target m =
      let fewer =
        if m.client.bad_shares == 0 then m.client.bad_shares else m.client.bad_shares - 1 in
      let client = record m.client { bad_shares = fewer } in
      let share : Share = record {
        height = height;
        difficulty = target;
        address = m.client.address;
        timestamp = now;
      } in
      (
        record m {
          client = client;
          round_hashes = if upstream then m.round_hashes else (m.round_hashes + target) % 2 ^ 64;
        },
        store_share share ∷ accept ∷ [],
      )

  -- The block that is reported to the daemon when the hash meets the network's difficulty.
  pub mined_block : BlockTemplate → List ℕ → Block
  mined_block bt block = record {
    height = bt.height;
    hash = crypto.get_block_hash block;
    prev_hash = bt.prev_hash;
    difficulty = bt.difficulty;
    status = block_locked;
    reward = 0;
    timestamp = now;
  }

  -- From `post_hash` on, without the early job at the end.
  pub post_hash : Job → BlockTemplate → List ℕ → List ℕ → Miner D → Miner D × List Effect
  post_hash job bt block result_hash m =
      let hd = hash_difficulty result_hash in
      let counted = count_hashes job.target m in
      let (stored, effects) = store bt.height job.target counted in
      if leb bt.difficulty hd
      then (stored, submit_block block (mined_block bt block) ∷ effects)
      else if ltb hd job.target
      then (more_bad_shares counted, refuse low_difficulty ∷ [])
      else (stored, effects)

  -- `if (retarget_required(client, job))`: the new job comes onto the stack, which may take the place of the
  -- oldest one.
  pub early_job : Job → Miner D × List Effect → Miner D × List Effect
  early_job job (m, effects) =
      if retarget_required fp config now m.client job
      then (
        record m { jobs = take client_jobs_max (early m.client ∷ m.jobs) },
        effects ++ send_job ∷ [],
      )
      else (m, effects)

  -- From the hashing blob on.
  pub judge : Request → Job → BlockTemplate → List ℕ → Miner D → Miner D × List Effect
  judge request job bt block m = elim (crypto.get_hashing_blob block) [
    | none ↦ (m, refuse invalid_block ∷ [])
    | some hashing_blob ↦ elim (hex_to_bin (request.result_hex ++ 0 ∷ []) 32) [
      | none ↦ (m, crash ∷ [])
      | some submitted ↦
          let hash =
            if config.disable_hash_check
            then submitted
            else pow_hash crypto bt block hashing_blob in
          if not (same_bytes submitted hash)
          then (more_bad_shares m, refuse invalid_share ∷ [])
          else early_job job (post_hash job bt block hash m)
    ]
  ]

  -- From the choice of the template `bt` on: the blob is filled in, and the submission is recorded if it
  -- is new.
  pub with_template : ℕ → Request → ℕ → ℕ → Job → BlockTemplate → Miner D → Miner D × List Effect
  with_template instance_id request nonce index job bt m =
      let sub = submission_of m.client request job nonce in
      let job' = record job { submissions = job.submissions ++ sub ∷ [] } in
      let block = write (fill_reserved m.client instance_id request job bt) 39 (le_bytes 4 nonce) in
      if already_submitted sub job.submissions
      then (m, refuse duplicate_share ∷ [])
      else judge request job' bt block (record m { jobs = set m.jobs index job' })

  -- From the job on: without a template of its own, a miner that selects one is refused.
  pub with_job : ℕ → Request → ℕ → ℕ → Job → Miner D → Miner D × List Effect
  with_job instance_id request nonce index job m = elim job.miner_template [
    | some bt ↦ with_template instance_id request nonce index job bt m
    | none ↦
        if m.client.mode == mode_self_select
        then (m, refuse no_template ∷ [])
        else elim job.block_template [
          | none ↦ (m, crash ∷ [])
          | some bt ↦ with_template instance_id request nonce index job bt m
        ]
  ]

  -- From the search for the job on.
  pub with_id : ℕ → Request → ℕ → Miner D → Miner D × List Effect
  with_id instance_id request nonce m =
      if not (length request.job_id == 32)
      then (m, refuse job_id_length ∷ [])
      else elim (client_find_job m.jobs request.job_id) [
        | none ↦ (m, refuse job_not_found ∷ [])
        | some index ↦ elim (get_elem? m.jobs index) [
          | none ↦ (m, crash ∷ [])
          | some job ↦ with_job instance_id request nonce index job m
        ]
      ]

  -- The whole handler.
  pub miner_on_submit : ℕ → Request → Miner D → Miner D × List Effect
  miner_on_submit instance_id request m = elim request.nonce [
    | none ↦ (m, refuse nonce_not_number ∷ [])
    | some uli ↦
        if not (length request.result_hex == 64)
        then (m, refuse result_length ∷ [])
        else elim (is_hex_string request.result_hex) [
          | hex ↦ with_id instance_id request (ntohl uli) m
          | _ ↦ (m, refuse result_not_hex ∷ [])
        ]
  ]
