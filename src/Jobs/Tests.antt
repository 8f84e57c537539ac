-- ===== src/Jobs/Tests.antt =====
-- Runs of the model of jobs and templates.
use salvium_pool.Prelude.{
  ℕ, ◌≡◌, refl, true, false, none, some, List, [], ◌∷◌, replicate, All, arith,
}
use salvium_pool.Pool.Types.{Config, HrStats, BlockTemplate, Job, Client}
use salvium_pool.Pool.Rational.{rational}
use salvium_pool.Work.{Crypto, Request}
use salvium_pool.Jobs.{Held, Worker, Mint, is_skipped, new_job, miner_send_job}
use salvium_pool.Jobs.Events.{
  JobPool, come, sign_in, fetch, Reach, here, next, send_job, on_block_template,
}
use salvium_pool.Jobs.Leases.{IsKept, Reach-IsLeased_start}
use salvium_pool.Jobs.Nonces.{AreApart, Step-AreApart}

abbrev config : Config (ℕ × ℕ)
config = record {
  pool_fee_wallet = 0;
  pool_start_diff = 100;
  pool_min_diff = 50;
  pool_fixed_diff = 0;
  pool_nicehash_diff = 0;
  share_mul = (2, 1);
  retarget_time = 120;
  retarget_ratio = (1, 2);
  pool_fee = (0, 1);
  payment_threshold = (1, 10);
  has_upstream = false;
  disable_payouts = false;
  disable_hash_check = false;
}

abbrev crypto : Crypto
crypto = record {
  get_hashing_blob = λ block. some block;
  get_rx_hash = λ seed blob. [];
  get_hash = λ blob variant height. [];
  get_block_hash = λ block. 77;
}

abbrev stats : HrStats (ℕ × ℕ)
stats = record { last_calc = 1000; diff_since = 0; avg = replicate 6 (1, 1) }

abbrev client : ℕ → Client (ℕ × ℕ)
client address = record {
  fd = 5;
  address = address;
  hashes = 0;
  hr_stats = stats;
  connected_since = 1000;
  is_xnp = false;
  is_nicehash = false;
  mode = 0;
  bad_shares = 0;
  downstream = false;
  downstream_accounts = 0;
  req_diff = 0;
}

abbrev worker : ℕ → Worker (ℕ × ℕ)
worker address = record { client = client address; jobs = [] }

abbrev template : BlockTemplate
template = record {
  hashing_blob = [];
  block_blob = replicate 60 0;
  difficulty = 1100;
  height = 7;
  prev_hash = 1;
  reserved_offset = 44;
  seed_hash = 2;
  next_seed_hash = 0;
  tx_count = 0;
}

abbrev empty : Mint
empty = record { templates = []; pushed = 0; shared = none; local_version = 0; extra_nonce = 0 }

abbrev start : JobPool (ℕ × ℕ)
start = record { workers = []; mint = empty }

abbrev came : JobPool (ℕ × ℕ)
came = record { workers = worker 0 ∷ []; mint = empty }

counts : is_skipped (client 3) ≡ false
unfolding is_skipped
counts = refl

abbrev signed : JobPool (ℕ × ℕ)
signed =
    let served = send_job rational config crypto 9 1001 true (replicate 16 0x11) (worker 3) empty in
    record { workers = served.0 ∷ []; mint = served.1 }

abbrev fetched : JobPool (ℕ × ℕ)
fetched =
    let done =
      on_block_template rational config crypto 9 1001 (λ fd. replicate 16 fd) (some template)
        signed.workers signed.mint in
    record { workers = done.0; mint = done.1 }

fetched-Reach : Reach rational config crypto 9 start fetched
fetched-Reach =
    next
      (next (next here (come (worker 0) refl))
        (sign_in 1001 [] [] (worker 0) (client 3) (replicate 16 0x11) refl counts))
      (fetch 1001 (λ fd. replicate 16 fd) (some template))

Reach-IsLeased_start_example :
    All (IsKept fetched.mint.pushed fetched.mint.templates) fetched.workers
Reach-IsLeased_start_example =
    Reach-IsLeased_start rational config crypto 9 start fetched
      (refl, refl, refl, λ s e. absurd (ground (arith, e))) fetched-Reach

apart_at_start : AreApart came
apart_at_start = record { once = λ n h. omega arith; unused = λ n h. refl }

Step-AreApart_example : AreApart signed
Step-AreApart_example =
    Step-AreApart rational config crypto 9 came signed
      (sign_in 1001 [] [] (worker 0) (client 3) (replicate 16 0x11) refl counts) (omega arith)
      apart_at_start

abbrev mint : Mint
mint = record empty { templates = template ∷ []; pushed = 1 }

abbrev request : Request
request = record { nonce = some 5; result_hex = []; job_id = []; pool_nonce = 0; worker_nonce = 0 }

abbrev after : List Held
after =
    (miner_send_job rational config crypto 9 0 1001 false (replicate 16 0x11) (worker 3)
      mint).0.jobs

abbrev job : Job
job = new_job rational config crypto 9 0 1001 (replicate 16 0x11) 1 (client 3) template
