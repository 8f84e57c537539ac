-- ===== src/Submit/Twice.antt =====
-- A submission that comes a second time, in miner_on_submit of src/pool.c.
use salvium_pool.Prelude.{◌⊎◌, take, ◌≤◌, ◌+◌, ℕ, ◌≡◌, Bool, some, List, [], ◌∷◌, get_elem?}
use salvium_pool.Pool.Types.{Config, BlockTemplate, Job, Client}
use salvium_pool.Pool.Double.{Double}
use salvium_pool.Jobs.{client_jobs_max}
use salvium_pool.Work.{Crypto, Request}
use salvium_pool.Submit.{Refusal, Effect, Miner, with_template}

module _ (fp : Double) (config : Config fp.D) (crypto : Crypto) (upstream : Bool) (now : ℕ)
    (early : Client fp.D → Job) where
  -- An early job is on top of the stack.
  abbrev pub GotEarly : List Job → List Job → Type 0
  GotEarly jobs after =
      (client : Client fp.D) × (after ≡ take client_jobs_max (early client ∷ jobs))

  -- What a judgement leaves of a miner.
  record Same (m : Miner fp.D) (out : Miner fp.D × List Effect) : Type 0 where
    jobs : (out.0.jobs ≡ m.jobs) ⊎ GotEarly m.jobs out.0.jobs
    mode : out.0.client.mode ≡ m.client.mode
    is_xnp : out.0.client.is_xnp ≡ m.client.is_xnp

  abbrev pub RefusedAgain : ℕ → Request → ℕ → BlockTemplate → Miner fp.D × List Effect → Type 0
  RefusedAgain instance_id request nonce bt first =
      (index : ℕ) × (job' : Job) × (get_elem? first.0.jobs index ≡ some job')
      × (with_template fp config crypto upstream now early instance_id request nonce index job' bt
            first.0
          ≡ (first.0, Effect.refuse Refusal.duplicate_share ∷ []))

  -- The job was the oldest of a full stack, and an early job is on top now.
  abbrev pub Displaced : ℕ → Miner fp.D × List Effect → Type 0
  Displaced index first =
      (client_jobs_max ≤ index + 1)
      × ((client : Client fp.D) × (jobs : List Job) × (first.0.jobs
            ≡ take client_jobs_max (early client ∷ jobs)))
