-- ===== src/Submit/Accept.antt =====
-- Which shares miner_on_submit of src/pool.c stores.
use salvium_pool.Prelude.{false, ℕ, ◌≡◌, ◌⊎◌, Bool, some, List, get_elem?, All}
use salvium_pool.Pool.Types.{Config, BlockTemplate, Job, Share, Client}
use salvium_pool.Pool.Double.{Double}
use salvium_pool.Difficulty.{le_bytes}
use salvium_pool.Work.{
  Crypto, Request, client_find_job, submission_of, already_submitted, fill_reserved, write, ntohl,
}
use salvium_pool.Submit.{Effect, Miner}
use salvium_pool.Submit.Stored.{shares_of, IsWorth}

module _ (fp : Double) (config : Config fp.D) (crypto : Crypto) (upstream : Bool) (now : ℕ)
    (early : Client fp.D → Job) where
  -- the block that a submission stands for: the template with the job's numbers, and the nonce
  abbrev pub submitted_block : ℕ → Request → ℕ → Job → BlockTemplate → Client fp.D → List ℕ
  submitted_block instance_id request nonce job bt client =
      write (fill_reserved client instance_id request job bt) 39 (le_bytes 4 nonce)

  -- The job that a submission names, with the template that it is on, and the block of the submission
  -- account for a share.
  pub record IsEarned (instance_id : ℕ) (request : Request) (m : Miner fp.D) (s : Share)
      : Type 0 where
    pub word : ℕ
    pub index : ℕ
    pub job : Job
    pub bt : BlockTemplate
    pub its_nonce : request.nonce ≡ some word
    pub its_id : client_find_job m.jobs request.job_id ≡ some index
    pub its_job : get_elem? m.jobs index ≡ some job
    pub its_template : (job.miner_template ≡ some bt) ⊎ (job.block_template ≡ some bt)
    pub is_new :
        already_submitted (submission_of m.client request job (ntohl word)) job.submissions ≡ false
    pub worth :
        IsWorth fp config crypto upstream now early m request job bt
          (submitted_block instance_id request (ntohl word) job bt m.client)
          s

  abbrev Earned : ℕ → Request → Miner fp.D → Miner fp.D × List Effect → Type 0
  Earned instance_id request m out = All (IsEarned instance_id request m) (shares_of out.1)
