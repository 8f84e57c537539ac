-- ===== src/Jobs.antt =====
-- Jobs and block templates of src/pool.c: miner_send_job, clients_send_job and rpc_on_block_template. The
-- stack of templates and the stack of a client's jobs are lists of at most four, newest first, as
-- `BStack.Refine` has them. A job points into the stack of templates: it carries the number of its
-- template, counted over all that were ever pushed.
pub mod Kept
pub mod Events
pub mod Leases
pub mod Submitted
pub mod Nonces
mod Tests
use salvium_pool.Prelude.{
  ℕ, zero, suc, ◌+◌, ◌-◌, ◌%◌, ◌^◌, Bool, true, false, Option, none, some, List, [], ◌∷◌, ◌++◌,
  length, take, not, ◌||◌, ◌==◌, ltb, if◌then◌else◌,
}
use salvium_pool.Pool.Types.{Config, BlockTemplate, Job, Client, PoolStats}
use salvium_pool.Pool.Double.{Double}
use salvium_pool.Util.Hex.{bin_to_hex}
use salvium_pool.Difficulty.{retarget, le_bytes}
use salvium_pool.Work.{Crypto, mode_self_select, write}
use salvium_pool.Shared.{
  SharedTemplate, shared_template_update, shared_template_is_newer, empty_template,
  shared_template_get_latest,
}

pub record Held : Type 0 where
  pub job : Job
  pub template : Option ℕ

-- a client with its jobs
pub record Worker (D : Type 0) : Type 0 where
  pub client : Client D
  pub jobs : List Held

-- The templates with how many were pushed, the shared one with the version that is known, and the last
-- extra nonce.
pub record Mint : Type 0 where
  pub templates : List BlockTemplate
  pub pushed : ℕ
  pub shared : Option SharedTemplate
  pub local_version : ℕ
  pub extra_nonce : ℕ

-- What is written to a client, by its descriptor: the body that each of three functions makes of the
-- client's newest job. `overrun` is a write outside of a block that is too short.
pub data Sent : Type 0 where
  job_body : ℕ → Bool → Job → Sent
  job_body_ss : ℕ → Bool → Job → Sent
  proxy_job_body : ℕ → Bool → Job → List ℕ → Sent
  overrun : Sent

-- BLOCK_TEMPLATES_MAX and CLIENT_JOBS_MAX
abbrev pub templates_max : ℕ
templates_max = 4

abbrev pub client_jobs_max : ℕ
client_jobs_max = 4

-- a job with the bytes 0
abbrev pub no_job : Job
no_job = record {
  id = [];
  blob = [];
  block_template = none;
  extra_nonce = 0;
  target = 0;
  submissions = [];
  miner_template = none;
}

abbrev pub top : {A : Type 0} → List A → Option A
top [] = none
top (x ∷ xs) = some x

unfoldable pub push_template : BlockTemplate → Mint → Mint
push_template t m = record m {
  templates = take templates_max (t ∷ m.templates);
  pushed = m.pushed + 1;
}

-- whether a template is higher than the newest one
unfoldable pub is_higher : BlockTemplate → List BlockTemplate → Bool
is_higher t [] = true
is_higher t (newest ∷ templates) = ltb newest.height t.height

-- `if (shared_template_is_newer())`
unfoldable pub take_shared : ℕ → Mint → Mint
take_shared lock m =
    let taken : Mint = elim (shared_template_get_latest lock empty_template m.shared) [
      | none ↦ m
      | some (shared_temp, version) ↦
          let known = record m { local_version = version } in
          if is_higher shared_temp m.templates then push_template shared_temp known else known
    ] in
    if shared_template_is_newer m.local_version m.shared then taken else m

-- The template's block with the extra nonce and the pool's instance in its reserved space.
unfoldable pub job_block : ℕ → ℕ → BlockTemplate → List ℕ
job_block instance_id extra_nonce bt =
    let block = write bt.block_blob bt.reserved_offset (le_bytes 4 extra_nonce) in
    write block (bt.reserved_offset + 4) (le_bytes 4 instance_id)

-- `get_hashing_blob`, whose code is not looked at
unfoldable pub blob_of : Crypto → List ℕ → List ℕ
blob_of crypto block = elim (crypto.get_hashing_blob block) [ none ↦ [] | some blob ↦ blob ]

-- `if (c->fd == 0 || c->address[0] == 0 || c->downstream)`
unfoldable pub is_skipped : {D : Type 0} → Client D → Bool
is_skipped c = (c.fd == 0) || (c.address == 0) || c.downstream

-- whether the daemon's template is used: it has more transactions or is higher than the newest one
unfoldable pub is_better : BlockTemplate → List BlockTemplate → Bool
is_better cand [] = true
is_better cand (newest ∷ templates) =
    ltb newest.tx_count cand.tx_count || ltb newest.height cand.height

module _ (fp : Double) (config : Config fp.D) (crypto : Crypto) (instance_id lock now : ℕ) where
  open fp use {D}

  unfoldable pub hold : Job → Option ℕ → Worker D → Worker D
  hold job template w = record w {
    jobs = take client_jobs_max (record { job = job; template = template } ∷ w.jobs);
  }

  -- The job that the newest template makes; `uuid` is what uuid_generate gives.
  unfoldable pub new_job : List ℕ → ℕ → Client D → BlockTemplate → Job
  new_job uuid nonce client t =
      let block = job_block instance_id nonce t in
      retarget fp config now client (record no_job {
        block_template = some t;
        extra_nonce = nonce;
        blob = bin_to_hex (blob_of crypto block);
        id = uuid;
      })

  -- The job of a miner that selects its template itself.
  unfoldable pub select_job : List ℕ → ℕ → Client D → Option BlockTemplate → Job
  select_job uuid nonce client bt =
      let job = retarget fp config now client (record no_job { block_template = bt; id = uuid }) in
      record job { extra_nonce = nonce }

  unfoldable pub miner_send_job : Bool → List ℕ → Worker D → Mint → Worker D × Mint × List Sent
  miner_send_job response uuid w m =
      let bt = top m.templates in
      let template = if m.pushed == 0 then none else some (m.pushed - 1) in
      let taken = take_shared lock m in
      let nonce = (taken.extra_nonce + 1) % 2 ^ 32 in
      let numbered = record taken { extra_nonce = nonce } in
      let selected = select_job uuid nonce w.client bt in
      if w.client.mode == mode_self_select
      then (hold selected template w, numbered, Sent.job_body_ss w.client.fd response selected ∷ [])
      else elim bt [
        | none ↦ (hold no_job none w, taken, [])
        | some t ↦
            let job = new_job uuid nonce w.client t in
            let block_hex = bin_to_hex (job_block instance_id nonce t) in
            let body =
              if w.client.is_xnp
              then Sent.proxy_job_body w.client.fd response job block_hex
              else Sent.job_body w.client.fd response job in
            (
              hold job template w,
              numbered,
              if ltb (length t.block_blob) (t.reserved_offset + 8)
                  then Sent.overrun ∷ []
                  else body ∷ [],
            )
      ]

  -- The loop over the clients; `uuids` is what uuid_generate gives for each one.
  unfoldable pub clients_send_job :
      (ℕ → List ℕ) → List (Worker D) → Mint → List (Worker D) × Mint × List Sent
  clients_send_job uuids [] m = ([], m, [])
  clients_send_job uuids (w ∷ workers) m =
      let (w', m', sent) =
        if is_skipped w.client then (w, m, []) else miner_send_job false (uuids w.client.fd) w m in
      let (served, m'', later) = clients_send_job uuids workers m' in
      (w' ∷ served, m'', sent ++ later)

  -- From the parsed answer on, which is none where the daemon reports an error.
  unfoldable pub rpc_on_block_template :
      (ℕ → List ℕ)
      → Option BlockTemplate
      → List (Worker D)
      → Mint
      → List (Worker D) × Mint × List Sent
  rpc_on_block_template uuids none workers m = (workers, m, [])
  rpc_on_block_template uuids (some cand) workers m =
      let updated = record m { shared = (shared_template_update lock now cand m.shared).1 } in
      if is_better cand m.templates
      then clients_send_job uuids workers (push_template cand updated)
      else (workers, updated, [])
