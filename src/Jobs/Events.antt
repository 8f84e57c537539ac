-- ===== src/Jobs/Events.antt =====
-- The events of src/pool.c that make jobs and templates, as a step relation on all clients with their jobs.
use salvium_pool.Prelude.{ℕ, ◌≡◌, Bool, true, false, Option, List, [], ◌∷◌, ◌++◌}
use salvium_pool.Pool.Types.{Config, BlockTemplate, Client}
use salvium_pool.Pool.Double.{Double}
use salvium_pool.Work.{Crypto}
use salvium_pool.Jobs.{Worker, Mint, Sent, is_skipped, miner_send_job, rpc_on_block_template}

pub record JobPool (D : Type 0) : Type 0 where
  pub workers : List (Worker D)
  pub mint : Mint

module _ (fp : Double) (config : Config fp.D) (crypto : Crypto) (instance_id : ℕ) where
  open fp use {D}

  -- One process, whose lock never fails.
  abbrev pub send_job : ℕ → Bool → List ℕ → Worker D → Mint → Worker D × Mint × List Sent
  send_job now = miner_send_job fp config crypto instance_id 0 now

  abbrev pub on_block_template :
      ℕ
      → (ℕ → List ℕ)
      → Option BlockTemplate
      → List (Worker D)
      → Mint
      → List (Worker D) × Mint × List Sent
  on_block_template now = rpc_on_block_template fp config crypto instance_id 0 now

  -- The events, each at a time of its own: a connection comes, without jobs; a miner signs in and gets its first
  -- job, or signs in again; a signed-in miner gets another job, because it asks or early; it goes; and the
  -- daemon answers with a template.
  pub data Step : JobPool D → JobPool D → Type 0 where
    come :
        {p : JobPool D} (w : Worker D) → w.jobs ≡ [] → Step p (record p { workers = w ∷ p.workers })
    sign_in :
        {m : Mint} (now : ℕ) (before after : List (Worker D)) (w : Worker D) (client : Client D)
        (uuid : List ℕ)
        → w.jobs ≡ []
        → is_skipped client ≡ false
        → Step
            (record { workers = before ++ w ∷ after; mint = m })
            (let served = send_job now true uuid (record w { client = client }) m in
              record { workers = before ++ served.0 ∷ after; mint = served.1 })
    sign_in_again :
        {m : Mint} (now : ℕ) (before after : List (Worker D)) (w : Worker D) (client : Client D)
        (uuid : List ℕ)
        → is_skipped w.client ≡ false
        → is_skipped client ≡ false
        → Step
            (record { workers = before ++ w ∷ after; mint = m })
            (let served = send_job now true uuid (record w { client = client }) m in
              record { workers = before ++ served.0 ∷ after; mint = served.1 })
    serve :
        {m : Mint} (now : ℕ) (before after : List (Worker D)) (w : Worker D) (uuid : List ℕ)
        → is_skipped w.client ≡ false
        → Step
            (record { workers = before ++ w ∷ after; mint = m })
            (let served = send_job now false uuid w m in
              record { workers = before ++ served.0 ∷ after; mint = served.1 })
    go :
        {m : Mint} (before after : List (Worker D)) (w : Worker D)
        → Step
            (record { workers = before ++ w ∷ after; mint = m })
            (record { workers = before ++ after; mint = m })
    fetch :
        {p : JobPool D} (now : ℕ) (uuids : ℕ → List ℕ) (answer : Option BlockTemplate)
        → Step p (
            let done = on_block_template now uuids answer p.workers p.mint in
            record { workers = done.0; mint = done.1 })

  pub data Reach (p : JobPool D) : JobPool D → Type 0 where
    here : Reach p p
    next : {q r : JobPool D} → Reach p q → Step q r → Reach p r
