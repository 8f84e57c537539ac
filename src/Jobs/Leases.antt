-- ===== src/Jobs/Leases.antt =====
-- The jobs of all clients in src/pool.c over time, and the templates that they point to.
use salvium_pool.Prelude.{
  ℕ, ◌+◌, ◌≡◌, ◌∙◌, refl, sym, Bool, true, false, Option, none, some, List, [], ◌∷◌, ◌++◌, take,
  All, All-imp, arith, inl, inr, Bool-cases, subst,
}
use salvium_pool.Pool.Types.{Config, BlockTemplate}
use salvium_pool.Pool.Double.{Double}
use salvium_pool.Work.{Crypto}
use salvium_pool.Shared.{SharedTemplate, shared_template_update}
use salvium_pool.Jobs.{
  Worker, Mint, push_template, is_skipped, is_better, clients_send_job, rpc_on_block_template,
}
use salvium_pool.Jobs.Events.{
  JobPool, send_job, on_block_template, Step, come, sign_in, sign_in_again, serve, go, fetch, Reach,
  here, next,
}
use salvium_pool.Jobs.Kept.{
  Kept, Kept-take, Kept-push, IsSettled, NotHigher, Alone, miner_send_job-Kept,
}

module _ {D : Type 0} where
  -- The client is signed in, and its jobs point to the templates that they were made of.
  abbrev pub IsKept : ℕ → List BlockTemplate → Worker D → Type 0
  IsKept pushed templates w = is_skipped w.client ≡ false → Kept pushed templates 0 w.jobs

  -- the same of the jobs that it keeps when it gets a new one
  abbrev WillKeep : ℕ → List BlockTemplate → Worker D → Type 0
  WillKeep pushed templates w =
      is_skipped w.client ≡ false → Kept pushed templates 1 (take 3 w.jobs)

  pub record IsLeased (p : JobPool D) : Type 0 where
    pub settled : IsSettled p.mint
    pub kept : All (IsKept p.mint.pushed p.mint.templates) p.workers

  moved :
      (n n' : ℕ) (templates templates' : List BlockTemplate) (workers : List (Worker D))
      → n ≡ n'
      → templates ≡ templates'
      → All (IsKept n templates) workers
      → All (IsKept n' templates') workers
  moved n n' templates templates' workers e f hs =
      subst (λ k. All (IsKept k templates') workers) e
        (subst (λ ts. All (IsKept n ts) workers) f hs)

  All-split {κ} :
      (P : Worker D → Type κ) (before : List (Worker D)) (w w' : Worker D) (after : List (Worker D))
      → All P (before ++ w ∷ after)
      → P w × (P w' → All P (before ++ w' ∷ after))
  All-split P [] w w' after (h, hs) = (h, λ h'. (h', hs))
  All-split P (x ∷ before) w w' after (h, hs) =
      let (at, others) = All-split P before w w' after hs in (at, λ h'. (h, others h'))

  All-remove_one {κ} :
      (P : Worker D → Type κ) (before : List (Worker D)) (w : Worker D) (after : List (Worker D))
      → All P (before ++ w ∷ after)
      → All P (before ++ after)
  All-remove_one P [] w after (h, hs) = hs
  All-remove_one P (x ∷ before) w after (h, hs) = (h, All-remove_one P before w after hs)

module _ (fp : Double) (config : Config fp.D) (crypto : Crypto) (instance_id now : ℕ) where
  open fp use {D}

  -- A served client among others.
  served-IsLeased :
      (m : Mint) (before after : List (Worker D)) (w old : Worker D) (response : Bool)
      (uuid : List ℕ)
      → is_skipped w.client ≡ false
      → WillKeep m.pushed m.templates w
      → IsLeased (record { workers = before ++ old ∷ after; mint = m })
      → IsLeased (
          let served = send_job fp config crypto instance_id now response uuid w m in
          record { workers = before ++ served.0 ∷ after; mint = served.1 })
  served-IsLeased m before after w old response uuid counts keeps ok =
      let (kept, same, still) =
        miner_send_job-Kept fp config crypto instance_id 0 now response uuid w m ok.settled
          (keeps counts) in
      let served = send_job fp config crypto instance_id now response uuid w m in
      let (at, others) =
        All-split (IsKept m.pushed m.templates) before old served.0 after ok.kept in
      record {
        settled = same.settled;
        kept =
            moved _ _ _ _ _ (sym same.same_pushed) (sym same.same_templates) (others (λ s. kept));
      }

  -- Every client that is signed in gets a job.
  clients_send_job-Kept :
      (uuids : ℕ → List ℕ) (pushed : ℕ) (templates : List BlockTemplate) (workers : List (Worker D))
      (m : Mint)
      → IsSettled m
      → m.pushed ≡ pushed
      → m.templates ≡ templates
      → All (WillKeep pushed templates) workers
      → (let done = clients_send_job fp config crypto instance_id 0 now uuids workers m in
          All (IsKept pushed templates) done.0
          × IsSettled done.1
          × (done.1.pushed ≡ pushed)
          × (done.1.templates ≡ templates))
  unfolding clients_send_job
  clients_send_job-Kept uuids pushed templates [] m ok e f hs = (tt, ok, e, f)
  clients_send_job-Kept uuids pushed templates (w ∷ workers) m ok e f (h, hs) =
      elim (Bool-cases (is_skipped w.client)) [
        | inl skipped ↦
            let rest = clients_send_job-Kept uuids pushed templates workers m ok e f hs in
            rw (clients_send_job, skipped)
              ((λ s. absurd (ground (arith, s, skipped)), rest.0), rest.1, rest.2, rest.3)
        | inr counts ↦
            let keeps : Kept m.pushed m.templates 1 (take 3 w.jobs) =
              subst (λ n. Kept n m.templates 1 (take 3 w.jobs)) (sym e)
                (subst (λ ts. Kept pushed ts 1 (take 3 w.jobs)) (sym f) (h counts)) in
            let (kept, same, still) =
              miner_send_job-Kept fp config crypto instance_id 0 now false (uuids w.client.fd) w m
                ok keeps in
            let served = send_job fp config crypto instance_id now false (uuids w.client.fd) w m in
            let kept' : Kept pushed templates 0 served.0.jobs =
              subst (λ n. Kept n templates 0 served.0.jobs) e
                (subst (λ ts. Kept m.pushed ts 0 served.0.jobs) f kept) in
            let rest =
              clients_send_job-Kept uuids pushed templates workers served.1 same.settled
                (same.same_pushed ∙ e) (same.same_templates ∙ f) hs in
            rw (clients_send_job, counts) ((λ s. kept', rest.0), rest.1, rest.2, rest.3)
      ]

  -- What a process shares is its newest template, or one that it found no better than that.
  shared_template_update-Alone :
      (version : ℕ) (cand : BlockTemplate) (shared : Option SharedTemplate)
      (templates : List BlockTemplate)
      → NotHigher cand.height templates
      → Alone version (shared_template_update 0 now cand shared).1 templates
  unfolding shared_template_update
  shared_template_update-Alone version cand none templates h = tt
  shared_template_update-Alone version cand (some s) templates h = λ newer. h

  is_better-NotHigher :
      (cand : BlockTemplate) (templates : List BlockTemplate)
      → is_better cand templates ≡ false
      → NotHigher cand.height templates
  unfolding is_better
  is_better-NotHigher cand [] e = absurd (ground (arith, e))
  is_better-NotHigher cand (newest ∷ templates) e = ground (arith, e)

  fetched :
      (p : JobPool D) (uuids : ℕ → List ℕ) (answer : Option BlockTemplate)
      → IsLeased p
      → IsLeased (
          let done =
            on_block_template fp config crypto instance_id now uuids answer p.workers p.mint in
          record { workers = done.0; mint = done.1 })
  unfolding rpc_on_block_template push_template
  fetched p uuids none ok = ok
  fetched p uuids (some cand) ok =
      let m = p.mint in
      let updated = record m { shared = (shared_template_update 0 now cand m.shared).1 } in
      elim (Bool-cases (is_better cand p.mint.templates)) [
        | inr worse ↦
            rw (rpc_on_block_template, worse)
              (record {
                settled = record {
                  empty = ok.settled.empty;
                  alone =
                      shared_template_update-Alone m.local_version cand m.shared m.templates
                        (is_better-NotHigher cand m.templates worse);
                };
                kept = ok.kept;
              })
        | inl better ↦
            let all =
              clients_send_job-Kept uuids (m.pushed + 1) (take 4 (cand ∷ m.templates)) p.workers
                (push_template cand updated)
                (record {
                  empty = λ e. absurd (omega arith);
                  alone =
                      shared_template_update-Alone m.local_version cand m.shared
                        (take 4 (cand ∷ m.templates)) (omega arith);
                })
                refl refl
                (All-imp (IsKept m.pushed m.templates) _ p.workers
                  (λ w kept counts.
                    Kept-push m.pushed cand m.templates 3 0 w.jobs (omega arith) (kept counts))
                  ok.kept) in
            rw (rpc_on_block_template, better)
              (record { settled = all.1; kept = moved _ _ _ _ _ (sym all.2) (sym all.3) all.0 })
      ]

module _ (fp : Double) (config : Config fp.D) (crypto : Crypto) (instance_id : ℕ) where
  open fp use {D}

  pub Step-IsLeased :
      {p q : JobPool D} → Step fp config crypto instance_id p q → IsLeased p → IsLeased q
  Step-IsLeased (come w no_jobs) ok = record {
    settled = ok.settled;
    kept = (λ s. rw no_jobs tt, ok.kept);
  }
  Step-IsLeased (sign_in now before after w client uuid no_jobs counts) ok =
      served-IsLeased fp config crypto instance_id now _ before after (record w { client = client })
        w true uuid counts (λ s. rw no_jobs tt) ok
  Step-IsLeased (sign_in_again now before after w client uuid counts counts') ok =
      let its = (All-split (IsKept _ _) before w w after ok.kept).0 in
      served-IsLeased fp config crypto instance_id now _ before after (record w { client = client })
        w true uuid counts' (λ s. Kept-take _ _ 3 0 w.jobs (its counts)) ok
  Step-IsLeased (serve now before after w uuid counts) ok =
      let its = (All-split (IsKept _ _) before w w after ok.kept).0 in
      served-IsLeased fp config crypto instance_id now _ before after w w false uuid counts
        (λ s. Kept-take _ _ 3 0 w.jobs (its counts)) ok
  Step-IsLeased (go before after w) ok = record {
    settled = ok.settled;
    kept = All-remove_one (IsKept _ _) before w after ok.kept;
  }
  Step-IsLeased (fetch now uuids answer) ok =
      fetched fp config crypto instance_id now _ uuids answer ok

  -- the pool before its first template, with shared memory that was just set up or without it
  abbrev pub IsStart : JobPool D → Type 0
  IsStart p =
      (p.workers ≡ [])
      × (p.mint.pushed ≡ 0)
      × (p.mint.templates ≡ [])
      × ((s : SharedTemplate) → p.mint.shared ≡ some s → s.template_version ≡ 0)

  Alone-at_start :
      (version : ℕ) (shared : Option SharedTemplate) (templates : List BlockTemplate)
      → ((s : SharedTemplate) → shared ≡ some s → s.template_version ≡ 0)
      → Alone version shared templates
  Alone-at_start version none templates h = tt
  Alone-at_start version (some s) templates h =
      let zero_version = h s refl in λ newer. absurd (ground (arith, zero_version, newer))

  start-IsLeased : (p : JobPool D) → IsStart p → IsLeased p
  start-IsLeased p (nobody, none_pushed, no_templates, version) = record {
    settled = record {
      empty = λ e. no_templates;
      alone = Alone-at_start p.mint.local_version p.mint.shared p.mint.templates version;
    };
    kept = subst (λ ws. All (IsKept p.mint.pushed p.mint.templates) ws) (sym nobody) tt;
  }

  pub Reach-IsLeased :
      {p q : JobPool D} → IsLeased p → Reach fp config crypto instance_id p q → IsLeased q
  Reach-IsLeased ok here = ok
  Reach-IsLeased ok (next r step) = Step-IsLeased step (Reach-IsLeased ok r)

  -- In one process whose lock never fails, and where no connection asks for a job before it has signed in:
  -- whatever connections, logins, requests for jobs, disconnections and templates come, at whatever times, each
  -- job that a signed-in client holds points into the stack of templates at the very template that it was
  -- made of.
  pub Reach-IsLeased_start :
      (p q : JobPool D)
      → IsStart p
      → Reach fp config crypto instance_id p q
      → All (IsKept q.mint.pushed q.mint.templates) q.workers
  Reach-IsLeased_start p q start r = (Reach-IsLeased (start-IsLeased p start) r).kept
