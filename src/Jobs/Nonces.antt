-- ===== src/Jobs/Nonces.antt =====
-- The extra nonces of the jobs of all clients in src/pool.c over time.
use salvium_pool.Prelude.{
  ℕ, zero, suc, ◌+◌, ◌%◌, ◌^◌, ◌<◌, ◌≤◌, ◌≡◌, ◌≢◌, refl, ap, Bool, true, false, Option, none, some,
  List, [], ◌∷◌, ◌++◌, length, take, ◌&&◌, ◌==◌, ltb, leb, if◌then◌else◌, arith, inl, inr,
  Bool-cases, Option-cases, length-append,
}
use salvium_pool.Prelude.Table.{total, total-append}
use salvium_pool.Pool.Types.{Config, BlockTemplate}
use salvium_pool.Pool.Double.{Double}
use salvium_pool.Difficulty.{retarget}
use salvium_pool.Work.{Crypto, mode_self_select}
use salvium_pool.Shared.{
  shared_template_update, shared_template_is_newer, empty_template, shared_template_get_latest,
}
use salvium_pool.Jobs.{
  Held, Worker, Mint, top, take_shared, hold, new_job, select_job, miner_send_job, clients_send_job,
  rpc_on_block_template, push_template, is_skipped, is_better, is_higher,
}
use salvium_pool.Jobs.Events.{JobPool, Step, come, sign_in, sign_in_again, serve, go, fetch}

abbrev has_nonce : ℕ → Held → ℕ
has_nonce n h = if h.job.extra_nonce == n then 1 else 0

-- how many jobs of a client, and of all clients, have an extra nonce
abbrev pub jobs_with : {D : Type 0} → ℕ → Worker D → ℕ
jobs_with n w = total (has_nonce n) w.jobs

abbrev pub all_with : {D : Type 0} → ℕ → List (Worker D) → ℕ
all_with n workers = total (jobs_with n) workers

-- whether a number was given out between two values of the counter
abbrev given : ℕ → ℕ → ℕ → ℕ
given c c' n = if ltb c n && leb n c' then 1 else 0

-- No extra nonce but 0, which a job without a template has, is that of two jobs, and none is beyond the counter.
pub record AreApart {D : Type 0} (p : JobPool D) : Type 0 where
  pub once : (n : ℕ) → n ≢ 0 → all_with n p.workers ≤ 1
  pub unused : (n : ℕ) → p.mint.extra_nonce < n → all_with n p.workers ≡ 0

total-take :
    {A : Type 0} (weight : A → ℕ) (n : ℕ) (xs : List A) → total weight (take n xs) ≤ total weight xs
total-take weight zero xs = omega arith
total-take weight (suc n) [] = omega arith
total-take weight (suc n) (x ∷ xs) = omega (arith, total-take weight n xs)

take_shared-extra_nonce : (lock : ℕ) (m : Mint) → (take_shared lock m).extra_nonce ≡ m.extra_nonce
unfolding take_shared push_template
take_shared-extra_nonce lock m =
    elim (Bool-cases (shared_template_is_newer m.local_version m.shared)) [
      | inr old ↦ rw (take_shared, old) refl
      | inl newer ↦ elim (Option-cases (shared_template_get_latest lock empty_template m.shared)) [
        | inl failed ↦ rw (take_shared, newer, failed) refl
        | inr ((temp, version), read) ↦ elim (Bool-cases (is_higher temp m.templates)) [
          | inl higher ↦ rw (take_shared, newer, read, higher) refl
          | inr no_higher ↦ rw (take_shared, newer, read, no_higher) refl
        ]
      ]
    ]

-- Two counts that follow each other.
given_sum : (a b c n : ℕ) → a ≤ b → b ≤ c → given a b n + given b c n ≡ given a c n
given_sum a b c n h k = ground arith

-- Numbers that were not in use before keep the jobs apart.
stay_apart :
    {D : Type 0} (p q : JobPool D)
    → AreApart p
    → p.mint.extra_nonce ≤ q.mint.extra_nonce
    → ((n : ℕ)
        → n ≢ 0
        → all_with n q.workers
          ≤ all_with n p.workers + given p.mint.extra_nonce q.mint.extra_nonce n)
    → AreApart q
stay_apart p q ok grows counts = record {
  once = λ n h. elim (Bool-cases (ltb p.mint.extra_nonce n)) [
    | inl beyond ↦
        let none_yet = ok.unused n (ground (arith, beyond)) in ground (arith, none_yet, counts n h)
    | inr old ↦ ground (arith, old, ok.once n h, counts n h)
  ];
  unused = λ n beyond.
      let none_yet = ok.unused n (omega arith) in
      ground (arith, none_yet, counts n (λ e. omega arith));
}

module _ (fp : Double) (config : Config fp.D) (crypto : Crypto) (instance_id lock now : ℕ) where
  open fp use {D}

  -- One job more, with a number that no other has, or without one.
  send_given :
      (response : Bool) (uuid : List ℕ) (w : Worker D) (m : Mint)
      → m.extra_nonce + 1 < 2 ^ 32
      → (let after = miner_send_job fp config crypto instance_id lock now response uuid w m in
          (m.extra_nonce ≤ after.1.extra_nonce)
          × (after.1.extra_nonce ≤ m.extra_nonce + 1)
          × ((n : ℕ)
              → n ≢ 0
              → jobs_with n after.0 ≤ jobs_with n w + given m.extra_nonce after.1.extra_nonce n))
  unfolding miner_send_job hold new_job select_job retarget
  send_given response uuid w m room =
      let same = take_shared-extra_nonce lock m in
      let number : ((take_shared lock m).extra_nonce + 1) % 2 ^ 32 ≡ m.extra_nonce + 1 =
        omega (arith, same) in
      let numbered : (n : ℕ)
          → n ≢ 0
          → (if m.extra_nonce + 1 == n then 1 else 0) + total (has_nonce n) (take 3 w.jobs)
            ≤ jobs_with n w + given m.extra_nonce (m.extra_nonce + 1) n =
        λ n h. ground (arith, total-take (has_nonce n) 3 w.jobs) in
      let unnumbered : (n : ℕ)
          → n ≢ 0
          → (if 0 == n then 1 else 0) + total (has_nonce n) (take 3 w.jobs)
            ≤ jobs_with n w + given m.extra_nonce m.extra_nonce n =
        λ n h. ground (arith, total-take (has_nonce n) 3 w.jobs) in
      elim (Bool-cases (w.client.mode == mode_self_select)) [
        | inl selects ↦ rw (miner_send_job, selects, number) (omega arith, omega arith, numbered)
        | inr normal ↦ elim (Option-cases (top m.templates)) [
          | inl no_top ↦
              rw (miner_send_job, normal, no_top, same) (omega arith, omega arith, unnumbered)
          | inr (t, its) ↦
              rw (miner_send_job, normal, its, number) (omega arith, omega arith, numbered)
        ]
      ]

  -- The loop over the clients gives each one a number of its own.
  all_given :
      (uuids : ℕ → List ℕ) (workers : List (Worker D)) (m : Mint)
      → m.extra_nonce + length workers < 2 ^ 32
      → (let after = clients_send_job fp config crypto instance_id lock now uuids workers m in
          (m.extra_nonce ≤ after.1.extra_nonce)
          × (after.1.extra_nonce ≤ m.extra_nonce + length workers)
          × ((n : ℕ)
              → n ≢ 0
              → all_with n after.0
                ≤ all_with n workers + given m.extra_nonce after.1.extra_nonce n))
  unfolding clients_send_job
  all_given uuids [] m room = (omega arith, omega arith, λ n h. omega arith)
  all_given uuids (w ∷ workers) m room = elim (Bool-cases (is_skipped w.client)) [
    | inl skipped ↦
        let (low, high, counts) = all_given uuids workers m (omega arith) in
        rw (clients_send_job, skipped) (low, omega (arith, high), λ n h. omega (arith, counts n h))
    | inr serves ↦
        let one = send_given false (uuids w.client.fd) w m (omega arith) in
        let m' =
          (miner_send_job fp config crypto instance_id lock now false (uuids w.client.fd) w m).1 in
        let rest = all_given uuids workers m' (omega (arith, one.1)) in
        let last =
          (clients_send_job fp config crypto instance_id lock now uuids workers m').1.extra_nonce in
        rw (clients_send_job, serves)
          (
            omega (arith, one.0, rest.0),
            omega (arith, one.1, rest.1),
            λ n h. omega (
              arith,
              one.2 n h,
              rest.2 n h,
              given_sum m.extra_nonce m'.extra_nonce last n one.0 rest.0,
            ),
          )
  ]

  -- A client among others gets a job.
  served_apart :
      (m : Mint) (before after : List (Worker D)) (old w : Worker D) (response : Bool)
      (uuid : List ℕ)
      → m.extra_nonce + 1 < 2 ^ 32
      → w.jobs ≡ old.jobs
      → AreApart (record { workers = before ++ old ∷ after; mint = m })
      → AreApart (
          let served = miner_send_job fp config crypto instance_id lock now response uuid w m in
          record { workers = before ++ served.0 ∷ after; mint = served.1 })
  served_apart m before after old w response uuid room same ok =
      let served = miner_send_job fp config crypto instance_id lock now response uuid w m in
      let (low, high, counts) = send_given response uuid w m room in
      stay_apart (record { workers = before ++ old ∷ after; mint = m })
        (record { workers = before ++ served.0 ∷ after; mint = served.1 }) ok low
        (λ n h. omega (
          arith,
          counts n h,
          ap (total (has_nonce n)) same,
          total-append (jobs_with n) before (old ∷ after),
          total-append (jobs_with n) before (served.0 ∷ after),
        ))

  fetched_apart :
      (p : JobPool D) (uuids : ℕ → List ℕ) (answer : Option BlockTemplate)
      → p.mint.extra_nonce + length p.workers < 2 ^ 32
      → AreApart p
      → AreApart (
          let done =
            rpc_on_block_template fp config crypto instance_id lock now uuids answer p.workers
              p.mint in
          record { workers = done.0; mint = done.1 })
  unfolding rpc_on_block_template push_template
  fetched_apart p uuids none room ok = ok
  fetched_apart p uuids (some cand) room ok =
      let m = p.mint in
      let updated = record m { shared = (shared_template_update lock now cand m.shared).1 } in
      elim (Bool-cases (is_better cand p.mint.templates)) [
        | inr worse ↦
            rw (rpc_on_block_template, worse) (stay_apart p _ ok (omega arith) (λ n h. omega arith))
        | inl better ↦
            let (low, high, counts) = all_given uuids p.workers (push_template cand updated) room in
            rw (rpc_on_block_template, better) (stay_apart p _ ok low counts)
      ]

-- Every event of one process keeps the jobs of all clients apart by their extra nonces, while the counter
-- has room for a job of each client.
pub Step-AreApart :
    (fp : Double) (config : Config fp.D) (crypto : Crypto) (instance_id : ℕ) (p q : JobPool fp.D)
    → Step fp config crypto instance_id p q
    → p.mint.extra_nonce + length p.workers < 2 ^ 32
    → AreApart p
    → AreApart q
Step-AreApart fp config crypto instance_id p q (come w no_jobs) room ok =
    stay_apart _ _ ok (omega arith) (λ n h. rw no_jobs (omega arith))
Step-AreApart fp config crypto instance_id p q
      (sign_in {m} now before after w client uuid no_jobs counts) room ok =
    served_apart fp config crypto instance_id 0 now m before after w (record w { client = client })
      true uuid (omega (arith, length-append before (w ∷ after))) refl ok
Step-AreApart fp config crypto instance_id p q
      (sign_in_again {m} now before after w client uuid counts counts') room ok =
    served_apart fp config crypto instance_id 0 now m before after w (record w { client = client })
      true uuid (omega (arith, length-append before (w ∷ after))) refl ok
Step-AreApart fp config crypto instance_id p q (serve {m} now before after w uuid counts) room ok =
    served_apart fp config crypto instance_id 0 now m before after w w false uuid
      (omega (arith, length-append before (w ∷ after))) refl ok
Step-AreApart fp config crypto instance_id p q (go before after w) room ok =
    stay_apart _ _ ok (omega arith) (λ n h. omega (
      arith,
      total-append (jobs_with n) before (w ∷ after),
      total-append (jobs_with n) before after,
    ))
Step-AreApart fp config crypto instance_id p q (fetch now uuids answer) room ok =
    fetched_apart fp config crypto instance_id 0 now p uuids answer room ok
