-- ===== src/Submit/Stored.antt =====
-- What a submission that is judged by its hash stores, in miner_on_submit of src/pool.c.
use salvium_pool.Prelude.{
  some, false, ℕ, ◌≤◌, ◌≡◌, ◌⊎◌, inl, inr, refl, sym, ap, min, Bool, true, List, [], ◌∷◌, ◌++◌, not,
  leb, ltb, if◌then◌else◌, if_elim, All, arith, subst, option_elim,
}
use salvium_pool.Pool.Types.{Config, BlockTemplate, Job, Share, Client}
use salvium_pool.Pool.Double.{Double}
use salvium_pool.Util.Hex.{hex_to_bin}
use salvium_pool.Difficulty.{retarget_required}
use salvium_pool.Work.{Crypto, Request, same_bytes, pow_hash, hash_difficulty}
use salvium_pool.Submit.{Effect, Miner, store, post_hash, early_job, judge, count_hashes}

-- the shares that are stored
abbrev pub shares_of : List Effect → List Share
shares_of [] = []
shares_of (Effect.store_share s ∷ effects) = s ∷ shares_of effects
shares_of (Effect.refuse r ∷ effects) = shares_of effects
shares_of (Effect.accept ∷ effects) = shares_of effects
shares_of (Effect.submit_block blob b ∷ effects) = shares_of effects
shares_of (Effect.send_job ∷ effects) = shares_of effects
shares_of (Effect.crash ∷ effects) = shares_of effects

shares_of-append :
    (effects more : List Effect)
    → shares_of more ≡ []
    → shares_of (effects ++ more) ≡ shares_of effects
shares_of-append [] more e = e
shares_of-append (Effect.store_share s ∷ effects) more e =
    ap (λ l. s ∷ l) (shares_of-append effects more e)
shares_of-append (Effect.refuse r ∷ effects) more e = shares_of-append effects more e
shares_of-append (Effect.accept ∷ effects) more e = shares_of-append effects more e
shares_of-append (Effect.submit_block blob b ∷ effects) more e = shares_of-append effects more e
shares_of-append (Effect.send_job ∷ effects) more e = shares_of-append effects more e
shares_of-append (Effect.crash ∷ effects) more e = shares_of-append effects more e

module _ (fp : Double) (config : Config fp.D) (crypto : Crypto) (upstream : Bool) (now : ℕ)
    (early : Client fp.D → Job) where
  -- A hash that stands behind a submission of a block: the pool has computed it from the block, or the
  -- configuration has turned that off and it is what the miner says.
  abbrev pub Computed : Request → BlockTemplate → List ℕ → List ℕ → Type 0
  Computed request bt block hash =
      ((config.disable_hash_check ≡ true)
        × (hex_to_bin (request.result_hex ++ 0 ∷ []) 32 ≡ some hash))
      ⊎ ((config.disable_hash_check ≡ false)
          × ((hashing_blob : List ℕ) × ((crypto.get_hashing_blob block ≡ some hashing_blob)
                × (hash ≡ pow_hash crypto bt block hashing_blob))))

  -- A share that a job, its template and a block account for: it has the height of the template and the
  -- target of the job, and it is the miner's; the hash of the block reaches the target in difficulty, or
  -- that of the template.
  pub record IsWorth (m : Miner fp.D) (request : Request) (job : Job) (bt : BlockTemplate)
      (block : List ℕ) (s : Share) : Type 0 where
    pub its_target : s.difficulty ≡ job.target
    pub its_height : s.height ≡ bt.height
    pub its_address : s.address ≡ m.client.address
    pub its_time : s.timestamp ≡ now
    pub hash : List ℕ
    pub enough : min job.target bt.difficulty ≤ hash_difficulty hash
    pub computed : Computed request bt block hash

  abbrev pub Stores :
      Miner fp.D → Request → Job → BlockTemplate → List ℕ → Miner fp.D × List Effect → Type 0
  Stores m request job bt block out = All (IsWorth m request job bt block) (shares_of out.1)

  post_hash-Stores :
      (request : Request) (job : Job) (bt : BlockTemplate) (block result_hash : List ℕ)
      (m : Miner fp.D)
      → Computed request bt block result_hash
      → Stores m request job bt block
          (post_hash fp config crypto upstream now early job bt block result_hash m)
  unfolding post_hash store count_hashes
  post_hash-Stores request job bt block result_hash m c =
      if_elim (Stores m request job bt block) (leb bt.difficulty (hash_difficulty result_hash)) _ _
        (λ mined. (worth (ground (arith, mined)), tt))
        (λ not_mined.
          if_elim (Stores m request job bt block) (ltb (hash_difficulty result_hash) job.target) _ _
            (λ low. tt) (λ enough. (worth (ground (arith, enough)), tt)))
    where
      worth :
          min job.target bt.difficulty ≤ hash_difficulty result_hash
          → IsWorth m request job bt block (record {
            height = bt.height;
            difficulty = job.target;
            address = m.client.address;
            timestamp = now;
          })
      worth h = record {
        its_target = refl;
        its_height = refl;
        its_address = refl;
        its_time = refl;
        hash = result_hash;
        enough = h;
        computed = c;
      }

  early_job-Stores :
      (m m' : Miner fp.D) (request : Request) (job job' : Job) (bt : BlockTemplate) (block : List ℕ)
      (effects : List Effect)
      → All (IsWorth m request job bt block) (shares_of effects)
      → Stores m request job bt block
          (early_job fp config crypto upstream now early job' (m', effects))
  unfolding early_job
  early_job-Stores m m' request job job' bt block effects h =
      if_elim (Stores m request job bt block) (retarget_required fp config now m'.client job') _ _
        (λ due.
          subst (All (IsWorth m request job bt block))
            (sym (shares_of-append effects (Effect.send_job ∷ []) refl)) h)
        (λ not_due. h)

  pub judge-Stores :
      (request : Request) (job : Job) (bt : BlockTemplate) (block : List ℕ) (m : Miner fp.D)
      → Stores m request job bt block
          (judge fp config crypto upstream now early request job bt block m)
  unfolding judge
  judge-Stores request job bt block m =
      let P = Stores m request job bt block in
      option_elim P (crypto.get_hashing_blob block) _ _ (λ invalid. tt)
        (λ blob e.
          option_elim P (hex_to_bin (request.result_hex ++ 0 ∷ []) 32) _ _ (λ short. tt)
            (λ submitted f.
              let hash =
                if config.disable_hash_check then submitted else pow_hash crypto bt block blob in
              let known : Computed request bt block hash =
                if_elim (Computed request bt block) config.disable_hash_check submitted
                  (pow_hash crypto bt block blob) (λ off. inl (off, f))
                  (λ on. inr (on, (blob, (e, refl)))) in
              if_elim P (not (same_bytes submitted hash)) _ _ (λ differ. tt)
                (λ same.
                  let out = post_hash fp config crypto upstream now early job bt block hash m in
                  early_job-Stores m out.0 request job job bt block out.1
                    (post_hash-Stores request job bt block hash m known))))
