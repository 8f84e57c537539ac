-- ===== src/Stratum/Chosen.antt =====
-- What a miner's own template can be, in src/pool.c, and that it stays.
use salvium_pool.Prelude.{
  ◌^◌, ◌%◌, ◌-◌, if◌then◌else◌, ℕ, zero, suc, ◌≡◌, ◌≤◌, ◌<◌, ◌⊎◌, ◌+◌, refl, sym, inl, inr, false,
  none, some, some-injective, List, [], ◌∷◌, length, get_elem?, set, not, ◌==◌, ltb, leb, if_elim,
  option_elim, Bool-cases, Option-cases, arith, subst,
}
use salvium_pool.Pool.Types.{Client, BlockTemplate, Job}
use salvium_pool.Work.{mode_self_select, client_find_job, pow_variant}
use salvium_pool.Stratum.{Xmr}
use salvium_pool.Stratum.Login.{get_or_error_elim}
use salvium_pool.Stratum.Template.{
  TemplateMessage, TemplateReply, height_delta, is_low, is_far, set_seeds, selected, in_place,
  signed_less, set_template, check_template, miner_on_block_template, height_variance,
}

module _ (network_height network_difficulty : ℕ) where
  -- A height within the variance of the network's, or the one height whose difference from it is the least
  -- `int64_t`, which has no absolute value.
  abbrev pub IsNearHeight : ℕ → Type 0
  IsNearHeight height =
      ((network_height ≤ height + height_variance) × (height ≤ network_height + height_variance))
      ⊎ (height ≡ network_height + 2 ^ 63)

  -- A template of at least the network's difficulty and near its height.
  pub record IsNear (t : BlockTemplate) : Type 0 where
    pub not_low : network_difficulty ≤ t.difficulty
    pub near_height : IsNearHeight t.height

  -- A job stays as it is, or it had no template of its own and gets one that is near.
  abbrev pub IsChosen : Job → Job → Type 0
  IsChosen before after =
      (after ≡ before)
      ⊎ ((before.miner_template ≡ none)
          × ((t : BlockTemplate) × (after ≡ record before { miner_template = some t }) × IsNear t))

  abbrev pub AllChosen : List Job → List Job → Type 0
  AllChosen [] [] = Unit
  AllChosen [] (b ∷ after) = ⊥
  AllChosen (a ∷ before) [] = ⊥
  AllChosen (a ∷ before) (b ∷ after) = IsChosen a b × AllChosen before after

  all_same : (jobs : List Job) → AllChosen jobs jobs
  all_same [] = tt
  all_same (job ∷ jobs) = (inl refl, all_same jobs)

  all_set :
      (jobs : List Job) (index : ℕ) (job new : Job)
      → get_elem? jobs index ≡ some job
      → IsChosen job new
      → AllChosen jobs (set jobs index new)
  all_set [] index job new e h = tt
  all_set (x ∷ jobs) zero job new e h =
      (subst (λ j. IsChosen j new) (sym (some-injective _ _ e)) h, all_same jobs)
  all_set (x ∷ jobs) (suc index) job new e h = (inl refl, all_set jobs index job new e h)

  seeds-IsNear :
      (message : TemplateMessage) (t : BlockTemplate) → IsNear t → IsNear (set_seeds message t).0
  unfolding set_seeds
  seeds-IsNear message t near =
      if_elim (λ (r : BlockTemplate × TemplateReply). IsNear r.0) (leb 3 (pow_variant t.block_blob))
        _ _
        (λ c.
          get_or_error_elim (λ (r : BlockTemplate × TemplateReply). IsNear r.0) _ message.seed_hash
            _ _ (λ r. near)
            (λ seed e. record { not_low = near.not_low; near_height = near.near_height }))
        (λ c. near)

  near_enough :
      (height : ℕ)
      → height < 2 ^ 64
      → height_variance < network_height
      → network_height + height_variance < 2 ^ 63
      → (let difference = (height + (2 ^ 64 - network_height % 2 ^ 64)) % 2 ^ 64 in
          signed_less height_variance
            (if ltb difference (2 ^ 63) then difference else 2 ^ 64 - difference)
          ≡ false)
      → IsNearHeight height
  near_enough height word grown small near =
      let difference = (height + (2 ^ 64 - network_height % 2 ^ 64)) % 2 ^ 64 in
      elim (Bool-cases (ltb difference (2 ^ 63))) [
        | inl up ↦
            let few = rw up at near in
            let close : difference ≤ 5 = ground (arith, few, up) in
            inl (omega (arith, close), omega (arith, close))
        | inr down ↦
            let few = rw down at near in
            let close : (2 ^ 64 - difference ≤ 5) ⊎ (difference ≡ 2 ^ 63) =
              ground (arith, few, down) in
            elim close [
              | inl c ↦ inl (ground (arith, c, down), ground (arith, c, down))
              | inr c ↦ inr (omega (arith, c))
            ]
      ]

  IsNear-selected :
      (block : List ℕ) (d h : ℕ) (prev_hash : ℕ)
      → height_variance < network_height
      → network_height + height_variance < 2 ^ 63
      → network_difficulty < 2 ^ 63
      → is_far h network_height ≡ false
      → is_low d network_difficulty ≡ false
      → IsNear (selected block d h prev_hash)
  unfolding selected height_delta is_far is_low
  IsNear-selected block d h prev_hash grown small fits near high = record {
    not_low = ground (arith, high);
    near_height = near_enough (h % 2 ^ 64) (omega arith) grown small near;
  }

  abbrev Result : List Job → List Job × TemplateReply → Type 0
  Result jobs r = AllChosen jobs r.0

  set_template-AllChosen :
      (message : TemplateMessage) (jid blob : List ℕ) (d h : ℕ) (prev_hash : ℕ) (jobs : List Job)
      → ((block : List ℕ) → IsNear (selected block d h prev_hash))
      → Result jobs (set_template message jid blob d h prev_hash jobs)
  unfolding set_template
  set_template-AllChosen message jid blob d h prev_hash jobs near =
      option_elim (Result jobs) (client_find_job jobs jid) _ _ (λ e. all_same jobs)
        (λ index e.
          option_elim (Result jobs) (get_elem? jobs index) _ _ (λ f. all_same jobs)
            (λ job f. elim (Option-cases job.miner_template) [
              | inr (t, g) ↦ rw g (all_same jobs)
              | inl g ↦ rw g (
                  all_set jobs index job _ f (
                    inr (
                      g,
                      (
                        (set_seeds message (selected (in_place blob) d h prev_hash)).0,
                        refl,
                        seeds-IsNear message (selected (in_place blob) d h prev_hash)
                            (near (in_place blob)),
                      ),
                    )))
            ]))

module _ (xmr : Xmr) (network_height network_difficulty : ℕ) where
  check_template-AllChosen :
      (message : TemplateMessage) (jid blob : List ℕ) (d h : ℕ) (prev_hash : ℕ) (jobs : List Job)
      → height_variance < network_height
      → network_height + height_variance < 2 ^ 63
      → network_difficulty < 2 ^ 63
      → Result network_height network_difficulty jobs
          (check_template xmr network_height network_difficulty message jid blob d h prev_hash jobs)
  unfolding check_template
  check_template-AllChosen message jid blob d h prev_hash jobs grown small fits =
      let P = Result network_height network_difficulty jobs in
      let same = all_same network_height network_difficulty jobs in
      if_elim P (not (length jid == 32)) _ _ (λ c. same)
        (λ c.
          if_elim P (is_far h network_height) _ _ (λ e. same)
            (λ near.
              if_elim P (is_low d network_difficulty) _ _ (λ e. same)
                (λ high.
                  if_elim P (not (xmr.validate_block_from_blob blob == 0)) _ _ (λ e. same)
                    (λ valid.
                      set_template-AllChosen network_height network_difficulty message jid blob d h
                        prev_hash jobs
                        (λ block.
                          IsNear-selected network_height network_difficulty block d h prev_hash
                            grown small fits near high)))))

  -- Whatever a miner sends as a template, once the chain is past the height variance, and while its height
  -- with the variance and its difficulty are below 2 ^ 63: a job that has a template of its own keeps it, and a job that
  -- gets one gets one of at least the network's difficulty, and within the variance of its height or exactly
  -- 2 ^ 63 above it, where the absolute value of the difference overflows. Nothing else of any job changes.
  pub miner_on_block_template-AllChosen :
      {D : Type 0} (message : TemplateMessage) (client : Client D) (jobs : List Job)
      → height_variance < network_height
      → network_height + height_variance < 2 ^ 63
      → network_difficulty < 2 ^ 63
      → AllChosen network_height network_difficulty jobs
          (miner_on_block_template xmr network_height network_difficulty message client jobs).0
  unfolding miner_on_block_template
  miner_on_block_template-AllChosen message client jobs grown small fits =
      let P = Result network_height network_difficulty jobs in
      let same = all_same network_height network_difficulty jobs in
      if_elim P (not (client.mode == mode_self_select)) _ _ (λ c. same)
        (λ c.
          get_or_error_elim P _ message.params _ _ (λ r. same)
            (λ p e.
              get_or_error_elim P _ message.id _ _ (λ r. same)
                (λ i e.
                  get_or_error_elim P _ message.job_id _ _ (λ r. same)
                    (λ jid e.
                      get_or_error_elim P _ message.blob _ _ (λ r. same)
                        (λ blob e.
                          get_or_error_elim P _ message.difficulty _ _ (λ r. same)
                            (λ d e.
                              get_or_error_elim P _ message.height _ _ (λ r. same)
                                (λ h e.
                                  get_or_error_elim P _ message.prev_hash _ _ (λ r. same)
                                    (λ prev_hash e.
                                      check_template-AllChosen message jid blob d h prev_hash jobs
                                        grown small fits))))))))
