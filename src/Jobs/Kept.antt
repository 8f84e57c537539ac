-- ===== src/Jobs/Kept.antt =====
-- The jobs of one client in src/pool.c and the templates that they were made of, when a job is pushed, with or
-- without a new template before it.
use salvium_pool.Prelude.{
  ℕ, zero, suc, ◌+◌, ◌-◌, ◌<◌, ◌≤◌, ◌≡◌, ◌∙◌, refl, ap, Bool, true, false, Option, none, some, List,
  [], ◌∷◌, take, get_elem?, ◌==◌, ltb, if◌then◌else◌, arith, inl, inr, Bool-cases, Option-cases,
  some-injective, subst, if_elim,
}
use salvium_pool.Pool.Types.{Config, BlockTemplate}
use salvium_pool.Pool.Double.{Double}
use salvium_pool.Difficulty.{retarget}
use salvium_pool.Work.{Crypto, mode_self_select}
use salvium_pool.Shared.{
  SharedTemplate, shared_template_is_newer, empty_template, shared_template_get_latest,
}
use salvium_pool.Jobs.{
  Held, Worker, Mint, top, is_higher, take_shared, hold, new_job, select_job, miner_send_job, Sent,
}

-- The template with a number is on the stack, at most `i` places below the newest one, and it is the one
-- that the job was made of.
abbrev pub PointsAt : ℕ → List BlockTemplate → ℕ → Option ℕ → Option BlockTemplate → Type 0
PointsAt pushed templates i none made_of = made_of ≡ none
PointsAt pushed templates i (some k) made_of =
    (k < pushed) × (pushed ≤ k + i + 1) × (get_elem? templates (pushed - suc k) ≡ made_of)

-- jobs, of which the first has `i` newer ones before it
abbrev pub Kept : ℕ → List BlockTemplate → ℕ → List Held → Type 0
Kept pushed templates i [] = Unit
Kept pushed templates i (h ∷ jobs) =
    PointsAt pushed templates i h.template h.job.block_template × Kept pushed templates (suc i) jobs

get_elem-take :
    {A : Type 0} (n j : ℕ) (xs : List A) → j < n → get_elem? (take n xs) j ≡ get_elem? xs j
get_elem-take zero j xs h = absurd (omega arith)
get_elem-take (suc n) j [] h = refl
get_elem-take (suc n) zero (x ∷ xs) h = refl
get_elem-take (suc n) (suc j) (x ∷ xs) h = get_elem-take n j xs (omega arith)

older :
    (pushed : ℕ) (templates : List BlockTemplate) (i : ℕ) (template : Option ℕ)
    (made_of : Option BlockTemplate)
    → PointsAt pushed templates i template made_of
    → PointsAt pushed templates (suc i) template made_of
older pushed templates i none made_of h = h
older pushed templates i (some k) made_of (below, near, it) = (below, omega arith, it)

-- A new job without a new template: the others move down by one place, and the last one goes.
pub Kept-take :
    (pushed : ℕ) (templates : List BlockTemplate) (n i : ℕ) (jobs : List Held)
    → Kept pushed templates i jobs
    → Kept pushed templates (suc i) (take n jobs)
Kept-take pushed templates zero i jobs hs = tt
Kept-take pushed templates (suc n) i [] hs = tt
Kept-take pushed templates (suc n) i (job ∷ jobs) (h, hs) = (
  older pushed templates i job.template job.job.block_template h,
  Kept-take pushed templates n (suc i) jobs hs,
)

deeper :
    (pushed : ℕ) (t : BlockTemplate) (templates : List BlockTemplate) (i : ℕ) (template : Option ℕ)
    (made_of : Option BlockTemplate)
    → i < 3
    → PointsAt pushed templates i template made_of
    → PointsAt (pushed + 1) (take 4 (t ∷ templates)) (suc i) template made_of
deeper pushed t templates i none made_of less h = h
deeper pushed t templates i (some k) made_of less (below, near, it) =
    let place : pushed + 1 - suc k ≡ suc (pushed - suc k) = omega arith in
    (
      omega arith,
      omega arith,
      ap (get_elem? (take 4 (t ∷ templates))) place
          ∙ get_elem-take 3 (pushed - suc k) templates (omega arith)
          ∙ it,
    )

-- A new job after a new template: the place that the template takes is the one that the job left.
pub Kept-push :
    (pushed : ℕ) (t : BlockTemplate) (templates : List BlockTemplate) (n i : ℕ) (jobs : List Held)
    → n + i ≤ 3
    → Kept pushed templates i jobs
    → Kept (pushed + 1) (take 4 (t ∷ templates)) (suc i) (take n jobs)
Kept-push pushed t templates zero i jobs less hs = tt
Kept-push pushed t templates (suc n) i [] less hs = tt
Kept-push pushed t templates (suc n) i (job ∷ jobs) less (h, hs) = (
  deeper pushed t templates i job.template job.job.block_template (omega arith) h,
  Kept-push pushed t templates n (suc i) jobs (omega arith) hs,
)

-- Nothing is pushed that is not on the stack, and what is shared and not known yet is no higher than the
-- newest template: a process that is alone has shared nothing but its own templates.
abbrev pub NotHigher : ℕ → List BlockTemplate → Type 0
NotHigher height [] = ⊥
NotHigher height (newest ∷ templates) = height ≤ newest.height

abbrev pub Alone : ℕ → Option SharedTemplate → List BlockTemplate → Type 0
Alone version none templates = Unit
Alone version (some s) templates =
    ltb version s.template_version ≡ true → NotHigher s.height templates

pub record IsSettled (m : Mint) : Type 0 where
  pub empty : m.pushed ≡ 0 → m.templates ≡ []
  pub alone : Alone m.local_version m.shared m.templates

-- what a job leaves of the templates, and of what is shared
pub record IsSame (m m' : Mint) : Type 0 where
  pub same_templates : m'.templates ≡ m.templates
  pub same_pushed : m'.pushed ≡ m.pushed
  pub settled : IsSettled m'

not_higher :
    (t : BlockTemplate) (templates : List BlockTemplate)
    → NotHigher t.height templates
    → is_higher t templates ≡ false
unfolding is_higher
not_higher t [] h = absurd h
not_higher t (newest ∷ templates) h = ground arith

-- What is read from the shared memory is no higher either, and is known after that.
latest_known :
    (lock local_version version : ℕ) (temp : BlockTemplate) (shared : Option SharedTemplate)
    (templates : List BlockTemplate)
    → shared_template_get_latest lock empty_template shared ≡ some (temp, version)
    → shared_template_is_newer local_version shared ≡ true
    → Alone local_version shared templates
    → NotHigher temp.height templates × Alone version shared templates
unfolding shared_template_get_latest shared_template_is_newer
latest_known lock local_version version temp none templates e newer alone =
    absurd (ground (arith, e))
latest_known lock local_version version temp (some s) templates e newer alone =
    elim (Bool-cases (lock == 0)) [
      | inr failed ↦ absurd (ground (arith, failed, e))
      | inl locked ↦
          let read = some-injective _ _ (rw locked at e) in
          let height : s.height ≡ temp.height = ap (λ p. p.0.height) read in
          let known : s.template_version ≡ version = ap (λ p. p.1) read in
          (
            subst (λ h. NotHigher h templates) height (alone newer),
            λ later. absurd (ground (arith, known, later)),
          )
    ]

pub take_shared-IsSame : (lock : ℕ) (m : Mint) → IsSettled m → IsSame m (take_shared lock m)
unfolding take_shared
take_shared-IsSame lock m ok =
    let unchanged : IsSame m m = record {
      same_templates = refl;
      same_pushed = refl;
      settled = ok;
    } in
    elim (Bool-cases (shared_template_is_newer m.local_version m.shared)) [
      | inr old ↦ rw (take_shared, old) unchanged
      | inl newer ↦ elim (Option-cases (shared_template_get_latest lock empty_template m.shared)) [
        | inl failed ↦ rw (take_shared, newer, failed) unchanged
        | inr ((temp, version), read) ↦
            let known =
              latest_known lock m.local_version version temp m.shared m.templates read newer
                ok.alone in
            rw (take_shared, newer, read, not_higher temp m.templates known.0)
              (record {
                same_templates = refl;
                same_pushed = refl;
                settled = record { empty = ok.empty; alone = known.1 };
              })
      ]
    ]

-- The number that a new job is given is that of the newest template.
newest_at :
    (m : Mint)
    → IsSettled m
    → PointsAt m.pushed m.templates 0
        (if m.pushed == 0 then none else some (m.pushed - 1))
        (top m.templates)
newest_at m ok =
    if_elim (λ template. PointsAt m.pushed m.templates 0 template (top m.templates)) (m.pushed == 0)
      none (some (m.pushed - 1)) (λ c. ap top (ok.empty (ground (arith, c))))
      (λ c.
        let first : m.pushed - suc (m.pushed - 1) ≡ 0 = omega arith in
        (ground (arith, c), omega arith, ap (get_elem? m.templates) first ∙ at_top m.templates))
  where
    at_top : (templates : List BlockTemplate) → get_elem? templates 0 ≡ top templates
    at_top [] = refl
    at_top (t ∷ templates) = refl

module _ (fp : Double) (config : Config fp.D) (crypto : Crypto) (instance_id lock now : ℕ) where
  open fp use {D}

  abbrev send : Bool → List ℕ → Worker D → Mint → Worker D × Mint × List Sent
  send = miner_send_job fp config crypto instance_id lock now

  -- The client, to which the newest template has made a job, has jobs that point to the templates that
  -- they were made of, if this was so of those that it keeps.
  pub miner_send_job-Kept :
      (response : Bool) (uuid : List ℕ) (w : Worker D) (m : Mint)
      → IsSettled m
      → Kept m.pushed m.templates 1 (take 3 w.jobs)
      → (let after = send response uuid w m in
          Kept m.pushed m.templates 0 after.0.jobs × IsSame m after.1 × (after.0.client ≡ w.client))
  unfolding miner_send_job hold new_job select_job retarget
  miner_send_job-Kept response uuid w m ok hs =
      let taken = take_shared-IsSame lock m ok in
      let newest = newest_at m ok in
      let made_of : Option BlockTemplate → Type 0 = λ bt.
        PointsAt m.pushed m.templates 0 (if m.pushed == 0 then none else some (m.pushed - 1)) bt in
      let numbered : (n : ℕ) → IsSame m (record (take_shared lock m) { extra_nonce = n }) = λ n.
        record {
          same_templates = taken.same_templates;
          same_pushed = taken.same_pushed;
          settled = record { empty = taken.settled.empty; alone = taken.settled.alone };
        } in
      elim (Bool-cases (w.client.mode == mode_self_select)) [
        | inl selects ↦ rw (miner_send_job, selects) ((newest, hs), numbered _, refl)
        | inr normal ↦ elim (Option-cases (top m.templates)) [
          | inl no_top ↦ rw (miner_send_job, normal, no_top) ((refl, hs), taken, refl)
          | inr (t, its) ↦
              rw (miner_send_job, normal, its) ((subst made_of its newest, hs), numbered _, refl)
        ]
      ]
