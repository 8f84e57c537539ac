-- ===== src/Stratum/Template.antt =====
-- miner_on_block_template of src/pool.c: the template that a miner has selected for one of its jobs. An
-- `int64_t` is its word: a number that is taken modulo 2 ^ 64, and is negative from 2 ^ 63 on.
use salvium_pool.Prelude.{
  ℕ, ◌+◌, ◌-◌, ◌/◌, ◌%◌, ◌^◌, Bool, Option, none, some, List, [], ◌∷◌, ◌++◌, length, get_elem?, set,
  not, ◌==◌, ltb, leb, if◌then◌else◌,
}
use salvium_pool.Pool.Types.{Client, BlockTemplate, Job}
use salvium_pool.Util.Hex.{hex_to_bin}
use salvium_pool.Work.{mode_self_select, client_find_job, pow_variant}
use salvium_pool.Shared.{empty_template}
use salvium_pool.Stratum.{
  Field, Rejection, Xmr, get_or_error, params_name, id_name, job_id_name, blob_name,
  difficulty_name, height_name, prev_hash_name, seed_hash_name, wrong_mode, job_id_length,
  bad_height, low_difficulty, blob_invalid, no_such_job, has_template,
}

pub record TemplateMessage : Type 0 where
  pub params : Field Unit
  pub id : Field (List ℕ)
  pub job_id : Field (List ℕ)
  pub blob : Field (List ℕ)
  pub difficulty : Field ℕ
  pub height : Field ℕ
  pub prev_hash : Field ℕ
  pub seed_hash : Field ℕ
  pub next_seed_hash : Option ℕ

pub data TemplateReply : Type 0 where
  accepted : TemplateReply
  reject : Rejection → TemplateReply

-- TEMLATE_HEIGHT_VARIANCE
abbrev pub height_variance : ℕ
height_variance = 5

-- `a < b` on `int64_t`
abbrev pub signed_less : ℕ → ℕ → Bool
signed_less a b = ltb ((a + 2 ^ 63) % 2 ^ 64) ((b + 2 ^ 63) % 2 ^ 64)

-- `llabs(h - (int64_t)pool_stats.network_height)`; the least `int64_t` has no opposite and stays.
unfoldable pub height_delta : ℕ → ℕ → ℕ
height_delta h network_height =
    let difference = (h % 2 ^ 64 + (2 ^ 64 - network_height % 2 ^ 64)) % 2 ^ 64 in
    if ltb difference (2 ^ 63) then difference else 2 ^ 64 - difference

-- `dh > TEMLATE_HEIGHT_VARIANCE`
unfoldable pub is_far : ℕ → ℕ → Bool
is_far h network_height = signed_less height_variance (height_delta h network_height)

-- `d < (int64_t)pool_stats.network_difficulty`
unfoldable pub is_low : ℕ → ℕ → Bool
is_low d network_difficulty = signed_less d network_difficulty

-- the seeds of a template that is already set
unfoldable pub set_seeds : TemplateMessage → BlockTemplate → BlockTemplate × TemplateReply
set_seeds message t =
    let seeded =
      get_or_error seed_hash_name message.seed_hash (λ r. (t, reject r))
        (λ seed. (
          record t {
            seed_hash = seed;
            next_seed_hash = elim message.next_seed_hash [ none ↦ t.next_seed_hash | some n ↦ n ];
          },
          accepted,
        )) in
    if leb 3 (pow_variant t.block_blob) then seeded else (t, accepted)

-- the template that a message makes of a block
unfoldable pub selected : List ℕ → ℕ → ℕ → ℕ → BlockTemplate
selected block d h prev_hash = record empty_template {
  block_blob = block;
  difficulty = d % 2 ^ 64;
  height = h % 2 ^ 64;
  prev_hash = prev_hash;
}

-- INPLACE_TO_BIN: half as many bytes as the text has are made of it, so nothing past its end is read.
unfoldable pub in_place : List ℕ → List ℕ
in_place text = elim (hex_to_bin (text ++ 0 ∷ []) (length text / 2)) [
  | none ↦ []
  | some bytes ↦ bytes
]

-- From the search for the job on.
unfoldable pub set_template :
    TemplateMessage → List ℕ → List ℕ → ℕ → ℕ → ℕ → List Job → List Job × TemplateReply
set_template message jid blob d h prev_hash jobs = elim (client_find_job jobs jid) [
  | none ↦ (jobs, reject no_such_job)
  | some index ↦ elim (get_elem? jobs index) [
    | none ↦ (jobs, reject no_such_job)
    | some job ↦ elim job.miner_template [
      | some t ↦ (jobs, reject has_template)
      | none ↦
          let (t, reply) = set_seeds message (selected (in_place blob) d h prev_hash) in
          (set jobs index (record job { miner_template = some t }), reply)
    ]
  ]
]

module _ (xmr : Xmr) (network_height network_difficulty : ℕ) where
  -- The checks of the fields, in the order of the code.
  unfoldable pub check_template :
      TemplateMessage → List ℕ → List ℕ → ℕ → ℕ → ℕ → List Job → List Job × TemplateReply
  check_template message jid blob d h prev_hash jobs =
      if not (length jid == 32)
      then (jobs, reject job_id_length)
      else if is_far h network_height
      then (jobs, reject bad_height)
      else if is_low d network_difficulty
      then (jobs, reject low_difficulty)
      else if not (xmr.validate_block_from_blob blob == 0)
      then (jobs, reject blob_invalid)
      else set_template message jid blob d h prev_hash jobs

  unfoldable pub miner_on_block_template :
      {D : Type 0} → TemplateMessage → Client D → List Job → List Job × TemplateReply
  miner_on_block_template message client jobs =
      let refuse : Rejection → List Job × TemplateReply = λ r. (jobs, reject r) in
      if not (client.mode == mode_self_select)
      then (jobs, reject wrong_mode)
      else get_or_error params_name message.params refuse (λ p.
        get_or_error id_name message.id refuse (λ i.
          get_or_error job_id_name message.job_id refuse (λ jid.
            get_or_error blob_name message.blob refuse (λ blob.
              get_or_error difficulty_name message.difficulty refuse (λ d.
                get_or_error height_name message.height refuse (λ h.
                  get_or_error prev_hash_name message.prev_hash refuse
                    (λ prev_hash. check_template message jid blob d h prev_hash jobs)))))))
