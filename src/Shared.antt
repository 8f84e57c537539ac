-- ===== src/Shared.antt =====
-- The block template that processes share in src/pool.c: shared_template_update, shared_template_is_newer and
-- shared_template_get_latest. The shared memory is none where it is not mapped, and `lock` is what
-- pthread_mutex_lock returns.
pub mod Latest
mod Tests
use salvium_pool.Prelude.{
  ℕ, ◌+◌, ◌%◌, ◌^◌, Bool, true, false, Option, none, some, [], not, ltb, ◌==◌, if◌then◌else◌,
}
use salvium_pool.Pool.Types.{BlockTemplate}

-- `shared_template_t`, without the lock and the size of the hashing blob
pub record SharedTemplate : Type 0 where
  pub template_version : ℕ
  pub height : ℕ
  pub difficulty : ℕ
  pub prev_hash : ℕ
  pub seed_hash : ℕ
  pub next_seed_hash : ℕ
  pub reserved_offset : ℕ
  pub tx_count : ℕ
  pub timestamp : ℕ

-- whether the call returns 0, and the shared memory after it
unfoldable pub shared_template_update :
    ℕ → ℕ → BlockTemplate → Option SharedTemplate → Bool × Option SharedTemplate
shared_template_update lock now new_template none = (false, none)
shared_template_update lock now new_template (some s) =
    let updated : SharedTemplate = record {
      template_version = (s.template_version + 1) % 2 ^ 64;
      height = new_template.height;
      difficulty = new_template.difficulty;
      prev_hash = new_template.prev_hash;
      seed_hash = new_template.seed_hash;
      next_seed_hash = new_template.next_seed_hash;
      reserved_offset = new_template.reserved_offset;
      tx_count = new_template.tx_count;
      timestamp = now;
    } in
    if lock == 0 then (true, some updated) else (false, some s)

unfoldable pub shared_template_is_newer : ℕ → Option SharedTemplate → Bool
shared_template_is_newer local_version none = false
shared_template_is_newer local_version (some s) = ltb local_version s.template_version

-- `block_template_t shared_temp = {0}`
abbrev pub empty_template : BlockTemplate
empty_template = record {
  hashing_blob = [];
  block_blob = [];
  difficulty = 0;
  height = 0;
  prev_hash = 0;
  reserved_offset = 0;
  seed_hash = 0;
  next_seed_hash = 0;
  tx_count = 0;
}

-- The template as it was, or with what is shared, and the version that the process has then; none where
-- the call returns -1.
unfoldable pub shared_template_get_latest :
    ℕ → BlockTemplate → Option SharedTemplate → Option (BlockTemplate × ℕ)
shared_template_get_latest lock local_template none = none
shared_template_get_latest lock local_template (some s) =
    let copied = record local_template {
      height = s.height;
      difficulty = s.difficulty;
      reserved_offset = s.reserved_offset;
      tx_count = s.tx_count;
      seed_hash = s.seed_hash;
      next_seed_hash = s.next_seed_hash;
      prev_hash = s.prev_hash;
    } in
    if lock == 0 then some (copied, s.template_version) else none
