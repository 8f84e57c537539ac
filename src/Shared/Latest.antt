-- ===== src/Shared/Latest.antt =====
-- One process of src/pool.c shares a block template and another one takes it.
use salvium_pool.Prelude.{ℕ, ◌+◌, ◌%◌, ◌^◌, ◌<◌, ◌≡◌, refl, true, false, some, [], arith}
use salvium_pool.Pool.Types.{BlockTemplate}
use salvium_pool.Shared.{
  SharedTemplate, shared_template_update, shared_template_is_newer, empty_template,
  shared_template_get_latest,
}

-- What one process shares under the lock is newer to another process that has the version before or an
-- older one. That process then takes the whole template except for the blobs, and nothing is newer to
-- it until the next update.
pub shared_template_get_latest-shared_template_update :
    (now local_version : ℕ) (new_template : BlockTemplate) (s : SharedTemplate)
    → local_version < s.template_version + 1
    → s.template_version + 1 < 2 ^ 64
    → (let shared = (shared_template_update 0 now new_template (some s)).1 in
        (shared_template_is_newer local_version shared ≡ true)
        × (shared_template_get_latest 0 empty_template shared
            ≡ some (
              record new_template { hashing_blob = []; block_blob = [] },
              s.template_version + 1,
            ))
        × (shared_template_is_newer (s.template_version + 1) shared ≡ false))
unfolding shared_template_update shared_template_is_newer shared_template_get_latest
shared_template_get_latest-shared_template_update now local_version new_template s older fits =
    let count : (s.template_version + 1) % 2 ^ 64 ≡ s.template_version + 1 = omega arith in
    (ground (arith, count), rw count refl, ground (arith, count))
