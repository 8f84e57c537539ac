-- ===== src/Shared/Tests.antt =====
-- A run of the shared template's model.
use salvium_pool.Prelude.{◌≡◌, true, false, some, arith}
use salvium_pool.Pool.Types.{BlockTemplate}
use salvium_pool.Shared.{
  SharedTemplate, shared_template_update, shared_template_is_newer, empty_template,
  shared_template_get_latest,
}
use salvium_pool.Shared.Latest.{shared_template_get_latest-shared_template_update}

abbrev template : BlockTemplate
template = record empty_template {
  height = 8;
  difficulty = 1100;
  reserved_offset = 44;
  tx_count = 2;
}

abbrev shared : SharedTemplate
shared = record {
  template_version = 3;
  height = 7;
  difficulty = 1000;
  prev_hash = 1;
  seed_hash = 2;
  next_seed_hash = 0;
  reserved_offset = 44;
  tx_count = 0;
  timestamp = 900;
}

shared_template_get_latest-shared_template_update_example :
    (shared_template_is_newer 3 (shared_template_update 0 1000 template (some shared)).1 ≡ true)
    × (shared_template_get_latest 0 empty_template
          (shared_template_update 0 1000 template (some shared)).1
        ≡ some (template, 4))
    × (shared_template_is_newer 4 (shared_template_update 0 1000 template (some shared)).1 ≡ false)
shared_template_get_latest-shared_template_update_example =
    shared_template_get_latest-shared_template_update 1000 3 template shared (omega arith)
      (omega arith)
