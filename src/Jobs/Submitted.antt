-- ===== src/Jobs/Submitted.antt =====
-- What a miner is sent and what its submission is judged by, in src/pool.c: the job that is sent, the job that a
-- submission names, and the block that is rebuilt from it.
use salvium_pool.Pool.Double.{Double}
