-- ===== src/Culling/Tests.antt =====
-- Runs of the model of culling.
use salvium_pool.Prelude.{ℕ, ◌≡◌, refl, ap, none, some, List, [], ◌∷◌, arith, map}
use mathlib.Core.Option
use salvium_pool.Pool.Types.{Share}
use salvium_pool.Pool.Lmdb.{pdb_txn_begin}
use salvium_pool.Pool.Memory.{Memory, memory_db, memory_db-IsReliable}
use salvium_pool.Payments.{TableOp}
use salvium_pool.Culling.{cut_of, CullDb, cull_loop, finish_cull, cull}
use salvium_pool.Culling.Oldest.{HasSweep, IsCulled, cull-IsCulled}

-- All the shares of the memory have one height, and a sweep is the shares that it has not read.
abbrev read : List Share → ℕ × Share × List Share
read [] = (1, record { height = 0; difficulty = 0; address = 0; timestamp = 0 }, [])
read (x ∷ l) = (0, x, l)

abbrev sweep_get : TableOp → Memory → List Share → ℕ × Share × List Share
sweep_get TableOp.first t s = read (t.shares 0)
sweep_get TableOp.next t s = read s

abbrev table : CullDb memory_db
table = record {
  Sweep = List Share;
  sweep_open = λ t. (0, []);
  sweep_get = sweep_get;
  sweep_delete = λ t s. (0, record t { shares = λ h. s }, s);
}

abbrev table-HasSweep : HasSweep memory_db memory_db-IsReliable table
table-HasSweep = record {
  shares = λ t. t.shares 0;
  unread = λ s. s;
  open_ok = λ t. refl;
  child_shares = λ t. refl;
  commit_shares = λ c t. refl;
  first_none = λ t s e. ap (λ l. (read l).0) e;
  first_some =
      λ t s x l e. (ap (λ k. (read k).0) e, ap (λ k. (read k).1) e, ap (λ k. (read k).2) e);
  next_none = λ t s e. ap (λ l. (read l).0) e;
  next_some = λ t s x l e. (ap (λ k. (read k).0) e, ap (λ k. (read k).1) e, ap (λ k. (read k).2) e);
  delete_ok = λ t s. refl;
  delete_first = λ t s x e. (refl, refl);
  delete_balance = λ t s. refl;
}

abbrev at_time : ℕ → Share
at_time t = record { height = 7; difficulty = 5; address = 3; timestamp = t }

-- Three shares, the first of them older than a day at 100000.
abbrev memory : Memory
memory = record {
  balances = λ a. none;
  shares = λ h. at_time 9000 ∷ at_time 20000 ∷ at_time 10 ∷ [];
  blocks = λ h. [];
  payments = λ a. [];
}

cull-IsCulled_example :
    (after : Memory) × (cull memory_db table 4 1 100000 memory ≡ some after)
    × IsCulled memory_db table memory_db-IsReliable table-HasSweep 13600 memory after
cull-IsCulled_example =
    cull-IsCulled memory_db table memory_db-IsReliable table-HasSweep 4 1 100000 memory
      (omega arith) (omega arith) (omega arith)

-- The last share is old too, and stays behind one that is not.
kept_behind :
    Option.map (λ t. map (λ s. s.timestamp) (t.shares 0)) (cull memory_db table 4 1 100000 memory)
    ≡ some (20000 ∷ 10 ∷ [])
unfolding cut_of cull cull_loop finish_cull pdb_txn_begin
kept_behind = refl

switched_off : cull memory_db table 0 0 100000 memory ≡ some memory
unfolding cull
switched_off = refl
