-- ===== src/Balance/Tests.antt =====
-- A run of balance_add's model on a database in memory.
use salvium_pool.Prelude.{◌≡◌, refl, none, some, [], arith}
use salvium_pool.Pool.Lmdb.{pdb_txn_begin, update}
use salvium_pool.Pool.Memory.{Memory, memory_db, memory_db-IsReliable}
use salvium_pool.Balance.{balance_add}
use salvium_pool.Balance.Credit.{Credits, balance_add-Credits}

abbrev memory : Memory
memory = record {
  balances = update (λ a. none) 3 5;
  shares = λ h. [];
  blocks = λ h. [];
  payments = λ a. [];
}

adds_to_entry : (balance_add memory_db 3 7 memory).1.balances 3 ≡ some 12
unfolding balance_add pdb_txn_begin
adds_to_entry = refl

new_entry : (balance_add memory_db 4 7 memory).1.balances 4 ≡ some 7
unfolding balance_add pdb_txn_begin
new_entry = refl

balance_add-Credits_example :
    Credits memory_db memory_db-IsReliable memory 3 7 (balance_add memory_db 3 7 memory)
balance_add-Credits_example =
    balance_add-Credits memory_db memory_db-IsReliable 3 7 memory (omega arith)
