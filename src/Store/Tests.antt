-- ===== src/Store/Tests.antt =====
-- Runs of the stores' model on a database in memory.
use salvium_pool.Prelude.{ℕ, ◌≡◌, refl, false, none, [], ◌∷◌, ◌++◌, ◌==◌, if◌then◌else◌, arith}
use salvium_pool.Pool.Types.{Share, Block}
use salvium_pool.Pool.Lmdb.{replace, update}
use salvium_pool.Pool.Memory.{Memory, memory_db, memory_db-IsReliable, memory_db-HasBlocks}
use salvium_pool.Balance.Credit.{held}
use salvium_pool.Store.{StoreDb, store_share, store_block, account_balance}
use salvium_pool.Store.Append.{
  HasAppends, store_share-appends, store_block-appends, account_balance-held,
}

abbrev stores : StoreDb memory_db
stores = record {
  share_append =
      λ h s t. (0, record t { shares = λ k. if k == h then t.shares h ++ s ∷ [] else t.shares k });
  block_append = λ h b t. (0, record t { blocks = replace t.blocks h (t.blocks h ++ b ∷ []) });
}

abbrev stores-HasAppends : HasAppends memory_db memory_db-IsReliable memory_db-HasBlocks stores
stores-HasAppends = record {
  share_ok = λ h s t old. (refl, λ k. refl, refl);
  block_ok = λ h b t old. (refl, refl);
}

abbrev share : Share
share = record { height = 7; difficulty = 40; address = 3; timestamp = 9 }

abbrev block : Block
block = record {
  height = 7;
  hash = 70;
  prev_hash = 69;
  difficulty = 100;
  status = 0;
  reward = 0;
  timestamp = 9;
}

abbrev memory : Memory
memory = record {
  balances = update (λ a. none) 3 55;
  shares = λ h. record { height = h; difficulty = 20; address = 4; timestamp = 9 } ∷ [];
  blocks = λ h. [];
  payments = λ a. [];
}

store_share-appends_example :
    ((store_share memory_db stores 7 share memory).0 ≡ 0)
    × ((k : ℕ)
        → (store_share memory_db stores 7 share memory).1.shares k
          ≡ (if k == 7 then memory.shares 7 ++ share ∷ [] else memory.shares k))
    × ((store_share memory_db stores 7 share memory).1.balances ≡ memory.balances)
store_share-appends_example =
    store_share-appends memory_db memory_db-IsReliable memory_db-HasBlocks stores stores-HasAppends
      7 share memory (omega arith, tt)

store_block-appends_run :
    ((store_block memory_db stores 7 block memory).0 ≡ 0)
    × ((store_block memory_db stores 7 block memory).1.blocks
        ≡ replace memory.blocks 7 (block ∷ []))
store_block-appends_run =
    store_block-appends memory_db memory_db-IsReliable memory_db-HasBlocks stores stores-HasAppends
      7 block memory tt

account_balance-held_run :
    account_balance memory_db false 3 memory ≡ (if false then 0 else held (memory.balances 3))
account_balance-held_run =
    account_balance-held memory_db memory_db-IsReliable memory_db-HasBlocks stores stores-HasAppends
      false 3 memory
