-- ===== src/Shares/Tests.antt =====
-- Runs of the sums over shares on a database in memory.
use salvium_pool.Prelude.{
  ℕ, ◌-◌, ◌*◌, ◌%◌, ◌^◌, ◌≡◌, refl, ap, none, some, List, [], ◌∷◌, ◌==◌, arith, false,
}
use salvium_pool.Pool.Types.{Share}
use salvium_pool.Pool.Memory.{Memory, memory_db, memory_db-IsReliable}
use salvium_pool.Shares.{ShareDb, ScanOp, pool_pplns_shares, account_pplns_shares, any_share}
use salvium_pool.Shares.Sums.{
  HasScans, IsReading, to_read, difficulties, recent, pool_pplns_shares-account_pplns_shares,
}

abbrev share_of : ℕ → ℕ → ℕ → Share
share_of difficulty address timestamp = record {
  height = 0;
  difficulty = difficulty;
  address = address;
  timestamp = timestamp;
}

abbrev memory : Memory
memory = record {
  balances = λ a. none;
  shares = λ h. share_of 50 4 200000 ∷ share_of 30 3 199000 ∷ share_of 20 3 100000 ∷ [];
  blocks = λ h. [];
  payments = λ a. [];
}

-- The shares at height 0, with the newest first, are all that is read.
abbrev read : List Share → ℕ × Share × List Share
read [] = (1, share_of 0 0 0, [])
read (x ∷ l) = (0, x, l)

abbrev scan_get : ScanOp → Memory → List Share → ℕ × Share × List Share
scan_get ScanOp.first m s = read (m.shares 0)
scan_get ScanOp.next m s = read s
scan_get ScanOp.last m s = read (m.shares 0)
scan_get ScanOp.prev m s = read s

abbrev tables : ShareDb memory_db
tables = record { Scan = List Share; scan_open = λ m. (0, []); scan_get = scan_get }

abbrev tables-HasScans : HasScans memory_db memory_db-IsReliable tables
tables-HasScans = record {
  newest = λ m. m.shares 0;
  oldest = λ m. m.shares 0;
  unread = λ s. s;
  scan_ok = λ m. refl;
  child_newest = λ m. refl;
  child_oldest = λ m. refl;
}

get_none :
    (op : ScanOp) (m : Memory) (s : List Share)
    → to_read memory_db memory_db-IsReliable tables tables-HasScans op m s ≡ []
    → (scan_get op m s).0 ≡ 1
get_none ScanOp.first m s e = ap (λ l. (read l).0) e
get_none ScanOp.next m s e = ap (λ l. (read l).0) e
get_none ScanOp.last m s e = ap (λ l. (read l).0) e
get_none ScanOp.prev m s e = ap (λ l. (read l).0) e

read_cons :
    (k l : List Share) (x : Share)
    → k ≡ x ∷ l
    → ((read k).0 ≡ 0) × ((read k).1 ≡ x) × ((read k).2 ≡ l)
read_cons k l x e = (ap (λ o. (read o).0) e, ap (λ o. (read o).1) e, ap (λ o. (read o).2) e)

get_some :
    (op : ScanOp) (m : Memory) (s : List Share) (x : Share) (l : List Share)
    → to_read memory_db memory_db-IsReliable tables tables-HasScans op m s ≡ x ∷ l
    → ((scan_get op m s).0 ≡ 0) × ((scan_get op m s).1 ≡ x) × ((scan_get op m s).2 ≡ l)
get_some ScanOp.first m s x l e = read_cons (m.shares 0) l x e
get_some ScanOp.next m s x l e = read_cons s l x e
get_some ScanOp.last m s x l e = read_cons (m.shares 0) l x e
get_some ScanOp.prev m s x l e = read_cons s l x e

reading : IsReading memory_db memory_db-IsReliable tables tables-HasScans
reading = record { read_none = get_none; read_some = get_some }

pool_pplns_shares-account_pplns_shares_run :
    (pool_pplns_shares memory_db tables 4 200100 memory
      ≡ some (difficulties any_share (recent (200100 - 24 * 3600) (memory.shares 0)) % 2 ^ 64))
    × (account_pplns_shares memory_db tables 4 200100 false 3 memory
        ≡ some (
            difficulties (λ s. s.address == 3) (recent (200100 - 24 * 3600) (memory.shares 0))
            % 2 ^ 64))
pool_pplns_shares-account_pplns_shares_run =
    pool_pplns_shares-account_pplns_shares memory_db memory_db-IsReliable tables tables-HasScans
      reading 4 200100 3 memory (omega arith)

-- The share of a day and a night ago is left out.
sums : difficulties any_share (recent (200100 - 24 * 3600) (memory.shares 0)) ≡ 80
sums = refl
