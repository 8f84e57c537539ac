-- ===== src/Payments/Tests.antt =====
-- Runs of the payments' model on a database in memory.
use salvium_pool.Prelude.{
  ℕ, ◌+◌, ◌-◌, ◌≡◌, refl, ap, false, Option, none, some, List, [], ◌∷◌, ◌++◌, ◌==◌, ltb,
  if◌then◌else◌, arith,
}
use salvium_pool.Pool.Types.{Address, Config, Payment}
use salvium_pool.Pool.Rational.{rational}
use salvium_pool.Pool.Lmdb.{update, pdb_txn_begin}
use salvium_pool.Pool.Memory.{Memory, memory_db, memory_db-IsReliable}
use salvium_pool.Balance.Credit.{held}
use salvium_pool.Payments.{
  PaymentDb, TableOp, threshold_of, collect, send_payments, deduct, deduct_loop, store_loop,
  store_payments, rpc_on_wallet_transferred,
}
use salvium_pool.Payments.Collect.{HasPayments, Entries, due, send_payments-due}
use salvium_pool.Payments.Deduct.{paid_to}
use salvium_pool.Payments.Transferred.{stamped, rpc_on_wallet_transferred-pays}
use salvium_pool.Payments.Cycle.{send_payments-rpc_on_wallet_transferred}

-- The table of balances is read at the addresses 3, 4 and 5.
abbrev entry : Address → Option ℕ → Entries → Entries
entry a none l = l
entry a (some v) l = (a, v) ∷ l

abbrev entries : Memory → Entries
entries m = entry 3 (m.balances 3) (entry 4 (m.balances 4) (entry 5 (m.balances 5) []))

abbrev read : Entries → ℕ × Address × ℕ × Entries
read [] = (1, 0, 0, [])
read ((a, v) ∷ l) = (0, a, v, l)

abbrev scan_get : TableOp → Memory → Entries → ℕ × Address × ℕ × Entries
scan_get TableOp.first m s = read (entries m)
scan_get TableOp.next m s = read s

abbrev put : Payment → Memory → Memory
put p m = record m {
  payments = λ a. if a == p.address then m.payments a ++ p ∷ [] else m.payments a;
}

abbrev tables : PaymentDb memory_db
tables = record {
  Scan = Entries;
  scan_open = λ m. (0, []);
  scan_get = scan_get;
  payment_cursor = λ m. 0;
  payment_put = λ p m. (0, put p m);
}

abbrev tables-HasPayments : HasPayments memory_db memory_db-IsReliable tables
tables-HasPayments = record {
  entries = entries;
  unread = λ s. s;
  payments_of = λ m. m.payments;
  scan_ok = λ m. refl;
  child_entries = λ m. refl;
  first_none = λ m s e. ap (λ l. (read l).0) e;
  first_some = λ m s a v l e. (
    ap (λ k. (read k).0) e,
    ap (λ k. (read k).1) e,
    ap (λ k. (read k).2) e,
    ap (λ k. (read k).3) e,
  );
  next_none = λ m s e. ap (λ l. (read l).0) e;
  next_some = λ m s a v l e. (
    ap (λ k. (read k).0) e,
    ap (λ k. (read k).1) e,
    ap (λ k. (read k).2) e,
    ap (λ k. (read k).3) e,
  );
  payment_cursor_ok = λ m. refl;
  child_payments = λ m. refl;
  commit_payments = λ c m. refl;
  balance_put_payments = λ a v m. refl;
  payment_put_balance = λ p m. refl;
  payment_put_payments = λ p m a h. refl;
}

-- Payments are made from a hundred thousand millions on.
abbrev config : Config (ℕ × ℕ)
config = record {
  pool_fee_wallet = 0;
  pool_start_diff = 100;
  pool_min_diff = 50;
  pool_fixed_diff = 0;
  pool_nicehash_diff = 0;
  share_mul = (2, 1);
  retarget_time = 120;
  retarget_ratio = (1, 2);
  pool_fee = (0, 1);
  payment_threshold = (1, 10);
  has_upstream = false;
  disable_payouts = false;
  disable_hash_check = false;
}

abbrev memory : Memory
memory = record {
  balances = update (update (λ a. none) 3 250000000000) 5 7000;
  shares = λ h. [];
  blocks = λ h. [];
  payments = λ a. [];
}

abbrev bag : List Payment
bag = record { amount = 250000000000; timestamp = 0; address = 3 } ∷ []

sent : send_payments memory_db tables rational config 4 memory ≡ some (0, bag)
unfolding send_payments collect threshold_of pdb_txn_begin
sent = refl

send_payments-due_example :
    send_payments memory_db tables rational config 4 memory
    ≡ some (0, due (threshold_of rational config) (entries memory))
send_payments-due_example =
    send_payments-due memory_db memory_db-IsReliable tables tables-HasPayments rational config 4
      memory refl refl (omega arith)

rpc_on_wallet_transferred-pays_example :
    (held ((rpc_on_wallet_transferred memory_db tables 99 bag memory).balances 3)
      ≡ 250000000000 - paid_to 3 bag)
    × ((rpc_on_wallet_transferred memory_db tables 99 bag memory).payments 3 ≡ stamped 99 3 bag)
rpc_on_wallet_transferred-pays_example =
    rpc_on_wallet_transferred-pays memory_db memory_db-IsReliable tables tables-HasPayments 99 bag
      memory 3 (λ b. tt)

left : held ((rpc_on_wallet_transferred memory_db tables 99 bag memory).balances 3) ≡ 0
unfolding rpc_on_wallet_transferred store_payments deduct_loop deduct store_loop pdb_txn_begin
left = refl

send_payments-rpc_on_wallet_transferred_example :
    (paid : List Payment) × (send_payments memory_db tables rational config 4 memory
      ≡ some (0, paid))
    × (held ((rpc_on_wallet_transferred memory_db tables 99 paid memory).balances 5)
        ≡ (if ltb 7000 (threshold_of rational config) then 7000 else 0))
    × (held ((rpc_on_wallet_transferred memory_db tables 99 paid memory).balances 5)
          + paid_to 5 paid
        ≡ 7000)
send_payments-rpc_on_wallet_transferred_example =
    send_payments-rpc_on_wallet_transferred memory_db memory_db-IsReliable tables tables-HasPayments
      rational config 4 99 memory 5 refl refl (omega arith) ((refl, tt), (tt, tt)) refl (λ b. tt)
