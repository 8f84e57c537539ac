-- ===== src/Payments/Collect.antt =====
-- send_payments of src/pool.c over tables without faults.
use salvium_pool.Prelude.{
  ℕ, zero, suc, ◌<◌, ◌≤◌, ◌≡◌, false, some, List, [], ◌∷◌, ◌++◌, arith, ◌==◌, ltb, if◌then◌else◌,
  length, All,
}
use salvium_pool.Pool.Types.{Address, Config, Payment}
use salvium_pool.Pool.Double.{Double}
use salvium_pool.Pool.Lmdb.{Lmdb, IsReliable}
use salvium_pool.Payments.{PaymentDb, TableOp, threshold_of, collect, send_payments}

abbrev pub Entries : Type 0
Entries = List (Address × ℕ)

-- The tables of balances and payments without faults: a scan reads the entries of the table of balances
-- one by one, and a payment that is not older than the others of its address is stored behind them.
pub record HasPayments (db : Lmdb) (ok : IsReliable db) (tables : PaymentDb db) : Type 0 where
  pub entries : db.Txn → Entries
  pub unread : tables.Scan → Entries
  pub payments_of : db.Txn → Address → List Payment
  pub scan_ok : (t : db.Txn) → (tables.scan_open t).0 ≡ 0
  pub child_entries : (t : db.Txn) → entries (db.child t) ≡ entries t
  pub first_none :
      (t : db.Txn) (s : tables.Scan)
      → entries t ≡ []
      → (tables.scan_get TableOp.first t s).0 ≡ db.not_found
  pub first_some :
      (t : db.Txn) (s : tables.Scan) (a v : ℕ) (l : Entries)
      → entries t ≡ (a, v) ∷ l
      → ((tables.scan_get TableOp.first t s).0 ≡ 0)
        × ((tables.scan_get TableOp.first t s).1 ≡ a)
        × ((tables.scan_get TableOp.first t s).2 ≡ v)
        × (unread (tables.scan_get TableOp.first t s).3 ≡ l)
  pub next_none :
      (t : db.Txn) (s : tables.Scan)
      → unread s ≡ []
      → (tables.scan_get TableOp.next t s).0 ≡ db.not_found
  pub next_some :
      (t : db.Txn) (s : tables.Scan) (a v : ℕ) (l : Entries)
      → unread s ≡ (a, v) ∷ l
      → ((tables.scan_get TableOp.next t s).0 ≡ 0)
        × ((tables.scan_get TableOp.next t s).1 ≡ a)
        × ((tables.scan_get TableOp.next t s).2 ≡ v)
        × (unread (tables.scan_get TableOp.next t s).3 ≡ l)
  pub payment_cursor_ok : (t : db.Txn) → tables.payment_cursor t ≡ 0
  pub child_payments : (t : db.Txn) → payments_of (db.child t) ≡ payments_of t
  pub commit_payments : (c t : db.Txn) → payments_of (db.txn_commit c t).1 ≡ payments_of c
  pub balance_put_payments :
      (a v : ℕ) (t : db.Txn) → payments_of (db.balance_put a v t).1 ≡ payments_of t
  pub payment_put_balance :
      (p : Payment) (t : db.Txn) → ok.balance (tables.payment_put p t).1 ≡ ok.balance t
  pub payment_put_payments :
      (p : Payment) (t : db.Txn) (a : Address)
      → All (λ q. q.timestamp ≤ p.timestamp) (payments_of t p.address)
      → payments_of (tables.payment_put p t).1 a
        ≡ (if a == p.address then payments_of t a ++ p ∷ [] else payments_of t a)

-- The payments due: one for each entry that reaches the threshold.
abbrev pub due : ℕ → Entries → List Payment
due threshold [] = []
due threshold ((a, v) ∷ l) =
    let rest = due threshold l in
    if ltb v threshold then rest else (record { amount = v; timestamp = 0; address = a }) ∷ rest

module _ (db : Lmdb) (ok : IsReliable db) (tables : PaymentDb db)
    (has : HasPayments db ok tables) where
  open has use {entries, unread}

  abbrev to_read : TableOp → db.Txn → tables.Scan → Entries
  to_read TableOp.first t s = entries t
  to_read TableOp.next t s = unread s

  read_none :
      (op : TableOp) (t : db.Txn) (s : tables.Scan)
      → to_read op t s ≡ []
      → (tables.scan_get op t s).0 ≡ db.not_found
  read_none TableOp.first t s e = has.first_none t s e
  read_none TableOp.next t s e = has.next_none t s e

  read_some :
      (op : TableOp) (t : db.Txn) (s : tables.Scan) (a v : ℕ) (l : Entries)
      → to_read op t s ≡ (a, v) ∷ l
      → ((tables.scan_get op t s).0 ≡ 0)
        × ((tables.scan_get op t s).1 ≡ a)
        × ((tables.scan_get op t s).2 ≡ v)
        × (unread (tables.scan_get op t s).3 ≡ l)
  read_some TableOp.first t s a v l e = has.first_some t s a v l e
  read_some TableOp.next t s a v l e = has.next_some t s a v l e

  collect_end :
      (fuel threshold : ℕ) (op : TableOp) (t : db.Txn) (s : tables.Scan)
      → to_read op t s ≡ []
      → collect db tables (suc fuel) threshold op t s ≡ some []
  unfolding collect
  collect_end fuel threshold op t s e = ground (arith, ok.not_found_ne, read_none op t s e)

  collect_entry :
      (fuel threshold : ℕ) (op : TableOp) (t : db.Txn) (s : tables.Scan) (a v : ℕ) (l : Entries)
      → to_read op t s ≡ (a, v) ∷ l
      → collect db tables fuel threshold TableOp.next t (tables.scan_get op t s).3
        ≡ some (due threshold l)
      → collect db tables (suc fuel) threshold op t s ≡ some (due threshold ((a, v) ∷ l))
  unfolding collect
  collect_entry fuel threshold op t s a v l e rest =
      let (code, address, amount, more) = read_some op t s a v l e in
      rw (collect, code, address, amount, rest) (ground arith)

  collect_list :
      (l : Entries) (fuel threshold : ℕ) (op : TableOp) (t : db.Txn) (s : tables.Scan)
      → to_read op t s ≡ l
      → length l < fuel
      → collect db tables fuel threshold op t s ≡ some (due threshold l)
  collect_list l zero threshold op t s e m = absurd (omega arith)
  collect_list [] (suc fuel) threshold op t s e m = collect_end fuel threshold op t s e
  collect_list ((a, v) ∷ l) (suc fuel) threshold op t s e m =
      collect_entry fuel threshold op t s a v l e (
        collect_list l fuel threshold TableOp.next t (tables.scan_get op t s).3
          (read_some op t s a v l e).3 (omega arith))

  -- Over tables without faults, and with fuel for one round more than there are balances,
  -- `send_payments` of a pool that pays out itself asks the wallet for exactly the balances that reach
  -- the threshold, each in full.
  pub send_payments-due :
      (fp : Double) (config : Config fp.D) (fuel : ℕ) (env : db.Txn)
      → config.has_upstream ≡ false
      → config.disable_payouts ≡ false
      → length (entries env) < fuel
      → send_payments db tables fp config fuel env
        ≡ some (0, due (threshold_of fp config) (entries env))
  unfolding send_payments
  send_payments-due fp config fuel env up off m = ground (
    arith,
    up,
    off,
    ok.begin_ok env,
    has.scan_ok (db.child env),
    collect_list (entries env) fuel (threshold_of fp config) TableOp.first (db.child env)
        (tables.scan_open (db.child env)).1 (has.child_entries env) m,
  )
