-- ===== src/Payments/Cycle.antt =====
-- A whole round of payments in src/pool.c, from send_payments to rpc_on_wallet_transferred.
use salvium_pool.Prelude.{
  ℕ, ◌+◌, ◌<◌, ◌≡◌, refl, ap, false, some, List, [], ◌∷◌, arith, ◌==◌, ltb, if◌then◌else◌,
  Bool-cases, inl, inr, All, length,
}
use salvium_pool.Pool.Types.{Address, Config, Payment}
use salvium_pool.Pool.Double.{Double}
use salvium_pool.Pool.Lmdb.{Lmdb, IsReliable}
use salvium_pool.Balance.Credit.{held}
use salvium_pool.Payments.{PaymentDb, threshold_of, send_payments, rpc_on_wallet_transferred}
use salvium_pool.Payments.Collect.{HasPayments, Entries, due, send_payments-due}
use salvium_pool.Payments.Deduct.{paid_to}
use salvium_pool.Payments.Transferred.{NotLater, rpc_on_wallet_transferred-pays}

-- The amount of an address in a list of entries, 0 if it has none.
abbrev pub amount_of : Address → Entries → ℕ
amount_of a [] = 0
amount_of a ((b, v) ∷ l) = if a == b then v else amount_of a l

abbrev pub IsAbsent : Address → Entries → Type 0
IsAbsent a l = All (λ e. (a == e.0) ≡ false) l

-- No address has two entries.
abbrev pub OncePerAddress : Entries → Type 0
OncePerAddress [] = Unit
OncePerAddress ((a, v) ∷ l) = IsAbsent a l × OncePerAddress l

absent-paid_to :
    (threshold : ℕ) (a : Address) (l : Entries) → IsAbsent a l → paid_to a (due threshold l) ≡ 0
absent-paid_to threshold a [] h = refl
absent-paid_to threshold a ((b, v) ∷ l) (ne, h) = ground (arith, ne, absent-paid_to threshold a l h)

-- An account is paid all it has if that reaches the threshold, and nothing otherwise.
paid_to-due :
    (threshold : ℕ) (a : Address) (l : Entries)
    → OncePerAddress l
    → paid_to a (due threshold l) ≡ (if ltb (amount_of a l) threshold then 0 else amount_of a l)
paid_to-due threshold a [] d = ground arith
paid_to-due threshold a ((b, v) ∷ l) (absent, d) = elim (Bool-cases (a == b)) [
  | inl same ↦ ground (
    arith,
    same,
    ap (λ k. paid_to k (due threshold l)) (let e : a ≡ b = ground (arith, same) in e),
    absent-paid_to threshold b l absent,
  )
  | inr other ↦ ground (arith, other, paid_to-due threshold a l d)
]

module _ (db : Lmdb) (ok : IsReliable db) (tables : PaymentDb db) (has : HasPayments db ok tables)
    (fp : Double) (config : Config fp.D) where
  open ok use {balance}
  open has use {entries, payments_of}

  -- Over a database without faults whose table of balances has one entry for each address that holds
  -- something and whose payments are not later than the wallet's answer, in a pool without an upstream and
  -- with payouts on, and with fuel for the balances, `send_payments` makes a bag such that, when the wallet has answered and the balances
  -- have not changed meanwhile, an account whose balance did not reach the threshold has kept it, and any
  -- other holds nothing; what it held is what the bag paid to it.
  pub send_payments-rpc_on_wallet_transferred :
      (fuel now : ℕ) (env : db.Txn) (a : Address)
      → config.has_upstream ≡ false
      → config.disable_payouts ≡ false
      → length (entries env) < fuel
      → OncePerAddress (entries env)
      → held (balance env a) ≡ amount_of a (entries env)
      → ((b : Address) → NotLater now (payments_of env b))
      → (bag : List Payment) × (send_payments db tables fp config fuel env ≡ some (0, bag))
        × (held (balance (rpc_on_wallet_transferred db tables now bag env) a) ≡ (
            if ltb (held (balance env a)) (threshold_of fp config)
            then held (balance env a)
            else 0))
        × (held (balance (rpc_on_wallet_transferred db tables now bag env) a) + paid_to a bag
            ≡ held (balance env a))
  send_payments-rpc_on_wallet_transferred fuel now env a up off m d e old =
      let bag = due (threshold_of fp config) (entries env) in
      let paid = paid_to-due (threshold_of fp config) a (entries env) d in
      let (left, kept) = rpc_on_wallet_transferred-pays db ok tables has now bag env a old in
      (
        bag,
        send_payments-due db ok tables has fp config fuel env up off m,
        ground (arith, left, paid, e),
        ground (arith, left, paid, e),
      )
