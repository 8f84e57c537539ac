-- ===== src/Payments/Deduct.antt =====
-- The first half of rpc_on_wallet_transferred (src/pool.c) over a database without faults: the balances.
use salvium_pool.Prelude.{
  ℕ, ◌+◌, ◌-◌, ◌≡◌, ◌∙◌, refl, sym, ap, true, Option, none, some, List, [], ◌∷◌, arith, ◌==◌, leb,
  if◌then◌else◌, Bool-cases, Option-cases, inl, inr,
}
use salvium_pool.Pool.Types.{Address, Payment}
use salvium_pool.Pool.Lmdb.{Lmdb, IsReliable, Balances, update}
use salvium_pool.Balance.Credit.{held}
use salvium_pool.Payments.{PaymentDb, deduct, deduct_loop}
use salvium_pool.Payments.Collect.{HasPayments}

-- Balances with a payment taken off; an address without an entry stays without.
abbrev pub lowered_entry : Balances → Payment → Option ℕ → Balances
lowered_entry f p none = f
lowered_entry f p (some v) = update f p.address (v - p.amount)

abbrev pub lowered : Balances → Payment → Balances
lowered f p = lowered_entry f p (f p.address)

abbrev pub lower_all : Balances → List Payment → Balances
lower_all f [] = f
lower_all f (p ∷ bag) = lower_all (lowered f p) bag

-- What a bag of payments pays to an address.
abbrev pub paid_to : Address → List Payment → ℕ
paid_to a [] = 0
paid_to a (p ∷ bag) = (if a == p.address then p.amount else 0) + paid_to a bag

held-lowered_entry :
    (f : Balances) (p : Payment) (a : Address) (entry : Option ℕ)
    → f p.address ≡ entry
    → held (lowered_entry f p entry a) ≡ held (f a) - (if a == p.address then p.amount else 0)
held-lowered_entry f p a none e = elim (Bool-cases (a == p.address)) [
  | inl same ↦ rw same (omega (arith, ap held (at_payee same), ap held e))
  | inr other ↦ rw other (omega arith)
]
  where
    at_payee : (a == p.address) ≡ true → f a ≡ f p.address
    at_payee same = ap f (ground (arith, same))
held-lowered_entry f p a (some v) e = elim (Bool-cases (a == p.address)) [
  | inl same ↦ ground (arith, same, ap held (at_payee same), ap held e)
  | inr other ↦ ground (arith, other)
]
  where
    at_payee : (a == p.address) ≡ true → f a ≡ f p.address
    at_payee same = ap f (ground (arith, same))

-- An account holds afterwards what it held, less what the bag pays to it, and never less than 0.
pub held-lower_all :
    (f : Balances) (bag : List Payment) (a : Address)
    → held (lower_all f bag a) ≡ held (f a) - paid_to a bag
held-lower_all f [] a = omega arith
held-lower_all f (p ∷ bag) a =
    omega (arith, held-lower_all (lowered f p) bag a, held-lowered_entry f p a (f p.address) refl)

module _ (db : Lmdb) (ok : IsReliable db) (tables : PaymentDb db)
    (has : HasPayments db ok tables) where
  open ok use {balance}
  open has use {payments_of}

  deduct_balance :
      (p : Payment) (t : db.Txn) → balance (deduct db tables p t) ≡ lowered (balance t) p
  unfolding deduct
  deduct_balance p t = elim (Option-cases (balance t p.address)) [
    | inl missing ↦
        ground (arith, ok.not_found_ne, ok.get_missing p.address t missing)
        ∙ ap (lowered_entry (balance t) p) (sym missing)
    | inr (v, found) ↦
        rw (ok.get_found p.address v t found) (
          ok.put_balance p.address (if leb p.amount v then v - p.amount else 0) t
          ∙ ap (update (balance t) p.address) (
              let e : (if leb p.amount v then v - p.amount else 0) ≡ v - p.amount = ground arith in
              e))
        ∙ ap (lowered_entry (balance t) p) (sym found)
  ]

  deduct_payments : (p : Payment) (t : db.Txn) → payments_of (deduct db tables p t) ≡ payments_of t
  unfolding deduct
  deduct_payments p t = elim (Bool-cases ((db.balance_get p.address t).0 == 0)) [
    | inl got ↦ rw got (
        has.balance_put_payments p.address
          (if leb p.amount (db.balance_get p.address t).1
            then (db.balance_get p.address t).1 - p.amount
            else 0)
          t)
    | inr lost ↦ rw lost refl
  ]

  pub deduct_loop_balance :
      (bag : List Payment) (t : db.Txn)
      → balance (deduct_loop db tables bag t) ≡ lower_all (balance t) bag
  unfolding deduct_loop
  deduct_loop_balance [] t = refl
  deduct_loop_balance (p ∷ bag) t =
      deduct_loop_balance bag (deduct db tables p t)
      ∙ ap (λ f. lower_all f bag) (deduct_balance p t)

  pub deduct_loop_payments :
      (bag : List Payment) (t : db.Txn) → payments_of (deduct_loop db tables bag t) ≡ payments_of t
  unfolding deduct_loop
  deduct_loop_payments [] t = refl
  deduct_loop_payments (p ∷ bag) t =
      deduct_loop_payments bag (deduct db tables p t) ∙ deduct_payments p t
