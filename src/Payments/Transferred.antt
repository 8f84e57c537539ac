-- ===== src/Payments/Transferred.antt =====
-- rpc_on_wallet_transferred of src/pool.c over a database without faults: the balances and the stored payments.
use salvium_pool.Prelude.{
  ℕ, ◌-◌, ◌≤◌, ◌≡◌, ◌∙◌, refl, sym, ap, subst, List, [], ◌∷◌, ◌++◌, arith, ◌==◌, if◌then◌else◌,
  if_elim, Bool-cases, inl, inr, All, append_assoc, append-nil,
}
use salvium_pool.Pool.Types.{Address, Payment}
use salvium_pool.Pool.Lmdb.{Lmdb, IsReliable}
use salvium_pool.Balance.Credit.{held}
use salvium_pool.Payments.{
  PaymentDb, deduct_loop, store_loop, store_payments, rpc_on_wallet_transferred,
}
use salvium_pool.Payments.Collect.{HasPayments}
use salvium_pool.Payments.Deduct.{
  lower_all, paid_to, held-lower_all, deduct_loop_balance, deduct_loop_payments,
}

-- the payments of a bag to an address, with the time of the answer
abbrev pub stamped : ℕ → Address → List Payment → List Payment
stamped now a [] = []
stamped now a (p ∷ bag) =
    let rest = stamped now a bag in
    if a == p.address then (record p { timestamp = now }) ∷ rest else rest

-- No payment of a list is younger than `now`.
abbrev pub NotLater : ℕ → List Payment → Type 0
NotLater now l = All (λ p. p.timestamp ≤ now) l

NotLater-append :
    (now : ℕ) (l : List Payment) (p : Payment)
    → NotLater now l
    → p.timestamp ≤ now
    → NotLater now (l ++ p ∷ [])
NotLater-append now [] p h e = (e, tt)
NotLater-append now (q ∷ l) p (h, hs) e = (h, NotLater-append now l p hs e)

module _ (db : Lmdb) (ok : IsReliable db) (tables : PaymentDb db) (has : HasPayments db ok tables)
    (now : ℕ) where
  open ok use {balance}
  open has use {payments_of}

  abbrev stored : Payment → db.Txn → db.Txn
  stored p t = (tables.payment_put (record p { timestamp = now }) t).1

  store_payments_of :
      (p : Payment) (t : db.Txn) (a : Address)
      → NotLater now (payments_of t p.address)
      → payments_of (stored p t) a ≡ (
          if a == p.address
          then payments_of t a ++ (record p { timestamp = now }) ∷ []
          else payments_of t a)
  store_payments_of p t a h = has.payment_put_payments (record p { timestamp = now }) t a h

  store_NotLater :
      (p : Payment) (t : db.Txn)
      → ((a : Address) → NotLater now (payments_of t a))
      → (a : Address) → NotLater now (payments_of (stored p t) a)
  store_NotLater p t h a = subst (NotLater now) (sym (store_payments_of p t a (h p.address))) (
      if_elim (NotLater now) (a == p.address)
        (payments_of t a ++ (record p { timestamp = now }) ∷ []) (payments_of t a)
        (λ same.
          NotLater-append now (payments_of t a) (record p { timestamp = now }) (h a) (omega arith))
        (λ other. h a))

  store_loop_balance :
      (bag : List Payment) (t : db.Txn) → balance (store_loop db tables now bag t) ≡ balance t
  unfolding store_loop
  store_loop_balance [] t = refl
  store_loop_balance (p ∷ bag) t =
      store_loop_balance bag (stored p t) ∙ has.payment_put_balance (record p { timestamp = now }) t

  store_loop_payments :
      (bag : List Payment) (t : db.Txn) (a : Address)
      → ((a : Address) → NotLater now (payments_of t a))
      → payments_of (store_loop db tables now bag t) a ≡ payments_of t a ++ stamped now a bag
  unfolding store_loop
  store_loop_payments [] t a h = sym (append-nil (payments_of t a))
  store_loop_payments (p ∷ bag) t a h =
      store_loop_payments bag (stored p t) a (store_NotLater p t h)
      ∙ ap (λ l. l ++ stamped now a bag) (store_payments_of p t a (h p.address))
      ∙ joined
    where
      joined :
          (if a == p.address
              then payments_of t a ++ (record p { timestamp = now }) ∷ []
              else payments_of t a)
            ++ stamped now a bag
          ≡ payments_of t a ++ stamped now a (p ∷ bag)
      joined = elim (Bool-cases (a == p.address)) [
        | inl same ↦ rw same (
            append_assoc (payments_of t a) ((record p { timestamp = now }) ∷ [])
              (stamped now a bag))
        | inr other ↦ rw other refl
      ]

  abbrev deducted : List Payment → db.Txn → db.Txn
  deducted bag env = (db.txn_commit (deduct_loop db tables bag (db.child env)) env).1

  transferred :
      (bag : List Payment) (env : db.Txn)
      → rpc_on_wallet_transferred db tables now bag env
        ≡ (db.txn_commit
            (store_loop db tables now bag (db.child (deducted bag env)))
            (deducted bag env)).1
  unfolding rpc_on_wallet_transferred store_payments
  transferred bag env = ground (
    arith,
    ok.begin_ok env,
    ok.balance_cursor_ok (db.child env),
    ok.commit_ok (deduct_loop db tables bag (db.child env)) env,
    ok.begin_ok (deducted bag env),
    has.payment_cursor_ok (db.child (deducted bag env)),
    ok.commit_ok (store_loop db tables now bag (db.child (deducted bag env))) (deducted bag env),
  )

  deducted_balance :
      (bag : List Payment) (env : db.Txn) → balance (deducted bag env) ≡ lower_all (balance env) bag
  deducted_balance bag env =
      ok.commit_balance (deduct_loop db tables bag (db.child env)) env
      ∙ deduct_loop_balance db ok tables has bag (db.child env)
      ∙ ap (λ f. lower_all f bag) (ok.child_balance env)

  deducted_payments :
      (bag : List Payment) (env : db.Txn) → payments_of (deducted bag env) ≡ payments_of env
  deducted_payments bag env =
      has.commit_payments (deduct_loop db tables bag (db.child env)) env
      ∙ deduct_loop_payments db ok tables has bag (db.child env)
      ∙ has.child_payments env

  transferred_held :
      (bag : List Payment) (env : db.Txn) (a : Address)
      → held (balance (rpc_on_wallet_transferred db tables now bag env) a)
        ≡ held (balance env a) - paid_to a bag
  transferred_held bag env a =
      ap (λ t. held (balance t a)) (transferred bag env)
      ∙ ap (λ f. held (f a))
          (ok.commit_balance (store_loop db tables now bag (db.child (deducted bag env)))
              (deducted bag env)
            ∙ store_loop_balance bag (db.child (deducted bag env))
            ∙ ok.child_balance (deducted bag env)
            ∙ deducted_balance bag env)
      ∙ held-lower_all (balance env) bag a

  -- Over a database without faults, and when no stored payment is younger than the answer, after the
  -- wallet's answer each account holds what it held less what the bag pays to it, not below 0, and its
  -- payments are those stored before and, behind them, those of the bag with the time of the answer.
  pub rpc_on_wallet_transferred-pays :
      (bag : List Payment) (env : db.Txn) (a : Address)
      → ((b : Address) → NotLater now (payments_of env b))
      → (held (balance (rpc_on_wallet_transferred db tables now bag env) a)
          ≡ held (balance env a) - paid_to a bag)
        × (payments_of (rpc_on_wallet_transferred db tables now bag env) a
            ≡ payments_of env a ++ stamped now a bag)
  rpc_on_wallet_transferred-pays bag env a h = (
    transferred_held bag env a,
    ap (λ t. payments_of t a) (transferred bag env)
        ∙ ap (λ f. f a)
            (has.commit_payments (store_loop db tables now bag (db.child (deducted bag env)))
              (deducted bag env))
        ∙ store_loop_payments bag (db.child (deducted bag env)) a
            (λ b. subst (λ f. NotLater now (f b)) (sym before) (h b))
        ∙ ap (λ f. f a ++ stamped now a bag) before,
  )
    where
      before : payments_of (db.child (deducted bag env)) ≡ payments_of env
      before = has.child_payments (deducted bag env) ∙ deducted_payments bag env
