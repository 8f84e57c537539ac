-- ===== src/Balance/Credit.antt =====
-- balance_add of src/pool.c over a database without faults.
use salvium_pool.Prelude.{
  ◌<◌, ◌⊎◌, ℕ, ◌+◌, ◌%◌, ◌^◌, ◌≡◌, ap, ◌∙◌, inl, inr, Option, none, some, arith, ◌==◌,
  if◌then◌else◌, Option-cases,
}
use salvium_pool.Pool.Types.{Address}
use salvium_pool.Pool.Lmdb.{Lmdb, IsReliable, Balances, update}
use salvium_pool.Balance.{balance_add}

-- the amount that an account holds, 0 if it has no entry
abbrev pub held : Option ℕ → ℕ
held none = 0
held (some v) = v

-- The balances after a credit of `amount` to `address`, on `uint64_t`.
abbrev pub credited : Balances → Address → ℕ → Balances
credited f address amount = update f address ((held (f address) + amount) % 2 ^ 64)

module _ (db : Lmdb) (ok : IsReliable db) where
  open db use {Txn, not_found, child, txn_commit, balance_cursor, balance_get, balance_put}
  open ok use {balance, shares_at}

  pub record Credits (t : Txn) (address amount : ℕ) (out : ℕ × Txn) : Type 0 where
    pub code : out.0 ≡ 0
    pub balances : balance out.1 ≡ credited (balance t) address amount
    pub shares : shares_at out.1 ≡ shares_at t

  abbrev written : Address → ℕ → Txn → Txn
  written a v t = (txn_commit (balance_put a v (child t)).1 t).1

  -- A put in a child that is then committed, seen by the parent.
  committed_balance : (a v : ℕ) (t : Txn) → balance (written a v t) ≡ update (balance t) a v
  committed_balance a v t =
      ok.commit_balance (balance_put a v (child t)).1 t
      ∙ ok.put_balance a v (child t)
      ∙ ap (λ f. update f a v) (ok.child_balance t)

  committed_shares : (a v : ℕ) (t : Txn) → shares_at (written a v t) ≡ shares_at t
  committed_shares a v t =
      ok.commit_shares (balance_put a v (child t)).1 t
      ∙ ok.put_shares a v (child t)
      ∙ ok.child_shares t

  -- The calls that succeed leave what `balance_add` puts and commits.
  added :
      (address amount x : ℕ) (t : Txn)
      → ((balance_get address (child t)).0 ≡ not_found) ⊎ ((balance_get address (child t)).0 ≡ 0)
      → (if (balance_get address (child t)).0 == not_found
          then amount
          else ((balance_get address (child t)).1 + amount) % 2 ^ 64)
        ≡ x
      → balance_add db address amount t ≡ txn_commit (balance_put address x (child t)).1 t
  unfolding balance_add
  added address amount x t which e =
      ground (arith, ok.begin_ok t, ok.balance_cursor_ok (child t), which, e)

  seen : (address : ℕ) (t : Txn) → balance (child t) address ≡ balance t address
  seen address t = ap (λ f. f address) (ok.child_balance t)

  committed-Credits :
      (address amount x : ℕ) (t : Txn)
      → balance_add db address amount t ≡ txn_commit (balance_put address x (child t)).1 t
      → x ≡ (held (balance t address) + amount) % 2 ^ 64
      → Credits t address amount (balance_add db address amount t)
  committed-Credits address amount x t e ex = record {
    code = ap (λ r. r.0) e ∙ ok.commit_ok (balance_put address x (child t)).1 t;
    balances =
        ap (λ r. balance r.1) e
        ∙ committed_balance address x t
        ∙ ap (λ v. update (balance t) address v) ex;
    shares = ap (λ r. shares_at r.1) e ∙ committed_shares address x t;
  }

  -- Over a database without faults, and for an amount below 2 ^ 64, `balance_add` succeeds, adds `amount` to
  -- the balance of `address` modulo 2 ^ 64, creating the entry
  -- if there is none, and leaves the other balances and the shares as they were.
  pub balance_add-Credits :
      (address amount : ℕ) (t : Txn)
      → amount < 2 ^ 64
      → Credits t address amount (balance_add db address amount t)
  balance_add-Credits address amount t w = elim (Option-cases (balance t address)) [
    | inl missing ↦
        committed-Credits address amount amount t
          (added address amount amount t
            (inl (ok.get_missing address (child t) (seen address t ∙ missing)))
            (ground (arith, ok.get_missing address (child t) (seen address t ∙ missing))))
          (rw missing (omega arith))
    | inr (v, found) ↦
        committed-Credits address amount ((v + amount) % 2 ^ 64) t
          (added address amount ((v + amount) % 2 ^ 64) t
            (inr (ap (λ r. r.0) (ok.get_found address v (child t) (seen address t ∙ found))))
            (ground
              (arith, ok.not_found_ne, ok.get_found address v (child t) (seen address t ∙ found))))
          (rw found)
  ]
