-- ===== src/Payout/PayShare.antt =====
-- One share in payout_block of src/pool.c, over a database without faults, against `Payout.Spec`.
use salvium_pool.Prelude.{
  ℕ, ◌+◌, ◌-◌, ◌%◌, ◌^◌, ◌≤◌, ◌<◌, ◌≡◌, refl, sym, ap, ◌∙◌, inl, inr, List, [], ◌∷◌, ◌++◌, ◌&&◌,
  not, arith, ltb, ◌==◌, if◌then◌else◌, Bool-cases,
}
use salvium_pool.Pool.Types.{Config, Share, Block}
use salvium_pool.Pool.Double.{Double}
use salvium_pool.Pool.Lmdb.{Lmdb, IsReliable, CursorOp}
use salvium_pool.Balance.{balance_add}
use salvium_pool.Balance.Credit.{Credits, balance_add-Credits}
use salvium_pool.Payout.{Round, Next, gross_amount, fee_of, pay_fee, pay_share}
use salvium_pool.Payout.Spec.{
  Credit, IsSmall, IsSane, earned, fee_credits, share_credits, credit_all, credit_all-append,
}
use salvium_pool.Payout.Bounds.{gross_amount-eq, net_of-eq}

module _ (fp : Double) (db : Lmdb) (config : Config fp.D) (block : Block) (ok : IsReliable db)
    (sane : IsSane fp config) where
  open ok use {balance, shares_at, pending}

  pay_fee-credits :
      (fee : ℕ) (t : db.Txn)
      → fee < 2 ^ 64
      → (balance (pay_fee fp db config block fee t)
          ≡ credit_all (balance t) (fee_credits fp config block fee))
        × (shares_at (pay_fee fp db config block fee t) ≡ shares_at t)
  unfolding pay_fee
  pay_fee-credits fee t w = elim (Bool-cases (ltb 0 fee && not (config.pool_fee_wallet == 0))) [
    | inl pays ↦ rw pays (paid.balances, paid.shares)
    | inr spares ↦ rw spares (refl, refl)
  ]
    where
      paid :
          Credits db ok t config.pool_fee_wallet fee (balance_add db config.pool_fee_wallet fee t)
      paid = balance_add-Credits db ok config.pool_fee_wallet fee t w

  -- the state after a share was paid
  pub record Paid (r : Round db) (share : Share) (cursor : db.Cursor) (r' : Round db) : Type 0 where
    pub balances :
        balance r'.txn
        ≡ credit_all (balance r.txn) (share_credits fp config block r.total_paid share)
    pub shares : shares_at r'.txn ≡ shares_at r.txn
    pub total : r'.total_paid ≡ r.total_paid + earned fp config block r.total_paid share
    pub height : r'.height ≡ r.height
    pub op : r'.op ≡ CursorOp.next_dup
    pub cursor_kept : r'.cursor ≡ cursor

  earned-word :
      (total : ℕ) (share : Share)
      → IsSmall fp config block share
      → earned fp config block total share < 2 ^ 64
  earned-word total share small = omega arith

  -- the balances after the fee and the rest of an amount were credited
  split_credit :
      (gross : ℕ) (share : Share) (t : db.Txn)
      → gross < 2 ^ 64
      → credit_all (balance (pay_fee fp db config block (fee_of fp config gross) t)) (
          if gross - fee_of fp config gross == 0
          then []
          else (share.address, gross - fee_of fp config gross) ∷ [])
        ≡ credit_all (balance t) (
            fee_credits fp config block (fee_of fp config gross)
            ++ (if gross - fee_of fp config gross == 0
                then []
                else (share.address, gross - fee_of fp config gross) ∷ []))
  split_credit gross share t w =
      ap
        (λ f. credit_all f (
          if gross - fee_of fp config gross == 0
          then []
          else (share.address, gross - fee_of fp config gross) ∷ []))
        (pay_fee-credits (fee_of fp config gross) t (omega (arith, sane.fee_le gross))).0
      ∙ sym (
          credit_all-append (balance t) (fee_credits fp config block (fee_of fp config gross)) (
            if gross - fee_of fp config gross == 0
            then []
            else (share.address, gross - fee_of fp config gross) ∷ []))

  pub pay_share-Paid :
      (r : Round db) (share : Share) (cursor : db.Cursor)
      → IsSmall fp config block share
      → r.total_paid ≤ block.reward
      → (r' : Round db) × (pay_share fp db config block r share cursor ≡ Next.again r')
        × Paid r share cursor r'
  unfolding pay_share
  pay_share-Paid r share cursor small h = elim (Bool-cases (gross - fee == 0)) [
    | inl nothing ↦ (
      record {
        height = r.height;
        op = CursorOp.next_dup;
        total_paid = r.total_paid + gross;
        cursor = cursor;
        txn = after_fee;
      },
      rw (same.0, same.1, net_of-eq fp config block gross sane word, nothing),
      record {
        balances = balances_of [] (rw nothing);
        shares = fee_paid.1;
        total = refl;
        height = refl;
        op = refl;
        cursor_kept = refl;
      },
    )
    | inr something ↦ (
      record {
        height = r.height;
        op = CursorOp.next_dup;
        total_paid = r.total_paid + gross;
        cursor = cursor;
        txn = after_net;
      },
      rw (same.0, same.1, net_of-eq fp config block gross sane word, something, net_paid.code),
      record {
        balances =
            net_paid.balances ∙ balances_of ((share.address, gross - fee) ∷ []) (rw something);
        shares = net_paid.shares ∙ fee_paid.1;
        total = refl;
        height = refl;
        op = refl;
        cursor_kept = refl;
      },
    )
  ]
    where
      gross : ℕ
      gross = earned fp config block r.total_paid share

      fee : ℕ
      fee = fee_of fp config gross

      after_fee : db.Txn
      after_fee = pay_fee fp db config block fee r.txn

      same :
          (gross_amount fp config block r.total_paid share ≡ gross)
          × ((r.total_paid + gross) % 2 ^ 64 ≡ r.total_paid + gross)
      same = gross_amount-eq fp config block r.total_paid share small h

      word : gross < 2 ^ 64
      word = earned-word r.total_paid share small

      fee_paid :
          (balance after_fee ≡ credit_all (balance r.txn) (fee_credits fp config block fee))
          × (shares_at after_fee ≡ shares_at r.txn)
      fee_paid = pay_fee-credits fee r.txn (omega (arith, sane.fee_le gross))

      after_net : db.Txn
      after_net = (balance_add db share.address (gross - fee) after_fee).1

      net_paid :
          Credits db ok after_fee share.address
            (gross - fee)
            (balance_add db share.address (gross - fee) after_fee)
      net_paid = balance_add-Credits db ok share.address (gross - fee) after_fee (omega arith)

      balances_of :
          (cs : List Credit)
          → (if gross - fee == 0 then [] else (share.address, gross - fee) ∷ []) ≡ cs
          → credit_all (balance after_fee) cs
            ≡ credit_all (balance r.txn) (share_credits fp config block r.total_paid share)
      balances_of cs e =
          ap (λ l. credit_all (balance after_fee) l) (sym e) ∙ split_credit gross share r.txn word
