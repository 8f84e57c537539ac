-- ===== src/Payout/Frame.antt =====
-- balance_add and payout_block of src/pool.c, and the parts of the database other than the balances.
use salvium_pool.Prelude.{
  ℕ, zero, suc, ◌+◌, ◌%◌, ◌^◌, ◌≡◌, refl, ◌∙◌, some, arith, ◌==◌, if◌then◌else◌, Option-cases, inl,
  inr,
}
use salvium_pool.Pool.Types.{Config, Share, Block}
use salvium_pool.Pool.Double.{Double}
use salvium_pool.Pool.Lmdb.{Lmdb, CursorOp, IsFramed}
use salvium_pool.Balance.{balance_add, put_amount}
use salvium_pool.Payout.{
  Round, Next, gross_amount, fee_of, net_of, pay_fee, pay_share, round, pay_loop, finish,
  payout_block,
}
use salvium_pool.Payout.Bounds.{state_of}

module _ (db : Lmdb) {A : Type 0} (f : db.Txn → A) (framed : IsFramed db f) where
  committed_kept :
      (found : ℕ × ℕ) (address amount : ℕ) (t : db.Txn)
      → f (db.txn_commit (put_amount db found address amount (db.child t)) t).1 ≡ f t
  committed_kept found address amount t =
      framed.commit_kept (put_amount db found address amount (db.child t)) t
      ∙ framed.put_kept address
          (if found.0 == db.not_found then amount else (found.1 + amount) % 2 ^ 64) (db.child t)
      ∙ framed.child_kept t

  pub balance_add-kept :
      (address amount : ℕ) (t : db.Txn) → f (balance_add db address amount t).1 ≡ f t
  unfolding balance_add
  balance_add-kept address amount t =
      ground (arith, committed_kept (db.balance_get address (db.child t)) address amount t)

  module _ (fp : Double) (config : Config fp.D) (block : Block) where
    pay_fee-kept : (fee : ℕ) (t : db.Txn) → f (pay_fee fp db config block fee t) ≡ f t
    unfolding pay_fee
    pay_fee-kept fee t = ground (arith, balance_add-kept config.pool_fee_wallet fee t)

    abbrev outcome : Next db → A
    outcome n = f (state_of fp config block db n).txn

    pay_share-kept :
        (r : Round db) (share : Share) (cursor : db.Cursor)
        → outcome (pay_share fp db config block r share cursor) ≡ f r.txn
    unfolding pay_share
    pay_share-kept r share cursor =
        let gross = gross_amount fp config block r.total_paid share in
        let txn = pay_fee fp db config block (fee_of fp config gross) r.txn in
        ground (
          arith,
          pay_fee-kept (fee_of fp config gross) r.txn,
          balance_add-kept share.address (net_of fp config gross) txn,
        )

    round-kept : (r : Round db) → outcome (round fp db config block r) ≡ f r.txn
    unfolding round
    round-kept r = ground (
      arith,
      pay_share-kept r (db.share_get r.op r.height r.txn r.cursor).1
          (db.share_get r.op r.height r.txn r.cursor).2,
    )

    pay_loop-kept :
        (fuel : ℕ) (r : Round db) (n : Next db)
        → pay_loop fp db config block fuel r ≡ some n
        → outcome n ≡ f r.txn
    unfolding pay_loop
    pay_loop-kept zero r n e = cc
    pay_loop-kept (suc fuel) r n e = ground (
      arith,
      round-kept r,
      pay_loop-kept fuel (state_of fp config block db (round fp db config block r)) n,
    )

    finish-kept :
        (parent : db.Txn) (n : Next db)
        → outcome n ≡ f parent
        → f (finish fp db config block parent n).1 ≡ f parent
    unfolding finish
    finish-kept parent (Next.again r) e = refl
    finish-kept parent (Next.break_loop r) e = framed.commit_kept r.txn parent ∙ e
    finish-kept parent (Next.abort rc r) e = refl

    -- Whatever becomes of it, `payout_block` leaves what is framed as it was.
    pub payout_block-kept :
        (fuel : ℕ) (parent : db.Txn) (out : ℕ × db.Txn)
        → payout_block fp db config block fuel parent ≡ some out
        → f out.1 ≡ f parent
    unfolding payout_block
    payout_block-kept fuel parent out e =
        let start : Round db = record {
          height = block.height;
          op = CursorOp.set;
          total_paid = 0;
          cursor = (db.share_cursor (db.child parent)).1;
          txn = db.child parent;
        } in
        elim (Option-cases (pay_loop fp db config block fuel start)) [
          | inl stuck ↦ ground (arith, stuck)
          | inr (n, looped) ↦ ground (
            arith,
            looped,
            finish-kept parent n (pay_loop-kept fuel start n looped ∙ framed.child_kept parent),
          )
        ]
