-- ===== src/Payout/Bounds.antt =====
-- The variable `total_paid` of payout_block in src/pool.c, and its arithmetic where nothing wraps around.
use salvium_pool.Prelude.{some, zero, suc, ℕ, ◌+◌, ◌-◌, ◌%◌, ◌^◌, ◌≤◌, ◌<◌, ◌≡◌, arith}
use salvium_pool.Pool.Types.{Config, Share, Block}
use salvium_pool.Pool.Double.{Double}
use salvium_pool.Pool.Lmdb.{Lmdb}
use salvium_pool.Payout.{Round, Next, gross_amount, fee_of, net_of, pay_share, round, pay_loop}
use salvium_pool.Payout.Spec.{IsSmall, IsSane, earned}

module _ (fp : Double) (config : Config fp.D) (block : Block) where
  -- The wrap-around arithmetic of the code is the plain one.
  pub gross_amount-eq :
      (total : ℕ) (share : Share)
      → IsSmall fp config block share
      → total ≤ block.reward
      → (gross_amount fp config block total share ≡ earned fp config block total share)
        × ((total + earned fp config block total share) % 2 ^ 64
            ≡ total + earned fp config block total share)
  unfolding gross_amount
  gross_amount-eq total share small h = ground arith

  pub net_of-eq :
      (amount : ℕ)
      → IsSane fp config
      → amount < 2 ^ 64
      → net_of fp config amount ≡ amount - fee_of fp config amount
  net_of-eq amount ok h = omega (arith, ok.fee_le amount)

  module _ (db : Lmdb) where
    -- the variables of a round, whatever became of it
    abbrev pub state_of : Next db → Round db
    state_of (Next.again r) = r
    state_of (Next.break_loop r) = r
    state_of (Next.abort rc r) = r

    abbrev pub Within : Round db → Type 0
    Within r = r.total_paid ≤ block.reward

    gross_amount-Within :
        (total : ℕ) (share : Share)
        → block.reward < 2 ^ 64
        → total ≤ block.reward
        → (total + gross_amount fp config block total share) % 2 ^ 64 ≤ block.reward
    unfolding gross_amount
    gross_amount-Within total share word h = ground arith

    pay_share-Within :
        (r : Round db) (share : Share) (cursor : db.Cursor)
        → block.reward < 2 ^ 64
        → Within r
        → Within (state_of (pay_share fp db config block r share cursor))
    unfolding pay_share
    pay_share-Within r share cursor word h =
        ground (arith, gross_amount-Within r.total_paid share word h)

    pub round-Within :
        (r : Round db)
        → block.reward < 2 ^ 64
        → Within r
        → Within (state_of (round fp db config block r))
    unfolding round
    round-Within r word h = ground (
      arith,
      pay_share-Within r (db.share_get r.op r.height r.txn r.cursor).1
          (db.share_get r.op r.height r.txn r.cursor).2 word h,
    )

    -- Whatever codes and shares the database returns, and whatever amounts they come to, `total_paid`
    -- is never more than the reward, at every way out of the loop.
    pub pay_loop-Within :
        (fuel : ℕ) (r : Round db) (n : Next db)
        → block.reward < 2 ^ 64
        → Within r
        → pay_loop fp db config block fuel r ≡ some n
        → Within (state_of n)
    unfolding pay_loop
    pay_loop-Within zero r n word h e = cc
    pay_loop-Within (suc fuel) r n word h e = ground (
      arith,
      round-Within r word h,
      pay_loop-Within fuel (state_of (round fp db config block r)) n word,
    )
