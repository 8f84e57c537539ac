-- ===== src/Payout.antt =====
-- payout_block of src/pool.c: PPLNS, the reward of a block shared out over the newest shares at and
-- below its height.
pub mod Spec
pub mod Bounds
pub mod PayShare
pub mod Progress
pub mod Loop
pub mod Frame
pub mod Window
mod Tests
use salvium_pool.Prelude.{
  ℕ, zero, suc, ◌+◌, ◌-◌, ◌%◌, ◌^◌, Bool, Option, none, some, ◌&&◌, not, ◌==◌, ltb, if◌then◌else◌,
}
use salvium_pool.Pool.Types.{Config, Share, Block}
use salvium_pool.Pool.Double.{Double}
use salvium_pool.Pool.Lmdb.{Lmdb, CursorOp, pdb_txn_begin}
use salvium_pool.Balance.{balance_add}

module _ (fp : Double) (config : Config fp.D) where
  open fp use {of_u64, to_u64, mul, div, floor}

  -- `floor((double)share->difficulty / ((double)block->difficulty * share_mul) * block->reward)`
  unfoldable pub raw_amount : Block → Share → ℕ
  raw_amount block share = to_u64 (
      floor (
        mul (div (of_u64 share.difficulty) (mul (of_u64 block.difficulty) config.share_mul))
          (of_u64 block.reward)))

  -- The amount of a share, cut to what is left of the reward.
  unfoldable pub gross_amount : Block → ℕ → Share → ℕ
  unfolding raw_amount
  gross_amount block total_paid share =
      let amount = raw_amount block share in
      if ltb block.reward ((total_paid + amount) % 2 ^ 64)
      then (block.reward + 2 ^ 64 - total_paid) % 2 ^ 64
      else amount

  -- `uint64_t fee = amount * config.pool_fee`
  unfoldable pub fee_of : ℕ → ℕ
  fee_of amount = to_u64 (mul (of_u64 amount) config.pool_fee)

  abbrev pub net_of : ℕ → ℕ
  net_of amount = (amount + 2 ^ 64 - fee_of amount) % 2 ^ 64

-- The loop's variables. `total_paid` is also part of what is returned, for the statements about it.
pub record Round (db : Lmdb) : Type 0 where
  pub height : ℕ
  pub op : CursorOp
  pub total_paid : ℕ
  pub cursor : db.Cursor
  pub txn : db.Txn

-- What one round does: go on, leave the loop, or return a code at once after an abort.
pub data Next (db : Lmdb) : Type 0 where
  again : Round db → Next db
  break_loop : Round db → Next db
  abort : ℕ → Round db → Next db

module _ (fp : Double) (db : Lmdb) (config : Config fp.D) (block : Block) where
  open db use {Txn, Cursor, not_found, share_get}

  -- The fee of a share goes to the pool's wallet; an error of it is logged only.
  unfoldable pub pay_fee : ℕ → Txn → Txn
  pay_fee fee txn =
      let paid = balance_add db config.pool_fee_wallet fee txn in
      if ltb 0 fee && not (config.pool_fee_wallet == 0) then paid.1 else txn

  -- From the reading of a share to the end of the round.
  unfoldable pub pay_share : Round db → Share → Cursor → Next db
  pay_share r share cursor =
      let gross = gross_amount fp config block r.total_paid share in
      let fee = fee_of fp config gross in
      let net = net_of fp config gross in
      let txn = pay_fee fee r.txn in
      let paid = balance_add db share.address net txn in
      let r' : Round db = record {
        height = r.height;
        op = CursorOp.next_dup;
        total_paid = (r.total_paid + gross) % 2 ^ 64;
        cursor = cursor;
        txn = txn;
      } in
      if net == 0
      then again r'
      else if paid.0 == 0
      then again (record r' { txn = paid.1 })
      else abort paid.0 r'

  -- One round of `while (1)`.
  unfoldable pub round : Round db → Next db
  round r =
      let (rc, share, cursor) = share_get r.op r.height r.txn r.cursor in
      let seen : Round db = record r { op = CursorOp.next_dup; cursor = cursor } in
      if (rc == not_found) && ltb r.total_paid block.reward
      then (if r.height == 0
          then break_loop seen
          else again (record seen { height = r.height - 1; op = CursorOp.set }))
      else if not (rc == 0) && not (rc == not_found)
      then break_loop seen
      else if r.total_paid == block.reward
      then break_loop seen
      else pay_share r share cursor

  -- The loop; `none` when the fuel is used up.
  unfoldable pub pay_loop : ℕ → Round db → Option (Next db)
  pay_loop zero r = none
  pay_loop (suc fuel) r = elim (round r) [
    | again r' ↦ pay_loop fuel r'
    | break_loop r' ↦ some (break_loop r')
    | abort rc r' ↦ some (abort rc r')
  ]

  -- A loop that was left is committed into the parent; one that aborted leaves the parent as it was.
  unfoldable pub finish : Txn → Next db → ℕ × Txn
  finish parent (again r) = (0, parent)
  finish parent (break_loop r) = db.txn_commit r.txn parent
  finish parent (abort rc r) = (rc, parent)

  -- The code, and what the parent sees then.
  unfoldable pub payout_block : ℕ → Txn → Option (ℕ × Txn)
  payout_block fuel parent =
      let txn = db.child parent in
      let begun = pdb_txn_begin db parent in
      let (opened, cursor) = db.share_cursor txn in
      let start : Round db = record {
        height = block.height;
        op = CursorOp.set;
        total_paid = 0;
        cursor = cursor;
        txn = txn;
      } in
      let looped = pay_loop fuel start in
      if begun == 0
      then (if opened == 0
          then elim looped [ none ↦ none | some n ↦ some (finish parent n) ]
          else some (opened, parent))
      else some (begun, parent)
