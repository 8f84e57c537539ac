-- ===== src/Payout/Loop.antt =====
-- The loop of payout_block (src/pool.c) over a database without faults, against `Payout.Spec`.
use salvium_pool.Prelude.{
  ℕ, zero, suc, ◌+◌, ◌≤◌, ◌<◌, ◌≡◌, sym, ap, ap₂, ◌∙◌, ◌≢◌, Option, some, List, ◌∷◌, ◌++◌, arith,
  length, All, subst,
}
use salvium_pool.Pool.Types.{Config, Share, Block}
use salvium_pool.Pool.Double.{Double}
use salvium_pool.Pool.Lmdb.{Lmdb, IsReliable, CursorOp}
use salvium_pool.Payout.{Round, Next, round, pay_loop, finish, payout_block}
use salvium_pool.Payout.Spec.{
  Credit, sum, credits-sum-le-reward, IsSmall, IsSane, earned, share_credits, credits, paid_after,
  credit_all, credit_all-append, credits-cons,
}
use salvium_pool.Payout.Window.{rest_below}
use salvium_pool.Payout.PayShare.{Paid}
use salvium_pool.Payout.Progress.{rest, Step, round-Step}

module _ (fp : Double) (db : Lmdb) (config : Config fp.D) (block : Block) (ok : IsReliable db)
    (sane : IsSane fp config) where
  open ok use {balance, shares_at}

  abbrev left : Round db → List Share
  left r = rest fp db config block ok sane r

  -- what the loop has come to when it is left
  pub record Done (r : Round db) (out : Option (Next db)) : Type 0 where
    pub final : Round db
    pub ended : out ≡ some (Next.break_loop final)
    pub balances :
        balance final.txn
        ≡ credit_all (balance r.txn) (credits fp config block r.total_paid (left r))
    pub total : final.total_paid ≡ paid_after fp config block r.total_paid (left r)

  loop-stop :
      (fuel : ℕ) (r r' : Round db)
      → round fp db config block r ≡ Next.break_loop r'
      → pay_loop fp db config block (suc fuel) r ≡ some (Next.break_loop r')
  unfolding pay_loop
  loop-stop fuel r r' e = rw (e, pay_loop)

  loop-again :
      (fuel : ℕ) (r r' : Round db)
      → round fp db config block r ≡ Next.again r'
      → pay_loop fp db config block (suc fuel) r ≡ pay_loop fp db config block fuel r'
  unfolding pay_loop
  loop-again fuel r r' e = rw (e, pay_loop)

  -- One more round in front of a loop that is done, when no share was paid in it.
  down-Done :
      (r r' : Round db) (out : Option (Next db))
      → r'.txn ≡ r.txn
      → r'.total_paid ≡ r.total_paid
      → left r' ≡ left r
      → Done r' out
      → Done r out
  down-Done r r' out et ep el d = record {
    final = d.final;
    ended = d.ended;
    balances =
        d.balances
        ∙ ap (λ t. credit_all (balance t) (credits fp config block r'.total_paid (left r'))) et
        ∙ ap₂ (λ p l. credit_all (balance r.txn) (credits fp config block p l)) ep el;
    total = d.total ∙ ap₂ (λ p l. paid_after fp config block p l) ep el;
  }

  -- One more round in front, when a share was paid in it.
  pay-Done :
      (r r' : Round db) (x : Share) (c : db.Cursor) (out : Option (Next db))
      → Paid fp db config block ok sane r x c r'
      → left r ≡ x ∷ left r'
      → r.total_paid ≢ block.reward
      → Done r' out
      → Done r out
  pay-Done r r' x c out p el ne d = record {
    final = d.final;
    ended = d.ended;
    balances =
        d.balances
        ∙ ap₂ (λ f t. credit_all f (credits fp config block t (left r'))) p.balances p.total
        ∙ sym (
            credit_all-append (balance r.txn) (share_credits fp config block r.total_paid x) (
              credits fp config block (r.total_paid + earned fp config block r.total_paid x)
                (left r')))
        ∙ ap (λ cs. credit_all (balance r.txn) cs)
            (sym (
              ap (λ l. credits fp config block r.total_paid l) el
              ∙ (credits-cons fp config block r.total_paid x (left r') ne).0));
    total =
        d.total
        ∙ ap (λ t. paid_after fp config block t (left r')) p.total
        ∙ sym (
            ap (λ l. paid_after fp config block r.total_paid l) el
            ∙ (credits-cons fp config block r.total_paid x (left r') ne).1);
  }

  -- With fuel for every share that is left and every height below, the loop is left by `break`, the
  -- balances then hold the credits of those shares, and `total_paid` is their total.
  pub loop-Done :
      (fuel : ℕ) (r : Round db)
      → All (IsSmall fp config block) (left r)
      → r.total_paid ≤ block.reward
      → length (left r) + r.height < fuel
      → Done r (pay_loop fp db config block fuel r)
  loop-Done zero r small h m = absurd (omega arith)
  loop-Done (suc fuel) r small h m = elim (round-Step fp db config block ok sane r small h) [
    | Step.stop r' e et ep ec ea ↦ record {
      final = r';
      ended = loop-stop fuel r r' e;
      balances = ap (λ t. balance t) et ∙ ap (λ cs. credit_all (balance r.txn) cs) (sym ec);
      total = ep ∙ sym ea;
    }
    | Step.down r' e et ep el eh ↦
        down-Done r r' (pay_loop fp db config block (suc fuel) r) et ep el (
          rw (loop-again fuel r r' e) (
            loop-Done fuel r' (subst (All (IsSmall fp config block)) (sym el) small) (omega arith)
              (omega (arith, ap length el))))
    | Step.pay r' x e p el ne ↦
        pay-Done r r' x (db.share_get r.op r.height r.txn r.cursor).2
          (pay_loop fp db config block (suc fuel) r) p el ne
          (rw (loop-again fuel r r' e) (
            loop-Done fuel r' (subst (All (IsSmall fp config block)) el small).1
              (omega (arith, p.total)) (omega (arith, p.height, ap length el))))
  ]

  -- the shares at and below the block's height
  abbrev pub window : db.Txn → List Share
  window t = shares_at t block.height ++ rest_below (shares_at t) block.height

  -- Over a database without faults, for a pool fee that never exceeds what it is taken from and shares
  -- whose amounts together with the reward stay below 2 ^ 64, and with fuel for the shares and the heights
  -- at and below the block's, `payout_block` succeeds, and the balances that its parent sees then are the old ones with
  -- the PPLNS credits of those shares, and no other change.
  pub payout_block-credits :
      (fuel : ℕ) (parent : db.Txn)
      → All (IsSmall fp config block) (window parent)
      → length (window parent) + block.height < fuel
      → (out : ℕ × db.Txn) × (payout_block fp db config block fuel parent ≡ some out)
        × (out.0 ≡ 0)
        × (balance out.1 ≡ credit_all (balance parent) (credits fp config block 0 (window parent)))
  unfolding payout_block finish
  payout_block-credits fuel parent small m = (
    db.txn_commit done.final.txn parent,
    rw (ok.begin_ok parent, ok.share_cursor_ok (db.child parent), done.ended),
    ok.commit_ok done.final.txn parent,
    ok.commit_balance done.final.txn parent
        ∙ done.balances
        ∙ ap₂
            (λ f s.
              credit_all f
                (credits fp config block 0 (s block.height ++ rest_below s block.height)))
            (ok.child_balance parent) (ok.child_shares parent),
  )
    where
      start : Round db
      start = record {
        height = block.height;
        op = CursorOp.set;
        total_paid = 0;
        cursor = (db.share_cursor (db.child parent)).1;
        txn = db.child parent;
      }

      done : Done start (pay_loop fp db config block fuel start)
      done =
          loop-Done fuel start (rw (ok.child_shares parent) small) (omega arith)
            (rw (ok.child_shares parent) m)

  -- Over a database without faults, for a pool fee that never exceeds what it is taken from and shares
  -- whose amounts together with the reward stay below 2 ^ 64, and with fuel for the loop, what
  -- `payout_block` adds to the balances, fees included, is a list of credits that adds up to no more
  -- than the block's reward.
  pub payout_block-reward :
      (fuel : ℕ) (parent : db.Txn)
      → All (IsSmall fp config block) (window parent)
      → length (window parent) + block.height < fuel
      → (out : ℕ × db.Txn) × (added : List Credit) × (payout_block fp db config block fuel parent
          ≡ some out)
        × (balance out.1 ≡ credit_all (balance parent) added)
        × (sum added ≤ block.reward)
  payout_block-reward fuel parent small m =
      let (out, ended, code, balances) = payout_block-credits fuel parent small m in
      (
        out,
        credits fp config block 0 (window parent),
        ended,
        balances,
        credits-sum-le-reward fp config block (window parent) sane,
      )
