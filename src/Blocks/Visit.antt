-- ===== src/Blocks/Visit.antt =====
-- One stored block under one header in process_blocks (src/pool.c), over a database without faults.
use salvium_pool.Prelude.{
  ℕ, ◌≡◌, ◌∙◌, refl, sym, ap, true, false, Option, some, List, [], arith, ◌==◌, if◌then◌else◌,
  Bool-cases, bit_or, bit_and, inl, inr, set, get_elem?, set_same, fun_ext, if_elim,
}
use salvium_pool.Pool.Types.{Config, Block}
use salvium_pool.Pool.Double.{Double}
use salvium_pool.Pool.Lmdb.{Lmdb, IsReliable, HasBlocks, IsFramed, replace, BlockTable}
use salvium_pool.Payout.{payout_block}
use salvium_pool.Payout.Spec.{IsSane, credit_all, credits}
use salvium_pool.Payout.Frame.{payout_block-kept}
use salvium_pool.Payout.Loop.{payout_block-credits}
use salvium_pool.Blocks.{orphaned, unlocked, settle_payout, visit}
use salvium_pool.Blocks.Fate.{confirms, is_locked, fate, owed, IsPayable, as_unlocked, shares_upto}

pub replace_same : (f : BlockTable) (h : ℕ) (l : List Block) → l ≡ f h → replace f h l ≡ f
replace_same f h l e = fun_ext point
  where
    point : (k : ℕ) → replace f h l k ≡ f k
    point k = elim (Bool-cases (k == h)) [
      | inl same ↦ rw same (e ∙ ap f (ground arith))
      | inr other ↦ rw other refl
    ]

module _ (fp : Double) (db : Lmdb) (config : Config fp.D) (ok : IsReliable db)
    (store : HasBlocks db ok) (sane : IsSane fp config) where
  open ok use {balance, shares_at}
  open store use {blocks_at, key, at}

  pub shares_framed : IsFramed db shares_at
  shares_framed = record {
    child_kept = ok.child_shares;
    commit_kept = ok.commit_shares;
    put_kept = ok.put_shares;
  }

  -- what a stored block's visit leaves
  pub record Visited (ib sb : Block) (t : db.Txn) (c : db.Cursor) (out : Option db.Txn)
      : Type 0 where
    pub after : db.Txn
    pub ended : out ≡ some after
    pub blocks :
        blocks_at after
        ≡ replace (blocks_at t) ib.height (set (blocks_at t ib.height) (at c) (fate ib sb))
    pub balances : balance after ≡ credit_all (balance t) (owed fp config (shares_at t) ib sb)
    pub shares : shares_at after ≡ shares_at t

  -- where the cursor stands
  pub record Found (ib sb : Block) (t : db.Txn) (c : db.Cursor) : Type 0 where
    pub here : key c ≡ ib.height
    pub found : get_elem? (blocks_at t ib.height) (at c) ≡ some sb

  write_at :
      (ib sb nb : Block) (t paid : db.Txn) (c : db.Cursor)
      → Found ib sb t c
      → sb.timestamp ≡ nb.timestamp
      → blocks_at paid ≡ blocks_at t
      → blocks_at (db.block_put ib.height nb paid c).1
        ≡ replace (blocks_at t) ib.height (set (blocks_at t ib.height) (at c) nb)
  write_at ib sb nb t paid c f same e =
      store.put_block ib.height nb sb paid c f.here
        (ap (λ (b : BlockTable). get_elem? (b ib.height) (at c)) e ∙ f.found) same
      ∙ ap (λ (b : BlockTable). replace b ib.height (set (b ib.height) (at c) nb)) e

  -- A put without a payment.
  put_only :
      (ib sb nb : Block) (t : db.Txn) (c : db.Cursor)
      → Found ib sb t c
      → fate ib sb ≡ nb
      → sb.timestamp ≡ nb.timestamp
      → owed fp config (shares_at t) ib sb ≡ []
      → Visited ib sb t c (some (db.block_put ib.height nb t c).1)
  put_only ib sb nb t c f e same free = record {
    after = (db.block_put ib.height nb t c).1;
    ended = refl;
    blocks = rw e (write_at ib sb nb t t c f same refl);
    balances = rw free (store.put_balance ib.height nb t c);
    shares = store.put_shares ib.height nb t c;
  }

  -- A put after a payment.
  put_paid :
      (fuel : ℕ) (ib sb : Block) (t : db.Txn) (c : db.Cursor)
      → Found ib sb t c
      → fate ib sb ≡ as_unlocked fp config (shares_at t) ib sb
      → owed fp config (shares_at t) ib sb
        ≡ credits fp config
            (as_unlocked fp config (shares_at t) ib sb)
            0
            (shares_upto fp config (shares_at t) sb.height)
      → IsPayable fp config (shares_at t) fuel ib sb
      → Visited ib sb t c
          (settle_payout fp db config fuel ib (as_unlocked fp config (shares_at t) ib sb) c t)
  unfolding settle_payout
  put_paid fuel ib sb t c f e debt (small, m) = record {
    after = after;
    ended = rw (settle_payout, paid.1, paid.2) refl;
    blocks = rw e (
        write_at ib sb nb t paid.0.1 c f refl
          (payout_block-kept db blocks_at store.framed fp config nb fuel t paid.0 paid.1));
    balances = rw debt (store.put_balance ib.height nb paid.0.1 c ∙ paid.3);
    shares =
        store.put_shares ib.height nb paid.0.1 c
        ∙ payout_block-kept db shares_at shares_framed fp config nb fuel t paid.0 paid.1;
  }
    where
      nb : Block
      nb = as_unlocked fp config (shares_at t) ib sb

      paid :
          (out : ℕ × db.Txn) × (payout_block fp db config nb fuel t ≡ some out)
          × (out.0 ≡ 0)
          × (balance out.1
              ≡ credit_all
                  (balance t)
                  (credits fp config nb 0 (shares_upto fp config (shares_at t) sb.height)))
      paid = payout_block-credits fp db config nb ok sane fuel t small m

      after : db.Txn
      after = (db.block_put ib.height nb paid.0.1 c).1

  locked_orphaned : (sb : Block) → sb.status ≡ 0 → orphaned sb ≡ record sb { status = 2 }
  unfolding orphaned
  locked_orphaned sb e = ap (λ s. record sb { status = bit_or s 2 }) e

  locked_unlocked :
      (ib sb : Block)
      → sb.status ≡ 0
      → unlocked ib sb ≡ record sb { status = 1; reward = ib.reward }
  unfolding unlocked
  locked_unlocked ib sb e = ap (λ s. record sb { status = bit_or s 1; reward = ib.reward }) e

  -- A block that is not locked is left.
  left_alone :
      (ib sb : Block) (t : db.Txn) (c : db.Cursor)
      → Found ib sb t c
      → is_locked sb ≡ false
      → Visited ib sb t c (some t)
  left_alone ib sb t c f l = record {
    after = t;
    ended = refl;
    blocks = rw l (
        sym (
          replace_same (blocks_at t) ib.height (set (blocks_at t ib.height) (at c) sb)
            (set_same (blocks_at t ib.height) (at c) sb f.found)));
    balances = rw l refl;
    shares = refl;
  }

  -- A locked block that the header does not confirm is put as orphaned.
  put_orphaned :
      (ib sb : Block) (t : db.Txn) (c : db.Cursor)
      → Found ib sb t c
      → is_locked sb ≡ true
      → confirms ib sb ≡ false
      → Visited ib sb t c (some (db.block_put ib.height (orphaned sb) t c).1)
  put_orphaned ib sb t c f l n =
      rw (locked_orphaned sb (ground arith))
        (put_only ib sb (record sb { status = 2 }) t c f (rw (l, n) refl) refl (rw (l, n) refl))

  -- A locked block that the header confirms is put as unlocked, and paid unless an upstream pays.
  put_unlocked :
      (fuel : ℕ) (ib sb : Block) (t : db.Txn) (c : db.Cursor)
      → Found ib sb t c
      → is_locked sb ≡ true
      → confirms ib sb ≡ true
      → IsPayable fp config (shares_at t) fuel ib sb
      → Visited ib sb t c (
          if config.has_upstream
          then some (db.block_put ib.height (unlocked ib sb) t c).1
          else settle_payout fp db config fuel ib (unlocked ib sb) c t)
  put_unlocked fuel ib sb t c f l y p = rw (locked_unlocked ib sb (ground arith)) (
      if_elim (Visited ib sb t c) config.has_upstream (some (db.block_put ib.height nb t c).1)
        (settle_payout fp db config fuel ib nb c t)
        (λ up. put_only ib sb nb t c f (rw (l, y) refl) refl (ground (arith, l, y, up)))
        (λ down. put_paid fuel ib sb t c f (rw (l, y) refl) (ground (arith, l, y, down)) p))
    where
      nb : Block
      nb = as_unlocked fp config (shares_at t) ib sb

  -- The visit of a stored block.
  pub visit-Visited :
      (fuel : ℕ) (ib sb : Block) (t : db.Txn) (c : db.Cursor)
      → Found ib sb t c
      → IsPayable fp config (shares_at t) fuel ib sb
      → Visited ib sb t c (visit fp db config fuel ib sb c t)
  unfolding visit
  visit-Visited fuel ib sb t c f p = elim (Bool-cases (is_locked sb)) [
    | inr l ↦ rw l (left_alone ib sb t c f l)
    | inl l ↦ rw l (elim (Bool-cases (ib.hash == sb.hash)) [
      | inr h ↦ rw h (put_orphaned ib sb t c f l (rw h refl))
      | inl h ↦ rw h (elim (Bool-cases (ib.prev_hash == sb.prev_hash)) [
        | inr q ↦ rw q (put_orphaned ib sb t c f l (rw (h, q) refl))
        | inl q ↦ rw q (elim (Bool-cases (bit_and ib.status 2 == 0)) [
          | inr s ↦ rw s (put_orphaned ib sb t c f l (rw (h, q, s) refl))
          | inl s ↦ rw s (put_unlocked fuel ib sb t c f l (rw (h, q, s) refl) p)
        ])
      ])
    ])
  ]
