-- ===== src/Blocks/Settle.antt =====
-- process_blocks of src/pool.c over a database without faults: all headers in order, and the credits that are owed
-- for them.
use salvium_pool.Prelude.{
  ℕ, ◌<◌, ◌≡◌, ◌∙◌, refl, sym, ap, true, Option, some, List, [], ◌∷◌, ◌++◌, All, length, map,
}
use salvium_pool.Pool.Types.{Config, Share, Block}
use salvium_pool.Pool.Double.{Double}
use salvium_pool.Pool.Lmdb.{Lmdb, IsReliable, HasBlocks, CursorOp, replace, BlockTable}
use salvium_pool.Payout.Spec.{IsSane, Credit, credit_all, credit_all-append}
use salvium_pool.Blocks.{scan, each_header, process_blocks}
use salvium_pool.Blocks.Fate.{fate, owed_all, IsPayable}
use salvium_pool.Blocks.Visit.{replace_same}
use salvium_pool.Blocks.Scan.{Scanned, scan-Scanned}

abbrev pub settle : Block → BlockTable → BlockTable
settle ib f = replace f ib.height (map (fate ib) (f ib.height))

abbrev pub settle_all : List Block → BlockTable → BlockTable
settle_all [] f = f
settle_all (ib ∷ l) f = settle_all l (settle ib f)

module _ (fp : Double) (config : Config fp.D) (shares : ℕ → List Share) where
  abbrev pub owed_headers : List Block → BlockTable → List Credit
  owed_headers [] f = []
  owed_headers (ib ∷ l) f =
      owed_all fp config shares ib (f ib.height) ++ owed_headers l (settle ib f)

  -- Fuel for the stored blocks of each header, and for the payout of each of them.
  abbrev pub AllPayable : ℕ → ℕ → List Block → BlockTable → Type 0
  AllPayable fuel rounds [] f = Unit
  AllPayable fuel rounds (ib ∷ l) f =
      All (IsPayable fp config shares fuel ib) (f ib.height)
      × (length (f ib.height) < rounds)
      × AllPayable fuel rounds l (settle ib f)

module _ (fp : Double) (db : Lmdb) (config : Config fp.D) (ok : IsReliable db)
    (store : HasBlocks db ok) (sane : IsSane fp config) (fuel rounds : ℕ) where
  open ok use {balance, shares_at}
  open store use {blocks_at}

  record Settled (headers : List Block) (f : BlockTable) (shares : ℕ → List Share) (t : db.Txn)
      (out : Option db.Txn) : Type 0 where
    after : db.Txn
    ended : out ≡ some after
    table : blocks_at after ≡ settle_all headers f
    balances : balance after ≡ credit_all (balance t) (owed_headers fp config shares headers f)
    shares_after : shares_at after ≡ shares

  scan_first :
      (f : BlockTable) (shares : ℕ → List Share) (ib : Block) (t : db.Txn) (c : db.Cursor)
      → blocks_at t ≡ f
      → shares_at t ≡ shares
      → All (IsPayable fp config shares fuel ib) (f ib.height)
      → length (f ib.height) < rounds
      → Scanned fp db config ok store sane fuel ib f shares []
          (f ib.height)
          t
          (scan fp db config fuel rounds CursorOp.set ib c t)
  scan_first f shares ib t c e es p m =
      scan-Scanned fp db config ok store sane fuel ib rounds f shares [] (f ib.height) CursorOp.set
        t c
        (record {
          table = e ∙ sym (replace_same f ib.height (f ib.height) refl);
          shares_same = es;
          here = tt;
          index = refl;
          payable = p;
        })
        m

  join_header :
      (ib : Block) (l : List Block) (f : BlockTable) (shares : ℕ → List Share) (t : db.Txn)
      (c : db.Cursor)
      (s : Scanned fp db config ok store sane fuel ib f shares []
        (f ib.height)
        t
        (scan fp db config fuel rounds CursorOp.set ib c t))
      → Settled l
          (settle ib f)
          shares
          s.after
          (each_header fp db config fuel rounds l s.cursor s.after)
      → Settled (ib ∷ l) f shares t (each_header fp db config fuel rounds (ib ∷ l) c t)
  unfolding each_header
  join_header ib l f shares t c s r = record {
    after = r.after;
    ended = rw (each_header, s.ended) r.ended;
    table = r.table;
    balances =
        r.balances
        ∙ ap (λ g. credit_all g (owed_headers fp config shares l (settle ib f))) s.balances
        ∙ sym (
            credit_all-append (balance t) (owed_all fp config shares ib (f ib.height))
              (owed_headers fp config shares l (settle ib f)));
    shares_after = r.shares_after;
  }

  each_header-Settled :
      (headers : List Block) (f : BlockTable) (shares : ℕ → List Share) (t : db.Txn) (c : db.Cursor)
      → blocks_at t ≡ f
      → shares_at t ≡ shares
      → AllPayable fp config shares fuel rounds headers f
      → Settled headers f shares t (each_header fp db config fuel rounds headers c t)
  unfolding each_header
  each_header-Settled [] f shares t c e es p = record {
    after = t;
    ended = refl;
    table = e;
    balances = refl;
    shares_after = es;
  }
  each_header-Settled (ib ∷ l) f shares t c e es (p, m, ps) =
      let s = scan_first f shares ib t c e es p m in
      join_header ib l f shares t c s (
        each_header-Settled l (settle ib f) shares s.after s.cursor s.table_after s.shares_after ps)

  -- Over a database without faults, for a pool fee that never exceeds what it is taken from, shares whose
  -- amounts together with the reward of each block that they are paid from stay below 2 ^ 64, and fuel for
  -- the loops, `process_blocks` succeeds in the process that settles blocks. Every stored block at the height of a header meets its fate by that header, the
  -- headers one after another: a locked one that the header confirms is unlocked, with the header's
  -- reward, a locked one that it does not confirm is orphaned, any other is left. The balances are the
  -- old ones with the PPLNS credits of each block that was unlocked, at the moment it was, and no others;
  -- a pool with an upstream credits nothing.
  pub process_blocks-settles :
      (headers : List Block) (parent : db.Txn)
      → AllPayable fp config (shares_at parent) fuel rounds headers (blocks_at parent)
      → (out : ℕ × db.Txn) × (process_blocks fp db config fuel true rounds headers parent
          ≡ some out)
        × (out.0 ≡ 0)
        × (blocks_at out.1 ≡ settle_all headers (blocks_at parent))
        × (balance out.1
            ≡ credit_all
                (balance parent)
                (owed_headers fp config (shares_at parent) headers (blocks_at parent)))
        × (shares_at out.1 ≡ shares_at parent)
  unfolding process_blocks
  process_blocks-settles headers parent p = (
    db.txn_commit s.after parent,
    rw (process_blocks, ok.begin_ok parent, store.cursor_ok (db.child parent), s.ended) refl,
    ok.commit_ok s.after parent,
    store.framed.commit_kept s.after parent ∙ s.table,
    ok.commit_balance s.after parent
        ∙ s.balances
        ∙ ap
            (λ g.
              credit_all g (owed_headers fp config (shares_at parent) headers (blocks_at parent)))
            (ok.child_balance parent),
    ok.commit_shares s.after parent ∙ s.shares_after,
  )
    where
      s : Settled headers (blocks_at parent) (shares_at parent) (db.child parent) (
          each_header fp db config fuel rounds headers
            (db.block_cursor (db.child parent)).1
            (db.child parent))
      s =
          each_header-Settled headers (blocks_at parent) (shares_at parent) (db.child parent)
            (db.block_cursor (db.child parent)).1 (store.framed.child_kept parent)
            (ok.child_shares parent) p
