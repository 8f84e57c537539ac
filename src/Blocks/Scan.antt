-- ===== src/Blocks/Scan.antt =====
-- The loop of process_blocks (src/pool.c) over the stored blocks at one header's height, over a database
-- without faults.
use salvium_pool.Prelude.{
  ℕ, zero, suc, ◌<◌, ◌≡◌, ◌∙◌, refl, sym, ap, ap₂, subst, Option, some, List, [], ◌∷◌, ◌++◌, arith,
  ◌==◌, Bool-cases, All, inl, inr, set, get_elem?, length, fun_ext, map, get_elem-append,
  get_elem-length, set-append, length-append, append_assoc, append-nil,
}
use salvium_pool.Pool.Types.{Config, Share, Block}
use salvium_pool.Pool.Double.{Double}
use salvium_pool.Pool.Lmdb.{
  Lmdb, IsReliable, HasBlocks, CursorOp, replace, BlockTable, StandsAt, block_index_of,
}
use salvium_pool.Payout.Spec.{IsSane, credit_all, credit_all-append}
use salvium_pool.Blocks.{visit, scan}
use salvium_pool.Blocks.Fate.{fate, owed, owed_all, IsPayable}
use salvium_pool.Blocks.Visit.{Visited, Found, visit-Visited}

pub replace_self : (f : BlockTable) (h : ℕ) (l : List Block) → replace f h l h ≡ l
replace_self f h l = ground arith

pub replace-replace :
    (f : BlockTable) (h : ℕ) (l k : List Block) → replace (replace f h l) h k ≡ replace f h k
replace-replace f h l k = fun_ext point
  where
    point : (i : ℕ) → replace (replace f h l) h k i ≡ replace f h k i
    point i = elim (Bool-cases (i == h)) [ inl same ↦ rw same refl | inr other ↦ rw other refl ]

pub append-cons :
    (xs : List Block) (y : Block) (ys : List Block) → xs ++ y ∷ ys ≡ (xs ++ y ∷ []) ++ ys
append-cons xs y ys = sym (append_assoc xs (y ∷ []) ys)

module _ (fp : Double) (db : Lmdb) (config : Config fp.D) (ok : IsReliable db)
    (store : HasBlocks db ok) (sane : IsSane fp config) (fuel : ℕ) (ib : Block) where
  open ok use {balance, shares_at}
  open store use {blocks_at, key, at}

  -- the loop before a round: `front` is settled, `back` is still to come
  pub record Before (f : BlockTable) (shares : ℕ → List Share) (front back : List Block)
      (op : CursorOp) (t : db.Txn) (c : db.Cursor) : Type 0 where
    pub table : blocks_at t ≡ replace f ib.height (front ++ back)
    pub shares_same : shares_at t ≡ shares
    pub here : StandsAt op ib.height (key c)
    pub index : block_index_of op (at c) ≡ length front
    pub payable : All (IsPayable fp config shares fuel ib) back

  -- the loop after its end
  pub record Scanned (f : BlockTable) (shares : ℕ → List Share) (front back : List Block)
      (t : db.Txn) (out : Option (db.Cursor × db.Txn)) : Type 0 where
    pub cursor : db.Cursor
    pub after : db.Txn
    pub ended : out ≡ some (cursor, after)
    pub table_after : blocks_at after ≡ replace f ib.height (front ++ map (fate ib) back)
    pub balances : balance after ≡ credit_all (balance t) (owed_all fp config shares ib back)
    pub shares_after : shares_at after ≡ shares

  blocks_here :
      (f : BlockTable) (shares : ℕ → List Share) (front back : List Block) (op : CursorOp)
      (t : db.Txn) (c : db.Cursor)
      → Before f shares front back op t c
      → blocks_at t ib.height ≡ front ++ back
  blocks_here f shares front back op t c b =
      ap (λ (g : BlockTable). g ib.height) b.table ∙ replace_self f ib.height (front ++ back)

  scan_end :
      (rounds : ℕ) (f : BlockTable) (shares : ℕ → List Share) (front : List Block) (op : CursorOp)
      (t : db.Txn) (c : db.Cursor)
      → Before f shares front [] op t c
      → Scanned f shares front [] t (scan fp db config fuel (suc rounds) op ib c t)
  unfolding scan
  scan_end rounds f shares front op t c b = record {
    cursor = (db.block_get op ib.height t c).2;
    after = t;
    ended = ground (arith, ok.not_found_ne, missing);
    table_after = b.table;
    balances = refl;
    shares_after = b.shares_same;
  }
    where
      missing : (db.block_get op ib.height t c).0 ≡ db.not_found
      missing = store.get_none op ib.height t c b.here (
          ap₂ get_elem? (blocks_here f shares front [] op t c b ∙ append-nil front) b.index
          ∙ get_elem-length front)

  -- the step that a found block makes
  record Next (f : BlockTable) (shares : ℕ → List Share) (front back : List Block) (sb : Block)
      (op : CursorOp) (t : db.Txn) (c : db.Cursor) : Type 0 where
    next : db.Txn
    found_ok : (db.block_get op ib.height t c).0 ≡ 0
    visited :
        visit fp db config fuel ib
          (db.block_get op ib.height t c).1
          (db.block_get op ib.height t c).2
          t
        ≡ some next
    credited_all : balance next ≡ credit_all (balance t) (owed fp config shares ib sb)
    before :
        Before f shares
          (front ++ fate ib sb ∷ [])
          back
          CursorOp.next_dup
          next
          (db.block_get op ib.height t c).2

  step :
      (f : BlockTable) (shares : ℕ → List Share) (front back : List Block) (sb : Block)
      (op : CursorOp) (t : db.Txn) (c : db.Cursor)
      → Before f shares front (sb ∷ back) op t c
      → Next f shares front back sb op t c
  step f shares front back sb op t c b = record {
    next = v.after;
    found_ok = got.0;
    visited = rw got.1 v.ended;
    credited_all =
        subst (λ s. balance v.after ≡ credit_all (balance t) (owed fp config s ib sb)) b.shares_same
          v.balances;
    before = record {
      table =
          v.blocks
          ∙ ap₂ (λ g l. replace g ib.height l) b.table
              (ap₂ (λ l i. set l i (fate ib sb)) listed (got.3 ∙ b.index)
                ∙ set-append front back sb (fate ib sb))
          ∙ replace-replace f ib.height (front ++ sb ∷ back) (front ++ fate ib sb ∷ back)
          ∙ ap (replace f ib.height) (append-cons front (fate ib sb) back);
      shares_same = v.shares ∙ b.shares_same;
      here = got.2;
      index = omega (arith, got.3, b.index, length-append front (fate ib sb ∷ []));
      payable = b.payable.1;
    };
  }
    where
      c' : db.Cursor
      c' = (db.block_get op ib.height t c).2

      listed : blocks_at t ib.height ≡ front ++ sb ∷ back
      listed = blocks_here f shares front (sb ∷ back) op t c b

      got :
          ((db.block_get op ib.height t c).0 ≡ 0)
          × ((db.block_get op ib.height t c).1 ≡ sb)
          × (key c' ≡ ib.height)
          × (at c' ≡ block_index_of op (at c))
      got =
          store.get_some op ib.height t c sb b.here
            (ap₂ get_elem? listed b.index ∙ get_elem-append front back sb)

      found : Found fp db config ok store sane ib sb t c'
      found = record {
        here = got.2;
        found = ap₂ get_elem? listed (got.3 ∙ b.index) ∙ get_elem-append front back sb;
      }

      v : Visited fp db config ok store sane ib sb t c' (visit fp db config fuel ib sb c' t)
      v =
          visit-Visited fp db config ok store sane fuel ib sb t c' found
            (subst (λ s. IsPayable fp config s fuel ib sb) (sym b.shares_same) b.payable.0)

  scan_step :
      (rounds : ℕ) (f : BlockTable) (shares : ℕ → List Share) (front back : List Block) (sb : Block)
      (op : CursorOp) (t : db.Txn) (c : db.Cursor) (n : Next f shares front back sb op t c)
      → scan fp db config fuel (suc rounds) op ib c t
        ≡ scan fp db config fuel rounds CursorOp.next_dup ib
            (db.block_get op ib.height t c).2
            n.next
  unfolding scan
  scan_step rounds f shares front back sb op t c n = rw (scan, n.visited, n.found_ok) refl

  scan_join :
      (rounds : ℕ) (f : BlockTable) (shares : ℕ → List Share) (front back : List Block) (sb : Block)
      (op : CursorOp) (t : db.Txn) (c : db.Cursor) (n : Next f shares front back sb op t c)
      → Scanned f shares (front ++ fate ib sb ∷ []) back n.next (
          scan fp db config fuel rounds CursorOp.next_dup ib
            (db.block_get op ib.height t c).2
            n.next)
      → Scanned f shares front (sb ∷ back) t (scan fp db config fuel (suc rounds) op ib c t)
  scan_join rounds f shares front back sb op t c n s = record {
    cursor = s.cursor;
    after = s.after;
    ended = scan_step rounds f shares front back sb op t c n ∙ s.ended;
    table_after =
        s.table_after
        ∙ ap (replace f ib.height) (sym (append-cons front (fate ib sb) (map (fate ib) back)));
    balances =
        s.balances
        ∙ ap (λ g. credit_all g (owed_all fp config shares ib back)) n.credited_all
        ∙ sym (
            credit_all-append (balance t) (owed fp config shares ib sb)
              (owed_all fp config shares ib back));
    shares_after = s.shares_after;
  }

  -- The loop ends, and each of the blocks still to come meets its fate.
  pub scan-Scanned :
      (rounds : ℕ) (f : BlockTable) (shares : ℕ → List Share) (front back : List Block)
      (op : CursorOp) (t : db.Txn) (c : db.Cursor)
      → Before f shares front back op t c
      → length back < rounds
      → Scanned f shares front back t (scan fp db config fuel rounds op ib c t)
  scan-Scanned zero f shares front back op t c b m = absurd (omega arith)
  scan-Scanned (suc rounds) f shares front [] op t c b m = scan_end rounds f shares front op t c b
  scan-Scanned (suc rounds) f shares front (sb ∷ back) op t c b m =
      let n = step f shares front back sb op t c b in
      scan_join rounds f shares front back sb op t c n (
        scan-Scanned rounds f shares (front ++ fate ib sb ∷ []) back CursorOp.next_dup n.next
          (db.block_get op ib.height t c).2 n.before (omega arith))
