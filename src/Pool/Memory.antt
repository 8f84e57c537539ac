-- ===== src/Pool/Memory.antt =====
-- A database in memory that meets the interface of `Pool.Lmdb`: it shows that what the theorems assume
-- of LMDB can hold, and the tests run on it.
use salvium_pool.Prelude.{
  ℕ, suc, ◌≡◌, ◌≢◌, refl, ap, Option, none, some, List, [], ◌∷◌, get_elem?, arith, set,
}
use salvium_pool.Pool.Types.{Address, Share, Block, Payment}
use salvium_pool.Pool.Lmdb.{
  Lmdb, IsReliable, CursorOp, Balances, update, pdb_txn_begin, IsFramed, HasBlocks, StandsAt,
  block_index_of, replace,
}

pub record Memory : Type 0 where
  pub balances : Balances
  pub shares : ℕ → List Share
  pub blocks : ℕ → List Block
  pub payments : Address → List Payment

-- the shares after the cursor, and the key and the index of the block that it stands on
pub record Position : Type 0 where
  pub shares_left : List Share
  pub block_key : ℕ
  pub block_index : ℕ

abbrev no_share : Share
no_share = record { height = 0; difficulty = 0; address = 0; timestamp = 0 }

abbrev no_block : Block
no_block = record {
  height = 0;
  hash = 0;
  prev_hash = 0;
  difficulty = 0;
  status = 0;
  reward = 0;
  timestamp = 0;
}

abbrev pub at_start : Position
at_start = record { shares_left = []; block_key = 0; block_index = 0 }

abbrev read_share : List Share → ℕ × Share × Position
read_share [] = (1, no_share, at_start)
read_share (x ∷ l) = (0, x, record { shares_left = l; block_key = 0; block_index = 0 })

abbrev share_get : CursorOp → ℕ → Memory → Position → ℕ × Share × Position
share_get CursorOp.set h m c = read_share (m.shares h)
share_get CursorOp.next_dup h m c = read_share c.shares_left

abbrev read_block : ℕ → ℕ → Option Block → ℕ × Block × Position
read_block h i none = (1, no_block, record { shares_left = []; block_key = h; block_index = i })
read_block h i (some b) = (0, b, record { shares_left = []; block_key = h; block_index = i })

abbrev block_get : CursorOp → ℕ → Memory → Position → ℕ × Block × Position
block_get CursorOp.set h m c = read_block h 0 (get_elem? (m.blocks h) 0)
block_get CursorOp.next_dup h m c =
    read_block c.block_key (suc c.block_index)
      (get_elem? (m.blocks c.block_key) (suc c.block_index))

abbrev read_balance : Option ℕ → ℕ × ℕ
read_balance none = (1, 0)
read_balance (some v) = (0, v)

abbrev pub memory_db : Lmdb
memory_db = record {
  Txn = Memory;
  Cursor = Position;
  not_found = 1;
  map_resized = 2;
  txn_begin = λ t. 0;
  set_mapsize = λ t. 0;
  txn_begin_resized = λ t. 0;
  child = λ t. t;
  txn_commit = λ c t. (0, c);
  share_cursor = λ t. (0, at_start);
  share_get = share_get;
  balance_cursor = λ t. 0;
  balance_get = λ a t. read_balance (t.balances a);
  balance_put = λ a v t. (0, record t { balances = update t.balances a v });
  block_cursor = λ t. (0, at_start);
  block_get = block_get;
  block_put = λ h b t c. (
    0,
    record t { blocks = replace t.blocks c.block_key (set (t.blocks c.block_key) c.block_index b) },
  );
}

abbrev memory_framed_blocks : IsFramed memory_db (λ t. t.blocks)
memory_framed_blocks = record {
  child_kept = λ t. refl;
  commit_kept = λ c t. refl;
  put_kept = λ a v t. refl;
}

pub one_ne_zero : ◌≢◌ {A = ℕ} 1 0
one_ne_zero e = omega arith

pub memory_begin : (t : Memory) → pdb_txn_begin memory_db t ≡ 0
unfolding pdb_txn_begin
memory_begin t = refl

abbrev pub memory_db-IsReliable : IsReliable memory_db
memory_db-IsReliable = record {
  balance = λ t. t.balances;
  shares_at = λ t. t.shares;
  pending = λ c. c.shares_left;
  not_found_ne = one_ne_zero;
  begin_ok = memory_begin;
  child_balance = λ t. refl;
  child_shares = λ t. refl;
  commit_ok = λ c t. refl;
  commit_balance = λ c t. refl;
  commit_shares = λ c t. refl;
  balance_cursor_ok = λ t. refl;
  get_missing = λ a t e. ap (λ o. (read_balance o).0) e;
  get_found = λ a v t e. ap read_balance e;
  put_ok = λ a v t. refl;
  put_balance = λ a v t. refl;
  put_shares = λ a v t. refl;
  share_cursor_ok = λ t. refl;
  set_none = λ h t c e. ap (λ l. (read_share l).0) e;
  set_some = λ h t c x l e. (
    ap (λ k. (read_share k).0) e,
    ap (λ k. (read_share k).1) e,
    ap (λ k. (read_share k).2.shares_left) e,
  );
  next_none = λ h t c e. ap (λ l. (read_share l).0) e;
  next_some = λ h t c x l e. (
    ap (λ k. (read_share k).0) e,
    ap (λ k. (read_share k).1) e,
    ap (λ k. (read_share k).2.shares_left) e,
  );
}

pub get_block_none :
    (op : CursorOp) (h : ℕ) (t : Memory) (c : Position)
    → StandsAt op h c.block_key
    → get_elem? (t.blocks h) (block_index_of op c.block_index) ≡ none
    → (block_get op h t c).0 ≡ 1
get_block_none CursorOp.set h t c k e = ap (λ o. (read_block h 0 o).0) e
get_block_none CursorOp.next_dup h t c k e =
    rw k (ap (λ o. (read_block h (suc c.block_index) o).0) e)

pub get_block_some :
    (op : CursorOp) (h : ℕ) (t : Memory) (c : Position) (b : Block)
    → StandsAt op h c.block_key
    → get_elem? (t.blocks h) (block_index_of op c.block_index) ≡ some b
    → ((block_get op h t c).0 ≡ 0)
      × ((block_get op h t c).1 ≡ b)
      × ((block_get op h t c).2.block_key ≡ h)
      × ((block_get op h t c).2.block_index ≡ block_index_of op c.block_index)
get_block_some CursorOp.set h t c b k e = rw e (refl, refl, refl, refl)
get_block_some CursorOp.next_dup h t c b k e = rw (k, e) (refl, refl, refl, refl)

abbrev pub memory_db-HasBlocks : HasBlocks memory_db memory_db-IsReliable
memory_db-HasBlocks = record {
  blocks_at = λ t. t.blocks;
  key = λ c. c.block_key;
  at = λ c. c.block_index;
  framed = memory_framed_blocks;
  cursor_ok = λ t. refl;
  get_none = get_block_none;
  get_some = get_block_some;
  put_block = λ h b old t c e found same. rw e refl;
  put_balance = λ h b t c. refl;
  put_shares = λ h b t c. refl;
}
