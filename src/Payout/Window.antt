-- ===== src/Payout/Window.antt =====
-- The shares that payout_block of src/pool.c has still to read, and what a read of the database gives
-- of them.
use salvium_pool.Prelude.{ℕ, zero, suc, ◌≡◌, List, [], ◌∷◌, ◌++◌}
use salvium_pool.Pool.Types.{Share}
use salvium_pool.Pool.Lmdb.{Lmdb, IsReliable, CursorOp}
use salvium_pool.Pool.Lmdb.CursorOp.{set, next_dup}
use salvium_pool.Payout.{Round}

-- the shares at the heights below `h`, the nearest height first
abbrev pub rest_below : (ℕ → List Share) → ℕ → List Share
rest_below f zero = []
rest_below f (suc h) = f h ++ rest_below f h

module _ (db : Lmdb) (ok : IsReliable db) where
  open ok use {shares_at, pending}

  abbrev pub key_shares : CursorOp → ℕ → db.Txn → db.Cursor → List Share
  key_shares set h t c = shares_at t h
  key_shares next_dup h t c = pending c

  -- Everything still to come: what is left under this height, then the heights below.
  abbrev pub remaining : Round db → List Share
  remaining r = key_shares r.op r.height r.txn r.cursor ++ rest_below (shares_at r.txn) r.height

  pub read_none :
      (op : CursorOp) (h : ℕ) (t : db.Txn) (c : db.Cursor)
      → key_shares op h t c ≡ []
      → (db.share_get op h t c).0 ≡ db.not_found
  read_none set h t c e = ok.set_none h t c e
  read_none next_dup h t c e = ok.next_none h t c e

  pub read_some :
      (op : CursorOp) (h : ℕ) (t : db.Txn) (c : db.Cursor) (x : Share) (l : List Share)
      → key_shares op h t c ≡ x ∷ l
      → ((db.share_get op h t c).0 ≡ 0)
        × ((db.share_get op h t c).1 ≡ x)
        × (pending (db.share_get op h t c).2 ≡ l)
  read_some set h t c x l e = ok.set_some h t c x l e
  read_some next_dup h t c x l e = ok.next_some h t c x l e
