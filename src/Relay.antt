-- ===== src/Relay.antt =====
-- What a pool sends to the one further up in src/pool.c and what it does with that one's messages:
-- upstream_send_client_share, upstream_send_client_block, upstream_send_backlog, the handlers of
-- upstream_on_read, and the loss of the connection in upstream_on_event.
pub mod Backlog
pub mod Lost
use salvium_pool.Prelude.{
  ℕ, zero, suc, ◌+◌, ◌%◌, ◌^◌, Bool, true, false, Option, none, some, List, [], ◌∷◌, ◌++◌, length,
  get_or, not, ◌||◌, ◌==◌, ltb, leb, if◌then◌else◌,
}
use salvium_pool.Prelude.Table.{find, modify}
use salvium_pool.Pool.Types.{Address, Share, Block, PoolStats, HrStats, Client, Message}
use salvium_pool.Pool.Double.{Double}
use salvium_pool.Pool.Lmdb.{Lmdb, CursorOp, pdb_txn_begin}
use salvium_pool.Difficulty.{hr_update}
use salvium_pool.Store.{StoreDb, store_share, store_block, account_balance}
use salvium_pool.Clients.{
  Sessions, fd_of, upstream_send, client_find, client_clear, set_connected, trusted_send_stats,
  trusted_on_account_connect, trusted_on_account_disconnect,
}
use salvium_pool.Protocol.{on_read, upstream_round, trusted_round}

-- the keys of `db_properties` that the code writes
pub data Property : Type 0 where
  upstream_last_height : Property
  upstream_last_time : Property

-- What these functions use of LMDB beside `Pool.Lmdb`: a put of a property, and MDB_NEXT.
pub record PeerDb (db : Lmdb) : Type 1 where
  pub put_property : Property → ℕ → db.Txn → ℕ × db.Txn
  pub next_share : db.Txn → db.Cursor → ℕ × Share × db.Cursor
  pub next_block : db.Txn → db.Cursor → ℕ × Block × db.Cursor

-- The connections, the database, and the height and the time of what was last sent further up.
pub record Relay (D : Type 0) (db : Lmdb) : Type 0 where
  pub sessions : Sessions D
  pub env : db.Txn
  pub last_height : ℕ
  pub last_time : ℕ

module _ (fp : Double) (db : Lmdb) (peers : PeerDb db) where
  open fp use {D, of_u64, to_u64}

  unfoldable pub store_last_height_time : ℕ → ℕ → db.Txn → ℕ × db.Txn
  store_last_height_time height time env =
      let txn = db.child env in
      let (rc, txn') = peers.put_property Property.upstream_last_height height txn in
      let (rc', txn'') = peers.put_property Property.upstream_last_time time txn' in
      let begun = pdb_txn_begin db env in
      if not (begun == 0)
      then (begun, env)
      else if not (rc == 0)
      then (rc, env)
      else if not (rc' == 0)
      then (rc', env)
      else db.txn_commit txn'' env

  -- What sending a share and sending a block have in common after the message: the latest height and
  -- time, which are stored if one of them is new.
  unfoldable pub note_sent : ℕ → ℕ → Relay D db → Relay D db
  note_sent height timestamp r =
      let h = if ltb r.last_height height then height else r.last_height in
      let t = if ltb r.last_time timestamp then timestamp else r.last_time in
      let later = record r { last_height = h; last_time = t } in
      let env = (store_last_height_time h t r.env).1 in
      if ltb r.last_height height || ltb r.last_time timestamp
      then (record later { env = env })
      else later

  unfoldable pub upstream_send_client_share : Share → Relay D db → Relay D db
  upstream_send_client_share share r =
      note_sent share.height share.timestamp
        (record r { sessions = upstream_send (Message.share share) r.sessions })

  unfoldable pub upstream_send_client_block : Block → Relay D db → Relay D db
  upstream_send_client_block block r =
      note_sent block.height block.timestamp
        (record r { sessions = upstream_send (Message.block block) r.sessions })

  -- `if (upstream_event)`
  unfoldable pub if_upstream : (Relay D db → Relay D db) → Relay D db → Relay D db
  if_upstream send r = elim r.sessions.upstream [ none ↦ r | some sent ↦ send r ]

  -- the loop over shares, from what a cursor operation gives; `none` is out of fuel
  unfoldable pub resend_shares :
      ℕ → ℕ → db.Txn → ℕ × Share × db.Cursor → Relay D db → Option (Relay D db)
  resend_shares zero t txn got r = none
  resend_shares (suc fuel) t txn (rc, s, cursor) r =
      let next = peers.next_share txn cursor in
      let skipped = resend_shares fuel t txn next r in
      let sent = resend_shares fuel t txn next (upstream_send_client_share s r) in
      if not (rc == 0) then some r else if leb s.timestamp t then skipped else sent

  unfoldable pub resend_blocks :
      ℕ → ℕ → db.Txn → ℕ × Block × db.Cursor → Relay D db → Option (Relay D db)
  resend_blocks zero t txn got r = none
  resend_blocks (suc fuel) t txn (rc, b, cursor) r =
      let next = peers.next_block txn cursor in
      let skipped = resend_blocks fuel t txn next r in
      let sent = resend_blocks fuel t txn next (upstream_send_client_block b r) in
      if not (rc == 0) then some r else if leb b.timestamp t then skipped else sent

  -- the two loops, each from MDB_SET at the last height, and the count of accounts
  unfoldable pub resend : ℕ → db.Cursor → db.Cursor → Relay D db → Option (Relay D db)
  resend fuel curshr curblk r =
      let txn = db.child r.env in
      let shares = db.share_get CursorOp.set r.last_height txn curshr in
      let blocks = db.block_get CursorOp.set r.last_height txn curblk in
      elim (resend_shares fuel r.last_time txn shares r) [
        | none ↦ none
        | some r' ↦ elim (resend_blocks fuel r.last_time txn blocks r') [
          | none ↦ none
          | some r'' ↦
              let count = r''.sessions.stats.connected_accounts in
              some (record r'' { sessions = upstream_send (Message.connect count) r''.sessions })
        ]
      ]

  unfoldable pub upstream_send_backlog : ℕ → Relay D db → Option (Relay D db)
  upstream_send_backlog fuel r =
      let txn = db.child r.env in
      let (rc, curshr) = db.share_cursor txn in
      let (rc', curblk) = db.block_cursor txn in
      elim r.sessions.upstream [
        | none ↦ some r
        | some sent ↦
            let resent = resend fuel curshr curblk r in
            if (r.last_height == 0) || (r.last_time == 0)
            then some r
            else if not (pdb_txn_begin db r.env == 0)
            then some r
            else if not (rc == 0)
            then some r
            else if not (rc' == 0)
            then some r
            else resent
      ]

  -- `pool_stats` as it comes
  unfoldable pub upstream_on_stats : PoolStats → Relay D db → Relay D db
  upstream_on_stats stats r =
      let sessions = r.sessions in record r { sessions = record sessions { stats = stats } }

  unfoldable pub upstream_on_balance : ℕ → Address → db.Txn → ℕ × db.Txn
  upstream_on_balance balance address env =
      let (rc, txn) = db.balance_put address balance (db.child env) in
      let begun = pdb_txn_begin db env in
      if not (begun == 0)
      then (begun, env)
      else if not (rc == 0)
      then (rc, env)
      else db.txn_commit txn env

  unfoldable pub upstream_handle : Message → Relay D db → Relay D db
  upstream_handle (Message.stats stats) r = upstream_on_stats stats r
  upstream_handle (Message.balance balance address) r = record r {
    env = (upstream_on_balance balance address r.env).1;
  }
  upstream_handle _ r = r

  -- the sum over the clients in `update_pool_hr`
  unfoldable pub sum_hr : ℕ → List (Client D) → ℕ
  sum_hr hr [] = hr
  sum_hr hr (c ∷ clients) =
      sum_hr ((hr + to_u64 (get_or c.hr_stats.avg 0 (of_u64 0))) % 2 ^ 64) clients

  unfoldable pub update_pool_hr : Sessions D → Sessions D
  update_pool_hr s = elim s.upstream [
    | some sent ↦ s
    | none ↦
        let stats = s.stats in
        record s { stats = record stats { pool_hashrate = sum_hr 0 s.clients } }
  ]

  -- `upstream_on_event` when the connection is lost; the sum comes before the connection is dropped.
  unfoldable pub upstream_lost : Sessions D → Sessions D
  upstream_lost s =
      let t =
        if s.stats.connected_accounts == s.account_count
        then s
        else update_pool_hr (set_connected s.account_count s) in
      record t { upstream = none }
