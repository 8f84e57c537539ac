-- ===== src/Peers.antt =====
-- What a pool of src/pool.c does with the messages of the pools further down, and the two readers of messages:
-- the handlers of trusted_on_read, trusted_on_read and upstream_on_read.
pub mod Streams
pub mod Shares
mod Tests
use salvium_pool.Prelude.{
  ℕ, zero, suc, ◌+◌, ◌%◌, ◌^◌, Bool, true, false, Option, none, some, List, [], ◌∷◌, ◌++◌, length,
  get_or, not, ◌||◌, ◌==◌, ltb, leb, if◌then◌else◌,
}
use salvium_pool.Prelude.Table.{find, modify}
use salvium_pool.Pool.Types.{Address, Share, Block, PoolStats, HrStats, Client, Message}
use salvium_pool.Pool.Double.{Double}
use salvium_pool.Pool.Lmdb.{Lmdb, CursorOp, pdb_txn_begin}
use salvium_pool.Difficulty.{hr_update}
use salvium_pool.Store.{StoreDb, store_share, store_block, account_balance}
use salvium_pool.Clients.{
  Sessions, fd_of, upstream_send, client_find, client_clear, set_connected, trusted_send_stats,
  trusted_on_account_connect, trusted_on_account_disconnect,
}
use salvium_pool.Protocol.{on_read, upstream_round, trusted_round}
use salvium_pool.Relay.{
  Property, PeerDb, Relay, store_last_height_time, note_sent, upstream_send_client_share,
  upstream_send_client_block, if_upstream, resend_shares, resend_blocks, resend,
  upstream_send_backlog, upstream_on_stats, upstream_on_balance, upstream_handle, sum_hr,
  update_pool_hr, upstream_lost,
}

module _ (fp : Double) (db : Lmdb) (peers : PeerDb db) where
  open fp use {D, of_u64, to_u64}

  module _ (stores : StoreDb db) (too_long : Address → Bool) (now : ℕ) where
    unfoldable pub trusted_send_balance : ℕ → Address → Relay D db → Relay D db
    trusted_send_balance fd address r =
        let sessions = r.sessions in
        let balance = account_balance db (too_long address) address r.env in
        record r {
          sessions = record sessions {
            downstream_sent =
                sessions.downstream_sent ++ (fd, Message.balance balance address) ∷ [];
          };
        }

    -- the hashes of a share that a pool further down reports
    unfoldable pub count_share : ℕ → Share → Sessions D → Sessions D
    count_share fd s sessions =
        let stats = sessions.stats in
        let counted = λ (c : Client D).
          let hr = c.hr_stats in
          record c {
            hashes = (c.hashes + s.difficulty) % 2 ^ 64;
            hr_stats =
                hr_update fp now
                  (record hr { diff_since = (hr.diff_since + s.difficulty) % 2 ^ 64 });
          } in
        record sessions {
          clients = modify fd_of fd counted sessions.clients;
          stats = record stats { round_hashes = (stats.round_hashes + s.difficulty) % 2 ^ 64 };
        }

    unfoldable pub trusted_on_client_share : ℕ → Share → Relay D db → Relay D db
    trusted_on_client_share fd s r =
        let t = record r {
          sessions = count_share fd s r.sessions;
          env = (store_share db stores s.height s r.env).1;
        } in
        let t = record t { sessions = trusted_send_stats fd t.sessions } in
        if_upstream fp db peers (upstream_send_client_share fp db peers s)
          (trusted_send_balance fd s.address t)

    -- the block counts, and starts a new round
    unfoldable pub count_block : Block → Sessions D → Sessions D
    count_block b sessions =
        let stats = sessions.stats in
        record sessions {
          stats = record stats {
            pool_blocks_found = (stats.pool_blocks_found + 1) % 2 ^ 32;
            last_block_found = b.timestamp;
            round_hashes = 0;
          };
        }

    unfoldable pub trusted_on_client_block : ℕ → Block → Relay D db → Relay D db
    trusted_on_client_block fd b r =
        let t = record r {
          sessions = trusted_send_stats fd (count_block b r.sessions);
          env = (store_block db stores b.height b r.env).1;
        } in
        if_upstream fp db peers (upstream_send_client_block fp db peers b) t

    unfoldable pub trusted_handle : ℕ → Message → Relay D db → Relay D db
    trusted_handle fd Message.ping r = record r { sessions = trusted_send_stats fd r.sessions }
    trusted_handle fd (Message.connect count) r = record r {
      sessions = trusted_on_account_connect fd count r.sessions;
    }
    trusted_handle fd Message.disconnect r = record r {
      sessions = trusted_on_account_disconnect fd r.sessions;
    }
    trusted_handle fd (Message.share s) r = trusted_on_client_share fd s r
    trusted_handle fd (Message.block b) r = trusted_on_client_block fd b r
    trusted_handle fd _ r = r

    unfoldable pub clear : ℕ → Relay D db → Relay D db
    clear fd r = record r { sessions = client_clear (some fd) r.sessions }

    module _ (evbuffer_search : List ℕ → List ℕ → Option ℕ) where
      -- Each turn of a loop takes nine bytes at least, so a turn for each byte is more than enough.
      unfoldable pub upstream_on_read : List ℕ → Relay D db → List ℕ × Relay D db
      upstream_on_read input r =
          on_read evbuffer_search upstream_round (upstream_handle fp db peers) (λ r. r)
            (length input) input r

      unfoldable pub trusted_on_read : ℕ → List ℕ → Relay D db → List ℕ × Relay D db
      trusted_on_read fd input r = elim (client_find (some fd) r.sessions) [
        | none ↦ (input, r)
        | some client ↦
            let read =
              on_read evbuffer_search trusted_round (trusted_handle fd) (clear fd) (length input)
                input r in
            if client.downstream then read else (input, clear fd r)
      ]
