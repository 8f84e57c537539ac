-- ===== src/Peers/Tests.antt =====
-- Runs of the model of what pools say to each other.
use salvium_pool.Prelude.{
  append-nil, ℕ, ◌≡◌, ◌<◌, refl, sym, Bool, true, false, Option, none, some, List, [], ◌∷◌, ◌++◌,
  length, ◌∙◌, All, take, map, ◌==◌, ==_iff, ◌&&◌, if◌then◌else◌, arith,
}
use salvium_pool.Pool.Types.{Share, PoolStats, Client, Message}
use salvium_pool.Pool.Rational.{rational}
use salvium_pool.Pool.Lmdb.{CursorOp, replace}
use salvium_pool.Pool.Memory.{
  Memory, memory_db, memory_db-IsReliable, memory_db-HasBlocks, one_ne_zero,
}
use salvium_pool.Store.{StoreDb}
use salvium_pool.Clients.{client_find, no_hr_stats}
use salvium_pool.Protocol.{
  encode, upstream_round, trusted_round, share_fields, fields_of, struct_bytes,
}
use salvium_pool.Protocol.Struct.{Fits}
use salvium_pool.Protocol.Sent.{IsForUpstream, IsForTrusted}
use salvium_pool.Difficulty.{le_bytes}
use salvium_pool.Protocol.Frames.{IsAtRest, upstream_round-Consumes, trusted_round-Consumes}
use salvium_pool.Protocol.Stream.{stream, handle_all, FindsStart}
use salvium_pool.Relay.{PeerDb, Relay, upstream_handle, upstream_lost}
use salvium_pool.Peers.{trusted_handle, clear, upstream_on_read, trusted_on_read}
use salvium_pool.Peers.Shares.{put_all, trusted_on_read-shares}
use salvium_pool.Store.Append.{HasAppends}
use salvium_pool.Peers.Streams.{
  upstream_on_read-stream, trusted_on_read-stream, on_read_stops, IsSentTo,
}
use salvium_pool.Relay.Backlog.{HasNext, send_shares, send_shares-latest}
use salvium_pool.Relay.Lost.{upstream_lost-accounts}

-- A search that only looks at the start of the buffer.
unfoldable starts : List ℕ → List ℕ → Bool
starts [] input = true
starts (x ∷ what) [] = false
starts (x ∷ what) (y ∷ input) = (x == y) && starts what input

starts-append : (what rest : List ℕ) → starts what (what ++ rest) ≡ true
unfolding starts
starts-append [] rest = refl
starts-append (x ∷ what) rest = rw ((==_iff x x).1 refl) (starts-append what rest)

unfoldable search_start : List ℕ → List ℕ → Option ℕ
search_start input what = if starts what input then some 0 else none

search_start-FindsStart : FindsStart search_start
unfolding search_start
search_start-FindsStart what rest = rw (search_start, starts-append what rest) refl

abbrev peers : PeerDb memory_db
peers = record {
  put_property = λ p n t. (0, t);
  next_share = λ t c. memory_db.share_get CursorOp.next_dup 0 t c;
  next_block = λ t c. memory_db.block_get CursorOp.next_dup 0 t c;
}

abbrev peers-HasNext : HasNext memory_db memory_db-IsReliable memory_db-HasBlocks peers
peers-HasNext = record {
  after_share = λ t c. c.shares_left;
  after_block = λ t c. [];
  no_share = λ t c e zero. one_ne_zero (sym (memory_db-IsReliable.next_none 0 t c e) ∙ zero);
  one_share = λ t c s l e. memory_db-IsReliable.next_some 0 t c s l e;
  above = λ t h. [];
  child_above = λ t. refl;
  after_set = λ h t c s l e. (memory_db-IsReliable.set_some h t c s l e).2 ∙ sym (append-nil l);
}

abbrev stores : StoreDb memory_db
stores = record {
  share_append =
      λ h s t. (0, record t { shares = λ k. if k == h then t.shares h ++ s ∷ [] else t.shares k });
  block_append = λ h b t. (0, record t { blocks = replace t.blocks h (t.blocks h ++ b ∷ []) });
}

abbrev share : ℕ → Share
share time = record { height = 7; difficulty = 50; address = 3; timestamp = time }

abbrev memory : Memory
memory = record {
  balances = λ a. none;
  shares = λ h. if h == 7 then share 90 ∷ share 110 ∷ [] else [];
  blocks = λ h. [];
  payments = λ a. [];
}

abbrev stats : PoolStats
stats = record {
  network_difficulty = 1000;
  network_hashrate = 8;
  network_height = 7;
  connected_accounts = 2;
  pool_hashrate = 11;
  round_hashes = 5;
  pool_blocks_found = 0;
  last_block_found = 0;
  last_template_fetched = 0;
}

-- a pool further down, with descriptor 5
abbrev below : Client (ℕ × ℕ)
below = record {
  fd = 5;
  address = 0;
  hashes = 0;
  hr_stats = no_hr_stats rational;
  connected_since = 1000;
  is_xnp = false;
  is_nicehash = false;
  mode = 0;
  bad_shares = 0;
  downstream = true;
  downstream_accounts = 2;
  req_diff = 0;
}

abbrev relay : Option (List Message) → Relay (ℕ × ℕ) memory_db
relay upstream = record {
  sessions = record {
    clients = below ∷ [];
    accounts = [];
    account_count = 0;
    stats = stats;
    upstream = upstream;
    downstream_sent = [];
  };
  env = memory;
  last_height = 7;
  last_time = 100;
}

found : client_find (some 5) (relay none).sessions ≡ some below
unfolding client_find
found = refl

stats_sent : IsSentTo IsForUpstream (Message.stats stats)
unfolding fields_of
stats_sent = (tt, ground arith)

share-Fits : All Fits (share_fields (share 120))
share-Fits = ground arith

share_sent : IsSentTo IsForTrusted (Message.share (share 120))
unfolding fields_of
share_sent = (tt, share-Fits)

long_enough : 20 < length (encode (Message.stats stats))
unfolding encode fields_of struct_bytes le_bytes
long_enough = omega arith

long_share : 20 < length (encode (Message.share (share 120)))
unfolding encode fields_of struct_bytes le_bytes
long_share = omega arith

upstream_on_read-stream_example :
    upstream_on_read rational memory_db peers stores
      (λ a. false)
      1200
      search_start
      (stream (Message.stats stats ∷ []) ++ take 20 (encode (Message.stats stats)))
      (relay none)
    ≡ (
      take 20 (encode (Message.stats stats)),
      handle_all (upstream_handle rational memory_db peers) (Message.stats stats ∷ []) (relay none),
    )
upstream_on_read-stream_example =
    upstream_on_read-stream rational memory_db peers search_start stores (λ a. false) 1200
      search_start-FindsStart (Message.stats stats ∷ []) (Message.stats stats) 20 (relay none)
      (stats_sent, tt) stats_sent long_enough

trusted_on_read-stream_example :
    trusted_on_read rational memory_db peers stores
      (λ a. false)
      1200
      search_start
      5
      (stream (Message.share (share 120) ∷ []) ++ take 20 (encode (Message.share (share 120))))
      (relay none)
    ≡ (
      take 20 (encode (Message.share (share 120))),
      handle_all
          (trusted_handle rational memory_db peers stores (λ a. false) 1200 5)
          (Message.share (share 120) ∷ [])
          (relay none),
    )
trusted_on_read-stream_example =
    trusted_on_read-stream rational memory_db peers search_start stores (λ a. false) 1200
      search_start-FindsStart 5 below (Message.share (share 120) ∷ []) (Message.share (share 120))
      20 (relay none) found refl (share_sent, tt) share_sent long_share

on_read_stops_example :
    IsAtRest search_start upstream_round
      (upstream_handle rational memory_db peers)
      (λ r. r)
      upstream_round-Consumes
      (upstream_on_read rational memory_db peers stores
        (λ a. false)
        1200
        search_start
        (1 ∷ 2 ∷ 3 ∷ 4 ∷ 5 ∷ 6 ∷ 7 ∷ 8 ∷ 9 ∷ [])
        (relay none))
    × IsAtRest search_start trusted_round
        (trusted_handle rational memory_db peers stores (λ a. false) 1200 5)
        (clear rational memory_db peers stores (λ a. false) 1200 5)
        trusted_round-Consumes
        (trusted_on_read rational memory_db peers stores
          (λ a. false)
          1200
          search_start
          5
          (1 ∷ 2 ∷ 3 ∷ 4 ∷ 5 ∷ 6 ∷ 7 ∷ 8 ∷ 9 ∷ [])
          (relay none))
on_read_stops_example =
    on_read_stops rational memory_db peers search_start stores (λ a. false) 1200 5 below
      (1 ∷ 2 ∷ 3 ∷ 4 ∷ 5 ∷ 6 ∷ 7 ∷ 8 ∷ 9 ∷ []) (relay none) found refl

abbrev stores-HasAppends : HasAppends memory_db memory_db-IsReliable memory_db-HasBlocks stores
stores-HasAppends = record {
  share_ok = λ h s t old. (refl, λ k. refl, refl);
  block_ok = λ h b t old. (refl, refl);
}

abbrev received : List ℕ × Relay (ℕ × ℕ) memory_db
received =
    trusted_on_read rational memory_db peers stores (λ a. false) 1200 search_start 5
      (stream (map Message.share (share 120 ∷ share 130 ∷ []))) (relay none)

trusted_on_read-shares_example :
    (received.0 ≡ [])
    × (received.1.env.shares ≡ put_all memory.shares (share 120 ∷ share 130 ∷ []))
    × (received.1.env.balances ≡ memory.balances)
    × (received.1.sessions.stats.round_hashes ≡ 105)
trusted_on_read-shares_example =
    trusted_on_read-shares rational memory_db peers search_start stores (λ a. false) 1200
      memory_db-IsReliable memory_db-HasBlocks stores-HasAppends search_start-FindsStart 5 below
      (share 120 ∷ share 130 ∷ []) (relay none) found refl refl (omega arith)
      (share-Fits, (ground arith, tt))
      ((omega arith, (omega arith, tt)), ((omega arith, (omega arith, (omega arith, tt))), tt))

send_shares-latest_example :
    ((send_shares rational memory_db peers (share 120 ∷ []) (relay (some []))).sessions.upstream
      ≡ some (Message.share (share 120) ∷ []))
    × ((send_shares rational memory_db peers (share 120 ∷ []) (relay (some []))).sessions.stats
        ≡ stats)
    × ((send_shares rational memory_db peers (share 120 ∷ []) (relay (some []))).last_height ≡ 7)
    × ((send_shares rational memory_db peers (share 120 ∷ []) (relay (some []))).last_time ≡ 120)
send_shares-latest_example =
    send_shares-latest rational memory_db peers (share 120 ∷ []) (relay (some [])) [] refl

upstream_lost-accounts_example :
    ((upstream_lost rational memory_db peers (relay (some [])).sessions).stats.connected_accounts
      ≡ 0)
    × ((upstream_lost rational memory_db peers (relay (some [])).sessions).upstream ≡ none)
    × ((upstream_lost rational memory_db peers (relay (some [])).sessions).stats.pool_hashrate ≡ 11)
upstream_lost-accounts_example =
    upstream_lost-accounts rational memory_db peers (relay (some [])).sessions [] refl
