-- ===== src/Clients/Reach.antt =====
-- The connections of src/pool.c over time: the events that change them as a step relation, and what
-- holds of every state that they lead to.
use salvium_pool.Prelude.{
  ℕ, ◌+◌, ◌%◌, ◌^◌, ◌≤◌, ◌<◌, ◌≡◌, ◌≢◌, refl, Bool, true, false, Option, some, List, [], ◌∷◌, ◌++◌,
  length, ◌==◌, Bool-cases, if_elim, arith,
}
use salvium_pool.Prelude.Table.{total-append, find, modify, total-remove, total-modify}
use salvium_pool.Pool.Types.{Address, Client, Message, PoolStats}
use salvium_pool.Pool.Double.{Double}
use salvium_pool.Clients.{
  Sessions, fd_of, upstream_send, set_connected, client_find, trusted_send_stats, client_clear,
  join_account, trusted_on_account_connect, trusted_on_account_disconnect, client_add, no_hr_stats,
}
use salvium_pool.Clients.Counts.{signed_in, below, IsCounted, IsCounted-nobody}
use salvium_pool.Clients.Leave.{client_clear-IsCounted}
use salvium_pool.Clients.Join.{join_account-IsCounted}

module _ {D : Type 0} where
  -- A client that is not signed in and has no accounts below it counts for nothing.
  newcomer :
      (s : Sessions D) (client : Client D)
      → client.address ≡ 0
      → client.downstream_accounts ≡ 0
      → IsCounted s
      → IsCounted (record s { clients = s.clients ++ client ∷ [] })
  newcomer s client new none_below ok = record {
    account_total = ok.account_total;
    connected_total =
        let nothing : below client ≡ 0 =
          rw none_below (if_elim (λ n. n ≡ 0) client.downstream 0 0 (λ c. refl) (λ c. refl)) in
        omega (arith, ok.connected_total, total-append below s.clients (client ∷ []));
    connected_below = ok.connected_below;
    one_account = ok.one_account;
    worker_total = λ a n.
        let nothing : signed_in a client ≡ 0 =
          rw new (ground (arith, n, Bool-cases client.downstream, Bool-cases (0 == a))) in
        omega (arith, ok.worker_total a n, total-append (signed_in a) s.clients (client ∷ []));
    in_use = ok.in_use;
  }

  -- A pool further down reports other accounts.
  recounted :
      (s : Sessions D) (client : Client D) (fd n : ℕ) (f : Client D → Client D)
      (upstream : Option (List Message)) (sent : List (ℕ × Message))
      → find fd_of fd s.clients ≡ some client
      → client.downstream ≡ true
      → (f client).downstream ≡ true
      → s.stats.connected_accounts + (f client).downstream_accounts ≡ n + client.downstream_accounts
      → n < 2 ^ 32
      → IsCounted s
      → IsCounted (
          let t = set_connected n s in
          record t {
            clients = modify fd_of fd f s.clients;
            upstream = upstream;
            downstream_sent = sent;
          })
  unfolding set_connected
  recounted s client fd n f upstream sent found pool still sum fits ok = record {
    account_total = ok.account_total;
    connected_total =
        let before : below client ≡ client.downstream_accounts = rw pool refl in
        let after : below (f client) ≡ (f client).downstream_accounts = rw still refl in
        omega (
          arith,
          before,
          after,
          sum,
          ok.connected_total,
          total-modify fd_of below fd f s.clients client found,
        );
    connected_below = fits;
    one_account = ok.one_account;
    worker_total = λ a m.
        let before : signed_in a client ≡ 0 = rw pool refl in
        let after : signed_in a (f client) ≡ 0 = rw still refl in
        omega (
          arith,
          before,
          after,
          ok.worker_total a m,
          total-modify fd_of (signed_in a) fd f s.clients client found,
        );
    in_use = ok.in_use;
  }

  reported_le :
      (s : Sessions D) (client : Client D) (fd : ℕ)
      → find fd_of fd s.clients ≡ some client
      → client.downstream ≡ true
      → IsCounted s
      → client.downstream_accounts ≤ s.stats.connected_accounts
  reported_le s client fd found pool ok =
      let itself : below client ≡ client.downstream_accounts = rw pool refl in
      omega (arith, itself, ok.connected_total, total-remove fd_of below fd s.clients client found)

  trusted_on_account_connect-IsCounted :
      (fd count : ℕ) (s : Sessions D) (client : Client D)
      → client_find (some fd) s ≡ some client
      → client.downstream ≡ true
      → s.stats.connected_accounts + count < 2 ^ 32
      → IsCounted s
      → IsCounted (trusted_on_account_connect fd count s)
  unfolding trusted_on_account_connect client_find upstream_send trusted_send_stats set_connected
  trusted_on_account_connect-IsCounted fd count s client found pool fits ok =
      let few = reported_le s client fd found pool ok in
      recounted s client fd ((s.stats.connected_accounts + count) % 2 ^ 32) _ _ _ found pool pool
        (omega (arith, few)) (omega arith) ok

  trusted_on_account_disconnect-IsCounted :
      (fd : ℕ) (s : Sessions D) (client : Client D)
      → client_find (some fd) s ≡ some client
      → client.downstream ≡ true
      → 0 < client.downstream_accounts
      → IsCounted s
      → IsCounted (trusted_on_account_disconnect fd s)
  unfolding trusted_on_account_disconnect client_find upstream_send trusted_send_stats set_connected
  trusted_on_account_disconnect-IsCounted fd s client found pool left ok =
      let few = reported_le s client fd found pool ok in
      recounted s client fd _ _ _ _ found pool pool
        (ground (
          arith,
          few,
          Bool-cases (s.stats.connected_accounts == 0),
          Bool-cases (client.downstream_accounts == 0),
        ))
        (ground (arith, ok.connected_below, Bool-cases (s.stats.connected_accounts == 0))) ok

-- The events. A miner signs in once on a connection, to an address that is not empty. A pool further down takes back
-- no more accounts than it reported.
module _ (fp : Double) where
  open fp use {D}

  pub data Step : Sessions D → Sessions D → Type 0 where
    accept :
        {s : Sessions D} (now fd : ℕ) (downstream : Bool)
        → Step s (client_add fp now fd downstream s)
    close : {s : Sessions D} (fd : Option ℕ) → Step s (client_clear fd s)
    login :
        {s : Sessions D} (now fd : ℕ) (address : Address) (client : Client D)
        → client_find (some fd) s ≡ some client
        → client.downstream ≡ false
        → client.address ≡ 0
        → address ≢ 0
        → length s.clients < 2 ^ 32
        → s.stats.connected_accounts + 1 < 2 ^ 32
        → Step s (join_account now (no_hr_stats fp) fd address s)
    report :
        {s : Sessions D} (fd count : ℕ) (client : Client D)
        → client_find (some fd) s ≡ some client
        → client.downstream ≡ true
        → s.stats.connected_accounts + count < 2 ^ 32
        → Step s (trusted_on_account_connect fd count s)
    take_back :
        {s : Sessions D} (fd : ℕ) (client : Client D)
        → client_find (some fd) s ≡ some client
        → client.downstream ≡ true
        → 0 < client.downstream_accounts
        → Step s (trusted_on_account_disconnect fd s)

  pub data Reach (s : Sessions D) : Sessions D → Type 0 where
    here : Reach s s
    next : {t u : Sessions D} → Reach s t → Step t u → Reach s u

  client_add-IsCounted :
      (now fd : ℕ) (downstream : Bool) (s : Sessions D)
      → IsCounted s
      → IsCounted (client_add fp now fd downstream s)
  unfolding client_add
  client_add-IsCounted now fd downstream s ok = newcomer s _ refl refl ok

  -- Every event keeps the counters true.
  pub Step-IsCounted : {s t : Sessions D} → Step s t → IsCounted s → IsCounted t
  Step-IsCounted (accept now fd downstream) ok = client_add-IsCounted now fd downstream _ ok
  Step-IsCounted (close fd) ok = client_clear-IsCounted _ fd ok
  Step-IsCounted (login now fd address client found miner new named room fits) ok =
      join_account-IsCounted now (no_hr_stats fp) fd address _ client found miner new named room
        fits ok
  Step-IsCounted (report fd count client found pool fits) ok =
      trusted_on_account_connect-IsCounted fd count _ client found pool fits ok
  Step-IsCounted (take_back fd client found pool some_left) ok =
      trusted_on_account_disconnect-IsCounted fd _ client found pool some_left ok

  pub Reach-IsCounted : {s t : Sessions D} → IsCounted s → Reach s t → IsCounted t
  Reach-IsCounted ok here = ok
  Reach-IsCounted ok (next r step) = Step-IsCounted step (Reach-IsCounted ok r)

  -- The pool before its first connection.
  abbrev pub at_start : PoolStats → Option (List Message) → Sessions D
  at_start stats upstream = record {
    clients = [];
    accounts = [];
    account_count = 0;
    stats = record stats { connected_accounts = 0 };
    upstream = upstream;
    downstream_sent = [];
  }

  at_start-IsCounted :
      (stats : PoolStats) (upstream : Option (List Message)) → IsCounted (at_start stats upstream)
  at_start-IsCounted stats upstream = record {
    account_total = refl;
    connected_total = refl;
    connected_below = omega arith;
    one_account = λ a. omega arith;
    worker_total = λ a n. refl;
    in_use = tt;
  }

  -- As long as a miner signs in only once on a connection, a pool further down takes back no more accounts
  -- than it reported, no statistics are taken over from a pool further up, and the counts fit their integers:
  -- in every state that connections, logins and reports of accounts lead to from the pool's start, there is at most one account for an
  -- address, it has as many workers as there are miners signed in at the address, the count of
  -- accounts is the number of accounts, and the count of connected accounts is that number and what
  -- the pools further down reported.
  pub Reach-IsCounted_start :
      (stats : PoolStats) (upstream : Option (List Message)) (s : Sessions D)
      → Reach (at_start stats upstream) s
      → IsCounted s
  Reach-IsCounted_start stats upstream s r = Reach-IsCounted (at_start-IsCounted stats upstream) r

  -- When every connection is closed, no account is left, and none is counted.
  pub Reach-nobody :
      (stats : PoolStats) (upstream : Option (List Message)) (s : Sessions D)
      → Reach (at_start stats upstream) s
      → s.clients ≡ []
      → (s.accounts ≡ []) × (s.stats.connected_accounts ≡ 0)
  Reach-nobody stats upstream s r gone =
      IsCounted-nobody s (Reach-IsCounted_start stats upstream s r) gone
