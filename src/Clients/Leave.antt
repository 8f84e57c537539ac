-- ===== src/Clients/Leave.antt =====
-- The counters of connections and accounts in src/pool.c when a client goes (client_clear).
use salvium_pool.Prelude.{
  ℕ, ◌+◌, ◌-◌, ◌<◌, ◌≡◌, ◌≢◌, sym, subst, inl, inr, true, false, Option, none, some, List, leb,
  ◌==◌, ==_iff, lt→ltb, Bool-cases, Option-cases, arith,
}
use salvium_pool.Prelude.Table.{
  total, find, remove, modify, find-key, find-All, total_missing, total-remove, total-modify,
  All-remove, All-modify, length-remove, length-modify,
}
use salvium_pool.Pool.Types.{Address, Client, Account, Message}
use salvium_pool.Clients.{
  Sessions, fd_of, address_of, upstream_send, set_connected, client_find, leave_account, discount,
  client_clear,
}
use salvium_pool.Clients.Counts.{has, workers, signed_in, below, IsInUse, IsCounted}

module _ {D : Type 0} where
  -- A client that is not signed in at an address goes, and so may a pool further down.
  keep_accounts :
      (s : Sessions D) (client : Client D) (n : ℕ)
      → find fd_of client.fd s.clients ≡ some client
      → ((a : Address) → a ≢ 0 → signed_in a client ≡ 0)
      → n + below client ≡ s.stats.connected_accounts
      → IsCounted s
      → IsCounted
          (let t = set_connected n s in record t { clients = remove fd_of client.fd t.clients })
  unfolding set_connected
  keep_accounts s client n found away less ok =
      let fewer = total-remove fd_of below client.fd s.clients client found in
      record {
        account_total = ok.account_total;
        connected_total = omega (arith, ok.connected_total);
        connected_below = omega (arith, ok.connected_below);
        one_account = ok.one_account;
        worker_total = λ a n. omega (
          arith,
          ok.worker_total a n,
          away a n,
          total-remove fd_of (signed_in a) client.fd s.clients client found,
        );
        in_use = ok.in_use;
      }

  -- The last worker of an account takes it along.
  drop_account :
      (s : Sessions D) (client : Client D) (account : Account D) (count connected : ℕ)
      (upstream : Option (List Message))
      → find fd_of client.fd s.clients ≡ some client
      → client.downstream ≡ false
      → find address_of client.address s.accounts ≡ some account
      → account.worker_count ≡ 1
      → count ≡ s.account_count - 1
      → connected ≡ s.stats.connected_accounts - 1
      → IsCounted s
      → IsCounted (
          let t = set_connected connected s in
          record t {
            clients = remove fd_of client.fd s.clients;
            accounts = remove address_of client.address s.accounts;
            account_count = count;
            upstream = upstream;
          })
  unfolding set_connected
  drop_account s client account count connected upstream found miner its last one_less
        connected_less ok =
      let key : account.address ≡ client.address =
        find-key address_of client.address s.accounts account its in
      let fewer = total-remove fd_of below client.fd s.clients client found in
      let fewer_accounts = length-remove address_of client.address s.accounts account its in
      let itself : below client ≡ 0 = rw miner in
      record {
        account_total = omega (arith, ok.account_total);
        connected_total = omega (arith, ok.connected_total, ok.account_total);
        connected_below = omega (arith, ok.connected_below);
        one_account = λ a. omega (
          arith,
          ok.one_account a,
          total-remove address_of (has a) client.address s.accounts account its,
        );
        worker_total = λ a n.
            let same : workers a account ≡ signed_in a client = rw (miner, key, last) in
            omega (
              arith,
              ok.worker_total a n,
              total-remove address_of (workers a) client.address s.accounts account its,
              total-remove fd_of (signed_in a) client.fd s.clients client found,
            );
        in_use = All-remove address_of IsInUse client.address s.accounts ok.in_use;
      }

  one_less :
      (a : Address) (client : Client D) (account : Account D)
      → client.downstream ≡ false
      → account.address ≡ client.address
      → 1 < account.worker_count
      → workers a account
        ≡ workers a (record account { worker_count = account.worker_count - 1 })
          + signed_in a client
  one_less a client account miner key more =
      rw (miner, key) (ground (arith, Bool-cases (client.address == a)))

  -- An account with other workers stays.
  fewer_workers :
      (s : Sessions D) (client : Client D) (account : Account D)
      → find fd_of client.fd s.clients ≡ some client
      → client.downstream ≡ false
      → find address_of client.address s.accounts ≡ some account
      → 1 < account.worker_count
      → IsCounted s
      → IsCounted (record s {
        clients = remove fd_of client.fd s.clients;
        accounts =
            modify address_of client.address
              (λ (a : Account D). record a { worker_count = a.worker_count - 1 })
              s.accounts;
      })
  fewer_workers s client account found miner its more ok =
      let fewer = λ (a : Account D). record a { worker_count = a.worker_count - 1 } in
      let key : account.address ≡ client.address =
        find-key address_of client.address s.accounts account its in
      let without = total-remove fd_of below client.fd s.clients client found in
      let itself : below client ≡ 0 = rw miner in
      let kept = length-modify address_of client.address fewer s.accounts in
      let used = find-All address_of IsInUse client.address s.accounts account its ok.in_use in
      record {
        account_total = omega (arith, ok.account_total, kept);
        connected_total = omega (arith, ok.connected_total, without);
        connected_below = omega (arith, ok.connected_below);
        one_account = λ a. omega (
          arith,
          ok.one_account a,
          total-modify address_of (has a) client.address fewer s.accounts account its,
        );
        worker_total = λ a n.
            let same : workers a account ≡ workers a (fewer account) + signed_in a client =
              one_less a client account miner key more in
            omega (
              arith,
              ok.worker_total a n,
              total-modify address_of (workers a) client.address fewer s.accounts account its,
              total-remove fd_of (signed_in a) client.fd s.clients client found,
            );
        in_use =
            All-modify address_of IsInUse client.address fewer s.accounts account its
              (omega (arith, more), used.1) ok.in_use;
      }

  -- A client whose account the search misses is not signed in.
  not_signed_in :
      (s : Sessions D) (client : Client D)
      → find fd_of client.fd s.clients ≡ some client
      → find address_of client.address s.accounts ≡ none
      → IsCounted s
      → (a : Address) → a ≢ 0
      → signed_in a client ≡ 0
  not_signed_in s client found missing ok a n = elim (Bool-cases (client.address == a)) [
    | inr c ↦ rw c (ground (arith, Bool-cases client.downstream))
    | inl c ↦
        let same : client.address ≡ a = (==_iff client.address a).0 c in
        let empty : total (workers a) s.accounts ≡ 0 =
          total_missing address_of (workers a) client.address s.accounts missing
            (λ x e. rw (← same) (rw e)) in
        omega (
          arith,
          empty,
          ok.worker_total a n,
          total-remove fd_of (signed_in a) client.fd s.clients client found,
        )
  ]

  -- A miner that goes leaves its account, if it has one.
  left_account :
      (s : Sessions D) (client : Client D)
      → find fd_of client.fd s.clients ≡ some client
      → client.downstream ≡ false
      → IsCounted s
      → IsCounted (
          let t = leave_account client.address s in
          record t { clients = remove fd_of client.fd t.clients })
  unfolding leave_account set_connected upstream_send
  left_account s client found miner ok =
      let itself : below client ≡ 0 = rw miner in
      elim (Option-cases (find address_of client.address s.accounts)) [
        | inl missing ↦
            rw (leave_account, missing)
              (keep_accounts s client s.stats.connected_accounts found
                (not_signed_in s client found missing ok) (omega arith) ok)
        | inr (account, its) ↦
            let used =
              find-All address_of IsInUse client.address s.accounts account its ok.in_use in
            elim (Bool-cases (account.worker_count == 1)) [
              | inl last ↦
                  rw (leave_account, its, last)
                    (drop_account s client account _ _ _ found miner its (ground (arith, last))
                      (ground (arith, Bool-cases (s.account_count == 0)))
                      (ground (arith, Bool-cases (s.stats.connected_accounts == 0))) ok)
              | inr not_last ↦
                  let more : 1 < account.worker_count = ground (arith, not_last, used.0) in
                  rw (leave_account, its, not_last, lt→ltb 1 account.worker_count more)
                    (fewer_workers s client account found miner its more ok)
            ]
      ]

  -- A pool further down takes its accounts along.
  discounted :
      (s : Sessions D) (client : Client D)
      → find fd_of client.fd s.clients ≡ some client
      → IsCounted s
      → IsCounted
          (let t = discount client s in record t { clients = remove fd_of client.fd t.clients })
  unfolding discount
  discounted s client found ok = elim (Bool-cases client.downstream) [
    | inr miner ↦ rw (discount, miner) (left_account s client found miner ok)
    | inl pool ↦
        let fewer = total-remove fd_of below client.fd s.clients client found in
        let itself : below client ≡ client.downstream_accounts = rw pool in
        let enough : leb client.downstream_accounts s.stats.connected_accounts ≡ true =
          ground (arith, fewer, itself, ok.connected_total) in
        rw (discount, pool, enough)
          (keep_accounts s client (s.stats.connected_accounts - client.downstream_accounts) found
            (λ a n. rw pool) (omega (arith, fewer, ok.connected_total)) ok)
  ]

  -- What a client that goes counts for goes with it, whether it was signed in or not.
  pub client_clear-IsCounted :
      (s : Sessions D) (fd : Option ℕ) → IsCounted s → IsCounted (client_clear fd s)
  unfolding client_clear client_find
  client_clear-IsCounted s none ok = ok
  client_clear-IsCounted s (some fd) ok = elim (Option-cases (find fd_of fd s.clients)) [
    | inl e ↦ rw (client_clear, e) ok
    | inr (client, e) ↦
        let key : client.fd ≡ fd = find-key fd_of fd s.clients client e in
        rw (client_clear, e)
          (discounted s client (subst (λ k. find fd_of k s.clients ≡ some client) (sym key) e) ok)
  ]
