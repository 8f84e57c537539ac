-- ===== src/Clients/Join.antt =====
-- The counters of connections and accounts in src/pool.c when a miner signs in (miner_on_login).
use salvium_pool.Prelude.{
  ℕ, ◌+◌, ◌%◌, ◌^◌, ◌≤◌, ◌<◌, ◌≡◌, ◌≢◌, refl, sym, subst, ◌∙◌, inl, inr, Bool, false, Option, none,
  some, List, [], ◌∷◌, ◌++◌, length, length-append, ◌==◌, ==_iff, if◌then◌else◌, Bool-cases,
  Option-cases, arith,
}
use salvium_pool.Prelude.Table.{
  total-append, All-append, find, modify, find-key, total_missing, total-remove, total-modify,
  All-modify, length-modify, total_le-length,
}
use salvium_pool.Pool.Types.{Address, HrStats, Client, Account, Message}
use salvium_pool.Clients.{
  Sessions, fd_of, address_of, upstream_send, set_connected, client_find, join_account,
}
use salvium_pool.Clients.Counts.{has, workers, signed_in, below, IsInUse, IsCounted}

module _ {D : Type 0} where
  abbrev pub sign : Address → Client D → Client D
  sign address client = record client { address = address }

  abbrev pub one_more : Account D → Account D
  one_more account = record account { worker_count = (account.worker_count + 1) % 2 ^ 64 }

  -- A miner that was not signed in counts at its new address and nowhere else.
  pub signed_in-sign :
      (a address : Address) (client : Client D)
      → client.downstream ≡ false
      → client.address ≡ 0
      → a ≢ 0
      → (signed_in a client ≡ 0)
        × (signed_in a (sign address client) ≡ (if address == a then 1 else 0))
  signed_in-sign a address client miner new n =
      (rw (miner, new) (ground (arith, n, Bool-cases (0 == a))), rw miner refl)

  below-sign :
      (address : Address) (client : Client D)
      → client.downstream ≡ false
      → (below client ≡ 0) × (below (sign address client) ≡ 0)
  below-sign address client miner = (rw miner refl, rw miner refl)

  -- An account has at most as many workers as there are clients.
  pub few_workers :
      (s : Sessions D) (account : Account D) (address : Address)
      → address ≢ 0
      → find address_of address s.accounts ≡ some account
      → IsCounted s
      → account.worker_count ≤ length s.clients
  few_workers s account address named its ok =
      let key = find-key address_of address s.accounts account its in
      let itself : workers address account ≡ account.worker_count =
        rw ((==_iff account.address address).1 key) refl in
      let below_one : (c : Client D) → signed_in address c ≤ 1 =
        λ c. ground (arith, Bool-cases c.downstream, Bool-cases (c.address == address)) in
      omega (
        arith,
        itself,
        ok.worker_total address named,
        total-remove address_of (workers address) address s.accounts account its,
        total_le-length (signed_in address) s.clients below_one,
      )

  -- A client signs in to an account that others are signed in to.
  more_workers :
      (s : Sessions D) (client : Client D) (account : Account D) (address : Address)
      → find fd_of client.fd s.clients ≡ some client
      → client.downstream ≡ false
      → client.address ≡ 0
      → address ≢ 0
      → length s.clients < 2 ^ 32
      → find address_of address s.accounts ≡ some account
      → IsCounted s
      → IsCounted (record s {
        clients = modify fd_of client.fd (sign address) s.clients;
        accounts = modify address_of address one_more s.accounts;
      })
  more_workers s client account address found miner new named room its ok =
      let key : account.address ≡ address = find-key address_of address s.accounts account its in
      let few = few_workers s account address named its ok in
      let count : (account.worker_count + 1) % 2 ^ 64 ≡ account.worker_count + 1 = omega arith in
      record {
        account_total =
            ok.account_total ∙ sym (length-modify address_of address one_more s.accounts);
        connected_total = omega (
          arith,
          ok.connected_total,
          below-sign address client miner,
          total-modify fd_of below client.fd (sign address) s.clients client found,
        );
        connected_below = ok.connected_below;
        one_account = λ a. omega (
          arith,
          ok.one_account a,
          total-modify address_of (has a) address one_more s.accounts account its,
        );
        worker_total = λ a n.
            let grown : workers a (one_more account)
                ≡ workers a account + (if address == a then 1 else 0) =
              rw (key, count) (ground (arith, Bool-cases (address == a))) in
            omega (
              arith,
              grown,
              ok.worker_total a n,
              signed_in-sign a address client miner new n,
              total-modify address_of (workers a) address one_more s.accounts account its,
              total-modify fd_of (signed_in a) client.fd (sign address) s.clients client found,
            );
        in_use =
            All-modify address_of IsInUse address one_more s.accounts account its
              (omega (arith, count), rw key named) ok.in_use;
      }

  -- A client signs in to an account of its own.
  new_account :
      (s : Sessions D) (client : Client D) (account : Account D) (address : Address)
      (upstream : Option (List Message))
      → find fd_of client.fd s.clients ≡ some client
      → client.downstream ≡ false
      → client.address ≡ 0
      → address ≢ 0
      → s.stats.connected_accounts + 1 < 2 ^ 32
      → find address_of address s.accounts ≡ none
      → account.address ≡ address
      → account.worker_count ≡ 1
      → IsCounted s
      → IsCounted (
          let t = set_connected ((s.stats.connected_accounts + 1) % 2 ^ 32) s in
          record t {
            clients = modify fd_of client.fd (sign address) s.clients;
            accounts = s.accounts ++ account ∷ [];
            account_count = (s.account_count + 1) % 2 ^ 32;
            upstream = upstream;
          })
  unfolding set_connected
  new_account s client account address upstream found miner new named room its key first ok =
      record {
        account_total =
            omega (
              arith,
              ok.account_total,
              ok.connected_total,
              length-append s.accounts (account ∷ []),
            );
        connected_total = omega (
          arith,
          ok.connected_total,
          below-sign address client miner,
          total-modify fd_of below client.fd (sign address) s.clients client found,
        );
        connected_below = omega arith;
        one_account = λ a. elim (Bool-cases (address == a)) [
          | inl here ↦
              let same : address ≡ a = (==_iff address a).0 here in
              omega (
                arith,
                total-append (has a) s.accounts (account ∷ []),
                total_missing address_of (has a) address s.accounts its (λ x e. rw (← same) (rw e)),
                if_le_one (account.address == a),
              )
          | inr away ↦
              let not_here : has a account ≡ 0 = rw (key, away) refl in
              omega
                (arith, ok.one_account a, not_here, total-append (has a) s.accounts (account ∷ []))
        ];
        worker_total = λ a n.
            let counted : workers a account ≡ (if address == a then 1 else 0) =
              rw (key, first) refl in
            omega (
              arith,
              counted,
              ok.worker_total a n,
              signed_in-sign a address client miner new n,
              total-append (workers a) s.accounts (account ∷ []),
              total-modify fd_of (signed_in a) client.fd (sign address) s.clients client found,
            );
        in_use =
            All-append IsInUse s.accounts account ok.in_use (omega (arith, first), rw key named);
      }
    where
      if_le_one : (b : Bool) → (if b then 1 else 0) ≤ 1
      if_le_one b = ground (arith, Bool-cases b)

  -- A client that was not signed in signs in, while there are fewer than 2 ^ 32 connections and accounts.
  pub join_account-IsCounted :
      (now : ℕ) (hr_stats : HrStats D) (fd : ℕ) (address : Address) (s : Sessions D)
      (client : Client D)
      → client_find (some fd) s ≡ some client
      → client.downstream ≡ false
      → client.address ≡ 0
      → address ≢ 0
      → length s.clients < 2 ^ 32
      → s.stats.connected_accounts + 1 < 2 ^ 32
      → IsCounted s
      → IsCounted (join_account now hr_stats fd address s)
  unfolding join_account client_find set_connected upstream_send
  join_account-IsCounted now hr_stats fd address s client found miner new named room fits ok =
      let key : client.fd ≡ fd = find-key fd_of fd s.clients client found in
      let at_key : find fd_of client.fd s.clients ≡ some client =
        subst (λ k. find fd_of k s.clients ≡ some client) (sym key) found in
      elim (Option-cases (find address_of address s.accounts)) [
        | inr (account, its) ↦
            rw (join_account, found, its, sym key)
              (more_workers s client account address at_key miner new named room its ok)
        | inl missing ↦
            rw (join_account, found, missing, miner, sym key)
              (new_account s client _ address _ at_key miner new named fits missing refl refl ok)
      ]
