-- ===== src/Clients/Again.antt =====
-- A miner that signs in twice on one connection, in src/pool.c.
use salvium_pool.Prelude.{
  ℕ, suc, ◌+◌, ◌-◌, ◌%◌, ◌^◌, ◌<◌, ◌≡◌, ◌≢◌, refl, sym, subst, inl, inr, false, some, length, ◌==◌,
  ==_iff, lt→ltb, Option-cases, arith,
}
use salvium_pool.Prelude.Table.{
  total, find, remove, modify, find-key, find-All, total_missing, total-remove, total-modify,
  find-modify,
}
use salvium_pool.Pool.Types.{Address, HrStats, Client, Account}
use salvium_pool.Clients.{
  Sessions, fd_of, address_of, client_find, leave_account, discount, client_clear, join_account,
}
use salvium_pool.Clients.Counts.{workers, signed_in, IsInUse, IsCounted}
use salvium_pool.Clients.Join.{sign, one_more, few_workers}

module _ {D : Type 0} where
  abbrev one_fewer : Account D → Account D
  one_fewer account = record account { worker_count = account.worker_count - 1 }

  -- The account of a signed-in client is found.
  has_account :
      (s : Sessions D) (client : Client D) (fd : ℕ) (address : Address)
      → find fd_of fd s.clients ≡ some client
      → client.downstream ≡ false
      → client.address ≡ address
      → address ≢ 0
      → IsCounted s
      → (account : Account D) × (find address_of address s.accounts ≡ some account)
  has_account s client fd address found miner at named ok =
      elim (Option-cases (find address_of address s.accounts)) [
        | inr its ↦ its
        | inl missing ↦
            let here : signed_in address client ≡ 1 =
              rw (miner, (==_iff client.address address).1 at) refl in
            let empty =
              total_missing address_of (workers address) address s.accounts missing
                (λ x e. rw e refl) in
            let one = total-remove fd_of (signed_in address) fd s.clients client found in
            absurd (omega (arith, here, empty, one, ok.worker_total address named))
      ]

  -- A miner with others in its account goes.
  clear_one :
      (s : Sessions D) (client : Client D) (account : Account D) (fd : ℕ)
      → find fd_of fd s.clients ≡ some client
      → client.downstream ≡ false
      → find address_of client.address s.accounts ≡ some account
      → 1 < account.worker_count
      → client_clear (some fd) s ≡ record s {
        clients = remove fd_of client.fd s.clients;
        accounts = modify address_of client.address one_fewer s.accounts;
      }
  unfolding client_clear client_find discount leave_account
  clear_one s client account fd found miner its more =
      let several : (account.worker_count == 1) ≡ false = ground arith in
      rw
        (
          client_clear,
          found,
          discount,
          miner,
          leave_account,
          its,
          several,
          lt→ltb 1 account.worker_count more,
        )
        refl

  -- A miner that is signed in, signs in again on the same connection and then closes it leaves a worker
  -- behind: its account has one more than there are clients signed in to it.
  pub join_account-client_clear :
      (now : ℕ) (hr_stats : HrStats D) (fd : ℕ) (address : Address) (s : Sessions D)
      (client : Client D)
      → client_find (some fd) s ≡ some client
      → client.downstream ≡ false
      → client.address ≡ address
      → address ≢ 0
      → length s.clients < 2 ^ 32
      → IsCounted s
      → (let t = client_clear (some fd) (join_account now hr_stats fd address s) in
          total (workers address) t.accounts ≡ suc (total (signed_in address) t.clients))
  unfolding join_account client_find
  join_account-client_clear now hr_stats fd address s client found miner at named room ok =
      let (account, its) = has_account s client fd address found miner at named ok in
      let key = find-key address_of address s.accounts account its in
      let few = few_workers s account address named its ok in
      let busy = (find-All address_of IsInUse address s.accounts account its ok.in_use).0 in
      let count : (account.worker_count + 1) % 2 ^ 64 ≡ account.worker_count + 1 = omega arith in
      let joined : Sessions D = record s {
        clients = modify fd_of fd (sign address) s.clients;
        accounts = modify address_of address one_more s.accounts;
      } in
      let here : signed_in address client ≡ 1 =
        rw (miner, (==_iff client.address address).1 at) refl in
      let there : signed_in address (sign address client) ≡ 1 =
        rw (miner, (==_iff address address).1 refl) refl in
      let found' = find-modify fd_of fd (sign address) s.clients client found refl in
      let fd_key : client.fd ≡ fd = find-key fd_of fd s.clients client found in
      let at_key =
        subst (λ k. find fd_of k joined.clients ≡ some (sign address client)) (sym fd_key) found' in
      let its' = find-modify address_of address one_more s.accounts account its refl in
      let before : workers address account ≡ account.worker_count =
        rw ((==_iff account.address address).1 key) refl in
      let between : workers address (one_more account) ≡ account.worker_count + 1 =
        rw ((==_iff account.address address).1 key, count) refl in
      let after : workers address (one_fewer (one_more account)) ≡ account.worker_count =
        rw ((==_iff account.address address).1 key, count) (omega arith) in
      let cleared =
        clear_one joined (sign address client) (one_more account) fd found' miner its'
          (omega (arith, count, busy)) in
      rw (join_account, found, its, cleared)
        (omega (
          arith,
          here,
          there,
          before,
          between,
          after,
          ok.worker_total address named,
          total-modify fd_of (signed_in address) fd (sign address) s.clients client found,
          total-remove fd_of (signed_in address) client.fd joined.clients (sign address client)
              at_key,
          total-modify address_of (workers address) address one_more s.accounts account its,
          total-modify address_of (workers address) address one_fewer joined.accounts
              (one_more account) its',
        ))
