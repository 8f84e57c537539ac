-- ===== src/Clients.antt =====
-- The connections of src/pool.c and the accounts that miners sign in to: client_add, client_find and
-- client_clear, the part of miner_on_login that signs a miner in, and the messages of a pool further
-- down about its accounts. `clients_by_fd` and `accounts` are hash tables, and what the pool writes to
-- other pools is the list of its messages. The web pages ask for a miner's workers and hashrates.
pub mod Counts
pub mod Leave
pub mod Join
pub mod Reach
pub mod Again
pub mod Queries
mod Tests
use salvium_pool.Prelude.{
  ℕ, ◌+◌, ◌-◌, ◌%◌, ◌^◌, Bool, true, false, Option, none, some, List, [], ◌∷◌, ◌++◌, replicate, ltb,
  leb, ◌==◌, if◌then◌else◌,
}
use salvium_pool.Prelude.Table.{find, remove, modify}
use salvium_pool.Pool.Types.{Address, HrStats, Client, Account, PoolStats, Message}
use salvium_pool.Pool.Double.{Double}

pub record Sessions (D : Type 0) : Type 0 where
  pub clients : List (Client D)
  pub accounts : List (Account D)
  pub account_count : ℕ
  pub stats : PoolStats
  -- `upstream_event`, none where it is NULL, with what was written to it
  pub upstream : Option (List Message)
  -- what was written to pools further down, with their descriptors
  pub downstream_sent : List (ℕ × Message)

abbrev pub fd_of : {D : Type 0} → Client D → ℕ
fd_of client = client.fd

abbrev pub address_of : {D : Type 0} → Account D → ℕ
address_of account = account.address

module _ {D : Type 0} where
  -- a message to the pool further up, when there is one
  unfoldable pub upstream_send : Message → Sessions D → Sessions D
  upstream_send message s = record s {
    upstream = elim s.upstream [ none ↦ none | some sent ↦ some (sent ++ message ∷ []) ];
  }

  unfoldable pub set_connected : ℕ → Sessions D → Sessions D
  set_connected n s =
      let stats = s.stats in record s { stats = record stats { connected_accounts = n } }

  -- A negative descriptor is none.
  unfoldable pub client_find : Option ℕ → Sessions D → Option (Client D)
  client_find none s = none
  client_find (some fd) s = find fd_of fd s.clients

  unfoldable pub trusted_send_stats : ℕ → Sessions D → Sessions D
  trusted_send_stats fd s = record s {
    downstream_sent = s.downstream_sent ++ (fd, Message.stats s.stats) ∷ [];
  }

  -- The worker of a client that goes: the last one of an account takes the account with it.
  unfoldable pub leave_account : Address → Sessions D → Sessions D
  leave_account address s = elim (find address_of address s.accounts) [
    | none ↦ s
    | some account ↦
        let count = s.account_count in
        let connected = s.stats.connected_accounts in
        let t = record s { account_count = if count == 0 then count else count - 1 } in
        let t = set_connected (if connected == 0 then connected else connected - 1) t in
        let t = upstream_send Message.disconnect t in
        let fewer = λ (a : Account D). record a { worker_count = a.worker_count - 1 } in
        if account.worker_count == 1
        then (record t { accounts = remove address_of address t.accounts })
        else if ltb 1 account.worker_count
        then (record s { accounts = modify address_of address fewer s.accounts })
        else s
  ]

  -- What a client that goes counted for.
  unfoldable pub discount : Client D → Sessions D → Sessions D
  discount client s =
      let connected = s.stats.connected_accounts in
      if client.downstream
      then (if leb client.downstream_accounts connected
          then set_connected (connected - client.downstream_accounts) s
          else s)
      else leave_account client.address s

  unfoldable pub client_clear : Option ℕ → Sessions D → Sessions D
  client_clear fd s = elim (client_find fd s) [
    | none ↦ s
    | some client ↦
        let t = discount client s in record t { clients = remove fd_of client.fd t.clients }
  ]

  -- The part of `miner_on_login` that signs a client in: its address is set, and its account is found or
  -- made.
  unfoldable pub join_account : ℕ → HrStats D → ℕ → Address → Sessions D → Sessions D
  join_account now hr_stats fd address s =
      let signed = λ (c : Client D). record c { address = address } in
      let t = record s { clients = modify fd_of fd signed s.clients } in
      let more = λ (a : Account D). record a { worker_count = (a.worker_count + 1) % 2 ^ 64 } in
      let account : Account D = record {
        address = address;
        worker_count = 1;
        connected_since = now;
        hashes = 0;
        hr_stats = hr_stats;
      } in
      elim (client_find (some fd) s) [
        | none ↦ s
        | some client ↦ elim (find address_of address s.accounts) [
          | some a ↦ record t { accounts = modify address_of address more t.accounts }
          | none ↦
              let connected = t.stats.connected_accounts in
              let counted = record t { account_count = (t.account_count + 1) % 2 ^ 32 } in
              let counted =
                set_connected (if client.downstream then connected else (connected + 1) % 2 ^ 32)
                  counted in
              let counted = upstream_send (Message.connect 1) counted in
              record counted { accounts = counted.accounts ++ account ∷ [] }
        ]
      ]

  unfoldable pub trusted_on_account_connect : ℕ → ℕ → Sessions D → Sessions D
  trusted_on_account_connect fd count s =
      let more = λ (c : Client D). record c {
        downstream_accounts = (c.downstream_accounts + count) % 2 ^ 32;
      } in
      let t = set_connected ((s.stats.connected_accounts + count) % 2 ^ 32) s in
      let t = record t { clients = modify fd_of fd more t.clients } in
      upstream_send (Message.connect count) (trusted_send_stats fd t)

  unfoldable pub trusted_on_account_disconnect : ℕ → Sessions D → Sessions D
  trusted_on_account_disconnect fd s =
      let connected = s.stats.connected_accounts in
      let fewer = λ (c : Client D). record c {
        downstream_accounts =
            if c.downstream_accounts == 0 then c.downstream_accounts else c.downstream_accounts - 1;
      } in
      let t = set_connected (if connected == 0 then connected else connected - 1) s in
      let t = record t { clients = modify fd_of fd fewer t.clients } in
      upstream_send Message.disconnect (trusted_send_stats fd t)

  unfoldable pub worker_count : Address → Sessions D → ℕ
  worker_count address s = elim (find address_of address s.accounts) [
    | none ↦ 0
    | some account ↦ account.worker_count
  ]

  -- `avg` keeps what it had where there is no account.
  unfoldable pub account_hr : List D → Address → Sessions D → List D
  account_hr avg address s = elim (find address_of address s.accounts) [
    | none ↦ avg
    | some account ↦ account.hr_stats.avg
  ]

module _ (fp : Double) where
  open fp use {D, of_u64}

  -- what a recycled client or account has
  unfoldable pub no_hr_stats : HrStats D
  no_hr_stats = record { last_calc = 0; diff_since = 0; avg = replicate 6 (of_u64 0) }

  unfoldable pub client_add : ℕ → ℕ → Bool → Sessions D → Sessions D
  client_add now fd downstream s =
      let client : Client D = record {
        fd = fd;
        address = 0;
        hashes = 0;
        hr_stats = no_hr_stats;
        connected_since = now;
        is_xnp = false;
        is_nicehash = false;
        mode = 0;
        bad_shares = 0;
        downstream = downstream;
        downstream_accounts = 0;
        req_diff = 0;
      } in
      record s { clients = s.clients ++ client ∷ [] }
