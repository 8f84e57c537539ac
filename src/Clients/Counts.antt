-- ===== src/Clients/Counts.antt =====
-- What the counters of connections and accounts in src/pool.c are meant to count: workers of each account,
-- accounts, and accounts with those of the pools further down.
use salvium_pool.Prelude.{
  ℕ, ◌+◌, ◌^◌, ◌≤◌, ◌<◌, ◌≡◌, ◌≢◌, refl, ap, ◌∙◌, true, List, [], ◌∷◌, length, All, ◌==◌, ==_iff,
  if◌then◌else◌, arith,
}
use salvium_pool.Prelude.Table.{total}
use salvium_pool.Pool.Types.{Address, Client, Account}
use salvium_pool.Clients.{Sessions}

module _ {D : Type 0} where
  -- what an account counts for at an address, and how many workers it has there
  abbrev pub has : Address → Account D → ℕ
  has a account = if account.address == a then 1 else 0

  abbrev pub workers : Address → Account D → ℕ
  workers a account = if account.address == a then account.worker_count else 0

  -- a client that is signed in at an address
  abbrev pub signed_in : Address → Client D → ℕ
  signed_in a client = if client.downstream then 0 else if client.address == a then 1 else 0

  -- the accounts of a pool further down
  abbrev pub below : Client D → ℕ
  below client = if client.downstream then client.downstream_accounts else 0

  abbrev pub IsInUse : Account D → Type 0
  IsInUse account = (0 < account.worker_count) × (account.address ≢ 0)

  pub record IsCounted (s : Sessions D) : Type 0 where
    pub account_total : s.account_count ≡ length s.accounts
    pub connected_total : s.stats.connected_accounts ≡ s.account_count + total below s.clients
    pub connected_below : s.stats.connected_accounts < 2 ^ 32
    pub one_account : (a : Address) → total (has a) s.accounts ≤ 1
    pub worker_total :
        (a : Address) → a ≢ 0 → total (workers a) s.accounts ≡ total (signed_in a) s.clients
    pub in_use : All IsInUse s.accounts

  no_accounts :
      (accounts : List (Account D))
      → All IsInUse accounts
      → ((a : Address) → a ≢ 0 → total (workers a) accounts ≡ 0)
      → accounts ≡ []
  no_accounts [] used none_at = refl
  no_accounts (x ∷ xs) ((busy, named), used) none_at =
      let itself : (x.address == x.address) ≡ true = (==_iff x.address x.address).1 refl in
      let nothing = none_at x.address named in absurd (ground (arith, itself, nothing))

  -- A pool without connections has no accounts.
  pub IsCounted-nobody :
      (s : Sessions D)
      → IsCounted s
      → s.clients ≡ []
      → (s.accounts ≡ []) × (s.stats.connected_accounts ≡ 0)
  IsCounted-nobody s ok gone =
      let accounts =
        no_accounts s.accounts ok.in_use
          (λ a n. ok.worker_total a n ∙ ap (total (signed_in a)) gone) in
      let none_left : length s.accounts ≡ 0 = ap length accounts in
      let none_below : total below s.clients ≡ 0 = ap (total below) gone in
      (accounts, omega (arith, ok.account_total, ok.connected_total))
