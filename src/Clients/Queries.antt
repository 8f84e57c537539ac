-- ===== src/Clients/Queries.antt =====
-- What the web pages learn about a miner from worker_count of src/pool.c.
use salvium_pool.Prelude.{
  ◌≤◌, ◌≡◌, ◌≢◌, ◌∙◌, refl, sym, true, Option, List, [], ◌∷◌, ◌==◌, ==_iff, arith, inl, inr,
  Bool-cases, Option-cases,
}
use salvium_pool.Prelude.Table.{total, find, remove, find-key, total_missing, total-remove}
use salvium_pool.Pool.Types.{Address, Account, PoolStats, Message}
use salvium_pool.Pool.Double.{Double}
use salvium_pool.Clients.{Sessions, address_of, worker_count}
use salvium_pool.Clients.Counts.{has, workers, signed_in}
use salvium_pool.Clients.Reach.{Reach, at_start, Reach-IsCounted_start}

module _ {D : Type 0} where
  no_workers :
      (a : Address) (accounts : List (Account D))
      → total (has a) accounts ≡ 0
      → total (workers a) accounts ≡ 0
  no_workers a [] e = refl
  no_workers a (x ∷ xs) e = elim (Bool-cases (x.address == a)) [
    | inl its ↦ absurd (ground (arith, its, e))
    | inr other ↦ ground (arith, other, e, no_workers a xs (ground (arith, other, e)))
  ]

  worker_count-total :
      (a : Address) (s : Sessions D)
      → total (has a) s.accounts ≤ 1
      → worker_count a s ≡ total (workers a) s.accounts
  unfolding worker_count
  worker_count-total a s one = elim (Option-cases (find address_of a s.accounts)) [
    | inl missing ↦
        rw (worker_count, missing)
          (sym
            (total_missing address_of (workers a) a s.accounts missing (λ x other. rw other refl)))
    | inr (account, its) ↦
        let named : (account.address == a) ≡ true =
          (==_iff account.address a).1 (find-key address_of a s.accounts account its) in
        let alone = total-remove address_of (has a) a s.accounts account its in
        let rest =
          no_workers a (remove address_of a s.accounts) (ground (arith, alone, named, one)) in
        let counted = total-remove address_of (workers a) a s.accounts account its in
        rw (worker_count, its) (ground (arith, counted, rest, named))
  ]

module _ (fp : Double) where
  open fp use {D}

  -- As long as a miner signs in only once on a connection, a pool further down takes back no more accounts
  -- than it reported, no statistics are taken over from a pool further up, and the counts fit their integers:
  -- in every state that connections, logins and reports of accounts lead to from the pool's start, the count of workers that is shown for an
  -- address is the number of the miners signed in at it.
  pub Reach-worker_count :
      (stats : PoolStats) (upstream : Option (List Message)) (s : Sessions D) (a : Address)
      → Reach fp (at_start fp stats upstream) s
      → a ≢ 0
      → worker_count a s ≡ total (signed_in a) s.clients
  Reach-worker_count stats upstream s a r named =
      let ok = Reach-IsCounted_start fp stats upstream s r in
      worker_count-total a s (ok.one_account a) ∙ ok.worker_total a named
