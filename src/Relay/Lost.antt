-- ===== src/Relay/Lost.antt =====
-- upstream_on_event of src/pool.c when the connection to the pool further up is lost.
use salvium_pool.Prelude.{◌≡◌, refl, none, some, List, ◌==◌, ==_iff, inl, inr, Bool-cases}
use salvium_pool.Pool.Types.{Message}
use salvium_pool.Pool.Double.{Double}
use salvium_pool.Pool.Lmdb.{Lmdb}
use salvium_pool.Clients.{Sessions, set_connected}
use salvium_pool.Relay.{PeerDb, update_pool_hr, upstream_lost}

module _ (fp : Double) (db : Lmdb) (peers : PeerDb db) where
  open fp use {D}

  -- When the pool further up is lost, the connected accounts are the pool's own again, and nothing is sent
  -- up any more; the pool's hashrate stays what the other pool said last.
  pub upstream_lost-accounts :
      (s : Sessions D) (sent : List Message)
      → s.upstream ≡ some sent
      → (let t = upstream_lost fp db peers s in
          (t.stats.connected_accounts ≡ s.account_count)
          × (t.upstream ≡ none)
          × (t.stats.pool_hashrate ≡ s.stats.pool_hashrate))
  unfolding upstream_lost update_pool_hr set_connected
  upstream_lost-accounts s sent up =
      elim (Bool-cases (s.stats.connected_accounts == s.account_count)) [
        | inl same ↦
            rw (upstream_lost, same)
              ((==_iff s.stats.connected_accounts s.account_count).0 same, refl, refl)
        | inr other ↦ rw (upstream_lost, other, update_pool_hr, up) (refl, refl, refl)
      ]
