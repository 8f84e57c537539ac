-- ===== src/Clients/Tests.antt =====
-- Runs of the model of connections and accounts.
use salvium_pool.Prelude.{ℕ, suc, ◌≡◌, ◌≢◌, refl, false, none, some, [], arith}
use salvium_pool.Prelude.Table.{total}
use salvium_pool.Pool.Types.{PoolStats, Client}
use salvium_pool.Pool.Rational.{rational}
use salvium_pool.Clients.{
  Sessions, client_find, client_clear, join_account, client_add, no_hr_stats, discount,
  leave_account, set_connected, upstream_send,
}
use salvium_pool.Clients.{worker_count}
use salvium_pool.Clients.Counts.{IsCounted, workers, signed_in}
use salvium_pool.Clients.Reach.{
  accept, login, close, Reach, here, next, at_start, Reach-IsCounted_start, Reach-nobody,
}
use salvium_pool.Clients.Queries.{Reach-worker_count}
use salvium_pool.Clients.Again.{join_account-client_clear}

abbrev stats : PoolStats
stats = record {
  network_difficulty = 1000;
  network_hashrate = 8;
  network_height = 7;
  connected_accounts = 0;
  pool_hashrate = 0;
  round_hashes = 0;
  pool_blocks_found = 0;
  last_block_found = 0;
  last_template_fetched = 0;
}

abbrev start : Sessions (ℕ × ℕ)
start = at_start rational stats none

abbrev one : Sessions (ℕ × ℕ)
one = client_add rational 1000 5 false start

abbrev signed : Sessions (ℕ × ℕ)
signed = join_account 1001 (no_hr_stats rational) 5 3 one

abbrev gone : Sessions (ℕ × ℕ)
gone = client_clear (some 5) signed

abbrev client : Client (ℕ × ℕ)
client = record {
  fd = 5;
  address = 0;
  hashes = 0;
  hr_stats = no_hr_stats rational;
  connected_since = 1000;
  is_xnp = false;
  is_nicehash = false;
  mode = 0;
  bad_shares = 0;
  downstream = false;
  downstream_accounts = 0;
  req_diff = 0;
}

abbrev with_address : Client (ℕ × ℕ)
with_address = record client { address = 3 }

found : client_find (some 5) one ≡ some client
unfolding client_find client_add
found = refl

found_signed : client_find (some 5) signed ≡ some with_address
unfolding client_find client_add join_account set_connected upstream_send
found_signed = refl

named : ◌≢◌ {A = ℕ} 3 0
named e = omega arith

signed-Reach : Reach rational start signed
unfolding client_add
signed-Reach =
    next (next here (accept 1000 5 false))
      (login 1001 5 3 client found refl refl named (omega arith) (omega arith))

Reach-IsCounted_start_example : IsCounted signed
Reach-IsCounted_start_example = Reach-IsCounted_start rational stats none signed signed-Reach

gone_clients : gone.clients ≡ []
unfolding client_clear client_find client_add join_account set_connected upstream_send discount
    leave_account
gone_clients = refl

Reach-nobody_run : (gone.accounts ≡ []) × (gone.stats.connected_accounts ≡ 0)
Reach-nobody_run =
    Reach-nobody rational stats none gone (next signed-Reach (close (some 5))) gone_clients

Reach-worker_count_example : worker_count 3 signed ≡ total (signed_in 3) signed.clients
Reach-worker_count_example = Reach-worker_count rational stats none signed 3 signed-Reach named

join_account-client_clear_example :
    total
      (workers 3)
      (client_clear (some 5) (join_account 1002 (no_hr_stats rational) 5 3 signed)).accounts
    ≡ suc (
        total
          (signed_in 3)
          (client_clear (some 5) (join_account 1002 (no_hr_stats rational) 5 3 signed)).clients)
unfolding client_add join_account client_find set_connected upstream_send
join_account-client_clear_example =
    join_account-client_clear 1002 (no_hr_stats rational) 5 3 signed with_address found_signed refl
      refl named (omega arith) Reach-IsCounted_start_example
