-- ===== src/Stratum/Tests.antt =====
-- Runs of the model of the miners' messages.
use salvium_pool.Prelude.{
  ℕ, ◌≡◌, ◌⊎◌, ◌≤◌, ◌+◌, refl, true, false, none, some, [], ◌∷◌, ◌++◌, replicate, ◌==◌,
  if◌then◌else◌, arith,
}
use salvium_pool.Prelude.Table.{modify}
use salvium_pool.Pool.Types.{Client, PoolStats, Job}
use salvium_pool.Pool.Rational.{rational}
use salvium_pool.Clients.{Sessions, fd_of, client_find, join_account, no_hr_stats}
use salvium_pool.Jobs.{no_job}
use salvium_pool.Stratum.{absent, given, LoginMessage, Rejection, Xmr, check_login, miner_on_login}
use salvium_pool.Stratum.Login.{IsAllowed, miner_on_login-IsAllowed}
use salvium_pool.Stratum.Template.{TemplateMessage, miner_on_block_template}
use salvium_pool.Stratum.Chosen.{AllChosen, miner_on_block_template-AllChosen}
use salvium_pool.Stratum.Lines.{
  Method, Removal, message, login_method, other, read_lines, read_lines_in_turn,
}

abbrev xmr : Xmr
xmr = record {
  parse_address = λ a. if a == 0 then none else some (18, 0);
  is_integrated = λ pf. pf == 19;
  validate_block_from_blob = λ blob. 0;
  strtoull = λ text. 500;
}

abbrev client : Client (ℕ × ℕ)
client = record {
  fd = 5;
  address = 0;
  hashes = 0;
  hr_stats = no_hr_stats rational;
  connected_since = 1000;
  is_xnp = false;
  is_nicehash = false;
  mode = 0;
  bad_shares = 0;
  downstream = false;
  downstream_accounts = 0;
  req_diff = 0;
}

abbrev stats : PoolStats
stats = record {
  network_difficulty = 1000;
  network_hashrate = 8;
  network_height = 7;
  connected_accounts = 0;
  pool_hashrate = 0;
  round_hashes = 0;
  pool_blocks_found = 0;
  last_block_found = 0;
  last_template_fetched = 0;
}

abbrev sessions : Sessions (ℕ × ℕ)
sessions = record {
  clients = client ∷ [];
  accounts = [];
  account_count = 0;
  stats = stats;
  upstream = none;
  downstream_sent = [];
}

abbrev login : LoginMessage
login = record {
  params = given tt;
  login = given 3;
  pass = given (b'd' ∷ b'=' ∷ b'5' ∷ []);
  mode = absent;
  agent = some (b'x' ∷ []);
}

found : client_find (some 5) sessions ≡ some client
unfolding client_find
found = refl

miner_on_login-IsAllowed_example :
    ((r : Rejection) × ((miner_on_login xmr false 0 1000 (no_hr_stats rational) 5 login sessions).1
        ≡ some r)
      × ((miner_on_login xmr false 0 1000 (no_hr_stats rational) 5 login sessions).0.accounts ≡ [])
      × ((miner_on_login xmr false 0 1000 (no_hr_stats rational) 5 login sessions).0.account_count
          ≡ 0)
      × ((miner_on_login xmr false 0 1000 (no_hr_stats rational) 5 login sessions).0.stats ≡ stats)
      × ((miner_on_login xmr false 0 1000 (no_hr_stats rational) 5 login sessions).0.upstream
          ≡ none))
    ⊎ (((miner_on_login xmr false 0 1000 (no_hr_stats rational) 5 login sessions).1 ≡ none)
        × IsAllowed xmr false 0 3 (check_login xmr false 0 login client).0
        × ((miner_on_login xmr false 0 1000 (no_hr_stats rational) 5 login sessions).0
            ≡ join_account 1000 (no_hr_stats rational) 5 3 (record sessions {
              clients =
                  modify fd_of 5 (λ c. (check_login xmr false 0 login client).0) (client ∷ []);
            })))
miner_on_login-IsAllowed_example =
    miner_on_login-IsAllowed xmr false 0 1000 (no_hr_stats rational) 5 login sessions client found

abbrev job : Job
job = record no_job { id = replicate 16 0x11 }

abbrev template_message : TemplateMessage
template_message = record {
  params = given tt;
  id = given [];
  job_id = given (replicate 32 b'1');
  blob = given (b'0' ∷ b'1' ∷ []);
  difficulty = given 1000;
  height = given 9;
  prev_hash = given 1;
  seed_hash = absent;
  next_seed_hash = none;
}

miner_on_block_template-AllChosen_example :
    AllChosen 7 1000
      (job ∷ [])
      (miner_on_block_template xmr 7 1000 template_message
        (record client { mode = 1 })
        (job ∷ [])).0
miner_on_block_template-AllChosen_example =
    miner_on_block_template-AllChosen xmr 7 1000 template_message (record client { mode = 1 })
      (job ∷ []) (omega arith) (omega arith) (omega arith)

-- a state that is the count of bad shares
abbrev call : Method → ℕ → ℕ → ℕ
call method m s = s + m

abbrev remove : Removal → ℕ → ℕ
remove removal s = 100

read_lines_in_turn_example :
    (((read_lines call (λ s. s) remove (message login_method 2 ∷ []) 0).1 ≡ true)
      × (read_lines call (λ s. s) remove ((message login_method 2 ∷ []) ++ message other 0 ∷ []) 0
          ≡ read_lines call
              (λ s. s)
              remove
              (message other 0 ∷ [])
              (read_lines call (λ s. s) remove (message login_method 2 ∷ []) 0).0)
      × ((read_lines call (λ s. s) remove (message login_method 2 ∷ []) 0).0 ≤ 5))
    ⊎ (((read_lines call (λ s. s) remove (message login_method 2 ∷ []) 0).1 ≡ false)
        × (read_lines call (λ s. s) remove ((message login_method 2 ∷ []) ++ message other 0 ∷ []) 0
            ≡ read_lines call (λ s. s) remove (message login_method 2 ∷ []) 0))
read_lines_in_turn_example =
    read_lines_in_turn call (λ s. s) remove (message login_method 2 ∷ []) (message other 0 ∷ []) 0
      (omega arith)
