-- ===== src/Lib.antt =====
-- salvium-pool, a mining pool for Salvium: src/pool.c, and the containers and helpers that it uses.
--
-- The program is one event loop. A miner's submission is checked against one of its jobs
-- (miner_on_submit); a share that is good enough is stored under the height of its template
-- (store_share), and a hash that meets the network's difficulty is sent to the daemon as a block. The
-- headers that the daemon reports settle the stored blocks (process_blocks): one that is unlocked has
-- its reward shared out over the newest shares, PPLNS (payout_block, balance_add). From time to time
-- the balances that reach a threshold are sent to the wallet (send_payments), and its answer takes them
-- off (rpc_on_wallet_transferred). Miners connect and sign in (client_add, miner_on_login), and each new
-- template that the daemon gives makes a job for each of them (rpc_on_block_template, miner_send_job).
-- Pools can be chained: one further down sends its shares and blocks up (trusted_on_read), and gets
-- statistics and balances back (upstream_on_read). The files, and what they model:
--
--   Prelude    shared names, tests on numbers, C arrays as lists, laws of remainders and of bits
--   BStack     src/bstack.c, the bounded stack of templates, jobs and headers
--   GrowBag    src/growbag.c, the growing array of clients, accounts and payments
--   Util       src/util.c, hexadecimal text, byte order, varints, bounded copies, trimming
--   Pool       the records of src/pool.c, and the interfaces of LMDB and of `double`
--   Balance    balance_add of src/pool.c
--   Payout     payout_block of src/pool.c
--   Blocks     process_blocks of src/pool.c
--   Payments   send_payments and rpc_on_wallet_transferred of src/pool.c
--   Store      store_share, store_block and account_balance of src/pool.c
--   Shares     the sums over stored shares of src/pool.c
--   Difficulty hr_update, client_target, retarget_required, retarget and target_to_hex of src/pool.c
--   Work       what a submission is made of: client_find_job, the block's blob, the hash's difficulty
--   Culling    timer_on_10m of src/pool.c: old shares are deleted
--   Submit     miner_on_submit of src/pool.c
--   Clients    client_add, client_clear, signing in, worker_count, and the counts of accounts, of src/pool.c
--   Shared     the template that processes share, of src/pool.c and src/shared_template.h
--   Jobs       miner_send_job, clients_send_job and rpc_on_block_template of src/pool.c
--   Stratum    miner_on_login, miner_on_block_template and miner_on_read of src/pool.c
--   Protocol   the bytes of the messages between pools, and the loops that read them
--   Relay      upstream_send_client_share, _block and _backlog, and the handlers of what comes from above
--   Peers      trusted_on_read with its handlers, and upstream_on_read, of src/pool.c
--   Headers    rpc_on_last_block_header, start-up and rpc_on_block_submitted of src/pool.c
--
-- Functions keep the names of the C functions; a loop or a part of a function that is long is a
-- definition of its own, named for what it does. A C struct is a record, an integer is a natural number
-- whose wrap-around is written out, a byte array is a list of bytes, and a pointer into an array is an
-- index. An address or a hash that is only copied and compared is a number, and 0 is the empty text. A
-- function that changes state takes the state and returns it with its code; what miner_on_submit sends
-- and stores is a list of effects. Clocks, the outcome of realloc and the job that miner_on_submit may send
-- early are arguments.
--
-- LMDB is the record Pool.Lmdb.Lmdb of calls on a transaction, which is the contents that it sees, with
-- Payments.PaymentDb, Store.StoreDb, Shares.ShareDb, Culling.CullDb and Relay.PeerDb for the calls that only
-- those parts make. IsReliable, HasBlocks, HasPayments, HasAppends, HasScans, HasSweep and HasNext say what
-- the calls do when no fault occurs; Pool.Memory and the tests have instances of them. The arithmetic of
-- `double` is the record Pool.Double.Double; nothing is assumed of it but what a theorem names. The hash
-- functions behind src/xmr.cpp are the record Work.Crypto.
--
-- Loops that end by what the database returns run on fuel, and the theorems about them show that enough
-- fuel gives a result: for payout_block the number of shares and heights at and below the block's, for
-- process_blocks one round more than there are blocks at a height, for send_payments one more than there
-- are balances, for culling and for a backlog one more than there are shares, for a loop over a bag one
-- more than it has cells. A loop over an array runs on the number of elements it has before it. The loops
-- that read messages run on the number of bytes in the input.
--
-- What happens over time is a step relation with its reachable states: Clients.Reach has the connections
-- and the accounts, Jobs.Events the jobs and the templates of one process. The hash tables of
-- src/uthash.h are lists of their entries (Prelude.Table), and an evbuffer is the list of its bytes;
-- evbuffer_search and the functions of src/xmr.cpp are parameters.
--
-- Not modelled: the parsing of JSON and the texts of requests and answers, libevent, sockets, locks and
-- processes, read_config and main, and the web page. These are input and output around the parts that
-- are modelled. uthash and rxi/log are copies of other projects. Later work: the set-up of the
-- database.
pub mod Prelude
pub mod BStack
pub mod Util
pub mod Pool
pub mod Balance
pub mod Payout
pub mod Blocks
pub mod Difficulty
pub mod GrowBag
pub mod Payments
pub mod Culling
pub mod Work
pub mod Submit
pub mod Store
pub mod Shares
pub mod Clients
pub mod Protocol
pub mod Relay
pub mod Peers
pub mod Shared
pub mod Jobs
pub mod Stratum
pub mod Headers
