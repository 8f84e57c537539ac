-- ===== src/Peers/Streams.antt =====
-- The two readers of messages in src/pool.c on what another pool sends, and where they stop on any input.
use salvium_pool.Prelude.{
  ℕ, ◌+◌, ◌%◌, ◌^◌, ◌<◌, ◌≡◌, ◌∙◌, refl, sym, ap, Bool, true, Option, none, some, List, [], ◌∷◌,
  ◌++◌, length, map, take, All, arith, append-nil,
}
use salvium_pool.Prelude.Table.{total}
use salvium_pool.Pool.Types.{Address, Share, Client, Message}
use salvium_pool.Pool.Double.{Double}
use salvium_pool.Pool.Lmdb.{Lmdb}
use salvium_pool.Store.{StoreDb, store_share}
use salvium_pool.Clients.{client_find, trusted_send_stats}
use salvium_pool.Protocol.{upstream_round, trusted_round, encode, fields_of, share_fields}
use salvium_pool.Protocol.Struct.{Fits}
use salvium_pool.Protocol.Frames.{
  IsAtRest, on_read_done, upstream_round-Consumes, trusted_round-Consumes,
}
use salvium_pool.Protocol.Sent.{
  Reads, IsForUpstream, IsForTrusted, upstream_round-Reads, trusted_round-Reads,
}
use salvium_pool.Protocol.Stream.{stream, handle_all, FindsStart, read_all}
use salvium_pool.Relay.{PeerDb, Relay, upstream_handle, if_upstream}
use salvium_pool.Peers.{
  trusted_handle, clear, upstream_on_read, trusted_on_read, trusted_on_client_share,
  trusted_send_balance, count_share,
}

-- A message whose fields have room, and that the reader knows.
abbrev pub IsSentTo : (Message → Type 0) → Message → Type 0
IsSentTo known m = known m × All Fits (fields_of m)

all_read :
    (known : Message → Type 0) (round : ℕ → List ℕ → _)
    → ((m : Message) → known m → All Fits (fields_of m) → Reads round m)
    → (ms : List Message) → All (IsSentTo known) ms
    → All (Reads round) ms
all_read known round reads [] hs = tt
all_read known round reads (m ∷ ms) ((h, fit), hs) =
    (reads m h fit, all_read known round reads ms hs)

module _ (fp : Double) (db : Lmdb) (peers : PeerDb db)
    (evbuffer_search : List ℕ → List ℕ → Option ℕ) where
  open fp use {D}

  -- Where `evbuffer_search` finds a tag that the input starts with: the messages that a pool further up
  -- sends, of the types that it sends and with fields that fit, are handled one after another, and the first
  -- bytes of one more are left in the input.
  pub upstream_on_read-stream :
      (stores : StoreDb db) (too_long : Address → Bool) (now : ℕ)
      → FindsStart evbuffer_search
      → (ms : List Message) (m : Message) (k : ℕ) (r : Relay D db) → All (IsSentTo IsForUpstream) ms
      → IsSentTo IsForUpstream m
      → k < length (encode m)
      → upstream_on_read fp db peers stores too_long now evbuffer_search
          (stream ms ++ take k (encode m))
          r
        ≡ (take k (encode m), handle_all (upstream_handle fp db peers) ms r)
  unfolding upstream_on_read
  upstream_on_read-stream stores too_long now finds ms m k r hs (h, fit) less =
      read_all evbuffer_search finds upstream_round upstream_round-Consumes
        (upstream_handle fp db peers) (λ r. r) ms m k r
        (all_read IsForUpstream upstream_round upstream_round-Reads ms hs)
        (upstream_round-Reads m h fit) less

  module _ (stores : StoreDb db) (too_long : Address → Bool) (now : ℕ) where
    abbrev handle : ℕ → Message → Relay D db → Relay D db
    handle = trusted_handle fp db peers stores too_long now

    abbrev read : ℕ → List ℕ → Relay D db → List ℕ × Relay D db
    read = trusted_on_read fp db peers stores too_long now evbuffer_search

    -- Where `evbuffer_search` finds a tag that the input starts with: the messages of a connected pool further
    -- down, of the types that it sends and with fields that fit, are handled one after another, and the
    -- first bytes of one more are left in the input.
    pub trusted_on_read-stream :
        FindsStart evbuffer_search
        → (fd : ℕ) (client : Client D) (ms : List Message) (m : Message) (k : ℕ) (r : Relay D db)
        → client_find (some fd) r.sessions ≡ some client
        → client.downstream ≡ true
        → All (IsSentTo IsForTrusted) ms
        → IsSentTo IsForTrusted m
        → k < length (encode m)
        → read fd (stream ms ++ take k (encode m)) r
          ≡ (take k (encode m), handle_all (handle fd) ms r)
    unfolding trusted_on_read
    trusted_on_read-stream finds fd client ms m k r found pool hs (h, fit) less =
        rw (trusted_on_read, found, pool)
          (read_all evbuffer_search finds trusted_round trusted_round-Consumes (handle fd)
            (clear fp db peers stores too_long now fd) ms m k r
            (all_read IsForTrusted trusted_round trusted_round-Reads ms hs)
            (trusted_round-Reads m h fit) less)

    -- Whatever bytes come from a pool further up or from a connected one further down, both readers stop where another turn of their loop would take nothing.
    pub on_read_stops :
        (fd : ℕ) (client : Client D) (input : List ℕ) (r : Relay D db)
        → client_find (some fd) r.sessions ≡ some client
        → client.downstream ≡ true
        → IsAtRest evbuffer_search upstream_round
            (upstream_handle fp db peers)
            (λ r. r)
            upstream_round-Consumes
            (upstream_on_read fp db peers stores too_long now evbuffer_search input r)
          × IsAtRest evbuffer_search trusted_round
              (handle fd)
              (clear fp db peers stores too_long now fd)
              trusted_round-Consumes
              (read fd input r)
    unfolding upstream_on_read trusted_on_read
    on_read_stops fd client input r found pool = (
      on_read_done evbuffer_search upstream_round (upstream_handle fp db peers) (λ r. r)
          upstream_round-Consumes (length input) input r (omega arith),
      rw (trusted_on_read, found, pool)
          (on_read_done evbuffer_search trusted_round (handle fd)
            (clear fp db peers stores too_long now fd) trusted_round-Consumes (length input) input r
            (omega arith)),
    )

    -- The database after storing shares one after another.
    abbrev pub store_all : List Share → db.Txn → db.Txn
    store_all [] env = env
    store_all (s ∷ shares) env = store_all shares (store_share db stores s.height s env).1

    -- At the top, a share is stored and counted, and goes nowhere else.
    share_at_top :
        (fd : ℕ) (s : Share) (r : Relay D db)
        → r.sessions.upstream ≡ none
        → (let t = handle fd (Message.share s) r in
            (t.env ≡ (store_share db stores s.height s r.env).1)
            × (t.sessions.stats.round_hashes
                ≡ (r.sessions.stats.round_hashes + s.difficulty) % 2 ^ 64)
            × (t.sessions.upstream ≡ none))
    unfolding trusted_handle trusted_on_client_share if_upstream trusted_send_balance count_share
        trusted_send_stats
    share_at_top fd s r root =
        rw (trusted_handle, trusted_on_client_share, if_upstream, root) (refl, refl, root)

    handle_shares :
        (fd : ℕ) (shares : List Share) (r : Relay D db)
        → r.sessions.upstream ≡ none
        → r.sessions.stats.round_hashes < 2 ^ 64
        → (let after = handle_all (handle fd) (map Message.share shares) r in
            (after.env ≡ store_all shares r.env)
            × (after.sessions.stats.round_hashes
                ≡ (r.sessions.stats.round_hashes + total (λ s. s.difficulty) shares) % 2 ^ 64))
    handle_shares fd [] r root fits = (refl, omega arith)
    handle_shares fd (s ∷ shares) r root fits =
        let (env, hashes, still) = share_at_top fd s r root in
        let after =
          handle_shares fd shares (handle fd (Message.share s) r) still (omega (arith, hashes)) in
        (after.0 ∙ ap (store_all shares) env, omega (arith, after.1, hashes))

    shares_known :
        (shares : List Share)
        → All (λ s. All Fits (share_fields s)) shares
        → All (IsSentTo IsForTrusted) (map Message.share shares)
    unfolding fields_of
    shares_known [] fits = tt
    shares_known (s ∷ shares) (h, fits) = ((tt, h), shares_known shares fits)

    -- A pool without another one above it stores the shares that a trusted pool further down sends it, in
    -- the order in which they were sent, and adds their difficulties to the hashes of the round.
    pub trusted_on_read-store_all :
        FindsStart evbuffer_search
        → (fd : ℕ) (client : Client D) (shares : List Share) (r : Relay D db)
        → client_find (some fd) r.sessions ≡ some client
        → client.downstream ≡ true
        → r.sessions.upstream ≡ none
        → r.sessions.stats.round_hashes < 2 ^ 64
        → All (λ s. All Fits (share_fields s)) shares
        → (let after = read fd (stream (map Message.share shares)) r in
            (after.0 ≡ [])
            × (after.1.env ≡ store_all shares r.env)
            × (after.1.sessions.stats.round_hashes
                ≡ (r.sessions.stats.round_hashes + total (λ s. s.difficulty) shares) % 2 ^ 64))
    unfolding encode fields_of
    trusted_on_read-store_all finds fd client shares r found pool root below fits =
        let whole =
          trusted_on_read-stream finds fd client (map Message.share shares) Message.ping 0 r found
            pool (shares_known shares fits) (tt, tt) (omega arith) in
        let input = append-nil (stream (map Message.share shares)) in
        let e = ap (λ bytes. read fd bytes r) (sym input) ∙ whole in
        let after = handle_shares fd shares r root below in
        (
          ap (λ p. p.0) e,
          ap (λ p. p.1.env) e ∙ after.0,
          ap (λ p. p.1.sessions.stats.round_hashes) e ∙ after.1,
        )
