-- ===== src/Peers/Shares.antt =====
-- What the database holds after a pool further down has sent its shares (trusted_on_client_share and store_share of
-- src/pool.c).
use salvium_pool.Prelude.{
  ℕ, ◌+◌, ◌%◌, ◌^◌, ◌<◌, ◌≤◌, ◌≡◌, ◌∙◌, refl, ap, Bool, true, Option, none, some, List, [], ◌∷◌,
  ◌++◌, map, All, ◌==◌, if◌then◌else◌, subst, sym, fun_ext,
}
use salvium_pool.Prelude.Table.{total}
use salvium_pool.Pool.Types.{Address, Share, Client, Message}
use salvium_pool.Pool.Double.{Double}
use salvium_pool.Pool.Lmdb.{Lmdb, IsReliable, HasBlocks}
use salvium_pool.Store.{StoreDb, store_share}
use salvium_pool.Store.Append.{HasAppends, store_share-appends}
use salvium_pool.Clients.{client_find}
use salvium_pool.Protocol.{share_fields}
use salvium_pool.Protocol.Struct.{Fits}
use salvium_pool.Protocol.Stream.{stream, FindsStart}
use salvium_pool.Relay.{PeerDb, Relay}
use salvium_pool.Peers.{trusted_on_read}
use salvium_pool.Peers.Streams.{store_all, trusted_on_read-store_all}

-- the shares under each height
abbrev pub ShareTable : Type 0
ShareTable = ℕ → List Share

abbrev pub put_last : ShareTable → Share → ShareTable
put_last f s k = if k == s.height then f s.height ++ s ∷ [] else f k

abbrev pub put_all : ShareTable → List Share → ShareTable
put_all f [] = f
put_all f (s ∷ shares) = put_all (put_last f s) shares

-- No share is older than those of its height before it.
abbrev pub InOrder : ShareTable → List Share → Type 0
InOrder f [] = Unit
InOrder f (s ∷ shares) =
    All (λ q. q.timestamp ≤ s.timestamp) (f s.height) × InOrder (put_last f s) shares

module _ (fp : Double) (db : Lmdb) (peers : PeerDb db)
    (evbuffer_search : List ℕ → List ℕ → Option ℕ) (stores : StoreDb db) (too_long : Address → Bool)
    (now : ℕ) (ok : IsReliable db) (store : HasBlocks db ok)
    (has : HasAppends db ok store stores) where
  open ok use {balance, shares_at}

  store_all-put_all :
      (shares : List Share) (env : db.Txn)
      → InOrder (shares_at env) shares
      → (let after = store_all fp db peers evbuffer_search stores too_long now shares env in
          (shares_at after ≡ put_all (shares_at env) shares) × (balance after ≡ balance env))
  store_all-put_all [] env order = (refl, refl)
  store_all-put_all (s ∷ shares) env (old, order) =
      let (code, table, same) = store_share-appends db ok store stores has s.height s env old in
      let after = (store_share db stores s.height s env).1 in
      let e : shares_at after ≡ put_last (shares_at env) s = fun_ext table in
      let (all, kept) =
        store_all-put_all shares after (subst (λ f. InOrder f shares) (sym e) order) in
      (all ∙ ap (λ f. put_all f shares) e, kept ∙ same)

  -- Where `evbuffer_search` finds a tag that the input starts with, and over a database without faults: a pool
  -- without another one above it stores the shares that a connected pool further down sends it, each behind those of its height, in the order in which they were sent, and
  -- no other share and no balance changes; the difficulties are added to the hashes of the round. This holds for
  -- shares whose fields fit and that are not older than those before them at their height.
  pub trusted_on_read-shares :
      FindsStart evbuffer_search
      → (fd : ℕ) (client : Client fp.D) (shares : List Share) (r : Relay fp.D db)
      → client_find (some fd) r.sessions ≡ some client
      → client.downstream ≡ true
      → r.sessions.upstream ≡ none
      → r.sessions.stats.round_hashes < 2 ^ 64
      → All (λ s. All Fits (share_fields s)) shares
      → InOrder (shares_at r.env) shares
      → (let after =
            trusted_on_read fp db peers stores too_long now evbuffer_search fd
              (stream (map Message.share shares))
              r in
          (after.0 ≡ [])
          × (shares_at after.1.env ≡ put_all (shares_at r.env) shares)
          × (balance after.1.env ≡ balance r.env)
          × (after.1.sessions.stats.round_hashes
              ≡ (r.sessions.stats.round_hashes + total (λ s. s.difficulty) shares) % 2 ^ 64))
  trusted_on_read-shares finds fd client shares r found pool root below fits order =
      let (read, env, hashes) =
        trusted_on_read-store_all fp db peers evbuffer_search stores too_long now finds fd client
          shares r found pool root below fits in
      let (all, kept) = store_all-put_all shares r.env order in
      (read, ap shares_at env ∙ all, ap balance env ∙ kept, hashes)
