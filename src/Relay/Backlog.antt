-- ===== src/Relay/Backlog.antt =====
-- upstream_send_backlog of src/pool.c: what is sent again to the pool further up, and the latest height and
-- time that were sent.
use salvium_pool.Prelude.{
  ℕ, zero, suc, ◌<◌, ◌≡◌, ◌≢◌, ◌∙◌, refl, sym, ap, Bool, true, false, some, List, [], ◌∷◌, ◌++◌,
  length, map, max, ◌||◌, ◌==◌, ltb, leb, if◌then◌else◌, arith, inl, inr, Bool-cases, append_assoc,
  append-nil, ==_iff, if_elim,
}
use salvium_pool.Pool.Types.{Share, Block, Message}
use salvium_pool.Pool.Double.{Double}
use salvium_pool.Pool.Lmdb.{Lmdb, IsReliable, HasBlocks, CursorOp}
use salvium_pool.Clients.{upstream_send}
use salvium_pool.Relay.{PeerDb, Relay, note_sent, upstream_send_client_share, resend_shares}

-- MDB_NEXT without faults: it gives the shares and the blocks after the one that the cursor stands on, in the
-- order of their heights, from the state that MDB_SET leaves the cursor in.
pub record HasNext (db : Lmdb) (ok : IsReliable db) (store : HasBlocks db ok) (peers : PeerDb db)
    : Type 0 where
  pub after_share : db.Txn → db.Cursor → List Share
  pub after_block : db.Txn → db.Cursor → List Block
  pub no_share : (t : db.Txn) (c : db.Cursor) → after_share t c ≡ [] → (peers.next_share t c).0 ≢ 0
  pub one_share :
      (t : db.Txn) (c : db.Cursor) (s : Share) (l : List Share)
      → after_share t c ≡ s ∷ l
      → ((peers.next_share t c).0 ≡ 0)
        × ((peers.next_share t c).1 ≡ s)
        × (after_share t (peers.next_share t c).2 ≡ l)
  -- the shares of greater heights, which come after those of the height that MDB_SET goes to
  pub above : db.Txn → ℕ → List Share
  pub child_above : (t : db.Txn) → above (db.child t) ≡ above t
  pub after_set :
      (h : ℕ) (t : db.Txn) (c : db.Cursor) (s : Share) (l : List Share)
      → ok.shares_at t h ≡ s ∷ l
      → after_share t (db.share_get CursorOp.set h t c).2 ≡ l ++ above t h

module _ (fp : Double) (db : Lmdb) (peers : PeerDb db) where
  open fp use {D}

  abbrev is_newer : ℕ → Share → Bool
  is_newer t s = ltb t s.timestamp

  -- the shares after a time
  abbrev pub newer : ℕ → List Share → List Share
  newer t [] = []
  newer t (s ∷ shares) = let rest = newer t shares in if leb s.timestamp t then rest else s ∷ rest

  abbrev pub send_shares : List Share → Relay D db → Relay D db
  send_shares [] r = r
  send_shares (s ∷ shares) r = send_shares shares (upstream_send_client_share fp db peers s r)

  note_sent-sessions :
      (h t : ℕ) (r : Relay D db) → (note_sent fp db peers h t r).sessions ≡ r.sessions
  unfolding note_sent
  note_sent-sessions h t r =
      if_elim (λ (x : Relay D db). x.sessions ≡ r.sessions)
        (ltb r.last_height h || ltb r.last_time t) _ _ (λ c. refl) (λ c. refl)

  note_sent-last :
      (h t : ℕ) (r : Relay D db)
      → ((note_sent fp db peers h t r).last_height ≡ max r.last_height h)
        × ((note_sent fp db peers h t r).last_time ≡ max r.last_time t)
  unfolding note_sent
  note_sent-last h t r =
      let height : (if ltb r.last_height h then h else r.last_height) ≡ max r.last_height h =
        ground (arith, Bool-cases (ltb r.last_height h)) in
      let time : (if ltb r.last_time t then t else r.last_time) ≡ max r.last_time t =
        ground (arith, Bool-cases (ltb r.last_time t)) in
      if_elim
        (λ (x : Relay D db).
          (x.last_height ≡ max r.last_height h) × (x.last_time ≡ max r.last_time t))
        (ltb r.last_height h || ltb r.last_time t) _ _ (λ c. (height, time)) (λ c. (height, time))

  -- the latest of a number and those of a list
  abbrev pub latest : (Share → ℕ) → List Share → ℕ → ℕ
  latest key [] n = n
  latest key (s ∷ shares) n = latest key shares (max n (key s))

  -- Sending shares writes them further up in their order, and leaves the latest of their heights and of
  -- their times as the last ones sent.
  pub send_shares-latest :
      (shares : List Share) (r : Relay D db) (sent : List Message)
      → r.sessions.upstream ≡ some sent
      → (let after = send_shares shares r in
          (after.sessions.upstream ≡ some (sent ++ map Message.share shares))
          × (after.sessions.stats ≡ r.sessions.stats)
          × (after.last_height ≡ latest (λ s. s.height) shares r.last_height)
          × (after.last_time ≡ latest (λ s. s.timestamp) shares r.last_time))
  unfolding upstream_send_client_share upstream_send
  send_shares-latest [] r sent up = (up ∙ ap some (sym (append-nil sent)), refl, refl, refl)
  send_shares-latest (s ∷ shares) r sent up =
      let one = upstream_send_client_share fp db peers s r in
      let written = record r { sessions = upstream_send (Message.share s) r.sessions } in
      let same : one.sessions ≡ upstream_send (Message.share s) r.sessions =
        note_sent-sessions s.height s.timestamp written in
      let last = note_sent-last s.height s.timestamp written in
      let up' : one.sessions.upstream ≡ some (sent ++ Message.share s ∷ []) =
        ap (λ x. x.upstream) same ∙ rw (upstream_send, up) refl in
      let (there, stats, height, time) =
        send_shares-latest shares one (sent ++ Message.share s ∷ []) up' in
      (
        there ∙ ap some (append_assoc sent (Message.share s ∷ []) (map Message.share shares)),
        stats ∙ ap (λ x. x.stats) same,
        height ∙ ap (latest (λ s. s.height) shares) last.0,
        time ∙ ap (latest (λ s. s.timestamp) shares) last.1,
      )

  -- what a cursor operation has come to: the share that it gave, with those after it, or none
  abbrev pub Yields :
      (db.Txn → db.Cursor → List Share) → db.Txn → ℕ × Share × db.Cursor → List Share → Type 0
  Yields after txn got [] = got.0 ≢ 0
  Yields after txn got (s ∷ shares) = (got.0 ≡ 0) × (got.1 ≡ s) × (after txn got.2 ≡ shares)

  module _ (ok : IsReliable db) (store : HasBlocks db ok) (has : HasNext db ok store peers) where
    open has use {after_share}

    next-Yields :
        (txn : db.Txn) (c : db.Cursor) (shares : List Share)
        → after_share txn c ≡ shares
        → Yields after_share txn (peers.next_share txn c) shares
    next-Yields txn c [] e = has.no_share txn c e
    next-Yields txn c (s ∷ shares) e = has.one_share txn c s shares e

    -- The loop over shares comes to its end, and sends the shares that are later than the last time, in
    -- their order.
    pub resend_shares-newer :
        (fuel t : ℕ) (txn : db.Txn) (got : ℕ × Share × db.Cursor) (shares : List Share)
        (r : Relay D db)
        → Yields after_share txn got shares
        → length shares < fuel
        → resend_shares fp db peers fuel t txn got r ≡ some (send_shares (newer t shares) r)
    unfolding resend_shares
    resend_shares-newer zero t txn got shares r h enough = absurd (omega arith)
    resend_shares-newer (suc fuel) t txn got [] r h enough =
        let over : (got.0 == 0) ≡ false = ground arith in rw (resend_shares, over) refl
    resend_shares-newer (suc fuel) t txn got (s ∷ shares) r (code, share, rest) enough =
        let again = λ (r' : Relay D db).
          resend_shares-newer fuel t txn (peers.next_share txn got.2) shares r'
            (next-Yields txn got.2 shares rest) (omega arith) in
        let more : (got.0 == 0) ≡ true = (==_iff got.0 0).1 code in
        elim (Bool-cases (leb s.timestamp t)) [
          | inl old ↦ rw (resend_shares, more, share, old) (again r)
          | inr new ↦
              rw (resend_shares, more, share, new)
                (again (upstream_send_client_share fp db peers s r))
        ]

    -- What the backlog is taken from: nothing where no share has just the last height, or else the shares of
    -- that height and of those above.
    abbrev pub backlog : List Share → List Share → List Share
    backlog [] greater = []
    backlog (s ∷ l) greater = s ∷ l ++ greater

    abbrev pub stored : Relay D db → List Share
    stored r = backlog (ok.shares_at r.env r.last_height) (has.above r.env r.last_height)
