-- ===== src/Headers/Start.antt =====
-- What src/pool.c finds out from its database when it starts.
use salvium_pool.Prelude.{
  ℕ, zero, suc, ◌≡◌, ◌≢◌, ◌<◌, ◌∙◌, ◌+◌, ◌%◌, ◌^◌, refl, sym, ap, inl, inr, true, false, Option,
  some, List, [], ◌∷◌, length, not, ◌==◌, ==_iff, ltb, if◌then◌else◌, Bool-cases, arith, subst,
}
use salvium_pool.Prelude.Table.{total}
use salvium_pool.Pool.Types.{Share, Block, PoolStats, block_locked}
use salvium_pool.Pool.Lmdb.{Lmdb}
use salvium_pool.Shares.{ScanOp, ShareDb}
use salvium_pool.Headers.{
  BlockScans, DaemonRequest, get_block_header_by_height, startup_loop, round_loop,
}

-- What a cursor has come to, and what is left for it: an item and those after it, or none.
abbrev pub Gives : {A S : Type 0} → (S → List A) → ℕ × A × S → List A → Type 0
Gives left (rc, item, scan) [] = rc ≢ 0
Gives left (rc, item, scan) (x ∷ xs) = (rc ≡ 0) × (item ≡ x) × (left scan ≡ xs)

-- the requests for the blocks that are still locked and have sixty more above them
abbrev pub due : ℕ → List Block → List DaemonRequest
due height [] = []
due height (b ∷ blocks) =
    let rest = due height blocks in
    if ltb height ((b.height + 60) % 2 ^ 64)
    then rest
    else if not (b.status == block_locked)
    then rest
    else get_block_header_by_height b.height ∷ rest

abbrev pub last_time : ℕ → List Block → ℕ
last_time time [] = time
last_time time (b ∷ blocks) = last_time b.timestamp blocks

module _ (db : Lmdb) (scans : BlockScans db) (left : scans.Scan → List Block)
    (steps : (txn : db.Txn) (scan : scans.Scan) (blocks : List Block)
      → left scan ≡ blocks
      → Gives left (scans.scan_get ScanOp.next txn scan) blocks) where
  -- The loop over the stored blocks of a pool without another above it comes to its end, counts them, takes the
  -- time of the last one, and asks for the headers of those that are due.
  pub startup_loop-due :
      (height fuel : ℕ) (txn : db.Txn) (got : ℕ × Block × scans.Scan) (stats : PoolStats)
      (blocks : List Block)
      → Gives left got blocks
      → length blocks < fuel
      → stats.pool_blocks_found + length blocks < 2 ^ 32
      → startup_loop db scans false height fuel txn got stats
        ≡ some (
          record stats {
            pool_blocks_found = stats.pool_blocks_found + length blocks;
            last_block_found = last_time stats.last_block_found blocks;
          },
          due height blocks,
        )
  unfolding startup_loop
  startup_loop-due height zero txn got stats blocks gives enough fits = absurd (omega arith)
  startup_loop-due height (suc fuel) txn (rc, b, scan) stats [] gives enough fits =
      let over : (rc == 0) ≡ false = ground (arith, gives) in
      let none_more : stats.pool_blocks_found + 0 ≡ stats.pool_blocks_found = omega arith in
      rw (startup_loop, over, none_more) refl
  startup_loop-due height (suc fuel) txn (rc, b, scan) stats (x ∷ blocks) (code, item, rest) enough
        fits =
      let more : (rc == 0) ≡ true = (==_iff rc 0).1 code in
      let counted : PoolStats = record stats {
        pool_blocks_found = (stats.pool_blocks_found + 1) % 2 ^ 32;
        last_block_found = x.timestamp;
      } in
      let again =
        startup_loop-due height fuel txn (scans.scan_get ScanOp.next txn scan) counted blocks
          (steps txn scan blocks rest) (omega arith) (omega arith) in
      let number : (stats.pool_blocks_found + 1) % 2 ^ 32 + length blocks
          ≡ stats.pool_blocks_found + suc (length blocks) =
        omega arith in
      let result : ℕ → Option (PoolStats × List DaemonRequest) = λ n. some (
        record stats { pool_blocks_found = n; last_block_found = last_time x.timestamp blocks },
        due height (x ∷ blocks),
      ) in
      subst
        (λ y.
          startup_loop db scans false height (suc fuel) txn (rc, y, scan) stats
          ≡ result (stats.pool_blocks_found + suc (length blocks)))
        (sym item) (rw (startup_loop, more, again) (ap result number))

module _ (db : Lmdb) (tables : ShareDb db) (left : tables.Scan → List Share)
    (steps : (txn : db.Txn) (scan : tables.Scan) (shares : List Share)
      → left scan ≡ shares
      → Gives left (tables.scan_get ScanOp.prev txn scan) shares) where
  -- the shares, newest first, up to the first one that is not later than a time
  abbrev pub since : ℕ → List Share → List Share
  since time [] = []
  since time (s ∷ shares) =
      let rest = since time shares in if ltb time s.timestamp then s ∷ rest else []

  -- With fuel for the shares, the loop back over them comes to its end, and adds up the difficulties of the
  -- shares from the newest one back to the first that is not later than the last block that was found; later
  -- shares behind that one, which are of lower heights, are not counted.
  pub round_loop-since :
      (last_block_found fuel : ℕ) (txn : db.Txn) (got : ℕ × Share × tables.Scan) (round_hashes : ℕ)
      (shares : List Share)
      → Gives left got shares
      → length shares < fuel
      → round_hashes < 2 ^ 64
      → round_loop db tables last_block_found fuel txn got round_hashes
        ≡ some ((round_hashes + total (λ s. s.difficulty) (since last_block_found shares)) % 2 ^ 64)
  unfolding round_loop
  round_loop-since last zero txn got hashes shares gives enough fits = absurd (omega arith)
  round_loop-since last (suc fuel) txn (rc, s, scan) hashes [] gives enough fits =
      let over : (rc == 0) ≡ false = ground (arith, gives) in
      let same : hashes ≡ (hashes + 0) % 2 ^ 64 = omega arith in
      rw (round_loop, over) (ap some same)
  round_loop-since last (suc fuel) txn (rc, s, scan) hashes (x ∷ shares) (code, item, rest) enough
        fits =
      let more : (rc == 0) ≡ true = (==_iff rc 0).1 code in
      let again =
        round_loop-since last fuel txn (tables.scan_get ScanOp.prev txn scan)
          ((hashes + x.difficulty) % 2 ^ 64) shares (steps txn scan shares rest) (omega arith)
          (omega arith) in
      elim (Bool-cases (ltb last x.timestamp)) [
        | inr old ↦
            let same : hashes ≡ (hashes + 0) % 2 ^ 64 = omega arith in
            rw (round_loop, more, item, old) (ap some same)
        | inl new ↦
            let sum : ℕ = total (λ s. s.difficulty) (since last shares) in
            let wrapped : ((hashes + x.difficulty) % 2 ^ 64 + sum) % 2 ^ 64
                ≡ (hashes + (x.difficulty + sum)) % 2 ^ 64 =
              omega arith in
            rw (round_loop, more, item, new) (again ∙ ap some wrapped)
      ]
