-- ===== src/Shares/Sums.antt =====
-- The sums over shares of src/pool.c over a database without faults, as sums over lists.
use salvium_pool.Prelude.{
  ℕ, zero, suc, ◌+◌, ◌-◌, ◌*◌, ◌%◌, ◌^◌, ◌<◌, ◌≡◌, ◌∙◌, refl, ap, Bool, false, Option, some, List,
  [], ◌∷◌, arith, ◌==◌, ltb, if◌then◌else◌, Bool-cases, inl, inr, length,
}
use salvium_pool.Pool.Types.{Address, Share}
use salvium_pool.Pool.Lmdb.{Lmdb, IsReliable}
use salvium_pool.Shares.{
  ShareDb, ScanOp, sum_since, opened_sum, pool_pplns_shares, account_pplns_shares, any_share,
}

-- The table of shares without faults: a scan from the last share backwards reads `newest`, one from the
-- first share onwards reads `oldest`.
pub record HasScans (db : Lmdb) (ok : IsReliable db) (tables : ShareDb db) : Type 0 where
  pub newest : db.Txn → List Share
  pub oldest : db.Txn → List Share
  pub unread : tables.Scan → List Share
  pub scan_ok : (t : db.Txn) → (tables.scan_open t).0 ≡ 0
  pub child_newest : (t : db.Txn) → newest (db.child t) ≡ newest t
  pub child_oldest : (t : db.Txn) → oldest (db.child t) ≡ oldest t

-- what an operation reads from
module _ (db : Lmdb) (ok : IsReliable db) (tables : ShareDb db) (has : HasScans db ok tables) where
  open has use {newest, oldest, unread}

  abbrev pub to_read : ScanOp → db.Txn → tables.Scan → List Share
  to_read ScanOp.first t s = oldest t
  to_read ScanOp.next t s = unread s
  to_read ScanOp.last t s = newest t
  to_read ScanOp.prev t s = unread s

  -- What a read gives of the shares that are still to come.
  pub record IsReading : Type 0 where
    pub read_none :
        (op : ScanOp) (t : db.Txn) (s : tables.Scan)
        → to_read op t s ≡ []
        → (tables.scan_get op t s).0 ≡ db.not_found
    pub read_some :
        (op : ScanOp) (t : db.Txn) (s : tables.Scan) (x : Share) (l : List Share)
        → to_read op t s ≡ x ∷ l
        → ((tables.scan_get op t s).0 ≡ 0)
          × ((tables.scan_get op t s).1 ≡ x)
          × (unread (tables.scan_get op t s).2 ≡ l)

-- The difficulties of the shares that count, of all or of those up to the first that is too old.
abbrev pub difficulties : (Share → Bool) → List Share → ℕ
difficulties counts [] = 0
difficulties counts (x ∷ l) = (if counts x then x.difficulty else 0) + difficulties counts l

abbrev pub recent : ℕ → List Share → List Share
recent cutoff [] = []
recent cutoff (x ∷ l) =
    let rest = recent cutoff l in if ltb x.timestamp cutoff then [] else x ∷ rest

module _ (db : Lmdb) (ok : IsReliable db) (tables : ShareDb db) (has : HasScans db ok tables)
    (reading : IsReading db ok tables has) (counts : Share → Bool) where
  since_end :
      (cutoff fuel total : ℕ) (op : ScanOp) (t : db.Txn) (s : tables.Scan)
      → to_read db ok tables has op t s ≡ []
      → sum_since db tables counts cutoff (suc fuel) total op t s ≡ some total
  unfolding sum_since
  since_end cutoff fuel total op t s e = ground (arith, ok.not_found_ne, reading.read_none op t s e)

  abbrev counted : ℕ → Share → ℕ
  counted total x = if counts x then (total + x.difficulty) % 2 ^ 64 else total

  since_share :
      (cutoff fuel total : ℕ) (op : ScanOp) (t : db.Txn) (s : tables.Scan) (x : Share)
      (l : List Share)
      → to_read db ok tables has op t s ≡ x ∷ l
      → sum_since db tables counts cutoff (suc fuel) total op t s ≡ (
          if ltb x.timestamp cutoff
          then some total
          else sum_since db tables counts cutoff fuel
              (counted total x)
              ScanOp.prev
              t
              (tables.scan_get op t s).2)
  unfolding sum_since
  since_share cutoff fuel total op t s x l e =
      let (code, share, more) = reading.read_some op t s x l e in rw (sum_since, code, share) refl

  counted_mod :
      (total rest : ℕ) (x : Share)
      → (counted total x + rest) % 2 ^ 64
        ≡ (total + ((if counts x then x.difficulty else 0) + rest)) % 2 ^ 64
  counted_mod total rest x = elim (Bool-cases (counts x)) [
    | inl in_it ↦ rw in_it (omega arith)
    | inr left_out ↦ rw left_out (omega arith)
  ]

  counted_small : (total : ℕ) (x : Share) → total < 2 ^ 64 → counted total x < 2 ^ 64
  counted_small total x h = ground arith

  pub sum_since-recent :
      (l : List Share) (cutoff fuel total : ℕ) (op : ScanOp) (t : db.Txn) (s : tables.Scan)
      → to_read db ok tables has op t s ≡ l
      → length l < fuel
      → total < 2 ^ 64
      → sum_since db tables counts cutoff fuel total op t s
        ≡ some ((total + difficulties counts (recent cutoff l)) % 2 ^ 64)
  sum_since-recent l cutoff zero total op t s e m h = absurd (omega arith)
  sum_since-recent [] cutoff (suc fuel) total op t s e m h =
      since_end cutoff fuel total op t s e ∙ ap some (omega arith)
  sum_since-recent (x ∷ l) cutoff (suc fuel) total op t s e m h =
      since_share cutoff fuel total op t s x l e ∙ (elim (Bool-cases (ltb x.timestamp cutoff)) [
        | inl old ↦ rw old (ap some (omega arith))
        | inr new ↦ rw new (
            sum_since-recent l cutoff fuel (counted total x) ScanOp.prev t
              (tables.scan_get op t s).2 (reading.read_some op t s x l e).2 (omega arith)
              (counted_small total x h)
            ∙ ap some (counted_mod total (difficulties counts (recent cutoff l)) x))
      ])

module _ (db : Lmdb) (ok : IsReliable db) (tables : ShareDb db) (has : HasScans db ok tables)
    (reading : IsReading db ok tables has) where
  open has use {newest}

  opened : (env : db.Txn) (total : Option ℕ) → opened_sum db tables env total ≡ total
  unfolding opened_sum
  opened env total = ground (arith, ok.begin_ok env, has.scan_ok (db.child env))

  -- Over a database without faults, and with fuel for one round more than there are shares, the sum for
  -- the pool is the sum, on `uint64_t`, of the difficulties from the newest share back to the first that
  -- is older than a day, and the sum for an account that of those among them that are its own.
  pub pool_pplns_shares-account_pplns_shares :
      (fuel now : ℕ) (address : Address) (env : db.Txn)
      → length (newest env) < fuel
      → (pool_pplns_shares db tables fuel now env
          ≡ some (difficulties any_share (recent (now - 24 * 3600) (newest env)) % 2 ^ 64))
        × (account_pplns_shares db tables fuel now false address env
            ≡ some (
                difficulties (λ s. s.address == address) (recent (now - 24 * 3600) (newest env))
                % 2 ^ 64))
  unfolding pool_pplns_shares account_pplns_shares
  pool_pplns_shares-account_pplns_shares fuel now address env m =
      (summed any_share, summed (λ s. s.address == address))
    where
      summed :
          (counts : Share → Bool)
          → opened_sum db tables env (
              sum_since db tables counts
                (now - 24 * 3600)
                fuel
                0
                ScanOp.last
                (db.child env)
                (tables.scan_open (db.child env)).1)
            ≡ some (difficulties counts (recent (now - 24 * 3600) (newest env)) % 2 ^ 64)
      summed counts =
          opened env _
          ∙ sum_since-recent db ok tables has reading counts (newest env) (now - 24 * 3600) fuel 0
              ScanOp.last (db.child env) (tables.scan_open (db.child env)).1 (has.child_newest env)
              m (omega arith)
          ∙ ap some (omega arith)
