-- ===== src/Culling/Oldest.antt =====
-- timer_on_10m of src/pool.c over a table of shares without faults: which shares are deleted.
use salvium_pool.Prelude.{
  leb, ◌||◌, ℕ, zero, suc, ◌+◌, ◌-◌, ◌*◌, ◌%◌, ◌^◌, ◌<◌, ◌≤◌, ◌≡◌, refl, sym, false, some, ◌∙◌, ap,
  subst, ==_iff, Option, List, [], ◌∷◌, ◌++◌, length, All, ◌==◌, ltb, arith, inl, inr, Bool-cases,
}
use salvium_pool.Pool.Types.{Share}
use salvium_pool.Pool.Lmdb.{Lmdb, IsReliable}
use salvium_pool.Payments.{TableOp}
use salvium_pool.Culling.{CullDb, Culled, break_loop, cull_loop, finish_cull, cut_of, cull}

-- The table of shares without faults. A sweep reads the shares from the first one on; a share that it
-- stands on is deleted, with no other and no balance, and the sweep goes on behind it.
pub record HasSweep (db : Lmdb) (ok : IsReliable db) (table : CullDb db) : Type 0 where
  pub shares : db.Txn → List Share
  pub unread : table.Sweep → List Share
  pub open_ok : (t : db.Txn) → (table.sweep_open t).0 ≡ 0
  pub child_shares : (t : db.Txn) → shares (db.child t) ≡ shares t
  pub commit_shares : (c t : db.Txn) → shares (db.txn_commit c t).1 ≡ shares c
  pub first_none :
      (t : db.Txn) (s : table.Sweep)
      → shares t ≡ []
      → (table.sweep_get TableOp.first t s).0 ≡ db.not_found
  pub first_some :
      (t : db.Txn) (s : table.Sweep) (x : Share) (l : List Share)
      → shares t ≡ x ∷ l
      → ((table.sweep_get TableOp.first t s).0 ≡ 0)
        × ((table.sweep_get TableOp.first t s).1 ≡ x)
        × (unread (table.sweep_get TableOp.first t s).2 ≡ l)
  pub next_none :
      (t : db.Txn) (s : table.Sweep)
      → unread s ≡ []
      → (table.sweep_get TableOp.next t s).0 ≡ db.not_found
  pub next_some :
      (t : db.Txn) (s : table.Sweep) (x : Share) (l : List Share)
      → unread s ≡ x ∷ l
      → ((table.sweep_get TableOp.next t s).0 ≡ 0)
        × ((table.sweep_get TableOp.next t s).1 ≡ x)
        × (unread (table.sweep_get TableOp.next t s).2 ≡ l)
  pub delete_ok : (t : db.Txn) (s : table.Sweep) → (table.sweep_delete t s).0 ≡ 0
  pub delete_first :
      (t : db.Txn) (s : table.Sweep) (x : Share)
      → shares t ≡ x ∷ unread s
      → (shares (table.sweep_delete t s).1 ≡ unread s)
        × (unread (table.sweep_delete t s).2 ≡ unread s)
  pub delete_balance :
      (t : db.Txn) (s : table.Sweep) → ok.balance (table.sweep_delete t s).1 ≡ ok.balance t

-- The first share, if there is one, is not older than the cut.
abbrev pub StartsNew : ℕ → List Share → Type 0
StartsNew cut [] = Unit
StartsNew cut (s ∷ shares) = cut ≤ s.timestamp

module _ (db : Lmdb) (table : CullDb db) (ok : IsReliable db) (has : HasSweep db ok table) where
  open has use {shares, unread}

  -- Only shares older than the cut are gone, from the start of the table up to the first one that is not
  -- older, and the balances are as they were.
  pub record IsCulled (cut : ℕ) (before after : db.Txn) : Type 0 where
    pub gone : List Share
    pub split : shares before ≡ gone ++ shares after
    pub old : All (λ s. s.timestamp < cut) gone
    pub starts : StartsNew cut (shares after)
    pub balances : ok.balance after ≡ ok.balance before

  -- The operation reads the table's first share, which MDB_NEXT does after a deletion.
  abbrev AtFirst : TableOp → db.Txn → table.Sweep → Type 0
  AtFirst TableOp.first t cursor = Unit
  AtFirst TableOp.next t cursor = unread cursor ≡ shares t

  read_none :
      (op : TableOp) (t : db.Txn) (c : table.Sweep)
      → AtFirst op t c
      → shares t ≡ []
      → (table.sweep_get op t c).0 ≡ db.not_found
  read_none TableOp.first t c at e = has.first_none t c e
  read_none TableOp.next t c at e = has.next_none t c (at ∙ e)

  read_some :
      (op : TableOp) (t : db.Txn) (c : table.Sweep) (x : Share) (l : List Share)
      → AtFirst op t c
      → shares t ≡ x ∷ l
      → ((table.sweep_get op t c).0 ≡ 0)
        × ((table.sweep_get op t c).1 ≡ x)
        × (unread (table.sweep_get op t c).2 ≡ l)
  read_some TableOp.first t c x l at e = has.first_some t c x l e
  read_some TableOp.next t c x l at e = has.next_some t c x l (at ∙ e)

  abbrev LeftAt : ℕ → db.Txn → Option (Culled db) → Type 0
  LeftAt cut t out = (cc : ℕ) × (t' : db.Txn) × (out ≡ some (break_loop cc t')) × IsCulled cut t t'

  cull_loop-LeftAt :
      (l : List Share) (fuel cut cc : ℕ) (op : TableOp) (t : db.Txn) (c : table.Sweep)
      → shares t ≡ l
      → length l < fuel
      → AtFirst op t c
      → LeftAt cut t (cull_loop db table fuel cut cc op t c)
  unfolding cull_loop
  cull_loop-LeftAt l zero cut cc op t c e enough at = let never : ⊥ = omega arith in elim never [ ]
  cull_loop-LeftAt [] (suc fuel) cut cc op t c e enough at =
      let none_left = read_none op t c at e in
      let code : (db.not_found == 0) ≡ false = ground (arith, ok.not_found_ne) in
      rw (none_left, code, (==_iff db.not_found db.not_found).1 refl)
        (
          cc,
          t,
          refl,
          record {
            gone = [];
            split = refl;
            old = tt;
            starts = subst (StartsNew cut) (sym e) tt;
            balances = refl;
          },
        )
  cull_loop-LeftAt (x ∷ l) (suc fuel) cut cc op t c e enough at =
      let (read, is_x, left) = read_some op t c x l at e in
      let cursor = (table.sweep_get op t c).2 in
      let (without, stands) = has.delete_first t cursor x (e ∙ ap (λ k. x ∷ k) (sym left)) in
      let deleted = (table.sweep_delete t cursor).1 in
      let cursor' = (table.sweep_delete t cursor).2 in
      elim (Bool-cases (ltb x.timestamp cut)) [
        | inr not_old ↦
            rw (read, is_x, not_old)
              (
                cc,
                t,
                refl,
                record {
                  gone = [];
                  split = refl;
                  old = tt;
                  starts = subst (StartsNew cut) (sym e) (ground (arith, not_old));
                  balances = refl;
                },
              )
        | inl old ↦
            let (cc', t', out, culled) =
              cull_loop-LeftAt l fuel cut ((cc + 1) % 2 ^ 64) TableOp.next deleted cursor'
                (without ∙ left) (omega arith) (stands ∙ sym without) in
            rw (read, is_x, old, has.delete_ok t cursor)
              (
                cc',
                t',
                out,
                record {
                  gone = x ∷ culled.gone;
                  split = e ∙ ap (λ k. x ∷ k) (sym (without ∙ left) ∙ culled.split);
                  old = (ground (arith, old), culled.old);
                  starts = culled.starts;
                  balances = culled.balances ∙ has.delete_balance t cursor;
                },
              )
      ]

  -- Where culling is on, for at most 24855 days, and no fault occurs, more fuel than there are shares is enough, and then the shares
  -- that are deleted are the ones from the start of the table up to the first that is not older than the cut:
  -- all of them are older, the others stay in their order, and no balance changes.
  pub cull-IsCulled :
      (fuel cull_shares now : ℕ) (env : db.Txn)
      → 1 ≤ cull_shares
      → cull_shares ≤ 24855
      → length (shares env) < fuel
      → (env' : db.Txn) × (cull db table fuel cull_shares now env ≡ some env')
        × IsCulled (now - cull_shares * 86400) env env'
  unfolding cull finish_cull cut_of
  cull-IsCulled fuel cull_shares now env on days enough =
      let txn = db.child env in
      let cut = now - cull_shares * 86400 in
      let is_on : (ltb cull_shares 1 || leb (2 ^ 31) cull_shares) ≡ false =
        ground (arith, on, days) in
      let exact : cut_of db table cull_shares now ≡ cut = ground (arith, days) in
      let (cc', t', out, culled) =
        cull_loop-LeftAt (shares env) fuel cut 0 TableOp.first txn (table.sweep_open txn).1
          (has.child_shares env) enough tt in
      (
        (db.txn_commit t' env).1,
        rw (is_on, exact, ok.begin_ok env, has.open_ok txn, out, ok.commit_ok t' env) refl,
        record {
          gone = culled.gone;
          split =
              sym (has.child_shares env)
              ∙ culled.split
              ∙ ap (λ k. culled.gone ++ k) (sym (has.commit_shares t' env));
          old = culled.old;
          starts = subst (StartsNew cut) (sym (has.commit_shares t' env)) culled.starts;
          balances = ok.commit_balance t' env ∙ culled.balances ∙ ok.child_balance env;
        },
      )
