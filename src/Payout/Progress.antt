-- ===== src/Payout/Progress.antt =====
-- One round of the loop of payout_block (src/pool.c) over a database without faults.
use salvium_pool.Prelude.{
  ℕ, zero, suc, ◌-◌, ◌≤◌, ◌<◌, ◌≡◌, refl, sym, subst, ap, ap₂, ◌∙◌, ◌≢◌, ◌⊎◌, inl, inr, List, [],
  ◌∷◌, ◌++◌, arith, ltb, ◌==◌, Bool-cases, All,
}
use salvium_pool.Pool.Types.{Config, Share, Block}
use salvium_pool.Pool.Double.{Double}
use salvium_pool.Pool.Lmdb.{Lmdb, IsReliable, CursorOp}
use salvium_pool.Payout.{Round, Next, pay_share, round}
use salvium_pool.Payout.Spec.{IsSmall, IsSane, credits, paid_after, credits-full, credits-nil}
use salvium_pool.Payout.Window.{rest_below, remaining, key_shares, read_none, read_some}
use salvium_pool.Payout.PayShare.{Paid, pay_share-Paid}

List-cases : {A : Type 0} (l : List A) → (l ≡ []) ⊎ ((x : A) × (r : List A) × (l ≡ x ∷ r))
List-cases [] = inl refl
List-cases (x ∷ r) = inr (x, r, refl)

module _ (fp : Double) (db : Lmdb) (config : Config fp.D) (block : Block) (ok : IsReliable db)
    (sane : IsSane fp config) where
  open db use {Txn, Cursor, not_found, share_get}
  open ok use {balance, shares_at, pending}

  abbrev pub rest : Round db → List Share
  rest r = remaining db ok r

  abbrev read_code : Round db → ℕ
  read_code r = (share_get r.op r.height r.txn r.cursor).0

  abbrev read_share : Round db → Share
  read_share r = (share_get r.op r.height r.txn r.cursor).1

  abbrev read_cursor : Round db → Cursor
  read_cursor r = (share_get r.op r.height r.txn r.cursor).2

  -- What a round comes to: the loop is left with nothing more to credit; the next lower height is
  -- looked up; or one share is paid.
  pub data Step (r : Round db) : Type 0 where
    stop :
        (r' : Round db)
        → round fp db config block r ≡ Next.break_loop r'
        → r'.txn ≡ r.txn
        → r'.total_paid ≡ r.total_paid
        → credits fp config block r.total_paid (rest r) ≡ []
        → paid_after fp config block r.total_paid (rest r) ≡ r.total_paid
        → Step r
    down :
        (r' : Round db)
        → round fp db config block r ≡ Next.again r'
        → r'.txn ≡ r.txn
        → r'.total_paid ≡ r.total_paid
        → rest r' ≡ rest r
        → suc r'.height ≡ r.height
        → Step r
    pay :
        (r' : Round db) (x : Share)
        → round fp db config block r ≡ Next.again r'
        → Paid fp db config block ok sane r x (read_cursor r) r'
        → rest r ≡ x ∷ rest r'
        → r.total_paid ≢ block.reward
        → Step r

  round-stop :
      (r : Round db)
      → r.total_paid ≡ block.reward
      → (read_code r ≡ not_found) ⊎ (read_code r ≡ 0)
      → round fp db config block r
        ≡ Next.break_loop (record r { op = CursorOp.next_dup; cursor = read_cursor r })
  unfolding round
  round-stop r full which = ground (arith, which)

  round-lowest :
      (r : Round db)
      → r.total_paid < block.reward
      → read_code r ≡ not_found
      → r.height ≡ 0
      → round fp db config block r
        ≡ Next.break_loop (record r { op = CursorOp.next_dup; cursor = read_cursor r })
  unfolding round
  round-lowest r more e z = ground arith

  round-down :
      (r : Round db)
      → r.total_paid < block.reward
      → read_code r ≡ not_found
      → r.height ≢ 0
      → round fp db config block r
        ≡ Next.again (record r { height = r.height - 1; op = CursorOp.set; cursor = read_cursor r })
  unfolding round
  round-down r more e nz = ground arith

  round-pay :
      (r : Round db)
      → r.total_paid ≢ block.reward
      → read_code r ≡ 0
      → round fp db config block r ≡ pay_share fp db config block r (read_share r) (read_cursor r)
  unfolding round
  round-pay r ne e = ground (arith, ok.not_found_ne)

  rest_below-pred :
      (f : ℕ → List Share) (h : ℕ) → h ≢ 0 → rest_below f h ≡ f (h - 1) ++ rest_below f (h - 1)
  rest_below-pred f zero ne = absurd (ne refl)
  rest_below-pred f (suc h) ne = ap (λ k. f k ++ rest_below f k) (omega arith)

  -- Nothing is left under this height.
  empty-Step :
      (r : Round db)
      → r.total_paid ≤ block.reward
      → key_shares db ok r.op r.height r.txn r.cursor ≡ []
      → Step r
  empty-Step r h e = elim (Bool-cases (ltb r.total_paid block.reward)) [
    | inr full ↦
        stop _ (round-stop r (ground arith) (inl code)) refl refl
          (credits-full fp config block r.total_paid (rest r) (ground arith)).0
          (credits-full fp config block r.total_paid (rest r) (ground arith)).1
    | inl more ↦ elim (Bool-cases (r.height == 0)) [
      | inl lowest ↦
          stop _ (round-lowest r (ground arith) code (ground arith)) refl refl
            (ap (λ l. credits fp config block r.total_paid l) (none_left (ground arith))
              ∙ (credits-nil fp config block r.total_paid).0)
            (ap (λ l. paid_after fp config block r.total_paid l) (none_left (ground arith))
              ∙ (credits-nil fp config block r.total_paid).1)
      | inr higher ↦
          down _ (round-down r (ground arith) code (ground arith)) refl refl
            (sym (
              ap (λ l. l ++ rest_below (shares_at r.txn) r.height) e
              ∙ rest_below-pred (shares_at r.txn) r.height (ground arith)))
            (ground arith)
    ]
  ]
    where
      code : read_code r ≡ not_found
      code = read_none db ok r.op r.height r.txn r.cursor e

      none_left : r.height ≡ 0 → rest r ≡ []
      none_left z = ap₂ (λ l k. l ++ rest_below (shares_at r.txn) k) e z

  -- A share is read.
  share-Step :
      (r : Round db) (x : Share) (l : List Share)
      → IsSmall fp config block x
      → r.total_paid ≤ block.reward
      → key_shares db ok r.op r.height r.txn r.cursor ≡ x ∷ l
      → Step r
  share-Step r x l small h e = elim (Bool-cases (r.total_paid == block.reward)) [
    | inl full ↦
        stop _ (round-stop r (ground arith) (inr read.0)) refl refl
          (credits-full fp config block r.total_paid (rest r) (ground arith)).0
          (credits-full fp config block r.total_paid (rest r) (ground arith)).1
    | inr more ↦
        pay paid.0 x
          (round-pay r (ground arith) read.0
            ∙ ap (λ y. pay_share fp db config block r y (read_cursor r)) read.1
            ∙ paid.1)
          paid.2
          (ap (λ k. k ++ rest_below (shares_at r.txn) r.height) e ∙ ap (λ k. x ∷ k) (sym kept))
          (ground arith)
  ]
    where
      read : (read_code r ≡ 0) × (read_share r ≡ x) × (pending (read_cursor r) ≡ l)
      read = read_some db ok r.op r.height r.txn r.cursor x l e

      paid :
          (r' : Round db) × (pay_share fp db config block r x (read_cursor r) ≡ Next.again r')
          × Paid fp db config block ok sane r x (read_cursor r) r'
      paid = pay_share-Paid fp db config block ok sane r x (read_cursor r) small h

      key_left : key_shares db ok paid.0.op paid.0.height paid.0.txn paid.0.cursor ≡ l
      key_left =
          ap (λ o. key_shares db ok o paid.0.height paid.0.txn paid.0.cursor) paid.2.op
          ∙ ap (λ c. pending c) paid.2.cursor_kept
          ∙ read.2

      kept : rest paid.0 ≡ l ++ rest_below (shares_at r.txn) r.height
      kept =
          ap₂ (λ k f. k ++ rest_below f paid.0.height) key_left paid.2.shares
          ∙ ap (λ n. l ++ rest_below (shares_at r.txn) n) paid.2.height

  pub round-Step :
      (r : Round db) → All (IsSmall fp config block) (rest r) → r.total_paid ≤ block.reward → Step r
  round-Step r small h = elim (List-cases (key_shares db ok r.op r.height r.txn r.cursor)) [
    | inl e ↦ empty-Step r h e
    | inr (x, l, e) ↦
        share-Step r x l (head_small (ap (λ k. k ++ rest_below (shares_at r.txn) r.height) e)) h e
  ]
    where
      head_small : {x : Share} {l : List Share} → rest r ≡ x ∷ l → IsSmall fp config block x
      head_small {x} {l} e = (subst (All (IsSmall fp config block)) e small).0
