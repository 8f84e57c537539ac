-- ===== src/Payout/Spec.antt =====
-- PPLNS as a function on lists: what each share of a window is credited, newest height first, until
-- the reward is used up (payout_block of src/pool.c).
use salvium_pool.Prelude.{
  ℕ, ◌+◌, ◌-◌, ◌^◌, ◌≤◌, ◌<◌, min, ◌≡◌, ◌≢◌, refl, inl, inr, List, [], ◌∷◌, ◌++◌, ◌&&◌, not, arith,
  ltb, ◌==◌, if◌then◌else◌, Bool-cases,
}
use salvium_pool.Pool.Types.{Address, Config, Share, Block}
use salvium_pool.Pool.Double.{Double}
use salvium_pool.Pool.Lmdb.{Balances}
use salvium_pool.Balance.Credit.{credited}
use salvium_pool.Payout.{raw_amount, fee_of}

abbrev pub Credit : Type 0
Credit = Address × ℕ

-- All the credits of a list, one after another.
abbrev pub credit_all : Balances → List Credit → Balances
credit_all f [] = f
credit_all f ((a, v) ∷ cs) = credit_all (credited f a v) cs

abbrev pub sum : List Credit → ℕ
sum [] = 0
sum ((a, v) ∷ cs) = v + sum cs

pub sum-append : (cs ds : List Credit) → sum (cs ++ ds) ≡ sum cs + sum ds
sum-append [] ds = omega arith
sum-append ((a, v) ∷ cs) ds = omega (arith, sum-append cs ds)

pub credit_all-append :
    (f : Balances) (cs ds : List Credit) → credit_all f (cs ++ ds) ≡ credit_all (credit_all f cs) ds
credit_all-append f [] ds = refl
credit_all-append f ((a, v) ∷ cs) ds = credit_all-append (credited f a v) cs ds

-- The amount of a share and the reward together do not exceed a `uint64_t`.
abbrev pub IsSmall : (fp : Double) → Config fp.D → Block → Share → Type 0
IsSmall fp config block share = raw_amount fp config block share + block.reward < 2 ^ 64

-- A fee is no more than what it is taken from, which a pool fee above 1 breaks.
pub record IsSane (fp : Double) (config : Config fp.D) : Type 0 where
  pub fee_le : (amount : ℕ) → fee_of fp config amount ≤ amount

module _ (fp : Double) (config : Config fp.D) (block : Block) where
  -- what a share earns when `total` is paid already
  abbrev pub earned : ℕ → Share → ℕ
  earned total share = min (raw_amount fp config block share) (block.reward - total)

  abbrev pub fee_credits : ℕ → List Credit
  fee_credits fee =
      if ltb 0 fee && not (config.pool_fee_wallet == 0)
      then (config.pool_fee_wallet, fee) ∷ []
      else []

  abbrev pub share_credits : ℕ → Share → List Credit
  share_credits total share =
      let gross = earned total share in
      let fee = fee_of fp config gross in
      fee_credits fee ++ (if gross - fee == 0 then [] else (share.address, gross - fee) ∷ [])

  unfoldable pub credits : ℕ → List Share → List Credit
  credits total [] = []
  credits total (share ∷ rest) =
      let later = credits (total + earned total share) rest in
      if total == block.reward then [] else share_credits total share ++ later

  -- the total that is paid after a window
  pub paid_after : ℕ → List Share → ℕ
  paid_after total [] = total
  paid_after total (share ∷ rest) =
      let later = paid_after (total + earned total share) rest in
      if total == block.reward then total else later

  pub paid_after-le :
      (total : ℕ) (shares : List Share)
      → total ≤ block.reward
      → paid_after total shares ≤ block.reward
  unfolding paid_after
  paid_after-le total [] h = h
  paid_after-le total (share ∷ rest) h =
      ground (arith, paid_after-le (total + earned total share) rest)

  pub le-paid_after : (total : ℕ) (shares : List Share) → total ≤ paid_after total shares
  unfolding paid_after
  le-paid_after total [] = omega arith
  le-paid_after total (share ∷ rest) =
      ground (arith, le-paid_after (total + earned total share) rest)

  share_credits-sum :
      (total : ℕ) (share : Share)
      → IsSane fp config
      → sum (share_credits total share) ≤ earned total share
  share_credits-sum total share ok = ground (arith, ok.fee_le (earned total share))

  -- What the credits of a window add up to is no more than what it is paid, and exactly that when the
  -- pool has a wallet for its fees.
  pub credits-sum-le :
      (total : ℕ) (shares : List Share)
      → IsSane fp config
      → total + sum (credits total shares) ≤ paid_after total shares
  unfolding credits paid_after
  credits-sum-le total [] ok = omega arith
  credits-sum-le total (share ∷ rest) ok = elim (Bool-cases (total == block.reward)) [
    | inl full ↦ rw full (omega arith)
    | inr more ↦ rw more (
        omega (
          arith,
          sum-append (share_credits total share) (credits (total + earned total share) rest),
          share_credits-sum total share ok,
          credits-sum-le (total + earned total share) rest ok,
        ))
  ]

  share_credits-sum_eq :
      (total : ℕ) (share : Share)
      → IsSane fp config
      → 0 < config.pool_fee_wallet
      → sum (share_credits total share) ≡ earned total share
  share_credits-sum_eq total share ok w = ground (arith, ok.fee_le (earned total share))

  pub credits-sum :
      (total : ℕ) (shares : List Share)
      → IsSane fp config
      → 0 < config.pool_fee_wallet
      → total + sum (credits total shares) ≡ paid_after total shares
  unfolding credits paid_after
  credits-sum total [] ok w = omega arith
  credits-sum total (share ∷ rest) ok w = elim (Bool-cases (total == block.reward)) [
    | inl full ↦ rw full (omega arith)
    | inr more ↦ rw more (
        omega (
          arith,
          sum-append (share_credits total share) (credits (total + earned total share) rest),
          share_credits-sum_eq total share ok w,
          credits-sum (total + earned total share) rest ok w,
        ))
  ]

  -- When the whole reward is paid nothing more is credited.
  pub credits-full :
      (total : ℕ) (shares : List Share)
      → total ≡ block.reward
      → (credits total shares ≡ []) × (paid_after total shares ≡ total)
  unfolding credits paid_after
  credits-full total [] e = (refl, refl)
  credits-full total (share ∷ rest) e = ground arith

  pub credits-cons :
      (total : ℕ) (share : Share) (rest : List Share)
      → total ≢ block.reward
      → (credits total (share ∷ rest)
          ≡ share_credits total share ++ credits (total + earned total share) rest)
        × (paid_after total (share ∷ rest) ≡ paid_after (total + earned total share) rest)
  unfolding credits paid_after
  credits-cons total share rest ne = elim (Bool-cases (total == block.reward)) [
    | inl full ↦ absurd (ne (ground arith))
    | inr more ↦ rw more (refl, refl)
  ]

  pub credits-nil : (total : ℕ) → (credits total [] ≡ []) × (paid_after total [] ≡ total)
  unfolding credits paid_after
  credits-nil total = (refl, refl)

  -- The credits of a block add up to no more than its reward.
  pub credits-sum-le-reward :
      (shares : List Share) → IsSane fp config → sum (credits 0 shares) ≤ block.reward
  credits-sum-le-reward shares ok =
      omega (arith, credits-sum-le 0 shares ok, paid_after-le 0 shares (omega arith))
