-- ===== src/Blocks/Fate.antt =====
-- What process_blocks of src/pool.c means to do with a stored block, and the credits it owes for it.
use salvium_pool.Prelude.{
  ℕ, ◌+◌, ◌<◌, ◌≡◌, refl, Bool, false, List, [], ◌∷◌, ◌++◌, ◌&&◌, not, ◌==◌, if◌then◌else◌,
  Bool-cases, bit_and, length, All, inl, inr,
}
use salvium_pool.Pool.Types.{Config, Share, Block}
use salvium_pool.Pool.Double.{Double}
use salvium_pool.Payout.Spec.{Credit, credits, IsSmall}
use salvium_pool.Payout.Window.{rest_below}

-- The daemon's header and the stored block are one block, which the daemon does not call orphaned.
abbrev pub confirms : Block → Block → Bool
confirms ib sb =
    (ib.hash == sb.hash) && (ib.prev_hash == sb.prev_hash) && (bit_and ib.status 2 == 0)

abbrev pub is_locked : Block → Bool
is_locked sb = sb.status == 0

-- A block that is locked becomes unlocked, with the header's reward, or orphaned.
abbrev pub fate : Block → Block → Block
fate ib sb =
    if not (is_locked sb)
    then sb
    else if confirms ib sb
    then record sb { status = 1; reward = ib.reward }
    else record sb { status = 2 }

pub fate_same :
    (ib sb : Block)
    → ((fate ib sb).difficulty ≡ sb.difficulty)
      × ((fate ib sb).height ≡ sb.height)
      × ((fate ib sb).timestamp ≡ sb.timestamp)
fate_same ib sb = elim (Bool-cases (is_locked sb)) [
  | inl l ↦ elim (Bool-cases (confirms ib sb)) [
    | inl c ↦ rw (l, c) (refl, refl, refl)
    | inr c ↦ rw (l, c) (refl, refl, refl)
  ]
  | inr l ↦ rw l (refl, refl, refl)
]

pub fate-not_locked : (ib sb : Block) → is_locked (fate ib sb) ≡ false
fate-not_locked ib sb = elim (Bool-cases (is_locked sb)) [
  | inl l ↦ elim (Bool-cases (confirms ib sb)) [ inl c ↦ rw (l, c) refl | inr c ↦ rw (l, c) refl ]
  | inr l ↦ rw l l
]

pub fate_settled : (ib sb : Block) → is_locked sb ≡ false → fate ib sb ≡ sb
fate_settled ib sb l = rw l refl

module _ (fp : Double) (config : Config fp.D) (shares_at : ℕ → List Share) where
  -- the shares at and below a height
  abbrev pub shares_upto : ℕ → List Share
  shares_upto h = shares_at h ++ rest_below shares_at h

  abbrev pub as_unlocked : Block → Block → Block
  as_unlocked ib sb = record sb { status = 1; reward = ib.reward }

  -- The credits of a stored block: those of PPLNS if it goes from locked to unlocked in a pool without
  -- an upstream, none otherwise.
  abbrev pub owed : Block → Block → List Credit
  owed ib sb =
      if is_locked sb && confirms ib sb && not config.has_upstream
      then credits fp config (as_unlocked ib sb) 0 (shares_upto sb.height)
      else []

  abbrev pub owed_all : Block → List Block → List Credit
  owed_all ib [] = []
  owed_all ib (sb ∷ l) = owed ib sb ++ owed_all ib l

  -- The amounts of a block's shares fit in a `uint64_t`, and the fuel of a payout reaches all of them.
  abbrev pub IsPayable : ℕ → Block → Block → Type 0
  IsPayable fuel ib sb =
      All (IsSmall fp config (as_unlocked ib sb)) (shares_upto sb.height)
      × (length (shares_upto sb.height) + sb.height < fuel)

  pub owed_settled : (ib sb : Block) → is_locked sb ≡ false → owed ib sb ≡ []
  owed_settled ib sb l = rw l refl
