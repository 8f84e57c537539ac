-- ===== src/Headers/Last.antt =====
-- rpc_on_last_block_header of src/pool.c: the stack of headers, and the range that is asked for.
use salvium_pool.Prelude.{
  none, Option, ℕ, zero, suc, ◌≡◌, ◌≤◌, ◌<◌, ◌⊎◌, ◌+◌, ◌-◌, ◌%◌, ◌^◌, refl, inl, inr, true, some,
  List, [], ◌∷◌, take, ltb, leb, Bool-cases, arith,
}
use salvium_pool.Pool.Types.{Block, PoolStats}
use salvium_pool.Headers.{
  DaemonRequest, get_block_template, get_block_headers_range, is_above, push_header, network_stats,
  newest_header, next_requests, set_pool_hr, rpc_on_last_block_header,
}

-- Each header is above the one that was pushed before it.
abbrev pub IsDescending : List Block → Type 0
IsDescending [] = Unit
IsDescending (b ∷ []) = Unit
IsDescending (b ∷ c ∷ headers) = (c.height < b.height) × IsDescending (c ∷ headers)

take-IsDescending :
    (n : ℕ) (headers : List Block) → IsDescending headers → IsDescending (take n headers)
take-IsDescending zero headers h = tt
take-IsDescending (suc n) [] h = tt
take-IsDescending (suc zero) (b ∷ []) h = tt
take-IsDescending (suc (suc n)) (b ∷ []) h = tt
take-IsDescending (suc zero) (b ∷ c ∷ headers) h = tt
take-IsDescending (suc (suc n)) (b ∷ c ∷ headers) (above, h) =
    (above, take-IsDescending (suc n) (c ∷ headers) h)

-- A template, and the ten heights that end sixty below a header if there are that many.
abbrev pub AsksFor : Block → List DaemonRequest → Type 0
AsksFor top requests =
    ((top.height < 69) × (requests ≡ get_block_template ∷ []))
    ⊎ ((start end : ℕ) × ((requests ≡ get_block_template ∷ get_block_headers_range start end ∷ [])
          × (start + 9 ≡ end)
          × (end + 60 ≡ top.height)))

next_requests-AsksFor : (top : Block) → top.height < 2 ^ 64 → AsksFor top (next_requests true top)
unfolding next_requests
next_requests-AsksFor top small = elim (Bool-cases (leb 69 top.height)) [
  | inr early ↦ rw (next_requests, early) (inl (ground (arith, early), refl))
  | inl late ↦
      rw (next_requests, late)
        (inr (
          (top.height - 60 + 2 ^ 64 - 10 + 1) % 2 ^ 64,
          top.height - 60,
          (refl, ground (arith, late), ground (arith, late)),
        ))
]

-- The pool's view of the network is that of the newest header.
abbrev pub SeesTop : List Block → PoolStats → Type 0
SeesTop [] stats = Unit
SeesTop (top ∷ headers) stats =
    (stats.network_height ≡ top.height) × (stats.network_difficulty ≡ top.difficulty)

sees :
    (hr : Option ℕ) (top : Block) (stats : PoolStats)
    → (let stats' = set_pool_hr hr (network_stats top stats) in
        (stats'.network_height ≡ top.height) × (stats'.network_difficulty ≡ top.difficulty))
unfolding set_pool_hr network_stats
sees none top stats = (refl, refl)
sees (some hr) top stats = (refl, refl)

-- There is no header yet, or the newest one is below.
abbrev pub IsNewTop : Block → List Block → Type 0
IsNewTop block [] = Unit
IsNewTop block (top ∷ headers) = top.height < block.height

-- There is a header, and the newest one is not below.
abbrev pub IsOldNews : Block → List Block → Type 0
IsOldNews block [] = ⊥
IsOldNews block (top ∷ headers) = block.height ≤ top.height

-- A header that the daemon reports leaves the stack of headers descending, and the pool's view of the
-- network that of the newest header. A header above the newest one, or the first one, is pushed onto the
-- stack, which keeps four, and then the ten heights that have just become sixty blocks old are asked
-- for, as soon as there are that many. Any other header leaves the stack as it is, and then nothing but a
-- template is asked for.
pub rpc_on_last_block_header-IsDescending :
    (hr : Option ℕ) (block : Block) (headers : List Block) (stats : PoolStats)
    → block.height < 2 ^ 64
    → IsDescending headers
    → (let (headers', stats', requests) = rpc_on_last_block_header hr (some block) headers stats in
        IsDescending headers'
        × SeesTop headers' stats'
        × ((IsNewTop block headers × (headers' ≡ take 4 (block ∷ headers)) × AsksFor block requests)
            ⊎ (IsOldNews block headers
                × (headers' ≡ headers)
                × (requests ≡ get_block_template ∷ []))))
unfolding rpc_on_last_block_header is_above push_header network_stats newest_header next_requests
    set_pool_hr
rpc_on_last_block_header-IsDescending hr block [] stats small desc =
    (tt, sees hr block stats, inl (tt, refl, next_requests-AsksFor block small))
rpc_on_last_block_header-IsDescending hr block (top ∷ headers) stats small desc =
    elim (Bool-cases (ltb top.height block.height)) [
      | inl above ↦
          rw (rpc_on_last_block_header, above)
            (
              (ground (arith, above), take-IsDescending 3 (top ∷ headers) desc),
              sees hr block stats,
              inl (ground (arith, above), refl, next_requests-AsksFor block small),
            )
      | inr not_above ↦
          rw (rpc_on_last_block_header, not_above)
            (desc, sees hr top stats, inr (ground (arith, not_above), refl, refl))
    ]
