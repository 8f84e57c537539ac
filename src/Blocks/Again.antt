-- ===== src/Blocks/Again.antt =====
-- process_blocks of src/pool.c run with overlapping ranges of headers, one run after another.
use salvium_pool.Prelude.{
  ℕ, ◌≡◌, ◌∙◌, refl, sym, ap, ap₂, subst, true, false, some, some-injective, List, [], ◌∷◌, ◌++◌,
  ◌==◌, if_elim, All, map,
}
use salvium_pool.Pool.Types.{Config, Share, Block}
use salvium_pool.Pool.Double.{Double}
use salvium_pool.Pool.Lmdb.{Lmdb, IsReliable, HasBlocks, BlockTable}
use salvium_pool.Payout.Spec.{IsSane, credit_all}
use salvium_pool.Blocks.{process_blocks}
use salvium_pool.Blocks.Fate.{
  fate, is_locked, fate-not_locked, fate_settled, owed_all, owed_settled,
}
use salvium_pool.Blocks.Visit.{replace_same}
use salvium_pool.Blocks.Scan.{replace_self}
use salvium_pool.Blocks.Settle.{
  settle, settle_all, owed_headers, AllPayable, process_blocks-settles,
}

-- No block of a list is locked.
abbrev pub NoneLocked : List Block → Type 0
NoneLocked l = All (λ b. is_locked b ≡ false) l

-- No block at the height of a header is locked.
abbrev pub IsSettled : List Block → BlockTable → Type 0
IsSettled headers f = All (λ ib. NoneLocked (f ib.height)) headers

map-fate-NoneLocked : (ib : Block) (l : List Block) → NoneLocked (map (fate ib) l)
map-fate-NoneLocked ib [] = tt
map-fate-NoneLocked ib (b ∷ l) = (fate-not_locked ib b, map-fate-NoneLocked ib l)

-- Blocks that are not locked stay as they are.
map-fate : (ib : Block) (l : List Block) → NoneLocked l → map (fate ib) l ≡ l
map-fate ib [] n = refl
map-fate ib (b ∷ l) (n, ns) = ap₂ ◌∷◌ (fate_settled ib b n) (map-fate ib l ns)

settle-NoneLocked :
    (ib : Block) (f : BlockTable) (h : ℕ) → NoneLocked (f h) → NoneLocked (settle ib f h)
settle-NoneLocked ib f h n =
    if_elim NoneLocked (h == ib.height) (map (fate ib) (f ib.height)) (f h)
      (λ same. map-fate-NoneLocked ib (f ib.height)) (λ other. n)

settle_all-NoneLocked :
    (l : List Block) (f : BlockTable) (h : ℕ) → NoneLocked (f h) → NoneLocked (settle_all l f h)
settle_all-NoneLocked [] f h n = n
settle_all-NoneLocked (ib ∷ l) f h n =
    settle_all-NoneLocked l (settle ib f) h (settle-NoneLocked ib f h n)

-- After headers are settled no block at the height of one is locked.
pub settle_all-IsSettled : (l : List Block) (f : BlockTable) → IsSettled l (settle_all l f)
settle_all-IsSettled [] f = tt
settle_all-IsSettled (ib ∷ l) f = (
  settle_all-NoneLocked l (settle ib f) ib.height (
      subst NoneLocked (sym (replace_self f ib.height (map (fate ib) (f ib.height))))
        (map-fate-NoneLocked ib (f ib.height))),
  settle_all-IsSettled l (settle ib f),
)

settle_settled : (ib : Block) (f : BlockTable) → NoneLocked (f ib.height) → settle ib f ≡ f
settle_settled ib f n =
    replace_same f ib.height (map (fate ib) (f ib.height)) (map-fate ib (f ib.height) n)

pub settle_all_settled : (l : List Block) (f : BlockTable) → IsSettled l f → settle_all l f ≡ f
settle_all_settled [] f n = refl
settle_all_settled (ib ∷ l) f (n, ns) =
    ap (settle_all l) (settle_settled ib f n) ∙ settle_all_settled l f ns

module _ (fp : Double) (config : Config fp.D) (shares : ℕ → List Share) where
  owed_all_settled :
      (ib : Block) (l : List Block) → NoneLocked l → owed_all fp config shares ib l ≡ []
  owed_all_settled ib [] n = refl
  owed_all_settled ib (b ∷ l) (n, ns) =
      ap₂ ◌++◌ (owed_settled fp config shares ib b n) (owed_all_settled ib l ns)

  pub owed_headers_settled :
      (l : List Block) (f : BlockTable) → IsSettled l f → owed_headers fp config shares l f ≡ []
  owed_headers_settled [] f n = refl
  owed_headers_settled (ib ∷ l) f (n, ns) =
      ap₂ ◌++◌ (owed_all_settled ib (f ib.height) n)
        (ap (owed_headers fp config shares l) (settle_settled ib f n) ∙ owed_headers_settled l f ns)

module _ (fp : Double) (db : Lmdb) (config : Config fp.D) (ok : IsReliable db)
    (store : HasBlocks db ok) (sane : IsSane fp config) (fuel rounds : ℕ) where
  open ok use {balance, shares_at}
  open store use {blocks_at}

  -- Over a database without faults, for a pool fee that never exceeds what it is taken from, shares whose
  -- amounts together with the reward of each block that they are paid from stay below 2 ^ 64, and fuel for
  -- the loops of both runs: a run of `process_blocks` with headers that an earlier run was given leaves the table of blocks and every balance as the earlier run did: no block is paid twice.
  pub process_blocks-again :
      (headers : List Block) (parent : db.Txn) (first : ℕ × db.Txn)
      → AllPayable fp config (shares_at parent) fuel rounds headers (blocks_at parent)
      → AllPayable fp config (shares_at first.1) fuel rounds headers (blocks_at first.1)
      → process_blocks fp db config fuel true rounds headers parent ≡ some first
      → (second : ℕ × db.Txn) × (process_blocks fp db config fuel true rounds headers first.1
          ≡ some second)
        × (blocks_at second.1 ≡ blocks_at first.1)
        × (balance second.1 ≡ balance first.1)
  process_blocks-again headers parent first p q e =
      let (out, ran, code, table, paid, kept) =
        process_blocks-settles fp db config ok store sane fuel rounds headers parent p in
      let (second, ran', code', table', paid', kept') =
        process_blocks-settles fp db config ok store sane fuel rounds headers first.1 q in
      let settled : IsSettled headers (blocks_at first.1) =
        subst (IsSettled headers)
          (sym table ∙ ap blocks_at (ap (λ o. o.1) (some-injective out first (sym ran ∙ e))))
          (settle_all-IsSettled headers (blocks_at parent)) in
      (
        second,
        ran',
        table' ∙ settle_all_settled headers (blocks_at first.1) settled,
        paid'
            ∙ ap (λ cs. credit_all (balance first.1) cs)
                (owed_headers_settled fp config (shares_at first.1) headers (blocks_at first.1)
                  settled),
      )
