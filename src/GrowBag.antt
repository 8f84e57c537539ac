-- ===== src/GrowBag.antt =====
-- src/growbag.c: an array of cells of equal size that grows when it is full. A cell is free when its
-- bytes are all 0. A pointer into the array is the index of its cell.
pub mod Invariant
pub mod Get
pub mod Put
pub mod Iterate
mod Tests
use salvium_pool.Prelude.{
  ℕ, zero, suc, ◌+◌, ◌-◌, ◌*◌, ◌%◌, ◌^◌, Bool, true, false, Option, none, some, List, [], ◌∷◌, ◌++◌,
  replicate, get_or, set, drop, take, not, ◌||◌, ◌&&◌, ◌==◌, ltb, leb, if◌then◌else◌,
}

abbrev pub Cell : Type 0
Cell = List ℕ

-- `struct gbag_t`: `cells` is the memory at `b`, and `recycles`, `moves` are whether there is a
-- callback `rc`, `mv`. The bytes `no` to compare with are all 0.
pub record GBag : Type 0 where
  pub z : ℕ
  pub max : ℕ
  pub ref : ℕ
  pub cells : List Cell
  pub e : ℕ
  pub n : ℕ
  pub ni : ℕ
  pub recycles : Bool
  pub moves : Bool

-- the bytes `no`
abbrev pub zeroed : ℕ → Cell
zeroed z = replicate z 0

pub gbag_new : ℕ → ℕ → Bool → Bool → GBag
gbag_new count size recycles moves = record {
  z = size;
  max = count;
  ref = 0;
  cells = replicate count (zeroed size);
  e = 0;
  n = 0;
  ni = 0;
  recycles = recycles;
  moves = moves;
}

-- What `gbag_free` hands to the recycle callback before it gives the memory back.
pub gbag_free : GBag → List Cell
gbag_free gb = if gb.recycles then take gb.max gb.cells else []

-- `*el || memcmp(el, gb->no, gb->z)`
pub occupied : Cell → Bool
occupied [] = false
occupied (byte ∷ el) = not (byte == 0) || occupied el

abbrev pub cell : GBag → ℕ → Cell
cell gb i = get_or gb.cells i (zeroed gb.z)

pub gbag_occupied : GBag → ℕ → Bool
gbag_occupied gb i = occupied (cell gb i)

-- What `realloc` did. The code keeps the address `ni` when the memory moves, so a move comes with the
-- index that the old address has in the new array.
pub data Realloc : Type 0 where
  failed : Realloc
  in_place : Realloc
  elsewhere : ℕ → Realloc

-- The item that is returned, the bag then, and whether the callback `mv` was called.
pub record Got : Type 0 where
  pub item : Option ℕ
  pub bag : GBag
  pub moved : Bool

-- `while(gb->n < end)`: a free cell, if one is found.
pub scan : ℕ → ℕ → GBag → Option ℕ × GBag
scan end zero gb = (none, gb)
scan end (suc fuel) gb =
    let rest = scan end fuel (record gb { n = gb.n + 1 }) in
    if not (ltb gb.n end)
    then (none, gb)
    else if not (gbag_occupied gb gb.n)
    then (
      some gb.n,
      record gb { ref = gb.ref + 1; n = gb.n + 1; e = if leb gb.e gb.n then gb.n + 1 else gb.e },
    )
    else rest

-- the label `grow`
pub grow : Realloc → GBag → Got
grow Realloc.failed gb = record { item = none; bag = gb; moved = false }
grow realloc gb = record {
  item = some gb.max;
  bag = record gb {
    max = gb.max * 2 % 2 ^ 64;
    ref = gb.ref + 1;
    cells = gb.cells ++ replicate gb.max (zeroed gb.z);
    n = gb.max + 1;
    e = gb.max + 1;
    ni = elim realloc [ Realloc.elsewhere ni ↦ ni | _ ↦ gb.ni ];
  };
  moved = gb.moves && (elim realloc [ Realloc.elsewhere ni ↦ true | _ ↦ false ]);
}

-- The second scan, from the start to where the first began, and then `grow`.
pub wrap : Realloc → ℕ → GBag → Got
wrap realloc from gb =
    let (found, gb') = scan from from (record gb { n = 0 }) in
    if from == 0 then grow realloc gb else elim found [
      | some i ↦ record { item = some i; bag = gb'; moved = false }
      | none ↦ grow realloc gb'
    ]

pub gbag_get : Realloc → GBag → Got
gbag_get realloc gb =
    let (found, gb') = scan gb.max gb.max gb in
    if gb.ref == gb.max then grow realloc gb else elim found [
      | some i ↦ record { item = some i; bag = gb'; moved = false }
      | none ↦ wrap realloc gb.n gb'
    ]

-- The cells handed to the recycle callback, and the bag with the item's cell free.
pub gbag_put : GBag → ℕ → List Cell × GBag
gbag_put gb item = (
  if gb.recycles then cell gb item ∷ [] else [],
  record gb {
    e = if ltb 0 gb.e && (item + 1 == gb.e) then gb.e - 1 else gb.e;
    cells = set gb.cells item (zeroed gb.z);
    n = item;
    ref = (gb.ref + 2 ^ 64 - 1) % 2 ^ 64;
  },
)

pub gbag_max : GBag → ℕ
gbag_max gb = gb.max

pub gbag_used : GBag → ℕ
gbag_used gb = gb.ref

-- The loop of `gbag_first` from `s` with `fuel` cells before `e`, which keeps `ni` at `s`.
pub first_loop : ℕ → ℕ → GBag → Option ℕ × GBag
first_loop s zero gb = (none, record gb { ni = s })
first_loop s (suc fuel) gb =
    let rest = first_loop (s + 1) fuel gb in
    if gbag_occupied gb s then (some s, record gb { ni = s }) else rest

pub gbag_first : GBag → Option ℕ × GBag
gbag_first gb = first_loop 0 gb.e gb

-- The loop of `gbag_next`, with `fuel` cells before `e`.
pub next_loop : ℕ → ℕ → GBag → Option ℕ × GBag
next_loop s zero gb = (none, gb)
next_loop s (suc fuel) gb =
    let gb' : GBag = record gb { ni = gb.ni + 1 } in
    let rest = next_loop (s + 1) fuel gb' in if gbag_occupied gb s then (some s, gb') else rest

pub gbag_next : GBag → Option ℕ → Option ℕ × GBag
gbag_next gb (some from) = next_loop (from + 1) (gb.e - (from + 1)) (record gb { ni = from + 1 })
gbag_next gb none = next_loop gb.ni (gb.e - gb.ni) gb

-- `while ((c = gbag_next(bag, 0)))` of src/pool.c: the items that the loop comes to.
pub each_item : ℕ → GBag → List ℕ
each_item zero gb = []
each_item (suc fuel) gb =
    let (item, gb') = gbag_next gb none in
    let rest = each_item fuel gb' in elim item [ none ↦ [] | some i ↦ i ∷ rest ]
