-- ===== src/Util/Text.antt =====
-- stecpy and trim of src/util.c. A C string is the list of its bytes before the terminating 0.
use mathlib.Core.List.{append-nil, append_assoc}
use native.Mathlib.Decide.{dec_lt}
use salvium_pool.Prelude.{
  ℕ, zero, suc, ◌+◌, ◌-◌, ◌≤◌, ◌<◌, min, ◌≡◌, refl, ap, ap₂, ◌∙◌, sym, inl, inr, Bool, true, false,
  ◌&&◌, ◌||◌, List, [], ◌∷◌, ◌++◌, length, get_or, take, drop, arith, ltb, leb, ◌==◌, if◌then◌else◌,
  Bool-cases,
}

-- `stecpy(dst, src, end)` with `room` for `end - dst`: the bytes that it stores from `dst` on, and by
-- how much the pointer that it returns lies above `dst`.
pub stecpy : List ℕ → ℕ → List ℕ × ℕ
stecpy [] zero = ([], 0)
stecpy [] (suc room) = (0 ∷ [], 0)
stecpy (ch ∷ src) zero = ([], 0)
stecpy (ch ∷ src) (suc room) = let (stored, n) = stecpy src room in (ch ∷ stored, suc n)

-- `dst = stecpy(dst, s, end)` for one string after another, as the callers chain it: each call
-- overwrites the memory from where the last one stopped.
pub stecpy_all : List (List ℕ) → ℕ → List ℕ × ℕ
stecpy_all [] room = ([], 0)
stecpy_all (src ∷ rest) room =
    let (stored, n) = stecpy src room in
    let (later, m) = stecpy_all rest (room - n) in
    elim rest [ [] ↦ (stored, n) | _ ∷ _ ↦ (take n stored ++ later, n + m) ]

abbrev pub concat : List (List ℕ) → List ℕ
concat [] = []
concat (src ∷ rest) = src ++ concat rest

-- the text that fits, and its terminating 0 if that fits too
abbrev pub fitting : List ℕ → ℕ → List ℕ
fitting src room = take room (src ++ (0 ∷ []))

stecpy-stored : (src : List ℕ) (room : ℕ) → (stecpy src room).0 ≡ fitting src room
unfolding stecpy
stecpy-stored [] zero = refl
stecpy-stored [] (suc zero) = refl
stecpy-stored [] (suc (suc room)) = refl
stecpy-stored (ch ∷ src) zero = refl
stecpy-stored (ch ∷ src) (suc room) = ap (λ t. ch ∷ t) (stecpy-stored src room)

stecpy-advance : (src : List ℕ) (room : ℕ) → (stecpy src room).1 ≡ min (length src) room
unfolding stecpy
stecpy-advance [] zero = omega arith
stecpy-advance [] (suc room) = omega arith
stecpy-advance (ch ∷ src) zero = omega arith
stecpy-advance (ch ∷ src) (suc room) = omega (arith, stecpy-advance src room)

take-fitting :
    (src more : List ℕ) (room : ℕ)
    → take (min (length src) room) (fitting src room) ++ take (room - min (length src) room) more
      ≡ take room (src ++ more)
take-fitting [] more room =
    ap₂ (λ a b. take a (fitting [] room) ++ take b more) (let e : min 0 room ≡ 0 = omega arith in e)
      (let e : room - min 0 room ≡ room = omega arith in e)
take-fitting (ch ∷ src) more zero =
    ap₂ (λ a b. take a (fitting (ch ∷ src) 0) ++ take b more)
      (let e : min (suc (length src)) 0 ≡ 0 = omega arith in e)
      (let e : 0 - min (suc (length src)) 0 ≡ 0 = omega arith in e)
take-fitting (ch ∷ src) more (suc room) =
    ap₂ (λ a b. take a (fitting (ch ∷ src) (suc room)) ++ take b more)
      (let e : min (suc (length src)) (suc room) ≡ suc (min (length src) room) = omega arith in e)
      (let e : suc room - min (suc (length src)) (suc room) ≡ room - min (length src) room =
          omega arith in
        e)
    ∙ ap (λ t. ch ∷ t) (take-fitting src more room)

stecpy_all-single : (src : List ℕ) (room : ℕ) → (stecpy_all (src ∷ []) room).0 ≡ (stecpy src room).0
unfolding stecpy_all
stecpy_all-single src room = refl

stecpy_all-cons :
    (src next : List ℕ) (rest : List (List ℕ)) (room : ℕ)
    → (stecpy_all (src ∷ next ∷ rest) room).0
      ≡ take (stecpy src room).1 (stecpy src room).0
        ++ (stecpy_all (next ∷ rest) (room - (stecpy src room).1)).0
unfolding stecpy_all
stecpy_all-cons src next rest room = refl

-- A chain of `stecpy` stores the concatenation of its strings, cut to the room there is, with a
-- terminating 0 if one byte is left for it, and nothing beyond `end`.
pub stecpy_all-fitting :
    (src : List ℕ) (rest : List (List ℕ)) (room : ℕ)
    → (stecpy_all (src ∷ rest) room).0 ≡ fitting (concat (src ∷ rest)) room
stecpy_all-fitting src [] room =
    stecpy_all-single src room
    ∙ stecpy-stored src room
    ∙ ap (λ t. fitting t room) (sym (append-nil src))
stecpy_all-fitting src (next ∷ rest) room =
    rw
      (
        stecpy_all-cons src next rest room,
        stecpy-stored src room,
        stecpy-advance src room,
        stecpy_all-fitting next rest (room - min (length src) room),
      )
      (take-fitting src (concat (next ∷ rest) ++ (0 ∷ [])) room
        ∙ ap (λ t. take room t) (sym (append_assoc src (concat (next ∷ rest)) (0 ∷ []))))

-- `isspace` in the C locale
pub is_space : ℕ → Bool
is_space ch = ch == 32 || (leb 9 ch && leb ch 13)

-- `while (*start && isspace(*start)) start++`, as the number of steps; 0 is no space.
pub skip_start : List ℕ → ℕ
unfolding is_space
skip_start [] = 0
skip_start (ch ∷ str) = let rest = skip_start str in if is_space ch then suc rest else 0

-- `while (end > start && isspace(*(end - 1))) end--`
pub skip_end : List ℕ → ℕ → ℕ → ℕ
unfolding is_space
skip_end str start zero = 0
skip_end str start (suc e) =
    let rest = skip_end str start e in
    if ltb start (suc e) && is_space (get_or str e 0) then rest else suc e

-- The string from `start` to the 0 that is stored at `end`.
unfoldable pub trim : List ℕ → List ℕ
unfolding skip_start skip_end
trim str =
    let start = skip_start str in
    let end' = skip_end str start (length str) in take (end' - start) (drop start str)

-- What `trim` finds: every byte before the start and from the end on is a space, and where anything is
-- left, its first and its last byte are none.
pub record IsTrim (str : List ℕ) (s e : ℕ) : Type 0 where
  pub order : s ≤ e
  pub inside : e ≤ length str
  pub before : (i : ℕ) → i < s → is_space (get_or str i 0) ≡ true
  pub after : (i : ℕ) → e ≤ i → i < length str → is_space (get_or str i 0) ≡ true
  pub first : s < e → is_space (get_or str s 0) ≡ false
  pub last : s < e → is_space (get_or str (e - 1) 0) ≡ false

skip_start-le : (str : List ℕ) → skip_start str ≤ length str
unfolding skip_start
skip_start-le [] = omega arith
skip_start-le (ch ∷ str) = ground (arith, skip_start-le str)

skip_start-before : (str : List ℕ) (i : ℕ) → i < skip_start str → is_space (get_or str i 0) ≡ true
unfolding skip_start
skip_start-before [] i h = absurd (omega arith)
skip_start-before (ch ∷ str) zero h = elim (Bool-cases (is_space ch)) [
  | inl space ↦ space
  | inr other ↦ absurd (ground arith)
]
skip_start-before (ch ∷ str) (suc i) h = skip_start-before str i (ground arith)

skip_start-first :
    (str : List ℕ) → skip_start str < length str → is_space (get_or str (skip_start str) 0) ≡ false
unfolding skip_start
skip_start-first [] h = absurd (omega arith)
skip_start-first (ch ∷ str) h = elim (Bool-cases (is_space ch)) [
  | inl space ↦ rw space (skip_start-first str (ground arith))
  | inr other ↦ rw other other
]

-- The loop from the end stops at the start or behind a byte that is no space.
skip_end-bounds : (str : List ℕ) (s e : ℕ) → s ≤ e → (s ≤ skip_end str s e) × (skip_end str s e ≤ e)
unfolding skip_end
skip_end-bounds str s zero h = (h, omega arith)
skip_end-bounds str s (suc e) h = ground (arith, skip_end-bounds str s e)

skip_end-after :
    (str : List ℕ) (s e i : ℕ) → skip_end str s e ≤ i → i < e → is_space (get_or str i 0) ≡ true
unfolding skip_end
skip_end-after str s zero i h lt = absurd (omega arith)
skip_end-after str s (suc e) i h lt = elim (Bool-cases (is_space (get_or str e 0))) [
  | inl space ↦ elim (dec_lt i e) [
    | yes below ↦ ground (arith, skip_end-after str s e i)
    | no top ↦ ap (λ k. is_space (get_or str k 0)) (let x : i ≡ e = omega arith in x) ∙ space
  ]
  | inr other ↦ absurd (ground arith)
]

skip_end-last :
    (str : List ℕ) (s e : ℕ)
    → s < skip_end str s e
    → is_space (get_or str (skip_end str s e - 1) 0) ≡ false
unfolding skip_end
skip_end-last str s zero h = absurd (omega arith)
skip_end-last str s (suc e) h = elim (Bool-cases (ltb s (suc e) && is_space (get_or str e 0))) [
  | inl more ↦ rw more (skip_end-last str s e (ground arith))
  | inr stop ↦ rw stop (
      ap (λ k. is_space (get_or str k 0)) (let x : suc e - 1 ≡ e = omega arith in x) ∙ ground arith)
]

-- `trim` cuts the string exactly between its leading and its trailing spaces.
pub trim-IsTrim :
    (str : List ℕ)
    → let s = skip_start str in
      let e = skip_end str s (length str) in IsTrim str s e × (trim str ≡ take (e - s) (drop s str))
unfolding trim
trim-IsTrim str = (
  record {
    order = (skip_end-bounds str (skip_start str) (length str) (skip_start-le str)).0;
    inside = (skip_end-bounds str (skip_start str) (length str) (skip_start-le str)).1;
    before = skip_start-before str;
    after = skip_end-after str (skip_start str) (length str);
    first = λ h.
        skip_start-first str (
          omega (arith, (skip_end-bounds str (skip_start str) (length str) (skip_start-le str)).1));
    last = skip_end-last str (skip_start str) (length str);
  },
  refl,
)
