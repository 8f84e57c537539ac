-- ===== src/Stratum/Lines.antt =====
-- miner_on_read of src/pool.c: the loop over the lines that a miner has sent. What each method does to the state is
-- a parameter; the handlers are modelled in `Stratum`, `Stratum.Template` and `Submit`.
use salvium_pool.Prelude.{
  ℕ, ◌≡◌, ◌≤◌, ◌⊎◌, refl, sym, ap, ◌∙◌, inl, inr, Bool, true, false, List, [], ◌∷◌, ◌++◌, ltb,
  if◌then◌else◌, Bool-cases, arith,
}

-- `method` of a message; `other` is any other text, or none
pub data Method : Type 0 where
  login_method block_template_method submit_method getjob_method : Method
  keepalived_method other : Method

-- what json_tokener_parse makes of a line
pub data Line (A : Type 0) : Type 0 where
  not_json : Line A
  message : Method → A → Line A

-- the errors before a client is removed
pub data Removal : Type 0 where
  too_long invalid_json unknown_method too_bad : Removal

-- MAX_LINE and MAX_BAD_SHARES
abbrev pub max_line : ℕ
max_line = 8192

abbrev pub max_bad_shares : ℕ
max_bad_shares = 5

unfoldable pub is_other : Method → Bool
is_other other = true
is_other _ = false

-- `call` is the handler of a method, which does nothing for `other`; `remove` answers with an error and
-- clears the client.
module _ {S A : Type 0} (call : Method → A → S → S) (bad_shares : S → ℕ)
    (remove : Removal → S → S) where
  -- the state, and whether the client is still there
  unfoldable pub read_lines : List (Line A) → S → S × Bool
  read_lines [] s = (s, true)
  read_lines (not_json ∷ lines) s = (remove invalid_json s, false)
  read_lines (message method m ∷ lines) s =
      let t = call method m s in
      let rest = read_lines lines t in
      if is_other method
      then (remove unknown_method s, false)
      else if ltb max_bad_shares (bad_shares t)
      then (remove too_bad t, false)
      else rest

  -- `len` is the length of the whole input.
  unfoldable pub miner_on_read : ℕ → List (Line A) → S → S × Bool
  miner_on_read len lines s =
      let read = read_lines lines s in if ltb max_line len then (remove too_long s, false) else read

  -- Lines that are read after others are read from the state that those left, or not at all if the client
  -- is gone by then.
  abbrev then_read : List (Line A) → S × Bool → S × Bool
  then_read later (t, true) = read_lines later t
  then_read later (t, false) = (t, false)

  read_lines-append :
      (lines later : List (Line A)) (s : S)
      → read_lines (lines ++ later) s ≡ then_read later (read_lines lines s)
  unfolding read_lines
  read_lines-append [] later s = refl
  read_lines-append (not_json ∷ lines) later s = refl
  read_lines-append (message method m ∷ lines) later s = elim (Bool-cases (is_other method)) [
    | inl unknown ↦ rw (read_lines, unknown) refl
    | inr known ↦ elim (Bool-cases (ltb max_bad_shares (bad_shares (call method m s)))) [
      | inl bad ↦ rw (read_lines, known, bad) refl
      | inr good ↦ rw (read_lines, known, good) (read_lines-append lines later (call method m s))
    ]
  ]

  -- A client that is still there has not too many bad shares.
  read_lines-bad_shares :
      (lines : List (Line A)) (s : S)
      → bad_shares s ≤ max_bad_shares
      → (read_lines lines s).1 ≡ true
      → bad_shares (read_lines lines s).0 ≤ max_bad_shares
  unfolding read_lines
  read_lines-bad_shares [] s few there = few
  read_lines-bad_shares (not_json ∷ lines) s few there = absurd (ground (arith, there))
  read_lines-bad_shares (message method m ∷ lines) s few there =
      elim (Bool-cases (is_other method)) [
        | inl unknown ↦ absurd (ground (arith, rw unknown at there))
        | inr known ↦ elim (Bool-cases (ltb max_bad_shares (bad_shares (call method m s)))) [
          | inl bad ↦ absurd (ground (arith, rw (known, bad) at there))
          | inr good ↦
              rw (read_lines, known, good)
                (read_lines-bad_shares lines (call method m s) (ground (arith, good))
                  (rw (known, good) at there))
        ]
      ]

  -- Reading lines is reading the first ones and then the others from the state that they left; once the
  -- client is removed no further line is handled, and while it is not it has at most five bad shares.
  pub read_lines_in_turn :
      (lines later : List (Line A)) (s : S)
      → bad_shares s ≤ max_bad_shares
      → (((read_lines lines s).1 ≡ true)
          × (read_lines (lines ++ later) s ≡ read_lines later (read_lines lines s).0)
          × (bad_shares (read_lines lines s).0 ≤ max_bad_shares))
        ⊎ (((read_lines lines s).1 ≡ false) × (read_lines (lines ++ later) s ≡ read_lines lines s))
  read_lines_in_turn lines later s few =
      let whole = read_lines-append lines later s in
      elim (Bool-cases (read_lines lines s).1) [
        | inl there ↦ inl (there, rw there at whole, read_lines-bad_shares lines s few there)
        | inr gone ↦
            inr (gone, (rw gone at whole) ∙ ap (λ b. ((read_lines lines s).0, b)) (sym gone))
      ]
