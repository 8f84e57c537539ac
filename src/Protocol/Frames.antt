-- ===== src/Protocol/Frames.antt =====
-- The loop of the readers of messages in src/pool.c, upstream_on_read and trusted_on_read: what a turn of it takes,
-- and where it ends.
use salvium_pool.Prelude.{
  ℕ, zero, suc, ◌+◌, ◌-◌, ◌≤◌, ◌≡◌, ◌⊎◌, refl, inl, inr, true, false, Option, some, List, [], ◌∷◌,
  length, get_or, drop, ltb, ◌==◌, arith, Bool-cases, Option-cases, if_elim, subst, ◌||◌,
}
use salvium_pool.Pool.Types.{Message}
use salvium_pool.Protocol.{
  sum, msgbin, Round, wait, give_up, took, with_struct, upstream_round, trusted_round, on_read,
}

length-drop : {A : Type 0} (n : ℕ) (xs : List A) → length (drop n xs) ≡ length xs - n
length-drop zero xs = omega arith
length-drop (suc n) [] = omega arith
length-drop (suc n) (x ∷ xs) = omega (arith, length-drop n xs)

pub Round-cases :
    (r : Round) → (r ≡ wait) ⊎ (r ≡ give_up) ⊎ ((m : Message) × (rest : List ℕ) × (r ≡ took m rest))
Round-cases wait = inl refl
Round-cases give_up = inr (inl refl)
Round-cases (took m rest) = inr (inr (m, rest, refl))

-- A round that takes a message takes its first nine bytes at least.
abbrev pub Shortens : List ℕ → Round → Type 0
Shortens input (took m rest) = length rest + 9 ≤ length input
Shortens input wait = Unit
Shortens input give_up = Unit

abbrev pub Consumes : (ℕ → List ℕ → Round) → Type 0
Consumes round = (type : ℕ) (input : List ℕ) → 9 ≤ length input → Shortens input (round type input)

with_struct-Shortens :
    (sizes : List ℕ) (make : List ℕ → Message) (input : List ℕ)
    → 9 ≤ length input
    → Shortens input (with_struct sizes make input)
unfolding with_struct
with_struct-Shortens sizes make input long =
    if_elim (Shortens input) (ltb (length input - 9) (sum sizes)) wait _ (λ c. tt)
      (λ c. omega (arith, length-drop 9 input, length-drop (sum sizes) (drop 9 input)))

pub upstream_round-Consumes : Consumes upstream_round
unfolding upstream_round
upstream_round-Consumes type input long =
    if_elim (Shortens input) (type == 5) _ _ (λ c. with_struct-Shortens _ _ input long)
      (λ c.
        if_elim (Shortens input) (type == 6) _ _ (λ d. with_struct-Shortens _ _ input long)
          (λ d. tt))

pub trusted_round-Consumes : Consumes trusted_round
unfolding trusted_round
trusted_round-Consumes type input long =
    let header : length (drop 9 input) + 9 ≤ length input = omega (arith, length-drop 9 input) in
    if_elim (Shortens input) ((type == 0) || (type == 5)) _ _ (λ c. header)
      (λ c.
        if_elim (Shortens input) (type == 1) _ _ (λ d. with_struct-Shortens _ _ input long)
          (λ d.
            if_elim (Shortens input) (type == 2) _ _ (λ e. header)
              (λ e.
                if_elim (Shortens input) (type == 3) _ _ (λ f. with_struct-Shortens _ _ input long)
                  (λ f.
                    if_elim (Shortens input) (type == 4) _ _
                      (λ g. with_struct-Shortens _ _ input long) (λ g. tt)))))

module _ (evbuffer_search : List ℕ → List ℕ → Option ℕ) (round : ℕ → List ℕ → Round) {S : Type 0}
    (handle : Message → S → S) (give_up_on : S → S) (consumes : Consumes round) where
  -- Where no fuel is left there is no message left to take, so more fuel changes nothing.
  pub on_read_steady :
      (n m : ℕ) (input : List ℕ) (s : S)
      → length input ≤ n
      → length input ≤ m
      → on_read evbuffer_search round handle give_up_on n input s
        ≡ on_read evbuffer_search round handle give_up_on m input s
  unfolding on_read
  on_read_steady zero zero input s hn hm = refl
  on_read_steady zero (suc m) input s hn hm =
      let short : ltb (length input) 9 ≡ true = ground arith in rw (on_read, short) refl
  on_read_steady (suc n) zero input s hn hm =
      let short : ltb (length input) 9 ≡ true = ground arith in rw (on_read, short) refl
  on_read_steady (suc n) (suc m) input s hn hm = elim (Bool-cases (ltb (length input) 9)) [
    | inl short ↦ rw (on_read, short) refl
    | inr long ↦ elim (Option-cases (evbuffer_search input msgbin)) [
      | inl lost ↦ rw (on_read, long, lost) refl
      | inr (pos, found) ↦ elim (Round-cases (round (get_or input 8 0) input)) [
        | inl e ↦ rw (on_read, long, found, e) refl
        | inr (inl e) ↦ rw (on_read, long, found, e) refl
        | inr (inr (m', rest, e)) ↦
            let enough : 9 ≤ length input = ground (arith, long) in
            let shorter : length rest + 9 ≤ length input =
              subst (Shortens input) e (consumes (get_or input 8 0) input enough) in
            rw (on_read, long, found, e)
              (on_read_steady n m rest (handle m' s) (omega arith) (omega arith))
      ]
    ]
  ]

  -- The reader stops where it would stop again at once, whatever the fuel.
  abbrev pub IsAtRest : List ℕ × S → Type 0
  IsAtRest (input, s) =
      (fuel : ℕ) → on_read evbuffer_search round handle give_up_on fuel input s ≡ (input, s)

  pub short-IsAtRest : (input : List ℕ) (s : S) → ltb (length input) 9 ≡ true → IsAtRest (input, s)
  unfolding on_read
  short-IsAtRest input s short zero = refl
  short-IsAtRest input s short (suc fuel) = rw (on_read, short) refl

  pub waiting-IsAtRest :
      (input : List ℕ) (s : S) (pos : ℕ)
      → ltb (length input) 9 ≡ false
      → evbuffer_search input msgbin ≡ some pos
      → round (get_or input 8 0) input ≡ wait
      → IsAtRest (input, s)
  unfolding on_read
  waiting-IsAtRest input s pos long found e zero = refl
  waiting-IsAtRest input s pos long found e (suc fuel) = rw (on_read, long, found, e) refl

  pub on_read_done :
      (n : ℕ) (input : List ℕ) (s : S)
      → length input ≤ n
      → IsAtRest (on_read evbuffer_search round handle give_up_on n input s)
  unfolding on_read
  on_read_done zero input s hn = short-IsAtRest input s (ground arith)
  on_read_done (suc n) input s hn = elim (Bool-cases (ltb (length input) 9)) [
    | inl short ↦ rw (on_read, short) (short-IsAtRest input s short)
    | inr long ↦ elim (Option-cases (evbuffer_search input msgbin)) [
      | inl lost ↦ rw (on_read, long, lost) (short-IsAtRest [] (give_up_on s) refl)
      | inr (pos, found) ↦ elim (Round-cases (round (get_or input 8 0) input)) [
        | inl e ↦ rw (on_read, long, found, e) (waiting-IsAtRest input s pos long found e)
        | inr (inl e) ↦ rw (on_read, long, found, e) (short-IsAtRest [] (give_up_on s) refl)
        | inr (inr (m', rest, e)) ↦
            let enough : 9 ≤ length input = ground (arith, long) in
            let shorter : length rest + 9 ≤ length input =
              subst (Shortens input) e (consumes (get_or input 8 0) input enough) in
            rw (on_read, long, found, e) (on_read_done n rest (handle m' s) (omega arith))
      ]
    ]
  ]
