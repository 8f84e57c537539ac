-- ===== src/Protocol/Stream.antt =====
-- The readers of src/pool.c on a stream of messages.
use salvium_pool.Prelude.{
  ℕ, zero, suc, ◌+◌, ◌-◌, ◌<◌, ◌≤◌, ◌≡◌, ◌∙◌, refl, ap, inl, inr, false, Option, some, List, [],
  ◌∷◌, ◌++◌, length, get_or, take, All, ltb, arith, append_assoc, length-append, Bool-cases, subst,
}
use salvium_pool.Pool.Types.{Message}
use salvium_pool.Protocol.{Round, took, on_read, encode, type_of, msgbin}
use salvium_pool.Protocol.Frames.{Consumes, IsAtRest, short-IsAtRest, waiting-IsAtRest}
use salvium_pool.Protocol.Sent.{Reads, length-take}

-- the bytes of messages that are sent one after another
abbrev pub stream : List Message → List ℕ
stream [] = []
stream (m ∷ ms) = encode m ++ stream ms

abbrev pub handle_all : {S : Type 0} → (Message → S → S) → List Message → S → S
handle_all handle [] s = s
handle_all handle (m ∷ ms) s = handle_all handle ms (handle m s)

-- `evbuffer_search` finds what the buffer starts with.
abbrev pub FindsStart : (List ℕ → List ℕ → Option ℕ) → Type 0
FindsStart evbuffer_search = (what rest : List ℕ) → evbuffer_search (what ++ rest) what ≡ some 0

module _ (evbuffer_search : List ℕ → List ℕ → Option ℕ) (finds : FindsStart evbuffer_search)
    (round : ℕ → List ℕ → Round) (consumes : Consumes round) {S : Type 0} (handle : Message → S → S)
    (give_up_on : S → S) where
  abbrev read : ℕ → List ℕ → S → List ℕ × S
  read = on_read evbuffer_search round handle give_up_on

  -- From its tenth byte on, a message that has not come as a whole is left alone.
  late_part :
      (m : Message) (k : ℕ) (s : S)
      → Reads round m
      → 9 + k < length (encode m)
      → IsAtRest evbuffer_search round handle give_up_on consumes (take (9 + k) (encode m), s)
  unfolding encode
  late_part m k s (whole, part) less =
      let nine : 9 + k ≡ suc (suc (suc (suc (suc (suc (suc (suc (suc k)))))))) = omega arith in
      let shape = ap (λ n. take n (encode m)) nine in
      let found : evbuffer_search (take (9 + k) (encode m)) msgbin ≡ some 0 =
        ap (λ input. evbuffer_search input msgbin) shape ∙ finds msgbin _ in
      let type : get_or (take (9 + k) (encode m)) 8 0 ≡ type_of m =
        ap (λ input. get_or input 8 0) shape in
      waiting-IsAtRest evbuffer_search round handle give_up_on consumes (take (9 + k) (encode m)) s
        0 (ground (arith, length-take (9 + k) (encode m))) found
        (ap (λ t. round t (take (9 + k) (encode m))) type ∙ part k less)

  part-IsAtRest :
      (m : Message) (k : ℕ) (s : S)
      → Reads round m
      → k < length (encode m)
      → IsAtRest evbuffer_search round handle give_up_on consumes (take k (encode m), s)
  part-IsAtRest m k s reads less = elim (Bool-cases (ltb k 9)) [
    | inl short ↦
        short-IsAtRest evbuffer_search round handle give_up_on consumes (take k (encode m)) s
          (ground (arith, short, length-take k (encode m)))
    | inr long ↦
        let more : 9 + (k - 9) ≡ k = ground (arith, long) in
        subst
          (λ j. IsAtRest evbuffer_search round handle give_up_on consumes (take j (encode m), s))
          more (late_part m (k - 9) s reads (omega arith))
  ]

  read_took :
      (input : List ℕ) (m : Message) (rest : List ℕ) (fuel : ℕ) (s : S)
      → ltb (length input) 9 ≡ false
      → evbuffer_search input msgbin ≡ some 0
      → round (get_or input 8 0) input ≡ took m rest
      → read (suc fuel) input s ≡ read fuel rest (handle m s)
  unfolding on_read
  read_took input m rest fuel s long found e = rw (on_read, long, found, e) refl

  read_first :
      (m : Message) (rest : List ℕ) (fuel : ℕ) (s : S)
      → Reads round m
      → read (suc fuel) (encode m ++ rest) s ≡ read fuel rest (handle m s)
  unfolding encode
  read_first m rest fuel s (whole, part) =
      read_took (encode m ++ rest) m rest fuel s (ground arith) (finds msgbin _) (whole rest)

  pub read-stream :
      (ms : List Message) (rest : List ℕ) (s : S) (fuel : ℕ)
      → All (Reads round) ms
      → ((s : S) → IsAtRest evbuffer_search round handle give_up_on consumes (rest, s))
      → length ms ≤ fuel
      → read fuel (stream ms ++ rest) s ≡ (rest, handle_all handle ms s)
  read-stream [] rest s fuel hs still enough = still s fuel
  read-stream (m ∷ ms) rest s zero hs still enough = absurd (omega arith)
  read-stream (m ∷ ms) rest s (suc fuel) (h, hs) still enough =
      ap (λ input. read (suc fuel) input s) (append_assoc (encode m) (stream ms) rest)
      ∙ read_first m (stream ms ++ rest) fuel s h
      ∙ read-stream ms rest (handle m s) fuel hs still (omega arith)

  messages_le : (ms : List Message) (rest : List ℕ) → length ms ≤ length (stream ms ++ rest)
  unfolding encode
  messages_le [] rest = omega arith
  messages_le (m ∷ ms) rest = ground (
    arith,
    messages_le ms rest,
    append_assoc (encode m) (stream ms) rest,
    length-append (encode m) (stream ms ++ rest),
  )

  -- The loop on as much fuel as there are bytes reads whole messages and leaves a part of one.
  pub read_all :
      (ms : List Message) (m : Message) (k : ℕ) (s : S)
      → All (Reads round) ms
      → Reads round m
      → k < length (encode m)
      → (let input = stream ms ++ take k (encode m) in
          read (length input) input s ≡ (take k (encode m), handle_all handle ms s))
  read_all ms m k s hs h less =
      read-stream ms (take k (encode m)) s (length (stream ms ++ take k (encode m))) hs
        (λ s. part-IsAtRest m k s h less) (messages_le ms (take k (encode m)))
