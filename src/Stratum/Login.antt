-- ===== src/Stratum/Login.antt =====
-- miner_on_login of src/pool.c: who is signed in, and what a refused login leaves as it was.
use salvium_pool.Prelude.{
  ℕ, ◌≡◌, ◌⊎◌, ◌∙◌, refl, sym, ap, inl, inr, Bool, true, false, Option, none, some, List, [], ◌∷◌,
  get_or, not, ◌&&◌, ◌||◌, ◌==◌, if_elim, option_elim, Bool-cases, Option-cases, arith, subst,
}
use salvium_pool.Pool.Types.{Address, HrStats, Client}
use salvium_pool.Work.{mode_self_select}
use salvium_pool.Prelude.Table.{modify}
use salvium_pool.Clients.{Sessions, fd_of, client_find, join_account}
use salvium_pool.Stratum.{
  Field, absent, wrong_type, given, LoginMessage, FieldName, Rejection, Xmr, get_or_error,
  ask_difficulty, name_agent, ask_mode, check_address, check_login, address_of_message,
  miner_on_login, strstr, contains, same_text, self_select_text,
}

-- What a field that may be missing leads to has what both ways lead to.
pub get_or_error_elim {ℓ κ} :
    {A : Type 0} {B : Type ℓ} (P : B → Type κ) (name : FieldName) (f : Field A)
    (reject : Rejection → B) (use_it : A → B)
    → ((r : Rejection) → P (reject r))
    → ((x : A) → f ≡ given x → P (use_it x))
    → P (get_or_error name f reject use_it)
unfolding get_or_error
get_or_error_elim P name absent reject use_it g h = g _
get_or_error_elim P name wrong_type reject use_it g h = g _
get_or_error_elim P name (given x) reject use_it g h = h x refl

module _ {D : Type 0} (xmr : Xmr) (disable_self_select : Bool) (nettype : ℕ) where
  -- a change of a client that keeps its address and its mode
  abbrev Keeps : Client D → Client D → Type 0
  Keeps client changed = (changed.address ≡ client.address) × (changed.mode ≡ client.mode)

  ask_difficulty-Keeps :
      (text : List ℕ) (client : Client D)
      → Keeps client (ask_difficulty xmr disable_self_select nettype text client)
  unfolding ask_difficulty
  ask_difficulty-Keeps text client =
      option_elim (Keeps client) (strstr text (b'd' ∷ b'=' ∷ [])) client _ (λ e. (refl, refl))
        (λ rd e.
          if_elim (Keeps client) (get_or rd 2 0 == 0) client _ (λ c. (refl, refl))
            (λ c. (refl, refl)))

  name_agent-Keeps :
      (agent : Option (List ℕ)) (client : Client D)
      → Keeps client (name_agent xmr disable_self_select nettype agent client)
  unfolding name_agent
  name_agent-Keeps none client = (refl, refl)
  name_agent-Keeps (some agent) client =
      if_elim (Keeps client) (contains agent _) _ _ (λ c. (refl, refl))
        (λ c.
          if_elim (Keeps client) (contains agent _) _ client (λ d. (refl, refl))
            (λ d. (refl, refl)))

  -- The address is one of the pool's network and not an integrated one, and a miner that selects its
  -- template is no proxy and may do so.
  pub record IsAllowed (address : Address) (client : Client D) : Type 0 where
    pub prefix : ℕ
    pub on_network : xmr.parse_address address ≡ some (prefix, nettype)
    pub not_integrated : xmr.is_integrated prefix ≡ false
    pub no_proxy :
        ((client.is_nicehash || client.is_xnp) && (client.mode == mode_self_select)) ≡ false
    pub may_select : (client.mode == mode_self_select) ≡ true → disable_self_select ≡ false

  -- A refused client keeps its address, and one that is not refused is allowed to sign in.
  abbrev Outcome : Address → Address → Client D × Option Rejection → Type 0
  Outcome before address (c, some r) = c.address ≡ before
  Outcome before address (c, none) = (c.address ≡ before) × IsAllowed address c

  check_address-Outcome :
      (client : Client D) (address : Address) (text : List ℕ) (agent : Option (List ℕ))
      → ((client.mode == mode_self_select) ≡ true → disable_self_select ≡ false)
      → Outcome client.address address
          (check_address xmr disable_self_select nettype address text agent client)
  unfolding check_address
  check_address-Outcome client address text agent may =
      let asked = ask_difficulty xmr disable_self_select nettype text client in
      let named = name_agent xmr disable_self_select nettype agent asked in
      let first = ask_difficulty-Keeps text client in
      let second = name_agent-Keeps agent asked in
      let same : named.address ≡ client.address = second.0 ∙ first.0 in
      let mode : named.mode ≡ client.mode = second.1 ∙ first.1 in
      option_elim (Outcome client.address address) (xmr.parse_address address) _ _ (λ e. refl)
        (λ parsed e.
          if_elim (Outcome client.address address) (not (parsed.1 == nettype)) _ _ (λ c. refl)
            (λ c.
              if_elim (Outcome client.address address) (xmr.is_integrated parsed.0) _ _ (λ d. refl)
                (λ d.
                  if_elim (Outcome client.address address)
                    ((named.is_nicehash || named.is_xnp) && (named.mode == mode_self_select)) _ _
                    (λ f. same)
                    (λ f. (
                      same,
                      record {
                        prefix = parsed.0;
                        on_network =
                            e
                            ∙ ap (λ n. some (parsed.0, n))
                                (ground (arith, c, Bool-cases (parsed.1 == nettype)));
                        not_integrated = d;
                        no_proxy = f;
                        may_select =
                            λ selects. may (ap (λ n. n == mode_self_select) (sym mode) ∙ selects);
                      },
                    )))))

  -- A client that may go on with its mode selects its template only where the pool lets it.
  abbrev MayGoOn : Client D → Client D × Bool → Type 0
  MayGoOn client (asked, allowed) =
      (asked.address ≡ client.address)
      × (allowed ≡ true → (asked.mode == mode_self_select) ≡ true → disable_self_select ≡ false)

  ask_mode-MayGoOn :
      (mode : Field (List ℕ)) (client : Client D)
      → client.mode ≡ 0
      → MayGoOn client (ask_mode xmr disable_self_select nettype mode client)
  unfolding ask_mode
  ask_mode-MayGoOn absent client normal = (refl, λ a s. absurd (ground (arith, normal, s)))
  ask_mode-MayGoOn wrong_type client normal = (refl, λ a s. absurd (ground (arith, normal, s)))
  ask_mode-MayGoOn (given text) client normal =
      if_elim (MayGoOn client) (same_text text self_select_text) _ _
        (λ c.
          if_elim (MayGoOn client) disable_self_select _ _
            (λ d. (refl, λ a. absurd (ground (arith, a)))) (λ d. (refl, λ a s. d)))
        (λ c. (refl, λ a s. absurd (ground (arith, normal, s))))

  check_login-Outcome :
      (message : LoginMessage) (client : Client D)
      → Outcome client.address
          (address_of_message message)
          (check_login xmr disable_self_select nettype message client)
  unfolding check_login
  check_login-Outcome message client =
      let P = Outcome client.address (address_of_message message) in
      let normal = record client { mode = 0 } in
      let asked = ask_mode xmr disable_self_select nettype message.mode normal in
      let (same, may) = ask_mode-MayGoOn message.mode normal refl in
      get_or_error_elim P _ message.params _ _ (λ r. refl)
        (λ p e.
          get_or_error_elim P _ message.login _ _ (λ r. refl)
            (λ address its.
              get_or_error_elim P _ message.pass _ _ (λ r. refl)
                (λ text f.
                  if_elim P (not asked.1) _ _ (λ c. same)
                    (λ c.
                      let allowed : asked.1 ≡ true = ground (arith, c, Bool-cases asked.1) in
                      let named : address_of_message message ≡ address =
                        ap (λ field. elim field [ given a ↦ a | _ ↦ 0 ]) its in
                      let checked =
                        check_address xmr disable_self_select nettype address text message.agent
                          asked.0 in
                      let outcome =
                        check_address-Outcome asked.0 address text message.agent (may allowed) in
                      subst (λ before. Outcome before (address_of_message message) checked) same
                        (subst (λ a. Outcome asked.0.address a checked) (sym named) outcome)))))

  -- A login of a client that is connected is refused, and then the accounts, their count and the pool's
  -- statistics are as they were; or it is allowed, and then the client signs in at the address that it
  -- gave.
  pub miner_on_login-IsAllowed :
      (now : ℕ) (hr_stats : HrStats D) (fd : ℕ) (message : LoginMessage) (s : Sessions D)
      (client : Client D)
      → client_find (some fd) s ≡ some client
      → (let after = miner_on_login xmr disable_self_select nettype now hr_stats fd message s in
          let checked = check_login xmr disable_self_select nettype message client in
          ((r : Rejection) × (after.1 ≡ some r)
            × (after.0.accounts ≡ s.accounts)
            × (after.0.account_count ≡ s.account_count)
            × (after.0.stats ≡ s.stats)
            × (after.0.upstream ≡ s.upstream))
          ⊎ ((after.1 ≡ none)
              × IsAllowed (address_of_message message) checked.0
              × (after.0
                  ≡ join_account now hr_stats fd
                      (address_of_message message)
                      (record s { clients = modify fd_of fd (λ c. checked.0) s.clients }))))
  unfolding miner_on_login
  miner_on_login-IsAllowed now hr_stats fd message s client found =
      let checked = check_login xmr disable_self_select nettype message client in
      let outcome = check_login-Outcome message client in
      elim (Option-cases checked.1) [
        | inr (r, e) ↦ rw (miner_on_login, found, e) (inl (r, refl, refl, refl, refl, refl))
        | inl e ↦
            let allowed : IsAllowed (address_of_message message) checked.0 =
              (subst
                (λ error. Outcome client.address (address_of_message message) (checked.0, error)) e
                outcome).1 in
            rw (miner_on_login, found, e) (inr (refl, allowed, refl))
      ]
