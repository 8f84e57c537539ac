-- ===== src/Stratum.antt =====
-- The messages of miners in src/pool.c: miner_on_login, miner_on_block_template and the loop of miner_on_read that
-- hands each line to its handler. What json-c parses is given by its fields; what the handlers call of
-- src/xmr.cpp leads into libraries outside the repository and is a parameter.
pub mod Login
pub mod Template
pub mod Chosen
pub mod Lines
mod Tests
use salvium_pool.Prelude.{
  ℕ, zero, suc, ◌+◌, ◌-◌, ◌/◌, ◌%◌, ◌^◌, Bool, true, false, Option, none, some, List, [], ◌∷◌, ◌++◌,
  length, get_or, drop, get_elem?, set, not, ◌&&◌, ◌||◌, ◌==◌, ltb, leb, if◌then◌else◌,
}
use salvium_pool.Prelude.Table.{modify}
use salvium_pool.Pool.Types.{Address, HrStats, Client, Account, BlockTemplate, Job, PoolStats}
use salvium_pool.Util.Hex.{hex_to_bin}
use salvium_pool.Work.{mode_self_select, client_find_job, pow_variant}
use salvium_pool.Clients.{Sessions, fd_of, client_find, join_account}
use salvium_pool.Jobs.{no_job}
use salvium_pool.Shared.{empty_template}

-- a field of a message
pub data Field (A : Type 0) : Type 0 where
  absent : Field A
  wrong_type : Field A
  given : A → Field A

-- `strstr`: the text from the first place on where `what` begins
unfoldable pub starts_with : List ℕ → List ℕ → Bool
starts_with [] text = true
starts_with (x ∷ what) [] = false
starts_with (x ∷ what) (y ∷ text) = (x == y) && starts_with what text

unfoldable pub strstr : List ℕ → List ℕ → Option (List ℕ)
strstr [] what = if starts_with what [] then some [] else none
strstr (c ∷ text) what =
    let rest = strstr text what in if starts_with what (c ∷ text) then some (c ∷ text) else rest

unfoldable pub contains : List ℕ → List ℕ → Bool
contains text what = elim (strstr text what) [ none ↦ false | some rest ↦ true ]

-- `!strcmp`
unfoldable pub same_text : List ℕ → List ℕ → Bool
same_text [] [] = true
same_text [] (y ∷ ys) = false
same_text (x ∷ xs) [] = false
same_text (x ∷ xs) (y ∷ ys) = (x == y) && same_text xs ys

abbrev pub self_select_text : List ℕ
self_select_text = b's' ∷ b'e' ∷ b'l' ∷ b'f' ∷ b'-' ∷ b's' ∷ b'e' ∷ b'l' ∷ b'e' ∷ b'c' ∷ b't' ∷ []

abbrev pub nicehash_text : List ℕ
nicehash_text = b'N' ∷ b'i' ∷ b'c' ∷ b'e' ∷ b'H' ∷ b'a' ∷ b's' ∷ b'h' ∷ []

abbrev pub xnp_text : List ℕ
xnp_text =
    b'x' ∷ b'm' ∷ b'r' ∷ b'-' ∷ b'n' ∷ b'o' ∷ b'd' ∷ b'e' ∷ b'-' ∷ b'p' ∷ b'r' ∷ b'o' ∷ b'x' ∷ b'y'
    ∷ []

-- the fields of a login; an agent that is not a text is its text in JSON
pub record LoginMessage : Type 0 where
  pub params : Field Unit
  pub login : Field Address
  pub pass : Field (List ℕ)
  pub mode : Field (List ℕ)
  pub agent : Option (List ℕ)

pub data FieldName : Type 0 where
  params_name login_name pass_name id_name job_id_name : FieldName
  blob_name difficulty_name height_name prev_hash_name seed_hash_name : FieldName

-- the errors that the two messages are answered with
pub data Rejection : Type 0 where
  not_found : FieldName → Rejection
  not_a : FieldName → Rejection
  self_select_disabled : Rejection
  invalid_address : Rejection
  invalid_network : Rejection
  invalid_address_type : Rejection
  self_select_unsupported : Rejection
  wrong_mode : Rejection
  job_id_length : Rejection
  bad_height : Rejection
  low_difficulty : Rejection
  blob_invalid : Rejection
  no_such_job : Rejection
  has_template : Rejection

-- What is called of src/xmr.cpp: the prefix and the network of an address, whether a prefix is that of an integrated
-- address, and the code of a check of a block; and `strtoull` with base 0.
pub record Xmr : Type 0 where
  pub parse_address : Address → Option (ℕ × ℕ)
  pub is_integrated : ℕ → Bool
  pub validate_block_from_blob : List ℕ → ℕ
  pub strtoull : List ℕ → ℕ

-- JSON_GET_OR_ERROR
unfoldable pub get_or_error {ℓ} :
    {A : Type 0} {B : Type ℓ} → FieldName → Field A → (Rejection → B) → (A → B) → B
get_or_error name absent reject use_it = reject (not_found name)
get_or_error name wrong_type reject use_it = reject (not_a name)
get_or_error name (given x) reject use_it = use_it x

abbrev pub address_of_message : LoginMessage → Address
address_of_message message = elim message.login [ given address ↦ address | _ ↦ 0 ]

module _ {D : Type 0} (xmr : Xmr) (disable_self_select : Bool) (nettype : ℕ) where
  -- the difficulty that a miner asks for in its password
  unfoldable pub ask_difficulty : List ℕ → Client D → Client D
  ask_difficulty pass client = elim (strstr pass (b'd' ∷ b'=' ∷ [])) [
    | none ↦ client
    | some rd ↦
        if get_or rd 2 0 == 0
        then client
        else (record client { req_diff = xmr.strtoull (drop 2 rd) })
  ]

  unfoldable pub name_agent : Option (List ℕ) → Client D → Client D
  name_agent none client = client
  name_agent (some agent) client =
      if contains agent nicehash_text
      then (record client { is_nicehash = true })
      else if contains agent xnp_text
      then (record client { is_xnp = true })
      else client

  -- The mode that is asked for, or the refusal of it.
  unfoldable pub ask_mode : Field (List ℕ) → Client D → Client D × Bool
  ask_mode (given text) client =
      if same_text text self_select_text
      then (if disable_self_select
          then (client, false)
          else (record client { mode = mode_self_select }, true))
      else (client, true)
  ask_mode _ client = (client, true)

  -- From the address on, to where the client is signed in.
  unfoldable pub check_address :
      Address → List ℕ → Option (List ℕ) → Client D → Client D × Option Rejection
  check_address address pass agent client = elim (xmr.parse_address address) [
    | none ↦ (client, some invalid_address)
    | some (pf, nt) ↦
        let named = name_agent agent (ask_difficulty pass client) in
        if not (nt == nettype)
        then (client, some invalid_network)
        else if xmr.is_integrated pf
        then (client, some invalid_address_type)
        else if (named.is_nicehash || named.is_xnp) && (named.mode == mode_self_select)
        then (named, some self_select_unsupported)
        else (named, none)
  ]

  -- The client after all checks of a login, and the error if there is one.
  unfoldable pub check_login : LoginMessage → Client D → Client D × Option Rejection
  check_login message client =
      let refuse : Rejection → Client D × Option Rejection = λ r. (client, some r) in
      get_or_error params_name message.params refuse (λ p.
        get_or_error login_name message.login refuse (λ address.
          get_or_error pass_name message.pass refuse (λ pass.
            let (asked, allowed) = ask_mode message.mode (record client { mode = 0 }) in
            if not allowed
            then (asked, some self_select_disabled)
            else check_address address pass message.agent asked)))

  -- The whole handler up to its call of miner_send_job, which follows where no error is returned.
  unfoldable pub miner_on_login :
      ℕ → HrStats D → ℕ → LoginMessage → Sessions D → Sessions D × Option Rejection
  miner_on_login now hr_stats fd message s = elim (client_find (some fd) s) [
    | none ↦ (s, none)
    | some client ↦
        let (checked, error) = check_login message client in
        let t = record s { clients = modify fd_of fd (λ c. checked) s.clients } in
        elim error [
          | some r ↦ (t, some r)
          | none ↦ (join_account now hr_stats fd (address_of_message message) t, none)
        ]
  ]
