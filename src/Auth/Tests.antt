-- ===== src/Auth/Tests.antt =====
-- Accounts and tokens of concrete children.
use ai_child.Prelude.{
  ℕ, suc, ◌-◌, ltb, ap, arith, ◌≡◌, true, false, [], ◌∷◌, Option, none, some, String, any, nat_eq,
  lookup, insert, if◌then◌else◌, refl,
}
use ai_child.PyText.{PyText, codes, text_is, strip}
use ai_child.Auth.{
  AuthAccountRecordData, InMemoryAuthRepository, create_session, note_login, revoke_session,
  revoke_found,
}
use ai_child.Auth.Names.{lookup_name}
use ai_child.Auth.Passwords.{
  hash_password, verify_password, password_hash_iterations, verify_password-hash_password,
}
use ai_child.Auth.Service.{
  AuthServiceError, Reply, AuthRequest, Drawn, session_data, create_session_response,
  account_for_token, register, login, logout, normalize_username,
}
use ai_child.Auth.Login.{is_returned, taken_name}
use ai_child.Auth.Tokens.{Call, run, logged_out_for_good}

-- str.lower on texts without capitals, and a hash that shows the text
abbrev same : PyText → PyText
same t = t

-- a digest that depends on the password alone
abbrev digest : PyText → PyText → ℕ → PyText
digest password salt iterations = password

-- an encoding that skips the dollar sign
abbrev skip : PyText → PyText
skip [] = []
skip (c ∷ t) = (if ltb c 36 then c else suc c) ∷ skip t

abbrev skipped : PyText → PyText
skipped [] = []
skipped (c ∷ t) = (if ltb c 36 then c else c - 1) ∷ skipped t

abbrev decode : PyText → Option PyText
decode t = some (skipped t)

-- it reads every number as that of the iterations
abbrev read : PyText → Option ℕ
read t = some password_hash_iterations

skipped-skip : (t : PyText) → skipped (skip t) ≡ t
skipped-skip [] = refl
skipped-skip (c ∷ t) =
    let e : (if ltb (if ltb c 36 then c else suc c) 36
          then (if ltb c 36 then c else suc c)
          else (if ltb c 36 then c else suc c) - 1)
        ≡ c =
      ground arith in
    cc (e, skipped-skip t)

any-skip : (t : PyText) → any (nat_eq 36) (skip t) ≡ false
any-skip [] = refl
any-skip (c ∷ t) = ground (arith, any-skip t)

verify_password-hash_password_example :
    verify_password digest skip decode read
      (codes "password")
      (hash_password digest skip decode read (codes "salt$") (codes "password"))
    ≡ text_is (codes "password") (codes "password")
verify_password-hash_password_example =
    verify_password-hash_password digest skip decode read (codes "salt$") (codes "password")
      (codes "password") (λ t. ap some (skipped-skip t)) any-skip refl

-- a token hash that tells two tokens apart
abbrev sha : PyText → String
sha t = if text_is t (codes "t1") then "h1" else "h2"

abbrev empty : InMemoryAuthRepository
empty = record { accounts_by_username = []; accounts_by_id = []; sessions_by_hash = [] }

abbrev request : AuthRequest
request = record { username = codes " lan"; password = codes "password" }

abbrev drawn : Drawn
drawn = record { raw_token = codes "t1"; session_id = "s1" }

abbrev drawn_later : Drawn
drawn_later = record { raw_token = codes "t2"; session_id = "s2" }

-- the repository after a registration
abbrev registered : InMemoryAuthRepository
registered = (register sha same same text_is drawn "a1" "c1" 5 request empty).1

taken_name_example :
    (is_returned
        (login sha same same text_is drawn_later 9
          (record request { username = codes "lan" })
          registered).0
      ≡ text_is (codes "password") (codes "password"))
    × (register sha same same text_is drawn_later "a2" "c2" 9
          (record request { username = codes "lan" })
          registered
        ≡ (Reply.raised AuthServiceError.account_exists, registered))
unfolding normalize_username strip lookup_name
taken_name_example =
    taken_name sha same same text_is drawn drawn_later drawn_later "a1" "a2" "c1" "c2" 5 9 request
      (record request { username = codes "lan" }) empty refl refl

abbrev lan : AuthAccountRecordData
lan = record {
  id = "a1";
  child_id = "c1";
  username = codes "lan";
  password_hash = codes "password";
  created_by_guardian = true;
  last_login_at = none;
}

abbrev with_lan : InMemoryAuthRepository
with_lan = record empty {
  accounts_by_id = ("a1", lan) ∷ [];
  accounts_by_username = (codes "lan", lan) ∷ [];
}

-- lan after a login
abbrev with_session : InMemoryAuthRepository
with_session = (create_session_response sha drawn 5 lan with_lan).1

logged_out_for_good_example :
    account_for_token sha 8 (codes "t1") (
      run sha same same text_is
        (Call.logs_in drawn_later 7 request ∷ [])
        (logout sha 6 (codes "t1") with_session).1)
    ≡ Reply.raised AuthServiceError.token_invalid
unfolding logout revoke_session revoke_found create_session_response create_session session_data
    note_login lookup insert text_is
logged_out_for_good_example =
    logged_out_for_good sha same same text_is (codes "t1") 6 8
      (Call.logs_in drawn_later 7 request ∷ []) with_session refl (refl, tt)
