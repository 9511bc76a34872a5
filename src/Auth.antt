-- ===== src/Auth.antt =====
-- backend/app/services/auth_service.py over InMemoryAuthRepository of backend/app/repositories/auth_repository.py,
-- with the records of backend/app/domain/schemas/auth.py: accounts of children, and their sessions. Hashes,
-- base64 and the reading of numbers are arguments, as are the time and what is drawn at random. The
-- profile that the parent policy adds to an account is left out.
pub mod Names
pub mod Passwords
pub mod Service
pub mod Login
pub mod Tokens
mod Tests
use ai_child.Prelude.{ℕ, Bool, true, false, String, Option, none, some, Dict, lookup, insert}
use ai_child.PyText.{PyText}
use Names.{NameDict, lookup_name, insert_name}

pub record AuthAccountRecordData : Type 0 where
  pub id : String
  pub child_id : String
  pub username : PyText
  pub password_hash : PyText
  pub created_by_guardian : Bool
  pub last_login_at : Option ℕ

pub record AuthSessionRecordData : Type 0 where
  pub id : String
  pub child_account_id : String
  pub token_hash : String
  pub created_at : ℕ
  pub expires_at : ℕ
  pub revoked_at : Option ℕ

pub record InMemoryAuthRepository : Type 0 where
  pub accounts_by_username : NameDict AuthAccountRecordData
  pub accounts_by_id : Dict AuthAccountRecordData
  pub sessions_by_hash : Dict AuthSessionRecordData

-- the repository with a new account
unfoldable pub added : AuthAccountRecordData → InMemoryAuthRepository → InMemoryAuthRepository
added a repo = record repo {
  accounts_by_username = insert_name a.username a repo.accounts_by_username;
  accounts_by_id = insert a.id a repo.accounts_by_id;
}

-- create_account; None is AuthUsernameAlreadyExists
unfoldable pub create_unless :
    Option AuthAccountRecordData
    → AuthAccountRecordData
    → InMemoryAuthRepository
    → Option InMemoryAuthRepository
unfolding added
create_unless (some taken) a repo = none
create_unless none a repo = some (added a repo)

unfoldable pub create_account :
    AuthAccountRecordData → InMemoryAuthRepository → Option InMemoryAuthRepository
unfolding create_unless
create_account a repo = create_unless (lookup_name a.username repo.accounts_by_username) a repo

-- the account after a login
unfoldable pub logged_in : ℕ → AuthAccountRecordData → AuthAccountRecordData
logged_in now a = record a { last_login_at = some now }

-- `if account is not None` of create_session
unfoldable pub note_login :
    ℕ → Option AuthAccountRecordData → InMemoryAuthRepository → InMemoryAuthRepository
unfolding logged_in
note_login now none repo = repo
note_login now (some a) repo = record repo {
  accounts_by_id = insert a.id (logged_in now a) repo.accounts_by_id;
  accounts_by_username = insert_name a.username (logged_in now a) repo.accounts_by_username;
}

-- create_session
unfoldable pub create_session :
    AuthSessionRecordData → InMemoryAuthRepository → InMemoryAuthRepository
unfolding note_login
create_session s repo =
    note_login s.created_at (lookup s.child_account_id repo.accounts_by_id)
      (record repo { sessions_by_hash = insert s.token_hash s repo.sessions_by_hash })

-- the end of revoke_session, behind the search of the session
unfoldable pub revoke_found :
    String
    → ℕ
    → Option AuthSessionRecordData
    → InMemoryAuthRepository
    → Bool × InMemoryAuthRepository
revoke_found hash now none repo = (false, repo)
revoke_found hash now (some s) repo = (
  true,
  record repo {
    sessions_by_hash = insert hash (record s { revoked_at = some now }) repo.sessions_by_hash;
  },
)

-- revoke_session
unfoldable pub revoke_session : String → ℕ → InMemoryAuthRepository → Bool × InMemoryAuthRepository
unfolding revoke_found
revoke_session hash now repo = revoke_found hash now (lookup hash repo.sessions_by_hash) repo
