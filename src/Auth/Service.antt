-- ===== src/Auth/Service.antt =====
-- backend/app/services/auth_service.py: the calls over the in-memory repository. What `secrets` and `uuid4`
-- draw, and the time, are arguments, as are sha256 and the check of a password.
use ai_child.Prelude.{
  ℕ, ◌+◌, ◌*◌, Bool, true, not, Option, none, some, String, lookup, leb, if◌then◌else◌,
}
use ai_child.PyText.{PyText, strip}
use ai_child.Auth.{
  AuthAccountRecordData, AuthSessionRecordData, InMemoryAuthRepository, create_account,
  create_session, revoke_session,
}
use ai_child.Auth.Names.{lookup_name}

-- the exceptions of the calls
pub data AuthServiceError : Type 0 where
  invalid_credentials : AuthServiceError
  token_invalid : AuthServiceError
  token_expired : AuthServiceError
  account_exists : AuthServiceError

pub data Reply (Value : Type 0) : Type 0 where
  raised : AuthServiceError → Reply Value
  returned : Value → Reply Value

-- AuthRegisterRequest and AuthLoginRequest, without the profile
pub record AuthRequest : Type 0 where
  pub username : PyText
  pub password : PyText

-- AuthSessionResponse
pub record AuthSessionResponse : Type 0 where
  pub token : PyText
  pub expires_at : ℕ
  pub account : AuthAccountRecordData

-- what is drawn for a session
pub record Drawn : Type 0 where
  pub raw_token : PyText
  pub session_id : String

-- timedelta(days=SESSION_TTL_DAYS)
abbrev pub session_ttl : ℕ
session_ttl = 30 * 86400000000

-- _normalize_username
unfoldable pub normalize_username : (PyText → PyText) → PyText → PyText
normalize_username lower username = lower (strip username)

module _ (sha256 : PyText → String) where
  -- the session of _create_session_response
  unfoldable pub session_data : Drawn → ℕ → AuthAccountRecordData → AuthSessionRecordData
  session_data drawn now account = record {
    id = drawn.session_id;
    child_account_id = account.id;
    token_hash = sha256 drawn.raw_token;
    created_at = now;
    expires_at = now + session_ttl;
    revoked_at = none;
  }

  -- `get_account_by_id(account.id) or account`
  unfoldable pub refreshed : AuthAccountRecordData → InMemoryAuthRepository → AuthAccountRecordData
  refreshed account repo = elim (lookup account.id repo.accounts_by_id) [
    | none ↦ account
    | some a ↦ a
  ]

  -- _create_session_response
  unfoldable pub create_session_response :
      Drawn
      → ℕ
      → AuthAccountRecordData
      → InMemoryAuthRepository
      → Reply AuthSessionResponse × InMemoryAuthRepository
  unfolding session_data
  create_session_response drawn now account repo =
      let after = create_session (session_data drawn now account) repo in
      (
        Reply.returned (record {
          token = drawn.raw_token;
          expires_at = now + session_ttl;
          account = refreshed account after;
        }),
        after,
      )

  -- `if account is None` of account_for_token
  unfoldable pub account_found : Option AuthAccountRecordData → Reply AuthAccountRecordData
  account_found none = Reply.raised AuthServiceError.token_invalid
  account_found (some a) = Reply.returned a

  -- the checks of account_for_token, in their order
  unfoldable pub account_of_session :
      ℕ → Option AuthSessionRecordData → InMemoryAuthRepository → Reply AuthAccountRecordData
  unfolding account_found
  account_of_session now none repo = Reply.raised AuthServiceError.token_invalid
  account_of_session now (some s) repo = elim s.revoked_at [
    | some t ↦ Reply.raised AuthServiceError.token_invalid
    | none ↦
        if leb s.expires_at now
        then Reply.raised AuthServiceError.token_expired
        else account_found (lookup s.child_account_id repo.accounts_by_id)
  ]

  -- account_for_token
  unfoldable pub account_for_token :
      ℕ → PyText → InMemoryAuthRepository → Reply AuthAccountRecordData
  unfolding account_of_session
  account_for_token now token repo =
      account_of_session now (lookup (sha256 token) repo.sessions_by_hash) repo

  -- logout
  unfoldable pub logout : ℕ → PyText → InMemoryAuthRepository → Bool × InMemoryAuthRepository
  logout now token repo = revoke_session (sha256 token) now repo

  module _ (lower : PyText → PyText) (hash_password : PyText → PyText)
      (verify : PyText → PyText → Bool) where
    -- the account that register makes
    unfoldable pub new_account : String → String → AuthRequest → AuthAccountRecordData
    unfolding normalize_username
    new_account id child_id r = record {
      id = id;
      child_id = child_id;
      username = normalize_username lower r.username;
      password_hash = hash_password r.password;
      created_by_guardian = true;
      last_login_at = none;
    }

    -- the end of register, behind the creation of the account
    unfoldable pub register_as :
        Drawn
        → ℕ
        → AuthAccountRecordData
        → Option InMemoryAuthRepository
        → InMemoryAuthRepository
        → Reply AuthSessionResponse × InMemoryAuthRepository
    register_as drawn now account none repo = (Reply.raised AuthServiceError.account_exists, repo)
    register_as drawn now account (some saved) repo =
        create_session_response drawn now account saved

    -- register
    unfoldable pub register :
        Drawn
        → (id child_id : String) → ℕ
        → AuthRequest
        → InMemoryAuthRepository
        → Reply AuthSessionResponse × InMemoryAuthRepository
    unfolding new_account register_as
    register drawn id child_id now r repo =
        let account = new_account id child_id r in
        register_as drawn now account (create_account account repo) repo

    -- the end of login, behind the search of the account
    unfoldable pub login_as :
        Drawn
        → ℕ
        → AuthRequest
        → Option AuthAccountRecordData
        → InMemoryAuthRepository
        → Reply AuthSessionResponse × InMemoryAuthRepository
    login_as drawn now r none repo = (Reply.raised AuthServiceError.invalid_credentials, repo)
    login_as drawn now r (some account) repo =
        if not (verify r.password account.password_hash)
        then (Reply.raised AuthServiceError.invalid_credentials, repo)
        else create_session_response drawn now account repo

    -- login
    unfoldable pub login :
        Drawn
        → ℕ
        → AuthRequest
        → InMemoryAuthRepository
        → Reply AuthSessionResponse × InMemoryAuthRepository
    unfolding login_as
    login drawn now r repo =
        login_as drawn now r
          (lookup_name (normalize_username lower r.username) repo.accounts_by_username) repo
