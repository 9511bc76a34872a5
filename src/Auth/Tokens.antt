-- ===== src/Auth/Tokens.antt =====
-- auth_service.py: the life of a token, from `_create_session_response` over `account_for_token` to `logout`.
use ai_child.Prelude.{
  ℕ, ◌+◌, ◌≡◌, Bool, true, false, not, List, [], ◌∷◌, Option, none, some, String, All, lookup,
  insert, lookup-insert, str_eq, eq_refl, leb, if◌then◌else◌, arith, refl, ap, ◌∙◌, sym, subst,
  if_of,
}
use ai_child.PyText.{PyText}
use ai_child.Auth.{
  AuthAccountRecordData, AuthSessionRecordData, InMemoryAuthRepository, create_account,
  create_unless, added, create_session, note_login, logged_in, revoke_session, revoke_found,
}
use ai_child.Auth.Service.{
  AuthServiceError, Reply, AuthRequest, AuthSessionResponse, Drawn, session_ttl, session_data,
  create_session_response, account_of_session, account_found, account_for_token, new_account,
  register_as, register, login_as, login, logout, normalize_username,
}
use ai_child.Auth.Names.{lookup_name}

-- a call of the service
pub data Call : Type 0 where
  registers : Drawn → String → String → ℕ → AuthRequest → Call
  logs_in : Drawn → ℕ → AuthRequest → Call
  logs_out : ℕ → PyText → Call

module _ (sha256 : PyText → String) where
  -- the sessions after a new one
  sessions-create_session :
      (s : AuthSessionRecordData) (repo : InMemoryAuthRepository)
      → (create_session s repo).sessions_by_hash ≡ insert s.token_hash s repo.sessions_by_hash
  unfolding create_session
  sessions-create_session s repo = noted (lookup s.child_account_id repo.accounts_by_id)
    where
      noted :
          (o : Option AuthAccountRecordData)
          → (note_login s.created_at o (record repo {
            sessions_by_hash = insert s.token_hash s repo.sessions_by_hash;
          })).sessions_by_hash
            ≡ insert s.token_hash s repo.sessions_by_hash
      noted none = unfold note_login in refl
      noted (some a) = unfold note_login in refl

  session_found :
      (s : AuthSessionRecordData) (repo : InMemoryAuthRepository)
      → lookup s.token_hash (create_session s repo).sessions_by_hash ≡ some s
  session_found s repo =
      ap (lookup s.token_hash) (sessions-create_session s repo)
      ∙ ground (
        arith,
        lookup-insert s.token_hash s.token_hash s repo.sessions_by_hash,
        eq_refl s.token_hash,
      )

  account_noted :
      (s : AuthSessionRecordData) (a : AuthAccountRecordData) (repo : InMemoryAuthRepository)
      → lookup s.child_account_id repo.accounts_by_id ≡ some a
      → lookup a.id (create_session s repo).accounts_by_id ≡ some (logged_in s.created_at a)
  unfolding create_session note_login
  account_noted s a repo known =
      ap
        (λ o.
          lookup a.id
            (note_login s.created_at o (record repo {
              sessions_by_hash = insert s.token_hash s repo.sessions_by_hash;
            })).accounts_by_id)
        known
      ∙ ground (
        arith,
        lookup-insert a.id a.id (logged_in s.created_at a) repo.accounts_by_id,
        eq_refl a.id,
      )

  -- A token that is drawn for a known account stands for it, as of its last login, for 30 days; from then
  -- on it is expired.
  pub token_lifetime :
      (drawn : Drawn) (now later : ℕ) (a : AuthAccountRecordData) (repo : InMemoryAuthRepository)
      → lookup a.id repo.accounts_by_id ≡ some a
      → account_for_token sha256 later drawn.raw_token
          (create_session_response sha256 drawn now a repo).1
        ≡ (if leb (now + session_ttl) later
            then Reply.raised AuthServiceError.token_expired
            else Reply.returned (logged_in now a))
  unfolding account_for_token account_of_session account_found create_session_response session_data
  token_lifetime drawn now later a repo known =
      let s = session_data sha256 drawn now a in
      let after = create_session s repo in
      ap (λ o. account_of_session sha256 later o after) (session_found s repo)
      ∙ ap
          (λ o.
            if leb (now + session_ttl) later
            then Reply.raised AuthServiceError.token_expired
            else account_found sha256 o)
          (account_noted s a repo known)

  -- a call that does not draw the token again
  abbrev pub IsOther : PyText → Call → Type 0
  IsOther token (Call.registers drawn id child_id now r) =
      str_eq (sha256 drawn.raw_token) (sha256 token) ≡ false
  IsOther token (Call.logs_in drawn now r) = str_eq (sha256 drawn.raw_token) (sha256 token) ≡ false
  IsOther token (Call.logs_out now other) = Unit

  -- a session that is there and revoked
  abbrev Revoked : Option AuthSessionRecordData → Type 0
  Revoked none = ⊥
  Revoked (some s) = (t : ℕ) × (s.revoked_at ≡ some t)

  abbrev IsRevoked : PyText → InMemoryAuthRepository → Type 0
  IsRevoked token repo = Revoked (lookup (sha256 token) repo.sessions_by_hash)

  create_session-IsRevoked :
      (token : PyText) (s : AuthSessionRecordData) (repo : InMemoryAuthRepository)
      → str_eq s.token_hash (sha256 token) ≡ false
      → IsRevoked token repo
      → IsRevoked token (create_session s repo)
  create_session-IsRevoked token s repo other h =
      subst Revoked
        (sym (
          ap (lookup (sha256 token)) (sessions-create_session s repo)
          ∙ ground (arith, lookup-insert s.token_hash (sha256 token) s repo.sessions_by_hash)))
        h

  revoke_found-IsRevoked :
      (token : PyText) (hash : String) (now : ℕ) (o : Option AuthSessionRecordData)
      (repo : InMemoryAuthRepository)
      → IsRevoked token repo
      → IsRevoked token (revoke_found hash now o repo).1
  unfolding revoke_found
  revoke_found-IsRevoked token hash now none repo h = h
  revoke_found-IsRevoked token hash now (some s) repo h =
      subst Revoked
        (sym (
          lookup-insert hash (sha256 token) (record s { revoked_at = some now })
            repo.sessions_by_hash))
        (if_of Revoked (str_eq hash (sha256 token)) (λ _. (now, refl)) (λ _. h))

  -- a session that is there is revoked by its logout
  logout-IsRevoked :
      (token : PyText) (now : ℕ) (o : Option AuthSessionRecordData) (repo : InMemoryAuthRepository)
      → (revoke_found (sha256 token) now o repo).0 ≡ true
      → IsRevoked token (revoke_found (sha256 token) now o repo).1
  unfolding revoke_found
  logout-IsRevoked token now none repo h = ground arith
  logout-IsRevoked token now (some s) repo h = subst Revoked (sym e) (now, refl)
    where
      e :
          lookup
            (sha256 token)
            (insert (sha256 token) (record s { revoked_at = some now }) repo.sessions_by_hash)
          ≡ some (record s { revoked_at = some now })
      e = ground (
        arith,
        lookup-insert (sha256 token) (sha256 token) (record s { revoked_at = some now })
            repo.sessions_by_hash,
        eq_refl (sha256 token),
      )

  -- a revoked session stands for no account
  stays_invalid :
      (now : ℕ) (o : Option AuthSessionRecordData) (repo : InMemoryAuthRepository)
      → Revoked o
      → account_of_session sha256 now o repo ≡ Reply.raised AuthServiceError.token_invalid
  unfolding account_of_session
  stays_invalid now none repo h = elim h [ ]
  stays_invalid now (some s) repo h = rw h.1 refl

  module _ (lower : PyText → PyText) (hash_password : PyText → PyText)
      (verify : PyText → PyText → Bool) where
    abbrev pub step : Call → InMemoryAuthRepository → InMemoryAuthRepository
    step (Call.registers drawn id child_id now r) repo =
        (register sha256 lower hash_password verify drawn id child_id now r repo).1
    step (Call.logs_in drawn now r) repo =
        (login sha256 lower hash_password verify drawn now r repo).1
    step (Call.logs_out now token) repo = (logout sha256 now token repo).1

    abbrev pub run : List Call → InMemoryAuthRepository → InMemoryAuthRepository
    run [] repo = repo
    run (call ∷ calls) repo = run calls (step call repo)

    register_as-IsRevoked :
        (token : PyText) (drawn : Drawn) (now : ℕ) (a : AuthAccountRecordData)
        (o : Option AuthAccountRecordData) (repo : InMemoryAuthRepository)
        → str_eq (sha256 drawn.raw_token) (sha256 token) ≡ false
        → IsRevoked token repo
        → IsRevoked token
            (register_as sha256 lower hash_password verify drawn now a
              (create_unless o a repo)
              repo).1
    unfolding register_as create_unless create_session_response session_data added
    register_as-IsRevoked token drawn now a none repo other h =
        create_session-IsRevoked token (session_data sha256 drawn now a) (added a repo) other h
    register_as-IsRevoked token drawn now a (some b) repo other h = h

    login_as-IsRevoked :
        (token : PyText) (drawn : Drawn) (now : ℕ) (r : AuthRequest)
        (o : Option AuthAccountRecordData) (repo : InMemoryAuthRepository)
        → str_eq (sha256 drawn.raw_token) (sha256 token) ≡ false
        → IsRevoked token repo
        → IsRevoked token (login_as sha256 lower hash_password verify drawn now r o repo).1
    unfolding login_as create_session_response session_data
    login_as-IsRevoked token drawn now r none repo other h = h
    login_as-IsRevoked token drawn now r (some a) repo other h =
        if_of (λ (x : Reply AuthSessionResponse × InMemoryAuthRepository). IsRevoked token x.1)
          (not (verify r.password a.password_hash)) (λ _. h)
          (λ _. create_session-IsRevoked token (session_data sha256 drawn now a) repo other h)

    step-IsRevoked :
        (token : PyText) (call : Call) (repo : InMemoryAuthRepository)
        → IsOther token call
        → IsRevoked token repo
        → IsRevoked token (step call repo)
    unfolding register login logout create_account revoke_session
    step-IsRevoked token (Call.registers drawn id child_id now r) repo other h =
        let a = new_account sha256 lower hash_password verify id child_id r in
        register_as-IsRevoked token drawn now a (lookup_name a.username repo.accounts_by_username)
          repo other h
    step-IsRevoked token (Call.logs_in drawn now r) repo other h =
        login_as-IsRevoked token drawn now r
          (lookup_name (normalize_username lower r.username) repo.accounts_by_username) repo other h
    step-IsRevoked token (Call.logs_out now gone) repo other h =
        revoke_found-IsRevoked token (sha256 gone) now (lookup (sha256 gone) repo.sessions_by_hash)
          repo h

    run-IsRevoked :
        (token : PyText) (calls : List Call) (repo : InMemoryAuthRepository)
        → All (IsOther token) calls
        → IsRevoked token repo
        → IsRevoked token (run calls repo)
    run-IsRevoked token [] repo others h = h
    run-IsRevoked token (call ∷ calls) repo others h =
        run-IsRevoked token calls (step call repo) others.1
          (step-IsRevoked token call repo others.0 h)

    -- Once a token was logged out, it is invalid at any time, after any calls that do not draw a token with
    -- its hash again.
    pub logged_out_for_good :
        (token : PyText) (now later : ℕ) (calls : List Call) (repo : InMemoryAuthRepository)
        → (logout sha256 now token repo).0 ≡ true
        → All (IsOther token) calls
        → account_for_token sha256 later token (run calls (logout sha256 now token repo).1)
          ≡ Reply.raised AuthServiceError.token_invalid
    unfolding account_for_token logout revoke_session
    logged_out_for_good token now later calls repo out others =
        let gone =
          logout-IsRevoked token now (lookup (sha256 token) repo.sessions_by_hash) repo out in
        stays_invalid later _ _
          (run-IsRevoked token calls (logout sha256 now token repo).1 others gone)
