-- ===== src/Auth/Login.antt =====
-- auth_service.py: `register`, and what it means for the calls behind it.
use ai_child.Prelude.{
  ℕ, ◌≡◌, Bool, true, false, none, some, String, lookup, insert, lookup-insert, eq_refl, arith, ap,
  ◌∙◌,
}
use ai_child.PyText.{PyText}
use ai_child.Auth.{
  AuthAccountRecordData, InMemoryAuthRepository, create_account, create_session, note_login,
  logged_in, added, create_unless,
}
use ai_child.Auth.Names.{lookup_name, insert_name, lookup_name-insert_name}
use ai_child.Auth.Service.{
  AuthServiceError, Reply, AuthRequest, AuthSessionResponse, Drawn, session_data,
  create_session_response, normalize_username, new_account, register, login_as, login, register_as,
}

abbrev pub is_returned : {A : Type 0} → Reply A → Bool
is_returned (Reply.returned a) = true
is_returned (Reply.raised e) = false

module _ (sha256 : PyText → String) where
  -- a session of a new account notes the login under its name
  name_of_session :
      (drawn : Drawn) (now : ℕ) (a : AuthAccountRecordData) (repo : InMemoryAuthRepository)
      → lookup_name a.username
          (create_session (session_data sha256 drawn now a) (added a repo)).accounts_by_username
        ≡ some (logged_in now a)
  unfolding create_session session_data added
  name_of_session drawn now a repo =
      ap
        (λ o.
          lookup_name a.username
            (note_login now o (record (added a repo) {
              sessions_by_hash =
                  insert (sha256 drawn.raw_token) (session_data sha256 drawn now a)
                    repo.sessions_by_hash;
            })).accounts_by_username)
        found
      ∙ noted
    where
      found : lookup a.id (insert a.id a repo.accounts_by_id) ≡ some a
      found = ground (arith, lookup-insert a.id a.id a repo.accounts_by_id, eq_refl a.id)

      noted :
          lookup_name a.username
            (note_login now (some a) (record (added a repo) {
              sessions_by_hash =
                  insert
                    (sha256 drawn.raw_token)
                    (session_data sha256 drawn now a)
                    repo.sessions_by_hash;
            })).accounts_by_username
          ≡ some (logged_in now a)
      noted =
          lookup_name-insert_name a.username (logged_in now a)
            (insert_name a.username a repo.accounts_by_username)

module _ (sha256 : PyText → String) (lower : PyText → PyText) (hash_password : PyText → PyText)
    (verify : PyText → PyText → Bool) where
  -- a login at an account that is found
  is_returned-login_as :
      (drawn : Drawn) (now : ℕ) (r : AuthRequest) (a : AuthAccountRecordData)
      (repo : InMemoryAuthRepository)
      → is_returned (login_as sha256 lower hash_password verify drawn now r (some a) repo).0
        ≡ verify r.password a.password_hash
  unfolding login_as create_session_response
  is_returned-login_as drawn now r a repo = ground arith

  -- the registration of a free name
  register-fresh :
      (drawn : Drawn) (id child_id : String) (now : ℕ) (r : AuthRequest)
      (repo : InMemoryAuthRepository)
      → let a = new_account sha256 lower hash_password verify id child_id r in
        lookup_name (normalize_username lower r.username) repo.accounts_by_username ≡ none
        → register sha256 lower hash_password verify drawn id child_id now r repo
          ≡ create_session_response sha256 drawn now a (added a repo)
  unfolding register register_as create_account create_unless
  register-fresh drawn id child_id now r repo fresh =
      let a = new_account sha256 lower hash_password verify id child_id r in
      ap
        (λ o.
          register_as sha256 lower hash_password verify drawn now a (create_unless o a repo) repo)
        fresh

  -- what a registered name is found as
  name_taken_name :
      (drawn : Drawn) (id child_id : String) (now : ℕ) (r r' : AuthRequest)
      (repo : InMemoryAuthRepository)
      → lookup_name (normalize_username lower r.username) repo.accounts_by_username ≡ none
      → normalize_username lower r'.username ≡ normalize_username lower r.username
      → lookup_name
          (normalize_username lower r'.username)
          (register sha256 lower hash_password verify drawn id child_id now r
            repo).1.accounts_by_username
        ≡ some (logged_in now (new_account sha256 lower hash_password verify id child_id r))
  unfolding create_session_response normalize_username new_account create_session
  name_taken_name drawn id child_id now r r' repo fresh same =
      let a = new_account sha256 lower hash_password verify id child_id r in
      let after = (register sha256 lower hash_password verify drawn id child_id now r repo).1 in
      ap (λ u. lookup_name u after.accounts_by_username) same
      ∙ ap
          (λ (x : Reply AuthSessionResponse × InMemoryAuthRepository).
            lookup_name (normalize_username lower r.username) x.1.accounts_by_username)
          (register-fresh drawn id child_id now r repo fresh)
      ∙ name_of_session sha256 drawn now a repo

  -- Once a name that was free is registered, a login under it, however it is written, succeeds exactly if
  -- its password passes against the hash of the registered one, and a further registration of it is refused
  -- and changes nothing.
  pub taken_name :
      (drawn drawn' drawn'' : Drawn) (id id' child_id child_id' : String) (now later : ℕ)
      (r r' : AuthRequest) (repo : InMemoryAuthRepository)
      → lookup_name (normalize_username lower r.username) repo.accounts_by_username ≡ none
      → normalize_username lower r'.username ≡ normalize_username lower r.username
      → let after = (register sha256 lower hash_password verify drawn id child_id now r repo).1 in
        (is_returned (login sha256 lower hash_password verify drawn' later r' after).0
          ≡ verify r'.password (hash_password r.password))
        × (register sha256 lower hash_password verify drawn'' id' child_id' later r' after
            ≡ (Reply.raised AuthServiceError.account_exists, after))
  unfolding login register register_as create_account create_unless logged_in
  taken_name drawn drawn' drawn'' id id' child_id child_id' now later r r' repo fresh same =
      let after = (register sha256 lower hash_password verify drawn id child_id now r repo).1 in
      let a = new_account sha256 lower hash_password verify id child_id r in
      let again = new_account sha256 lower hash_password verify id' child_id' r' in
      let found = name_taken_name drawn id child_id now r r' repo fresh same in
      (
        ap (λ o. is_returned (login_as sha256 lower hash_password verify drawn' later r' o after).0)
              found
            ∙ is_returned-login_as drawn' later r' (logged_in now a) after,
        ap
            (λ o.
              register_as sha256 lower hash_password verify drawn'' later again
                (create_unless o again after) after)
            found,
      )
