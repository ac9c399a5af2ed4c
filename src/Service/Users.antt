-- ===== src/Service/Users.antt =====
-- internal/identra/user_management.go: the handlers that change users.
use identra.Common.{String, ◌==◌, Bool, true, false, ◌||◌, Option, none, some, [], ◌∷◌, ℕ}
use identra.Common.Exec.{Result, ok, err, pure, run, ◌>>=◌, ◌>>◌, refuse_if}
use identra.Text.{trim_space}
use identra.Service.{
  invalid_argument, not_found, internal, Status, status, Fault, missing, UserModel, Service,
  Handler, Metadata, attempt,
}
use identra.Service.Password.{answer, new_user, created_or_refused}
use identra.Service.Accounts.{authorize_service_account, record_management_audit}

abbrev pub scope_users_manage : String
scope_users_manage = "identra.users.manage"

-- ManagedUser
pub record ManagedUser : Type 0 where
  pub id : String
  pub email : String
  pub password_login_enabled : Bool
  pub created_at : ℕ
  pub updated_at : ℕ
  pub last_login_at : Option ℕ

abbrev pub is_some : {A : Type 0} → Option A → Bool
is_some none = false
is_some (some a) = true

unfoldable pub managed_user_proto : UserModel → ManagedUser
managed_user_proto user = record {
  id = user.id;
  email = user.email;
  password_login_enabled = is_some user.hashed_password;
  created_at = user.created_at;
  updated_at = user.updated_at;
  last_login_at = user.last_login_at;
}

abbrev pub user_or_refused : {A : Type 0} → String → Result Fault A → Result Status A
user_or_refused message (ok a) = ok a
user_or_refused message (err missing) = err (status not_found "user not found")
user_or_refused message (err _) = err (status internal message)

module _ {W P : Type 0} (s : Service W P) where
  unfoldable pub create_password_user : Metadata → String → String → Handler W ManagedUser
  create_password_user md given_email password =
      let email = trim_space given_email in
      do
        actor ← authorize_service_account s md (scope_users_manage ∷ [])
        refuse_if (email == "" || password == "")
            (status invalid_argument "email and password are required")
        hash ←
            attempt (s.passwords.hash_password password)
              (status internal "failed to process password")
        created ← run (s.user_store.create (new_user email (some hash)))
        user ← answer (created_or_refused created)
        run (record_management_audit s actor "user.create" "user" user.id)
        pure (managed_user_proto user)

  unfoldable pub delete_user : Metadata → String → Handler W (Unit {0})
  delete_user md given_id =
      let user_id = trim_space given_id in
      do
        actor ← authorize_service_account s md (scope_users_manage ∷ [])
        refuse_if (user_id == "") (status invalid_argument "user ID is required")
        deleted ← run (s.user_store.delete user_id)
        answer (user_or_refused "failed to delete user" deleted)
        run (record_management_audit s actor "user.delete" "user" user_id)

  unfoldable pub reset_user_password : Metadata → String → String → Handler W ManagedUser
  reset_user_password md given_id password =
      let user_id = trim_space given_id in
      do
        actor ← authorize_service_account s md (scope_users_manage ∷ [])
        refuse_if (user_id == "" || password == "")
            (status invalid_argument "user ID and password are required")
        hash ←
            attempt (s.passwords.hash_password password)
              (status internal "failed to process password")
        changed ← run (s.user_store.set_password user_id hash)
        answer (user_or_refused "failed to reset password" changed)
        user ← attempt (s.user_store.get_by_id user_id) (status internal "failed to read user")
        run (record_management_audit s actor "user.reset_password" "user" user_id)
        pure (managed_user_proto user)
