-- ===== src/Service/Password.antt =====
-- internal/identra/service_password.go: registration and login with a password.
pub mod Login
use identra.Common.{String, ◌==◌, Bool, true, false, ◌||◌, Option, none, some, if◌then◌else◌}
use identra.Common.Exec.{Result, ok, err, Action, pure, raise, run, ◌>>=◌, ◌>>◌, refuse_if}
use identra.Text.{trim_space}
use identra.Security.Tokens.{TokenPair, new_token_pair}
use identra.Service.{
  invalid_argument, not_found, already_exists, failed_precondition, internal, unauthenticated,
  Status, status, Fault, missing, exists, UserModel, Service, Handler, Metadata, attempt,
}
use identra.Service.RateLimit.{rate_limit_keys, email_rate_limit_key}
use identra.Service.Login.{
  limit_guard, note_failure, forget_failures, record_login, too_many_attempts,
}

abbrev pub new_user : String → Option String → UserModel
new_user email hash = record {
  id = "";
  created_at = 0;
  updated_at = 0;
  email = email;
  hashed_password = hash;
  verification_hash = none;
  last_login_at = none;
}

-- The switch on the user store's answer before a registration.
abbrev pub absent_or_refused : Result Fault UserModel → Result Status (Unit {0})
absent_or_refused (ok user) = err (status already_exists "user already exists")
absent_or_refused (err missing) = ok tt
absent_or_refused (err _) = err (status internal "failed to fetch user")

abbrev pub created_or_refused : Result Fault UserModel → Result Status UserModel
created_or_refused (ok user) = ok user
created_or_refused (err exists) = err (status already_exists "user already exists")
created_or_refused (err _) = err (status internal "failed to create user")

-- The switch before a login.
abbrev pub found_or_refused : Result Fault UserModel → Result Status UserModel
found_or_refused (ok user) = ok user
found_or_refused (err missing) = err (status not_found "user not found")
found_or_refused (err _) = err (status internal "failed to fetch user")

abbrev pub hash_or_refused : Option String → Result Status String
hash_or_refused none = err (status failed_precondition "password login not set up for this account")
hash_or_refused (some hash) = ok hash

abbrev pub answer : {W A : Type 0} → Result Status A → Handler W A
answer r w = (r, w)

module _ {W P : Type 0} (s : Service W P) where
  unfoldable pub register_with_password : String → String → Handler W TokenPair
  register_with_password given_email password =
      let email = trim_space given_email in
      do
        refuse_if (email == "" || password == "")
            (status invalid_argument "email and password are required")
        found ← run (s.user_store.get_by_email email)
        answer (absent_or_refused found)
        hash ←
            attempt (s.passwords.hash_password password)
              (status internal "failed to process password")
        created ← run (s.user_store.create (new_user email (some hash)))
        user ← answer (created_or_refused created)
        run (record_login s user)
        attempt (new_token_pair s.runtime s.jwt user.id s.token_cfg)
            (status internal "failed to create token pair")

  -- The part of a login after the password has been compared.
  unfoldable pub finish_login : Metadata → String → UserModel → Bool → Handler W TokenPair
  finish_login md email user false = do
    run (note_failure s.login_rate_limiter (rate_limit_keys s.lower_rune md "login" email))
    raise (status unauthenticated "invalid credentials")
  finish_login md email user true = do
    run (forget_failures s.login_rate_limiter (email_rate_limit_key s.lower_rune "login" email))
    run (record_login s user)
    attempt (new_token_pair s.runtime s.jwt user.id s.token_cfg)
        (status internal "failed to create token pair")

  unfoldable pub login_with_password : Metadata → String → String → Handler W TokenPair
  login_with_password md given_email password =
      let email = trim_space given_email in
      do
        refuse_if (email == "" || password == "")
            (status invalid_argument "email and password are required")
        limit_guard s.login_rate_limiter (rate_limit_keys s.lower_rune md "login" email)
            too_many_attempts
        found ← run (s.user_store.get_by_email email)
        user ← answer (found_or_refused found)
        hash ← answer (hash_or_refused user.hashed_password)
        valid ←
            attempt (λ w. (s.passwords.verify_password password hash, w))
              (status internal "failed to verify password")
        finish_login md email user valid
