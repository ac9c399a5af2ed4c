-- ===== src/Service/Accounts/Handlers.antt =====
-- internal/identra/service_accounts.go: the five handlers.
use Prim.Native.String
use identra.Common.{
  String, ◌==◌, Bool, true, false, ◌||◌, Option, none, some, List, [], ◌∷◌, if◌then◌else◌,
}
use identra.Common.Exec.{Result, ok, err, Action, pure, raise, run, ◌>>=◌, ◌>>◌, refuse_if}
use identra.Text.{trim_space, has_text}
use identra.Security.Tokens.{Token, new_service_token}
use identra.ServiceAccount.{
  Account, AccountError, BootstrapResult, already_exists, not_found, invalid_credential,
  invalid_scope, other, name_required, name_too_long, scope_required, secret_too_long, authenticate,
  create, rotate_credential,
}
use identra.Service
use identra.Service.{
  invalid_argument, resource_exhausted, failed_precondition, internal, unauthenticated, Status,
  status, Fault, RateLimiter, Service, Handler, Metadata, attempt,
}
use identra.Service.Password.{answer}
use identra.Service.Login.{forget_failures}
use identra.Service.Accounts.{
  scope_service_accounts_read, scope_service_accounts_manage, ServiceAccountProto,
  authorize_service_account, record_management_audit,
}

-- The key under which an exchange is limited.
abbrev pub exchange_key : String → String
exchange_key client_id =
    if client_id == "" then "client_id:missing" else String.◌++◌ "client_id:" client_id

-- Here an error of the limiter refuses the request.
abbrev pub closed_or_refused : Result Fault Bool → Result Status (Unit {0})
closed_or_refused (err e) = err (status internal "failed to check service-token rate limit")
closed_or_refused (ok true) = ok tt
closed_or_refused (ok false) = err (status resource_exhausted "too many service-token attempts")

module _ {W : Type 0} where
  unfoldable pub exchange_guard : Option (RateLimiter W) → String → Handler W (Unit {0})
  exchange_guard none key w = (ok tt, w)
  exchange_guard (some limiter) key w =
      let (allowed, w') = limiter.is_allowed key w in (closed_or_refused allowed, w')

  unfoldable pub note_exchange : Option (RateLimiter W) → String → Action W (Unit {0})
  note_exchange none key w = (tt, w)
  note_exchange (some limiter) key w = (tt, (limiter.record_attempt key w).1)

-- The errors of an authentication that count as a failed attempt.
abbrev pub is_wrong_credential : AccountError → Bool
is_wrong_credential invalid_credential = true
is_wrong_credential not_found = true
is_wrong_credential _ = false

-- The answer for an error of `Create` whose text holds one of the three phrases, with that text.
unfoldable pub request_fault : (String → String) → AccountError → Option String
request_fault quote name_required = some "service account name is required"
request_fault quote name_too_long = some "service account name must not exceed 128 characters"
request_fault quote scope_required = some "at least one scope is required"
request_fault quote secret_too_long = some "bootstrap client secret must not exceed 512 characters"
request_fault quote (invalid_scope value) = some (String.◌++◌ "invalid scope " (quote value))
request_fault quote (other text) =
    if has_text text "required" || has_text text "invalid scope" || has_text text "must not exceed"
    then some text
    else none
request_fault quote _ = none

refused_request : Option String → Status
refused_request (some text) = status invalid_argument text
refused_request none = status internal "failed to create service account"

unfoldable pub create_refusal : (String → String) → AccountError → Status
unfolding refused_request
create_refusal quote already_exists = status Service.already_exists "service account already exists"
create_refusal quote e = refused_request (request_fault quote e)

abbrev pub created_account :
    (String → String) → Result AccountError BootstrapResult → Result Status BootstrapResult
created_account quote (ok result) = ok result
created_account quote (err e) = err (create_refusal quote e)

-- The error of `Disable` and of `RotateCredential`, with the message for any other than not-found.
abbrev pub account_or_refused : {A : Type 0} → String → Result AccountError A → Result Status A
account_or_refused message (ok a) = ok a
account_or_refused message (err not_found) =
    err (status Service.not_found "active service account not found")
account_or_refused message (err _) = err (status internal message)

-- ServiceAccountCredential
pub record ServiceAccountCredential : Type 0 where
  pub client_id : String
  pub client_secret : String

module _ {W P : Type 0} (s : Service W P) where
  -- The part of an exchange after the authentication.
  unfoldable pub finish_exchange : String → Result AccountError Account → Handler W Token
  finish_exchange key (ok account) = do
    run (forget_failures s.service_token_rate_limiter key)
    attempt (new_service_token s.runtime s.jwt account.id account.scopes s.token_cfg)
        (status internal "failed to issue service token")
  finish_exchange key (err e) =
      if is_wrong_credential e
      then (do
        run (note_exchange s.service_token_rate_limiter key)
        raise (status unauthenticated "invalid service-account credential"))
      else raise (status internal "failed to authenticate service account")

  unfoldable pub exchange_service_token : String → String → Handler W Token
  exchange_service_token given_id secret =
      let key = exchange_key (trim_space given_id) in
      do
        exchange_guard s.service_token_rate_limiter key
        found ← run (authenticate s.runtime s.secrets s.service_account_store given_id secret)
        finish_exchange key found

  unfoldable pub create_service_account :
      Metadata → String → List String → Handler W (ServiceAccountProto × ServiceAccountCredential)
  create_service_account md name scopes = do
    actor ← authorize_service_account s md (scope_service_accounts_manage ∷ [])
    made ← run (create s.runtime s.secrets s.service_account_store name scopes)
    result ← answer (created_account s.quote made)
    run (
        record_management_audit s actor "service_account.create" "service_account"
          result.account.id)
    pure (
      result.account,
      record { client_id = result.account.id; client_secret = result.client_secret },
    )

  unfoldable pub list_service_accounts : Metadata → Handler W (List ServiceAccountProto)
  list_service_accounts md = do
    _ ←
        authorize_service_account s md
          (scope_service_accounts_read ∷ scope_service_accounts_manage ∷ [])
    attempt s.service_account_store.list (status internal "failed to list service accounts")

  unfoldable pub disable_service_account : Metadata → String → Handler W ServiceAccountProto
  disable_service_account md given_id =
      let client_id = trim_space given_id in
      do
        actor ← authorize_service_account s md (scope_service_accounts_manage ∷ [])
        refuse_if (client_id == "") (status invalid_argument "client ID is required")
        refuse_if (client_id == actor.id)
            (status failed_precondition "a service account cannot disable itself")
        now ← run s.runtime.now
        disabled ← run (s.service_account_store.disable client_id now)
        account ← answer (account_or_refused "failed to disable service account" disabled)
        run (record_management_audit s actor "service_account.disable" "service_account" account.id)
        pure account

  unfoldable pub rotate_service_account_secret :
      Metadata → String → Handler W ServiceAccountCredential
  rotate_service_account_secret md given_id =
      let client_id = trim_space given_id in
      do
        actor ← authorize_service_account s md (scope_service_accounts_manage ∷ [])
        refuse_if (client_id == "") (status invalid_argument "client ID is required")
        rotated ← run (rotate_credential s.runtime s.secrets s.service_account_store client_id)
        secret ← answer (account_or_refused "failed to rotate service-account secret" rotated)
        run (
            record_management_audit s actor "service_account.rotate_secret" "service_account"
              client_id)
        pure (record { client_id = client_id; client_secret = secret })
