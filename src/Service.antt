-- ===== src/Service.antt =====
-- internal/identra: the data that the handlers share, the collaborators that they are given, and
-- the service record.
pub mod Blocks
pub mod Limits
pub mod RateLimit
pub mod Session
pub mod Login
pub mod Password
pub mod Accounts
pub mod Users
pub mod Providers
pub mod Oauth
pub mod CurrentUser
pub mod Pages
pub mod EmailCode
pub mod Management
use Prim.Native.Char.{Char}
use identra.Common.{ℕ, String, Bool, Option, List}
use identra.Common.Exec.{Result, Action, Exec, err, ok}
use identra.ServiceAccount
use identra.Security.Keys.{PublicKey, KeyManager}
use identra.Security.Tokens.{TokenConfig, TokenPair, Runtime, Jwt}

-- google.golang.org/grpc/codes, as far as the handlers use them
pub data Code : Type 0 where
  invalid_argument not_found already_exists permission_denied resource_exhausted : Code
  failed_precondition internal unauthenticated : Code

-- status.Error
pub record Status : Type 0 where
  pub code : Code
  pub message : String

abbrev pub status : Code → String → Status
status code message = record { code = code; message = message }

-- ErrNotFound, ErrAlreadyExists, and any other error of a collaborator
pub data Fault : Type 0 where
  missing exists other : Fault

-- Incoming gRPC metadata: the values of a header.
abbrev pub Metadata : Type 0
Metadata = String → List String

-- UserModel; times are nanoseconds, and `zero` is the zero time.
pub record UserModel : Type 0 where
  pub id : String
  pub created_at : ℕ
  pub updated_at : ℕ
  pub email : String
  pub hashed_password : Option String
  pub verification_hash : Option String
  pub last_login_at : Option ℕ

pub record ExternalIdentityModel : Type 0 where
  pub id : String
  pub user_id : String
  pub provider : String
  pub provider_user_id : String
  pub created_at : ℕ
  pub updated_at : ℕ

pub record OAuthState : Type 0 where
  pub provider : String
  pub redirect_url : String

pub record EmailMessage : Type 0 where
  pub to_emails : List String
  pub subject : String
  pub body : String
  pub is_html : Bool

-- The collaborators of the service, on the state `W` of everything outside it. `W` stands for the
-- databases, for the processes that share them, and for time: an operation may fail, and it may
-- find what another request has written since the last one.

-- `create` and `update` answer the model as they leave the one that their caller points to.
pub record UserStore (W : Type 0) : Type 0 where
  pub create : UserModel → Action W (Result Fault UserModel)
  pub get_by_id : String → Action W (Result Fault UserModel)
  pub get_by_email : String → Action W (Result Fault UserModel)
  pub update : UserModel → Action W (Result Fault UserModel)
  pub set_password : String → String → Action W (Result Fault (Unit {0}))
  pub delete : String → Action W (Result Fault (Unit {0}))
  pub list : ℕ → ℕ → Action W (Result Fault (List UserModel))
  pub count : Action W (Result Fault ℕ)

pub record ExternalIdentityStore (W : Type 0) : Type 0 where
  pub create : ExternalIdentityModel → Action W (Result Fault (Unit {0}))
  pub get_by_provider_id : String → String → Action W (Result Fault ExternalIdentityModel)
  pub get_by_user_id : String → Action W (Result Fault (List ExternalIdentityModel))

pub record EmailCodeStore (W : Type 0) : Type 0 where
  pub set : String → String → Action W (Result Fault (Unit {0}))
  pub consume : String → String → Action W (Result Fault Bool)

-- `consume` answers `none` where Go's result has `ok == false`.
pub record OAuthStateStore (W : Type 0) : Type 0 where
  pub add : String → String → String → Action W (Result Fault (Unit {0}))
  pub consume : String → Action W (Result Fault (Option OAuthState))

pub record EmailSender (W : Type 0) : Type 0 where
  pub send_email : EmailMessage → Action W (Result Fault (Unit {0}))

pub record RateLimiter (W : Type 0) : Type 0 where
  pub is_allowed : String → Action W (Result Fault Bool)
  pub record_attempt : String → Action W (Result Fault (Unit {0}))
  pub reset : String → Action W (Result Fault (Unit {0}))

pub record RefreshTokenRevocationStore (W : Type 0) : Type 0 where
  pub revoke : String → ℕ → Action W (Result Fault (Unit {0}))
  pub is_revoked : String → Action W (Result Fault Bool)

-- internal/security/password.go
pub record PasswordHasher (W : Type 0) : Type 0 where
  pub hash_password : String → Action W (Result Fault String)
  pub verify_password : String → String → Result Fault Bool

pub record AuditEvent : Type 0 where
  pub id : String
  pub occurred_at : ℕ
  pub actor_type : String
  pub actor_id : String
  pub action : String
  pub resource_type : String
  pub resource_id : String
  pub metadata : List (String × String)

pub record AuditStore (W : Type 0) : Type 0 where
  pub record_event : AuditEvent → Action W (Result Fault (Unit {0}))
  pub list : ℕ → ℕ → Action W (Result Fault (List AuditEvent))

-- The fields of `Service` that the modelled handlers read; `none` is a nil collaborator.
pub record Service (W P : Type 0) : Type 0 where
  pub email_code_store : EmailCodeStore W
  pub oauth_state_store : OAuthStateStore W
  pub user_store : UserStore W
  pub external_identity_store : ExternalIdentityStore W
  pub service_account_store : ServiceAccount.Store W
  pub token_cfg : TokenConfig P
  pub oauth_fetch_email_if_missing : Bool
  pub mailer : Option (EmailSender W)
  pub login_rate_limiter : Option (RateLimiter W)
  pub send_code_rate_limiter : Option (RateLimiter W)
  pub refresh_token_revocations : Option (RefreshTokenRevocationStore W)
  pub service_token_rate_limiter : Option (RateLimiter W)
  -- `NewService` refuses a nil audit store, and the handlers still ask
  pub audit_store : Option (AuditStore W)
  -- what the handlers call directly: the packages `security` and `jwt`, the clock, random bytes
  pub passwords : PasswordHasher W
  pub jwt : Jwt P
  pub runtime : Runtime W
  pub secrets : ServiceAccount.Secrets W
  -- unicode.ToLower
  pub lower_rune : Char → Char
  -- strconv.Quote, which `%q` prints
  pub quote : String → String

-- A handler's result: a response, or the status that it returns as its error.
abbrev pub Handler : Type 0 → Type 0 → Type 0
Handler W A = Exec W Status A

abbrev pub or_status : {E A : Type 0} → Status → Result E A → Result Status A
or_status s (ok a) = ok a
or_status s (err e) = err s

-- A call whose every error becomes one status.
unfoldable pub attempt : {W E A : Type 0} → Exec W E A → Status → Handler W A
attempt m s w = (or_status s (m w).0, (m w).1)
