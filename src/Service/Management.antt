-- ===== src/Service/Management.antt =====
-- The calls of the management API that internal/identra/service_accounts.go, user_management.go and
-- audit.go serve on behalf of a service account: each method of ServiceAccountService but ExchangeServiceToken, and of
-- UserManagementService and AuditService.
pub mod Access
use identra.Common.{ℕ, String, List, [], ◌∷◌}
use identra.Common.Exec.{◌>>=◌, pure}
use identra.Service.{AuditStore, Service, Handler, Metadata}
use identra.Service.Accounts.{
  scope_service_accounts_read, scope_service_accounts_manage, ServiceAccountProto,
}
use identra.Service.Accounts.Handlers.{
  ServiceAccountCredential, create_service_account, list_service_accounts, disable_service_account,
  rotate_service_account_secret,
}
use identra.Service.Users.{
  scope_users_manage, ManagedUser, create_password_user, delete_user, reset_user_password,
}
use identra.Service.Pages.{
  ℤ, Page, AuditEventProto, scope_users_read, scope_audit_read, list_users, list_audit_events,
}

-- A request, with its fields.
pub data Request : Type 0 where
  create_account : String → List String → Request
  list_accounts : Request
  disable_account rotate_secret : String → Request
  create_user : String → String → Request
  remove_user : String → Request
  list_user_page : ℤ → String → Request
  list_event_page : ℕ → String → Request
  reset_password : String → String → Request

pub data Reply : Type 0 where
  created_account : ServiceAccountProto → ServiceAccountCredential → Reply
  accounts : List ServiceAccountProto → Reply
  disabled : ServiceAccountProto → Reply
  rotated : ServiceAccountCredential → Reply
  user : ManagedUser → Reply
  removed : Reply
  user_page : Page ManagedUser → Reply
  event_page : Page AuditEventProto → Reply

-- The scopes of which the caller needs one.
abbrev pub required_scopes : Request → List String
required_scopes (create_account _ _) = scope_service_accounts_manage ∷ []
required_scopes list_accounts = scope_service_accounts_read ∷ scope_service_accounts_manage ∷ []
required_scopes (disable_account _) = scope_service_accounts_manage ∷ []
required_scopes (rotate_secret _) = scope_service_accounts_manage ∷ []
required_scopes (create_user _ _) = scope_users_manage ∷ []
required_scopes (remove_user _) = scope_users_manage ∷ []
required_scopes (reset_password _ _) = scope_users_manage ∷ []
required_scopes (list_user_page _ _) = scope_users_read ∷ scope_users_manage ∷ []
required_scopes (list_event_page _ _) = scope_audit_read ∷ []

-- `audit_store` is the store of the service, which `NewService` has checked.
module _ {W P : Type 0} (s : Service W P) (audit_store : AuditStore W) (md : Metadata) where
  -- The server hands each request to its method of `Service`.
  unfoldable pub serve : Request → Handler W Reply
  serve (create_account name scopes) = do
    (account, credential) ← create_service_account s md name scopes
    pure (created_account account credential)
  serve list_accounts = do found ← list_service_accounts s md; pure (accounts found)
  serve (disable_account client_id) = do
    account ← disable_service_account s md client_id
    pure (disabled account)
  serve (rotate_secret client_id) = do
    credential ← rotate_service_account_secret s md client_id
    pure (rotated credential)
  serve (create_user email password) = do
    made ← create_password_user s md email password
    pure (user made)
  serve (remove_user user_id) = do _ ← delete_user s md user_id; pure removed
  serve (reset_password user_id password) = do
    changed ← reset_user_password s md user_id password
    pure (user changed)
  serve (list_user_page size token) = do page ← list_users s md size token; pure (user_page page)
  serve (list_event_page size token) = do
    page ← list_audit_events s audit_store md size token
    pure (event_page page)
