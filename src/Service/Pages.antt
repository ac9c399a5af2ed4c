-- ===== src/Service/Pages.antt =====
-- Lists in pages: `ListUsers` and `pageOffset` of internal/identra/user_management.go, and
-- `ListAuditEvents` of audit.go.
pub mod Listing
use identra.Common.{
  ℕ, suc, String, ◌==◌, Bool, true, false, Option, none, some, List, [], ◌∷◌, ◌+◌, ltb, eqb, length,
  take, map, if◌then◌else◌,
}
use identra.Common.Exec.{Result, ok, err, pure, ◌>>=◌}
use identra.Text.{trim_space}
use identra.Text.Decimal.{itoa, atoi_natural}
use identra.Service.{
  invalid_argument, internal, Status, status, Fault, AuditEvent, AuditStore, Service, Handler,
  Metadata, attempt,
}
use identra.Service.Password.{answer}
use identra.Service.Accounts.{authorize_service_account}
use identra.Service.Users.{scope_users_manage, ManagedUser, managed_user_proto}

abbrev pub scope_users_read : String
scope_users_read = "identra.users.read"

abbrev pub scope_audit_read : String
scope_audit_read = "identra.audit.read"

-- A signed number of the API: `pos n` is n, and `negsuc n` is -(n + 1).
pub data ℤ : Type 0 where
  pos negsuc : ℕ → ℤ

pub record Page (A : Type 0) : Type 0 where
  pub items : List A
  pub next_page_token : String

-- The page size of ListUsers.
unfoldable pub users_page_size : ℤ → Result Status ℕ
users_page_size (negsuc n) = err (status invalid_argument "page size must be between 1 and 200")
users_page_size (pos n) =
    if eqb n 0
    then ok 50
    else if ltb 200 n
    then err (status invalid_argument "page size must be between 1 and 200")
    else ok n

abbrev offset_or_refused : Option ℕ → Result Status ℕ
offset_or_refused none = err (status invalid_argument "invalid page token")
offset_or_refused (some offset) = ok offset

unfoldable pub page_offset : String → Result Status ℕ
page_offset token = if trim_space token == "" then ok 0 else offset_or_refused (atoi_natural token)

-- The first items of those that were listed, and the token of the next page where there are more.
unfoldable pub page_of : {A B : Type 0} → (A → B) → ℕ → ℕ → List A → Page B
page_of proto offset size listed =
    if ltb size (length listed)
    then record { items = map proto (take size listed); next_page_token = itoa (offset + size) }
    else record { items = map proto listed; next_page_token = "" }

module _ {W P : Type 0} (s : Service W P) where
  unfoldable pub list_users : Metadata → ℤ → String → Handler W (Page ManagedUser)
  list_users md given_size token = do
    _ ← authorize_service_account s md (scope_users_read ∷ scope_users_manage ∷ [])
    size ← answer (users_page_size given_size)
    offset ← answer (page_offset token)
    listed ← attempt (s.user_store.list offset (suc size)) (status internal "failed to list users")
    pure (page_of managed_user_proto offset size listed)

-- The page size and the offset of ListAuditEvents; its page size is not signed.
unfoldable pub audit_page_size : ℕ → Result Status ℕ
audit_page_size n =
    if eqb n 0
    then ok 50
    else if ltb 200 n
    then err (status invalid_argument "page size must not exceed 200")
    else ok n

unfoldable pub audit_offset : String → Result Status ℕ
audit_offset given =
    let token = trim_space given in
    if token == "" then ok 0 else offset_or_refused (atoi_natural token)

-- AuditActorType of the API
pub data ActorType : Type 0 where
  unspecified system service_account : ActorType

abbrev pub actor_type_of : String → ActorType
actor_type_of name =
    if name == "system"
    then system
    else if name == "service_account"
    then service_account
    else unspecified

-- AuditEvent of the API: the event with the type of its actor in place of the actor's text
abbrev pub AuditEventProto : Type 0
AuditEventProto = ActorType × AuditEvent

abbrev pub audit_event_proto : AuditEvent → AuditEventProto
audit_event_proto event = (actor_type_of event.actor_type, event)

module _ {W P : Type 0} (s : Service W P) (audit_store : AuditStore W) where
  unfoldable pub list_audit_events : Metadata → ℕ → String → Handler W (Page AuditEventProto)
  list_audit_events md given_size token = do
    _ ← authorize_service_account s md (scope_audit_read ∷ [])
    size ← answer (audit_page_size given_size)
    offset ← answer (audit_offset token)
    listed ←
        attempt (audit_store.list offset (suc size)) (status internal "failed to list audit events")
    pure (page_of audit_event_proto offset size listed)
