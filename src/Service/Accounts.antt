-- ===== src/Service/Accounts.antt =====
-- internal/identra/service_accounts.go, and `recordManagementAudit` of audit.go.
pub mod Handlers
pub mod Scopes
pub mod Authorization
pub mod Exchange
use Prim.Native.String
use identra.Common.{
  ℕ, String, ◌==◌, Bool, true, false, not, ◌&&◌, ◌||◌, Option, none, some, List, [], ◌∷◌, any,
  if◌then◌else◌,
}
use identra.Common.Exec.{Result, ok, err, Action, pure, raise, run, ◌>>=◌, ◌>>◌, refuse_if}
use identra.Text.{trim_space, ends_in_star, without_star, has_prefix}
use identra.Security.Tokens.{Claims, Token, TokenError, validate_service_token, new_service_token}
use identra.ServiceAccount
use identra.ServiceAccount.{Account, AccountError, BootstrapResult}
use identra.Service.{
  invalid_argument, not_found, already_exists, permission_denied, resource_exhausted,
  failed_precondition, internal, unauthenticated, Status, status, Fault, RateLimiter, AuditEvent,
  AuditStore, Service, Handler, Metadata, attempt,
}
use identra.Service.RateLimit.{access_token_from_metadata}
use identra.Service.Password.{answer}

abbrev pub scope_admin : String
scope_admin = "identra.admin"

abbrev pub scope_service_accounts_read : String
scope_service_accounts_read = "identra.service_accounts.read"

abbrev pub scope_service_accounts_manage : String
scope_service_accounts_manage = "identra.service_accounts.manage"

-- one round of the loop of `hasServiceScope`
abbrev pub grants : String → String → Bool
grants scope required =
    (scope == scope_admin)
    || (scope == required)
    || (ends_in_star scope && has_prefix required (without_star scope))

unfoldable pub has_service_scope : List String → String → Bool
has_service_scope [] required = false
has_service_scope (scope ∷ scopes) required =
    grants scope required || has_service_scope scopes required

abbrev inactive : Status
inactive = status unauthenticated "service account is inactive"

abbrev pub enabled : Account → Option ℕ → Result Status Account
enabled account none = ok account
enabled account (some t) = err inactive

unfoldable pub active_account : Result AccountError Account → Result Status Account
active_account (err e) = err inactive
active_account (ok account) = enabled account account.disabled_at

-- the loop over the required scopes
unfoldable pub first_granted : Account → List String → Result Status Account
first_granted account [] = err (status permission_denied "service account lacks the required scope")
first_granted account (required ∷ rest) =
    if has_service_scope account.scopes required then ok account else first_granted account rest

-- What the client receives of an account: `serviceAccountProto` copies its fields.
abbrev pub ServiceAccountProto : Type 0
ServiceAccountProto = Account

module _ {W P : Type 0} (s : Service W P) where
  unfoldable pub authorize_service_account : Metadata → List String → Handler W Account
  authorize_service_account md required =
      let token = access_token_from_metadata md in
      do
        refuse_if (token == "") (status unauthenticated "service token is required")
        now ← run s.runtime.now
        claims ←
            attempt (λ w. (validate_service_token s.jwt token s.token_cfg.public_key now, w))
              (status unauthenticated "invalid service token")
        found ← run (s.service_account_store.get_by_id claims.service_account_id)
        account ← answer (active_account found)
        answer (first_granted account required)

  -- Without a store the code returns before it draws the event's id and time.
  unfoldable pub record_management_audit : Account → String → String → String → Action W (Unit {0})
  record_management_audit actor action resource_type resource_id w = elim s.audit_store [
    | none ↦ (tt, w)
    | some store ↦
        let (id, w1) = s.runtime.new_uuid w in
        let (now, w2) = s.runtime.now w1 in
        (
          tt,
          (store.record_event
              (record {
                id = id;
                occurred_at = now;
                actor_type = "service_account";
                actor_id = actor.id;
                action = action;
                resource_type = resource_type;
                resource_id = resource_id;
                metadata = [];
              })
              w2).1,
        )
  ]
