-- ===== src/Tests/Accounts.antt =====
-- Service accounts and the management API.
use identra.Common.{String, ◌≡◌, ◌↔◌, refl, some, [], ◌∷◌, true}
use identra.Common.Exec.{ok, err, ◌>>=◌}
use identra.Text.{trim_space, ends_in_star, without_star, has_prefix, fields, equal_fold}
use identra.Security.Tokens.{Token, new_service_token, validate_service_token}
use identra.ServiceAccount.{Account, AccountError, authenticate}
use identra.Service.{AuditStore, Service, Status, status, Code, attempt}
use identra.Service.Login.{forget_failures}
use identra.Service.RateLimit.{access_token_from_metadata, bearer_token}
use identra.Service.Accounts.{
  authorize_service_account, has_service_scope, active_account, first_granted,
  scope_service_accounts_manage,
}
use identra.Service.Accounts.Authorization.{Authorized, authorize_service_account_iff}
use identra.Service.Accounts.Handlers.{
  exchange_guard, exchange_service_token, finish_exchange, list_service_accounts,
}
use identra.Service.Accounts.Exchange.{Exchanged, exchange_service_token_iff}
use identra.Service.Management.{list_accounts, accounts, required_scopes, serve}
use identra.Service.Management.Access.{serve-Authorized}
use identra.Tests.World.{World, world, noted, service, account_one, limiter, bearer}

abbrev token : Token
token = record { value = "S"; expires_at = 60 }

abbrev audits : AuditStore World
audits = record { record_event = λ e w. (ok tt, w); list = λ offset limit w. (ok [], w) }

let_in :
    authorize_service_account service (bearer "Bearer S") (scope_service_accounts_manage ∷ []) world
    ≡ (ok account_one, world)
unfolding authorize_service_account ◌>>=◌ attempt access_token_from_metadata bearer_token trim_space
    fields equal_fold validate_service_token active_account first_granted has_service_scope
    ends_in_star without_star has_prefix
let_in = refl

no_token : Status
no_token = status Code.unauthenticated "service token is required"

kept_out :
    authorize_service_account service (bearer "") (required_scopes list_accounts) world
    ≡ (err (status Code.unauthenticated "service token is required"), world)
unfolding authorize_service_account ◌>>=◌ attempt access_token_from_metadata bearer_token trim_space
    fields equal_fold
kept_out = refl

listed :
    serve service audits (bearer "Bearer S") list_accounts world
    ≡ (ok (accounts (account_one ∷ [])), world)
unfolding serve list_service_accounts authorize_service_account ◌>>=◌ attempt
    access_token_from_metadata bearer_token trim_space fields equal_fold validate_service_token
    active_account first_granted has_service_scope ends_in_star without_star has_prefix
listed = refl

authorize_service_account_iff_example :
    (authorize_service_account service
        (bearer "Bearer S")
        (scope_service_accounts_manage ∷ [])
        world
      ≡ (ok account_one, world))
    ↔ Authorized service
        (bearer "Bearer S")
        (scope_service_accounts_manage ∷ [])
        world
        account_one
        world
authorize_service_account_iff_example =
    authorize_service_account_iff service (bearer "Bearer S") (scope_service_accounts_manage ∷ [])
      world world account_one

serve-Authorized_example :
    (actor : Account) × (v : World) × Authorized service
      (bearer "Bearer S")
      (required_scopes list_accounts)
      world
      actor
      v
serve-Authorized_example =
    serve-Authorized service audits (bearer "Bearer S") list_accounts world world
      (accounts (account_one ∷ [])) listed

a1_given : (trim_space " a1 " ≡ "a1")
unfolding trim_space
a1_given = refl

exchange_service_token_iff_example :
    (exchange_service_token service "a1" "secret" world ≡ (ok token, noted "reset" world))
    ↔ Exchanged service "a1" "secret" world token (noted "reset" world)
exchange_service_token_iff_example =
    exchange_service_token_iff service "a1" "secret" world (noted "reset" world) token

-- The exchange of the right credential returns a token.
exchanged : exchange_service_token service "a1" "secret" world ≡ (ok token, noted "reset" world)
unfolding exchange_service_token finish_exchange exchange_guard authenticate ◌>>=◌ attempt
    trim_space forget_failures new_service_token
exchanged = refl

wrong :
    authenticate service.runtime service.secrets service.service_account_store "a1" "guess" world
    ≡ (err AccountError.invalid_credential, world)
unfolding authenticate ◌>>=◌ trim_space
wrong = refl

abbrev failing : Service World String
failing = record service { service_token_rate_limiter = some (limiter true) }
