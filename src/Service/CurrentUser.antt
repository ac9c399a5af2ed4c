-- ===== src/Service/CurrentUser.antt =====
-- `GetCurrentUser` of internal/identra/service_login_info.go, and `ListOAuthProviders` and
-- `authProviderValue` of service_oauth.go.
pub mod Shape
pub mod Answer
use identra.Common.{
  String, ◌==◌, Bool, true, false, not, Option, none, some, List, [], ◌∷◌, map, if◌then◌else◌,
}
use identra.Common.Exec.{Result, ok, err, pure, run, ◌>>=◌, ◌>>◌, refuse_if}
use identra.Text.{trim_space, to_lower}
use identra.Security.Tokens.{validate_access_token}
use identra.Service.{
  unauthenticated, status, Fault, UserModel, ExternalIdentityModel, Service, Handler, Metadata,
  attempt,
}
use identra.Service.RateLimit.{access_token_from_metadata}
use identra.Service.Password.{answer, found_or_refused}
use identra.Service.Oauth.{AuthProvider, unspecified, github, OauthConfig}

-- AuthProviderUnavailableReason of the API, with its zero value
pub data UnavailableReason : Type 0 where
  none_given missing_client_id missing_client_secret : UnavailableReason

pub record AuthProviderStatus : Type 0 where
  pub provider : AuthProvider
  pub enabled : Bool
  pub unavailable_reason : UnavailableReason

unfoldable pub list_oauth_providers : OauthConfig → List AuthProviderStatus
list_oauth_providers config =
    (if config.client_id == ""
      then record { provider = github; enabled = false; unavailable_reason = missing_client_id }
      else if config.client_secret == ""
      then record { provider = github; enabled = false; unavailable_reason = missing_client_secret }
      else record { provider = github; enabled = true; unavailable_reason = none_given })
    ∷ []

pub record LinkedAccount : Type 0 where
  pub provider : AuthProvider
  pub provider_user_id : String

-- User of the API
pub record User : Type 0 where
  pub id : String
  pub email : String
  pub password_login_enabled : Bool
  pub linked_oauth_accounts : List LinkedAccount

-- usr.HashedPassword != nil && strings.TrimSpace(*usr.HashedPassword) != ""
unfoldable pub has_password : Option String → Bool
has_password none = false
has_password (some hash) = not (trim_space hash == "")

module _ {W P : Type 0} (s : Service W P) where
  unfoldable pub auth_provider_value : String → AuthProvider
  auth_provider_value provider =
      if to_lower s.lower_rune (trim_space provider) == "github" then github else unspecified

  abbrev pub linked_account : ExternalIdentityModel → LinkedAccount
  linked_account identity = record {
    provider = auth_provider_value identity.provider;
    provider_user_id = identity.provider_user_id;
  }

  -- An error of the identity store is logged, and the user has no linked accounts then.
  abbrev pub linked_accounts : Result Fault (List ExternalIdentityModel) → List LinkedAccount
  linked_accounts (err e) = []
  linked_accounts (ok identities) = map linked_account identities

  unfoldable pub user_response : UserModel → Result Fault (List ExternalIdentityModel) → User
  user_response user identities = record {
    id = user.id;
    email = user.email;
    password_login_enabled = has_password user.hashed_password;
    linked_oauth_accounts = linked_accounts identities;
  }

  unfoldable pub get_current_user : Metadata → Handler W User
  get_current_user md =
      let access_token = access_token_from_metadata md in
      do
        refuse_if (access_token == "") (status unauthenticated "access token is required")
        now ← run s.runtime.now
        claims ←
            attempt (λ w. (validate_access_token s.jwt access_token s.token_cfg.public_key now, w))
              (status unauthenticated "invalid access token")
        found ← run (s.user_store.get_by_id claims.user_id)
        user ← answer (found_or_refused found)
        identities ← run (s.external_identity_store.get_by_user_id user.id)
        pure (user_response user identities)
