-- ===== src/Service/Oauth.antt =====
-- internal/identra/service_oauth.go: login with a provider, and linking of a provider's account.
pub mod Ensure
pub mod Link
use identra.Common.{String, ◌==◌, Bool, true, false, not, ◌||◌, Option, none, some, if◌then◌else◌}
use identra.Common.Exec.{Result, ok, err, Action, Exec, pure, raise, run, ◌>>=◌, ◌>>◌, refuse_if}
use identra.Text.{trim_space}
use identra.Security.Tokens.{Claims, TokenPair, new_token_pair, validate_access_token}
use identra.Service.{
  invalid_argument, already_exists, failed_precondition, internal, unauthenticated, Status, status,
  Fault, missing, exists, other, UserModel, ExternalIdentityModel, OAuthState, Service, Handler,
  Metadata, attempt,
}
use identra.Service.RateLimit.{access_token_from_metadata}
use identra.Service.Login.{record_login}
use identra.Service.Password.{answer, new_user, created_or_refused, found_or_refused}
use identra.Service.Providers.{UserInfo, UserInfoProvider, Github, get_user_provider}

-- The fields of oauth2.Config that the code reads or writes.
pub record OauthConfig : Type 0 where
  pub client_id : String
  pub client_secret : String
  pub redirect_url : String

-- What the code calls of golang.org/x/oauth2; `exchange` answers the access token.
pub record Oauth2 (W : Type 0) : Type 0 where
  pub auth_code_url : OauthConfig → String → String
  pub exchange : OauthConfig → String → Action W (Result Fault String)

-- AuthProvider of the API
pub data AuthProvider : Type 0 where
  unspecified github : AuthProvider

abbrev pub auth_provider_name : AuthProvider → Option String
auth_provider_name github = some "github"
auth_provider_name unspecified = none

abbrev pub or_refused : {A : Type 0} → Status → Option A → Result Status A
or_refused e none = err e
or_refused e (some a) = ok a

abbrev pub oauth_config_for_redirect : OauthConfig → String → OauthConfig
oauth_config_for_redirect config redirect_url = record config { redirect_url = redirect_url }

abbrev pub new_identity : String → String → String → ExternalIdentityModel
new_identity user_id provider provider_user_id = record {
  id = "";
  user_id = user_id;
  provider = provider;
  provider_user_id = provider_user_id;
  created_at = 0;
  updated_at = 0;
}

-- OAuthUserProfile
pub record Profile : Type 0 where
  pub username : String
  pub avatar_url : String
  pub email : String

abbrev pub profile_of : UserInfo → Profile
profile_of info = record {
  username = info.username;
  avatar_url = info.avatar_url;
  email = info.email;
}

abbrev pub linked_elsewhere : Status
linked_elsewhere = status already_exists "oauth account already linked to another user"

module _ {W P : Type 0} (s : Service W P) where
  -- The second look at an identity that another request has just created.
  unfoldable pub verify_owner : String → String → String → Status → Handler W (Unit {0})
  verify_owner provider provider_user_id user_id failure = do
    existing ←
        attempt (s.external_identity_store.get_by_provider_id provider provider_user_id) failure
    refuse_if (not (existing.user_id == user_id)) linked_elsewhere

  -- What both flows do with the store's answer to `Create`.
  unfoldable pub linked_or_verified :
      String → String → String → Status → Status → Result Fault (Unit {0}) → Handler W (Unit {0})
  linked_or_verified provider id user_id verify_failure failure (ok _) = pure tt
  linked_or_verified provider id user_id verify_failure failure (err exists) =
      verify_owner provider id user_id verify_failure
  linked_or_verified provider id user_id verify_failure failure (err _) = raise failure

  unfoldable pub create_link : String → String → String → Status → Status → Handler W (Unit {0})
  create_link provider id user_id verify_failure failure = do
    created ← run (s.external_identity_store.create (new_identity user_id provider id))
    linked_or_verified provider id user_id verify_failure failure created

  unfoldable pub update_email_if_needed : UserModel → String → Handler W UserModel
  update_email_if_needed user email =
      if (user.email == email) || (email == "")
      then pure user
      else attempt (s.user_store.update (record user { email = email }))
          (status internal "failed to update user email")

  -- The new user is deleted again where its identity could not be created; an error of the
  -- deletion is logged and dropped.
  unfoldable pub keep_or_delete : UserModel → Result Fault (Unit {0}) → Handler W UserModel
  keep_or_delete user (ok _) = pure user
  keep_or_delete user (err e) = do
    _ ← run (s.user_store.delete user.id)
    answer (
        err (elim e [
          | exists ↦ status already_exists "oauth account already linked"
          | missing ↦ status internal "failed to create oauth identity"
          | other ↦ status internal "failed to create oauth identity"
        ]))

  unfoldable pub create_oauth_user : UserInfo → Handler W UserModel
  create_oauth_user info = do
    created ← run (s.user_store.create (new_user info.email none))
    user ← answer (created_or_refused created)
    linked ← run (s.external_identity_store.create (new_identity user.id info.provider info.id))
    keep_or_delete user linked

  -- By the answer of the lookup by e-mail.
  unfoldable pub merge_or_create : UserInfo → Result Fault UserModel → Handler W UserModel
  merge_or_create info (ok user) = do
    create_link info.provider info.id user.id
        (status internal "failed to verify oauth account link")
        (status internal "failed to link oauth account")
    pure user
  merge_or_create info (err missing) = create_oauth_user info
  merge_or_create info (err _) = raise (status internal "failed to fetch user by email")

  -- By the answer of the lookup by provider and id.
  unfoldable pub ensure_by_identity :
      UserInfo → Result Fault ExternalIdentityModel → Handler W UserModel
  ensure_by_identity info (ok identity) = do
    user ←
        attempt (s.user_store.get_by_id identity.user_id)
          (status internal "failed to fetch user linked to oauth identity")
    update_email_if_needed user info.email
  ensure_by_identity info (err missing) = do
    refuse_if (trim_space info.email == "")
        (status failed_precondition "oauth provider did not supply an email address")
    by_email ← run (s.user_store.get_by_email info.email)
    merge_or_create info by_email
  ensure_by_identity info (err _) = raise (status internal "failed to fetch user by provider id")

  unfoldable pub ensure_oauth_user : UserInfo → Handler W UserModel
  ensure_oauth_user info = do
    refuse_if (info.id == "") (status internal "provider user id is empty")
    refuse_if (info.provider == "") (status internal "provider name is empty")
    existing ← run (s.external_identity_store.get_by_provider_id info.provider info.id)
    ensure_by_identity info existing

  filled : UserInfo → Result Fault String → UserInfo
  filled info (err e) = info
  filled info (ok email) =
      if trim_space email == "" then info else record info { email = trim_space email }

  fill_from :
      Option (String → Action W (Result Fault String)) → String → UserInfo → Action W UserInfo
  unfolding filled
  fill_from none token info w = (info, w)
  fill_from (some get_email) token info w = let (r, w') = get_email token w in (filled info r, w')

  unfoldable pub maybe_fill_oauth_email : UserInfoProvider W → String → UserInfo → Action W UserInfo
  unfolding fill_from
  maybe_fill_oauth_email provider token info w =
      if not (info.email == "") || not s.oauth_fetch_email_if_missing || (trim_space token == "")
      then (info, w)
      else fill_from provider.get_email token info w

  -- By the answer for the identity of the provider's user.
  unfoldable pub link_identity :
      String → String → String → Result Fault ExternalIdentityModel → Handler W (Unit {0})
  link_identity provider id user_id (ok identity) =
      refuse_if (not (identity.user_id == user_id)) linked_elsewhere
  link_identity provider id user_id (err missing) =
      create_link provider id user_id (status internal "failed to verify oauth link")
        (status internal "failed to link oauth account")
  link_identity provider id user_id (err _) =
      raise (status internal "failed to check existing oauth link")

  unfoldable pub consumed_state : String → Handler W OAuthState
  consumed_state state = do
    found ←
        attempt (s.oauth_state_store.consume state)
          (status internal "failed to validate oauth state")
    answer (or_refused (status invalid_argument "invalid or expired state") found)

  module _ (github_client : Github W) (oauth2 : Oauth2 W) (config : OauthConfig) where
    unfoldable pub start_oauth_login : AuthProvider → String → Handler W (String × String)
    start_oauth_login given given_url =
        let redirect_url = trim_space given_url in
        do
          provider ← answer (
              or_refused (status invalid_argument "provider is required and must be supported")
                (auth_provider_name given))
          refuse_if (redirect_url == "") (status invalid_argument "redirect URL is required")
          refuse_if (config.client_id == "" || config.client_secret == "")
              (status failed_precondition "GitHub OAuth is not configured")
          drawn ← run (s.runtime.random_hex 32)
          state ← answer (or_refused (status internal "failed to generate oauth state") drawn)
          attempt (s.oauth_state_store.add state provider redirect_url)
              (status internal "failed to store oauth state")
          pure (oauth2.auth_code_url (oauth_config_for_redirect config redirect_url) state, state)

    -- What both flows do once the state is consumed: the code's token, and what the provider says.
    unfoldable pub provider_user :
        String → OAuthState → Handler W (UserInfoProvider W × (String × UserInfo))
    provider_user code state = do
      token ←
          attempt (oauth2.exchange (oauth_config_for_redirect config state.redirect_url) code)
            (status unauthenticated "failed to exchange authorization code")
      provider ← answer (
          or_refused (status internal "failed to get user provider")
            (get_user_provider github_client state.provider))
      info ←
          attempt (provider.get_user_info token)
            (status unauthenticated "failed to fetch user info")
      pure (provider, (token, info))

    unfoldable pub login_with_oauth : String → String → Handler W (TokenPair × Profile)
    login_with_oauth code state = do
      refuse_if (trim_space code == "") (status invalid_argument "code is required")
      refuse_if (trim_space state == "") (status invalid_argument "state is required")
      state_data ← consumed_state state
      (provider, (token, given)) ← provider_user code state_data
      info ← run (maybe_fill_oauth_email provider token given)
      user ← ensure_oauth_user info
      run (record_login s user)
      pair ←
          attempt (new_token_pair s.runtime s.jwt user.id s.token_cfg)
            (status internal "failed to create token pair")
      pure (pair, profile_of info)

    unfoldable pub link_oauth_account : Metadata → String → String → Handler W (TokenPair × Profile)
    link_oauth_account md code state =
        let access_token = access_token_from_metadata md in
        do
          refuse_if (access_token == "") (status unauthenticated "access token is required")
          refuse_if (trim_space code == "") (status invalid_argument "code is required")
          refuse_if (trim_space state == "") (status invalid_argument "state is required")
          now ← run s.runtime.now
          claims ←
              attempt
                (λ w. (validate_access_token s.jwt access_token s.token_cfg.public_key now, w))
                (status unauthenticated "invalid access token")
          found ← run (s.user_store.get_by_id claims.user_id)
          user ← answer (found_or_refused found)
          state_data ← consumed_state state
          (_, (_, info)) ← provider_user code state_data
          refuse_if (info.id == "") (status internal "provider returned empty user id")
          identity ← run (s.external_identity_store.get_by_provider_id state_data.provider info.id)
          link_identity state_data.provider info.id user.id identity
          run (record_login s user)
          pair ←
              attempt (new_token_pair s.runtime s.jwt user.id s.token_cfg)
                (status internal "failed to create token pair")
          pure (pair, profile_of info)
