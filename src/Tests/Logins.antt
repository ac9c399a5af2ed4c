-- ===== src/Tests/Logins.antt =====
-- Logins with a password, with a code, and with a provider.
use identra.Common.{String, ◌≡◌, ◌↔◌, refl, [], true}
use identra.Common.Exec.{ok, err, ◌>>=◌}
use identra.Text.{trim_space, fields, equal_fold, split, before, to_lower}
use identra.Security.Tokens.{new_token_pair, validate_access_token}
use identra.Service.{Service, status, Code, exists, attempt}
use identra.Service.Login.{limit_guard, forget_failures, record_login}
use identra.Service.RateLimit.{
  rate_limit_keys, email_rate_limit_key, rate_limit_allowed, client_rate_limit_identity,
  first_header_value, access_token_from_metadata, bearer_token,
}
use identra.Service.Password.{login_with_password, finish_login}
use identra.Service.Password.Login.{login_keys, LoggedIn, login_with_password_iff}
use identra.Service.EmailCode.{login_with_email_code, finish_code_login, found_or_created}
use identra.Service.EmailCode.Login.{CodeLogin, login_with_email_code_iff}
use identra.Service.Providers.{UserInfo, Github, get_user_provider, github_user_info}
use identra.Service.Oauth.{
  OauthConfig, Oauth2, Profile, ensure_oauth_user, ensure_by_identity, merge_or_create, create_link,
  linked_or_verified, link_identity, consumed_state, provider_user, link_oauth_account,
}
use identra.Service.Oauth.Ensure.{Ensured, ensure_oauth_user_sound}
use identra.Service.Oauth.Link.{Linked, link_oauth_account_sound}
use identra.Service.CurrentUser.{User, get_current_user, user_response, has_password}
use identra.Service.CurrentUser.Answer.{Shown, get_current_user_iff}
use identra.Tests.World.{World, world, noted, service, user_one, bearer, issued, identities}

abbrev after_login : World
after_login = noted "update" (noted "reset" world)

login_with_password_iff_example :
    (login_with_password service (bearer "") "ann@x" "pw" world ≡ (ok issued, after_login))
    ↔ LoggedIn service (bearer "") "ann@x" "pw" world issued after_login
login_with_password_iff_example =
    login_with_password_iff service (bearer "") "ann@x" "pw" world after_login issued

-- The right password logs in.
logged_in : login_with_password service (bearer "") "ann@x" "pw" world ≡ (ok issued, after_login)
unfolding login_with_password finish_login limit_guard rate_limit_keys email_rate_limit_key
    client_rate_limit_identity first_header_value rate_limit_allowed forget_failures record_login
    attempt ◌>>=◌ new_token_pair trim_space split before to_lower
logged_in = refl

through :
    limit_guard service.login_rate_limiter
      (login_keys service (bearer "") "ann@x" "guess")
      (status Code.resource_exhausted "too many failed attempts, please try again later")
      world
    ≡ (ok tt, world)
unfolding limit_guard rate_limit_keys email_rate_limit_key client_rate_limit_identity
    first_header_value rate_limit_allowed trim_space split before to_lower
through = refl

abbrev after_code : World
after_code = noted "update" (noted "reset" (noted "consume" world))

code_login :
    login_with_email_code service (bearer "") "ann@x" "123456" world ≡ (ok issued, after_code)
unfolding login_with_email_code finish_code_login found_or_created limit_guard rate_limit_keys
    email_rate_limit_key client_rate_limit_identity first_header_value rate_limit_allowed
    forget_failures record_login attempt ◌>>=◌ new_token_pair trim_space split before to_lower
code_login = refl

login_with_email_code_iff_example :
    (login_with_email_code service (bearer "") "ann@x" "123456" world ≡ (ok issued, after_code))
    ↔ CodeLogin service (bearer "") "ann@x" "123456" world issued after_code
login_with_email_code_iff_example =
    login_with_email_code_iff service (bearer "") "ann@x" "123456" world after_code issued

abbrev info : UserInfo
info = record {
  provider = "github";
  id = "7";
  email = "ann@x";
  username = "ann";
  avatar_url = "pic";
}

ensured : ensure_oauth_user service info world ≡ (ok user_one, noted "link" world)
unfolding ensure_oauth_user ensure_by_identity merge_or_create create_link linked_or_verified ◌>>=◌
    trim_space
ensured = refl

ensure_oauth_user_sound_example : Ensured service info world user_one (noted "link" world)
ensure_oauth_user_sound_example =
    ensure_oauth_user_sound service info world (noted "link" world) user_one ensured

-- The same service, where the identity is there already.
abbrev contested : Service World String
contested = record service {
  external_identity_store = record identities { create = λ i w. (err exists, w) };
}

abbrev github : Github World
github = record {
  get_user =
      λ token w. (ok (record { id = "7"; email = "ann@x"; login = "ann"; avatar_url = "pic" }), w);
  list_emails = λ token w. (ok [], w);
}

abbrev oauth2 : Oauth2 World
oauth2 = record {
  auth_code_url = λ config state. state;
  exchange = λ config code w. (ok "token", noted "exchange" w);
}

abbrev oauth_config : OauthConfig
oauth_config = record { client_id = "client"; client_secret = "secret"; redirect_url = "" }

abbrev after_link : World
after_link = noted "update" (noted "link" (noted "exchange" (noted "consumed" world)))

abbrev ann : Profile
ann = record { username = "ann"; avatar_url = "pic"; email = "ann@x" }

linked :
    link_oauth_account service github oauth2 oauth_config (bearer "Bearer A") "code" "st" world
    ≡ (ok (issued, ann), after_link)
unfolding link_oauth_account link_identity consumed_state provider_user get_user_provider
    github_user_info create_link linked_or_verified record_login access_token_from_metadata
    bearer_token fields equal_fold validate_access_token attempt ◌>>=◌ new_token_pair trim_space
linked = refl

link_oauth_account_sound_example :
    Linked service github oauth2 oauth_config
      (bearer "Bearer A")
      "code"
      "st"
      world
      issued
      after_link
link_oauth_account_sound_example =
    link_oauth_account_sound service github oauth2 oauth_config (bearer "Bearer A") "code" "st"
      world after_link issued ann linked

-- The answer for the one user: a password, and no linked account.
abbrev ann_shown : User
ann_shown = record {
  id = "u1";
  email = "ann@x";
  password_login_enabled = true;
  linked_oauth_accounts = [];
}

get_current_user_iff_example :
    (get_current_user service (bearer "Bearer A") world ≡ (ok ann_shown, world))
    ↔ Shown service (bearer "Bearer A") world ann_shown world
get_current_user_iff_example =
    get_current_user_iff service (bearer "Bearer A") world world ann_shown

-- That request does return.
shown : get_current_user service (bearer "Bearer A") world ≡ (ok ann_shown, world)
unfolding get_current_user user_response has_password access_token_from_metadata bearer_token fields
    equal_fold validate_access_token attempt ◌>>=◌ trim_space
shown = refl
