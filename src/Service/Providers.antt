-- ===== src/Service/Providers.antt =====
-- internal/identra/user_info_provider.go: what a provider says of a user.
pub mod Choice
use identra.Common.{
  String, ◌==◌, Bool, true, false, ◌&&◌, Option, none, some, List, [], ◌∷◌, if◌then◌else◌,
}
use identra.Common.Exec.{Result, ok, err, Action, Exec, pure, run, ◌>>=◌}
use identra.Service.{Fault}

pub record UserInfo : Type 0 where
  pub provider : String
  pub id : String
  pub email : String
  pub username : String
  pub avatar_url : String

pub record Email : Type 0 where
  pub address : String
  pub primary : Bool
  pub verified : Bool

-- What the program reads of a user of github.com/google/go-github; `id` is the number's `%d`.
pub record GithubUser : Type 0 where
  pub id : String
  pub email : String
  pub login : String
  pub avatar_url : String

-- The client of github.com/google/go-github, with an access token.
pub record Github (W : Type 0) : Type 0 where
  pub get_user : String → Action W (Result Fault GithubUser)
  pub list_emails : String → Action W (Result Fault (List Email))

-- An interface value; a provider without `GetEmail` is no EmailProvider.
pub record UserInfoProvider (W : Type 0) : Type 0 where
  pub get_user_info : String → Action W (Result Fault UserInfo)
  pub get_email : Option (String → Action W (Result Fault String))

-- The loop of `GetEmail`, with its two variables.
unfoldable pub choose_email : String → String → List Email → String
choose_email first_verified first_any [] =
    if first_verified == "" then first_any else first_verified
choose_email first_verified first_any (e ∷ es) =
    let any' = if first_any == "" then e.address else first_any in
    let verified' = if (first_verified == "") && e.verified then e.address else first_verified in
    let skip = choose_email first_verified first_any es in
    let rest = choose_email verified' any' es in
    if e.address == "" then skip else if e.primary && e.verified then e.address else rest

module _ {W : Type 0} (github : Github W) where
  unfoldable pub github_user_info : String → Exec W Fault UserInfo
  github_user_info token = do
    user ← github.get_user token
    pure (record {
      provider = "github";
      id = user.id;
      email = user.email;
      username = user.login;
      avatar_url = user.avatar_url;
    })

  unfoldable pub github_email : String → Exec W Fault String
  github_email token = do emails ← github.list_emails token; pure (choose_email "" "" emails)

  abbrev pub github_provider : UserInfoProvider W
  github_provider = record { get_user_info = github_user_info; get_email = some github_email }

  -- GetUserProvider; `none` is its error.
  unfoldable pub get_user_provider : String → Option (UserInfoProvider W)
  get_user_provider name = if name == "github" then some github_provider else none
