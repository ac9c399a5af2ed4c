-- ===== src/Config.antt =====
-- internal/config: the configuration of the server, how it is loaded, and its validation.
pub mod Validation
use Prim.Native.Char.{Char}
use Prim.Native.String
use Prim.Native.String.{len}
use identra.Common.{
  ℕ, String, ◌==◌, Bool, true, false, not, ◌&&◌, ◌||◌, List, [], ◌∷◌, any, ltb, eqb, if◌then◌else◌,
}
use identra.Common.Exec.{Result, ok, err}
use identra.Text.{trim_space, split, to_lower}

-- A Go int, or a duration in nanoseconds.
pub data ℤ : Type 0 where
  pos negsuc : ℕ → ℤ

abbrev pub is_negative : ℤ → Bool
is_negative (pos n) = false
is_negative (negsuc n) = true

abbrev pub is_positive : ℤ → Bool
is_positive (pos n) = ltb 0 n
is_positive (negsuc n) = false

abbrev pub natural : ℤ → ℕ
natural (pos n) = n
natural (negsuc n) = 0

-- internal/cache/redis and internal/mail/smtp
pub record RedisConfig : Type 0 where
  pub urls : List String
  pub password : String

pub record SmtpConfig : Type 0 where
  pub host : String
  pub port : ℤ
  pub username : String
  pub password : String
  pub from_email : String
  pub from_name : String
  pub start_tls : Bool
  pub auth_enabled : Bool

pub record BootstrapConfig : Type 0 where
  pub enabled : Bool
  pub name : String
  pub client_id : String
  pub client_secret : String
  pub scopes : List String

pub record OauthConfig : Type 0 where
  pub state_expiration_duration : ℤ
  pub github_client_id : String
  pub github_client_secret : String
  pub fetch_email_if_missing : Bool

pub record TokenSettings : Type 0 where
  pub issuer : String
  pub access_token_expiration : ℤ
  pub refresh_token_expiration : ℤ
  pub service_token_expiration : ℤ

pub record AuthConfig : Type 0 where
  pub rsa_private_key : String
  pub rsa_private_key_file : String
  pub oauth : OauthConfig
  pub token : TokenSettings

-- `path` is that of sqlite.Config.
pub record PersistenceConfig : Type 0 where
  pub kind : String
  pub path : String

pub record GrpcConfig : Type 0 where
  pub grpc_port : ℕ
  pub redis : RedisConfig
  pub smtp_mailer : SmtpConfig
  pub persistence : PersistenceConfig
  pub auth : AuthConfig
  pub bootstrap : BootstrapConfig

abbrev pub Check : Type 0
Check = Result String (Unit {0})

-- if condition { return errors.New(...) }
abbrev pub reject : Bool → String → Check → Check
reject true message rest = err message
reject false message rest = rest

-- if err := ...; err != nil { return fmt.Errorf("...: %w", err) }
abbrev pub within : String → Check → Check → Check
within label (err e) rest = err (String.◌++◌ label e)
within label (ok u) rest = rest

abbrev pub is_blank : String → Bool
is_blank s = trim_space s == ""

abbrev is_none : List String → Bool
is_none [] = true
is_none (x ∷ xs) = false

-- Validate of sqlite.Config, in internal/store/sqlite/database.go
abbrev validate_sqlite : String → Check
validate_sqlite path = reject (is_blank path) "sqlite database path is required" (ok tt)

unfoldable pub validate_redis : RedisConfig → Check
validate_redis cfg =
    reject (is_none cfg.urls) "at least one redis url is required"
      (reject (any is_blank cfg.urls) "redis urls cannot contain empty values" (ok tt))

abbrev is_zero : ℤ → Bool
is_zero (pos n) = eqb n 0
is_zero (negsuc n) = false

abbrev is_above : ℤ → ℕ → Bool
is_above (pos n) limit = ltb limit n
is_above (negsuc n) limit = false

unfoldable pub validate_mailer : SmtpConfig → Check
validate_mailer cfg =
    if is_blank cfg.host
    then ok tt
    else reject (is_zero cfg.port) "smtp port is required" (
        reject (is_negative cfg.port || is_above cfg.port 65535)
          "smtp port must be between 1 and 65535"
          (reject (cfg.auth_enabled && is_blank cfg.username) "smtp username is required" (
            reject (cfg.auth_enabled && is_blank cfg.password) "smtp password is required"
              (reject (is_blank cfg.from_email) "smtp from email is required" (ok tt)))))

unfoldable pub validate_bootstrap : BootstrapConfig → Check
validate_bootstrap c =
    if not c.enabled
    then ok tt
    else reject (is_blank c.name) "service account name is required" (
        reject (is_blank c.client_id) "service account client ID is required" (
          reject (ltb (len (trim_space c.client_secret)) 32)
            "service account client secret must contain at least 32 characters"
            (reject (is_none c.scopes) "at least one service account scope is required" (ok tt))))

unfoldable pub validate_auth : AuthConfig → Check
validate_auth c =
    reject (is_blank c.rsa_private_key && is_blank c.rsa_private_key_file)
      "RSA private key or RSA private key file is required"
      (reject (is_negative c.oauth.state_expiration_duration)
        "oauth state expiration cannot be negative"
        (reject (is_blank c.token.issuer) "token issuer is required" (
          reject (not (is_positive c.token.access_token_expiration))
            "access token expiration must be positive"
            (reject (not (is_positive c.token.refresh_token_expiration))
              "refresh token expiration must be positive"
              (reject (not (is_positive c.token.service_token_expiration))
                "service token expiration must be positive" (ok tt))))))

module _ (lower_rune : Char → Char) (quote : String → String) where
  unfoldable pub validate_persistence : PersistenceConfig → Check
  validate_persistence c =
      let kind = to_lower lower_rune (trim_space c.kind) in
      if (kind == "") || (kind == "sqlite")
      then validate_sqlite c.path
      else err (String.◌++◌ "unsupported persistence type " (quote c.kind))

  -- GRPCConfig.Validate
  unfoldable pub validate : GrpcConfig → Check
  unfolding validate_redis validate_mailer validate_auth validate_bootstrap
  validate c = reject (eqb c.grpc_port 0) "grpc port is required" (
      within "redis config: " (validate_redis c.redis) (
        within "smtp mailer config: " (validate_mailer c.smtp_mailer) (
          within "persistence config: " (validate_persistence c.persistence) (
            within "auth config: " (validate_auth c.auth)
              (within "bootstrap config: " (validate_bootstrap c.bootstrap) (ok tt))))))

-- What internal/bootstrap answers for a key (spf13/viper).
pub record Settings : Type 0 where
  pub get_string : String → String
  pub get_uint : String → ℕ
  pub get_int : String → ℤ
  pub get_bool : String → Bool
  pub get_duration : String → ℤ
  pub get_string_slice : String → List String

abbrev kept_parts : List String → List String
kept_parts [] = []
kept_parts (part ∷ parts) =
    let rest = kept_parts parts in
    let trimmed = trim_space part in if trimmed == "" then rest else trimmed ∷ rest

abbrev parts_or : List String → List String → List String
parts_or values (part ∷ []) = values
parts_or values parts = kept_parts parts

-- getStringSlice: one value with commas is a list.
unfoldable pub string_slice : List String → List String
string_slice (value ∷ []) = parts_or (value ∷ []) (split b',' value)
string_slice values = values

module _ (settings : Settings) where
  unfoldable pub load_persistence : PersistenceConfig
  load_persistence = record {
    kind = settings.get_string "persistence.type";
    path = settings.get_string "persistence.sqlite.path";
  }

  unfoldable pub load_grpc : GrpcConfig
  unfolding load_persistence
  load_grpc = record {
    grpc_port = settings.get_uint "grpc_port";
    smtp_mailer = record {
      host = settings.get_string "smtp_mailer.host";
      port = settings.get_int "smtp_mailer.port";
      username = settings.get_string "smtp_mailer.username";
      password = settings.get_string "smtp_mailer.password";
      from_email = settings.get_string "smtp_mailer.from_email";
      from_name = settings.get_string "smtp_mailer.from_name";
      start_tls = settings.get_bool "smtp_mailer.start_tls";
      auth_enabled = settings.get_bool "smtp_mailer.auth_enabled";
    };
    persistence = load_persistence;
    redis = record {
      urls = string_slice (settings.get_string_slice "redis.urls");
      password = settings.get_string "redis.password";
    };
    auth = record {
      rsa_private_key = settings.get_string "auth.rsa_private_key";
      rsa_private_key_file = settings.get_string "auth.rsa_private_key_file";
      oauth = record {
        state_expiration_duration = settings.get_duration "auth.oauth_state_expiration";
        github_client_id = settings.get_string "auth.github.client_id";
        github_client_secret = settings.get_string "auth.github.client_secret";
        fetch_email_if_missing = settings.get_bool "auth.oauth.fetch_email_if_missing";
      };
      token = record {
        issuer = settings.get_string "auth.token_issuer";
        access_token_expiration = settings.get_duration "auth.access_token_expiration";
        refresh_token_expiration = settings.get_duration "auth.refresh_token_expiration";
        service_token_expiration = settings.get_duration "auth.service_token_expiration";
      };
    };
    bootstrap = record {
      enabled = settings.get_bool "bootstrap.service_account.enabled";
      name = settings.get_string "bootstrap.service_account.name";
      client_id = settings.get_string "bootstrap.service_account.client_id";
      client_secret = settings.get_string "bootstrap.service_account.client_secret";
      scopes = string_slice (settings.get_string_slice "bootstrap.service_account.scopes");
    };
  }
