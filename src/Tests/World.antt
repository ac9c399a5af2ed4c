-- ===== src/Tests/World.antt =====
-- A service over a small world: one user, one service account, and a log of the writes.
use identra.Common.{
  ℕ, String, ◌==◌, Bool, true, false, ◌&&◌, Option, none, some, List, [], ◌∷◌, Dict, lookup, insert,
  if◌then◌else◌,
}
use identra.Common.Exec.{ok, err}
use identra.Security.Tokens.{TokenConfig, TokenPair, Runtime}
use identra.ServiceAccount
use identra.ServiceAccount.{Account, AccountError, BootstrapRecord}
use identra.Service.{
  missing, other, Metadata, UserModel, UserStore, ExternalIdentityStore, RateLimiter,
  RefreshTokenRevocationStore, Service,
}
use identra.Tests.Claims.{known_jwt, public_of}

pub record World : Type 0 where
  pub revoked : Dict ℕ
  pub log : List String

abbrev pub noted : String → World → World
noted s w = record w { log = s ∷ w.log }

abbrev pub world : World
world = record { revoked = []; log = [] }

abbrev pub user_one : UserModel
user_one = record {
  id = "u1";
  created_at = 1;
  updated_at = 1;
  email = "ann@x";
  hashed_password = some "hash:pw";
  verification_hash = none;
  last_login_at = none;
}

abbrev pub account_one : Account
account_one = record {
  id = "a1";
  name = "ops";
  scopes = "identra.*" ∷ [];
  created_at = 1;
  disabled_at = none;
}

abbrev pub users : UserStore World
users = record {
  create = λ u w. (ok (record u { id = "u1" }), noted "create" w);
  get_by_id = λ id w. (if id == "u1" then ok user_one else err missing, w);
  get_by_email = λ email w. (if email == "ann@x" then ok user_one else err missing, w);
  update = λ u w. (ok u, noted "update" w);
  set_password = λ id hash w. (ok tt, noted "set_password" w);
  delete = λ id w. (ok tt, noted "delete" w);
  list = λ offset limit w. (ok (user_one ∷ []), w);
  count = λ w. (ok 1, w);
}

abbrev pub identities : ExternalIdentityStore World
identities = record {
  create = λ i w. (ok tt, noted "link" w);
  get_by_provider_id = λ provider id w. (err missing, w);
  get_by_user_id = λ id w. (ok [], w);
}

abbrev pub accounts : ServiceAccount.Store World
accounts = record {
  bootstrap = λ r e f w. (err AccountError.bootstrap_completed, w);
  create = λ r w. (ok tt, noted "create_account" w);
  authenticate = λ id hash now w. (
    if (id == "a1") && (hash == "sha:secret")
        then ok account_one
        else err AccountError.invalid_credential,
    w,
  );
  get_by_id = λ id w. (if id == "a1" then ok account_one else err AccountError.not_found, w);
  list = λ w. (ok (account_one ∷ []), w);
  disable = λ id now w. (ok account_one, noted "disable" w);
  rotate_credential = λ id credential hash now w. (ok tt, noted "rotate" w);
}

abbrev is_there : Option ℕ → Bool
is_there none = false
is_there (some e) = true

abbrev pub revocations : RefreshTokenRevocationStore World
revocations = record {
  revoke = λ id expires_at w. (ok tt, record w { revoked = insert id expires_at w.revoked });
  is_revoked = λ id w. (ok (is_there (lookup id w.revoked)), w);
}

-- a limiter that lets every key through, or that fails on every key
abbrev pub limiter : Bool → RateLimiter World
limiter fails = record {
  is_allowed = λ key w. (if fails then err other else ok true, w);
  record_attempt = λ key w. (ok tt, noted "attempt" w);
  reset = λ key w. (ok tt, noted "reset" w);
}

abbrev pub runtime : Runtime World
runtime = record {
  now = λ w. (10, w);
  random_hex = λ n w. (some "id", w);
  random_below = λ n w. (some 7, w);
  new_uuid = λ w. ("uuid", w);
}

abbrev pub config : TokenConfig String
config = record {
  private_key = some "key";
  public_key = some (public_of "key");
  key_id = "k1";
  issuer = "identra";
  access_token_expiration = 100;
  refresh_token_expiration = 2000000;
  service_token_expiration = 50;
}

abbrev pub service : Service World String
service = record {
  email_code_store = record {
    set = λ email code w. (ok tt, noted "code" w);
    consume = λ email code w. (ok (code == "123456"), noted "consume" w);
  };
  oauth_state_store = record {
    add = λ state provider url w. (ok tt, noted "state" w);
    consume = λ state w. (
      ok (
          if state == "st"
          then some (record { provider = "github"; redirect_url = "url" })
          else none),
      noted "consumed" w,
    );
  };
  user_store = users;
  external_identity_store = identities;
  service_account_store = accounts;
  token_cfg = config;
  oauth_fetch_email_if_missing = true;
  mailer = none;
  login_rate_limiter = some (limiter false);
  send_code_rate_limiter = none;
  refresh_token_revocations = some revocations;
  service_token_rate_limiter = some (limiter false);
  audit_store = none;
  passwords = record {
    hash_password = λ p w. (ok p, w);
    verify_password = λ p hash. ok ((p == "pw") && (hash == "hash:pw"));
  };
  jwt = known_jwt;
  runtime = runtime;
  secrets = record {
    random_base64 = λ n w. (some "rnd", w);
    secret_hash = λ s. if s == "secret" then "sha:secret" else "sha:other";
  };
  lower_rune = λ c. c;
  quote = λ s. s;
}

abbrev pub issued : TokenPair
issued = record {
  access_token = record { value = "A"; expires_at = 110 };
  refresh_token = record { value = "R"; expires_at = 2000010 };
}

-- The metadata of a call: a bearer token, or none.
abbrev pub bearer : String → Metadata
bearer header name = if name == "authorization" then header ∷ [] else []
