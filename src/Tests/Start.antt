-- ===== src/Tests/Start.antt =====
-- The start of a server, over a small file system.
use identra.Common.{
  ℕ, String, ◌==◌, ◌≡◌, refl, ◌≢◌, ◌∙◌, ap, ◌↔◌, ne→==-false, Bool, true, false, Option, none, some,
  [], ◌∷◌, Dict, lookup, insert, remove, lookup-insert, lookup-remove, eq_refl, arith,
}
use identra.Text.{trim_space}
use identra.Common.Exec.{ok, ◌>>=◌}
use identra.Security.Keys.{
  Crypto, KeyManager, empty, install, is_initialized, generate_key_pair, export_private_key_pem,
}
use identra.Security.Tokens.{TokenConfig}
use identra.Config.{AuthConfig, GrpcConfig, pos, validate}
use identra.Config.Validation.{
  validate_iff, ValidRedis, ValidMailer, ValidPersistence, ValidAuth, ValidBootstrap,
}
use identra.App.TokenKeys.{
  Files, Reading, read, absent, unreadable, build_token_keys, token_config,
  initialize_key_manager_from_file, generate_key_file, write_private_key_file, fill_and_rename,
}
use identra.App.TokenKeys.Restart.{FileLaws, CodecLaws, restart_keeps_key}

abbrev reading_of : Option String → Reading
reading_of none = absent
reading_of (some t) = read t

abbrev moved : String → String → Dict String → Option String → Bool × Dict String
moved f p w none = (false, w)
moved f p w (some t) = (true, insert p t (remove f w))

abbrev files : Files (Dict String)
files = record {
  dir = λ p. "keys";
  read_file = λ p w. (reading_of (lookup p w), w);
  mkdir_all = λ d w. (true, w);
  create_temp = λ d w. (some "keys/temp", insert "keys/temp" "" w);
  chmod = λ f w. (true, w);
  write = λ f t w. (true, insert f t w);
  sync = λ f w. (true, w);
  close = λ f w. (true, w);
  rename = λ f p w. moved f p w (lookup f w);
  remove_file = λ f w. (true, remove f w);
}

read_back : (o : Option String) (t : String) → reading_of o ≡ read t → o ≡ some t
read_back none t h = absurd (ground arith)
read_back (some s) t h = ground arith

moved_there :
    (f p : String) (w : Dict String) (o : Option String)
    → (moved f p w o).0 ≡ true
    → lookup p (moved f p w o).1 ≡ o
moved_there f p w none h = absurd (ground arith)
moved_there f p w (some t) h = lookup-insert p p t (remove f w) ∙ rw (eq_refl p) refl

kept_there : (f q : String) (w : Dict String) → f ≢ q → lookup q (remove f w) ≡ lookup q w
kept_there f q w differs = lookup-remove f q w ∙ rw (ne→==-false f q differs) refl

abbrev laws : FileLaws files
laws = record {
  content = λ w p. lookup p w;
  read_keeps = λ p q w. refl;
  read_found = λ p t w h. read_back (lookup p w) t h;
  write_stores = λ f t w h. lookup-insert f f t w ∙ rw (eq_refl f) refl;
  sync_keeps = λ f q w. refl;
  close_keeps = λ f q w. refl;
  rename_moves = λ f p w h. moved_there f p w (lookup f w) h;
  remove_keeps = λ f q w differs. kept_there f q w differs;
  read_there = λ p t w there h. absurd (found_absent (lookup p w) t there h);
}
  where
    found_absent : (o : Option String) (t : String) → o ≡ some t → reading_of o ≢ absent
    found_absent none t there h = absurd (ground arith)
    found_absent (some s) t there h = absurd (ground arith)

-- One private key, without content.
abbrev crypto : Crypto (Unit {0})
crypto = record {
  public_of = λ p. record { modulus = []; exponent = 65537 };
  pem_decode = λ text. some ("RSA PRIVATE KEY", []);
  parse_pkcs1 = λ bytes. some tt;
  parse_pkcs8 = λ bytes. none;
  marshal_pkcs1 = λ p. [];
  marshal_pkix = λ public. some [];
  pem_encode = λ kind bytes. kind;
  digest_text = λ bytes. "k";
}

abbrev codec : CodecLaws crypto
codec = record { pem = λ private. refl; pkcs1 = λ private. refl }

abbrev config : AuthConfig
config = record {
  rsa_private_key = "";
  rsa_private_key_file = "keys/key.pem";
  oauth = record {
    state_expiration_duration = pos 0;
    github_client_id = "";
    github_client_secret = "";
    fetch_email_if_missing = true;
  };
  token = record {
    issuer = "identra";
    access_token_expiration = pos 100;
    refresh_token_expiration = pos 1000;
    service_token_expiration = pos 50;
  };
}

abbrev draw : Dict String → Option (Unit {0}) × Dict String
draw w = (some tt, w)

abbrev keys : KeyManager (Unit {0}) × TokenConfig (Unit {0})
keys = let km = install crypto tt empty in (km, token_config km config.token)

abbrev started : Dict String
started = (build_token_keys files crypto draw config []).1

first_start : build_token_keys files crypto draw config [] ≡ (ok keys, started)
unfolding build_token_keys ◌>>=◌ trim_space initialize_key_manager_from_file lookup
    generate_key_file generate_key_pair export_private_key_pem write_private_key_file
    fill_and_rename insert remove is_initialized install token_config
first_start = refl

temp_differs : ◌≢◌ {A = String} "keys/temp" (trim_space config.rsa_private_key_file)
unfolding trim_space
temp_differs h = let same : false ≡ true = ap (λ s. s == "keys/key.pem") h in absurd (ground arith)

always_differs :
    (d t : String) (w : Dict String)
    → (files.create_temp d w).0 ≡ some t
    → t ≢ trim_space config.rsa_private_key_file
always_differs d t w e h = let same : "keys/temp" ≡ t = ground arith in temp_differs (same ∙ h)

readable : (files.read_file (trim_space config.rsa_private_key_file) started).0 ≢ unreadable
readable h = absurd (ground arith)

restart_keeps_key_example : (build_token_keys files crypto draw config started).0 ≡ ok keys
restart_keeps_key_example =
    restart_keeps_key files laws crypto codec draw config [] started started keys always_differs
      first_start refl readable

abbrev whole : GrpcConfig
whole = record {
  grpc_port = 50051;
  redis = record { urls = "redis:6379" ∷ []; password = "" };
  smtp_mailer = record {
    host = "";
    port = pos 0;
    username = "";
    password = "";
    from_email = "";
    from_name = "";
    start_tls = false;
    auth_enabled = false;
  };
  persistence = record { kind = "sqlite"; path = "data/identra.db" };
  auth = config;
  bootstrap = record {
    enabled = false;
    name = "";
    client_id = "";
    client_secret = "";
    scopes = [];
  };
}

validate_iff_example : (validate (λ c. c) (λ s. s) whole ≡ ok tt) ↔ (
    (◌≢◌ {A = ℕ} 50051 0)
    × ValidRedis whole.redis
    × ValidMailer whole.smtp_mailer
    × ValidPersistence (λ c. c) (λ s. s) whole.persistence
    × ValidAuth config
    × ValidBootstrap whole.bootstrap)
validate_iff_example = validate_iff (λ c. c) (λ s. s) whole
