-- ===== src/ServiceAccount.antt =====
-- internal/serviceaccount/bootstrap.go: records of service accounts and their credentials.
pub mod Scopes
use Prim.Native.Char.{code}
use Prim.Native.String
use Prim.Native.String.{len}
use Prim.Native.Nat.{pred}
use identra.Common.{
  ℕ, String, ◌==◌, Bool, true, false, not, ◌&&◌, ◌||◌, Option, none, some, List, [], ◌∷◌, ltb, leb,
  eqb, any, sort_strings, if◌then◌else◌,
}
use identra.Common.Exec.{Result, ok, err, Action, Exec, pure, raise, run, ◌>>=◌, ◌>>◌, refuse_if}
use identra.Text.{trim_space, is_empty}
use identra.Security.Tokens.{Runtime}

pub record Account : Type 0 where
  pub id : String
  pub name : String
  pub scopes : List String
  pub created_at : ℕ
  pub disabled_at : Option ℕ

pub record BootstrapRecord : Type 0 where
  pub account : Account
  pub credential_id : String
  pub secret_hash : String

-- ErrAlreadyExists, ErrBootstrapCompleted, ErrNotFound, ErrInvalidCredential; the errors that
-- this file makes for a bad request and for a random source that fails; any other error, by its text.
pub data AccountError : Type 0 where
  already_exists bootstrap_completed not_found invalid_credential no_entropy : AccountError
  invalid_scope other : String → AccountError
  name_required name_too_long scope_required : AccountError
  credentials_not_together invalid_client_id secret_too_short secret_too_long : AccountError

-- serviceaccount.Store
pub record Store (W : Type 0) : Type 0 where
  pub bootstrap : BootstrapRecord → Bool → Bool → Action W (Result AccountError (Account × Bool))
  pub create : BootstrapRecord → Action W (Result AccountError (Unit {0}))
  pub authenticate : String → String → ℕ → Action W (Result AccountError Account)
  pub get_by_id : String → Action W (Result AccountError Account)
  pub list : Action W (Result AccountError (List Account))
  pub disable : String → ℕ → Action W (Result AccountError Account)
  pub rotate_credential : String → String → String → ℕ → Action W (Result AccountError (Unit {0}))

-- [a-zA-Z0-9]
abbrev is_alnum : ℕ → Bool
is_alnum c = (leb 0x61 c && leb c 0x7a) || (leb 0x41 c && leb c 0x5a) || (leb 0x30 c && leb c 0x39)

-- [a-zA-Z0-9._:*/-]
abbrev is_scope_char : ℕ → Bool
is_scope_char c =
    is_alnum c || eqb c b'.' || eqb c b'_' || eqb c b':' || eqb c b'*' || eqb c b'/' || eqb c b'-'

-- at most so many characters of the class
scope_tail : String → ℕ → Bool
scope_tail String.[] room = true
scope_tail (String.◌∷◌ c s) room =
    is_scope_char (code c) && (ltb 0 room && scope_tail s (pred room))

-- scopePattern.MatchString
unfoldable pub matches_scope : String → Bool
unfolding scope_tail
matches_scope String.[] = false
matches_scope (String.◌∷◌ c s) = is_alnum (code c) && scope_tail s 127

-- The keys of the map `unique`: a scope that is there already is not added again.
abbrev pub contains : String → List String → Bool
contains s = any (λ t. t == s)

add_unique : String → List String → List String
add_unique s unique = if contains s unique then unique else s ∷ unique

collect_scopes : List String → List String → Result AccountError (List String)
unfolding add_unique
collect_scopes unique [] = ok unique
collect_scopes unique (value ∷ values) =
    let scope = trim_space value in
    let rest = collect_scopes (add_unique scope unique) values in
    if matches_scope scope then rest else err (invalid_scope value)

sorted_or_required : Result AccountError (List String) → Result AccountError (List String)
sorted_or_required (err e) = err e
sorted_or_required (ok []) = err scope_required
sorted_or_required (ok (s ∷ ss)) = ok (sort_strings (s ∷ ss))

unfoldable pub normalize_scopes : List String → Result AccountError (List String)
unfolding collect_scopes sorted_or_required
normalize_scopes values = sorted_or_required (collect_scopes [] values)

abbrev pub drawn_or_error : Option String → Result AccountError String
drawn_or_error none = err no_entropy
drawn_or_error (some s) = ok s

-- `random_base64` answers the base64url text of so many random bytes, and `secret_hash` is the
-- base64url text of the SHA-256 digest of a secret.
pub record Secrets (W : Type 0) : Type 0 where
  pub random_base64 : ℕ → Action W (Option String)
  pub secret_hash : String → String

-- A value, or an error, that the code has computed.
abbrev pub yield : {W E A : Type 0} → Result E A → Exec W E A
yield r w = (r, w)

abbrev pub prefixed : String → Option String → Option String
prefixed prefix none = none
prefixed prefix (some s) = some (String.◌++◌ prefix s)

pub record BootstrapRequest : Type 0 where
  pub name : String
  pub scopes : List String
  pub client_id : String
  pub client_secret : String
  pub if_not_exists : Bool
  pub force : Bool

-- The secret is empty where the result holds none.
pub record BootstrapResult : Type 0 where
  pub account : Account
  pub client_secret : String
  pub created : Bool

module _ {W : Type 0} (runtime : Runtime W) (secrets : Secrets W) where
  unfoldable pub random_value : String → ℕ → Exec W AccountError String
  random_value prefix size = do
    drawn ← run (secrets.random_base64 size)
    yield (drawn_or_error (prefixed prefix drawn))

  unfoldable pub new_record : String → List String → Exec W AccountError (BootstrapRecord × String)
  new_record given_name given_scopes =
      let name = trim_space given_name in
      do
        refuse_if (name == "") name_required
        refuse_if (ltb 128 (len name)) name_too_long
        scopes ← yield (normalize_scopes given_scopes)
        client_id ← random_value "isa_" 18
        credential_id ← random_value "iac_" 18
        client_secret ← random_value "is_" 32
        now ← run runtime.now
        pure (
          record {
            account = record {
              id = client_id;
              name = name;
              scopes = scopes;
              created_at = now;
              disabled_at = none;
            };
            credential_id = credential_id;
            secret_hash = secrets.secret_hash client_secret;
          },
          client_secret,
        )

  -- The part of `newBootstrapRecord` for credentials that the operator has chosen.
  unfoldable pub configured_record :
      BootstrapRequest → String → String → Exec W AccountError (BootstrapRecord × String)
  configured_record req client_id client_secret =
      let name = trim_space req.name in
      do
        refuse_if (client_id == "" || client_secret == "") credentials_not_together
        refuse_if (not (matches_scope client_id)) invalid_client_id
        refuse_if (ltb (len client_secret) 32) secret_too_short
        refuse_if (ltb 512 (len client_secret)) secret_too_long
        refuse_if (name == "") name_required
        refuse_if (ltb 128 (len name)) name_too_long
        scopes ← yield (normalize_scopes req.scopes)
        credential_id ← random_value "iac_" 18
        now ← run runtime.now
        pure (
          record {
            account = record {
              id = client_id;
              name = name;
              scopes = scopes;
              created_at = now;
              disabled_at = none;
            };
            credential_id = credential_id;
            secret_hash = secrets.secret_hash client_secret;
          },
          client_secret,
        )

  unfoldable pub new_bootstrap_record :
      BootstrapRequest → Exec W AccountError (BootstrapRecord × String)
  new_bootstrap_record req =
      let client_id = trim_space req.client_id in
      let client_secret = trim_space req.client_secret in
      if (client_id == "") && (client_secret == "")
      then new_record req.name req.scopes
      else configured_record req client_id client_secret

  unfoldable pub bootstrap : Store W → BootstrapRequest → Exec W AccountError BootstrapResult
  bootstrap store req = do
    (rec, client_secret) ← new_bootstrap_record req
    (account, created) ← store.bootstrap rec req.if_not_exists req.force
    pure (record {
      account = account;
      client_secret = if created then client_secret else "";
      created = created;
    })

  unfoldable pub create : Store W → String → List String → Exec W AccountError BootstrapResult
  create store name scopes = do
    (rec, client_secret) ← new_record name scopes
    store.create rec
    pure (record { account = rec.account; client_secret = client_secret; created = true })

  unfoldable pub authenticate : Store W → String → String → Exec W AccountError Account
  authenticate store given_id given_secret =
      let client_id = trim_space given_id in
      let client_secret = trim_space given_secret in
      do
        refuse_if (client_id == "" || client_secret == "") invalid_credential
        now ← run runtime.now
        store.authenticate client_id (secrets.secret_hash client_secret) now

  unfoldable pub rotate_credential : Store W → String → Exec W AccountError String
  rotate_credential store client_id = do
    credential_id ← random_value "iac_" 18
    secret ← random_value "is_" 32
    now ← run runtime.now
    store.rotate_credential (trim_space client_id) credential_id (secrets.secret_hash secret) now
    pure secret
