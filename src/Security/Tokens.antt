-- ===== src/Security/Tokens.antt =====
-- internal/security/tokens.go: the claims, the token pair, and the three validators.
pub mod Pair
pub mod Kinds
use identra.Common.{
  ℕ, String, ◌==◌, ◌+◌, Bool, true, false, not, ◌||◌, Option, none, some, List, [], ◌∷◌,
  if◌then◌else◌,
}
use identra.Common.Exec.{Result, ok, err, Action, Exec, pure, raise, run, ◌>>=◌, ◌>>◌}
use identra.Security.Keys.{PublicKey}

abbrev pub access_token_type : String
access_token_type = "access"

abbrev pub refresh_token_type : String
refresh_token_type = "refresh"

abbrev pub service_token_type : String
service_token_type = "service"

-- StandardClaims, with the fields of `jwt.RegisteredClaims` that the program sets. `token_id` is
-- the JSON field `jti`, which hides the embedded one. Times are nanoseconds.
pub record Claims : Type 0 where
  pub issuer : String
  pub subject : String
  pub expires_at : Option ℕ
  pub issued_at : Option ℕ
  pub not_before : Option ℕ
  pub user_id : String
  pub token_type : String
  pub token_id : String
  pub service_account_id : String
  pub scopes : List String

pub record TokenConfig (P : Type 0) : Type 0 where
  pub private_key : Option P
  pub public_key : Option PublicKey
  pub key_id : String
  pub issuer : String
  pub access_token_expiration : ℕ
  pub refresh_token_expiration : ℕ
  pub service_token_expiration : ℕ

pub record Token : Type 0 where
  pub value : String
  pub expires_at : ℕ

pub record TokenPair : Type 0 where
  pub access_token : Token
  pub refresh_token : Token

-- What the program uses of github.com/golang-jwt/jwt, for RSA keys.
pub record Jwt (P : Type 0) : Type 0 where
  -- jwt.NewNumericDate
  pub numeric_date : ℕ → ℕ
  -- NewWithClaims with the header `kid`, and SignedString, by RS256
  pub sign : Claims → Option P → String → Option String
  -- ParseWithClaims at a time, with the method check of `ValidateToken`'s key function
  pub parse : String → Option PublicKey → ℕ → Option Claims

-- The clock and the random source of the process, on the state `W`.
pub record Runtime (W : Type 0) : Type 0 where
  pub now : Action W ℕ
  -- the hexadecimal text of so many random bytes
  pub random_hex : ℕ → Action W (Option String)
  -- a random number below the bound
  pub random_below : ℕ → Action W (Option ℕ)
  pub new_uuid : Action W String

pub data TokenError : Type 0 where
  no_entropy unsignable unparsable invalid_claims : TokenError

abbrev pub or_error : {A : Type 0} → TokenError → Option A → Result TokenError A
or_error e none = err e
or_error e (some a) = ok a

module _ {W P : Type 0} (runtime : Runtime W) (jwt : Jwt P) where
  unfoldable pub new_standard_claims : String → String → String → ℕ → Exec W TokenError Claims
  new_standard_claims user_id token_type issuer expires_at = do
    drawn ← run (runtime.random_hex 16)
    token_id ← λ w. (or_error no_entropy drawn, w)
    now ← run runtime.now
    pure (record {
      issuer = issuer;
      subject = user_id;
      expires_at = some (jwt.numeric_date expires_at);
      issued_at = some (jwt.numeric_date now);
      not_before = some (jwt.numeric_date now);
      user_id = user_id;
      token_type = token_type;
      token_id = token_id;
      service_account_id = "";
      scopes = [];
    })

  unfoldable pub generate_token : Claims → Option P → String → Exec W TokenError String
  generate_token claims private_key key_id w =
      (or_error unsignable (jwt.sign claims private_key key_id), w)

  unfoldable pub new_token_pair : String → TokenConfig P → Exec W TokenError TokenPair
  unfolding new_standard_claims generate_token
  new_token_pair user_id config = do
    now ← run runtime.now
    let access_expires_at = now + config.access_token_expiration
    let refresh_expires_at = now + config.refresh_token_expiration
    access_claims ← new_standard_claims user_id access_token_type config.issuer access_expires_at
    access_token ← generate_token access_claims config.private_key config.key_id
    refresh_claims ← new_standard_claims user_id refresh_token_type config.issuer refresh_expires_at
    refresh_token ← generate_token refresh_claims config.private_key config.key_id
    pure (record {
      access_token = record { value = access_token; expires_at = access_expires_at };
      refresh_token = record { value = refresh_token; expires_at = refresh_expires_at };
    })

  unfoldable pub new_service_token : String → List String → TokenConfig P → Exec W TokenError Token
  unfolding new_standard_claims generate_token
  new_service_token service_account_id scopes config = do
    now ← run runtime.now
    let expires_at = now + config.service_token_expiration
    claims ← new_standard_claims service_account_id service_token_type config.issuer expires_at
    value ←
        generate_token
          (record claims { user_id = ""; service_account_id = service_account_id; scopes = scopes })
          config.private_key config.key_id
    pure (record { value = value; expires_at = expires_at })

module _ {P : Type 0} (jwt : Jwt P) where
  abbrev pub validate_token : String → Option PublicKey → ℕ → Result TokenError Claims
  validate_token token public_key now = or_error unparsable (jwt.parse token public_key now)

  abbrev pub reject_if : (Claims → Bool) → Result TokenError Claims → Result TokenError Claims
  reject_if bad (ok claims) = if bad claims then err invalid_claims else ok claims
  reject_if bad (err e) = err e

  unfoldable pub validate_access_token : String → Option PublicKey → ℕ → Result TokenError Claims
  validate_access_token token public_key now =
      reject_if (λ c. not (c.token_type == access_token_type)) (validate_token token public_key now)

  unfoldable pub validate_refresh_token : String → Option PublicKey → ℕ → Result TokenError Claims
  validate_refresh_token token public_key now =
      reject_if (λ c. not (c.token_type == refresh_token_type))
        (validate_token token public_key now)

  unfoldable pub validate_service_token : String → Option PublicKey → ℕ → Result TokenError Claims
  validate_service_token token public_key now =
      reject_if (λ c. not (c.token_type == service_token_type) || (c.service_account_id == ""))
        (validate_token token public_key now)

module _ {W P : Type 0} (runtime : Runtime W) (jwt : Jwt P) where
  unfoldable pub refresh_token_pair : String → TokenConfig P → Exec W TokenError TokenPair
  refresh_token_pair refresh_token config = do
    now ← run runtime.now
    claims ← λ w. (validate_refresh_token jwt refresh_token config.public_key now, w)
    new_token_pair runtime jwt claims.user_id config
