-- ===== src/Service/RateLimit.antt =====
-- internal/identra/service_rate_limit.go, and `accessTokenFromMetadata` of service_login_info.go.
use Prim.Native.Char.{Char}
use Prim.Native.String
use identra.Common.{String, ◌==◌, Bool, true, false, List, [], ◌∷◌, if◌then◌else◌}
use identra.Common.Exec.{Result, ok, err, Action}
use identra.Text.{trim_space, before, to_lower, fields, equal_fold}
use identra.Service.{Metadata, Fault, RateLimiter}

unfoldable pub first_header_value : String → String
first_header_value value = trim_space (before b',' (trim_space value))

-- The first identity in the values of one header; `next` is the search in the headers after it.
first_identity : List String → String → String
first_identity [] next = next
first_identity (value ∷ values) next =
    let later = first_identity values next in
    let identity = first_header_value value in if identity == "" then later else identity

unfoldable pub client_rate_limit_identity : Metadata → String
unfolding first_header_value first_identity
client_rate_limit_identity md =
    first_identity (md "x-forwarded-for")
      (first_identity (md "x-real-ip") (first_identity (md "x-client-id") ""))

module _ (lower_rune : Char → Char) where
  unfoldable pub email_rate_limit_key : String → String → String
  email_rate_limit_key scope email =
      String.◌++◌ scope (String.◌++◌ ":email:" (to_lower lower_rune (trim_space email)))

  unfoldable pub rate_limit_keys : Metadata → String → String → List String
  rate_limit_keys md scope email =
      let client = client_rate_limit_identity md in
      email_rate_limit_key scope email
      ∷ (if client == "" then [] else String.◌++◌ scope (String.◌++◌ ":client:" client) ∷ [])

module _ {W : Type 0} (limiter : RateLimiter W) where
  -- `rest` is the loop on the keys that are left.
  check_next : Result Fault Bool → Action W (Result Fault Bool) → Action W (Result Fault Bool)
  check_next (err e) rest w = (err e, w)
  check_next (ok false) rest w = (ok false, w)
  check_next (ok true) rest w = rest w

  unfoldable pub rate_limit_allowed : List String → Action W (Result Fault Bool)
  unfolding check_next
  rate_limit_allowed [] w = (ok true, w)
  rate_limit_allowed (key ∷ keys) w =
      let (allowed, w') = limiter.is_allowed key w in
      check_next allowed (rate_limit_allowed keys) w'

  record_next :
      Result Fault (Unit {0})
      → Action W (Result Fault (Unit {0}))
      → Action W (Result Fault (Unit {0}))
  record_next (err e) rest w = (err e, w)
  record_next (ok _) rest w = rest w

  unfoldable pub record_rate_limit : List String → Action W (Result Fault (Unit {0}))
  unfolding record_next
  record_rate_limit [] w = (ok tt, w)
  record_rate_limit (key ∷ keys) w =
      let (recorded, w') = limiter.record_attempt key w in
      record_next recorded (record_rate_limit keys) w'

bearer_word : List String → String
bearer_word (scheme ∷ token ∷ []) = if equal_fold scheme "Bearer" then token else ""
bearer_word _ = ""

unfoldable pub bearer_token : String → String
unfolding bearer_word
bearer_token header = bearer_word (fields (trim_space header))

first_bearer : List String → String
first_bearer [] = ""
first_bearer (header ∷ headers) =
    let later = first_bearer headers in
    let token = bearer_token header in if token == "" then later else token

unfoldable pub access_token_from_metadata : Metadata → String
unfolding bearer_token first_bearer
access_token_from_metadata md = first_bearer (md "authorization")
