-- ===== src/Service/Login.antt =====
-- What the login handlers of internal/identra share: the blocks on the login limiter that
-- service_password.go and service_email_code.go repeat, and service_user.go.
use identra.Common.{String, Bool, true, false, Option, none, some, List}
use identra.Common.Exec.{Result, ok, err, Action}
use identra.Service.{
  Fault, Status, status, resource_exhausted, UserModel, RateLimiter, Service, Handler,
}
use identra.Service.RateLimit.{rate_limit_allowed, record_rate_limit}

-- An error of the limiter lets the request through.
abbrev pub open_or_refused : Status → Result Fault Bool → Result Status (Unit {0})
open_or_refused refusal (err e) = ok tt
open_or_refused refusal (ok true) = ok tt
open_or_refused refusal (ok false) = err refusal

module _ {W : Type 0} where
  unfoldable pub limit_guard : Option (RateLimiter W) → List String → Status → Handler W (Unit {0})
  limit_guard none keys refusal w = (ok tt, w)
  limit_guard (some limiter) keys refusal w =
      let (allowed, w') = rate_limit_allowed limiter keys w in (open_or_refused refusal allowed, w')

  -- a failed attempt; an error is logged and dropped
  unfoldable pub note_failure : Option (RateLimiter W) → List String → Action W (Unit {0})
  note_failure none keys w = (tt, w)
  note_failure (some limiter) keys w = (tt, (record_rate_limit limiter keys w).1)

  unfoldable pub forget_failures : Option (RateLimiter W) → String → Action W (Unit {0})
  forget_failures none key w = (tt, w)
  forget_failures (some limiter) key w = (tt, (limiter.reset key w).1)

abbrev pub too_many_attempts : Status
too_many_attempts = status resource_exhausted "too many failed attempts, please try again later"

module _ {W P : Type 0} (s : Service W P) where
  -- recordLogin: an error of the update is logged and dropped
  unfoldable pub record_login : UserModel → Action W (Unit {0})
  record_login user w =
      let (now, w') = s.runtime.now w in
      (tt, (s.user_store.update (record user { last_login_at = some now }) w').1)
