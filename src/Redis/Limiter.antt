-- ===== src/Redis/Limiter.antt =====
-- internal/cache/redis_rate_limiter.go: the counters of attempts.
pub mod Bound
use Prim.Native.String
use identra.Common.{
  ℕ, String, ◌/◌, Bool, true, false, ◌||◌, Option, none, some, eqb, ltb, if◌then◌else◌,
}
use identra.Common.Exec.{Result, ok, err, Exec}
use identra.Service.{Fault, other, RateLimiter}
use identra.Redis.{Redis, send}

pub record RedisRateLimiter (W : Type 0) : Type 0 where
  pub rdb : Redis W
  pub prefix : String
  pub max_attempts : ℕ
  pub window : ℕ

-- NewRedisRateLimiter; a number that is not positive is 0 here.
unfoldable pub new_redis_rate_limiter :
    {W : Type 0} → Option (Redis W) → String → ℕ → ℕ → Result String (RedisRateLimiter W)
new_redis_rate_limiter none prefix max_attempts window =
    err "redis client is required for rate limiter"
new_redis_rate_limiter (some rdb) prefix max_attempts window =
    if eqb max_attempts 0
    then err "maxAttempts must be positive"
    else if eqb window 0
    then err "window must be positive"
    else ok (record { rdb = rdb; prefix = prefix; max_attempts = max_attempts; window = window })

module _ {W : Type 0} (r : RedisRateLimiter W) where
  abbrev pub full_key : String → String
  full_key key = String.◌++◌ r.prefix key

  -- The comparison of isAllowedScript; Lua raises an error on a value that is not a number.
  abbrev pub below : Option ℕ → Result Fault Bool
  below none = err other
  below (some n) = ok (ltb n r.max_attempts)

  -- isAllowedScript
  abbrev pub allowed : Option String → Result Fault Bool
  allowed none = ok true
  allowed (some v) = below (r.rdb.tonumber v)

  unfoldable pub is_allowed : String → Exec W Fault Bool
  is_allowed key = send r.rdb λ w. (allowed (r.rdb.get (full_key key) w), w)

  -- int(r.window.Seconds())
  abbrev pub window_seconds : ℕ
  window_seconds = r.window / 1000000000

  -- recordScript, after INCR
  abbrev pub first_expires : String → Option ℕ × W → Result Fault (Unit {0}) × W
  first_expires k (none, v) = (err other, v)
  first_expires k (some n, v) = (ok tt, if eqb n 1 then r.rdb.expire k window_seconds v else v)

  unfoldable pub record_attempt : String → Exec W Fault (Unit {0})
  record_attempt key = send r.rdb λ w. first_expires (full_key key) (r.rdb.incr (full_key key) w)

  unfoldable pub reset : String → Exec W Fault (Unit {0})
  reset key = send r.rdb λ w. (ok tt, r.rdb.del (full_key key) w)

  unfoldable pub rate_limiter : RateLimiter W
  rate_limiter = record { is_allowed = is_allowed; record_attempt = record_attempt; reset = reset }
