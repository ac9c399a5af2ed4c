-- ===== src/Redis/Revocations.antt =====
-- internal/cache/redis_refresh_token_revocation_store.go: the refresh tokens that have been revoked.
pub mod SingleUse
use Prim.Native.String
use identra.Common.{
  ℕ, String, ◌==◌, ◌-◌, Bool, true, false, not, Option, none, some, eqb, if◌then◌else◌,
}
use identra.Common.Exec.{Result, ok, err, Exec, pure, run, ◌>>=◌}
use identra.Security.Tokens.{Runtime}
use identra.Service.{Fault, RefreshTokenRevocationStore}
use identra.Redis.{Redis, send}

pub record RedisRevocationStore (W : Type 0) : Type 0 where
  pub rdb : Redis W
  pub prefix : String

-- NewRedisRefreshTokenRevocationStore
unfoldable pub new_redis_refresh_token_revocation_store :
    {W : Type 0} → Option (Redis W) → Result String (RedisRevocationStore W)
new_redis_refresh_token_revocation_store none =
    err "redis client is required for refresh token revocation store"
new_redis_refresh_token_revocation_store (some rdb) =
    ok (record { rdb = rdb; prefix = "identra:revoked_refresh:" })

abbrev pub is_present : Option String → Bool
is_present none = false
is_present (some v) = true

module _ {W : Type 0} (runtime : Runtime W) (s : RedisRevocationStore W) where
  abbrev pub key : String → String
  key token_id = String.◌++◌ s.prefix token_id

  -- The time that is left stops at 0, where nothing is written.
  unfoldable pub revoke : String → ℕ → Exec W Fault (Unit {0})
  revoke token_id expires_at = if token_id == "" then pure tt else do
    now ← run runtime.now
    (if eqb (expires_at - now) 0
        then pure tt
        else send s.rdb λ w. (ok tt, s.rdb.set (key token_id) "1" (expires_at - now) w))

  unfoldable pub is_revoked : String → Exec W Fault Bool
  is_revoked token_id =
      if token_id == ""
      then pure false
      else send s.rdb λ w. (ok (is_present (s.rdb.get (key token_id) w)), w)

  unfoldable pub revocation_store : RefreshTokenRevocationStore W
  revocation_store = record { revoke = revoke; is_revoked = is_revoked }
