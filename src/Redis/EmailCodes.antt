-- ===== src/Redis/EmailCodes.antt =====
-- internal/cache/redis_email_code_store.go: the codes of e-mail logins.
pub mod SingleUse
use Prim.Native.String
use identra.Common.{
  ℕ, String, ◌==◌, ◌≡◌, ◌≢◌, Bool, true, false, Option, none, some, eqb, if◌then◌else◌,
}
use identra.Common.Exec.{Result, ok, err, Exec}
use identra.Service.{Fault, EmailCodeStore}
use identra.Redis.{Redis, send}

pub record RedisEmailCodeStore (W : Type 0) : Type 0 where
  pub rdb : Redis W
  pub ttl : ℕ
  pub prefix : String

-- NewRedisEmailCodeStore; a duration that is not positive is 0 here, and ten minutes are the default.
unfoldable pub new_redis_email_code_store :
    {W : Type 0} → ℕ → Option (Redis W) → Result String (RedisEmailCodeStore W)
new_redis_email_code_store ttl none = err "redis client is required for email code store"
new_redis_email_code_store ttl (some rdb) = ok (record {
  rdb = rdb;
  ttl = if eqb ttl 0 then 600000000000 else ttl;
  prefix = "identra:email_code:";
})

module _ {W : Type 0} (s : RedisEmailCodeStore W) where
  abbrev pub key : String → String
  key email = String.◌++◌ s.prefix email

  unfoldable pub set : String → String → Exec W Fault (Unit {0})
  set email code = send s.rdb λ w. (ok tt, s.rdb.set (key email) code s.ttl w)

  -- consumeEmailCodeScript, by what it returns: 0 is `none`, -1 and 1 are the test of the code.
  abbrev pub compare_and_delete : String → String → Option String → W → Option Bool × W
  compare_and_delete k code none w = (none, w)
  compare_and_delete k code (some v) w =
      if v == code then (some true, s.rdb.del k w) else (some false, w)

  abbrev pub is_one : Option Bool → Bool
  is_one none = false
  is_one (some same) = same

  unfoldable pub consume : String → String → Exec W Fault Bool
  consume email code = send s.rdb λ w.
      let (res, v) = compare_and_delete (key email) code (s.rdb.get (key email) w) w in
      (ok (is_one res), v)

  unfoldable pub email_code_store : EmailCodeStore W
  email_code_store = record { set = set; consume = consume }
