-- ===== src/Redis/States.antt =====
-- internal/cache/redis_oauth_state_store.go: the states of OAuth logins.
pub mod SingleUse
use Prim.Native.String
use identra.Common.{ℕ, String, ◌==◌, Bool, true, false, Option, none, some, eqb, if◌then◌else◌}
use identra.Common.Exec.{Result, ok, err, Exec}
use identra.Service.{Fault, other}
use identra.Oauth.StateStore.{State, minute}
use identra.Redis.{Redis, send}

-- oauthStateValue
pub record StateValue : Type 0 where
  pub provider : String
  pub redirect_url : String

-- encoding/json on a state's value; `none` is an error.
pub record StateJson : Type 0 where
  pub marshal : StateValue → Option String
  pub unmarshal : String → Option StateValue

pub record RedisStateStore (W : Type 0) : Type 0 where
  pub rdb : Redis W
  pub ttl : ℕ
  pub prefix : String

-- NewRedisOAuthStateStore
unfoldable pub new_redis_oauth_state_store :
    {W : Type 0} → ℕ → Option (Redis W) → Result String (RedisStateStore W)
new_redis_oauth_state_store ttl none = err "redis client is required for oauth state store"
new_redis_oauth_state_store ttl (some rdb) =
    ok (record {
      rdb = rdb;
      ttl = if eqb ttl 0 then minute else ttl;
      prefix = "identra:oauth_state:";
    })

module _ {W : Type 0} (json : StateJson) (s : RedisStateStore W) where
  abbrev pub key : String → String
  key state = String.◌++◌ s.prefix state

  unfoldable pub add : String → String → String → Exec W Fault (Unit {0})
  add state provider redirect_url w =
      elim (json.marshal (record { provider = provider; redirect_url = redirect_url })) [
        | none ↦ (err other, w)
        | some val ↦ send s.rdb (λ v. (ok tt, s.rdb.set (key state) val s.ttl v)) w
      ]

  -- consumeStateScript
  abbrev pub take_value : String → Option String → W → Option String × W
  take_value k none w = (none, w)
  take_value k (some v) w = (some v, s.rdb.del k w)

  abbrev pub state_of : Option StateValue → Result Fault (Option State)
  state_of none = err other
  state_of (some val) =
      ok
        (some (record { provider = val.provider; redirect_url = val.redirect_url; expires_at = 0 }))

  -- redis.Nil, the answer for a script's nil, is no error.
  abbrev pub decoded : Option String → Result Fault (Option State)
  decoded none = ok none
  decoded (some res) = state_of (json.unmarshal res)

  unfoldable pub consume : String → Exec W Fault (Option State)
  consume state =
      send s.rdb
        λ w. let (res, v) = take_value (key state) (s.rdb.get (key state) w) w in (decoded res, v)
