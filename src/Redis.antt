-- ===== src/Redis.antt =====
-- internal/cache: a call of go-redis, and the commands that the stores and their scripts use.
pub mod EmailCodes
pub mod States
pub mod Limiter
pub mod Revocations
use identra.Common.{
  ℕ, suc, String, ◌==◌, ◌≡◌, ◌<◌, ◌⊎◌, Bool, true, false, Option, none, some, if◌then◌else◌,
}
use identra.Common.Exec.{Result, ok, err, Action, Exec}
use identra.Security.Tokens.{Runtime}
use identra.Service.{Fault, other}

-- A Redis client. A command, or a script, which Redis runs as one step, reaches the server where
-- `connection` says so; the rest is what the server then does. SET is given a Go duration in
-- nanoseconds, which go-redis sends as whole milliseconds, and EXPIRE seconds.
pub record Redis (W : Type 0) : Type 0 where
  pub connection : Action W Bool
  pub get : String → W → Option String
  pub set : String → String → ℕ → W → W
  pub del : String → W → W
  -- no answer where the value is not a number
  pub incr : String → W → Option ℕ × W
  pub expire : String → ℕ → W → W
  -- the text in which INCR keeps a number, and Lua's tonumber
  pub numeral : ℕ → String
  pub tonumber : String → Option ℕ

module _ {W : Type 0} (rdb : Redis W) where
  abbrev reached : {A : Type 0} → Exec W Fault A → Bool × W → Result Fault A × W
  reached script (false, v) = (err other, v)
  reached script (true, v) = script v

  -- A command or a script, run at the server.
  unfoldable pub send : {A : Type 0} → Exec W Fault A → Exec W Fault A
  send script w = reached script (rdb.connection w)

-- What the stores rely on, from the documentation of the commands.
pub record RedisLaws {W : Type 0} (rdb : Redis W) : Type 0 where
  pub get_set :
      (k j v : String) (ttl : ℕ) (w : W)
      → 0 < ttl
      → rdb.get j (rdb.set k v ttl w) ≡ (if k == j then some v else rdb.get j w)
  pub get_del :
      (k j : String) (w : W) → rdb.get j (rdb.del k w) ≡ (if k == j then none else rdb.get j w)
  -- until a call reaches the server a value may expire, and none appears
  pub settles :
      (k : String) (w : W)
      → (rdb.get k (rdb.connection w).1 ≡ rdb.get k w) ⊎ (rdb.get k (rdb.connection w).1 ≡ none)
  -- INCR of a key that is absent, and of one that holds a number
  pub incr_first :
      (k : String) (w : W)
      → rdb.get k w ≡ none
      → ((rdb.incr k w).0 ≡ some 1) × (rdb.get k (rdb.incr k w).1 ≡ some (rdb.numeral 1))
  pub incr_next :
      (k : String) (n : ℕ) (w : W)
      → suc n < 9223372036854775808
      → rdb.get k w ≡ some (rdb.numeral n)
      → ((rdb.incr k w).0 ≡ some (suc n))
        × (rdb.get k (rdb.incr k w).1 ≡ some (rdb.numeral (suc n)))
  pub expire_later :
      (k j : String) (s : ℕ) (w : W) → 0 < s → rdb.get j (rdb.expire k s w) ≡ rdb.get j w
  -- a time to live that is not positive deletes the key
  pub expire_now : (k : String) (w : W) → rdb.get k (rdb.expire k 0 w) ≡ none
  -- a number of Lua's is exact below 2 ^ 53
  pub number : (n : ℕ) → n < 9007199254740992 → rdb.tonumber (rdb.numeral n) ≡ some n
