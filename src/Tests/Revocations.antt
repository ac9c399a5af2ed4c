-- ===== src/Tests/Revocations.antt =====
-- A session whose revocations are kept in Redis.
use identra.Common.{
  ℕ, String, ◌≡◌, refl, ◌≢◌, ◌∙◌, ◌+◌, true, Option, none, some, [], ◌∷◌, arith, lookup, insert,
  remove, lookup-insert, eq_refl,
}
use identra.Common.Exec.{ok, ◌>>=◌}
use identra.Service.{Service, attempt}
use identra.Service.Session.{
  validated_refresh, ensure_refresh_token_active, revoke_refresh_claims, token_user,
  refresh_session, revoke_session,
}
use identra.Security.Tokens.{new_token_pair, validate_refresh_token}
use identra.Text.{trim_space}
use identra.Redis.{Redis, send}
use identra.Redis.Revocations.{RedisRevocationStore, revocation_store, is_revoked, revoke}
use identra.Redis.Revocations.SingleUse.{in_ms, Lifetimes, redis_refresh_serves_once}
use identra.Tests.Claims.{refresh_claims}
use identra.Tests.World.{World, world, runtime, service, issued}
use identra.Tests.Sessions.{reads}

abbrev as_one : Option ℕ → Option String
as_one none = none
as_one (some e) = some "1"

-- The keys with the times until which they stay; the time is that of the world's clock.
abbrev rdb : Redis World
rdb = record {
  connection = λ w. (true, w);
  get = λ k w. as_one (lookup k w.revoked);
  set = λ k v ttl w. record w { revoked = insert k (10 + in_ms ttl) w.revoked };
  del = λ k w. record w { revoked = remove k w.revoked };
  incr = λ k w. (none, w);
  expire = λ k s w. w;
  numeral = λ n. "1";
  tonumber = λ s. some 1;
}

abbrev store : RedisRevocationStore World
store = record { rdb = rdb; prefix = "r:" }

abbrev redis_service : Service World String
redis_service = record service { refresh_token_revocations = some (revocation_store runtime store) }

abbrev lives : Lifetimes rdb runtime
lives = record {
  time = λ w. 10;
  Until = λ w k t. lookup k w.revoked ≡ some t;
  clock = λ w. (omega arith, omega arith);
  server = λ w. omega arith;
  clock_keeps = λ w k t h. h;
  server_keeps = λ w k t h. h;
  set_until =
      λ k v ttl w positive. lookup-insert k k (10 + in_ms ttl) w.revoked ∙ rw (eq_refl k) refl;
  present = λ w k t there early. rw there refl;
}

abbrev after_refresh : World
after_refresh = record { revoked = ("r:id", 2000010) ∷ []; log = [] }

refreshed : refresh_session redis_service "R" world ≡ (ok issued, after_refresh)
unfolding refresh_session ◌>>=◌ trim_space validated_refresh attempt validate_refresh_token
    ensure_refresh_token_active revocation_store is_revoked send lookup token_user new_token_pair
    revoke_refresh_claims revoke insert remove
refreshed = refl

redis_refresh_serves_once_example :
    (refresh_session redis_service "R" after_refresh ≢ (ok issued, world))
    × (revoke_session redis_service "R" after_refresh ≢ (ok tt, world))
redis_refresh_serves_once_example =
    redis_refresh_serves_once redis_service store lives "R" refresh_claims 2000010 world
      after_refresh after_refresh world issued issued refl reads refreshed (λ k t h. h)
      (omega arith) (omega arith)
