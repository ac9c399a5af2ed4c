-- ===== src/Tests/Caches.antt =====
-- The stores over a small Redis.
use identra.Common.{
  ℕ, suc, String, ◌==◌, ◌≡◌, refl, ◌≢◌, ◌∙◌, true, false, Option, none, some, [], ◌∷◌, arith, inl,
  Dict, lookup, insert, remove, lookup-insert, lookup-remove, eq_refl, eq_iff, ◌&&◌, eqb, ltb,
  if◌then◌else◌,
}
use identra.Common.Exec.{ok}
use identra.Text.Decimal.{itoa, atoi_natural}
use identra.Text.Decimal.RoundTrip.{atoi_natural-itoa}
use identra.Redis.States.SingleUse.{add-consume}
use identra.Redis.{Redis, RedisLaws, send}
use identra.Redis.EmailCodes.{RedisEmailCodeStore, set, consume}
use identra.Redis.EmailCodes.SingleUse.{
  consume_call, after_calls, code_of, email_code_serves_once, set-consume,
}
use identra.Redis.States
use identra.Redis.States.{RedisStateStore, StateJson, StateValue}
use identra.Oauth.StateStore.{State}
use identra.Redis.Limiter.{RedisRateLimiter, is_allowed, record_attempt}
use identra.Redis.Limiter.Bound.{fresh, attempt, limiter_lets_through, short_window_never_blocks}

-- The keys, and no time: nothing expires.
abbrev Keys : Type 0
Keys = Dict String

abbrev more : String → Keys → Option ℕ → Option ℕ × Keys
more k w none = (none, w)
more k w (some n) = (some (suc n), insert k (itoa (suc n)) w)

abbrev counted : String → Keys → Option String → Option ℕ × Keys
counted k w none = (some 1, insert k (itoa 1) w)
counted k w (some text) = more k w (atoi_natural text)

abbrev rdb : Redis Keys
rdb = record {
  connection = λ w. (true, w);
  get = λ k w. lookup k w;
  set = λ k v ttl w. insert k v w;
  del = λ k w. remove k w;
  incr = λ k w. counted k w (lookup k w);
  expire = λ k s w. if eqb s 0 then remove k w else w;
  numeral = itoa;
  tonumber = atoi_natural;
}

abbrev laws : RedisLaws rdb
laws = record {
  get_set = λ k j v ttl w positive. lookup-insert k j v w;
  get_del = λ k j w. lookup-remove k j w;
  settles = λ k w. inl refl;
  incr_first = λ k w absent. rw absent (refl, lookup-insert k k (itoa 1) w ∙ rw (eq_refl k) refl);
  incr_next = λ k n w small there.
      rw (there, atoi_natural-itoa n (ground arith))
        (refl, lookup-insert k k (itoa (suc n)) w ∙ rw (eq_refl k) refl);
  expire_later = λ k j s w positive. ground arith;
  expire_now = λ k w. lookup-remove k k w ∙ rw (eq_refl k) refl;
  number = λ n small. atoi_natural-itoa n (ground arith);
}

abbrev codes : RedisEmailCodeStore Keys
codes = record { rdb = rdb; ttl = 600; prefix = "c:" }

abbrev with_code : Keys
with_code = ("c:ann@x", "123456") ∷ []

accepted : consume codes "ann@x" "123456" with_code ≡ (ok true, [])
unfolding consume send lookup remove
accepted = refl

email_code_serves_once_example :
    consume codes "ann@x" "123456" (after_calls codes (consume_call "ann@x" "000000" ∷ []) [])
    ≢ (ok true, [])
email_code_serves_once_example =
    email_code_serves_once codes laws (ground arith) "ann@x" "123456" "123456"
      (consume_call "ann@x" "000000" ∷ []) with_code [] [] accepted (tt, tt)

sent : set codes "ann@x" "123456" [] ≡ (ok tt, with_code)
unfolding set send insert remove
sent = refl

refused : consume codes "ann@x" "000000" with_code ≡ (ok false, with_code)
unfolding consume send lookup remove
refused = refl

set-consume_example :
    (false ≡ ("123456" == "000000"))
    × (code_of codes "ann@x" with_code ≡ (if "123456" == "000000" then none else some "123456"))
set-consume_example =
    set-consume codes laws (ground arith) "ann@x" "123456" "000000" [] with_code with_code sent refl
      refused

abbrev limiter : ℕ → RedisRateLimiter Keys
limiter window = record { rdb = rdb; prefix = "l:"; max_attempts = 1; window = window }

abbrev once : Keys
once = (record_attempt (limiter 60000000000) "ann@x" []).1

recorded : record_attempt (limiter 60000000000) "ann@x" [] ≡ (ok tt, once)
unfolding record_attempt send lookup
recorded = refl

limiter_lets_through_example : (is_allowed (limiter 60000000000) "ann@x" once).0 ≡ ok (ltb 1 1)
unfolding lookup
limiter_lets_through_example =
    limiter_lets_through (limiter 60000000000) "ann@x" laws 1 once (ground arith) (ground arith)
      (ground arith) (attempt 0 [] once (fresh [] refl) refl recorded) refl refl

abbrev short : Keys
short = (record_attempt (limiter 500000000) "ann@x" []).1

recorded_short : record_attempt (limiter 500000000) "ann@x" [] ≡ (ok tt, short)
unfolding record_attempt send lookup
recorded_short = refl

short_window_never_blocks_example : (is_allowed (limiter 500000000) "ann@x" short).0 ≡ ok true
unfolding lookup
short_window_never_blocks_example =
    short_window_never_blocks (limiter 500000000) "ann@x" laws 1 short (ground arith)
      (attempt 0 [] short (fresh [] refl) refl recorded_short) refl refl

abbrev states : RedisStateStore Keys
states = record { rdb = rdb; ttl = 60; prefix = "s:" }

-- An encoding that keeps the value of one state only.
abbrev state_json : StateJson
state_json = record {
  marshal = λ val.
      if (val.provider == "github") && (val.redirect_url == "url") then some "json" else none;
  unmarshal = λ text. some (record { provider = "github"; redirect_url = "url" });
}

state_json_reads :
    (val : StateValue) (text : String)
    → state_json.marshal val ≡ some text
    → state_json.unmarshal text ≡ some val
state_json_reads val text h =
    ground (arith, eq_iff val.provider "github", eq_iff val.redirect_url "url")

abbrev with_state : Keys
with_state = ("s:st", "json") ∷ []

abbrev state_one : State
state_one = record { provider = "github"; redirect_url = "url"; expires_at = 0 }

added : States.add state_json states "st" "github" "url" [] ≡ (ok tt, with_state)
unfolding States.add send insert
added = refl

taken : States.consume state_json states "st" with_state ≡ (ok (some state_one), [])
unfolding States.consume send lookup remove
taken = refl

taken_again : States.consume state_json states "st" [] ≡ (ok none, [])
unfolding States.consume send lookup
taken_again = refl

add-consume_example : (some state_one ≡ some state_one) × (◌≡◌ {A = Option State} none none)
add-consume_example =
    add-consume state_json states laws (ground arith) state_json_reads "st" "github" "url" []
      with_state [] [] added refl taken taken_again
