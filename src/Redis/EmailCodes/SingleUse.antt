-- ===== src/Redis/EmailCodes/SingleUse.antt =====
-- A code of an e-mail login serves once.
use identra.Common.{
  String, ◌==◌, ◌≡◌, ◌≢◌, ◌⊎◌, All, List, [], ◌∷◌, refl, sym, ◌∙◌, Bool, true, false, Option, none,
  some, arith, inl, inr, eq_refl, eq_iff, Bool-cases, Option-cases, if◌then◌else◌, ◌<◌,
}
use identra.Common.Exec.{ok}
use identra.Redis.{RedisLaws, send}
use identra.Redis.EmailCodes.{RedisEmailCodeStore, key, set, consume, compare_and_delete}

-- A call of the store.
pub data Call : Type 0 where
  set_call consume_call : String → String → Call

module _ {W : Type 0} (s : RedisEmailCodeStore W) where
  -- The code that the server holds for an address.
  abbrev pub code_of : String → W → Option String
  code_of email w = s.rdb.get (key s email) w

  unfoldable pub after_calls : List Call → W → W
  after_calls [] w = w
  after_calls (set_call email code ∷ cs) w = after_calls cs (set s email code w).1
  after_calls (consume_call email code ∷ cs) w = after_calls cs (consume s email code w).1

  -- The call sets no code for the address.
  abbrev pub SetsOther : String → Call → Type 0
  SetsOther email (set_call other code) = (key s other == key s email) ≡ false
  SetsOther email (consume_call other code) = Unit

module _ {W : Type 0} (s : RedisEmailCodeStore W) (laws : RedisLaws s.rdb) where
  -- What a consume that answers has compared, and what it leaves.
  pub consume-answer :
      (email code : String) (w : W) {b : Bool} {w' : W}
      → consume s email code w ≡ (ok b, w')
      → ((b ≡ true)
          × (code_of s email (s.rdb.connection w).1 ≡ some code)
          × (code_of s email w' ≡ none))
        ⊎ ((b ≡ false)
            × (code_of s email (s.rdb.connection w).1 ≢ some code)
            × (w' ≡ (s.rdb.connection w).1))
  unfolding consume send
  consume-answer email code w {b} {w'} h = elim (Bool-cases (s.rdb.connection w).0) [
    | inr down ↦ absurd (ground arith)
    | inl up ↦
        let v = (s.rdb.connection w).1 in
        elim (Option-cases (code_of s email v)) [
          | inl absent ↦ inr (ground arith, (λ there. absurd (ground arith)), ground arith)
          | inr (stored, there) ↦ elim (Bool-cases (stored == code)) [
            | inr other ↦
                inr (ground arith, (λ e. absurd (ground (arith, eq_iff stored code))), ground arith)
            | inl same ↦
                let after : s.rdb.del (key s email) v ≡ w' = ground arith in
                let gone = laws.get_del (key s email) (key s email) v in
                inl (
                  ground arith,
                  ground (arith, eq_iff stored code),
                  rw (sym after) (ground (arith, eq_refl (key s email))),
                )
          ]
        ]
  ]

  connection-gone :
      (email : String) (w : W)
      → code_of s email w ≡ none
      → code_of s email (s.rdb.connection w).1 ≡ none
  connection-gone email w gone = ground (arith, laws.settles (key s email) w)

  module _ (positive : 0 < s.ttl) where
    set-gone :
        (email other code : String) (w : W)
        → (key s other == key s email) ≡ false
        → code_of s email w ≡ none
        → code_of s email (set s other code w).1 ≡ none
    unfolding set send
    set-gone email other code w different gone = elim (Bool-cases (s.rdb.connection w).0) [
      | inr down ↦ rw down (connection-gone email w gone)
      | inl up ↦
          let v = (s.rdb.connection w).1 in
          rw (up, laws.get_set (key s other) (key s email) code s.ttl v positive, different)
            (connection-gone email w gone)
    ]

    deleted-gone :
        (email other code : String) (found : Option String) (v : W)
        → code_of s email v ≡ none
        → code_of s email (compare_and_delete s (key s other) code found v).1 ≡ none
    deleted-gone email other code none v gone = gone
    deleted-gone email other code (some stored) v gone =
        ground (arith, laws.get_del (key s other) (key s email) v)

    set-there :
        (email code : String) (w : W) {w' : W}
        → set s email code w ≡ (ok tt, w')
        → code_of s email w' ≡ some code
    unfolding set send
    set-there email code w {w'} h = elim (Bool-cases (s.rdb.connection w).0) [
      | inr down ↦ absurd (ground arith)
      | inl up ↦
          let v = (s.rdb.connection w).1 in
          let after : s.rdb.set (key s email) code s.ttl v ≡ w' = ground arith in
          rw
            (
              sym after,
              laws.get_set (key s email) (key s email) code s.ttl v positive,
              eq_refl (key s email),
            )
            refl
    ]

    consume-gone :
        (email other code : String) (w : W)
        → code_of s email w ≡ none
        → code_of s email (consume s other code w).1 ≡ none
    unfolding consume send
    consume-gone email other code w gone = elim (Bool-cases (s.rdb.connection w).0) [
      | inr down ↦ rw down (connection-gone email w gone)
      | inl up ↦
          let v = (s.rdb.connection w).1 in
          rw up (
            deleted-gone email other code (s.rdb.get (key s other) v) v
              (connection-gone email w gone))
    ]

    calls-gone :
        (cs : List Call) (email : String) (w : W)
        → All (SetsOther s email) cs
        → code_of s email w ≡ none
        → code_of s email (after_calls s cs w) ≡ none
    unfolding after_calls
    calls-gone [] email w others gone = gone
    calls-gone (set_call other code ∷ cs) email w (differs, others) gone =
        calls-gone cs email _ others (set-gone email other code w differs gone)
    calls-gone (consume_call other code ∷ cs) email w (_, others) gone =
        calls-gone cs email _ others (consume-gone email other code w gone)

    -- Over a Redis that keeps its documentation, for a time to live that is positive: a code that was accepted is not accepted again, nor is
    -- any other for its address, whichever calls of the store come between, as long as none of them
    -- sets a code for the address.
    pub email_code_serves_once :
        (email code again : String) (cs : List Call) (w w' v : W)
        → consume s email code w ≡ (ok true, w')
        → All (SetsOther s email) cs
        → consume s email again (after_calls s cs w') ≢ (ok true, v)
    email_code_serves_once email code again cs w w' v first others h =
        elim (consume-answer email code w first) [
          | inr (refused, _, _) ↦ absurd (ground arith)
          | inl (_, there, gone) ↦
              let still =
                connection-gone email (after_calls s cs w') (calls-gone cs email w' others gone) in
              elim (consume-answer email again (after_calls s cs w') h) [
                | inl (_, found, _) ↦ absurd (ground arith)
                | inr (no_match, _, _) ↦ absurd (ground arith)
              ]
        ]

    -- Over a Redis that keeps its documentation, for a time to live that is positive: after a set, while the code has not expired, a consume that answers says whether
    -- the given code is the one that was set; it removes the code where it is, and
    -- leaves it where it is not.
    pub set-consume :
        (email code given : String) (w w' v : W) {b : Bool}
        → set s email code w ≡ (ok tt, w')
        → code_of s email (s.rdb.connection w').1 ≡ code_of s email w'
        → consume s email given w' ≡ (ok b, v)
        → (b ≡ (code == given)) × (code_of s email v ≡ (if code == given then none else some code))
    set-consume email code given w w' v written lives h =
        let there = lives ∙ set-there email code w written in
        elim (consume-answer email given w' h) [
          | inl (accepted, found, gone) ↦
              let same : code ≡ given = ground arith in
              (ground (arith, eq_iff code given), ground (arith, eq_iff code given))
          | inr (no_match, differs, kept) ↦
              let different : (code == given) ≡ false = ground (arith, eq_iff code given) in
              (rw different no_match, rw (different, kept) there)
        ]
