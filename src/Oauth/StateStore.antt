-- ===== src/Oauth/StateStore.antt =====
-- internal/oauth/state_store.go: the states of OAuth logins in memory. A method holds the lock from
-- its first line to its last, so it is one step on the store; the times that it reads are arguments.
pub mod View
pub mod OneShot
use identra.Common.{
  ℕ, String, Bool, true, false, Option, none, some, List, [], ◌∷◌, ◌+◌, ltb, eqb, Dict, lookup,
  insert, remove, if◌then◌else◌,
}

pub record State : Type 0 where
  pub provider : String
  pub redirect_url : String
  pub expires_at : ℕ

pub record StateStore : Type 0 where
  pub ttl : ℕ
  pub values : Dict State

-- now.After(value.ExpiresAt)
abbrev pub is_expired : ℕ → State → Bool
is_expired now value = ltb value.expires_at now

-- time.Minute, in nanoseconds
abbrev pub minute : ℕ
minute = 60000000000

-- NewInMemoryStateStore; a duration that is not positive is 0 here
unfoldable pub new_in_memory_state_store : ℕ → StateStore
new_in_memory_state_store ttl = record { ttl = if eqb ttl 0 then minute else ttl; values = [] }

-- cleanupLocked
unfoldable pub cleanup : ℕ → Dict State → Dict State
cleanup now [] = []
cleanup now ((key, value) ∷ values) =
    let rest = cleanup now values in if is_expired now value then rest else (key, value) ∷ rest

unfoldable pub add : ℕ → ℕ → String → String → String → StateStore → StateStore
add cleaned_at now state provider redirect_url s = record s {
  values =
      insert state
        (record { provider = provider; redirect_url = redirect_url; expires_at = now + s.ttl })
        (cleanup cleaned_at s.values);
}

-- The answer for the entry that was found.
abbrev pub valid_at : ℕ → State → Option State
valid_at now value = if is_expired now value then none else some value

abbrev pub found_state : ℕ → Option State → Option State
found_state now none = none
found_state now (some value) = valid_at now value

-- delete, where the entry was found
abbrev pub without_found : String → Dict State → Option State → Dict State
without_found state values none = values
without_found state values (some value) = remove state values

unfoldable pub consume : ℕ → ℕ → String → StateStore → Option State × StateStore
consume cleaned_at now state s =
    let values = cleanup cleaned_at s.values in
    (
      found_state now (lookup state values),
      record s { values = without_found state values (lookup state values) },
    )

-- A call, with the times that it reads.
pub data Call : Type 0 where
  add_call : ℕ → ℕ → String → String → String → Call
  consume_call : ℕ → ℕ → String → Call

unfoldable pub step : Call → StateStore → StateStore
step (add_call cleaned_at now state provider redirect_url) s =
    add cleaned_at now state provider redirect_url s
step (consume_call cleaned_at now state) s = (consume cleaned_at now state s).1

unfoldable pub steps : List Call → StateStore → StateStore
steps [] s = s
steps (c ∷ cs) s = steps cs (step c s)
