-- ===== src/Oauth/StateStore/View.antt =====
-- What a client sees of the store: at each time, the unexpired entry of each state.
use identra.Common.{
  ℕ, String, ◌==◌, ◌≡◌, refl, ap, ◌∙◌, eq_iff, inl, inr, Option, none, some, List, [], ◌∷◌, ◌+◌,
  Dict, lookup, lookup-insert, lookup-remove, Distinct, insert-Distinct, remove-Distinct,
  Bool-cases, Option-cases, if◌then◌else◌, arith,
}
use identra.Oauth.StateStore.{
  State, StateStore, is_expired, found_state, cleanup, add, consume, Call, add_call, consume_call,
  step, steps, without_found,
}

cleanup_absent :
    (now : ℕ) (k : String) (m : Dict State) → lookup k m ≡ none → lookup k (cleanup now m) ≡ none
unfolding lookup cleanup
cleanup_absent now k [] h = refl
cleanup_absent now k ((j, v) ∷ m) h = ground (arith, cleanup_absent now k m)

pub lookup-cleanup :
    (now : ℕ) (k : String) (m : Dict State)
    → Distinct m
    → lookup k (cleanup now m) ≡ found_state now (lookup k m)
unfolding lookup cleanup
lookup-cleanup now k [] h = refl
lookup-cleanup now k ((j, v) ∷ m) (fresh, h) =
    ground (arith, lookup-cleanup now k m h, cleanup_absent now k m, eq_iff j k)

pub cleanup-Distinct : (now : ℕ) (m : Dict State) → Distinct m → Distinct (cleanup now m)
unfolding cleanup
cleanup-Distinct now [] h = tt
cleanup-Distinct now ((j, v) ∷ m) (fresh, h) = elim (Bool-cases (is_expired now v)) [
  | inl old ↦ rw old (cleanup-Distinct now m h)
  | inr new ↦ rw new (cleanup_absent now j m fresh, cleanup-Distinct now m h)
]

-- No state stands twice.
abbrev pub IsStore : StateStore → Type 0
IsStore s = Distinct s.values

without_found-Distinct :
    (k : String) (m : Dict State) (o : Option State) → Distinct m → Distinct (without_found k m o)
without_found-Distinct k m none h = h
without_found-Distinct k m (some v) h = remove-Distinct k m h

pub step-IsStore : (c : Call) (s : StateStore) → IsStore s → IsStore (step c s)
unfolding step add consume
step-IsStore (add_call t now k p u) s h = insert-Distinct k _ _ (cleanup-Distinct t s.values h)
step-IsStore (consume_call t now k) s h =
    without_found-Distinct k _ _ (cleanup-Distinct t s.values h)

pub steps_from-IsStore : (cs : List Call) (s : StateStore) → IsStore s → IsStore (steps cs s)
unfolding steps
steps_from-IsStore [] s h = h
steps_from-IsStore (c ∷ cs) s h = steps_from-IsStore cs (step c s) (step-IsStore c s h)

-- A consume answers the entry of the state, if its time has not passed when the call cleans up nor
-- when it looks.
pub consume-answer :
    (t now : ℕ) (k : String) (s : StateStore)
    → IsStore s
    → (consume t now k s).0 ≡ found_state now (found_state t (lookup k s.values))
unfolding consume
consume-answer t now k s h = ap (found_state now) (lookup-cleanup t k s.values h)

lookup-without_found :
    (k j : String) (m : Dict State)
    → lookup j (without_found k m (lookup k m)) ≡ (if k == j then none else lookup j m)
lookup-without_found k j m = elim (Option-cases (lookup k m)) [
  | inl absent ↦ rw absent (ground (arith, eq_iff k j))
  | inr (v, there) ↦ rw there (lookup-remove k j m)
]

-- What a state reads as after a call.
unfoldable pub seen_after : Call → ℕ → String → Option State → Option State
seen_after (add_call t now k p u) ttl j o =
    if k == j
    then some (record { provider = p; redirect_url = u; expires_at = now + ttl })
    else found_state t o
seen_after (consume_call t now k) ttl j o = if k == j then none else found_state t o

pub lookup-step :
    (c : Call) (s : StateStore) (j : String)
    → IsStore s
    → lookup j (step c s).values ≡ seen_after c s.ttl j (lookup j s.values)
unfolding step add consume seen_after
lookup-step (add_call t now k p u) s j h =
    lookup-insert k j _ _ ∙ rw (lookup-cleanup t j s.values h) refl
lookup-step (consume_call t now k) s j h =
    lookup-without_found k j _
    ∙ ap (λ o. if k == j then none else o) (lookup-cleanup t j s.values h)
