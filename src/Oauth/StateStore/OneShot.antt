-- ===== src/Oauth/StateStore/OneShot.antt =====
-- A state serves one login, for as long as the store's duration.
use identra.Common.{
  ℕ, String, ◌==◌, ◌≡◌, refl, ◌∙◌, eq_refl, false, none, some, List, [], ◌∷◌, All, ◌+◌, ◌≤◌, lookup,
  arith,
}
use identra.Oauth.StateStore.{
  State, StateStore, add, consume, Call, add_call, consume_call, step, steps,
}
use identra.Oauth.StateStore.View.{
  IsStore, step-IsStore, steps_from-IsStore, consume-answer, seen_after, lookup-step,
}

-- The call does not add the state.
abbrev pub DoesNotAdd : String → Call → Type 0
DoesNotAdd k (add_call t now j p u) = (j == k) ≡ false
DoesNotAdd k (consume_call t now j) = Unit

-- The call neither adds nor consumes the state, and cleans up no later than the time.
abbrev pub LeavesUntil : ℕ → String → Call → Type 0
LeavesUntil end k (add_call t now j p u) = ((j == k) ≡ false) × (t ≤ end)
LeavesUntil end k (consume_call t now j) = ((j == k) ≡ false) × (t ≤ end)

step_gone :
    (c : Call) (s : StateStore) (k : String)
    → IsStore s
    → DoesNotAdd k c
    → lookup k s.values ≡ none
    → lookup k (step c s).values ≡ none
unfolding seen_after
step_gone (add_call t now j p u) s k h other gone =
    lookup-step (add_call t now j p u) s k h ∙ rw (other, gone) refl
step_gone (consume_call t now j) s k h other gone =
    lookup-step (consume_call t now j) s k h ∙ rw gone (ground arith)

steps_gone :
    (cs : List Call) (s : StateStore) (k : String)
    → IsStore s
    → All (DoesNotAdd k) cs
    → lookup k s.values ≡ none
    → lookup k (steps cs s).values ≡ none
unfolding steps
steps_gone [] s k h others gone = gone
steps_gone (c ∷ cs) s k h (other, others) gone =
    steps_gone cs (step c s) k (step-IsStore c s h) others (step_gone c s k h other gone)

-- Once a state has been consumed, whatever the answer was, it is not found again, whichever calls come
-- between, as long as none of them adds it.
pub state_serves_once :
    (s : StateStore) (cs : List Call) (k : String) (t now t' now' : ℕ)
    → IsStore s
    → All (DoesNotAdd k) cs
    → (consume t' now' k (steps cs (consume t now k s).1)).0 ≡ none
state_serves_once s cs k t now t' now' h others =
    let s1 = (consume t now k s).1 in
    let h1 : IsStore s1 = unfold step in step-IsStore (consume_call t now k) s h in
    let gone : lookup k s1.values ≡ none =
      unfold step seen_after in lookup-step (consume_call t now k) s k h ∙ rw (eq_refl k) refl in
    consume-answer t' now' k (steps cs s1) (steps_from-IsStore cs s1 h1)
    ∙ rw (steps_gone cs s1 k h1 others gone) refl

step_kept :
    (end : ℕ) (c : Call) (s : StateStore) (k : String) {v : State}
    → IsStore s
    → LeavesUntil end k c
    → end ≤ v.expires_at
    → lookup k s.values ≡ some v
    → lookup k (step c s).values ≡ some v
unfolding seen_after
step_kept end (add_call t now j p u) s k h (other, early) lives there =
    lookup-step (add_call t now j p u) s k h ∙ rw (other, there) (ground arith)
step_kept end (consume_call t now j) s k h (other, early) lives there =
    lookup-step (consume_call t now j) s k h ∙ rw (other, there) (ground arith)

steps_kept :
    (end : ℕ) (cs : List Call) (s : StateStore) (k : String) {v : State}
    → IsStore s
    → All (LeavesUntil end k) cs
    → end ≤ v.expires_at
    → lookup k s.values ≡ some v
    → lookup k (steps cs s).values ≡ some v
unfolding steps
steps_kept end [] s k h keeps lives there = there
steps_kept end (c ∷ cs) s k h (keep, keeps) lives there =
    steps_kept end cs (step c s) k (step-IsStore c s h) keeps lives
      (step_kept end c s k h keep lives there)

-- A state that was added is found with its provider and its redirect URL by a consume whose times are at most
-- the store's duration after the time of the add, whichever calls come between, as long as none of
-- them adds or consumes the state, or cleans up after that end.
pub added_state_is_found :
    (s : StateStore) (cs : List Call) (k p u : String) (t now t' now' : ℕ)
    → IsStore s
    → All (LeavesUntil (now + s.ttl) k) cs
    → t' ≤ now + s.ttl
    → now' ≤ now + s.ttl
    → (consume t' now' k (steps cs (add t now k p u s))).0
      ≡ some (record { provider = p; redirect_url = u; expires_at = now + s.ttl })
added_state_is_found s cs k p u t now t' now' h keeps in_time in_time' =
    let s1 = add t now k p u s in
    let h1 : IsStore s1 = unfold step in step-IsStore (add_call t now k p u) s h in
    let there : lookup k s1.values
        ≡ some (record { provider = p; redirect_url = u; expires_at = now + s.ttl }) =
      unfold step seen_after in lookup-step (add_call t now k p u) s k h ∙ rw (eq_refl k) refl in
    consume-answer t' now' k (steps cs s1) (steps_from-IsStore cs s1 h1)
    ∙ rw (steps_kept (now + s.ttl) cs s1 k h1 keeps (ground arith) there) (ground arith)
