-- ===== src/ServiceAccount/Scopes.antt =====
-- What `normalizeScopes` lets through.
use Prim.Native.String.{compare}
use mathlib.Core.Bool.{false≢true}
use text.Mathlib.Text.{is_le}
use identra.Common.{
  sym, ◌∙◌, insert_sorted, Has-insert_sorted, String, ◌≡◌, ◌≢◌, refl, ◌↔◌, ◌⊎◌, inl, inr, eq_iff,
  true, false, List, [], ◌∷◌, arith, Any, Has, Has-sort_strings, sort_strings, Bool-cases,
}
use identra.Common.Exec.{Result, ok, err}
use identra.Text.{trim_space}
use identra.ServiceAccount.{
  AccountError, matches_scope, contains, add_unique, collect_scopes, sorted_or_required,
  normalize_scopes,
}

contains_iff : (s : String) (ss : List String) → (contains s ss ≡ true) ↔ Has s ss
contains_iff s [] = (λ h. cc, λ h. absurd h)
contains_iff s (t ∷ ts) = ground (arith, contains_iff s ts, eq_iff t s)

add_unique_old : (t : String) (ss : List String) → contains t ss ≡ true → add_unique t ss ≡ ss
unfolding add_unique
add_unique_old t ss h = rw h

add_unique_new : (t : String) (ss : List String) → contains t ss ≡ false → add_unique t ss ≡ t ∷ ss
unfolding add_unique
add_unique_new t ss h = rw h

Has-add_unique : (s t : String) (ss : List String) → Has s (add_unique t ss) ↔ ((t ≡ s) ⊎ Has s ss)
Has-add_unique s t ss = elim (Bool-cases (contains t ss)) [
  | inl old ↦ rw (add_unique_old t ss old) (
    λ h. inr h,
    λ h. elim h [ inl same ↦ rw (← same) ((contains_iff t ss).0 old) | inr there ↦ there ],
  )
  | inr new ↦ rw (add_unique_new t ss new) (λ h. h, λ h. h)
]

-- The rounds of the loop on a list of values that is not empty.
collect_next :
    (unique values found : List String) (v : String)
    → collect_scopes unique (v ∷ values) ≡ ok found
    → (matches_scope (trim_space v) ≡ true)
      × (collect_scopes (add_unique (trim_space v) unique) values ≡ ok found)
unfolding collect_scopes
collect_next unique values found v h = ground arith

Has-collect_scopes :
    (s : String) (unique values found : List String)
    → collect_scopes unique values ≡ ok found
    → Has s found ↔ (Has s unique ⊎ Any (λ v. trim_space v ≡ s) values)
Has-collect_scopes s unique [] found h =
    let same : unique ≡ found = unfold collect_scopes in ground arith in
    rw (← same) (λ x. inl x, λ x. elim x [ inl y ↦ y | inr y ↦ absurd y ])
Has-collect_scopes s unique (v ∷ vs) found h =
    let (fits, rest) = collect_next unique vs found v h in
    let (to, from) = Has-collect_scopes s (add_unique (trim_space v) unique) vs found rest in
    let (there, back) = Has-add_unique s (trim_space v) unique in ground arith

collect_scopes_match :
    (s : String) (unique values found : List String)
    → collect_scopes unique values ≡ ok found
    → (Has s unique → matches_scope s ≡ true)
    → Has s found
    → matches_scope s ≡ true
collect_scopes_match s unique [] found h known has =
    let same : unique ≡ found = unfold collect_scopes in ground arith in known (rw same has)
collect_scopes_match s unique (v ∷ vs) found h known has =
    let (fits, rest) = collect_next unique vs found v h in
    collect_scopes_match s (add_unique (trim_space v) unique) vs found rest
      (λ there. elim ((Has-add_unique s (trim_space v) unique).0 there) [
        | inl same ↦ rw (← same) fits
        | inr old ↦ known old
      ])
      has

-- No element stands twice.
abbrev pub Once : List String → Type 0
Once [] = Unit
Once (s ∷ ss) = (¬ Has s ss) × Once ss

collect_scopes-Once :
    (unique values found : List String)
    → collect_scopes unique values ≡ ok found
    → Once unique
    → Once found
collect_scopes-Once unique [] found h once =
    let same : unique ≡ found = unfold collect_scopes in ground arith in rw (← same) once
collect_scopes-Once unique (v ∷ vs) found h once =
    let (fits, rest) = collect_next unique vs found v h in
    collect_scopes-Once (add_unique (trim_space v) unique) vs found rest
      (elim (Bool-cases (contains (trim_space v) unique)) [
        | inl old ↦ rw (add_unique_old _ _ old) once
        | inr new ↦
            rw (add_unique_new _ _ new)
              (λ has. false≢true (sym new ∙ (contains_iff _ unique).1 has), once)
      ])

insert_sorted-Once :
    (s : String) (ts : List String) → ¬ Has s ts → Once ts → Once (insert_sorted s ts)
unfolding insert_sorted
insert_sorted-Once s [] new once = (λ h. h, tt)
insert_sorted-Once s (t ∷ ts) (new) (other, once) = elim (Bool-cases (is_le (compare s t))) [
  | inl le ↦ rw le (new, (other, once))
  | inr gt ↦ rw gt (
    λ h. elim ((Has-insert_sorted t s ts).0 h) [
      | inl same ↦ new (inl (sym same))
      | inr there ↦ other there
    ],
    insert_sorted-Once s ts (λ h. new (inr h)) once,
  )
]

sort_strings-Once : (ss : List String) → Once ss → Once (sort_strings ss)
unfolding sort_strings
sort_strings-Once [] h = tt
sort_strings-Once (s ∷ ss) (new, once) =
    insert_sorted-Once s (sort_strings ss) (λ h. new ((Has-sort_strings s ss).0 h))
      (sort_strings-Once ss once)

sorted_parts :
    (r : Result AccountError (List String)) (scopes : List String)
    → sorted_or_required r ≡ ok scopes
    → (found : List String) × (r ≡ ok found) × (sort_strings found ≡ scopes) × (found ≢ [])
unfolding sorted_or_required
sorted_parts (err e) scopes h = cc
sorted_parts (ok []) scopes h = cc
sorted_parts (ok (s ∷ ss)) scopes h = (s ∷ ss, refl, ground arith, cc)

-- The scopes that `normalizeScopes` accepts are exactly the trimmed values, each of which matches
-- the pattern of scopes; none of them stands twice, and there is at least one value.
pub normalize_scopes_lem :
    (values scopes : List String)
    → normalize_scopes values ≡ ok scopes
    → ((s : String) → Has s scopes ↔ Any (λ v. trim_space v ≡ s) values)
      × ((s : String) → Has s scopes → matches_scope s ≡ true)
      × Once scopes
      × (values ≢ [])
unfolding normalize_scopes
normalize_scopes_lem values scopes h =
    let (found, collected, sorted, some_found) = sorted_parts _ scopes h in
    (
      λ s.
          let (to, from) = Has-collect_scopes s [] values found collected in
          let (in_found, of_found) = Has-sort_strings s found in
          rw (← sorted) (
            λ x. elim (to (in_found x)) [ inl no_one ↦ absurd no_one | inr y ↦ y ],
            λ x. of_found (from (inr x)),
          ),
      λ s has.
          collect_scopes_match s [] values found collected (λ x. absurd x)
            ((Has-sort_strings s found).0 (rw sorted has)),
      rw (← sorted) (sort_strings-Once found (collect_scopes-Once [] values found collected tt)),
      λ none_given. some_found (unfold collect_scopes in ground arith),
    )
