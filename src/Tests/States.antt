-- ===== src/Tests/States.antt =====
-- The in-memory store of OAuth states, scopes, and addresses.
use identra.Common.{
  String, ◌≡◌, refl, ◌↔◌, false, true, ◌&&◌, none, some, List, [], ◌∷◌, Any, Has, lookup, arith,
  sort_strings, insert_sorted,
}
use identra.Common.Exec.{ok}
use identra.Text.{trim_space}
use identra.Oauth.StateStore.{StateStore, Call, add_call, consume_call, add, consume, steps}
use identra.Oauth.StateStore.OneShot.{state_serves_once, added_state_is_found}
use identra.ServiceAccount.{normalize_scopes, matches_scope}
use identra.ServiceAccount.Scopes.{normalize_scopes_lem, Once}
use identra.Service.Providers.{Email, choose_email}
use identra.Service.Providers.Choice.{first_address, or_else, choose_email_lem}
use identra.Service.Accounts.{has_service_scope}
use identra.Service.Accounts.Scopes.{Covers, has_service_scope_iff}

abbrev store : StateStore
store = record {
  ttl = 100;
  values = ("st", record { provider = "github"; redirect_url = "url"; expires_at = 150 }) ∷ [];
}

-- Another state comes in between.
abbrev between : List Call
between = add_call 61 61 "other" "github" "url" ∷ consume_call 62 62 "absent" ∷ []

state_serves_once_example :
    (consume 70 70 "st" (steps between (consume 60 60 "st" store).1)).0 ≡ none
unfolding lookup
state_serves_once_example =
    state_serves_once store between "st" 60 60 70 70 (refl, tt) (refl, (tt, tt))

added_state_is_found_example :
    (consume 70 70 "new" (steps between (add 60 60 "new" "github" "home" store))).0
    ≡ some (record { provider = "github"; redirect_url = "home"; expires_at = 160 })
unfolding lookup
added_state_is_found_example =
    added_state_is_found store between "new" "github" "home" 60 60 70 70 (refl, tt)
      ((refl, ground arith), ((refl, ground arith), tt)) (ground arith) (ground arith)

abbrev given_scopes : List String
given_scopes = " users.read " ∷ "admin" ∷ "users.read" ∷ []

scopes_normal : normalize_scopes given_scopes ≡ ok ("admin" ∷ "users.read" ∷ [])
unfolding normalize_scopes matches_scope trim_space sort_strings insert_sorted
scopes_normal = refl

normalize_scopes_lem_example :
    ((s : String) → Has s ("admin" ∷ "users.read" ∷ []) ↔ Any (λ v. trim_space v ≡ s) given_scopes)
    × ((s : String) → Has s ("admin" ∷ "users.read" ∷ []) → matches_scope s ≡ true)
    × Once ("admin" ∷ "users.read" ∷ [])
    × (¬ (given_scopes ≡ []))
normalize_scopes_lem_example =
    normalize_scopes_lem given_scopes ("admin" ∷ "users.read" ∷ []) scopes_normal

has_service_scope_iff_example :
    (has_service_scope ("identra.users.*" ∷ []) "identra.users.read" ≡ true)
    ↔ Any (λ scope. Covers scope "identra.users.read") ("identra.users.*" ∷ [])
has_service_scope_iff_example = has_service_scope_iff ("identra.users.*" ∷ []) "identra.users.read"

abbrev addresses : List Email
addresses =
    record { address = "a@x"; primary = true; verified = false }
    ∷ record { address = "b@x"; primary = false; verified = true }
    ∷ []

choose_email_lem_example :
    choose_email "" "" addresses
    ≡ or_else
        (first_address (λ e. e.primary && e.verified) addresses)
        (or_else (first_address (λ e. e.verified) addresses) (first_address (λ e. true) addresses))
choose_email_lem_example = choose_email_lem addresses
