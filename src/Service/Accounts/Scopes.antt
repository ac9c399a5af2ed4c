-- ===== src/Service/Accounts/Scopes.antt =====
-- Which scopes grant which.
use Prim.Native.String
use identra.Common.{
  String, ◌≡◌, refl, sym, ap, ◌∙◌, ◌↔◌, ◌⊎◌, inl, inr, eq_iff, Bool, true, false, ◌&&◌, ◌||◌, List,
  [], ◌∷◌, Any, arith,
}
use identra.Text.{ends_in_star, without_star, has_prefix}
use identra.Text.Affixes.{
  Continues, has_prefix_iff, star_last, ends_in_star_append, without_star_append,
}
use identra.Service.Accounts.{scope_admin, grants, has_service_scope}

-- The wildcard scope `p*`, for a prefix `p` of the required scope.
abbrev pub IsWildcardFor : String → String → Type 0
IsWildcardFor scope required = (p : String) × (scope ≡ String.◌++◌ p "*") × Continues p required

abbrev pub Covers : String → String → Type 0
Covers scope required = (scope ≡ scope_admin) ⊎ ((scope ≡ required) ⊎ IsWildcardFor scope required)

or_true : (a b : Bool) → (a || b) ≡ true → (a ≡ true) ⊎ (b ≡ true)
or_true true b h = inl refl
or_true false b h = inr h

wildcard_to :
    (scope required : String)
    → ends_in_star scope ≡ true
    → has_prefix required (without_star scope) ≡ true
    → IsWildcardFor scope required
wildcard_to scope required star prefix = (
  without_star scope,
  sym (star_last scope star),
  (has_prefix_iff required (without_star scope)).0 prefix,
)

grants_to : (scope required : String) → grants scope required ≡ true → Covers scope required
grants_to scope required h = elim (or_true _ _ h) [
  | inr both ↦ inr (inr (wildcard_to scope required (ground arith) (ground arith)))
  | inl exact ↦ elim (or_true _ _ exact) [
    | inl admin ↦ inl ((eq_iff scope scope_admin).0 admin)
    | inr same ↦ inr (inl ((eq_iff scope required).0 same))
  ]
]

wildcard_from :
    (scope required : String)
    → IsWildcardFor scope required
    → (ends_in_star scope && has_prefix required (without_star scope)) ≡ true
wildcard_from scope required (p, is, more) =
    let star = ap ends_in_star is ∙ ends_in_star_append p in
    let stem = ap without_star is ∙ without_star_append p in
    let fits = ap (has_prefix required) stem ∙ (has_prefix_iff required p).1 more in ground arith

grants_from : (scope required : String) → Covers scope required → grants scope required ≡ true
grants_from scope required (inl admin) = ground (arith, (eq_iff scope scope_admin).1 admin)
grants_from scope required (inr (inl same)) = ground (arith, (eq_iff scope required).1 same)
grants_from scope required (inr (inr wild)) = ground (arith, wildcard_from scope required wild)

-- A list of scopes grants a required scope exactly when it holds `identra.admin`, the required
-- scope itself, or a wildcard `p*` whose prefix `p` the required scope starts with.
pub has_service_scope_iff :
    (scopes : List String) (required : String)
    → (has_service_scope scopes required ≡ true) ↔ Any (λ scope. Covers scope required) scopes
unfolding has_service_scope
has_service_scope_iff [] required = (λ h. absurd (ground arith), λ h. absurd h)
has_service_scope_iff (scope ∷ scopes) required =
    let (to, from) = has_service_scope_iff scopes required in
    (
      λ h. elim (or_true _ _ h) [
        | inl here ↦ inl (grants_to scope required here)
        | inr there ↦ inr (to there)
      ],
      λ h. elim h [
        | inl here ↦ ground (arith, grants_from scope required here)
        | inr there ↦ ground (arith, from there)
      ],
    )
