-- ===== src/Tests/Claims.antt =====
-- A signer of three sets of claims, whose tokens are `A`, `R` and `S`.
use identra.Common.{
  ℕ, String, ◌==◌, ◌≡◌, refl, ap, ◌∙◌, ◌⊎◌, eq_iff, Bool, true, false, ◌&&◌, Option, none, some,
  List, [], ◌∷◌, leb, ltb, eqb, Bool-cases, inl, inr, if◌then◌else◌, arith,
}
use identra.Security.Keys.{PublicKey}
use identra.Security.Tokens.{Claims, Jwt}
use identra.Security.Tokens.Kinds.{IsCurrent, JwtLaws}

abbrev pub claims_of : ℕ → String → String → String → String → List String → Claims
claims_of expires_at subject user_id kind account scopes = record {
  issuer = "identra";
  subject = subject;
  expires_at = some expires_at;
  issued_at = some 10;
  not_before = some 10;
  user_id = user_id;
  token_type = kind;
  token_id = "id";
  service_account_id = account;
  scopes = scopes;
}

abbrev pub access_claims : Claims
access_claims = claims_of 110 "u1" "u1" "access" "" []

abbrev pub refresh_claims : Claims
refresh_claims = claims_of 2000010 "u1" "u1" "refresh" "" []

abbrev pub service_claims : Claims
service_claims = claims_of 60 "a1" "" "service" "a1" ("identra.*" ∷ [])

abbrev same_option : Option ℕ → Option ℕ → Bool
same_option none none = true
same_option (some m) (some n) = eqb m n
same_option _ _ = false

abbrev same_list : List String → List String → Bool
same_list [] [] = true
same_list (s ∷ ss) (t ∷ ts) = (s == t) && same_list ss ts
same_list _ _ = false

abbrev pub same_claims : Claims → Claims → Bool
same_claims c d =
    (c.issuer == d.issuer)
    && ((c.subject == d.subject)
        && (same_option c.expires_at d.expires_at
            && (same_option c.issued_at d.issued_at
                && (same_option c.not_before d.not_before
                    && ((c.user_id == d.user_id)
                        && ((c.token_type == d.token_type)
                            && ((c.token_id == d.token_id)
                                && ((c.service_account_id == d.service_account_id)
                                    && same_list c.scopes d.scopes))))))))

both : {a b : Bool} → (a && b) ≡ true → (a ≡ true) × (b ≡ true)
both {a} {b} h = (ground arith, ground arith)

same_option_path : (o p : Option ℕ) → same_option o p ≡ true → o ≡ p
same_option_path none none h = refl
same_option_path none (some n) h = absurd (ground arith)
same_option_path (some m) none h = absurd (ground arith)
same_option_path (some m) (some n) h = ground arith

same_list_path : (ss ts : List String) → same_list ss ts ≡ true → ss ≡ ts
same_list_path [] [] h = refl
same_list_path [] (t ∷ ts) h = absurd (ground arith)
same_list_path (s ∷ ss) [] h = absurd (ground arith)
same_list_path (s ∷ ss) (t ∷ ts) h =
    let (x, y) = both h in
    let p = (eq_iff s t).0 x in let q = same_list_path ss ts y in λ i. p i ∷ q i

same_claims_path : (c d : Claims) → same_claims c d ≡ true → c ≡ d
same_claims_path c d h =
    let (h1, k1) = both h in
    let (h2, k2) = both k1 in
    let (h3, k3) = both k2 in
    let (h4, k4) = both k3 in
    let (h5, k5) = both k4 in
    let (h6, k6) = both k5 in
    let (h7, k7) = both k6 in
    let (h8, k8) = both k7 in
    let (h9, k9) = both k8 in
    λ i. record {
      issuer = (eq_iff c.issuer d.issuer).0 h1 i;
      subject = (eq_iff c.subject d.subject).0 h2 i;
      expires_at = same_option_path c.expires_at d.expires_at h3 i;
      issued_at = same_option_path c.issued_at d.issued_at h4 i;
      not_before = same_option_path c.not_before d.not_before h5 i;
      user_id = (eq_iff c.user_id d.user_id).0 h6 i;
      token_type = (eq_iff c.token_type d.token_type).0 h7 i;
      token_id = (eq_iff c.token_id d.token_id).0 h8 i;
      service_account_id = (eq_iff c.service_account_id d.service_account_id).0 h9 i;
      scopes = same_list_path c.scopes d.scopes k9 i;
    }

abbrev pub sign_known : Claims → Option String → String → Option String
sign_known c key kid =
    if same_claims c access_claims
    then some "A"
    else if same_claims c refresh_claims
    then some "R"
    else if same_claims c service_claims
    then some "S"
    else none

abbrev within : Claims → ℕ → ℕ → Option Claims
within c end now = if leb 10 now && ltb now end then some c else none

abbrev pub parse_known : String → Option PublicKey → ℕ → Option Claims
parse_known token key now =
    if token == "A"
    then within access_claims 110 now
    else if token == "R"
    then within refresh_claims 2000010 now
    else if token == "S"
    then within service_claims 60 now
    else none

abbrev pub known_jwt : Jwt String
known_jwt = record { numeric_date = λ t. t; sign = sign_known; parse = parse_known }

abbrev pub public_of : String → PublicKey
public_of p = record { modulus = []; exponent = 3 }

within_time :
    (c d : Claims) (end now : ℕ)
    → c ≡ d
    → d.not_before ≡ some 10
    → d.expires_at ≡ some end
    → IsCurrent c now
    → within d end now ≡ some c
within_time c d end now same from to h =
    let lower = h.begun 10 (ap (λ x. x.not_before) same ∙ from) in
    let upper = h.not_over end (ap (λ x. x.expires_at) same ∙ to) in rw same (ground arith)

some_path : {s t : String} → some s ≡ some t → s ≡ t
some_path h = ground arith

sign_cases :
    (c : Claims) (token : String)
    → sign_known c none "" ≡ some token
    → ((c ≡ access_claims) × ("A" ≡ token))
      ⊎ (((c ≡ refresh_claims) × ("R" ≡ token)) ⊎ ((c ≡ service_claims) × ("S" ≡ token)))
sign_cases c token h = elim (Bool-cases (same_claims c access_claims)) [
  | inl a ↦ inl (same_claims_path c access_claims a, some_path (rw a at h))
  | inr not_a ↦ elim (Bool-cases (same_claims c refresh_claims)) [
    | inl r ↦ inr (inl (same_claims_path c refresh_claims r, some_path (rw (not_a, r) at h)))
    | inr not_r ↦ elim (Bool-cases (same_claims c service_claims)) [
      | inl v ↦
          inr (inr (same_claims_path c service_claims v, some_path (rw (not_a, not_r, v) at h)))
      | inr not_v ↦ let none_signed = rw (not_a, not_r, not_v) at h in absurd (ground arith)
    ]
  ]
]

reads :
    (c : Claims) (token : String) (now : ℕ)
    → sign_known c none "" ≡ some token
    → IsCurrent c now
    → parse_known token none now ≡ some c
reads c token now h current = elim (sign_cases c token h) [
  | inl (same, is) ↦ rw (← is) (within_time c access_claims 110 now same refl refl current)
  | inr (inl (same, is)) ↦
      rw (← is) (within_time c refresh_claims 2000010 now same refl refl current)
  | inr (inr (same, is)) ↦ rw (← is) (within_time c service_claims 60 now same refl refl current)
]

pub known_jwt_laws : JwtLaws known_jwt public_of
known_jwt_laws = record { parse-sign = λ c p kid token now h current. reads c token now h current }
