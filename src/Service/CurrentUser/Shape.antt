-- ===== src/Service/CurrentUser/Shape.antt =====
-- What the answer of `GetCurrentUser` shows of a user and of the identities.
use mathlib.Core.Path.{subst}
use identra.Common.{
  String, ◌==◌, ◌≡◌, refl, sym, ◌↔◌, Bool, true, false, Option, none, some, List, [], ◌∷◌, map,
  arith,
}
use identra.Common.Exec.{Result, ok, err}
use identra.Text.{trim_space, to_lower}
use identra.Service.{Fault, UserModel, ExternalIdentityModel, Service}
use identra.Service.Oauth.{AuthProvider, unspecified, github}
use identra.Service.CurrentUser.{
  User, LinkedAccount, user_response, has_password, auth_provider_value, linked_account,
  linked_accounts,
}

-- A hash that is more than white space.
abbrev pub HasPassword : Option String → Type 0
HasPassword none = ⊥
HasPassword (some hash) = (trim_space hash == "") ≡ false

has_password_iff : (o : Option String) → (has_password o ≡ true) ↔ HasPassword o
unfolding has_password
has_password_iff none = (λ h. absurd (ground arith), λ h. absurd h)
has_password_iff (some hash) = (λ h. ground arith, λ h. ground arith)

module _ {W P : Type 0} (s : Service W P) where
  -- An account that stands for an identity: the same id at the provider, and GitHub where the provider's
  -- name, trimmed and in lower case, is `github`.
  abbrev pub IsLinked : LinkedAccount → ExternalIdentityModel → Type 0
  IsLinked account identity =
      (account.provider_user_id ≡ identity.provider_user_id)
      × ((account.provider ≡ github)
          ↔ ((to_lower s.lower_rune (trim_space identity.provider) == "github") ≡ true))

  -- One account for each identity, in their order.
  abbrev pub AllLinked : List LinkedAccount → List ExternalIdentityModel → Type 0
  AllLinked [] [] = Unit
  AllLinked (a ∷ rest) (i ∷ is) = IsLinked a i × AllLinked rest is
  AllLinked _ _ = ⊥

  abbrev pub AreLinked : List LinkedAccount → Result Fault (List ExternalIdentityModel) → Type 0
  AreLinked accounts (err e) = accounts ≡ []
  AreLinked accounts (ok identities) = AllLinked accounts identities

  pub record Answered (user : UserModel) (identities : Result Fault (List ExternalIdentityModel))
      (shown : User) : Type 0 where
    pub same_id : shown.id ≡ user.id
    pub same_email : shown.email ≡ user.email
    pub password : (shown.password_login_enabled ≡ true) ↔ HasPassword user.hashed_password
    pub linked : AreLinked shown.linked_oauth_accounts identities

  provider_iff :
      (provider : String)
      → (auth_provider_value s provider ≡ github)
        ↔ ((to_lower s.lower_rune (trim_space provider) == "github") ≡ true)
  unfolding auth_provider_value
  provider_iff provider = (λ h. ground arith, λ h. ground arith)

  provider_eq : (a b : AuthProvider) {C : Type 0} → (a ≡ github) ↔ C → (b ≡ github) ↔ C → a ≡ b
  provider_eq unspecified unspecified h k = refl
  provider_eq github github h k = refl
  provider_eq unspecified github h k = let is = h.1 (k.0 refl) in absurd (ground arith)
  provider_eq github unspecified h k = let is = k.1 (h.0 refl) in absurd (ground arith)

  bool_eq : (a b : Bool) {C : Type 0} → (a ≡ true) ↔ C → (b ≡ true) ↔ C → a ≡ b
  bool_eq true b h k = sym (k.1 (h.0 refl))
  bool_eq false true h k = h.1 (k.0 refl)
  bool_eq false false h k = refl

  map-AllLinked :
      (identities : List ExternalIdentityModel)
      → AllLinked (map (linked_account s) identities) identities
  map-AllLinked [] = tt
  map-AllLinked (i ∷ is) = ((refl, provider_iff i.provider), map-AllLinked is)

  account_eq :
      (a b : LinkedAccount)
      → a.provider ≡ b.provider
      → a.provider_user_id ≡ b.provider_user_id
      → a ≡ b
  account_eq a b h k i = record { provider = h i; provider_user_id = k i }

  cons_eq : {A : Type 0} {a b : A} {rest bs : List A} → a ≡ b → rest ≡ bs → (a ∷ rest) ≡ (b ∷ bs)
  cons_eq p q i = p i ∷ q i

  AllLinked-map :
      (accounts : List LinkedAccount) (identities : List ExternalIdentityModel)
      → AllLinked accounts identities
      → accounts ≡ map (linked_account s) identities
  AllLinked-map [] [] h = refl
  AllLinked-map [] (i ∷ is) h = absurd h
  AllLinked-map (a ∷ rest) [] h = absurd h
  AllLinked-map (a ∷ rest) (i ∷ is) ((same, provider), h) =
      cons_eq
        (account_eq a (linked_account s i)
          (provider_eq a.provider (auth_provider_value s i.provider) provider
            (provider_iff i.provider))
          same)
        (AllLinked-map rest is h)

  linked-AreLinked :
      (identities : Result Fault (List ExternalIdentityModel))
      → AreLinked (linked_accounts s identities) identities
  linked-AreLinked (err e) = refl
  linked-AreLinked (ok is) = map-AllLinked is

  AreLinked-linked :
      (accounts : List LinkedAccount) (identities : Result Fault (List ExternalIdentityModel))
      → AreLinked accounts identities
      → accounts ≡ linked_accounts s identities
  AreLinked-linked accounts (err e) h = h
  AreLinked-linked accounts (ok is) h = AllLinked-map accounts is h

  user_response-Answered :
      (user : UserModel) (identities : Result Fault (List ExternalIdentityModel))
      → Answered user identities (user_response s user identities)
  unfolding user_response
  user_response-Answered user identities = record {
    same_id = refl;
    same_email = refl;
    password = has_password_iff user.hashed_password;
    linked = linked-AreLinked identities;
  }

  user_eq :
      (a b : User)
      → a.id ≡ b.id
      → a.email ≡ b.email
      → a.password_login_enabled ≡ b.password_login_enabled
      → a.linked_oauth_accounts ≡ b.linked_oauth_accounts
      → a ≡ b
  user_eq a b p q r t i = record {
    id = p i;
    email = q i;
    password_login_enabled = r i;
    linked_oauth_accounts = t i;
  }

  pub user_response_iff :
      (user : UserModel) (identities : Result Fault (List ExternalIdentityModel)) (shown : User)
      → (shown ≡ user_response s user identities) ↔ Answered user identities shown
  unfolding user_response
  user_response_iff user identities shown = (
    λ h. subst (Answered user identities) (sym h) (user_response-Answered user identities),
    λ a.
        user_eq shown _ a.same_id a.same_email
          (bool_eq _ _ a.password (has_password_iff user.hashed_password))
          (AreLinked-linked _ identities a.linked),
  )
