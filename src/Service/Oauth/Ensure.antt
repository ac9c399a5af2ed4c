-- ===== src/Service/Oauth/Ensure.antt =====
-- How `ensureOAuthUser` comes to a user.
use identra.Common.{
  String, ◌==◌, ◌≡◌, ◌≢◌, ◌⊎◌, inl, inr, Bool-cases, eq_iff, refl, sym, ap, ◌∙◌, not, false, none,
  arith,
}
use mathlib.Core.Path.{subst}
use identra.Common.Exec.{
  Result, ok, err, bind-elim, bind-run, bind_ok, refuse-elim, refuse_if-eq-ok,
}
use identra.Text.{trim_space}
use identra.Service.{
  already_exists, Status, status, Fault, missing, exists, other, UserModel, ExternalIdentityModel,
  Service,
}
use identra.Service.Blocks.{attempt-eq-ok, answer-eq-ok, pair_path}
use identra.Service.Password.{new_user, created_or_refused}
use identra.Service.Providers.{UserInfo}
use identra.Service.Oauth.{
  new_identity, linked_elsewhere, verify_owner, linked_or_verified, create_link,
  update_email_if_needed, keep_or_delete, create_oauth_user, merge_or_create, ensure_by_identity,
  ensure_oauth_user,
}

ok_eq : {a b : UserModel} → ◌≡◌ {A = Result Status UserModel} (ok a) (ok b) → a ≡ b
ok_eq h = ground arith

==-false→ne : (a b : String) → (a == b) ≡ false → a ≢ b
==-false→ne a b h same = let is = (eq_iff a b).1 same in absurd (ground arith)

module _ {W P : Type 0} (s : Service W P) (info : UserInfo) where
  -- The user's e-mail is that of the provider, where that is not empty: it was before, or the store has
  -- been given the user with it.
  abbrev pub EmailTaken : UserModel → W → UserModel → W → Type 0
  EmailTaken before v user w' =
      (((before.email ≡ info.email) ⊎ (info.email ≡ "")) × (before ≡ user) × (v ≡ w'))
      ⊎ ((before.email ≢ info.email)
          × (info.email ≢ "")
          × (s.user_store.update (record before { email = info.email }) v ≡ (ok user, w')))

  -- The identity has been made for the user; or another request had made it, for the same user.
  pub data Joined (user_id : String) (v v' : W) : Type 0 where
    fresh :
        s.external_identity_store.create (new_identity user_id info.provider info.id) v
          ≡ (ok tt, v')
        → Joined user_id v v'
    raced :
        (u : W) (identity : ExternalIdentityModel)
        → s.external_identity_store.create (new_identity user_id info.provider info.id) v
          ≡ (err exists, u)
        → s.external_identity_store.get_by_provider_id info.provider info.id u ≡ (ok identity, v')
        → identity.user_id ≡ user_id
        → Joined user_id v v'

  update_to :
      (before : UserModel) (v : W) {user : UserModel} {w' : W}
      → update_email_if_needed s before info.email v ≡ (ok user, w')
      → EmailTaken before v user w'
  unfolding update_email_if_needed
  update_to before v h = elim (Bool-cases (before.email == info.email)) [
    | inl same ↦
        let (user, end) = answer-eq-ok (ok before) v (rw same at h) in
        inl (inl ((eq_iff _ _).0 same), ok_eq user, end)
    | inr differs ↦ elim (Bool-cases (info.email == "")) [
      | inl none_given ↦
          let (user, end) = answer-eq-ok (ok before) v (rw (differs, none_given) at h) in
          inl (inr ((eq_iff _ _).0 none_given), ok_eq user, end)
      | inr given ↦ inr (
        ==-false→ne _ _ differs,
        ==-false→ne _ _ given,
        attempt-eq-ok _ _ v (rw (differs, given) at h),
      )
    ]
  ]

  Joined-to :
      (user_id : String) (v u : W) (e e' : Status) (r : Result Fault (Unit {0})) {v' : W}
      → s.external_identity_store.create (new_identity user_id info.provider info.id) v ≡ (r, u)
      → linked_or_verified s info.provider info.id user_id e e' r u ≡ (ok tt, v')
      → Joined user_id v v'
  unfolding linked_or_verified verify_owner
  Joined-to user_id v u e e' (ok tt) at h =
      let (_, end) = answer-eq-ok _ _ h in fresh (at ∙ pair_path refl end)
  Joined-to user_id v u e e' (err exists) at h = bind-elim _ _ u h λ identity w1 e1 h1.
      let (same, end) =
        refuse_if-eq-ok (not (identity.user_id == user_id)) linked_elsewhere w1 h1 in
      raced u identity at (attempt-eq-ok _ _ u e1 ∙ pair_path refl end)
        ((eq_iff identity.user_id user_id).0 (ground arith))
  Joined-to user_id v u e e' (err missing) at h = absurd (ground arith)
  Joined-to user_id v u e e' (err other) at h = absurd (ground arith)

  create_link_to :
      (user_id : String) (v : W) (e e' : Status) {v' : W}
      → create_link s info.provider info.id user_id e e' v ≡ (ok tt, v')
      → Joined user_id v v'
  unfolding create_link
  create_link_to user_id v e e' h = Joined-to user_id v _ e e' _ refl (sym (bind-run _ _ v) ∙ h)

  -- The three ways to a user, with the calls of each in their order.
  pub data Ensured (w : W) (user : UserModel) (w' : W) : Type 0 where
    linked :
        (identity : ExternalIdentityModel) (before : UserModel) (v v' : W)
        → s.external_identity_store.get_by_provider_id info.provider info.id w ≡ (ok identity, v)
        → s.user_store.get_by_id identity.user_id v ≡ (ok before, v')
        → EmailTaken before v' user w'
        → Ensured w user w'
    merged :
        (v v' : W)
        → s.external_identity_store.get_by_provider_id info.provider info.id w ≡ (err missing, v)
        → (trim_space info.email == "") ≡ false
        → s.user_store.get_by_email info.email v ≡ (ok user, v')
        → Joined user.id v' w'
        → Ensured w user w'
    created :
        (v v' made : W)
        → s.external_identity_store.get_by_provider_id info.provider info.id w ≡ (err missing, v)
        → (trim_space info.email == "") ≡ false
        → s.user_store.get_by_email info.email v ≡ (err missing, v')
        → s.user_store.create (new_user info.email none) v' ≡ (ok user, made)
        → s.external_identity_store.create (new_identity user.id info.provider info.id) made
          ≡ (ok tt, w')
        → Ensured w user w'

  created-eq-ok :
      (r : Result Fault UserModel) {user : UserModel} → created_or_refused r ≡ ok user → r ≡ ok user
  created-eq-ok (ok u) h = ground arith
  created-eq-ok (err missing) h = absurd (ground arith)
  created-eq-ok (err exists) h = absurd (ground arith)
  created-eq-ok (err other) h = absurd (ground arith)

  keep-eq-ok :
      (user : UserModel) (r : Result Fault (Unit {0})) (v : W) {user' : UserModel} {w' : W}
      → keep_or_delete s user r v ≡ (ok user', w')
      → (r ≡ ok tt) × (user ≡ user') × (v ≡ w')
  unfolding keep_or_delete
  keep-eq-ok user (ok tt) v h = let (e, k) = answer-eq-ok _ _ h in (refl, ground arith, k)
  keep-eq-ok user (err e) v h =
      let (bad, _) = answer-eq-ok _ _ (sym (bind-run _ _ v) ∙ h) in absurd (ground arith)

  create_to :
      (v : W) {user : UserModel} {w' : W}
      → create_oauth_user s info v ≡ (ok user, w')
      → (made : W) × (s.user_store.create (new_user info.email none) v ≡ (ok user, made))
        × (s.external_identity_store.create (new_identity user.id info.provider info.id) made
            ≡ (ok tt, w'))
  unfolding create_oauth_user
  create_to v h =
      let h1 = sym (bind-run _ _ v) ∙ h in
      bind-elim _ _ _ h1 λ u made e1 h2.
        let (answered, at) = answer-eq-ok _ _ e1 in
        let h3 = sym (bind-run _ _ made) ∙ h2 in
        let (identity, same, end) = keep-eq-ok u _ _ h3 in
        (
          made,
          pair_path (created-eq-ok _ answered ∙ ap ok same) at,
          rw (sym same) (pair_path identity end),
        )

  merge_to :
      (w v : W) (r : Result Fault UserModel) (v' : W) {user : UserModel} {w' : W}
      → s.external_identity_store.get_by_provider_id info.provider info.id w ≡ (err missing, v)
      → (trim_space info.email == "") ≡ false
      → s.user_store.get_by_email info.email v ≡ (r, v')
      → merge_or_create s info r v' ≡ (ok user, w')
      → Ensured w user w'
  unfolding merge_or_create
  merge_to w v (ok u) v' {user} {w'} absent given found h = bind-elim _ _ v' h λ _ w1 e1 h1.
      let (same, end) = answer-eq-ok (ok u) w1 h1 in
      let is : u ≡ user = ground arith in
      subst (λ x. Ensured w x w') is
        (merged v v' absent given found (create_link_to u.id v' _ _ (e1 ∙ pair_path refl end)))
  merge_to w v (err missing) v' absent given found h =
      let (made, user_made, identity_made) = create_to v' h in
      created v v' made absent given found user_made identity_made
  merge_to w v (err exists) v' absent given found h = absurd (ground arith)
  merge_to w v (err other) v' absent given found h = absurd (ground arith)

  ensure_to :
      (w : W) (r : Result Fault ExternalIdentityModel) (v : W) {user : UserModel} {w' : W}
      → s.external_identity_store.get_by_provider_id info.provider info.id w ≡ (r, v)
      → ensure_by_identity s info r v ≡ (ok user, w')
      → Ensured w user w'
  unfolding ensure_by_identity
  ensure_to w (ok identity) v found h = bind-elim _ _ v h λ before v' e1 h1.
      linked identity before v v' found (attempt-eq-ok _ _ v e1) (update_to before v' h1)
  ensure_to w (err missing) v found h =
      refuse-elim _ _ _ v h
        λ given h1. merge_to w v _ _ found given refl (sym (bind-run _ _ v) ∙ h1)
  ensure_to w (err exists) v found h = absurd (ground arith)
  ensure_to w (err other) v found h = absurd (ground arith)

  -- The user to whom a provider's account leads is, by the calls made in this order: the user of the
  -- account's identity, stored with the provider's e-mail where that is not empty and not the user's
  -- already; or, where there is no identity, the user of the provider's e-mail (not blank, and verified or
  -- not), after the identity has been made for that user, or has been found to be that user's when another request made it
  -- in between; or, where there is no such user, a
  -- new one, after its identity has been made.
  pub ensure_oauth_user_sound :
      (w w' : W) (user : UserModel) → ensure_oauth_user s info w ≡ (ok user, w') → Ensured w user w'
  unfolding ensure_oauth_user
  ensure_oauth_user_sound w w' user h =
      refuse-elim _ _ _ w h
        λ _ h1. refuse-elim _ _ _ w h1 λ _ h2. ensure_to w _ _ refl (sym (bind-run _ _ w) ∙ h2)

  -- Where a new user has been created and its identity turns out to exist, the new user is deleted again and
  -- the call fails, in the state that the deletion left.
  pub orphan_is_deleted :
      (w made v : W) (user : UserModel)
      → s.user_store.create (new_user info.email none) w ≡ (ok user, made)
      → s.external_identity_store.create (new_identity user.id info.provider info.id) made
        ≡ (err exists, v)
      → create_oauth_user s info w ≡ (
        err (status already_exists "oauth account already linked"),
        (s.user_store.delete user.id v).1,
      )
  unfolding create_oauth_user keep_or_delete
  orphan_is_deleted w made v user user_made conflict =
      bind-run _ _ w
      ∙ bind_ok _ _ {a = user} {v = made} (ground arith)
      ∙ bind-run _ _ made
      ∙ ap (λ x. keep_or_delete s user x.0 x.1) conflict
      ∙ bind-run _ _ v
