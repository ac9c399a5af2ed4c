-- ===== src/Tests/Sessions.antt =====
-- Sessions and tokens.
use identra.Common.{
  ℕ, String, ◌==◌, ◌≡◌, ◌≢◌, refl, sym, ◌∙◌, ◌&&◌, ap, ◌<◌, false, true, some, [], ◌∷◌, lookup,
  insert, lookup-insert, arith, eq_refl, Bool-cases, inl, inr, ltb, leb, ◌≤◌, ◌+◌,
}
use identra.Common.Exec.{Result, ok, ◌>>=◌}
use identra.Text.{trim_space}
use identra.Security.Tokens.{Claims, TokenError, new_token_pair, validate_refresh_token}
use identra.Security.Tokens.Kinds.{AcceptedAsAccess, AcceptedAsRefresh, issued_pair_kinds}
use identra.Service.{Fault, attempt}
use identra.Service.Session.{
  validated_refresh, ensure_refresh_token_active, revoke_refresh_claims, token_user,
  refresh_session, revoke_session,
}
use identra.Service.Session.Rotation.{Refreshed, refresh_session_sound}
use identra.Service.Session.SingleUse.{RevocationLaws, ReadsAs, refresh_token_serves_once}
use identra.Tests.Claims.{refresh_claims, known_jwt, known_jwt_laws, public_of}
use identra.Tests.World.{World, world, runtime, config, service, revocations, issued}

abbrev after_refresh : World
after_refresh = record { revoked = ("id", 2000010) ∷ []; log = [] }

refreshed : refresh_session service "R" world ≡ (ok issued, after_refresh)
unfolding refresh_session validated_refresh ensure_refresh_token_active revoke_refresh_claims
    token_user attempt ◌>>=◌ new_token_pair validate_refresh_token trim_space insert lookup
refreshed = refl

revoked : revoke_session service "R" world ≡ (ok tt, after_refresh)
unfolding revoke_session validated_refresh ensure_refresh_token_active revoke_refresh_claims
    token_user attempt ◌>>=◌ new_token_pair validate_refresh_token trim_space insert lookup
revoked = refl

refresh_session_sound_example : Refreshed service "R" world issued after_refresh
refresh_session_sound_example =
    refresh_session_sound service "R" world after_refresh issued refreshed

abbrev laws : RevocationLaws service revocations
laws = record {
  Spent = λ v id e. lookup id v.revoked ≡ some e;
  spends = λ id e w w' given h. written id e w w' h;
  refuses = λ v id e spent early. not_active v id e spent;
}
  where
    written :
        (id : String) (e : ℕ) (w w' : World)
        → revocations.revoke id e w ≡ (ok tt, w')
        → lookup id w'.revoked ≡ some e
    written id e w w' h =
        ap (λ (x : Result Fault (Unit {0}) × World). lookup id x.1.revoked) (sym h)
        ∙ lookup-insert id id e w.revoked
        ∙ rw (eq_refl id) refl

    not_active :
        (v : World) (id : String) (e : ℕ)
        → lookup id v.revoked ≡ some e
        → (revocations.is_revoked id v).0 ≢ ok false
    not_active v id e spent h = let found = rw spent at h in absurd (ground arith)

not_empty : ◌≢◌ {A = String} "id" ""
not_empty h = let same : false ≡ true = ap (λ s. s == "") h in absurd (ground arith)

ok_path : {c d : Claims} → ◌≡◌ {A = Result TokenError Claims} (ok c) (ok d) → c ≡ d
ok_path h = ground arith

valid_refresh :
    (now : ℕ) (d : Claims)
    → validate_refresh_token known_jwt (trim_space "R") (some (public_of "key")) now ≡ ok d
    → (d ≡ refresh_claims) × (now < 2000010)
unfolding validate_refresh_token trim_space
valid_refresh now d h = elim (Bool-cases (leb 10 now && ltb now 2000010)) [
  | inl on ↦ (sym (ok_path (rw on at h)), ground arith)
  | inr off ↦ let refused = rw off at h in absurd (ground arith)
]

pub reads : ReadsAs known_jwt (some (public_of "key")) (trim_space "R") refresh_claims 2000010
reads = record {
  same = λ now d h. (valid_refresh now d h).0;
  dated = refl;
  identified = λ h. not_empty h;
  current = λ now d h. (valid_refresh now d h).1;
}

refresh_token_serves_once_example :
    (refresh_session service "R" after_refresh ≢ (ok issued, world))
    × (revoke_session service "R" after_refresh ≢ (ok tt, world))
refresh_token_serves_once_example =
    refresh_token_serves_once service revocations laws refl "R" refresh_claims 2000010 reads world
      after_refresh after_refresh world issued issued refreshed (λ id e spent. spent)

pair_issued : new_token_pair runtime known_jwt "u1" config world ≡ (ok issued, world)
unfolding new_token_pair ◌>>=◌
pair_issued = refl

issued_pair_kinds_example :
    ((c : Claims) × (c.user_id ≡ "u1")
      × (issued.access_token.expires_at ≡ 10 + config.access_token_expiration)
      × ((now : ℕ)
          → 10 ≤ now
          → now < issued.access_token.expires_at
          → AcceptedAsAccess known_jwt "A" config.public_key now c))
    × ((c : Claims) × (c.user_id ≡ "u1")
        × (issued.refresh_token.expires_at ≡ 10 + config.refresh_token_expiration)
        × ((now : ℕ)
            → 10 ≤ now
            → now < issued.refresh_token.expires_at
            → AcceptedAsRefresh known_jwt "R" config.public_key now c))
issued_pair_kinds_example =
    issued_pair_kinds runtime known_jwt public_of "u1" config "key" world world issued
      known_jwt_laws refl refl pair_issued
