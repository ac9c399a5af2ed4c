-- ===== src/Service/Session.antt =====
-- internal/identra/service_tokens.go: refreshing and revoking sessions.
pub mod Rotation
pub mod SingleUse
use identra.Common.{ℕ, String, ◌==◌, Bool, true, false, Option, none, some, if◌then◌else◌}
use identra.Common.Exec.{Result, ok, err, Action, pure, raise, run, ◌>>=◌, ◌>>◌, refuse_if}
use identra.Text.{trim_space}
use identra.Security.Tokens.{
  Claims, TokenPair, TokenError, Runtime, Jwt, validate_refresh_token, new_token_pair,
}
use identra.Service.{
  invalid_argument, internal, unauthenticated, Status, status, Fault, missing, UserModel, Service,
  RefreshTokenRevocationStore, Handler, or_status, attempt,
}

abbrev pub active_or_refused : Result Fault Bool → Result Status (Unit {0})
active_or_refused (err e) = err (status internal "failed to validate refresh token")
active_or_refused (ok true) = err (status unauthenticated "refresh token has been revoked")
active_or_refused (ok false) = ok tt

abbrev pub active_user : Result Fault UserModel → Result Status UserModel
active_user (ok user) = ok user
active_user (err missing) = err (status unauthenticated "user is inactive")
active_user (err _) = err (status internal "failed to validate refresh token")

module _ {W : Type 0} where
  unfoldable pub ensure_active_in :
      Option (RefreshTokenRevocationStore W) → String → Handler W (Unit {0})
  ensure_active_in none token_id w = (ok tt, w)
  ensure_active_in (some store) token_id w =
      let (revoked, w') = store.is_revoked token_id w in (active_or_refused revoked, w')

  unfoldable pub revoke_in :
      Option (RefreshTokenRevocationStore W) → Option ℕ → String → Handler W (Unit {0})
  revoke_in none expires_at token_id = pure tt
  revoke_in (some store) none token_id = pure tt
  revoke_in (some store) (some expires_at) token_id =
      attempt (store.revoke token_id expires_at) (status internal "failed to revoke refresh token")

module _ {W P : Type 0} (s : Service W P) where
  -- `now` is read by the library while it parses the token.
  unfoldable pub validated_refresh : String → Handler W Claims
  validated_refresh token = do
    now ← run s.runtime.now
    attempt (λ w. (validate_refresh_token s.jwt token s.token_cfg.public_key now, w))
        (status unauthenticated "invalid refresh token")

  unfoldable pub ensure_refresh_token_active : Claims → Handler W (Unit {0})
  unfolding ensure_active_in
  ensure_refresh_token_active claims = ensure_active_in s.refresh_token_revocations claims.token_id

  unfoldable pub revoke_refresh_claims : Claims → Handler W (Unit {0})
  unfolding revoke_in
  revoke_refresh_claims claims =
      revoke_in s.refresh_token_revocations claims.expires_at claims.token_id

  unfoldable pub token_user : Claims → Handler W UserModel
  token_user claims w =
      let (found, w') = s.user_store.get_by_id claims.user_id w in (active_user found, w')

  unfoldable pub refresh_session : String → Handler W TokenPair
  refresh_session token =
      let refresh_token = trim_space token in
      do
        refuse_if (refresh_token == "") (status invalid_argument "refresh token is required")
        claims ← validated_refresh refresh_token
        ensure_refresh_token_active claims
        user ← token_user claims
        pair ←
            attempt (new_token_pair s.runtime s.jwt claims.user_id s.token_cfg)
              (status internal "failed to refresh token")
        revoke_refresh_claims claims
        pure pair

  unfoldable pub revoke_session : String → Handler W (Unit {0})
  revoke_session token =
      let refresh_token = trim_space token in
      do
        refuse_if (refresh_token == "") (status invalid_argument "refresh token is required")
        claims ← validated_refresh refresh_token
        ensure_refresh_token_active claims
        revoke_refresh_claims claims
        pure tt
