-- ===== src/Config/Validation.antt =====
-- Which configurations are valid.
use Prim.Native.Char.{Char}
use Prim.Native.String.{len}
use identra.Common.{
  ℕ, String, ◌≡◌, ◌≢◌, refl, ◌↔◌, ◌≤◌, true, false, ◌&&◌, [], any, arith, eqb, ◌⊎◌, eq_iff,
}
use identra.Common.Exec.{ok, err}
use identra.Text.{trim_space, to_lower}
use identra.Config.{
  GrpcConfig, RedisConfig, SmtpConfig, AuthConfig, BootstrapConfig, PersistenceConfig, is_blank,
  is_positive, is_negative, validate, validate_redis, validate_mailer, validate_auth,
  validate_bootstrap, validate_persistence, ℤ, pos, negsuc, Check, within, reject,
}

abbrev Given : String → Type 0
Given s = is_blank s ≡ false

abbrev InPorts : ℤ → Type 0
InPorts (pos n) = (1 ≤ n) × (n ≤ 65535)
InPorts (negsuc n) = ⊥

-- A host without a name turns the mailer off.
abbrev pub ValidMailer : SmtpConfig → Type 0
ValidMailer c =
    is_blank c.host ≡ false
    → InPorts c.port
      × (c.auth_enabled ≡ true → Given c.username × Given c.password)
      × Given c.from_email

abbrev pub ValidBootstrap : BootstrapConfig → Type 0
ValidBootstrap c =
    c.enabled ≡ true
    → Given c.name × Given c.client_id × (32 ≤ len (trim_space c.client_secret)) × (c.scopes ≢ [])

abbrev pub ValidAuth : AuthConfig → Type 0
ValidAuth c =
    ((is_blank c.rsa_private_key && is_blank c.rsa_private_key_file) ≡ false)
    × (is_negative c.oauth.state_expiration_duration ≡ false)
    × Given c.token.issuer
    × (is_positive c.token.access_token_expiration ≡ true)
    × (is_positive c.token.refresh_token_expiration ≡ true)
    × (is_positive c.token.service_token_expiration ≡ true)

mailer_by_port :
    (c : SmtpConfig) (port : ℤ) → c.port ≡ port → (validate_mailer c ≡ ok tt) ↔ ValidMailer c
unfolding validate_mailer
mailer_by_port c (pos n) e = rw e (ground arith)
mailer_by_port c (negsuc n) e = rw e (ground arith)

validate_mailer_iff : (c : SmtpConfig) → (validate_mailer c ≡ ok tt) ↔ ValidMailer c
unfolding validate_mailer
validate_mailer_iff c = mailer_by_port c c.port refl

validate_bootstrap_iff : (c : BootstrapConfig) → (validate_bootstrap c ≡ ok tt) ↔ ValidBootstrap c
unfolding validate_bootstrap
validate_bootstrap_iff c = ground arith

validate_auth_iff : (c : AuthConfig) → (validate_auth c ≡ ok tt) ↔ ValidAuth c
unfolding validate_auth
validate_auth_iff c = ground arith

abbrev pub ValidRedis : RedisConfig → Type 0
ValidRedis c = (c.urls ≢ []) × (any is_blank c.urls ≡ false)

validate_redis_iff : (c : RedisConfig) → (validate_redis c ≡ ok tt) ↔ ValidRedis c
unfolding validate_redis
validate_redis_iff c = ground arith

within_iff :
    (label : String) (r rest : Check)
    → (within label r rest ≡ ok tt) ↔ ((r ≡ ok tt) × (rest ≡ ok tt))
within_iff label (ok u) rest = ground arith
within_iff label (err e) rest = ground arith

port_iff :
    (port : ℕ) (rest : Check)
    → (reject (eqb port 0) "grpc port is required" rest ≡ ok tt) ↔ ((port ≢ 0) × (rest ≡ ok tt))
port_iff port rest = ground arith

module _ (lower_rune : Char → Char) (quote : String → String) where
  abbrev pub ValidPersistence : PersistenceConfig → Type 0
  ValidPersistence c =
      let kind = to_lower lower_rune (trim_space c.kind) in
      ((kind ≡ "") ⊎ (kind ≡ "sqlite")) × Given c.path

  validate_persistence_iff :
      (c : PersistenceConfig)
      → (validate_persistence lower_rune quote c ≡ ok tt) ↔ ValidPersistence c
  unfolding validate_persistence
  validate_persistence_iff c =
      let kind = to_lower lower_rune (trim_space c.kind) in
      ground (arith, eq_iff kind "", eq_iff kind "sqlite")

  -- A configuration is valid exactly where it has a port of the server, one or more Redis URLs and none that is blank, no mailer
  -- or a mailer with a port, a sender and, where it logs in, its credentials, a database of a known kind with a
  -- path, a signing key or its file, a lifetime of OAuth states that is not negative, an issuer and positive
  -- lifetimes of tokens, and no bootstrap or one with a name, an id, a secret of 32 bytes or more when
  -- trimmed, and a scope.
  pub validate_iff :
      (c : GrpcConfig)
      → (validate lower_rune quote c ≡ ok tt) ↔ (
          (c.grpc_port ≢ 0)
          × ValidRedis c.redis
          × ValidMailer c.smtp_mailer
          × ValidPersistence c.persistence
          × ValidAuth c.auth
          × ValidBootstrap c.bootstrap)
  unfolding validate
  validate_iff c =
      let t5 = within "bootstrap config: " (validate_bootstrap c.bootstrap) (ok tt) in
      let t4 = within "auth config: " (validate_auth c.auth) t5 in
      let t3 =
        within "persistence config: " (validate_persistence lower_rune quote c.persistence) t4 in
      let t2 = within "smtp mailer config: " (validate_mailer c.smtp_mailer) t3 in
      let t1 = within "redis config: " (validate_redis c.redis) t2 in
      let i0 : (reject (eqb c.grpc_port 0) "grpc port is required" t1 ≡ ok tt)
          ↔ ((c.grpc_port ≢ 0) × (t1 ≡ ok tt)) =
        port_iff c.grpc_port t1 in
      let i1 = within_iff "redis config: " (validate_redis c.redis) t2 in
      let i2 = within_iff "smtp mailer config: " (validate_mailer c.smtp_mailer) t3 in
      let i3 =
        within_iff "persistence config: " (validate_persistence lower_rune quote c.persistence)
          t4 in
      let i4 = within_iff "auth config: " (validate_auth c.auth) t5 in
      let i5 = within_iff "bootstrap config: " (validate_bootstrap c.bootstrap) (ok tt) in
      let v1 = validate_redis_iff c.redis in
      let v2 = validate_mailer_iff c.smtp_mailer in
      let v3 = validate_persistence_iff c.persistence in
      let v4 = validate_auth_iff c.auth in
      let v5 = validate_bootstrap_iff c.bootstrap in
      (
        (λ h.
            let (p, h1) = i0.0 h in
            let (r, h2) = i1.0 h1 in
            let (m, h3) = i2.0 h2 in
            let (d, h4) = i3.0 h3 in
            let (a, h5) = i4.0 h4 in (p, v1.0 r, v2.0 m, v3.0 d, v4.0 a, v5.0 (i5.0 h5).0)),
        (λ h.
            let (p, r, m, d, a, b) = h in
            let h5 = i5.1 (v5.1 b, refl) in
            let h4 = i4.1 (v4.1 a, h5) in
            let h3 = i3.1 (v3.1 d, h4) in
            let h2 = i2.1 (v2.1 m, h3) in i0.1 (p, i1.1 (v1.1 r, h2))),
      )
