-- ===== src/Sqlite/Accounts/Rotated.antt =====
-- A secret that a rotation has replaced.
use identra.Common.{
  ℕ, String, ◌==◌, ◌≡◌, ◌≢◌, refl, sym, ◌∙◌, ap, Bool, true, false, ◌&&◌, none, some, List, [], ◌∷◌,
  any, arith, eq_iff,
}
use identra.Common.Exec.{ok, bind-elim}
use identra.Security.Tokens.{Runtime}
use identra.ServiceAccount.{Account}
use identra.Sqlite.{
  AccountRow, CredentialRow, Database, Driver, DriverLaws, first, update_where, is_null,
}
use identra.Sqlite.Rows.{any-update, first_sound, any-stronger}
use identra.Sqlite.Calls.{asked-eq-ok}
use identra.Sqlite.Accounts.Statements.{
  is_enabled, is_current, opens_with, account_with_secret, enabled_account, disable_account,
  insert_account, insert_credential, insert_event, set_state, revoke_credentials,
}
use identra.Sqlite.Accounts.{
  Json, committed, Outcome, authenticate, rotate_credential, replace_credential,
}
use identra.Sqlite.Accounts.Keeps.{transaction-elim}
use identra.Sqlite.Accounts.Calls.{StatementsKeep, Call, after_calls, after_calls-Keeps}

abbrev hash_is : String → CredentialRow → Bool
hash_is hash c = c.secret_hash == hash

-- A credential of the account with this hash that has not been revoked.
abbrev is_live : String → String → CredentialRow → Bool
is_live id hash c = (c.service_account_id == id) && (c.secret_hash == hash) && is_null c.revoked_at

-- The hash is in the table, and no live credential of the account has it.
abbrev pub IsSpent : String → String → Database → Type 0
IsSpent id hash d =
    (any (hash_is hash) d.credentials ≡ true) × (any (is_live id hash) d.credentials ≡ false)

abbrev pub IsKnown : String → Database → Type 0
IsKnown hash d = any (hash_is hash) d.credentials ≡ true

abbrev revoking : ℕ → CredentialRow → CredentialRow
revoking now c = record c { revoked_at = some now }

revoke_keeps :
    (id other hash : String) (now : ℕ) (cs : List CredentialRow)
    → any (is_live id hash) cs ≡ false
    → any (is_live id hash) (update_where (is_current other) (revoking now) cs) ≡ false
unfolding update_where
revoke_keeps id other hash now [] h = refl
revoke_keeps id other hash now (c ∷ cs) h = ground (arith, revoke_keeps id other hash now cs)

revoke_spends :
    (id hash : String) (now : ℕ) (cs : List CredentialRow)
    → any (is_live id hash) (update_where (is_current id) (revoking now) cs) ≡ false
unfolding update_where
revoke_spends id hash now [] = refl
revoke_spends id hash now (c ∷ cs) = ground (arith, revoke_spends id hash now cs)

module _ {W : Type 0} (driver : Driver W) where
  statements-IsKnown : (hash : String) → StatementsKeep driver (IsKnown hash)
  unfolding insert_account insert_credential insert_event set_state revoke_credentials
      disable_account
  statements-IsKnown hash = record {
    accounts = λ r d h. ground arith;
    credentials = λ r d h. ground arith;
    events = λ r d h. ground arith;
    states = λ r d h. h;
    revoked = λ other now d h.
        any-update (is_current other) (revoking now) (hash_is hash) d.credentials (λ c. refl) ∙ h;
    disabled = λ other now d h. h;
  }

  statements-IsSpent : (id hash : String) → StatementsKeep driver (IsSpent id hash)
  unfolding insert_account insert_credential insert_event set_state revoke_credentials
      disable_account
  statements-IsSpent id hash = record {
    accounts = λ r d h. ground arith;
    credentials = λ r d h. ground (arith, eq_iff r.secret_hash hash);
    events = λ r d h. ground arith;
    states = λ r d h. h;
    revoked = λ other now d h. (
      any-update (is_current other) (revoking now) (hash_is hash) d.credentials (λ c. refl) ∙ h.0,
      revoke_keeps id other hash now d.credentials h.1,
    );
    disabled = λ other now d h. h;
  }

  inserted :
      (row : CredentialRow) (d : Database) {u : Unit {0}}
      → (insert_credential driver row d).0 ≡ ok u
      → (any (hash_is row.secret_hash) d.credentials ≡ false)
        × ((insert_credential driver row d).1.credentials ≡ row ∷ d.credentials)
        × ((insert_credential driver row d).1.accounts ≡ d.accounts)
  unfolding insert_credential
  inserted row d h = ground arith

abbrev new_row : String → String → String → ℕ → CredentialRow
new_row id credential_id hash now = record {
  id = credential_id;
  service_account_id = id;
  secret_hash = hash;
  created_at = now;
  expires_at = none;
  revoked_at = none;
}

-- The account that a secret opens has a live credential with its hash.
opened :
    (id hash : String) (t : ℕ) (d : Database) {row : AccountRow}
    → (account_with_secret id hash t d).0 ≡ ok row
    → any (is_live id hash) d.credentials ≡ true
unfolding account_with_secret
opened id hash t d {row} h =
    let p : AccountRow → Bool =
      λ r. is_enabled id r && any (opens_with r.id hash t) d.credentials in
    let there : first p d.accounts ≡ some row = ground arith in
    let holds = first_sound p d.accounts there in
    let same : row.id ≡ id = ground (arith, eq_iff row.id id) in
    let opens : any (opens_with row.id hash t) d.credentials ≡ true = ground arith in
    any-stronger (opens_with id hash t) (is_live id hash) d.credentials (λ c e. ground arith)
      (rw same at opens)

opened_known :
    (id hash : String) (cs : List CredentialRow)
    → any (is_live id hash) cs ≡ true
    → any (hash_is hash) cs ≡ true
opened_known id hash cs h = any-stronger (is_live id hash) (hash_is hash) cs (λ c e. ground arith) h

module _ {W : Type 0} (driver : Driver W) (runtime : Runtime W) (laws : DriverLaws driver runtime)
    (json : Json) where
  -- What a rotation that returns has done.
  pub record Rotated (id hash : String) (before after : Database) : Type 0 where
    pub at : ℕ
    pub row : CredentialRow
    pub owned : row.service_account_id ≡ id
    pub hashed : row.secret_hash ≡ hash
    pub current : row.revoked_at ≡ none
    pub lasting : row.expires_at ≡ none
    pub enabled : (r : AccountRow) × (first (is_enabled id) before.accounts ≡ some r)
    pub fresh : any (hash_is hash) before.credentials ≡ false
    pub accounts : after.accounts ≡ before.accounts
    pub credentials :
        after.credentials ≡ row ∷ update_where (is_current id) (revoking at) before.credentials

  revoked_rows :
      (id : String) (now : ℕ) (d : Database)
      → ((revoke_credentials id now d).1.credentials
          ≡ update_where (is_current id) (revoking now) d.credentials)
        × ((revoke_credentials id now d).1.accounts ≡ d.accounts)
  unfolding revoke_credentials
  revoked_rows id now d = (refl, refl)

  found_enabled :
      (id : String) (d : Database) {r : AccountRow}
      → (enabled_account id d).0 ≡ ok r
      → (first (is_enabled id) d.accounts ≡ some r) × ((enabled_account id d).1 ≡ d)
  unfolding enabled_account
  found_enabled id d h = ground arith

  replace_credential-eq-ok :
      (id credential_id hash : String) (now : ℕ) (u : W) {out : Outcome (Unit {0})} {v : W}
      → replace_credential driver runtime json id credential_id hash now u ≡ (ok out, v)
      → (out ≡ committed tt) × Rotated id hash (driver.database u) (driver.database v)
  unfolding replace_credential
  replace_credential-eq-ok id credential_id hash now u {out} {v} h = bind-elim _ _ u h λ r v1 e1 h1.
      bind-elim _ _ v1 h1 λ _ v2 e2 h2. bind-elim _ _ v2 h2 λ _ v3 e3 h3.
        let (found, at1) = asked-eq-ok driver runtime laws _ _ u e1 in
        let (revoked, at2) = asked-eq-ok driver runtime laws _ _ v1 e2 in
        let (stored, at3) = asked-eq-ok driver runtime laws _ _ v2 e3 in
        let last : v3 ≡ v = ground arith in
        let (there, same1) = found_enabled id (driver.database u) found in
        let d2 : driver.database v2 ≡ (revoke_credentials id now (driver.database u)).1 =
          at2 ∙ ap (λ d. (revoke_credentials id now d).1) (at1 ∙ same1) in
        let (creds2, accounts2) = revoked_rows id now (driver.database u) in
        let creds = ap (λ (d : Database). d.credentials) d2 ∙ creds2 in
        let row = new_row id credential_id hash now in
        let (fresh, added, kept) = inserted driver row (driver.database v2) stored in
        let after : driver.database v ≡ (insert_credential driver row (driver.database v2)).1 =
          rw (sym last) at3 in
        (
          ground arith,
          record {
            at = now;
            row = row;
            owned = refl;
            hashed = refl;
            current = refl;
            lasting = refl;
            enabled = (r, there);
            fresh =
                sym (
                  any-update (is_current id) (revoking now) (hash_is hash)
                    (driver.database u).credentials (λ c. refl))
                ∙ rw (sym creds) fresh;
            accounts =
                ap (λ (d : Database). d.accounts) after
                ∙ kept
                ∙ ap (λ (d : Database). d.accounts) d2
                ∙ accounts2;
            credentials =
                ap (λ (d : Database). d.credentials) after ∙ added ∙ ap (λ cs. row ∷ cs) creds;
          },
        )

  rotate_credential-eq-ok :
      (id credential_id hash : String) (now : ℕ) (w : W) {v : W}
      → rotate_credential driver runtime json id credential_id hash now w ≡ (ok tt, v)
      → Rotated id hash (driver.database w) (driver.database v)
  unfolding rotate_credential
  rotate_credential-eq-ok id credential_id hash now w h =
      transaction-elim driver runtime laws _ _ _ w h
        (λ u u1 same done kept.
          rw (kept, sym same) (replace_credential-eq-ok id credential_id hash now u done).1)
        (λ u u1 same done kept.
          absurd (ground (arith, (replace_credential-eq-ok id credential_id hash now u done).0)))

  -- A secret that is spent does not authenticate.
  authenticate-IsSpent :
      (id hash : String) (t : ℕ) (w : W) {a : Account} {v : W}
      → any (is_live id hash) (driver.database w).credentials ≡ false
      → authenticate driver runtime json id hash t w ≢ (ok a, v)
  unfolding authenticate
  authenticate-IsSpent id hash t w spent h = bind-elim _ _ w h λ row v1 e1 h1.
      let (found, at) = asked-eq-ok driver runtime laws _ (account_with_secret id hash t) w e1 in
      let live = opened id hash t (driver.database w) found in absurd (ground arith)

  authenticate-IsKnown :
      (id hash : String) (t : ℕ) (w : W) {a : Account} {v : W}
      → authenticate driver runtime json id hash t w ≡ (ok a, v)
      → IsKnown hash (driver.database v)
  unfolding authenticate
  authenticate-IsKnown id hash t w {a} {v} h = bind-elim _ _ w h λ row v1 e1 h1.
      let (found, at) = asked-eq-ok driver runtime laws _ (account_with_secret id hash t) w e1 in
      let live = opened id hash t (driver.database w) found in
      let last : v1 ≡ v = ground arith in
      let same : driver.database v ≡ driver.database w =
        rw (sym last) (at ∙ unfold account_with_secret in refl) in
      rw same (opened_known id hash (driver.database w).credentials live)

  rotation-IsSpent :
      (id old hash : String) {before after : Database}
      → IsKnown old before
      → Rotated id hash before after
      → IsSpent id old after
  rotation-IsSpent id old hash {before} {after} known r =
      let kept =
        any-update (is_current id) (revoking r.at) (hash_is old) before.credentials (λ c. refl) in
      let differ : hash ≢ old = λ e. absurd (ground (arith, r.fresh, rw e at r.fresh)) in
      rw r.credentials (
        rw (kept, known) (ground arith),
        rw (revoke_spends id old r.at before.credentials)
            (ground (arith, eq_iff r.row.secret_hash old, r.hashed, differ)),
      )

  -- Over a driver that keeps what it is told: a secret that has authenticated a service account before a rotation of its credential returned never
  -- authenticates the account after it, whichever calls of the store come between and after.
  pub rotated_secret_is_dead :
      (id old credential_id hash : String) (now t t' : ℕ) (cs cs' : List Call) (w w1 w2 v : W)
      {a b : Account}
      → authenticate driver runtime json id old t w ≡ (ok a, w1)
      → rotate_credential driver runtime json id credential_id hash now
          (after_calls driver runtime json cs w1)
        ≡ (ok tt, w2)
      → authenticate driver runtime json id old t' (after_calls driver runtime json cs' w2)
        ≢ (ok b, v)
  rotated_secret_is_dead id old credential_id hash now t t' cs cs' w w1 w2 v opened rotated =
      let known =
        after_calls-Keeps driver runtime laws json (IsKnown old) (statements-IsKnown driver old) cs
          w1 (authenticate-IsKnown id old t w opened) in
      let spent = rotation-IsSpent id old hash known (
        rotate_credential-eq-ok id credential_id hash now (after_calls driver runtime json cs w1)
          rotated) in
      authenticate-IsSpent id old t' (after_calls driver runtime json cs' w2)
        (after_calls-Keeps driver runtime laws json (IsSpent id old)
          (statements-IsSpent driver id old) cs' w2 spent).1
