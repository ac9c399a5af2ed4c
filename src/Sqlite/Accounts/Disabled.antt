-- ===== src/Sqlite/Accounts/Disabled.antt =====
-- A service account that has been disabled.
use identra.Common.{
  ℕ, String, ◌≡◌, ◌≢◌, refl, sym, ◌∙◌, Bool, true, false, ◌&&◌, some, List, [], ◌∷◌, any, eqb,
  arith, inl, inr, Option-cases, eq_iff,
}
use identra.Common.Exec.{ok, bind-elim, refuse-elim}
use identra.Security.Tokens.{Runtime}
use identra.ServiceAccount.{Account}
use identra.Sqlite.{AccountRow, Database, Driver, DriverLaws, first, update_where, count_where}
use identra.Sqlite.Rows.{any-update, any-first, first_sound, count-none}
use identra.Sqlite.Calls.{asked-eq-ok}
use identra.Sqlite.Accounts.Statements.{
  account_is, is_enabled, opens_with, account_with_secret, account_by_id, disable_account,
  insert_account, insert_credential, insert_event, set_state, revoke_credentials,
}
use identra.Sqlite.Accounts.{Json, authenticate, disable, get_by_id}
use identra.Sqlite.Accounts.Calls.{StatementsKeep, Call, after_calls, after_calls-Keeps}

-- The account is there, and no row of it is enabled.
abbrev pub IsDisabled : String → Database → Type 0
IsDisabled id d = (any (account_is id) d.accounts ≡ true) × (any (is_enabled id) d.accounts ≡ false)

abbrev disabling : ℕ → AccountRow → AccountRow
disabling now r = record r { disabled_at = some now; updated_at = now }

disable_rows :
    (id other : String) (now : ℕ) (rs : List AccountRow)
    → any (is_enabled id) rs ≡ false
    → any (is_enabled id) (update_where (is_enabled other) (disabling now) rs) ≡ false
unfolding update_where
disable_rows id other now [] h = refl
disable_rows id other now (r ∷ rs) h = ground (arith, disable_rows id other now rs)

all_disabled :
    (id : String) (now : ℕ) (rs : List AccountRow)
    → any (is_enabled id) (update_where (is_enabled id) (disabling now) rs) ≡ false
unfolding update_where
all_disabled id now [] = refl
all_disabled id now (r ∷ rs) = ground (arith, all_disabled id now rs)

statements-IsDisabled :
    {W : Type 0} (driver : Driver W) (id : String) → StatementsKeep driver (IsDisabled id)
unfolding insert_account insert_credential insert_event set_state revoke_credentials disable_account
statements-IsDisabled driver id = record {
  accounts = λ r d h. ground (arith, eq_iff r.id id);
  credentials = λ r d h. ground arith;
  events = λ r d h. ground arith;
  states = λ r d h. h;
  revoked = λ other now d h. h;
  disabled = λ other now d h. (
    any-update (is_enabled other) (disabling now) (account_is id) d.accounts (λ r. refl) ∙ h.0,
    disable_rows id other now d.accounts h.1,
  );
}

module _ {W : Type 0} (driver : Driver W) (runtime : Runtime W) (laws : DriverLaws driver runtime)
    (json : Json) where
  disable_account-IsDisabled :
      (id : String) (now : ℕ) (d : Database)
      → eqb (count_where (is_enabled id) d.accounts) 0 ≡ false
      → IsDisabled id (disable_account id now d).1
  unfolding disable_account
  disable_account-IsDisabled id now d changed =
      elim (Option-cases (first (is_enabled id) d.accounts)) [
        | inl gone ↦ absurd (ground (arith, count-none (is_enabled id) d.accounts))
        | inr (r, there) ↦
            let enabled = first_sound (is_enabled id) d.accounts there in
            (
              any-update (is_enabled id) (disabling now) (account_is id) d.accounts (λ r. refl)
                  ∙ any-first (is_enabled id) (account_is id) d.accounts there (ground arith),
              all_disabled id now d.accounts,
            )
      ]

  counted :
      (id : String) (now : ℕ) (d : Database) {n : ℕ}
      → (disable_account id now d).0 ≡ ok n
      → count_where (is_enabled id) d.accounts ≡ n
  unfolding disable_account
  counted id now d h = ground arith

  disable-IsDisabled :
      (id : String) (now : ℕ) (w : W) {a : Account} {v : W}
      → disable driver runtime json id now w ≡ (ok a, v)
      → IsDisabled id (driver.database v)
  unfolding disable get_by_id
  disable-IsDisabled id now w {a} {v} h = bind-elim _ _ w h λ rows v1 e1 h1.
      refuse-elim _ _ _ v1 h1 λ changed h2. bind-elim _ _ v1 h2 λ row v2 e2 h3.
        let last : v2 ≡ v = ground arith in
        let (n, at1) = asked-eq-ok driver runtime laws _ (disable_account id now) w e1 in
        let (found, at2) = asked-eq-ok driver runtime laws _ (account_by_id id) v1 e2 in
        let at : driver.database v ≡ (disable_account id now (driver.database w)).1 =
          rw (sym last) (at2 ∙ unfold account_by_id in at1) in
        rw at (
          disable_account-IsDisabled id now (driver.database w)
            (rw (counted id now (driver.database w) n) changed))

  -- An account that is not enabled is not authenticated.
  pub authenticate-enabled :
      (id hash : String) (t : ℕ) (w : W) {a : Account} {v : W}
      → any (is_enabled id) (driver.database w).accounts ≡ false
      → authenticate driver runtime json id hash t w ≢ (ok a, v)
  unfolding authenticate account_with_secret
  authenticate-enabled id hash t w none_enabled h = bind-elim _ _ w h λ row v1 e1 h1.
      let (found, at) = asked-eq-ok driver runtime laws _ (account_with_secret id hash t) w e1 in
      let p : AccountRow → Bool =
        λ r. is_enabled id r && any (opens_with r.id hash t) (driver.database w).credentials in
      let accounts = (driver.database w).accounts in
      let there : first p accounts ≡ some row = ground arith in
      let holds = first_sound p accounts there in
      absurd (ground (arith, any-first p (is_enabled id) accounts there (ground arith)))

  -- Over a driver that keeps what it is told: once the store has disabled a service account and said so, no secret
  -- authenticates it, whichever calls of the store come between, at whatever time.
  pub disabled_account_stays_out :
      (id hash : String) (now t : ℕ) (cs : List Call) (w w' v : W) {a b : Account}
      → disable driver runtime json id now w ≡ (ok a, w')
      → authenticate driver runtime json id hash t (after_calls driver runtime json cs w')
        ≢ (ok b, v)
  disabled_account_stays_out id hash now t cs w w' v h =
      authenticate-enabled id hash t (after_calls driver runtime json cs w')
        (after_calls-Keeps driver runtime laws json (IsDisabled id)
          (statements-IsDisabled driver id) cs w' (disable-IsDisabled id now w h)).1
