-- ===== src/Sqlite/Accounts/Calls.antt =====
-- Sequences of calls of the store of service accounts.
use identra.Common.{ℕ, String, Bool, true, false, Option, none, some, List, [], ◌∷◌}
use identra.Common.Exec.{Exec, ◌>>=◌}
use identra.Security.Tokens.{Runtime}
use identra.ServiceAccount.{Account, BootstrapRecord}
use identra.Sqlite.{
  AccountRow, CredentialRow, StateRow, AuditRow, Database, SqlError, Statement, Driver, DriverLaws,
  asked,
}
use identra.Sqlite.Accounts.Statements.{
  account_with_secret, account_by_id, account_by_name, all_accounts, disable_account,
  enabled_account, revoke_credentials, insert_account, insert_credential, state_value, set_state,
  insert_event,
}
use identra.Sqlite.Accounts.{
  Json, insert_service_account, create, authenticate, get_by_id, list, disable, rotate_credential,
  find_service_account_by_name, install, install_once, bootstrap,
}
use identra.Sqlite.Accounts.{replace_credential, scanned_if_found, keep_or_install}
use identra.Sqlite.Accounts.Keeps.{Leaves, Keeps, bind-Keeps, asked-Keeps, transaction-Keeps}

-- Statements that change the tables of the store, each of which leaves `I` true.
pub record StatementsKeep {W : Type 0} (driver : Driver W) (I : Database → Type 0) : Type 0 where
  pub accounts : (r : AccountRow) → Leaves I (insert_account driver r)
  pub credentials : (r : CredentialRow) → Leaves I (insert_credential driver r)
  pub events : (r : AuditRow) → Leaves I (insert_event driver r)
  pub states : (r : StateRow) → Leaves I (set_state r)
  pub revoked : (id : String) (now : ℕ) → Leaves I (revoke_credentials id now)
  pub disabled : (id : String) (now : ℕ) → Leaves I (disable_account id now)

-- A call of the store.
pub data Call : Type 0 where
  create_call : BootstrapRecord → Call
  bootstrap_call : BootstrapRecord → Bool → Bool → Call
  authenticate_call : String → String → ℕ → Call
  rotate_call : String → String → String → ℕ → Call
  get_call : String → Call
  list_call : Call
  disable_call : String → ℕ → Call

module _ {W : Type 0} (driver : Driver W) (runtime : Runtime W) (json : Json) where
  -- What a call leaves of the world.
  unfoldable pub after_call : Call → W → W
  after_call (create_call rec) w = (create driver runtime json rec w).1
  after_call (bootstrap_call rec if_not_exists force) w =
      (bootstrap driver runtime json rec if_not_exists force w).1
  after_call (authenticate_call id hash now) w = (authenticate driver runtime json id hash now w).1
  after_call (rotate_call id credential_id hash now) w =
      (rotate_credential driver runtime json id credential_id hash now w).1
  after_call (get_call id) w = (get_by_id driver runtime json id w).1
  after_call list_call w = (list driver runtime json w).1
  after_call (disable_call id now) w = (disable driver runtime json id now w).1

  unfoldable pub after_calls : List Call → W → W
  after_calls [] w = w
  after_calls (c ∷ cs) w = after_calls cs (after_call c w)

module _ {W : Type 0} (driver : Driver W) (runtime : Runtime W) (laws : DriverLaws driver runtime)
    (json : Json) where
  module _ (I : Database → Type 0) (keep : StatementsKeep driver I) where
    abbrev K : {E A : Type 0} → Exec W E A → Type 0
    K m = Keeps driver runtime laws I m

    abbrev bind :
        {E A B : Type 0} (m : Exec W E A) (f : A → Exec W E B)
        → K m
        → ((a : A) → K (f a))
        → K (m >>= f)
    bind m f = bind-Keeps driver runtime laws I m f

    abbrev ask :
        {E A : Type 0} (f : SqlError → E) (q : Statement A) → Leaves I q → K (asked driver f q)
    ask f q = asked-Keeps driver runtime laws I f q

    insert-Keeps : (rec : BootstrapRecord) → K (insert_service_account driver runtime json rec)
    unfolding insert_service_account
    insert-Keeps rec =
        bind _ _ (λ w h. h)
          λ scopes. bind _ _ (ask _ _ (keep.accounts _)) λ u. ask _ _ (keep.credentials _)

    create-Keeps : (rec : BootstrapRecord) → K (create driver runtime json rec)
    unfolding create
    create-Keeps rec =
        transaction-Keeps driver runtime laws I _ _ _
          λ w a h e. bind _ _ (insert-Keeps rec) (λ u w h. h) w h

    get_by_id-Keeps : (id : String) → K (get_by_id driver runtime json id)
    unfolding get_by_id account_by_id
    get_by_id-Keeps id = bind _ _ (ask _ _ λ d h. h) λ row w h. h

    authenticate-Keeps :
        (id hash : String) (now : ℕ) → K (authenticate driver runtime json id hash now)
    unfolding authenticate account_with_secret
    authenticate-Keeps id hash now = bind _ _ (ask _ _ λ d h. h) λ row w h. h

    list-Keeps : K (list driver runtime json)
    unfolding list all_accounts
    list-Keeps = bind _ _ (ask _ _ λ d h. h) λ rows w h. h

    disable-Keeps : (id : String) (now : ℕ) → K (disable driver runtime json id now)
    unfolding disable
    disable-Keeps id now =
        bind _ _ (ask _ _ (keep.disabled id now))
          λ rows. bind _ _ (λ w h. h) λ u. get_by_id-Keeps id

    rotate-Keeps :
        (id credential_id hash : String) (now : ℕ)
        → K (rotate_credential driver runtime json id credential_id hash now)
    unfolding rotate_credential replace_credential enabled_account
    rotate-Keeps id credential_id hash now =
        transaction-Keeps driver runtime laws I _ _ _ λ w a h e.
          bind _ _ (ask _ _ λ d h. h)
            (λ row.
              bind _ _ (ask _ _ (keep.revoked id now))
                λ u. bind _ _ (ask _ _ (keep.credentials _)) λ u w h. h)
            w h

    pub find-Keeps : (name : String) → K (find_service_account_by_name driver runtime json name)
    unfolding find_service_account_by_name account_by_name
    find-Keeps name = bind _ _ (ask _ _ λ d h. h) λ found.
        elim found as (λ o. K (scanned_if_found driver runtime json o)) [
          | none ↦ λ w h. h
          | some row ↦ bind _ _ (λ w h. h) λ account w h. h
        ]

    install-Keeps : (rec : BootstrapRecord) → K (install driver runtime json rec)
    unfolding install
    install-Keeps rec = bind _ _ (insert-Keeps rec) λ u. bind _ _ (ask _ _ (keep.states _)) λ u.
        bind _ _ (λ w h. h)
          λ metadata.
            bind _ _ (λ w h. rw (laws.uuid_keeps w) h)
              λ id. bind _ _ (ask _ _ (keep.events _)) λ u w h. h

    install_once-Keeps :
        (rec : BootstrapRecord) (force : Bool) → K (install_once driver runtime json rec force)
    unfolding install_once state_value
    install_once-Keeps rec force =
        bind _ _ (ask _ _ λ d h. h) λ marker. bind _ _ (λ w h. h) λ u. install-Keeps rec

    settle-Keeps :
        (rec : BootstrapRecord) (if_not_exists force : Bool) (found : Option Account)
        → K (keep_or_install driver runtime json rec if_not_exists force found)
    settle-Keeps rec if_not_exists force none = install_once-Keeps rec force
    settle-Keeps rec true force (some existing) = λ w h. h
    settle-Keeps rec false force (some existing) = λ w h. h

    bootstrap-Keeps :
        (rec : BootstrapRecord) (if_not_exists force : Bool)
        → K (bootstrap driver runtime json rec if_not_exists force)
    unfolding bootstrap
    bootstrap-Keeps rec if_not_exists force =
        transaction-Keeps driver runtime laws I _ _ _ λ w a h e.
          bind _ _ (find-Keeps rec.account.name) (settle-Keeps rec if_not_exists force) w h

    pub after_call-Keeps :
        (c : Call) (w : W)
        → I (driver.database w)
        → I (driver.database (after_call driver runtime json c w))
    unfolding after_call
    after_call-Keeps (create_call rec) w h = create-Keeps rec w h
    after_call-Keeps (bootstrap_call rec e f) w h = bootstrap-Keeps rec e f w h
    after_call-Keeps (authenticate_call id hash now) w h = authenticate-Keeps id hash now w h
    after_call-Keeps (rotate_call id credential_id hash now) w h =
        rotate-Keeps id credential_id hash now w h
    after_call-Keeps (get_call id) w h = get_by_id-Keeps id w h
    after_call-Keeps list_call w h = list-Keeps w h
    after_call-Keeps (disable_call id now) w h = disable-Keeps id now w h

    pub after_calls-Keeps :
        (cs : List Call) (w : W)
        → I (driver.database w)
        → I (driver.database (after_calls driver runtime json cs w))
    unfolding after_calls
    after_calls-Keeps [] w h = h
    after_calls-Keeps (c ∷ cs) w h =
        after_calls-Keeps cs (after_call driver runtime json c w) (after_call-Keeps c w h)
