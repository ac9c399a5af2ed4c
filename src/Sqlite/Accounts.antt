-- ===== src/Sqlite/Accounts.antt =====
-- internal/store/sqlite/service_accounts.go: the store of service accounts and their credentials.
pub mod Statements
pub mod Keeps
pub mod Calls
pub mod Disabled
pub mod Rotated
pub mod Bootstrapped
use Prim.Native.String
use identra.Common.{
  ℕ, String, ◌==◌, Bool, true, false, Option, none, some, List, [], ◌∷◌, ◌&&◌, not, ltb, eqb,
  if◌then◌else◌,
}
use identra.Common.Exec.{Result, ok, err, Exec, pure, run, raise, ◌>>=◌, ◌>>◌, refuse_if}
use identra.Security.Tokens.{Runtime}
use identra.ServiceAccount
use identra.ServiceAccount.{
  Account, BootstrapRecord, AccountError, already_exists, bootstrap_completed, not_found,
  invalid_credential, other,
}
use identra.Sqlite.{
  AccountRow, CredentialRow, StateRow, AuditRow, Database, SqlError, no_rows, failed, Statement,
  Driver, asked, is_unique_constraint_error,
}
use identra.Sqlite.Accounts.Statements.{
  account_with_secret, account_by_id, account_by_name, all_accounts, disable_account,
  enabled_account, revoke_credentials, insert_account, insert_credential, state_value, set_state,
  insert_event,
}

-- encoding/json on scopes and on the metadata of an audit event; `none` is an error.
pub record Json : Type 0 where
  pub encode_scopes : List String → Option String
  pub decode_scopes : String → Option (List String)
  pub encode_metadata : List (String × String) → Option String
  pub decode_metadata : String → Option (List (String × String))

-- bootstrapCompletedKey
abbrev pub bootstrap_completed_key : String
bootstrap_completed_key = "service_account_bootstrap_completed"

abbrev is_there : Option StateRow → Bool
is_there none = false
is_there (some row) = true

-- What a transaction's function returns: `committed` from its Commit, `left` where it returns before.
pub data Outcome (A : Type 0) : Type 0 where
  committed left : A → Outcome A

-- fmt.Errorf("...: %w", err)
abbrev pub labelled_text : String → String → AccountError
labelled_text label text = other (String.◌++◌ label text)

abbrev pub error_text : SqlError → String
error_text no_rows = "sql: no rows in result set"
error_text (failed text) = text

abbrev pub some_or : {A : Type 0} → AccountError → Option A → Result AccountError A
some_or e none = err e
some_or e (some a) = ok a

module _ {W : Type 0} (driver : Driver W) where
  unfoldable pub map_service_account_error : String → AccountError
  map_service_account_error text =
      if is_unique_constraint_error driver text then already_exists else other text

  abbrev pub finish_commit :
      {A : Type 0}
      → (String → AccountError)
      → Database
      → A
      → Option String × W
      → Result AccountError A × W
  finish_commit commit_error saved a (none, v) = (ok a, v)
  finish_commit commit_error saved a (some text, v) = (err (commit_error text), driver.put saved v)

  -- The end of a transaction: the deferred Rollback restores the tables that BeginTx saw, unless
  -- Commit has gone through.
  abbrev pub finish :
      {A : Type 0}
      → (String → AccountError)
      → Database
      → Result AccountError (Outcome A) × W
      → Result AccountError A × W
  finish commit_error saved (err e, v) = (err e, driver.put saved v)
  finish commit_error saved (ok (left a), v) = (ok a, driver.put saved v)
  finish commit_error saved (ok (committed a), v) =
      finish_commit commit_error saved a (driver.connection v)

  abbrev pub begun :
      {A : Type 0}
      → String
      → (String → AccountError)
      → Exec W AccountError (Outcome A)
      → Option String × W
      → Result AccountError A × W
  begun label commit_error body (some text, v) = (err (labelled_text label text), v)
  begun label commit_error body (none, v) = finish commit_error (driver.database v) (body v)

  -- BeginTx at the level SERIALIZABLE, the statements of `body`, and Commit or Rollback
  unfoldable pub transaction :
      {A : Type 0}
      → String
      → (String → AccountError)
      → Exec W AccountError (Outcome A)
      → Exec W AccountError A
  transaction label commit_error body w = begun label commit_error body (driver.connection w)

  abbrev pub labelled : String → SqlError → AccountError
  labelled label e = labelled_text label (error_text e)

  -- sql.ErrNoRows becomes the given error.
  abbrev pub absent : AccountError → String → SqlError → AccountError
  absent e label no_rows = e
  absent e label (failed text) = labelled_text label text

  abbrev pub mapped : SqlError → AccountError
  mapped no_rows = other (error_text no_rows)
  mapped (failed text) = map_service_account_error text

module _ (json : Json) where
  -- An account and its scopes as Scan and Unmarshal leave them; the time at which it was disabled is read by
  -- some of the queries only.
  unfoldable pub scanned : Option ℕ → AccountRow → Result AccountError Account
  scanned disabled_at row = elim (json.decode_scopes row.scopes) [
    | none ↦ err (other "decode service-account scopes")
    | some scopes ↦ ok (record {
      id = row.id;
      name = row.name;
      scopes = scopes;
      created_at = row.created_at;
      disabled_at = disabled_at;
    })
  ]

  abbrev scanned_after :
      Result AccountError Account
      → Result AccountError (List Account)
      → Result AccountError (List Account)
  scanned_after (err e) rest = err e
  scanned_after (ok a) (err e) = err e
  scanned_after (ok a) (ok rest) = ok (a ∷ rest)

  unfoldable pub scanned_all : List AccountRow → Result AccountError (List Account)
  scanned_all [] = ok []
  scanned_all (row ∷ rows) = scanned_after (scanned row.disabled_at row) (scanned_all rows)

abbrev yield : {W A : Type 0} → Result AccountError A → Exec W AccountError A
yield r w = (r, w)

module _ {W : Type 0} (driver : Driver W) (runtime : Runtime W) (json : Json) where
  unfoldable pub insert_service_account : BootstrapRecord → Exec W AccountError (Unit {0})
  insert_service_account rec = do
    scopes ←
        yield
          (some_or (other "encode service-account scopes") (json.encode_scopes rec.account.scopes))
    asked driver (mapped driver) (
        insert_account driver (record {
          id = rec.account.id;
          name = rec.account.name;
          scopes = scopes;
          created_at = rec.account.created_at;
          updated_at = rec.account.created_at;
          disabled_at = none;
        }))
    asked driver (mapped driver) (
        insert_credential driver (record {
          id = rec.credential_id;
          service_account_id = rec.account.id;
          secret_hash = rec.secret_hash;
          created_at = rec.account.created_at;
          expires_at = none;
          revoked_at = none;
        }))

  unfoldable pub create : BootstrapRecord → Exec W AccountError (Unit {0})
  create rec =
      transaction driver "begin service-account creation: " (map_service_account_error driver)
        do insert_service_account rec; pure (committed tt)

  unfoldable pub authenticate : String → String → ℕ → Exec W AccountError Account
  authenticate client_id secret_hash now = do
    row ←
        asked driver (absent driver invalid_credential "authenticate service account: ")
          (account_with_secret client_id secret_hash now)
    yield (scanned json none row)

  unfoldable pub get_by_id : String → Exec W AccountError Account
  get_by_id client_id = do
    row ← asked driver (absent driver not_found "get service account: ") (account_by_id client_id)
    yield (scanned json row.disabled_at row)

  unfoldable pub list : Exec W AccountError (List Account)
  list = do
    rows ← asked driver (labelled driver "list service accounts: ") (all_accounts driver)
    yield (scanned_all json rows)

  unfoldable pub disable : String → ℕ → Exec W AccountError Account
  disable client_id now = do
    rows ←
        asked driver (labelled driver "disable service account: ") (disable_account client_id now)
    refuse_if (eqb rows 0) not_found
    get_by_id client_id

  -- The statements of `RotateCredential`.
  unfoldable pub replace_credential :
      String → String → String → ℕ → Exec W AccountError (Outcome (Unit {0}))
  replace_credential client_id credential_id secret_hash now = do
    row ←
        asked driver (absent driver not_found "find service account for rotation: ")
          (enabled_account client_id)
    asked driver (labelled driver "revoke service-account credentials: ")
        (revoke_credentials client_id now)
    asked driver (mapped driver) (
        insert_credential driver (record {
          id = credential_id;
          service_account_id = client_id;
          secret_hash = secret_hash;
          created_at = now;
          expires_at = none;
          revoked_at = none;
        }))
    pure (committed tt)

  unfoldable pub rotate_credential : String → String → String → ℕ → Exec W AccountError (Unit {0})
  rotate_credential client_id credential_id secret_hash now =
      transaction driver "begin credential rotation: " other
        (replace_credential client_id credential_id secret_hash now)

  -- The rows of the answer are none or one.
  abbrev pub scanned_if_found : Option AccountRow → Exec W AccountError (Option Account)
  scanned_if_found none = pure none
  scanned_if_found (some row) = do account ← yield (scanned json none row); pure (some account)

  unfoldable pub find_service_account_by_name : String → Exec W AccountError (Option Account)
  find_service_account_by_name name = do
    found ← asked driver (labelled driver "find service account: ") (account_by_name name)
    scanned_if_found found

  -- The part of `Bootstrap` after the checks.
  unfoldable pub install : BootstrapRecord → Exec W AccountError (Outcome (Account × Bool))
  install rec = do
    insert_service_account rec
    asked driver (labelled driver "write bootstrap state: ") (
        set_state (record {
          key = bootstrap_completed_key;
          value = rec.account.id;
          updated_at = rec.account.created_at;
        }))
    metadata ← yield (
        some_or (other "encode bootstrap audit metadata")
          (json.encode_metadata (("name", rec.account.name) ∷ [])))
    id ← run runtime.new_uuid
    asked driver (labelled driver "record bootstrap audit event: ") (
        insert_event driver (record {
          id = id;
          occurred_at = rec.account.created_at;
          actor_type = "system";
          actor_id = "bootstrap";
          action = "service_account.bootstrap";
          resource_type = "service_account";
          resource_id = rec.account.id;
          metadata = metadata;
        }))
    pure (committed (rec.account, true))

  -- The part of `Bootstrap` for a name that is not taken.
  unfoldable pub install_once :
      BootstrapRecord → Bool → Exec W AccountError (Outcome (Account × Bool))
  install_once rec force = do
    marker ←
        asked driver (labelled driver "read bootstrap state: ")
          (state_value bootstrap_completed_key)
    refuse_if (is_there marker && not force) bootstrap_completed
    install rec

  -- The part of `Bootstrap` after the search for the name.
  abbrev pub keep_or_install :
      BootstrapRecord
      → Bool
      → Bool
      → Option Account
      → Exec W AccountError (Outcome (Account × Bool))
  keep_or_install rec if_not_exists force none = install_once rec force
  keep_or_install rec true force (some existing) = pure (left (existing, false))
  keep_or_install rec false force (some existing) = raise already_exists

  unfoldable pub bootstrap : BootstrapRecord → Bool → Bool → Exec W AccountError (Account × Bool)
  bootstrap rec if_not_exists force =
      transaction driver "begin service-account bootstrap: " (map_service_account_error driver) do
        found ← find_service_account_by_name rec.account.name
        keep_or_install rec if_not_exists force found

  -- NewServiceAccountStore
  unfoldable pub service_account_store : ServiceAccount.Store W
  service_account_store = record {
    bootstrap = bootstrap;
    create = create;
    authenticate = authenticate;
    get_by_id = get_by_id;
    list = list;
    disable = disable;
    rotate_credential = rotate_credential;
  }
