-- ===== src/Sqlite/Accounts/Statements.antt =====
-- internal/store/sqlite/service_accounts.go, audit.go: the statements on service accounts,
-- credentials, the system's state and audit events, with the constraints of schema.sql.
use Prim.Native.String.{compare}
use text.Mathlib.Text.{is_le}
use identra.Common.{
  ℕ, String, ◌==◌, Bool, true, not, ◌&&◌, ◌||◌, Option, none, some, List, ◌∷◌, any, ltb, eqb, take,
  drop, if◌then◌else◌,
}
use identra.Common.Exec.{Result, ok, err}
use identra.Sqlite.{
  AccountRow, CredentialRow, StateRow, AuditRow, SqlError, no_rows, failed, Statement, Driver,
  first, update_where, count_where, is_null,
}

-- The order of texts, by bytes.
abbrev before : String → String → Bool
before s t = not (is_le (compare t s))

abbrev pub found_or_no_rows : {R : Type 0} → Option R → Result SqlError R
found_or_no_rows none = err no_rows
found_or_no_rows (some r) = ok r

abbrev pub account_is : String → AccountRow → Bool
account_is id r = r.id == id

-- id = ? AND disabled_at IS NULL
abbrev pub is_enabled : String → AccountRow → Bool
is_enabled id r = (r.id == id) && is_null r.disabled_at

-- service_account_id = ? AND revoked_at IS NULL
abbrev pub is_current : String → CredentialRow → Bool
is_current client_id c = (c.service_account_id == client_id) && is_null c.revoked_at

-- expires_at IS NULL OR expires_at > ?
abbrev pub outlasts : ℕ → Option ℕ → Bool
outlasts now none = true
outlasts now (some t) = ltb now t

abbrev pub opens_with : String → String → ℕ → CredentialRow → Bool
opens_with client_id secret_hash now c =
    (c.service_account_id == client_id)
    && (c.secret_hash == secret_hash)
    && is_null c.revoked_at
    && outlasts now c.expires_at

-- Account rows joined with the credentials that open them.
unfoldable pub account_with_secret : String → String → ℕ → Statement AccountRow
account_with_secret client_id secret_hash now d = (
  found_or_no_rows (
      first (λ r. is_enabled client_id r && any (opens_with r.id secret_hash now) d.credentials)
        d.accounts),
  d,
)

unfoldable pub account_by_id : String → Statement AccountRow
account_by_id id d = (found_or_no_rows (first (account_is id) d.accounts), d)

unfoldable pub enabled_account : String → Statement AccountRow
enabled_account id d = (found_or_no_rows (first (is_enabled id) d.accounts), d)

-- no rows are the answer `none`
unfoldable pub account_by_name : String → Statement (Option AccountRow)
account_by_name name d = (ok (first (λ r. r.name == name) d.accounts), d)

unfoldable pub disable_account : String → ℕ → Statement ℕ
disable_account id now d = (
  ok (count_where (is_enabled id) d.accounts),
  record d {
    accounts =
        update_where (is_enabled id) (λ r. record r { disabled_at = some now; updated_at = now })
          d.accounts;
  },
)

unfoldable pub revoke_credentials : String → ℕ → Statement (Unit {0})
revoke_credentials client_id now d = (
  ok tt,
  record d {
    credentials =
        update_where (is_current client_id) (λ c. record c { revoked_at = some now }) d.credentials;
  },
)

abbrev pub key_is : String → StateRow → Bool
key_is key r = r.key == key

-- no rows are the answer `none`
unfoldable pub state_value : String → Statement (Option StateRow)
state_value key d = (ok (first (key_is key) d.system_state), d)

-- INSERT ... ON CONFLICT(key) DO UPDATE
unfoldable pub set_state : StateRow → Statement (Unit {0})
set_state row d = (
  ok tt,
  record d {
    system_state =
        if any (key_is row.key) d.system_state
        then update_where (key_is row.key) (λ r. row) d.system_state
        else row ∷ d.system_state;
  },
)

module _ {W : Type 0} (driver : Driver W) where
  unfoldable pub all_accounts : Statement (List AccountRow)
  all_accounts d = (
    ok (
        driver.arrange_accounts
          (λ r s.
            ltb r.created_at s.created_at || (eqb r.created_at s.created_at && before r.id s.id))
          d.accounts),
    d,
  )

  unfoldable pub insert_account : AccountRow → Statement (Unit {0})
  insert_account row d =
      if any (account_is row.id) d.accounts
      then (err (failed (driver.unique_failed "service_accounts.id")), d)
      else if any (λ r. r.name == row.name) d.accounts
      then (err (failed (driver.unique_failed "service_accounts.name")), d)
      else (ok tt, record d { accounts = row ∷ d.accounts })

  unfoldable pub insert_credential : CredentialRow → Statement (Unit {0})
  insert_credential row d =
      if any (λ c. c.id == row.id) d.credentials
      then (err (failed (driver.unique_failed "service_account_credentials.id")), d)
      else if any (λ c. c.secret_hash == row.secret_hash) d.credentials
      then (err (failed (driver.unique_failed "service_account_credentials.secret_hash")), d)
      else if not (any (account_is row.service_account_id) d.accounts)
      then (err (failed driver.foreign_key_failed), d)
      else (ok tt, record d { credentials = row ∷ d.credentials })

  unfoldable pub insert_event : AuditRow → Statement (Unit {0})
  insert_event row d =
      if any (λ r. r.id == row.id) d.audit_events
      then (err (failed (driver.unique_failed "audit_events.id")), d)
      else (ok tt, record d { audit_events = row ∷ d.audit_events })

  unfoldable pub events_page : ℕ → ℕ → Statement (List AuditRow)
  events_page offset limit d = (
    ok (
        take limit (
          drop offset (
            driver.arrange_events
              (λ r s.
                ltb s.occurred_at r.occurred_at
                || (eqb r.occurred_at s.occurred_at && before s.id r.id))
              d.audit_events))),
    d,
  )
