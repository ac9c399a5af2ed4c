-- ===== src/Sqlite.antt =====
-- internal/store/sqlite: the tables of schema.sql, a statement on them, and a call of the driver.
pub mod Migrations
pub mod Rows
pub mod Calls
pub mod Kept
pub mod Queries
pub mod Users
pub mod Identities
pub mod Accounts
pub mod Audit
use Prim.Native.Char.{Char}
use identra.Common.{
  ℕ, String, ◌==◌, ◌≡◌, Bool, true, false, ◌||◌, Option, none, some, List, [], ◌∷◌, ◌+◌,
  if◌then◌else◌,
}
use identra.Common.Exec.{Result, ok, err, Action, Exec}
use identra.Text.{to_lower, has_text, trim_space}
use identra.Service.{Fault, missing, exists, other}
use identra.Security.Tokens.{Runtime}

-- The rows of the tables (sqlitedb/models.go). A column that may be NULL is an `Option`, as is the
-- sql.NullString or sql.NullTime that holds it.
pub record UserRow : Type 0 where
  pub id : String
  pub created_at : ℕ
  pub updated_at : ℕ
  pub deleted_at : Option ℕ
  pub email : String
  pub hashed_password : Option String
  pub hash : Option String
  pub last_login_at : Option ℕ

pub record IdentityRow : Type 0 where
  pub id : String
  pub user_id : String
  pub provider : String
  pub provider_user_id : String
  pub created_at : ℕ
  pub updated_at : ℕ
  pub deleted_at : Option ℕ

pub record AccountRow : Type 0 where
  pub id : String
  pub name : String
  pub scopes : String
  pub created_at : ℕ
  pub updated_at : ℕ
  pub disabled_at : Option ℕ

pub record CredentialRow : Type 0 where
  pub id : String
  pub service_account_id : String
  pub secret_hash : String
  pub created_at : ℕ
  pub expires_at : Option ℕ
  pub revoked_at : Option ℕ

pub record StateRow : Type 0 where
  pub key : String
  pub value : String
  pub updated_at : ℕ

pub record AuditRow : Type 0 where
  pub id : String
  pub occurred_at : ℕ
  pub actor_type : String
  pub actor_id : String
  pub action : String
  pub resource_type : String
  pub resource_id : String
  pub metadata : String

pub record Database : Type 0 where
  pub users : List UserRow
  pub identities : List IdentityRow
  pub accounts : List AccountRow
  pub credentials : List CredentialRow
  pub system_state : List StateRow
  pub audit_events : List AuditRow

-- sql.ErrNoRows, and an error of the driver by its text
pub data SqlError : Type 0 where
  no_rows : SqlError
  failed : String → SqlError

-- A statement reads the tables and, where it succeeds, may change them.
abbrev pub Statement : Type 0 → Type 0
Statement A = Exec Database SqlError A

module _ {R : Type 0} where
  -- SELECT ... WHERE ... LIMIT 1
  unfoldable pub first : (R → Bool) → List R → Option R
  first p [] = none
  first p (r ∷ rs) = let rest = first p rs in if p r then some r else rest

  -- UPDATE ... SET ... WHERE
  unfoldable pub update_where : (R → Bool) → (R → R) → List R → List R
  update_where p f [] = []
  update_where p f (r ∷ rs) = let rest = update_where p f rs in (if p r then f r else r) ∷ rest

  -- COUNT(*) ... WHERE, and the number of rows that an UPDATE changes
  unfoldable pub count_where : (R → Bool) → List R → ℕ
  count_where p [] = 0
  count_where p (r ∷ rs) = let rest = count_where p rs in if p r then rest + 1 else rest

abbrev pub is_null : Option ℕ → Bool
is_null none = true
is_null (some t) = false

-- The one connection of the pool (SetMaxOpenConns(1)) and modernc.org/sqlite behind it. `W` holds
-- the database; a call may fail with an error of the driver's before it reaches the tables. The number of rows that
-- a call has changed is part of its result, and RowsAffected does not fail.
pub record Driver (W : Type 0) : Type 0 where
  pub database : W → Database
  pub put : Database → W → W
  pub connection : Action W (Option String)
  -- the texts of the errors for a UNIQUE constraint, with its columns, and for a foreign key
  pub unique_failed : String → String
  pub foreign_key_failed : String
  -- how ORDER BY arranges the rows, for a test that says which of two comes first
  pub arrange_users : (UserRow → UserRow → Bool) → List UserRow → List UserRow
  pub arrange_identities : (IdentityRow → IdentityRow → Bool) → List IdentityRow → List IdentityRow
  pub arrange_accounts : (AccountRow → AccountRow → Bool) → List AccountRow → List AccountRow
  pub arrange_events : (AuditRow → AuditRow → Bool) → List AuditRow → List AuditRow
  -- unicode.ToLower
  pub lower_rune : Char → Char

module _ {W : Type 0} (driver : Driver W) where
  abbrev perform : {A : Type 0} → Statement A → Option String × W → Result SqlError A × W
  perform q (some text, v) = (err (failed text), v)
  perform q (none, v) = let (r, d) = q (driver.database v) in (r, driver.put d v)

  -- ExecContext, QueryContext or QueryRowContext with Scan
  unfoldable pub query : {A : Type 0} → Statement A → Exec W SqlError A
  query q w = perform q (driver.connection w)

  unfoldable pub is_unique_constraint_error : String → Bool
  is_unique_constraint_error text =
      let message = to_lower driver.lower_rune text in
      has_text message "unique constraint" || has_text message "primary key constraint"

  unfoldable pub wrap_error : SqlError → Fault
  wrap_error no_rows = missing
  wrap_error (failed text) = if is_unique_constraint_error text then exists else other

  result_or : {E A : Type 0} → (SqlError → E) → Result SqlError A → Result E A
  result_or f (ok a) = ok a
  result_or f (err e) = err (f e)

  -- A query, its error turned into one of the store's.
  unfoldable pub asked : {E A : Type 0} → (SqlError → E) → Statement A → Exec W E A
  unfolding query result_or
  asked f q w = let (r, v) = query q w in (result_or f r, v)

  -- A query, its error wrapped.
  abbrev pub wrapped : {A : Type 0} → Statement A → Exec W Fault A
  wrapped q = asked wrap_error q

  -- A query, its error passed on.
  abbrev pub unwrapped : {A : Type 0} → Statement A → Exec W Fault A
  unwrapped q = asked (λ e. other) q

-- What the stores rely on.
pub record DriverLaws {W : Type 0} (driver : Driver W) (runtime : Runtime W) : Type 0 where
  pub put_read : (d : Database) (w : W) → driver.database (driver.put d w) ≡ d
  pub connection_keeps : (w : W) → driver.database (driver.connection w).1 ≡ driver.database w
  pub clock_keeps : (w : W) → driver.database (runtime.now w).1 ≡ driver.database w
  pub uuid_keeps : (w : W) → driver.database (runtime.new_uuid w).1 ≡ driver.database w

-- An id that the caller has left blank is drawn.
unfoldable pub id_or_new : {W : Type 0} → Runtime W → String → Action W String
id_or_new runtime id w = if trim_space id == "" then runtime.new_uuid w else (id, w)
