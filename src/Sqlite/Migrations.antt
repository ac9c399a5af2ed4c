-- ===== src/Sqlite/Migrations.antt =====
-- internal/store/sqlite/database.go: the schema's version and the scripts that raise it. A version is
-- a natural number: the program writes no other.
pub mod Ends
pub mod Upgrades
pub mod Applied
use identra.Common.{
  ℕ, suc, String, Bool, true, false, not, ◌||◌, ◌+◌, Option, none, some, List, [], ◌∷◌, ltb, leb,
  eqb, if◌then◌else◌, sort_strings,
}
use identra.Common.Exec.{Result, ok, err, Action, Exec, pure, raise, ◌>>=◌, ◌>>◌, refuse_if}
use identra.Text.{before, has_suffix}
use identra.Text.Split.{lacks}
use identra.Text.Decimal.{atoi_natural}

-- The newest version that the program knows.
abbrev pub current_schema_version : ℕ
current_schema_version = 3

pub data MigrationError : Type 0 where
  unread_version no_directory : MigrationError
  newer_version : ℕ → MigrationError
  invalid_name unread not_begun not_applied not_recorded not_committed : String → MigrationError
  not_next : String → ℕ → MigrationError
  wrong_count : ℕ → MigrationError

-- The embedded directory: the names in it, which of them are directories, and their texts. `none`
-- where the read fails.
pub record Directory : Type 0 where
  pub names : Option (List String)
  pub is_dir : String → Bool
  pub read_file : String → Option String

-- The calls of database/sql that the migrations make; `false` where a call errs.
pub record Connection (W : Type 0) : Type 0 where
  pub user_version : Action W (Option ℕ)
  pub begin : Action W Bool
  pub exec : String → Action W Bool
  pub set_user_version : ℕ → Action W Bool
  pub commit : Action W Bool
  pub rollback : Action W (Unit {0})

-- The version at the front of a name that has a `_`.
abbrev pub version_of : String → Option ℕ
version_of name = atoi_natural (before b'_' name)

module _ {W : Type 0} where
  abbrev pub passed : MigrationError → Bool × W → Result MigrationError (Unit {0}) × W
  passed e (true, w) = (ok tt, w)
  passed e (false, w) = (err e, w)

  abbrev pub undone :
      Action W (Unit {0}) → MigrationError → Bool × W → Result MigrationError (Unit {0}) × W
  undone back e (true, w) = (ok tt, w)
  undone back e (false, w) = (err e, (back w).1)

  abbrev pub found : {A : Type 0} → MigrationError → Option A → Exec W MigrationError A
  found e none = raise e
  found e (some a) = pure a

module _ {W : Type 0} (dir : Directory) (db : Connection W) where
  abbrev pub call : MigrationError → Action W Bool → Exec W MigrationError (Unit {0})
  call e m w = passed e (m w)

  -- A call inside the transaction, which is rolled back where it errs.
  abbrev pub call_inside : MigrationError → Action W Bool → Exec W MigrationError (Unit {0})
  call_inside e m w = undone db.rollback e (m w)

  -- One script and the version that it leads to, in one transaction.
  unfoldable pub run_migration : String → ℕ → Exec W MigrationError (Unit {0})
  run_migration name version = found (unread name) (dir.read_file name) >>= λ script.
      call (not_begun name) db.begin
      >> (call_inside (not_applied name) (db.exec script)
          >> (call_inside (not_recorded name) (db.set_user_version version)
              >> call (not_committed name) db.commit))

  abbrev pub migrate_to : ℕ → String → ℕ → Exec W MigrationError ℕ
  migrate_to current name version =
      if leb version current then pure version else (run_migration name version >> pure version)

  abbrev pub next_version : String → ℕ → Option ℕ → Result MigrationError ℕ
  next_version name last none = err (not_next name last)
  next_version name last (some version) =
      if eqb version (last + 1) then ok version else err (not_next name last)

  -- The loop's body, for a file that is a script; it answers the version of the file.
  unfoldable pub migrate_one : ℕ → String → ℕ → Exec W MigrationError ℕ
  unfolding run_migration
  migrate_one current name last =
      refuse_if (lacks b'_' name) (invalid_name name)
      >> ((λ w. (next_version name last (version_of name), w)) >>= migrate_to current name)

  abbrev pub is_skipped : String → Bool
  is_skipped name = dir.is_dir name || not (has_suffix name ".sql")

  unfoldable pub migrate_all : ℕ → List String → ℕ → Exec W MigrationError ℕ
  unfolding migrate_one
  migrate_all current [] last = pure last
  migrate_all current (name ∷ names) last =
      let rest = migrate_all current names in
      if is_skipped name then rest last else (migrate_one current name last >>= rest)

  abbrev pub read_version : Exec W MigrationError ℕ
  read_version w = let (v, w') = db.user_version w in found unread_version v w'

  unfoldable pub apply_migrations : Exec W MigrationError (Unit {0})
  unfolding migrate_all
  apply_migrations = read_version >>= λ current.
      refuse_if (ltb current_schema_version current) (newer_version current)
      >> (found no_directory dir.names >>= λ names.
          migrate_all current (sort_strings names) 0 >>= λ last.
          refuse_if (not (eqb last current_schema_version)) (wrong_count last))
