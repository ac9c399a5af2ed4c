-- ===== src/Tests/Migrations.antt =====
-- Migrations of a small database, whose tables are the scripts that ran.
use identra.Common.{ℕ, String, ◌≡◌, refl, true, false, some, List, [], ◌∷◌, ◌<◌, arith}
use identra.Common.Exec.{ok, err}
use identra.Sqlite.Migrations.{
  Directory, Connection, MigrationError, current_schema_version, apply_migrations,
}
use identra.Sqlite.Migrations.Upgrades.{Database, ConnectionLaws, Upgraded}
use identra.Sqlite.Migrations.Applied.{apply_migrations-Upgraded}

abbrev Tables : Type 0
Tables = List String

abbrev Disk : Type 0
Disk = Database Tables × Database Tables

abbrev run : String → Tables → Tables
run script tables = script ∷ tables

abbrev at_version : ℕ → Tables → Database Tables
at_version version tables = record { version = version; tables = tables }

abbrev directory : Directory
directory = record {
  names = some ("002_b.sql" ∷ "readme" ∷ "001_a.sql" ∷ "003_c.sql" ∷ []);
  is_dir = λ name. false;
  read_file = λ name. some name;
}

abbrev connection : Connection Disk
connection = record {
  user_version = λ w. (some w.0.version, w);
  begin = λ w. (true, (w.0, w.0));
  exec = λ s w. (true, (w.0, at_version w.1.version (run s w.1.tables)));
  set_user_version = λ v w. (true, (w.0, at_version v w.1.tables));
  commit = λ w. (true, (w.1, w.1));
  rollback = λ w. (tt, w);
}

some_eq : (a b : ℕ) → some a ≡ some b → b ≡ a
some_eq a b h = ground arith

no_failure : true ≡ false → ⊥
no_failure h = ground arith

abbrev laws : ConnectionLaws connection run
laws = record {
  stored = λ w. w.0;
  pending = λ w. w.1;
  user_version-stored = λ w. refl;
  user_version_some = λ w v h. some_eq _ v h;
  begin-stored = λ w. refl;
  begin-pending = λ w h. refl;
  exec-stored = λ s w. refl;
  exec-pending = λ s w h. refl;
  set-stored = λ v w. refl;
  set-pending = λ v w h. refl;
  commit-stored = λ w h. refl;
  commit_failed = λ w h. absurd (no_failure h);
  rollback-stored = λ w. refl;
}

abbrev old_disk : Disk
old_disk = (at_version 1 ("001_a.sql" ∷ []), at_version 1 ("001_a.sql" ∷ []))

apply_migrations-Upgraded_example :
    Upgraded directory connection run
      (at_version 1 ("001_a.sql" ∷ []))
      (apply_migrations directory connection old_disk).1.0
    × ((apply_migrations directory connection old_disk).0 ≡ ok tt
        → (apply_migrations directory connection old_disk).1.0.version ≡ current_schema_version)
    × (current_schema_version < 1
        → ((e : MigrationError) × ((apply_migrations directory connection old_disk).0 ≡ err e))
          × ((apply_migrations directory connection old_disk).1.0
              ≡ at_version 1 ("001_a.sql" ∷ [])))
apply_migrations-Upgraded_example = apply_migrations-Upgraded directory connection run laws old_disk
