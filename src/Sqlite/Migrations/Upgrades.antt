-- ===== src/Sqlite/Migrations/Upgrades.antt =====
-- What one migration leaves in the database.
use identra.Common.{ℕ, String, ◌≡◌, ap, ◌∙◌, true, false, ◌+◌, some}
use identra.Sqlite.Migrations.{
  Directory, Connection, version_of, found, call, call_inside, run_migration, not_begun,
  not_applied, not_recorded, not_committed, unread,
}
use identra.Sqlite.Migrations.Ends.{Ends, Ends-found, Ends-bind, Ends-passed, Ends-undone}

-- What is stored: the version, and the tables `D`.
pub record Database (D : Type 0) : Type 0 where
  pub version : ℕ
  pub tables : D

-- What SQLite documents of a connection of its own: `run` is what a script does to the tables. A
-- transaction works on a copy, which a commit that succeeds makes the stored database; no other call
-- changes that.
pub record ConnectionLaws {W D : Type 0} (db : Connection W) (run : String → D → D) : Type 0 where
  pub stored : W → Database D
  pub pending : W → Database D
  pub user_version-stored : (w : W) → stored (db.user_version w).1 ≡ stored w
  pub user_version_some : (w : W) (v : ℕ) → (db.user_version w).0 ≡ some v → v ≡ (stored w).version
  pub begin-stored : (w : W) → stored (db.begin w).1 ≡ stored w
  pub begin-pending : (w : W) → (db.begin w).0 ≡ true → pending (db.begin w).1 ≡ stored w
  pub exec-stored : (s : String) (w : W) → stored (db.exec s w).1 ≡ stored w
  pub exec-pending :
      (s : String) (w : W)
      → (db.exec s w).0 ≡ true
      → pending (db.exec s w).1
        ≡ record { version = (pending w).version; tables = run s (pending w).tables }
  pub set-stored : (v : ℕ) (w : W) → stored (db.set_user_version v w).1 ≡ stored w
  pub set-pending :
      (v : ℕ) (w : W)
      → (db.set_user_version v w).0 ≡ true
      → pending (db.set_user_version v w).1 ≡ record { version = v; tables = (pending w).tables }
  pub commit-stored : (w : W) → (db.commit w).0 ≡ true → stored (db.commit w).1 ≡ pending w
  pub commit_failed : (w : W) → (db.commit w).0 ≡ false → stored (db.commit w).1 ≡ stored w
  pub rollback-stored : (w : W) → stored (db.rollback w).1 ≡ stored w

module _ {W D : Type 0} (dir : Directory) (db : Connection W) (run : String → D → D) where
  abbrev pub after : String → ℕ → Database D → Database D
  after script version d = record { version = version; tables = run script d.tables }

  -- Scripts run one after the other, each that of the version after the one that is stored.
  pub data Upgraded (d : Database D) : Database D → Type 0 where
    unchanged : Upgraded d d
    next :
        (e : Database D) (name script : String)
        → Upgraded d e
        → version_of name ≡ some (e.version + 1)
        → dir.read_file name ≡ some script
        → Upgraded d (after script (e.version + 1) e)

  module _ (laws : ConnectionLaws db run) where
    module _ (d : Database D) where
      abbrev pub Kept : W → Type 0
      Kept v = laws.stored v ≡ d

      -- Inside a transaction, whose copy is `e`.
      abbrev Open : Database D → Unit {0} → W → Type 0
      Open e x v = Kept v × (laws.pending v ≡ e)

      abbrev pub Ran : String → ℕ → Unit {0} → W → Type 0
      Ran name version x v =
          (script : String) × (dir.read_file name ≡ some script)
          × (laws.stored v ≡ after script version d)

      -- A migration fails and nothing is stored, or its script and its version are.
      pub run_migration-Ends :
          (name : String) (version : ℕ) (w : W)
          → Kept w
          → Ends Kept (Ran name version) (run_migration dir db name version w)
      unfolding run_migration
      run_migration-Ends name version w kept =
          Ends-bind Kept (λ script v. Kept v × (dir.read_file name ≡ some script))
            (Ran name version) _ (found (unread name) (dir.read_file name)) w
            (Ends-found Kept _ (unread name) (dir.read_file name) w kept (λ script is. (kept, is)))
            λ script v1 (kept1, is).
              let run_d : Database D = record {
                version = d.version;
                tables = run script d.tables;
              } in
              Ends-bind Kept (Open d) (Ran name version) _ (call dir db (not_begun name) db.begin)
                v1
                (Ends-passed Kept (Open d) (not_begun name) (db.begin v1)
                  (λ h. (laws.begin-stored v1 ∙ kept1, laws.begin-pending v1 h ∙ kept1))
                  (λ h. laws.begin-stored v1 ∙ kept1))
                λ x v2 (kept2, open2).
                  Ends-bind Kept (Open run_d) (Ran name version) _
                    (call_inside dir db (not_applied name) (db.exec script)) v2
                    (Ends-undone Kept (Open run_d) db.rollback (not_applied name)
                      (db.exec script v2)
                      (λ h. (
                        laws.exec-stored script v2 ∙ kept2,
                        laws.exec-pending script v2 h
                            ∙ ap (λ e. record { version = e.version; tables = run script e.tables })
                                open2,
                      ))
                      (laws.rollback-stored _ ∙ laws.exec-stored script v2 ∙ kept2))
                    λ y v3 (kept3, open3).
                      Ends-bind Kept (Open (after script version d)) (Ran name version) _
                        (call_inside dir db (not_recorded name) (db.set_user_version version)) v3
                        (Ends-undone Kept (Open (after script version d)) db.rollback
                          (not_recorded name) (db.set_user_version version v3)
                          (λ h. (
                            laws.set-stored version v3 ∙ kept3,
                            laws.set-pending version v3 h
                                ∙ ap (λ e. record { version = version; tables = e.tables }) open3,
                          ))
                          (laws.rollback-stored _ ∙ laws.set-stored version v3 ∙ kept3))
                        λ z v4 (kept4, open4).
                          Ends-passed Kept (Ran name version) (not_committed name) (db.commit v4)
                            (λ h. (script, is, laws.commit-stored v4 h ∙ open4))
                            (λ h. laws.commit_failed v4 h ∙ kept4)
