-- ===== src/Sqlite/Migrations/Applied.antt =====
-- What all the migrations leave in the database.
use identra.Common.{
  ℕ, String, ◌≡◌, refl, ap, ◌∙◌, sym, ◌+◌, ◌≤◌, ◌<◌, Option, none, some, List, [], ◌∷◌, ltb, leb,
  eqb, sort_strings, arith, Bool-cases, inl, inr, ◌⊎◌,
}
use identra.Common.Exec.{Result, ok, err, refuse_if}
use identra.Sqlite.Migrations.{
  Directory, Connection, MigrationError, version_of, found, run_migration, migrate_to, next_version,
  migrate_one, is_skipped, migrate_all, read_version, apply_migrations, invalid_name,
  unread_version, newer_version, no_directory, wrong_count, current_schema_version,
}
use identra.Text.Split.{lacks}
use identra.Sqlite.Migrations.Ends.{Ends, Ends-found, Ends-weaken, Ends-bind, Ends-refuse_if}
use identra.Sqlite.Migrations.Upgrades.{
  Database, ConnectionLaws, after, Upgraded, unchanged, next, Kept, run_migration-Ends,
}

module _ {W D : Type 0} (dir : Directory) (db : Connection W) (run : String → D → D) where
  module _ (laws : ConnectionLaws db run) where
    module _ (d : Database D) (current : ℕ) where
      abbrev Rising : W → Type 0
      Rising v = Upgraded dir db run d (laws.stored v)

      -- `s` is the larger of the two.
      abbrev IsLarger : ℕ → ℕ → ℕ → Type 0
      IsLarger m n s = (m ≤ s) × (n ≤ s) × ((s ≡ m) ⊎ (s ≡ n))

      abbrev Seen : ℕ → W → Type 0
      Seen last v = Rising v × IsLarger current last (laws.stored v).version

      IsLarger-above :
          (last s : ℕ)
          → last + 1 ≤ current
          → IsLarger current last s
          → IsLarger current (last + 1) s
      IsLarger-above last s h (a, b, c) = (omega arith, omega arith, ground arith)

      larger_is_last : (last s : ℕ) → current < last + 1 → IsLarger current last s → s ≡ last
      larger_is_last last s h (a, b, inl c) = omega arith
      larger_is_last last s h (a, b, inr c) = c

      IsLarger-next :
          (last s : ℕ) → current < last + 1 → s ≡ last + 1 → IsLarger current (last + 1) s
      IsLarger-next last s h e = (omega arith, omega arith, inr e)

      Upgraded-by :
          (e f : Database D) (name script : String) (last : ℕ)
          → Upgraded dir db run d e
          → e.version ≡ last
          → version_of name ≡ some (last + 1)
          → dir.read_file name ≡ some script
          → f ≡ after dir db run script (last + 1) e
          → Upgraded dir db run d f
      Upgraded-by e f name script last up same named read is =
          rw (is, sym same) (next e name script up (rw same named) read)

      migrate_to-Ends :
          (name : String) (last : ℕ) (w : W)
          → version_of name ≡ some (last + 1)
          → Seen last w
          → Ends Rising Seen (migrate_to dir db current name (last + 1) w)
      migrate_to-Ends name last w named (rising, larger) =
          elim (Bool-cases (leb (last + 1) current)) [
            | inl done ↦ rw done (rising, IsLarger-above last _ (ground arith) larger)
            | inr above ↦
                let under : current < last + 1 = ground arith in
                let same = larger_is_last last _ under larger in
                rw above (
                  Ends-bind Rising (λ x. Seen (last + 1)) Seen _
                    (run_migration dir db name (last + 1)) w
                    (Ends-weaken _ _ Rising (λ x. Seen (last + 1)) _
                      (run_migration-Ends dir db run laws (laws.stored w) name (last + 1) w refl)
                      (λ v kept. rw kept rising)
                      (λ x v (script, read, is). (
                        Upgraded-by (laws.stored w) (laws.stored v) name script last rising same
                            named read is,
                        IsLarger-next last _ under (ap (λ e. e.version) is),
                      )))
                    (λ x v seen. seen))
          ]

      next_version-Ends :
          (name : String) (last : ℕ) (o : Option ℕ) (w : W)
          → Seen last w
          → Ends Rising
              (λ version v. Seen last v × (version ≡ last + 1) × (o ≡ some version))
              (next_version dir db name last o, w)
      next_version-Ends name last none w seen = seen.0
      next_version-Ends name last (some n) w seen = elim (Bool-cases (eqb n (last + 1))) [
        | inl same ↦ rw same (seen, ground arith, refl)
        | inr other ↦ rw other seen.0
      ]

      migrate_one-Ends :
          (name : String) (last : ℕ) (w : W)
          → Seen last w
          → Ends Rising Seen (migrate_one dir db current name last w)
      unfolding migrate_one
      migrate_one-Ends name last w seen =
          Ends-bind Rising (λ x. Seen last) Seen _ (refuse_if (lacks b'_' name) (invalid_name name))
            w (Ends-refuse_if Rising (λ x. Seen last) _ _ w seen.0 (λ h. seen))
            λ x v seen1.
              Ends-bind Rising
                (λ version u. Seen last u × (version ≡ last + 1) × (version_of name ≡ some version))
                Seen (migrate_to dir db current name)
                (λ u. (next_version dir db name last (version_of name), u)) v
                (next_version-Ends name last (version_of name) v seen1)
                λ version u (seen2, is, named).
                  rw is (migrate_to-Ends name last u (named ∙ ap some is) seen2)

      migrate_all-Ends :
          (names : List String) (last : ℕ) (w : W)
          → Seen last w
          → Ends Rising Seen (migrate_all dir db current names last w)
      unfolding migrate_all
      migrate_all-Ends [] last w seen = seen
      migrate_all-Ends (name ∷ names) last w seen = elim (Bool-cases (is_skipped dir db name)) [
        | inl skipped ↦ rw skipped (migrate_all-Ends names last w seen)
        | inr script ↦ rw script (
            Ends-bind Rising Seen Seen _ (migrate_one dir db current name last) w
              (migrate_one-Ends name last w seen) (migrate_all-Ends names))
      ]

    larger_current :
        (last n s : ℕ) → n ≤ 3 → last ≡ 3 → (n ≤ s) × (last ≤ s) × ((s ≡ n) ⊎ (s ≡ last)) → s ≡ 3
    larger_current last n s low is (a, b, inl c) = omega arith
    larger_current last n s low is (a, b, inr c) = omega arith

    module _ (w : W) where
      abbrev Start : Database D
      Start = laws.stored w

      abbrev Finished : Unit {0} → W → Type 0
      Finished x v =
          Upgraded dir db run Start (laws.stored v)
          × ((laws.stored v).version ≡ current_schema_version)

      read_version-Ends :
          Ends
            (Kept dir db run laws Start)
            (λ v u. Kept dir db run laws Start u × (v ≡ Start.version))
            (read_version dir db w)
      read_version-Ends =
          Ends-found (Kept dir db run laws Start)
            (λ v u. Kept dir db run laws Start u × (v ≡ Start.version)) unread_version
            (db.user_version w).0 (db.user_version w).1 (laws.user_version-stored w)
            (λ v is. (laws.user_version-stored w, laws.user_version_some w v is))

      Finished-split :
          (r : Result MigrationError (Unit {0}) × W)
          → Ends (Rising Start 0) Finished r
          → Upgraded dir db run Start (laws.stored r.1)
            × (r.0 ≡ ok tt → (laws.stored r.1).version ≡ current_schema_version)
      Finished-split (ok x, v) (rising, is) = (rising, λ h. is)
      Finished-split (err e, v) rising = (rising, λ h. absurd (ground arith))

      apply_migrations-Ends : Ends (Rising Start 0) Finished (apply_migrations dir db w)
      unfolding apply_migrations
      apply_migrations-Ends =
          Ends-bind (Rising Start 0) (λ n v. Kept dir db run laws Start v × (n ≡ Start.version))
            Finished _ (read_version dir db) w
            (Ends-weaken (Kept dir db run laws Start)
              (λ n v. Kept dir db run laws Start v × (n ≡ Start.version)) (Rising Start 0)
              (λ n v. Kept dir db run laws Start v × (n ≡ Start.version)) _ read_version-Ends
              (λ v kept. rw kept unchanged) (λ n v h. h))
            λ n v (kept, is).
              let up : Upgraded dir db run Start (laws.stored v) = rw kept unchanged in
              Ends-bind (Rising Start 0) (λ x u. Seen Start n 0 u × (n ≤ 3)) Finished _
                (refuse_if (ltb current_schema_version n) (newer_version n)) v
                (Ends-refuse_if (Rising Start 0) (λ x u. Seen Start n 0 u × (n ≤ 3))
                  (ltb current_schema_version n) (newer_version n) v up
                  (λ h. (
                    (up, (rw (is, kept) (ground arith), ground arith, rw (is, kept) (inl refl))),
                    ground arith,
                  )))
                λ x v2 (seen, low).
                  Ends-bind (Rising Start 0) (λ names u. Seen Start n 0 u) Finished _
                    (found no_directory dir.names) v2
                    (Ends-found (Rising Start 0) (λ names u. Seen Start n 0 u) no_directory
                      dir.names v2 seen.0 (λ names h. seen))
                    λ names v3 seen3.
                      Ends-bind (Rising Start 0) (Seen Start n) Finished _
                        (migrate_all dir db n (sort_strings names) 0) v3
                        (migrate_all-Ends Start n (sort_strings names) 0 v3 seen3)
                        λ last v4 (up4, larger).
                          Ends-refuse_if (Rising Start 0) Finished _ (wrong_count last) v4 up4
                            (λ h. (up4, larger_current last n _ low (ground arith) larger))

      refused_split :
          (r : Result MigrationError (Unit {0}) × W)
          → Ends (Kept dir db run laws Start) (λ x v. ⊥) r
          → ((e : MigrationError) × (r.0 ≡ err e)) × Kept dir db run laws Start r.1
      refused_split (ok x, v) h = absurd h
      refused_split (err e, v) h = ((e, refl), h)

      newer_refused :
          current_schema_version < Start.version
          → Ends (Kept dir db run laws Start) (λ x v. ⊥) (apply_migrations dir db w)
      unfolding apply_migrations
      newer_refused newer =
          Ends-bind (Kept dir db run laws Start)
            (λ v u. Kept dir db run laws Start u × (v ≡ Start.version)) (λ x v. ⊥) _
            (read_version dir db) w read_version-Ends
            λ n v (kept, is).
              Ends-bind (Kept dir db run laws Start) (λ x v. ⊥) (λ x v. ⊥) _
                (refuse_if (ltb current_schema_version n) (newer_version n)) v
                (Ends-refuse_if (Kept dir db run laws Start) (λ x v. ⊥) _ _ v kept
                  (λ h. ground arith))
                λ x u h. absurd h

      -- For a SQLite as documented, in which any call may fail: the migrations leave the stored
      -- database as it was or upgraded by whole scripts, each that of the version after the one that was
      -- stored, recorded with it. Where they succeed, its version is the current one. A database of a
      -- newer version is refused and stays as it was.
      pub apply_migrations-Upgraded :
          Upgraded dir db run Start (laws.stored (apply_migrations dir db w).1)
          × ((apply_migrations dir db w).0 ≡ ok tt
              → (laws.stored (apply_migrations dir db w).1).version ≡ current_schema_version)
          × (current_schema_version < Start.version
              → ((e : MigrationError) × ((apply_migrations dir db w).0 ≡ err e))
                × (laws.stored (apply_migrations dir db w).1 ≡ Start))
      apply_migrations-Upgraded =
          let (rising, is) = Finished-split _ apply_migrations-Ends in
          (rising, is, λ newer. refused_split _ (newer_refused newer))
