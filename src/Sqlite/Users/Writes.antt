-- ===== src/Sqlite/Users/Writes.antt =====
-- The calls that change users, as steps between directories.
use identra.Common.{String, ◌≡◌, refl, sym, ◌∙◌, ap, none, some, ◌∷◌, eqb, arith, inl, inr}
use identra.Common.Exec.{Result, ◌>>=◌, ◌>>◌, pure, refuse_if}
use identra.Security.Tokens.{Runtime}
use identra.Service.{Fault, missing, UserModel}
use identra.Sqlite.{UserRow, Database, Driver, DriverLaws, count_where, id_or_new}
use identra.Sqlite.Rows.{any-first, first_sound, update-Unique}
use identra.Sqlite.Calls.{id_or_new_keeps}
use identra.Sqlite.Queries.{
  live_user, live_email, get_user_by_id, get_user_by_email, soft_delete_user, set_live,
  held_by_other, id_is,
}
use identra.Sqlite.Queries
use identra.Sqlite.Users.{user_to_domain, create, update, delete, set_password, time_or}
use identra.Sqlite.Users.Directory.{
  create_user, update_user, delete_user, set_user_password, reply_user, reply_done,
}
use identra.Sqlite.Users.Statements.{
  create_user-refused, create_user-done, update_user-refused, update_user-done, taking, counted,
}
use identra.Sqlite.Users.Table.{
  directory, IsUsers, free_id, insert-Set, change-Set, delete-Set, found_id, email-Unique,
}
use identra.Sqlite.Users.Simulation.{
  users_of, Simulates, failed-Denied, wrapped-Simulates, landed, absent-Simulates, no_target-Denied,
}

module _ {W : Type 0} (driver : Driver W) (runtime : Runtime W)
    (laws : DriverLaws driver runtime) where
  pub create-Simulates :
      (user : UserModel) (w : W) {r : Result Fault UserModel} {v : W}
      → IsUsers (users_of driver w)
      → create driver runtime user w ≡ (r, v)
      → Simulates driver (create_user user) (reply_user r) w v
  unfolding create ◌>>=◌ user_to_domain
  create-Simulates user w (ids, emails) h =
      let (now, w1) = runtime.now w in
      let (id, w2) = id_or_new runtime user.id w1 in
      let created_at = time_or user.created_at now in
      let row : UserRow = record {
        id = id;
        created_at = created_at;
        updated_at = now;
        deleted_at = none;
        email = user.email;
        hashed_password = user.hashed_password;
        hash = user.verification_hash;
        last_login_at = user.last_login_at;
      } in
      wrapped-Simulates driver runtime laws (create_user user) reply_user
        (Queries.create_user driver row)
        (λ u. pure (record user { id = id; created_at = created_at; updated_at = now })) w w2
        (ids, emails) (id_or_new_keeps driver runtime laws user.id w1 ∙ laws.clock_keeps w)
        (λ e. refl)
        (λ x lost. (
          create_user-refused driver row _ lost,
          no_target-Denied driver runtime laws (directory (users_of driver w)) (create_user user) _
              refl,
        ))
        (λ u v1 got same last.
          let (new_id, new_email, table) = create_user-done driver row _ got in
          let users : users_of driver v1 ≡ row ∷ users_of driver w =
            ap (λ (d : Database). d.users) same ∙ table in
          landed driver runtime laws (create_user user) reply_user w last (
            rw users (
              record {
                fresh = free_id id (users_of driver w) new_id;
                kept = refl;
                stored = insert-Set row (users_of driver w) refl;
              },
              ((new_id, ids), (new_email, emails)),
            )))
        h

  pub delete-Simulates :
      (id : String) (w : W) {r : Result Fault (Unit {0})} {v : W}
      → IsUsers (users_of driver w)
      → delete driver runtime id w ≡ (r, v)
      → Simulates driver (delete_user id) (reply_done r) w v
  unfolding delete ◌>>=◌ soft_delete_user directory
  delete-Simulates id w (ids, emails) h =
      let (now, w1) = runtime.now w in
      let f = λ (r : UserRow). record r { deleted_at = some now; updated_at = now } in
      wrapped-Simulates driver runtime laws (delete_user id) reply_done (soft_delete_user id now)
        (λ rows. refuse_if (eqb rows 0) missing) w w1 (ids, emails) (laws.clock_keeps w) (λ e. refl)
        (λ x lost. absurd (ground arith))
        (λ rows v1 got same last.
          let users = ap (λ (d : Database). d.users) same in
          let n : count_where (live_user id) (users_of driver w) ≡ rows = ground arith in
          landed driver runtime laws (delete_user id) reply_done w last
            elim (counted id (users_of driver w)) [
              | inl (none_there, gone) ↦
                  rw (sym n, none_there)
                    (absent-Simulates driver runtime laws (delete_user id) id f w refl (ids, emails)
                      gone users)
              | inr (some_there, old, there) ↦
                  rw (sym n, some_there, users)
                    (
                      (
                        λ gone. absurd (ground arith),
                        delete-Set id f (λ r. refl) (users_of driver w) (λ r. refl),
                      ),
                      (
                        update-Unique (λ r. r.id) (live_user id) f (users_of driver w) (λ r. refl)
                            ids,
                        update-Unique (λ r. r.email) (live_user id) f (users_of driver w)
                            (λ r. refl) emails,
                      ),
                    )
            ])
        h

  pub set_password-Simulates :
      (id hash : String) (w : W) {r : Result Fault (Unit {0})} {v : W}
      → IsUsers (users_of driver w)
      → set_password driver runtime id hash w ≡ (r, v)
      → Simulates driver (set_user_password id hash) (reply_done r) w v
  unfolding set_password ◌>>=◌ Queries.set_user_password directory user_to_domain
  set_password-Simulates id hash w (ids, emails) h =
      let (now, w1) = runtime.now w in
      let f = λ (r : UserRow). record r { hashed_password = some hash; updated_at = now } in
      wrapped-Simulates driver runtime laws (set_user_password id hash) reply_done
        (Queries.set_user_password id hash now) (λ rows. refuse_if (eqb rows 0) missing) w w1
        (ids, emails) (laws.clock_keeps w) (λ e. refl) (λ x lost. absurd (ground arith))
        (λ rows v1 got same last.
          let users = ap (λ (d : Database). d.users) same in
          let n : count_where (live_user id) (users_of driver w) ≡ rows = ground arith in
          landed driver runtime laws (set_user_password id hash) reply_done w last
            elim (counted id (users_of driver w)) [
              | inl (none_there, gone) ↦
                  rw (sym n, none_there)
                    (absent-Simulates driver runtime laws (set_user_password id hash) id f w refl
                      (ids, emails) gone users)
              | inr (some_there, old, there) ↦
                  rw (sym n, some_there, users)
                    (
                      record {
                        old = user_to_domain old;
                        at = now;
                        was = rw there refl;
                        stored = change-Set id f (λ r. refl) (users_of driver w) (λ r. refl) there;
                      },
                      (
                        update-Unique (λ r. r.id) (live_user id) f (users_of driver w) (λ r. refl)
                            ids,
                        update-Unique (λ r. r.email) (live_user id) f (users_of driver w)
                            (λ r. refl) emails,
                      ),
                    )
            ])
        h

  pub update-Simulates :
      (user : UserModel) (w : W) {r : Result Fault UserModel} {v : W}
      → IsUsers (users_of driver w)
      → update driver runtime user w ≡ (r, v)
      → Simulates driver (update_user user) (reply_user r) w v
  unfolding update ◌>>=◌ directory user_to_domain
  update-Simulates user w (ids, emails) h =
      let (now, w1) = runtime.now w in
      let row : UserRow = record {
        id = user.id;
        created_at = user.created_at;
        updated_at = now;
        deleted_at = none;
        email = user.email;
        hashed_password = user.hashed_password;
        hash = user.verification_hash;
        last_login_at = user.last_login_at;
      } in
      let f = taking driver row (driver.database w) in
      wrapped-Simulates driver runtime laws (update_user user) reply_user
        (Queries.update_user driver row)
        (λ rows. refuse_if (eqb rows 0) missing >> pure (record user { updated_at = now })) w w1
        (ids, emails) (laws.clock_keeps w) (λ e. refl)
        (λ x lost.
          let (kept, text) = update_user-refused driver row (driver.database w) lost in
          (
            kept,
            rw text (
                failed-Denied driver runtime laws (directory (users_of driver w)) (update_user user)
                  (driver.unique_failed "users.email")),
          ))
        (λ rows v1 got same last.
          let (n, table, free) = update_user-done driver row (driver.database w) got in
          let users = ap (λ (d : Database). d.users) same ∙ table in
          landed driver runtime laws (update_user user) reply_user w last
            elim (counted user.id (users_of driver w)) [
              | inl (none_there, gone) ↦
                  rw (n, none_there)
                    (absent-Simulates driver runtime laws (update_user user) user.id f w refl
                      (ids, emails) gone users)
              | inr (some_there, old, there) ↦
                  let alone = free (
                    any-first (live_user user.id) (live_user user.id) (users_of driver w) there
                      (first_sound (live_user user.id) (users_of driver w) there)) in
                  rw (n, some_there, users)
                    (
                      record {
                        old = user_to_domain old;
                        was = rw there refl;
                        kept = refl;
                        stored = rw (found_id user.id (users_of driver w) there) at (
                            change-Set user.id f (λ r. refl) (users_of driver w) (λ r. refl) there);
                      },
                      (
                        update-Unique (λ r. r.id) (live_user user.id) f (users_of driver w)
                            (λ r. refl) ids,
                        email-Unique user.id user.email f (users_of driver w) (λ r. refl)
                            (λ r. refl) alone (ids, emails),
                      ),
                    )
            ])
        h
