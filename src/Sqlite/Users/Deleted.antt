-- ===== src/Sqlite/Users/Deleted.antt =====
-- The address of a user that has been deleted.
use identra.Common.{
  String, ◌==◌, ◌≡◌, ◌≢◌, refl, sym, ◌∙◌, ap, true, false, none, some, List, any, eqb, arith, inl,
  inr, eq_iff, eq_refl, Option, Option-cases, Bool-cases,
}
use identra.Common.Exec.{Result, ok, ◌>>=◌, pure, refuse_if}
use identra.Security.Tokens.{Runtime}
use identra.Service.{Fault, missing, UserModel}
use identra.Sqlite.{UserRow, Database, Driver, DriverLaws, first, id_or_new}
use identra.Sqlite.Rows.{any-update, any-first, first_sound, Unique, first-Unique}
use identra.Sqlite.Calls.{asked-elim, id_or_new_keeps}
use identra.Sqlite.Queries
use identra.Sqlite.Queries.{live_user, live_email, email_is, soft_delete_user}
use identra.Sqlite.Users.{user_to_domain, create, delete, get_by_email, time_or}
use identra.Sqlite.Users.Statements.{create_user-done}
use identra.Sqlite.Users.Table.{directory, IsUsers, found_id}
use identra.Sqlite.Users.Simulation.{users_of}
use identra.Sqlite.Users.Writes.{delete-Simulates}
use identra.Sqlite.Users.Refines.{get_by_email-Simulates}

some_row : {r s : UserRow} → ◌≡◌ {A = Option UserRow} (some r) (some s) → r ≡ s
some_row h = ground arith

module _ {W : Type 0} (driver : Driver W) (runtime : Runtime W)
    (laws : DriverLaws driver runtime) where
  -- A row, live or deleted, has the address.
  abbrev pub IsTaken : String → W → Type 0
  IsTaken email w = any (email_is email) (users_of driver w) ≡ true

  delete-IsTaken :
      (id email : String) (w : W) {r : Result Fault (Unit {0})} {v : W}
      → IsTaken email w
      → delete driver runtime id w ≡ (r, v)
      → IsTaken email v
  unfolding delete ◌>>=◌ soft_delete_user
  delete-IsTaken id email w {v = v} taken h =
      let (now, w1) = runtime.now w in
      asked-elim driver runtime laws _ (soft_delete_user id now)
        (λ rows. refuse_if (eqb rows 0) missing) w1 h
        (λ t e same.
          ap (λ (d : Database). any (email_is email) d.users) (same ∙ laws.clock_keeps w) ∙ taken)
        (λ x lost e same. absurd (ground arith))
        (λ rows v1 got same last.
          let f = λ (r : UserRow). record r { deleted_at = some now; updated_at = now } in
          let at : v1 ≡ v = ground arith in
          ap (λ u. any (email_is email) (users_of driver u)) (sym at)
          ∙ ap (λ (d : Database). any (email_is email) d.users) same
          ∙ ap (λ d. any (email_is email) (soft_delete_user id now d).1.users) (laws.clock_keeps w)
          ∙ any-update (live_user id) f (email_is email) (users_of driver w) (λ r. refl)
          ∙ taken)

  -- No user is created with an address that is taken.
  create-IsTaken :
      (user made : UserModel) (w v : W)
      → IsTaken user.email w
      → create driver runtime user w ≢ (ok made, v)
  unfolding create ◌>>=◌
  create-IsTaken user made w v taken h =
      let (now, w1) = runtime.now w in
      let (id, w2) = id_or_new runtime user.id w1 in
      let created_at = time_or user.created_at now in
      let same2 = id_or_new_keeps driver runtime laws user.id w1 ∙ laws.clock_keeps w in
      let row : UserRow = record {
        id = id;
        created_at = created_at;
        updated_at = now;
        deleted_at = none;
        email = user.email;
        hashed_password = user.hashed_password;
        hash = user.verification_hash;
        last_login_at = user.last_login_at;
      } in
      asked-elim driver runtime laws _ (Queries.create_user driver row)
        (λ u. pure (record user { id = id; created_at = created_at; updated_at = now })) w2 h
        (λ t e same. absurd (ground arith)) (λ x lost e same. absurd (ground arith))
        (λ u v1 got same last.
          let (_, free, _) = create_user-done driver row (driver.database w2) got in
          let free_now : any (email_is user.email) (users_of driver w) ≡ false = rw same2 at free in
          absurd (ground arith))

  -- The row of a live user is the one that answers to its address.
  one_address :
      (k : String) (users : List UserRow) {r : UserRow}
      → Unique (λ r. r.email) users
      → first (live_user k) users ≡ some r
      → first (live_email r.email) users ≡ some r
  one_address k users {r} emails there =
      let holds = first_sound (live_user k) users there in
      first-Unique (λ s. s.email) (live_user k) (live_email r.email) users emails there
        (ground (arith, eq_refl r.email)) (λ s e. ground (arith, eq_iff s.email r.email))

  row_of :
      (users : List UserRow) (k : String) (u : UserModel)
      → directory users k ≡ some u
      → (r : UserRow) × (first (live_user k) users ≡ some r) × (r.email ≡ u.email)
  unfolding directory user_to_domain
  row_of users k u h = elim (Option-cases (first (live_user k) users)) [
    | inl gone ↦ absurd (ground arith)
    | inr (r, there) ↦ (r, there, ground arith)
  ]

  -- Two live users with one address are one.
  same_user :
      (users : List UserRow) (k j : String) (u v : UserModel)
      → IsUsers users
      → directory users k ≡ some u
      → directory users j ≡ some v
      → u.email ≡ v.email
      → k ≡ j
  same_user users k j u v (ids, emails) here there same =
      let (r, at, of) = row_of users k u here in
      let (s, at', of') = row_of users j v there in
      let one = one_address k users emails at in
      let two = one_address j users emails at' in
      let email : r.email ≡ s.email = of ∙ same ∙ sym of' in
      let row : r ≡ s = some_row (sym one ∙ ap (λ e. first (live_email e) users) email ∙ two) in
      sym (found_id k users at) ∙ ap (λ (r : UserRow). r.id) row ∙ found_id j users at'

  -- Over a driver that keeps what it is told, on a table whose ids and addresses are all different: once a live user has been deleted, as
  -- long as the table stays as it is, no user is found by the address, and none can be created with it.
  pub deleted_address_is_lost :
      (id : String) (user new made found : UserModel) (w w' v v1 v2 : W)
      → IsUsers (users_of driver w)
      → directory (users_of driver w) id ≡ some user
      → delete driver runtime id w ≡ (ok tt, w')
      → users_of driver v ≡ users_of driver w'
      → new.email ≡ user.email
      → (get_by_email driver runtime user.email v ≢ (ok found, v1))
        × (create driver runtime new v ≢ (ok made, v2))
  deleted_address_is_lost id user new made found w w' v v1 v2 wf there deleted still address =
      let (set, wf') = delete-Simulates driver runtime laws id w wf deleted in
      let gone = set.1 in
      let (r, at, of) = row_of (users_of driver w) id user there in
      let taken : IsTaken user.email w =
        any-first (live_user id) (email_is user.email) (users_of driver w) at
          (ground (arith, eq_iff r.email user.email)) in
      let taken' = delete-IsTaken id user.email w taken deleted in
      (
        (λ h.
            let (reads, _) =
              get_by_email-Simulates driver runtime laws user.email v (rw still wf') h in
            let (here, of', _) = reads in
            let now : directory (users_of driver w') found.id ≡ some found = rw still at here in
            let before = gone found.id in
            elim (Bool-cases (id == found.id)) [
              | inl same ↦ absurd (ground arith)
              | inr other ↦
                  let was : directory (users_of driver w) found.id ≡ some found =
                    sym (rw other at before) ∙ now in
                  let one =
                    same_user (users_of driver w) id found.id user found wf there was (sym of') in
                  absurd (ground (arith, eq_iff id found.id))
            ]),
        create-IsTaken new made v v2 (rw (address, still) taken'),
      )
