-- ===== src/Sqlite/Users/Statements.antt =====
-- The statements on users, by their answers.
use identra.Common.{
  ℕ, String, ◌≡◌, true, false, none, some, List, ◌∷◌, any, eqb, ◌⊎◌, arith, inl, inr, Option-cases,
}
use identra.Common.Exec.{ok, err}
use identra.Sqlite.{UserRow, Database, SqlError, failed, Driver, first, count_where, update_where}
use identra.Sqlite.Rows.{count-none}
use identra.Sqlite.Queries.{
  live_user, live_email, id_is, email_is, held_by_other, create_user, update_user, get_user_by_id,
  get_user_by_email,
}

module _ {W : Type 0} (driver : Driver W) (row : UserRow) (d : Database) where
  pub create_user-refused :
      {x : SqlError}
      → (create_user driver row d).0 ≡ err x
      → (create_user driver row d).1.users ≡ d.users
  unfolding create_user
  create_user-refused h = ground arith

  pub create_user-done :
      {u : Unit {0}}
      → (create_user driver row d).0 ≡ ok u
      → (any (id_is row.id) d.users ≡ false)
        × (any (email_is row.email) d.users ≡ false)
        × ((create_user driver row d).1.users ≡ row ∷ d.users)
  unfolding create_user
  create_user-done h = ground arith

  pub update_user-refused :
      {x : SqlError}
      → (update_user driver row d).0 ≡ err x
      → ((update_user driver row d).1.users ≡ d.users)
        × (x ≡ failed (driver.unique_failed "users.email"))
  unfolding update_user
  update_user-refused h = ground arith

  -- The row that takes the given columns.
  abbrev pub taking : UserRow → UserRow
  taking r = record r {
    email = row.email;
    hashed_password = row.hashed_password;
    hash = row.hash;
    last_login_at = row.last_login_at;
    updated_at = row.updated_at;
  }

  pub update_user-done :
      {n : ℕ}
      → (update_user driver row d).0 ≡ ok n
      → (n ≡ count_where (live_user row.id) d.users)
        × ((update_user driver row d).1.users ≡ update_where (live_user row.id) taking d.users)
        × (any (live_user row.id) d.users ≡ true
            → any (held_by_other row.email row.id) d.users ≡ false)
  unfolding update_user
  update_user-done h = ground arith

-- The row that an UPDATE of a live user changes, by the number that it answers.
pub counted :
    (id : String) (users : List UserRow)
    → ((eqb (count_where (live_user id) users) 0 ≡ true) × (first (live_user id) users ≡ none))
      ⊎ ((eqb (count_where (live_user id) users) 0 ≡ false)
          × (old : UserRow) × (first (live_user id) users ≡ some old))
counted id users = elim (Option-cases (first (live_user id) users)) [
  | inl gone ↦ inl ((count-none (live_user id) users).1 gone, gone)
  | inr (old, there) ↦ inr (ground (arith, count-none (live_user id) users), old, there)
]

module _ (id : String) (d : Database) where
  pub get_user_by_id-answer :
      ((r : UserRow) → (get_user_by_id id d).0 ≡ ok r → first (live_user id) d.users ≡ some r)
      × ((x : SqlError) → (get_user_by_id id d).0 ≡ err x → first (live_user id) d.users ≡ none)
  unfolding get_user_by_id
  get_user_by_id-answer = (λ r h. ground arith, λ x h. ground arith)

  pub get_user_by_email-answer :
      ((r : UserRow) → (get_user_by_email id d).0 ≡ ok r → first (live_email id) d.users ≡ some r)
      × ((x : SqlError) → (get_user_by_email id d).0 ≡ err x → first (live_email id) d.users ≡ none)
  unfolding get_user_by_email
  get_user_by_email-answer = (λ r h. ground arith, λ x h. ground arith)
