-- ===== src/Sqlite/Queries.antt =====
-- internal/store/sqlite/sqlitedb/queries.sql.go: the statements on users and external identities,
-- with the constraints that schema.sql puts on their tables.
use identra.Common.{
  ℕ, String, ◌==◌, Bool, not, ◌&&◌, Option, none, some, List, ◌∷◌, any, keep, take, drop, ltb,
  if◌then◌else◌,
}
use identra.Common.Exec.{Result, ok, err}
use identra.Sqlite.{
  UserRow, IdentityRow, SqlError, no_rows, failed, Statement, Driver, first, update_where,
  count_where, is_null,
}

-- WHERE id = ? AND deleted_at IS NULL
abbrev pub live_user : String → UserRow → Bool
live_user id r = (r.id == id) && is_null r.deleted_at

-- WHERE email = ? AND deleted_at IS NULL
abbrev pub live_email : String → UserRow → Bool
live_email email r = (r.email == email) && is_null r.deleted_at

abbrev row_or_none : {R : Type 0} → Option R → Result SqlError R
row_or_none none = err no_rows
row_or_none (some r) = ok r

abbrev pub id_is : String → UserRow → Bool
id_is id r = r.id == id

abbrev pub email_is : String → UserRow → Bool
email_is email r = r.email == email

-- Another user has the address: the UNIQUE constraint counts deleted rows too.
abbrev pub held_by_other : String → String → UserRow → Bool
held_by_other email id r = (r.email == email) && not (r.id == id)

-- LIMIT ? OFFSET ?, where a negative limit, here `none`, stands for no limit
abbrev pub page : {R : Type 0} → Option ℕ → ℕ → List R → List R
page none offset rows = drop offset rows
page (some limit) offset rows = take limit (drop offset rows)

unfoldable pub count_users : Statement ℕ
count_users d = (ok (count_where (λ r. is_null r.deleted_at) d.users), d)

unfoldable pub get_user_by_id : String → Statement UserRow
get_user_by_id id d = (row_or_none (first (live_user id) d.users), d)

unfoldable pub get_user_by_email : String → Statement UserRow
get_user_by_email email d = (row_or_none (first (live_email email) d.users), d)

-- Sets columns of the live row with this id, and answers the number of rows.
abbrev pub set_live : String → (UserRow → UserRow) → Statement ℕ
set_live id f d = (
  ok (count_where (live_user id) d.users),
  record d { users = update_where (live_user id) f d.users },
)

unfoldable pub set_user_password : String → String → ℕ → Statement ℕ
set_user_password id hashed_password updated_at =
    set_live id λ r. record r { hashed_password = some hashed_password; updated_at = updated_at }

unfoldable pub soft_delete_user : String → ℕ → Statement ℕ
soft_delete_user id now = set_live id λ r. record r { deleted_at = some now; updated_at = now }

module _ {W : Type 0} (driver : Driver W) where
  unfoldable pub create_user : UserRow → Statement (Unit {0})
  create_user row d =
      if any (id_is row.id) d.users
      then (err (failed (driver.unique_failed "users.id")), d)
      else if any (email_is row.email) d.users
      then (err (failed (driver.unique_failed "users.email")), d)
      else (ok tt, record d { users = row ∷ d.users })

  -- The row's `created_at` and `deleted_at` stay.
  unfoldable pub update_user : UserRow → Statement ℕ
  update_user row d =
      if any (live_user row.id) d.users && any (held_by_other row.email row.id) d.users
      then (err (failed (driver.unique_failed "users.email")), d)
      else set_live row.id
          (λ r. record r {
            email = row.email;
            hashed_password = row.hashed_password;
            hash = row.hash;
            last_login_at = row.last_login_at;
            updated_at = row.updated_at;
          })
          d

  unfoldable pub list_users : ℕ → Option ℕ → Statement (List UserRow)
  list_users page_offset page_size d =
      let live = keep (λ r. is_null r.deleted_at) d.users in
      let rows = driver.arrange_users (λ r s. ltb s.created_at r.created_at) live in
      (ok (page page_size page_offset rows), d)

  unfoldable pub create_external_identity : IdentityRow → Statement (Unit {0})
  create_external_identity row d =
      if any (λ r. r.id == row.id) d.identities
      then (err (failed (driver.unique_failed "external_identities.id")), d)
      else if any
          (λ r. (r.provider == row.provider) && (r.provider_user_id == row.provider_user_id))
          d.identities
      then (err (failed (driver.unique_failed "external_identities.provider")), d)
      else if not (any (id_is row.user_id) d.users)
      then (err (failed driver.foreign_key_failed), d)
      else (ok tt, record d { identities = row ∷ d.identities })

  unfoldable pub list_external_identities_by_user_id : String → Statement (List IdentityRow)
  list_external_identities_by_user_id user_id d =
      let rows = keep (λ r. (r.user_id == user_id) && is_null r.deleted_at) d.identities in
      (ok (driver.arrange_identities (λ r s. ltb r.created_at s.created_at) rows), d)

unfoldable pub get_external_identity_by_provider_id : String → String → Statement IdentityRow
get_external_identity_by_provider_id provider provider_user_id d = (
  row_or_none (
      first
        (λ r.
          (r.provider == provider)
          && (r.provider_user_id == provider_user_id)
          && is_null r.deleted_at)
        d.identities),
  d,
)
