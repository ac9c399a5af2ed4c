-- ===== src/Sqlite/Users.antt =====
-- internal/store/sqlite/store.go: the store of users.
pub mod Directory
pub mod Table
pub mod Listing
pub mod Statements
pub mod Simulation
pub mod Writes
pub mod Refines
pub mod Deleted
use identra.Common.{ℕ, String, Option, none, some, List, map, eqb, if◌then◌else◌}
use identra.Common.Exec.{Exec, pure, run, ◌>>=◌, ◌>>◌, refuse_if}
use identra.Security.Tokens.{Runtime}
use identra.Service.{Fault, missing, UserModel, UserStore}
use identra.Sqlite.{UserRow, Driver, wrapped, unwrapped, id_or_new}
use identra.Sqlite.Queries.{
  count_users, get_user_by_id, get_user_by_email, set_user_password, soft_delete_user, create_user,
  update_user, list_users,
}

unfoldable pub user_to_domain : UserRow → UserModel
user_to_domain user = record {
  id = user.id;
  created_at = user.created_at;
  updated_at = user.updated_at;
  email = user.email;
  hashed_password = user.hashed_password;
  verification_hash = user.hash;
  last_login_at = user.last_login_at;
}

-- The zero time is 0.
abbrev pub time_or : ℕ → ℕ → ℕ
time_or created_at now = if eqb created_at 0 then now else created_at

-- A limit that is not positive is no limit.
abbrev pub page_limit : ℕ → Option ℕ
page_limit limit = if eqb limit 0 then none else some limit

module _ {W : Type 0} (driver : Driver W) (runtime : Runtime W) where
  unfoldable pub create : UserModel → Exec W Fault UserModel
  unfolding id_or_new
  create user = do
    now ← run runtime.now
    id ← run (id_or_new runtime user.id)
    wrapped driver (
        create_user driver (record {
          id = id;
          created_at = time_or user.created_at now;
          updated_at = now;
          deleted_at = none;
          email = user.email;
          hashed_password = user.hashed_password;
          hash = user.verification_hash;
          last_login_at = user.last_login_at;
        }))
    pure (record user { id = id; created_at = time_or user.created_at now; updated_at = now })

  unfoldable pub get_by_id : String → Exec W Fault UserModel
  get_by_id id = do user ← wrapped driver (get_user_by_id id); pure (user_to_domain user)

  unfoldable pub get_by_email : String → Exec W Fault UserModel
  get_by_email email = do
    user ← wrapped driver (get_user_by_email email)
    pure (user_to_domain user)

  unfoldable pub update : UserModel → Exec W Fault UserModel
  update user = do
    updated_at ← run runtime.now
    rows ← wrapped driver (
        update_user driver (record {
          id = user.id;
          created_at = user.created_at;
          updated_at = updated_at;
          deleted_at = none;
          email = user.email;
          hashed_password = user.hashed_password;
          hash = user.verification_hash;
          last_login_at = user.last_login_at;
        }))
    refuse_if (eqb rows 0) missing
    pure (record user { updated_at = updated_at })

  unfoldable pub delete : String → Exec W Fault (Unit {0})
  delete id = do
    now ← run runtime.now
    rows ← wrapped driver (soft_delete_user id now)
    refuse_if (eqb rows 0) missing

  unfoldable pub set_password : String → String → Exec W Fault (Unit {0})
  set_password id hashed_password = do
    now ← run runtime.now
    rows ← wrapped driver (set_user_password id hashed_password now)
    refuse_if (eqb rows 0) missing

  unfoldable pub list : ℕ → ℕ → Exec W Fault (List UserModel)
  list offset limit = do
    users ← unwrapped driver (list_users driver offset (page_limit limit))
    pure (map user_to_domain users)

  unfoldable pub count : Exec W Fault ℕ
  count = unwrapped driver count_users

  -- NewStores
  unfoldable pub user_store : UserStore W
  user_store = record {
    create = create;
    get_by_id = get_by_id;
    get_by_email = get_by_email;
    update = update;
    set_password = set_password;
    delete = delete;
    list = list;
    count = count;
  }
