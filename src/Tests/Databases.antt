-- ===== src/Tests/Databases.antt =====
-- The stores over a small database, and over a small Redis.
use identra.Common.{◌≡◌, refl, ◌≢◌, true, false, none, some, [], ◌∷◌}
use identra.Common.Exec.{ok, ◌>>=◌}
use identra.Security.Tokens.{Runtime}
use identra.ServiceAccount.{Account, BootstrapRecord}
use identra.Service.{UserModel}
use identra.Sqlite.{
  Database, Driver, DriverLaws, UserRow, asked, first, update_where, count_where, AccountRow,
  CredentialRow,
}
use identra.Sqlite.Queries.{soft_delete_user}
use identra.Sqlite.Users.{user_store, delete, create, get_by_email, user_to_domain}
use identra.Sqlite.Users.Deleted.{deleted_address_is_lost}
use identra.Sqlite.Users.Directory.{create_user, serve, Meets}
use identra.Sqlite.Users.Table.{directory, IsUsers}
use identra.Sqlite.Users.Listing.{ArrangesUsers}
use identra.Sqlite.Users.Refines.{user_store-Refines}
use identra.Sqlite.Accounts.{
  Json, transaction, replace_credential, find_service_account_by_name, install, install_once,
  insert_service_account, scanned, get_by_id, authenticate, disable, rotate_credential, bootstrap,
}
use identra.Sqlite.Accounts.Statements.{
  disable_account, account_by_id, account_with_secret, enabled_account, revoke_credentials,
  insert_credential, account_by_name, state_value, insert_account, set_state, insert_event,
}
use identra.Sqlite.Accounts.Calls.{get_call, disable_call, after_calls}
use identra.Sqlite.Accounts.Disabled.{disabled_account_stays_out}
use identra.Sqlite.Accounts.Rotated.{rotated_secret_is_dead}
use identra.Sqlite.Accounts.Bootstrapped.{bootstrap_happens_once}

abbrev driver : Driver Database
driver = record {
  database = λ d. d;
  put = λ d w. d;
  connection = λ d. (none, d);
  unique_failed = λ columns. "UNIQUE constraint failed";
  foreign_key_failed = "FOREIGN KEY constraint failed";
  arrange_users = λ before rows. rows;
  arrange_identities = λ before rows. rows;
  arrange_accounts = λ before rows. rows;
  arrange_events = λ before rows. rows;
  lower_rune = λ c. c;
}

abbrev runtime : Runtime Database
runtime = record {
  now = λ d. (10, d);
  random_hex = λ n d. (some "hex", d);
  random_below = λ n d. (some 7, d);
  new_uuid = λ d. ("uuid", d);
}

abbrev laws : DriverLaws driver runtime
laws = record {
  put_read = λ d w. refl;
  connection_keeps = λ w. refl;
  clock_keeps = λ w. refl;
  uuid_keeps = λ w. refl;
}

abbrev arranges : ArrangesUsers driver
arranges = record { no_more = λ before rows r h. h; no_fewer = λ before rows p. refl }

abbrev json : Json
json = record {
  encode_scopes = λ scopes. some "scopes";
  decode_scopes = λ text. some ("admin" ∷ []);
  encode_metadata = λ m. some "{}";
  decode_metadata = λ text. some [];
}

abbrev user_row : UserRow
user_row = record {
  id = "u1";
  created_at = 1;
  updated_at = 1;
  deleted_at = none;
  email = "ann@x";
  hashed_password = some "hash";
  hash = none;
  last_login_at = none;
}

abbrev account_row : AccountRow
account_row = record {
  id = "a1";
  name = "ops";
  scopes = "scopes";
  created_at = 1;
  updated_at = 1;
  disabled_at = none;
}

abbrev credential_row : CredentialRow
credential_row = record {
  id = "c1";
  service_account_id = "a1";
  secret_hash = "sha:old";
  created_at = 1;
  expires_at = none;
  revoked_at = none;
}

abbrev database : Database
database = record {
  users = user_row ∷ [];
  identities = [];
  accounts = account_row ∷ [];
  credentials = credential_row ∷ [];
  system_state = [];
  audit_events = [];
}

abbrev new_user : UserModel
new_user = record {
  id = "";
  created_at = 0;
  updated_at = 0;
  email = "bob@x";
  hashed_password = none;
  verification_hash = none;
  last_login_at = none;
}

user_store-Refines_example :
    Meets
      (create_user new_user)
      (serve (user_store driver runtime) (create_user new_user) database).0
      (directory (user_row ∷ []))
      (directory (serve (user_store driver runtime) (create_user new_user) database).1.users)
    × IsUsers (serve (user_store driver runtime) (create_user new_user) database).1.users
user_store-Refines_example =
    user_store-Refines driver runtime laws arranges (create_user new_user) database
      ((refl, tt), (refl, tt))

abbrev account_one : Account
account_one = record {
  id = "a1";
  name = "ops";
  scopes = "admin" ∷ [];
  created_at = 1;
  disabled_at = some 20;
}

abbrev account_open : Account
account_open = record account_one { disabled_at = none }

disabled_once :
    disable driver runtime json "a1" 20 database
    ≡ (ok account_one, (disable driver runtime json "a1" 20 database).1)
unfolding disable ◌>>=◌ asked disable_account count_where get_by_id account_by_id first update_where
    scanned
disabled_once = refl

disabled_account_stays_out_example :
    authenticate driver runtime json "a1" "sha:old" 30 (
      after_calls driver runtime json
        (get_call "a1" ∷ [])
        (disable driver runtime json "a1" 20 database).1)
    ≢ (ok account_one, database)
disabled_account_stays_out_example =
    disabled_account_stays_out driver runtime laws json "a1" "sha:old" 20 30 (get_call "a1" ∷ [])
      database (disable driver runtime json "a1" 20 database).1 database disabled_once

abbrev rotated : Database
rotated = (rotate_credential driver runtime json "a1" "c2" "sha:new" 20 database).1

opened_once :
    authenticate driver runtime json "a1" "sha:old" 15 database ≡ (ok account_open, database)
unfolding authenticate ◌>>=◌ asked account_with_secret first scanned
opened_once = refl

rotated_once :
    rotate_credential driver runtime json "a1" "c2" "sha:new" 20 database ≡ (ok tt, rotated)
unfolding rotate_credential transaction replace_credential ◌>>=◌ asked enabled_account first
    revoke_credentials insert_credential update_where
rotated_once = refl

rotated_secret_is_dead_example :
    authenticate driver runtime json "a1" "sha:old" 30
      (after_calls driver runtime json (get_call "a1" ∷ []) rotated)
    ≢ (ok account_open, rotated)
rotated_secret_is_dead_example =
    rotated_secret_is_dead driver runtime laws json "a1" "sha:old" "c2" "sha:new" 20 15 30 []
      (get_call "a1" ∷ []) database database rotated rotated opened_once
      (unfold after_calls in rotated_once)

abbrev first_record : BootstrapRecord
first_record = record {
  account = record account_open { id = "a2"; name = "root" };
  credential_id = "c3";
  secret_hash = "sha:root";
}

abbrev bootstrapped : Database
bootstrapped = (bootstrap driver runtime json first_record false false database).1

bootstrapped_once :
    bootstrap driver runtime json first_record false false database
    ≡ (ok (first_record.account, true), bootstrapped)
unfolding bootstrap transaction ◌>>=◌ find_service_account_by_name asked account_by_name first
    install_once state_value install insert_service_account insert_account insert_credential
    set_state insert_event
bootstrapped_once = refl

bootstrap_happens_once_example :
    bootstrap driver runtime json
      (record first_record { secret_hash = "sha:other" })
      true
      false
      (after_calls driver runtime json (disable_call "a2" 30 ∷ []) bootstrapped)
    ≢ (ok (first_record.account, true), bootstrapped)
bootstrap_happens_once_example =
    bootstrap_happens_once driver runtime laws json first_record
      (record first_record { secret_hash = "sha:other" }) false false true
      (disable_call "a2" 30 ∷ []) database bootstrapped bootstrapped bootstrapped_once

abbrev ann : UserModel
ann = record {
  id = "u1";
  created_at = 1;
  updated_at = 1;
  email = "ann@x";
  hashed_password = some "hash";
  verification_hash = none;
  last_login_at = none;
}

abbrev without_ann : Database
without_ann = (delete driver runtime "u1" database).1

ann_deleted : delete driver runtime "u1" database ≡ (ok tt, without_ann)
unfolding delete ◌>>=◌ asked soft_delete_user count_where update_where
ann_deleted = refl

ann_there : directory (user_row ∷ []) "u1" ≡ some ann
unfolding directory first user_to_domain
ann_there = refl

deleted_address_is_lost_example :
    (get_by_email driver runtime "ann@x" without_ann ≢ (ok ann, database))
    × (create driver runtime (record new_user { email = "ann@x" }) without_ann ≢ (ok ann, database))
deleted_address_is_lost_example =
    deleted_address_is_lost driver runtime laws "u1" ann (record new_user { email = "ann@x" }) ann
      ann database without_ann without_ann database database ((refl, tt), (refl, tt)) ann_there
      ann_deleted refl refl
