-- ===== src/Sqlite/Users/Directory.antt =====
-- What the store of users promises: a directory of live users by id, and how a call changes it.
use identra.Common.{
  ℕ, List, [], ◌∷◌, keep, take, drop, length, eqb, String, ◌==◌, ◌≡◌, ◌≢◌, Option, none, some,
  if◌then◌else◌,
}
use identra.Common.Exec.{Result, ok, err, Action}
use identra.Service.{Fault, missing, exists, other, UserModel, UserStore}

-- The live users, by id.
abbrev pub Directory : Type 0
Directory = String → Option UserModel

abbrev pub Same : Directory → Directory → Type 0
Same before after = (k : String) → after k ≡ before k

-- The directory with another entry for the id.
abbrev pub Set : String → Option UserModel → Directory → Directory → Type 0
Set id user before after = (k : String) → after k ≡ (if id == k then user else before k)

-- A call of the store, and its answer.
pub data Request : Type 0 where
  create_user update_user : UserModel → Request
  find_id find_email delete_user : String → Request
  set_user_password : String → String → Request
  list_page : ℕ → ℕ → Request
  count_all : Request

pub data Reply : Type 0 where
  found : UserModel → Reply
  done : Reply
  listed : List UserModel → Reply
  total : ℕ → Reply

abbrev pub reply_user : Result Fault UserModel → Result Fault Reply
reply_user (ok user) = ok (found user)
reply_user (err e) = err e

abbrev pub reply_done : Result Fault (Unit {0}) → Result Fault Reply
reply_done (ok u) = ok done
reply_done (err e) = err e

abbrev pub reply_listed : Result Fault (List UserModel) → Result Fault Reply
reply_listed (ok users) = ok (listed users)
reply_listed (err e) = err e

abbrev pub reply_total : Result Fault ℕ → Result Fault Reply
reply_total (ok n) = ok (total n)
reply_total (err e) = err e

unfoldable pub serve : {W : Type 0} → UserStore W → Request → Action W (Result Fault Reply)
serve s (create_user user) w = let (r, v) = s.create user w in (reply_user r, v)
serve s (update_user user) w = let (r, v) = s.update user w in (reply_user r, v)
serve s (find_id id) w = let (r, v) = s.get_by_id id w in (reply_user r, v)
serve s (find_email email) w = let (r, v) = s.get_by_email email w in (reply_user r, v)
serve s (delete_user id) w = let (r, v) = s.delete id w in (reply_done r, v)
serve s (set_user_password id hash) w = let (r, v) = s.set_password id hash w in (reply_done r, v)
serve s (list_page offset limit) w = let (r, v) = s.list offset limit w in (reply_listed r, v)
serve s count_all w = let (r, v) = s.count w in (reply_total r, v)

-- The user that is stored is the given one but for its id and its times, and its id was free.
pub record Created (before after : Directory) (given user : UserModel) : Type 0 where
  pub fresh : before user.id ≡ none
  pub kept :
      user
      ≡ record given { id = user.id; created_at = user.created_at; updated_at = user.updated_at }
  pub stored : Set user.id (some user) before after

-- The user with the id takes the given fields and the new time, and keeps the time of its creation.
pub record Updated (before after : Directory) (given user : UserModel) : Type 0 where
  pub old : UserModel
  pub was : before given.id ≡ some old
  pub kept : user ≡ record given { updated_at = user.updated_at }
  pub stored : Set given.id (some (record user { created_at = old.created_at })) before after

pub record PasswordSet (before after : Directory) (id hash : String) : Type 0 where
  pub old : UserModel
  pub at : ℕ
  pub was : before id ≡ some old
  pub stored :
      Set id (some (record old { hashed_password = some hash; updated_at = at })) before after

-- Whom a call that finds no user is about.
pub data Target : Type 0 where
  nobody : Target
  at_id at_email : String → Target

abbrev pub target : Request → Target
target (create_user user) = nobody
target (update_user user) = at_id user.id
target (find_id id) = at_id id
target (find_email email) = at_email email
target (delete_user id) = at_id id
target (set_user_password id hash) = at_id id
target (list_page offset limit) = nobody
target count_all = nobody

abbrev pub AbsentAt : Directory → Target → Type 0
AbsentAt before nobody = Unit
AbsentAt before (at_id id) = before id ≡ none
AbsentAt before (at_email email) =
    (k : String) (user : UserModel) → before k ≡ some user → user.email ≢ email

-- A list of all the users of the directory, each once: those of an id are what the directory has there.
abbrev pub entry : Option UserModel → List UserModel
entry none = []
entry (some user) = user ∷ []

abbrev pub IsListing : Directory → List UserModel → Type 0
IsListing before all = (k : String) → keep (λ u. u.id == k) all ≡ entry (before k)

-- The users from the offset on, at most as many as the limit, where 0 is no limit.
abbrev pub cut : ℕ → ℕ → List UserModel → List UserModel
cut offset limit all = if eqb limit 0 then drop offset all else take limit (drop offset all)

-- A user that is not found is not in the directory.
abbrev pub Denied : Directory → Request → Fault → Type 0
Denied before r missing = AbsentAt before (target r)
Denied before r exists = Unit
Denied before r other = Unit

abbrev pub Granted : Directory → Directory → Request → Reply → Type 0
Granted before after (create_user given) (found user) = Created before after given user
Granted before after (update_user given) (found user) = Updated before after given user
Granted before after (find_id id) (found user) = (before id ≡ some user) × Same before after
Granted before after (find_email email) (found user) =
    (before user.id ≡ some user) × (user.email ≡ email) × Same before after
Granted before after (delete_user id) done = (before id ≢ none) × Set id none before after
Granted before after (set_user_password id hash) done = PasswordSet before after id hash
Granted before after (list_page offset limit) (listed users) =
    ((all : List UserModel) × IsListing before all × (users ≡ cut offset limit all))
    × Same before after
Granted before after count_all (total n) =
    ((all : List UserModel) × IsListing before all × (n ≡ length all)) × Same before after
Granted before after _ _ = ⊥

-- What a call may answer, and what it does to the directory: an error leaves it as it was.
abbrev pub Meets : Request → Result Fault Reply → Directory → Directory → Type 0
Meets r (ok reply) before after = Granted before after r reply
Meets r (err e) before after = Denied before r e × Same before after
