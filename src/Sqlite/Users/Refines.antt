-- ===== src/Sqlite/Users/Refines.antt =====
-- The store of users keeps the directory that it promises.
use identra.Common.{
  ℕ, String, ◌≡◌, ◌≢◌, refl, sym, ◌∙◌, ap, none, some, List, map, ltb, Option-cases, inl, inr,
  arith, eq_iff,
}
use identra.Common.Exec.{Result, ok, err, Exec, ◌>>=◌, pure, Result-cases}
use identra.Sqlite.Calls.{asked-elim}
use identra.Security.Tokens.{Runtime}
use identra.Service.{Fault, missing, exists, other, UserModel}
use identra.Sqlite.{UserRow, Database, Driver, DriverLaws, Statement, wrap_error, unwrapped, first}
use identra.Sqlite.Queries.{
  get_user_by_id, get_user_by_email, list_users, count_users, live_user, live_email,
}
use identra.Sqlite.Users.Listing.{
  ArrangesUsers, live_rows, live-IsListing, count-live, arranged-IsListing, page-map,
}
use identra.Sqlite.Users.{
  user_to_domain, page_limit, user_store, get_by_id, get_by_email, list, count,
}
use identra.Sqlite.Users.Directory.{
  Request, create_user, update_user, find_id, find_email, delete_user, set_user_password, list_page,
  count_all, Reply, reply_user, reply_listed, reply_total, serve, Denied, Meets,
}
use identra.Sqlite.Users.Statements.{get_user_by_id-answer, get_user_by_email-answer}
use identra.Sqlite.Users.Table.{directory, IsUsers, email_row, no_address}
use identra.Sqlite.Users.Simulation.{users_of, Simulates, wrapped-Simulates, landed, unmoved}
use identra.Sqlite.Users.Writes.{
  create-Simulates, update-Simulates, delete-Simulates, set_password-Simulates,
}

unknown_address :
    (email : String) (users : List UserRow)
    → first (live_email email) users ≡ none
    → (k : String) (user : UserModel) → directory users k ≡ some user
    → user.email ≢ email
unfolding directory user_to_domain
unknown_address email users none_there k user at same =
    elim (Option-cases (first (live_user k) users)) [
      | inl gone ↦ let at1 = rw gone at at in absurd (ground arith)
      | inr (r, there) ↦
          let differs = no_address email k users {r = r} none_there there in
          let at1 = rw there at at in
          let is : r.email ≡ user.email = ground arith in
          absurd (ground (arith, eq_iff r.email email, is ∙ same))
    ]

ok_rows : {E A : Type 0} {a b : A} → ◌≡◌ {A = Result E A} (ok a) (ok b) → a ≡ b
ok_rows h = ground arith

module _ {W : Type 0} (driver : Driver W) (runtime : Runtime W)
    (laws : DriverLaws driver runtime) where
  get_by_id-Simulates :
      (id : String) (w : W) {r : Result Fault UserModel} {v : W}
      → IsUsers (users_of driver w)
      → get_by_id driver runtime id w ≡ (r, v)
      → Simulates driver (find_id id) (reply_user r) w v
  unfolding get_by_id ◌>>=◌ directory
  get_by_id-Simulates id w wf h =
      let (found, lost) = get_user_by_id-answer id (driver.database w) in
      wrapped-Simulates driver runtime laws (find_id id) reply_user (get_user_by_id id)
        (λ user. pure (user_to_domain user)) w w wf refl (λ e. refl)
        (λ x refused. (
          unfold get_user_by_id in refl,
          elim (wrap_error driver x)
              as (λ e. Denied (directory (users_of driver w)) (find_id id) e) [
                | missing ↦ rw (lost x refused) refl
                | exists ↦ tt
                | other ↦ tt
              ],
        ))
        (λ user v1 got same last.
          let users : users_of driver v1 ≡ users_of driver w =
            ap (λ (d : Database). d.users) same ∙ unfold get_user_by_id in refl in
          landed driver runtime laws (find_id id) reply_user w last
            (rw users ((rw (found user got) refl, λ k. refl), wf)))
        h

  pub get_by_email-Simulates :
      (email : String) (w : W) {r : Result Fault UserModel} {v : W}
      → IsUsers (users_of driver w)
      → get_by_email driver runtime email w ≡ (r, v)
      → Simulates driver (find_email email) (reply_user r) w v
  unfolding get_by_email ◌>>=◌ directory user_to_domain
  get_by_email-Simulates email w wf h =
      wrapped-Simulates driver runtime laws (find_email email) reply_user (get_user_by_email email)
        (λ user. pure (user_to_domain user)) w w wf refl (λ e. refl)
        (λ x refused. (
          unfold get_user_by_email in refl,
          elim (wrap_error driver x)
              as (λ e. Denied (directory (users_of driver w)) (find_email email) e) [
                | missing ↦
                    unknown_address email (users_of driver w)
                      ((get_user_by_email-answer email (driver.database w)).1 x refused)
                | exists ↦ tt
                | other ↦ tt
              ],
        ))
        (λ user v1 got same last.
          let users : users_of driver v1 ≡ users_of driver w =
            ap (λ (d : Database). d.users) same ∙ unfold get_user_by_email in refl in
          let (at, of) =
            email_row email (users_of driver w) wf.0
              ((get_user_by_email-answer email (driver.database w)).0 user got) in
          landed driver runtime laws (find_email email) reply_user w last
            (rw users ((rw at refl, of, λ k. refl), wf)))
        h

  -- A query that changes nothing, whose errors are passed on.
  read-Simulates :
      {A B : Type 0} (q : Request) (reply : Result Fault B → Result Fault Reply) (s : Statement A)
      (f : A → B) (w : W) {r : Result Fault B} {v : W}
      → IsUsers (users_of driver w)
      → ((e : Fault) → reply (err e) ≡ err e)
      → (s (driver.database w)).1 ≡ driver.database w
      → ((a : A)
          → (s (driver.database w)).0 ≡ ok a
          → Meets q
              (reply (ok (f a)))
              (directory (users_of driver w))
              (directory (users_of driver w)))
      → (unwrapped driver s >>= (λ a. pure (f a))) w ≡ (r, v)
      → Simulates driver q (reply r) w v
  read-Simulates q reply s f w wf errors same answered h =
      asked-elim driver runtime laws (λ e. other) s (λ a. pure (f a)) w h
        (λ t e at.
          rw (e, errors other)
            (unmoved driver runtime laws q other (ap (λ (d : Database). d.users) at) tt wf))
        (λ x lost e at.
          rw (e, errors other)
            (unmoved driver runtime laws q other (ap (λ (d : Database). d.users) (at ∙ same)) tt
              wf))
        (λ a v1 got at last.
          let users : users_of driver v1 ≡ users_of driver w =
            ap (λ (d : Database). d.users) (at ∙ same) in
          landed driver runtime laws q reply w last (rw users ((answered a got, wf))))

  list-Simulates :
      (arranges : ArrangesUsers driver) (offset limit : ℕ) (w : W)
      {r : Result Fault (List UserModel)} {v : W}
      → IsUsers (users_of driver w)
      → list driver runtime offset limit w ≡ (r, v)
      → Simulates driver (list_page offset limit) (reply_listed r) w v
  unfolding list
  list-Simulates arranges offset limit w wf h =
      read-Simulates (list_page offset limit) reply_listed
        (list_users driver offset (page_limit limit)) (map user_to_domain) w wf (λ e. refl)
        (unfold list_users in refl)
        (λ rows got.
          unfold list_users in
          (
            (
              map user_to_domain (
                  driver.arrange_users (λ r s. ltb s.created_at r.created_at)
                    (live_rows (users_of driver w))),
              arranged-IsListing driver arranges (λ r s. ltb s.created_at r.created_at)
                  (users_of driver w) wf.0,
              ap (map user_to_domain) (sym (ok_rows got)) ∙ page-map offset limit _,
            ),
            λ k. refl,
          ))
        h

  count-Simulates :
      (w : W) {r : Result Fault ℕ} {v : W}
      → IsUsers (users_of driver w)
      → (unwrapped driver count_users >>= pure) w ≡ (r, v)
      → Simulates driver count_all (reply_total r) w v
  count-Simulates w wf h =
      read-Simulates count_all reply_total count_users (λ n. n) w wf (λ e. refl)
        (unfold count_users in refl)
        (λ n got.
          unfold count_users in
          (
            (
              map user_to_domain (live_rows (users_of driver w)),
              live-IsListing (users_of driver w) wf.0,
              sym (ok_rows got) ∙ count-live (users_of driver w),
            ),
            λ k. refl,
          ))
        h

  bind_pure : {A : Type 0} (m : Exec W Fault A) (w : W) → (m >>= pure) w ≡ m w
  unfolding ◌>>=◌
  bind_pure m w = elim (Result-cases (m w).0) [
    | inl (a, is) ↦ ground arith
    | inr (e, is) ↦ ground arith
  ]

  -- Over a driver that keeps what it is told and whose ORDER BY loses and invents no row, on a table whose ids and addresses are all different: every call of
  -- the store of users, whatever it answers, changes the directory of live users as the specification
  -- says, where an error changes nothing; a user that is answered as missing, by id or by e-mail,
  -- is not in it; a page is a part of one list of all its users, each once, and the count is that list's length; and the
  -- ids and addresses of the table stay all different.
  pub user_store-Refines :
      (arranges : ArrangesUsers driver) (q : Request) (w : W)
      → IsUsers (users_of driver w)
      → Meets q
          (serve (user_store driver runtime) q w).0
          (directory (users_of driver w))
          (directory (users_of driver (serve (user_store driver runtime) q w).1))
        × IsUsers (users_of driver (serve (user_store driver runtime) q w).1)
  unfolding serve user_store
  user_store-Refines arranges (create_user user) w h =
      create-Simulates driver runtime laws user w h refl
  user_store-Refines arranges (update_user user) w h =
      update-Simulates driver runtime laws user w h refl
  user_store-Refines arranges (find_id id) w h = get_by_id-Simulates id w h refl
  user_store-Refines arranges (find_email email) w h = get_by_email-Simulates email w h refl
  user_store-Refines arranges (delete_user id) w h =
      delete-Simulates driver runtime laws id w h refl
  user_store-Refines arranges (set_user_password id hash) w h =
      set_password-Simulates driver runtime laws id hash w h refl
  user_store-Refines arranges (list_page offset limit) w h =
      list-Simulates arranges offset limit w h refl
  user_store-Refines arranges count_all w h =
      unfold count in count-Simulates w h (bind_pure (unwrapped driver count_users) w)
