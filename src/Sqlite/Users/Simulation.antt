-- ===== src/Sqlite/Users/Simulation.antt =====
-- A query of the store of users, as a step between directories.
use identra.Common.{String, ◌≡◌, refl, sym, ◌∙◌, ap, none, List, arith, inl, inr, Bool-cases}
use identra.Common.Exec.{Exec, Result, ok, err, ◌>>=◌}
use identra.Security.Tokens.{Runtime}
use identra.Service.{Fault, missing, exists, other}
use identra.Sqlite.{
  UserRow, Database, Statement, wrapped, SqlError, failed, Driver, DriverLaws, first, update_where,
  wrap_error, is_unique_constraint_error,
}
use identra.Sqlite.Rows.{update-absent}
use identra.Sqlite.Calls.{asked-elim}
use identra.Sqlite.Queries.{live_user}
use identra.Sqlite.Users.Directory.{Directory, Request, Reply, Denied, target, at_id, nobody, Meets}
use identra.Sqlite.Users.Table.{directory, IsUsers}

module _ {W : Type 0} (driver : Driver W) where
  abbrev pub users_of : W → List UserRow
  users_of w = (driver.database w).users

  -- A step of the store from `w` to `v`.
  abbrev pub Simulates : Request → Result Fault Reply → W → W → Type 0
  Simulates q a w v =
      Meets q a (directory (users_of w)) (directory (users_of v)) × IsUsers (users_of v)

module _ {W : Type 0} (driver : Driver W) (runtime : Runtime W)
    (laws : DriverLaws driver runtime) where
  pub unmoved :
      (q : Request) (e : Fault) {w v : W}
      → users_of driver v ≡ users_of driver w
      → Denied (directory (users_of driver w)) q e
      → IsUsers (users_of driver w)
      → Simulates driver q (err e) w v
  unmoved q e same denied h = rw same ((denied, λ k. refl), h)

  pub failed-Denied :
      (before : Directory) (q : Request) (text : String)
      → Denied before q (wrap_error driver (failed text))
  unfolding wrap_error
  failed-Denied before q text = elim (Bool-cases (is_unique_constraint_error driver text)) [
    | inl unique ↦ rw unique tt
    | inr not_unique ↦ rw not_unique tt
  ]

  -- A query of the store: its errors leave the directory, and what follows it is left to show.
  pub wrapped-Simulates :
      {A B : Type 0} (q : Request) (reply : Result Fault B → Result Fault Reply) (s : Statement A)
      (k : A → Exec W Fault B) (w w0 : W) {r : Result Fault B} {v : W}
      → IsUsers (users_of driver w)
      → driver.database w0 ≡ driver.database w
      → ((e : Fault) → reply (err e) ≡ err e)
      → ((x : SqlError)
          → (s (driver.database w)).0 ≡ err x
          → ((s (driver.database w)).1.users ≡ users_of driver w)
            × Denied (directory (users_of driver w)) q (wrap_error driver x))
      → ((a : A) (v1 : W)
          → (s (driver.database w)).0 ≡ ok a
          → driver.database v1 ≡ (s (driver.database w)).1
          → k a v1 ≡ (r, v)
          → Simulates driver q (reply r) w v)
      → (wrapped driver s >>= k) w0 ≡ (r, v)
      → Simulates driver q (reply r) w v
  wrapped-Simulates q reply s k w w0 wf before errors refused answered h =
      asked-elim driver runtime laws (wrap_error driver) s k w0 h
        (λ t e same.
          rw (e, errors (wrap_error driver (failed t)))
            (unmoved q _ (ap (λ (d : Database). d.users) (same ∙ before))
              (failed-Denied (directory (users_of driver w)) q t) wf))
        (λ x lost e same.
          let (kept, denied) = refused x (rw before at lost) in
          rw (e, errors (wrap_error driver x))
            (unmoved q _ (ap (λ (d : Database). d.users) same ∙ rw before kept) denied wf))
        (λ a v1 got same last. answered a v1 (rw before at got) (rw before at same) last)

  pub landed :
      {B : Type 0} (q : Request) (reply : Result Fault B → Result Fault Reply) (w : W)
      {a r : Result Fault B} {v1 v : W}
      → ◌≡◌ {A = Result Fault B × W} (a, v1) (r, v)
      → Simulates driver q (reply a) w v1
      → Simulates driver q (reply r) w v
  landed q reply w {a = a} {r = r} {v1 = v1} {v = v} last h =
      let answer : a ≡ r = ground arith in
      let state : v1 ≡ v = ground arith in rw (sym answer, sym state) h

  -- A change of a user that is not there answers so, and changes no row.
  pub absent-Simulates :
      (q : Request) (id : String) (f : UserRow → UserRow) (w : W) {v : W}
      → target q ≡ at_id id
      → IsUsers (users_of driver w)
      → first (live_user id) (users_of driver w) ≡ none
      → users_of driver v ≡ update_where (live_user id) f (users_of driver w)
      → Simulates driver q (err missing) w v
  unfolding directory
  absent-Simulates q id f w about wf gone changed =
      unmoved q missing (changed ∙ update-absent (live_user id) f (users_of driver w) gone)
        (rw (about, gone) refl) wf

  pub no_target-Denied :
      (before : Directory) (q : Request) (e : Fault) → target q ≡ nobody → Denied before q e
  no_target-Denied before q missing h = rw h tt
  no_target-Denied before q exists h = tt
  no_target-Denied before q other h = tt
