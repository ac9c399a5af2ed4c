-- ===== src/Sqlite/Accounts/Bootstrapped.antt =====
-- The bootstrap of the first service account happens once.
use identra.Common.{
  String, ◌≡◌, ◌≢◌, ◌⊎◌, refl, sym, Bool, true, false, Option, none, some, List, [], ◌∷◌, any,
  arith, inl, inr, eq_iff, Option-cases,
}
use identra.Common.Exec.{ok, bind-elim, refuse-elim}
use identra.Security.Tokens.{Runtime}
use identra.ServiceAccount.{Account, BootstrapRecord}
use identra.Sqlite.{StateRow, AuditRow, Database, Driver, DriverLaws, first, update_where}
use identra.Sqlite.Rows.{first-none}
use identra.Sqlite.Calls.{asked-eq-ok}
use identra.Sqlite.Accounts.Statements.{
  key_is, disable_account, insert_account, insert_credential, insert_event, set_state, state_value,
  revoke_credentials,
}
use identra.Sqlite.Accounts.{
  Json, Outcome, committed, left, bootstrap, install, install_once, keep_or_install,
  find_service_account_by_name, bootstrap_completed_key,
}
use identra.Sqlite.Accounts.Keeps.{transaction-elim}
use identra.Sqlite.Accounts.Calls.{StatementsKeep, Call, after_calls, after_calls-Keeps, find-Keeps}

-- The row that says that the bootstrap is done is there.
abbrev pub IsMarked : Database → Type 0
IsMarked d = any (key_is bootstrap_completed_key) d.system_state ≡ true

same_key :
    (key : String) (row : StateRow) (rs : List StateRow)
    → any (key_is key) (update_where (key_is row.key) (λ r. row) rs) ≡ any (key_is key) rs
unfolding update_where
same_key key row [] = refl
same_key key row (r ∷ rs) =
    ground (arith, same_key key row rs, eq_iff r.key row.key, eq_iff r.key key, eq_iff row.key key)

set_state-IsMarked : (row : StateRow) (d : Database) → IsMarked d → IsMarked (set_state row d).1
unfolding set_state
set_state-IsMarked row d h = ground (arith, same_key bootstrap_completed_key row d.system_state)

mark-IsMarked :
    (row : StateRow) (d : Database)
    → row.key ≡ bootstrap_completed_key
    → IsMarked (set_state row d).1
unfolding set_state
mark-IsMarked row d h = ground (
  arith,
  same_key bootstrap_completed_key row d.system_state,
  eq_iff row.key bootstrap_completed_key,
)

statements-IsMarked : {W : Type 0} (driver : Driver W) → StatementsKeep driver IsMarked
unfolding insert_account insert_credential insert_event revoke_credentials disable_account
statements-IsMarked driver = record {
  accounts = λ r d h. ground arith;
  credentials = λ r d h. ground arith;
  events = λ r d h. ground arith;
  states = λ r d h. set_state-IsMarked r d h;
  revoked = λ other now d h. h;
  disabled = λ other now d h. h;
}

events-IsMarked :
    {W : Type 0} (driver : Driver W) (row : AuditRow) (d : Database)
    → IsMarked d
    → IsMarked (insert_event driver row d).1
events-IsMarked driver row d h = (statements-IsMarked driver).events row d h

module _ {W : Type 0} (driver : Driver W) (runtime : Runtime W) (laws : DriverLaws driver runtime)
    (json : Json) where
  install-IsMarked :
      (rec : BootstrapRecord) (w : W) {out : Outcome (Account × Bool)} {v : W}
      → install driver runtime json rec w ≡ (ok out, v)
      → (out ≡ committed (rec.account, true)) × IsMarked (driver.database v)
  unfolding install insert_event
  install-IsMarked rec w {out} {v} h = bind-elim _ _ w h λ _ v1 e1 h1.
      bind-elim _ _ v1 h1 λ _ v2 e2 h2. bind-elim _ _ v2 h2 λ _ v3 e3 h3.
        bind-elim _ _ v3 h3 λ _ v4 e4 h4. bind-elim _ _ v4 h4 λ _ v5 e5 h5.
          let (u, at2) = asked-eq-ok driver runtime laws _ (set_state _) v1 e2 in
          let (stored, at5) = asked-eq-ok driver runtime laws _ (insert_event driver _) v4 e5 in
          let last : v5 ≡ v = ground arith in
          let drawn : v4 ≡ (runtime.new_uuid v2).1 = ground arith in
          let same : driver.database v4 ≡ driver.database v2 = rw drawn (laws.uuid_keeps v2) in
          let marked : IsMarked (driver.database v2) =
            rw at2 (mark-IsMarked _ (driver.database v1) refl) in
          let still : IsMarked (driver.database v5) =
            rw at5 (events-IsMarked driver _ (driver.database v4) (rw same marked)) in
          (ground arith, rw (sym last) still)

  -- The search for the name leaves the mark.
  searched :
      (name : String) (w : W) {found : Option Account} {v : W}
      → find_service_account_by_name driver runtime json name w ≡ (ok found, v)
      → IsMarked (driver.database w)
      → IsMarked (driver.database v)
  searched name w {found} {v} h marked =
      let last : (find_service_account_by_name driver runtime json name w).1 ≡ v = ground arith in
      rw (sym last)
        (find-Keeps driver runtime laws json IsMarked (statements-IsMarked driver) name w marked)

  -- With the mark, an installation is refused.
  install_once-refused :
      (rec : BootstrapRecord) (w : W) {out : Outcome (Account × Bool)} {v : W}
      → IsMarked (driver.database w)
      → install_once driver runtime json rec false w ≢ (ok out, v)
  unfolding install_once state_value
  install_once-refused rec w marked h = bind-elim _ _ w h λ marker v1 e1 h1.
      refuse-elim _ _ _ v1 h1 λ unmarked h2.
        let (found, at) =
          asked-eq-ok driver runtime laws _ (state_value bootstrap_completed_key) w e1 in
        let none_there =
          first-none (key_is bootstrap_completed_key) (driver.database w).system_state in
        elim (Option-cases
          (first (key_is bootstrap_completed_key) (driver.database w).system_state)) [
            | inl gone ↦ absurd (ground arith)
            | inr (row, there) ↦
                let some_there : marker ≡ some row = ground arith in absurd (ground arith)
          ]

  install_once-eq-ok :
      (rec : BootstrapRecord) (force : Bool) (w : W) {out : Outcome (Account × Bool)} {v : W}
      → install_once driver runtime json rec force w ≡ (ok out, v)
      → (out ≡ committed (rec.account, true)) × IsMarked (driver.database v)
  unfolding install_once
  install_once-eq-ok rec force w h =
      bind-elim _ _ w h
        λ marker v1 e1 h1. refuse-elim _ _ _ v1 h1 λ unmarked h2. install-IsMarked rec v1 h2

  -- What follows the search for the name: where it creates an account, it has installed it.
  keep_or_install-eq-ok :
      (rec : BootstrapRecord) (if_not_exists force : Bool) (found : Option Account) (w : W)
      (a : Account) (out : Outcome (Account × Bool)) {v : W}
      → (out ≡ committed (a, true)) ⊎ (out ≡ left (a, true))
      → keep_or_install driver runtime json rec if_not_exists force found w ≡ (ok out, v)
      → (install_once driver runtime json rec force w ≡ (ok out, v))
        × (out ≡ committed (rec.account, true))
        × IsMarked (driver.database v)
  keep_or_install-eq-ok rec if_not_exists force none w a out created h =
      let (commits, marked) = install_once-eq-ok rec force w h in (h, commits, marked)
  keep_or_install-eq-ok rec true force (some existing) w a out created h = absurd (ground arith)
  keep_or_install-eq-ok rec false force (some existing) w a out created h = absurd (ground arith)

  bootstrap-IsMarked :
      (rec : BootstrapRecord) (if_not_exists force : Bool) (w : W) {a : Account} {v : W}
      → bootstrap driver runtime json rec if_not_exists force w ≡ (ok (a, true), v)
      → IsMarked (driver.database v)
  unfolding bootstrap
  bootstrap-IsMarked rec if_not_exists force w {a} h =
      transaction-elim driver runtime laws _ _ _ w h
        (λ u u1 same done kept. bind-elim _ _ u done λ found v1 e1 h1.
          let (once, commits, marked) =
            keep_or_install-eq-ok rec if_not_exists force found v1 a (committed (a, true))
              (inl refl) h1 in
          rw kept marked)
        (λ u u1 same done kept. bind-elim _ _ u done λ found v1 e1 h1.
          let (once, commits, marked) =
            keep_or_install-eq-ok rec if_not_exists force found v1 a (left (a, true)) (inr refl)
              h1 in
          absurd (ground arith))

  -- With the mark, a bootstrap without force creates no account.
  marked-refuses :
      (rec : BootstrapRecord) (if_not_exists : Bool) (w : W) {a : Account} {v : W}
      → IsMarked (driver.database w)
      → bootstrap driver runtime json rec if_not_exists false w ≢ (ok (a, true), v)
  unfolding bootstrap
  marked-refuses rec if_not_exists w {a} marked h =
      transaction-elim driver runtime laws _ _ _ w h
        (λ u u1 same done kept. bind-elim _ _ u done λ found v1 e1 h1.
          let (once, commits, _) =
            keep_or_install-eq-ok rec if_not_exists false found v1 a (committed (a, true))
              (inl refl) h1 in
          install_once-refused rec v1 (searched rec.account.name u e1 (rw same marked)) once)
        (λ u u1 same done kept. bind-elim _ _ u done λ found v1 e1 h1.
          let (once, commits, _) =
            keep_or_install-eq-ok rec if_not_exists false found v1 a (left (a, true)) (inr refl)
              h1 in
          install_once-refused rec v1 (searched rec.account.name u e1 (rw same marked)) once)

  -- Over a driver that keeps what it is told: once a bootstrap has created an account, no bootstrap without force creates
  -- another, whatever it asks for, whichever calls of the store come between.
  pub bootstrap_happens_once :
      (rec other : BootstrapRecord) (if_not_exists force if_not_exists' : Bool) (cs : List Call)
      (w w' v : W) {a b : Account}
      → bootstrap driver runtime json rec if_not_exists force w ≡ (ok (a, true), w')
      → bootstrap driver runtime json other if_not_exists' false
          (after_calls driver runtime json cs w')
        ≢ (ok (b, true), v)
  bootstrap_happens_once rec other if_not_exists force if_not_exists' cs w w' v {a} {b} h again =
      let marked =
        after_calls-Keeps driver runtime laws json IsMarked (statements-IsMarked driver) cs w'
          (bootstrap-IsMarked rec if_not_exists force w h) in
      marked-refuses other if_not_exists' (after_calls driver runtime json cs w') marked again
