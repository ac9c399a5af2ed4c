-- ===== src/Sqlite/Calls.antt =====
-- A call of the driver: what it leaves of the database, whatever it answers.
use identra.Common.{String, ◌≡◌, ◌∙◌, ap, arith, inl, inr, Option-cases}
use identra.Common.Exec.{Result, ok, err, Exec, ◌>>=◌, Result-cases}
use identra.Security.Tokens.{Runtime}
use identra.Sqlite.{SqlError, failed, Statement, Driver, DriverLaws, query, asked, id_or_new}

module _ {W : Type 0} (driver : Driver W) (runtime : Runtime W)
    (laws : DriverLaws driver runtime) where
  module _ {E A B : Type 0} (f : SqlError → E) (q : Statement A) (k : A → Exec W E B) (w : W)
      {r : Result E B} {w' : W} {C : Type 0} where
    -- The call fails before it reaches the tables, or the statement fails, or it answers.
    pub asked-elim :
        (asked driver f q >>= k) w ≡ (r, w')
        → ((t : String) → r ≡ err (f (failed t)) → driver.database w' ≡ driver.database w → C)
        → ((e : SqlError)
            → (q (driver.database w)).0 ≡ err e
            → r ≡ err (f e)
            → driver.database w' ≡ (q (driver.database w)).1
            → C)
        → ((a : A) (v : W)
            → (q (driver.database w)).0 ≡ ok a
            → driver.database v ≡ (q (driver.database w)).1
            → k a v ≡ (r, w')
            → C)
        → C
    unfolding asked query ◌>>=◌
    asked-elim h unreached refused answered =
        let v = (driver.connection w).1 in
        let same = laws.connection_keeps w in
        elim (Option-cases (driver.connection w).0) [
          | inr (t, e) ↦ unreached t (ground arith) (ground arith)
          | inl e ↦
              let stored = laws.put_read (q (driver.database v)).1 v in
              elim (Result-cases (q (driver.database v)).0) [
                | inl (a, holds) ↦
                    answered a (driver.put (q (driver.database v)).1 v) (rw same at holds)
                      (stored ∙ ap (λ d. (q d).1) same) (ground arith)
                | inr (x, lost) ↦ refused x (rw same at lost) (ground arith) (ground arith)
              ]
        ]

  pub asked-eq-ok :
      {E A : Type 0} (f : SqlError → E) (q : Statement A) (w : W) {a : A} {v : W}
      → asked driver f q w ≡ (ok a, v)
      → ((q (driver.database w)).0 ≡ ok a) × (driver.database v ≡ (q (driver.database w)).1)
  unfolding asked query
  asked-eq-ok f q w h = elim (Option-cases (driver.connection w).0) [
    | inr (t, e) ↦ absurd (ground arith)
    | inl e ↦
        let u = (driver.connection w).1 in
        let same = laws.connection_keeps w in
        let stored = laws.put_read (q (driver.database u)).1 u in
        elim (Result-cases (q (driver.database u)).0) [
          | inr (x, lost) ↦ absurd (ground arith)
          | inl (b, got) ↦
              let here : (q (driver.database w)).0 ≡ ok b = rw same at got in
              let there : driver.database (driver.put (q (driver.database u)).1 u)
                  ≡ (q (driver.database w)).1 =
                stored ∙ ap (λ d. (q d).1) same in
              (ground arith, ground arith)
        ]
  ]

  pub id_or_new_keeps :
      (id : String) (w : W) → driver.database (id_or_new runtime id w).1 ≡ driver.database w
  unfolding id_or_new
  id_or_new_keeps id w = ground (arith, laws.uuid_keeps w)
