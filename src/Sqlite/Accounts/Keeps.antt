-- ===== src/Sqlite/Accounts/Keeps.antt =====
-- What every call of the store of service accounts keeps of the database.
use identra.Common.{String, ◌≡◌, refl, ◌∙◌, ◌⊎◌, Option, none, some, arith, inl, inr, Option-cases}
use identra.Common.Exec.{Result, ok, err, Exec, ◌>>=◌, Result-cases, bind_ok, bind_err}
use identra.Security.Tokens.{Runtime}
use identra.ServiceAccount.{AccountError}
use identra.Sqlite.{Database, SqlError, Statement, Driver, DriverLaws, asked, query}
use identra.Sqlite.Accounts.{Outcome, begun, finish, finish_commit, committed, left, transaction}

-- What a statement leaves true of the tables.
abbrev pub Leaves : (Database → Type 0) → {A : Type 0} → Statement A → Type 0
Leaves I q = (d : Database) → I d → I (q d).1

module _ {W : Type 0} (driver : Driver W) (runtime : Runtime W) (laws : DriverLaws driver runtime)
    (I : Database → Type 0) where
  abbrev pub Keeps : {E A : Type 0} → Exec W E A → Type 0
  Keeps m = (w : W) → I (driver.database w) → I (driver.database (m w).1)

  module _ {E A B : Type 0} where
    pub bind-Keeps :
        (m : Exec W E A) (f : A → Exec W E B) → Keeps m → ((a : A) → Keeps (f a)) → Keeps (m >>= f)
    bind-Keeps m f hm hf w h = elim (Result-cases (m w).0) [
      | inl (a, e) ↦ rw (bind_ok m f (λ i. (e i, (m w).1))) (hf a (m w).1 (hm w h))
      | inr (x, e) ↦ rw (bind_err m f (λ i. (e i, (m w).1))) (hm w h)
    ]

  pub asked-Keeps :
      {E A : Type 0} (f : SqlError → E) (q : Statement A) → Leaves I q → Keeps (asked driver f q)
  unfolding asked query
  asked-Keeps f q leaves w h = elim (Option-cases (driver.connection w).0) [
    | inl e ↦ rw (e, laws.put_read, laws.connection_keeps w) (leaves (driver.database w) h)
    | inr (t, e) ↦ rw (e, laws.connection_keeps w) h
  ]

  module _ {A : Type 0} (commit_error : String → AccountError) (saved : Database) where
    commit-Keeps :
        (a : A) (c : Option String × W)
        → I saved
        → I (driver.database c.1)
        → I (driver.database (finish_commit driver commit_error saved a c).1)
    commit-Keeps a (none, v) h stays = stays
    commit-Keeps a (some text, v) h stays = rw (laws.put_read saved v) h

    finish-Keeps :
        (r : Result AccountError (Outcome A) × W)
        → I saved
        → ((a : A) → r.0 ≡ ok (committed a) → I (driver.database r.1))
        → I (driver.database (finish driver commit_error saved r).1)
    finish-Keeps (err e, v) h leaves = rw (laws.put_read saved v) h
    finish-Keeps (ok (left a), v) h leaves = rw (laws.put_read saved v) h
    finish-Keeps (ok (committed a), v) h leaves =
        commit-Keeps a (driver.connection v) h (rw (laws.connection_keeps v) (leaves a refl))

  begun-Keeps :
      {A : Type 0} (label : String) (commit_error : String → AccountError)
      (body : Exec W AccountError (Outcome A))
      → ((w : W) (a : A)
          → I (driver.database w)
          → (body w).0 ≡ ok (committed a)
          → I (driver.database (body w).1))
      → (c : Option String × W) → I (driver.database c.1)
      → I (driver.database (begun driver label commit_error body c).1)
  begun-Keeps label commit_error body leaves (some text, v) h = h
  begun-Keeps label commit_error body leaves (none, v) h =
      finish-Keeps commit_error (driver.database v) (body v) h (λ a e. leaves v a h e)

  -- A transaction that commits leaves what its function leaves, and any other restores the tables.
  pub transaction-Keeps :
      {A : Type 0} (label : String) (commit_error : String → AccountError)
      (body : Exec W AccountError (Outcome A))
      → ((w : W) (a : A)
          → I (driver.database w)
          → (body w).0 ≡ ok (committed a)
          → I (driver.database (body w).1))
      → Keeps (transaction driver label commit_error body)
  unfolding transaction
  transaction-Keeps label commit_error body leaves w h =
      begun-Keeps label commit_error body leaves (driver.connection w)
        (rw (laws.connection_keeps w) h)

module _ {W : Type 0} (driver : Driver W) (runtime : Runtime W) (laws : DriverLaws driver runtime)
    {A : Type 0} (commit_error : String → AccountError) where
  finish-eq-ok :
      (saved : Database) (r : Result AccountError (Outcome A) × W) {a : A} {w' : W}
      → finish driver commit_error saved r ≡ (ok a, w')
      → ((r.0 ≡ ok (committed a)) × (driver.database w' ≡ driver.database r.1))
        ⊎ ((r.0 ≡ ok (left a)) × (driver.database w' ≡ saved))
  finish-eq-ok saved (err e, v) h = absurd (ground arith)
  finish-eq-ok saved (ok (left b), v) h = inr (ground arith, ground (arith, laws.put_read saved v))
  finish-eq-ok saved (ok (committed b), v) h = elim (Option-cases (driver.connection v).0) [
    | inl e ↦ inl (ground arith, ground (arith, laws.connection_keeps v))
    | inr (t, e) ↦ absurd (ground arith)
  ]

  -- A transaction that returns has committed what its function did, or has done nothing.
  transaction-eq-ok :
      (label : String) (body : Exec W AccountError (Outcome A)) (w : W) {a : A} {w' : W}
      → transaction driver label commit_error body w ≡ (ok a, w')
      → (v : W) × (v1 : W) × (driver.database v ≡ driver.database w)
        × (((body v ≡ (ok (committed a), v1)) × (driver.database w' ≡ driver.database v1))
            ⊎ ((body v ≡ (ok (left a), v1)) × (driver.database w' ≡ driver.database w)))
  unfolding transaction
  transaction-eq-ok label body w {a} {w'} h = elim (Option-cases (driver.connection w).0) [
    | inr (t, e) ↦ absurd (ground arith)
    | inl e ↦
        let v = (driver.connection w).1 in
        let (out, v1) = body v in
        let same = laws.connection_keeps w in
        let ends : finish driver commit_error (driver.database v) (body v) ≡ (ok a, w') =
          rw e at h in
        elim (finish-eq-ok (driver.database v) (body v) ends) [
          | inl (done, kept) ↦ (v, v1, same, inl (λ i. (done i, v1), kept))
          | inr (done, kept) ↦ (v, v1, same, inr (λ i. (done i, v1), kept ∙ same))
        ]
  ]

  -- The same, handing the parts over.
  pub transaction-elim :
      (label : String) (body : Exec W AccountError (Outcome A)) (w : W) {a : A} {w' : W}
      {C : Type 0}
      → transaction driver label commit_error body w ≡ (ok a, w')
      → ((v v1 : W)
          → driver.database v ≡ driver.database w
          → body v ≡ (ok (committed a), v1)
          → driver.database w' ≡ driver.database v1
          → C)
      → ((v v1 : W)
          → driver.database v ≡ driver.database w
          → body v ≡ (ok (left a), v1)
          → driver.database w' ≡ driver.database w
          → C)
      → C
  transaction-elim label body w h when_committed when_left =
      let (v, v1, same, ends) = transaction-eq-ok label body w h in
      elim ends [
        | inl (done, kept) ↦ when_committed v v1 same done kept
        | inr (done, kept) ↦ when_left v v1 same done kept
      ]
