-- ===== src/Sqlite/Rows.antt =====
-- Rows that are searched, counted and changed.
use identra.Common.{
  String, ◌==◌, ◌≡◌, refl, ◌∙◌, Bool, true, false, ◌↔◌, none, some, List, [], ◌∷◌, any, eqb, arith,
  inl, inr, Bool-cases, eq_refl,
}
use identra.Sqlite.{first, update_where, count_where}

module _ {R : Type 0} where
  pub first_sound : (p : R → Bool) (rs : List R) {r : R} → first p rs ≡ some r → p r ≡ true
  unfolding first
  first_sound p [] h = absurd (ground arith)
  first_sound p (x ∷ rs) h = elim (Bool-cases (p x)) [
    | inl holds ↦ ground arith
    | inr fails ↦ first_sound p rs (rw fails at h)
  ]

  pub first-none : (p : R → Bool) (rs : List R) → (first p rs ≡ none) ↔ (any p rs ≡ false)
  unfolding first
  first-none p [] = (λ h. refl, λ h. refl)
  first-none p (x ∷ rs) = ground (arith, first-none p rs)

  pub count-none :
      (p : R → Bool) (rs : List R) → (eqb (count_where p rs) 0 ≡ true) ↔ (first p rs ≡ none)
  unfolding first count_where
  count-none p [] = (λ h. refl, λ h. refl)
  count-none p (x ∷ rs) = ground (arith, count-none p rs)

  -- The row that was found is one that any weaker test finds too.
  pub any-first :
      (p q : R → Bool) (rs : List R) {r : R} → first p rs ≡ some r → q r ≡ true → any q rs ≡ true
  unfolding first
  any-first p q [] h holds = absurd (ground arith)
  any-first p q (x ∷ rs) h holds = elim (Bool-cases (p x)) [
    | inl there ↦ ground arith
    | inr fails ↦ rw (any-first p q rs (rw fails at h) holds) (ground arith)
  ]

  pub any-weaker :
      (p q : R → Bool) (rs : List R)
      → ((r : R) → p r ≡ true → q r ≡ true)
      → any q rs ≡ false
      → any p rs ≡ false
  any-weaker p q [] weaker h = refl
  any-weaker p q (x ∷ rs) weaker h = ground (arith, weaker x, any-weaker p q rs weaker)

  pub any-stronger :
      (p q : R → Bool) (rs : List R)
      → ((r : R) → p r ≡ true → q r ≡ true)
      → any p rs ≡ true
      → any q rs ≡ true
  any-stronger p q [] weaker h = absurd (ground arith)
  any-stronger p q (x ∷ rs) weaker h = ground (arith, weaker x, any-stronger p q rs weaker)

  module _ (p : R → Bool) (f : R → R) where
    -- A test that the change does not touch.
    pub any-update :
        (q : R → Bool) (rs : List R)
        → ((r : R) → q (f r) ≡ q r)
        → any q (update_where p f rs) ≡ any q rs
    unfolding update_where
    any-update q [] kept = refl
    any-update q (x ∷ rs) kept = ground (arith, kept x, any-update q rs kept)

    pub update-absent : (rs : List R) → first p rs ≡ none → update_where p f rs ≡ rs
    unfolding first update_where
    update-absent [] gone = refl
    update-absent (x ∷ rs) gone = ground (arith, update-absent rs)

    pub first-update :
        (rs : List R)
        → ((r : R) → p r ≡ true → p (f r) ≡ true)
        → first p (update_where p f rs) ≡ elim (first p rs) [ none ↦ none | some r ↦ some (f r) ]
    unfolding first update_where
    first-update [] kept = refl
    first-update (x ∷ rs) kept = ground (arith, kept x, first-update rs kept)

    pub first-update_gone :
        (rs : List R)
        → ((r : R) → p r ≡ true → p (f r) ≡ false)
        → first p (update_where p f rs) ≡ none
    unfolding first update_where
    first-update_gone [] gone = refl
    first-update_gone (x ∷ rs) gone = ground (arith, gone x, first-update_gone rs gone)

    pub first-update_other :
        (q : R → Bool) (rs : List R)
        → ((r : R) → p r ≡ true → (q r ≡ false) × (q (f r) ≡ false))
        → first q (update_where p f rs) ≡ first q rs
    unfolding first update_where
    first-update_other q [] other = refl
    first-update_other q (x ∷ rs) other = ground (arith, other x, first-update_other q rs other)

  -- A column whose values are all different.
  abbrev pub Unique : (R → String) → List R → Type 0
  Unique column [] = Unit
  Unique column (r ∷ rs) = (any (λ s. column s == column r) rs ≡ false) × Unique column rs

  pub update-Unique :
      (column : R → String) (p : R → Bool) (f : R → R) (rs : List R)
      → ((r : R) → column (f r) ≡ column r)
      → Unique column rs
      → Unique column (update_where p f rs)
  unfolding update_where
  update-Unique column p f [] kept h = tt
  update-Unique column p f (x ∷ rs) kept (fresh, h) =
      let others : any (λ s. column s == column x) (update_where p f rs) ≡ false =
        any-update p f (λ s. column s == column x) rs (λ r. rw (kept r) refl) ∙ fresh in
      (
        elim (Bool-cases (p x)) [
          | inl holds ↦ rw (holds, kept x) others
          | inr fails ↦ rw fails others
        ],
        update-Unique column p f rs kept h,
      )

  -- Where a column is unique, a search by any test finds the one row that its value finds.
  pub first-Unique :
      (column : R → String) (p q : R → Bool) (rs : List R) {r : R}
      → Unique column rs
      → first p rs ≡ some r
      → q r ≡ true
      → ((s : R) → q s ≡ true → column s ≡ column r)
      → first q rs ≡ some r
  unfolding first
  first-Unique column p q [] h found holds only = absurd (ground arith)
  first-Unique column p q (x ∷ rs) {r} (fresh, h) found holds only = elim (Bool-cases (p x)) [
    | inl there ↦ ground arith
    | inr fails ↦
        let later : first p rs ≡ some r = rw fails at found in
        elim (Bool-cases (q x)) [
          | inl also ↦
              let twice =
                any-first p (λ s. column s == column x) rs later
                  (rw (only x also) (eq_refl (column r))) in
              absurd (ground arith)
          | inr other ↦ rw other (first-Unique column p q rs h later holds only)
        ]
  ]
