-- ===== src/Sqlite/Users/Listing.antt =====
-- The lists of users: what SELECT with ORDER BY, LIMIT and OFFSET shows of the directory.
use identra.Common.{
  ℕ, String, ◌==◌, ◌≡◌, refl, sym, ap, ◌∙◌, true, false, Bool, Option, none, some, List, [], ◌∷◌,
  any, keep, take, drop, length, eqb, map, Any, inl, inr, Bool-cases, arith, eq_iff,
}
use identra.Sqlite.{UserRow, Driver, first, count_where, is_null}
use identra.Sqlite.Rows.{Unique}
use identra.Sqlite.Kept.{
  cons_eq, keep_yes, keep_no, keep-none, keep-keep, Any-keep, keep-Any, map-keep, drop-map,
  take-map, length-map, count-keep,
}
use identra.Sqlite.Queries.{live_user, id_is, page}
use identra.Sqlite.Users.{user_to_domain, page_limit}
use identra.Sqlite.Users.Directory.{entry, cut, IsListing}
use identra.Sqlite.Users.Table.{directory, domain_of}

-- What ORDER BY promises of the rows: none appears, and of each kind as many are left.
pub record ArrangesUsers {W : Type 0} (driver : Driver W) : Type 0 where
  pub no_more :
      (before : UserRow → UserRow → Bool) (rows : List UserRow) (r : UserRow)
      → Any (λ s. s ≡ r) (driver.arrange_users before rows)
      → Any (λ s. s ≡ r) rows
  pub no_fewer :
      (before : UserRow → UserRow → Bool) (rows : List UserRow) (p : UserRow → Bool)
      → length (keep p (driver.arrange_users before rows)) ≡ length (keep p rows)

abbrev row_entry : Option UserRow → List UserRow
row_entry none = []
row_entry (some r) = r ∷ []

-- A list of which an arrangement is one row, or none.
one_left :
    (r : UserRow) (rs : List UserRow)
    → length rs ≡ 1
    → ((s : UserRow) → Any (λ t. t ≡ s) rs → s ≡ r)
    → rs ≡ r ∷ []
one_left r [] h only = absurd (ground arith)
one_left r (x ∷ []) h only = cons_eq (only x (inl refl)) refl
one_left r (x ∷ y ∷ rs) h only = absurd (ground arith)

none_left : (rs : List UserRow) → length rs ≡ 0 → rs ≡ []
none_left [] h = refl
none_left (x ∷ rs) h = absurd (ground arith)

no_other :
    (k : String) (x : UserRow) (users : List UserRow)
    → (x.id == k) ≡ true
    → any (λ s. s.id == x.id) users ≡ false
    → any (live_user k) users ≡ false
no_other k x [] same fresh = refl
no_other k x (y ∷ users) same fresh =
    let e = (eq_iff x.id k).0 same in ground (arith, no_other k x users same, e)

module _ (k : String) (x : UserRow) (users : List UserRow) where
  entry_here : live_user k x ≡ true → row_entry (first (live_user k) (x ∷ users)) ≡ x ∷ []
  unfolding first
  entry_here h = rw h refl

  entry_later :
      live_user k x ≡ false
      → row_entry (first (live_user k) (x ∷ users)) ≡ row_entry (first (live_user k) users)
  unfolding first
  entry_later h = rw h refl

-- The live rows of an id.
keep-live :
    (k : String) (users : List UserRow)
    → Unique (λ r. r.id) users
    → keep (live_user k) users ≡ row_entry (first (live_user k) users)
unfolding first
keep-live k [] h = refl
keep-live k (x ∷ users) (fresh, h) = elim (Bool-cases (live_user k x)) [
  | inl here ↦
      let gone = keep-none (live_user k) users (no_other k x users (ground arith) fresh) in
      keep_yes (live_user k) x users here ∙ cons_eq refl gone ∙ sym (entry_here k x users here)
  | inr not_here ↦
      keep_no (live_user k) x users not_here
      ∙ keep-live k users h
      ∙ sym (entry_later k x users not_here)
]

abbrev pub live_rows : List UserRow → List UserRow
live_rows users = keep (λ r. is_null r.deleted_at) users

live-keep :
    (k : String) (users : List UserRow)
    → Unique (λ r. r.id) users
    → keep (id_is k) (live_rows users) ≡ row_entry (first (live_user k) users)
live-keep k users h =
    keep-keep (id_is k) (λ r. is_null r.deleted_at) (live_user k) users (λ r. refl)
    ∙ keep-live k users h

entry_of : (o : Option UserRow) → map user_to_domain (row_entry o) ≡ entry (domain_of o)
entry_of none = refl
entry_of (some r) = refl

-- Rows that hold, of each id, the live row of the table, list the directory.
rows-IsListing :
    (users rows : List UserRow)
    → ((k : String) → keep (id_is k) rows ≡ row_entry (first (live_user k) users))
    → IsListing (directory users) (map user_to_domain rows)
unfolding directory user_to_domain
rows-IsListing users rows h k =
    map-keep user_to_domain (λ u. u.id == k) (id_is k) rows (λ r. refl)
    ∙ ap (map user_to_domain) (h k)
    ∙ entry_of (first (live_user k) users)

pub live-IsListing :
    (users : List UserRow)
    → Unique (λ r. r.id) users
    → IsListing (directory users) (map user_to_domain (live_rows users))
live-IsListing users h = rows-IsListing users (live_rows users) (λ k. live-keep k users h)

pub count-live :
    (users : List UserRow)
    → count_where (λ r. is_null r.deleted_at) users ≡ length (map user_to_domain (live_rows users))
count-live users =
    count-keep (λ r. is_null r.deleted_at) users ∙ sym (length-map user_to_domain (live_rows users))

module _ {W : Type 0} (driver : Driver W) (arranges : ArrangesUsers driver)
    (before : UserRow → UserRow → Bool) where
  arranged-keep :
      (k : String) (rows : List UserRow) (o : Option UserRow)
      → keep (id_is k) rows ≡ row_entry o
      → keep (id_is k) (driver.arrange_users before rows) ≡ row_entry o
  arranged-keep k rows none h = none_left _ (arranges.no_fewer before rows (id_is k) ∙ ap length h)
  arranged-keep k rows (some r) h =
      one_left r _ (arranges.no_fewer before rows (id_is k) ∙ ap length h) λ s there.
        let (is, among) = Any-keep (id_is k) s (driver.arrange_users before rows) there in
        let kept = keep-Any (id_is k) s rows is (arranges.no_more before rows s among) in
        elim (rw h at kept) [ inl same ↦ sym same | inr later ↦ absurd later ]

  pub arranged-IsListing :
      (users : List UserRow)
      → Unique (λ r. r.id) users
      → IsListing
          (directory users)
          (map user_to_domain (driver.arrange_users before (live_rows users)))
  arranged-IsListing users h =
      rows-IsListing users (driver.arrange_users before (live_rows users))
        λ k. arranged-keep k (live_rows users) (first (live_user k) users) (live-keep k users h)

pub page-map :
    (offset limit : ℕ) (rows : List UserRow)
    → map user_to_domain (page (page_limit limit) offset rows)
      ≡ cut offset limit (map user_to_domain rows)
page-map offset limit rows = elim (Bool-cases (eqb limit 0)) [
  | inl unlimited ↦ rw unlimited (sym (drop-map user_to_domain offset rows))
  | inr limited ↦ rw limited (
      sym (take-map user_to_domain limit (drop offset rows))
      ∙ ap (take limit) (sym (drop-map user_to_domain offset rows)))
]
