-- ===== src/Sqlite/Users/Table.antt =====
-- The table of users: what each statement does to the directory of live users, and to the columns
-- that are unique.
use identra.Common.{
  String, ◌==◌, ◌≡◌, refl, sym, true, false, Option, none, some, List, [], ◌∷◌, any, arith, inl,
  inr, Bool-cases, eq_refl, eq_iff,
}
use identra.Service.{UserModel}
use identra.Sqlite.{UserRow, first, update_where, is_null}
use identra.Sqlite.Rows.{
  first-none, first_sound, any-weaker, update-absent, first-update, first-update_gone,
  first-update_other, Unique, first-Unique,
}
use identra.Sqlite.Queries.{live_user, live_email, id_is, email_is, held_by_other}
use identra.Sqlite.Users.{user_to_domain}
use identra.Sqlite.Users.Directory.{Directory, Set}

abbrev pub domain_of : Option UserRow → Option UserModel
domain_of none = none
domain_of (some r) = some (user_to_domain r)

-- The live users of the table.
unfoldable pub directory : List UserRow → Directory
directory users k = domain_of (first (live_user k) users)

-- The constraints of the table: no two rows share an id or an address.
abbrev pub IsUsers : List UserRow → Type 0
IsUsers users = Unique (λ r. r.id) users × Unique (λ r. r.email) users

absent_id :
    (id : String) (users : List UserRow)
    → any (id_is id) users ≡ false
    → first (live_user id) users ≡ none
absent_id id users free =
    (first-none (live_user id) users).1
      (any-weaker (live_user id) (id_is id) users (λ r h. ground arith) free)

pub free_id :
    (id : String) (users : List UserRow) → any (id_is id) users ≡ false → directory users id ≡ none
unfolding directory
free_id id users free = rw (absent_id id users free) refl

pub found_id :
    (id : String) (users : List UserRow) {r : UserRow}
    → first (live_user id) users ≡ some r
    → r.id ≡ id
found_id id users {r} there =
    let holds = first_sound (live_user id) users there in ground (arith, eq_iff r.id id)

pub insert-Set :
    (row : UserRow) (users : List UserRow)
    → row.deleted_at ≡ none
    → Set row.id (some (user_to_domain row)) (directory users) (directory (row ∷ users))
unfolding directory first
insert-Set row users live k = elim (Bool-cases (row.id == k)) [
  | inl same ↦ rw (same, live) refl
  | inr other ↦ rw other refl
]

-- A change of the live row with an id, which keeps the id.
module _ (id : String) (f : UserRow → UserRow) (same_id : (r : UserRow) → (f r).id ≡ r.id) where
  other_id :
      (k : String) (r : UserRow)
      → (id == k) ≡ false
      → live_user id r ≡ true
      → (live_user k r ≡ false) × (live_user k (f r) ≡ false)
  other_id k r other here = ground (arith, same_id r, eq_iff r.id id, eq_iff r.id k, eq_iff id k)

  pub change-Set :
      (users : List UserRow) {old : UserRow}
      → ((r : UserRow) → (f r).deleted_at ≡ r.deleted_at)
      → first (live_user id) users ≡ some old
      → Set id
          (some (user_to_domain (f old)))
          (directory users)
          (directory (update_where (live_user id) f users))
  unfolding directory
  change-Set users {old} alive there k = elim (Bool-cases (id == k)) [
    | inl same ↦
        let e = (eq_iff id k).0 same in
        let moved = first-update (live_user id) f users (λ r h. rw (same_id r, alive r) h) in
        rw (same, sym e, moved, there) refl
    | inr other ↦
        rw
          (other, first-update_other (live_user id) f (live_user k) users (λ r. other_id k r other))
          refl
  ]

  pub delete-Set :
      (users : List UserRow)
      → ((r : UserRow) → is_null (f r).deleted_at ≡ false)
      → Set id none (directory users) (directory (update_where (live_user id) f users))
  unfolding directory
  delete-Set users dead k = elim (Bool-cases (id == k)) [
    | inl same ↦
        let e = (eq_iff id k).0 same in
        let gone = first-update_gone (live_user id) f users (λ r h. ground (arith, dead r)) in
        rw (same, sym e, gone) refl
    | inr other ↦
        rw
          (other, first-update_other (live_user id) f (live_user k) users (λ r. other_id k r other))
          refl
  ]

-- The row that answers to an address is the live row of its id.
pub email_row :
    (email : String) (users : List UserRow) {r : UserRow}
    → Unique (λ r. r.id) users
    → first (live_email email) users ≡ some r
    → (first (live_user r.id) users ≡ some r) × (r.email ≡ email)
email_row email users {r} ids there =
    let holds = first_sound (live_email email) users there in
    (
      first-Unique (λ s. s.id) (live_email email) (live_user r.id) users ids there
          (ground (arith, eq_refl r.id)) (λ s h. ground (arith, eq_iff s.id r.id)),
      ground (arith, eq_iff r.email email),
    )

-- Where no row answers to an address, no live row has it.
pub no_address :
    (email k : String) (users : List UserRow) {r : UserRow}
    → first (live_email email) users ≡ none
    → first (live_user k) users ≡ some r
    → (r.email == email) ≡ false
unfolding first
no_address email k [] none_there there = absurd (ground arith)
no_address email k (x ∷ users) {r} none_there there = elim (Bool-cases (live_user k x)) [
  | inl here ↦ let is : x ≡ r = ground arith in rw (sym is) (ground arith)
  | inr not_here ↦ no_address email k users {r = r} (ground arith) (ground arith)
]

free_address :
    (id email : String) (users : List UserRow)
    → any (id_is id) users ≡ false
    → any (held_by_other email id) users ≡ false
    → any (email_is email) users ≡ false
free_address id email [] alone free = refl
free_address id email (x ∷ users) alone free = ground (arith, free_address id email users)

others_address :
    (id email other : String) (f : UserRow → UserRow) (users : List UserRow)
    → ((r : UserRow) → (f r).email ≡ email)
    → (email == other) ≡ false
    → any (email_is other) users ≡ false
    → any (email_is other) (update_where (live_user id) f users) ≡ false
unfolding update_where
others_address id email other f [] takes differ free = refl
others_address id email other f (x ∷ users) takes differ free =
    ground (arith, others_address id email other f users takes differ, takes x)

-- Where no other row has the address, the row of an id may take it.
pub email-Unique :
    (id email : String) (f : UserRow → UserRow) (users : List UserRow)
    → ((r : UserRow) → (f r).email ≡ email)
    → ((r : UserRow) → (f r).id ≡ r.id)
    → any (held_by_other email id) users ≡ false
    → IsUsers users
    → Unique (λ r. r.email) (update_where (live_user id) f users)
unfolding update_where
email-Unique id email f [] takes same_id free h = tt
email-Unique id email f (x ∷ users) takes same_id free ((new_id, ids), (new_email, emails)) = (
  elim (Bool-cases (x.id == id)) [
    | inl same ↦
        let e = (eq_iff x.id id).0 same in
        let alone : any (id_is id) users ≡ false = rw e at new_id in
        rw (update-absent (live_user id) f users (absent_id id users alone))
          (elim (Bool-cases (live_user id x)) [
            | inl here ↦ rw (here, takes x) (free_address id email users alone (ground arith))
            | inr gone ↦ rw gone new_email
          ])
    | inr other ↦ rw other (
        others_address id email x.email f users takes
          (ground (arith, eq_iff x.email email, eq_iff email x.email)) new_email)
  ],
  email-Unique id email f users takes same_id (ground arith) (ids, emails),
)
