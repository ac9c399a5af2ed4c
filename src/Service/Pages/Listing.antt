-- ===== src/Service/Pages/Listing.antt =====
-- What a page shows of all the users.
use identra.Common.{
  ℕ, zero, suc, String, ◌≡◌, refl, ap, ◌∙◌, false, Bool-cases, inl, inr, List, [], ◌∷◌, ◌+◌, ◌<◌,
  ltb, length, take, drop, map, if◌then◌else◌, arith,
}
use identra.Common.Exec.{ok, bind_ok}
use identra.Text.Decimal.{int64_limit, itoa}
use identra.Text.Decimal.RoundTrip.{atoi_natural-itoa, trim_space-itoa}
use identra.ServiceAccount.{Account}
use identra.Service.{AuditEvent, AuditStore, UserModel, Service, Metadata}
use identra.Service.Blocks.{attempt_ok, pair_path}
use identra.Service.Accounts.{authorize_service_account}
use identra.Service.Users.{scope_users_manage, managed_user_proto}
use identra.Service.Pages.{
  scope_users_read, ℤ, users_page_size, page_offset, page_of, list_users, scope_audit_read,
  audit_page_size, audit_offset, audit_event_proto, list_audit_events,
}

module _ {A : Type 0} where
  take_more : (n : ℕ) (xs : List A) → ltb n (length (take (suc n) xs)) ≡ ltb n (length xs)
  take_more zero [] = refl
  take_more zero (x ∷ xs) = ground arith
  take_more (suc n) [] = refl
  take_more (suc n) (x ∷ xs) = ground (arith, take_more n xs)

  take-take : (n : ℕ) (xs : List A) → take n (take (suc n) xs) ≡ take n xs
  take-take zero xs = refl
  take-take (suc n) [] = refl
  take-take (suc n) (x ∷ xs) = ap (λ ys. x ∷ ys) (take-take n xs)

  take_few : (n : ℕ) (xs : List A) → ltb n (length xs) ≡ false → take (suc n) xs ≡ take n xs
  take_few zero [] h = refl
  take_few (suc n) [] h = refl
  take_few zero (x ∷ xs) h = absurd (ground arith)
  take_few (suc n) (x ∷ xs) h = ap (λ ys. x ∷ ys) (take_few n xs (ground arith))

-- The page of a list, which the store cuts off after one item more.
page_of_cut :
    {A B : Type 0} (proto : A → B) (offset size : ℕ) (xs : List A)
    → page_of proto offset size (take (suc size) xs) ≡ record {
      items = map proto (take size xs);
      next_page_token = if ltb size (length xs) then itoa (offset + size) else "";
    }
unfolding page_of
page_of_cut proto offset size xs = elim (Bool-cases (ltb size (length xs))) [
  | inl more ↦ rw (take_more size xs, more, take-take size xs) refl
  | inr last ↦ rw (take_more size xs, last, take_few size xs last) refl
]

module _ {W P : Type 0} (s : Service W P) (md : Metadata) where
  -- Where the caller is authorised, the page size and the page token are accepted, and the store lists the
  -- users from the offset on, up to one more than the page size: the page holds the users from the
  -- offset on, as many as its size, and its next token is the offset of the user after them, or is empty where
  -- there is none.
  pub list_users_page :
      (w v v' : W) (actor : Account) (given_size : ℤ) (token : String) (size offset : ℕ)
      (all : List UserModel)
      → authorize_service_account s md (scope_users_read ∷ scope_users_manage ∷ []) w
        ≡ (ok actor, v)
      → users_page_size given_size ≡ ok size
      → page_offset token ≡ ok offset
      → s.user_store.list offset (suc size) v ≡ (ok (take (suc size) (drop offset all)), v')
      → list_users s md given_size token w ≡ (
        ok (record {
          items = map managed_user_proto (take size (drop offset all));
          next_page_token =
              if ltb size (length (drop offset all)) then itoa (offset + size) else "";
        }),
        v',
      )
  unfolding list_users
  list_users_page w v v' actor given_size token size offset all let_in sized from listed =
      bind_ok _ _ let_in
      ∙ bind_ok _ _ {a = size} {v = v} (pair_path sized refl)
      ∙ bind_ok _ _ {a = offset} {v = v} (pair_path from refl)
      ∙ bind_ok _ _ (attempt_ok _ _ v listed)
      ∙ pair_path (ap ok (page_of_cut managed_user_proto offset size (drop offset all))) refl

module _ {W P : Type 0} (s : Service W P) (audit_store : AuditStore W) (md : Metadata) where
  -- Where the caller is authorised, the page size and the page token are
  -- accepted, and the store lists the events from the offset on, up to one more than the page size, the page
  -- holds the events from the offset on, as many as its size, and its next token is the offset of the
  -- event after them, or is empty where there is none.
  pub list_audit_events_page :
      (w v v' : W) (actor : Account) (given_size : ℕ) (token : String) (size offset : ℕ)
      (all : List AuditEvent)
      → authorize_service_account s md (scope_audit_read ∷ []) w ≡ (ok actor, v)
      → audit_page_size given_size ≡ ok size
      → audit_offset token ≡ ok offset
      → audit_store.list offset (suc size) v ≡ (ok (take (suc size) (drop offset all)), v')
      → list_audit_events s audit_store md given_size token w ≡ (
        ok (record {
          items = map audit_event_proto (take size (drop offset all));
          next_page_token =
              if ltb size (length (drop offset all)) then itoa (offset + size) else "";
        }),
        v',
      )
  unfolding list_audit_events
  list_audit_events_page w v v' actor given_size token size offset all let_in sized from listed =
      bind_ok _ _ let_in
      ∙ bind_ok _ _ {a = size} {v = v} (pair_path sized refl)
      ∙ bind_ok _ _ {a = offset} {v = v} (pair_path from refl)
      ∙ bind_ok _ _ (attempt_ok _ _ v listed)
      ∙ pair_path (ap ok (page_of_cut audit_event_proto offset size (drop offset all))) refl

-- The token of a next page is read back as the offset that it was made from, below 2 ^ 63.
pub page_offset-itoa : (n : ℕ) → n < int64_limit → page_offset (itoa n) ≡ ok n
unfolding page_offset
page_offset-itoa n h = rw (trim_space-itoa n h, atoi_natural-itoa n h) refl
