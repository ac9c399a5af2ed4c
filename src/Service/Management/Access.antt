-- ===== src/Service/Management/Access.antt =====
-- No management call has an effect, or an answer, without an authorisation.
use identra.Common.{String, ◌==◌, ◌≡◌, ◌∙◌, true, false, [], ◌∷◌, arith}
use identra.Common.Exec.{Exec, ok, err, bind-elim, bind_ok, bind_err, ◌>>=◌}
use identra.Text.{trim_space}
use identra.ServiceAccount.{Account}
use identra.Service.{failed_precondition, Status, status, AuditStore, Service, Metadata}
use identra.Service.Blocks.{refuse_if-false}
use identra.Service.Accounts.{authorize_service_account, scope_service_accounts_manage}
use identra.Service.Accounts.Authorization.{Authorized, authorize_service_account_iff}
use identra.Service.Accounts.Handlers.{
  create_service_account, list_service_accounts, disable_service_account,
  rotate_service_account_secret,
}
use identra.Service.Users.{create_password_user, delete_user, reset_user_password}
use identra.Service.Pages.{list_users, list_audit_events}
use identra.Service.Management.{
  Request, Reply, create_account, list_accounts, disable_account, rotate_secret, create_user,
  remove_user, reset_password, list_user_page, list_event_page, required_scopes, serve,
}

module _ {W A B C : Type 0} where
  -- The first call of the first block fails.
  bind_err2 :
      (m : Exec W Status A) (f : A → Exec W Status B) (g : B → Exec W Status C) {w w' : W}
      {e : Status}
      → m w ≡ (err e, w')
      → ((m >>= f) >>= g) w ≡ (err e, w')
  bind_err2 m f g h = bind_err (m >>= f) g (bind_err m f h)

  -- A block that returns has been through the first call of its first block.
  first_call :
      (m : Exec W Status A) (f : A → Exec W Status B) (g : B → Exec W Status C) (w : W) {c : C}
      {w' : W}
      → ((m >>= f) >>= g) w ≡ (ok c, w')
      → (a : A) × (v : W) × (m w ≡ (ok a, v))
  first_call m f g w h =
      bind-elim (m >>= f) g w h λ _ _ e _. bind-elim m f w e λ a v e' _. (a, v, e')

module _ {W P : Type 0} (s : Service W P) (audit_store : AuditStore W) (md : Metadata) where
  -- A management request whose caller is refused, for the scopes that it needs, is answered with that
  -- refusal, and leaves the state that the authorisation left.
  pub serve_refused :
      (r : Request) (w w' : W) (e : Status)
      → authorize_service_account s md (required_scopes r) w ≡ (err e, w')
      → serve s audit_store md r w ≡ (err e, w')
  unfolding serve create_service_account list_service_accounts disable_service_account
      rotate_service_account_secret create_password_user delete_user reset_user_password list_users
      list_audit_events
  serve_refused (create_account name scopes) w w' e h = bind_err2 _ _ _ h
  serve_refused list_accounts w w' e h = bind_err2 _ _ _ h
  serve_refused (disable_account client_id) w w' e h = bind_err2 _ _ _ h
  serve_refused (rotate_secret client_id) w w' e h = bind_err2 _ _ _ h
  serve_refused (create_user email password) w w' e h = bind_err2 _ _ _ h
  serve_refused (remove_user user_id) w w' e h = bind_err2 _ _ _ h
  serve_refused (reset_password user_id password) w w' e h = bind_err2 _ _ _ h
  serve_refused (list_user_page size token) w w' e h = bind_err2 _ _ _ h
  serve_refused (list_event_page size token) w w' e h = bind_err2 _ _ _ h

  served_call :
      (r : Request) (w w' : W) (reply : Reply)
      → serve s audit_store md r w ≡ (ok reply, w')
      → (actor : Account) × (v : W) × (authorize_service_account s md (required_scopes r) w
          ≡ (ok actor, v))
  unfolding serve create_service_account list_service_accounts disable_service_account
      rotate_service_account_secret create_password_user delete_user reset_user_password list_users
      list_audit_events
  served_call (create_account name scopes) w w' reply h = first_call _ _ _ w h
  served_call list_accounts w w' reply h = first_call _ _ _ w h
  served_call (disable_account client_id) w w' reply h = first_call _ _ _ w h
  served_call (rotate_secret client_id) w w' reply h = first_call _ _ _ w h
  served_call (create_user email password) w w' reply h = first_call _ _ _ w h
  served_call (remove_user user_id) w w' reply h = first_call _ _ _ w h
  served_call (reset_password user_id password) w w' reply h = first_call _ _ _ w h
  served_call (list_user_page size token) w w' reply h = first_call _ _ _ w h
  served_call (list_event_page size token) w w' reply h = first_call _ _ _ w h

  -- A request of the services for service accounts (the exchange of a credential aside), for the management
  -- of users and for audit events that gets a reply was made with a valid service token of an account that the
  -- store holds, that is not disabled, and of which some scope covers one that the request needs.
  pub serve-Authorized :
      (r : Request) (w w' : W) (reply : Reply)
      → serve s audit_store md r w ≡ (ok reply, w')
      → (actor : Account) × (v : W) × Authorized s md (required_scopes r) w actor v
  serve-Authorized r w w' reply h =
      let (actor, v, e) = served_call r w w' reply h in
      (actor, v, (authorize_service_account_iff s md (required_scopes r) w v actor).0 e)

module _ {W P : Type 0} (s : Service W P) (md : Metadata) where
  -- An authorised account that asks to disable itself is refused, and the state stays as the
  -- authorisation left it.
  pub disable_self_refused :
      (w w' : W) (actor : Account) (client_id : String)
      → authorize_service_account s md (scope_service_accounts_manage ∷ []) w ≡ (ok actor, w')
      → (trim_space client_id == "") ≡ false
      → (trim_space client_id == actor.id) ≡ true
      → disable_service_account s md client_id w
        ≡ (err (status failed_precondition "a service account cannot disable itself"), w')
  unfolding disable_service_account
  disable_self_refused w w' actor client_id h given self =
      bind_ok _ _ h ∙ refuse_if-false _ _ _ w' given ∙ bind_err _ _ (ground arith)
