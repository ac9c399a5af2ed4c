-- ===== src/Tests/Lists.antt =====
-- Lists in pages.
use identra.Common.{String, ◌≡◌, refl, List, [], ◌∷◌, take, drop, arith}
use identra.Common.Exec.{ok, ◌>>=◌}
use identra.Text.{trim_space, ends_in_star, without_star, has_prefix, fields, equal_fold}
use identra.Text.Decimal.{itoa, atoi_natural, digits_value, value_after}
use identra.Security.Tokens.{validate_service_token}
use identra.Service.{UserModel, AuditEvent, AuditStore, Service, attempt}
use identra.Service.RateLimit.{access_token_from_metadata, bearer_token}
use identra.Service.Accounts.{
  authorize_service_account, has_service_scope, active_account, first_granted,
}
use identra.Service.Users.{scope_users_manage, managed_user_proto}
use identra.Service.Pages.{
  scope_users_read, scope_audit_read, pos, users_page_size, page_offset, list_users,
  audit_page_size, audit_offset, audit_event_proto, list_audit_events,
}
use identra.Service.Pages.Listing.{list_users_page, list_audit_events_page, page_offset-itoa}
use identra.Tests.World.{World, world, service, users, user_one, account_one, bearer}

abbrev three_users : List UserModel
three_users = user_one ∷ record user_one { id = "u2" } ∷ record user_one { id = "u3" } ∷ []

abbrev listing : Service World String
listing = record service {
  user_store = record users {
    list = λ offset limit w. (ok (take limit (drop offset three_users)), w);
  };
}

let_in_users :
    authorize_service_account listing
      (bearer "Bearer S")
      (scope_users_read ∷ scope_users_manage ∷ [])
      world
    ≡ (ok account_one, world)
unfolding authorize_service_account ◌>>=◌ attempt access_token_from_metadata bearer_token trim_space
    fields equal_fold validate_service_token active_account first_granted has_service_scope
    ends_in_star without_star has_prefix
let_in_users = refl

one : users_page_size (pos 1) ≡ ok 1
unfolding users_page_size
one = refl

from_one : page_offset "1" ≡ ok 1
unfolding page_offset trim_space atoi_natural digits_value value_after
from_one = refl

-- The second of three users, one to a page.
list_users_page_example : list_users listing (bearer "Bearer S") (pos 1) "1" world ≡ (
  ok (record {
    items = managed_user_proto (record user_one { id = "u2" }) ∷ [];
    next_page_token = itoa 2;
  }),
  world,
)
list_users_page_example =
    list_users_page listing (bearer "Bearer S") world world world account_one (pos 1) "1" 1 1
      three_users let_in_users one from_one refl

abbrev event : AuditEvent
event = record {
  id = "e1";
  occurred_at = 5;
  actor_type = "service_account";
  actor_id = "a1";
  action = "user.create";
  resource_type = "user";
  resource_id = "u1";
  metadata = [];
}

abbrev audits : AuditStore World
audits = record {
  record_event = λ e w. (ok tt, w);
  list = λ offset limit w. (ok (take limit (drop offset (event ∷ []))), w);
}

let_in_audit :
    authorize_service_account service (bearer "Bearer S") (scope_audit_read ∷ []) world
    ≡ (ok account_one, world)
unfolding authorize_service_account ◌>>=◌ attempt access_token_from_metadata bearer_token trim_space
    fields equal_fold validate_service_token active_account first_granted has_service_scope
    ends_in_star without_star has_prefix
let_in_audit = refl

five : audit_page_size 5 ≡ ok 5
unfolding audit_page_size
five = refl

from_start : audit_offset " " ≡ ok 0
unfolding audit_offset trim_space
from_start = refl

list_audit_events_page_example :
    list_audit_events service audits (bearer "Bearer S") 5 " " world
    ≡ (ok (record { items = audit_event_proto event ∷ []; next_page_token = "" }), world)
list_audit_events_page_example =
    list_audit_events_page service audits (bearer "Bearer S") world world world account_one 5 " " 5
      0 (event ∷ []) let_in_audit five from_start refl

page_offset-itoa_example : page_offset (itoa 250) ≡ ok 250
page_offset-itoa_example = page_offset-itoa 250 (ground arith)
