-- ===== src/Sqlite/Audit.antt =====
-- internal/store/sqlite/audit.go: the store of audit events.
use identra.Common.{ℕ, String, Option, none, some, List, [], ◌∷◌}
use identra.Common.Exec.{Result, ok, err, Exec, ◌>>=◌}
use identra.Service.{AuditEvent, AuditStore, Fault, other}
use identra.Sqlite.{AuditRow, Driver, unwrapped}
use identra.Sqlite.Accounts.{Json}
use identra.Sqlite.Accounts.Statements.{insert_event, events_page}

abbrev encoded : Option String → Result Fault String
encoded none = err other
encoded (some text) = ok text

module _ {W : Type 0} (driver : Driver W) (json : Json) where
  unfoldable pub record_event : AuditEvent → Exec W Fault (Unit {0})
  record_event event w = elim (json.encode_metadata event.metadata) [
    | none ↦ (err other, w)
    | some metadata ↦
        unwrapped driver
          (insert_event driver (record {
            id = event.id;
            occurred_at = event.occurred_at;
            actor_type = event.actor_type;
            actor_id = event.actor_id;
            action = event.action;
            resource_type = event.resource_type;
            resource_id = event.resource_id;
            metadata = metadata;
          }))
          w
  ]

  unfoldable pub event_of : AuditRow → Option AuditEvent
  event_of row = elim (json.decode_metadata row.metadata) [
    | none ↦ none
    | some metadata ↦ some (record {
      id = row.id;
      occurred_at = row.occurred_at;
      actor_type = row.actor_type;
      actor_id = row.actor_id;
      action = row.action;
      resource_type = row.resource_type;
      resource_id = row.resource_id;
      metadata = metadata;
    })
  ]

  abbrev with_event :
      Option AuditEvent → Result Fault (List AuditEvent) → Result Fault (List AuditEvent)
  with_event none rest = err other
  with_event (some e) (err f) = err f
  with_event (some e) (ok events) = ok (e ∷ events)

  unfoldable pub decoded : List AuditRow → Result Fault (List AuditEvent)
  decoded [] = ok []
  decoded (row ∷ rows) = with_event (event_of row) (decoded rows)

  unfoldable pub list : ℕ → ℕ → Exec W Fault (List AuditEvent)
  list offset limit =
      unwrapped driver (events_page driver offset limit) >>= λ rows w. (decoded rows, w)

  -- NewAuditStore
  unfoldable pub audit_store : AuditStore W
  audit_store = record { record_event = record_event; list = list }
