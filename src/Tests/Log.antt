-- ===== src/Tests/Log.antt =====
-- An audit log of one event, with a stand-in for SHA-256 whose digests have 64 characters
-- (src/document_core/store.py).
use document_feeder.Prelude.{String, ◌≡◌, refl, ◌↔◌, none, [], ◌∷◌}
use document_feeder.Prelude.Decimal.{of_decimal}
use document_feeder.Prelude.Sorting.{sort_by}
use document_feeder.Json.{Json, Fields, empty, field}
use document_feeder.Models.Audit.{AuditEvent, AuditIntegrityStatus}
use document_feeder.Store.Settings.{session_setting}
use document_feeder.Store.Audit.{
  AuditLog, Hashing, zero_hash, chained, anchor_index, anchor_hash, verify_rows, save_audit_event,
}
use document_feeder.Store.Audit.Verify.{IsChain, verify_rows-ok_iff}
use document_feeder.Store.Audit.Append.{IsChained, HasDigests, save_audit_event-IsChained}

-- the text of the first field
abbrev pub first_text : Fields → String
first_text (field k (Json.text s) d) = s
first_text _ = ""

abbrev pub hashing : Hashing
hashing = record { sha256_hexdigest = λ s. zero_hash; json_dumps = first_text; isoformat = λ t. "" }

pub hashing-HasDigests : HasDigests hashing
hashing-HasDigests s = refl

abbrev pub logged_in : AuditEvent
logged_in = record {
  id = "e1";
  actor_user_id = none;
  actor_username = "admin";
  action = "login";
  resource_type = "session";
  resource_id = none;
  outcome = "success";
  status_code = 200;
  details = empty;
  created_at = 5;
}

abbrev pub no_events : AuditLog
no_events = record { rows = []; settings = [] }

abbrev pub one_event : AuditLog
one_event = record { rows = chained hashing 1 zero_hash logged_in ∷ []; settings = [] }

pub no_events-IsChained : IsChained hashing no_events
unfolding anchor_index session_setting of_decimal sort_by
no_events-IsChained = record { anchor = 0; anchored = refl; chain = tt }

pub one_event-IsChained : IsChained hashing one_event
unfolding anchor_index session_setting of_decimal anchor_hash sort_by
one_event-IsChained = record {
  anchor = 0;
  anchored = refl;
  chain = (record { indexed = refl; behind = refl; hashed = refl }, tt);
}

abbrev intact : AuditIntegrityStatus
intact = record { status = "ok"; checked = 1; first_invalid_index = none; detail = none }

verify_rows-ok_iff_example :
    ((verify_rows hashing zero_hash 1 0 one_event.rows).status ≡ "ok")
    ↔ IsChain hashing zero_hash 1 one_event.rows
verify_rows-ok_iff_example = verify_rows-ok_iff hashing zero_hash 1 0 one_event.rows

save_audit_event-IsChained_example :
    IsChained hashing (save_audit_event hashing ("pw" ∷ []) logged_in no_events).1
save_audit_event-IsChained_example =
    save_audit_event-IsChained hashing hashing-HasDigests ("pw" ∷ []) logged_in no_events
      no_events-IsChained
