-- ===== src/Tests/Web.antt =====
-- Requests to a service with two accounts and one job (src/document_core/api.py).
use document_feeder.Prelude.{ℕ, refl, true, inl, Option, none, some, [], ◌∷◌, raise}
use document_feeder.Prelude.Exec.{◌>>=◌}
use document_feeder.Prelude.Split.{split_at_most}
use document_feeder.Prelude.Decimal.{of_decimal}
use document_feeder.Secrets.Redaction.{redact_fields}
use document_feeder.Store.Settings.{session_setting, get_system_setting}
use document_feeder.Store.Audit.{
  save_audit_event, next_link, anchor_index, anchor_hash, audit_hash, anchor_link, clashes,
}
use document_feeder.Prelude.Sorting.{sort_by}
use document_feeder.Models.User.{UserAccount, admin, viewer, LoginRequest}
use document_feeder.Auth.{encoded_password, hash_password, verify_password, new_session_token}
use document_feeder.Store.Jobs.{values, model, get}
use document_feeder.Store.Users.{
  get_user_by_username, recent_failed_logins, create_session, save_user,
}
use document_feeder.Web.World.{
  WebEnvironment, Service, Request, Response, Handler, uncaught, record_event,
}
use document_feeder.Web.Access.{authorize, is_public}
use document_feeder.Web.Access.Policy.{Verdict, authorize-Verdict}
use document_feeder.Web.Accounts.{LoginAnswer, user_view, login, update_user}
use document_feeder.Web.Accounts.Admins.{HasAdmin, update_user-HasAdmin}
use document_feeder.Web.Accounts.Login.{IsLoggedIn, login-IsLoggedIn}
use document_feeder.Web.Jobs.Guards.{a_release, grant, IsDenied, grant-IsDenied}
use document_feeder.Web.AuditTrail.{retention_round, audit_retention_days}
use document_feeder.Web.AuditTrail.Round.{IsUpkept, retention_round-IsUpkept}
use document_feeder.Store.Audit.Retention.{
  delete_audit_events_before, boundary, first_retained, delete_at, delete_up_to,
}
use document_feeder.Tests.Documents.{environment}
use document_feeder.Tests.Log.{
  hashing, hashing-HasDigests, logged_in, one_event, one_event-IsChained,
}
use document_feeder.Tests.Passwords.{crypto, write, read_from}
use document_feeder.Tests.Queue.{first_job}

abbrev pub world : WebEnvironment
world = record {
  pipeline = environment;
  crypto = crypto;
  hashing = hashing;
  lower = λ s. s;
  casefold = λ s. s;
  strip = λ s. s;
  ilike = λ s pattern. true;
  json_dumps = λ d. "";
}

abbrev root : UserAccount
root = record {
  id = "u1";
  username = "root";
  display_name = "Root";
  role = admin;
  active = true;
  password_hash = hash_password crypto "tiger" (some (7 ∷ [])) 0;
  last_login_at = none;
  created_at = 0;
  updated_at = 0;
}

abbrev eve : UserAccount
eve = record root { id = "u2"; username = "eve"; role = viewer }

abbrev pub service : Service ℕ
service = record {
  tables = record {
    db = record {
      jobs = values first_job ∷ [];
      events = [];
      targets = [];
      rules = [];
      settings = [];
      cipher = record { keys = none; known = [] };
    };
    users = root ∷ eve ∷ [];
    sessions = record { token_hash = "t"; user_id = "u2"; expires_at = 100000 } ∷ [];
    channels = [];
    audit_rows = [];
  };
  files = 0;
  last_event_at = [];
  readings = 0;
  draws = 0;
}

abbrev request : Request
request = record {
  method = "DELETE";
  path = "/v1/jobs/a";
  session_cookie = some "t";
  csrf_cookie = some "c";
  csrf_header = some "c";
}

abbrev route : Option UserAccount → Handler world Response
route user s = (raise (uncaught "x"), s)

authorize-Verdict_example :
    Verdict world route request service (authorize world route request service)
unfolding is_public
authorize-Verdict_example = authorize-Verdict world route request service refl refl

update_user-HasAdmin_example :
    HasAdmin
      (update_user world "u1"
        (record { display_name = none; role = some viewer; active = none; password = none })
        root
        service).1.tables.users
update_user-HasAdmin_example =
    update_user-HasAdmin world "u1"
      (record { display_name = none; role = some viewer; active = none; password = none }) root
      service (refl, (refl, tt)) refl

grant-IsDenied_example : IsDenied world 409 (grant world a_release "a") service
unfolding get values model
grant-IsDenied_example = (grant-IsDenied world a_release "a" service).1 first_job refl refl

-- a service whose log holds an event
abbrev logging : Service ℕ
logging = record service {
  tables = record service.tables {
    db = record service.tables.db { settings = one_event.settings };
    audit_rows = one_event.rows;
  };
}

retention_round-IsUpkept_example : IsUpkept world logging 0 (retention_round world logging)
unfolding delete_audit_events_before boundary first_retained delete_at delete_up_to sort_by
    audit_retention_days of_decimal get_system_setting
retention_round-IsUpkept_example =
    retention_round-IsUpkept world hashing-HasDigests logging 0 logged_in one_event-IsChained refl
      (inl refl)

abbrev attempt : LoginRequest
attempt = record { username = "root"; password = "tiger" }

abbrev answer : LoginAnswer
answer = record {
  view = record {
    id = "u1";
    username = "root";
    display_name = "Root";
    role = admin;
    active = true;
    last_login_at = some 1002;
    created_at = 0;
    updated_at = 1003;
  };
  session_cookie = "t0";
  csrf_cookie = "t1";
}

login-IsLoggedIn_example : IsLoggedIn world attempt service answer (login world attempt service).1
unfolding login ◌>>=◌ recent_failed_logins sort_by get_user_by_username verify_password
    split_at_most hash_password encoded_password write read_from of_decimal create_session
    new_session_token save_user record_event save_audit_event next_link anchor_index anchor_hash
    session_setting audit_hash redact_fields user_view anchor_link clashes
login-IsLoggedIn_example = login-IsLoggedIn world attempt service answer refl
