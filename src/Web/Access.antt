-- ===== src/Web/Access.antt =====
-- Who may call what: the middleware `authorize` with `session_user` and `record_audit`
-- (src/document_core/api.py).
pub mod Policy
use Prim.Native.Char.{char, code}
use Prim.Native.String
use package.text.Mathlib.Text.{starts_with}
use mathlib.Core.Option
use document_feeder.Prelude.{
  ℕ, String, ◌<>◌, Bool, true, false, not, ◌&&◌, ◌||◌, Option, none, some, List, [], ◌∷◌, ◌==◌, ltb,
  exists, select, if◌then◌else◌, Outcome, ok, raise,
}
use document_feeder.Prelude.Exec.{pure, throw, ◌>>=◌, ◌>>◌}
use document_feeder.Prelude.Split.{split}
use document_feeder.Json.{text, number, object, empty, field}
use document_feeder.Models.Audit.{AuditEvent}
use document_feeder.Models.User.{UserAccount, UserRole, admin, operator, viewer}
use document_feeder.Store.Users.{get_session_user}
use document_feeder.Web.World.{
  WebEnvironment, WebError, http_exception, uncaught, Request, Response, Service, Handler, web_now,
  read, record_event, web_settings,
}

abbrev pub is_admin : UserRole → Bool
is_admin admin = true
is_admin _ = false

abbrev pub is_viewer : UserRole → Bool
is_viewer viewer = true
is_viewer _ = false

-- `text in {…}`
abbrev pub one_of : List String → String → Bool
one_of names s = exists (λ n. s == n) names

-- `path.startswith((…))`
abbrev pub starts_with_any : List String → String → Bool
starts_with_any prefixes path = exists (λ p. starts_with path p) prefixes

unfoldable pub is_public : String → Bool
is_public path =
    one_of ("/" ∷ "/health" ∷ "/v1/auth/login" ∷ []) path || starts_with path "/static/"

unfoldable pub is_safe : String → Bool
is_safe = one_of ("GET" ∷ "HEAD" ∷ "OPTIONS" ∷ [])

unfoldable pub is_administration : String → Bool
is_administration =
    starts_with_any ("/v1/users" ∷ "/v1/audit-events" ∷ "/v1/system-status" ∷ "/v1/license" ∷ [])

unfoldable pub is_configuration : String → Bool
is_configuration =
    starts_with_any ("/v1/input-channels" ∷ "/v1/target-systems" ∷ "/v1/delivery-rules" ∷ [])

unfoldable pub is_self_service : String → Bool
is_self_service = one_of ("/v1/auth/me" ∷ "/v1/auth/logout" ∷ [])

abbrev pub is_ascii : String → Bool
is_ascii String.[] = true
is_ascii (String.◌∷◌ c s) = ltb (code c) 128 && is_ascii s

-- The comparison of the two tokens raises: `hmac.compare_digest` takes texts of ASCII only.
unfoldable pub csrf_raises : Option String → Option String → Bool
csrf_raises none header = false
csrf_raises (some cookie) none = false
csrf_raises (some cookie) (some header) =
    not (cookie == "") && (not (header == "") && not (is_ascii cookie && is_ascii header))

-- `not csrf_cookie or not csrf_header or not hmac.compare_digest(csrf_cookie, csrf_header)`,
-- negated, where the comparison does not raise
unfoldable pub csrf_ok : Option String → Option String → Bool
csrf_ok none header = false
csrf_ok (some cookie) none = false
csrf_ok (some cookie) (some header) = not (cookie == "") && (not (header == "") && cookie == header)

-- `JSONResponse({"detail": …}, status_code=…)`
abbrev pub refusal : ℕ → String → Response
refusal status detail = record {
  status_code = status;
  content = object (field "detail" (text detail) empty);
}

-- the piece of a path at a place
abbrev pub second : List String → String
second (a ∷ b ∷ rest) = b
second _ = "system"

abbrev pub third : List String → Option String
third (a ∷ b ∷ c ∷ rest) = some c
third _ = none

-- The framework answers an `HTTPException` with its status; another exception goes on.
unfoldable pub answered :
    {S : Type 0} → Outcome WebError Response × S → Outcome WebError Response × S
answered (ok r, s) = (ok r, s)
answered (raise (http_exception status detail), s) = (ok (refusal status detail), s)
answered (raise (uncaught e), s) = (raise (uncaught e), s)

-- The answer to a request that the user may not make: the guards before `call_next`.
unfoldable pub objection : Request → UserAccount → Option Response
objection request user =
    let safe = is_safe request.method in
    if not safe && not (csrf_ok request.csrf_cookie request.csrf_header)
    then some (refusal 403 "Ungültiger CSRF-Schutz")
    else if is_administration request.path && not (is_admin user.role)
    then some (refusal 403 "Administratorrechte erforderlich")
    else if is_configuration request.path && (not safe && not (is_admin user.role))
    then some (refusal 403 "Administratorrechte erforderlich")
    else if not safe && (is_viewer user.role && not (is_self_service request.path))
    then some (refusal 403 "Nur Lesezugriff erlaubt")
    else none

module _ (env : WebEnvironment) where
  -- `session_user(request)`
  unfoldable pub session_user : Option String → Handler env (Option UserAccount)
  session_user none = pure none
  session_user (some token) =
      if token == ""
      then pure none
      else web_now env >>= λ now.
          read env
            (λ t. get_session_user now (env.crypto.sha256_hexdigest token) t.sessions t.users)

  abbrev pub audit_entry :
      Option UserAccount → String → String → ℕ → List String → String → ℕ → AuditEvent
  audit_entry user method path status parts id now = record {
    id = id;
    actor_user_id = Option.map (λ u. u.id) user;
    actor_username = elim user [ none ↦ "unknown" | some u ↦ u.username ];
    action = method <> (" " <> path);
    resource_type = second parts;
    resource_id = third parts;
    outcome = if ltb status 400 then "success" else "failure";
    status_code = status;
    details = field "method" (text method) (field "path" (text path) empty);
    created_at = now;
  }

  -- `record_audit(user, method, path, status_code)`
  unfoldable pub record_audit : Option UserAccount → String → String → ℕ → Handler env Unit
  record_audit user method path status = record_event env (
      audit_entry user method path status
        (select (λ part. not (part == "")) (split (char 47 tt) path)))

  -- the request reaches its route
  unfoldable pub admit :
      (Option UserAccount → Handler env Response) → Request → UserAccount → Handler env Response
  unfolding answered
  admit route request user = (λ s. answered (route (some user) s)) >>= λ response.
      if is_safe request.method
      then pure response
      else (record_audit (some user) request.method request.path response.status_code
          >> pure response)

  unfoldable pub admit_unless :
      (Option UserAccount → Handler env Response)
      → Request
      → UserAccount
      → Option Response
      → Handler env Response
  unfolding admit
  admit_unless route request user none = admit route request user
  admit_unless route request user (some response) = pure response

  unfoldable pub authorize_user :
      (Option UserAccount → Handler env Response)
      → Request
      → Option UserAccount
      → Handler env Response
  unfolding admit_unless
  authorize_user route request none = pure (refusal 401 "Anmeldung erforderlich")
  authorize_user route request (some user) =
      if not (is_safe request.method) && csrf_raises request.csrf_cookie request.csrf_header
      then throw (uncaught "comparing strings with non-ASCII characters is not supported")
      else admit_unless route request user (objection request user)

  -- `authorize`, where `route` is what `call_next` calls
  unfoldable pub authorize :
      (Option UserAccount → Handler env Response) → Request → Handler env Response
  unfolding authorize_user session_user is_public answered
  authorize route request =
      if not (web_settings env).auth_enabled
      then (λ s. answered (route none s))
      else if is_public request.path
      then (λ s. answered (route none s))
      else (session_user request.session_cookie >>= authorize_user route request)
