-- ===== src/Web/Access/Policy.antt =====
-- The middleware follows the policy for the roles: a request that the policy refuses has no effect.
use document_feeder.Prelude.{
  ℕ, suc, String, ◌≡◌, ◌⊎◌, refl, Bool, true, false, not, ◌&&◌, ◌||◌, Option, none, some, arith,
  ◌==◌, is_some, Bool-cases, inl, inr, if◌then◌else◌, Outcome, ok, raise, subst, sym, ap, ltb, ◌<>◌,
  List,
}
use document_feeder.Prelude.Exec.{pure, ◌>>=◌, ◌>>◌}
use document_feeder.Json.{text, object, empty, field}
use document_feeder.Models.Audit.{AuditEvent}
use document_feeder.Models.User.{UserAccount, UserRole, admin, operator, viewer}
use document_feeder.Store.Users.{get_session_user}
use document_feeder.Web.World.{
  WebEnvironment, WebError, http_exception, uncaught, record_event, Request, Response, Service,
  Handler, web_settings,
}
use document_feeder.Web.Access.{
  is_public, is_safe, is_administration, is_configuration, is_self_service, csrf_ok, csrf_raises,
  is_ascii, answered, audit_entry, record_audit, refusal, objection, session_user, admit,
  admit_unless, authorize_user, authorize,
}

-- The parts of the interface that the policy tells apart.
pub data Area : Type 0 where
  administration configuration self_service documents : Area

abbrev pub area_of : Bool → Bool → Bool → Area
area_of true c s = administration
area_of false true s = configuration
area_of false false true = self_service
area_of false false false = documents

abbrev pub area : String → Area
area path = area_of (is_administration path) (is_configuration path) (is_self_service path)

-- Who may read (`true`) or change (`false`) which part.
abbrev pub permits : UserRole → Area → Bool → Bool
permits admin a reads = true
permits operator administration reads = false
permits operator configuration reads = reads
permits operator self_service reads = true
permits operator documents reads = true
permits viewer administration reads = false
permits viewer configuration reads = reads
permits viewer self_service reads = true
permits viewer documents reads = reads

-- The request carries a token of an active user's running session, the policy permits it to the
-- user's role, and if it changes something its header repeats its CSRF cookie.
pub record IsAdmitted (env : WebEnvironment) (request : Request) (s : Service env.pipeline.Files)
    (user : UserAccount) : Type 0 where
  pub token : String
  pub sent : request.session_cookie ≡ some token
  pub not_empty : (token == "") ≡ false
  pub running :
      get_session_user
        (env.pipeline.clock s.readings)
        (env.crypto.sha256_hexdigest token)
        s.tables.sessions
        s.tables.users
      ≡ some user
  pub repeated : (is_safe request.method || csrf_ok request.csrf_cookie request.csrf_header) ≡ true
  pub permitted : permits user.role (area request.path) (is_safe request.method) ≡ true

-- The answer is 401 or 403, and the tables and the files are as before.
pub record IsRefused {Files : Type 0} (out : Outcome WebError Response × Service Files)
    (s : Service Files) : Type 0 where
  pub response : Response
  pub answer : out.0 ≡ ok response
  pub status : (response.status_code ≡ 401) ⊎ (response.status_code ≡ 403)
  pub same_tables : out.1.tables ≡ s.tables
  pub same_files : out.1.files ≡ s.files

-- The tokens of a changing request are not both of ASCII: the comparison raises, and the tables and
-- the files are as before.
pub record IsAborted {Files : Type 0} (request : Request)
    (out : Outcome WebError Response × Service Files) (s : Service Files) : Type 0 where
  pub cookie : String
  pub header : String
  pub cookie_sent : request.csrf_cookie ≡ some cookie
  pub header_sent : request.csrf_header ≡ some header
  pub changing : is_safe request.method ≡ false
  pub no_ascii : (is_ascii cookie && is_ascii header) ≡ false
  pub error : String
  pub raised : out.0 ≡ raise (uncaught error)
  pub same_tables : out.1.tables ≡ s.tables
  pub same_files : out.1.files ≡ s.files

-- What a client gets when a route ends so: the answer of an `HTTPException` has its status and its
-- detail.
abbrev pub IsAnswer : Outcome WebError Response → Outcome WebError Response → Type 0
IsAnswer (ok response) out = out ≡ ok response
IsAnswer (raise (http_exception status detail)) out =
    out
    ≡ ok (record { status_code = status; content = object (field "detail" (text detail) empty) })
IsAnswer (raise (uncaught e)) out = out ≡ raise (uncaught e)

-- The audit event for an answered request: who did what, with which status and outcome, and when.
pub record IsEntry (user : UserAccount) (request : Request) (response : Response)
    (make : String → ℕ → AuditEvent) : Type 0 where
  pub actor : (id : String) (now : ℕ) → (make id now).actor_user_id ≡ some user.id
  pub name : (id : String) (now : ℕ) → (make id now).actor_username ≡ user.username
  pub action :
      (id : String) (now : ℕ) → (make id now).action ≡ request.method <> (" " <> request.path)
  pub status : (id : String) (now : ℕ) → (make id now).status_code ≡ response.status_code
  pub outcome :
      (id : String) (now : ℕ)
      → (make id now).outcome ≡ (if ltb response.status_code 400 then "success" else "failure")
  pub time : (id : String) (now : ℕ) → (make id now).created_at ≡ now

-- A route has run, with the result `ran`, and the client gets its answer; that of a changing request
-- goes into the audit log, unless the route fails with an error that is no `HTTPException`.
pub data Served (env : WebEnvironment) (request : Request) (user : UserAccount)
    (ran out : Outcome WebError Response × Service env.pipeline.Files) : Type 0 where
  unrecorded :
      is_safe request.method ≡ true
      → IsAnswer ran.0 out.0
      → out.1 ≡ ran.1
      → Served env request user ran out
  recorded :
      is_safe request.method ≡ false
      → (response : Response) → IsAnswer ran.0 (ok response)
      → (make : String → ℕ → AuditEvent) → IsEntry user request response make
      → out ≡ (record_event env make >> pure response) ran.1
      → Served env request user ran out
  broken_off :
      (e : String)
      → ran.0 ≡ raise (uncaught e)
      → out ≡ (raise (uncaught e), ran.1)
      → Served env request user ran out

objection-permits_at :
    (request : Request) (user : UserAccount) (role : UserRole)
    → user.role ≡ role
    → is_some (objection request user)
      ≡ not (
          (is_safe request.method || csrf_ok request.csrf_cookie request.csrf_header)
          && permits role (area request.path) (is_safe request.method))
unfolding objection
objection-permits_at request user admin e = rw e (ground arith)
objection-permits_at request user operator e = rw e (ground arith)
objection-permits_at request user viewer e = rw e (ground arith)

objection-status :
    (request : Request) (user : UserAccount) (r : Response)
    → objection request user ≡ some r
    → r.status_code ≡ 403
unfolding objection
objection-status request user r e = ground arith

guarded :
    {A : Type 0} (a b : Bool) (x y z : A)
    → a ≡ true
    → b ≡ false
    → (if not a then x else if b then y else z) ≡ z
guarded a b x y z p q = rw (p, q) refl

-- What the middleware makes of a request: it runs the route of an admitted one for its user, or
-- refuses, or ends in the error of the comparison.
abbrev pub Verdict :
    (env : WebEnvironment)
    → (Option UserAccount → Handler env Response)
    → Request
    → Service env.pipeline.Files
    → Outcome WebError Response × Service env.pipeline.Files
    → Type 0
Verdict env route request s out =
    ((user : UserAccount) × IsAdmitted env request s user
      × Served env request user (route (some user) (record s { readings = suc s.readings })) out)
    ⊎ (IsRefused out s ⊎ IsAborted request out s)

module _ (env : WebEnvironment) (request : Request) (user : UserAccount) where
  -- what `admit` makes of the end of the route
  after : Outcome WebError Response × Service env.pipeline.Files → Handler env Response
  unfolding answered
  after ran = (λ _. answered ran) >>= λ response.
      if is_safe request.method
      then pure response
      else (record_audit env (some user) request.method request.path response.status_code
          >> pure response)

  audit_entry-IsEntry :
      (response : Response) (parts : List String)
      → IsEntry user request response
          (audit_entry env (some user) request.method request.path response.status_code parts)
  audit_entry-IsEntry response parts = record {
    actor = λ id now. refl;
    name = λ id now. refl;
    action = λ id now. refl;
    status = λ id now. refl;
    outcome = λ id now. refl;
    time = λ id now. refl;
  }

  after_answer :
      (ran : Outcome WebError Response × Service env.pipeline.Files) (response : Response)
      → IsAnswer ran.0 (ok response)
      → Served env request user ran (
          (if is_safe request.method
              then pure response
              else (record_audit env (some user) request.method request.path response.status_code
                  >> pure response))
            ran.1)
  unfolding record_audit
  after_answer ran response a = elim (Bool-cases (is_safe request.method)) [
    | inl e ↦ rw e (unrecorded e a refl)
    | inr e ↦ rw e (recorded e response a _ (audit_entry-IsEntry response _) refl)
  ]

  after-Served :
      (ran : Outcome WebError Response × Service env.pipeline.Files)
      (s : Service env.pipeline.Files)
      → Served env request user ran (after ran s)
  unfolding after ◌>>=◌
  after-Served (ok response, t) s = after_answer (ok response, t) response refl
  after-Served (raise (http_exception status detail), t) s =
      after_answer (raise (http_exception status detail), t) (refusal status detail) refl
  after-Served (raise (uncaught e), t) s = broken_off e refl refl

  admit-Served :
      (route : Option UserAccount → Handler env Response) (s : Service env.pipeline.Files)
      → Served env request user (route (some user) s) (admit env route request user s)
  unfolding admit after ◌>>=◌
  admit-Served route s = after-Served (route (some user) s) s

module _ (env : WebEnvironment) (route : Option UserAccount → Handler env Response)
    (request : Request) (s : Service env.pipeline.Files) where
  refused_with :
      (status : ℕ) (detail : String) (n : ℕ)
      → (status ≡ 401) ⊎ (status ≡ 403)
      → Verdict env route request s (ok (refusal status detail), record s { readings = n })
  refused_with status detail n k = inr (
      inl (record {
        response = refusal status detail;
        answer = refl;
        status = k;
        same_tables = refl;
        same_files = refl;
      }))

  by_objection :
      (token : String) (user : UserAccount) (o : Option Response)
      → request.session_cookie ≡ some token
      → (token == "") ≡ false
      → get_session_user
          (env.pipeline.clock s.readings)
          (env.crypto.sha256_hexdigest token)
          s.tables.sessions
          s.tables.users
        ≡ some user
      → objection request user ≡ o
      → Verdict env route request s
          (admit_unless env route request user o (record s { readings = suc s.readings }))
  unfolding admit_unless
  by_objection token user none sent given e free =
      let permits_it = objection-permits_at request user user.role refl in
      inl (
        user,
        record {
          token = token;
          sent = sent;
          not_empty = given;
          running = e;
          repeated = let h = rw free at permits_it in ground arith;
          permitted = let h = rw free at permits_it in ground arith;
        },
        admit-Served env request user route (record s { readings = suc s.readings }),
      )
  by_objection token user (some response) sent given e blocked = inr (
      inl (record {
        response = response;
        answer = refl;
        status = inr (objection-status request user response blocked);
        same_tables = refl;
        same_files = refl;
      }))

  -- what the comparison of the tokens raises for
  aborted :
      (cookie header : Option String)
      → request.csrf_cookie ≡ cookie
      → request.csrf_header ≡ header
      → is_safe request.method ≡ false
      → csrf_raises cookie header ≡ true
      → (out : Outcome WebError Response × Service env.pipeline.Files) (error : String)
      → out ≡ (raise (uncaught error), record s { readings = suc s.readings })
      → IsAborted request out s
  unfolding csrf_raises
  aborted none header c h u r out error e = cc
  aborted (some cookie) none c h u r out error e = cc
  aborted (some cookie) (some header) c h u r out error e = record {
    cookie = cookie;
    header = header;
    cookie_sent = c;
    header_sent = h;
    changing = u;
    no_ascii = ground arith;
    error = error;
    raised = ap (λ o. o.0) e;
    same_tables = ap (λ o. o.1.tables) e;
    same_files = ap (λ o. o.1.files) e;
  }

  by_user :
      (token : String) (o : Option UserAccount)
      → request.session_cookie ≡ some token
      → (token == "") ≡ false
      → get_session_user
          (env.pipeline.clock s.readings)
          (env.crypto.sha256_hexdigest token)
          s.tables.sessions
          s.tables.users
        ≡ o
      → Verdict env route request s
          (authorize_user env route request o (record s { readings = suc s.readings }))
  unfolding authorize_user
  by_user token none sent given e = refused_with 401 _ (suc s.readings) (inl refl)
  by_user token (some user) sent given e =
      elim (Bool-cases
        (not (is_safe request.method) && csrf_raises request.csrf_cookie request.csrf_header)) [
          | inl r ↦ rw r (
              inr (
                inr (
                  aborted request.csrf_cookie request.csrf_header refl refl (ground arith)
                    (ground arith) _ _ refl)))
          | inr r ↦ rw r (by_objection token user (objection request user) sent given e refl)
        ]

  by_cookie :
      (cookie : Option String)
      → request.session_cookie ≡ cookie
      → Verdict env route request s
          ((session_user env cookie >>= authorize_user env route request) s)
  unfolding session_user ◌>>=◌
  by_cookie none sent = unfold authorize_user in refused_with 401 _ s.readings (inl refl)
  by_cookie (some token) sent = elim (Bool-cases (token == "")) [
    | inl e ↦ rw e (unfold authorize_user in refused_with 401 _ s.readings (inl refl))
    | inr e ↦ rw e (by_user token _ sent e refl)
  ]

  -- A request to a part that is not public, where authentication is enabled, comes to one of three
  -- ends. It is admitted by the policy, and then its route runs for its user and the client gets
  -- the route's answer, that of a changing request after an audit event for it, unless the log does
  -- not take the event; an error of the route that is no `HTTPException` goes on. Or it is refused:
  -- answered with 401 or 403. Or it changes something, its tokens are not both of ASCII, and it
  -- fails. In the last two cases the tables and the files are as before, whatever the route would
  -- do.
  pub authorize-Verdict :
      (web_settings env).auth_enabled ≡ true
      → is_public request.path ≡ false
      → Verdict env route request s (authorize env route request s)
  unfolding authorize
  authorize-Verdict enabled guarded_path =
      subst {A = Handler env Response} (λ m. Verdict env route request s (m s))
        (sym (guarded _ _ _ _ _ enabled guarded_path)) (by_cookie request.session_cookie refl)
