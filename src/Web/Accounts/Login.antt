-- ===== src/Web/Accounts/Login.antt =====
-- Who gets a session.
use document_feeder.Prelude.{
  ℕ, suc, ◌+◌, ◌-◌, ◌<◌, String, ◌≡◌, refl, true, ◌&&◌, Option, none, some, arith, ◌==◌, leb,
  eq_refl, Bool-cases, inl, inr, Outcome, ok, raise, subst, sym,
}
use document_feeder.Prelude.Exec.{◌>>=◌, ◌>>◌}
use document_feeder.Prelude.Exec.Laws.{Ensures, Keeps, bind-Ensures}
use document_feeder.Models.User.{UserAccount, LoginRequest}
use document_feeder.Auth.{verify_password, new_session_token, new_csrf_token}
use document_feeder.Table.{lookup, has}
use document_feeder.Table.Reads.{find_first-append}
use document_feeder.Models.Audit.{AuditEvent}
use document_feeder.Store.Audit.{AuditLog, AuditError}
use document_feeder.Store.Jobs.{StoreError}
use document_feeder.Store.Users.{
  UserTable, SessionRow, SessionTable, token_key, get_user_by_username, create_session, save_user,
  recent_failed_logins,
}
use document_feeder.Web.World.{
  WebEnvironment, Service, Handler, minutes, web_settings, reject, audited, record_event,
}
use document_feeder.Web.Accounts.{
  LoginAnswer, authenticated, log_in, log_in_as, throttle, login, start_session, with_session,
  hours, stored, store_user, welcome, remember_login, user_view,
}

-- The login was of an active user with the right password and few failures of late, and its cookie
-- is the token of a stored session of this user.
pub record IsLoggedIn (env : WebEnvironment) (q : LoginRequest)
    (before : Service env.pipeline.Files) (answer : LoginAnswer)
    (after : Service env.pipeline.Files) : Type 0 where
  pub user : UserAccount
  pub known : get_user_by_username env.lower q.username before.tables.users ≡ some user
  pub active : user.active ≡ true
  pub password : verify_password env.crypto q.password user.password_hash ≡ true
  pub few :
      recent_failed_logins env.lower
        (env.lower q.username)
        (env.pipeline.clock before.readings - minutes (web_settings env).login_window_minutes)
        before.tables.audit_rows
      < (web_settings env).login_max_attempts
  pub session : SessionRow
  pub started :
      lookup token_key (env.crypto.sha256_hexdigest answer.session_cookie) after.tables.sessions
      ≡ some session
  pub owner : session.user_id ≡ user.id

-- a session of the user is stored under a hash
abbrev IsIn : String → String → SessionTable → Type 0
IsIn hash id t = (row : SessionRow) × (lookup token_key hash t ≡ some row) × (row.user_id ≡ id)

module _ (env : WebEnvironment) where
  -- a session of the user is stored under a hash
  abbrev IsStarted : String → String → Service env.pipeline.Files → Type 0
  IsStarted hash id s = IsIn hash id s.tables.sessions

  with_session-IsStarted :
      (hash id : String) (expires : ℕ) (s : Service env.pipeline.Files)
      → Ensures (λ _. IsStarted hash id) (start_session env hash id expires) s
  unfolding start_session with_session create_session
  with_session-IsStarted hash id expires s a e =
      elim (Bool-cases (has token_key hash s.tables.sessions)) [
        | inl there ↦ let h = rw there at e in cc
        | inr new ↦ rw new (
          record { token_hash = hash; user_id = id; expires_at = expires },
          rw
              (
                find_first-append (λ r. token_key r == hash) s.tables.sessions
                    (record { token_hash = hash; user_id = id; expires_at = expires }),
                new,
                eq_refl hash,
              )
              refl,
          refl,
        )
      ]

  abbrev sessions_of : Service env.pipeline.Files → SessionTable
  sessions_of s = s.tables.sessions

  -- nothing comes out of a rejected request
  rejects :
      {A B : Type 0} (Q : B → Service env.pipeline.Files → Type 0) (m : Handler env A) (status : ℕ)
      (detail : String) (s : Service env.pipeline.Files)
      → Ensures Q (m >> reject env status detail) s
  rejects Q m status detail s = bind-Ensures (λ _ _. Unit) Q m _ s (λ a e. tt) (λ a t _ b e. cc)

  throttle-Ensures :
      (username : String) (Q : LoginAnswer → Service env.pipeline.Files → Type 0)
      (s : Service env.pipeline.Files)
      → Ensures Q (throttle env username) s
  unfolding throttle
  throttle-Ensures username Q s = rejects Q (record_event env _) 429 _ s

  stored-Keeps : (r : Outcome StoreError UserTable × UserAccount) → Keeps sessions_of (stored env r)
  unfolding stored
  stored-Keeps (ok t, user) s = refl
  stored-Keeps (raise e, user) s = refl

  store_user-Keeps : (user : UserAccount) → Keeps sessions_of (store_user env user)
  unfolding store_user ◌>>=◌
  store_user-Keeps user s = stored-Keeps (save_user env.lower _ user s.tables.users) _

  audited-Keeps : (r : Outcome AuditError AuditEvent × AuditLog) → Keeps sessions_of (audited env r)
  unfolding audited
  audited-Keeps (ok e, log) s = refl
  audited-Keeps (raise e, log) s = refl

  record_event-Keeps : (make : String → ℕ → AuditEvent) → Keeps sessions_of (record_event env make)
  unfolding record_event
  record_event-Keeps make s = audited-Keeps _ _

  -- The session that a login has started, and the token in its answer.
  abbrev Started : String → UserAccount → LoginAnswer → Service env.pipeline.Files → Type 0
  Started token user answer s =
      (answer.session_cookie ≡ token) × IsStarted (env.crypto.sha256_hexdigest token) user.id s

  answer_of : (n m : ℕ) → UserAccount → LoginAnswer
  answer_of n m saved = record {
    view = user_view saved;
    session_cookie = (new_session_token env.crypto n).0;
    csrf_cookie = new_csrf_token env.crypto m;
  }

  module _ (n : ℕ) (user : UserAccount) where
    abbrev Begun : Service env.pipeline.Files → Type 0
    Begun = IsStarted (env.crypto.sha256_hexdigest (env.crypto.token_urlsafe n)) user.id

    Begun-after :
        {A : Type 0} (step : Handler env A) (s : Service env.pipeline.Files)
        → Keeps sessions_of step
        → Begun s
        → Ensures (λ _. Begun) step s
    Begun-after step s keeps begun a e =
        subst (IsIn (env.crypto.sha256_hexdigest (env.crypto.token_urlsafe n)) user.id)
          (sym (keeps s)) begun

    welcome-Started :
        (m : ℕ) (saved : UserAccount) (s : Service env.pipeline.Files)
        → Begun s
        → Ensures (Started (env.crypto.token_urlsafe n) user) (welcome env n m saved) s
    unfolding welcome new_session_token answer_of
    welcome-Started m saved s begun =
        bind-Ensures (λ _. Begun) (Started (env.crypto.token_urlsafe n) user) (record_event env _) _
          s (Begun-after (record_event env _) s (record_event-Keeps _) begun)
          (λ _ t k answer e. let same : answer_of n m saved ≡ answer = cc in (rw (← same) refl, k))

    remember_login-Started :
        (m : ℕ) (s : Service env.pipeline.Files)
        → Begun s
        → Ensures (Started (env.crypto.token_urlsafe n) user) (remember_login env n m user) s
    unfolding remember_login ◌>>=◌
    remember_login-Started m s begun =
        bind-Ensures (λ _. Begun) (Started (env.crypto.token_urlsafe n) user)
          (store_user env (record user { last_login_at = some (env.pipeline.clock s.readings) }))
          (welcome env n m) (record s { readings = suc s.readings })
          (Begun-after (store_user env _) _ (store_user-Keeps _) begun)
          (λ saved t k. welcome-Started m saved t k)

  log_in-Started :
      (user : UserAccount) (s : Service env.pipeline.Files)
      → Ensures (Started (env.crypto.token_urlsafe s.draws) user) (log_in env user) s
  unfolding log_in ◌>>=◌ new_session_token
  log_in-Started user s =
      bind-Ensures (λ _. Begun s.draws user) (Started (env.crypto.token_urlsafe s.draws) user)
        (start_session env (env.crypto.sha256_hexdigest (env.crypto.token_urlsafe s.draws)) user.id
          (env.pipeline.clock s.readings + hours (web_settings env).session_ttl_hours))
        (λ _. remember_login env s.draws (suc s.draws) user)
        (record s { readings = suc s.readings; draws = suc (suc s.draws) })
        (with_session-IsStarted _ user.id _ _)
        (λ _ t k. remember_login-Started s.draws user (suc s.draws) t k)

  abbrev failures : LoginRequest → Service env.pipeline.Files → ℕ
  failures q s =
      recent_failed_logins env.lower (env.lower q.username)
        (env.pipeline.clock s.readings - minutes (web_settings env).login_window_minutes)
        s.tables.audit_rows

  authenticated-some :
      (q : LoginRequest) (found : Option UserAccount) (user : UserAccount)
      → authenticated env q found ≡ some user
      → (found ≡ some user)
        × (user.active ≡ true)
        × (verify_password env.crypto q.password user.password_hash ≡ true)
  unfolding authenticated
  authenticated-some q none user e = cc
  authenticated-some q (some u) user e =
      elim (Bool-cases (u.active && verify_password env.crypto q.password u.password_hash)) [
        | inl fits ↦
            let same : u ≡ user = let h = rw fits at e in cc in
            rw (← same) (refl, ground arith, ground arith)
        | inr wrong ↦ let h = rw wrong at e in cc
      ]

  accepted :
      (q : LoginRequest) (s : Service env.pipeline.Files) (o : Option UserAccount)
      → authenticated env q (get_user_by_username env.lower q.username s.tables.users) ≡ o
      → failures q s < (web_settings env).login_max_attempts
      → Ensures
          (IsLoggedIn env q s)
          (log_in_as env (env.lower q.username) o)
          (record s { readings = suc s.readings })
  unfolding log_in_as
  accepted q s none e few answer k =
      rejects (IsLoggedIn env q s) (record_event env _) 401 _
        (record s { readings = suc s.readings }) answer k
  accepted q s (some user) e few answer k =
      let (known, active, password) = authenticated-some q _ user e in
      let (cookie, (row, found, owner)) =
        log_in-Started user (record s { readings = suc s.readings }) answer k in
      record {
        user = user;
        known = known;
        active = active;
        password = password;
        few = few;
        session = row;
        started = rw cookie found;
        owner = owner;
      }

  login-Ensures :
      (q : LoginRequest) (s : Service env.pipeline.Files)
      → Ensures (IsLoggedIn env q s) (login env q) s
  unfolding login ◌>>=◌
  login-Ensures q s = elim (Bool-cases (leb (web_settings env).login_max_attempts (failures q s))) [
    | inl many ↦ rw many (throttle-Ensures _ (IsLoggedIn env q s) _)
    | inr few ↦ rw few (accepted q s _ refl (ground arith))
  ]

  -- A login succeeds only for a stored active user, with a password that fits the stored one and
  -- fewer recent failures than the limit, and then the cookie of the answer is the token of a
  -- stored session of this user.
  pub login-IsLoggedIn :
      (q : LoginRequest) (s : Service env.pipeline.Files) (answer : LoginAnswer)
      → (login env q s).0 ≡ ok answer
      → IsLoggedIn env q s answer (login env q s).1
  login-IsLoggedIn q s answer e = login-Ensures q s answer e
