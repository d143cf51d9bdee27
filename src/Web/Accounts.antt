-- ===== src/Web/Accounts.antt =====
-- Login, logout, the own profile and the administration of accounts (src/document_core/api.py). A
-- field of an update that is absent is `none`; an explicit null is outside the model.
pub mod Admins
pub mod Login
use document_feeder.Prelude.{
  ℕ, ◌+◌, ◌-◌, ◌*◌, String, Bool, true, false, not, ◌&&◌, ◌||◌, Option, none, some, List, map, ◌==◌,
  leb, eqb, is_some, length, select, if◌then◌else◌, Outcome, ok, raise,
}
use document_feeder.Prelude.Exec.{pure, throw, ◌>>=◌, ◌>>◌}
use document_feeder.Json.{Fields, text, empty, field}
use document_feeder.Models.Audit.{AuditEvent}
use document_feeder.Models.User.{
  UserAccount, UserView, UserCreate, UserUpdate, LoginRequest, ProfileUpdate,
}
use document_feeder.Auth.{hash_password, verify_password, new_session_token, new_csrf_token}
use document_feeder.Table.{has}
use document_feeder.Store.Jobs.{StoreError}
use document_feeder.Store.Users.{
  UserTable, SessionTable, user_key, list_users, get_user, get_user_by_username, save_user,
  create_session, delete_session, delete_user_sessions, recent_failed_logins,
}
use document_feeder.Web.World.{
  WebEnvironment, WebError, http_exception, uncaught, Service, Tables, Handler, minutes,
  web_settings, web_now, draw, read, write, reject, record_event,
}
use document_feeder.Web.Access.{is_admin}

-- The answer to a login, with the two cookies that it sets.
pub record LoginAnswer : Type 0 where
  pub view : UserView
  pub session_cookie : String
  pub csrf_cookie : String

unfoldable pub user_view : UserAccount → UserView
user_view u = record {
  id = u.id;
  username = u.username;
  display_name = u.display_name;
  role = u.role;
  active = u.active;
  last_login_at = u.last_login_at;
  created_at = u.created_at;
  updated_at = u.updated_at;
}

-- a field of the update, or the field as it is
abbrev pub given : {A : Type 0} → Option A → A → A
given none old = old
given (some new) old = new

-- a password that was sent
abbrev pub has_password : Option String → Bool
has_password none = false
has_password (some p) = not (p == "")

abbrev pub is_active_admin : UserAccount → Bool
is_active_admin u = u.active && is_admin u.role

abbrev pub hours : ℕ → ℕ
hours n = n * 3600000000

-- the account is the last active administrator and would not be one any more
unfoldable pub loses_last_admin : UserAccount → UserTable → Bool
loses_last_admin user t =
    let active_admins = select is_active_admin (list_users t) in
    has user_key user.id active_admins
    && ((not user.active || not (is_admin user.role)) && eqb (length active_admins) 1)

module _ (env : WebEnvironment) where
  unfoldable pub stored : Outcome StoreError UserTable × UserAccount → Handler env UserAccount
  stored (ok users, user) s = (ok user, record s { tables = record s.tables { users = users } })
  stored (raise e, user) s = (raise (uncaught env.pipeline.database_error), s)

  -- `store.save_user(user)`
  unfoldable pub store_user : UserAccount → Handler env UserAccount
  unfolding stored
  store_user user = web_now env >>= λ now s. stored (save_user env.lower now user s.tables.users) s

  unfoldable pub with_session : Outcome StoreError SessionTable → Handler env Unit
  with_session (ok t) s = (ok tt, record s { tables = record s.tables { sessions = t } })
  with_session (raise e) s = (raise (uncaught env.pipeline.database_error), s)

  -- `store.create_session(token_hash, user_id, expires_at)`
  unfoldable pub start_session : String → String → ℕ → Handler env Unit
  unfolding with_session
  start_session token_hash user_id expires_at s =
      with_session (create_session token_hash user_id expires_at s.tables.sessions) s

  unfoldable pub end_sessions : String → Handler env Unit
  end_sessions user_id =
      write env (λ t. record t { sessions = delete_user_sessions user_id t.sessions })

  abbrev pub login_event : Option String → String → String → ℕ → Fields → String → ℕ → AuditEvent
  login_event user_id username outcome status details id now = record {
    id = id;
    actor_user_id = user_id;
    actor_username = username;
    action = "LOGIN";
    resource_type = "session";
    resource_id = none;
    outcome = outcome;
    status_code = status;
    details = details;
    created_at = now;
  }

  -- the account of a login whose password fits
  unfoldable pub authenticated : LoginRequest → Option UserAccount → Option UserAccount
  authenticated q none = none
  authenticated q (some user) =
      if user.active && verify_password env.crypto q.password user.password_hash
      then some user
      else none

  -- the end of a login that was accepted, with the draws of its two tokens
  unfoldable pub welcome : ℕ → ℕ → UserAccount → Handler env LoginAnswer
  welcome n m saved =
      record_event env (login_event (some saved.id) saved.username "success" 200 empty)
      >> pure (record {
        view = user_view saved;
        session_cookie = (new_session_token env.crypto n).0;
        csrf_cookie = new_csrf_token env.crypto m;
      })

  unfoldable pub remember_login : ℕ → ℕ → UserAccount → Handler env LoginAnswer
  unfolding store_user welcome
  remember_login n m user =
      web_now env >>= λ t. store_user (record user { last_login_at = some t }) >>= welcome n m

  -- a login that was accepted
  unfoldable pub log_in : UserAccount → Handler env LoginAnswer
  unfolding start_session remember_login
  log_in user = draw env >>= λ n. draw env >>= λ m. web_now env >>= λ now.
      start_session (new_session_token env.crypto n).1 user.id
        (now + hours (web_settings env).session_ttl_hours)
      >> remember_login n m user

  unfoldable pub log_in_as : String → Option UserAccount → Handler env LoginAnswer
  unfolding log_in
  log_in_as username none =
      record_event env (login_event none username "failure" 401 empty)
      >> reject env 401 "Benutzername oder Passwort ist falsch"
  log_in_as username (some user) = log_in user

  -- the answer to too many failures
  unfoldable pub throttle : String → Handler env LoginAnswer
  throttle username =
      record_event env
        (login_event none username "failure" 429 (field "reason" (text "rate_limited") empty))
      >> reject env 429 "Zu viele Anmeldeversuche. Bitte später erneut versuchen"

  -- `login`
  unfoldable pub login : LoginRequest → Handler env LoginAnswer
  unfolding log_in_as authenticated throttle
  login q = web_now env >>= λ now.
      read env (λ t.
        recent_failed_logins env.lower (env.lower q.username)
          (now - minutes (web_settings env).login_window_minutes) t.audit_rows)
      >>= λ failures.
          if leb (web_settings env).login_max_attempts failures
          then throttle (env.lower q.username)
          else (read env (λ t. get_user_by_username env.lower q.username t.users) >>= λ user.
              log_in_as (env.lower q.username) (authenticated q user))

  -- the password's hash, with a drawn salt
  unfoldable pub new_password : Option String → UserAccount → Handler env UserAccount
  new_password none user = pure user
  new_password (some password) user = draw env >>= λ n.
      pure (record user { password_hash = hash_password env.crypto password none n })

  -- `update_profile`, where stripping a text is a parameter
  unfoldable pub update_profile :
      (String → String) → UserAccount → ProfileUpdate → Handler env UserView
  unfolding new_password store_user end_sessions
  update_profile strip user q =
      new_password q.password (record user {
        display_name = elim q.display_name [ none ↦ user.display_name | some name ↦ strip name ];
      })
      >>= λ user. store_user user >>= λ saved.
          (if is_some q.password then end_sessions saved.id else pure tt) >> pure (user_view saved)

  -- `logout`
  unfoldable pub logout : Option String → Handler env Unit
  logout none = pure tt
  logout (some token) =
      if token == ""
      then pure tt
      else write env (λ t. record t {
        sessions = delete_session (env.crypto.sha256_hexdigest token) t.sessions;
      })

  -- the route `list_users`
  unfoldable pub list_accounts : Handler env (List UserView)
  list_accounts = read env (λ t. map user_view (list_users t.users))

  new_account : UserCreate → String → String → ℕ → ℕ → UserAccount
  new_account q hash id created updated = record {
    id = id;
    username = q.username;
    display_name = q.display_name;
    role = q.role;
    active = true;
    password_hash = hash;
    last_login_at = none;
    created_at = created;
    updated_at = updated;
  }

  -- `create_user`
  unfoldable pub create_user : UserCreate → Handler env UserView
  unfolding new_account store_user
  create_user q = read env (λ t. get_user_by_username env.lower q.username t.users) >>= λ known.
      if is_some known
      then reject env 409 "Benutzername ist bereits vergeben"
      else (draw env >>= λ salt. draw env >>= λ n. web_now env >>= λ created.
          web_now env >>= λ updated.
          store_user (
            new_account q (hash_password env.crypto q.password none salt) (env.pipeline.uuid n)
              created updated)
          >>= λ saved. pure (user_view saved))

  -- the values of the update, but for the password
  abbrev pub assigned : UserUpdate → UserAccount → UserAccount
  assigned q user = record user {
    display_name = given q.display_name user.display_name;
    role = given q.role user.role;
    active = given q.active user.active;
  }

  abbrev pub sent_password : Option String → Option String
  sent_password none = none
  sent_password (some p) = if p == "" then none else some p

  -- after the write
  unfoldable pub update_saved : UserUpdate → UserAccount → Handler env UserView
  unfolding end_sessions
  update_saved q saved =
      (if has_password q.password || not saved.active then end_sessions saved.id else pure tt)
      >> pure (user_view saved)

  unfoldable pub save_update : UserUpdate → UserAccount → UserAccount → Handler env UserView
  unfolding loses_last_admin store_user update_saved
  save_update q caller user =
      if user.id == caller.id && not user.active
      then reject env 409 "Das eigene Konto kann nicht deaktiviert werden"
      else (read env (λ t. loses_last_admin user t.users) >>= λ last.
          if last
          then reject env 409 "Der letzte aktive Admin muss erhalten bleiben"
          else (store_user user >>= update_saved q))

  unfoldable pub update_found : UserUpdate → UserAccount → Option UserAccount → Handler env UserView
  unfolding save_update new_password
  update_found q caller none = reject env 404 "Benutzer nicht gefunden"
  update_found q caller (some user) =
      new_password (sent_password q.password) (assigned q user) >>= save_update q caller

  -- `update_user`, where `caller` is the account that the middleware found
  unfoldable pub update_user : String → UserUpdate → UserAccount → Handler env UserView
  unfolding update_found
  update_user user_id q caller = read env (λ t. get_user user_id t.users) >>= update_found q caller
