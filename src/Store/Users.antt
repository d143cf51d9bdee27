-- ===== src/Store/Users.antt =====
-- `users` and `user_sessions` (src/document_core/store.py). Lower-casing a text is a parameter.
pub mod Sessions
use Prim.Native.String.{compare}
use text.Mathlib.Text.{is_le}
use document_feeder.Prelude.{
  ℕ, zero, suc, String, Bool, true, false, not, ◌&&◌, Option, none, some, List, [], ◌∷◌, ◌==◌, leb,
  exists, select, if◌then◌else◌, Outcome, ok, raise,
}
use document_feeder.Prelude.Sorting.{sort_by}
use document_feeder.Models.User.{UserAccount}
use document_feeder.Table.{lookup, has, modify, remove, add}
use document_feeder.Store.Jobs.{StoreError, integrity_error}
use document_feeder.Store.Audit.{AuditRow}

-- The columns of a row are the fields of the account.
abbrev pub UserTable : Type 0
UserTable = List UserAccount

pub record SessionRow : Type 0 where
  pub token_hash : String
  pub user_id : String
  pub expires_at : ℕ

abbrev pub SessionTable : Type 0
SessionTable = List SessionRow

abbrev pub user_key : UserAccount → String
user_key u = u.id

abbrev pub user_name : UserAccount → String
user_name u = u.username

abbrev pub token_key : SessionRow → String
token_key s = s.token_hash

unfoldable pub list_users : UserTable → List UserAccount
list_users = sort_by (λ a b. is_le (compare a.username b.username))

unfoldable pub get_user : String → UserTable → Option UserAccount
get_user user_id t = lookup user_key user_id t

unfoldable pub get_user_by_username : (String → String) → String → UserTable → Option UserAccount
get_user_by_username lower username t = lookup user_name (lower username) t

-- `save_user`: the name is unique. The account comes back with its new fields in any case.
unfoldable pub save_user :
    (String → String) → ℕ → UserAccount → UserTable → Outcome StoreError UserTable × UserAccount
save_user lower now user t =
    let row = record user { username = lower user.username; updated_at = now } in
    (
      if exists (λ r. r.username == row.username && not (r.id == row.id)) t
          then raise integrity_error
          else ok (
              if has user_key row.id t
              then modify user_key row.id (λ _. row) t
              else add user_key row t),
      row,
    )

unfoldable pub create_session : String → String → ℕ → SessionTable → Outcome StoreError SessionTable
create_session token_hash user_id expires_at t =
    if has token_key token_hash t
    then raise integrity_error
    else ok (
        add token_key
          (record { token_hash = token_hash; user_id = user_id; expires_at = expires_at }) t)

active_user : Option UserAccount → Option UserAccount
active_user none = none
active_user (some user) = if user.active then some user else none

session_user : ℕ → Option SessionRow → UserTable → Option UserAccount
unfolding active_user
session_user now none users = none
session_user now (some row) users =
    if leb row.expires_at now then none else active_user (lookup user_key row.user_id users)

-- `get_session_user`
unfoldable pub get_session_user : ℕ → String → SessionTable → UserTable → Option UserAccount
unfolding session_user
get_session_user now token_hash t users = session_user now (lookup token_key token_hash t) users

unfoldable pub delete_session : String → SessionTable → SessionTable
delete_session token_hash t = remove token_key token_hash t

unfoldable pub delete_user_sessions : String → SessionTable → SessionTable
delete_user_sessions user_id t = select (λ s. not (s.user_id == user_id)) t

abbrev pub newer_event : AuditRow → AuditRow → Bool
newer_event a b = leb b.created_at a.created_at

-- the failures before the latest success
unfoldable pub count_failures : List AuditRow → ℕ
count_failures [] = zero
count_failures (r ∷ rs) =
    let rest = count_failures rs in if r.outcome == "success" then zero else suc rest

-- `recent_failed_logins`
unfoldable pub recent_failed_logins : (String → String) → String → ℕ → List AuditRow → ℕ
unfolding count_failures
recent_failed_logins lower username since rows = count_failures (
    sort_by newer_event (
      select
        (λ (r : AuditRow).
          r.action == "LOGIN" && (r.actor_username == lower username && leb since r.created_at))
        rows))
