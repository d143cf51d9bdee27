-- ===== src/Store/Users/Sessions.antt =====
-- Who a session token stands for.
use document_feeder.Prelude.{
  ℕ, ◌<◌, String, ◌≡◌, refl, true, Option, none, some, arith, ◌==◌, leb, if◌then◌else◌, Bool-cases,
  inl, inr, Option-cases,
}
use document_feeder.Models.User.{UserAccount}
use document_feeder.Table.{lookup}
use document_feeder.Table.Reads.{lookup-remove}
use document_feeder.Store.Users.{
  SessionRow, SessionTable, UserTable, token_key, user_key, session_user, get_session_user,
  delete_session,
}

-- The session is stored and runs, and its user is stored and active.
pub record IsSession (now : ℕ) (token : String) (t : SessionTable) (users : UserTable)
    (user : UserAccount) : Type 0 where
  pub session : SessionRow
  pub found : lookup token_key token t ≡ some session
  pub runs : now < session.expires_at
  pub known : lookup user_key session.user_id users ≡ some user
  pub active : user.active ≡ true

session_user-IsSession :
    (now : ℕ) (token : String) (t : SessionTable) (users : UserTable) (o : Option SessionRow)
    (user : UserAccount)
    → lookup token_key token t ≡ o
    → session_user now o users ≡ some user
    → IsSession now token t users user
unfolding session_user
session_user-IsSession now token t users none user e h = cc
session_user-IsSession now token t users (some row) user e h =
    elim (Bool-cases (leb row.expires_at now)) [
      | inl over ↦ let h' = rw over at h in cc
      | inr runs ↦ elim (Option-cases (lookup user_key row.user_id users)) [
        | inl n ↦ let h' = rw (runs, n) at h in cc
        | inr (u, n) ↦ elim (Bool-cases u.active) [
          | inl a ↦
              let same : u ≡ user = let h' = rw (runs, n, a) at h in cc in
              record {
                session = row;
                found = e;
                runs = ground arith;
                known = cc;
                active = rw (← same) a;
              }
          | inr a ↦ let h' = rw (runs, n, a) at h in cc
        ]
      ]
    ]

-- A token that stands for a user has a stored session that has not expired, and the user is stored
-- and active.
pub get_session_user-IsSession :
    (now : ℕ) (token : String) (t : SessionTable) (users : UserTable) (user : UserAccount)
    → get_session_user now token t users ≡ some user
    → IsSession now token t users user
unfolding get_session_user
get_session_user-IsSession now token t users user h =
    session_user-IsSession now token t users (lookup token_key token t) user refl h

-- After a logout the token stands for nobody, and every other token for whom it stood before.
pub get_session_user-delete_session :
    (now : ℕ) (gone token : String) (t : SessionTable) (users : UserTable)
    → get_session_user now token (delete_session gone t) users
      ≡ (if gone == token then none else get_session_user now token t users)
unfolding get_session_user delete_session session_user
get_session_user-delete_session now gone token t users = elim (Bool-cases (gone == token)) [
  | inl e ↦ rw (lookup-remove token_key gone token t, e) refl
  | inr e ↦ rw (lookup-remove token_key gone token t, e) refl
]
