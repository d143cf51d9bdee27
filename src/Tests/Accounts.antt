-- ===== src/Tests/Accounts.antt =====
-- A user with a session, and the default input channel (src/document_core/store.py).
use document_feeder.Prelude.{refl, true, none, [], ◌∷◌}
use document_feeder.Models.User.{UserAccount, viewer}
use document_feeder.Store.Users.{SessionTable, get_session_user}
use document_feeder.Store.Users.Sessions.{IsSession, get_session_user-IsSession}
use document_feeder.Store.Channels.{default_channel}
use document_feeder.Models.Target.{InputChannel}

abbrev anna : UserAccount
anna = record {
  id = "u1";
  username = "anna";
  display_name = "Anna";
  role = viewer;
  active = true;
  password_hash = "";
  last_login_at = none;
  created_at = 0;
  updated_at = 0;
}

abbrev sessions : SessionTable
sessions = record { token_hash = "t1"; user_id = "u1"; expires_at = 100 } ∷ []

get_session_user-IsSession_example : IsSession 50 "t1" sessions (anna ∷ []) anna
unfolding get_session_user
get_session_user-IsSession_example =
    get_session_user-IsSession 50 "t1" sessions (anna ∷ []) anna refl

abbrev hotfolder : InputChannel
hotfolder = record (default_channel 1 "c1") { updated_at = 2 }
