-- ===== src/Store/Targets.antt =====
-- `target_systems`: rows with encrypted secrets (src/document_core/store.py).
pub mod Default
use Prim.Native.String.{compare}
use text.Mathlib.Text.{is_le}
use document_feeder.Prelude.{
  ℕ, String, Bool, true, false, not, ◌&&◌, ◌||◌, Option, none, some, List, [], ◌∷◌, ◌==◌, exists,
  find_first, select, update_rows, if◌then◌else◌, Outcome, ok, raise,
}
use document_feeder.Prelude.Sorting.{sort_by}
use document_feeder.Models.Target.{TargetSystem}
use document_feeder.Secrets.Cipher.{SecretCipher, SecretError, encrypt, decrypt}
use document_feeder.Table.{lookup, has, modify, remove, add}

-- A row has the columns of the model; its two secrets are encrypted.
abbrev pub TargetTable : Type 0
TargetTable = List TargetSystem

pub data TargetError : Type 0 where
  secret_error : SecretError → TargetError
  integrity_error : TargetError

abbrev pub target_id : TargetSystem → String
target_id t = t.id

with_secret :
    TargetSystem
    → Option String
    → Outcome SecretError (Option String) × SecretCipher
    → Outcome TargetError TargetSystem × SecretCipher
with_secret row token (raise e, c) = (raise (secret_error e), c)
with_secret row token (ok secret, c) =
    (ok (record row { bearer_token = token; graph_client_secret = secret }), c)

with_token :
    TargetSystem
    → Outcome SecretError (Option String) × SecretCipher
    → Outcome TargetError TargetSystem × SecretCipher
unfolding with_secret
with_token row (raise e, c) = (raise (secret_error e), c)
with_token row (ok token, c) = with_secret row token (decrypt row.graph_client_secret c)

-- `_target_model(row)`: the bearer token is decrypted first
unfoldable pub target_model :
    TargetSystem → SecretCipher → Outcome TargetError TargetSystem × SecretCipher
unfolding with_token
target_model row c = with_token row (decrypt row.bearer_token c)

found :
    Outcome TargetError TargetSystem × SecretCipher
    → Outcome TargetError (Option TargetSystem) × SecretCipher
found (ok t, c) = (ok (some t), c)
found (raise e, c) = (raise e, c)

model_of :
    Option TargetSystem → SecretCipher → Outcome TargetError (Option TargetSystem) × SecretCipher
unfolding target_model found
model_of none c = (ok none, c)
model_of (some row) c = found (target_model row c)

-- `get_target_system`
unfoldable pub get_target_system :
    String → TargetTable → SecretCipher → Outcome TargetError (Option TargetSystem) × SecretCipher
unfolding model_of
get_target_system id t c = model_of (lookup target_id id t) c

-- `get_default_target_system`
unfoldable pub get_default_target_system :
    TargetTable → SecretCipher → Outcome TargetError (Option TargetSystem) × SecretCipher
unfolding model_of
get_default_target_system t c = model_of (find_first (λ r. r.is_default && r.enabled) t) c

-- the row takes a name that another row has
unfoldable pub name_taken : TargetSystem → TargetTable → Bool
name_taken row = exists (λ r. r.name == row.name && not (r.id == row.id))

-- the other rows are no default any more when the saved one is
unfoldable pub clear_defaults : ℕ → TargetSystem → TargetTable → TargetTable
clear_defaults now row t =
    if row.is_default
    then update_rows (λ r. not (r.id == row.id))
        (λ r. record r { is_default = false; updated_at = now }) t
    else t

-- the row is added, or written over the one with its id
unfoldable pub put_row : TargetSystem → TargetTable → TargetTable
put_row row t =
    if has target_id row.id t then modify target_id row.id (λ _. row) t else add target_id row t

-- the transaction of `save_target_system`, once the secrets are encrypted
unfoldable pub store_target : ℕ → TargetSystem → TargetTable → Outcome TargetError TargetTable
unfolding name_taken clear_defaults put_row
store_target now row t =
    if name_taken row t then raise integrity_error else ok (put_row row (clear_defaults now row t))

saved_with_secret :
    ℕ
    → TargetSystem
    → Option String
    → TargetTable
    → Outcome SecretError (Option String) × SecretCipher
    → Outcome TargetError TargetTable × SecretCipher
unfolding store_target
saved_with_secret now target token t (raise e, c) = (raise (secret_error e), c)
saved_with_secret now target token t (ok secret, c) = (
  store_target now
      (record target { updated_at = now; bearer_token = token; graph_client_secret = secret }) t,
  c,
)

saved_with_token :
    ℕ
    → ℕ
    → TargetSystem
    → TargetTable
    → Outcome SecretError (Option String) × SecretCipher
    → Outcome TargetError TargetTable × SecretCipher
unfolding saved_with_secret
saved_with_token now nonce target t (raise e, c) = (raise (secret_error e), c)
saved_with_token now nonce target t (ok token, c) =
    saved_with_secret now target token t (encrypt nonce target.graph_client_secret c)

-- `save_target_system`: each encryption draws its own random bytes
unfoldable pub save_target_system :
    ℕ
    → ℕ
    → ℕ
    → TargetSystem
    → TargetTable
    → SecretCipher
    → Outcome TargetError TargetTable × SecretCipher
unfolding saved_with_token
save_target_system now nonce nonce' target t c =
    saved_with_token now nonce' target t (encrypt nonce target.bearer_token c)

-- `delete_target_system`: the default stays
unfoldable pub delete_row : String → Option TargetSystem → TargetTable → Bool × TargetTable
delete_row id none t = (false, t)
delete_row id (some row) t = if row.is_default then (false, t) else (true, remove target_id id t)

unfoldable pub delete_target_system : String → TargetTable → Bool × TargetTable
unfolding delete_row
delete_target_system id t = delete_row id (lookup target_id id t) t

-- `list_target_systems` before the decryption of its rows
unfoldable pub list_rows : Bool → TargetTable → TargetTable
list_rows enabled_only t =
    sort_by (λ a b. is_le (compare a.name b.name))
      (if enabled_only then select (λ r. r.enabled) t else t)
