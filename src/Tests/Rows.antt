-- ===== src/Tests/Rows.antt =====
-- Target systems, delivery rules, settings and secrets (src/document_core/store.py and
-- src/document_core/secrets.py).
use document_feeder.Prelude.{
  ℕ, ◌≤◌, String, ◌≡◌, refl, Bool, true, false, none, some, [], ◌∷◌, ok, arith,
}
use document_feeder.Prelude.Text.{strip_prefix}
use document_feeder.Prelude.Sorting.{sort_by}
use document_feeder.Models.Target.{TargetSystem, DeliveryRule}
use document_feeder.Models.Job.{DocumentJob, JobEvent, failed}
use document_feeder.Json.{empty}
use document_feeder.Secrets.Cipher.{Keys, decrypt, is_encrypted, migrate_or_rotate, encrypt_text}
use document_feeder.Secrets.Cipher.RoundTrip.{AreFernet, cipher_of, decrypt-migrate_or_rotate}
use document_feeder.Store.Targets.{store_target, name_taken, clear_defaults, put_row}
use document_feeder.Store.Targets.Default.{defaults, store_target-defaults}
use document_feeder.Store.Rules.{find_delivery_rule}
use document_feeder.Store.Rules.Choice.{IsChoice, find_delivery_rule-IsChoice}
use document_feeder.Store.Jobs.{values, model, get}
use document_feeder.Store.Events.{delete_stalled_job, list_events}
use document_feeder.Store.Events.Laws.{delete_stalled_job_lem}
use document_feeder.Tests.Queue.{first_job, second_job}

abbrev pub target : String → String → Bool → TargetSystem
target id name is_default = record {
  id = id;
  name = name;
  kind = "filesystem";
  endpoint_url = none;
  healthcheck_url = none;
  directory = "output";
  path_template = "{document_type}";
  bearer_token = none;
  graph_tenant_id = none;
  graph_client_id = none;
  graph_client_secret = none;
  graph_drive_id = none;
  graph_folder = "";
  timeout_seconds = 30;
  max_response_bytes = 1000;
  enabled = true;
  is_default = is_default;
  last_delivery_at = none;
  last_error = none;
  created_at = 0;
  updated_at = 0;
}

abbrev archive : TargetSystem
archive = target "t1" "Archive" true

-- the second target becomes the default
store_target-defaults_example :
    defaults (record archive { is_default = false; updated_at = 9 } ∷ target "t2" "Mail" true ∷ [])
    ≤ 1
unfolding store_target name_taken clear_defaults put_row
store_target-defaults_example =
    store_target-defaults 9 (target "t2" "Mail" true) (archive ∷ [])
      (record archive { is_default = false; updated_at = 9 } ∷ target "t2" "Mail" true ∷ [])
      (refl, tt) (omega arith) refl

abbrev rule : String → ℕ → DeliveryRule
rule id priority = record {
  id = id;
  name = id;
  document_type = "invoice";
  target_system_id = "t1";
  path_template = none;
  enabled = true;
  priority = priority;
  created_at = 0;
  updated_at = 0;
}

find_delivery_rule-IsChoice_example :
    IsChoice "invoice" (rule "late" 200 ∷ rule "early" 100 ∷ []) (rule "early" 100)
unfolding find_delivery_rule sort_by
find_delivery_rule-IsChoice_example =
    find_delivery_rule-IsChoice "invoice" (rule "late" 200 ∷ rule "early" 100 ∷ [])
      {rule = rule "early" 100} refl

-- keys whose tokens are the texts themselves
abbrev open_keys : Keys
open_keys = record {
  encrypt_token = λ n s. s;
  decrypt_token = λ t. some t;
  decrypt_primary = λ t. some t;
  rotate_token = λ n t. some t;
}

open_keys-AreFernet : AreFernet open_keys
open_keys-AreFernet = record { opens = λ n s. refl; opens_rotated = λ n t t' s e f. cc }

decrypt-migrate_or_rotate_example :
    (decrypt (some "enc:v1:token") (cipher_of open_keys open_keys-AreFernet ("token" ∷ []))).0
    ≡ ok (some "token")
unfolding is_encrypted migrate_or_rotate encrypt_text strip_prefix
decrypt-migrate_or_rotate_example =
    decrypt-migrate_or_rotate open_keys open_keys-AreFernet 1 "token" "token" "enc:v1:token" []
      (cipher_of open_keys open_keys-AreFernet ("token" ∷ [])) refl refl

abbrev failure : JobEvent
failure = record {
  id = "v1";
  job_id = "a";
  event_type = "processing_failed";
  status = "failed";
  message = "";
  attempt = some 3;
  target_system_id = none;
  target_name = none;
  delivery_rule = none;
  external_reference = none;
  error = some "timeout";
  details = empty;
  started_at = 50;
  completed_at = none;
}

abbrev failed_job : DocumentJob
failed_job = record first_job { status = failed }

delete_stalled_job_lem_example :
    let (job, t', es') =
      delete_stalled_job "a" (values failed_job ∷ values second_job ∷ []) (failure ∷ []) in
    (job ≡ some failed_job) × (get "a" t' ≡ none) × (list_events "a" es' ≡ [])
unfolding get values model
delete_stalled_job_lem_example =
    delete_stalled_job_lem "a" "a" (values failed_job ∷ values second_job ∷ []) (failure ∷ [])
