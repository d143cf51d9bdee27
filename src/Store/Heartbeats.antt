-- ===== src/Store/Heartbeats.antt =====
-- `worker_heartbeats` (src/document_core/store.py): the signs of life of the workers.
use document_feeder.Prelude.{ℕ, String, Option, List, leb, if◌then◌else◌}
use document_feeder.Prelude.Sorting.{sort_by}
use document_feeder.Table.{has, modify, remove, add}

pub record WorkerHeartbeatRow : Type 0 where
  pub worker_id : String
  pub current_job_id : Option String
  pub started_at : ℕ
  pub last_seen_at : ℕ

abbrev pub HeartbeatTable : Type 0
HeartbeatTable = List WorkerHeartbeatRow

abbrev pub worker_key : WorkerHeartbeatRow → String
worker_key r = r.worker_id

unfoldable pub heartbeat_worker : ℕ → String → Option String → HeartbeatTable → HeartbeatTable
heartbeat_worker now worker_id current_job_id t =
    if has worker_key worker_id t
    then modify worker_key worker_id
        (λ r. record r { current_job_id = current_job_id; last_seen_at = now }) t
    else add worker_key
        (record {
          worker_id = worker_id;
          current_job_id = current_job_id;
          started_at = now;
          last_seen_at = now;
        })
        t

unfoldable pub remove_worker_heartbeat : String → HeartbeatTable → HeartbeatTable
remove_worker_heartbeat worker_id t = remove worker_key worker_id t

unfoldable pub list_worker_heartbeats : HeartbeatTable → List WorkerHeartbeatRow
list_worker_heartbeats = sort_by (λ a b. leb b.last_seen_at a.last_seen_at)
