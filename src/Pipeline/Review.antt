-- ===== src/Pipeline/Review.antt =====
-- `DocumentPipeline.review` (src/document_core/pipeline.py): the changes of a manual review.
use document_feeder.Prelude.{
  String, ◌<>◌, Bool, true, false, ◌&&◌, Option, none, some, [], ◌∷◌, ◌++◌, ◌==◌, is_some,
  if◌then◌else◌, ok, raise,
}
use document_feeder.Prelude.Exec.{pure, gets, ◌>>=◌, ◌>>◌}
use document_feeder.Json.{
  Json, Fields, null, text, object, empty, field, set, update, optional_text,
}
use document_feeder.Models.Job.{RoutingReference, ReviewRequest, DocumentJob}
use document_feeder.Models.Target.{TargetSystem}
use document_feeder.Connectors.{other}
use document_feeder.Pipeline.World.{Environment, Method, now, modify_job, fetch_target, save_job}
use document_feeder.Pipeline.Activity.{an_event, event}
use document_feeder.Pipeline.Delivery.{apply_delivery_rule}

-- `model_dump()`
abbrev pub reference_fields : RoutingReference → Fields
reference_fields r =
    field "namespace" (text r.namespace)
      (field "type" (text r.type) (field "value" (text r.reference_value) empty))

abbrev pub optional_reference : Option RoutingReference → Json
optional_reference none = null
optional_reference (some r) = object (reference_fields r)

abbrev pub same_reference : RoutingReference → Option RoutingReference → Bool
same_reference r none = false
same_reference r (some q) =
    r.namespace == q.namespace && (r.type == q.type && r.reference_value == q.reference_value)

abbrev pub same_text : String → Option String → Bool
same_text s none = false
same_text s (some t) = s == t

-- `{"from": …, "to": …}`
abbrev pub change : Json → Json → Json
change old new = object (field "from" old (field "to" new empty))

abbrev pub no_fields : Fields → Bool
no_fields empty = true
no_fields (field k v d) = false

module _ (env : Environment) where
  -- Each step takes the changes so far and gives those with its own.
  unfoldable pub change_type : Option String → Fields → Method env Fields
  change_type none changes s = (ok changes, s)
  change_type (some t) changes s = if t == s.job.document_type then (ok changes, s) else (
    ok (set "document_type" (change (text s.job.document_type) (text t)) changes),
    record s { job = record s.job { document_type = t } },
  )

  unfoldable pub change_reference : Option RoutingReference → Fields → Method env Fields
  change_reference none changes s = (ok changes, s)
  change_reference (some r) changes s =
      if same_reference r s.job.routing_reference then (ok changes, s) else (
        ok (
            set "routing_reference"
              (change (optional_reference s.job.routing_reference) (object (reference_fields r)))
              changes),
        record s { job = record s.job { routing_reference = some r } },
      )

  unfoldable pub change_metadata : Fields → Fields → Method env Fields
  change_metadata metadata changes s = if no_fields metadata then (ok changes, s) else (
    ok (set "metadata" (object metadata) changes),
    record s { job = record s.job { metadata = update s.job.metadata metadata } },
  )

  unfoldable pub take_target : String → Fields → Option TargetSystem → Method env Fields
  take_target id changes none s =
      (raise (other "Zielsystem ist nicht vorhanden oder deaktiviert"), s)
  take_target id changes (some target) s =
      if target.enabled
      then (
        ok (
            set "target_system_id" (change (optional_text s.job.target_system_id) (text id))
              changes),
        record s {
          job = record s.job {
            target_system_id = some id;
            delivery_path_template = some target.path_template;
          };
        },
      )
      else (raise (other "Zielsystem ist nicht vorhanden oder deaktiviert"), s)

  -- the `elif` branch
  unfoldable pub rule_if : Bool → Fields → Method env Fields
  rule_if false changes = pure changes
  rule_if true changes = apply_delivery_rule env >> pure changes

  unfoldable pub change_target : Option String → Bool → Fields → Method env Fields
  unfolding take_target rule_if
  change_target none typed changes s = rule_if typed changes s
  change_target (some id) typed changes s =
      if same_text id s.job.target_system_id
      then rule_if typed changes s
      else (fetch_target env id >>= take_target id changes) s

  -- `review`
  unfoldable pub review : ReviewRequest → Method env DocumentJob
  unfolding change_type change_reference change_metadata change_target
  review q = change_type q.document_type empty >>= λ changes.
      change_reference q.routing_reference changes >>= λ changes.
      change_metadata q.metadata changes >>= λ changes.
      change_target q.target_system_id (is_some q.document_type) changes >>= λ changes.
      now env >>= λ t.
      modify_job env (λ job. record job {
        review_history =
            job.review_history
            ++ record {
              reviewer = q.reviewer;
              reason = q.reason;
              changes = changes;
              reviewed_at = t;
            }
              ∷ [];
      })
      >> save_job env
      >> event env
          (record (an_event "review_saved"
            ("Manuelle Prüfung durch " <> (q.reviewer <> " gespeichert"))) {
              details = field "reason" (text q.reason) (field "changes" (object changes) empty);
            })
      >> gets (λ s. s.job)
