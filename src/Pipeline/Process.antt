-- ===== src/Pipeline/Process.antt =====
-- `DocumentPipeline.process` (src/document_core/pipeline.py).
pub mod Settled
pub mod Retry
use document_feeder.Prelude.{
  ℕ, zero, suc, ◌+◌, ◌*◌, ◌/◌, ◌%◌, ◌^◌, String, ◌<>◌, Bool, true, false, not, ◌&&◌, Option, none,
  some, List, [], ◌∷◌, ◌++◌, ◌==◌, leb, ltb, eqb, max, is_some, if◌then◌else◌, Outcome, ok, raise,
}
use document_feeder.Prelude.Decimal.{to_decimal}
use document_feeder.Prelude.Text.{take_chars, replace}
use document_feeder.Prelude.Exec.{
  Exec, pure, throw, gets, lift, continue, try_except, handled, ◌>>=◌, ◌>>◌,
}
use document_feeder.Json.{Json, Fields, text, object, array, empty, field, set, update}
use document_feeder.Models.Job.{
  JobStatus, received, processing, delivering, delivered, quarantined, failed, is_received,
  is_processing, DocumentJob,
}
use document_feeder.Processing.{
  ExtractionResult, ClassificationResult, extraction_metadata, classification_metadata, texts,
  validate,
}
use document_feeder.Connectors.{Failure, permanent, temporary, message}
use document_feeder.Config.{quarantine_dir, ◌//◌}
use document_feeder.Store.Jobs.{seconds}
use document_feeder.Pipeline.World.{Environment, Run, Method, now, modify_job, redacted, save_job}
use document_feeder.Pipeline.Activity.{EventArgs, an_event, event}
use document_feeder.Pipeline.Delivery.{
  set_metadata, apply_delivery_rule, move_work_copy, finalize_work_copy, deliver,
}

-- A delay in seconds: an integer, or the float n / 2.
pub data Delay : Type 0 where
  whole : ℕ → Delay
  half : ℕ → Delay

abbrev pub half_seconds : Delay → ℕ
half_seconds (whole n) = 2 * n
half_seconds (half n) = n

-- `base * (2 ** (attempt_count - 1))`
unfoldable pub backoff : ℕ → ℕ → Delay
backoff base zero = half base
backoff base (suc n) = whole (base * 2 ^ n)

-- `max(delay, retry_after)`, of equals the first
unfoldable pub at_least : Delay → Option ℕ → Delay
at_least d none = d
at_least d (some n) = if ltb (half_seconds d) (2 * n) then whole n else d

-- `f"{delay}"`
unfoldable pub print_delay : Delay → String
print_delay (whole n) = to_decimal n
print_delay (half n) = to_decimal (n / 2) <> (if eqb (n % 2) 0 then ".0" else ".5")

abbrev pub retry_after_of : Failure → Option ℕ
retry_after_of (temporary m n) = n
retry_after_of _ = none

abbrev pub is_permanent : Failure → Bool
is_permanent (permanent m) = true
is_permanent _ = false

abbrev pub no_errors : List String → Bool
no_errors [] = true
no_errors (e ∷ es) = false

module _ (env : Environment) where
  unfoldable pub begin : Bool → Method env Unit
  begin false = pure tt
  begin true =
      modify_job env
        (λ job. record job { status = processing; attempt_count = max job.attempt_count 1 })
      >> save_job env

  unfoldable pub announce : Bool → Method env Unit
  announce false s = (ok tt, s)
  announce true s =
      event env
        (record (an_event "processing_started"
          ("Verarbeitung gestartet (Versuch " <> (to_decimal s.job.attempt_count <> ")"))) {
            attempt = some s.job.attempt_count;
          })
        s

  -- what stands before the `try`
  unfoldable pub start : Method env Unit
  unfolding begin announce
  start =
      (gets (λ s. is_received s.job.status) >>= begin)
      >> (gets (λ s. is_processing s.job.status) >>= announce)

  -- what the job takes from the extraction and the classification
  unfoldable pub classified :
      String → ClassificationResult → ExtractionResult → DocumentJob → DocumentJob
  classified clean c x job = record job {
    document_type = c.document_type;
    metadata =
        update
          (set "classification" (object (classification_metadata c))
            (update (env.extract_metadata clean c.document_type) job.metadata))
          (extraction_metadata x);
  }

  -- from the extraction to the validation
  unfoldable pub analyse : Method env Unit
  unfolding classified
  analyse = (λ s. (env.extract s.job.stored_path s.files, s)) >>= λ x.
      let clean = replace "\0" "" x.text in
      modify_job env (λ job. record job { text_preview = take_chars 500 clean })
      >> (lift (env.classify clean) >>= λ c.
          modify_job env (classified clean c x)
          >> (λ s.
              event env
                (record (an_event "classification_completed"
                  ("Dokumenttyp " <> (s.job.document_type <> " vorgeschlagen"))) {
                    attempt = some s.job.attempt_count;
                    details = classification_metadata c;
                  })
                s)
          >> apply_delivery_rule env
          >> modify_job env (λ job. record job {
            errors =
                validate env.settings.require_routing_reference job.document_type
                  (is_some job.routing_reference);
          }))

  -- the branch of a job with errors
  unfoldable pub quarantine : Method env Unit
  quarantine =
      modify_job env (λ job. record job { status = quarantined })
      >> (gets (λ s. quarantine_dir env.settings // (s.job.id <> ("-" <> s.job.original_filename)))
          >>= move_work_copy env)
      >> (λ s.
          event env
            (record (an_event "review_required" "Dokument benötigt eine manuelle Prüfung") {
              status = some quarantined;
              attempt = some s.job.attempt_count;
              details = field "reasons" (array (texts s.job.errors)) empty;
            })
            s)

  -- the delivery of a job without errors, which `release` shares
  unfoldable pub deliver_job : Method env Unit
  deliver_job =
      (deliver env >>= λ reference.
      modify_job env (set_metadata "destination_reference" (text reference)))
      >> finalize_work_copy env
      >> modify_job env (λ job. record job { status = delivered })

  unfoldable pub route : Bool → Method env Unit
  unfolding quarantine deliver_job
  route false = quarantine
  route true = deliver_job

  -- the body of the `try`
  unfoldable pub work : Method env Unit
  unfolding analyse route
  work =
      analyse
      >> (gets (λ s. no_errors s.job.errors) >>= route)
      >> modify_job env (λ job. record job { last_error = none; next_attempt_at = none })

  -- `next_attempt_at = datetime.now(UTC) + timedelta(seconds=delay)`; a time has no upper bound here,
  -- where `datetime` overflows after the year 9999
  unfoldable pub schedule_retry : Failure → String → Method env Unit
  schedule_retry e error =
      let delay = λ (job : DocumentJob).
        at_least (backoff env.settings.worker_retry_base_seconds job.attempt_count)
          (retry_after_of e) in
      modify_job env (λ job. record job { status = received })
      >> (now env >>= λ t.
          modify_job env
            (λ job. record job { next_attempt_at = some (t + half_seconds (delay job) * 500000) }))
      >> (λ s.
          event env
            (record (an_event "retry_scheduled" (
              "Neuer Verarbeitungsversuch in "
              <> (print_delay (delay s.job) <> " Sekunden eingeplant"))) {
                status = some received;
                attempt = some s.job.attempt_count;
                error = some error;
              })
            s)

  unfoldable pub give_up : String → Method env Unit
  give_up error =
      modify_job env (λ job. record job { status = failed; next_attempt_at = none }) >> (λ s.
        event env
          (record (an_event "processing_failed" "Verarbeitung endgültig fehlgeschlagen") {
            status = some failed;
            attempt = some s.job.attempt_count;
            error = some error;
          })
          s)

  unfoldable pub retry_or_fail : Failure → String → Bool → Method env Unit
  unfolding schedule_retry give_up
  retry_or_fail e error true = schedule_retry e error
  retry_or_fail e error false = give_up error

  -- the `except` clause
  unfoldable pub recover : Failure → Method env Unit
  unfolding retry_or_fail
  recover e = redacted env (message e) >>= λ error.
      modify_job env
        (λ job. record job { errors = job.errors ++ error ∷ []; last_error = some error })
      >> (gets
            (λ s. not (is_permanent e) && ltb s.job.attempt_count env.settings.worker_max_attempts)
          >>= retry_or_fail e error)

  -- `process`
  unfoldable pub process : Method env DocumentJob
  unfolding start work recover
  process =
      start
      >> try_except work recover
      >> modify_job env (λ job. record job { worker_id = none; lease_expires_at = none })
      >> save_job env
      >> gets (λ s. s.job)
