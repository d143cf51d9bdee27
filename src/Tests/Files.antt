-- ===== src/Tests/Files.antt =====
-- Files on their way in (src/document_core/file_validation.py and src/document_core/malware.py).
use document_feeder.Prelude.{◌≡◌, refl, some, [], ◌∷◌, arith}
use document_feeder.Prelude.{select}
use document_feeder.Intake.Chunks.{chunks}
use document_feeder.Intake.Validation.{
  HasType, expected_type, detect_and_validate_type, detect_and_validate_type-HasType,
}
use document_feeder.Intake.Malware.{frames}
use document_feeder.Intake.Malware.Stream.{receive, frames-receive}
use document_feeder.Store.Audit.Retention.{delete_audit_events_before}
use document_feeder.Store.Audit.Retention.Recent.{recent, delete_audit_events_before-recent}
use document_feeder.Tests.Log.{one_event}

frames-receive_example : receive 3 (frames (chunks 2 (1 ∷ 2 ∷ 3 ∷ []))) ≡ some (1 ∷ 2 ∷ 3 ∷ [])
unfolding chunks
frames-receive_example = frames-receive 2 (1 ∷ 2 ∷ 3 ∷ []) (omega arith) (omega arith)

detect_and_validate_type-HasType_example :
    (expected_type ".jpg" ≡ some "image/jpeg") × HasType (255 ∷ 216 ∷ 255 ∷ []) "image/jpeg"
unfolding detect_and_validate_type
detect_and_validate_type-HasType_example =
    detect_and_validate_type-HasType ".jpg" (255 ∷ 216 ∷ 255 ∷ []) "image/jpeg" refl

delete_audit_events_before-recent_example :
    select (recent 5) (delete_audit_events_before 9 5 one_event).1.rows
    ≡ select (recent 5) one_event.rows
delete_audit_events_before-recent_example = delete_audit_events_before-recent 9 5 one_event
