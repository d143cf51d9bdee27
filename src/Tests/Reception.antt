-- ===== src/Tests/Reception.antt =====
-- A PDF file that is received (src/document_core/pipeline.py).
use document_feeder.Prelude.{
  ℕ, zero, suc, String, ◌≡◌, refl, Bool, true, false, none, [], ◌∷◌, ◌++◌, ◌==◌, arith, Outcome, ok,
  raise, subst,
}
use document_feeder.Auth.{Bytes, same_bytes}
use document_feeder.Auth.Passwords.{same_bytes_eq}
use document_feeder.Connectors.{Failure, other}
use document_feeder.Pipeline.Ingest.Staging.{AreFiles}
use document_feeder.Prelude.Exec.{◌>>=◌, try_except}
use document_feeder.Prelude.Text.{take_chars}
use document_feeder.Json.{text, number, object, empty, field, get}
use document_feeder.Models.Job.{DocumentJob}
use document_feeder.Intake.Chunks.{chunks}
use document_feeder.Intake.Malware.{disabled, scan}
use document_feeder.Intake.Validation.{detect_and_validate_type}
use document_feeder.Store.Jobs.{create_if_absent, find_by_hash, values}
use document_feeder.Store.Events.{save_event}
use document_feeder.Store.Settings.{get_system_setting}
use document_feeder.Store.Targets.{get_default_target_system}
use document_feeder.Pipeline.Activity.{event}
use document_feeder.Pipeline.Ingest.{IngestEnvironment, Reception, ingest}
use document_feeder.Pipeline.Ingest.Received.{IsReceived, ingest-IsReceived}
use document_feeder.Tests.Documents.{environment}
use document_feeder.Tests.Queue.{first_job}

abbrev pdf : Bytes
pdf = 37 ∷ 80 ∷ 68 ∷ 70 ∷ 45 ∷ []

abbrev temporary_path : String
temporary_path = "/data/inbox/.ingest-1.tmp"

-- Every file is the same short PDF file; the temporary one is empty before it is written.
unfoldable read_at : Bool → ℕ → Outcome Failure Bytes
read_at true zero = ok []
read_at true (suc n) = ok pdf
read_at false files = ok pdf

unfoldable append_at : Bool → Bool → ℕ → Outcome Failure ℕ
append_at true true zero = ok 1
append_at temporary whole files = raise (other "disk full")

abbrev reception : IngestEnvironment
reception = record {
  base = record environment { replace_file = λ p q files. ok files; unlink = λ p files. ok files };
  scanner = disabled;
  network = λ files. record {
    connect = λ host port. none;
    read_bytes = λ path. ok [];
    exchange = λ host port bytes. ok [];
    decode_replace = λ bytes. "";
  };
  create_temporary = λ directory files. ok (temporary_path, 0);
  read_file = λ path files. read_at (path == temporary_path) files;
  append_file = λ path bytes files. append_at (path == temporary_path) (same_bytes bytes pdf) files;
  sha256_hexdigest = λ bytes. "bb";
  file_name = λ path. path;
  suffix_of = λ name. ".pdf";
}

ok-inj : {A : Type 0} {a b : A} → ◌≡◌ {A = Outcome Failure A} (ok a) (ok b) → a ≡ b
ok-inj e = cc

read-append :
    (temporary whole : Bool) (held bytes : Bytes) (files files' : ℕ)
    → same_bytes bytes pdf ≡ whole
    → read_at temporary files ≡ ok held
    → append_at temporary whole files ≡ ok files'
    → read_at temporary files' ≡ ok (held ++ bytes)
unfolding read_at append_at
read-append true true held bytes zero files' w r e =
    let one : 1 ≡ files' = ok-inj e in
    let nothing : [] ≡ held = ok-inj r in rw (← one, ← nothing, same_bytes_eq bytes pdf w) refl
read-append true true held bytes (suc n) files' w r e = cc
read-append true false held bytes files files' w r e = cc
read-append false whole held bytes files files' w r e = cc

reception-AreFiles : AreFiles reception
unfolding read_at
reception-AreFiles = record {
  empty = λ directory path files files' e.
      let same : (temporary_path, 0) ≡ (path, files') = ok-inj e in
      subst (λ (r : String × ℕ). read_at (r.0 == temporary_path) r.1 ≡ ok []) same refl;
  extended = λ path held bytes files files' r e.
      read-append (path == temporary_path) (same_bytes bytes pdf) held bytes files files' refl r e;
}

abbrev before : Reception ℕ
before = record {
  db = record {
    jobs = values first_job ∷ [];
    events = [];
    targets = [];
    rules = [];
    settings = [];
    cipher = record { keys = none; known = [] };
  };
  files = 0;
  last_event_at = [];
  readings = 0;
  draws = 0;
}

abbrev letter : DocumentJob
letter = record first_job {
  id = "u0";
  source = "api";
  original_filename = "b.pdf";
  stored_path = "/data/inbox/bb-b.pdf";
  sha256 = "bb";
  metadata = field "ingest_content_type" (text "application/pdf") (
      field "ingest_size_bytes" (number 5) (
        field "malware_scan"
          (object (field "status" (text "disabled") (field "engine" (text "disabled") empty)))
          empty));
  created_at = 1000;
  updated_at = 1001;
}

ingest-IsReceived_example :
    IsReceived reception "b.pdf" "b.pdf" before letter
      (ingest reception "b.pdf" "api" none before).1
unfolding ingest ◌>>=◌ try_except chunks detect_and_validate_type scan get_system_setting read_at
    append_at find_by_hash get_default_target_system take_chars create_if_absent values event
    save_event get
ingest-IsReceived_example =
    ingest-IsReceived reception reception-AreFiles (omega arith) "b.pdf" "api" none before letter
      refl
