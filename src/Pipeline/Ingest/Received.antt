-- ===== src/Pipeline/Ingest/Received.antt =====
-- What a file has passed when it is answered with a document.
use document_feeder.Prelude.{
  ℕ, ◌≤◌, String, ◌≡◌, refl, ap, subst, sym, ◌∙◌, ◌⊎◌, Bool, true, false, Option, none, some, [],
  ◌∷◌, ◌==◌, ◌||◌, eq_iff, eq_refl, arith, if◌then◌else◌, Bool-cases, inl, inr, Outcome, ok, raise,
  exists-append, find_first, is_some,
}
use mathlib.Core.Option
use document_feeder.Prelude.Exec.{pure, throw, gets, lift, try_except, ◌>>=◌, ◌>>◌}
use document_feeder.Prelude.Exec.Laws.{
  Ensures, Keeps, bind-Ensures, bind-Keeps, try-Ensures, both-Ensures,
}
use document_feeder.Auth.{Bytes}
use document_feeder.Connectors.{Failure}
use document_feeder.Models.Job.{DocumentJob}
use document_feeder.Table.{has}
use document_feeder.Table.Reads.{find_first_holds, exists-find_first}
use document_feeder.Intake.Validation.{Rejection, detect_and_validate_type}
use document_feeder.Intake.Malware.{MalwareScanResult, scan}
use document_feeder.Store.Database.{Database}
use document_feeder.Store.Jobs.{
  JobRow, JobTable, StoreError, row_hash, row_id, create_if_absent, existing_or_raise, find_by_hash,
  model, values,
}
use document_feeder.Store.Settings.{SettingTable, get_system_setting}
use document_feeder.Pipeline.Activity.{event}
use document_feeder.Pipeline.Activity.Laws.{event-Keeps_jobs}
use document_feeder.Pipeline.Ingest.{
  IngestEnvironment, Prepared, moved, Step, stage_and_hash, contents, rejection_of, examine, settle,
  ingest, unlink, on_job, after_run, prepared, persisted, create_job, record_duplicate, scan_staged,
  is_enabled, default_target, replace_by, new_job, ingest_id, ingest_now, final_path, target_id_of,
  name_of,
}
use document_feeder.Pipeline.Ingest.Staging.{
  State, unlink-Keeps, stage_and_hash-Keeps, db_in, AreFiles, IsStaged, Staged, no_result,
  contents-Ensures, stage_and_hash-IsStaged,
}

module _ (env : IngestEnvironment) where
  abbrev jobs_in : State env → JobTable
  jobs_in s = s.db.jobs

  jobs_kept : (path : String) → Keeps jobs_in (unlink env path)
  jobs_kept path s = ap (λ (db : Database). db.jobs) (unlink-Keeps env path s)

  on_event-Keeps : (a : _) (job : DocumentJob) → Keeps jobs_in (on_job env (event env.base a) job)
  unfolding on_job after_run
  on_event-Keeps a job s = event-Keeps_jobs env.base a _

  record_duplicate-Keeps :
      (job : DocumentJob) (source filename : String)
      → Keeps jobs_in (record_duplicate env job source filename)
  unfolding record_duplicate
  record_duplicate-Keeps job source filename = on_event-Keeps _ job

  -- a document with the hash is stored
  abbrev pub IsStored : String → State env → Type 0
  IsStored hash s = has row_hash hash s.db.jobs ≡ true

  abbrev job_in : Prepared → DocumentJob
  job_in (Prepared.duplicate job) = job
  job_in (moved job) = job

  -- What a staged file has passed before it is moved or found to be there: the type of its content
  -- fits its name, and the scanner has not rejected it, where the scan is not paused.
  pub record IsChecked (filename staged : String) (files : env.base.Files) (settings : SettingTable)
      : Type 0 where
    pub content : Bytes
    pub read : env.read_file staged files ≡ ok content
    pub type : String
    pub typed : detect_and_validate_type (env.suffix_of filename) content ≡ ok type
    pub scanned :
        (is_enabled (get_system_setting "malware_scanning_enabled" (some "true") settings) ≡ false)
        ⊎ ((result : MalwareScanResult) × (scan (env.network files) env.scanner staged ≡ ok result))

  abbrev Scanned : String → env.base.Files → SettingTable → Type 0
  Scanned staged files settings =
      (is_enabled (get_system_setting "malware_scanning_enabled" (some "true") settings) ≡ false)
      ⊎ ((result : MalwareScanResult) × (scan (env.network files) env.scanner staged ≡ ok result))

  allowed : {A : Type 0} (r : Outcome Rejection A) (a : A) → rejection_of env r ≡ ok a → r ≡ ok a
  allowed (ok x) a e = let same : x ≡ a = cc in ap ok same
  allowed (raise x) a e = cc

  scan_staged-Ensures :
      (staged : String) (s : State env)
      → Ensures
          (λ _ t. Scanned staged s.files s.db.settings × (t.db ≡ s.db))
          (scan_staged env staged)
          s
  unfolding scan_staged
  scan_staged-Ensures staged s result e =
      elim (Bool-cases
        (is_enabled (get_system_setting "malware_scanning_enabled" (some "true") s.db.settings))) [
          | inl on ↦
              let passed : scan (env.network s.files) env.scanner staged ≡ ok result =
                allowed _ result (rw on at e) in
              (inr (result, passed), rw on refl)
          | inr off ↦ (inl off, rw off refl)
        ]

  found_row :
      (hash : String) (t : JobTable) (o : Option JobRow) (job : DocumentJob)
      → find_first (λ r. row_hash r == hash) t ≡ o
      → Option.map model o ≡ some job
      → (has row_hash hash t ≡ true) × (job.sha256 ≡ hash)
  unfolding model
  found_row hash t none job f e = cc
  found_row hash t (some row) job f e =
      let same : model row ≡ job = cc in
      (
        exists-find_first (λ r. row_hash r == hash) t ∙ ap is_some f,
        ap (λ (j : DocumentJob). j.sha256) (sym same)
            ∙ (eq_iff row.sha256 hash).0 (find_first_holds (λ r. row_hash r == hash) t f),
      )

  -- the document that a file leads to has its hash, and is stored if it was there already
  abbrev Leads : String → Prepared → State env → Type 0
  Leads hash (Prepared.duplicate job) t = (job.sha256 ≡ hash) × IsStored hash t
  Leads hash (moved job) t = job.sha256 ≡ hash

  module _ (source filename staged hash type : String) (size : ℕ) (result : MalwareScanResult) where
    prepared-Leads :
        (o : Option DocumentJob) (s : State env)
        → find_by_hash hash s.db.jobs ≡ o
        → Ensures (Leads hash) (prepared env source filename staged hash size type result o) s
    unfolding prepared find_by_hash
    prepared-Leads (some existing) s f =
        let (there, same) = found_row hash s.db.jobs _ existing refl f in
        bind-Ensures (λ _. IsStored hash) (Leads hash)
          (record_duplicate env existing source filename) _ s
          (λ _ _.
            subst (λ t. has row_hash hash t ≡ true)
              (sym (record_duplicate-Keeps existing source filename s)) there)
          (λ _ t k p e.
            let is_p : Prepared.duplicate (record existing { duplicate = true }) ≡ p = cc in
            subst (λ p. Leads hash p t) is_p (same, k))
    prepared-Leads none s f =
        bind-Ensures (λ _ _. Unit) (Leads hash) (default_target env) _ s (λ _ _. tt)
          (λ target t _.
            bind-Ensures (λ _ _. Unit) (Leads hash) (ingest_id env) _ t (λ _ _. tt)
              (λ id t _.
                bind-Ensures (λ _ _. Unit) (Leads hash) (ingest_now env) _ t (λ _ _. tt)
                  (λ created t _.
                    bind-Ensures (λ _ _. Unit) (Leads hash) (ingest_now env) _ t (λ _ _. tt)
                      (λ updated t _.
                        bind-Ensures (λ _ _. Unit) (Leads hash)
                          (replace_by env staged (final_path env hash filename)) _ t (λ _ _. tt)
                          (λ _ t _ p e.
                            let is_p : moved (
                                  new_job env source filename (final_path env hash filename) hash
                                    type size result (target_id_of target) id created updated)
                                ≡ p =
                              cc in
                            subst (λ p. Leads hash p t) is_p refl)))))

  module _ (source filename staged hash : String) (size : ℕ) (files : env.base.Files)
      (settings : SettingTable) where
    abbrev Passes : Prepared → State env → Type 0
    Passes p t = IsChecked filename staged files settings × Leads hash p t

    -- the files and the settings are those after the staging
    abbrev IsAt : State env → Type 0
    IsAt t = (t.files ≡ files) × (t.db.settings ≡ settings)

    looked_up :
        (content : Bytes) (type : String)
        → env.read_file staged files ≡ ok content
        → detect_and_validate_type (env.suffix_of filename) content ≡ ok type
        → (result : MalwareScanResult) → Scanned staged files settings
        → (t : State env)
        → Ensures Passes
            (gets (λ s. find_by_hash hash s.db.jobs)
              >>= prepared env source filename staged hash size type result)
            t
    looked_up content type read typed result scanned t =
        bind-Ensures (λ o t. find_by_hash hash t.db.jobs ≡ o) Passes
          (gets (λ s. find_by_hash hash s.db.jobs)) _ t
          (λ o e. let same : find_by_hash hash t.db.jobs ≡ o = cc in same)
          (λ o t f p e. (
            record {
              content = content;
              read = read;
              type = type;
              typed = typed;
              scanned = scanned;
            },
            prepared-Leads source filename staged hash type size result o t f p e,
          ))

    scanned_next :
        (content : Bytes) (type : String)
        → env.read_file staged files ≡ ok content
        → detect_and_validate_type (env.suffix_of filename) content ≡ ok type
        → (t : State env) → IsAt t
        → Ensures Passes
            (scan_staged env staged >>= λ result.
              gets (λ s. find_by_hash hash s.db.jobs)
              >>= prepared env source filename staged hash size type result)
            t
    scanned_next content type read typed t same =
        bind-Ensures (λ _ _. Scanned staged files settings) Passes (scan_staged env staged) _ t
          (λ result e. subst (Scanned staged files) same.1 (
            subst (λ f. Scanned staged f t.db.settings) same.0
              (scan_staged-Ensures staged t result e).0))
          (λ result t scanned. looked_up content type read typed result scanned t)

    typed_next :
        (content : Bytes)
        → env.read_file staged files ≡ ok content
        → (t : State env) → IsAt t
        → Ensures Passes
            (lift (rejection_of env (detect_and_validate_type (env.suffix_of filename) content))
              >>= λ type. scan_staged env staged >>= λ result.
                  gets (λ s. find_by_hash hash s.db.jobs)
                  >>= prepared env source filename staged hash size type result)
            t
    typed_next content read t same =
        bind-Ensures
          (λ type u. (detect_and_validate_type (env.suffix_of filename) content ≡ ok type) × IsAt u)
          Passes
          (lift (rejection_of env (detect_and_validate_type (env.suffix_of filename) content))) _ t
          (λ type e.
            (allowed (detect_and_validate_type (env.suffix_of filename) content) type e, same))
          (λ type u k. scanned_next content type read k.0 u k.1)

    examine-Ensures :
        (s : State env) → IsAt s → Ensures Passes (examine env source filename staged hash size) s
    unfolding examine
    examine-Ensures s same =
        bind-Ensures (λ content u. (env.read_file staged files ≡ ok content) × IsAt u) Passes
          (contents env staged) _ s
          (λ content e.
            let (read, unchanged) = contents-Ensures env staged s content e in
            (
              subst (λ f. env.read_file staged f ≡ ok content) same.0 read,
              subst IsAt (sym unchanged) same,
            ))
          (λ content u k. typed_next content k.0 u k.1)

  -- the document that a write answers has the hash, and is stored
  abbrev Stores : String → Outcome StoreError (DocumentJob × Bool) → JobTable → Type 0
  Stores hash (ok (job, created)) t = (job.sha256 ≡ hash) × (has row_hash hash t ≡ true)
  Stores hash (raise e) t = Unit

  existing-Stores :
      (hash : String) (t : JobTable) (o : Option JobRow)
      → find_first (λ r. row_hash r == hash) t ≡ o
      → Stores hash (existing_or_raise o) t
  unfolding existing_or_raise model
  existing-Stores hash t none f = tt
  existing-Stores hash t (some row) f = (
    (eq_iff row.sha256 hash).0 (find_first_holds (λ r. row_hash r == hash) t f),
    exists-find_first (λ r. row_hash r == hash) t ∙ ap is_some f,
  )

  create_if_absent-Stores :
      (job : DocumentJob) (t : JobTable)
      → Stores job.sha256 (create_if_absent job t).0 (create_if_absent job t).1
  unfolding create_if_absent values
  create_if_absent-Stores job t =
      elim (Bool-cases (has row_id job.id t || has row_hash job.sha256 t)) [
        | inl there ↦ rw there (existing-Stores job.sha256 t _ refl)
        | inr new ↦ rw new (
          refl,
          exists-append (λ r. row_hash r == job.sha256) t (values job ∷ [])
              ∙ ground (arith, eq_refl job.sha256),
        )
      ]

  abbrev Answered : String → DocumentJob → State env → Type 0
  Answered hash job t = (job.sha256 ≡ hash) × IsStored hash t

  module _ (hash : String) where
    kept_stored :
        {A : Type 0} (m : Step env A) (s : State env)
        → Keeps jobs_in m
        → IsStored hash s
        → Ensures (λ _. IsStored hash) m s
    kept_stored m s k there a e = subst (λ t. has row_hash hash t ≡ true) (sym (k s)) there

    answers :
        {A : Type 0} (m : Step env A) (job : DocumentJob) (s : State env)
        → Keeps jobs_in m
        → IsStored hash s
        → job.sha256 ≡ hash
        → Ensures (Answered hash) (m >> pure job) s
    answers m job s k there same =
        bind-Ensures (λ _. IsStored hash) (Answered hash) m _ s (kept_stored m s k there)
          (λ _ t kept answer e.
            let is_answer : job ≡ answer = cc in
            subst (λ j. Answered hash j t) is_answer (same, kept))

    unlink_unless-Keeps :
        (there : Bool) (path : String) → Keeps jobs_in (if there then pure tt else unlink env path)
    unlink_unless-Keeps true path s = refl
    unlink_unless-Keeps false path s = jobs_kept path s

    persisted-Answered :
        (source filename : String) (job : DocumentJob) (r : Outcome StoreError (DocumentJob × Bool))
        (s : State env)
        → Stores hash r s.db.jobs
        → Ensures (Answered hash) (persisted env source filename job r) s
    unfolding persisted
    persisted-Answered source filename job (raise e) s k =
        bind-Ensures (λ _ _. Unit) (Answered hash) (gets _) _ s (λ _ _. tt)
          (λ o t _. no_result env (Answered hash) _ _ t)
    persisted-Answered source filename job (ok (stored, true)) s k =
        answers (on_job env (event env.base _) stored) stored s (on_event-Keeps _ stored) k.1 k.0
    persisted-Answered source filename job (ok (stored, false)) s k =
        answers _ (record stored { duplicate = true }) s
          (bind-Keeps jobs_in _ (λ _. record_duplicate env stored source filename)
            (unlink_unless-Keeps _ job.stored_path)
            (λ _. record_duplicate-Keeps stored source filename))
          k.1 k.0

    settle-Answered :
        (source filename staged : String) (p : Prepared) (s : State env)
        → Leads hash p s
        → Ensures (Answered hash) (settle env source filename staged p) s
    unfolding settle create_job
    settle-Answered source filename staged (Prepared.duplicate job) s k =
        answers (unlink env staged) job s (jobs_kept staged) k.1 k.0
    settle-Answered source filename staged (moved job) s k =
        bind-Ensures (λ r t. Stores hash r t.db.jobs) (Answered hash) (create_job env job)
          (persisted env source filename job) s
          (λ r e.
            let same : (create_if_absent job s.db.jobs).0 ≡ r = cc in
            subst (λ r. Stores hash r (create_if_absent job s.db.jobs).1) same
              (subst
                (λ h.
                  Stores h (create_if_absent job s.db.jobs).0 (create_if_absent job s.db.jobs).1)
                k (create_if_absent-Stores job s.db.jobs)))
          (λ r t. persisted-Answered source filename job r t)

  -- The source was staged: its content is within the limit, its digest is the document's, and the
  -- new temporary file holds it; that file, holding it, has passed the checks; and a document with
  -- the digest is stored.
  pub record IsReceived (source name : String) (before : State env) (job : DocumentJob)
      (after : State env) : Type 0 where
    pub size : ℕ
    pub staged : String
    pub files : env.base.Files
    pub staging : IsStaged env source before.files staged job.sha256 size files
    pub checks : IsChecked name staged files before.db.settings
    pub same_content : checks.content ≡ staging.content
    pub stored : IsStored job.sha256 after

  same_read : {r : Outcome Failure Bytes} {a b : Bytes} → r ≡ ok a → r ≡ ok b → a ≡ b
  same_read p q = cc

  module _ (laws : AreFiles env) (chunked : 1 ≤ env.base.settings.ingest_chunk_size_bytes) where
    -- Whenever a reception answers with a document, new or known, its source was read to its end and
    -- is no larger than the limit, and the document has the digest of the content. The content was
    -- copied to a new temporary file, and this file has a supported type that fits the document's
    -- name and was not rejected by the scanner unless the scan is paused. A document with this
    -- digest is stored. Chunks have at least one byte, and temporary files hold what is written to
    -- them.
    pub ingest-IsReceived :
        (source_path source : String) (original_filename : Option String) (s : State env)
        (job : DocumentJob)
        → (ingest env source_path source original_filename s).0 ≡ ok job
        → IsReceived source_path
            (name_of env source_path original_filename)
            s
            job
            (ingest env source_path source original_filename s).1
    unfolding ingest
    ingest-IsReceived source_path source original_filename s =
        let name = name_of env source_path original_filename in
        let Q = IsReceived source_path name s in
        bind-Ensures (λ r t. Staged env source_path s.files r t × (t.db ≡ s.db)) Q
          (stage_and_hash env source_path) _ s
          (both-Ensures (db_in env) (Staged env source_path s.files)
            (stage_and_hash env source_path) s (stage_and_hash-Keeps env source_path)
            (stage_and_hash-IsStaged env laws chunked source_path s))
          (λ r t k.
            let P = Passes source name r.0 r.1 r.2 t.files s.db.settings in
            bind-Ensures P Q
              (try_except (examine env source name r.0 r.1 r.2) (λ e. unlink env r.0 >> throw e))
              (settle env source name r.0) t
              (try-Ensures P (examine env source name r.0 r.1 r.2) _ t
                (examine-Ensures source name r.0 r.1 r.2 t.files s.db.settings t
                  (refl, ap (λ (db : Database). db.settings) k.1))
                (λ e u. no_result env P (unlink env r.0) e u))
              (λ p u passed job e.
                let (same, there) = settle-Answered r.1 source name r.0 p u passed.1 job e in
                let staging =
                  subst (λ h. IsStaged env source_path s.files r.0 h r.2 t.files) (sym same) k.0 in
                record {
                  size = r.2;
                  staged = r.0;
                  files = t.files;
                  staging = staging;
                  checks = passed.0;
                  same_content = same_read passed.0.read staging.copied;
                  stored = rw same there;
                }))
