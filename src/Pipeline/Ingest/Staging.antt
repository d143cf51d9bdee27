-- ===== src/Pipeline/Ingest/Staging.antt =====
-- What the staging of a file gives.
use document_feeder.Prelude.{
  ℕ, ◌+◌, ◌≤◌, String, ◌≡◌, refl, ap, subst, sym, ◌∙◌, List, [], ◌∷◌, ◌++◌, ltb, arith, length,
  length-append, Bool-cases, inl, inr, Outcome, ok, raise,
}
use mathlib.Core.List.{append_assoc, append-nil}
use document_feeder.Prelude.Exec.{pure, throw, ◌>>◌}
use document_feeder.Prelude.Exec.Laws.{
  Ensures, Keeps, bind-Ensures, bind-Keeps, try-Ensures, try-Keeps,
}
use document_feeder.Auth.{Bytes}
use document_feeder.Config.{inbox_dir}
use document_feeder.Connectors.{Failure}
use document_feeder.Store.Database.{Database}
use document_feeder.Intake.Chunks.{chunks, chunks-concat, concat}
use document_feeder.Pipeline.Ingest.{
  IngestEnvironment, IngestError, Reception, Step, stage_chunks, stage_file, stage_and_hash,
  contents, failure_of, append, created_file, filed, unlink,
}

module _ (env : IngestEnvironment) where
  abbrev pub State : Type 0
  State = Reception env.base.Files

  abbrev pub max_size : ℕ
  max_size = env.base.settings.max_file_size_bytes

  -- What the staging of a source gives, from the files before it to those after it: a new file
  -- with the content of the source as it was after the creation. The content is within the limit,
  -- and its digest is the hash.
  pub record IsStaged (source : String) (before : env.base.Files) (staged hash : String) (size : ℕ)
      (after : env.base.Files) : Type 0 where
    pub opened : env.base.Files
    pub created : env.create_temporary (inbox_dir env.base.settings) before ≡ ok (staged, opened)
    pub content : Bytes
    pub read : env.read_file source opened ≡ ok content
    pub copied : env.read_file staged after ≡ ok content
    pub digest : hash ≡ env.sha256_hexdigest content
    pub measured : size ≡ length content
    pub within : length content ≤ max_size

  -- Documented of files: a temporary file is new and empty, and what is written to a file follows
  -- what it holds.
  pub record AreFiles : Type 0 where
    pub empty :
        (directory path : String) (files files' : env.base.Files)
        → env.create_temporary directory files ≡ ok (path, files')
        → env.read_file path files' ≡ ok []
    pub extended :
        (path : String) (held bytes : Bytes) (files files' : env.base.Files)
        → env.read_file path files ≡ ok held
        → env.append_file path bytes files ≡ ok files'
        → env.read_file path files' ≡ ok (held ++ bytes)

  abbrev Digests : String → Bytes → List Bytes → Bytes × ℕ → State → Type 0
  Digests staged digested cs r s =
      (r.0 ≡ digested ++ concat cs)
      × (r.1 ≡ length r.0)
      × (r.1 ≤ max_size)
      × (env.read_file staged s.files ≡ ok r.0)

  ends :
      (staged : String) (a : Bytes × ℕ) {b : Bytes}
      → a.0 ≡ b
      → a.1 ≡ length a.0
      → a.1 ≤ max_size
      → (s : State) → env.read_file staged s.files ≡ ok a.0
      → Ensures {E = IngestError}
          (λ r t.
            (r.0 ≡ b)
            × (r.1 ≡ length r.0)
            × (r.1 ≤ max_size)
            × (env.read_file staged t.files ≡ ok r.0))
          (pure a)
          s
  ends staged a p m w s c r e = let same : a ≡ r = cc in rw (← same) (p, m, w, c)

  filed-Holds :
      (files_laws : AreFiles) (path : String) (held bytes : Bytes) (s : State)
      (r : Outcome Failure env.base.Files)
      → env.read_file path s.files ≡ ok held
      → env.append_file path bytes s.files ≡ r
      → Ensures (λ _ t. env.read_file path t.files ≡ ok (held ++ bytes)) (filed env r) s
  unfolding filed
  filed-Holds laws path held bytes s (ok files) h e =
      λ u k. laws.extended path held bytes s.files files h e
  filed-Holds laws path held bytes s (raise x) h e = λ u k. cc

  append-Holds :
      (laws : AreFiles) (path : String) (held bytes : Bytes) (s : State)
      → env.read_file path s.files ≡ ok held
      → Ensures (λ _ t. env.read_file path t.files ≡ ok (held ++ bytes)) (append env path bytes) s
  unfolding append
  append-Holds laws path held bytes s h = filed-Holds laws path held bytes s _ h refl

  stage_chunks-Ensures :
      (laws : AreFiles) (staged : String) (cs : List Bytes) (digested : Bytes) (size : ℕ)
      (s : State)
      → size ≡ length digested
      → size ≤ max_size
      → env.read_file staged s.files ≡ ok digested
      → Ensures (Digests staged digested cs) (stage_chunks env staged cs digested size) s
  unfolding stage_chunks
  stage_chunks-Ensures laws staged [] digested size s m w h =
      ends staged (digested, size) (sym (append-nil digested)) m w s h
  stage_chunks-Ensures laws staged (c ∷ cs) digested size s m w h =
      elim (Bool-cases (ltb max_size (size + length c))) [
        | inl over ↦ rw over (λ r e. cc)
        | inr under ↦ rw under (
            bind-Ensures (λ _ t. env.read_file staged t.files ≡ ok (digested ++ c))
              (Digests staged digested (c ∷ cs)) (append env staged c) _ s
              (append-Holds laws staged digested c s h)
              (λ _ t held r e.
                let (whole, measured, within, copied) =
                  stage_chunks-Ensures laws staged cs (digested ++ c) (size + length c) t
                    (omega (arith, length-append digested c)) (ground arith) held r e in
                (whole ∙ append_assoc digested c (concat cs), measured, within, copied)))
      ]

  read_ok :
      (r : Outcome Failure Bytes) (content : Bytes) → failure_of env r ≡ ok content → r ≡ ok content
  read_ok (ok a) content e = let same : a ≡ content = cc in ap ok same
  read_ok (raise x) content e = cc

  pub contents-Ensures :
      (path : String) (s : State)
      → Ensures
          (λ content t. (env.read_file path s.files ≡ ok content) × (t ≡ s))
          (contents env path)
          s
  contents-Ensures path s content e = (read_ok (env.read_file path s.files) content e, refl)

  -- nothing comes out of a step that ends in an exception
  pub no_result :
      {A B : Type 0} (Q : B → State → Type 0) (m : Step env A) (x : IngestError) (s : State)
      → Ensures Q (m >> throw x) s
  no_result Q m x s = bind-Ensures (λ _ _. Unit) Q m _ s (λ _ _. tt) (λ _ t _ b e. cc)

  abbrev pub Staged : String → env.base.Files → String × String × ℕ → State → Type 0
  Staged source before r t = IsStaged source before r.0 r.1 r.2 t.files

  created_file-Ensures :
      (r : Outcome Failure (String × env.base.Files)) (s : State)
      → Ensures (λ path t. r ≡ ok (path, t.files)) (created_file env r) s
  unfolding created_file
  created_file-Ensures (ok (p, files)) s path e = let same : p ≡ path = cc in rw same refl
  created_file-Ensures (raise x) s path e = cc

  module _ (laws : AreFiles) (chunked : 1 ≤ env.base.settings.ingest_chunk_size_bytes) where
    stage_file-IsStaged :
        (source : String) (before : env.base.Files) (staged : String) (s : State)
        → env.create_temporary (inbox_dir env.base.settings) before ≡ ok (staged, s.files)
        → Ensures (Staged source before) (stage_file env source staged) s
    unfolding stage_file
    stage_file-IsStaged source before staged s created =
        bind-Ensures (λ content t. (env.read_file source s.files ≡ ok content) × (t ≡ s))
          (Staged source before) (contents env source) _ s (contents-Ensures source s)
          (λ content t read.
            bind-Ensures
              (Digests staged [] (chunks env.base.settings.ingest_chunk_size_bytes content))
              (Staged source before)
              (stage_chunks env staged (chunks env.base.settings.ingest_chunk_size_bytes content) []
                0)
              _ t
              (stage_chunks-Ensures laws staged _ [] 0 t refl (omega arith) (
                subst (λ (u : State). env.read_file staged u.files ≡ ok []) (sym read.1)
                  (laws.empty _ staged before s.files created)))
              (λ d u k r e.
                let same : (staged, env.sha256_hexdigest d.0, d.1) ≡ r = cc in
                let whole : d.0 ≡ content =
                  k.0
                  ∙ (chunks-concat env.base.settings.ingest_chunk_size_bytes content chunked).0 in
                rw (← same) (record {
                  opened = s.files;
                  created = created;
                  content = content;
                  read = read.0;
                  copied = k.3 ∙ ap ok whole;
                  digest = ap env.sha256_hexdigest whole;
                  measured = k.1 ∙ ap length whole;
                  within = subst (λ n. n ≤ max_size) (k.1 ∙ ap length whole) k.2;
                })))

    pub stage_and_hash-IsStaged :
        (source : String) (s : State)
        → Ensures (Staged source s.files) (stage_and_hash env source) s
    unfolding stage_and_hash
    stage_and_hash-IsStaged source s =
        bind-Ensures
          (λ staged (t : State).
            env.create_temporary (inbox_dir env.base.settings) s.files ≡ ok (staged, t.files))
          (Staged source s.files) _ _ s (created_file-Ensures _ s)
          (λ staged t created.
            try-Ensures (Staged source s.files) (stage_file env source staged) _ t
              (stage_file-IsStaged source s.files staged t created)
              (λ e u. no_result (Staged source s.files) (unlink env staged) e u))

  -- The staging keeps the database.
  abbrev pub db_in : State → Database
  db_in s = s.db

  pub filed-Keeps : (r : Outcome Failure env.base.Files) → Keeps db_in (filed env r)
  unfolding filed
  filed-Keeps (ok files) s = refl
  filed-Keeps (raise e) s = refl

  pub unlink-Keeps : (path : String) → Keeps db_in (unlink env path)
  unfolding unlink
  unlink-Keeps path s = filed-Keeps _ s

  stage_chunks-Keeps :
      (staged : String) (cs : List Bytes) (digested : Bytes) (size : ℕ)
      → Keeps db_in (stage_chunks env staged cs digested size)
  unfolding stage_chunks append
  stage_chunks-Keeps staged [] digested size s = refl
  stage_chunks-Keeps staged (c ∷ cs) digested size s =
      elim (Bool-cases (ltb max_size (size + length c))) [
        | inl over ↦ rw over refl
        | inr under ↦ rw under (
            bind-Keeps db_in (λ s. filed env (env.append_file staged c s.files) s)
              (λ _. stage_chunks env staged cs (digested ++ c) (size + length c))
              (λ s. filed-Keeps _ s)
              (λ _. stage_chunks-Keeps staged cs (digested ++ c) (size + length c)) s)
      ]

  stage_file-Keeps : (source staged : String) → Keeps db_in (stage_file env source staged)
  unfolding stage_file
  stage_file-Keeps source staged =
      bind-Keeps db_in (contents env source) _ (λ _. refl)
        (λ content.
          bind-Keeps db_in (stage_chunks env staged _ [] 0) _ (stage_chunks-Keeps staged _ [] 0)
            (λ r s. refl))

  created_file-Keeps :
      (r : Outcome Failure (String × env.base.Files)) → Keeps db_in (created_file env r)
  unfolding created_file
  created_file-Keeps (ok x) s = refl
  created_file-Keeps (raise e) s = refl

  pub clean_up-Keeps :
      (A : Type 0) (path : String) (e : IngestError)
      → Keeps db_in (unlink env path >> throw {A = A} e)
  clean_up-Keeps A path e = bind-Keeps db_in (unlink env path) _ (unlink-Keeps path) (λ _ s. refl)

  pub stage_and_hash-Keeps : (source : String) → Keeps db_in (stage_and_hash env source)
  unfolding stage_and_hash
  stage_and_hash-Keeps source =
      bind-Keeps db_in _ _ (λ s. created_file-Keeps _ s)
        (λ staged.
          try-Keeps db_in (stage_file env source staged) _ (stage_file-Keeps source staged)
            (λ e. clean_up-Keeps _ staged e))
