-- ===== src/Web/AuditTrail/Round.antt =====
-- What a round of the daily upkeep does (src/document_core/api.py).
use document_feeder.Prelude.{
  ℕ, suc, ◌-◌, ◌*◌, ◌≡◌, refl, ap, sym, subst, ◌∙◌, ◌⊎◌, none, some, length, eqb, Bool-cases, inl,
  inr, arith, if◌then◌else◌, Outcome, ok, raise, List,
}
use document_feeder.Prelude.Exec.{◌>>=◌, ◌>>◌}
use document_feeder.Prelude.Exec.Laws.{bind-ok}
use document_feeder.Prelude.Sorting.{sort_by}
use document_feeder.Prelude.Sorting.Count.{length-sort_by}
use document_feeder.Json.{Fields, text, number, null, empty, field}
use document_feeder.Models.Audit.{AuditEvent, AuditIntegrityStatus}
use document_feeder.Store.Settings.{session_setting, session_setting-set_setting}
use document_feeder.Store.Audit.{AuditRow, AuditLog, AuditError, by_index, save_audit_event}
use document_feeder.Store.Audit.Append.{HasDigests, verify-IsChained}
use document_feeder.Store.Audit.Retention.{delete_audit_events_before}
use document_feeder.Web.World.{
  WebEnvironment, WebError, Service, audit_log, with_log, audited, record_event,
}
use document_feeder.Web.AuditTrail.{
  audit_retention_days, deletion, delete_before, set_system_setting, report, integrity_fields,
  verify_audit_integrity, note_deletion, retention_round, cutoff_now,
}
use document_feeder.Web.AuditTrail.Upkeep.{
  HasChain, delete_before-HasChain, note_deletion-HasChain, report-HasChain,
}

-- The result that is noted for an intact log of a number of events.
abbrev pub intact_fields : ℕ → Fields
intact_fields n =
    field "status" (text "ok")
      (field "checked" (number n) (field "first_invalid_index" null (field "detail" null empty)))

module _ (env : WebEnvironment) where
  abbrev State : Type 0
  State = Service env.pipeline.Files

  -- the time before which a round deletes events
  abbrev pub cutoff_of : State → ℕ
  cutoff_of s =
      env.pipeline.clock s.readings - audit_retention_days s.tables.db.settings * 86400000000

  abbrev pub deleted_from : State → Outcome AuditError ℕ × AuditLog
  deleted_from s =
      delete_audit_events_before (env.pipeline.clock (suc s.readings)) (cutoff_of s)
        (audit_log s.tables)

  -- the event for the deletion of a number of events
  abbrev pub upkeep_event : State → ℕ → AuditEvent
  upkeep_event s deleted = record {
    id = env.pipeline.uuid s.draws;
    actor_user_id = none;
    actor_username = "system";
    action = "AUDIT_RETENTION";
    resource_type = "audit";
    resource_id = none;
    outcome = "success";
    status_code = 200;
    details =
        field "deleted" (number deleted)
          (field "cutoff" (text (env.pipeline.isoformat (cutoff_of s))) empty);
    created_at = env.pipeline.clock (suc (suc s.readings));
  }

  abbrev pub noted_in : State → ℕ → Outcome AuditError AuditEvent × AuditLog
  noted_in s deleted =
      save_audit_event env.hashing s.tables.db.cipher.known (upkeep_event s deleted)
        (deleted_from s).1

  -- the log after the deletion, with the event for it if any event was deleted
  abbrev pub kept_log : State → ℕ → AuditLog
  kept_log s deleted = if eqb deleted 0 then (deleted_from s).1 else (noted_in s deleted).1

  -- The round ends with an intact log, which it has noted: the rows that it kept and added.
  pub record IsUpkept (s : State) (deleted : ℕ)
      (out : Outcome WebError AuditIntegrityStatus × State) : Type 0 where
    pub status : AuditIntegrityStatus
    pub ended : out.0 ≡ ok status
    pub intact : status.status ≡ "ok"
    pub counted : status.checked ≡ length (kept_log s deleted).rows
    pub rows : out.1.tables.audit_rows ≡ (kept_log s deleted).rows
    pub noted :
        session_setting "audit_integrity_status" "" out.1.tables.db.settings
        ≡ env.json_dumps (intact_fields (length (kept_log s deleted).rows))
    pub chain : HasChain env out.1

  deletion-ok :
      (r : Outcome AuditError ℕ × AuditLog) (s : State) {n : ℕ}
      → r.0 ≡ ok n
      → deletion env r s ≡ (ok n, record s { tables = with_log s.tables r.1 })
  unfolding deletion
  deletion-ok (ok m, log) s {n} e = let same : m ≡ n = cc in rw same refl
  deletion-ok (raise x, log) s e = cc

  audited-ok :
      (r : Outcome AuditError AuditEvent × AuditLog) (s : State) {e : AuditEvent}
      → r.0 ≡ ok e
      → audited env r s ≡ (ok tt, record s { tables = with_log s.tables r.1 })
  unfolding audited
  audited-ok (ok x, log) s e = refl
  audited-ok (raise x, log) s e = cc

  verified :
      (s t : State) (deleted : ℕ)
      → HasChain env t
      → t.tables.audit_rows ≡ (kept_log s deleted).rows
      → IsUpkept s deleted (verify_audit_integrity env t)
  unfolding verify_audit_integrity report set_system_setting integrity_fields ◌>>=◌
  verified s t deleted before same =
      let count =
        length-sort_by by_index t.tables.audit_rows
        ∙ ap (λ (rows : List AuditRow). length rows) same in
      let intact = verify-IsChained env.hashing (audit_log t.tables) before in
      let st : AuditIntegrityStatus = record {
        status = "ok";
        checked = length (sort_by by_index t.tables.audit_rows);
        first_invalid_index = none;
        detail = none;
      } in
      subst (λ o. IsUpkept s deleted (report env o t)) (sym intact)
        (record {
          status = st;
          ended = refl;
          intact = refl;
          counted = count;
          rows = same;
          noted =
              session_setting-set_setting _ "audit_integrity_status" _ "audit_integrity_status" ""
                t.tables.db.settings
              ∙ ap (λ n. env.json_dumps (intact_fields n)) count;
          chain = report-HasChain env (some st) t before;
        })

  deleted_state : State → State
  deleted_state s = record s {
    readings = suc (suc s.readings);
    tables = with_log s.tables (deleted_from s).1;
  }

  noted_state : State → ℕ → State
  noted_state s deleted = record (deleted_state s) {
    readings = suc (suc (suc s.readings));
    draws = suc s.draws;
    tables = with_log s.tables (noted_in s deleted).1;
  }

  cutoff_now-ok :
      (s : State) → cutoff_now env s ≡ (ok (cutoff_of s), record s { readings = suc s.readings })
  unfolding ◌>>=◌
  cutoff_now-ok s = refl

  delete_before-ok :
      (s : State) {n : ℕ}
      → (deleted_from s).0 ≡ ok n
      → delete_before env (cutoff_of s) (record s { readings = suc s.readings })
        ≡ (ok n, deleted_state s)
  unfolding delete_before ◌>>=◌ deleted_state
  delete_before-ok s e = deletion-ok (deleted_from s) _ e

  note_deletion-ok :
      (s : State) (n : ℕ) {e : AuditEvent}
      → (n ≡ 0) ⊎ ((noted_in s n).0 ≡ ok e)
      → (t : State) × (note_deletion env (cutoff_of s) n (deleted_state s) ≡ (ok tt, t))
        × (t.tables.audit_rows ≡ (kept_log s n).rows)
  unfolding note_deletion deleted_state noted_state record_event
  note_deletion-ok s n saved = elim (Bool-cases (eqb n 0)) [
    | inl z ↦ (deleted_state s, rw z refl, rw z refl)
    | inr z ↦ elim saved [
      | inl nothing ↦ absurd (ground arith)
      | inr stored ↦ (noted_state s n, rw z (audited-ok (noted_in s n) _ stored), rw z refl)
    ]
  ]

  -- A round of the daily upkeep on a chained log, where the database takes the deletion and, if any
  -- event was deleted, the event for it: it ends with the result of the check, which finds the log
  -- intact and is noted in the settings. The log then holds the rows that the deletion before the
  -- cutoff, as many days ago as events are kept, has left, and the event for it if any was deleted;
  -- it is chained. Digests have 64 characters.
  pub retention_round-IsUpkept :
      (digests : HasDigests env.hashing) (s : State) (deleted : ℕ) (e : AuditEvent)
      → HasChain env s
      → (deleted_from s).0 ≡ ok deleted
      → (deleted ≡ 0) ⊎ ((noted_in s deleted).0 ≡ ok e)
      → IsUpkept s deleted (retention_round env s)
  unfolding retention_round
  retention_round-IsUpkept digests s deleted e chained done saved =
      let (t, noted, rows) = note_deletion-ok s deleted saved in
      let deleting : HasChain env (deleted_state s) =
        subst (λ (o : Outcome WebError ℕ × State). HasChain env o.1) (delete_before-ok s done)
          (delete_before-HasChain env digests (cutoff_of s) (record s { readings = suc s.readings })
            chained) in
      let noting : HasChain env t =
        subst (λ (o : Outcome WebError Unit × State). HasChain env o.1) noted
          (note_deletion-HasChain env digests (cutoff_of s) deleted (deleted_state s) deleting) in
      let run : retention_round env s ≡ verify_audit_integrity env t =
        bind-ok (cutoff_now env)
          (λ cutoff.
            delete_before env cutoff >>= note_deletion env cutoff >> verify_audit_integrity env)
          s (cutoff_now-ok s)
        ∙ bind-ok (delete_before env (cutoff_of s) >>= note_deletion env (cutoff_of s))
            (λ _. verify_audit_integrity env) _
            (bind-ok (delete_before env (cutoff_of s)) (note_deletion env (cutoff_of s)) _
                (delete_before-ok s done)
              ∙ noted) in
      subst (IsUpkept s deleted) (sym run) (verified s t deleted noting rows)
