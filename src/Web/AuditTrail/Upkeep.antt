-- ===== src/Web/AuditTrail/Upkeep.antt =====
-- The daily upkeep keeps the log a chain.
use document_feeder.Prelude.{
  ℕ, suc, ◌≤◌, String, ◌≡◌, refl, ap, subst, sym, ◌∙◌, false, Option, none, some, arith, ◌==◌,
  Bool-cases, inl, inr, eqb, Outcome, ok, raise,
}
use document_feeder.Prelude.Decimal.{of_decimal}
use document_feeder.Prelude.Exec.{◌>>=◌}
use document_feeder.Prelude.Exec.Laws.{Preserves, bind-Preserves}
use document_feeder.Prelude.Sorting.{sort_by}
use document_feeder.Models.Audit.{AuditEvent, AuditIntegrityStatus}
use document_feeder.Store.Settings.{
  SettingTable, set_setting, session_setting, session_setting-set_setting,
}
use document_feeder.Store.Audit.{
  AuditLog, AuditError, Hashing, anchor_index, anchor_hash, anchor_index_key, anchor_hash_key,
  zero_hash, by_index, verify_audit_chain,
}
use document_feeder.Store.Audit.Verify.{IsChain}
use document_feeder.Store.Audit.Append.{IsChained, HasDigests, save_audit_event-IsChained}
use document_feeder.Store.Audit.Retention.Chain.{delete_audit_events_before-IsChained}
use document_feeder.Web.World.{WebEnvironment, Service, audit_log, audited, read, record_event}
use document_feeder.Web.AuditTrail.{
  clamp_days, audit_retention_days, deletion, delete_before, set_system_setting, report,
  verify_audit_integrity, note_deletion, retention_round, cutoff_now,
}

clamp_days-bounds : (o : Option ℕ) → (30 ≤ clamp_days o) × (clamp_days o ≤ 3650)
unfolding clamp_days
clamp_days-bounds none = (omega arith, omega arith)
clamp_days-bounds (some n) = (omega arith, omega arith)

-- Whatever text the settings hold, events are kept for 30 to 3650 days.
pub audit_retention_days-bounds :
    (t : SettingTable) → (30 ≤ audit_retention_days t) × (audit_retention_days t ≤ 3650)
unfolding audit_retention_days
audit_retention_days-bounds t = clamp_days-bounds _

other_setting :
    (now : ℕ) (key value j default : String) (t : SettingTable)
    → (key == j) ≡ false
    → session_setting j default (set_setting now key value t) ≡ session_setting j default t
other_setting now key value j default t e =
    rw (session_setting-set_setting now key value j default t, e) refl

-- a setting other than the anchor's leaves a chain
IsChained-set_setting :
    (h : Hashing) (now : ℕ) (key value : String) (log : AuditLog)
    → (key == anchor_index_key) ≡ false
    → (key == anchor_hash_key) ≡ false
    → IsChained h log
    → IsChained h (record log { settings = set_setting now key value log.settings })
unfolding anchor_index anchor_hash
IsChained-set_setting h now key value log i k w = record {
  anchor = w.anchor;
  anchored =
      ap of_decimal (other_setting now key value anchor_index_key "0" log.settings i) ∙ w.anchored;
  chain =
      subst (λ hash. IsChain h hash (suc w.anchor) (sort_by by_index log.rows))
        (sym (other_setting now key value anchor_hash_key zero_hash log.settings k)) w.chain;
}

module _ (env : WebEnvironment) where
  -- the audit log is a chain
  abbrev pub HasChain : Service env.pipeline.Files → Type 0
  HasChain s = IsChained env.hashing (audit_log s.tables)

  deletion-HasChain :
      (r : Outcome AuditError ℕ × AuditLog) (s : Service env.pipeline.Files)
      → IsChained env.hashing r.1
      → HasChain (deletion env r s).1
  unfolding deletion
  deletion-HasChain (ok n, log) s w = w
  deletion-HasChain (raise e, log) s w = w

  audited-HasChain :
      (r : Outcome AuditError AuditEvent × AuditLog) (s : Service env.pipeline.Files)
      → IsChained env.hashing r.1
      → HasChain (audited env r s).1
  unfolding audited
  audited-HasChain (ok e, log) s w = w
  audited-HasChain (raise e, log) s w = w

  pub record_event-HasChain :
      (digests : HasDigests env.hashing) (make : String → ℕ → AuditEvent)
      → Preserves HasChain (record_event env make)
  unfolding record_event
  record_event-HasChain digests make s w = audited-HasChain _ _ (
      save_audit_event-IsChained env.hashing digests s.tables.db.cipher.known _ (audit_log s.tables)
        w)

  pub delete_before-HasChain :
      (digests : HasDigests env.hashing) (cutoff : ℕ)
      → Preserves HasChain (delete_before env cutoff)
  unfolding delete_before ◌>>=◌
  delete_before-HasChain digests cutoff s w =
      deletion-HasChain _ _
        (delete_audit_events_before-IsChained env.hashing digests _ cutoff (audit_log s.tables) w)

  pub note_deletion-HasChain :
      (digests : HasDigests env.hashing) (cutoff deleted : ℕ)
      → Preserves HasChain (note_deletion env cutoff deleted)
  unfolding note_deletion
  note_deletion-HasChain digests cutoff deleted s w = elim (Bool-cases (eqb deleted 0)) [
    | inl e ↦ rw e w
    | inr e ↦ rw e (record_event-HasChain digests _ s w)
  ]

  pub report-HasChain : (r : Option AuditIntegrityStatus) → Preserves HasChain (report env r)
  unfolding report set_system_setting ◌>>=◌
  report-HasChain none s w = w
  report-HasChain (some r) s w =
      IsChained-set_setting env.hashing _ "audit_integrity_status" _ (audit_log s.tables) refl refl
        w

  cutoff_now-HasChain : Preserves HasChain (cutoff_now env)
  unfolding ◌>>=◌
  cutoff_now-HasChain s w = w

  -- A round of the daily upkeep, raised or not, leaves a chained audit log chained. Digests have
  -- 64 characters.
  pub retention_round-HasChain :
      (digests : HasDigests env.hashing) → Preserves HasChain (retention_round env)
  unfolding retention_round verify_audit_integrity
  retention_round-HasChain digests =
      bind-Preserves HasChain (cutoff_now env) _ cutoff_now-HasChain (λ cutoff.
        bind-Preserves HasChain (delete_before env cutoff >>= note_deletion env cutoff) _
          (bind-Preserves HasChain (delete_before env cutoff) (note_deletion env cutoff)
            (delete_before-HasChain digests cutoff) (note_deletion-HasChain digests cutoff))
          (λ _.
            bind-Preserves HasChain (read env (λ t. verify_audit_chain env.hashing (audit_log t)))
              (report env) (λ s w. w) report-HasChain))
