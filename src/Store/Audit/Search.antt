-- ===== src/Store/Audit/Search.antt =====
-- `search_audit_events` and `iter_audit_events` (src/document_core/store.py). The test `ILIKE` of
-- the database and `str.strip` are parameters.
use document_feeder.Prelude.{
  ℕ, String, ◌<>◌, Bool, true, false, ◌&&◌, ◌||◌, Option, none, some, List, map, ◌==◌, count_rows,
  ltb, eqb, select,
}
use document_feeder.Prelude.Sorting.{sort_by}
use document_feeder.Prelude.Pages.{page}
use document_feeder.Models.Audit.{AuditEvent}
use document_feeder.Store.Audit.{AuditRow}

abbrev ilike_column : (String → String → Bool) → Option String → String → Bool
ilike_column ilike none pattern = false
ilike_column ilike (some s) pattern = ilike s pattern

module _ (ilike : String → String → Bool) (strip : String → String) where
  abbrev pub has_outcome : Option String → AuditRow → Bool
  has_outcome none r = true
  has_outcome (some o) r = o == "" || r.outcome == o

  abbrev pub has_text : Option String → AuditRow → Bool
  has_text none r = true
  has_text (some q) r =
      let pattern = "%" <> (strip q <> "%") in
      q == ""
      || (ilike r.actor_username pattern
          || (ilike r.action pattern
              || (ilike r.resource_type pattern || ilike_column ilike r.resource_id pattern)))

  -- `_audit_filters`
  unfoldable pub audit_filters : Option String → Option String → AuditRow → Bool
  audit_filters q outcome r = has_outcome outcome r && has_text q r

  -- `ORDER BY created_at DESC`: the database is free in the order of equal times, and `tie` says
  -- which of two rows of one time it gives first in a query.
  abbrev pub by_time : (AuditRow → AuditRow → Bool) → AuditRow → AuditRow → Bool
  by_time tie a b = ltb b.created_at a.created_at || eqb a.created_at b.created_at && tie a b

  -- `search_audit_events`
  unfoldable pub search_audit_events :
      (AuditRow → AuditRow → Bool)
      → Option String
      → Option String
      → ℕ
      → ℕ
      → List AuditRow
      → List AuditEvent × ℕ
  unfolding audit_filters
  search_audit_events tie q outcome limit offset rows = (
    map (λ (r : AuditRow). r.event)
        (page offset limit (sort_by (by_time tie) (select (audit_filters q outcome) rows))),
    count_rows (audit_filters q outcome) rows,
  )

  -- `iter_audit_events`
  unfoldable pub iter_audit_events :
      (AuditRow → AuditRow → Bool) → Option String → Option String → List AuditRow → List AuditEvent
  unfolding audit_filters
  iter_audit_events tie q outcome rows =
      map (λ (r : AuditRow). r.event)
        (sort_by (by_time tie) (select (audit_filters q outcome) rows))
