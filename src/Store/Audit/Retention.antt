-- ===== src/Store/Audit/Retention.antt =====
-- `delete_audit_events_before` (src/document_core/store.py): the oldest rows go, and the anchor
-- moves.
pub mod Chain
pub mod Recent
use document_feeder.Prelude.{
  ℕ, ◌-◌, not, Option, none, some, List, leb, eqb, select, count_rows, find_first, if◌then◌else◌,
  Outcome, ok, raise,
}
use document_feeder.Prelude.Sorting.{sort_by, head?, last?}
use document_feeder.Prelude.Decimal.{to_decimal}
use document_feeder.Store.Settings.{set_setting}
use document_feeder.Store.Audit.{
  AuditRow, AuditLog, AuditError, type_error, zero_hash, anchor_hash_key, anchor_index_key,
  or_default, number_is, number_up_to, index_or_zero, by_index, has_index,
}

-- `first_retained.chain_index - 1`: on `None` a `TypeError`. Of index 0, which no row has, Python
-- makes -1, at which no row stands: nothing is deleted, as at 0.
abbrev pub index_before_first : Option ℕ → Outcome AuditError ℕ
index_before_first none = raise type_error
index_before_first (some n) = ok (n - 1)

abbrev pub index_of : Option AuditRow → ℕ
index_of none = 0
index_of (some r) = index_or_zero r.chain_index

-- The index up to which `delete_audit_events_before` deletes, 0 where there is nothing to delete:
-- that before the first retained row, or `max(chain_index)`.
unfoldable pub boundary : Option AuditRow → List AuditRow → Outcome AuditError ℕ
boundary (some first) rows = index_before_first first.chain_index
boundary none rows = ok (index_of (last? (sort_by by_index (select has_index rows))))

-- the new anchor and the deletion, where the anchor's row is there
unfoldable pub cut_at : ℕ → ℕ → Option AuditRow → AuditLog → ℕ × AuditLog
cut_at now n none log = (0, log)
cut_at now n (some anchor) log = (
  count_rows (λ r. number_up_to r.chain_index n) log.rows,
  record {
    rows = select (λ r. not (number_up_to r.chain_index n)) log.rows;
    settings =
        set_setting now anchor_index_key (to_decimal (index_or_zero anchor.chain_index))
          (set_setting now anchor_hash_key (or_default anchor.entry_hash zero_hash) log.settings);
  },
)

unfoldable pub delete_up_to : ℕ → ℕ → AuditLog → ℕ × AuditLog
unfolding cut_at
delete_up_to now n log =
    if eqb n 0
    then (0, log)
    else cut_at now n (find_first (λ r. number_is r.chain_index n) log.rows) log

unfoldable pub delete_at : Outcome AuditError ℕ → ℕ → AuditLog → Outcome AuditError ℕ × AuditLog
unfolding delete_up_to
delete_at (raise e) now log = (raise e, log)
delete_at (ok n) now log = let (deleted, log') = delete_up_to now n log in (ok deleted, log')

unfoldable pub first_retained : ℕ → List AuditRow → Option AuditRow
first_retained cutoff rows =
    head? (sort_by by_index (select (λ (r : AuditRow). leb cutoff r.created_at) rows))

-- `delete_audit_events_before`: the number of deleted rows
unfoldable pub delete_audit_events_before : ℕ → ℕ → AuditLog → Outcome AuditError ℕ × AuditLog
unfolding boundary delete_at first_retained
delete_audit_events_before now cutoff log =
    delete_at (boundary (first_retained cutoff log.rows) log.rows) now log
