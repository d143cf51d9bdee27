-- ===== src/Store/Audit.antt =====
-- `audit_events`: the hash chain of the audit log (src/document_core/store.py). SHA-256, the
-- canonical JSON text of a dictionary and the ISO form of a date are parameters.
pub mod Retention
pub mod Verify
pub mod Append
pub mod Evidence
pub mod Search
use Prim.Native.String.{compare}
use package.text.Mathlib.Text.{is_le}
use document_feeder.Prelude.{
  ℕ, zero, suc, ◌+◌, ◌-◌, String, ◌<>◌, Bool, true, false, not, ◌&&◌, ◌||◌, Option, none, some,
  List, [], ◌∷◌, ◌++◌, ◌==◌, leb, ltb, eqb, is_some, exists, select, count_rows, find_first, length,
  if◌then◌else◌, Outcome, ok, raise,
}
use document_feeder.Prelude.Sorting.{sort_by, head?, last?}
use document_feeder.Prelude.Decimal.{of_decimal, to_decimal}
use document_feeder.Json.{Fields, Json, text, number, object, empty, field, optional_text}
use document_feeder.Models.Audit.{AuditEvent, AuditIntegrityStatus}
use document_feeder.Secrets.Redaction.{redact_fields}
use document_feeder.Store.Settings.{SettingTable, session_setting, set_setting}

pub record AuditRow : Type 0 where
  pub event : AuditEvent
  pub open event use *
  pub chain_index : Option ℕ
  pub previous_hash : Option String
  pub entry_hash : Option String

-- the two tables that the chain lives in
pub record AuditLog : Type 0 where
  pub rows : List AuditRow
  pub settings : SettingTable

pub data AuditError : Type 0 where
  value_error type_error integrity_error : AuditError

abbrev pub zero_hash : String
zero_hash = "0000000000000000000000000000000000000000000000000000000000000000"

abbrev pub anchor_hash_key : String
anchor_hash_key = "audit_chain_anchor_hash"

abbrev pub anchor_index_key : String
anchor_index_key = "audit_chain_anchor_index"

-- What the chain takes from libraries: `hashlib.sha256(text.encode()).hexdigest()`,
-- `json.dumps(…, sort_keys=True, separators=(",", ":"))` and `isoformat(timespec="microseconds")`.
pub record Hashing : Type 0 where
  pub sha256_hexdigest : String → String
  pub json_dumps : Fields → String
  pub isoformat : ℕ → String

-- a text or the default, for Python's `value or default`
abbrev pub or_default : Option String → String → String
or_default none default = default
or_default (some s) default = if s == "" then default else s

-- comparisons with a column that may be NULL
abbrev pub text_is : Option String → String → Bool
text_is none t = false
text_is (some s) t = s == t

abbrev pub number_is : Option ℕ → ℕ → Bool
number_is none m = false
number_is (some n) m = eqb n m

abbrev pub number_up_to : Option ℕ → ℕ → Bool
number_up_to none m = false
number_up_to (some n) m = leb n m

-- `value or ""`
abbrev pub text_or_empty : Option String → String
text_or_empty none = ""
text_or_empty (some s) = s

abbrev pub index_or_zero : Option ℕ → ℕ
index_or_zero none = 0
index_or_zero (some n) = n

-- rows in the order of their index; rows without one stand last, as PostgreSQL sorts NULL
abbrev pub index_before : Option ℕ → Option ℕ → Bool
index_before (some a) (some b) = leb a b
index_before (some a) none = true
index_before none none = true
index_before none (some b) = false

abbrev pub by_index : AuditRow → AuditRow → Bool
by_index a b = index_before a.chain_index b.chain_index

abbrev pub has_index : AuditRow → Bool
has_index r = is_some r.chain_index

-- the anchor index is a decimal text; `none` is the `ValueError` of `int`
unfoldable pub anchor_index : SettingTable → Option ℕ
anchor_index s = of_decimal (session_setting anchor_index_key "0" s)

unfoldable pub anchor_hash : SettingTable → String
anchor_hash s = session_setting anchor_hash_key zero_hash s

module _ (h : Hashing) where
  -- the text that is hashed for an event
  unfoldable pub payload : AuditEvent → String
  payload e = h.json_dumps (
      field "id" (text e.id) (
        field "actor_user_id" (optional_text e.actor_user_id) (
          field "actor_username" (text e.actor_username) (
            field "action" (text e.action) (
              field "resource_type" (text e.resource_type) (
                field "resource_id" (optional_text e.resource_id) (
                  field "outcome" (text e.outcome) (
                    field "status_code" (number e.status_code) (
                      field "details" (object e.details)
                        (field "created_at" (text (h.isoformat e.created_at)) empty))))))))))

  -- `_audit_hash(previous_hash, values)`
  unfoldable pub audit_hash : String → AuditEvent → String
  audit_hash previous_hash e = h.sha256_hexdigest (previous_hash <> ("\n" <> payload e))

  abbrev pub chained : ℕ → String → AuditEvent → AuditRow
  chained index previous e = record {
    event = e;
    chain_index = some index;
    previous_hash = some previous;
    entry_hash = some (audit_hash previous e);
  }

  -- the loop of `initialize_audit_chain`
  unfoldable pub chain_rows : ℕ → String → List AuditRow → List AuditRow
  chain_rows index previous [] = []
  chain_rows index previous (r ∷ rs) =
      chained (suc index) previous r.event ∷ chain_rows (suc index) (audit_hash previous r.event) rs

  unfoldable pub anchor_link : Option ℕ → String → Outcome AuditError (String × ℕ)
  anchor_link none hash = raise value_error
  anchor_link (some n) hash = ok (hash, suc n)

  -- The last row of the chain, or the anchor, gives the hash and the index of the next row.
  unfoldable pub next_link : Option AuditRow → SettingTable → Outcome AuditError (String × ℕ)
  next_link (some last) s =
      ok (or_default last.entry_hash zero_hash, suc (index_or_zero last.chain_index))
  next_link none s = anchor_link (anchor_index s) (anchor_hash s)

  -- an insert breaks the primary key or a unique column
  unfoldable pub clashes : String → ℕ → String → List AuditRow → Bool
  clashes id index hash =
      exists (λ r. r.id == id || (number_is r.chain_index index || text_is r.entry_hash hash))

  unfoldable pub append_row :
      ℕ → String → AuditEvent → AuditLog → Outcome AuditError AuditEvent × AuditLog
  append_row index previous event log =
      if clashes event.id index (audit_hash previous event) log.rows
      then (raise integrity_error, log)
      else (ok event, record log { rows = log.rows ++ chained index previous event ∷ [] })

  unfoldable pub append_event :
      Outcome AuditError (String × ℕ)
      → AuditEvent
      → AuditLog
      → Outcome AuditError AuditEvent × AuditLog
  unfolding append_row
  append_event (raise e) event log = (raise e, log)
  append_event (ok (previous, index)) event log = append_row index previous event log

  -- `save_audit_event`
  unfoldable pub save_audit_event :
      List String → AuditEvent → AuditLog → Outcome AuditError AuditEvent × AuditLog
  unfolding append_event
  save_audit_event known event log =
      let redacted = record event { details = redact_fields known event.details } in
      let last = last? (sort_by by_index (select has_index log.rows)) in
      append_event (next_link last log.settings) redacted log

  -- the three comparisons of `verify_audit_chain`
  unfoldable pub link_ok : String → ℕ → AuditRow → Bool
  link_ok previous expected row =
      number_is row.chain_index expected
      && (text_is row.previous_hash previous
          && text_is row.entry_hash (audit_hash previous row.event))

  unfoldable pub verify_rows : String → ℕ → ℕ → List AuditRow → AuditIntegrityStatus
  unfolding link_ok
  verify_rows previous expected checked [] = record {
    status = "ok";
    checked = checked;
    first_invalid_index = none;
    detail = none;
  }
  verify_rows previous expected checked (r ∷ rs) =
      let rest = verify_rows (text_or_empty r.entry_hash) (suc expected) (suc checked) rs in
      if link_ok previous expected r then rest else record {
        status = "invalid";
        checked = checked;
        first_invalid_index = r.chain_index;
        detail = some "Audit-Hashkette ist unterbrochen oder verändert";
      }

  -- the anchor's index is read first; `none` is the `ValueError` of a broken one
  unfoldable pub verify_from : Option ℕ → String → List AuditRow → Option AuditIntegrityStatus
  unfolding verify_rows
  verify_from none hash rows = none
  verify_from (some n) hash rows = some (verify_rows hash (suc n) 0 rows)

  unfoldable pub verify_audit_chain : AuditLog → Option AuditIntegrityStatus
  unfolding verify_from
  verify_audit_chain log =
      verify_from (anchor_index log.settings) (anchor_hash log.settings) (sort_by by_index log.rows)

  -- the order of `initialize_audit_chain`
  abbrev pub by_creation : AuditRow → AuditRow → Bool
  by_creation a b =
      ltb a.created_at b.created_at || eqb a.created_at b.created_at && is_le (compare a.id b.id)

  abbrev pub is_hashed : AuditRow → Bool
  is_hashed r = not (text_or_empty r.entry_hash == "")

  unfoldable pub initialize_from : Option ℕ → AuditLog → Outcome AuditError AuditLog
  unfolding chain_rows
  initialize_from none log = raise value_error
  initialize_from (some n) log =
      ok (record log {
        rows = chain_rows n (anchor_hash log.settings) (sort_by by_creation log.rows);
      })

  -- `initialize_audit_chain`, on a schema that has the columns
  unfoldable pub initialize_audit_chain : AuditLog → Outcome AuditError AuditLog
  unfolding initialize_from
  initialize_audit_chain log =
      if leb (length log.rows) 0 || exists is_hashed log.rows
      then ok log
      else initialize_from (anchor_index log.settings) log
