-- ===== src/Store/Rules.antt =====
-- `delivery_rules` (src/document_core/store.py).
pub mod Choice
use Prim.Native.String.{compare}
use text.Mathlib.Text.{is_le}
use document_feeder.Prelude.{
  ℕ, String, Bool, true, false, not, ◌&&◌, ◌||◌, Option, List, ◌==◌, leb, ltb, eqb, exists, select,
  if◌then◌else◌, Outcome, ok, raise,
}
use document_feeder.Prelude.Sorting.{sort_by, head?}
use document_feeder.Models.Target.{DeliveryRule}
use document_feeder.Table.{lookup, has, modify, remove, add}
use document_feeder.Store.Jobs.{StoreError, integrity_error}

abbrev pub RuleTable : Type 0
RuleTable = List DeliveryRule

abbrev pub rule_id : DeliveryRule → String
rule_id r = r.id

abbrev pub by_priority : DeliveryRule → DeliveryRule → Bool
by_priority a b = leb a.priority b.priority

-- `list_delivery_rules`: by priority, then by name
unfoldable pub list_delivery_rules : RuleTable → List DeliveryRule
list_delivery_rules =
    sort_by (λ a b.
      ltb a.priority b.priority || eqb a.priority b.priority && is_le (compare a.name b.name))

unfoldable pub get_delivery_rule : String → RuleTable → Option DeliveryRule
get_delivery_rule id t = lookup rule_id id t

-- `find_delivery_rule`
unfoldable pub find_delivery_rule : String → RuleTable → Option DeliveryRule
find_delivery_rule document_type t =
    head? (sort_by by_priority (select (λ r. r.document_type == document_type && r.enabled) t))

-- `save_delivery_rule`: the name is unique
unfoldable pub save_delivery_rule : ℕ → DeliveryRule → RuleTable → Outcome StoreError RuleTable
save_delivery_rule now rule t =
    let row = record rule { updated_at = now } in
    if exists (λ r. r.name == row.name && not (r.id == row.id)) t
    then raise integrity_error
    else ok (if has rule_id row.id t then modify rule_id row.id (λ _. row) t else add rule_id row t)

-- `delete_delivery_rule`
unfoldable pub delete_delivery_rule : String → RuleTable → Bool × RuleTable
delete_delivery_rule id t = (has rule_id id t, remove rule_id id t)
