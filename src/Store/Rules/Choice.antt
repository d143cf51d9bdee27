-- ===== src/Store/Rules/Choice.antt =====
-- Which rule applies to a document type.
use document_feeder.Prelude.{
  ◌≤◌, String, ◌≡◌, Bool, true, false, ◌&&◌, some, [], ◌∷◌, arith, ◌==◌, eq_iff, All, select,
}
use mathlib.Core.List.{Memᴰ}
use document_feeder.Prelude.Sorting.{sort_by-least}
use document_feeder.Models.Target.{DeliveryRule}
use document_feeder.Table.Reads.{mem-select}
use document_feeder.Store.Rules.{RuleTable, by_priority, find_delivery_rule}

abbrev applies : String → DeliveryRule → Bool
applies document_type r = r.document_type == document_type && r.enabled

-- A stored, enabled rule for the type, of a priority number that no other such rule is below.
pub record IsChoice (document_type : String) (t : RuleTable) (rule : DeliveryRule) : Type 0 where
  pub stored : Memᴰ rule t
  pub matches : rule.document_type ≡ document_type
  pub enabled : rule.enabled ≡ true
  pub first :
      All
        (λ (r : DeliveryRule). rule.priority ≤ r.priority)
        (select (λ r. r.document_type == document_type && r.enabled) t)

priority_total : (x y : DeliveryRule) → by_priority x y ≡ false → by_priority y x ≡ true
priority_total x y h = ground arith

priority_trans :
    (x y z : DeliveryRule)
    → by_priority x y ≡ true
    → by_priority y z ≡ true
    → by_priority x z ≡ true
priority_trans x y z h k = ground arith

not_above :
    (rule : DeliveryRule) (t : RuleTable)
    → All (λ (r : DeliveryRule). by_priority rule r ≡ true) t
    → All (λ (r : DeliveryRule). rule.priority ≤ r.priority) t
not_above rule [] h = tt
not_above rule (x ∷ t) h = (ground arith, not_above rule t h.1)

-- The rule that is found is a choice for the type.
pub find_delivery_rule-IsChoice :
    (document_type : String) (t : RuleTable) {rule : DeliveryRule}
    → find_delivery_rule document_type t ≡ some rule
    → IsChoice document_type t rule
unfolding find_delivery_rule
find_delivery_rule-IsChoice document_type t {rule} h =
    let found = select (applies document_type) t in
    let least = sort_by-least by_priority priority_total priority_trans found h in
    let stored = mem-select (applies document_type) t least.0 in
    record {
      stored = stored.0;
      matches = (eq_iff rule.document_type document_type).0 (ground arith);
      enabled = ground arith;
      first = not_above rule found least.1;
    }
