-- ===== src/Json/Laws.antt =====
-- The laws of dictionary reads after writes.
use document_feeder.Prelude.{String, ◌≡◌, refl, ◌≢◌, none, some, arith, ◌==◌, eq_iff, if◌then◌else◌}
use document_feeder.Json.{Json, Fields, empty, field, get, set, update}

pub get-set :
    (j k : String) (v : Json) (d : Fields)
    → get j (set k v d) ≡ (if k == j then some v else get j d)
unfolding get set
get-set j k v empty = refl
get-set j k v (field i w d) = ground (arith, eq_iff k j, eq_iff i k, eq_iff i j, get-set j k v d)

pub get-set_self : (k : String) (v : Json) (d : Fields) → get k (set k v d) ≡ some v
get-set_self k v d = ground (arith, get-set k k v d, eq_iff k k)

pub get-set_ne : (j k : String) (v : Json) (d : Fields) → k ≢ j → get j (set k v d) ≡ get j d
get-set_ne j k v d h = ground (arith, get-set j k v d, eq_iff k j)

-- What the second dictionary does not hold is read from the first.
pub get-update_absent : (j : String) (d e : Fields) → get j e ≡ none → get j (update d e) ≡ get j d
unfolding get update
get-update_absent j d empty h = refl
get-update_absent j d (field k v e) h =
    ground (arith, eq_iff k j, get-set j k v d, get-update_absent j (set k v d) e)
