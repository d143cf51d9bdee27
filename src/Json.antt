-- ===== src/Json.antt =====
-- Python's `dict[str, Any]` values as the program keeps them: job metadata, event details, audit
-- details (src/document_core/models.py), and the dictionary operations on them.
pub mod Laws
use document_feeder.Prelude.{ℕ, String, Bool, Option, none, some, ◌==◌, if◌then◌else◌}

-- `thousandths n` is the float n / 1000: the only floats stored are confidences with three places.
mutual
  pub data Json : Type 0 where
    null : Json
    bool : Bool → Json
    number : ℕ → Json
    thousandths : ℕ → Json
    text : String → Json
    array : Items → Json
    object : Fields → Json

  pub data Items : Type 0 where
    nil : Items
    item : Json → Items → Items

  pub data Fields : Type 0 where
    empty : Fields
    field : String → Json → Fields → Fields

-- `d.get(key)`
unfoldable pub get : String → Fields → Option Json
get k empty = none
get k (field j v d) = if j == k then some v else get k d

-- `d[key] = value`: a new key goes to the end
unfoldable pub set : String → Json → Fields → Fields
set k v empty = field k v empty
set k v (field j w d) = if j == k then field k v d else field j w (set k v d)

-- `d.update(e)`
unfoldable pub update : Fields → Fields → Fields
unfolding set
update d empty = d
update d (field k v e) = update (set k v d) e

abbrev pub optional_text : Option String → Json
optional_text none = null
optional_text (some s) = text s

abbrev pub optional_number : Option ℕ → Json
optional_number none = null
optional_number (some n) = number n
