-- ===== src/Secrets/Redaction.antt =====
-- `SecretCipher.redact` (src/document_core/secrets.py): every known secret is replaced in every
-- text of a value.
use document_feeder.Prelude.{
  String, count, Bool, List, [], ◌∷◌, leb, ◌==◌, ◌≡◌, refl, if◌then◌else◌,
}
use document_feeder.Prelude.Sorting.{sort_by}
use document_feeder.Prelude.Text.{replace}
use document_feeder.Json.{Json, Items, Fields}

abbrev pub redacted_mark : String
redacted_mark = "[REDACTED]"

-- `sorted(known, key=len, reverse=True)`
abbrev longer : String → String → Bool
longer a b = leb (count b) (count a)

replace_each : List String → String → String
unfolding replace
replace_each [] s = s
replace_each (secret ∷ secrets) s =
    replace_each secrets (if secret == "" then s else replace secret redacted_mark s)

unfoldable pub redact_text : List String → String → String
unfolding replace_each sort_by
redact_text known s = replace_each (sort_by longer known) s

-- `redact(value)` on a text, a dictionary, a list, or anything else
unfoldable mutual
  pub redact : List String → Json → Json
  redact known (Json.text s) = Json.text (redact_text known s)
  redact known (Json.object d) = Json.object (redact_fields known d)
  redact known (Json.array xs) = Json.array (redact_items known xs)
  redact known v = v

  pub redact_fields : List String → Fields → Fields
  redact_fields known Fields.empty = Fields.empty
  redact_fields known (Fields.field k v d) = Fields.field k (redact known v) (redact_fields known d)

  pub redact_items : List String → Items → Items
  redact_items known Items.nil = Items.nil
  redact_items known (Items.item v xs) = Items.item (redact known v) (redact_items known xs)

secret_gone : redact_text ("abc" ∷ "abcdef" ∷ []) "x abcdef y abc" ≡ "x [REDACTED] y [REDACTED]"
unfolding redact_text
secret_gone = refl
