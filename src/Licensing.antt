-- ===== src/Licensing.antt =====
-- Entitlements and the check of license keys (src/document_core/licensing.py). Ed25519, base64, the
-- parser of JSON, `datetime.fromisoformat`, `str` of a value that is no text, and `str.strip` are
-- parameters.
pub mod Genuine
use Prim.Native.Char.{char}
use Prim.Native.String
use document_feeder.Prelude.{
  ℕ, zero, suc, ◌+◌, ◌-◌, ◌%◌, String, ◌<>◌, count, Bool, true, false, not, ◌&&◌, ◌||◌, Option,
  none, some, List, [], ◌∷◌, ◌==◌, leb, eqb, exists, select, if◌then◌else◌, map, Outcome, ok, raise,
}
use document_feeder.Prelude.Split.{split}
use document_feeder.Prelude.Text.{replace}
use document_feeder.Json.{Json, Items, Fields, get}
use document_feeder.Json
use document_feeder.Auth.{Bytes}

-- an instant, or the reading of a clock in no time zone, as if it stood in UTC
pub data Moment : Type 0 where
  aware : ℕ → Moment
  naive : ℕ → Moment

-- What the module takes from libraries; `none` is an error that the code catches.
pub record Signing : Type 1 where
  pub PublicKey : Type 0
  pub urlsafe_b64decode : String → Option Bytes
  pub from_public_bytes : Bytes → Option PublicKey
  pub verify_signature : PublicKey → Bytes → Bytes → Bool
  pub encode_ascii : String → Option Bytes
  pub json_loads : Bytes → Option Json
  pub fromisoformat : String → Option Moment
  pub str_of : Json → String
  pub strip : String → String

-- `feature in features`
abbrev pub has_feature : String → List String → Bool
has_feature f = exists (λ g. g == f)

-- `EntitlementService`, whose dynamic features depend on a state
pub record EntitlementService (S : Type 0) : Type 0 where
  pub enabled_features : List String
  pub dynamic_features : Option (S → List String)

-- `from_csv`
unfoldable pub from_csv : {S : Type 0} → (String → String) → String → EntitlementService S
from_csv strip value = record {
  enabled_features = map strip (select (λ item. not (strip item == "")) (split (char 44 tt) value));
  dynamic_features = none;
}

-- `allows`
unfoldable pub allows : {S : Type 0} → EntitlementService S → Option String → S → Bool
allows service none s = true
allows service (some feature) s =
    has_feature feature service.enabled_features
    || (elim service.dynamic_features [ none ↦ false | some f ↦ has_feature feature (f s) ])

pub data LicenseValidationError : Type 0 where
  license_error : String → LicenseValidationError

pub record VerifiedLicense : Type 0 where
  pub customer : String
  pub features : List String
  pub expires_at : ℕ
  pub installation_id : Option Json

-- `"=" * (-len(value) % 4)`
abbrev pub padding : ℕ → String
padding zero = ""
padding (suc zero) = "==="
padding (suc (suc zero)) = "=="
padding (suc (suc (suc n))) = "="

-- a value that Python takes for true
abbrev pub truthy : Json → Bool
truthy Json.null = false
truthy (Json.bool b) = b
truthy (Json.number n) = not (eqb n 0)
truthy (Json.thousandths n) = not (eqb n 0)
truthy (Json.text s) = not (s == "")
truthy (Json.array Items.nil) = false
truthy (Json.array (Items.item v r)) = true
truthy (Json.object Fields.empty) = false
truthy (Json.object (Fields.field k v d)) = true

unfoldable pub items_of : Items → List Json
items_of Items.nil = []
items_of (Items.item v r) = v ∷ items_of r

unfoldable pub keys_of : Fields → List Json
keys_of Fields.empty = []
keys_of (Fields.field k v d) = Json.text k ∷ keys_of d

unfoldable pub characters : String → List Json
characters String.[] = []
characters (String.◌∷◌ c s) = Json.text (String.◌∷◌ c "") ∷ characters s

-- what a loop over the value goes through; the others raise a `TypeError`
unfoldable pub iterated : Json → Option (List Json)
unfolding items_of keys_of characters
iterated (Json.array r) = some (items_of r)
iterated (Json.object d) = some (keys_of d)
iterated (Json.text s) = some (characters s)
iterated _ = none

abbrev pub instant : Moment → ℕ
instant (aware t) = t
instant (naive t) = t

module _ (lib : Signing) where
  -- `_decode`
  unfoldable pub decode : String → Option Bytes
  decode value = lib.urlsafe_b64decode (value <> padding (count value % 4))

  -- `str(value)`
  abbrev pub str : Json → String
  str (Json.text s) = s
  str v = lib.str_of v

  -- The signature of the payload is one of the key's.
  abbrev pub signed_by : Option Bytes → Option Bytes → Bytes → Bool
  signed_by none message signature = false
  signed_by (some key) none signature = false
  signed_by (some key) (some message) signature = elim (lib.from_public_bytes key) [
    | none ↦ false
    | some public_key ↦ lib.verify_signature public_key signature message
  ]

  unfoldable pub signature_ok : String → String → Bytes → Bool
  unfolding decode
  signature_ok public_key part signature =
      signed_by (decode public_key) (lib.encode_ascii ("DC1." <> part)) signature

  -- customer, features, expiry and installation of a payload; `none` is an error that is caught
  abbrev pub feature_texts : Option (List Json) → Option (List String)
  feature_texts none = none
  feature_texts (some values) = some (map (λ v. lib.strip (str v)) (select truthy values))

  abbrev pub content_of : Fields → Option Json → Option Json → Option Json → Option VerifiedLicense
  content_of d (some customer) (some features) (some expires) =
      elim (feature_texts (iterated features)) [
        | none ↦ none
        | some fs ↦ elim (lib.fromisoformat (replace "Z" "+00:00" (str expires))) [
          | none ↦ none
          | some moment ↦ some (record {
            customer = lib.strip (str customer);
            features = fs;
            expires_at = instant moment;
            installation_id = get "installation_id" d;
          })
        ]
      ]
  content_of d _ _ _ = none

  abbrev pub payload_of : Option Json → Option VerifiedLicense
  payload_of (some (Json.object d)) =
      content_of d (get "customer" d) (get "features" d) (get "expires_at" d)
  payload_of _ = none

  abbrev pub no_names : List String → Bool
  no_names [] = true
  no_names (f ∷ fs) = false

  -- the license is bound to another installation
  abbrev pub is_foreign : Option Json → String → Bool
  is_foreign none installation_id = false
  is_foreign (some (Json.text s)) installation_id = not (s == "") && not (s == installation_id)
  is_foreign (some v) installation_id = truthy v

  -- the last checks of `verify`
  unfoldable pub accept_content :
      String → ℕ → Option VerifiedLicense → Outcome LicenseValidationError VerifiedLicense
  accept_content installation_id now none = raise (license_error "Lizenzinhalt ist unvollständig")
  accept_content installation_id now (some l) =
      if l.customer == "" || no_names l.features
      then raise (license_error "Kunde und mindestens ein Modul sind erforderlich")
      else if leb l.expires_at now
      then raise (license_error "Lizenz ist abgelaufen")
      else if is_foreign l.installation_id installation_id
      then raise (license_error "Lizenz gehört zu einer anderen Installation")
      else ok l

  unfoldable pub verify_decoded :
      String
      → String
      → ℕ
      → String
      → Option Bytes
      → Option Bytes
      → Outcome LicenseValidationError VerifiedLicense
  unfolding accept_content signature_ok
  verify_decoded public_key installation_id now part (some payload) (some signature) =
      if signature_ok public_key part signature
      then accept_content installation_id now (payload_of (lib.json_loads payload))
      else raise (license_error "Signatur des Lizenzschlüssels ist ungültig")
  verify_decoded public_key installation_id now part _ _ =
      raise (license_error "Lizenzschlüssel ist nicht korrekt kodiert")

  unfoldable pub verify_parts :
      String → String → ℕ → List String → Outcome LicenseValidationError VerifiedLicense
  unfolding verify_decoded decode
  verify_parts public_key installation_id now (version ∷ payload ∷ signature ∷ []) =
      if version == "DC1"
      then verify_decoded public_key installation_id now payload (decode payload) (decode signature)
      else raise (license_error "Lizenzschlüssel hat ein unbekanntes Format")
  verify_parts public_key installation_id now _ =
      raise (license_error "Lizenzschlüssel hat ein unbekanntes Format")

  -- `LicenseVerifier(public_key).verify(license_key, installation_id)`
  unfoldable pub verify :
      String → String → String → ℕ → Outcome LicenseValidationError VerifiedLicense
  unfolding verify_parts
  verify public_key license_key installation_id now =
      if lib.strip public_key == ""
      then raise (license_error "Lizenzprüfung ist auf diesem System nicht konfiguriert")
      else verify_parts (lib.strip public_key) installation_id now
          (split (char 46 tt) (lib.strip license_key))
