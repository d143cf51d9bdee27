-- ===== src/Registry.antt =====
-- The connectors that are installed and entitled (src/document_core/connector_registry.py).
pub mod Entitled
use document_feeder.Prelude.{
  ℕ, String, ◌<>◌, Bool, true, false, Option, none, some, List, [], ◌∷◌, map, ◌==◌, if◌then◌else◌,
  Outcome, ok, raise,
}
use Prim.Native.String.{compare}
use text.Mathlib.Text.{is_le}
use document_feeder.Prelude.Sorting.{sort_by}
use document_feeder.Models.Target.{TargetSystem}
use document_feeder.Config.{Settings}
use document_feeder.Table.{lookup, has, add}
use document_feeder.Licensing.{
  Signing, EntitlementService, VerifiedLicense, LicenseValidationError, from_csv, allows, verify,
}

-- `ValueError` and `EntitlementRequiredError`
pub data RegistryError : Type 0 where
  value_error : String → RegistryError
  entitlement_required : String → RegistryError

pub record ConnectorModule (Connector : Type 0) : Type 0 where
  pub id : String
  pub name : String
  pub version : String
  pub capabilities : List String
  pub factory : TargetSystem → Connector
  pub license_feature : Option String
  pub configuration_fields : List String
  pub secret_fields : List String

-- an entry of `describe`
pub record ModuleDescription : Type 0 where
  pub id : String
  pub name : String
  pub version : String
  pub capabilities : List String
  pub license_feature : Option String
  pub licensed : Bool
  pub configuration_fields : List String
  pub secret_fields : List String

-- The registry keeps its modules in the order of their registration. `S` is the state that the
-- dynamic entitlements depend on.
pub record ConnectorRegistry (S Connector : Type 0) : Type 0 where
  pub entitlements : EntitlementService S
  pub modules : List (ConnectorModule Connector)

abbrev pub module_id : {Connector : Type 0} → ConnectorModule Connector → String
module_id m = m.id

abbrev pub feature_name : Option String → String
feature_name none = "None"
feature_name (some f) = f

abbrev pub made :
    {Connector : Type 0}
    → TargetSystem
    → Outcome RegistryError (ConnectorModule Connector)
    → Outcome RegistryError Connector
made target (ok m) = ok (m.factory target)
made target (raise e) = raise e

module _ {S Connector : Type 0} where
  -- `register`
  unfoldable pub register :
      ConnectorModule Connector
      → ConnectorRegistry S Connector
      → Outcome RegistryError (ConnectorRegistry S Connector)
  register m r =
      if has module_id m.id r.modules
      then raise (value_error ("Connector-Modul bereits registriert: " <> m.id))
      else ok (record r { modules = add module_id m r.modules })

  -- `get`
  unfoldable pub get_module :
      String → ConnectorRegistry S Connector → Option (ConnectorModule Connector)
  get_module id r = lookup module_id id r.modules

  unfoldable pub available :
      EntitlementService S
      → String
      → Option (ConnectorModule Connector)
      → S
      → Outcome RegistryError (ConnectorModule Connector)
  available service id none s = raise (value_error ("Connector-Modul nicht installiert: " <> id))
  available service id (some m) s =
      if allows service m.license_feature s
      then ok m
      else raise (
          entitlement_required
            ("Lizenzmerkmal nicht aktiviert: " <> feature_name m.license_feature))

  -- `require_available`
  unfoldable pub require_available :
      String → ConnectorRegistry S Connector → S → Outcome RegistryError (ConnectorModule Connector)
  unfolding available
  require_available id r s = available r.entitlements id (get_module id r) s

  -- `create`
  unfoldable pub create :
      TargetSystem → ConnectorRegistry S Connector → S → Outcome RegistryError Connector
  unfolding require_available
  create target r s = made target (require_available target.kind r s)

  -- `describe`
  unfoldable pub describe : ConnectorRegistry S Connector → S → List ModuleDescription
  describe r s =
      map
        (λ (m : ConnectorModule Connector). record {
          id = m.id;
          name = m.name;
          version = m.version;
          capabilities = m.capabilities;
          license_feature = m.license_feature;
          licensed = allows r.entitlements m.license_feature s;
          configuration_fields = m.configuration_fields;
          secret_fields = m.secret_fields;
        })
        (sort_by (λ a b. is_le (compare a.name b.name)) r.modules)

-- What the default registry is made with: the check of licenses, the clock of a state, the provider
-- of the license key with the installation's identifier, and the constructors of connectors.
pub record Installation (S Connector : Type 0) : Type 1 where
  pub lib : Signing
  pub clock : S → ℕ
  pub license_key_provider : S → Option String × String
  pub filesystem_connector : TargetSystem → Connector
  pub http_connector : TargetSystem → Connector
  pub graph_connector : TargetSystem → Connector

module _ {S Connector : Type 0} (inst : Installation S Connector) (settings : Settings) where
  abbrev features_or_none : Outcome LicenseValidationError VerifiedLicense → List String
  features_or_none (ok l) = l.features
  features_or_none (raise e) = []

  abbrev features_of : Option String → String → ℕ → List String
  features_of none installation_id now = []
  features_of (some key) installation_id now =
      if key == ""
      then []
      else features_or_none (verify inst.lib settings.license_public_key key installation_id now)

  -- `licensed_features`
  unfoldable pub licensed_features : S → List String
  licensed_features s =
      let (key, installation_id) = inst.license_key_provider s in
      features_of key installation_id (inst.clock s)

  abbrev pub filesystem_module : ConnectorModule Connector
  filesystem_module = record {
    id = "filesystem";
    name = "Dateisystem";
    version = "1.0";
    capabilities = "document" ∷ "metadata" ∷ "folders" ∷ "idempotency" ∷ [];
    factory = inst.filesystem_connector;
    license_feature = none;
    configuration_fields = "directory" ∷ "path_template" ∷ [];
    secret_fields = [];
  }

  abbrev pub http_module : ConnectorModule Connector
  http_module = record {
    id = "http";
    name = "HTTP API";
    version = "1.0";
    capabilities = "document" ∷ "metadata" ∷ "authentication" ∷ "idempotency" ∷ [];
    factory = inst.http_connector;
    license_feature = none;
    configuration_fields =
        "endpoint_url" ∷ "healthcheck_url" ∷ "timeout_seconds" ∷ "max_response_bytes" ∷ [];
    secret_fields = "bearer_token" ∷ [];
  }

  abbrev pub graph_module : ConnectorModule Connector
  graph_module = record {
    id = "microsoft_graph";
    name = "Microsoft OneDrive / SharePoint";
    version = "1.0";
    capabilities = "document" ∷ "folders" ∷ "authentication" ∷ "idempotency" ∷ "healthcheck" ∷ [];
    factory = inst.graph_connector;
    license_feature = some "connector.microsoft_graph";
    configuration_fields =
        "graph_tenant_id" ∷ "graph_client_id" ∷ "graph_drive_id" ∷ "graph_folder"
        ∷ "timeout_seconds" ∷ "max_response_bytes" ∷ [];
    secret_fields = "graph_client_secret" ∷ [];
  }

  abbrev pub and_register :
      ConnectorModule Connector
      → Outcome RegistryError (ConnectorRegistry S Connector)
      → Outcome RegistryError (ConnectorRegistry S Connector)
  and_register m (ok r) = register m r
  and_register m (raise e) = raise e

  -- `create_default_connector_registry`, with a provider of license keys
  unfoldable pub default_registry : Outcome RegistryError (ConnectorRegistry S Connector)
  unfolding register licensed_features
  default_registry = and_register graph_module (
      and_register http_module (
        register filesystem_module (record {
          entitlements = record (from_csv inst.lib.strip settings.connector_entitlements) {
            dynamic_features = some licensed_features;
          };
          modules = [];
        })))
