-- ===== src/Tests/Licenses.antt =====
-- A license for the connector to Microsoft Graph, with a stand-in for the signature
-- (src/document_core/licensing.py and src/document_core/connector_registry.py).
use document_feeder.Prelude.{
  ℕ, String, ◌≡◌, ◌↔◌, refl, true, false, none, some, [], ◌∷◌, ok, eqb, count,
}
use document_feeder.Json.{Fields, text, array, object, item, nil, empty, field}
use document_feeder.Models.Target.{TargetSystem}
use document_feeder.Licensing.{Signing, aware, VerifiedLicense, verify}
use document_feeder.Licensing.Genuine.{IsGenuine, verify-IsGenuine}
use document_feeder.Registry.{Installation, ConnectorRegistry, default_registry, create}
use document_feeder.Registry.Entitled.{IsMade, create-IsConnectorFor}
use document_feeder.Tests.Documents.{settings}

abbrev license_payload : Fields
license_payload = field "customer" (text "Acme") (
    field "features" (array (item (text "connector.microsoft_graph") nil))
      (field "expires_at" (text "2030") empty))

-- Every key decodes to its length, and 4 is the signature of all that is signed.
abbrev lib : Signing
lib = record {
  PublicKey = Unit;
  urlsafe_b64decode = λ s. some (count s ∷ []);
  from_public_bytes = λ bytes. some tt;
  verify_signature = λ key signature message. elim signature [ [] ↦ false | n ∷ rest ↦ eqb n 4 ];
  encode_ascii = λ s. some [];
  json_loads = λ bytes. some (object license_payload);
  fromisoformat = λ s. some (aware 2030);
  str_of = λ v. "";
  strip = λ s. s;
}

abbrev license : VerifiedLicense
license = record {
  customer = "Acme";
  features = "connector.microsoft_graph" ∷ [];
  expires_at = 2030;
  installation_id = none;
}

verify-IsGenuine_example :
    (verify lib "key" "DC1.pay.sign" "here" 2026 ≡ ok license)
    ↔ IsGenuine lib "key" "DC1.pay.sign" "here" 2026 license
verify-IsGenuine_example = verify-IsGenuine lib "key" "DC1.pay.sign" "here" 2026 license refl

abbrev installation : Installation ℕ String
installation = record {
  lib = lib;
  clock = λ now. now;
  license_key_provider = λ now. (some "DC1.pay.sign", "here");
  filesystem_connector = λ target. "filesystem";
  http_connector = λ target. "http";
  graph_connector = λ target. "graph";
}

abbrev drive : TargetSystem
drive = record {
  id = "t1";
  name = "Drive";
  kind = "microsoft_graph";
  endpoint_url = none;
  healthcheck_url = none;
  directory = "";
  path_template = "";
  bearer_token = none;
  graph_tenant_id = some "tenant";
  graph_client_id = some "client";
  graph_client_secret = some "secret";
  graph_drive_id = some "drive";
  graph_folder = "Inbox";
  timeout_seconds = 10;
  max_response_bytes = 1000;
  enabled = true;
  is_default = false;
  last_delivery_at = none;
  last_error = none;
  created_at = 0;
  updated_at = 0;
}

create-IsConnectorFor_example :
    (registry : ConnectorRegistry ℕ String) × (default_registry installation settings ≡ ok registry)
    × IsMade installation settings 2026 drive (create drive registry 2026)
create-IsConnectorFor_example = create-IsConnectorFor installation settings 2026 drive
