-- ===== src/Registry/Entitled.antt =====
-- Which connectors the default registry makes.
use document_feeder.Prelude.{
  String, ◌≡◌, refl, true, false, ◌||◌, Option, none, some, [], ◌∷◌, ◌==◌, eq_iff, arith,
  Bool-cases, inl, inr, Outcome, ok, raise, subst, sym,
}
use document_feeder.Models.Target.{TargetSystem}
use document_feeder.Config.{Settings}
use document_feeder.Licensing.{
  VerifiedLicense, LicenseValidationError, from_csv, has_feature, allows, verify,
}
use document_feeder.Registry.{
  RegistryError, ConnectorRegistry, Installation, register, get_module, available,
  require_available, create, licensed_features, features_of, features_or_none, default_registry,
  filesystem_module, http_module, graph_module,
}

-- The feature is listed in the settings, or a license that is accepted now has it.
pub data IsEntitled {S Connector : Type 0} (inst : Installation S Connector) (settings : Settings)
    (s : S) (feature : String) : Type 0 where
  listed :
      has_feature feature
          (from_csv {S = S} inst.lib.strip settings.connector_entitlements).enabled_features
        ≡ true
      → IsEntitled inst settings s feature
  licensed :
      (key installation_id : String) (license : VerifiedLicense)
      → inst.license_key_provider s ≡ (some key, installation_id)
      → verify inst.lib settings.license_public_key key installation_id (inst.clock s) ≡ ok license
      → has_feature feature license.features ≡ true
      → IsEntitled inst settings s feature

module _ {S Connector : Type 0} (inst : Installation S Connector) (settings : Settings)
    (s : S) where
  accepted_feature :
      (feature : String) (r : Outcome LicenseValidationError VerifiedLicense)
      → has_feature feature (features_or_none inst settings r) ≡ true
      → (l : VerifiedLicense) × (r ≡ ok l) × (has_feature feature l.features ≡ true)
  accepted_feature feature (ok l) e = (l, refl, e)
  accepted_feature feature (raise x) e = cc

  licensed_feature :
      (feature : String) (key : Option String) (installation_id : String)
      → inst.license_key_provider s ≡ (key, installation_id)
      → has_feature feature (features_of inst settings key installation_id (inst.clock s)) ≡ true
      → IsEntitled inst settings s feature
  licensed_feature feature none installation_id p e = cc
  licensed_feature feature (some key) installation_id p e = elim (Bool-cases (key == "")) [
    | inl k ↦ let h = rw k at e in cc
    | inr k ↦
        let (license, valid, has) = accepted_feature feature _ (rw k at e) in
        licensed key installation_id license p valid has
  ]

  entitled :
      (feature : String)
      → (has_feature feature
            (from_csv {S = S} inst.lib.strip settings.connector_entitlements).enabled_features
          || has_feature feature (licensed_features inst settings s))
        ≡ true
      → IsEntitled inst settings s feature
  unfolding licensed_features
  entitled feature e =
      elim (Bool-cases (
        has_feature feature
          (from_csv {S = S} inst.lib.strip settings.connector_entitlements).enabled_features)) [
            | inl l ↦ listed l
            | inr l ↦ licensed_feature feature _ _ refl (ground arith)
          ]

  -- What a target gets: the connector of its kind, and the one for Microsoft Graph only under an
  -- entitlement.
  pub data IsConnectorFor (target : TargetSystem) : Connector → Type 0 where
    a_filesystem :
        target.kind ≡ "filesystem" → IsConnectorFor target (inst.filesystem_connector target)
    an_http : target.kind ≡ "http" → IsConnectorFor target (inst.http_connector target)
    a_graph :
        target.kind ≡ "microsoft_graph"
        → IsEntitled inst settings s "connector.microsoft_graph"
        → IsConnectorFor target (inst.graph_connector target)

  abbrev the_registry : ConnectorRegistry S Connector
  the_registry = record {
    entitlements = record (from_csv inst.lib.strip settings.connector_entitlements) {
      dynamic_features = some (licensed_features inst settings);
    };
    modules =
        filesystem_module inst settings
        ∷ http_module inst settings
        ∷ graph_module inst settings
        ∷ [];
  }

  default_registry-ok : default_registry inst settings ≡ ok the_registry
  unfolding default_registry register
  default_registry-ok = refl

  created :
      (target : TargetSystem) (c : Connector)
      → create target the_registry s ≡ ok c
      → IsConnectorFor target c
  unfolding create require_available get_module available allows
  created target c e = elim (Bool-cases ("filesystem" == target.kind)) [
    | inl f ↦
        let same : inst.filesystem_connector target ≡ c = let h = rw f at e in cc in
        subst (IsConnectorFor target) same
          (a_filesystem (sym ((eq_iff "filesystem" target.kind).0 f)))
    | inr f ↦ elim (Bool-cases ("http" == target.kind)) [
      | inl g ↦
          let same : inst.http_connector target ≡ c = let h = rw (f, g) at e in cc in
          subst (IsConnectorFor target) same (an_http (sym ((eq_iff "http" target.kind).0 g)))
      | inr g ↦ elim (Bool-cases ("microsoft_graph" == target.kind)) [
        | inr k ↦ let h = rw (f, g, k) at e in cc
        | inl k ↦
            elim (Bool-cases
              (allows the_registry.entitlements (some "connector.microsoft_graph") s)) [
                | inl yes_allowed ↦
                    let same : inst.graph_connector target ≡ c =
                      let h = rw (f, g, k, yes_allowed) at e in cc in
                    subst (IsConnectorFor target) same (
                      a_graph (sym ((eq_iff "microsoft_graph" target.kind).0 k))
                        (entitled "connector.microsoft_graph" yes_allowed))
                | inr refused ↦ let h = rw (f, g, k, refused) at e in cc
              ]
      ]
    ]
  ]

  -- what comes of the making of a connector for a target
  abbrev pub IsMade : TargetSystem → Outcome RegistryError Connector → Type 0
  IsMade target (ok c) = IsConnectorFor target c
  IsMade target (raise e) =
      (("filesystem" == target.kind) ≡ false) × (("http" == target.kind) ≡ false)

  refused :
      (target : TargetSystem) (x : RegistryError)
      → create target the_registry s ≡ raise x
      → (("filesystem" == target.kind) ≡ false) × (("http" == target.kind) ≡ false)
  unfolding create require_available get_module available allows
  refused target x e = elim (Bool-cases ("filesystem" == target.kind)) [
    | inl f ↦ let h = rw f at e in cc
    | inr f ↦ elim (Bool-cases ("http" == target.kind)) [
      | inl g ↦ let h = rw (f, g) at e in cc
      | inr g ↦ (f, g)
    ]
  ]

  made :
      (target : TargetSystem) (r : Outcome RegistryError Connector)
      → create target the_registry s ≡ r
      → IsMade target r
  made target (ok c) e = created target c e
  made target (raise x) e = refused target x e

  -- The default registry is made without an error, and a connector that it makes for a target is
  -- that of the target's kind; one for Microsoft Graph is made only while the settings list its
  -- feature or a license that has it is valid. Constructors of connectors that do not raise given,
  -- every target of the file system or of HTTP gets its connector.
  pub create-IsConnectorFor :
      (target : TargetSystem)
      → (registry : ConnectorRegistry S Connector) × (default_registry inst settings ≡ ok registry)
        × IsMade target (create target registry s)
  create-IsConnectorFor target =
      (the_registry, default_registry-ok, made target (create target the_registry s) refl)
