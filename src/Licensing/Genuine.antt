-- ===== src/Licensing/Genuine.antt =====
-- What the check of a license key accepts.
use Prim.Native.Char.{char}
use document_feeder.Prelude.{
  ℕ, ◌<◌, String, ◌≡◌, ◌↔◌, refl, ap, ◌∙◌, true, false, ◌||◌, Option, none, some, List, [], ◌∷◌,
  ◌==◌, eq_iff, leb, arith, Bool-cases, inl, inr, ok,
}
use document_feeder.Prelude.Split.{split}
use document_feeder.Auth.{Bytes}
use document_feeder.Licensing.{
  Signing, VerifiedLicense, decode, signature_ok, payload_of, no_names, is_foreign, accept_content,
  verify_decoded, verify_parts, verify,
}

-- The key has three parts behind the version: a payload, signed with the public key, whose content
-- is the license; it names a customer and a feature, has not expired, and is bound to no other
-- installation.
pub record IsGenuine (lib : Signing) (public_key license_key installation_id : String) (now : ℕ)
    (license : VerifiedLicense) : Type 0 where
  pub payload_part : String
  pub signature_part : String
  pub parts :
      split (char 46 tt) (lib.strip license_key) ≡ "DC1" ∷ payload_part ∷ signature_part ∷ []
  pub payload : Bytes
  pub decoded : decode lib payload_part ≡ some payload
  pub signature : Bytes
  pub decoded_signature : decode lib signature_part ≡ some signature
  pub signed : signature_ok lib (lib.strip public_key) payload_part signature ≡ true
  pub content : payload_of lib (lib.json_loads payload) ≡ some license
  pub named : (license.customer == "" || no_names lib license.features) ≡ false
  pub unexpired : now < license.expires_at
  pub here : is_foreign lib license.installation_id installation_id ≡ false

module _ (lib : Signing) (public_key license_key installation_id : String) (now : ℕ)
    (license : VerifiedLicense) where
  abbrev Content : Option VerifiedLicense → Type 0
  Content o =
      (o ≡ some license)
      × ((license.customer == "" || no_names lib license.features) ≡ false)
      × (now < license.expires_at)
      × (is_foreign lib license.installation_id installation_id ≡ false)

  accept_content-Content :
      (o : Option VerifiedLicense)
      → accept_content lib installation_id now o ≡ ok license
      → Content o
  unfolding accept_content
  accept_content-Content none e = cc
  accept_content-Content (some l) e =
      elim (Bool-cases (l.customer == "" || no_names lib l.features)) [
        | inl a ↦ let h = rw a at e in cc
        | inr a ↦ elim (Bool-cases (leb l.expires_at now)) [
          | inl b ↦ let h = rw (a, b) at e in cc
          | inr b ↦ elim (Bool-cases (is_foreign lib l.installation_id installation_id)) [
            | inl c ↦ let h = rw (a, b, c) at e in cc
            | inr c ↦
                let same : l ≡ license = let h = rw (a, b, c) at e in cc in
                rw (← same) (refl, a, ground arith, c)
          ]
        ]
      ]

  Content-accepted :
      Content (some license) → accept_content lib installation_id now (some license) ≡ ok license
  unfolding accept_content
  Content-accepted (e, named, unexpired, here) =
      let lasting : leb license.expires_at now ≡ false = ground arith in
      rw (named, lasting, here) refl

  abbrev Genuine : Type 0
  Genuine = IsGenuine lib public_key license_key installation_id now license

  genuine_decoded :
      (p s : String) (payload signature : Option Bytes)
      → split (char 46 tt) (lib.strip license_key) ≡ "DC1" ∷ p ∷ s ∷ []
      → decode lib p ≡ payload
      → decode lib s ≡ signature
      → verify_decoded lib (lib.strip public_key) installation_id now p payload signature
        ≡ ok license
      → Genuine
  unfolding verify_decoded
  genuine_decoded p s none none e d f h = cc
  genuine_decoded p s none (some y) e d f h = cc
  genuine_decoded p s (some x) none e d f h = cc
  genuine_decoded p s (some x) (some y) e d f h =
      elim (Bool-cases (signature_ok lib (lib.strip public_key) p y)) [
        | inr bad ↦ let h' = rw bad at h in cc
        | inl good ↦
            let (content, named, unexpired, here) = accept_content-Content _ (rw good at h) in
            record {
              payload_part = p;
              signature_part = s;
              parts = e;
              payload = x;
              decoded = d;
              signature = y;
              decoded_signature = f;
              signed = good;
              content = content;
              named = named;
              unexpired = unexpired;
              here = here;
            }
      ]

  genuine_parts :
      (pieces : List String)
      → split (char 46 tt) (lib.strip license_key) ≡ pieces
      → verify_parts lib (lib.strip public_key) installation_id now pieces ≡ ok license
      → Genuine
  unfolding verify_parts
  genuine_parts [] e h = cc
  genuine_parts (a ∷ []) e h = cc
  genuine_parts (a ∷ b ∷ []) e h = cc
  genuine_parts (a ∷ b ∷ c ∷ d ∷ r) e h = cc
  genuine_parts (a ∷ b ∷ c ∷ []) e h = elim (Bool-cases (a == "DC1")) [
    | inr bad ↦ let h' = rw bad at h in cc
    | inl good ↦
        genuine_decoded b c _ _ (e ∙ ap (λ v. v ∷ b ∷ c ∷ []) ((eq_iff a "DC1").0 good)) refl refl
          (rw good at h)
  ]

  -- On a system with a public key, a license is accepted if and only if it is genuine: signed by
  -- the key's owner, not expired, complete, and of this installation or of none.
  pub verify-IsGenuine :
      (lib.strip public_key == "") ≡ false
      → (verify lib public_key license_key installation_id now ≡ ok license) ↔ Genuine
  unfolding verify verify_parts verify_decoded
  verify-IsGenuine configured = (
    λ e. genuine_parts _ refl (rw configured at e),
    λ g.
        rw (configured, g.parts, g.decoded, g.decoded_signature, g.signed, g.content)
          (Content-accepted (refl, g.named, g.unexpired, g.here)),
  )
