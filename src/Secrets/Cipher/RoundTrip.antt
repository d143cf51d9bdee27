-- ===== src/Secrets/Cipher/RoundTrip.antt =====
-- A migrated secret keeps its plaintext (src/document_core/secrets.py).
use document_feeder.Prelude.{
  ℕ, String, ◌<>◌, ◌≡◌, refl, some, List, ok, if◌then◌else◌, Option-cases, inl, inr, ◌∷◌,
}
use document_feeder.Prelude.Text.{strip_prefix, strip_prefix-append}
use document_feeder.Secrets.Cipher.{
  Keys, SecretCipher, encrypted_prefix, decrypt, encrypt_text, is_encrypted, migrate_or_rotate,
}

-- Documented of Fernet: a token of the keys is decrypted by them, and a rotated token holds the
-- plaintext of its original.
pub record AreFernet (k : Keys) : Type 0 where
  pub opens : (n : ℕ) (s : String) → k.decrypt_token (k.encrypt_token n s) ≡ some s
  pub opens_rotated :
      (n : ℕ) (t t' s : String)
      → k.decrypt_token t ≡ some s
      → k.rotate_token n t ≡ some t'
      → k.decrypt_token t' ≡ some s

module _ (k : Keys) (lawful : AreFernet k) where
  abbrev pub cipher_of : List String → SecretCipher
  cipher_of known = record { keys = some k; known = known }

  reads :
      (value token s : String) (known : List String)
      → strip_prefix encrypted_prefix value ≡ some token
      → k.decrypt_token token ≡ some s
      → (decrypt (some value) (cipher_of known)).0 ≡ ok (some s)
  unfolding decrypt
  reads value token s known e d = rw (e, d) refl

  reads_new :
      (token s : String) (known : List String)
      → k.decrypt_token token ≡ some s
      → (decrypt (some (encrypted_prefix <> token)) (cipher_of known)).0 ≡ ok (some s)
  reads_new token s known =
      reads (encrypted_prefix <> token) token s known (strip_prefix-append encrypted_prefix token)

  token_of :
      (value token s : String) (known : List String)
      → strip_prefix encrypted_prefix value ≡ some token
      → (decrypt (some value) (cipher_of known)).0 ≡ ok (some s)
      → k.decrypt_token token ≡ some s
  unfolding decrypt
  token_of value token s known e d = elim (Option-cases (k.decrypt_token token)) [
    | inl n ↦ let d' = rw (e, n) at d in cc
    | inr (p, n) ↦ let d' = rw (e, n) at d in cc
  ]

  -- Migration leaves the plaintext of a stored secret as it was: one that was encrypted before is
  -- decrypted to the same text, and one that was not is decrypted to itself.
  pub decrypt-migrate_or_rotate :
      (nonce : ℕ) (value s migrated : String) (known : List String) (c' : SecretCipher)
      → (if is_encrypted value then (decrypt (some value) (cipher_of known)).0 else ok (some value))
        ≡ ok (some s)
      → migrate_or_rotate nonce value (cipher_of known) ≡ (ok migrated, c')
      → (decrypt (some migrated) c').0 ≡ ok (some s)
  unfolding migrate_or_rotate is_encrypted encrypt_text
  decrypt-migrate_or_rotate nonce value s migrated known c' r m =
      elim (Option-cases (strip_prefix encrypted_prefix value)) [
        | inl n ↦
            let m' = rw n at m in
            let r' = rw n at r in
            cc (
              reads_new (k.encrypt_token nonce value) value (value ∷ known)
                (lawful.opens nonce value))
        | inr (token, n) ↦
            let read = token_of value token s known n (rw n at r) in
            elim (Option-cases (k.decrypt_primary token)) [
              | inl o ↦ elim (Option-cases (k.rotate_token nonce token)) [
                | inl q ↦ let m' = rw (n, o, read, q) at m in cc
                | inr (fresh, q) ↦
                    let m' = rw (n, o, read, q) at m in
                    cc (
                      reads_new fresh s (s ∷ known)
                        (lawful.opens_rotated nonce token fresh s read q))
              ]
              | inr (p, o) ↦ let m' = rw (n, o) at m in cc (reads value token s (p ∷ known) n read)
            ]
      ]
