-- ===== src/Secrets/Cipher.antt =====
-- `SecretCipher` (src/document_core/secrets.py): the encryption of connector secrets. The keys'
-- Fernet and MultiFernet of the `cryptography` package are a parameter.
pub mod RoundTrip
use document_feeder.Prelude.{
  ℕ, String, ◌<>◌, ◌≡◌, Bool, Option, none, some, List, [], ◌∷◌, is_some, Outcome, ok, raise,
}
use document_feeder.Prelude.Text.{strip_prefix}

-- The configured keys: what `MultiFernet` encrypts (with the time and the random bytes of a call),
-- decrypts and rotates, and what the first key decrypts. `none` is `InvalidToken`.
pub record Keys : Type 0 where
  pub encrypt_token : ℕ → String → String
  pub decrypt_token : String → Option String
  pub decrypt_primary : String → Option String
  pub rotate_token : ℕ → String → Option String

pub data SecretError : Type 0 where
  no_keys not_encrypted keys_missing wrong_keys no_rotation : SecretError

-- `_cipher` is `None` without keys; `known` are the `_known_plaintexts`.
pub record SecretCipher : Type 0 where
  pub keys : Option Keys
  pub known : List String

abbrev pub encrypted_prefix : String
encrypted_prefix = "enc:v1:"

abbrev pub learn : String → SecretCipher → SecretCipher
learn secret c = record c { known = secret ∷ c.known }

unfoldable pub available : SecretCipher → Bool
available c = is_some c.keys

unfoldable pub is_encrypted : String → Bool
is_encrypted value = is_some (strip_prefix encrypted_prefix value)

encrypt_with : ℕ → String → Option Keys → SecretCipher → Outcome SecretError String × SecretCipher
encrypt_with nonce value none c = (raise no_keys, c)
encrypt_with nonce value (some k) c =
    (ok (encrypted_prefix <> k.encrypt_token nonce value), learn value c)

-- `encrypt` of a value that is not `None`
unfoldable pub encrypt_text : ℕ → String → SecretCipher → Outcome SecretError String × SecretCipher
unfolding encrypt_with
encrypt_text nonce value c = encrypt_with nonce value c.keys c

abbrev optional :
    Outcome SecretError String × SecretCipher → Outcome SecretError (Option String) × SecretCipher
optional (ok s, c) = (ok (some s), c)
optional (raise e, c) = (raise e, c)

unfoldable pub encrypt :
    ℕ → Option String → SecretCipher → Outcome SecretError (Option String) × SecretCipher
unfolding encrypt_text
encrypt nonce none c = (ok none, c)
encrypt nonce (some value) c = optional (encrypt_text nonce value c)

decrypted : Option String → SecretCipher → Outcome SecretError String × SecretCipher
decrypted none c = (raise wrong_keys, c)
decrypted (some plaintext) c = (ok plaintext, learn plaintext c)

-- the tests of `decrypt`: the prefix first, then the keys
decrypt_token :
    Option String → Option Keys → SecretCipher → Outcome SecretError String × SecretCipher
unfolding decrypted
decrypt_token none keys c = (raise not_encrypted, c)
decrypt_token (some token) none c = (raise keys_missing, c)
decrypt_token (some token) (some k) c = decrypted (k.decrypt_token token) c

unfoldable pub decrypt :
    Option String → SecretCipher → Outcome SecretError (Option String) × SecretCipher
unfolding decrypt_token
decrypt none c = (ok none, c)
decrypt (some value) c = optional (decrypt_token (strip_prefix encrypted_prefix value) c.keys c)

-- the handler of `InvalidToken` in `migrate_or_rotate`
rotated : Option String → Option String → SecretCipher → Outcome SecretError String × SecretCipher
rotated none fresh c = (raise no_rotation, c)
rotated (some plaintext) none c = (raise no_rotation, c)
rotated (some plaintext) (some fresh) c = (ok (encrypted_prefix <> fresh), learn plaintext c)

rotate_unless :
    ℕ
    → String
    → String
    → Option String
    → Keys
    → SecretCipher
    → Outcome SecretError String × SecretCipher
unfolding rotated
rotate_unless nonce value token (some plaintext) k c = (ok value, learn plaintext c)
rotate_unless nonce value token none k c =
    rotated (k.decrypt_token token) (k.rotate_token nonce token) c

migrate_token :
    ℕ
    → String
    → Option String
    → Option Keys
    → SecretCipher
    → Outcome SecretError String × SecretCipher
unfolding rotate_unless encrypt_text
migrate_token nonce value token none c = (raise no_keys, c)
migrate_token nonce value none (some k) c = encrypt_text nonce value c
migrate_token nonce value (some token) (some k) c =
    rotate_unless nonce value token (k.decrypt_primary token) k c

-- `migrate_or_rotate`: a plain value is encrypted, and one of an older key gets the first key
unfoldable pub migrate_or_rotate :
    ℕ → String → SecretCipher → Outcome SecretError String × SecretCipher
unfolding migrate_token
migrate_or_rotate nonce value c =
    migrate_token nonce value (strip_prefix encrypted_prefix value) c.keys c
