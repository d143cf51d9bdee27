-- ===== src/Auth.antt =====
-- Passwords and session tokens (src/document_core/auth.py). PBKDF2, base64, SHA-256 and the random
-- bytes are parameters.
pub mod Passwords
use Prim.Native.Char.{char}
use document_feeder.Prelude.{
  ℕ, String, ◌<>◌, Bool, true, false, Option, none, some, List, [], ◌∷◌, ◌==◌, eqb, if◌then◌else◌,
}
use document_feeder.Prelude.Split.{split_at_most}
use document_feeder.Prelude.Decimal.{of_decimal}

abbrev pub Bytes : Type 0
Bytes = List ℕ

-- What the module takes from libraries: `hashlib.pbkdf2_hmac("sha256", password.encode(), salt,
-- rounds)`, which refuses 0 rounds, `base64.b64encode(b).decode()`, `base64.b64decode`, which
-- refuses a malformed text, `secrets.token_bytes(16)` and `secrets.token_urlsafe(32)`, for the draw
-- of that number, and `hashlib.sha256(text.encode()).hexdigest()`.
pub record Crypto : Type 0 where
  pub pbkdf2_hmac : String → Bytes → ℕ → Option Bytes
  pub b64encode : Bytes → String
  pub b64decode : String → Option Bytes
  pub token_bytes : ℕ → Bytes
  pub token_urlsafe : ℕ → String
  pub sha256_hexdigest : String → String

abbrev pub same_bytes : Bytes → Bytes → Bool
same_bytes [] [] = true
same_bytes [] (y ∷ ys) = false
same_bytes (x ∷ xs) [] = false
same_bytes (x ∷ xs) (y ∷ ys) = let rest = same_bytes xs ys in if eqb x y then rest else false

abbrev pub or_no_bytes : Option Bytes → Bytes
or_no_bytes none = []
or_no_bytes (some b) = b

module _ (k : Crypto) where
  -- `salt or secrets.token_bytes(16)`, with the number of the next draw
  abbrev pub salt_or_drawn : Option Bytes → ℕ → Bytes
  salt_or_drawn none draw = k.token_bytes draw
  salt_or_drawn (some []) draw = k.token_bytes draw
  salt_or_drawn (some (b ∷ salt)) draw = b ∷ salt

  -- the text that is stored for a password and the salt in use
  unfoldable pub encoded_password : String → Bytes → String
  encoded_password password salt =
      "pbkdf2_sha256"
      <> ("$"
          <> ("600000"
              <> ("$"
                  <> (k.b64encode salt
                      <> ("$" <> k.b64encode (or_no_bytes (k.pbkdf2_hmac password salt 600000)))))))

  -- `hash_password(password, salt)`
  unfoldable pub hash_password : String → Option Bytes → ℕ → String
  unfolding encoded_password
  hash_password password salt draw = encoded_password password (salt_or_drawn salt draw)

  -- `hmac.compare_digest` of the digest and the decoded text; `none` is an error of a library
  abbrev pub compare_digest : Option Bytes → Option Bytes → Bool
  compare_digest none expected = false
  compare_digest (some actual) none = false
  compare_digest (some actual) (some expected) = same_bytes actual expected

  abbrev pub digest_of : String → Option Bytes → Option ℕ → Option Bytes
  digest_of password none rounds = none
  digest_of password (some salt) none = none
  digest_of password (some salt) (some rounds) = k.pbkdf2_hmac password salt rounds

  -- the four pieces of the stored text; any other number of them is a `ValueError`
  unfoldable pub verify_pieces : String → List String → Bool
  verify_pieces password (algorithm ∷ rounds ∷ salt ∷ expected ∷ []) =
      if algorithm == "pbkdf2_sha256"
      then compare_digest (digest_of password (k.b64decode salt) (of_decimal rounds))
          (k.b64decode expected)
      else false
  verify_pieces password _ = false

  -- `verify_password`
  unfoldable pub verify_password : String → String → Bool
  unfolding verify_pieces
  verify_password password encoded = verify_pieces password (split_at_most 3 (char 36 tt) encoded)

  -- `new_session_token`: the token and its hash
  unfoldable pub new_session_token : ℕ → String × String
  new_session_token draw = (k.token_urlsafe draw, k.sha256_hexdigest (k.token_urlsafe draw))

  -- `new_csrf_token`
  abbrev pub new_csrf_token : ℕ → String
  new_csrf_token draw = k.token_urlsafe draw
