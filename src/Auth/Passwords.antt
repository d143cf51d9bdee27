-- ===== src/Auth/Passwords.antt =====
-- A stored password is recognised, and no password with another digest is.
use Prim.Native.Char.{Char, char}
use Prim.Native.String.append
use document_feeder.Prelude.{
  ℕ, suc, String, ◌<>◌, ◌≡◌, ◌↔◌, refl, ap, ◌∙◌, true, Option, none, some, [], ◌∷◌, arith, eqb,
  Bool-cases, inl, inr,
}
use document_feeder.Prelude.Split.{split_at_most, split_at_most-append, lacks}
use document_feeder.Prelude.Decimal.{of_decimal}
use document_feeder.Auth.{
  Bytes, Crypto, same_bytes, compare_digest, salt_or_drawn, encoded_password, hash_password,
  verify_pieces, verify_password,
}

dollar : Char
dollar = char 36 tt

-- Documented of base64: decoding undoes encoding, and `$` is no character of its alphabet.
pub record IsBase64 (k : Crypto) : Type 0 where
  pub undone : (b : Bytes) → k.b64decode (k.b64encode b) ≡ some b
  pub no_dollar : (b : Bytes) → lacks (char 36 tt) (k.b64encode b) ≡ true

-- Splitting a text that was joined of two at a dollar sign.
split_joined :
    (n : ℕ) (a b : String)
    → lacks (char 36 tt) a ≡ true
    → split_at_most (suc n) (char 36 tt) (a <> ("$" <> b)) ≡ a ∷ split_at_most n (char 36 tt) b
split_joined n a b h =
    ap (λ t. split_at_most (suc n) (char 36 tt) (a <> t))
      (append.cons (char 36 tt) "" b ∙ ap (String.◌∷◌ (char 36 tt)) (append.nil b))
    ∙ split_at_most-append n (char 36 tt) a b h

same_bytes_refl : (b : Bytes) → same_bytes b b ≡ true
same_bytes_refl [] = refl
same_bytes_refl (x ∷ b) = ground (arith, same_bytes_refl b)

pub same_bytes_eq : (a b : Bytes) → same_bytes a b ≡ true → a ≡ b
same_bytes_eq [] [] e = refl
same_bytes_eq [] (y ∷ b) e = cc
same_bytes_eq (x ∷ a) [] e = cc
same_bytes_eq (x ∷ a) (y ∷ b) e = elim (Bool-cases (eqb x y)) [
  | inl same ↦
      let x_is_y : x ≡ y = ground arith in let rest : a ≡ b = same_bytes_eq a b (rw same at e) in cc
  | inr other ↦ let e' = rw other at e in cc
]

module _ (k : Crypto) (base64 : IsBase64 k) where
  -- the pieces of a stored password
  pieces :
      (password : String) (salt digest : Bytes)
      → k.pbkdf2_hmac password salt 600000 ≡ some digest
      → split_at_most 3 (char 36 tt) (encoded_password k password salt)
        ≡ "pbkdf2_sha256" ∷ "600000" ∷ k.b64encode salt ∷ k.b64encode digest ∷ []
  unfolding encoded_password split_at_most
  pieces password salt digest e = rw e (
      split_joined 2 "pbkdf2_sha256"
        ("600000" <> ("$" <> (k.b64encode salt <> ("$" <> k.b64encode digest)))) refl
      ∙ ap (λ r. "pbkdf2_sha256" ∷ r)
          (split_joined 1 "600000" (k.b64encode salt <> ("$" <> k.b64encode digest)) refl
            ∙ ap (λ r. "600000" ∷ r) (split_joined 0 (k.b64encode salt) _ (base64.no_dollar salt))))

  compare_digest_iff :
      (actual : Option Bytes) (digest : Bytes)
      → (compare_digest k actual (some digest) ≡ true) ↔ (actual ≡ some digest)
  compare_digest_iff none digest = (λ e. cc, λ e. cc)
  compare_digest_iff (some actual) digest = (
    λ e. ap some (same_bytes_eq actual digest e),
    λ e. let same : actual ≡ digest = cc in rw same (same_bytes_refl digest),
  )

  -- A password is accepted against the stored text of another if and only if both have the same
  -- digest with the salt in use: the given one, unless there is none or it is empty, and the drawn
  -- one then. A password's own text accepts it in particular.
  pub verify_password-hash_password :
      (password attempt : String) (given : Option Bytes) (draw : ℕ) (digest : Bytes)
      → k.pbkdf2_hmac password (salt_or_drawn k given draw) 600000 ≡ some digest
      → (verify_password k attempt (hash_password k password given draw) ≡ true)
        ↔ (k.pbkdf2_hmac attempt (salt_or_drawn k given draw) 600000 ≡ some digest)
  unfolding verify_password verify_pieces of_decimal hash_password
  verify_password-hash_password password attempt given draw digest e =
      let salt = salt_or_drawn k given draw in
      rw (pieces password salt digest e, base64.undone salt, base64.undone digest)
        (compare_digest_iff (k.pbkdf2_hmac attempt salt 600000) digest)
