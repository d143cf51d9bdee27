-- ===== src/Tests/Passwords.antt =====
-- A stored password, with a stand-in for base64 that writes numbers in strokes
-- (src/document_core/auth.py).
use Prim.Native.Char.{char, code}
use mathlib.Core.Option
use document_feeder.Prelude.{
  ℕ, zero, suc, ◌+◌, String, ◌≡◌, ◌↔◌, refl, ap, ◌∙◌, true, some, [], ◌∷◌, arith, count, eqb,
  if◌then◌else◌,
}
use document_feeder.Prelude.Split.{lacks}
use document_feeder.Auth.{Bytes, Crypto, hash_password, verify_password}
use document_feeder.Auth.Passwords.{IsBase64, verify_password-hash_password}

unfoldable pub strokes : ℕ → String → String
strokes zero s = String.◌∷◌ (char 98 tt) s
strokes (suc n) s = String.◌∷◌ (char 97 tt) (strokes n s)

unfoldable pub write : Bytes → String
unfolding strokes
write [] = ""
write (n ∷ bytes) = strokes n (write bytes)

unfoldable pub read_from : ℕ → String → Option.Option Bytes
read_from n String.[] = some []
read_from n (String.◌∷◌ c s) =
    let more = read_from (suc n) s in
    let next = Option.map (λ r. n ∷ r) (read_from 0 s) in if eqb (code c) 97 then more else next

abbrev pub crypto : Crypto
crypto = record {
  pbkdf2_hmac = λ password salt rounds. some (count password ∷ salt);
  b64encode = write;
  b64decode = read_from 0;
  token_bytes = λ n. n ∷ [];
  token_urlsafe = λ n. if eqb n 0 then "t0" else "t1";
  sha256_hexdigest = λ s. s;
}

read_strokes :
    (m n : ℕ) (s : String)
    → read_from m (strokes n s) ≡ Option.map (λ r. (m + n) ∷ r) (read_from 0 s)
unfolding read_from strokes
read_strokes m zero s = ap (λ k. Option.map (λ r. k ∷ r) (read_from 0 s)) (omega arith)
read_strokes m (suc n) s =
    read_strokes (suc m) n s ∙ ap (λ k. Option.map (λ r. k ∷ r) (read_from 0 s)) (omega arith)

read_write : (bytes : Bytes) → read_from 0 (write bytes) ≡ some bytes
unfolding write read_from
read_write [] = refl
read_write (n ∷ bytes) =
    read_strokes 0 n (write bytes)
    ∙ ap (Option.map (λ r. (0 + n) ∷ r)) (read_write bytes)
    ∙ ap (λ k. some (k ∷ bytes)) (omega arith)

strokes-lacks : (n : ℕ) (s : String) → lacks (char 36 tt) (strokes n s) ≡ lacks (char 36 tt) s
unfolding strokes
strokes-lacks zero s = refl
strokes-lacks (suc n) s = strokes-lacks n s

write-lacks : (bytes : Bytes) → lacks (char 36 tt) (write bytes) ≡ true
unfolding write
write-lacks [] = refl
write-lacks (n ∷ bytes) = strokes-lacks n (write bytes) ∙ write-lacks bytes

crypto-IsBase64 : IsBase64 crypto
crypto-IsBase64 = record { undone = read_write; no_dollar = write-lacks }

verify_password-hash_password_example :
    (verify_password crypto "tiger" (hash_password crypto "lions" (some (7 ∷ [])) 0) ≡ true)
    ↔ (crypto.pbkdf2_hmac "tiger" (7 ∷ []) 600000 ≡ some (5 ∷ 7 ∷ []))
verify_password-hash_password_example =
    verify_password-hash_password crypto crypto-IsBase64 "lions" "tiger" (some (7 ∷ [])) 0
      (5 ∷ 7 ∷ []) refl
