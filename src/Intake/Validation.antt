-- ===== src/Intake/Validation.antt =====
-- The check of a file's type (src/document_core/file_validation.py). The suffix of a name in lower
-- case is a parameter.
use document_feeder.Prelude.{
  ℕ, zero, suc, String, ◌<>◌, ◌≡◌, refl, ap, subst, Bool, true, false, ◌&&◌, ◌||◌, Option, none,
  some, List, [], ◌∷◌, ◌==◌, eq_iff, eqb, leb, arith, if◌then◌else◌, Bool-cases, inl, inr, Outcome,
  ok, raise, find_first,
}
use document_feeder.Prelude.Pages.{take}
use document_feeder.Auth.{Bytes}

-- `DocumentRejectedError` and its subclasses
pub data Rejection : Type 0 where
  file_too_large unsupported_file_type malware_detected scanner_unavailable : String → Rejection

-- `status_code`
abbrev pub status_code : Rejection → ℕ
status_code (file_too_large m) = 413
status_code (unsupported_file_type m) = 415
status_code (malware_detected m) = 422
status_code (scanner_unavailable m) = 503

-- `SUPPORTED_TYPES`
abbrev pub supported_types : List (String × String)
supported_types =
    (".pdf", "application/pdf")
    ∷ (".png", "image/png")
    ∷ (".jpg", "image/jpeg")
    ∷ (".jpeg", "image/jpeg")
    ∷ (".tif", "image/tiff")
    ∷ (".tiff", "image/tiff")
    ∷ (".txt", "text/plain")
    ∷ (".csv", "text/plain")
    ∷ (".json", "text/plain")
    ∷ (".xml", "text/plain")
    ∷ []

abbrev pub type_of : Option (String × String) → Option String
type_of none = none
type_of (some (suffix, type)) = some type

-- `SUPPORTED_TYPES.get(suffix)`
unfoldable pub expected_type : String → Option String
expected_type suffix = type_of (find_first (λ (e : String × String). e.0 == suffix) supported_types)

-- `sample.startswith(prefix)`
abbrev pub begins_with : Bytes → Bytes → Bool
begins_with [] sample = true
begins_with (b ∷ prefix) [] = false
begins_with (b ∷ prefix) (c ∷ sample) = eqb b c && begins_with prefix sample

abbrev pub pdf_magic : Bytes
pdf_magic = 37 ∷ 80 ∷ 68 ∷ 70 ∷ 45 ∷ []

abbrev pub png_magic : Bytes
png_magic = 137 ∷ 80 ∷ 78 ∷ 71 ∷ 13 ∷ 10 ∷ 26 ∷ 10 ∷ []

abbrev pub jpeg_magic : Bytes
jpeg_magic = 255 ∷ 216 ∷ 255 ∷ []

abbrev pub tiff_little_magic : Bytes
tiff_little_magic = 73 ∷ 73 ∷ 42 ∷ 0 ∷ []

abbrev pub tiff_big_magic : Bytes
tiff_big_magic = 77 ∷ 77 ∷ 0 ∷ 42 ∷ []

-- a byte behind the first of a character
abbrev pub continues : ℕ → Bool
continues b = leb 128 b && leb b 191

abbrev pub between : ℕ → ℕ → ℕ → Bool
between lo b hi = leb lo b && leb b hi

-- `sample.decode("utf-8")` raises nothing: the well-formed sequences of bytes
unfoldable pub is_utf8 : Bytes → Bool
is_utf8 [] = true
is_utf8 (a ∷ []) = leb a 127
is_utf8 (a ∷ b ∷ []) = leb a 127 && leb b 127 || between 194 a 223 && continues b
is_utf8 (a ∷ b ∷ c ∷ []) =
    let one = is_utf8 (b ∷ c ∷ []) in
    let two = is_utf8 (c ∷ []) in
    leb a 127 && one
    || (between 194 a 223 && (continues b && two)
        || (eqb a 224 && (between 160 b 191 && continues c)
            || (between 225 a 236 && (continues b && continues c)
                || (eqb a 237 && (between 128 b 159 && continues c)
                    || between 238 a 239 && (continues b && continues c)))))
is_utf8 (a ∷ b ∷ c ∷ d ∷ rest) =
    let one = is_utf8 (b ∷ c ∷ d ∷ rest) in
    let two = is_utf8 (c ∷ d ∷ rest) in
    let three = is_utf8 (d ∷ rest) in
    let four = is_utf8 rest in
    leb a 127 && one
    || (between 194 a 223 && (continues b && two)
        || (eqb a 224 && (between 160 b 191 && (continues c && three))
            || (between 225 a 236 && (continues b && (continues c && three))
                || (eqb a 237 && (between 128 b 159 && (continues c && three))
                    || (between 238 a 239 && (continues b && (continues c && three))
                        || (eqb a 240
                              && (between 144 b 191 && (continues c && (continues d && four)))
                            || (between 241 a 243
                                  && (continues b && (continues c && (continues d && four)))
                                || eqb a 244
                                  && (between 128 b 143
                                      && (continues c && (continues d && four))))))))))

-- the type that the first bytes of a file show
unfoldable pub detected_type : Bytes → Option String
unfolding is_utf8
detected_type sample =
    if begins_with pdf_magic sample
    then some "application/pdf"
    else if begins_with png_magic sample
    then some "image/png"
    else if begins_with jpeg_magic sample
    then some "image/jpeg"
    else if begins_with tiff_little_magic sample || begins_with tiff_big_magic sample
    then some "image/tiff"
    else if is_utf8 sample
    then some "text/plain"
    else none

unfoldable pub compared : String → String → Option String → Outcome Rejection String
compared suffix expected none =
    raise (unsupported_file_type "Dateiinhalt entspricht keinem unterstützten Dateityp")
compared suffix expected (some detected) =
    if detected == expected
    then ok detected
    else raise (
        unsupported_file_type
          ("Dateiinhalt (" <> (detected <> (") passt nicht zur Dateiendung " <> suffix))))

abbrev pub suffix_or : String → String
suffix_or s = if s == "" then "(ohne Endung)" else s

unfoldable pub validated : String → Bytes → Option String → Outcome Rejection String
unfolding compared detected_type
validated suffix content none =
    raise (unsupported_file_type ("Dateityp " <> (suffix_or suffix <> " wird nicht unterstützt")))
validated suffix content (some expected) =
    compared suffix expected (detected_type (take 8192 content))

-- `detect_and_validate_type`, of the suffix of the name and the content of the file
unfoldable pub detect_and_validate_type : String → Bytes → Outcome Rejection String
unfolding validated expected_type
detect_and_validate_type suffix content = validated suffix content (expected_type suffix)

-- What a type says of the content of a file.
pub data HasType (content : Bytes) : String → Type 0 where
  a_pdf : begins_with pdf_magic content ≡ true → HasType content "application/pdf"
  a_png : begins_with png_magic content ≡ true → HasType content "image/png"
  a_jpeg : begins_with jpeg_magic content ≡ true → HasType content "image/jpeg"
  a_little_tiff : begins_with tiff_little_magic content ≡ true → HasType content "image/tiff"
  a_big_tiff : begins_with tiff_big_magic content ≡ true → HasType content "image/tiff"
  a_text : is_utf8 (take 8192 content) ≡ true → HasType content "text/plain"

begins_with-take :
    (n : ℕ) (prefix content : Bytes)
    → begins_with prefix (take n content) ≡ true
    → begins_with prefix content ≡ true
begins_with-take n [] content e = refl
begins_with-take zero (b ∷ prefix) content e = cc
begins_with-take (suc n) (b ∷ prefix) [] e = cc
begins_with-take (suc n) (b ∷ prefix) (c ∷ content) e =
    ground (arith, begins_with-take n prefix content)

detected-HasType :
    (content : Bytes) (t : String) → detected_type (take 8192 content) ≡ some t → HasType content t
unfolding detected_type
detected-HasType content t e = elim (Bool-cases (begins_with pdf_magic (take 8192 content))) [
  | inl a ↦
      let same : "application/pdf" ≡ t = let h = rw a at e in cc in
      subst (HasType content) same (a_pdf (begins_with-take 8192 pdf_magic content a))
  | inr a ↦ elim (Bool-cases (begins_with png_magic (take 8192 content))) [
    | inl b ↦
        let same : "image/png" ≡ t = let h = rw (a, b) at e in cc in
        subst (HasType content) same (a_png (begins_with-take 8192 png_magic content b))
    | inr b ↦ elim (Bool-cases (begins_with jpeg_magic (take 8192 content))) [
      | inl c ↦
          let same : "image/jpeg" ≡ t = let h = rw (a, b, c) at e in cc in
          subst (HasType content) same (a_jpeg (begins_with-take 8192 jpeg_magic content c))
      | inr c ↦ elim (Bool-cases (begins_with tiff_little_magic (take 8192 content))) [
        | inl d ↦
            let same : "image/tiff" ≡ t = let h = rw (a, b, c, d) at e in cc in
            subst (HasType content) same
              (a_little_tiff (begins_with-take 8192 tiff_little_magic content d))
        | inr d ↦ elim (Bool-cases (begins_with tiff_big_magic (take 8192 content))) [
          | inl f ↦
              let same : "image/tiff" ≡ t = let h = rw (a, b, c, d, f) at e in cc in
              subst (HasType content) same
                (a_big_tiff (begins_with-take 8192 tiff_big_magic content f))
          | inr f ↦ elim (Bool-cases (is_utf8 (take 8192 content))) [
            | inl g ↦
                let same : "text/plain" ≡ t = let h = rw (a, b, c, d, f, g) at e in cc in
                subst (HasType content) same (a_text g)
            | inr g ↦ let h = rw (a, b, c, d, f, g) at e in cc
          ]
        ]
      ]
    ]
  ]
]

compared-ok :
    (suffix expected : String) (detected : Option String) (t : String)
    → compared suffix expected detected ≡ ok t
    → (detected ≡ some t) × (expected ≡ t)
unfolding compared
compared-ok suffix expected none t e = cc
compared-ok suffix expected (some d) t e = elim (Bool-cases (d == expected)) [
  | inl same ↦
      let is_t : d ≡ t = let h = rw same at e in cc in
      let agrees : d ≡ expected = (eq_iff d expected).0 same in (cc, cc)
  | inr other ↦ let h = rw other at e in cc
]

validated-HasType :
    (suffix : String) (content : Bytes) (expected : Option String) (t : String)
    → validated suffix content expected ≡ ok t
    → (expected ≡ some t) × HasType content t
unfolding validated
validated-HasType suffix content none t e = cc
validated-HasType suffix content (some x) t e =
    let (found, same) = compared-ok suffix x (detected_type (take 8192 content)) t e in
    (ap some same, detected-HasType content t found)

-- A file is accepted only as the type that its suffix stands for, and only if its content is of
-- that type: it begins with the bytes that mark the type, or its first 8192 bytes are UTF-8.
pub detect_and_validate_type-HasType :
    (suffix : String) (content : Bytes) (t : String)
    → detect_and_validate_type suffix content ≡ ok t
    → (expected_type suffix ≡ some t) × HasType content t
unfolding detect_and_validate_type
detect_and_validate_type-HasType suffix content t e =
    validated-HasType suffix content (expected_type suffix) t e
