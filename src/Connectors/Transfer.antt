-- ===== src/Connectors/Transfer.antt =====
-- What the connectors send (src/document_core/connectors.py): the parts of a multipart body, and
-- the ranges of a large upload to Microsoft Graph.
use document_feeder.Prelude.{
  ℕ, suc, ◌+◌, ◌-◌, ◌≤◌, String, ◌<>◌, ◌≡◌, refl, ap, ◌∙◌, List, [], ◌∷◌, ◌++◌, length,
  length-append, arith, All,
}
use document_feeder.Prelude.Decimal.{to_decimal}
use document_feeder.Auth.{Bytes}
use document_feeder.Intake.Chunks.{chunks, chunks-concat, concat, IsChunk}

-- `MultipartBody`: the parts before and behind the file
pub record MultipartBody : Type 0 where
  pub metadata_part : Bytes
  pub file_header : Bytes
  pub closing : Bytes
  pub content_length : ℕ

-- `__init__`, from the encoded parts and the size of the file
unfoldable pub multipart : Bytes → Bytes → Bytes → ℕ → MultipartBody
multipart metadata_part file_header closing size = record {
  metadata_part = metadata_part;
  file_header = file_header;
  closing = closing;
  content_length = length metadata_part + length file_header + size + length closing;
}

-- `__iter__`
unfoldable pub body_parts : ℕ → MultipartBody → Bytes → List Bytes
body_parts chunk_size m content =
    m.metadata_part ∷ m.file_header ∷ chunks chunk_size content ++ m.closing ∷ []

-- one request of a large upload
pub record Range : Type 0 where
  pub chunk : Bytes
  pub offset : ℕ
  pub end : ℕ

-- `Content-Range`
unfoldable pub content_range : Range → ℕ → String
content_range r size =
    "bytes " <> (to_decimal r.offset <> ("-" <> (to_decimal r.end <> ("/" <> to_decimal size))))

-- the loop of `_upload_large`
unfoldable pub ranges_from : ℕ → List Bytes → List Range
ranges_from offset [] = []
ranges_from offset (c ∷ cs) =
    let end = offset + length c - 1 in
    record { chunk = c; offset = offset; end = end } ∷ ranges_from (end + 1) cs

unfoldable pub upload_ranges : ℕ → Bytes → List Range
unfolding ranges_from
upload_ranges chunk_size content = ranges_from 0 (chunks chunk_size content)

-- The ranges lie without a gap from one offset to another, each as long as its bytes.
abbrev pub Cover : ℕ → List Range → ℕ → Type 0
Cover from [] to = from ≡ to
Cover from (r ∷ rs) to =
    (r.offset ≡ from)
    × (r.offset ≤ r.end)
    × (r.offset + length r.chunk ≡ suc r.end)
    × Cover (r.end + 1) rs to

abbrev pub sent : List Range → Bytes
sent [] = []
sent (r ∷ rs) = r.chunk ++ sent rs

length-concat_append :
    (cs : List Bytes) (c : Bytes) → length (concat (cs ++ c ∷ [])) ≡ length (concat cs) + length c
length-concat_append [] c = omega (arith, length-append c [])
length-concat_append (x ∷ cs) c = omega (
  arith,
  length-concat_append cs c,
  length-append x (concat (cs ++ c ∷ [])),
  length-append x (concat cs),
)

chunks-length :
    (size : ℕ) (content : Bytes) → 1 ≤ size → length (concat (chunks size content)) ≡ length content
chunks-length size content h = ap (λ r. length r) (chunks-concat size content h).0

-- For chunks of at least one byte, the parts of a multipart body, one behind the other, have as many
-- bytes together as its `content_length`, which the header `Content-Length` announces, for every
-- content of the file whose size went into it.
pub multipart-content_length :
    (chunk_size : ℕ) (metadata_part file_header closing content : Bytes)
    → 1 ≤ chunk_size
    → (let m = multipart metadata_part file_header closing (length content) in
        length (concat (body_parts chunk_size m content)) ≡ m.content_length)
unfolding multipart body_parts
multipart-content_length chunk_size metadata_part file_header closing content h = omega (
  arith,
  length-append metadata_part (file_header ++ concat (chunks chunk_size content ++ closing ∷ [])),
  length-append file_header (concat (chunks chunk_size content ++ closing ∷ [])),
  length-concat_append (chunks chunk_size content) closing,
  chunks-length chunk_size content h,
)

sent-ranges_from : (offset : ℕ) (cs : List Bytes) → sent (ranges_from offset cs) ≡ concat cs
unfolding ranges_from
sent-ranges_from offset [] = refl
sent-ranges_from offset (c ∷ cs) =
    ap (λ r. c ++ r) (sent-ranges_from (offset + length c - 1 + 1) cs)

ranges_from-Cover :
    (size from to : ℕ) (cs : List Bytes)
    → All (IsChunk size) cs
    → from + length (concat cs) ≡ to
    → Cover from (ranges_from from cs) to
unfolding ranges_from
ranges_from-Cover size from to [] h e = omega arith
ranges_from-Cover size from to (c ∷ cs) h e = (
  refl,
  omega (arith, h.0.0),
  omega (arith, h.0.0),
  ranges_from-Cover size (from + length c - 1 + 1) to cs h.1
      (omega (arith, h.0.0, length-append c (concat cs), e)),
)

-- For chunks of at least one byte, the ranges of a large upload lie without a gap or an overlap from
-- 0 to the size of the file, each as long as the bytes sent with it, and these bytes are together
-- the file.
pub upload_ranges-Cover :
    (chunk_size : ℕ) (content : Bytes)
    → 1 ≤ chunk_size
    → Cover 0 (upload_ranges chunk_size content) (length content)
      × (sent (upload_ranges chunk_size content) ≡ content)
unfolding upload_ranges
upload_ranges-Cover chunk_size content h =
    let read = chunks-concat chunk_size content h in
    (
      ranges_from-Cover chunk_size 0 (length content) (chunks chunk_size content) read.1
          (omega (arith, chunks-length chunk_size content h)),
      sent-ranges_from 0 (chunks chunk_size content) ∙ read.0,
    )
