-- ===== src/Store/Audit/Evidence.antt =====
-- Tampering shows: two logs that pass the check and end in one hash hold the same content, or
-- SHA-256 has a collision, which is handed out.
use document_feeder.Prelude.{String, ◌<>◌, ◌≡◌, ◌≢◌, Option, none, some, List, map}
use mathlib.Core.List.{Memᴰ}
use document_feeder.Prelude.Sorting.{last?}
use document_feeder.Store.Audit.{AuditRow, Hashing, payload}

-- the text whose digest a row of the chain holds, behind a previous hash
abbrev pub linked : Hashing → String → AuditRow → String
linked h previous r = previous <> ("\n" <> payload h r.event)

-- A collision of SHA-256 in two logs: a row of each, whose stored hash is the digest of its stored
-- previous hash and its content, such that these texts differ and their digests do not.
pub record Collision (h : Hashing) (rows rows' : List AuditRow) : Type 0 where
  pub row : AuditRow
  pub row' : AuditRow
  pub stored : Memᴰ row rows
  pub stored' : Memᴰ row' rows'
  pub previous : String
  pub previous' : String
  pub behind : row.previous_hash ≡ some previous
  pub behind' : row'.previous_hash ≡ some previous'
  pub hashed : row.entry_hash ≡ some (h.sha256_hexdigest (linked h previous row))
  pub hashed' : row'.entry_hash ≡ some (h.sha256_hexdigest (linked h previous' row'))
  pub differ : linked h previous row ≢ linked h previous' row'
  pub same_digest : row.entry_hash ≡ row'.entry_hash

abbrev pub contents : Hashing → List AuditRow → List String
contents h = map (λ r. payload h r.event)

-- the hash of the last row
abbrev pub last_hash : List AuditRow → Option String
last_hash rows = elim (last? rows) [ none ↦ none | some r ↦ r.entry_hash ]
