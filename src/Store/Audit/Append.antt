-- ===== src/Store/Audit/Append.antt =====
-- `save_audit_event` extends the chain.
use document_feeder.Prelude.{
  ℕ, suc, ◌+◌, String, count, ◌≡◌, refl, ap, subst, ◌∙◌, true, false, Option, none, some, List, [],
  ◌∷◌, ◌++◌, arith, ◌==◌, eq_iff, length, All, All-map, select, All-select, is_some, Bool-cases,
  inl, inr, ok,
}
use document_feeder.Prelude.Sorting.{sort_by, sort_by-append, All-of_sort_by, last?}
use document_feeder.Models.Audit.{AuditEvent, AuditIntegrityStatus}
use document_feeder.Secrets.Redaction.{redact_fields}
use document_feeder.Store.Settings.{SettingTable}
use document_feeder.Store.Audit.{
  AuditRow, AuditLog, Hashing, audit_hash, chained, by_index, has_index, index_before, number_up_to,
  anchor_index, anchor_hash, next_link, anchor_link, append_row, append_event, clashes,
  save_audit_event, verify_from, verify_audit_chain,
}
use document_feeder.Store.Audit.Verify.{IsLink, IsChain, verify_rows-IsChain, verify_rows-ok_iff}

-- The log is a chain from its anchor.
pub record IsChained (h : Hashing) (log : AuditLog) : Type 0 where
  pub anchor : ℕ
  pub anchored : anchor_index log.settings ≡ some anchor
  pub chain : IsChain h (anchor_hash log.settings) (suc anchor) (sort_by by_index log.rows)

-- Documented of SHA-256: a hexadecimal digest is a text of 64 characters.
abbrev pub HasDigests : Hashing → Type 0
HasDigests h = (s : String) → count (h.sha256_hexdigest s) ≡ 64

pub not_empty : (s : String) → count s ≡ 64 → (s == "") ≡ false
not_empty s n = elim (Bool-cases (s == "")) [
  | inl e ↦
      let none_left : count "" ≡ 64 = subst (λ t. count t ≡ 64) ((eq_iff s "").0 e) n in
      absurd (omega arith)
  | inr e ↦ e
]

module _ (h : Hashing) where
  -- the hash behind which the next row stands
  abbrev pub end_hash : String → List AuditRow → String
  end_hash previous [] = previous
  end_hash previous (r ∷ rs) = end_hash (audit_hash h previous r.event) rs

  pub IsChain-append :
      (previous : String) (index : ℕ) (c : List AuditRow) (r : AuditRow)
      → IsChain h previous index c
      → IsLink h (end_hash previous c) (index + length c) r
      → IsChain h previous index (c ++ r ∷ [])
  IsChain-append previous index [] r k l = (subst (λ n. IsLink h previous n r) (omega arith) l, tt)
  IsChain-append previous index (x ∷ c) r k l = (
    k.0,
    IsChain-append (audit_hash h previous x.event) (suc index) c r k.1
        (subst (λ n. IsLink h (end_hash (audit_hash h previous x.event) c) n r) (omega arith) l),
  )

  -- the rows of a chain stand below the next index
  pub chain_below :
      (previous : String) (index : ℕ) (c : List AuditRow)
      → IsChain h previous index c
      → All (λ (r : AuditRow). number_up_to r.chain_index (index + length c) ≡ true) c
  chain_below previous index [] k = tt
  chain_below previous index (x ∷ c) k = (
    rw k.0.indexed (ground arith),
    subst (λ n. All (λ (r : AuditRow). number_up_to r.chain_index n ≡ true) c) (omega arith)
        (chain_below (audit_hash h previous x.event) (suc index) c k.1),
  )

  -- the last row of a chain gives the next hash and index
  link_after :
      (digests : HasDigests h) (s : SettingTable) (previous : String) (index : ℕ) (x : AuditRow)
      (c : List AuditRow)
      → IsChain h previous index (x ∷ c)
      → next_link h (last? (x ∷ c)) s ≡ ok (end_hash previous (x ∷ c), index + length (x ∷ c))
  unfolding next_link audit_hash
  link_after digests s previous index x [] k =
      rw (k.0.indexed, k.0.hashed)
        (rw (not_empty (audit_hash h previous x.event) (digests _))
          (ap (λ n. ok (audit_hash h previous x.event, n)) (omega arith)))
  link_after digests s previous index x (y ∷ c) k =
      link_after digests s (audit_hash h previous x.event) (suc index) y c k.1
      ∙ ap (λ n. ok (end_hash previous (x ∷ y ∷ c), n)) (omega arith)

  next_link-chain :
      (digests : HasDigests h) (s : SettingTable) (anchor : ℕ) (c : List AuditRow)
      → anchor_index s ≡ some anchor
      → IsChain h (anchor_hash s) (suc anchor) c
      → next_link h (last? c) s ≡ ok (end_hash (anchor_hash s) c, suc anchor + length c)
  next_link-chain digests s anchor (x ∷ c) a k =
      link_after digests s (anchor_hash s) (suc anchor) x c k
  next_link-chain digests s anchor [] a k =
      unfold next_link anchor_link in rw a (ap (λ n. ok (anchor_hash s, n)) (omega arith))

  -- every row of a chained log has an index, below the next one
  rows_below :
      (log : AuditLog) (w : IsChained h log)
      → All
          (λ (r : AuditRow).
            number_up_to r.chain_index (suc w.anchor + length (sort_by by_index log.rows)) ≡ true)
          log.rows
  rows_below log w =
      All-of_sort_by by_index _ log.rows
        (chain_below (anchor_hash log.settings) (suc w.anchor) (sort_by by_index log.rows) w.chain)

  has_index_below : (n : ℕ) (i : Option ℕ) → number_up_to i n ≡ true → is_some i ≡ true
  has_index_below n none e = cc
  has_index_below n (some k) e = refl

  before_next : (n : ℕ) (i : Option ℕ) → number_up_to i n ≡ true → index_before i (some n) ≡ true
  before_next n none e = cc
  before_next n (some k) e = e

  -- what a save reads of the log
  saved_link :
      (digests : HasDigests h) (log : AuditLog) (w : IsChained h log)
      → let c = sort_by by_index log.rows in
        next_link h (last? (sort_by by_index (select has_index log.rows))) log.settings
        ≡ ok (end_hash (anchor_hash log.settings) c, suc w.anchor + length c)
  saved_link digests log w =
      rw
        (All-select has_index log.rows
          (All-map log.rows (λ r e. has_index_below _ r.chain_index e) (rows_below log w)))
        (next_link-chain digests log.settings w.anchor (sort_by by_index log.rows) w.anchored
          w.chain)

  append_row-IsChained :
      (log : AuditLog) (w : IsChained h log) (e : AuditEvent)
      → let c = sort_by by_index log.rows in
        IsChained h
          (append_row h (suc w.anchor + length c) (end_hash (anchor_hash log.settings) c) e log).1
  unfolding append_row
  append_row-IsChained log w e =
      let c = sort_by by_index log.rows in
      let index = suc w.anchor + length c in
      let previous = end_hash (anchor_hash log.settings) c in
      elim (Bool-cases (clashes h e.id index (audit_hash h previous e) log.rows)) [
        | inl t ↦ rw t w
        | inr t ↦ rw t (record {
          anchor = w.anchor;
          anchored = w.anchored;
          chain =
              rw
                (sort_by-append by_index log.rows (chained h index previous e)
                  (All-map log.rows (λ r b. before_next index r.chain_index b) (rows_below log w)))
                (IsChain-append (anchor_hash log.settings) (suc w.anchor) c
                  (chained h index previous e) w.chain
                  (record { indexed = refl; behind = refl; hashed = refl }));
        })
      ]

  -- Where digests have 64 characters, saving an event, whether the insert succeeds or fails, leaves
  -- a log that is a chain from its anchor such a chain.
  pub save_audit_event-IsChained :
      (digests : HasDigests h) (known : List String) (e : AuditEvent) (log : AuditLog)
      → IsChained h log
      → IsChained h (save_audit_event h known e log).1
  unfolding save_audit_event append_event
  save_audit_event-IsChained digests known e log w =
      rw (saved_link digests log w)
        (append_row-IsChained log w (record e { details = redact_fields known e.details }))

  -- A chained log is reported intact, with all its rows counted.
  pub verify-IsChained :
      (log : AuditLog)
      → IsChained h log
      → verify_audit_chain h log
        ≡ some (record {
          status = "ok";
          checked = length (sort_by by_index log.rows);
          first_invalid_index = none;
          detail = none;
        })
  unfolding verify_audit_chain
  verify-IsChained log w = rw w.anchored (
      ap some (
        verify_rows-IsChain h (anchor_hash log.settings) (suc w.anchor) 0
          (sort_by by_index log.rows) w.chain
        ∙ ap (λ n. record { status = "ok"; checked = n; first_invalid_index = none; detail = none })
            (omega arith)))

  ok_of_chain :
      (a : Option ℕ) (log : AuditLog) (st : AuditIntegrityStatus)
      → anchor_index log.settings ≡ a
      → verify_from h a (anchor_hash log.settings) (sort_by by_index log.rows) ≡ some st
      → st.status ≡ "ok"
      → IsChained h log
  unfolding verify_from
  ok_of_chain none log st e v k = cc
  ok_of_chain (some n) log st e v k = record {
    anchor = n;
    anchored = e;
    chain =
        (verify_rows-ok_iff h (anchor_hash log.settings) (suc n) 0 (sort_by by_index log.rows)).0
          (ground arith);
  }

  -- Only a chained log is reported intact.
  pub IsChained-of_ok :
      (log : AuditLog) (st : AuditIntegrityStatus)
      → verify_audit_chain h log ≡ some st
      → st.status ≡ "ok"
      → IsChained h log
  unfolding verify_audit_chain
  IsChained-of_ok log st v k = ok_of_chain (anchor_index log.settings) log st refl v k
