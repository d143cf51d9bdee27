-- ===== src/Store/Audit/Verify.antt =====
-- What `verify_audit_chain` accepts.
use document_feeder.Prelude.{
  ℕ, suc, ◌+◌, String, ◌≡◌, ◌≢◌, ◌↔◌, true, Option, none, some, List, [], ◌∷◌, arith, eq_iff,
  eq_refl, length, Bool-cases, inl, inr, ap, ◌∙◌,
}
use document_feeder.Models.Audit.{AuditIntegrityStatus}
use document_feeder.Store.Audit.{
  AuditRow, Hashing, audit_hash, text_is, number_is, link_ok, verify_rows,
}

-- A row is what the chain writes for its event behind a hash, at an index.
pub record IsLink (h : Hashing) (previous : String) (index : ℕ) (r : AuditRow) : Type 0 where
  pub indexed : r.chain_index ≡ some index
  pub behind : r.previous_hash ≡ some previous
  pub hashed : r.entry_hash ≡ some (audit_hash h previous r.event)

-- Rows that form an unbroken chain from a hash and an index.
abbrev pub IsChain : Hashing → String → ℕ → List AuditRow → Type 0
IsChain h previous index [] = Unit
IsChain h previous index (r ∷ rs) =
    IsLink h previous index r × IsChain h (audit_hash h previous r.event) (suc index) rs

text_is_eq : (o : Option String) (t : String) → text_is o t ≡ true → o ≡ some t
text_is_eq none t e = cc
text_is_eq (some s) t e = ap some ((eq_iff s t).0 e)

pub number_is_eq : (o : Option ℕ) (m : ℕ) → number_is o m ≡ true → o ≡ some m
number_is_eq none m e = cc
number_is_eq (some n) m e = ground arith

invalid_ne_ok : ◌≢◌ {A = String} "invalid" "ok"
invalid_ne_ok = ground (arith, eq_iff "invalid" "ok")

module _ (h : Hashing) where
  IsLink-of_ok :
      (previous : String) (index : ℕ) (r : AuditRow)
      → link_ok h previous index r ≡ true
      → IsLink h previous index r
  unfolding link_ok
  IsLink-of_ok previous index r ok = record {
    indexed = number_is_eq r.chain_index index (ground arith);
    behind = text_is_eq r.previous_hash previous (ground arith);
    hashed = text_is_eq r.entry_hash (audit_hash h previous r.event) (ground arith);
  }

  ok_of_link :
      (previous : String) (index : ℕ) (r : AuditRow)
      → IsLink h previous index r
      → link_ok h previous index r ≡ true
  unfolding link_ok
  ok_of_link previous index r l =
      rw (l.indexed, l.behind, l.hashed, eq_refl previous, eq_refl (audit_hash h previous r.event))
        (ground arith)

  verified :
      (previous : String) (index checked : ℕ) (rs : List AuditRow)
      → (verify_rows h previous index checked rs).status ≡ "ok"
      → IsChain h previous index rs
  unfolding verify_rows
  verified previous index checked [] e = tt
  verified previous index checked (r ∷ rs) e = elim (Bool-cases (link_ok h previous index r)) [
    | inl k ↦
        let link = IsLink-of_ok previous index r k in
        (
          link,
          verified (audit_hash h previous r.event) (suc index) (suc checked) rs
              (rw (k, link.hashed) at e),
        )
    | inr k ↦ absurd (invalid_ne_ok (rw k at e))
  ]

  -- A chain is accepted, with all its rows counted.
  pub verify_rows-IsChain :
      (previous : String) (index checked : ℕ) (rs : List AuditRow)
      → IsChain h previous index rs
      → verify_rows h previous index checked rs ≡ record {
        status = "ok";
        checked = checked + length rs;
        first_invalid_index = none;
        detail = none;
      }
  unfolding verify_rows
  verify_rows-IsChain previous index checked [] c = ground arith
  verify_rows-IsChain previous index checked (r ∷ rs) c =
      rw (ok_of_link previous index r c.0, c.0.hashed)
        (verify_rows-IsChain (audit_hash h previous r.event) (suc index) (suc checked) rs c.1
          ∙ ap
              (λ n. record {
                status = "ok";
                checked = n;
                first_invalid_index = none;
                detail = none;
              })
              (omega arith))

  -- The check says "ok" exactly of an unbroken chain: indices without a gap, each row behind the
  -- hash of the one before it, and each hash that of the row's own content.
  pub verify_rows-ok_iff :
      (previous : String) (index checked : ℕ) (rs : List AuditRow)
      → ((verify_rows h previous index checked rs).status ≡ "ok") ↔ IsChain h previous index rs
  verify_rows-ok_iff previous index checked rs = (
    verified previous index checked rs,
    λ c.
        ap (λ (s : AuditIntegrityStatus). s.status)
          (verify_rows-IsChain previous index checked rs c),
  )
