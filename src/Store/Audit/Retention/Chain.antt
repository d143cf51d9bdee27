-- ===== src/Store/Audit/Retention/Chain.antt =====
-- What the deletion of old events leaves: a chain, and every event that is not old.
use document_feeder.Prelude.{
  ℕ, suc, ◌<◌, ◌≤◌, String, ◌<>◌, ◌≡◌, refl, ap, subst, sym, ◌∙◌, Bool, true, false, not, Option,
  none, some, List, [], ◌∷◌, arith, select, eqb, find_first, Bool-cases, inl, inr, ok, raise,
  Outcome,
}
use mathlib.Core.List.{Memᴰ}
use document_feeder.Prelude.Sorting.{sort_by}
use document_feeder.Prelude.Sorting.Order.{sort_by-select, mem-sort_by}
use document_feeder.Prelude.Decimal.{of_decimal, to_decimal, of_decimal-to_decimal}
use document_feeder.Table.Reads.{find_first_mem, find_first_holds}
use document_feeder.Store.Settings.{SettingTable, set_setting, session_setting-set_setting}
use document_feeder.Store.Audit.{
  AuditRow, AuditLog, AuditError, Hashing, payload, audit_hash, by_index, index_before, number_is,
  number_up_to, or_default, zero_hash, anchor_index, anchor_hash, anchor_index_key, anchor_hash_key,
  index_or_zero,
}
use document_feeder.Store.Audit.Verify.{IsChain, number_is_eq}
use document_feeder.Store.Audit.Append.{IsChained, HasDigests, not_empty}
use document_feeder.Store.Audit.Retention.{
  boundary, cut_at, delete_up_to, delete_at, first_retained, delete_audit_events_before,
}

pub by_index_total : (x y : AuditRow) → by_index x y ≡ false → by_index y x ≡ true
by_index_total x y = go x.chain_index y.chain_index
  where
    go : (a b : Option ℕ) → index_before a b ≡ false → index_before b a ≡ true
    go none none h = refl
    go none (some b) h = refl
    go (some a) none h = cc
    go (some a) (some b) h = ground arith

pub by_index_trans :
    (x y z : AuditRow) → by_index x y ≡ true → by_index y z ≡ true → by_index x z ≡ true
by_index_trans x y z = go x.chain_index y.chain_index z.chain_index
  where
    go :
        (a b c : Option ℕ)
        → index_before a b ≡ true
        → index_before b c ≡ true
        → index_before a c ≡ true
    go none none none h k = refl
    go none none (some c) h k = cc
    go none (some b) c h k = cc
    go (some a) b none h k = refl
    go (some a) none (some c) h k = cc
    go (some a) (some b) (some c) h k = ground arith

abbrev pub above : ℕ → AuditRow → Bool
above n r = not (number_up_to r.chain_index n)

anchor_index-cut :
    (now n : ℕ) (s : SettingTable)
    → anchor_index (set_setting now anchor_index_key (to_decimal n) s) ≡ some n
unfolding anchor_index
anchor_index-cut now n s =
    ap of_decimal
      (session_setting-set_setting now anchor_index_key (to_decimal n) anchor_index_key "0" s)
    ∙ of_decimal-to_decimal n

anchor_hash-cut :
    (now : ℕ) (value hash : String) (s : SettingTable)
    → anchor_hash (set_setting now anchor_index_key value (set_setting now anchor_hash_key hash s))
      ≡ hash
unfolding anchor_hash
anchor_hash-cut now value hash s =
    session_setting-set_setting now anchor_index_key value anchor_hash_key zero_hash
      (set_setting now anchor_hash_key hash s)
    ∙ session_setting-set_setting now anchor_hash_key hash anchor_hash_key zero_hash s

select_drop :
    {A : Type 0} (p : A → Bool) (x : A) (xs : List A)
    → p x ≡ false
    → select p (x ∷ xs) ≡ select p xs
select_drop p x xs e = rw e refl

not_above :
    (n index : ℕ) (r : AuditRow) → r.chain_index ≡ some index → index ≤ n → above n r ≡ false
not_above n index r e l = rw e (ground arith)

index_of_some : {a b : ℕ} → some a ≡ some b → a ≡ b
index_of_some e = cc

module _ (h : Hashing) where
  chain_above :
      (n : ℕ) (previous : String) (index : ℕ) (c : List AuditRow)
      → n < index
      → IsChain h previous index c
      → select (above n) c ≡ c
  chain_above n previous index [] l k = refl
  chain_above n previous index (x ∷ c) l k = rw (k.0.indexed) (
      ground (arith, chain_above n (audit_hash h previous x.event) (suc index) c (omega arith) k.1))

  -- the indices of a chain start at the first
  chain_from :
      (previous : String) (index : ℕ) (c : List AuditRow) {r : AuditRow} (n : ℕ)
      → IsChain h previous index c
      → Memᴰ r c
      → r.chain_index ≡ some n
      → index ≤ n
  chain_from previous index [] n k m i = elim m [ ]
  chain_from previous index (x ∷ c) n k (Memᴰ.head e) i =
      let same : some n ≡ some index =
        sym i ∙ ap (λ (r : AuditRow). r.chain_index) e ∙ k.0.indexed in
      omega (arith, index_of_some same)
  chain_from previous index (x ∷ c) n k (Memᴰ.tail m) i =
      omega (arith, chain_from (audit_hash h previous x.event) (suc index) c n k.1 m i)

  -- The rows above a row of a chain are a chain behind its hash.
  IsChain-cut :
      (previous : String) (index : ℕ) (c : List AuditRow) (r : AuditRow) (n : ℕ)
      → IsChain h previous index c
      → Memᴰ r c
      → r.chain_index ≡ some n
      → (text : String) × (r.entry_hash ≡ some (h.sha256_hexdigest text))
        × IsChain h (h.sha256_hexdigest text) (suc n) (select (above n) c)
  unfolding audit_hash
  IsChain-cut previous index [] r n k m i = elim m [ ]
  IsChain-cut previous index (x ∷ c) r n k (Memᴰ.head e) i =
      let same : some n ≡ some index =
        sym i ∙ ap (λ (r : AuditRow). r.chain_index) e ∙ k.0.indexed in
      let at_index : n ≡ index = index_of_some same in
      (
        previous <> ("\n" <> payload h x.event),
        ap (λ (r : AuditRow). r.entry_hash) e ∙ k.0.hashed,
        subst
            (λ (m : ℕ).
              IsChain h (audit_hash h previous x.event) (suc m) (select (above n) (x ∷ c)))
            (sym at_index)
            (subst (IsChain h (audit_hash h previous x.event) (suc index))
              (sym (
                select_drop (above n) x c (not_above n index x k.0.indexed (omega arith))
                ∙ chain_above n (audit_hash h previous x.event) (suc index) c (omega arith) k.1))
              k.1),
      )
  IsChain-cut previous index (x ∷ c) r n k (Memᴰ.tail m) i =
      let found = IsChain-cut (audit_hash h previous x.event) (suc index) c r n k.1 m i in
      let low : suc index ≤ n =
        chain_from (audit_hash h previous x.event) (suc index) c n k.1 m i in
      (
        found.0,
        found.1,
        subst (IsChain h (h.sha256_hexdigest found.0) (suc n))
            (sym (select_drop (above n) x c (not_above n index x k.0.indexed (omega arith))))
            found.2,
      )

  cut_at-IsChained :
      (digests : HasDigests h) (now n : ℕ) (found : Option AuditRow) (log : AuditLog)
      → find_first (λ r. number_is r.chain_index n) log.rows ≡ found
      → IsChained h log
      → IsChained h (cut_at now n found log).1
  unfolding cut_at
  cut_at-IsChained digests now n none log e w = w
  cut_at-IsChained digests now n (some r) log e w =
      let at_n : r.chain_index ≡ some n =
        number_is_eq r.chain_index n
          (find_first_holds (λ r. number_is r.chain_index n) log.rows e) in
      let here =
        mem-sort_by by_index log.rows
          (find_first_mem (λ r. number_is r.chain_index n) log.rows e) in
      let cut =
        IsChain-cut (anchor_hash log.settings) (suc w.anchor) (sort_by by_index log.rows) r n
          w.chain here at_n in
      let digest = h.sha256_hexdigest cut.0 in
      let hash_kept : or_default r.entry_hash zero_hash ≡ digest =
        rw (cut.1) (rw (not_empty digest (digests cut.0)) refl) in
      let s =
        set_setting now anchor_index_key (to_decimal (index_or_zero r.chain_index))
          (set_setting now anchor_hash_key (or_default r.entry_hash zero_hash) log.settings) in
      let hash : anchor_hash s ≡ digest =
        anchor_hash-cut now (to_decimal (index_or_zero r.chain_index))
          (or_default r.entry_hash zero_hash) log.settings
        ∙ hash_kept in
      record {
        anchor = n;
        anchored = rw at_n (anchor_index-cut now n _);
        chain =
            subst (λ t. IsChain h t (suc n) (sort_by by_index (select (above n) log.rows)))
              (sym hash)
              (subst (IsChain h digest (suc n))
                (sym (sort_by-select by_index by_index_total by_index_trans (above n) log.rows))
                cut.2);
      }

  delete_up_to-IsChained :
      (digests : HasDigests h) (now n : ℕ) (log : AuditLog)
      → IsChained h log
      → IsChained h (delete_up_to now n log).1
  unfolding delete_up_to
  delete_up_to-IsChained digests now n log w = elim (Bool-cases (eqb n 0)) [
    | inl e ↦ rw e w
    | inr e ↦ rw e (cut_at-IsChained digests now n _ log refl w)
  ]

  delete_at-IsChained :
      (digests : HasDigests h) (r : Outcome AuditError ℕ) (now : ℕ) (log : AuditLog)
      → IsChained h log
      → IsChained h (delete_at r now log).1
  unfolding delete_at
  delete_at-IsChained digests (raise e) now log w = w
  delete_at-IsChained digests (ok n) now log w = delete_up_to-IsChained digests now n log w

  -- The deletion of old events leaves a chained log chained, from its new anchor. Digests have 64
  -- characters.
  pub delete_audit_events_before-IsChained :
      (digests : HasDigests h) (now cutoff : ℕ) (log : AuditLog)
      → IsChained h log
      → IsChained h (delete_audit_events_before now cutoff log).1
  unfolding delete_audit_events_before
  delete_audit_events_before-IsChained digests now cutoff log w =
      delete_at-IsChained digests (boundary (first_retained cutoff log.rows) log.rows) now log w
