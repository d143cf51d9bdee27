-- ===== src/Store/Settings.antt =====
-- `system_settings`: a table of texts by key (src/document_core/store.py).
use document_feeder.Prelude.{
  ℕ, String, ◌≡◌, refl, Option, none, some, true, List, arith, ◌==◌, eq_iff, is_some, if◌then◌else◌,
  Bool-cases, inl, inr,
}
use mathlib.Core.Option
use document_feeder.Table.{lookup, has, modify, add}
use document_feeder.Table.Reads.{lookup-modify, find_first-append, exists-find_first}

pub record Setting : Type 0 where
  pub key : String
  pub value : String
  pub updated_at : ℕ

abbrev pub SettingTable : Type 0
SettingTable = List Setting

abbrev pub setting_key : Setting → String
setting_key s = s.key

value_or : Option Setting → Option String → Option String
value_or none default = default
value_or (some s) default = some s.value

-- `get_system_setting(key, default)`
unfoldable pub get_system_setting : String → Option String → SettingTable → Option String
unfolding value_or
get_system_setting key default t = value_or (lookup setting_key key t) default

text_or : Option Setting → String → String
text_or none default = default
text_or (some s) default = s.value

-- `_session_setting(session, key, default)`
unfoldable pub session_setting : String → String → SettingTable → String
unfolding text_or
session_setting key default t = text_or (lookup setting_key key t) default

-- `set_system_setting(key, value)` and `_set_session_setting(session, key, value)`
unfoldable pub set_setting : ℕ → String → String → SettingTable → SettingTable
set_setting now key value t =
    if has setting_key key t
    then modify setting_key key (λ s. record s { value = value; updated_at = now }) t
    else add setting_key (record { key = key; value = value; updated_at = now }) t

abbrev written : ℕ → String → Setting → Setting
written now value s = record s { value = value; updated_at = now }

text_or-written :
    (now : ℕ) (value default : String) (o : Option Setting)
    → is_some o ≡ true
    → text_or (Option.map (written now value) o) default ≡ value
unfolding text_or
text_or-written now value default none h = cc
text_or-written now value default (some s) h = refl

-- A setting that was written is read back, and no other setting changes.
pub session_setting-set_setting :
    (now : ℕ) (key value j default : String) (t : SettingTable)
    → session_setting j default (set_setting now key value t)
      ≡ (if key == j then value else session_setting j default t)
unfolding session_setting set_setting
session_setting-set_setting now key value j default t = elim (Bool-cases (has setting_key key t)) [
  | inl there ↦ elim (Bool-cases (key == j)) [
    | inl same ↦
        rw (there, lookup-modify setting_key key j (written now value) t (λ s. refl), same)
          (text_or-written now value default (lookup setting_key j t) (
            rw (← (eq_iff key j).0 same) (ground (arith, exists-find_first (λ s. s.key == key) t))))
    | inr other ↦
        rw (there, lookup-modify setting_key key j (written now value) t (λ s. refl), other) refl
  ]
  | inr new ↦ rw new (
      ground (
        arith,
        eq_iff key j,
        exists-find_first (λ s. s.key == j) t,
        find_first-append (λ s. s.key == j) t
            (record { key = key; value = value; updated_at = now }),
      ))
]

installation_id_or : Option String → ℕ → String → SettingTable → String × SettingTable
installation_id_or none now fresh t = (fresh, set_setting now "installation_id" fresh t)
installation_id_or (some id) now fresh t =
    if id == "" then (fresh, set_setting now "installation_id" fresh t) else (id, t)

-- `ensure_installation_id`, with the new identifier that it would take
unfoldable pub ensure_installation_id : ℕ → String → SettingTable → String × SettingTable
unfolding installation_id_or
ensure_installation_id now fresh t =
    installation_id_or (get_system_setting "installation_id" none t) now fresh t
