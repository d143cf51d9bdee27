-- ===== src/Web/Accounts/Admins.antt =====
-- The last active administrator stays.
use document_feeder.Prelude.{
  ℕ, suc, ◌≤◌, String, ◌≡◌, refl, ap, ◌∙◌, Bool, true, false, not, ◌&&◌, ◌||◌, Option, none, some,
  List, [], ◌∷◌, ◌++◌, arith, ◌==◌, eq_iff, eqb, exists, select, count_rows, exists-append,
  Bool-cases, inl, inr, if◌then◌else◌, Outcome, ok, raise,
}
use document_feeder.Prelude.Exec.{pure, ◌>>=◌, ◌>>◌}
use document_feeder.Prelude.Exec.Laws.{Keeps, bind-Keeps_after}
use document_feeder.Prelude.Sorting.Count.{count_rows-sort_by, exists-sort_by, length-select}
use document_feeder.Models.User.{UserAccount, UserUpdate, UserView}
use document_feeder.Table.{has, modify, IsUnique}
use document_feeder.Store.Jobs.{StoreError}
use document_feeder.Store.Users.{UserTable, user_key, list_users, get_user, save_user}
use document_feeder.Web.World.{WebEnvironment, Service}
use document_feeder.Web.Access.{is_admin}
use document_feeder.Web.Accounts.{
  is_active_admin, loses_last_admin, store_user, save_update, update_found, update_user,
  update_saved, sent_password, assigned, new_password, stored, end_sessions, user_view,
}

module _ {ℓ} {A : Type ℓ} (key : A → String) (p : A → Bool) (k : String) where
  exists-modify :
      (f : A → A) (t : List A)
      → ((r : A) → p (f r) ≡ true)
      → exists p t ≡ true
      → exists p (modify key k f t) ≡ true
  exists-modify f [] h e = e
  exists-modify f (x ∷ t) h e = ground (arith, h x, exists-modify f t h)

  exists-modify_other :
      (f : A → A) (t : List A)
      → exists (λ r. key r == k && p r) t ≡ false
      → exists p t ≡ true
      → exists p (modify key k f t) ≡ true
  exists-modify_other f [] h e = e
  exists-modify_other f (x ∷ t) h e = ground (arith, exists-modify_other f t)

  has-select_exists : (t : List A) → has key k (select p t) ≡ exists (λ r. key r == k && p r) t
  has-select_exists [] = refl
  has-select_exists (x ∷ t) = ground (arith, has-select_exists t)

  exists-modify_absent :
      (f : A → A) (t : List A)
      → has key k t ≡ false
      → 1 ≤ count_rows p t
      → exists p (modify key k f t) ≡ true
  exists-modify_absent f [] h c = absurd (omega arith)
  exists-modify_absent f (x ∷ t) h c = ground (arith, exists-modify_absent f t)

  exists-modify_two :
      (f : A → A) (t : List A)
      → IsUnique key t
      → 2 ≤ count_rows p t
      → exists p (modify key k f t) ≡ true
  exists-modify_two f [] u c = absurd (omega arith)
  exists-modify_two f (x ∷ t) u c =
      ground
        (arith, eq_iff (key x) k, exists-modify_absent f t, exists-modify_two f t u.1, u.0, ap key)

  count_of_exists : (t : List A) → exists p t ≡ true → 1 ≤ count_rows p t
  count_of_exists [] e = cc
  count_of_exists (x ∷ t) e = ground (arith, count_of_exists t)

-- There is an active administrator.
abbrev pub HasAdmin : UserTable → Type 0
HasAdmin t = exists is_active_admin t ≡ true

-- the guard of `update_user`, counted in the table
loses_last_admin-count :
    (user : UserAccount) (t : UserTable)
    → loses_last_admin user t ≡ (
        exists (λ r. user_key r == user.id && is_active_admin r) t
        && ((not user.active || not (is_admin user.role)) && eqb (count_rows is_active_admin t) 1))
unfolding loses_last_admin list_users
loses_last_admin-count user t =
    rw
      (
        has-select_exists user_key is_active_admin user.id (list_users t),
        exists-sort_by _ (λ r. user_key r == user.id && is_active_admin r) t,
        length-select is_active_admin (list_users t),
        count_rows-sort_by _ is_active_admin t,
      )
      refl

module _ (lower : String → String) (now : ℕ) (user : UserAccount) (t : UserTable)
    (unique : IsUnique user_key t) (kept : loses_last_admin user t ≡ false)
    (admins : HasAdmin t) where
  -- the write of an account that is no active administrator
  demoted :
      (row : UserAccount)
      → is_active_admin user ≡ false
      → HasAdmin (modify user_key user.id (λ _. row) t)
  demoted row lost =
      elim (Bool-cases (exists (λ r. user_key r == user.id && is_active_admin r) t)) [
        | inl was ↦ exists-modify_two user_key is_active_admin user.id _ t unique (
            ground (
              arith,
              loses_last_admin-count user t,
              count_of_exists user_key is_active_admin user.id t,
            ))
        | inr none_there ↦
            exists-modify_other user_key is_active_admin user.id _ t none_there admins
      ]

  written :
      (row : UserAccount)
      → is_active_admin row ≡ is_active_admin user
      → HasAdmin (modify user_key user.id (λ _. row) t)
  written row same = elim (Bool-cases (is_active_admin user)) [
    | inl stays ↦ exists-modify user_key is_active_admin user.id _ t (λ _. same ∙ stays) admins
    | inr lost ↦ demoted row lost
  ]

  save_user-HasAdmin : (t' : UserTable) → (save_user lower now user t).0 ≡ ok t' → HasAdmin t'
  unfolding save_user
  save_user-HasAdmin t' e =
      elim (Bool-cases
        (exists (λ r. r.username == lower user.username && not (r.id == user.id)) t)) [
          | inl clash ↦ let h = rw clash at e in cc
          | inr free ↦ elim (Bool-cases (has user_key user.id t)) [
            | inl known ↦
                let same : modify user_key user.id
                      (λ _. record user { username = lower user.username; updated_at = now }) t
                    ≡ t' =
                  let h = rw (free, known) at e in cc in
                rw (← same) (written _ refl)
            | inr new ↦
                let same : t
                      ++ record user { username = lower user.username; updated_at = now } ∷ []
                    ≡ t' =
                  let h = rw (free, new) at e in cc in
                rw (← same) (
                  rw
                    (
                      exists-append is_active_admin t
                          (record user { username = lower user.username; updated_at = now } ∷ []),
                      admins,
                    )
                    refl)
          ]
        ]

module _ (env : WebEnvironment) where
  stored-HasAdmin :
      (r : Outcome StoreError UserTable × UserAccount) (s : Service env.pipeline.Files)
      → HasAdmin s.tables.users
      → ((t : UserTable) → r.0 ≡ ok t → HasAdmin t)
      → HasAdmin (stored env r s).1.tables.users
  unfolding stored
  stored-HasAdmin (ok t, user) s h k = k t refl
  stored-HasAdmin (raise e, user) s h k = h

  abbrev users_of : Service env.pipeline.Files → UserTable
  users_of s = s.tables.users

  after_store-Keeps :
      (ends : Bool) (id : String) (view : UserView)
      → Keeps users_of ((if ends then end_sessions env id else pure tt) >> pure view)
  unfolding end_sessions ◌>>=◌
  after_store-Keeps true id view s = refl
  after_store-Keeps false id view s = refl

  update_saved-Keeps :
      (q : UserUpdate) (saved : UserAccount) → Keeps users_of (update_saved env q saved)
  unfolding update_saved
  update_saved-Keeps q saved = after_store-Keeps _ saved.id (user_view saved)

  -- the write, behind the guards
  save_update-HasAdmin :
      (q : UserUpdate) (caller user : UserAccount) (s : Service env.pipeline.Files)
      → IsUnique user_key s.tables.users
      → HasAdmin s.tables.users
      → HasAdmin (save_update env q caller user s).1.tables.users
  unfolding save_update
  save_update-HasAdmin q caller user s unique admins =
      elim (Bool-cases (user.id == caller.id && not user.active)) [
        | inl own ↦ rw own admins
        | inr other ↦ elim (Bool-cases (loses_last_admin user s.tables.users)) [
          | inl last ↦ unfold ◌>>=◌ in rw (other, last) admins
          | inr kept ↦
              let stored_users : HasAdmin (store_user env user s).1.tables.users =
                unfold store_user ◌>>=◌ in
                stored-HasAdmin _ (record s { readings = suc s.readings }) admins
                  (save_user-HasAdmin env.lower (env.pipeline.clock s.readings) user s.tables.users
                    unique kept admins) in
              rw (other) (
                unfold ◌>>=◌ in
                rw kept (
                  ap (exists is_active_admin) (
                    bind-Keeps_after users_of (store_user env user) (update_saved env q) s
                      (update_saved-Keeps q))
                  ∙ stored_users))
        ]
      ]

  new_password-HasAdmin :
      (q : UserUpdate) (caller : UserAccount) (password : Option String) (user : UserAccount)
      (s : Service env.pipeline.Files)
      → IsUnique user_key s.tables.users
      → HasAdmin s.tables.users
      → HasAdmin ((new_password env password user >>= save_update env q caller) s).1.tables.users
  unfolding new_password ◌>>=◌
  new_password-HasAdmin q caller none user s unique admins =
      save_update-HasAdmin q caller user s unique admins
  new_password-HasAdmin q caller (some p) user s unique admins =
      save_update-HasAdmin q caller _ _ unique admins

  update_found-HasAdmin :
      (q : UserUpdate) (caller : UserAccount) (found : Option UserAccount)
      (s : Service env.pipeline.Files)
      → IsUnique user_key s.tables.users
      → HasAdmin s.tables.users
      → HasAdmin (update_found env q caller found s).1.tables.users
  unfolding update_found
  update_found-HasAdmin q caller none s unique admins = admins
  update_found-HasAdmin q caller (some user) s unique admins =
      new_password-HasAdmin q caller (sent_password env q.password) (assigned env q user) s unique
        admins

  -- Where there is an active administrator, there is one after any update of any account by
  -- anybody, whether it is made or rejected.
  pub update_user-HasAdmin :
      (user_id : String) (q : UserUpdate) (caller : UserAccount) (s : Service env.pipeline.Files)
      → IsUnique user_key s.tables.users
      → HasAdmin s.tables.users
      → HasAdmin (update_user env user_id q caller s).1.tables.users
  unfolding update_user ◌>>=◌
  update_user-HasAdmin user_id q caller s unique admins =
      update_found-HasAdmin q caller (get_user user_id s.tables.users) s unique admins
