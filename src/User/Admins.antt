-- ===== src/User/Admins.antt =====
-- internal/features/user/adapter/postgres/repository.go: no statement removes the last active admin.
use go_api_project_template.Prelude.{
  ℕ, suc, ◌≤◌, ◌<◌, ◌≡◌, refl, subst, inl, inr, Bool, true, false, not, ◌&&◌, List, [], ◌∷◌, ◌++◌,
  ltb, ◌==◌, exists, All, All-append, if_elim, Bool-cases, arith,
}
use go_api_project_template.Database.Keeps.{Holds}
use go_api_project_template.User.Domain.{User}
use go_api_project_template.User.Repository.{
  alive, has_id, is_active_admin, active_admins, change_rows, update_rows, new_row, insert_user,
  with_names, with_account, one_version_up, as_deleted, update_names, may_update, update_account,
  may_delete, delete_user, increment_version, known_role,
}
use go_api_project_template.Schema.{Db}

abbrev pub same_id : ℕ → User → Bool
same_id id u = u.id == id

abbrev pub DistinctIds : List User → Type 0
DistinctIds [] = Unit
DistinctIds (u ∷ us) = (exists (same_id u.id) us ≡ false) × DistinctIds us

-- Keys are distinct and were drawn by the database, and there is an active admin.
pub record HasAdmin (d : Db) : Type 0 where
  pub distinct : DistinctIds d.users
  pub drawn : All (λ u. u.id < d.next_id) d.users
  pub admin : 1 ≤ active_admins d.users

abbrev counted : User → Bool
counted u = is_active_admin u && alive u

module _ (p : User → Bool) (f : User → User) where
  module _ (keeps_id : (u : User) → (f u).id ≡ u.id) where
    change_rows-absent :
        (id : ℕ) (us : List User)
        → exists (same_id id) us ≡ false
        → exists (same_id id) (change_rows p f us) ≡ false
    change_rows-absent id [] h = h
    change_rows-absent id (u ∷ us) h = ground (arith, keeps_id u, change_rows-absent id us)

    change_rows-DistinctIds : (us : List User) → DistinctIds us → DistinctIds (change_rows p f us)
    change_rows-DistinctIds [] h = tt
    change_rows-DistinctIds (u ∷ us) h =
        (ground (arith, keeps_id u, change_rows-absent u.id us h.0), change_rows-DistinctIds us h.1)

    change_rows-drawn :
        (n : ℕ) (us : List User) → All (λ u. u.id < n) us → All (λ u. u.id < n) (change_rows p f us)
    change_rows-drawn n [] h = tt
    change_rows-drawn n (u ∷ us) h = (ground (arith, keeps_id u, h.0), change_rows-drawn n us h.1)

  -- An update that takes away from no counted row keeps the count.
  change_rows-count :
      ((u : User) → p u ≡ true → counted u ≡ true → counted (f u) ≡ true)
      → (us : List User) → active_admins us ≤ active_admins (change_rows p f us)
  change_rows-count h [] = omega arith
  change_rows-count h (u ∷ us) = ground (arith, change_rows-count h us, h u)

  -- An update of one key takes away at most one.
  change_rows-none :
      (id : ℕ)
      → ((u : User) → p u ≡ true → u.id ≡ id)
      → (us : List User) → exists (same_id id) us ≡ false
      → active_admins (change_rows p f us) ≡ active_admins us
  change_rows-none id h [] e = refl
  change_rows-none id h (u ∷ us) e = ground (arith, h u, change_rows-none id h us)

  change_rows-loses_one :
      (id : ℕ)
      → ((u : User) → p u ≡ true → u.id ≡ id)
      → (us : List User) → DistinctIds us
      → active_admins us ≤ suc (active_admins (change_rows p f us))
  change_rows-loses_one id h [] e = omega arith
  change_rows-loses_one id h (u ∷ us) e = elim (Bool-cases (p u)) [
    | inl taken ↦ rw taken (
        ground (
          arith,
          change_rows-none id h us (subst (λ i. exists (same_id i) us ≡ false) (h u taken) e.0),
        ))
    | inr free ↦ rw free (ground (arith, change_rows-loses_one id h us e.1))
  ]

absent-append :
    (u v : User) (us : List User)
    → v.id < u.id
    → exists (same_id v.id) us ≡ false
    → exists (same_id v.id) (us ++ u ∷ []) ≡ false
absent-append u v [] l h = ground arith
absent-append u v (x ∷ us) l h = ground (arith, absent-append u v us l)

append-DistinctIds :
    (u : User) (us : List User)
    → All (λ v. v.id < u.id) us
    → DistinctIds us
    → DistinctIds (us ++ u ∷ [])
append-DistinctIds u [] h d = (refl, tt)
append-DistinctIds u (v ∷ us) h d = (absent-append u v us h.0 d.0, append-DistinctIds u us h.1 d.1)

append-count : (u : User) (us : List User) → active_admins us ≤ active_admins (us ++ u ∷ [])
append-count u [] = ground arith
append-count u (v ∷ us) = ground (arith, append-count u us)

raise_All : (n : ℕ) (us : List User) → All (λ u. u.id < n) us → All (λ u. u.id < suc n) us
raise_All n [] h = tt
raise_All n (u ∷ us) h = (omega (arith, h.0), raise_All n us h.1)

pub insert_user-HasAdmin :
    (at : ℕ) (u : User) (d : Db) → HasAdmin d → Holds HasAdmin (insert_user at u d)
unfolding insert_user
insert_user-HasAdmin at u d h = if_elim (Holds HasAdmin) (not (known_role u.role)) _ _ tt (
    if_elim (Holds HasAdmin) (exists _ d.users) _ _ tt (record {
      distinct = append-DistinctIds (new_row d.next_id at u) d.users h.drawn h.distinct;
      drawn = All-append _ d.users _ (raise_All d.next_id d.users h.drawn) (omega arith, tt);
      admin = omega (arith, h.admin, append-count (new_row d.next_id at u) d.users);
    }))

-- An update of the users under which the count stays positive.
update_rows-HasAdmin :
    (p : User → Bool) (f : User → User) (d : Db)
    → ((u : User) → (f u).id ≡ u.id)
    → 1 ≤ active_admins (change_rows p f d.users)
    → HasAdmin d
    → Holds HasAdmin (update_rows p f d)
update_rows-HasAdmin p f d k c h = record {
  distinct = change_rows-DistinctIds p f k d.users h.distinct;
  drawn = change_rows-drawn p f k d.next_id d.users h.drawn;
  admin = c;
}

pub update_names-HasAdmin : (u : User) (d : Db) → HasAdmin d → Holds HasAdmin (update_names u d)
unfolding update_names
update_names-HasAdmin u d h =
    let c = change_rows-count (has_id u.id) (with_names u) (λ r _ e. e) d.users in
    update_rows-HasAdmin _ _ d (λ r. refl) (omega (arith, c, h.admin)) h

pub increment_version-HasAdmin :
    (id : ℕ) (d : Db) → HasAdmin d → Holds HasAdmin (increment_version id d)
unfolding increment_version
increment_version-HasAdmin id d h =
    let c = change_rows-count (has_id id) one_version_up (λ r _ e. e) d.users in
    if_elim (Holds HasAdmin) (exists _ d.users) _ _ tt
      (update_rows-HasAdmin _ _ d (λ r. refl) (omega (arith, c, h.admin)) h)

may_update-id : (n : ℕ) (u r : User) → may_update n u r ≡ true → r.id ≡ u.id
may_update-id n u r h = ground arith

may_update-counted :
    (n : ℕ) (u r : User)
    → ltb 1 n ≡ false
    → may_update n u r ≡ true
    → counted r ≡ true
    → counted (with_account u r) ≡ true
may_update-counted n u r few h c = ground arith

-- The guard: with one active admin left no counted row is taken away, with more at most one is.
update_account-admin :
    (u : User) (d : Db)
    → HasAdmin d
    → 1
      ≤ active_admins (change_rows (may_update (active_admins d.users) u) (with_account u) d.users)
update_account-admin u d h =
    let n = active_admins d.users in
    elim (Bool-cases (ltb 1 n)) [
      | inl many ↦ ground (
        arith,
        change_rows-loses_one (may_update n u) (with_account u) u.id (may_update-id n u) d.users
            h.distinct,
      )
      | inr few ↦ omega (
        arith,
        h.admin,
        change_rows-count (may_update n u) (with_account u) (λ r. may_update-counted n u r few)
            d.users,
      )
    ]

pub update_account-HasAdmin : (u : User) (d : Db) → HasAdmin d → Holds HasAdmin (update_account u d)
unfolding update_account
update_account-HasAdmin u d h =
    if_elim (Holds HasAdmin)
      (exists (may_update (active_admins d.users) u) d.users && not (known_role u.role)) _ _ tt
      (update_rows-HasAdmin _ _ d (λ r. refl) (update_account-admin u d h) h)

may_delete-id : (n id : ℕ) (r : User) → may_delete n id r ≡ true → r.id ≡ id
may_delete-id n id r h = ground arith

may_delete-counted :
    (n id at : ℕ) (r : User)
    → ltb 1 n ≡ false
    → may_delete n id r ≡ true
    → counted r ≡ true
    → counted (as_deleted at r) ≡ true
may_delete-counted n id at r few h c = ground arith

delete_user-admin :
    (at id : ℕ) (d : Db)
    → HasAdmin d
    → 1
      ≤ active_admins (change_rows (may_delete (active_admins d.users) id) (as_deleted at) d.users)
delete_user-admin at id d h =
    let n = active_admins d.users in
    elim (Bool-cases (ltb 1 n)) [
      | inl many ↦ ground (
        arith,
        change_rows-loses_one (may_delete n id) (as_deleted at) id (may_delete-id n id) d.users
            h.distinct,
      )
      | inr few ↦ omega (
        arith,
        h.admin,
        change_rows-count (may_delete n id) (as_deleted at) (λ r. may_delete-counted n id at r few)
            d.users,
      )
    ]

pub delete_user-HasAdmin : (at id : ℕ) (d : Db) → HasAdmin d → Holds HasAdmin (delete_user at id d)
unfolding delete_user
delete_user-HasAdmin at id d h =
    update_rows-HasAdmin _ _ d (λ r. refl) (delete_user-admin at id d h) h
