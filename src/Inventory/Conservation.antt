-- ===== src/Inventory/Conservation.antt =====
-- Reserving stock and giving it back, in internal/features/inventory/adapter/postgres/repository.go.
use go_api_project_template.Prelude.{
  ℕ, ◌≡◌, refl, ◌∙◌, inl, inr, true, some, List, [], ◌∷◌, leb, ◌==◌, Bool-cases, Option-cases,
  arith, ap, ==→eq, length, if◌then◌else◌,
}
use go_api_project_template.Errs.{Err}
use go_api_project_template.Database.{World, pure, raise, sql, ◌>>=◌, ◌>>◌}
use go_api_project_template.Database.Keeps.{Keeps, Holds, Keeps-sql, keeps_rules, Keeps-bind}
use go_api_project_template.Inventory.Levels.{
  Level, Quantities, quantity_of, Change, touch, update_levels, reserving, releasing, find_level,
  fits,
}
use go_api_project_template.Inventory.Counts.{serves, all_served}
use go_api_project_template.Inventory.Laws.{
  held, reserving-held, releasing-held, find_level-update, touch-product, touched, batch_reserve,
  batch_release,
}
use go_api_project_template.Inventory.Repository.{lock_levels, batch, reserve, release_batch}
use go_api_project_template.Schema.{Db, Env}

-- The stock in all, free or reserved.
abbrev pub Held : ℕ → Db → Type 0
Held n d = held d.levels ≡ n

module _ (env : Env) (n : ℕ) (c : Change)
    (keeps : (m : Quantities) (ls : List Level) → held (update_levels c m ls).0 ≡ held ls) where
  batch-Held : (m : Quantities) (d : Db) → Held n d → Holds (Held n) (batch c m d)
  unfolding batch
  batch-Held m d h = elim (Bool-cases (fits (update_levels c m d.levels).0)) [
    | inl good ↦ rw good (keeps m d.levels ∙ h)
    | inr bad ↦ rw bad tt
  ]

  counted-Held :
      (e : Err) (m : Quantities)
      → Keeps (Held n) (do
        lock_levels env
        k ← sql env.fault (batch c m)
        if k == length m then pure tt else raise e)
  unfolding lock_levels
  counted-Held e m =
      Keeps-bind _ _ (search keeps_rules)
        (λ u. Keeps-bind _ _ (Keeps-sql env.fault _ (batch-Held m)) (λ k. search keeps_rules))

module _ (env : Env) (n : ℕ) where
  reserve-Held : (m : Quantities) → Keeps (Held n) (reserve env m)
  unfolding reserve lock_levels
  reserve-Held [] = search keeps_rules
  reserve-Held (i ∷ items) =
      counted-Held env n reserving reserving-held Err.insufficient_stock (i ∷ items)

  release_batch-Held : (m : Quantities) → Keeps (Held n) (release_batch env m)
  unfolding release_batch lock_levels
  release_batch-Held [] = search keeps_rules
  release_batch-Held (i ∷ items) =
      counted-Held env n releasing releasing-held Err.bad_request (i ∷ items)

-- Reserving stock for an order and releasing it again move stock between the free and the reserved
-- counts only: the sum of both over all products stays what it was, whether the call succeeds, finds
-- too little stock or meets a failing statement.
pub reserve-release-held :
    (env : Env) (m : Quantities) (w : World Db)
    → (held (reserve env m w).1.db.levels ≡ held w.db.levels)
      × (held (release_batch env m w).1.db.levels ≡ held w.db.levels)
reserve-release-held env m w =
    ((reserve-Held env _ m).at w refl, (release_batch-Held env _ m).at w refl)

-- An entry of a map that is served.
all_served-entry :
    (c : Change) (ls : List Level) (m : Quantities) (p n : ℕ)
    → all_served c ls m ≡ true
    → quantity_of p m ≡ some n
    → serves c n (find_level p ls) ≡ true
all_served-entry c ls [] p n h e = ground arith
all_served-entry c ls ((q, k) ∷ m) p n h e = elim (Bool-cases (q == p)) [
  | inl same ↦ here (==→eq q p same) (rw same at e) (ground arith)
  | inr other ↦ all_served-entry c ls m p n (ground arith) (rw other at e)
]
  where
    here :
        q ≡ p
        → some k ≡ some n
        → serves c k (find_level q ls) ≡ true
        → serves c n (find_level p ls) ≡ true
    here a b s = cc

find_level-product :
    (p : ℕ) (ls : List Level) {l : Level} → find_level p ls ≡ some l → l.product_id ≡ p
find_level-product p [] e = ground arith
find_level-product p (k ∷ ks) {l} e = elim (Bool-cases (k.product_id == p)) [
  | inl this ↦ head_product (==→eq k.product_id p this) (rw this at e)
  | inr other ↦ find_level-product p ks (rw other at e)
]
  where
    head_product : k.product_id ≡ p → some k ≡ some l → l.product_id ≡ p
    head_product a b = cc

touch_back :
    (l : Level) (n : ℕ)
    → leb n l.available ≡ true
    → (touch releasing (touch reserving l (some n)).0 (some n)).0 ≡ l
touch_back l n h = ground arith

guarded_row :
    (ls : List Level) (m : Quantities) (p : ℕ) (l : Level) (n : ℕ)
    → all_served reserving ls m ≡ true
    → find_level p ls ≡ some l
    → quantity_of l.product_id m ≡ some n
    → leb n l.available ≡ true
guarded_row ls m p l n h found entry =
    let this = find_level-product p ls found in
    let ok = all_served-entry reserving ls m p n h (rw this at entry) in rw found at ok

touched_back :
    (ls : List Level) (m : Quantities) (p : ℕ)
    → all_served reserving ls m ≡ true
    → touched releasing m (touched reserving m (find_level p ls)) ≡ find_level p ls
touched_back ls m p h = elim (Option-cases (find_level p ls)) [
  | inl absent ↦ rw absent refl
  | inr (l, found) ↦ rw found (row l found)
]
  where
    row :
        (l : Level)
        → find_level p ls ≡ some l
        → touched releasing m (touched reserving m (some l)) ≡ some l
    row l found = elim (Option-cases (quantity_of l.product_id m)) [
      | inl absent ↦ rw (absent, absent) refl
      | inr (n, entry) ↦
          rw (entry, touch-product batch_reserve l (some n), entry)
            (ap some (touch_back l n (guarded_row ls m p l n h found entry)))
    ]

-- If every product of a map has the stock to be reserved, then reserving it and releasing it again
-- leaves the row of each product, in the map or not, as it was.
pub reserve-release-roundtrip :
    (m : Quantities) (ls : List Level) (p : ℕ)
    → all_served reserving ls m ≡ true
    → find_level p (update_levels releasing m (update_levels reserving m ls).0).0 ≡ find_level p ls
reserve-release-roundtrip m ls p h =
    find_level-update batch_release m p (update_levels reserving m ls).0
    ∙ ap (touched releasing m) (find_level-update batch_reserve m p ls)
    ∙ touched_back ls m p h
