-- ===== src/Inventory/Batches.antt =====
-- What the four batch operations of the inventory repository report, and what they leave in the
-- tables.
use go_api_project_template.Prelude.{
  ℕ, ◌+◌, ◌≡◌, refl, ap, ◌∙◌, Bool, true, false, ◌&&◌, Option, none, some, List, [], ◌∷◌, leb, ◌==◌,
  length, if◌then◌else◌,
}
use go_api_project_template.Errs.{Err, Result, ok, err}
use go_api_project_template.Database.{World, pure, raise, sql, ◌>>=◌, ◌>>◌}
use go_api_project_template.Inventory.Levels.{
  Level, Quantities, Change, update_levels, fits, find_level, reserving, deducting, releasing,
  restocking,
}
use go_api_project_template.Inventory.Repository.{
  lock_levels, batch, reserve, deduct, release_batch, restock_batch,
}
use go_api_project_template.Inventory.Counts.{
  one_row_each, one_entry_each, serves, all_served, update_levels-all_served,
}
use go_api_project_template.Schema.{Db, Env}

-- The two statements of a batch operation succeed.
pub record Undisturbed (env : Env) (w : World Db) : Type 0 where
  pub healthy : w.aborted ≡ false
  pub first : env.fault w.tick ≡ false
  pub second : env.fault (w.tick + 1) ≡ false

abbrev pub written : Change → Quantities → World Db → World Db
written c m w = record w {
  db = record w.db { levels = (update_levels c m w.db.levels).0 };
  tick = w.tick + 1 + 1;
}

verdict_eq :
    (b : Bool) (e : Err) (w : World Db)
    → (if b then pure tt else raise e) w ≡ (if b then ok tt else err e, w)
unfolding pure raise
verdict_eq true e w = refl
verdict_eq false e w = refl

-- The stock of a product reaches a quantity.
abbrev enough : (Level → ℕ) → ℕ → Option Level → Bool
enough count n none = false
enough count n (some l) = leb n (count l)

-- It does for every product of the map.
abbrev pub all_enough : (Level → ℕ) → List Level → Quantities → Bool
all_enough count ls [] = true
all_enough count ls ((p, n) ∷ m) = enough count n (find_level p ls) && all_enough count ls m

abbrev pub free : Level → ℕ
free l = l.available

abbrev pub set_aside : Level → ℕ
set_aside l = l.reserved

serves-reserving : (n : ℕ) (o : Option Level) → serves reserving n o ≡ enough free n o
serves-reserving n none = refl
serves-reserving n (some l) = refl

serves-deducting : (n : ℕ) (o : Option Level) → serves deducting n o ≡ enough set_aside n o
serves-deducting n none = refl
serves-deducting n (some l) = refl

serves-releasing : (n : ℕ) (o : Option Level) → serves releasing n o ≡ enough set_aside n o
serves-releasing n none = refl
serves-releasing n (some l) = refl

all_served-enough :
    (c : Change) (count : Level → ℕ) (ls : List Level)
    → ((n : ℕ) (o : Option Level) → serves c n o ≡ enough count n o)
    → (m : Quantities) → all_served c ls m ≡ all_enough count ls m
all_served-enough c count ls h [] = refl
all_served-enough c count ls h ((p, n) ∷ m) =
    rw (h n (find_level p ls), all_served-enough c count ls h m) refl

-- No count that a batch update leaves is past the range of an INT column.
pub record InRange (m : Quantities) (ls : List Level) : Type 0 where
  pub reserve_fits : fits (update_levels reserving m ls).0 ≡ true
  pub deduct_fits : fits (update_levels deducting m ls).0 ≡ true
  pub release_fits : fits (update_levels releasing m ls).0 ≡ true
  pub restock_fits : fits (update_levels restocking m ls).0 ≡ true

module _ (env : Env) (i : ℕ × ℕ) (items : Quantities) (w : World Db) (u : Undisturbed env w)
    (k : one_row_each w.db.levels ≡ true) (d : one_entry_each (i ∷ items) ≡ true) where
  -- The lock, the update and the test on the number of rows.
  counted : Change → Err → Result (Unit {0}) × World Db
  counted c e =
      (do
        lock_levels env
        n ← sql env.fault (batch c (i ∷ items))
        if n == length (i ∷ items) then pure tt else raise e)
        w

  counted_eq :
      (c : Change) (e : Err)
      → fits (update_levels c (i ∷ items) w.db.levels).0 ≡ true
      → counted c e
        ≡ (if all_served c w.db.levels (i ∷ items) then ok tt else err e, written c (i ∷ items) w)
  unfolding counted lock_levels sql ◌>>=◌ pure raise batch
  counted_eq c e f =
      let test = update_levels-all_served c (i ∷ items) w.db.levels k d in
      rw (u.healthy, u.first, u.second, f, test)
        (verdict_eq (all_served c w.db.levels (i ∷ items)) e
          (written c (i ∷ items) (record w { aborted = false })))

  reserve_eq :
      fits (update_levels reserving (i ∷ items) w.db.levels).0 ≡ true
      → reserve env (i ∷ items) w ≡ (
        if all_enough free w.db.levels (i ∷ items) then ok tt else err Err.insufficient_stock,
        written reserving (i ∷ items) w,
      )
  unfolding reserve counted lock_levels
  reserve_eq f =
      counted_eq reserving Err.insufficient_stock f
      ∙ ap
          (λ (b : Bool).
            (if b then ok tt else err Err.insufficient_stock, written reserving (i ∷ items) w))
          (all_served-enough reserving free w.db.levels serves-reserving (i ∷ items))

  pub deduct_eq :
      fits (update_levels deducting (i ∷ items) w.db.levels).0 ≡ true
      → deduct env (i ∷ items) w ≡ (
        if all_served deducting w.db.levels (i ∷ items) then ok tt else err Err.bad_request,
        written deducting (i ∷ items) w,
      )
  unfolding deduct counted lock_levels
  deduct_eq f = counted_eq deducting Err.bad_request f

  release_batch_eq :
      fits (update_levels releasing (i ∷ items) w.db.levels).0 ≡ true
      → release_batch env (i ∷ items) w ≡ (
        if all_enough set_aside w.db.levels (i ∷ items) then ok tt else err Err.bad_request,
        written releasing (i ∷ items) w,
      )
  unfolding release_batch counted lock_levels
  release_batch_eq f =
      counted_eq releasing Err.bad_request f
      ∙ ap
          (λ (b : Bool).
            (if b then ok tt else err Err.bad_request, written releasing (i ∷ items) w))
          (all_served-enough releasing set_aside w.db.levels serves-releasing (i ∷ items))

restock_batch_eq :
    (env : Env) (i : ℕ × ℕ) (items : Quantities) (w : World Db)
    → Undisturbed env w
    → fits (update_levels restocking (i ∷ items) w.db.levels).0 ≡ true
    → restock_batch env (i ∷ items) w ≡ (ok tt, written restocking (i ∷ items) w)
unfolding restock_batch lock_levels sql ◌>>=◌ pure batch
restock_batch_eq env i items w u f = rw (u.healthy, u.first, u.second, f) refl

-- Where the two statements of a call succeed, each product has one row and one entry, and no count
-- leaves the range of its column: `Reserve` reports insufficient stock unless every product of the map
-- has its quantity free, `Deduct` and `ReleaseBatch` report a bad request unless every product has its
-- quantity reserved, and `RestockBatch` succeeds, for products without a row too; each of them writes
-- the rows that its condition allows, also when it reports an error.
pub batches_eq :
    (env : Env) (i : ℕ × ℕ) (items : Quantities) (w : World Db)
    → Undisturbed env w
    → one_row_each w.db.levels ≡ true
    → one_entry_each (i ∷ items) ≡ true
    → InRange (i ∷ items) w.db.levels
    → let m = i ∷ items in
      let reserved = all_enough set_aside w.db.levels m in
      (reserve env m w ≡ (
        if all_enough free w.db.levels m then ok tt else err Err.insufficient_stock,
        written reserving m w,
      ))
      × (deduct env m w ≡ (if reserved then ok tt else err Err.bad_request, written deducting m w))
      × (release_batch env m w
          ≡ (if reserved then ok tt else err Err.bad_request, written releasing m w))
      × (restock_batch env m w ≡ (ok tt, written restocking m w))
batches_eq env i items w u k d r = (
  reserve_eq env i items w u k d r.reserve_fits,
  deduct_eq env i items w u k d r.deduct_fits
      ∙ ap
          (λ (b : Bool).
            (if b then ok tt else err Err.bad_request, written deducting (i ∷ items) w))
          (all_served-enough deducting set_aside w.db.levels serves-deducting (i ∷ items)),
  release_batch_eq env i items w u k d r.release_fits,
  restock_batch_eq env i items w u r.restock_fits,
)
