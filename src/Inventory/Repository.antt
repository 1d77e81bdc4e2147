-- ===== src/Inventory/Repository.antt =====
-- internal/features/inventory/adapter/postgres/repository.go. `Reserve`, `Deduct` and
-- `ReleaseBatch` lock the rows, run one UPDATE, and compare the number of rows it wrote with the number
-- of products; `RestockBatch` does not compare them.
use go_api_project_template.Prelude.{
  ℕ, ◌+◌, ◌-◌, Option, none, some, List, [], ◌∷◌, ◌++◌, leb, ◌==◌, length, contains, if◌then◌else◌,
}
use go_api_project_template.Errs.{Err}
use go_api_project_template.Database.{
  Outcome, done, violation, sql, pure, raise, or_raise, ◌>>=◌, ◌>>◌,
}
use go_api_project_template.Inventory.Levels.{
  Level, Quantities, Change, update_levels, fits, find_level, reserving, deducting, releasing,
  restocking, int_max,
}
use go_api_project_template.Schema.{Db, Env, Action}

pub record Stock : Type 0 where
  pub product_id : ℕ
  pub quantity : ℕ
  pub reserved : ℕ
  pub available : ℕ

unfoldable pub stock_from : Level → Stock
stock_from l = record {
  product_id = l.product_id;
  quantity = l.available + l.reserved;
  reserved = l.reserved;
  available = l.available;
}

-- The UPDATE of a batch operation; past the range of its columns it fails.
unfoldable pub batch : Change → Quantities → Db → Outcome Db ℕ
batch c m d =
    let (rows, n) = update_levels c m d.levels in
    if fits rows then done n (record d { levels = rows }) else violation Err.internal

abbrev put_level : Level → List Level → List Level
put_level l [] = l ∷ []
put_level l (k ∷ ks) = if k.product_id == l.product_id then l ∷ ks else k ∷ put_level l ks

abbrev adjusted : ℕ → ℕ → Option Level → Option Level
adjusted p n none = some (record { product_id = p; available = n; reserved = 0 })
adjusted p n (some l) =
    if leb l.reserved n then some (record l { available = n - l.reserved }) else none

abbrev store : Option Level → Db → Outcome Db (Option Level)
store none d = done none d
store (some l) d =
    if leb l.available int_max
    then done (some l) (record d { levels = put_level l d.levels })
    else violation Err.internal

abbrev restocked : ℕ → Option Level → Option Level
restocked n none = none
restocked n (some l) = some (record l { available = l.available + n })

abbrev ensured : ℕ → Option Level → List Level → List Level
ensured p none ls = ls ++ (record { product_id = p; available = 0; reserved = 0 }) ∷ []
ensured p (some l) ls = ls

abbrev among_ids : List ℕ → List Level → List Stock
among_ids ids [] = []
among_ids ids (l ∷ ls) =
    if contains ids l.product_id then stock_from l ∷ among_ids ids ls else among_ids ids ls

module _ (env : Env) where
  -- `INSERT ... ON CONFLICT DO UPDATE ... WHERE reserved_stock <= $2 RETURNING`.
  unfoldable pub adjust_stock : ℕ → ℕ → Action Stock
  adjust_stock p n = do
    row ← sql env.fault (λ (d : Db). store (adjusted p n (find_level p d.levels)) d)
    l ← or_raise Err.bad_request row
    pure (stock_from l)

  unfoldable pub restock : ℕ → ℕ → Action Stock
  restock p n = do
    row ← sql env.fault (λ (d : Db). store (restocked n (find_level p d.levels)) d)
    l ← or_raise Err.not_found row
    pure (stock_from l)

  unfoldable pub ensure_level : ℕ → Action (Unit {0})
  ensure_level p =
      sql env.fault
        (λ (d : Db). done tt (record d { levels = ensured p (find_level p d.levels) d.levels }))

  unfoldable pub get_stock : ℕ → Action Stock
  get_stock p = do
    row ← sql env.fault (λ (d : Db). done (find_level p d.levels) d)
    l ← or_raise Err.not_found row
    pure (stock_from l)

  unfoldable pub get_levels : List ℕ → Action (List Stock)
  get_levels [] = pure []
  get_levels (i ∷ ids) = sql env.fault (λ (d : Db). done (among_ids (i ∷ ids) d.levels) d)

  -- `lockLevels`: the rows stay as they are.
  unfoldable pub lock_levels : Action (Unit {0})
  lock_levels = sql env.fault (λ (d : Db). done tt d)

  unfoldable pub reserve : Quantities → Action (Unit {0})
  unfolding lock_levels
  reserve [] = pure tt
  reserve (i ∷ items) = do
    lock_levels
    n ← sql env.fault (batch reserving (i ∷ items))
    if n == length (i ∷ items) then pure tt else raise Err.insufficient_stock

  unfoldable pub deduct : Quantities → Action (Unit {0})
  unfolding lock_levels
  deduct [] = pure tt
  deduct (i ∷ items) = do
    lock_levels
    n ← sql env.fault (batch deducting (i ∷ items))
    if n == length (i ∷ items) then pure tt else raise Err.bad_request

  unfoldable pub release_batch : Quantities → Action (Unit {0})
  unfolding lock_levels
  release_batch [] = pure tt
  release_batch (i ∷ items) = do
    lock_levels
    n ← sql env.fault (batch releasing (i ∷ items))
    if n == length (i ∷ items) then pure tt else raise Err.bad_request

  -- The one batch operation that does not count the rows.
  unfoldable pub restock_batch : Quantities → Action (Unit {0})
  unfolding lock_levels
  restock_batch [] = pure tt
  restock_batch (i ∷ items) = do lock_levels; sql env.fault (batch restocking (i ∷ items)); pure tt
