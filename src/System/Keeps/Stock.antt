-- ===== src/System/Keeps/Stock.antt =====
-- Inventory and products write neither orders nor payments.
use go_api_project_template.Prelude.{ℕ, List, [], ◌∷◌, if_elim}
use go_api_project_template.Database.{sql}
use go_api_project_template.Database.Keeps.{Keeps, Holds, Keeps-sql, keeps_rules}
use go_api_project_template.Inventory.Levels.{Quantities, Change, update_levels, fits}
use go_api_project_template.Inventory.Repository as Inventory
use go_api_project_template.Inventory.Service.{StockState, restore, get_availability}
use go_api_project_template.Product.{
  enrich, get_by_ids_including_deleted, get_info_by_ids, get_info,
}
use go_api_project_template.Schema.{OrderRow, PaymentRow, ProductRow, Env}
use go_api_project_template.System.Laws.{Of}

module _ (Q : List OrderRow → List PaymentRow → Type 0) (env : Env) where
  lock-Keeps : Keeps (Of Q) (Inventory.lock_levels env)
  unfolding Inventory.lock_levels
  lock-Keeps = search keeps_rules

  batch-Keeps : (c : Change) (m : Quantities) → Keeps (Of Q) (sql env.fault (Inventory.batch c m))
  unfolding Inventory.batch
  batch-Keeps c m =
      Keeps-sql env.fault _
        (λ d h. if_elim (Holds (Of Q)) (fits (update_levels c m d.levels).0) _ _ h tt)

  restock_batch-Keeps : (m : Quantities) → Keeps (Of Q) (Inventory.restock_batch env m)
  unfolding Inventory.restock_batch
  restock_batch-Keeps [] = search keeps_rules
  restock_batch-Keeps (i ∷ m) = search (keeps_rules, lock-Keeps, batch-Keeps)

  pub reserve-Keeps : (m : Quantities) → Keeps (Of Q) (Inventory.reserve env m)
  unfolding Inventory.reserve
  reserve-Keeps [] = search keeps_rules
  reserve-Keeps (i ∷ m) = search (keeps_rules, lock-Keeps, batch-Keeps)

  pub deduct-Keeps : (m : Quantities) → Keeps (Of Q) (Inventory.deduct env m)
  unfolding Inventory.deduct
  deduct-Keeps [] = search keeps_rules
  deduct-Keeps (i ∷ m) = search (keeps_rules, lock-Keeps, batch-Keeps)

  release_batch-Keeps : (m : Quantities) → Keeps (Of Q) (Inventory.release_batch env m)
  unfolding Inventory.release_batch
  release_batch-Keeps [] = search keeps_rules
  release_batch-Keeps (i ∷ m) = search (keeps_rules, lock-Keeps, batch-Keeps)

  pub restore-Keeps : (m : Quantities) (s : StockState) → Keeps (Of Q) (restore env m s)
  unfolding restore
  restore-Keeps m StockState.stock_deducted = restock_batch-Keeps m
  restore-Keeps m StockState.stock_reserved = release_batch-Keeps m

  get_availability-Keeps : (ids : List ℕ) → Keeps (Of Q) (get_availability env ids)
  unfolding get_availability Inventory.get_levels
  get_availability-Keeps [] = search keeps_rules
  get_availability-Keeps (i ∷ ids) = search keeps_rules

  enrich-Keeps : (ps : List ProductRow) → Keeps (Of Q) (enrich env ps)
  unfolding enrich
  enrich-Keeps [] = search keeps_rules
  enrich-Keeps (p ∷ ps) = search (keeps_rules, get_availability-Keeps)

  by_ids-Keeps : (ids : List ℕ) → Keeps (Of Q) (get_by_ids_including_deleted env ids)
  unfolding get_by_ids_including_deleted
  by_ids-Keeps [] = search keeps_rules
  by_ids-Keeps (i ∷ ids) = search keeps_rules

  pub get_info_by_ids-Keeps : (ids : List ℕ) → Keeps (Of Q) (get_info_by_ids env ids)
  unfolding get_info_by_ids
  get_info_by_ids-Keeps ids = search (keeps_rules, enrich-Keeps, by_ids-Keeps)

  pub get_info-Keeps : (id : ℕ) → Keeps (Of Q) (get_info env id)
  unfolding get_info
  get_info-Keeps id = search (keeps_rules, get_availability-Keeps)

pub ruleset stock_rules =
    (reserve-Keeps, deduct-Keeps, restore-Keeps, get_info_by_ids-Keeps, get_info-Keeps)
