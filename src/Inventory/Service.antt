-- ===== src/Inventory/Service.antt =====
-- internal/features/inventory/service.go and contract.go: the service passes each call on to the
-- repository, and `Restore` chooses between the two ways to give stock back. (The repository's other
-- methods are the service's, under the same names.)
use go_api_project_template.Prelude.{ℕ, Bool, true, false, List, map}
use go_api_project_template.Database.{pure, ◌>>=◌}
use go_api_project_template.Inventory.Levels.{Quantities}
use go_api_project_template.Inventory.Repository.{Stock, get_levels, release_batch, restock_batch}
use go_api_project_template.Schema.{Env, Action}

pub data StockState : Type 0 where
  stock_reserved stock_deducted : StockState

unfoldable pub stock_state_of : Bool → StockState
stock_state_of true = StockState.stock_deducted
stock_state_of false = StockState.stock_reserved

pub record Availability : Type 0 where
  pub product_id : ℕ
  pub on_hand : ℕ
  pub available : ℕ

abbrev availability : Stock → Availability
availability s = record { product_id = s.product_id; on_hand = s.quantity; available = s.available }

module _ (env : Env) where
  unfoldable pub get_availability : List ℕ → Action (List Availability)
  get_availability ids = do levels ← get_levels env ids; pure (map availability levels)

  unfoldable pub restore : Quantities → StockState → Action (Unit {0})
  restore items StockState.stock_deducted = restock_batch env items
  restore items StockState.stock_reserved = release_batch env items
