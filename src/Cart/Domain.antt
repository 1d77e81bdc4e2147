-- ===== src/Cart/Domain.antt =====
-- internal/features/cart/domain/cart.go and contract.go.
use go_api_project_template.Prelude.{
  ℕ, String, Bool, Option, none, some, List, [], ◌∷◌, str_eq, if◌then◌else◌,
}
use go_api_project_template.Prelude.Int.{pos}
use go_api_project_template.Errs.{Err, Result, ok, err}
use go_api_project_template.Money
use go_api_project_template.Money.{Money}

pub record Product : Type 0 where
  pub name : String
  pub price : Money
  pub stock : ℕ
  pub status : String

pub record Item : Type 0 where
  pub product_id : ℕ
  pub quantity : ℕ
  pub product : Option Product

-- `id` is `none` where the user has no cart row (`uuid.Nil` in the program).
pub record Cart : Type 0 where
  pub id : Option ℕ
  pub user_id : ℕ
  pub items : List Item

abbrev pub sellable : Product → Bool
sellable p = str_eq p.status "published"

-- The sum so far: `none` before the first sellable item gives the currency.
abbrev seed : Option Money → Product → Money
seed none p = Money.new (pos 0) p.price.currency
seed (some total) p = total

abbrev mixed : Result Money → Result (Option Money)
mixed (ok m) = ok (some m)
mixed (err e) = err Err.mixed_currencies

-- One round of the loop of `Total`.
unfoldable pub add_item : Option Money → Item → Option Product → Result (Option Money)
add_item total it none = ok total
add_item total it (some p) =
    if sellable p
    then mixed (Money.add (seed total p) (Money.mul_qty p.price it.quantity))
    else ok total

abbrev or_zero : Option Money → Money
or_zero none = Money.new (pos 0) ""
or_zero (some m) = m

unfoldable pub total_from : Option Money → List Item → Result Money
total_from acc [] = ok (or_zero acc)
total_from acc (it ∷ its) = elim (add_item acc it it.product) [
  | ok acc' ↦ total_from acc' its
  | err e ↦ err e
]

-- `Cart.Total`.
unfoldable pub total : Cart → Result Money
total c = total_from none c.items

-- `cart.Snapshot`: what other modules see.
pub record SnapshotItem : Type 0 where
  pub product_id : ℕ
  pub quantity : ℕ
  pub name : String
  pub price : Money
  pub status : String
