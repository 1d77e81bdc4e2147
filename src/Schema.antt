-- ===== src/Schema.antt =====
-- The tables of db/migrations that the modelled handlers read and write, with the columns they use,
-- and the environment: everything that the program calls and does not implement.
-- A primary key that the database draws (`DEFAULT uuidv7()`) is the next number of a counter.
-- `NOW()` and `time.Now()` are a clock that is read at a statement count.
use go_api_project_template.Prelude.{ℕ, String, Bool, Option, List}
use go_api_project_template.Prelude.Int.{ℤ}
use go_api_project_template.Errs.{ok}
use go_api_project_template.Database.{Exec}
use go_api_project_template.Database.Keeps.{Keeps}
use go_api_project_template.Order.Domain.{Status, Address}
use go_api_project_template.Payment.Domain.{PaymentStatus}
use go_api_project_template.Payment.Gateway.{
  GatewayChargeRequest, GatewayChargeResponse, GatewayRefundRequest, GatewayRefundResponse,
}
use go_api_project_template.Inventory.Levels.{Level}
use go_api_project_template.Promotion.Domain.{Promotion, CouponUsage}
use go_api_project_template.User.Domain.{User}
use go_api_project_template.Category.Domain.{Category}

pub record OrderRow : Type 0 where
  pub id : ℕ
  pub user_id : ℕ
  pub idempotency_key : String
  pub request_hash : String
  pub status : Status
  pub subtotal_amount : ℤ
  pub discount_amount : ℤ
  pub total_amount : ℤ
  pub coupon_code : Option String
  pub currency : String
  pub shipping_address : Option Address
  pub billing_address : Option Address
  pub notes : String
  pub stock_deducted : Bool
  pub stock_reversed : Bool
  pub created_at : ℕ
  pub updated_at : ℕ

pub record ItemRow : Type 0 where
  pub id : ℕ
  pub order_id : ℕ
  pub product_id : ℕ
  pub product_name : String
  pub price : ℤ
  pub quantity : ℕ
  pub subtotal : ℤ

pub record PaymentRow : Type 0 where
  pub id : ℕ
  pub order_id : ℕ
  pub amount : ℤ
  pub currency : String
  pub status : PaymentStatus
  pub payment_method_id : Option String
  pub payment_url : Option String
  pub gateway_txn_id : Option String
  pub gateway_response : Option GatewayChargeResponse
  pub paid_at : Option ℕ
  pub created_at : ℕ

-- The arguments of a `payment.refund` job.
pub record RefundJob : Type 0 where
  pub payment_id : ℕ
  pub order_id : ℕ

pub record CartRow : Type 0 where
  pub id : ℕ
  pub user_id : ℕ

pub record CartItemRow : Type 0 where
  pub cart_id : ℕ
  pub product_id : ℕ
  pub quantity : ℕ

pub record ProductRow : Type 0 where
  pub id : ℕ
  pub name : String
  pub price : ℤ
  pub currency : String
  pub status : String
  pub deleted : Bool
  pub category_id : Option ℕ
  pub slug : List ℕ
  pub description : Option String
  pub compare_at_price : Option ℤ
  pub sku : Option String
  pub created_at : ℕ

pub record ReviewRow : Type 0 where
  pub id : ℕ
  pub user_id : ℕ
  pub product_id : ℕ
  pub order_id : ℕ
  pub rating : ℕ
  pub title : String
  pub body : String
  pub status : String
  pub created_at : ℕ

pub record ImageRow : Type 0 where
  pub id : ℕ
  pub product_id : ℕ
  pub url : String
  pub alt_text : Option String
  pub sort_order : ℤ
  pub created_at : ℕ

pub record NotificationRow : Type 0 where
  pub id : ℕ
  pub user_id : ℕ
  pub title : String

pub data ShipmentStatus : Type 0 where
  pending shipped in_transit delivered returned : ShipmentStatus

pub record Shipment : Type 0 where
  pub id : ℕ
  pub order_id : ℕ
  pub carrier : String
  pub tracking_number : String
  pub status : ShipmentStatus
  pub shipped_at : Option ℕ
  pub delivered_at : Option ℕ

pub record Db : Type 0 where
  pub users : List User
  pub categories : List Category
  pub orders : List OrderRow
  pub order_items : List ItemRow
  pub payments : List PaymentRow
  pub refund_jobs : List RefundJob
  pub levels : List Level
  pub promotions : List Promotion
  pub usages : List CouponUsage
  pub carts : List CartRow
  pub cart_items : List CartItemRow
  pub products : List ProductRow
  pub images : List ImageRow
  pub reviews : List ReviewRow
  pub notifications : List NotificationRow
  pub send_jobs : List ℕ
  pub shipments : List Shipment
  pub next_id : ℕ

-- The fields of a webhook's JSON that the program looks at: a missing or mistyped text is empty, and
-- a payment id that is missing or does not parse is `none`.
pub record WebhookBody : Type 0 where
  pub event : String
  pub payment_id : Option ℕ
  pub transaction_id : String

pub record Env : Type 0 where
  -- Whether the n-th statement or commit fails.
  pub fault : ℕ → Bool
  pub now : ℕ → ℕ
  -- `int64(math.Floor(float64(subtotal) * float64(value) / 100.0))`.
  pub percent : ℤ → ℤ → ℤ
  -- The payment gateway; `none` is an error.
  pub gateway_charge : ℕ → GatewayChargeRequest → Option GatewayChargeResponse
  pub gateway_refund : ℕ → GatewayRefundRequest → Option GatewayRefundResponse
  -- The job queue: an insert, which may find a job with the same arguments.
  pub insert_refund_job : RefundJob → List RefundJob → List RefundJob
  -- `JobList` of the jobs of an order that have not run, and `JobCancel` of one job.
  pub list_refund_jobs : ℕ → List RefundJob → List ℕ
  pub cancel_refund_job : ℕ → List RefundJob → List RefundJob
  pub insert_send_job : ℕ → List ℕ → List ℕ
  -- The hexadecimal HMAC-SHA256 of a body under a secret.
  pub hmac : String → String → String
  pub parse_webhook : String → Option WebhookBody
  pub webhook_secret : String
  pub max_cart_items : ℕ

-- A handler of the program.
abbrev pub Action : Type 0 → Type 0
Action A = Exec Db A

-- `time.Now()`, and `NOW()` of the statement that comes next.
unfoldable pub clock : Env → Action ℕ
clock env w = (ok (env.now w.tick), w)

pub Keeps-clock : (P : Db → Type 0) (env : Env) → Keeps P (clock env)
unfolding clock
Keeps-clock P env = record { at = λ w h. h }
