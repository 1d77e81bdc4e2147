-- ===== src/Tests/Sample.antt =====
-- A small world and an environment in which no statement fails.
use go_api_project_template.Prelude.{◌+◌, ◌==◌, true, false, none, some, List, [], ◌∷◌}
use go_api_project_template.Prelude.Int.{pos}
use go_api_project_template.Database.{World}
use go_api_project_template.Order.Domain.{Status, Order, NewOrder}
use go_api_project_template.Payment.Domain.{PaymentStatus}
use go_api_project_template.Inventory.Levels.{Level, Quantities}
use go_api_project_template.Promotion.Domain.{Kind, Promotion}
use go_api_project_template.Cart.Domain.{SnapshotItem}
use go_api_project_template.Checkout.{PlaceOrderInput}
use go_api_project_template.User.Domain.{User}
use go_api_project_template.Category.Domain.{Category}
use go_api_project_template.Schema.{OrderRow, PaymentRow, Db, Env}
use go_api_project_template.System.Requests.{Request}

abbrev pub calm : Env
calm = record {
  fault = λ n. false;
  now = λ n. 1000 + n;
  percent = λ s v. pos 100;
  gateway_charge =
      λ n r. some (record { transaction_id = "tx"; status = "success"; payment_url = "" });
  gateway_refund = λ n r. some (record { refund_id = "re"; status = "success" });
  insert_refund_job = λ j js. j ∷ js;
  list_refund_jobs = λ o js. [];
  cancel_refund_job = λ id js. js;
  insert_send_job = λ j js. j ∷ js;
  hmac = λ s b. "signature";
  parse_webhook =
      λ b. some (record { event = "success"; payment_id = some 5; transaction_id = "" });
  webhook_secret = "secret";
  max_cart_items = 3;
}

-- The fourth statement of a run from the start fails.
abbrev pub fourth_fails : Env
fourth_fails = record calm { fault = λ n. n == 3 }

abbrev pub open_order : OrderRow
open_order = record {
  id = 1;
  user_id = 7;
  idempotency_key = "key";
  request_hash = "";
  status = Status.awaiting_payment;
  subtotal_amount = pos 500;
  discount_amount = pos 0;
  total_amount = pos 500;
  coupon_code = none;
  currency = "USD";
  shipping_address = none;
  billing_address = none;
  notes = "";
  stock_deducted = false;
  stock_reversed = false;
  created_at = 10;
  updated_at = 10;
}

abbrev pub refunded_order : OrderRow
refunded_order = record open_order {
  id = 2;
  idempotency_key = "other";
  status = Status.refunded;
  stock_deducted = true;
  stock_reversed = true;
}

abbrev pub pending_payment : PaymentRow
pending_payment = record {
  id = 5;
  order_id = 1;
  amount = pos 500;
  currency = "USD";
  status = PaymentStatus.pending;
  payment_method_id = none;
  payment_url = none;
  gateway_txn_id = none;
  gateway_response = none;
  paid_at = none;
  created_at = 11;
}

abbrev pub shelf : List Level
shelf =
    (record { product_id = 3; available = 10; reserved = 2 })
    ∷ (record { product_id = 4; available = 1; reserved = 0 })
    ∷ []

abbrev pub two_products : Quantities
two_products = (3, 4) ∷ (4, 1) ∷ []

abbrev pub sale : Promotion
sale = record {
  id = 9;
  code = "SALE";
  type = Kind.percentage;
  value = pos 20;
  min_order_amount = pos 0;
  max_discount = none;
  max_uses = some 1;
  used_count = 0;
  starts_at = 0;
  expires_at = 5000;
  active = true;
}

abbrev pub admin_row : User
admin_row = record {
  id = 40;
  email = "admin@example.com";
  password_hash = [];
  first_name = "Ada";
  last_name = "L";
  phone = "";
  role = "admin";
  active = true;
  token_version = 0;
  created_at = 1;
  deleted_at = none;
}

abbrev pub user_row : User
user_row = record admin_row { id = 41; email = "user@example.com"; role = "user"; created_at = 2 }

abbrev pub root_row : Category
root_row = record {
  id = 50;
  name = b'k' ∷ [];
  slug = b'k' ∷ [];
  description = none;
  parent_id = none;
  sort_order = pos 0;
  active = true;
  created_at = 3;
}

abbrev pub child_row : Category
child_row = record root_row { id = 51; slug = b'm' ∷ []; parent_id = some 50 }

abbrev pub tables : Db
tables = record {
  users = admin_row ∷ user_row ∷ [];
  categories = root_row ∷ child_row ∷ [];
  orders = open_order ∷ refunded_order ∷ [];
  order_items =
      (record {
        id = 20;
        order_id = 1;
        product_id = 3;
        product_name = "mug";
        price = pos 250;
        quantity = 2;
        subtotal = pos 500;
      })
      ∷ [];
  payments = pending_payment ∷ [];
  refund_jobs = [];
  levels = shelf;
  promotions = sale ∷ [];
  usages = [];
  carts = (record { id = 30; user_id = 7 }) ∷ [];
  cart_items = (record { cart_id = 30; product_id = 3; quantity = 1 }) ∷ [];
  products =
      (record {
        id = 3;
        name = "mug";
        price = pos 250;
        currency = "USD";
        status = "published";
        deleted = false;
        category_id = some 51;
        slug = b'm' ∷ [];
        description = none;
        compare_at_price = none;
        sku = none;
        created_at = 4;
      })
      ∷ [];
  images = [];
  reviews = [];
  notifications = [];
  send_jobs = [];
  shipments = [];
  next_id = 100;
}

abbrev pub start : World Db
start = record { db = tables; tick = 0; in_tx = false; aborted = false }

abbrev pub no_extras : NewOrder
no_extras = record {
  coupon_code = none;
  shipping_address = none;
  billing_address = none;
  notes = "";
}

abbrev pub order_again : PlaceOrderInput
order_again = record { order = no_extras; payment_method_id = "card"; idempotency_key = "key" }

abbrev pub requests : List Request
requests = Request.webhook "body" "signature" ∷ Request.cancel_order 7 1 ∷ Request.expire_stale ∷ []

abbrev pub mug : SnapshotItem
mug = record {
  product_id = 3;
  quantity = 2;
  name = "mug";
  price = record { amount = pos 250; currency = "USD" };
  status = "published";
}

abbrev pub draft_order : Order
draft_order = record {
  id = 1;
  user_id = 7;
  idempotency_key = "key";
  request_hash = "";
  status = Status.awaiting_payment;
  subtotal = record { amount = pos 500; currency = "USD" };
  discount = record { amount = pos 0; currency = "USD" };
  total = record { amount = pos 500; currency = "USD" };
  coupon_code = some "SALE";
  shipping_address = none;
  billing_address = none;
  notes = "";
  stock_deducted = false;
  stock_reversed = false;
  items = [];
}
