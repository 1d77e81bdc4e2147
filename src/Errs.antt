-- ===== src/Errs.antt =====
-- The error values of the program: internal/platform/errs/errs.go (the five kinds that carry an
-- HTTP status), internal/apperror/errors.go and the sentinels of single modules. A sentinel that
-- is made by `fmt.Errorf("%w: ...", kind)` is a constructor of its own; an error that only wraps
-- a kind with a message is that kind. `internal` is any error that wraps no sentinel, such as a
-- failure that the database driver reports.
pub mod Laws
use go_api_project_template.Prelude.{
  ℕ, Bool, true, false, Option, none, some, List, [], ◌∷◌, ◌==◌, contains, map, find, if◌then◌else◌,
}

pub data Err : Type 0 where
  not_found conflict bad_request unauthorized forbidden : Err
  insufficient_stock cart_empty order_not_payable order_charging : Err
  amount_mismatch coupon_exhausted already_finalized : Err
  invalid_credentials invalid_token account_deactivated token_revoked : Err
  not_refundable currency_mismatch mixed_currencies validation internal : Err

abbrev pub code : Err → ℕ
code Err.not_found = 0
code Err.conflict = 1
code Err.bad_request = 2
code Err.unauthorized = 3
code Err.forbidden = 4
code Err.insufficient_stock = 5
code Err.cart_empty = 6
code Err.order_not_payable = 7
code Err.order_charging = 8
code Err.amount_mismatch = 9
code Err.coupon_exhausted = 10
code Err.already_finalized = 11
code Err.not_refundable = 12
code Err.currency_mismatch = 13
code Err.mixed_currencies = 14
code Err.validation = 15
code Err.internal = 16
code Err.invalid_credentials = 17
code Err.invalid_token = 18
code Err.account_deactivated = 19
code Err.token_revoked = 20

-- The error itself, then what it wraps.
abbrev pub chain : Err → List Err
chain Err.insufficient_stock = Err.insufficient_stock ∷ Err.conflict ∷ []
chain Err.cart_empty = Err.cart_empty ∷ Err.bad_request ∷ []
chain Err.order_not_payable = Err.order_not_payable ∷ Err.bad_request ∷ []
chain Err.order_charging = Err.order_charging ∷ Err.conflict ∷ []
chain Err.amount_mismatch = Err.amount_mismatch ∷ Err.conflict ∷ []
chain Err.coupon_exhausted = Err.coupon_exhausted ∷ Err.conflict ∷ []
chain Err.already_finalized = Err.already_finalized ∷ Err.conflict ∷ []
chain Err.not_refundable = Err.not_refundable ∷ Err.conflict ∷ []
chain Err.mixed_currencies = Err.mixed_currencies ∷ Err.bad_request ∷ Err.currency_mismatch ∷ []
chain Err.invalid_credentials = Err.invalid_credentials ∷ Err.unauthorized ∷ []
chain Err.invalid_token = Err.invalid_token ∷ Err.unauthorized ∷ []
chain Err.account_deactivated = Err.account_deactivated ∷ Err.unauthorized ∷ []
chain Err.token_revoked = Err.token_revoked ∷ Err.unauthorized ∷ []
chain Err.validation = Err.validation ∷ Err.bad_request ∷ []
chain e = e ∷ []

-- `errors.Is`.
abbrev pub is : Err → Err → Bool
is e target = contains (map code (chain e)) (code target)

abbrev kinds : List Err
kinds = Err.not_found ∷ Err.conflict ∷ Err.bad_request ∷ Err.unauthorized ∷ Err.forbidden ∷ []

-- `errs.Kind`: the first kind that the error is.
unfoldable pub kind : Err → Option Err
kind e = find (is e) kinds

status_for : Option Err → ℕ
status_for (some Err.not_found) = 404
status_for (some Err.conflict) = 409
status_for (some Err.bad_request) = 400
status_for (some Err.unauthorized) = 401
status_for (some Err.forbidden) = 403
status_for e = 500

-- `response.HandleErr`: the HTTP status of an error. A validation error is looked for first.
unfoldable pub handle_err : Err → ℕ
unfolding status_for kind
handle_err e = if is e Err.validation then 422 else status_for (kind e)

pub data Result (A : Type 0) : Type 0 where
  ok : A → Result A
  err : Err → Result A

abbrev pub is_ok : {A : Type 0} → Result A → Bool
is_ok (ok a) = true
is_ok (err e) = false
