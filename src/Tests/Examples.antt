-- ===== src/Tests/Examples.antt =====
-- The theorems on orders, payments and requests at the small world.
use go_api_project_template.Prelude.{◌+◌, ◌≤◌, ◌≡◌, refl, true, false, some, [], ◌∷◌, if◌then◌else◌}
use go_api_project_template.Errs.{Err, ok, err, is, handle_err, is_ok}
use go_api_project_template.Errs.Laws.{handle_err_eq}
use go_api_project_template.Money
use go_api_project_template.Money.{Money}
use go_api_project_template.Database.{run_tx, sql, pure, raise, or_raise, ◌>>=◌}
use go_api_project_template.Database.Tx.{TxCase, run_tx-atomic}
use go_api_project_template.Order.Domain.{
  Status, allows, all_transitions, to_paid, to_refunded, known_paid, known_refunded,
}
use go_api_project_template.Order.State.{initial, leads, successors, leads-eq-successors}
use go_api_project_template.Order.Lifetime.{
  known_none, known_next, try_all, deductions, deductions_eq, flag,
}
use go_api_project_template.Order.Repository as OrderRows
use go_api_project_template.Payment.Repository as PaymentRows
use go_api_project_template.Payment.Finalize.{finalize_success, finalize_body}
use go_api_project_template.Payment.FinalizeLaws.{Statement, finalize_success-misreports}
use go_api_project_template.Order.Service as Orders
use go_api_project_template.Payment.Webhook.{handle_webhook}
use go_api_project_template.Payment.WebhookLaws.{handle_webhook-result, authentic}
use go_api_project_template.Payment.Domain.{PaymentStatus}
use go_api_project_template.Payment.Refund.{settle_refund, refund}
use go_api_project_template.Payment.RefundLaws.{refunds-refused}
use go_api_project_template.Checkout.{place_order, retry_payment}
use go_api_project_template.CheckoutLaws.{Repeated, place_order-Repeated, retry_payment-refused}
use go_api_project_template.System.Requests.{Request, handle, serve}
use go_api_project_template.System.AllOrNothing.{handle-all_or_nothing}
use go_api_project_template.System.Flags.{FlagsAgree, serve-FlagsAgree}
use go_api_project_template.System.History as OrderHistory
use go_api_project_template.System.History.{order_history, refunded_final}
use go_api_project_template.System.PaymentHistory as Payments
use go_api_project_template.System.PaymentHistory.{payment_history}
use go_api_project_template.Tests.Sample.{
  calm, fourth_fails, open_order, pending_payment, tables, start, order_again, requests,
}

serve-FlagsAgree_example : FlagsAgree (serve calm requests start).db
serve-FlagsAgree_example = serve-FlagsAgree calm requests start (refl, (refl, tt))

order_history_example :
    OrderHistory.Came 1 Status.awaiting_payment (serve calm requests start).db.orders
order_history_example = order_history calm requests start 1 Status.awaiting_payment refl

payment_history_example :
    Payments.Came 5 PaymentStatus.pending (serve calm requests start).db.payments
payment_history_example = payment_history calm requests start 5 PaymentStatus.pending refl

refunded_final_example :
    OrderHistory.status_of 2 (serve calm requests start).db.orders ≡ some Status.refunded
refunded_final_example = refunded_final calm requests start 2 refl

place_order-Repeated_example : Repeated open_order start (place_order calm 7 order_again start)
place_order-Repeated_example = place_order-Repeated calm 7 order_again open_order start refl

retry_payment-refused_example :
    (is_ok (retry_payment calm 7 2 "card" start).0 ≡ false)
    × ((retry_payment calm 7 2 "card" start).1.db ≡ tables)
    × ((retry_payment calm 7 2 "card" start).1.tick ≤ 0 + 2)
retry_payment-refused_example = retry_payment-refused calm 7 2 "card" start refl

money_agrees :
    Money.equal
      (PaymentRows.scan_payment pending_payment).amount
      (OrderRows.scan_order open_order).total
    ≡ true
unfolding Money.equal PaymentRows.scan_payment OrderRows.scan_order
money_agrees = refl

finalize_success-misreports_example : finalize_success fourth_fails 5 1 start ≡ (
  err Err.already_finalized,
  record start { tick = 0 + 1 + 1 + 1 + 1 + 1; in_tx = false; aborted = false },
)
finalize_success-misreports_example =
    finalize_success-misreports fourth_fails 5 1 open_order pending_payment start
      Statement.mark_paid refl refl (refl, refl, refl) refl refl money_agrees

handle_webhook-result_example :
    (handle_webhook calm "body" "signature" start).0
    ≡ (if authentic calm "body" "signature" then ok tt else err Err.unauthorized)
handle_webhook-result_example = handle_webhook-result calm "body" "signature" start

run_tx-atomic_example :
    TxCase (finalize_body calm 5 1) start (run_tx calm.fault (finalize_body calm 5 1) start)
run_tx-atomic_example = run_tx-atomic calm.fault (finalize_body calm 5 1) start refl

leads-eq-successors_example :
    leads all_transitions Status.paid Status.shipped
    ≡ allows (successors Status.paid) Status.shipped
leads-eq-successors_example = leads-eq-successors Status.paid Status.shipped

deductions_eq_example :
    deductions (to_paid ∷ to_refunded ∷ []) initial
    ≡ flag (try_all (to_paid ∷ to_refunded ∷ []) initial).stock_deducted
deductions_eq_example = deductions_eq (known_next known_paid (known_next known_refunded known_none))

not_refunded : is_ok (handle calm (Request.refund 5) start).0 ≡ false
unfolding handle refund PaymentRows.get_by_id PaymentRows.scan_payment sql ◌>>=◌ pure raise or_raise
not_refunded = refl

handle-all_or_nothing_example : (handle calm (Request.refund 5) start).1.db ≡ tables
handle-all_or_nothing_example =
    handle-all_or_nothing calm (Request.refund 5) start refl refl not_refunded

refunds-refused_example :
    ((settle_refund calm 5 1 start).1.db ≡ tables)
    × ((settle_refund calm 5 1 start).1.tick ≡ 0 + 1)
    × ((refund calm 5 start).1.db ≡ tables)
    × ((refund calm 5 start).1.tick ≡ 0 + 1)
refunds-refused_example = refunds-refused calm 5 1 pending_payment start refl refl

handle_err_eq_example : handle_err Err.insufficient_stock ≡ (
    if is Err.insufficient_stock Err.validation
    then 422
    else if is Err.insufficient_stock Err.forbidden
    then 403
    else if is Err.insufficient_stock Err.unauthorized
    then 401
    else if is Err.insufficient_stock Err.bad_request
    then 400
    else if is Err.insufficient_stock Err.conflict
    then 409
    else if is Err.insufficient_stock Err.not_found
    then 404
    else 500)
handle_err_eq_example = handle_err_eq Err.insufficient_stock
