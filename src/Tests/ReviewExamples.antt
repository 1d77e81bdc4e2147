-- ===== src/Tests/ReviewExamples.antt =====
-- The theorem on reviews at the small world, with its order delivered.
use go_api_project_template.Prelude.{◌≤◌, refl, [], ◌∷◌}
use go_api_project_template.Database.{World, sql, pure, raise, ◌>>=◌}
use go_api_project_template.Order.Domain.{Status}
use go_api_project_template.Review.{
  NewReview, review_of, create, create_row, has_delivered_order, has_user_reviewed, insert_review,
}
use go_api_project_template.Review.Laws.{Has, DeliveredTo, ItemOf, create-Reviewed}
use go_api_project_template.Schema.{ReviewRow, Db, clock}
use go_api_project_template.Tests.Sample.{calm, start, tables, open_order}

abbrev delivered_world : World Db
delivered_world = record start {
  db = record tables { orders = (record open_order { status = Status.delivered }) ∷ [] };
}

abbrev five_stars : NewReview
five_stars = record {
  user_id = 7;
  product_id = 3;
  order_id = 1;
  rating = 5;
  title = "Good";
  body = "";
}

abbrev stored : ReviewRow
stored = record (review_of five_stars) { id = 100; created_at = 1002 }

create-Reviewed_example :
    Has (DeliveredTo 7 1) (create calm five_stars delivered_world).1.db.orders
    × Has (ItemOf 1 3) (create calm five_stars delivered_world).1.db.order_items
    × (1 ≤ 5)
    × (5 ≤ 5)
unfolding create create_row has_delivered_order has_user_reviewed insert_review clock sql pure raise
    ◌>>=◌
create-Reviewed_example = create-Reviewed calm five_stars delivered_world stored refl
