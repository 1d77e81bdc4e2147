-- ===== src/Tests/CategoryExamples.antt =====
-- The theorems on categories and slugs at the small world.
use go_api_project_template.Prelude.{
  ◌≡◌, refl, subst, true, inl, inr, Bool-cases, some, none, List, [], ◌∷◌, ◌==◌, ==→eq, arith,
}
use go_api_project_template.Platform.Slug.{make, is_slug, make-is_slug}
use go_api_project_template.Category.Domain.{Texts}
use go_api_project_template.Category.Service.{Fields}
use go_api_project_template.Category.Tree.{Tree, Rooted, root, under}
use go_api_project_template.Category.Requests.{
  CategoryRequest, serve_categories, serve_categories-Tree,
}
use go_api_project_template.Tests.Sample.{fourth_fails, start, root_row, child_row}

make-is_slug_example :
    is_slug (make (λ s. s) (b'-' ∷ b'a' ∷ b' ' ∷ b' ' ∷ b'!' ∷ b'b' ∷ b' ' ∷ [])) ≡ true
make-is_slug_example = make-is_slug (λ s. s) (b'-' ∷ b'a' ∷ b' ' ∷ b' ' ∷ b'!' ∷ b'b' ∷ b' ' ∷ [])

abbrev category_texts : Texts
category_texts = record {
  lower = λ s. s;
  key_text = λ n. b'k' ∷ [];
  new_uuid = λ n. b'u' ∷ [];
  name_before = λ a b. true;
}

abbrev under_child : Fields
under_child = record {
  name = none;
  description = none;
  parent_id = some 51;
  sort_order = none;
  active = none;
}

abbrev category_requests : List CategoryRequest
category_requests =
    CategoryRequest.update 50 under_child
    ∷ CategoryRequest.create (b'n' ∷ []) under_child
    ∷ CategoryRequest.delete 51
    ∷ []

top : Rooted start.db.categories 50
top = root 50 root_row refl refl

start-Tree : Tree start.db
start-Tree = record {
  rooted = λ id c f. elim (Bool-cases (50 == id)) [
    | inl a ↦ subst (Rooted start.db.categories) (==→eq 50 id a) top
    | inr a ↦ elim (Bool-cases (51 == id)) [
      | inl b ↦
          subst (Rooted start.db.categories) (==→eq 51 id b) (under 51 50 child_row refl refl top)
      | inr b ↦ absurd (ground arith)
    ]
  ];
}

serve_categories-Tree_example :
    Tree (serve_categories fourth_fails category_texts category_requests start).db
serve_categories-Tree_example =
    serve_categories-Tree fourth_fails category_texts category_requests start start-Tree
