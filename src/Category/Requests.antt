-- ===== src/Category/Requests.antt =====
-- internal/features/category/service.go: the handlers that write, as requests, and runs of them.
use go_api_project_template.Prelude.{
  ℕ, suc, ◌<◌, ◌≡◌, refl, sym, ◌∙◌, subst, Bool, false, Option, none, some, List, [], ◌∷◌, length,
  arith,
}
use go_api_project_template.Errs.{Err}
use go_api_project_template.Database.{World, pure, ◌>>=◌, ◌>>◌}
use go_api_project_template.Database.Keeps.{Keeps, Keeps-Sound, Keeps-bind, keeps_rules}
use go_api_project_template.Database.Ensures.{
  Ensures, Ensures-pure, Ensures-raise, Ensures-sql, Ensures-bind,
}
use go_api_project_template.Database.Leads.{Leads, Leads-Keeps, Leads-sql, Leads-bind, Leads-then}
use go_api_project_template.Category.Domain.{
  Category, Texts, max_depth, validate_parent_self, validate_parent_depth,
}
use go_api_project_template.Category.Repository as Rows
use go_api_project_template.Category.Repository.{walk_from, forms_cycle}
use go_api_project_template.Category.Service as Service
use go_api_project_template.Category.Service.{
  Fields, changed, new_category, none_or_raise, validate_parent, count_published, read_uuid,
}
use go_api_project_template.Category.Tree.{Tree, insert_category-Tree, delete_category-Tree}
use go_api_project_template.Category.Moves.{Accepted, update_category-Tree}
use go_api_project_template.Schema.{Db, Env, Action, Keeps-clock}

pub data CategoryRequest : Type 0 where
  create : List ℕ → Fields → CategoryRequest
  update : ℕ → Fields → CategoryRequest
  delete : ℕ → CategoryRequest

abbrev drop : {A : Type 0} → Action A → Action (Unit {0})
drop m = m >>= λ _. pure tt

unfoldable pub handle_category : Env → Texts → CategoryRequest → Action (Unit {0})
handle_category env texts (create name f) = drop (Service.create env texts name f)
handle_category env texts (update id f) = drop (Service.update env texts id f)
handle_category env texts (delete id) = Service.delete env id

unfoldable pub serve_categories : Env → Texts → List CategoryRequest → World Db → World Db
serve_categories env texts [] w = w
serve_categories env texts (r ∷ rs) w =
    serve_categories env texts rs (handle_category env texts r w).1

none_or_raise-Ensures :
    {P : Db → Type 0} {Q : Unit {0} → Db → Type 0} (o : Option Err)
    → (o ≡ none → (d : Db) → P d → Q tt d)
    → Ensures P (none_or_raise o) Q
none_or_raise-Ensures none h = Ensures-pure tt (h refl)
none_or_raise-Ensures (some e) h = Ensures-raise e

none_or_raise-Keeps : (o : Option Err) → Keeps Tree (none_or_raise o)
none_or_raise-Keeps none = search keeps_rules
none_or_raise-Keeps (some e) = search keeps_rules

depth_accepted :
    (n : ℕ) (b : Bool) → validate_parent_depth n b ≡ none → (n < suc max_depth) × (b ≡ false)
depth_accepted n b h = ground arith

module _ (env : Env) where
  validate_parent-Keeps : (o self : Option ℕ) → Keeps Tree (validate_parent env o self)
  unfolding validate_parent Rows.ancestor_depth_and_cycle
  validate_parent-Keeps none self = search keeps_rules
  validate_parent-Keeps (some p) self = search (keeps_rules, none_or_raise-Keeps) depth 9

  -- The checks return only if the walk up from the parent is in order.
  validate_parent-Accepted :
      (o : Option ℕ) (self : ℕ)
      → Ensures Tree
          (validate_parent env o (some self))
          (λ (x : Unit {0}) d. Tree d × Accepted self o d.categories)
  unfolding validate_parent Rows.ancestor_depth_and_cycle
  validate_parent-Accepted none self = Ensures-pure tt (λ d t. (t, tt))
  validate_parent-Accepted (some p) self =
      Ensures-bind (λ (x : Unit {0}) d. Tree d) _ _
        (none_or_raise-Ensures (validate_parent_self p (some self)) (λ e d t. t))
        (λ x. Ensures-bind Walked _ _ (Ensures-sql env.fault _ (λ d t. (t, refl, refl))) (λ found.
          none_or_raise-Ensures (validate_parent_depth found.0 found.1) (λ e d k.
            let ok_depth = depth_accepted found.0 found.1 e in
            (k.0, (subst (λ n. n < suc max_depth) k.1 ok_depth.0, sym k.2 ∙ ok_depth.1)))))
    where
      Walked : ℕ × Bool → Db → Type 0
      Walked found d =
          Tree d
          × (found.0 ≡ length (walk_from p max_depth d.categories))
          × (found.1 ≡ forms_cycle (some self) (walk_from p max_depth d.categories))

  row_by_id-Keeps : (id : ℕ) → Keeps Tree (Rows.get_by_id env id)
  unfolding Rows.get_by_id
  row_by_id-Keeps id = search keeps_rules

  update_row-Leads :
      (c : Category)
      → Leads (λ d. Tree d × Accepted c.id c.parent_id d.categories) Tree (Rows.update env c)
  unfolding Rows.update
  update_row-Leads c =
      Leads-then _ _ (Leads-sql env.fault _ (λ d k. k.0) (λ d k. update_category-Tree c d k.0 k.1))
        (λ b. search keeps_rules)

  create_row-Keeps : (c : Category) → Keeps Tree (Rows.create env c)
  unfolding Rows.create
  create_row-Keeps c =
      Keeps-bind _ _ (Keeps-clock Tree env)
        (λ at. Keeps-Sound env.fault _ (insert_category-Tree at c))

  delete_row-Keeps : (id : ℕ) → Keeps Tree (Rows.delete env id)
  unfolding Rows.delete
  delete_row-Keeps id =
      Keeps-bind _ _ (Keeps-Sound env.fault _ (delete_category-Tree id)) (λ b. search keeps_rules)

  uuid-Keeps : (texts : Texts) → Keeps Tree (read_uuid env texts)
  unfolding read_uuid
  uuid-Keeps texts = record { at = λ w h. h }

  count-Keeps : (id : ℕ) → Keeps Tree (count_published env id)
  unfolding count_published
  count-Keeps id = search keeps_rules

  changed_id : (texts : Texts) (f : Fields) (c : Category) → (changed texts f c).id ≡ c.id
  changed_id texts f c = named f.name
    where
      named : (o : Option (List ℕ)) → (changed texts (record f { name = o }) c).id ≡ c.id
      named none = refl
      named (some n) = refl

  -- The update of a row that was read, after the checks.
  checked-Keeps :
      (texts : Texts) (f : Fields) (c : Category)
      → Keeps Tree (do
        validate_parent env (changed texts f c).parent_id (some c.id)
        Rows.update env (changed texts f c)
        pure (changed texts f c))
  checked-Keeps texts f c = record { at = leads.at }
    where
      parent : Option ℕ
      parent = (changed texts f c).parent_id

      leads : Leads Tree Tree (do
        validate_parent env (changed texts f c).parent_id (some c.id)
        Rows.update env (changed texts f c)
        pure (changed texts f c))
      leads =
          Leads-bind (λ (x : Unit {0}) d. Tree d × Accepted c.id parent d.categories) _ _
            (Leads-Keeps _ (λ d t. t) (validate_parent-Keeps parent (some c.id)))
            (validate_parent-Accepted parent c.id)
            (λ x.
              Leads-then _ _
                (subst
                  (λ i.
                    Leads (λ d. Tree d × Accepted i parent d.categories) Tree
                      (Rows.update env (changed texts f c)))
                  (changed_id texts f c) (update_row-Leads (changed texts f c)))
                (λ y. search keeps_rules))

  handle_category-Keeps :
      (texts : Texts) (r : CategoryRequest) → Keeps Tree (handle_category env texts r)
  unfolding handle_category Service.create Service.update Service.delete
  handle_category-Keeps texts (create name f) =
      search (keeps_rules, uuid-Keeps, validate_parent-Keeps, create_row-Keeps) depth 9
  handle_category-Keeps texts (update id f) =
      search (keeps_rules, row_by_id-Keeps, checked-Keeps) depth 9
  handle_category-Keeps texts (delete id) =
      search (keeps_rules, count-Keeps, delete_row-Keeps) depth 9

-- After any creations, updates and deletions of categories, each of whose statements may fail, every
-- category leads by its parents to one without a parent, if that held before: there is no cycle and no
-- missing parent.
pub serve_categories-Tree :
    (env : Env) (texts : Texts) (rs : List CategoryRequest) (w : World Db)
    → Tree w.db
    → Tree (serve_categories env texts rs w).db
unfolding serve_categories
serve_categories-Tree env texts [] w h = h
serve_categories-Tree env texts (r ∷ rs) w h =
    serve_categories-Tree env texts rs (handle_category env texts r w).1
      ((handle_category-Keeps env texts r).at w h)
