-- ===== src/Product/Listings.antt =====
-- internal/features/product/adapter/postgres/repository.go and repository.go: the two listings of the
-- catalogue. The replica is the same tables here.
use go_api_project_template.Prelude.{
  ℕ, zero, suc, String, Bool, true, false, not, ◌&&◌, ◌||◌, Option, none, some, List, [], ◌∷◌,
  length, ◌==◌, str_eq, if◌then◌else◌,
}
use go_api_project_template.Prelude.Int.{ℤ, pos, pos_part, ltb_ℤ}
use go_api_project_template.Errs.{Err}
use go_api_project_template.Database.{Outcome, done, violation, sql, pure, raise, ◌>>=◌}
use go_api_project_template.Platform.Paging.{
  CursorTexts, Place, Page, OffsetPage, take, offset, fetch_page, newest_first, place_cursor,
  decode_cursor, read_parts,
}
use go_api_project_template.Schema.{ProductRow, Db, Env, Action}

pub record PublishedListParams : Type 0 where
  pub cursor : List ℕ
  pub limit : ℕ
  pub category_id : Option ℕ
  pub min_price : Option ℤ
  pub max_price : Option ℤ
  pub search : String

pub record AdminListParams : Type 0 where
  pub page : OffsetPage
  pub status : String
  pub category_id : Option ℕ
  pub search : String

abbrev in_category : Option ℕ → ProductRow → Bool
in_category none p = true
in_category (some c) p = elim p.category_id [ none ↦ false | some k ↦ k == c ]

abbrev at_least : Option ℤ → ProductRow → Bool
at_least none p = true
at_least (some m) p = not (ltb_ℤ p.price m)

abbrev at_most : Option ℤ → ProductRow → Bool
at_most none p = true
at_most (some m) p = not (ltb_ℤ m p.price)

-- `ILIKE` on a column that may be NULL; `ilike` is the operator with the escaped search text.
abbrev like : (String → String → Bool) → String → Option String → Bool
like ilike search none = false
like ilike search (some t) = ilike search t

abbrev listed : (String → String → Bool) → PublishedListParams → ProductRow → Bool
listed ilike q p =
    not p.deleted
    && str_eq p.status "published"
    && in_category q.category_id p
    && at_least q.min_price p
    && at_most q.max_price p
    && (str_eq q.search "" || ilike q.search p.name || like ilike q.search p.description)

abbrev admin_listed : (String → String → Bool) → AdminListParams → ProductRow → Bool
admin_listed ilike q p =
    not p.deleted
    && (str_eq q.status "" || str_eq p.status q.status)
    && in_category q.category_id p
    && (str_eq q.search ""
        || ilike q.search p.name
        || like ilike q.search p.description
        || like ilike q.search p.sku)

abbrev where_rows : (ProductRow → Bool) → List ProductRow → List ProductRow
where_rows q [] = []
where_rows q (p ∷ ps) = let rest = where_rows q ps in if q p then p ∷ rest else rest

abbrev skip : ℕ → List ProductRow → List ProductRow
skip zero ps = ps
skip (suc n) [] = []
skip (suc n) (p ∷ ps) = skip n ps

abbrev pub place : ProductRow → Place
place p = (p.created_at, p.id)

-- What the catalogue uses of texts: cursors, and `ILIKE` with an escaped search text.
pub record ListTexts : Type 0 where
  pub cursors : CursorTexts
  pub ilike : String → String → Bool

pub record Listing : Type 0 where
  pub items : List ProductRow
  pub next_cursor : List ℕ
  pub has_more : Bool

abbrev cursor_text : CursorTexts → Option Place → List ℕ
unfolding place_cursor
cursor_text texts none = []
cursor_text texts (some p) = place_cursor texts p

abbrev listing : CursorTexts → Page ProductRow → Listing
unfolding place_cursor
listing texts p = record {
  items = p.items;
  next_cursor = cursor_text texts p.next_cursor;
  has_more = p.has_more;
}

-- The query with the place of the cursor, if there is one; a cursor that the database cannot read fails.
unfoldable pub select_published :
    ListTexts → PublishedListParams → Option Place → Db → Outcome Db Listing
unfolding fetch_page place_cursor
select_published texts q start d =
    done
      (listing texts.cursors
        (fetch_page place q.limit start (where_rows (listed texts.ilike q) d.products)))
      d

abbrev pub read_place : ListTexts → PublishedListParams → Option Place → Db → Outcome Db Listing
unfolding select_published
read_place texts q none d = violation Err.internal
read_place texts q (some p) d = select_published texts q (some p) d

module _ (env : Env) where
  abbrev pub list_from : ListTexts → PublishedListParams → Option (List ℕ × List ℕ) → Action Listing
  list_from texts q none = raise Err.bad_request
  list_from texts q (some parts) =
      sql env.fault (read_place texts q (read_parts texts.cursors (some parts)))

  abbrev pub list_at : ListTexts → PublishedListParams → List ℕ → Action Listing
  unfolding decode_cursor
  list_at texts q [] = sql env.fault (select_published texts q none)
  list_at texts q (c ∷ cs) = list_from texts q (decode_cursor texts.cursors (c ∷ cs))

  unfoldable pub list_published : ListTexts → PublishedListParams → Action Listing
  list_published texts q = list_at texts q q.cursor

  -- The count and the page, each a statement; rows of one time come in the order of their keys here.
  unfoldable pub list_admin : ListTexts → AdminListParams → Action (List ProductRow × ℕ)
  list_admin texts q = do
    total ←
        sql env.fault
          (λ (d : Db). done (length (where_rows (admin_listed texts.ilike q) d.products)) d)
    rows ← sql env.fault (λ (d : Db).
        if ltb_ℤ (offset q.page) (pos 0)
        then violation Err.internal
        else done
            (take q.page.page_size (
              skip (pos_part (offset q.page))
                (newest_first place (where_rows (admin_listed texts.ilike q) d.products))))
            d)
    pure (rows, total)
