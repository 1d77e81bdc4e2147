-- ===== src/Platform/Paging.antt =====
-- internal/platform/paging: pages by an offset and pages by a cursor, with the clause that
-- internal/platform/database/query.go adds for a cursor. The query of a page by cursor is that of the
-- listings (`ListPublished` of internal/features/product, `ListByProduct` of internal/features/review):
-- rows below the cursor, newest first, one more than the page has.
use go_api_project_template.Prelude.{
  ℕ, zero, suc, ◌+◌, ◌-◌, ◌*◌, ◌/◌, ◌%◌, Bool, true, false, ◌&&◌, ◌||◌, Option, none, some, List,
  [], ◌∷◌, ◌++◌, length, ltb, ◌==◌, if◌then◌else◌,
}
use go_api_project_template.Prelude.Int.{ℤ, pos, negsuc, wrap64}

-- Base64 for URLs, and the texts of times and keys with what the database reads in them.
pub record CursorTexts : Type 0 where
  pub encode : List ℕ → List ℕ
  pub decode : List ℕ → Option (List ℕ)
  pub time_text : ℕ → List ℕ
  pub read_time : List ℕ → Option ℕ
  pub key_text : ℕ → List ℕ
  pub read_key : List ℕ → Option ℕ

-- A limit as `strconv.Atoi` gives it, 0 where it gives an error.
abbrev pub page_limit : ℤ → ℕ
page_limit (negsuc n) = 20
page_limit (pos n) = if ltb n 1 || ltb 100 n then 20 else n

abbrev pub page_number : ℤ → ℕ
page_number (negsuc n) = 1
page_number (pos n) = if ltb n 1 then 1 else n

pub record OffsetPage : Type 0 where
  pub page : ℕ
  pub page_size : ℕ

abbrev pub parse_offset_page : ℤ → ℤ → OffsetPage
parse_offset_page page size = record { page = page_number page; page_size = page_limit size }

abbrev pub offset : OffsetPage → ℤ
unfolding wrap64
offset p = wrap64 (pos ((p.page - 1) * p.page_size))

pub record OffsetPagination : Type 0 where
  pub current_page : ℕ
  pub page_size : ℕ
  pub total_items : ℕ
  pub total_pages : ℕ
  pub has_previous : Bool
  pub has_next : Bool

abbrev pub pages_for : ℕ → ℕ → ℕ
pages_for total size = if ltb 0 (total % size) then total / size + 1 else total / size

abbrev pub new_offset_pagination : OffsetPage → ℕ → OffsetPagination
new_offset_pagination p total = record {
  current_page = p.page;
  page_size = p.page_size;
  total_items = total;
  total_pages = pages_for total p.page_size;
  has_previous = ltb 1 p.page;
  has_next = ltb p.page (pages_for total p.page_size);
}

-- `SplitN` at the first bar.
abbrev pub before_bar : List ℕ → List ℕ
before_bar [] = []
before_bar (c ∷ s) = let rest = before_bar s in if c == b'|' then [] else c ∷ rest

abbrev pub after_bar : List ℕ → Option (List ℕ)
after_bar [] = none
after_bar (c ∷ s) = let rest = after_bar s in if c == b'|' then some s else rest

abbrev pub parts_of : List ℕ → Option (List ℕ) → Option (List ℕ × List ℕ)
parts_of s none = none
parts_of s (some id) = some (before_bar s, id)

abbrev pub decoded_parts : Option (List ℕ) → Option (List ℕ × List ℕ)
decoded_parts none = none
decoded_parts (some s) = parts_of s (after_bar s)

module _ (texts : CursorTexts) where
  unfoldable pub encode_cursor : List ℕ → List ℕ → List ℕ
  encode_cursor created_at id = texts.encode (created_at ++ (b'|' ∷ id))

  unfoldable pub decode_cursor : List ℕ → Option (List ℕ × List ℕ)
  decode_cursor cursor = decoded_parts (texts.decode cursor)

-- A place in a listing: a time and a key.
abbrev pub Place : Type 0
Place = ℕ × ℕ

abbrev place_of : Option ℕ → Option ℕ → Option Place
place_of none k = none
place_of (some t) none = none
place_of (some t) (some k) = some (t, k)

abbrev pub read_parts : CursorTexts → Option (List ℕ × List ℕ) → Option Place
read_parts texts none = none
read_parts texts (some p) = place_of (texts.read_time p.0) (texts.read_key p.1)

-- The place that a cursor names; `none` if it does not decode, or the database cannot read it.
unfoldable pub cursor_place : CursorTexts → List ℕ → Option Place
unfolding decode_cursor
cursor_place texts cursor = read_parts texts (decode_cursor texts cursor)

unfoldable pub place_cursor : CursorTexts → Place → List ℕ
unfolding encode_cursor
place_cursor texts p = encode_cursor texts (texts.time_text p.0) (texts.key_text p.1)

-- `(created_at, id) < ($1, $2)`.
abbrev pub below : Place → Place → Bool
below p q = ltb q.0 p.0 || (q.0 == p.0 && ltb q.1 p.1)

pub record Page {ℓ} (A : Type ℓ) : Type ℓ where
  pub items : List A
  pub next_cursor : Option Place
  pub has_more : Bool

module _ {ℓ} {A : Type ℓ} where
  abbrev pub take : ℕ → List A → List A
  take zero xs = []
  take (suc n) [] = []
  take (suc n) (x ∷ xs) = x ∷ take n xs

module _ {A : Type 0} (place : A → Place) where
  -- `ORDER BY created_at DESC, id DESC`.
  abbrev pub insert_desc : A → List A → List A
  insert_desc x [] = x ∷ []
  insert_desc x (y ∷ ys) =
      let rest = insert_desc x ys in if below (place x) (place y) then x ∷ y ∷ ys else y ∷ rest

  abbrev pub newest_first : List A → List A
  newest_first [] = []
  newest_first (x ∷ xs) = insert_desc x (newest_first xs)

  abbrev pub rows_below : Option Place → List A → List A
  rows_below none xs = xs
  rows_below (some p) [] = []
  rows_below (some p) (x ∷ xs) =
      let rest = rows_below (some p) xs in if below p (place x) then x ∷ rest else rest

  abbrev pub last_place : List A → Option Place
  last_place [] = none
  last_place (x ∷ []) = some (place x)
  last_place (x ∷ y ∷ ys) = last_place (y ∷ ys)

  -- What the caller makes of the rows that were found.
  abbrev pub page_of : ℕ → List A → Page A
  page_of limit found =
      if ltb limit (length found)
      then record {
        items = take limit found;
        next_cursor = last_place (take limit found);
        has_more = true;
      }
      else record { items = found; next_cursor = none; has_more = false }

  unfoldable pub fetch_page : ℕ → Option Place → List A → Page A
  fetch_page limit cursor rows =
      page_of limit (take (suc limit) (rows_below cursor (newest_first rows)))

  -- A client that follows the cursors, for at most `fuel` pages.
  unfoldable pub follow : ℕ → ℕ → Option Place → List A → List A
  unfolding fetch_page
  follow zero limit cursor rows = []
  follow (suc fuel) limit cursor rows =
      let p = fetch_page limit cursor rows in
      let rest = follow fuel limit p.next_cursor rows in
      p.items ++ (if p.has_more then rest else [])
