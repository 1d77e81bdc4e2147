-- ===== src/Platform/CursorText.antt =====
-- internal/platform/paging/cursor.go: the text of a cursor.
use go_api_project_template.Prelude.{
  ℕ, ◌≡◌, refl, ap, ◌∙◌, some, List, [], ◌∷◌, ◌++◌, contains, false, arith,
}
use go_api_project_template.Platform.Paging.{
  CursorTexts, encode_cursor, decode_cursor, before_bar, after_bar, parts_of, decoded_parts,
}

before_bar-append : (a b : List ℕ) → contains a b'|' ≡ false → before_bar (a ++ (b'|' ∷ b)) ≡ a
before_bar-append [] b h = refl
before_bar-append (c ∷ a) b h = ground (arith, before_bar-append a b)

after_bar-append : (a b : List ℕ) → contains a b'|' ≡ false → after_bar (a ++ (b'|' ∷ b)) ≡ some b
after_bar-append [] b h = refl
after_bar-append (c ∷ a) b h = ground (arith, after_bar-append a b)

-- Where base64 decodes what it encodes, the two parts of a cursor come back as they were from
-- `DecodeCursor`: the first one if it has no bar, as a time has none, and the second one even where it
-- has bars.
pub decode_cursor-encode_cursor :
    (texts : CursorTexts)
    → ((s : List ℕ) → texts.decode (texts.encode s) ≡ some s)
    → (a b : List ℕ) → contains a b'|' ≡ false
    → decode_cursor texts (encode_cursor texts a b) ≡ some (a, b)
unfolding decode_cursor encode_cursor
decode_cursor-encode_cursor texts decodes a b h =
    ap decoded_parts (decodes (a ++ (b'|' ∷ b)))
    ∙ ap (parts_of (a ++ (b'|' ∷ b))) (after_bar-append a b h)
    ∙ ap (λ (s : List ℕ). some (s, b)) (before_bar-append a b h)
