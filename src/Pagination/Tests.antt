-- ===== src/Pagination/Tests.antt =====
-- Cursors of small texts.
use thryve_financial.Base.{◌≡◌, refl, none, some, [], ◌∷◌, ◌==◌, arith, if◌then◌else◌}
use thryve_financial.Pagination.{Utf8, decode_from, first, decode_cursor, encode_cursor, page_limit}
use thryve_financial.Pagination.Cursor.{decode_cursor-encode_cursor}

-- UTF-8 at one text.
abbrev utf8 : Utf8
utf8 = record {
  encode = λ s. if s == "id>7?" then 105 ∷ 100 ∷ 62 ∷ 55 ∷ 63 ∷ [] else [];
  decode = λ bytes. some "id>7?";
}

-- `aWQ-Nz8=`
cursor : encode_cursor utf8 "id>7?" ≡ 97 ∷ 87 ∷ 81 ∷ 45 ∷ 78 ∷ 122 ∷ 56 ∷ 61 ∷ []
unfolding encode_cursor
cursor = refl

cut_off : decode_from first 0 (97 ∷ 87 ∷ 81 ∷ []) ≡ none
unfolding decode_from
cut_off = refl

-- What stands between the symbols is passed over, and what stands behind the padding is not read.
loose : decode_from first 0 (97 ∷ 32 ∷ 87 ∷ 61 ∷ 61 ∷ 97 ∷ []) ≡ some (105 ∷ [])
unfolding decode_from
loose = refl

largest_page : page_limit 101 ≡ none
unfolding page_limit
largest_page = refl

decode_cursor-encode_cursor_example : decode_cursor utf8 (encode_cursor utf8 "id>7?") ≡ some "id>7?"
decode_cursor-encode_cursor_example = decode_cursor-encode_cursor utf8 "id>7?" (ground arith) refl
