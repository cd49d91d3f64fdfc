-- ===== src/Lexer/Ascii.antt =====
-- `char::is_whitespace`, `is_alphabetic` and `is_alphanumeric` at ASCII, for concrete inputs.
use izel.Prelude.{refl, ◌&&◌, ◌||◌, ◌==◌, leb}
use izel.Lexer.Cursor.{CharTables}
use izel.Lexer.TokenText.{IsUnicode}

-- The predicates at ASCII, and nothing beyond.
abbrev pub ascii : CharTables
ascii = record {
  is_whitespace = λ c. leb 9 c && leb c 13 || c == b' ';
  is_alphabetic = λ c. leb b'a' c && leb c b'z' || leb b'A' c && leb c b'Z';
  is_alphanumeric =
      λ c. leb b'a' c && leb c b'z' || leb b'A' c && leb c b'Z' || leb b'0' c && leb c b'9';
}

pub ascii-IsUnicode : IsUnicode ascii
ascii-IsUnicode = record {
  ascii_whitespace = λ c h. refl;
  ascii_alphabetic = λ c h. refl;
  ascii_alphanumeric = λ c h. refl;
}
