-- ===== src/Lexer/Tests.antt =====
-- The lexer on concrete inputs, and the theorems of its modules at them.
use mathlib.Core.Option
use izel.Prelude.{codes, text_eq, ℕ, ◌≡◌, refl, true, false, Option, some, List, [], ◌∷◌, map}
use izel.Lexer.Token.{
  TokenKind, Token, forge, ident, whitespace, comment, str, interpolated_str, int, give, dot_dot_eq,
  open_paren, hexadecimal, pipe,
}
use izel.Lexer.Cursor
use izel.Lexer.Cursor.{CharTables, Cursor}
use izel.Lexer.Literals
use izel.Lexer.Ident
use izel.Lexer.NextToken
use izel.Lexer.NextToken.{Lexer, tokens, next_kind, next_token}
use izel.Lexer.Strings.{quoted-end}
use izel.Lexer.Comments.{Body, done, plain, nested}
use izel.Lexer.Tiling.{Tiles, tokens-Tiles, IsLexer, next_token-IsLexer}
use izel.Lexer.TokenText.{Finds, next_kind-string, next_kind-interpolated_string, next_kind-comment}
use izel.Lexer.Ascii.{ascii, ascii-IsUnicode}
use izel.Lexer.Words.{next_kind-word}

abbrev sample : List ℕ
sample = codes "forge f(/~a/~b~/~/r#\"q\"#\"s\\\"t\"..=0x1F|>give"

-- All that a run of the lexer computes with.
abbrev kinds : List ℕ → Option (List TokenKind)
unfolding NextToken.tokens NextToken.tokens_loop NextToken.next_token NextToken.next_kind
    NextToken.eat_comment NextToken.lex_first NextToken.sigil NextToken.lex_other NextToken.pos
    NextToken.make_span Ident.is_ident_start Ident.lex_ident_or_keyword Ident.eat_ident_text
    Ident.is_ident_continue Ident.ident_kind Ident.keyword text_eq Ident.slice Literals.lex_number
    Literals.is_number_continue Literals.is_fraction Literals.lex_string Literals.lex_char
    Literals.lex_interpolated_string Literals.lex_byte_string Literals.lex_byte_literal
    Literals.lex_raw_string Literals.quoted Literals.quoted_loop Literals.raw_loop
    Literals.hashes_loop Literals.closing_loop Literals.eat_multi_line_comment Literals.comment_loop
    Cursor.bump Cursor.first Cursor.second Cursor.is_eof Cursor.eat_while Cursor.eat_while_loop
    Cursor.eat_escape Cursor.pos_within Cursor.str_len Cursor.len_utf8 Cursor.is_ascii_digit
    Cursor.is_ascii_hexdigit
kinds source = Option.map (map (λ t. t.kind)) (tokens ascii source 0)

sample-kinds :
    kinds sample
    ≡ some (
        forge
        ∷ whitespace
        ∷ ident
        ∷ open_paren
        ∷ comment
        ∷ str true
        ∷ str true
        ∷ dot_dot_eq
        ∷ int hexadecimal false
        ∷ pipe
        ∷ give
        ∷ [])
unfolding kinds
sample-kinds = refl

tokens-Tiles_example : (ts : List Token) × (tokens ascii sample 7 ≡ some ts) × Tiles 7 0 sample ts
tokens-Tiles_example = tokens-Tiles ascii sample 7

abbrev start : Lexer
start = record {
  source = codes "a/~b~/";
  cursor = record { chars = codes "a/~b~/"; len_remaining = 6 };
  source_id = 0;
}

abbrev after_a : Lexer
after_a = record start { cursor = record { chars = codes "/~b~/"; len_remaining = 5 } }

start-IsLexer : IsLexer start
unfolding Cursor.str_len Cursor.len_utf8
start-IsLexer = record { behind = []; splits = refl; valid = record { counted = refl } }

next_token-IsLexer_example : IsLexer after_a
next_token-IsLexer_example =
    next_token-IsLexer ascii start after_a
      (record { kind = ident; span = record { lo = 0; hi = 1; source_id = 0 } }) start-IsLexer
      (unfold kinds in refl)

abbrev at : List ℕ → Cursor
at cs = record { chars = cs; len_remaining = 0 }

next_kind-string_example :
    Finds (str true) (codes ";") (next_kind ascii [] (at (codes "\"a\\\"b\";")))
next_kind-string_example =
    next_kind-string ascii ascii-IsUnicode (codes "a\"b") (codes ";") [] (at (codes "\"a\\\"b\";"))
      refl

next_kind-interpolated_string_example :
    Finds (interpolated_str true) (codes ";") (next_kind ascii [] (at (codes "`a\\`b`;")))
next_kind-interpolated_string_example =
    next_kind-interpolated_string ascii ascii-IsUnicode (codes "a`b") (codes ";") []
      (at (codes "`a\\`b`;")) refl

abbrev nest : Body (codes "a/~b~/")
nest = plain refl (nested (plain refl done) done)

next_kind-comment_example :
    Finds comment (codes "x") (next_kind ascii [] (at (codes "/~a/~b~/~/x")))
next_kind-comment_example =
    next_kind-comment ascii ascii-IsUnicode (codes "x") [] (at (codes "/~a/~b~/~/x")) nest refl

next_kind-word_example :
    Finds
      (Ident.keyword (codes "give"))
      (codes " x")
      (next_kind ascii (codes "give x") (at (codes "give x")))
next_kind-word_example =
    next_kind-word ascii ascii-IsUnicode [] b'g' (codes "ive") (codes " x") (codes "give x")
      (at (codes "give x")) refl refl (unfold Ident.is_ident_start in refl) refl
      (unfold Ident.is_ident_continue in refl) (unfold Ident.is_ident_continue in refl) refl

-- An unterminated literal.
quoted-end_example : (Literals.quoted b'"' (at (codes "ab"))).1.chars ≡ []
quoted-end_example = quoted-end b'"' (at (codes "ab")) (unfold kinds in refl)
