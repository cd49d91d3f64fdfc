-- ===== src/Fmt.antt =====
-- crates/izel_fmt/src/formatter.rs: `Formatter` and the operations on its output. The source is a list
-- of characters, as in the lexer.
pub mod Format
pub mod Ink
pub mod Nodes
pub mod Whole
mod Tests
use izel.Prelude.{
  ℕ, zero, suc, ◌-◌, ltb, Bool, true, false, not, ◌&&◌, ◌||◌, Option, none, some, List, [], ◌∷◌,
  ◌++◌, if◌then◌else◌, Text, codes, text_eq, ◌>>=◌,
}
use izel.Lexer.Cursor.{CharTables}
use izel.Lexer.Ident.{slice}
use izel.Lexer.Token.{
  TokenKind, Token, eof, is_eof_kind, whitespace, comment, shape, forge, scroll, weave, ward, impl,
  dual, alias, let_kw, open_kw, hidden, given, else_kw, loop, while, each, in_kw, branch, break,
  next_kw, give, pure, plus, minus, star, slash, equal, eq_eq, not_eq, lt, gt, le, ge, arrow,
  fat_arrow, comma, colon,
}
use izel.Parser.Kinds.{kind_in}

pub record Formatter : Type 0 where
  pub output : Text
  pub indent_level : ℕ
  pub needs_indent : Bool
  pub last_token : Option TokenKind

-- `Formatter::new`
abbrev pub new : Formatter
new = record { output = []; indent_level = 0; needs_indent = true; last_token = none }

unfoldable pub ends_with : Text → Text → Bool
ends_with suffix [] = text_eq suffix []
ends_with suffix (c ∷ cs) = let more = ends_with suffix cs in text_eq suffix (c ∷ cs) || more

abbrev pub newline : Text
newline = 10 ∷ []

abbrev pub space : Text
space = 32 ∷ []

unfoldable pub indent : Formatter → Formatter
indent f = record f { indent_level = suc f.indent_level }

unfoldable pub dedent : Formatter → Formatter
dedent f = if ltb 0 f.indent_level then record f { indent_level = f.indent_level - 1 } else f

unfoldable pub push_newline : Formatter → Formatter
push_newline f =
    if ends_with newline f.output
    then f
    else record f { output = f.output ++ newline; needs_indent = true }

unfoldable pub push_blank_line : Formatter → Formatter
push_blank_line f =
    let line = if ends_with newline f.output then f.output else f.output ++ newline in
    if ends_with (10 ∷ 10 ∷ []) f.output
    then f
    else record f { output = line ++ newline; needs_indent = true }

unfoldable pub push_space : Formatter → Formatter
push_space f =
    if ends_with space f.output || ends_with newline f.output
    then f
    else record f { output = f.output ++ space }

-- `"    ".repeat(n)`
unfoldable pub spaces : ℕ → Text
spaces zero = []
spaces (suc n) = codes "    " ++ spaces n

module _ (tables : CharTables) where
  open tables use {is_whitespace}

  -- `s.trim().is_empty()`
  unfoldable pub is_blank : Text → Bool
  is_blank [] = true
  is_blank (c ∷ cs) = is_whitespace c && is_blank cs

  unfoldable pub trim_end : Text → Text
  trim_end [] = []
  trim_end (c ∷ cs) =
      let rest = trim_end cs in if text_eq rest [] && is_whitespace c then [] else c ∷ rest

  unfoldable pub finish : Formatter → Text
  finish f = trim_end f.output ++ newline

  unfoldable pub push_str : Text → Formatter → Formatter
  push_str s f =
      let indents = f.needs_indent && not (is_blank s) in
      let before = if indents then f.output ++ spaces f.indent_level else f.output in
      let needs = if indents then false else f.needs_indent in
      record f { output = before ++ s; needs_indent = if ends_with newline s then true else needs }

abbrev is_keyword : TokenKind → Bool
is_keyword = kind_in (
    shape ∷ forge ∷ scroll ∷ weave ∷ ward ∷ impl ∷ dual ∷ alias ∷ let_kw ∷ open_kw ∷ hidden ∷ given
    ∷ else_kw ∷ loop ∷ while ∷ each ∷ in_kw ∷ branch ∷ break ∷ next_kw ∷ give ∷ pure ∷ [])

abbrev pub space_before : TokenKind → Bool
space_before = kind_in (
    plus ∷ minus ∷ star ∷ slash ∷ equal ∷ eq_eq ∷ not_eq ∷ lt ∷ gt ∷ le ∷ ge ∷ arrow ∷ fat_arrow
    ∷ [])

abbrev pub space_after : TokenKind → Bool
space_after k = space_before k || (is_keyword k || kind_in (comma ∷ colon ∷ []) k)

-- `&self.source[token.span.lo.0 as usize..token.span.hi.0 as usize]`
unfoldable pub text_of : Text → Token → Option Text
text_of source t = slice source t.span.lo t.span.hi

module _ (tables : CharTables) where
  abbrev pub put_token : TokenKind → Text → Formatter → Formatter
  put_token k text f =
      let before = if space_before k then push_space f else f in
      let put = push_str tables text before in
      let behind = if space_after k then push_space put else put in
      record behind { last_token = some k }

  abbrev pub put_comment : Text → Formatter → Formatter
  put_comment text f = push_newline (push_str tables text f)

module _ (tables : CharTables) (source : Text) where
  unfoldable pub format_token : Token → Formatter → Option Formatter
  format_token t f = text_of source t >>= λ text.
      (if is_eof_kind t.kind then some f else some (put_token tables t.kind text f))

  -- `format_element` at a token.
  unfoldable pub format_element : Token → Formatter → Option Formatter
  format_element t f = elim (kind_in (whitespace ∷ []) t.kind) [
    | true ↦ some f
    | false ↦ elim (kind_in (comment ∷ []) t.kind) [
      | true ↦ text_of source t >>= λ text. some (put_comment tables text f)
      | false ↦ format_token t f
    ]
  ]
