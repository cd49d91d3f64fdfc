-- ===== src/Parser/Kinds.antt =====
-- crates/izel_parser/src/lib.rs: tests on the kinds of tokens. A kind is compared by the number of its
-- variant, since no kind that the parser asks for with `==` has a payload.
use izel.Prelude.{ℕ, Bool, true, false, ◌||◌, ◌==◌, List, [], ◌∷◌}
use izel.Lexer.Token.{
  TokenKind, forge, shape, scroll, weave, ward, macro, echo, branch, given, else_kw, loop, each,
  while, break, next_kw, give, let_kw, raw, bridge, flow, tide, zone, dual, seek, catch, draw,
  open_kw, hidden, pkg, pure, sole, self_kw, self_type, true_kw, false_kw, nil, as_kw, in_kw, of_kw,
  is_kw, not_kw, and_kw, or_kw, comptime, static, extern, type_kw, alias, impl, for_kw, bind, ident,
  float, tilde, bang, at, pipe, bar, double_colon, arrow, fat_arrow, dot_dot, dot_dot_eq, dot,
  question, question_question, pound, equal, plus, minus, star, slash, percent, caret, ampersand,
  ampersand_tilde, lt, gt, le, ge, eq_eq, not_eq, or_or, and_and, open_paren, close_paren,
  open_brace, close_brace, open_bracket, close_bracket, comma, semicolon, colon, whitespace,
  comment, unknown, eof, int, str, interpolated_str, byte_str, char, byte,
}

unfoldable pub tag : TokenKind → ℕ
tag forge = 0
tag shape = 1
tag scroll = 2
tag weave = 3
tag ward = 4
tag macro = 5
tag echo = 6
tag branch = 7
tag given = 8
tag else_kw = 9
tag loop = 10
tag each = 11
tag while = 12
tag break = 13
tag next_kw = 14
tag give = 15
tag let_kw = 16
tag raw = 17
tag bridge = 18
tag flow = 19
tag tide = 20
tag zone = 21
tag dual = 22
tag seek = 23
tag catch = 24
tag draw = 25
tag open_kw = 26
tag hidden = 27
tag pkg = 28
tag pure = 29
tag sole = 30
tag self_kw = 31
tag self_type = 32
tag true_kw = 33
tag false_kw = 34
tag nil = 35
tag as_kw = 36
tag in_kw = 37
tag of_kw = 38
tag is_kw = 39
tag not_kw = 40
tag and_kw = 41
tag or_kw = 42
tag comptime = 43
tag static = 44
tag extern = 45
tag type_kw = 46
tag alias = 47
tag impl = 48
tag for_kw = 49
tag bind = 50
tag ident = 51
tag float = 52
tag tilde = 53
tag bang = 54
tag at = 55
tag pipe = 56
tag bar = 57
tag double_colon = 58
tag arrow = 59
tag fat_arrow = 60
tag dot_dot = 61
tag dot_dot_eq = 62
tag dot = 63
tag question = 64
tag question_question = 65
tag pound = 66
tag equal = 67
tag plus = 68
tag minus = 69
tag star = 70
tag slash = 71
tag percent = 72
tag caret = 73
tag ampersand = 74
tag ampersand_tilde = 75
tag lt = 76
tag gt = 77
tag le = 78
tag ge = 79
tag eq_eq = 80
tag not_eq = 81
tag or_or = 82
tag and_and = 83
tag open_paren = 84
tag close_paren = 85
tag open_brace = 86
tag close_brace = 87
tag open_bracket = 88
tag close_bracket = 89
tag comma = 90
tag semicolon = 91
tag colon = 92
tag whitespace = 93
tag comment = 94
tag unknown = 95
tag eof = 96
tag (int _ _) = 97
tag (str _) = 98
tag (interpolated_str _) = 99
tag (byte_str _) = 100
tag (char _) = 101
tag (byte _) = 102

unfoldable pub any_kind : List TokenKind → ℕ → Bool
unfolding tag
any_kind [] k = false
any_kind (j ∷ ks) k = tag j == k || any_kind ks k

-- `kind == A || kind == B`, for kinds other than `Eof`.
unfoldable pub kind_in : List TokenKind → TokenKind → Bool
unfolding tag any_kind
kind_in ks eof = false
kind_in ks k = any_kind ks (tag k)

-- `kind != A && kind != Eof`
unfoldable pub kind_before : List TokenKind → TokenKind → Bool
unfolding tag any_kind
kind_before ks eof = false
kind_before ks k = elim (any_kind ks (tag k)) [ true ↦ false | false ↦ true ]

-- `is_naming_ident`
abbrev pub naming : List TokenKind
naming =
    ident ∷ next_kw ∷ loop ∷ each ∷ while ∷ break ∷ give ∷ type_kw ∷ forge ∷ sole ∷ pure ∷ open_kw
    ∷ hidden ∷ draw ∷ seek ∷ catch ∷ flow ∷ tide ∷ zone ∷ bridge ∷ raw ∷ echo ∷ ward ∷ scroll ∷ dual
    ∷ alias ∷ pkg ∷ comptime ∷ static ∷ extern ∷ bind ∷ []

-- `Whitespace` or `Comment`
abbrev pub is_trivia : TokenKind → Bool
is_trivia whitespace = true
is_trivia comment = true
is_trivia _ = false
