-- ===== src/Lexer/Comments.antt =====
-- crates/izel_lexer/src/lexer.rs, `eat_multi_line_comment`: block comments nest.
use izel.Prelude.{
  ℕ, zero, suc, ◌+◌, ◌-◌, ◌<◌, ◌≡◌, refl, ap, ◌∙◌, Bool, false, ◌&&◌, ◌||◌, List, [], ◌∷◌, ◌++◌,
  arith, ◌==◌, length, append_assoc,
}
use izel.Lexer.Cursor.{Cursor, advance}
use izel.Lexer.Literals.{comment_loop, eat_multi_line_comment}
use izel.Lexer.Reads.{chars-behind, bump-cons, first-cons}

-- The character behind a place in a comment's body; behind the body stands `~/`.
abbrev pub ahead : List ℕ → ℕ
ahead [] = b'~'
ahead (c ∷ cs) = c

-- Two characters that open or close a comment.
abbrev pub is_mark : ℕ → ℕ → Bool
is_mark c d = (c == b'/' && d == b'~') || (c == b'~' && d == b'/')

-- The text between the marks of a comment: characters that are no marks, and comments.
pub data Body : List ℕ → Type 0 where
  done : Body []
  plain : {c : ℕ} {cs : List ℕ} → is_mark c (ahead cs) ≡ false → Body cs → Body (c ∷ cs)
  nested :
      {inner cs : List ℕ}
      → Body inner
      → Body cs
      → Body (b'/' ∷ b'~' ∷ (inner ++ (b'~' ∷ b'/' ∷ cs)))

-- Behind `body`, the loop goes on before `rest` at the same depth, with fuel enough.
record Continues (fuel depth : ℕ) (s : Cursor) (rest : List ℕ) : Type 0 where
  fuel_left : ℕ
  behind : Cursor
  same : comment_loop fuel depth s ≡ comment_loop fuel_left depth behind
  chars_left : behind.chars ≡ rest
  enough : length rest < fuel_left

module _ (fuel depth : ℕ) (s : Cursor) {c d : ℕ} {cs : List ℕ} (e : s.chars ≡ c ∷ d ∷ cs) where
  ahead_eq : (advance s).chars ≡ d ∷ cs
  ahead_eq = chars-behind s e

  loop_plain :
      is_mark c d ≡ false → comment_loop (suc fuel) depth s ≡ comment_loop fuel depth (advance s)
  unfolding comment_loop
  loop_plain h = ground (arith, bump-cons s e, first-cons (advance s) ahead_eq)

  loop_open :
      c ≡ b'/'
      → d ≡ b'~'
      → comment_loop (suc fuel) depth s ≡ comment_loop fuel (depth + 1) (advance (advance s))
  unfolding comment_loop
  loop_open p q = ground (arith, bump-cons s e, first-cons (advance s) ahead_eq)

  loop_close :
      c ≡ b'~'
      → d ≡ b'/'
      → comment_loop (suc fuel) (suc (suc depth)) s
        ≡ comment_loop fuel (suc depth) (advance (advance s))
  unfolding comment_loop
  loop_close p q =
      let less : suc (suc depth) - 1 ≡ suc depth = omega arith in
      ground (
        arith,
        bump-cons s e,
        first-cons (advance s) ahead_eq,
        ap (λ n. comment_loop fuel n (advance (advance s))) less,
      )

  loop_end : c ≡ b'~' → d ≡ b'/' → comment_loop (suc fuel) 1 s ≡ advance (advance s)
  unfolding comment_loop
  loop_end p q = ground (arith, bump-cons s e, first-cons (advance s) ahead_eq)

abbrev closing : List ℕ → List ℕ
closing rest = b'~' ∷ b'/' ∷ rest

ahead_split : (cs rest : List ℕ) → (more : List ℕ) × (cs ++ closing rest ≡ ahead cs ∷ more)
ahead_split [] rest = (b'/' ∷ rest, refl)
ahead_split (c ∷ cs) rest = (cs ++ closing rest, refl)

Continues-trans :
    {fuel depth fuel' : ℕ} {s t : Cursor} {rest : List ℕ}
    → comment_loop fuel depth s ≡ comment_loop fuel' depth t
    → Continues fuel' depth t rest
    → Continues fuel depth s rest
Continues-trans e k = record {
  fuel_left = k.fuel_left;
  behind = k.behind;
  same = e ∙ k.same;
  chars_left = k.chars_left;
  enough = k.enough;
}

two_ahead :
    {c d : ℕ} (cs : List ℕ) (s : Cursor) → s.chars ≡ c ∷ d ∷ cs → (advance (advance s)).chars ≡ cs
two_ahead cs s e = let et = chars-behind s e in chars-behind (advance s) et

-- An inner comment's end takes one round.
record Closes (fuel depth : ℕ) (s : Cursor) (more : List ℕ) : Type 0 where
  fuel_left : ℕ
  same :
      comment_loop fuel (suc (suc depth)) s
      ≡ comment_loop fuel_left (suc depth) (advance (advance s))
  enough : length more < fuel_left

close_step :
    (fuel depth : ℕ) (more : List ℕ) (s : Cursor)
    → s.chars ≡ closing more
    → length (closing more) < fuel
    → Closes fuel depth s more
close_step zero depth more s e h = absurd (omega arith)
close_step (suc fuel) depth more s e h = record {
  fuel_left = fuel;
  same = loop_close fuel depth s e refl refl;
  enough = omega arith;
}

loop-Body :
    {body : List ℕ} (fuel depth : ℕ) (rest : List ℕ) (s : Cursor)
    → Body body
    → s.chars ≡ body ++ closing rest
    → length s.chars < fuel
    → Continues fuel (suc depth) s (closing rest)
loop-Body fuel depth rest s done e h = record {
  fuel_left = fuel;
  behind = s;
  same = refl;
  chars_left = e;
  enough = omega (arith, ap length e);
}
loop-Body zero depth rest s (plain m b) e h = absurd (omega arith)
loop-Body (suc fuel) depth rest s (plain {c} {cs} m b) e h =
    let (more, split) = ahead_split cs rest in
    let e' = e ∙ ap (λ t. c ∷ t) split in
    let et = chars-behind s e in
    Continues-trans (loop_plain fuel (suc depth) s e' m)
      (loop-Body fuel depth rest (advance s) b et (omega (arith, ap length e, ap length et)))
loop-Body zero depth rest s (nested b b') e h = absurd (omega arith)
loop-Body (suc fuel) depth rest s (nested {inner} {cs} b b') e h =
    let more = cs ++ closing rest in
    let e' : s.chars ≡ b'/' ∷ b'~' ∷ (inner ++ closing more) = e ∙ rw append_assoc in
    let u = advance (advance s) in
    let eu = two_ahead (inner ++ closing more) s e' in
    let deeper : suc depth + 1 ≡ suc (suc depth) = omega arith in
    let opened =
      loop_open fuel (suc depth) s e' refl refl ∙ ap (λ n. comment_loop fuel n u) deeper in
    let k = loop-Body fuel (suc depth) more u b eu (omega (arith, ap length e', ap length eu)) in
    let v = advance (advance k.behind) in
    let j = close_step k.fuel_left depth more k.behind k.chars_left k.enough in
    let ev = two_ahead more k.behind k.chars_left in
    Continues-trans (opened ∙ k.same ∙ j.same)
      (loop-Body j.fuel_left depth rest v b' ev (omega (arith, j.enough, ap length ev)))

comment_end :
    (fuel : ℕ) (rest : List ℕ) (s : Cursor)
    → s.chars ≡ closing rest
    → length (closing rest) < fuel
    → (comment_loop fuel 1 s).chars ≡ rest
comment_end zero rest s e h = absurd (omega arith)
comment_end (suc fuel) rest s e h = rw (loop_end fuel 0 s e refl refl) (two_ahead rest s e)

-- Behind the marks that open it, a block comment ends at the first `~/` that closes no inner one.
pub eat_multi_line_comment-Body :
    {body : List ℕ} (rest : List ℕ) (s : Cursor)
    → Body body
    → s.chars ≡ body ++ (b'~' ∷ b'/' ∷ rest)
    → (eat_multi_line_comment s).chars ≡ rest
unfolding eat_multi_line_comment
eat_multi_line_comment-Body rest s b e =
    let k = loop-Body (suc (length s.chars)) 0 rest s b e (omega arith) in
    rw k.same (comment_end k.fuel_left rest k.behind k.chars_left k.enough)
