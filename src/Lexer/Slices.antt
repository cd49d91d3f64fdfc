-- ===== src/Lexer/Slices.antt =====
-- crates/izel_lexer/src/lexer.rs, `eat_ident_text`: the byte offsets of an identifier lie on
-- character boundaries, so that the slice of the source does not panic.
use izel.Prelude.{
  ℕ, zero, suc, ◌+◌, ◌-◌, ◌≤◌, ◌≡◌, refl, ap, ◌∙◌, some, List, [], ◌∷◌, ◌++◌, arith, ◌>>=◌,
}
use izel.Lexer.Cursor.{CharTables, Cursor, len_utf8, str_len, eat_while, pos_within}
use izel.Lexer.Ident.{skip_bytes, take_bytes, slice, is_ident_continue, eat_ident_text}
use izel.Lexer.Reads.{Reads-Splits, Reads-eat_while}

pub len_utf8_pos : (c : ℕ) → 1 ≤ len_utf8 c
unfolding len_utf8
len_utf8_pos c = ground arith

pub str_len-append : (xs ys : List ℕ) → str_len (xs ++ ys) ≡ str_len xs + str_len ys
unfolding str_len
str_len-append [] ys = omega arith
str_len-append (x ∷ xs) ys = omega (arith, str_len-append xs ys)

skip_bytes-cons :
    (m n c : ℕ) (cs : List ℕ) → m ≡ len_utf8 c + n → skip_bytes m (c ∷ cs) ≡ skip_bytes n cs
unfolding skip_bytes
skip_bytes-cons zero n c cs e = absurd (omega (arith, len_utf8_pos c))
skip_bytes-cons (suc m) n c cs e =
    let width : suc m - len_utf8 c ≡ n = omega arith in
    ground (arith, ap (λ k. skip_bytes k cs) width)

skip_bytes-append : (xs ys : List ℕ) → skip_bytes (str_len xs) (xs ++ ys) ≡ some ys
unfolding str_len
skip_bytes-append [] ys = unfold skip_bytes in refl
skip_bytes-append (x ∷ xs) ys =
    skip_bytes-cons _ (str_len xs) x (xs ++ ys) refl ∙ skip_bytes-append xs ys

take_bytes-cons :
    (m n c : ℕ) (cs : List ℕ)
    → m ≡ len_utf8 c + n
    → take_bytes m (c ∷ cs) ≡ (take_bytes n cs >>= λ rest. some (c ∷ rest))
unfolding take_bytes
take_bytes-cons zero n c cs e = absurd (omega (arith, len_utf8_pos c))
take_bytes-cons (suc m) n c cs e =
    let width : suc m - len_utf8 c ≡ n = omega arith in
    ground (arith, ap (λ k. take_bytes k cs >>= λ rest. some (c ∷ rest)) width)

take_bytes-append : (xs ys : List ℕ) → take_bytes (str_len xs) (xs ++ ys) ≡ some xs
unfolding str_len
take_bytes-append [] ys = unfold take_bytes in refl
take_bytes-append (x ∷ xs) ys =
    take_bytes-cons _ (str_len xs) x (xs ++ ys) refl ∙ rw (take_bytes-append xs ys)

slice-append :
    (pre text rest : List ℕ) (start end : ℕ)
    → start ≡ str_len pre
    → end ≡ str_len pre + str_len text
    → slice (pre ++ (text ++ rest)) start end ≡ some text
unfolding slice
slice-append pre text rest start end p q =
    let width : end - start ≡ str_len text = omega arith in
    let skipped = skip_bytes-append pre (text ++ rest) in
    let taken = take_bytes-append text rest in
    ground (
      arith,
      ap (λ n. skip_bytes n (pre ++ (text ++ rest))) p,
      skipped,
      ap (λ n. take_bytes n (text ++ rest)) width,
      taken,
    )

module _ (tables : CharTables) where
  -- With the first character `c` read, the text of the identifier is `c` and what the loop read,
  -- and its offset is that of `c`.
  pub eat_ident_text_lem :
      (pre : List ℕ) (c : ℕ) (s : Cursor) (source : List ℕ)
      → source ≡ pre ++ (c ∷ s.chars)
      → (read : List ℕ) × (s.chars ≡ read ++ (eat_while (is_ident_continue tables) s).chars)
        × (eat_ident_text tables source c s
            ≡ some (str_len pre, c ∷ read, eat_while (is_ident_continue tables) s))
  unfolding eat_ident_text pos_within
  eat_ident_text_lem pre c s source e =
      let t = eat_while (is_ident_continue tables) s in
      let (read, splits) = Reads-Splits (Reads-eat_while (is_ident_continue tables) s) in
      let whole : source ≡ pre ++ ((c ∷ read) ++ t.chars) = e ∙ rw (← splits) in
      let before : str_len source ≡ str_len pre + (len_utf8 c + str_len s.chars) =
        rw e (str_len-append pre (c ∷ s.chars) ∙ unfold str_len in refl) in
      let inside : str_len s.chars ≡ str_len read + str_len t.chars =
        ap str_len splits ∙ str_len-append read t.chars in
      let text_len : str_len (c ∷ read) ≡ len_utf8 c + str_len read = unfold str_len in refl in
      let start : str_len source - str_len s.chars - len_utf8 c ≡ str_len pre = omega arith in
      let cut =
        slice-append pre (c ∷ read) t.chars (str_len source - str_len s.chars - len_utf8 c)
          (str_len source - str_len t.chars) start (omega arith) in
      (
        read,
        splits,
        ground (
          arith,
          start,
          ap
              (λ text.
                slice text (str_len source - str_len s.chars - len_utf8 c)
                  (str_len source - str_len t.chars))
              whole,
          cut,
        ),
      )
