-- ===== src/Query/Lexer/Total.antt =====
-- Every source is read to its end: each token takes at least one byte.
use infralens.Prelude.{
  ℕ, zero, suc, ◌≤◌, ◌<◌, ◌≡◌, refl, ◌∙◌, ap, Bool, true, false, ◌&&◌, ◌||◌, Option, none, some,
  List, [], ◌∷◌, ◌++◌, Bytes, Result, ok, err, length, arith, ◌==◌, if◌then◌else◌, ℤ,
}
use infralens.Query.Errors.{QueryError}
use infralens.Query.Lexer.{
  Token, eof, str_lit, ident, Lexed, Text, push, peek, is_space, is_digit, is_letter,
  skip_whitespace_and_comments, lex_string, lex_quoted_ident, span, after_digits, int_token,
  float_token, parse_i64, lex_number, lex_ident_or_keyword, single, text_token, after_lt, after_gt,
  after_bang, longer, short_or_longer, next_token, push_token, after_token, after_skip,
  tokenise_loop, tokenise,
}

-- A list of tokens ends in `eof`.
abbrev pub Ended : Result (List Token) QueryError → Type 0
Ended (ok ts) = (init : List Token) × (ts ≡ init ++ eof ∷ [])
Ended (err e) = Unit

abbrev Done : Option (Result (List Token) QueryError) → Type 0
Done o = (r : Result (List Token) QueryError) × (o ≡ some r) × Ended r

if_intro {ℓ κ} :
    {A : Type ℓ} (P : A → Type κ) (b : Bool) (x y : A)
    → (b ≡ true → P x)
    → P y
    → P (if b then x else y)
if_intro P true x y hx hy = hx refl
if_intro P false x y hx hy = hy

-- At most `n` bytes are left.
abbrev TextLeft : ℕ → Text → Type 0
TextLeft n (ok (s, rest)) = length rest ≤ n
TextLeft n (err e) = Unit

abbrev Left : ℕ → Lexed → Type 0
Left n (ok (t, rest)) = length rest ≤ n
Left n (err e) = Unit

push-TextLeft : (n c : ℕ) (t : Text) → TextLeft n t → TextLeft (suc n) (push c t)
push-TextLeft n c (ok (s, rest)) h = omega arith
push-TextLeft n c (err e) h = tt

TextLeft-suc : (n : ℕ) (t : Text) → TextLeft n t → TextLeft (suc n) t
TextLeft-suc n (ok (s, rest)) h = omega arith
TextLeft-suc n (err e) h = tt

lex_string-TextLeft : (quoted : Bool) (cs : Bytes) → TextLeft (length cs) (lex_string quoted cs)
unfolding lex_string
lex_string-TextLeft true [] = omega arith
lex_string-TextLeft false [] = tt
lex_string-TextLeft true (c ∷ cs) =
    if_intro (TextLeft (suc (length cs))) (c == 39) _ _
      (λ h. push-TextLeft (length cs) 39 _ (lex_string-TextLeft false cs)) (omega arith)
lex_string-TextLeft false (c ∷ cs) =
    if_intro (TextLeft (suc (length cs))) (c == 0) _ _ (λ h. tt)
      (if_intro (TextLeft (suc (length cs))) (c == 39) _ _
        (λ h. TextLeft-suc (length cs) _ (lex_string-TextLeft true cs))
        (push-TextLeft (length cs) c _ (lex_string-TextLeft false cs)))

lex_quoted_ident-TextLeft : (cs : Bytes) → TextLeft (length cs) (lex_quoted_ident cs)
unfolding lex_quoted_ident
lex_quoted_ident-TextLeft [] = tt
lex_quoted_ident-TextLeft (c ∷ cs) =
    if_intro (TextLeft (suc (length cs))) (c == 0) _ _ (λ h. tt)
      (if_intro (TextLeft (suc (length cs))) (c == 34) _ _ (λ h. omega arith)
        (push-TextLeft (length cs) c _ (lex_quoted_ident-TextLeft cs)))

text_token-Left : (n : ℕ) (f : Bytes → Token) (t : Text) → TextLeft n t → Left n (text_token f t)
text_token-Left n f (ok (s, rest)) h = h
text_token-Left n f (err e) h = tt

length-span : (p : ℕ → Bool) (cs : Bytes) → length (span p cs).1 ≤ length cs
unfolding span
length-span p [] = omega arith
length-span p (c ∷ cs) =
    if_intro (λ (r : Bytes × Bytes). length r.1 ≤ suc (length cs)) (p c) _ _
      (λ h. omega (arith, length-span p cs)) (omega arith)

-- Where the first byte passes the test, it is taken.
length-span_first :
    (p : ℕ → Bool) (c : ℕ) (cs : Bytes) → p c ≡ true → length (span p (c ∷ cs)).1 ≤ length cs
unfolding span
length-span_first p c cs h = rw h (length-span p cs)

skip-shorter :
    (comment : Bool) (cs : Bytes) → length (skip_whitespace_and_comments comment cs) ≤ length cs
unfolding skip_whitespace_and_comments
skip-shorter true [] = omega arith
skip-shorter false [] = omega arith
skip-shorter true (c ∷ cs) =
    if_intro (λ (r : Bytes). length r ≤ suc (length cs)) (c == 10) _ _
      (λ h. omega (arith, skip-shorter false cs)) (omega (arith, skip-shorter true cs))
skip-shorter false (c ∷ cs) =
    if_intro (λ (r : Bytes). length r ≤ suc (length cs)) (is_space c) _ _
      (λ h. omega (arith, skip-shorter false cs))
      (if_intro (λ (r : Bytes). length r ≤ suc (length cs)) (c == 45 && peek cs == 45) _ _
        (λ h. omega (arith, skip-shorter true cs)) (omega arith))

int_token-Left :
    (n : ℕ) (rest : Bytes) (r : Result ℤ Bytes) → length rest ≤ n → Left n (int_token rest r)
int_token-Left n rest (ok x) h = h
int_token-Left n rest (err e) h = tt

float_token-Left :
    (n : ℕ) (rest : Bytes) (r : Result ℕ Bytes) → length rest ≤ n → Left n (float_token rest r)
float_token-Left n rest (ok x) h = h
float_token-Left n rest (err e) h = tt

after_lt-Left : (cs : Bytes) → Left (length cs) (ok (after_lt cs))
after_lt-Left [] = omega arith
after_lt-Left (c ∷ cs) = ground arith

after_gt-Left : (cs : Bytes) → Left (length cs) (ok (after_gt cs))
after_gt-Left [] = omega arith
after_gt-Left (c ∷ cs) = ground arith

after_bang-Left : (len : ℕ) (cs : Bytes) → Left (length cs) (after_bang len cs)
after_bang-Left len [] = tt
after_bang-Left len (c ∷ cs) = if_intro (Left (suc (length cs))) (c == 61) _ _ (λ h. omega arith) tt

module _ (parse_f64 : Bytes → Result ℕ Bytes) where
  after_digits-Left :
      (n : ℕ) (whole rest : Bytes) → length rest ≤ n → Left n (after_digits parse_f64 whole rest)
  after_digits-Left n whole [] h = int_token-Left n [] (parse_i64 whole) h
  after_digits-Left n whole (c ∷ cs) h =
      if_intro (Left n) (c == 46 && is_digit (peek cs)) _ _
        (λ dot. float_token-Left n _ _ (omega (arith, length-span is_digit cs)))
        (int_token-Left n (c ∷ cs) (parse_i64 whole) h)

  module _ (len : ℕ) where
    longer-Left : (c : ℕ) (cs : Bytes) → Left (length cs) (longer parse_f64 len c cs)
    unfolding lex_number lex_ident_or_keyword
    longer-Left c cs =
        let L = Left (length cs) in
        if_intro L (c == 60) _ _ (λ h. after_lt-Left cs)
          (if_intro L (c == 62) _ _ (λ h. after_gt-Left cs)
            (if_intro L (c == 33) _ _ (λ h. after_bang-Left len cs)
              (if_intro L (c == 39) _ _
                (λ h. text_token-Left (length cs) str_lit _ (lex_string-TextLeft false cs))
                (if_intro L (is_digit c) _ _
                  (λ h.
                    after_digits-Left (length cs) (span is_digit (c ∷ cs)).0
                      (span is_digit (c ∷ cs)).1 (length-span_first is_digit c cs h))
                  (if_intro L (is_letter c) _ _
                    (λ h. length-span_first (λ d. is_letter d || is_digit d) c cs (rw h refl))
                    (if_intro L (c == 34) _ _
                      (λ h. text_token-Left (length cs) ident _ (lex_quoted_ident-TextLeft cs))
                      tt))))))

    next_token-Left : (c : ℕ) (cs : Bytes) → Left (length cs) (next_token parse_f64 len c cs)
    unfolding next_token
    next_token-Left c cs = by_single (single c)
      where
        by_single : (o : Option Token) → Left (length cs) (short_or_longer parse_f64 len o c cs)
        by_single (some t) = omega arith
        by_single none = longer-Left c cs

    push_token-Done :
        (t : Token) (o : Option (Result (List Token) QueryError))
        → Done o
        → Done (push_token parse_f64 len t o)
    push_token-Done t none h = cc
    push_token-Done t (some (err e)) h = (err e, refl, tt)
    push_token-Done t (some (ok ts)) (err e, same, h) = cc
    push_token-Done t (some (ok ts)) (ok us, same, (init, eq)) =
        let whole : ts ≡ us = cc in (ok (t ∷ ts), refl, (t ∷ init, ap (λ l. t ∷ l) (whole ∙ eq)))

    after_token-Done :
        (n : ℕ) (loop : Bytes → Option (Result (List Token) QueryError)) (l : Lexed)
        → Left n l
        → ((rest : Bytes) → length rest ≤ n → Done (loop rest))
        → Done (after_token parse_f64 len loop l)
    after_token-Done n loop (err e) h ih = (err e, refl, tt)
    after_token-Done n loop (ok (t, rest)) h ih = push_token-Done t (loop rest) (ih rest h)

    after_skip-Done :
        (fuel : ℕ) (loop : Bytes → Option (Result (List Token) QueryError)) (rest : Bytes)
        → length rest ≤ fuel
        → ((rest' : Bytes) → length rest' < fuel → Done (loop rest'))
        → Done (after_skip parse_f64 len loop rest)
    after_skip-Done fuel loop [] h ih = (ok (eof ∷ []), refl, ([], refl))
    after_skip-Done fuel loop (c ∷ cs) h ih =
        after_token-Done (length cs) loop (next_token parse_f64 len c cs) (next_token-Left c cs)
          (λ rest le. ih rest (omega arith))

    tokenise_loop-Done :
        (fuel : ℕ) (src : Bytes) → length src < fuel → Done (tokenise_loop parse_f64 len fuel src)
    unfolding tokenise_loop
    tokenise_loop-Done zero src h = absurd (omega arith)
    tokenise_loop-Done (suc fuel) src h =
        after_skip-Done fuel (tokenise_loop parse_f64 len fuel) _
          (omega (arith, skip-shorter false src)) (tokenise_loop-Done fuel)

-- Every source is read to its end: the fuel is never used up, since each token takes at least one
-- byte, and the result is an error or a list of tokens that ends in `eof`.
pub tokenise_total :
    (parse_f64 : Bytes → Result ℕ Bytes) (src : Bytes)
    → (r : Result (List Token) QueryError) × (tokenise parse_f64 src ≡ some r) × Ended r
unfolding tokenise
tokenise_total parse_f64 src =
    tokenise_loop-Done parse_f64 (length src) (suc (length src)) src (omega arith)
