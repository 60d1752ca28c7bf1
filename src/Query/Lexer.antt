-- ===== src/Query/Lexer.antt =====
-- crates/infralens-query/src/lexer.rs: from bytes to tokens. The state is what is left of the source:
-- `pos` is the length of the source less that. `parse_f64` is the standard library's reader of floats.
pub mod Total
pub mod Strings
mod Tests
use infralens.Prelude.{
  ℕ, zero, suc, ◌+◌, ◌-◌, ◌*◌, ◌/◌, ◌%◌, ◌^◌, Bool, true, false, ◌&&◌, ◌||◌, Option, none, some,
  List, [], ◌∷◌, ◌++◌, map, Bytes, Result, ok, err, codes, length, list_eq, ltb, leb, ◌==◌,
  if◌then◌else◌, ℤ, pos,
}
use infralens.Decimal.{decimal}
use infralens.Query.Errors.{QueryError, lex}

pub data Token : Type 0 where
  select' : Token
  from' : Token
  where' : Token
  and' : Token
  or' : Token
  not' : Token
  is : Token
  null' : Token
  in' : Token
  between : Token
  like : Token
  join : Token
  inner : Token
  left : Token
  right : Token
  on : Token
  as' : Token
  group : Token
  by' : Token
  having : Token
  order : Token
  asc : Token
  desc : Token
  limit : Token
  offset : Token
  true' : Token
  false' : Token
  distinct : Token
  interval : Token
  ident : Bytes → Token
  int_lit : ℤ → Token
  float_lit : ℕ → Token
  str_lit : Bytes → Token
  plus : Token
  minus : Token
  star : Token
  slash : Token
  percent : Token
  eq : Token
  not_eq : Token
  lt : Token
  lt_eq : Token
  gt : Token
  gt_eq : Token
  l_paren : Token
  r_paren : Token
  comma : Token
  dot : Token
  semicolon : Token
  eof : Token

-- The next byte, 0 at the end.
abbrev pub peek : Bytes → ℕ
peek [] = 0
peek (c ∷ cs) = c

abbrev pub is_space : ℕ → Bool
is_space c = c == 32 || c == 9 || c == 10 || c == 13

abbrev pub is_digit : ℕ → Bool
is_digit c = leb 48 c && leb c 57

abbrev pub is_letter : ℕ → Bool
is_letter c = leb 97 c && leb c 122 || leb 65 c && leb c 90 || c == 95

-- The flag says that a comment has begun; its line's end is then read as a space.
unfoldable pub skip_whitespace_and_comments : Bool → Bytes → Bytes
skip_whitespace_and_comments _ [] = []
skip_whitespace_and_comments true (c ∷ cs) =
    let after = skip_whitespace_and_comments false cs in
    let inside = skip_whitespace_and_comments true cs in if c == 10 then after else inside
skip_whitespace_and_comments false (c ∷ cs) =
    let after = skip_whitespace_and_comments false cs in
    let comment = skip_whitespace_and_comments true cs in
    if is_space c then after else if c == 45 && peek cs == 45 then comment else c ∷ cs

abbrev pub Lexed : Type 0
Lexed = Result (Token × Bytes) QueryError

-- The text of a string or a quoted name, and what follows it.
abbrev pub Text : Type 0
Text = Result (Bytes × Bytes) QueryError

-- The UTF-8 bytes of the character that `as char` makes of a byte.
unfoldable pub as_char : ℕ → Bytes
as_char c = if ltb c 128 then c ∷ [] else (192 + c / 64) ∷ (128 + c % 64) ∷ []

abbrev pub push : ℕ → Text → Text
push c (err e) = err e
push c (ok (s, rest)) = ok (as_char c ++ s, rest)

-- The flag says that a quote was read: a second one makes it part of the text.
unfoldable pub lex_string : Bool → Bytes → Text
lex_string false [] = err (lex (codes "unterminated string literal"))
lex_string true [] = ok ([], [])
lex_string true (c ∷ cs) =
    let more = lex_string false cs in if c == 39 then push 39 more else ok ([], c ∷ cs)
lex_string false (c ∷ cs) =
    let closed = lex_string true cs in
    let more = lex_string false cs in
    if c == 0
    then err (lex (codes "unterminated string literal"))
    else if c == 39
    then closed
    else push c more

unfoldable pub lex_quoted_ident : Bytes → Text
lex_quoted_ident [] = err (lex (codes "unterminated quoted identifier"))
lex_quoted_ident (c ∷ cs) =
    let more = lex_quoted_ident cs in
    if c == 0
    then err (lex (codes "unterminated quoted identifier"))
    else if c == 34
    then ok ([], cs)
    else push c more

abbrev pub cons_first : ℕ → Bytes × Bytes → Bytes × Bytes
cons_first c (xs, rest) = (c ∷ xs, rest)

-- The bytes that pass the test, and those behind them.
unfoldable pub span : (ℕ → Bool) → Bytes → Bytes × Bytes
span p [] = ([], [])
span p (c ∷ cs) = let more = span p cs in if p c then cons_first c more else ([], c ∷ cs)

abbrev digits_value : ℕ → Bytes → ℕ
digits_value n [] = n
digits_value n (c ∷ cs) = digits_value (n * 10 + (c - 48)) cs

-- `str::parse::<i64>` on digits.
abbrev pub parse_i64 : Bytes → Result ℤ Bytes
parse_i64 text =
    let n = digits_value 0 text in
    if ltb n (2 ^ 63) then ok (pos n) else err (codes "number too large to fit in target type")

abbrev pub int_token : Bytes → Result ℤ Bytes → Lexed
int_token rest (ok n) = ok (int_lit n, rest)
int_token rest (err e) = err (lex e)

abbrev pub float_token : Bytes → Result ℕ Bytes → Lexed
float_token rest (ok x) = ok (float_lit x, rest)
float_token rest (err e) = err (lex e)

-- A dot counts as part of a number only before a digit.
abbrev pub after_digits : (Bytes → Result ℕ Bytes) → Bytes → Bytes → Lexed
after_digits parse_f64 whole [] = int_token [] (parse_i64 whole)
after_digits parse_f64 whole (c ∷ cs) =
    let (fraction, rest) = span is_digit cs in
    if c == 46 && is_digit (peek cs)
    then float_token rest (parse_f64 (whole ++ c ∷ fraction))
    else int_token (c ∷ cs) (parse_i64 whole)

unfoldable pub lex_number : (Bytes → Result ℕ Bytes) → Bytes → Lexed
lex_number parse_f64 src =
    let (whole, rest) = span is_digit src in after_digits parse_f64 whole rest

abbrev pub upper : ℕ → ℕ
upper c = if leb 97 c && leb c 122 then c - 32 else c

unfoldable pub keywords : List (Bytes × Token)
keywords =
    (codes "SELECT", select')
    ∷ (codes "FROM", from')
    ∷ (codes "WHERE", where')
    ∷ (codes "AND", and')
    ∷ (codes "OR", or')
    ∷ (codes "NOT", not')
    ∷ (codes "IS", is)
    ∷ (codes "NULL", null')
    ∷ (codes "IN", in')
    ∷ (codes "BETWEEN", between)
    ∷ (codes "LIKE", like)
    ∷ (codes "JOIN", join)
    ∷ (codes "INNER", inner)
    ∷ (codes "LEFT", left)
    ∷ (codes "RIGHT", right)
    ∷ (codes "ON", on)
    ∷ (codes "AS", as')
    ∷ (codes "GROUP", group)
    ∷ (codes "BY", by')
    ∷ (codes "HAVING", having)
    ∷ (codes "ORDER", order)
    ∷ (codes "ASC", asc)
    ∷ (codes "DESC", desc)
    ∷ (codes "LIMIT", limit)
    ∷ (codes "OFFSET", offset)
    ∷ (codes "TRUE", true')
    ∷ (codes "FALSE", false')
    ∷ (codes "DISTINCT", distinct)
    ∷ (codes "INTERVAL", interval)
    ∷ []

abbrev pub keyword_or_ident : Bytes → Bytes → List (Bytes × Token) → Token
keyword_or_ident word upper_word [] = ident word
keyword_or_ident word upper_word ((k, t) ∷ ks) =
    if list_eq upper_word k then t else keyword_or_ident word upper_word ks

abbrev pub word_token : Bytes → Token
word_token word = keyword_or_ident word (map upper word) keywords

unfoldable pub lex_ident_or_keyword : Bytes → Token × Bytes
lex_ident_or_keyword src =
    let (word, rest) = span (λ c. is_letter c || is_digit c) src in (word_token word, rest)

-- The tokens of one byte.
unfoldable pub single : ℕ → Option Token
single c =
    if c == 43
    then some plus
    else if c == 45
    then some minus
    else if c == 42
    then some star
    else if c == 47
    then some slash
    else if c == 37
    then some percent
    else if c == 40
    then some l_paren
    else if c == 41
    then some r_paren
    else if c == 44
    then some comma
    else if c == 46
    then some dot
    else if c == 59
    then some semicolon
    else if c == 61
    then some eq
    else none

abbrev hex_digit : ℕ → ℕ
hex_digit d = if ltb d 10 then 48 + d else 87 + d

-- `{:#x}` of a byte.
abbrev pub hex : ℕ → Bytes
hex c =
    codes "0x"
    ++ (if ltb c 16 then hex_digit c ∷ [] else hex_digit (c / 16) ∷ hex_digit (c % 16) ∷ [])

abbrev pub text_token : (Bytes → Token) → Text → Lexed
text_token f (ok (s, rest)) = ok (f s, rest)
text_token f (err e) = err e

-- What follows `<`, `>` and `!`.
abbrev pub after_lt : Bytes → Token × Bytes
after_lt [] = (lt, [])
after_lt (c ∷ cs) = if c == 61 then (lt_eq, cs) else if c == 62 then (not_eq, cs) else (lt, c ∷ cs)

abbrev pub after_gt : Bytes → Token × Bytes
after_gt [] = (gt, [])
after_gt (c ∷ cs) = if c == 61 then (gt_eq, cs) else (gt, c ∷ cs)

abbrev pub unexpected_bang : ℕ → Bytes → QueryError
unexpected_bang len rest = lex (codes "unexpected '!' at " ++ decimal (len - length rest))

abbrev pub after_bang : ℕ → Bytes → Lexed
after_bang len [] = err (unexpected_bang len [])
after_bang len (c ∷ cs) = if c == 61 then ok (not_eq, cs) else err (unexpected_bang len (c ∷ cs))

-- `len` is the length of the source.
module _ (parse_f64 : Bytes → Result ℕ Bytes) (len : ℕ) where
  abbrev pub longer : ℕ → Bytes → Lexed
  longer c cs =
      if c == 60
      then ok (after_lt cs)
      else if c == 62
      then ok (after_gt cs)
      else if c == 33
      then after_bang len cs
      else if c == 39
      then text_token str_lit (lex_string false cs)
      else if is_digit c
      then lex_number parse_f64 (c ∷ cs)
      else if is_letter c
      then ok (lex_ident_or_keyword (c ∷ cs))
      else if c == 34
      then text_token ident (lex_quoted_ident cs)
      else err
          (lex (codes "unexpected byte " ++ (hex c ++ (codes " ('" ++ (as_char c ++ codes "')")))))

  abbrev pub short_or_longer : Option Token → ℕ → Bytes → Lexed
  short_or_longer (some t) c cs = ok (t, cs)
  short_or_longer none c cs = longer c cs

  unfoldable pub next_token : ℕ → Bytes → Lexed
  next_token c cs = short_or_longer (single c) c cs

  abbrev pub push_token :
      Token → Option (Result (List Token) QueryError) → Option (Result (List Token) QueryError)
  push_token t none = none
  push_token t (some (err e)) = some (err e)
  push_token t (some (ok ts)) = some (ok (t ∷ ts))

  abbrev pub after_token :
      (Bytes → Option (Result (List Token) QueryError))
      → Lexed
      → Option (Result (List Token) QueryError)
  after_token loop (err e) = some (err e)
  after_token loop (ok (t, rest)) = push_token t (loop rest)

  abbrev pub after_skip :
      (Bytes → Option (Result (List Token) QueryError))
      → Bytes
      → Option (Result (List Token) QueryError)
  after_skip loop [] = some (ok (eof ∷ []))
  after_skip loop (c ∷ cs) = after_token loop (next_token c cs)

  -- The loop; `none` means that the fuel ran out.
  unfoldable pub tokenise_loop : ℕ → Bytes → Option (Result (List Token) QueryError)
  tokenise_loop zero src = none
  tokenise_loop (suc fuel) src =
      after_skip (tokenise_loop fuel) (skip_whitespace_and_comments false src)

unfoldable pub tokenise : (Bytes → Result ℕ Bytes) → Bytes → Option (Result (List Token) QueryError)
tokenise parse_f64 src = tokenise_loop parse_f64 (length src) (suc (length src)) src
