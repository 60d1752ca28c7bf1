-- ===== src/Query/Lexer/Strings.antt =====
-- String literals: what doubling the quotes encodes, the lexer decodes.
use infralens.Prelude.{
  ◌≡◌, ◌≢◌, ◌<◌, ◌∙◌, ltb, refl, ap, true, false, [], ◌∷◌, ◌++◌, Bytes, ok, All, arith, ◌==◌,
  if◌then◌else◌, Bool-cases, inl, inr,
}
use infralens.Query.Lexer.{as_char, peek, push, lex_string}

-- The text of a literal, its quotes doubled.
abbrev pub escaped : Bytes → Bytes
escaped [] = []
escaped (c ∷ cs) = if c == 39 then 39 ∷ 39 ∷ escaped cs else c ∷ escaped cs

closing_quote : (rest : Bytes) → peek rest ≢ 39 → lex_string true rest ≡ ok ([], rest)
unfolding lex_string
closing_quote [] h = refl
closing_quote (c ∷ cs) h = let other : (c == 39) ≡ false = ground arith in rw other refl

-- A text of ASCII characters without the byte 0, its quotes doubled and a closing quote behind it,
-- is read back as that text, where no further quote follows.
pub lex_string-escaped :
    (text rest : Bytes)
    → All (λ c. (c ≢ 0) × (c < 128)) text
    → peek rest ≢ 39
    → lex_string false (escaped text ++ 39 ∷ rest) ≡ ok (text, rest)
unfolding lex_string as_char
lex_string-escaped [] rest h next = closing_quote rest next
lex_string-escaped (c ∷ cs) rest h next = elim (Bool-cases (c == 39)) [
  | inl quote ↦
      let same : c ≡ 39 = ground arith in
      rw same (ap (push 39) (lex_string-escaped cs rest h.1 next))
  | inr other ↦
      let printable : (c == 0) ≡ false = ground (arith, h.0.0) in
      let ascii : ltb c 128 ≡ true = ground (arith, h.0.1) in
      rw other
        (rw (other, printable) (ap (push c) (lex_string-escaped cs rest h.1 next) ∙ rw ascii refl))
]
