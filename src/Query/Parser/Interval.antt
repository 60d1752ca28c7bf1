-- ===== src/Query/Parser/Interval.antt =====
-- `parse_interval` of crates/infralens-query/src/parser.rs. The lexer makes characters of bytes, so a
-- character is below 256; the product wraps, as it does in a release build.
use infralens.Prelude.{
  ℕ, ◌+◌, ◌-◌, ◌*◌, ◌^◌, Bool, true, false, ◌&&◌, ◌||◌, Option, none, some, List, [], ◌∷◌, ◌++◌,
  map, Bytes, Result, ok, err, codes, all, any, list_eq, ltb, leb, ◌==◌, if◌then◌else◌, ℤ, pos,
  negsuc, ◌*ℤ◌, sub_ℕ, as_u64, in_i64,
}
use infralens.Query.Errors.{QueryError, parse}
use infralens.Query.Lexer.{is_digit}

abbrev pub is_whitespace : ℕ → Bool
is_whitespace c = leb 9 c && leb c 13 || c == 32 || c == 133 || c == 160

-- `char::is_alphabetic` below 256.
abbrev pub is_alphabetic : ℕ → Bool
is_alphabetic c =
    leb 65 c && leb c 90
    || leb 97 c && leb c 122
    || c == 170
    || c == 181
    || c == 186
    || leb 192 c && leb c 255 && (if c == 215 || c == 247 then false else true)

abbrev pub trim_start : Bytes → Bytes
trim_start [] = []
trim_start (c ∷ cs) = let rest = trim_start cs in if is_whitespace c then rest else c ∷ cs

abbrev pub trim_end : Bytes → Bytes
trim_end [] = []
trim_end (c ∷ cs) = let rest = trim_end cs in if all is_whitespace (c ∷ cs) then [] else c ∷ rest

abbrev pub trim : Bytes → Bytes
trim text = trim_end (trim_start text)

-- The text up to the first letter, and the rest.
abbrev pub split_at_letter : Bytes → Bytes × Bytes
split_at_letter [] = ([], [])
split_at_letter (c ∷ cs) =
    let rest = split_at_letter cs in if is_alphabetic c then ([], c ∷ cs) else (c ∷ rest.0, rest.1)

abbrev pub number : ℕ → Bytes → ℕ
number n [] = n
number n (c ∷ cs) = number (n * 10 + (c - 48)) cs

abbrev pub digits : Bytes → Option ℕ
digits [] = none
digits (c ∷ cs) = if all is_digit (c ∷ cs) then some (number 0 (c ∷ cs)) else none

abbrev pub negate : Option ℕ → Option ℤ
negate none = none
negate (some n) = in_i64 (sub_ℕ 0 n)

abbrev pub positive : Option ℕ → Option ℤ
positive none = none
positive (some n) = in_i64 (pos n)

-- `str::parse::<i64>`
abbrev pub parse_number : Bytes → Option ℤ
parse_number [] = none
parse_number (c ∷ cs) =
    if c == 45
    then negate (digits cs)
    else positive (if c == 43 then digits cs else digits (c ∷ cs))

abbrev pub one_of : Bytes → List Bytes → Bool
one_of unit units = any (list_eq unit) units

unfoldable pub ns_per_unit : Bytes → Option ℕ
ns_per_unit unit =
    if one_of unit (map codes ("us" ∷ "microsecond" ∷ "microseconds" ∷ []))
    then some 1000
    else if one_of unit (map codes ("ms" ∷ "millisecond" ∷ "milliseconds" ∷ "millisec" ∷ []))
    then some 1000000
    else if one_of unit (map codes ("s" ∷ "sec" ∷ "second" ∷ "seconds" ∷ []))
    then some 1000000000
    else if one_of unit (map codes ("m" ∷ "min" ∷ "minute" ∷ "minutes" ∷ []))
    then some (60 * 1000000000)
    else if one_of unit (map codes ("h" ∷ "hr" ∷ "hour" ∷ "hours" ∷ []))
    then some (3600 * 1000000000)
    else if one_of unit (map codes ("d" ∷ "day" ∷ "days" ∷ []))
    then some (86400 * 1000000000)
    else none

-- The i64 with the low 64 bits of an integer.
abbrev pub wrap_i64 : ℤ → ℤ
wrap_i64 a = let u = as_u64 a in if ltb u (2 ^ 63) then pos u else negsuc (2 ^ 64 - 1 - u)

abbrev pub lower_case : ℕ → ℕ
lower_case c = if leb 65 c && leb c 90 then c + 32 else c

abbrev pub scaled : Bytes → ℤ → Option ℕ → Result ℤ QueryError
scaled unit n none = err (parse (codes "unknown interval unit: " ++ unit))
scaled unit n (some ns) = ok (wrap_i64 (n *ℤ pos ns))

abbrev pub interval_of : Bytes → Bytes → Option ℤ → Result ℤ QueryError
interval_of text unit none =
    err (parse (codes "invalid interval number in: '" ++ (text ++ codes "'")))
interval_of text unit (some n) = scaled unit n (ns_per_unit unit)

unfoldable pub parse_interval : Bytes → Result ℤ QueryError
parse_interval s =
    let text = trim s in
    let (front, back) = split_at_letter text in
    interval_of text (map lower_case (trim back)) (parse_number (trim front))
