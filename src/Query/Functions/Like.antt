-- ===== src/Query/Functions/Like.antt =====
-- crates/infralens-query/src/functions/eval.rs: LIKE, over the characters of a text.
use infralens.Prelude.{
  ℕ, suc, Bool, true, false, not, ◌&&◌, Option, none, some, List, [], ◌∷◌, ◌++◌, Bytes, ◌==◌,
  list_eq, if◌then◌else◌,
}

-- `%` becomes `.*`, and `_` becomes `.`.
abbrev pub glob_char : ℕ → Bytes
glob_char c = if c == 37 then 46 ∷ 42 ∷ [] else if c == 95 then 46 ∷ [] else c ∷ []

unfoldable pub glob_to_regex : Bytes → Bytes
glob_to_regex [] = []
glob_to_regex (c ∷ cs) = glob_char c ++ glob_to_regex cs

-- `str::strip_prefix`
abbrev pub strip_prefix : Bytes → Bytes → Option Bytes
strip_prefix [] s = some s
strip_prefix (c ∷ cs) [] = none
strip_prefix (c ∷ cs) (d ∷ ds) = if c == d then strip_prefix cs ds else none

-- `str::find`, with what follows the occurrence: the first position where the part stands.
unfoldable pub find : Bytes → ℕ → Bytes → Option (ℕ × Bytes)
find part pos [] = elim (strip_prefix part []) [ some rest ↦ some (pos, rest) | none ↦ none ]
find part pos (c ∷ cs) =
    let later = find part (suc pos) cs in
    elim (strip_prefix part (c ∷ cs)) [ some rest ↦ some (pos, rest) | none ↦ later ]

-- `split(".*")`: `part` is what was read of the current part, in reverse.
abbrev pub reverse_onto : Bytes → Bytes → Bytes
reverse_onto [] ys = ys
reverse_onto (x ∷ xs) ys = reverse_onto xs (x ∷ ys)

-- The part before a dot that was read last.
abbrev pub before_dot : Bytes → Option Bytes
before_dot [] = none
before_dot (x ∷ xs) = if x == 46 then some xs else none

unfoldable pub split_wildcards : Bytes → Bytes → List Bytes
split_wildcards part [] = reverse_onto part [] ∷ []
split_wildcards part (c ∷ cs) =
    let plain = split_wildcards (c ∷ part) cs in
    let fresh = split_wildcards [] cs in
    let star : List Bytes = elim (before_dot part) [
      | none ↦ plain
      | some before ↦ reverse_onto before [] ∷ fresh
    ] in
    if c == 42 then star else plain

abbrev pub is_prefix : Bytes → Bytes → Bool
is_prefix p s = elim (strip_prefix p s) [ none ↦ false | some rest ↦ true ]

abbrev pub starts_wild : Bytes → Bool
starts_wild pattern = is_prefix (46 ∷ 42 ∷ []) pattern

abbrev pub ends_wild : Bytes → Bool
ends_wild pattern = is_prefix (42 ∷ 46 ∷ []) (reverse_onto pattern [])

abbrev pub is_nil : Bytes → Bool
is_nil [] = true
is_nil (c ∷ cs) = false

-- The loop over the parts; `none` is the early `return false`.
unfoldable pub match_parts : ℕ → Bool → List Bytes → Bytes → Option Bytes
match_parts i wild [] remaining = some remaining
match_parts i wild (part ∷ parts) remaining =
    let skipped = match_parts (suc i) wild parts remaining in
    let searched : Option Bytes = elim (find part 0 remaining) [
      | none ↦ none
      | some found ↦
          let next = match_parts (suc i) wild parts found.1 in
          if (i == 0 && not wild) && not (found.0 == 0) then none else next
    ] in
    if is_nil part then skipped else searched

abbrev pub matched : Bool → Option Bytes → Bool
matched wild none = false
matched wild (some remaining) = if not wild && not (is_nil remaining) then false else true

-- A pattern without a wildcard is one part.
abbrev pub match_split : Bytes → Bytes → List Bytes → Bool
match_split s pattern [] = list_eq s pattern
match_split s pattern (part ∷ []) = list_eq s pattern
match_split s pattern (part ∷ next ∷ parts) =
    matched (ends_wild pattern) (match_parts 0 (starts_wild pattern) (part ∷ next ∷ parts) s)

unfoldable pub simple_like_match : Bytes → Bytes → Bool
simple_like_match s pattern = match_split s pattern (split_wildcards [] pattern)
