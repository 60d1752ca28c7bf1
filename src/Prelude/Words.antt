-- ===== src/Prelude/Words.antt =====
-- Little-endian bytes of a word, and exact reads from a byte stream.
use Prim.Native.Nat.{ℕ, zero, suc, ◌+◌, ◌*◌, ◌/◌, ◌%◌, ◌^◌, ◌≤◌, ◌<◌}
use Prim.Native.Char.{code}
use Prim.Native.String.{String}
use mathlib.Core.Path.{◌≡◌, refl, ap}
use mathlib.Core.Logic.{inl, inr}
use mathlib.Core.Option.{Option, none, some}
use mathlib.Core.List.{List, [], ◌∷◌, ◌++◌}
use native.Mathlib.Omega.{arith}
use native.Mathlib.Nat.{pow-suc}
use infralens.Prelude.Tests.{Option-cases}
use infralens.Prelude.Lists.{length}

abbrev pub Bytes : Type 0
Bytes = List ℕ

-- The bytes of an ASCII text.
abbrev pub codes : String → Bytes
codes String.[] = []
codes (String.◌∷◌ c s) = code c ∷ codes s

-- `to_le_bytes` of a word of `k` bytes.
abbrev pub to_le_bytes : ℕ → ℕ → Bytes
to_le_bytes zero n = []
to_le_bytes (suc k) n = n % 256 ∷ to_le_bytes k (n / 256)

abbrev pub from_le_bytes : Bytes → ℕ
from_le_bytes [] = 0
from_le_bytes (b ∷ bs) = b + 256 * from_le_bytes bs

pub length-to_le_bytes : (k n : ℕ) → length (to_le_bytes k n) ≡ k
length-to_le_bytes zero n = refl
length-to_le_bytes (suc k) n = ap suc (length-to_le_bytes k (n / 256))

pub from_le_bytes-to_le_bytes : (k n : ℕ) → n < 256 ^ k → from_le_bytes (to_le_bytes k n) ≡ n
from_le_bytes-to_le_bytes zero n h = omega arith
from_le_bytes-to_le_bytes (suc k) n h =
    omega
      (arith, pow-suc 256 k, from_le_bytes-to_le_bytes k (n / 256) (omega (arith, pow-suc 256 k)))

-- `Read::read_exact` of `n` bytes: the bytes and what is left, or the end of the file too soon.
abbrev pub read_exact : ℕ → Bytes → Option (Bytes × Bytes)
read_exact zero bs = some ([], bs)
read_exact (suc n) [] = none
read_exact (suc n) (b ∷ bs) = elim (read_exact n bs) [
  | none ↦ none
  | some (got, rest) ↦ some (b ∷ got, rest)
]

pub read_exact-append : (xs ys : Bytes) → read_exact (length xs) (xs ++ ys) ≡ some (xs, ys)
read_exact-append [] ys = refl
read_exact-append (x ∷ xs) ys = ground (arith, read_exact-append xs ys)

pub read_exact_short : (n : ℕ) (bs : Bytes) → length bs < n → read_exact n bs ≡ none
read_exact_short zero bs h = absurd (omega arith)
read_exact_short (suc n) [] h = refl
read_exact_short (suc n) (b ∷ bs) h = ground (arith, read_exact_short n bs)

pub length-read_exact :
    (n : ℕ) (bs got rest : Bytes) → read_exact n bs ≡ some (got, rest) → length rest + n ≡ length bs
length-read_exact zero bs got rest h = ground arith
length-read_exact (suc n) [] got rest h = ground arith
length-read_exact (suc n) (b ∷ bs) got rest h = elim (Option-cases (read_exact n bs)) [
  | inl short ↦ ground arith
  | inr ((g, r), read) ↦ ground (arith, length-read_exact n bs g r read)
]

-- Two ways to cut a list: the longer first part begins with the shorter one.
pub append_split {ℓ} :
    {A : Type ℓ} (xs ys us vs : List A)
    → xs ++ ys ≡ us ++ vs
    → length xs ≤ length us
    → (zs : List A) × (us ≡ xs ++ zs) × (ys ≡ zs ++ vs)
append_split [] ys us vs e h = (us, refl, e)
append_split (x ∷ xs) ys [] vs e h = absurd (omega arith)
append_split (x ∷ xs) ys (u ∷ us) vs e h =
    let tails = append_split xs ys us vs (cc) (omega arith) in (tails.0, cc (tails.1), tails.2)
