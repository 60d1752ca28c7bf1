-- ===== src/Storage/Bloom/Bits.antt =====
-- The bit array: setting a bit, testing a bit.
use Prim.Native.Nat.{bit_and, bit_or}
use infralens.Prelude.{
  replicate, ◌⊎◌, inl, inr, ap, ◌∙◌, ℕ, zero, suc, ◌/◌, ◌%◌, ◌^◌, ◌<◌, ◌≡◌, refl, Bool, true, false,
  not, ◌&&◌, ◌||◌, Option, none, some, [], ◌∷◌, Bytes, length, All, arith, ltb, ltb→lt, ◌==◌,
  if◌then◌else◌,
}
use infralens.Storage.Bloom.{or_at, byte_at}

-- Every value below a bound, by evaluation.
abbrev all_below : ℕ → (ℕ → Bool) → Bool
all_below zero p = true
all_below (suc n) p = if p n then all_below n p else false

all_below_sound : (n : ℕ) (p : ℕ → Bool) (x : ℕ) → all_below n p ≡ true → x < n → p x ≡ true
all_below_sound zero p x h lt = absurd (omega arith)
all_below_sound (suc n) p x h lt = ground (arith, all_below_sound n p x)

-- The test of the source on one byte.
unfoldable pub has_bit : ℕ → ℕ → Bool
has_bit byte k = not (bit_and byte (2 ^ k) == 0)

abbrev same : Bool → Bool → Bool
same true b = b
same false b = not b

same_eq : (x y z : Bool) → (same x y && z) ≡ true → (x ≡ y) × (z ≡ true)
same_eq x y z h = ground arith

or_row : ℕ → ℕ → ℕ → Bool
or_row b j k =
    same (has_bit (bit_or b (2 ^ j)) k) (j == k || has_bit b k) && ltb (bit_or b (2 ^ j)) 256

or_table : all_below 256 (λ b. all_below 8 (λ j. all_below 8 (λ k. or_row b j k))) ≡ true
unfolding or_row has_bit
or_table = refl

-- Setting bit `j` of a byte changes no other bit.
has_bit-bit_or :
    (b j k : ℕ)
    → b < 256
    → j < 8
    → k < 8
    → (has_bit (bit_or b (2 ^ j)) k ≡ (j == k || has_bit b k)) × (bit_or b (2 ^ j) < 256)
unfolding or_row
has_bit-bit_or b j k hb hj hk =
    let at_b =
      all_below_sound 256 (λ b. all_below 8 (λ j. all_below 8 (λ k. or_row b j k))) b or_table hb in
    let at_j = all_below_sound 8 (λ j. all_below 8 (λ k. or_row b j k)) j at_b hj in
    let at_k = all_below_sound 8 (λ k. or_row b j k) k at_j hk in
    let (bit, small) = same_eq _ _ _ at_k in (bit, ltb→lt _ _ small)

abbrev pub IsByte : ℕ → Type 0
IsByte b = b < 256

-- Bit `k` of a byte that may be outside the array; there is none there.
abbrev pub bit_of : Option ℕ → ℕ → Bool
bit_of none k = false
bit_of (some b) k = has_bit b k

unfoldable pub test_bit : Bytes → ℕ → Bool
test_bit bits k = bit_of (byte_at bits (k / 8)) (k % 8)

pub byte_at-some : (bits : Bytes) (i : ℕ) → i < length bits → (b : ℕ) × (byte_at bits i ≡ some b)
unfolding byte_at
byte_at-some [] i h = absurd (omega arith)
byte_at-some (b ∷ bits) zero h = (b, refl)
byte_at-some (b ∷ bits) (suc i) h = byte_at-some bits i (omega arith)

-- The array `new` is `old` with bit `j` of byte `i` set.
abbrev Sets : ℕ → ℕ → Bytes → Bytes → Type 0
Sets i j old new =
    (l k : ℕ)
    → k < 8
    → bit_of (byte_at new l) k ≡ ((if l == i then j == k else false) || bit_of (byte_at old l) k)

Sets-head :
    (b j : ℕ) (bits : Bytes) → b < 256 → j < 8 → Sets 0 j (b ∷ bits) (bit_or b (2 ^ j) ∷ bits)
unfolding byte_at
Sets-head b j bits hb hj zero k hk = ground (arith, has_bit-bit_or b j k hb hj hk)
Sets-head b j bits hb hj (suc l) k hk = ground arith

Sets-tail : (b i j : ℕ) (old new : Bytes) → Sets i j old new → Sets (suc i) j (b ∷ old) (b ∷ new)
unfolding byte_at
Sets-tail b i j old new sets zero k hk = ground arith
Sets-tail b i j old new sets (suc l) k hk = ground (arith, sets l k hk)

-- `or_at` inside the array succeeds, and sets one bit.
or_at_lem :
    (bits : Bytes) (i j : ℕ)
    → i < length bits
    → j < 8
    → All IsByte bits
    → (bits' : Bytes) × (or_at bits i (2 ^ j) ≡ some bits')
      × (length bits' ≡ length bits)
      × All IsByte bits'
      × Sets i j bits bits'
unfolding or_at
or_at_lem [] i j h hj bytes = absurd (omega arith)
or_at_lem (b ∷ bits) zero j h hj bytes = (
  bit_or b (2 ^ j) ∷ bits,
  refl,
  refl,
  ((has_bit-bit_or b j 0 bytes.0 hj (omega arith)).1, bytes.1),
  Sets-head b j bits bytes.0 hj,
)
or_at_lem (b ∷ bits) (suc i) j h hj bytes =
    let (rest, run, len, ok, sets) = or_at_lem bits i j (omega arith) hj bytes.1 in
    (b ∷ rest, rw run, omega (arith, len), (bytes.0, ok), Sets-tail b i j bits rest sets)

-- Setting the bit with number `bit` sets that bit of the array and no other.
pub or_at-test_bit :
    (bits : Bytes) (bit : ℕ)
    → bit / 8 < length bits
    → All IsByte bits
    → (bits' : Bytes) × (or_at bits (bit / 8) (2 ^ (bit % 8)) ≡ some bits')
      × (length bits' ≡ length bits)
      × All IsByte bits'
      × ((k : ℕ) → test_bit bits' k ≡ (k == bit || test_bit bits k))
unfolding test_bit
or_at-test_bit bits bit h bytes =
    let (bits', run, len, ok, sets) = or_at_lem bits (bit / 8) (bit % 8) h (omega arith) bytes in
    (bits', run, len, ok, λ k. ground (arith, sets (k / 8) (k % 8) (omega arith)))

zero_row : ℕ → Bool
zero_row k = not (has_bit 0 k)

zero_table : all_below 8 zero_row ≡ true
unfolding zero_row has_bit
zero_table = refl

has_bit_zero : (k : ℕ) → k < 8 → has_bit 0 k ≡ false
unfolding zero_row
has_bit_zero k h = let at_k = all_below_sound 8 zero_row k zero_table h in ground (arith, at_k)

byte_at-replicate :
    (n i : ℕ) → (byte_at (replicate n 0) i ≡ none) ⊎ (byte_at (replicate n 0) i ≡ some 0)
unfolding byte_at
byte_at-replicate zero i = inl refl
byte_at-replicate (suc n) zero = inr refl
byte_at-replicate (suc n) (suc i) = byte_at-replicate n i

pub test_bit-replicate : (n k : ℕ) → test_bit (replicate n 0) k ≡ false
unfolding test_bit
test_bit-replicate n k = elim (byte_at-replicate n (k / 8)) [
  | inl outside ↦ ap (λ b. bit_of b (k % 8)) outside
  | inr inside ↦ ap (λ b. bit_of b (k % 8)) inside ∙ has_bit_zero (k % 8) (omega arith)
]
