-- ===== src/Storage/Bloom.antt =====
-- crates/infralens-storage/src/bloom.rs: the Bloom filter. `none` is a panic: an index out of bounds
-- or a remainder by zero.
pub mod Bits
pub mod Membership
pub mod Serialised
use Prim.Native.Nat.{bit_and, bit_or, bit_xor}
use infralens.Prelude.{
  ℕ, zero, suc, ◌+◌, ◌-◌, ◌*◌, ◌/◌, ◌%◌, ◌^◌, Bool, true, false, Option, none, some, List, [], ◌∷◌,
  ◌++◌, Bytes, length, take, drop, replicate, to_le_bytes, from_le_bytes, ltb, ◌==◌, if◌then◌else◌,
  ◌>>=◌, min, max,
}

pub record BloomFilter : Type 0 where
  pub bits : Bytes
  pub num_bits : ℕ
  pub num_hashes : ℕ

-- `optimal_bits` and `optimal_hashes` are the results of the two floating-point formulas.
unfoldable pub new : ℕ → ℕ → BloomFilter
new optimal_bits optimal_hashes =
    let num_bits = max optimal_bits 64 in
    record {
      bits = replicate ((num_bits + 7) / 8) 0;
      num_bits = num_bits;
      num_hashes = min (max optimal_hashes 1) 16;
    }

-- `bits[i] |= mask`
unfoldable pub or_at : Bytes → ℕ → ℕ → Option Bytes
or_at [] i mask = none
or_at (b ∷ bs) zero mask = some (bit_or b mask ∷ bs)
or_at (b ∷ bs) (suc i) mask = do rest ← or_at bs i mask; some (b ∷ rest)

-- `bits[i]`
unfoldable pub byte_at : Bytes → ℕ → Option ℕ
byte_at [] i = none
byte_at (b ∷ bs) zero = some b
byte_at (b ∷ bs) (suc i) = byte_at bs i

-- `sip_hash` is the keyed hash over the standard library's `DefaultHasher`.
module _ (sip_hash : Bytes → ℕ → ℕ) where
  unfoldable pub hash_index : BloomFilter → Bytes → ℕ → Option ℕ
  hash_index bf key seed =
      let h1 = sip_hash key 0xcafef00ddeadbeef in
      let h2 = sip_hash key (bit_xor seed 0x0102030405060708) in
      if bf.num_bits == 0 then none else some ((h1 + seed * h2 % 2 ^ 64) % 2 ^ 64 % bf.num_bits)

  -- The loop from round `i` on, with `rounds` left.
  unfoldable pub insert_from : ℕ → ℕ → Bytes → BloomFilter → Option BloomFilter
  insert_from zero i key bf = some bf
  insert_from (suc rounds) i key bf = do
    bit ← hash_index bf key i
    bits ← or_at bf.bits (bit / 8) (2 ^ (bit % 8))
    insert_from rounds (i + 1) key (record bf { bits = bits })

  unfoldable pub insert : Bytes → BloomFilter → Option BloomFilter
  insert key bf = insert_from bf.num_hashes 0 key bf

  unfoldable pub contains_from : ℕ → ℕ → Bytes → BloomFilter → Option Bool
  contains_from zero i key bf = some true
  contains_from (suc rounds) i key bf =
      let rest = contains_from rounds (i + 1) key bf in
      (do
        bit ← hash_index bf key i
        byte ← byte_at bf.bits (bit / 8)
        if bit_and byte (2 ^ (bit % 8)) == 0 then some false else rest)

  unfoldable pub contains : Bytes → BloomFilter → Option Bool
  contains key bf = contains_from bf.num_hashes 0 key bf

unfoldable pub to_bytes : BloomFilter → Bytes
to_bytes bf = to_le_bytes 8 bf.num_bits ++ (to_le_bytes 4 bf.num_hashes ++ bf.bits)

-- The sum in `byte_len` wraps, as it does in a release build.
unfoldable pub from_bytes : Bytes → Option BloomFilter
from_bytes bs =
    let num_bits = from_le_bytes (take 8 bs) in
    let num_hashes = from_le_bytes (take 4 (drop 8 bs)) in
    let byte_len = (num_bits + 7) % 2 ^ 64 / 8 in
    if ltb (length bs) 12
    then none
    else if ltb (length bs) (12 + byte_len)
    then none
    else some
        (record { bits = take byte_len (drop 12 bs); num_bits = num_bits; num_hashes = num_hashes })
