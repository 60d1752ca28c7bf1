-- ===== src/Storage/Bloom/Serialised.antt =====
-- The serialised filter: what is read back, and which files are accepted.
use infralens.Prelude.{
  ℕ, suc, ◌+◌, ◌/◌, ◌%◌, ◌^◌, ◌<◌, ◌≡◌, refl, ap, none, some, [], ◌∷◌, Bytes, length, take,
  from_le_bytes-to_le_bytes, arith, ◌==◌, Bool-cases, inl, inr,
}
use infralens.Storage.Bloom.{
  BloomFilter, to_bytes, from_bytes, hash_index, contains, contains_from, byte_at,
}

take_all : (bs : Bytes) → take (length bs) bs ≡ bs
take_all [] = refl
take_all (b ∷ bs) = ap (λ r. b ∷ r) (take_all bs)

-- A filter whose numbers fit their fields and whose bits have the length that belongs to them is
-- read back from its bytes.
pub from_bytes-to_bytes :
    (bf : BloomFilter)
    → bf.num_bits + 7 < 2 ^ 64
    → bf.num_hashes < 2 ^ 32
    → length bf.bits ≡ (bf.num_bits + 7) / 8
    → from_bytes (to_bytes bf) ≡ some bf
unfolding from_bytes to_bytes
from_bytes-to_bytes bf fits_bits fits_hashes sized =
    let n = from_le_bytes-to_le_bytes 8 bf.num_bits (omega arith) in
    let k = from_le_bytes-to_le_bytes 4 bf.num_hashes (omega arith) in
    let len : (bf.num_bits + 7) % 2 ^ 64 / 8 ≡ length bf.bits = omega arith in
    rw (n, k, len, take_all bf.bits) (ground arith)

contains_empty :
    (sip_hash : Bytes → ℕ → ℕ) (key : Bytes) (n k : ℕ)
    → contains sip_hash key (record { bits = []; num_bits = n; num_hashes = suc k }) ≡ none
unfolding contains contains_from hash_index byte_at
contains_empty sip_hash key n k = elim (Bool-cases (n == 0)) [
  | inl zero_bits ↦ rw zero_bits
  | inr some_bits ↦ rw some_bits
]

-- A file with `num_bits` 0, or so large that the length wraps to 0, and at least one hash is read
-- as a filter, and every lookup in that filter panics.
pub from_bytes_empty :
    (sip_hash : Bytes → ℕ → ℕ) (key : Bytes) (n k : ℕ)
    → n < 2 ^ 64
    → (n + 7) % 2 ^ 64 < 8
    → suc k < 2 ^ 32
    → let bf : BloomFilter = record { bits = []; num_bits = n; num_hashes = suc k } in
      (from_bytes (to_bytes bf) ≡ some bf) × (contains sip_hash key bf ≡ none)
unfolding from_bytes to_bytes
from_bytes_empty sip_hash key n k small wraps hashes =
    let bits = from_le_bytes-to_le_bytes 8 n (omega arith) in
    let count = from_le_bytes-to_le_bytes 4 (suc k) (omega arith) in
    let none_left : (n + 7) % 2 ^ 64 / 8 ≡ 0 = omega arith in
    (rw (bits, count, none_left) (ground arith), contains_empty sip_hash key n k)
