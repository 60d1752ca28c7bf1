-- ===== src/Storage/Bloom/Membership.antt =====
-- The filter as a set of bit numbers: what `insert` adds, what `contains` asks, and that no inserted
-- key is ever missed.
use Prim.Native.Nat.{bit_and, bit_xor}
use native.Mathlib.Nat.{mod-lt}
use infralens.Prelude.{
  ℕ, zero, suc, ◌+◌, ◌*◌, ◌/◌, ◌%◌, ◌^◌, ◌<◌, ◌≡◌, refl, ◌∙◌, ap, Bool, true, false, not, ◌||◌,
  Option, some, List, [], ◌∷◌, Bytes, length, length-replicate, replicate, All, any, all, arith,
  ◌==◌, ==_refl, ◌>>=◌,
}
use infralens.Storage.Bloom.{
  BloomFilter, new, hash_index, insert_from, insert, contains_from, contains, byte_at,
}
use infralens.Storage.Bloom.Bits.{
  IsByte, has_bit, test_bit, byte_at-some, or_at-test_bit, test_bit-replicate,
}

pub record IsValid (bf : BloomFilter) : Type 0 where
  pub positive : 0 < bf.num_bits
  pub sized : length bf.bits ≡ (bf.num_bits + 7) / 8
  pub bytes : All IsByte bf.bits

test_bit-byte_at :
    (bits : Bytes) (k : ℕ) {b : ℕ}
    → byte_at bits (k / 8) ≡ some b
    → test_bit bits k ≡ not (bit_and b (2 ^ (k % 8)) == 0)
unfolding test_bit has_bit
test_bit-byte_at bits k read = rw read

All-replicate : (n : ℕ) → All IsByte (replicate n 0)
All-replicate zero = tt
All-replicate (suc n) = (omega arith, All-replicate n)

-- Every new filter is well formed, whatever the formulas give.
pub new-IsValid : (optimal_bits optimal_hashes : ℕ) → IsValid (new optimal_bits optimal_hashes)
unfolding new
new-IsValid m k = record {
  positive = omega arith;
  sized = length-replicate _ 0;
  bytes = All-replicate _;
}

all-imp :
    (p q : ℕ → Bool) (xs : List ℕ)
    → ((k : ℕ) → p k ≡ true → q k ≡ true)
    → all p xs ≡ true
    → all q xs ≡ true
all-imp p q [] imp h = refl
all-imp p q (x ∷ xs) imp h = ground (arith, imp x, all-imp p q xs imp)

all-any :
    (xs ys : List ℕ)
    → ((k : ℕ) → any (λ j. k == j) xs ≡ true → any (λ j. k == j) ys ≡ true)
    → all (λ k. any (λ j. k == j) ys) xs ≡ true
all-any [] ys h = refl
all-any (x ∷ xs) ys h =
    let rest = all-any xs ys (λ k e. h k (ground arith)) in ground (arith, h x, rest, ==_refl x)

module _ (sip_hash : Bytes → ℕ → ℕ) where
  -- The bit of one round.
  abbrev pub raw_index : Bytes → ℕ → ℕ
  raw_index key i =
      (sip_hash key 0xcafef00ddeadbeef + i * sip_hash key (bit_xor i 0x0102030405060708) % 2 ^ 64)
      % 2 ^ 64

  abbrev pub index : ℕ → Bytes → ℕ → ℕ
  index n key i = raw_index key i % n

  -- The bits of the rounds from `i` on.
  abbrev pub indexes : ℕ → Bytes → ℕ → ℕ → List ℕ
  indexes n key zero i = []
  indexes n key (suc rounds) i = index n key i ∷ indexes n key rounds (i + 1)

  hash_index_lem :
      (bf : BloomFilter) (key : Bytes) (i : ℕ)
      → IsValid bf
      → (hash_index sip_hash bf key i ≡ some (index bf.num_bits key i))
        × (index bf.num_bits key i / 8 < length bf.bits)
  unfolding hash_index
  hash_index_lem bf key i v =
      (ground arith, omega (arith, v.sized, mod-lt (raw_index key i) v.positive))

  contains_from_lem :
      (rounds i : ℕ) (key : Bytes) (bf : BloomFilter)
      → IsValid bf
      → contains_from sip_hash rounds i key bf
        ≡ some (all (test_bit bf.bits) (indexes bf.num_bits key rounds i))
  unfolding contains_from
  contains_from_lem zero i key bf v = refl
  contains_from_lem (suc rounds) i key bf v =
      let (hash, inside) = hash_index_lem bf key i v in
      let (b, read) = byte_at-some bf.bits (index bf.num_bits key i / 8) inside in
      let ih = contains_from_lem rounds (i + 1) key bf v in
      rw (hash, read) (ground (arith, ih, test_bit-byte_at bf.bits _ read))

  -- What an insertion does to a filter, as a set of bits.
  pub record Inserted (key : Bytes) (rounds i : ℕ) (bf bf' : BloomFilter) : Type 0 where
    pub valid : IsValid bf'
    pub num_bits : bf'.num_bits ≡ bf.num_bits
    pub num_hashes : bf'.num_hashes ≡ bf.num_hashes
    pub bits :
        (k : ℕ)
        → test_bit bf'.bits k
          ≡ (any (λ j. k == j) (indexes bf.num_bits key rounds i) || test_bit bf.bits k)

  insert_from_lem :
      (rounds i : ℕ) (key : Bytes) (bf : BloomFilter)
      → IsValid bf
      → (bf' : BloomFilter) × (insert_from sip_hash rounds i key bf ≡ some bf')
        × Inserted key rounds i bf bf'
  unfolding insert_from
  insert_from_lem zero i key bf v =
      (bf, refl, record { valid = v; num_bits = refl; num_hashes = refl; bits = λ k. refl })
  insert_from_lem (suc rounds) i key bf v =
      let (hash, inside) = hash_index_lem bf key i v in
      let (bits', run, len, ok, tests) =
        or_at-test_bit bf.bits (index bf.num_bits key i) inside v.bytes in
      let mid : BloomFilter = record bf { bits = bits' } in
      let mid_valid : IsValid mid = record {
        positive = v.positive;
        sized = len ∙ v.sized;
        bytes = ok;
      } in
      let (bf', rest, ins) = insert_from_lem rounds (i + 1) key mid mid_valid in
      (
        bf',
        rw (hash, run) rest,
        record {
          valid = ins.valid;
          num_bits = ins.num_bits;
          num_hashes = ins.num_hashes;
          bits = λ k. ground (arith, ins.bits k, tests k);
        },
      )

  -- `insert` never panics on a well-formed filter, and adds exactly the bits of the key.
  pub insert_lem :
      (key : Bytes) (bf : BloomFilter)
      → IsValid bf
      → (bf' : BloomFilter) × (insert sip_hash key bf ≡ some bf')
        × Inserted key bf.num_hashes 0 bf bf'
  unfolding insert
  insert_lem key bf v = insert_from_lem bf.num_hashes 0 key bf v

  -- On a well-formed filter a lookup never panics and answers whether every bit of the key is set.
  pub contains_lem :
      (key : Bytes) (bf : BloomFilter)
      → IsValid bf
      → contains sip_hash key bf
        ≡ some (all (test_bit bf.bits) (indexes bf.num_bits key bf.num_hashes 0))
  unfolding contains
  contains_lem key bf v = contains_from_lem bf.num_hashes 0 key bf v

  -- The loop of the SSTable writers.
  unfoldable pub insert_all : List Bytes → BloomFilter → Option BloomFilter
  insert_all [] bf = some bf
  insert_all (key ∷ keys) bf = do bf' ← insert sip_hash key bf; insert_all keys bf'

  -- A key all of whose bits are set.
  abbrev pub Marked : BloomFilter → Bytes → Type 0
  Marked bf key = all (test_bit bf.bits) (indexes bf.num_bits key bf.num_hashes 0) ≡ true

  insert-Marked :
      (key : Bytes) (bf bf' : BloomFilter) → Inserted key bf.num_hashes 0 bf bf' → Marked bf' key
  insert-Marked key bf bf' ins =
      let bits = indexes bf.num_bits key bf.num_hashes 0 in
      rw (ins.num_bits, ins.num_hashes)
        (all-imp (λ k. any (λ j. k == j) bits) (test_bit bf'.bits) bits
          (λ k e. rw (ins.bits k, e) refl) (all-any bits bits (λ k e. e)))

  Marked-insert :
      (key other : Bytes) (bf bf' : BloomFilter)
      → Inserted key bf.num_hashes 0 bf bf'
      → Marked bf other
      → Marked bf' other
  Marked-insert key other bf bf' ins marked =
      rw (ins.num_bits, ins.num_hashes)
        (all-imp (test_bit bf.bits) (test_bit bf'.bits) _ (λ k e. ground (arith, ins.bits k, e))
          marked)

  insert_all-Marked :
      (keys : List Bytes) (bf : BloomFilter)
      → IsValid bf
      → (bf' : BloomFilter) × (insert_all keys bf ≡ some bf')
        × IsValid bf'
        × All (Marked bf') keys
        × ((other : Bytes) → Marked bf other → Marked bf' other)
  unfolding insert_all
  insert_all-Marked [] bf v = (bf, refl, v, tt, λ other m. m)
  insert_all-Marked (key ∷ keys) bf v =
      let (mid, first, ins) = insert_lem key bf v in
      let (bf', rest, valid, marked, keeps) = insert_all-Marked keys mid ins.valid in
      (
        bf',
        rw first rest,
        valid,
        (keeps key (insert-Marked key bf mid ins), marked),
        λ other m. keeps other (Marked-insert key other bf mid ins m),
      )

  All-contains :
      (keys : List Bytes) (bf : BloomFilter)
      → IsValid bf
      → All (Marked bf) keys
      → All (λ key. contains sip_hash key bf ≡ some true) keys
  All-contains [] bf v m = tt
  All-contains (key ∷ keys) bf v m =
      (contains_lem key bf v ∙ ap some m.0, All-contains keys bf v m.1)

  -- Inserting any keys into a well-formed filter never panics, and the filter then contains every
  -- one of them.
  pub contains-insert_all :
      (keys : List Bytes) (bf : BloomFilter)
      → IsValid bf
      → (bf' : BloomFilter) × (insert_all keys bf ≡ some bf')
        × All (λ key. contains sip_hash key bf' ≡ some true) keys
  contains-insert_all keys bf v =
      let (bf', run, valid, marked, _) = insert_all-Marked keys bf v in
      (bf', run, All-contains keys bf' valid marked)

  no_bits :
      (n k rounds : ℕ) (key : Bytes)
      → 0 < rounds
      → all (test_bit (replicate k 0)) (indexes n key rounds 0) ≡ false
  no_bits n k zero key h = absurd (omega (arith, h))
  no_bits n k (suc rounds) key h = rw (test_bit-replicate k (index n key 0)) refl

  -- A new filter contains no key.
  pub contains-new :
      (key : Bytes) (optimal_bits optimal_hashes : ℕ)
      → contains sip_hash key (new optimal_bits optimal_hashes) ≡ some false
  unfolding new
  contains-new key m h =
      contains_lem key (new m h) (new-IsValid m h) ∙ ap some (no_bits _ _ _ key (omega arith))
