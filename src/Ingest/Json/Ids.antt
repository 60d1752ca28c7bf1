-- ===== src/Ingest/Json/Ids.antt =====
-- Ids in JSON: what is written in hexadecimal is read back, and what is read has its length.
use infralens.Prelude.{
  ℕ, ◌+◌, ◌*◌, ◌/◌, ◌%◌, ◌<◌, ◌≡◌, refl, ap, true, false, Option, none, some, [], ◌∷◌, Bytes,
  length, All, arith, Bool-cases, inl, inr, ltb, leb, ◌==◌, if◌then◌else◌,
}
use infralens.Ingest.Json.{
  Value, Readers, is_boundary, put_digit, hex_pairs, hex_id, field, as_str, read_id, id_at,
}

-- A hexadecimal digit, and the text of a byte sequence.
abbrev pub hex_digit : ℕ → ℕ
hex_digit d = if ltb d 10 then 48 + d else 87 + d

abbrev pub hex_text : Bytes → Bytes
hex_text [] = []
hex_text (b ∷ bs) = hex_digit (b / 16) ∷ hex_digit (b % 16) ∷ hex_text bs

pub length-hex_text : (id : Bytes) → length (hex_text id) ≡ 2 * length id
length-hex_text [] = omega arith
length-hex_text (b ∷ bs) = omega (arith, length-hex_text bs)

ascii_digit : (d : ℕ) → d < 16 → leb 128 (hex_digit d) ≡ false
ascii_digit d h = ground arith

hex_text-boundary : (id : Bytes) → All (λ b. b < 256) id → is_boundary (hex_text id) ≡ true
hex_text-boundary [] h = refl
hex_text-boundary (b ∷ bs) h = rw (ascii_digit (b / 16) (omega (arith, h.0))) refl

module _ (readers : Readers)
    (reads : (b : ℕ)
      → b < 256
      → readers.from_hex (hex_digit (b / 16) ∷ hex_digit (b % 16) ∷ []) ≡ some b) where
  hex_pairs-hex_text :
      (id : Bytes) → All (λ b. b < 256) id → hex_pairs readers (hex_text id) ≡ some (some id)
  unfolding hex_pairs
  hex_pairs-hex_text [] h = refl
  hex_pairs-hex_text (b ∷ bs) h =
      rw (hex_text-boundary bs h.1, reads b h.0, hex_pairs-hex_text bs h.1) refl

  -- Where the standard library reads two lower-case hexadecimal digits as their number and trims nothing
  -- of the text, an id of `n` bytes that is written in hexadecimal is read back, without a panic.
  pub hex_id-hex_text :
      (n : ℕ) (id : Bytes)
      → All (λ b. b < 256) id
      → length id ≡ n
      → readers.trim (hex_text id) ≡ hex_text id
      → hex_id readers n (hex_text id) ≡ some (some id)
  unfolding hex_id
  hex_id-hex_text n id bytes size trimmed =
      let fits : (length (hex_text id) == 2 * n) ≡ true =
        ground (arith, length-hex_text id, size) in
      rw (trimmed, fits) (hex_pairs-hex_text id bytes)

not_none : (id : Bytes) → ◌≡◌ {A = Option (Option Bytes)} (some none) (some (some id)) → ⊥
not_none id h = cc

no_panic : (id : Bytes) → ◌≡◌ {A = Option (Option Bytes)} none (some (some id)) → ⊥
no_panic id h = cc

read_none :
    (id : Bytes) → ◌≡◌ {A = Option (Option Bytes)} (some (some [])) (some (some id)) → [] ≡ id
read_none id h = cc

put_digit-some :
    (d : Option ℕ) (rest : Option (Option Bytes)) (id : Bytes)
    → put_digit d rest ≡ some (some id)
    → (digit : ℕ) × (ds : Bytes) × (rest ≡ some (some ds)) × (id ≡ digit ∷ ds)
put_digit-some none rest id h = absurd (not_none id h)
put_digit-some (some d) none id h = absurd (ground (arith, h))
put_digit-some (some d) (some none) id h = absurd (not_none id h)
put_digit-some (some d) (some (some ds)) id h = (d, ds, refl, cc)

length-hex_pairs :
    (readers : Readers) (s id : Bytes)
    → hex_pairs readers s ≡ some (some id)
    → length s ≡ 2 * length id
unfolding hex_pairs
length-hex_pairs readers [] id h = omega (arith, ap length (read_none id h))
length-hex_pairs readers (a ∷ []) id h = absurd (not_none id h)
length-hex_pairs readers (a ∷ b ∷ rest) id h = elim (Bool-cases (is_boundary rest)) [
  | inl yes' ↦
      let read =
        put_digit-some (readers.from_hex (a ∷ b ∷ [])) (hex_pairs readers rest) id (rw yes' at h) in
      let shorter = length-hex_pairs readers rest read.1 read.2 in
      omega (arith, shorter, ap length read.3)
  | inr no' ↦ absurd (no_panic id (rw no' at h))
]

pub length-hex_id :
    (readers : Readers) (n : ℕ) (s id : Bytes) → hex_id readers n s ≡ some (some id) → length id ≡ n
unfolding hex_id
length-hex_id readers n s id h = elim (Bool-cases (length (readers.trim s) == 2 * n)) [
  | inl yes' ↦
      let size = length-hex_pairs readers (readers.trim s) id (rw yes' at h) in
      ground (arith, size, yes')
  | inr no' ↦ absurd (not_none id (rw no' at h))
]

length-read_id :
    (readers : Readers) (n : ℕ) (o : Option Bytes) (id : Bytes)
    → read_id readers (hex_id readers n) o ≡ some (some id)
    → length id ≡ n
length-read_id readers n none id h = absurd (not_none id h)
length-read_id readers n (some s) id h = length-hex_id readers n s id h

-- An id that is read at a key has the length that the reader of ids asks for.
pub length-id_at :
    (readers : Readers) (n : ℕ) (key : Bytes) (v : Value) (id : Bytes)
    → id_at readers (hex_id readers n) key v ≡ some (some id)
    → length id ≡ n
length-id_at readers n key v id h = length-read_id readers n (field as_str key v) id h
