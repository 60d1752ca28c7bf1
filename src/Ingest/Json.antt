-- ===== src/Ingest/Json.antt =====
-- crates/infralens-ingest/src/json_decoder.rs: values of JSON, and what the decoder reads of attributes,
-- scopes and ids. A value is that of serde_json; a number is its text, and the members of an object have
-- distinct keys. `none` is a panic: a slice that cuts a character.
pub mod Records
pub mod Agreement
pub mod Ids
pub mod Spans
pub mod Messages
pub mod Logs
pub mod Tests
use infralens.Prelude.{
  ℕ, ◌*◌, ◌&&◌, Bool, true, false, not, Option, none, some, List, [], ◌∷◌, Bytes, codes, list_eq, ℤ,
  pos, length, leb, ◌==◌, if◌then◌else◌, get_or_else, ◌>>=◌,
}
use infralens.Common.Model.{AnyValue, AnyValues, AnyMap, map_insert, InstrumentationScope}

mutual
  pub data Value : Type 0 where
    null : Value
    truth : Bool → Value
    number : Bytes → Value
    text : Bytes → Value
    list : Values → Value
    object : Members → Value

  pub data Values : Type 0 where
    no_items : Values
    item : Value → Values → Values

  pub data Members : Type 0 where
    no_members : Members
    member : Bytes → Value → Members → Members

-- What serde_json reads in a number, and the standard library in a text; `from_hex` is
-- `u8::from_str_radix` in base 16 on two bytes.
pub record Readers : Type 0 where
  pub number_u64 : Bytes → Option ℕ
  pub number_i64 : Bytes → Option ℤ
  pub number_f64 : Bytes → Option ℕ
  pub parse_u64 : Bytes → Option ℕ
  pub parse_i64 : Bytes → Option ℤ
  pub trim : Bytes → Bytes
  pub from_hex : Bytes → Option ℕ

abbrev pub find_member : Bytes → Members → Option Value
find_member key no_members = none
find_member key (member k v rest) = if list_eq k key then some v else find_member key rest

abbrev pub get : Bytes → Value → Option Value
get key (object ms) = find_member key ms
get key _ = none

abbrev pub as_str : Value → Option Bytes
as_str (text s) = some s
as_str _ = none

abbrev pub as_bool : Value → Option Bool
as_bool (truth b) = some b
as_bool _ = none

abbrev pub or_else {ℓ} : {A : Type ℓ} → Option A → Option A → Option A
or_else none b = b
or_else (some a) b = some a

-- `get(key).and_then(read)`
abbrev pub field {ℓ} : {A : Type ℓ} → (Value → Option A) → Bytes → Value → Option A
field read key v = get key v >>= read

abbrev pub text_of : Bytes → Value → Bytes
text_of key v = get_or_else (field as_str key v) []

-- The items of a list, or nothing.
abbrev pub items_list : Values → List Value
items_list no_items = []
items_list (item v vs) = v ∷ items_list vs

abbrev pub as_items : Value → List Value
as_items (list vs) = items_list vs
as_items _ = []

abbrev pub items_at : Option Value → List Value
items_at none = []
items_at (some v) = as_items v

-- A byte at which a slice may end: no continuation byte of UTF-8.
abbrev pub is_boundary : Bytes → Bool
is_boundary [] = true
is_boundary (c ∷ cs) = not (leb 128 c && leb c 191)

abbrev pub put_digit : Option ℕ → Option (Option Bytes) → Option (Option Bytes)
put_digit none rest = some none
put_digit (some d) none = none
put_digit (some d) (some none) = some none
put_digit (some d) (some (some ds)) = some (some (d ∷ ds))

module _ (readers : Readers) where
  abbrev pub as_u64 : Value → Option ℕ
  as_u64 (number n) = readers.number_u64 n
  as_u64 _ = none

  abbrev pub as_i64 : Value → Option ℤ
  as_i64 (number n) = readers.number_i64 n
  as_i64 _ = none

  abbrev pub as_f64 : Value → Option ℕ
  as_f64 (number n) = readers.number_f64 n
  as_f64 _ = none

  abbrev pub int_or_zero : Value → ℤ
  int_or_zero v = get_or_else (or_else (as_i64 v) (as_str v >>= readers.parse_i64)) (pos 0)

  unfoldable pub decode_u64 : Value → ℕ
  decode_u64 v = get_or_else (or_else (as_u64 v) (as_str v >>= readers.parse_u64)) 0

  -- `get(key).map(decode_u64).unwrap_or(other)`
  abbrev pub nanos : Bytes → ℕ → Value → ℕ
  nanos key other v = elim (get key v) [ none ↦ other | some t ↦ decode_u64 t ]

  -- The readings of an object, in the order in which the source tries them.
  abbrev pub first_reading :
      Option Bytes → Option Bool → Option Value → Option ℕ → Option AnyValues → AnyValue
  first_reading (some s) b i d a = AnyValue.string s
  first_reading none (some b) i d a = AnyValue.bool b
  first_reading none none (some i) d a = AnyValue.int (int_or_zero i)
  first_reading none none none (some d) a = AnyValue.double d
  first_reading none none none none (some a) = AnyValue.array a
  first_reading none none none none none = AnyValue.string []

  -- The members are searched by the recursion itself, for "arrayValue" and then for "values" in it.
  unfoldable mutual
    pub decode_any_value : Value → AnyValue
    decode_any_value (object ms) =
        first_reading (field as_str (codes "stringValue") (object ms))
          (field as_bool (codes "boolValue") (object ms)) (find_member (codes "intValue") ms)
          (field as_f64 (codes "doubleValue") (object ms)) (array_member ms)
    decode_any_value _ = AnyValue.string []

    pub array_member : Members → Option AnyValues
    array_member no_members = none
    array_member (member k v rest) =
        let here = values_of v in
        let later = array_member rest in if list_eq k (codes "arrayValue") then here else later

    pub values_of : Value → Option AnyValues
    values_of (object ms) = values_member ms
    values_of _ = none

    pub values_member : Members → Option AnyValues
    values_member no_members = none
    values_member (member k v rest) =
        let here = decode_array v in
        let later = values_member rest in if list_eq k (codes "values") then here else later

    pub decode_array : Value → Option AnyValues
    decode_array (list vs) = some (decode_values vs)
    decode_array _ = none

    pub decode_values : Values → AnyValues
    decode_values no_items = AnyValues.no_values
    decode_values (item v vs) = AnyValues.more_values (decode_any_value v) (decode_values vs)

  -- A pair without a key is passed over, one without a value has the empty text.
  abbrev pub decode_pair : Value → Option (Bytes × AnyValue)
  decode_pair kv = do
    key ← field as_str (codes "key") kv
    some (
      key,
      elim (get (codes "value") kv) [ none ↦ AnyValue.string [] | some v ↦ decode_any_value v ],
    )

  abbrev pub add_pair : Option (Bytes × AnyValue) → AnyMap → AnyMap
  add_pair none m = m
  add_pair (some (k, v)) m = map_insert k v m

  unfoldable pub decode_pairs : List Value → AnyMap → AnyMap
  decode_pairs [] m = m
  decode_pairs (kv ∷ kvs) m = decode_pairs kvs (add_pair (decode_pair kv) m)

  unfoldable pub decode_attrs : Value → AnyMap
  decode_attrs attrs = decode_pairs (as_items attrs) AnyMap.no_entries

  -- `get("attributes").map(decode_attrs).unwrap_or_default()`
  abbrev pub attrs_at : Option Value → AnyMap
  attrs_at none = AnyMap.no_entries
  attrs_at (some v) = decode_attrs v

  abbrev pub attrs_of : Value → AnyMap
  attrs_of v = attrs_at (get (codes "attributes") v)

  unfoldable pub decode_scope : Option Value → InstrumentationScope
  decode_scope none = record { name = []; version = []; attributes = AnyMap.no_entries }
  decode_scope (some s) = record {
    name = text_of (codes "name") s;
    version = text_of (codes "version") s;
    attributes = attrs_of s;
  }

  -- Two bytes at a time; the first pair that is no hexadecimal number ends the loop.
  unfoldable pub hex_pairs : Bytes → Option (Option Bytes)
  hex_pairs [] = some (some [])
  hex_pairs (a ∷ []) = some none
  hex_pairs (a ∷ b ∷ rest) =
      let later = hex_pairs rest in
      if is_boundary rest then put_digit (readers.from_hex (a ∷ b ∷ [])) later else none

  unfoldable pub hex_id : ℕ → Bytes → Option (Option Bytes)
  hex_id n s = if length (readers.trim s) == 2 * n then hex_pairs (readers.trim s) else some none

  abbrev pub hex_to_16 : Bytes → Option (Option Bytes)
  hex_to_16 s = hex_id 16 s

  abbrev pub hex_to_8 : Bytes → Option (Option Bytes)
  hex_to_8 s = hex_id 8 s

  abbrev pub read_id : (Bytes → Option (Option Bytes)) → Option Bytes → Option (Option Bytes)
  read_id hex none = some none
  read_id hex (some s) = hex s

  -- `get(key).and_then(as_str).and_then(hex)`
  abbrev pub id_at : (Bytes → Option (Option Bytes)) → Bytes → Value → Option (Option Bytes)
  id_at hex key v = read_id hex (field as_str key v)
