-- ===== src/Ingest/Json/Agreement.antt =====
-- The attributes of a message, written as JSON and decoded, are those that the normaliser makes of the
-- message itself.
use infralens.Prelude.{◌≡◌, refl, ◌∙◌, ap, none, some, Bytes, codes, ℤ, pos, ℕ, get_or_else}
use infralens.Common.Model.{AnyValue, AnyMap, map_insert}
use infralens.Ingest.Json.{
  Value, Values, truth, number, text, list, object, no_items, item, no_members, member, Readers,
  decode_any_value, decode_values, decode_pairs, decode_attrs, items_list, first_reading,
}
use infralens.Ingest.Normalizer.{
  convert_any_value, convert_elements, convert_attrs_into, convert_attrs,
}
use infralens.Ingest.Proto.{ProtoAnyValue, ProtoAnyValues, KeyValues}

-- How a client writes numbers.
pub record Printers : Type 0 where
  pub print_u64 : ℕ → Bytes
  pub print_i64 : ℤ → Bytes
  pub print_f64 : ℕ → Bytes

module _ (printers : Printers) where
  -- The message in OTLP's JSON: 64-bit integers are texts. The forms of bytes and of key-value lists are
  -- left out, since the decoder does not know them.
  unfoldable mutual
    pub json_any : ProtoAnyValue → Value
    json_any (ProtoAnyValue.string_value s) =
        object (member (codes "stringValue") (text s) no_members)
    json_any (ProtoAnyValue.bool_value b) = object (member (codes "boolValue") (truth b) no_members)
    json_any (ProtoAnyValue.int_value i) =
        object (member (codes "intValue") (text (printers.print_i64 i)) no_members)
    json_any (ProtoAnyValue.double_value d) =
        object (member (codes "doubleValue") (number (printers.print_f64 d)) no_members)
    json_any (ProtoAnyValue.array_value vs) = object (
        member (codes "arrayValue")
          (object (member (codes "values") (list (json_values vs)) no_members)) no_members)
    json_any _ = object no_members

    pub json_values : ProtoAnyValues → Values
    json_values ProtoAnyValues.no_elements = no_items
    json_values (ProtoAnyValues.element v vs) = item (json_any v) (json_values vs)

  abbrev pub json_pair : Bytes → ProtoAnyValue → Value
  json_pair k v =
      object (member (codes "key") (text k) (member (codes "value") (json_any v) no_members))

  unfoldable pub json_pairs : KeyValues → Values
  json_pairs KeyValues.no_pairs = no_items
  json_pairs (KeyValues.pair k v kvs) = item (json_pair k v) (json_pairs kvs)
  json_pairs (KeyValues.bare_key k kvs) =
      item (object (member (codes "key") (text k) no_members)) (json_pairs kvs)

  module _ (readers : Readers) where
    -- A value of the forms that both formats have, whose numbers are read back from their texts.
    unfoldable mutual
      pub IsPlain : ProtoAnyValue → Type 0
      IsPlain (ProtoAnyValue.int_value i) = readers.parse_i64 (printers.print_i64 i) ≡ some i
      IsPlain (ProtoAnyValue.double_value d) = readers.number_f64 (printers.print_f64 d) ≡ some d
      IsPlain (ProtoAnyValue.array_value vs) = ArePlain vs
      IsPlain (ProtoAnyValue.bytes_value b) = ⊥
      IsPlain (ProtoAnyValue.kvlist_value kvs) = ⊥
      IsPlain _ = Unit

      pub ArePlain : ProtoAnyValues → Type 0
      ArePlain ProtoAnyValues.no_elements = Unit
      ArePlain (ProtoAnyValues.element v vs) = IsPlain v × ArePlain vs

    -- Attributes with values of these forms.
    unfoldable pub HasPlain : KeyValues → Type 0
    HasPlain KeyValues.no_pairs = Unit
    HasPlain (KeyValues.pair k v kvs) = IsPlain v × HasPlain kvs
    HasPlain (KeyValues.bare_key k kvs) = ⊥

    mutual
      unfolding decode_any_value convert_any_value json_any IsPlain

      pub decode_any :
          (v : ProtoAnyValue)
          → IsPlain v
          → decode_any_value readers (json_any v) ≡ convert_any_value v
      decode_any ProtoAnyValue.no_value h = refl
      decode_any (ProtoAnyValue.string_value s) h = refl
      decode_any (ProtoAnyValue.bool_value b) h = refl
      decode_any (ProtoAnyValue.int_value i) h = ap (λ o. AnyValue.int (get_or_else o (pos 0))) h
      decode_any (ProtoAnyValue.double_value d) h =
          ap (λ o. first_reading readers none none none o none) h
      decode_any (ProtoAnyValue.array_value vs) h = ap AnyValue.array (decode_all vs h)
      decode_any (ProtoAnyValue.bytes_value b) h = absurd h
      decode_any (ProtoAnyValue.kvlist_value kvs) h = absurd h

      pub decode_all :
          (vs : ProtoAnyValues)
          → ArePlain vs
          → decode_values readers (json_values vs) ≡ convert_elements vs
      decode_all ProtoAnyValues.no_elements h = refl
      decode_all (ProtoAnyValues.element v vs) h = rw (decode_any v h.0, decode_all vs h.1) refl

    decode_pairs_lem :
        (kvs : KeyValues) (m : AnyMap)
        → HasPlain kvs
        → decode_pairs readers (items_list (json_pairs kvs)) m ≡ convert_attrs_into kvs m
    unfolding decode_pairs json_pairs convert_attrs_into HasPlain
    decode_pairs_lem KeyValues.no_pairs m h = refl
    decode_pairs_lem (KeyValues.pair k v kvs) m h =
        ap (λ a. decode_pairs readers (items_list (json_pairs kvs)) (map_insert k a m))
          (decode_any v h.0)
        ∙ decode_pairs_lem kvs (map_insert k (convert_any_value v) m) h.1
    decode_pairs_lem (KeyValues.bare_key k kvs) m h = absurd h

    abbrev pub json_attrs : KeyValues → Value
    json_attrs kvs = list (json_pairs kvs)

    pub decode_attrs_lem :
        (kvs : KeyValues) → HasPlain kvs → decode_attrs readers (json_attrs kvs) ≡ convert_attrs kvs
    unfolding decode_attrs convert_attrs
    decode_attrs_lem kvs h = decode_pairs_lem kvs AnyMap.no_entries h
