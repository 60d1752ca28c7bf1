-- ===== src/Ingest/Normalizer/Attributes.antt =====
-- Which value a key has after a list of pairs is collected into a map: the last one given.
use mathlib.Core.Path.{subst}
use infralens.Prelude.{
  sym, ◌≡◌, refl, ◌∙◌, ap, true, false, Bool, Option, none, some, Bytes, list_eq, list_eq_refl,
  eq_of_list_eq, if◌then◌else◌, arith, Bool-cases, inl, inr,
}
use infralens.Common.Model.{AnyValue, AnyMap, map_insert, map_get}
use infralens.Ingest.Normalizer.{convert_any_value, convert_attrs_into, convert_attrs}
use infralens.Ingest.Proto.{KeyValues}

abbrev or_else : Option AnyValue → Option AnyValue → Option AnyValue
or_else none b = b
or_else (some a) b = some a

-- The value of the last pair with a key, read from the messages.
abbrev pub last_value : Bytes → KeyValues → Option AnyValue
last_value key KeyValues.no_pairs = none
last_value key (KeyValues.pair k v kvs) =
    or_else (last_value key kvs) (if list_eq key k then some (convert_any_value v) else none)
last_value key (KeyValues.bare_key k kvs) = last_value key kvs

map_get-map_insert :
    (key k : Bytes) (v : AnyValue) (m : AnyMap)
    → map_get key (map_insert k v m) ≡ (if list_eq key k then some v else map_get key m)
unfolding map_get map_insert
map_get-map_insert key k v AnyMap.no_entries = refl
map_get-map_insert key k v (AnyMap.entry j w m) = elim (Bool-cases (list_eq k j)) [
  | inl same ↦ rw (eq_of_list_eq k j same, list_eq_refl j) (ground arith)
  | inr other ↦ elim (Bool-cases (list_eq key k)) [
    | inl here ↦
        let apart : list_eq key j ≡ false =
          subst (λ x. list_eq x j ≡ false) (sym (eq_of_list_eq key k here)) other in
        rw (other, here, apart)
          (map_get-map_insert key k v m ∙ ap (λ c. if c then some v else map_get key m) here)
    | inr elsewhere ↦
        rw (other, elsewhere) (ground (arith, map_get-map_insert key k v m, elsewhere))
  ]
]

or_else-none : (a : Option AnyValue) → or_else a none ≡ a
or_else-none none = refl
or_else-none (some a) = refl

or_else_if :
    (a : Option AnyValue) (c : Bool) (v : AnyValue) (b : Option AnyValue)
    → or_else a (if c then some v else b) ≡ or_else (or_else a (if c then some v else none)) b
or_else_if none true v b = refl
or_else_if none false v b = refl
or_else_if (some a) c v b = refl

map_get-convert_attrs_into :
    (key : Bytes) (kvs : KeyValues) (m : AnyMap)
    → map_get key (convert_attrs_into kvs m) ≡ or_else (last_value key kvs) (map_get key m)
unfolding convert_attrs_into
map_get-convert_attrs_into key KeyValues.no_pairs m = refl
map_get-convert_attrs_into key (KeyValues.pair k v kvs) m =
    map_get-convert_attrs_into key kvs (map_insert k (convert_any_value v) m)
    ∙ ap (or_else (last_value key kvs)) (map_get-map_insert key k (convert_any_value v) m)
    ∙ or_else_if (last_value key kvs) (list_eq key k) (convert_any_value v) (map_get key m)
map_get-convert_attrs_into key (KeyValues.bare_key k kvs) m = map_get-convert_attrs_into key kvs m

-- In the attribute map that the normaliser makes of a list of pairs, a key has the converted value
-- of the last pair that has this key and a value, or is absent.
pub map_get-convert_attrs :
    (key : Bytes) (kvs : KeyValues) → map_get key (convert_attrs kvs) ≡ last_value key kvs
unfolding convert_attrs map_get
map_get-convert_attrs key kvs =
    map_get-convert_attrs_into key kvs AnyMap.no_entries ∙ or_else-none (last_value key kvs)
