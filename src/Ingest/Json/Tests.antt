-- ===== src/Ingest/Json/Tests.antt =====
-- The JSON decoder at concrete inputs. A number is written as one unit here.
use infralens.Prelude.{
  ℕ, ◌+◌, ◌-◌, ◌*◌, ◌/◌, ◌%◌, ◌<◌, ◌≡◌, refl, ap, Option, none, some, List, [], ◌∷◌, Bytes, codes,
  ℤ, pos, negsuc, ltb, if◌then◌else◌, arith,
}
use infralens.Common.Model.{LogRecord, AnyMap, map_insert}
use infralens.Ingest.Json
use infralens.Ingest.Json.{Value, Readers, text, hex_id}
use infralens.Ingest.Json.Agreement
use infralens.Ingest.Json.Agreement.{Printers}
use infralens.Ingest.Json.Ids.{hex_digit}
use infralens.Ingest.Json.Logs
use infralens.Ingest.Json.Records
use infralens.Ingest.Normalizer.{convert_attrs, convert_attrs_into}
use infralens.Ingest.Proto.{ProtoAnyValue, KeyValues, ProtoLog, Resourced}

abbrev unit_of : ℤ → ℕ
unit_of (pos n) = n
unit_of (negsuc n) = 0

abbrev one_unit : Bytes → Option ℕ
one_unit (n ∷ []) = some n
one_unit _ = none

abbrev one_int : Bytes → Option ℤ
one_int (n ∷ []) = some (pos n)
one_int _ = none

abbrev hex_value : ℕ → ℕ
hex_value c = if ltb c 58 then c - 48 else c - 87

abbrev two_digits : Bytes → Option ℕ
two_digits (a ∷ b ∷ []) = some (hex_value a * 16 + hex_value b)
two_digits _ = none

abbrev pub readers : Readers
readers = record {
  number_u64 = one_unit;
  number_i64 = one_int;
  number_f64 = one_unit;
  parse_u64 = one_unit;
  parse_i64 = one_int;
  trim = λ s. s;
  from_hex = two_digits;
}

abbrev pub printers : Printers
printers = record {
  print_u64 = λ n. n ∷ [];
  print_i64 = λ i. unit_of i ∷ [];
  print_f64 = λ n. n ∷ [];
}

hex_value-hex_digit : (d : ℕ) → d < 16 → hex_value (hex_digit d) ≡ d
hex_value-hex_digit d h = ground arith

pub digits_read :
    (b : ℕ) → b < 256 → readers.from_hex (hex_digit (b / 16) ∷ hex_digit (b % 16) ∷ []) ≡ some b
digits_read b h = ap some (
    rw (hex_value-hex_digit (b / 16) (omega (arith, h)), hex_value-hex_digit (b % 16) (omega arith))
      (omega arith))

abbrev one_log : ProtoLog
one_log = record {
  time_unix_nano = 7;
  observed_time_unix_nano = 9;
  severity_number = pos 17;
  severity_text = codes "ERROR";
  body = some (ProtoAnyValue.string_value (codes "down"));
  attributes = KeyValues.pair (codes "n") (ProtoAnyValue.int_value (pos 3)) KeyValues.no_pairs;
  trace_id = [];
  span_id = 1 ∷ 2 ∷ 3 ∷ 4 ∷ 5 ∷ 6 ∷ 7 ∷ 255 ∷ [];
}

abbrev pub messages : List (Resourced ProtoLog)
messages =
    record {
      resource = none;
      scopes = record { scope = none; items = one_log ∷ []; schema_url = [] } ∷ [];
    }
    ∷ []

pub one_log-IsReadable : Logs.IsReadable printers readers digits_read one_log
unfolding Records.as_i32 Agreement.HasPlain Agreement.IsPlain
one_log-IsReadable = record {
  time = refl;
  observed = refl;
  severity = refl;
  severity_range = refl;
  trace = (tt, refl);
  span = (
    (
      omega arith,
      (
        omega arith,
        (
          omega arith,
          (omega arith, (omega arith, (omega arith, (omega arith, (omega arith, tt))))),
        ),
      ),
    ),
    refl,
  );
  body = tt;
  attributes = (refl, tt);
}

-- A text of 32 bytes in which a slice would cut a character: the three bytes of the last one begin in
-- the middle of a pair.
abbrev cut_id : Bytes
cut_id = 48 ∷ 48 ∷ 48 ∷ 226 ∷ 130 ∷ 172 ∷ []

cut_panics : hex_id readers 3 cut_id ≡ none
unfolding hex_id Json.hex_pairs
cut_panics = refl

-- A list of key-value pairs has no form that the decoder knows.
kvlist_lost :
    Json.decode_any_value readers (
      Json.object (Json.member (codes "kvlistValue") (Json.object Json.no_members) Json.no_members))
    ≡ infralens.Common.Model.AnyValue.string []
unfolding Json.decode_any_value
kvlist_lost = refl

-- An attribute without a value becomes the empty text in JSON, and is left out by the normaliser.
bare_key_differs :
    let attributes = KeyValues.bare_key (codes "k") KeyValues.no_pairs in
    (Json.decode_attrs readers (Json.list (Agreement.json_pairs printers attributes))
      ≡ AnyMap.entry (codes "k") (infralens.Common.Model.AnyValue.string []) AnyMap.no_entries)
    × (convert_attrs attributes ≡ AnyMap.no_entries)
unfolding Json.decode_attrs Json.decode_pairs Agreement.json_pairs map_insert convert_attrs
    convert_attrs_into
bare_key_differs = (refl, refl)
