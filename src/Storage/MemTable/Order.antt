-- ===== src/Storage/MemTable/Order.antt =====
-- The derived order of `RowKey`: by time, then signal, then sequence number.
use infralens.Prelude.{ℕ, ◌≡◌, Bool, true, false, arith, ltb, if◌then◌else◌}
use infralens.Prelude.SortedMap.{KeyOrder}

pub record RowKey : Type 0 where
  pub timestamp_ns : ℕ
  pub signal_type : ℕ
  pub sequence : ℕ

abbrev pub before : RowKey → RowKey → Bool
before a b =
    if ltb a.timestamp_ns b.timestamp_ns
    then true
    else if ltb b.timestamp_ns a.timestamp_ns
    then false
    else if ltb a.signal_type b.signal_type
    then true
    else if ltb b.signal_type a.signal_type
    then false
    else ltb a.sequence b.sequence

pub before_irrefl : (a : RowKey) → before a a ≡ false
before_irrefl a = ground arith

pub before_trans : (a b c : RowKey) → before a b ≡ true → before b c ≡ true → before a c ≡ true
before_trans a b c p q = ground arith

pub before_connected : (a b : RowKey) → before a b ≡ false → before b a ≡ false → a ≡ b
before_connected a b p q = ground arith

instance abbrev pub row_key_order : KeyOrder RowKey
row_key_order = record {
  before = before;
  irrefl = before_irrefl;
  trans = before_trans;
  connected = before_connected;
}
