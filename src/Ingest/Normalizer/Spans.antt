-- ===== src/Ingest/Normalizer/Spans.antt =====
-- The shape of the spans that the normaliser lets through.
use infralens.Prelude.{
  ◌⊎◌, ◌+◌, ◌≡◌, some, List, [], ◌∷◌, Bytes, length, All, All-append, arith, Option-cases, inl, inr,
  Bool-cases, leb,
}
use infralens.Common.Model.{AnyMap, InstrumentationScope, SpanLink, SpanRecord}
use infralens.Ingest.Normalizer.{
  bytes_to_array16, bytes_to_array8, convert_scope, resource_attrs, items_of, scopes_of,
  resources_of, link_of, links_of, span_of, normalise_span, normalise_spans,
}
use infralens.Ingest.Proto.{Scoped, Resourced, ProtoLink, ProtoSpan}

abbrev pub IsLink : SpanLink → Type 0
IsLink l = (length l.trace_id ≡ 16) × (length l.span_id ≡ 8)

-- Ids have their lengths, and the duration reaches from the start to the end, or is 0.
pub record IsSpan (r : SpanRecord) : Type 0 where
  pub trace : length r.trace_id ≡ 16
  pub span : length r.span_id ≡ 8
  pub parent : (id : Bytes) → r.parent_span_id ≡ some id → length id ≡ 8
  pub duration : (r.duration_ns ≡ 0) ⊎ (r.start_time_ns + r.duration_ns ≡ r.end_time_ns)
  pub links : All IsLink r.links

length-bytes_to_array16 : (b id : Bytes) → bytes_to_array16 b ≡ some id → length id ≡ 16
unfolding bytes_to_array16
length-bytes_to_array16 b id h = ground arith

length-bytes_to_array8 : (b id : Bytes) → bytes_to_array8 b ≡ some id → length id ≡ 8
unfolding bytes_to_array8
length-bytes_to_array8 b id h = ground arith

link_of-IsLink : (l : ProtoLink) (r : SpanLink) → link_of l ≡ some r → IsLink r
unfolding link_of
link_of-IsLink l r h = elim (Option-cases (bytes_to_array16 l.trace_id)) [
  | inl no' ↦ absurd (ground (arith, h, no'))
  | inr (trace, is) ↦ elim (Option-cases (bytes_to_array8 l.span_id)) [
    | inl no' ↦ absurd (ground (arith, h, is, no'))
    | inr (span, is') ↦ ground (
      arith,
      h,
      is,
      is',
      length-bytes_to_array16 l.trace_id trace is,
      length-bytes_to_array8 l.span_id span is',
    )
  ]
]

links_of-IsLink : (ls : List ProtoLink) → All IsLink (links_of ls)
unfolding links_of
links_of-IsLink [] = tt
links_of-IsLink (l ∷ ls) = elim (Option-cases (link_of l)) [
  | inl no' ↦ rw no' (links_of-IsLink ls)
  | inr (r, is) ↦ rw is (link_of-IsLink l r is, links_of-IsLink ls)
]

IsSpan-normalise_span :
    (attrs : AnyMap) (scope : InstrumentationScope) (url : Bytes) (s : ProtoSpan)
    → All IsSpan (normalise_span attrs scope url s)
unfolding normalise_span
IsSpan-normalise_span attrs scope url s = elim (Option-cases (bytes_to_array16 s.trace_id)) [
  | inl no' ↦ rw (normalise_span, no') tt
  | inr (trace, is) ↦ elim (Option-cases (bytes_to_array8 s.span_id)) [
    | inl no' ↦ rw (normalise_span, is, no') tt
    | inr (span, is') ↦
        rw (normalise_span, is, is')
          (unfold span_of in
            (
              record {
                trace = length-bytes_to_array16 s.trace_id trace is;
                span = length-bytes_to_array8 s.span_id span is';
                parent = length-bytes_to_array8 s.parent_span_id;
                duration = (elim (Bool-cases (leb s.start_time_unix_nano s.end_time_unix_nano)) [
                  | inl forward ↦ inr (ground arith)
                  | inr backward ↦ inl (ground arith)
                ]);
                links = links_of-IsLink s.links;
              },
              tt,
            ))
  ]
]

module _ {A B : Type 0} (P : B → Type 0)
    (convert : AnyMap → InstrumentationScope → Bytes → A → List B)
    (each : (attrs : AnyMap) (scope : InstrumentationScope) (url : Bytes) (x : A)
      → All P (convert attrs scope url x)) where
  All-items_of :
      (attrs : AnyMap) (scope : InstrumentationScope) (url : Bytes) (xs : List A)
      → All P (items_of convert attrs scope url xs)
  unfolding items_of
  All-items_of attrs scope url [] = tt
  All-items_of attrs scope url (x ∷ xs) =
      All-append P (convert attrs scope url x) _ (each attrs scope url x)
        (All-items_of attrs scope url xs)

  All-scopes_of : (attrs : AnyMap) (ss : List (Scoped A)) → All P (scopes_of convert attrs ss)
  unfolding scopes_of
  All-scopes_of attrs [] = tt
  All-scopes_of attrs (s ∷ ss) =
      All-append P _ _ (All-items_of attrs (convert_scope s.scope) s.schema_url s.items)
        (All-scopes_of attrs ss)

  All-resources_of : (rs : List (Resourced A)) → All P (resources_of convert rs)
  unfolding resources_of
  All-resources_of [] = tt
  All-resources_of (r ∷ rs) =
      All-append P _ _ (All-scopes_of (resource_attrs r.resource) r.scopes) (All-resources_of rs)

-- Every span record that the normaliser returns has a trace id of 16 bytes and a span id of 8, a
-- parent id of 8 bytes if it has one, only links with ids of these lengths, and a duration that is
-- 0 or reaches from its start to its end.
pub normalise_spans-IsSpan : (rs : List (Resourced ProtoSpan)) → All IsSpan (normalise_spans rs)
unfolding normalise_spans
normalise_spans-IsSpan rs = All-resources_of IsSpan normalise_span IsSpan-normalise_span rs
