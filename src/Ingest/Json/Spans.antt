-- ===== src/Ingest/Json/Spans.antt =====
-- The shape of the spans that the JSON decoder lets through: that of the normaliser's.
use mathlib.Core.Path.{subst}
use infralens.Prelude.{
  codes, ℕ, ap, ◌∙◌, ◌-◌, ◌⊎◌, ◌+◌, ◌≡◌, refl, Option, none, some, List, [], ◌∷◌, ◌++◌, Bytes,
  length, All, All-append, arith, inl, inr, Bool-cases, leb, ◌>>=◌,
}
use infralens.Common.Model.{AnyMap, InstrumentationScope, SpanRecord}
use infralens.Ingest.Json.{Value, Readers, get, items_at, nanos, hex_to_16, hex_to_8, id_at}
use infralens.Ingest.Json.Ids.{length-id_at}
use infralens.Ingest.Json.Records.{
  push_all, decode_scoped, decode_resource, decode_resources, link_with, link_from, decode_link,
  decode_span_with, decode_span_at, decode_span_from, decode_span, decode_spans,
}
use infralens.Ingest.Normalizer.Spans.{IsLink, IsSpan}

-- All results have the property, if there is no panic.
abbrev pub Good : {B : Type 0} → (B → Type 0) → Option (List B) → Type 0
Good P none = Unit
Good P (some bs) = All P bs

bind-Good :
    {A B : Type 0} (P : B → Type 0) (o : Option A) (f : A → Option (List B))
    → ((a : A) → o ≡ some a → Good P (f a))
    → Good P (o >>= f)
bind-Good P none f h = tt
bind-Good P (some a) f h = h a refl

joined-Good :
    {B : Type 0} (P : B → Type 0) (here later : Option (List B))
    → Good P here
    → Good P later
    → Good P (here >>= (λ bs. later >>= (λ cs. some (bs ++ cs))))
joined-Good P none later h k = tt
joined-Good P (some bs) none h k = tt
joined-Good P (some bs) (some cs) h k = All-append P bs cs h k

push_all-Good :
    {A B : Type 0} (P : B → Type 0) (f : A → Option (List B)) (xs : List A)
    → ((x : A) → Good P (f x))
    → Good P (push_all f xs)
unfolding push_all
push_all-Good P f [] h = tt
push_all-Good P f (x ∷ xs) h = joined-Good P (f x) (push_all f xs) (h x) (push_all-Good P f xs h)

links_bound :
    {A B : Type 0} (P : B → Type 0) {Q : A → Type 0} (o : Option (List A))
    (f : List A → Option (List B))
    → Good Q o
    → ((xs : List A) → All Q xs → Good P (f xs))
    → Good P (o >>= f)
links_bound P none f h k = tt
links_bound P (some xs) f h k = k xs h

duration_lem : (start end' : ℕ) → (end' - start ≡ 0) ⊎ (start + (end' - start) ≡ end')
duration_lem start end' = elim (Bool-cases (leb start end')) [
  | inl forward ↦ inr (ground arith)
  | inr backward ↦ inl (ground arith)
]

module _ (readers : Readers) where
  decode_resources-Good :
      {B : Type 0} (P : B → Type 0) (outer middle inner : Bytes)
      (decode : AnyMap → InstrumentationScope → Bytes → Value → Option (List B)) (json : Value)
      → ((attrs : AnyMap) (scope : InstrumentationScope) (schema : Bytes) (v : Value)
          → Good P (decode attrs scope schema v))
      → Good P (decode_resources readers outer middle inner decode json)
  unfolding decode_resources decode_resource decode_scoped
  decode_resources-Good P outer middle inner decode json h =
      push_all-Good P _ _ (λ r. push_all-Good P _ _ (λ s. push_all-Good P _ _ (λ v. h _ _ _ v)))

  link_with-Good :
      (trace : Bytes) (span : Option Bytes) (l : Value)
      → length trace ≡ 16
      → ((id : Bytes) → span ≡ some id → length id ≡ 8)
      → Good IsLink (some (link_with readers (some trace) span l))
  link_with-Good trace none l h k = tt
  link_with-Good trace (some id) l h k = ((h, k id refl), tt)

  link_from-Good :
      (trace : Option Bytes) (l : Value)
      → ((id : Bytes) → trace ≡ some id → length id ≡ 16)
      → Good IsLink (link_from readers trace l)
  link_from-Good none l h = tt
  link_from-Good (some id) l h =
      bind-Good IsLink (id_at readers (hex_to_8 readers) (codes "spanId") l)
        (λ span. some (link_with readers (some id) span l))
        (λ span is.
          link_with-Good id span l (h id refl)
            (λ i same. length-id_at readers 8 (codes "spanId") l i (is ∙ ap some same)))

  decode_link-Good : (l : Value) → Good IsLink (decode_link readers l)
  unfolding decode_link
  decode_link-Good l =
      bind-Good IsLink (id_at readers (hex_to_16 readers) (codes "traceId") l)
        (λ id. link_from readers id l)
        (λ id is.
          link_from-Good id l
            (λ trace same. length-id_at readers 16 (codes "traceId") l trace (is ∙ ap some same)))

  decode_span_with-Good :
      (attrs : AnyMap) (scope : InstrumentationScope) (schema : Bytes) (s : Value)
      (trace span : Bytes)
      → length trace ≡ 16
      → length span ≡ 8
      → Good IsSpan (decode_span_with readers attrs scope schema s trace span)
  unfolding decode_span_with
  decode_span_with-Good attrs scope schema s trace span h k =
      bind-Good IsSpan (id_at readers (hex_to_8 readers) (codes "parentSpanId") s) _ (λ parent is.
        links_bound IsSpan (push_all (decode_link readers) (items_at (get (codes "links") s))) _
          (push_all-Good IsLink (decode_link readers) (items_at (get (codes "links") s))
            decode_link-Good)
          (λ links good. (
            record {
              trace = h;
              span = k;
              parent = (λ id same.
                  length-id_at readers 8 (codes "parentSpanId") s id (is ∙ ap some same));
              duration =
                  duration_lem (nanos readers (codes "startTimeUnixNano") 0 s)
                    (nanos readers (codes "endTimeUnixNano") 0 s);
              links = good;
            },
            tt,
          )))

  decode_span_at-Good :
      (attrs : AnyMap) (scope : InstrumentationScope) (schema : Bytes) (s : Value) (trace : Bytes)
      (span : Option Bytes)
      → length trace ≡ 16
      → ((id : Bytes) → span ≡ some id → length id ≡ 8)
      → Good IsSpan (decode_span_at readers attrs scope schema s trace span)
  decode_span_at-Good attrs scope schema s trace none h k = tt
  decode_span_at-Good attrs scope schema s trace (some id) h k =
      decode_span_with-Good attrs scope schema s trace id h (k id refl)

  decode_span_from-Good :
      (attrs : AnyMap) (scope : InstrumentationScope) (schema : Bytes) (s : Value)
      (trace : Option Bytes)
      → ((id : Bytes) → trace ≡ some id → length id ≡ 16)
      → Good IsSpan (decode_span_from readers attrs scope schema s trace)
  unfolding decode_span_from
  decode_span_from-Good attrs scope schema s none h = tt
  decode_span_from-Good attrs scope schema s (some id) h =
      bind-Good IsSpan (id_at readers (hex_to_8 readers) (codes "spanId") s) _ (λ span is.
        decode_span_at-Good attrs scope schema s id span (h id refl)
          (λ i same. length-id_at readers 8 (codes "spanId") s i (is ∙ ap some same)))

  decode_span-Good :
      (attrs : AnyMap) (scope : InstrumentationScope) (schema : Bytes) (s : Value)
      → Good IsSpan (decode_span readers attrs scope schema s)
  unfolding decode_span
  decode_span-Good attrs scope schema s =
      bind-Good IsSpan (id_at readers (hex_to_16 readers) (codes "traceId") s)
        (λ id. decode_span_from readers attrs scope schema s id)
        (λ id is.
          decode_span_from-Good attrs scope schema s id
            (λ trace same. length-id_at readers 16 (codes "traceId") s trace (is ∙ ap some same)))

  -- Every span that the JSON decoder returns has a trace id of 16 bytes and a span id of 8, a parent id of
  -- 8 bytes if it has one, only links with ids of these lengths, and a duration that is 0 or reaches
  -- from its start to its end.
  pub decode_spans-IsSpan :
      (json : Value) (rs : List SpanRecord) → decode_spans readers json ≡ some rs → All IsSpan rs
  unfolding decode_spans
  decode_spans-IsSpan json rs h =
      subst (Good IsSpan) h
        (decode_resources-Good IsSpan _ _ _ (decode_span readers) json decode_span-Good)
