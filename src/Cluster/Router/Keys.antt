-- ===== src/Cluster/Router/Keys.antt =====
-- What two equal series keys say.
use infralens.Prelude.{ℕ, ◌≡◌, ◌≢◌, refl, [], ◌∷◌, ◌++◌, Bytes, codes, All}
use infralens.Cluster.Router.{metric_series_key, span_series_key}

-- A partition without the separator of the parts of a key.
abbrev pub IsPlain : Bytes → Type 0
IsPlain = All (λ c. c ≢ 124)

tail_of : (c d : ℕ) (cs ds : Bytes) → ◌≡◌ {A = Bytes} (c ∷ cs) (d ∷ ds) → cs ≡ ds
tail_of c d cs ds e = cc

head_of : (c d : ℕ) (cs ds : Bytes) → ◌≡◌ {A = Bytes} (c ∷ cs) (d ∷ ds) → c ≡ d
head_of c d cs ds e = cc

-- A text before the first separator is found again.
split_at :
    (a b x y : Bytes) → IsPlain a → IsPlain b → (a ++ 124 ∷ x) ≡ (b ++ 124 ∷ y) → (a ≡ b) × (x ≡ y)
split_at [] [] x y h k e = (refl, tail_of 124 124 x y e)
split_at [] (d ∷ ds) x y h k e = absurd (k.0 (cc (head_of 124 d x (ds ++ 124 ∷ y) e)))
split_at (c ∷ cs) [] x y h k e = absurd (h.0 (head_of c 124 (cs ++ 124 ∷ x) y e))
split_at (c ∷ cs) (d ∷ ds) x y h k e =
    let (same, rest) = split_at cs ds x y h.1 k.1 (tail_of c d _ _ e) in
    (cc (same, head_of c d _ _ e), rest)

after : (prefix a b : Bytes) → (prefix ++ a) ≡ (prefix ++ b) → a ≡ b
after [] a b e = e
after (c ∷ prefix) a b e = after prefix a b (tail_of c c _ _ e)

-- Series of metrics, or of spans, in partitions without a separator have the same key only if they are
-- the same.
pub metric_series_key-span_series_key :
    (p q name name' : Bytes)
    → IsPlain p
    → IsPlain q
    → (metric_series_key p name ≡ metric_series_key q name' → (p ≡ q) × (name ≡ name'))
      × (span_series_key p name ≡ span_series_key q name' → (p ≡ q) × (name ≡ name'))
unfolding metric_series_key span_series_key
metric_series_key-span_series_key p q name name' h k = (
  λ e. split_at p q name name' h k (after (codes "metrics|") _ _ e),
  λ e. split_at p q name name' h k (after (codes "traces|") _ _ e),
)
