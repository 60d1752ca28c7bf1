-- ===== src/Prelude/Totals.antt =====
-- The sum of a weight over a list, and what the operations of a sorted map do to it. With the weight
-- of an element 1 or 0 by a test it is the number of elements that pass.
use mathlib.Core.Path.{◌≡◌, refl, subst}
use mathlib.Core.Option.{none, some}
use mathlib.Core.List.{List, [], ◌∷◌, ◌++◌, map}
use mathlib.Core.Logic.{◌≢◌, inl, inr}
use Prim.Native.Nat.{ℕ, ◌+◌}
use native.Mathlib.Omega.{arith}
use infralens.Prelude.Tests.{Bool-cases}
use infralens.Prelude.Lists.{All}
use infralens.Prelude.SortedMap.{KeyOrder, insert, remove, get}

module _ {ℓ} {A : Type ℓ} where
  abbrev pub total : (A → ℕ) → List A → ℕ
  total w [] = 0
  total w (x ∷ xs) = w x + total w xs

  pub total-append : (w : A → ℕ) (xs ys : List A) → total w (xs ++ ys) ≡ total w xs + total w ys
  total-append w [] ys = omega arith
  total-append w (x ∷ xs) ys = omega (arith, total-append w xs ys)

  pub total-sum :
      (u v w : A → ℕ) (xs : List A)
      → total (λ x. u x + v x + w x) xs ≡ total u xs + total v xs + total w xs
  total-sum u v w [] = omega arith
  total-sum u v w (x ∷ xs) = omega (arith, total-sum u v w xs)

pub total-map {ℓ κ} :
    {A : Type ℓ} {B : Type κ} (w : B → ℕ) (f : A → B) (xs : List A)
    → total w (map f xs) ≡ total (λ x. w (f x)) xs
total-map w f [] = refl
total-map w f (x ∷ xs) = omega (arith, total-map w f xs)

module _ {ℓ κ} {K : Type ℓ} {V : Type κ} ⦃o : KeyOrder K⦄ where
  pub total-insert_new :
      (w : K × V → ℕ) (k : K) (v : V) (m : List (K × V))
      → All (λ e. e.0 ≢ k) m
      → total w (insert k v m) ≡ total w m + w (k, v)
  unfolding insert
  total-insert_new w k v [] h = omega arith
  total-insert_new w k v ((j, u) ∷ m) h = ground (arith, total-insert_new w k v m, o.connected k j)

  -- The sum over the values.
  abbrev pub values : (V → ℕ) → List (K × V) → ℕ
  values w m = total (λ e. w e.1) m

  pub values-insert-none :
      (w : V → ℕ) (k : K) (v : V) (m : List (K × V))
      → get k m ≡ none
      → values w (insert k v m) ≡ values w m + w v
  unfolding get insert
  values-insert-none w k v [] h = omega arith
  values-insert-none w k v ((j, u) ∷ m) h = ground (arith, values-insert-none w k v m)

  pub values-insert-some :
      (w : V → ℕ) (k : K) (v old : V) (m : List (K × V))
      → get k m ≡ some old
      → values w (insert k v m) + w old ≡ values w m + w v
  unfolding get insert
  values-insert-some w k v old [] h = ground arith
  values-insert-some w k v old ((j, u) ∷ m) h = ground (arith, values-insert-some w k v old m)

  pub values-remove-some :
      (w : V → ℕ) (k : K) (old : V) (m : List (K × V))
      → get k m ≡ some old
      → values w (remove k m) + w old ≡ values w m
  unfolding get remove
  values-remove-some w k old [] h = ground arith
  values-remove-some w k old ((j, u) ∷ m) h = ground (arith, values-remove-some w k old m)

  -- A value that is found has what every value has.
  pub All-get {μ} :
      (P : V → Type μ) (k : K) (v : V) (m : List (K × V))
      → get k m ≡ some v
      → All (λ e. P e.1) m
      → P v
  unfolding get
  All-get P k v [] h a = ground arith
  All-get P k v ((j, u) ∷ m) h a = elim (Bool-cases (o.before k j)) [
    | inl first ↦ absurd (ground (arith, h, first))
    | inr later ↦ elim (Bool-cases (o.before j k)) [
      | inl after ↦ All-get P k v m (rw (later, after) at h) a.1
      | inr here ↦ let same : u ≡ v = ground (arith, h, later, here) in subst P same a.0
    ]
  ]
