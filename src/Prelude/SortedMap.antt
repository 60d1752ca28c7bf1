-- ===== src/Prelude/SortedMap.antt =====
-- The standard library's `BTreeMap`: an association list in ascending order of its keys. The order
-- of the keys is an interface that each client fills.
use mathlib.Core.Path.{◌≡◌, refl}
use mathlib.Core.Bool.{Bool, true, false}
use mathlib.Core.Logic.{◌≢◌, inl, inr}
use mathlib.Core.Option.{Option, none, some}
use mathlib.Core.List.{List, [], ◌∷◌, Perm}
use mathlib.Core.List.Perm
use Prim.Native.Nat.{ℕ, ◌+◌}
use native.Mathlib.Omega.{arith}
use infralens.Prelude.Tests.{if◌then◌else◌, ltb, Bool-cases}
use infralens.Prelude.Lists.{All, length, keep}

-- A strict total order as a Boolean test.
pub record KeyOrder {ℓ} (K : Type ℓ) : Type ℓ where
  pub before : K → K → Bool
  pub irrefl : (a : K) → before a a ≡ false
  pub trans : (a b c : K) → before a b ≡ true → before b c ≡ true → before a c ≡ true
  pub connected : (a b : K) → before a b ≡ false → before b a ≡ false → a ≡ b

pub ltb_irrefl : (a : ℕ) → ltb a a ≡ false
ltb_irrefl a = ground arith

pub ltb_trans : (a b c : ℕ) → ltb a b ≡ true → ltb b c ≡ true → ltb a c ≡ true
ltb_trans a b c p q = ground arith

pub ltb_connected : (a b : ℕ) → ltb a b ≡ false → ltb b a ≡ false → a ≡ b
ltb_connected a b p q = ground arith

instance abbrev pub ℕ_order : KeyOrder ℕ
ℕ_order = record { before = ltb; irrefl = ltb_irrefl; trans = ltb_trans; connected = ltb_connected }

-- Two elements change places in front of a permutation.
keep-cons-perm {ℓ} :
    {A : Type ℓ} (p : A → Bool) (x y : A) (xs ys : List A)
    → Perm (keep p xs) (keep p (y ∷ ys))
    → Perm (keep p (x ∷ xs)) (keep p (y ∷ x ∷ ys))
keep-cons-perm p x y xs ys h = elim (Bool-cases (p x)) [
  | inl px ↦ elim (Bool-cases (p y)) [
    | inl py ↦ rw (px, py) (Perm.trans (Perm.cons x (rw py at h)) (Perm.swap y x (keep p ys)))
    | inr py ↦ rw (px, py) (Perm.cons x (rw py at h))
  ]
  | inr px ↦ elim (Bool-cases (p y)) [
    | inl py ↦ rw (px, py) (rw py at h)
    | inr py ↦ rw (px, py) (rw py at h)
  ]
]

module _ {ℓ κ} {K : Type ℓ} {V : Type κ} ⦃o : KeyOrder K⦄ where
  unfoldable pub insert : K → V → List (K × V) → List (K × V)
  insert k v [] = (k, v) ∷ []
  insert k v ((j, w) ∷ m) =
      if o.before k j
      then (k, v) ∷ (j, w) ∷ m
      else if o.before j k
      then (j, w) ∷ insert k v m
      else (k, v) ∷ m

  unfoldable pub remove : K → List (K × V) → List (K × V)
  remove k [] = []
  remove k ((j, w) ∷ m) =
      if o.before k j then (j, w) ∷ m else if o.before j k then (j, w) ∷ remove k m else m

  unfoldable pub get : K → List (K × V) → Option V
  get k [] = none
  get k ((j, w) ∷ m) = if o.before k j then none else if o.before j k then get k m else some w

  abbrev pub Above : K → List (K × V) → Type 0
  Above k = All (λ e. o.before k e.0 ≡ true)

  -- The keys ascend strictly.
  abbrev pub IsAscending : List (K × V) → Type 0
  IsAscending [] = Unit
  IsAscending ((k, v) ∷ m) = Above k m × IsAscending m

  Above-trans : (j k : K) (m : List (K × V)) → o.before j k ≡ true → Above k m → Above j m
  Above-trans j k [] h a = tt
  Above-trans j k ((i, w) ∷ m) h a = (o.trans j k i h a.0, Above-trans j k m h a.1)

  pub All-insert {μ} :
      (P : K × V → Type μ) (k : K) (v : V) (m : List (K × V))
      → P (k, v)
      → All P m
      → All P (insert k v m)
  unfolding insert
  All-insert P k v [] p a = (p, tt)
  All-insert P k v ((j, w) ∷ m) p a = ground (arith, All-insert P k v m)

  pub All-remove {μ} :
      (P : K × V → Type μ) (k : K) (m : List (K × V)) → All P m → All P (remove k m)
  unfolding remove
  All-remove P k [] a = tt
  All-remove P k ((j, w) ∷ m) a = ground (arith, All-remove P k m)

  pub insert-IsAscending :
      (k : K) (v : V) (m : List (K × V)) → IsAscending m → IsAscending (insert k v m)
  unfolding insert
  insert-IsAscending k v [] h = (tt, tt)
  insert-IsAscending k v ((j, w) ∷ m) h = ground (
    arith,
    insert-IsAscending k v m,
    All-insert (λ e. o.before j e.0 ≡ true) k v m,
    Above-trans k j m,
    o.connected k j,
  )

  pub remove-IsAscending : (k : K) (m : List (K × V)) → IsAscending m → IsAscending (remove k m)
  unfolding remove
  remove-IsAscending k [] h = tt
  remove-IsAscending k ((j, w) ∷ m) h =
      ground (arith, remove-IsAscending k m, All-remove (λ e. o.before j e.0 ≡ true) k m)

  pub get_first : (k : K) (v : V) (m : List (K × V)) → get k ((k, v) ∷ m) ≡ some v
  unfolding get
  get_first k v m = ground (arith, o.irrefl k)

  pub remove_first : (k : K) (v : V) (m : List (K × V)) → remove k ((k, v) ∷ m) ≡ m
  unfolding remove
  remove_first k v m = ground (arith, o.irrefl k)

  pub get-insert_self : (k : K) (v : V) (m : List (K × V)) → get k (insert k v m) ≡ some v
  unfolding get insert
  get-insert_self k v [] = ground (arith, o.irrefl k)
  get-insert_self k v ((j, w) ∷ m) = ground (arith, o.irrefl k, get-insert_self k v m)

  get-Above : (k : K) (m : List (K × V)) → Above k m → get k m ≡ none
  unfolding get
  get-Above k [] h = refl
  get-Above k ((j, w) ∷ m) h = ground arith

  pub get-insert_ne :
      (k i : K) (v : V) (m : List (K × V)) → k ≢ i → IsAscending m → get i (insert k v m) ≡ get i m
  unfolding get insert
  get-insert_ne k i v [] ne h = ground (arith, o.connected i k)
  get-insert_ne k i v ((j, w) ∷ m) ne h = ground (
    arith,
    get-insert_ne k i v m,
    o.connected i k,
    o.connected k j,
    o.connected i j,
    o.trans i k j,
    o.trans k j i,
    o.irrefl i,
  )

  pub get-remove_self : (k : K) (m : List (K × V)) → IsAscending m → get k (remove k m) ≡ none
  unfolding get remove
  get-remove_self k [] h = refl
  get-remove_self k ((j, w) ∷ m) h =
      ground (arith, get-remove_self k m, o.connected k j, get-Above j m)

  pub get-remove_ne :
      (k i : K) (m : List (K × V)) → k ≢ i → IsAscending m → get i (remove k m) ≡ get i m
  unfolding get remove
  get-remove_ne k i [] ne h = refl
  get-remove_ne k i ((j, w) ∷ m) ne h = ground (
    arith,
    get-remove_ne k i m,
    get-Above j m,
    Above-trans i j m,
    get-Above i m,
    o.connected i k,
    o.connected k j,
    o.connected i j,
    o.trans i k j,
    o.trans k j i,
  )

  -- An entry that is new adds one to the size.
  pub length-insert_new :
      (k : K) (v : V) (m : List (K × V))
      → All (λ e. e.0 ≢ k) m
      → length (insert k v m) ≡ length m + 1
  unfolding insert
  length-insert_new k v [] h = omega arith
  length-insert_new k v ((j, w) ∷ m) h = ground (arith, length-insert_new k v m, o.connected k j)

  -- An insertion of a new key adds its entry to the entries that pass a test, if it passes.
  pub keep-insert-perm :
      (p : K × V → Bool) (k : K) (v : V) (m : List (K × V))
      → All (λ e. e.0 ≢ k) m
      → Perm (keep p (insert k v m)) (keep p ((k, v) ∷ m))
  unfolding insert
  keep-insert-perm p k v [] h = Perm.refl _
  keep-insert-perm p k v ((j, w) ∷ m) h = elim (Bool-cases (o.before k j)) [
    | inl first ↦ rw first (Perm.refl _)
    | inr later ↦ elim (Bool-cases (o.before j k)) [
      | inl after ↦
          rw (later, after)
            (keep-cons-perm p (j, w) (k, v) (insert k v m) m (keep-insert-perm p k v m h.1))
      | inr same ↦ absurd (h.0 (o.connected j k same later))
    ]
  ]

  -- Ascending entries that pass a test are ascending.
  All-keep {μ} :
      (P : K × V → Type μ) (p : K × V → Bool) (m : List (K × V)) → All P m → All P (keep p m)
  All-keep P p [] h = tt
  All-keep P p (e ∷ m) h = ground (arith, All-keep P p m)

  pub keep-IsAscending :
      (p : K × V → Bool) (m : List (K × V)) → IsAscending m → IsAscending (keep p m)
  keep-IsAscending p [] h = tt
  keep-IsAscending p ((k, v) ∷ m) h =
      ground (arith, keep-IsAscending p m, All-keep (λ e. o.before k e.0 ≡ true) p m)
