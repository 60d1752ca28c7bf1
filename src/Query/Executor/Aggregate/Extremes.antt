-- ===== src/Query/Executor/Aggregate/Extremes.antt =====
-- Aggregates without groups: the batches do not matter, only their values in order.
use mathlib.Core.Path.{subst}
use infralens.Prelude.{
  ℕ, ◌+◌, ◌≡◌, refl, sym, ◌∙◌, ap, Bool, true, false, Option, some, List, [], ◌∷◌, ◌++◌, map, Bytes,
  codes, ℤ, length, length-append, All, any, ◌==◌, ltb, if◌then◌else◌, inl, inr, arith, Bool-cases,
}
use infralens.Query.Ast.{Expr}
use infralens.Query.Functions.{
  ArrayData, RecordBatch, Outcome, done, float64_array, int64_array, number_values, int_values,
}
use infralens.Query.Executor.Aggregate.Columns.{AggregateParams, find_column, column_name}
use infralens.Query.Executor.Aggregate.Scalar.{
  scalar_step, scalar_start, scalar_end, scalar_values, scalar_loop, scalar_batches,
  compute_scalar_agg,
}

-- A column of numbers, none of them null.
pub data Numbers : Type 0 where
  floats : List ℕ → Numbers
  ints : List ℤ → Numbers

abbrev pub column_of : Numbers → ArrayData
column_of (Numbers.floats xs) = float64_array (map some xs)
column_of (Numbers.ints xs) = int64_array (map some xs)

-- The batches with the column that each has under the name.
abbrev pub Has : Bytes → RecordBatch × Numbers → Type 0
Has name p = find_column name p.0.columns ≡ some (column_of p.1)

values_of_some : (xs : List ℕ) → number_values (map some xs) ≡ xs
values_of_some [] = refl
values_of_some (x ∷ xs) = ap (λ l. x ∷ l) (values_of_some xs)

ints_of_some : (xs : List ℤ) → int_values (map some xs) ≡ xs
ints_of_some [] = refl
ints_of_some (x ∷ xs) = ap (λ l. x ∷ l) (ints_of_some xs)

both_equal : {a a' b b' : ℕ} → a ≡ a' → b ≡ b' → ◌≡◌ {A = ℕ × ℕ} (a, b) (a', b')
both_equal h k = cc

-- The loop of a minimum or a maximum: the first of `acc` and the values that none is before.
abbrev pub pick : (ℕ → ℕ → Bool) → ℕ → List ℕ → ℕ
pick before acc [] = acc
pick before acc (v ∷ vs) = pick before (if before v acc then v else acc) vs

-- One of the values, and none of them is before it.
abbrev pub IsExtreme : (ℕ → ℕ → Bool) → List ℕ → ℕ → Type 0
IsExtreme before vs m = (any (λ v. v == m) vs ≡ true) × All (λ v. before v m ≡ false) vs

any_behind :
    (m acc v : ℕ) (vs : List ℕ)
    → any (λ x. x == m) (v ∷ vs) ≡ true
    → any (λ x. x == m) (acc ∷ v ∷ vs) ≡ true
any_behind m acc v vs h = ground arith

any_between :
    (m acc v : ℕ) (vs : List ℕ)
    → any (λ x. x == m) (acc ∷ vs) ≡ true
    → any (λ x. x == m) (acc ∷ v ∷ vs) ≡ true
any_between m acc v vs h = ground arith

module _ (before : ℕ → ℕ → Bool) (irrefl : (a : ℕ) → before a a ≡ false)
    (trans : (a b c : ℕ) → before a b ≡ true → before b c ≡ true → before a c ≡ true) where
  pick_taken :
      (v acc : ℕ) (vs : List ℕ) → before v acc ≡ true → pick before acc (v ∷ vs) ≡ pick before v vs
  pick_taken v acc vs h = rw h refl

  pick_kept :
      (v acc : ℕ) (vs : List ℕ)
      → before v acc ≡ false
      → pick before acc (v ∷ vs) ≡ pick before acc vs
  pick_kept v acc vs h = rw h refl

  asymmetric : (a b : ℕ) → before a b ≡ true → before b a ≡ false
  asymmetric a b h = elim (Bool-cases (before b a)) [
    | inr apart ↦ apart
    | inl back ↦ absurd (ground (arith, irrefl b, trans b a b back h))
  ]

  not_before :
      (vs : List ℕ) (acc x : ℕ) → before x acc ≡ false → before x (pick before acc vs) ≡ false
  not_before [] acc x h = h
  not_before (v ∷ vs) acc x h = elim (Bool-cases (before v acc)) [
    | inr no' ↦ rw (pick_kept v acc vs no') (not_before vs acc x h)
    | inl yes' ↦ rw (pick_taken v acc vs yes') (elim (Bool-cases (before x v)) [
      | inr apart ↦ not_before vs v x apart
      | inl below ↦ absurd (ground (arith, h, trans x v acc below yes'))
    ])
  ]

  none_before :
      (vs : List ℕ) (acc : ℕ) → All (λ v. before v (pick before acc vs) ≡ false) (acc ∷ vs)
  none_before [] acc = (irrefl acc, tt)
  none_before (v ∷ vs) acc =
      let among : ℕ → Type 0 = λ m. All (λ x. before x m ≡ false) (acc ∷ v ∷ vs) in
      elim (Bool-cases (before v acc)) [
        | inr no' ↦
            let rest = none_before vs acc in
            subst among (sym (pick_kept v acc vs no')) (rest.0, (not_before vs acc v no', rest.1))
        | inl yes' ↦
            subst among (sym (pick_taken v acc vs yes'))
              (not_before vs v acc (asymmetric v acc yes'), none_before vs v)
      ]

  picked : (vs : List ℕ) (acc : ℕ) → any (λ v. v == pick before acc vs) (acc ∷ vs) ≡ true
  picked [] acc = ground arith
  picked (v ∷ vs) acc = elim (Bool-cases (before v acc)) [
    | inr no' ↦
        subst (λ m. any (λ x. x == m) (acc ∷ v ∷ vs) ≡ true) (sym (pick_kept v acc vs no'))
          (any_between (pick before acc vs) acc v vs (picked vs acc))
    | inl yes' ↦
        subst (λ m. any (λ x. x == m) (acc ∷ v ∷ vs) ≡ true) (sym (pick_taken v acc vs yes'))
          (any_behind (pick before v vs) acc v vs (picked vs v))
  ]

  pub pick-IsExtreme : (vs : List ℕ) (acc : ℕ) → IsExtreme before (acc ∷ vs) (pick before acc vs)
  pick-IsExtreme vs acc = (picked vs acc, none_before vs acc)

module _ (params : AggregateParams) where
  -- The numbers of a column, as floats.
  abbrev pub numbers : Numbers → List ℕ
  numbers (Numbers.floats xs) = xs
  numbers (Numbers.ints xs) = map params.float_of_int xs

  -- All values of the columns, batch by batch.
  abbrev pub all_values : List (RecordBatch × Numbers) → List ℕ
  all_values [] = []
  all_values (p ∷ ps) = numbers p.1 ++ all_values ps

  -- The sum of floats, from the first to the last.
  abbrev pub total_from : ℕ → List ℕ → ℕ
  total_from acc [] = acc
  total_from acc (v ∷ vs) = total_from (params.float_add acc v) vs

  scalar_values-column_of : (c : Numbers) → scalar_values params (column_of c) ≡ numbers c
  scalar_values-column_of (Numbers.floats xs) = values_of_some xs
  scalar_values-column_of (Numbers.ints xs) = ap (map params.float_of_int) (ints_of_some xs)

  abbrev pub fold_steps : Bytes → ℕ → List ℕ → ℕ
  fold_steps func acc [] = acc
  fold_steps func acc (v ∷ vs) = fold_steps func (scalar_step params func acc v) vs

  scalar_loop_lem :
      (func : Bytes) (vs : List ℕ) (acc cnt : ℕ)
      → scalar_loop params func acc cnt vs ≡ (fold_steps func acc vs, cnt + length vs)
  scalar_loop_lem func [] acc cnt = ap (λ n. (acc, n)) (omega arith)
  scalar_loop_lem func (v ∷ vs) acc cnt =
      scalar_loop_lem func vs (scalar_step params func acc v) (cnt + 1)
      ∙ ap (λ n. (fold_steps func (scalar_step params func acc v) vs, n)) (omega arith)

  fold_steps-append :
      (func : Bytes) (vs ws : List ℕ) (acc : ℕ)
      → fold_steps func acc (vs ++ ws) ≡ fold_steps func (fold_steps func acc vs) ws
  fold_steps-append func [] ws acc = refl
  fold_steps-append func (v ∷ vs) ws acc = fold_steps-append func vs ws _

  scalar_batches_lem :
      (func name : Bytes) (ps : List (RecordBatch × Numbers)) (acc cnt : ℕ)
      → All (Has name) ps
      → scalar_batches params func name acc cnt (map (λ p. p.0) ps)
        ≡ done (fold_steps func acc (all_values ps), cnt + length (all_values ps))
  unfolding scalar_batches
  scalar_batches_lem func name [] acc cnt h = ap (λ n. done (acc, n)) (omega arith)
  scalar_batches_lem func name ((b, c) ∷ ps) acc cnt h =
      let vs = numbers c in
      let looped =
        ap (scalar_loop params func acc cnt) (scalar_values-column_of c)
        ∙ scalar_loop_lem func vs acc cnt in
      let joined = fold_steps-append func vs (all_values ps) acc in
      let counted : cnt + length vs + length (all_values ps) ≡ cnt + length (vs ++ all_values ps) =
        omega (arith, length-append vs (all_values ps)) in
      rw (scalar_batches, h.0)
        (ap (λ r. scalar_batches params func name r.0 r.1 (map (λ p. p.0) ps)) looped
          ∙ scalar_batches_lem func name ps (fold_steps func acc vs) (cnt + length vs) h.1
          ∙ ap done (both_equal (sym joined) counted))

  abbrev pub later : ℕ → ℕ → Bool
  later a b = params.float_lt b a

  fold_steps-min :
      (vs : List ℕ) (acc : ℕ) → fold_steps (codes "min") acc vs ≡ pick params.float_lt acc vs
  unfolding scalar_step
  fold_steps-min [] acc = refl
  fold_steps-min (v ∷ vs) acc = fold_steps-min vs _

  fold_steps-max : (vs : List ℕ) (acc : ℕ) → fold_steps (codes "max") acc vs ≡ pick later acc vs
  unfolding scalar_step
  fold_steps-max [] acc = refl
  fold_steps-max (v ∷ vs) acc = fold_steps-max vs _

  fold_steps-avg :
      (vs : List ℕ) (acc : ℕ) → fold_steps (codes "avg") acc vs ≡ fold_steps (codes "sum") acc vs
  unfolding scalar_step
  fold_steps-avg [] acc = refl
  fold_steps-avg (v ∷ vs) acc = fold_steps-avg vs _

  fold_steps-total : (vs : List ℕ) (acc : ℕ) → fold_steps (codes "sum") acc vs ≡ total_from acc vs
  unfolding scalar_step
  fold_steps-total [] acc = refl
  fold_steps-total (v ∷ vs) acc = fold_steps-total vs _

  abbrev pub total : List ℕ → ℕ
  total vs = total_from 0 vs

  scalar_lem :
      (func name : Bytes) (table : Option Bytes) (ps : List (RecordBatch × Numbers))
      → All (Has name) ps
      → compute_scalar_agg params (map (λ p. p.0) ps) func (some (Expr.column table name))
        ≡ done (
            scalar_end params func
              (fold_steps func (scalar_start params func) (all_values ps))
              (length (all_values ps)))
  unfolding compute_scalar_agg column_name
  scalar_lem func name table ps h =
      let total = fold_steps func (scalar_start params func) (all_values ps) in
      let counted : 0 + length (all_values ps) ≡ length (all_values ps) = omega arith in
      rw (scalar_batches_lem func name ps (scalar_start params func) 0 h)
        (ap (λ n. done (scalar_end params func total n)) counted)

  module _ (irrefl : (a : ℕ) → params.float_lt a a ≡ false)
      (trans : (a b c : ℕ)
        → params.float_lt a b ≡ true
        → params.float_lt b c ≡ true
        → params.float_lt a c ≡ true) where
    -- Where the comparison of floats is irreflexive and transitive, over batches that all have the
    -- column, of floats or of signed integers and without nulls, the minimum is one of infinity
    -- and the values and no value is below it, the maximum is one of minus infinity and the values
    -- and none is above it, the sum adds the values in order to 0, and the average is that sum
    -- divided by their number, or 0 without values.
    pub compute_scalar_agg_lem :
        (name : Bytes) (table : Option Bytes) (ps : List (RecordBatch × Numbers))
        → All (Has name) ps
        → let values = all_values ps in
          let result : Bytes → Outcome ℕ = λ func.
            compute_scalar_agg params (map (λ p. p.0) ps) func (some (Expr.column table name)) in
          ((m : ℕ) × (result (codes "min") ≡ done m)
            × IsExtreme params.float_lt (params.infinity ∷ values) m)
          × ((m : ℕ) × (result (codes "max") ≡ done m)
              × IsExtreme later (params.neg_infinity ∷ values) m)
          × (result (codes "sum") ≡ done (total values))
          × (result (codes "avg")
              ≡ done (
                  if ltb 0 (length values)
                  then params.float_div (total values) (params.float_of_nat (length values))
                  else 0))
    unfolding scalar_end scalar_start
    compute_scalar_agg_lem name table ps h =
        let values = all_values ps in
        (
          (
            pick params.float_lt params.infinity values,
            scalar_lem (codes "min") name table ps h
                ∙ ap done (fold_steps-min values params.infinity),
            pick-IsExtreme params.float_lt irrefl trans values params.infinity,
          ),
          (
            pick later params.neg_infinity values,
            scalar_lem (codes "max") name table ps h
                ∙ ap done (fold_steps-max values params.neg_infinity),
            pick-IsExtreme later irrefl (λ a b c x y. trans c b a y x) values params.neg_infinity,
          ),
          scalar_lem (codes "sum") name table ps h ∙ ap done (fold_steps-total values 0),
          scalar_lem (codes "avg") name table ps h
              ∙ ap
                  (λ t. done (
                    if ltb 0 (length values)
                    then params.float_div t (params.float_of_nat (length values))
                    else 0))
                  (fold_steps-avg values 0 ∙ fold_steps-total values 0),
        )
