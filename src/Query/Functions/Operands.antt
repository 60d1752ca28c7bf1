-- ===== src/Query/Functions/Operands.antt =====
-- One element per row, through the operators: comparisons, arithmetic, AND, OR and IN.
use infralens.Prelude.{ℕ, Bool, Option, List, [], ◌∷◌, Bytes, All, Bool-cases, inl, inr}
use infralens.Query.Ast.{BinOp}
use infralens.Query.Functions.{
  ArrayData, Outcome, done, ◌>>=◌, Kernels, uint64_array, int64_array, float64_array, string_array,
  boolean_array,
}
use infralens.Query.Functions.Eval.{eval_binop, in_mask}
use infralens.Query.Functions.Sized.{
  Holds, bind, IsSized, IsMask, anything, KernelLaws, boolean_lem,
}
use infralens.Query.Functions.Values.{
  as_boolean, compare_arrays, has_arithmetic, supported, arithmetic_arrays,
}

module _ (n : ℕ) where
  abbrev pub Fits : Outcome ArrayData → Type 0
  Fits = Holds (IsSized n)

  -- Both operands, then something that fits.
  pub both :
      (l r : Outcome ArrayData) (f : ArrayData → ArrayData → Outcome ArrayData)
      → Fits l
      → Fits r
      → ((a b : ArrayData) → IsSized n a → IsSized n b → Fits (f a b))
      → Fits (l >>= (λ a. r >>= (λ b. f a b)))
  both l r f hl hr k =
      bind (IsSized n) (IsSized n) l _ hl
        (λ a ha. bind (IsSized n) (IsSized n) r (f a) hr (λ b hb. k a b ha hb))

  pub mask_fits :
      (m : Outcome (List (Option Bool)))
      → Holds (IsMask n) m
      → Fits (m >>= (λ mask. done (boolean_array mask)))
  mask_fits m h = bind (IsMask n) (IsSized n) m _ h (λ mask is. is)

  -- A scalar read from an array, and then something that fits.
  pub scalar :
      {A : Type 0} (x : Outcome A) (f : A → Outcome ArrayData)
      → ((a : A) → Fits (f a))
      → Fits (x >>= f)
  scalar x f k = bind (λ a. Unit {0}) (IsSized n) x f (anything x) (λ a h. k a)

  pub sized :
      (x : Outcome ArrayData) (f : ArrayData → Outcome ArrayData)
      → Fits x
      → ((a : ArrayData) → IsSized n a → Fits (f a))
      → Fits (x >>= f)
  sized x f h k = bind (IsSized n) (IsSized n) x f h k

module _ (kernels : Kernels) (laws : KernelLaws kernels) (n : ℕ) where
  pub compare_lem :
      (op : BinOp) (l r : ArrayData)
      → IsSized n l
      → IsSized n r
      → Holds (IsMask n) (compare_arrays kernels l r op)
  unfolding compare_arrays
  compare_lem op (uint64_array xs) (uint64_array ys) hl hr = laws.compare n op _ _ hl hr
  compare_lem op (int64_array xs) (int64_array ys) hl hr = laws.compare n op _ _ hl hr
  compare_lem op (float64_array xs) (float64_array ys) hl hr = laws.compare n op _ _ hl hr
  compare_lem op (string_array xs) (string_array ys) hl hr = laws.compare n op _ _ hl hr
  compare_lem op l r hl hr = tt

  supported_lem :
      (op : BinOp) (l r : ArrayData) → IsSized n l → IsSized n r → Fits n (supported kernels op l r)
  supported_lem op l r hl hr = elim (Bool-cases (has_arithmetic op)) [
    | inl yes' ↦ rw yes' (laws.arithmetic n op l r hl hr)
    | inr no' ↦ rw no' tt
  ]

  arithmetic_lem :
      (op : BinOp) (l r : ArrayData)
      → IsSized n l
      → IsSized n r
      → Fits n (arithmetic_arrays kernels l r op)
  unfolding arithmetic_arrays
  arithmetic_lem op (int64_array xs) (int64_array ys) hl hr = supported_lem op _ _ hl hr
  arithmetic_lem op (float64_array xs) (float64_array ys) hl hr = supported_lem op _ _ hl hr
  arithmetic_lem op l r hl hr = tt

  arithmetic_op :
      (op : BinOp) (l r : Outcome ArrayData)
      → Fits n l
      → Fits n r
      → Fits n (l >>= (λ a. r >>= (λ b. arithmetic_arrays kernels a b op)))
  arithmetic_op op l r hl hr =
      both n l r (λ a b. arithmetic_arrays kernels a b op) hl hr
        (λ a b ha hb. arithmetic_lem op a b ha hb)

  comparison_op :
      (op : BinOp) (l r : Outcome ArrayData)
      → Fits n l
      → Fits n r
      → Fits n (
          l >>= (λ a.
            r >>= (λ b. compare_arrays kernels a b op >>= (λ mask. done (boolean_array mask)))))
  comparison_op op l r hl hr =
      both n l r _ hl hr (λ a b ha hb. mask_fits n _ (compare_lem op a b ha hb))

  -- A kernel on two Boolean operands.
  boolean_op :
      (f : List (Option Bool) → List (Option Bool) → Outcome (List (Option Bool)))
      (left_msg right_msg : Bytes) (l r : Outcome ArrayData)
      → ((a b : List (Option Bool)) → IsMask n a → IsMask n b → Holds (IsMask n) (f a b))
      → Fits n l
      → Fits n r
      → Fits n (
          l >>= (λ a. r >>= (λ b. as_boolean left_msg a >>= (λ la.
            as_boolean right_msg b >>= (λ rb. f la rb >>= (λ mask. done (boolean_array mask)))))))
  boolean_op f left_msg right_msg l r k hl hr = both n l r _ hl hr (λ a b ha hb.
      bind (IsMask n) (IsSized n) (as_boolean left_msg a) _ (boolean_lem n left_msg a ha) (λ la hla.
        bind (IsMask n) (IsSized n) (as_boolean right_msg b) _ (boolean_lem n right_msg b hb)
          (λ rb hrb. mask_fits n (f la rb) (k la rb hla hrb))))

  pub eval_binop_lem :
      (op : BinOp) (l r : Outcome ArrayData)
      → Fits n l
      → Fits n r
      → Fits n (eval_binop kernels op l r)
  unfolding eval_binop
  eval_binop_lem BinOp.and l r hl hr =
      boolean_op kernels.and_kernel _ _ l r (λ a b ha hb. laws.and_kernel n a b ha hb) hl hr
  eval_binop_lem BinOp.or l r hl hr =
      boolean_op kernels.or_kernel _ _ l r (λ a b ha hb. laws.or_kernel n a b ha hb) hl hr
  eval_binop_lem BinOp.add l r hl hr = arithmetic_op BinOp.add l r hl hr
  eval_binop_lem BinOp.sub l r hl hr = arithmetic_op BinOp.sub l r hl hr
  eval_binop_lem BinOp.mul l r hl hr = arithmetic_op BinOp.mul l r hl hr
  eval_binop_lem BinOp.div l r hl hr = arithmetic_op BinOp.div l r hl hr
  eval_binop_lem BinOp.mod' l r hl hr = arithmetic_op BinOp.mod' l r hl hr
  eval_binop_lem op l r hl hr = comparison_op op l r hl hr

  pub in_mask_lem :
      (val : ArrayData) (items : List (Outcome ArrayData)) (mask : List (Option Bool))
      → IsSized n val
      → All (Fits n) items
      → IsMask n mask
      → Fits n (in_mask kernels val items mask)
  unfolding in_mask
  in_mask_lem val [] mask hv hs hm = hm
  in_mask_lem val (item ∷ items) mask hv hs hm = bind (IsSized n) (IsSized n) item _ hs.0 (λ a ha.
      bind (IsMask n) (IsSized n) (compare_arrays kernels val a BinOp.eq) _
        (compare_lem BinOp.eq val a hv ha)
        (λ eq_mask he.
          bind (IsMask n) (IsSized n) (kernels.or_kernel mask eq_mask) _
            (laws.or_kernel n mask eq_mask hm he)
            (λ mask' hm'. in_mask_lem val items mask' hv hs.1 hm')))
