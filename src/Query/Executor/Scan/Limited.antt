-- ===== src/Query/Executor/Scan/Limited.antt =====
-- The limit at the scan: whole batches are dropped, but none of the first rows.
use infralens.Prelude.{
  ℕ, zero, suc, ◌+◌, ◌-◌, ◌≡◌, refl, sym, ap, ◌∙◌, List, [], ◌∷◌, ◌++◌, length, take, arith, leb,
  Bool-cases, inl, inr,
}
use infralens.Query.Executor.Scan.{retain_rows}

module _ {Row : Type 0} where
  abbrev pub rows_of : List (List Row) → List Row
  rows_of [] = []
  rows_of (b ∷ bs) = b ++ rows_of bs

  take-append :
      (n : ℕ) (xs ys : List Row) → take n (xs ++ ys) ≡ take n xs ++ take (n - length xs) ys
  take-append zero xs ys =
      let none_left : zero - length xs ≡ zero = omega arith in rw none_left refl
  take-append (suc n) [] ys =
      let whole : suc n ≡ suc n - 0 = omega arith in ap (λ k. take k ys) whole
  take-append (suc n) (x ∷ xs) ys =
      let less : suc n - suc (length xs) ≡ n - length xs = omega arith in
      rw less (ap (λ l. x ∷ l) (take-append n xs ys))

  retain_more :
      (limit total : ℕ) (bs : List (List Row))
      → take (limit - total) (rows_of (retain_rows limit total bs))
        ≡ take (limit - total) (rows_of bs)
  unfolding retain_rows
  retain_more limit total [] = refl
  retain_more limit total (b ∷ bs) =
      let later = retain_more limit (total + length b) bs in
      let less : limit - (total + length b) ≡ limit - total - length b = omega arith in
      elim (Bool-cases (leb limit total)) [
        | inl full ↦ let none_left : limit - total ≡ zero = ground arith in rw none_left refl
        | inr room ↦ rw room (
            take-append (limit - total) b (rows_of (retain_rows limit (total + length b) bs))
            ∙ ap (λ l. take (limit - total) b ++ l) (rw less at later)
            ∙ sym (take-append (limit - total) b (rows_of bs)))
      ]

  -- The limit that a scan applies to its batches leaves the first rows, as many as the limit, as
  -- they are without it.
  pub take-retain_rows :
      (limit : ℕ) (bs : List (List Row))
      → take limit (rows_of (retain_rows limit 0 bs)) ≡ take limit (rows_of bs)
  take-retain_rows limit bs =
      let whole : limit - 0 ≡ limit = omega arith in rw whole at (retain_more limit 0 bs)
