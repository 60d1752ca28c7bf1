-- ===== src/Query/Executor/Limit/Rows.antt =====
-- What a caller that polls the operator to its end receives: the rows that LIMIT and OFFSET name.
use native.Mathlib.Decide.{dec_lt}
use infralens.Prelude.{
  ℕ, zero, suc, ◌-◌, ◌≤◌, ◌<◌, ◌≡◌, refl, sym, ◌∙◌, ap, true, false, Option, none, some, List, [],
  ◌∷◌, ◌++◌, map, Result, ok, err, length, length-drop, take, drop, take_all, arith, min, ltb, leb,
  ◌==◌, if◌then◌else◌, Bool-cases, inl, inr,
}
use infralens.Query.Errors.{QueryError}
use infralens.Query.Executor.Limit.{LimitOperator, new, slice, pull, poll_next}

module _ {Row : Type 0} where
  abbrev pub concat : List (List Row) → List Row
  concat [] = []
  concat (b ∷ bs) = b ++ concat bs

  abbrev pub prepend :
      List Row → Option (Result (List Row) QueryError) → Option (Result (List Row) QueryError)
  prepend rows none = none
  prepend rows (some (ok more)) = some (ok (rows ++ more))
  prepend rows (some (err e)) = some (err e)

  abbrev pub collected :
      Result (Option (List Row)) QueryError
      → Option (Result (List Row) QueryError)
      → Option (Result (List Row) QueryError)
  collected (ok none) more = some (ok [])
  collected (ok (some rows)) more = prepend rows more
  collected (err e) more = some (err e)

  -- Polls until the end or an error; `none` means that the polls ran out.
  unfoldable pub drain : ℕ → LimitOperator Row → Option (Result (List Row) QueryError)
  drain zero op = none
  drain (suc fuel) op =
      let (polled, op') = poll_next op in let more = drain fuel op' in collected polled more

  drop-append :
      (n : ℕ) (xs ys : List Row) → length xs ≤ n → drop n (xs ++ ys) ≡ drop (n - length xs) ys
  drop-append zero [] ys h = refl
  drop-append (suc n) [] ys h = let whole : suc n - 0 ≡ suc n = omega arith in rw whole refl
  drop-append zero (x ∷ xs) ys h = absurd (omega arith)
  drop-append (suc n) (x ∷ xs) ys h =
      drop-append n xs ys (omega arith) ∙ ap (λ k. drop k ys) (omega arith)

  drop-append_short :
      (n : ℕ) (xs ys : List Row) → n ≤ length xs → drop n (xs ++ ys) ≡ drop n xs ++ ys
  drop-append_short zero xs ys h = refl
  drop-append_short (suc n) [] ys h = absurd (omega arith)
  drop-append_short (suc n) (x ∷ xs) ys h = drop-append_short n xs ys (omega arith)

  take-append :
      (n : ℕ) (xs ys : List Row)
      → take n (xs ++ ys) ≡ take (min (length xs) n) xs ++ take (n - min (length xs) n) ys
  take-append zero xs ys =
      let none_taken : min (length xs) 0 ≡ 0 = omega arith in rw none_taken refl
  take-append (suc n) [] ys =
      let none_of_it : min 0 (suc n) ≡ 0 = omega arith in
      let all_left : suc n - 0 ≡ suc n = omega arith in rw (none_of_it, all_left) refl
  take-append (suc n) (x ∷ xs) ys =
      let one_more : min (suc (length xs)) (suc n) ≡ suc (min (length xs) n) = omega arith in
      let same_left : suc n - suc (min (length xs) n) ≡ n - min (length xs) n = omega arith in
      rw (one_more, same_left) (ap (λ l. x ∷ l) (take-append n xs ys))

  take-drop_nil : (r s : ℕ) → take {A = Row} r (drop s []) ≡ []
  take-drop_nil zero s = refl
  take-drop_nil (suc r) zero = refl
  take-drop_nil (suc r) (suc s) = refl

  -- Skipping inside a batch leaves the rest of it.
  behind :
      (skip : ℕ) (batch : List Row)
      → (if ltb 0 skip then slice skip (length batch - skip) batch else batch) ≡ drop skip batch
  behind zero batch = refl
  behind (suc skip) batch =
      let positive : ltb 0 (suc skip) ≡ true = ground arith in
      rw positive (
        take_all (length batch - suc skip) (drop (suc skip) batch)
          (omega (arith, length-drop (suc skip) batch)))

  -- A batch that is skipped whole changes only the number to skip.
  poll_next-skipped :
      (batch : List Row) (child : List (Result (List Row) QueryError)) (remaining skip : ℕ)
      → (remaining == 0) ≡ false
      → length batch ≤ skip
      → poll_next (record { child = ok batch ∷ child; remaining = remaining; skip = skip })
        ≡ poll_next (record { child = child; remaining = remaining; skip = skip - length batch })
  unfolding poll_next pull
  poll_next-skipped batch child remaining skip some_left whole =
      let all_of_it : leb (length batch) skip ≡ true = ground arith in
      rw (some_left, all_of_it) refl

  poll_next-emitted :
      (batch : List Row) (child : List (Result (List Row) QueryError)) (remaining skip : ℕ)
      → (remaining == 0) ≡ false
      → skip < length batch
      → let out = drop skip batch in
        poll_next (record { child = ok batch ∷ child; remaining = remaining; skip = skip }) ≡ (
          ok (some (take (min (length out) remaining) out)),
          record { child = child; remaining = remaining - min (length out) remaining; skip = 0 },
        )
  unfolding poll_next pull
  poll_next-emitted batch child remaining skip some_left part =
      let rest_of_it : leb (length batch) skip ≡ false = ground arith in
      rw (some_left, rest_of_it, behind skip batch) refl

  drain_lem :
      (batches : List (List Row)) (fuel remaining skip : ℕ)
      → length batches < fuel
      → drain fuel (record { child = map ok batches; remaining = remaining; skip = skip })
        ≡ some (ok (take remaining (drop skip (concat batches))))
  unfolding drain
  drain_lem batches zero remaining skip h = absurd (omega arith)
  drain_lem [] (suc fuel) remaining skip h = elim (Bool-cases (remaining == 0)) [
    | inl done ↦ unfold poll_next in rw (done, take-drop_nil remaining skip) refl
    | inr left ↦ unfold poll_next pull in rw (left, take-drop_nil remaining skip) refl
  ]
  drain_lem (batch ∷ batches) (suc fuel) remaining skip h = elim (Bool-cases (remaining == 0)) [
    | inl done ↦
        let zero_left : remaining ≡ 0 = ground arith in unfold poll_next in rw (zero_left) refl
    | inr left ↦ elim (dec_lt skip (length batch)) [
      | yes part ↦
          let out = drop skip batch in
          let count = min (length out) remaining in
          ap (λ p. collected p.0 (drain fuel p.1))
            (poll_next-emitted batch (map ok batches) remaining skip left part)
          ∙ ap (prepend (take count out))
              (drain_lem batches fuel (remaining - count) 0 (omega arith))
          ∙ ap (λ rows. some (ok rows))
              (sym (take-append remaining out (concat batches))
                ∙ ap (take remaining)
                    (sym (drop-append_short skip batch (concat batches) (omega arith))))
      | no whole ↦
          ap (λ p. collected p.0 (drain fuel p.1))
            (poll_next-skipped batch (map ok batches) remaining skip left (omega arith))
          ∙ drain_lem batches (suc fuel) remaining (skip - length batch) (omega arith)
          ∙ ap (λ rows. some (ok (take remaining rows)))
              (sym (drop-append skip batch (concat batches) (omega arith)))
    ]
  ]

  -- Over a child that yields any batches without an error, polling the limit operator to its end
  -- takes at most one poll more than there are batches, and returns the rows that LIMIT and OFFSET
  -- name: those behind the first `offset` rows, `limit` of them or as many as there are.
  pub drain-new :
      (batches : List (List Row)) (limit offset : ℕ)
      → drain (suc (length batches)) (new (map ok batches) limit offset)
        ≡ some (ok (take limit (drop offset (concat batches))))
  unfolding new
  drain-new batches limit offset = drain_lem batches _ limit offset (omega arith)
