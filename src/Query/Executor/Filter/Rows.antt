-- ===== src/Query/Executor/Filter/Rows.antt =====
-- All polls together give the rows that pass, in order, and no poll gives an empty batch.
use infralens.Prelude.{
  ℕ, zero, suc, ◌<◌, ◌≡◌, refl, ap, Bool, false, Option, none, some, List, [], ◌∷◌, ◌++◌, Result,
  ok, err, length, map, ltb, arith, Bool-cases, inl, inr,
}
use infralens.Query.Errors.{QueryError}
use infralens.Query.Executor.Filter.{filter_record_batch, poll_next}

module _ {Row : Type 0} (answer : List Row → List (Option Bool)) where
  abbrev pub answers : List Row → Result {0, 0} (List (Option Bool)) QueryError
  answers batch = ok (answer batch)

  abbrev pub emitted : Result {0, 0} (Option (List Row)) QueryError → List Row → List Row
  emitted (ok none) rest = []
  emitted (ok (some rows)) rest = rows ++ rest
  emitted (err e) rest = []

  -- The rows of all polls, up to the end or an error.
  unfoldable pub poll_all : ℕ → List (Result (List Row) QueryError) → List Row
  poll_all zero child = []
  poll_all (suc fuel) child =
      let (out, rest) = poll_next answers child in emitted out (poll_all fuel rest)

  abbrev pub passing : List (List Row) → List Row
  passing [] = []
  passing (b ∷ bs) = filter_record_batch b (answer b) ++ passing bs

  nothing : (rows : List Row) → ltb 0 (length rows) ≡ false → rows ≡ []
  nothing [] h = refl
  nothing (r ∷ rows) h = absurd (ground (arith, h))

  -- Over a child that yields batches without an error and with answers for each, polling the
  -- filter operator once more than there are batches gives exactly the rows that are answered with
  -- true, in order.
  pub poll_all_lem :
      (batches : List (List Row)) (fuel : ℕ)
      → length batches < fuel
      → poll_all fuel (map ok batches) ≡ passing batches
  unfolding poll_all poll_next
  poll_all_lem batches zero h = absurd (omega (arith, h))
  poll_all_lem [] (suc fuel) h = refl
  poll_all_lem (b ∷ batches) (suc fuel) h =
      let out = filter_record_batch b (answer b) in
      elim (Bool-cases (ltb 0 (length out))) [
        | inl rows ↦ rw rows (ap (λ l. out ++ l) (poll_all_lem batches fuel (omega (arith, h))))
        | inr empty ↦
            rw (empty, nothing out empty) (poll_all_lem batches (suc fuel) (omega (arith, h)))
      ]
