-- ===== src/Query/Executor/Tree/Rows.antt =====
-- The rows of an executed plan are those that its operators name, one after the other.
use mathlib.Core.Path.{subst}
use infralens.Prelude.{
  ℕ, zero, suc, ◌<◌, ◌≡◌, refl, sym, ◌∙◌, ap, Bool, false, Option, none, some, List, [], ◌∷◌, ◌++◌,
  map, keep, keep-append, length, take, drop, Result, ok, err, ltb, arith, Bool-cases, inl, inr,
}
use infralens.Query.Errors.{QueryError}
use infralens.Query.Executor.Filter
use infralens.Query.Executor.Filter.{filter_record_batch}
use infralens.Query.Executor.Limit
use infralens.Query.Executor.Limit.{LimitOperator}
use infralens.Query.Executor.Limit.Rows
use infralens.Query.Executor.Limit.Rows.{concat, drain-new}
use infralens.Query.Executor.Polls.{Polls, next_poll, unroll}

-- Polls without an error, and the rows of their batches.
abbrev pub Yields : {Row : Type 0} → Polls (List Row) → List Row → Type 0
Yields {Row = Row} polls rows = (bs : List (List Row)) × (polls ≡ map ok bs) × (concat bs ≡ rows)

module _ {Row : Type 0} where
  -- An answer for each row is a filter of rows.
  filter_record_batch_lem :
      (p : Row → Bool) (rows : List Row)
      → filter_record_batch rows (map (λ r. some (p r)) rows) ≡ keep p rows
  filter_record_batch_lem p [] = refl
  filter_record_batch_lem p (r ∷ rows) = elim (Bool-cases (p r)) [
    | inl yes' ↦ rw yes' (ap (λ l. r ∷ l) (filter_record_batch_lem p rows))
    | inr no' ↦ rw no' (filter_record_batch_lem p rows)
  ]

  Yields-cons :
      (b : List Row) (polls : Polls (List Row)) (rows : List Row)
      → Yields polls rows
      → Yields (ok b ∷ polls) (b ++ rows)
  Yields-cons b polls rows (bs, same, all) = (b ∷ bs, ap (λ l. ok b ∷ l) same, ap (λ l. b ++ l) all)

  no_error :
      (e : QueryError) (rows : List Row)
      → ◌≡◌ {A = Option (Result {0, 0} (List Row) QueryError)} (some (err e)) (some (ok rows))
      → ⊥
  no_error e rows h = cc

  grown :
      (b : List Row) (d : Option (Result {0, 0} (List Row) QueryError)) (rows : List Row)
      → Limit.Rows.prepend b d ≡ some (ok rows)
      → (more : List Row) × (d ≡ some (ok more)) × (b ++ more ≡ rows)
  grown b none rows h = absurd (ground (arith, h))
  grown b (some (err e)) rows h = absurd (no_error e rows h)
  grown b (some (ok more)) rows h = (more, refl, cc)

  abbrev Drained : ℕ → LimitOperator Row → Type 0
  Drained fuel op =
      (rows : List Row)
      → Limit.Rows.drain fuel op ≡ some (ok rows)
      → Yields (unroll Limit.poll_next fuel op) rows

  -- One poll, before those of which it is known.
  Drained-next :
      (fuel : ℕ) (p : Result {0, 0} (Option (List Row)) QueryError × LimitOperator Row)
      (rows : List Row)
      → Drained fuel p.1
      → Limit.Rows.collected p.0 (Limit.Rows.drain fuel p.1) ≡ some (ok rows)
      → Yields (next_poll p.0 (unroll Limit.poll_next fuel p.1)) rows
  Drained-next fuel (ok none, op) rows later h = ([], refl, cc)
  Drained-next fuel (err e, op) rows later h = absurd (no_error e rows h)
  Drained-next fuel (ok (some b), op) rows later h =
      let (more, rest, joined) = grown b (Limit.Rows.drain fuel op) rows h in
      subst (Yields (ok b ∷ unroll Limit.poll_next fuel op)) joined
        (Yields-cons b (unroll Limit.poll_next fuel op) more (later more rest))

  -- What a drained limit operator returns is what its polls return.
  drained : (fuel : ℕ) (op : LimitOperator Row) → Drained fuel op
  unfolding Limit.Rows.drain unroll
  drained zero op rows h = absurd (ground (arith, h))
  drained (suc fuel) op rows h =
      Drained-next fuel (Limit.poll_next op) rows (drained fuel (Limit.poll_next op).1) h

  nothing : (rows : List Row) → ltb 0 (length rows) ≡ false → rows ≡ []
  nothing [] h = refl
  nothing (r ∷ rows) h = absurd (ground (arith, h))

  pub limit_lem :
      (n offset : ℕ) (bs : List (List Row))
      → Yields
          (unroll Limit.poll_next (suc (length bs)) (Limit.new (map ok bs) n offset))
          (take n (drop offset (concat bs)))
  limit_lem n offset bs = drained (suc (length bs)) _ _ (drain-new bs n offset)

  pub filter_lem :
      (mask : List Row → Result {0, 0} (List (Option Bool)) QueryError) (holds : Row → Bool)
      (bs : List (List Row)) (fuel : ℕ)
      → ((rows : List Row) → mask rows ≡ ok (map (λ r. some (holds r)) rows))
      → length bs < fuel
      → Yields (unroll (Filter.poll_next mask) fuel (map ok bs)) (keep holds (concat bs))
  unfolding unroll Filter.poll_next
  filter_lem mask holds bs zero answers h = absurd (omega (arith, h))
  filter_lem mask holds [] (suc fuel) answers h = ([], refl, refl)
  filter_lem mask holds (b ∷ bs) (suc fuel) answers h =
      let out = filter_record_batch b (map (λ r. some (holds r)) b) in
      let parts : keep holds (b ++ concat bs) ≡ out ++ keep holds (concat bs) =
        keep-append holds b (concat bs)
        ∙ ap (λ l. l ++ keep holds (concat bs)) (sym (filter_record_batch_lem holds b)) in
      elim (Bool-cases (ltb 0 (length out))) [
        | inl some_rows ↦
            rw (answers b, some_rows)
              (subst (Yields (ok out ∷ unroll (Filter.poll_next mask) fuel (map ok bs))) (sym parts)
                (Yields-cons out (unroll (Filter.poll_next mask) fuel (map ok bs))
                  (keep holds (concat bs))
                  (filter_lem mask holds bs fuel answers (omega (arith, h)))))
        | inr empty ↦
            rw (answers b, empty)
              (subst (Yields (unroll (Filter.poll_next mask) (suc fuel) (map ok bs)))
                (sym (parts ∙ ap (λ l. l ++ keep holds (concat bs)) (nothing out empty)))
                (filter_lem mask holds bs (suc fuel) answers (omega (arith, h))))
      ]
