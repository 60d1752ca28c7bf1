-- ===== src/Query/Executor/Polls.antt =====
-- The loop of a caller of an operator: `while let Some(batch) = op.poll_next()?`.
use infralens.Prelude.{
  ℕ, zero, suc, ◌≡◌, refl, Option, none, some, List, [], ◌∷◌, map, Result, ok, err,
}
use infralens.Query.Errors.{QueryError}

-- What the polls of an operator return, up to the end or the first error, which ends every caller's loop.
abbrev pub Polls : Type 0 → Type 0
Polls B = List (Result {0, 0} B QueryError)

abbrev pub next_poll : {B : Type 0} → Result {0, 0} (Option B) QueryError → Polls B → Polls B
next_poll (ok none) rest = []
next_poll (ok (some b)) rest = ok b ∷ rest
next_poll (err e) rest = err e ∷ []

module _ {Op B : Type 0} (poll : Op → Result {0, 0} (Option B) QueryError × Op) where
  unfoldable pub unroll : ℕ → Op → Polls B
  unroll zero op = []
  unroll (suc fuel) op =
      let (polled, op') = poll op in let rest = unroll fuel op' in next_poll polled rest

abbrev pub then_batch :
    {B : Type 0} → B → Result {0, 0} (List B) QueryError → Result {0, 0} (List B) QueryError
then_batch b (ok bs) = ok (b ∷ bs)
then_batch b (err e) = err e

-- The batches of all polls, or the first error.
unfoldable pub collect_polls : {B : Type 0} → Polls B → Result {0, 0} (List B) QueryError
collect_polls [] = ok []
collect_polls (err e ∷ polls) = err e
collect_polls (ok b ∷ polls) = then_batch b (collect_polls polls)

pub collect_polls_lem : {B : Type 0} (bs : List B) → collect_polls (map ok bs) ≡ ok bs
unfolding collect_polls
collect_polls_lem [] = refl
collect_polls_lem (b ∷ bs) = rw (collect_polls_lem bs) refl
