-- ===== src/Job/Queue/Retries.antt =====
-- The attempts that the rows of the queue count.
use rwf.Prelude.{
  ℕ, ◌≤◌, ◌<◌, some, List, [], ◌∷◌, Bool, not, ◌&&◌, ◌≡◌, refl, arith, Bool-cases, Option-cases,
  inl, inr, All, All-append,
}
use rwf.Prelude.Text.{Text}
use rwf.Prelude.Picks.{pick, All-pick}
use rwf.Job.Queue.Table.{next-holds, save-All}
use rwf.Job.Queue.{
  Job, Queue, Event, queued, delayed, claims, finished, failed, lost, starts, is_none, next, save,
  reschedule, enqueue, claim, finish, fail, ended, step, run, empty,
}

-- A row has 25 retries, and counts no more attempts than `most`.
pub record IsTried (most : ℕ) (j : Job) : Type 0 where
  pub most_retries : j.retries ≡ 25
  pub tried : j.attempts ≤ most

pub record IsWithin (q : Queue) : Type 0 where
  pub rows_within : All (IsTried 25) q.rows
  pub running_within : All (IsTried 24) q.running

reschedule-IsTried : (rows : List Job) → All (IsTried 25) rows → All (IsTried 25) (reschedule rows)
unfolding reschedule
reschedule-IsTried [] h = tt
reschedule-IsTried (r ∷ rows) (hr, h) =
    elim (Bool-cases (is_none r.completed_at && not (is_none r.started_at))) [
      | inl started ↦
          rw started
            (record { most_retries = hr.most_retries; tried = hr.tried }, reschedule-IsTried rows h)
      | inr other ↦ rw other (hr, reschedule-IsTried rows h)
    ]

-- A save of a job keeps the bound, where the job is within it.
saved :
    (j : Job) (rows : List Job)
    → IsTried 25 j
    → All (IsTried 25) rows
    → All (IsTried 25) (save j rows)
saved j rows hj h = save-All (IsTried 25) {Q = IsTried 25} j rows (λ r hr e. hj) (λ r hr e. hr) h

claim-IsWithin :
    (registered : Text → Bool) (locked : List ℕ) (db_now now id : ℕ) (q : Queue)
    → IsWithin q
    → IsWithin (claim registered locked db_now now id q)
unfolding claim
claim-IsWithin registered locked db_now now id q h =
    elim (Option-cases (next locked db_now id q.rows)) [
      | inl nothing ↦ rw nothing h
      | inr (j, found) ↦
          let facts = next-holds (IsTried 25) locked db_now id q.rows j h.rows_within found in
          let less : j.attempts < j.retries = ground (arith, facts.1) in
          let taken = record j { started_at = some now } in
          let few : IsTried 24 taken = record {
            most_retries = facts.0.most_retries;
            tried = omega (arith, less, facts.0.most_retries);
          } in
          let rows =
            saved taken q.rows
              (record { most_retries = facts.0.most_retries; tried = facts.0.tried })
              h.rows_within in
          elim (Bool-cases (registered j.name)) [
            | inl known ↦
                rw (found, known)
                  (record { rows_within = rows; running_within = (few, h.running_within) })
            | inr unknown ↦
                rw (found, unknown)
                  (record { rows_within = rows; running_within = h.running_within })
          ]
    ]

-- The end of a running job keeps the bound, where what is made of a job is within it.
ended-IsWithin :
    (f : Job → List Job → List Job) (i : ℕ) (q : Queue)
    → ((j : Job) → IsTried 24 j → All (IsTried 25) (f j q.rows))
    → IsWithin q
    → IsWithin (ended f (pick i q.running) q)
ended-IsWithin f i q keeps h = elim (Option-cases (pick i q.running)) [
  | inl nothing ↦ rw nothing h
  | inr ((j, rest), found) ↦
      let parts = All-pick (IsTried 24) i q.running j rest h.running_within found in
      rw found (record { rows_within = keeps j parts.0; running_within = parts.1 })
]

step-IsWithin : (e : Event) (q : Queue) → IsWithin q → IsWithin (step e q)
unfolding step enqueue finish fail
step-IsWithin (queued name args now start) q h = record {
  rows_within =
      All-append (IsTried 25) q.rows _ h.rows_within
        (record { most_retries = refl; tried = omega arith }, tt);
  running_within = h.running_within;
}
step-IsWithin (delayed name args now start later delay) q h = record {
  rows_within =
      All-append (IsTried 25) q.rows _ h.rows_within
        (record { most_retries = refl; tried = omega arith }, tt);
  running_within = h.running_within;
}
step-IsWithin (claims registered locked db_now now id) q h =
    claim-IsWithin registered locked db_now now id q h
step-IsWithin (finished i now) q h =
    ended-IsWithin (λ j. save (finish now j)) i q
      (λ j hj.
        saved (finish now j) q.rows
          (record { most_retries = hj.most_retries; tried = omega (arith, hj.tried) })
          h.rows_within)
      h
step-IsWithin (failed i err) q h =
    ended-IsWithin (λ j. save (fail err j)) i q
      (λ j hj.
        saved (fail err j) q.rows
          (record { most_retries = hj.most_retries; tried = omega (arith, hj.tried) })
          h.rows_within)
      h
step-IsWithin (lost i) q h = ended-IsWithin (λ j rows. rows) i q (λ j hj. h.rows_within) h
step-IsWithin starts q h = record {
  rows_within = reschedule-IsTried q.rows h.rows_within;
  running_within = h.running_within;
}

run-IsWithin : (es : List Event) (q : Queue) → IsWithin q → IsWithin (run es q)
unfolding run
run-IsWithin [] q h = h
run-IsWithin (e ∷ es) q h = run-IsWithin es (step e q) (step-IsWithin e q h)

-- Of a queue that starts empty, whatever happens, each row of the table has 25 retries and counts
-- no more than 25 attempts, and each copy of a running job counts less than 25. Runs that ended
-- without a save are not counted.
pub run-empty-IsWithin : (es : List Event) → IsWithin (run es empty)
run-empty-IsWithin es = run-IsWithin es empty (record { rows_within = tt; running_within = tt })
