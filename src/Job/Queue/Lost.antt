-- ===== src/Job/Queue/Lost.antt =====
-- A job whose worker is lost while it runs, again and again.
use rwf.Prelude.{
  ℕ, zero, suc, Option, some, none, List, [], ◌∷◌, Bool, true, false, not, ◌&&◌, ◌==◌, ◌≡◌, refl,
  sym, ap, ◌∙◌, arith, Bool-cases, inl, inr, All, if◌then◌else◌,
}
use rwf.Prelude.Text.{Text}
use rwf.Prelude.Picks.{pick}
use rwf.Job.Queue.Table.{next-holds}
use rwf.Job.Queue.{
  Job, Queue, Event, claims, lost, starts, is_none, next, save, reschedule, claim, claimed, step,
  run,
}

-- A row that is no running job, or a completed one
abbrev IsSettled : Job → Type 0
IsSettled r = (is_none r.completed_at && not (is_none r.started_at)) ≡ false

reschedule-settled : (rows : List Job) → All IsSettled rows → reschedule rows ≡ rows
unfolding reschedule
reschedule-settled [] h = refl
reschedule-settled (r ∷ rows) (hr, h) = rw (hr, reschedule-settled rows h) refl

-- The copy of a claimed job
abbrev pub taken : ℕ → Job → Job
taken now j = record j { started_at = some now }

none_lem : {A : Type 0} (o : Option A) → is_none o ≡ true → o ≡ none
none_lem none h = refl
none_lem (some a) h = cc

module _ (j : Job) (now : ℕ) (open_ : j.completed_at ≡ none) (idle : j.started_at ≡ none) where
  -- What `reschedule` makes of a row
  abbrev reset : Job → Job
  reset r =
      if is_none r.completed_at && not (is_none r.started_at)
      then record r { started_at = none }
      else r

  reset-taken : reset (taken now j) ≡ j
  reset-taken =
      let unfinished : is_none j.completed_at ≡ true = ap (λ o. is_none o) open_ in
      rw unfinished (λ i. record j { started_at = sym idle i })

  -- The row of the claimed job is as it was, once it was saved and rescheduled.
  reschedule-save :
      (rows : List Job)
      → All (λ r. (r.id == j.id) ≡ true → r ≡ j) rows
      → All IsSettled rows
      → reschedule (save (taken now j) rows) ≡ rows
  unfolding reschedule save
  reschedule-save [] u h = refl
  reschedule-save (r ∷ rows) (same, u) (hr, h) = elim (Bool-cases (r.id == j.id)) [
    | inl hit ↦ rw hit (
        ap (λ x. x ∷ reschedule (save (taken now j) rows)) (reset-taken ∙ sym (same hit))
        ∙ ap (λ l. r ∷ l) (reschedule-save rows u h))
    | inr miss ↦ rw (miss, hr) (ap (λ l. r ∷ l) (reschedule-save rows u h))
  ]

-- Rounds in which a job is claimed, its worker is lost, and another starts
abbrev pub rounds :
    (registered : Text → Bool) → (locked : List ℕ) → (db_now now id n : ℕ) → List Event
rounds registered locked db_now now id zero = []
rounds registered locked db_now now id (suc n) =
    claims registered locked db_now now id
    ∷ lost 0
    ∷ starts
    ∷ rounds registered locked db_now now id n

module _ (registered : Text → Bool) (locked : List ℕ) (db_now now id : ℕ) (q : Queue) (j : Job)
    (found : next locked db_now id q.rows ≡ some j) (known : registered j.name ≡ true)
    (idle : q.running ≡ []) where
  abbrev runs : Queue
  runs = record q { rows = save (taken now j) q.rows; running = taken now j ∷ [] }

  claims_lem : step (claims registered locked db_now now id) q ≡ runs
  unfolding step claim
  claims_lem = let made = ap (claimed registered now) found in ap (λ f. f q) made ∙ taken_lem
    where
      taken_lem : claimed registered now (some j) q ≡ runs
      taken_lem =
          rw (known)
            (λ i. record q { rows = save (taken now j) q.rows; running = taken now j ∷ idle i })

  module _ (unique : All (λ r. (r.id == j.id) ≡ true → r ≡ j) q.rows)
      (settled : All IsSettled q.rows) where
    rows_lem : reschedule (save (taken now j) q.rows) ≡ q.rows
    rows_lem =
        let facts = next-holds IsSettled locked db_now id q.rows j settled found in
        let open_ : is_none j.completed_at ≡ true = ground (arith, facts.1) in
        let waits : is_none j.started_at ≡ true = ground (arith, facts.1) in
        reschedule-save j now (none_lem j.completed_at open_) (none_lem j.started_at waits) q.rows
          unique settled

    back : step starts (step (lost 0) runs) ≡ q
    unfolding step pick
    back = λ i. record q { rows = rows_lem i; running = sym idle i }

    round :
        (es : List Event)
        → run (claims registered locked db_now now id ∷ lost 0 ∷ starts ∷ es) q ≡ run es q
    unfolding run
    round es = ap (λ p. run es (step starts (step (lost 0) p))) claims_lem ∙ ap (run es) back

    rounds_lem : (n : ℕ) → run (rounds registered locked db_now now id n) q ≡ q
    rounds_lem zero = unfold run in refl
    rounds_lem (suc n) = round (rounds registered locked db_now now id n) ∙ rounds_lem n

    -- Of a queue in which nothing runs, whose started rows are completed and in which one row has
    -- the key of the job that is next, and whose job is registered: after any number of rounds in
    -- which a worker claims this job, is lost, and another starts, the queue is as it was, its
    -- count of attempts included, and the job is claimed and run once more.
    pub run-rounds :
        (n : ℕ)
        → (run (rounds registered locked db_now now id n) q ≡ q)
          × ((step
                (claims registered locked db_now now id)
                (run (rounds registered locked db_now now id n) q)).running
              ≡ taken now j ∷ [])
    run-rounds n = (
      rounds_lem n,
      ap (λ p. (step (claims registered locked db_now now id) p).running) (rounds_lem n)
          ∙ ap (λ p. p.running) claims_lem,
    )
