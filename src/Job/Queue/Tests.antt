-- ===== src/Job/Queue/Tests.antt =====
-- Runs of the queue at fixed events.
use rwf.Prelude.{some, List, [], ◌∷◌, Bool, true, ◌≡◌, refl}
use rwf.Prelude.Text.{Text, codes}
use rwf.Prelude.Picks.{total}
use rwf.Job.Queue.{
  Job, Queue, next, step, Event, queued, delayed, claims, finished, failed, starts, new, run, empty,
}
use rwf.Job.Queue.Lost.{taken, rounds, run-rounds}
use rwf.Job.Queue.Retries.{IsWithin, run-empty-IsWithin}
use rwf.Job.Queue.Claims.{at}
use rwf.Job.Queue.Completion.{row, completed_stays}

abbrev mail : Text
mail = codes "mail"

abbrev every : Text → Bool
every name = true

-- A job fails, and is tried again a second behind its creation.
abbrev tried_again : List Event
tried_again =
    queued mail [] 5 5
    ∷ claims every [] 6 6 1
    ∷ failed 0 mail
    ∷ claims every [] 7 7 1
    ∷ claims every [] 2000000000 9 1
    ∷ []

tried_again_sample :
    (run tried_again empty).running
    ≡ record (new 1 mail [] 5 5) {
      started_at = some 9;
      attempts = 1;
      start_after = 1000000005;
      error = some mail;
    }
      ∷ []
unfolding run
tried_again_sample = refl

run-empty-IsWithin_example : IsWithin (run tried_again empty)
run-empty-IsWithin_example = run-empty-IsWithin tried_again

abbrev done_once : List Event
done_once = queued mail [] 5 5 ∷ claims every [] 6 6 1 ∷ finished 0 8 ∷ []

abbrev done : Job
done = record (new 1 mail [] 5 5) { started_at = some 6; attempts = 1; completed_at = some 8 }

abbrev more : List Event
more =
    claims every [] 9 9 1 ∷ failed 0 [] ∷ delayed mail [] 9 9 9 100 ∷ claims every [] 200 200 2 ∷ []

done_sample : row 1 (run done_once empty).rows ≡ some done
unfolding run
done_sample = refl

completed_stays_example :
    (row 1 (run more (run done_once empty)).rows ≡ some done)
    × (total (at 1) (run more (run done_once empty)).running ≡ 0)
completed_stays_example =
    completed_stays done_once more 1 done (refl, (refl, (refl, tt)))
      (refl, (refl, (refl, (refl, tt)))) done_sample refl

-- Another worker starts while the job runs, claims it and completes it; then the first one fails, and a third
-- worker claims the completed job.
abbrev claimed_twice : List Event
claimed_twice =
    queued mail [] 5 5
    ∷ claims every [] 6 6 1
    ∷ starts
    ∷ claims every [] 7 7 1
    ∷ finished 0 8
    ∷ failed 0 mail
    ∷ claims every [] 2000000000 9 1
    ∷ []

claimed_twice_sample :
    (run claimed_twice empty).running
    ≡ record (new 1 mail [] 5 5) {
      started_at = some 9;
      attempts = 1;
      start_after = 1000000005;
      error = some mail;
    }
      ∷ []
unfolding run
claimed_twice_sample = refl

-- The worker of a job is lost, and others start and claim it.
abbrev waiting : Queue
waiting = run (queued mail [] 5 5 ∷ []) empty

run-rounds_example :
    (run (rounds every [] 6 6 1 100) waiting ≡ waiting)
    × ((step (claims every [] 6 6 1) (run (rounds every [] 6 6 1 100) waiting)).running
        ≡ taken 6 (new 1 mail [] 5 5) ∷ [])
run-rounds_example =
    run-rounds every [] 6 6 1 waiting (new 1 mail [] 5 5) (unfold run next in refl) refl
      (unfold run in refl) (unfold run in (λ h. refl, tt)) (unfold run in (refl, tt)) 100
