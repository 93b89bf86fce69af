-- ===== src/Job/Queue/Claims.antt =====
-- Which jobs of the queue run.
use rwf.Prelude.{
  ℕ, ◌+◌, ◌≤◌, ◌<◌, some, List, [], ◌∷◌, ◌++◌, Bool, true, false, not, ◌||◌, ◌==◌, if◌then◌else◌,
  ◌≡◌, refl, sym, arith, Bool-cases, Option-cases, inl, inr, All, All-append,
}
use rwf.Prelude.Text.{Text}
use rwf.Prelude.Picks.{pick, total, total-pick, All-pick}
use rwf.Job.Queue.Table.{next-holds, save-All, All-weaken}
use rwf.Job.Queue.{
  Job, Queue, Event, queued, delayed, claims, finished, failed, lost, starts, new, new_with_delay,
  is_none, next, save, enqueue, claim, finish, fail, ended, step, run, empty,
}

-- How many of some jobs have a key
abbrev pub at : ℕ → Job → ℕ
at i j = if j.id == i then 1 else 0

-- What a row counts that no worker has claimed, or that is completed
abbrev rest_of : Job → ℕ
rest_of r = if is_none r.started_at || not (is_none r.completed_at) then 1 else 0

pub record Placed (next_id : ℕ) (running : List Job) (r : Job) : Type 0 where
  pub alone : rest_of r + total (at r.id) running ≤ 1
  pub known : r.id < next_id

-- A job runs once at most, and neither while it waits nor when it is completed; keys are not used twice.
pub record IsExclusive (q : Queue) : Type 0 where
  pub places : All (Placed q.next_id q.running) q.rows
  pub fresh : All (λ j. j.id < q.next_id) q.running
  pub unique : (i : ℕ) → total (at i) q.rows ≤ 1

total-fresh : (n : ℕ) (js : List Job) → All (λ j. j.id < n) js → total (at n) js ≡ 0
total-fresh n [] h = refl
total-fresh n (j ∷ js) (hj, h) = ground (arith, total-fresh n js h)

total-save : (i : ℕ) (j : Job) (rows : List Job) → total (at i) (save j rows) ≡ total (at i) rows
unfolding save
total-save i j [] = refl
total-save i j (r ∷ rows) = ground (arith, total-save i j rows)

total-append :
    (i : ℕ) (xs ys : List Job) → total (at i) (xs ++ ys) ≡ total (at i) xs + total (at i) ys
total-append i [] ys = omega arith
total-append i (x ∷ xs) ys = omega (arith, total-append i xs ys)

enqueue-IsExclusive :
    (j : Job) (q : Queue) → j.id ≡ q.next_id → IsExclusive q → IsExclusive (enqueue j q)
unfolding enqueue
enqueue-IsExclusive j q e h =
    let idle : total (at j.id) q.running ≡ 0 = rw e (total-fresh q.next_id q.running h.fresh) in
    let unused : total (at j.id) q.rows ≡ 0 = rw e (
      total-fresh q.next_id q.rows
        (All-weaken (Placed q.next_id q.running) q.rows (λ r hr. hr.known) h.places)) in
    record {
      places =
          All-append (Placed (q.next_id + 1) q.running) q.rows (j ∷ [])
            (All-weaken (Placed q.next_id q.running) q.rows
              (λ r hr. record { alone = hr.alone; known = omega (arith, hr.known) }) h.places)
            (record { alone = ground (arith, idle); known = omega (arith, e) }, tt);
      fresh = All-weaken (λ r. r.id < q.next_id) q.running (λ r hr. omega (arith, hr)) h.fresh;
      unique = λ i. elim (Bool-cases (j.id == i)) [
        | inl hit ↦
            let same : i ≡ j.id = ground (arith, hit) in
            rw (total-append i q.rows (j ∷ []), hit) (rw same (omega (arith, unused)))
        | inr miss ↦ rw (total-append i q.rows (j ∷ []), miss) (omega (arith, h.unique i))
      ];
    }

ended-IsExclusive :
    (f : Job → Job) (i : ℕ) (q : Queue)
    → ((j : Job) → (f j).id ≡ j.id)
    → IsExclusive q
    → IsExclusive (ended (λ j. save (f j)) (pick i q.running) q)
ended-IsExclusive f i q same h = elim (Option-cases (pick i q.running)) [
  | inl nothing ↦ rw nothing h
  | inr ((j, rest), found) ↦
      let parts = All-pick (λ r. r.id < q.next_id) i q.running j rest h.fresh found in
      let count : (k : ℕ) → total (at k) q.running ≡ at k j + total (at k) rest =
        λ k. total-pick (at k) i q.running j rest found in
      rw found (record {
        places =
            save-All (Placed q.next_id q.running) {Q = Placed q.next_id rest} (f j) q.rows
              (λ r hr e.
                let key : r.id ≡ j.id = ground (arith, e, same j) in
                let idle : total (at r.id) rest ≡ 0 = ground (arith, hr.alone, count r.id, key) in
                let gone : total (at (f j).id) rest ≡ 0 = rw (same j, sym key) idle in
                record { alone = ground (arith, gone); known = omega (arith, same j, parts.0) })
              (λ r hr e. record { alone = omega (arith, hr.alone, count r.id); known = hr.known })
              h.places;
        fresh = parts.1;
        unique = λ k. omega (arith, total-save k (f j) q.rows, h.unique k);
      })
]

lost-IsExclusive :
    (i : ℕ) (q : Queue) → IsExclusive q → IsExclusive (ended (λ j rows. rows) (pick i q.running) q)
lost-IsExclusive i q h = elim (Option-cases (pick i q.running)) [
  | inl nothing ↦ rw nothing h
  | inr ((j, rest), found) ↦
      let parts = All-pick (λ r. r.id < q.next_id) i q.running j rest h.fresh found in
      rw found (record {
        places =
            All-weaken (Placed q.next_id q.running) q.rows
              (λ r hr. record {
                alone = omega (arith, hr.alone, total-pick (at r.id) i q.running j rest found);
                known = hr.known;
              })
              h.places;
        fresh = parts.1;
        unique = h.unique;
      })
]

claim-IsExclusive :
    (registered : Text → Bool) (locked : List ℕ) (db_now now id : ℕ) (q : Queue)
    → IsExclusive q
    → IsExclusive (claim registered locked db_now now id q)
unfolding claim
claim-IsExclusive registered locked db_now now id q h =
    elim (Option-cases (next locked db_now id q.rows)) [
      | inl nothing ↦ rw nothing h
      | inr (j, found) ↦
          let facts =
            next-holds (Placed q.next_id q.running) locked db_now id q.rows j h.places found in
          let idle : total (at j.id) q.running ≡ 0 = ground (arith, facts.0.alone, facts.1) in
          let taken = record j { started_at = some now } in
          let running = if registered j.name then taken ∷ q.running else q.running in
          let one_more : (k : ℕ) → total (at k) running ≤ at k j + total (at k) q.running = λ k.
            elim (Bool-cases (registered j.name)) [
              | inl known ↦ rw known (omega arith)
              | inr unknown ↦ rw unknown (omega arith)
            ] in
          rw found (record {
            places =
                save-All (Placed q.next_id q.running) {Q = Placed q.next_id running} taken q.rows
                  (λ r hr e. record {
                    alone = ground (arith, one_more j.id, idle, facts.1);
                    known = facts.0.known;
                  })
                  (λ r hr e. record {
                    alone = ground (arith, one_more r.id, hr.alone, e);
                    known = hr.known;
                  })
                  h.places;
            fresh = elim (Bool-cases (registered j.name)) [
              | inl known ↦ rw known (facts.0.known, h.fresh)
              | inr unknown ↦ rw unknown h.fresh
            ];
            unique = λ k. omega (arith, total-save k taken q.rows, h.unique k);
          })
    ]

-- Whether the event is the start of another worker
abbrev pub is_start : Event → Bool
is_start starts = true
is_start _ = false

pub step-IsExclusive :
    (e : Event) (q : Queue) → is_start e ≡ false → IsExclusive q → IsExclusive (step e q)
unfolding step finish fail
step-IsExclusive (queued name args now start) q e h =
    enqueue-IsExclusive (new q.next_id name args now start) q refl h
step-IsExclusive (delayed name args now start later delay) q e h =
    enqueue-IsExclusive (new_with_delay q.next_id name args now start later delay) q refl h
step-IsExclusive (claims registered locked db_now now id) q e h =
    claim-IsExclusive registered locked db_now now id q h
step-IsExclusive (finished i now) q e h = ended-IsExclusive (finish now) i q (λ j. refl) h
step-IsExclusive (failed i err) q e h = ended-IsExclusive (fail err) i q (λ j. refl) h
step-IsExclusive (lost i) q e h = lost-IsExclusive i q h
step-IsExclusive starts q e h = cc

pub run-IsExclusive :
    (es : List Event) (q : Queue)
    → All (λ e. is_start e ≡ false) es
    → IsExclusive q
    → IsExclusive (run es q)
unfolding run
run-IsExclusive [] q h k = k
run-IsExclusive (e ∷ es) q (he, h) k = run-IsExclusive es (step e q) h (step-IsExclusive e q he k)

pub run-empty-IsExclusive :
    (es : List Event) → All (λ e. is_start e ≡ false) es → IsExclusive (run es empty)
run-empty-IsExclusive es h =
    run-IsExclusive es empty h (record { places = tt; fresh = tt; unique = λ i. omega arith })
