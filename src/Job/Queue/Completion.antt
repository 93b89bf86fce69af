-- ===== src/Job/Queue/Completion.antt =====
-- A completed job does not run again.
use rwf.Prelude.{
  ℕ, ◌≤◌, Option, some, List, [], ◌∷◌, ◌++◌, Bool, false, ◌==◌, ==→eq, ◌≡◌, refl, ap, subst, arith,
  Bool-cases, Option-cases, inl, inr, All,
}
use rwf.Prelude.Text.{Text}
use rwf.Prelude.Picks.{pick, total, total-pick}
use rwf.Job.Queue.Table.{next-holds, find-holds}
use rwf.Job.Queue.Claims.{
  at, Placed, IsExclusive, is_start, step-IsExclusive, run-IsExclusive, run-empty-IsExclusive,
}
use rwf.Job.Queue.{
  Job, Queue, Event, queued, delayed, claims, finished, failed, lost, starts, is_none, find, next,
  save, enqueue, claim, finish, fail, ended, step, run, empty,
}

-- The row of a key
abbrev pub row : ℕ → List Job → Option Job
row i rows = find (λ r. r.id == i) rows

row-append :
    (i : ℕ) (rows more : List Job) (r : Job) → row i rows ≡ some r → row i (rows ++ more) ≡ some r
unfolding find
row-append i [] more r e = cc
row-append i (y ∷ rows) more r e = elim (Bool-cases (y.id == i)) [
  | inl hit ↦ rw hit (ground (arith, hit))
  | inr miss ↦ rw miss (row-append i rows more r (ground (arith, miss)))
]

row-save :
    (i : ℕ) (j : Job) (rows : List Job) (r : Job)
    → (j.id == i) ≡ false
    → row i rows ≡ some r
    → row i (save j rows) ≡ some r
unfolding find save
row-save i j [] r other e = cc
row-save i j (y ∷ rows) r other e = elim (Bool-cases (y.id == i)) [
  | inl hit ↦
      let apart : (y.id == j.id) ≡ false = ground (arith, hit, other) in
      rw (apart, hit) (ground (arith, hit))
  | inr miss ↦
      let later = row-save i j rows r other (ground (arith, miss)) in
      elim (Bool-cases (y.id == j.id)) [
        | inl replaced ↦ rw (replaced, other) later
        | inr kept ↦ rw (kept, miss) later
      ]
]

find-total :
    (p : Job → Bool) (rows : List Job) (j : Job) → find p rows ≡ some j → 1 ≤ total (at j.id) rows
unfolding find
find-total p [] j e = cc
find-total p (y ∷ rows) j e = elim (Bool-cases (p y)) [
  | inl hit ↦
      let same : y ≡ j = ground (arith, hit) in
      let key : y.id ≡ j.id = ap (λ k. k.id) same in ground (arith, key)
  | inr miss ↦ ground (arith, find-total p rows j (ground (arith, miss)))
]

-- A key stands in one row.
find_unique :
    (p : Job → Bool) (i : ℕ) (rows : List Job) (r j : Job)
    → total (at i) rows ≤ 1
    → row i rows ≡ some r
    → find p rows ≡ some j
    → j.id ≡ i
    → r ≡ j
unfolding find
find_unique p i [] r j one e e' same = cc
find_unique p i (y ∷ rows) r j one e e' same = elim (Bool-cases (y.id == i)) [
  | inl hit ↦ elim (Bool-cases (p y)) [
    | inl taken ↦ ground (arith, hit, taken)
    | inr passed ↦
        let later : 1 ≤ total (at j.id) rows = find-total p rows j (ground (arith, passed)) in
        let later_i : 1 ≤ total (at i) rows = subst (λ k. 1 ≤ total (at k) rows) same later in
        absurd (ground (arith, one, hit, later_i))
  ]
  | inr miss ↦ elim (Bool-cases (p y)) [
    | inl taken ↦
        let found : y ≡ j = ground (arith, taken) in
        let key : y.id ≡ j.id = ap (λ k. k.id) found in absurd (ground (arith, key, same, miss))
    | inr passed ↦
        find_unique p i rows r j (ground (arith, one, miss)) (ground (arith, miss))
          (ground (arith, passed)) same
  ]
]

module _ (i : ℕ) (r : Job) (complete : is_none r.completed_at ≡ false) where
  -- No worker runs a completed job.
  idle : (q : Queue) → row i q.rows ≡ some r → IsExclusive q → total (at i) q.running ≡ 0
  idle q e h =
      let facts = find-holds (Placed q.next_id q.running) (λ k. k.id == i) q.rows r h.places e in
      let key : r.id ≡ i = ground (arith, facts.1) in
      let none_runs : total (at r.id) q.running ≡ 0 = ground (arith, facts.0.alone, complete) in
      subst (λ k. total (at k) q.running ≡ 0) key none_runs

  ended-keeps :
      (f : Job → Job) (k : ℕ) (q : Queue)
      → ((j : Job) → (f j).id ≡ j.id)
      → row i q.rows ≡ some r
      → IsExclusive q
      → row i (ended (λ j. save (f j)) (pick k q.running) q).rows ≡ some r
  ended-keeps f k q same e h = elim (Option-cases (pick k q.running)) [
    | inl nothing ↦ rw nothing e
    | inr ((j, rest), found) ↦
        let other : ((f j).id == i) ≡ false =
          rw (same j) (ground (arith, idle q e h, total-pick (at i) k q.running j rest found)) in
        rw found (row-save i (f j) q.rows r other e)
  ]

  lost-keeps :
      (k : ℕ) (q : Queue)
      → row i q.rows ≡ some r
      → row i (ended (λ j rows. rows) (pick k q.running) q).rows ≡ some r
  lost-keeps k q e = elim (Option-cases (pick k q.running)) [
    | inl nothing ↦ rw nothing e
    | inr ((j, rest), found) ↦ rw found e
  ]

  claim-keeps :
      (registered : Text → Bool) (locked : List ℕ) (db_now now id : ℕ) (q : Queue)
      → row i q.rows ≡ some r
      → IsExclusive q
      → row i (claim registered locked db_now now id q).rows ≡ some r
  unfolding claim next
  claim-keeps registered locked db_now now id q e h =
      elim (Option-cases (next locked db_now id q.rows)) [
        | inl nothing ↦ rw nothing e
        | inr (j, found) ↦
            let facts =
              next-holds (Placed q.next_id q.running) locked db_now id q.rows j h.places found in
            let other : (j.id == i) ≡ false = elim (Bool-cases (j.id == i)) [
              | inl hit ↦
                  let same : r ≡ j =
                    find_unique _ i q.rows r j (h.unique i) e found (==→eq j.id i hit) in
                  absurd (ground (arith, facts.1, complete, ap (λ k. is_none k.completed_at) same))
              | inr miss ↦ miss
            ] in
            rw found (row-save i (record j { started_at = some now }) q.rows r other e)
      ]

  step-keeps :
      (ev : Event) (q : Queue)
      → is_start ev ≡ false
      → row i q.rows ≡ some r
      → IsExclusive q
      → row i (step ev q).rows ≡ some r
  unfolding step enqueue finish fail
  step-keeps (queued name args now start) q n e h = row-append i q.rows _ r e
  step-keeps (delayed name args now start later delay) q n e h = row-append i q.rows _ r e
  step-keeps (claims registered locked db_now now id) q n e h =
      claim-keeps registered locked db_now now id q e h
  step-keeps (finished k now) q n e h = ended-keeps (finish now) k q (λ j. refl) e h
  step-keeps (failed k err) q n e h = ended-keeps (fail err) k q (λ j. refl) e h
  step-keeps (lost k) q n e h = lost-keeps k q e
  step-keeps starts q n e h = cc

  run-keeps :
      (es : List Event) (q : Queue)
      → All (λ ev. is_start ev ≡ false) es
      → row i q.rows ≡ some r
      → IsExclusive q
      → row i (run es q).rows ≡ some r
  unfolding run
  run-keeps [] q hs e h = e
  run-keeps (ev ∷ es) q (n, hs) e h =
      run-keeps es (step ev q) hs (step-keeps ev q n e h) (step-IsExclusive ev q n h)

-- Of a queue that starts empty and whose workers all started before, a job that is completed stays
-- in the table as it is, whatever happens, and no worker runs it.
pub completed_stays :
    (before after : List Event) (i : ℕ) (r : Job)
    → All (λ ev. is_start ev ≡ false) before
    → All (λ ev. is_start ev ≡ false) after
    → row i (run before empty).rows ≡ some r
    → is_none r.completed_at ≡ false
    → (row i (run after (run before empty)).rows ≡ some r)
      × (total (at i) (run after (run before empty)).running ≡ 0)
completed_stays before after i r hb ha e complete =
    let q = run before empty in
    let h = run-empty-IsExclusive before hb in
    let kept = run-keeps i r complete after q ha e h in
    (kept, idle i r complete (run after q) kept (run-IsExclusive after q ha h))
