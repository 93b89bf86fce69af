-- ===== src/Job/Queue.antt =====
-- The job queue, rwf/src/job/model.rs and rwf/src/job/worker.rs: the table of jobs, and the copies of rows
-- that workers hold while a job runs. Instants are in nanoseconds.
pub mod Table
pub mod Retries
pub mod Lost
pub mod Claims
pub mod Completion
mod Tests
use rwf.Prelude.{
  ℕ, ◌+◌, ◌*◌, ◌^◌, Option, none, some, List, [], ◌∷◌, ◌++◌, Bool, true, false, not, ◌&&◌, ◌||◌,
  ◌==◌, ltb, leb, all, any, if◌then◌else◌,
}
use rwf.Prelude.Text.{Text}
use rwf.Prelude.Picks.{pick}

pub record Job : Type 0 where
  pub id : ℕ
  pub name : Text
  pub args : Text
  pub created_at : ℕ
  pub start_after : ℕ
  pub started_at : Option ℕ
  pub attempts : ℕ
  pub retries : ℕ
  pub completed_at : Option ℕ
  pub error : Option Text

-- The table, the next key, and the copies of the jobs that run
pub record Queue : Type 0 where
  pub rows : List Job
  pub next_id : ℕ
  pub running : List Job

-- `JobModel::new`
abbrev pub new : (id : ℕ) → (name args : Text) → (now start : ℕ) → Job
new id name args now start = record {
  id = id;
  name = name;
  args = args;
  created_at = now;
  start_after = start;
  started_at = none;
  attempts = 0;
  retries = 25;
  completed_at = none;
  error = none;
}

-- `JobModel::new_with_delay`
abbrev pub new_with_delay : (id : ℕ) → (name args : Text) → (now start later delay : ℕ) → Job
new_with_delay id name args now start later delay = record (new id name args now start) {
  start_after = later + delay;
}

abbrev pub is_none {ℓ} : {A : Type ℓ} → Option A → Bool
is_none none = true
is_none (some a) = false

-- Neither completed nor started
abbrev is_open : Job → Bool
is_open j = is_none j.completed_at && is_none j.started_at

-- The filters of `JobModel::next`
abbrev pub claimable : ℕ → Job → Bool
claimable now j = is_open j && ltb j.attempts j.retries && leb j.start_after now

pub find : (Job → Bool) → List Job → Option Job
find p [] = none
find p (j ∷ js) = if p j then some j else find p js

-- `JobModel::next`: a job with the key `id` that is the oldest of those that are not locked
pub next : (locked : List ℕ) → (now id : ℕ) → List Job → Option Job
unfolding find
next locked now id rows =
    let free = λ (j : Job). claimable now j && not (any (λ k. k == j.id) locked) in
    find
      (λ j. j.id == id && free j && all (λ r. not (free r) || leb j.created_at r.created_at) rows)
      rows

-- `save` of a job that has a key: the update of all its columns
pub save : Job → List Job → List Job
save j [] = []
save j (r ∷ rows) = (if r.id == j.id then j else r) ∷ save j rows

-- `JobModel::reschedule`
pub reschedule : List Job → List Job
reschedule [] = []
reschedule (r ∷ rows) =
    (if is_none r.completed_at && not (is_none r.started_at)
      then record r { started_at = none }
      else r)
    ∷ reschedule rows

-- `Job::execute_async` and `Job::execute_delay`
pub enqueue : Job → Queue → Queue
enqueue j q = record q { rows = q.rows ++ j ∷ []; next_id = q.next_id + 1 }

abbrev pub claimed : (registered : Text → Bool) → ℕ → Option Job → Queue → Queue
claimed registered now none q = q
claimed registered now (some j) q =
    let taken = record j { started_at = some now } in
    record q {
      rows = save taken q.rows;
      running = if registered j.name then taken ∷ q.running else q.running;
    }

-- `Worker::run`, up to the job
pub claim : (registered : Text → Bool) → (locked : List ℕ) → (db_now now id : ℕ) → Queue → Queue
unfolding next save
claim registered locked db_now now id q = claimed registered now (next locked db_now id q.rows) q

-- `Worker::run`, a job that finished
pub finish : ℕ → Job → Job
finish now j = record j { completed_at = some now; attempts = j.attempts + 1 }

-- `Worker::run`, a job that failed or panicked
pub fail : Text → Job → Job
fail err j = record j {
  error = some err;
  attempts = j.attempts + 1;
  start_after = j.created_at + 2 ^ j.attempts * 10 ^ 9;
  started_at = none;
}

abbrev pub ended : (Job → List Job → List Job) → Option (Job × List Job) → Queue → Queue
ended f none q = q
ended f (some (j, rest)) q = record q { rows = f j q.rows; running = rest }

pub data Event : Type 0 where
  queued : (name args : Text) → (now start : ℕ) → Event
  delayed : (name args : Text) → (now start later delay : ℕ) → Event
  claims : (registered : Text → Bool) → (locked : List ℕ) → (db_now now id : ℕ) → Event
  -- Of the running job at an index: it finished, it failed, or its worker could not save it
  finished : ℕ → (now : ℕ) → Event
  failed : ℕ → Text → Event
  lost : ℕ → Event
  -- `Worker::start`
  starts : Event

pub step : Event → Queue → Queue
unfolding pick enqueue claim save finish fail reschedule
step (queued name args now start) q = enqueue (new q.next_id name args now start) q
step (delayed name args now start later delay) q =
    enqueue (new_with_delay q.next_id name args now start later delay) q
step (claims registered locked db_now now id) q = claim registered locked db_now now id q
step (finished i now) q = ended (λ j. save (finish now j)) (pick i q.running) q
step (failed i err) q = ended (λ j. save (fail err j)) (pick i q.running) q
step (lost i) q = ended (λ j rows. rows) (pick i q.running) q
step starts q = record q { rows = reschedule q.rows }

pub run : List Event → Queue → Queue
unfolding step
run [] q = q
run (e ∷ es) q = run es (step e q)

abbrev pub empty : Queue
empty = record { rows = []; next_id = 1; running = [] }
