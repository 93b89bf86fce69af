-- ===== src/Pool/Tests.antt =====
-- Runs of the pool at fixed events.
use rwf.Prelude.{◌≤◌, [], ◌∷◌, List, false, true, ◌≡◌, refl, arith}
use rwf.Pool.{
  Config, Event, search, reserve, connected, timed_out, dropped, rolls_back, checkin_rollback,
  maintains, guard, new, run,
}
use rwf.Pool.Balance.{IsBalanced, live, run-new-IsBalanced}
use rwf.Pool.Starvation.{run_starves}

abbrev config : Config
config = record { pool_size = 1; idle_timeout = 100 }

-- A connection is opened, used in a transaction that is dropped, rolled back, and found again.
abbrev reused : List Event
reused =
    search
    ∷ reserve
    ∷ connected 5
    ∷ rolls_back 0
    ∷ dropped 0 7
    ∷ checkin_rollback 0 true
    ∷ search
    ∷ []

reused_sample : run config reused new ≡ record new {
  inner = record { connections = []; expected = 1 };
  guards = guard (record { bad = false; last_used = 7 }) ∷ [];
}
unfolding run
reused_sample = refl

-- An idle connection is closed by the maintenance.
idle_sample : (run config (reserve ∷ connected 5 ∷ dropped 0 7 ∷ maintains 200 ∷ []) new) ≡ new
unfolding run
idle_sample = refl

run-new-IsBalanced_example : IsBalanced config (run config reused new)
run-new-IsBalanced_example = run-new-IsBalanced config (omega arith) reused

abbrev lost : List Event
lost = search ∷ reserve ∷ timed_out ∷ []

lost_full : config.pool_size ≤ (run config lost new).cancelled
unfolding run
lost_full = omega arith

run_starves_example :
    (live (run config reused (run config lost new)).guards ≡ 0)
    × ((run config reused (run config lost new)).inner.connections ≡ [])
    × ((run config reused (run config lost new)).connecting ≡ 0)
run_starves_example =
    run_starves config (run config lost new) reused (omega arith)
      (run-new-IsBalanced config (omega arith) lost) lost_full
