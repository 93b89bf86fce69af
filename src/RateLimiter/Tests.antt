-- ===== src/RateLimiter/Tests.antt =====
-- Runs of the rate limiter at fixed inputs.
use rwf.Prelude.{ℕ, ◌≡◌, refl, arith, List, [], ◌∷◌, length, ◌+◌}
use Prim.Native.Nat.{min}
use rwf.RateLimiter.{Counter, Buckets, hour, limit, find, serve}
use rwf.RateLimiter.Window.{serve_forwards_limit}

abbrev no_rate : ℕ → ℕ → ℕ
no_rate n duration = 0

-- One address, with one request counted
abbrev once : Counter
once = record { counter = 1; rate = 0; last_reset = 100 }

abbrev buckets : Buckets
buckets = (7, once) ∷ []

-- Over an hour and a half, of which two hours are one window
abbrev times : List ℕ
times = 200 ∷ 5400000 ∷ []

serve_forwards_limit_example :
    (serve no_rate (hour 2) 8 (100 ∷ times) buckets).0 ≡ min (length times + 1) (limit (hour 2))
serve_forwards_limit_example =
    serve_forwards_limit no_rate (hour 2) 8 100 times buckets (unfold limit in omega arith)
      (unfold limit in omega arith) (unfold find in refl)
      (unfold limit in (omega arith, (omega arith, tt))) (omega arith)
