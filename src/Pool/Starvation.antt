-- ===== src/Pool/Starvation.antt =====
-- What becomes of the places of cancelled openings.
use rwf.Prelude.{ℕ, ◌^◌, ◌≤◌, ◌<◌, List, [], ◌∷◌, ◌≡◌, inl, inr, refl, arith, length, Option-cases}
use rwf.Prelude.Picks.{pick}
use rwf.Pool.{
  Connection, Config, Guard, Pool, Event, search, reserve, connected, connect_failed, timed_out,
  dropped, leaks, rolls_back, closes, checkin_rollback, broken, maintains, drop_guard, leak_guard,
  roll_back, close_guard, held, step, run,
}
use rwf.Pool.Balance.{IsBalanced, live, run-IsBalanced}

held-cancelled :
    (f : Guard → Pool → Pool) (i : ℕ) (p : Pool)
    → ((g : Guard) (rest : List Guard) → p.cancelled ≤ (f g (record p { guards = rest })).cancelled)
    → p.cancelled ≤ (held f (pick i p.guards) p).cancelled
held-cancelled f i p k = elim (Option-cases (pick i p.guards)) [
  | inl missing ↦ rw missing (omega arith)
  | inr ((g, rest), there) ↦ rw there (k g rest)
]

-- No step gives the place of a cancelled opening back.
step-cancelled :
    (config : Config) (e : Event) (p : Pool) → p.cancelled ≤ (step config e p).cancelled
unfolding step
step-cancelled config search p = ground arith
step-cancelled config reserve p = omega arith
step-cancelled config (connected now) p = ground arith
step-cancelled config connect_failed p = ground arith
step-cancelled config timed_out p = ground arith
step-cancelled config (dropped i now) p =
    held-cancelled (drop_guard now) i p λ g rest. unfold drop_guard in ground arith
step-cancelled config (leaks i) p =
    held-cancelled leak_guard i p λ g rest. unfold leak_guard in ground arith
step-cancelled config (rolls_back i) p =
    held-cancelled roll_back i p λ g rest. unfold roll_back in omega arith
step-cancelled config (closes i) p =
    held-cancelled close_guard i p λ g rest. unfold close_guard in omega arith
step-cancelled config (checkin_rollback i done) p = elim (Option-cases (pick i p.rolling_back)) [
  | inl missing ↦ rw missing (omega arith)
  | inr ((c, rest), there) ↦ rw there (omega arith)
]
step-cancelled config (broken i) p = omega arith
step-cancelled config (maintains now) p = omega arith

run-cancelled :
    (config : Config) (es : List Event) (p : Pool) → p.cancelled ≤ (run config es p).cancelled
unfolding run
run-cancelled config [] p = omega arith
run-cancelled config (e ∷ es) p =
    omega (arith, step-cancelled config e p, run-cancelled config es (step config e p))

-- Once checkout timeouts have cancelled as many openings as the pool, whose size is below 2^64 and
-- whose count is balanced, has places, then whatever the tasks do, none holds a connection that is
-- not leaked, none is idle and none is being opened.
pub run_starves :
    (config : Config) (p : Pool) (es : List Event)
    → config.pool_size < 2 ^ 64
    → IsBalanced config p
    → config.pool_size ≤ p.cancelled
    → let q = run config es p in
      (live q.guards ≡ 0) × (q.inner.connections ≡ []) × (q.connecting ≡ 0)
run_starves config p es small b full =
    let q = run config es p in
    let after = run-IsBalanced config small es p b in
    let more = run-cancelled config es p in
    (omega arith, empty q.inner.connections (omega arith), omega arith)
  where
    empty : (cs : List Connection) → length cs ≤ 0 → cs ≡ []
    empty [] le = refl
    empty (c ∷ cs) le = absurd (omega arith)
