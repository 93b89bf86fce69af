-- ===== src/Pool/Balance.antt =====
-- What the pool's `expected` counts.
use rwf.Prelude.{
  ℕ, zero, suc, ◌+◌, ◌^◌, ◌≤◌, ◌<◌, Option, none, some, List, [], ◌∷◌, Bool, ◌≡◌, inl, inr, refl,
  arith, length, if◌then◌else◌, Option-cases,
}
use rwf.Prelude.Picks.{pick}
use rwf.Pool.{
  Connection, Config, Guard, Pool, Event, search, reserve, connected, connect_failed, timed_out,
  dropped, leaks, rolls_back, closes, checkin_rollback, broken, maintains, less, pop_from, pop_idle,
  need_more, checkin, retain, maintenance, break_at, new, drop_guard, leak_guard, roll_back,
  close_guard, held, rolled, step, run,
}

-- The guards that count
pub live : List Guard → ℕ
live [] = 0
live (g ∷ gs) = (if g.leaked then 0 else 1) + live gs

-- What tasks hold places for
abbrev taken : Pool → ℕ
taken p = live p.guards + p.connecting + length p.rolling_back + p.cancelled

-- The count of places is that of the idle connections and of what tasks hold, within the size.
pub record IsBalanced (config : Config) (p : Pool) : Type 0 where
  pub places : p.inner.expected ≡ length p.inner.connections + taken p
  pub within : p.inner.expected ≤ config.pool_size

length-pick {ℓ} :
    {A : Type ℓ} (i : ℕ) (xs : List A) (x : A) (rest : List A)
    → pick i xs ≡ some (x, rest)
    → length xs ≡ length rest + 1
unfolding pick
length-pick i [] x rest e = cc
length-pick zero (y ∷ ys) x rest e = ground arith
length-pick (suc i) (y ∷ ys) x rest e = elim (Option-cases (pick i ys)) [
  | inl missing ↦ absurd (ground (arith, missing))
  | inr ((z, zs), there) ↦ ground (arith, there, length-pick i ys z zs)
]

live-pick :
    (i : ℕ) (gs : List Guard) (g : Guard) (rest : List Guard)
    → pick i gs ≡ some (g, rest)
    → live gs ≡ (if g.leaked then 0 else 1) + live rest
unfolding pick live
live-pick i [] g rest e = cc
live-pick zero (y ∷ ys) g rest e = ground arith
live-pick (suc i) (y ∷ ys) g rest e = elim (Option-cases (pick i ys)) [
  | inl missing ↦ absurd (ground (arith, missing))
  | inr ((z, zs), there) ↦ ground (arith, there, live-pick i ys z zs)
]

abbrev found : Option Connection → ℕ
found none = 0
found (some c) = 1

pop_from-count :
    (cs : List Connection) (expected : ℕ)
    → length cs ≤ expected
    → expected < 2 ^ 64
    → (pop_from cs expected).1.expected + length cs
      ≡ expected + length (pop_from cs expected).1.connections + found (pop_from cs expected).0
unfolding pop_from
pop_from-count [] expected le lt = omega arith
pop_from-count (c ∷ cs) expected le lt = ground (arith, pop_from-count cs (less 1 expected))

pop_from-le :
    (cs : List Connection) (expected : ℕ)
    → length cs ≤ expected
    → expected < 2 ^ 64
    → (pop_from cs expected).1.expected ≤ expected
unfolding pop_from
pop_from-le [] expected le lt = omega arith
pop_from-le (c ∷ cs) expected le lt = ground (arith, pop_from-le cs (less 1 expected))

length-retain :
    (config : Config) (now : ℕ) (cs : List Connection) → length (retain config now cs) ≤ length cs
unfolding retain
length-retain config now [] = omega arith
length-retain config now (c ∷ cs) = ground (arith, length-retain config now cs)

length-break_at : (i : ℕ) (cs : List Connection) → length (break_at i cs) ≡ length cs
unfolding break_at
length-break_at i [] = refl
length-break_at zero (c ∷ cs) = refl
length-break_at (suc i) (c ∷ cs) = omega (arith, length-break_at i cs)

module _ (config : Config) (small : config.pool_size < 2 ^ 64) where
  search-IsBalanced : (p : Pool) → IsBalanced config p → IsBalanced config (step config search p)
  unfolding step pop_idle live
  search-IsBalanced p b = ground (
    arith,
    pop_from-count p.inner.connections p.inner.expected,
    pop_from-le p.inner.connections p.inner.expected,
  )

  held-IsBalanced :
      (f : Guard → Pool → Pool) (i : ℕ) (p : Pool)
      → IsBalanced config p
      → ((g : Guard) (rest : List Guard)
          → live p.guards ≡ (if g.leaked then 0 else 1) + live rest
          → IsBalanced config (f g (record p { guards = rest })))
      → IsBalanced config (held f (pick i p.guards) p)
  held-IsBalanced f i p b k = elim (Option-cases (pick i p.guards)) [
    | inl missing ↦ rw missing b
    | inr ((g, rest), there) ↦ rw there (k g rest (live-pick i p.guards g rest there))
  ]

  rolled-IsBalanced :
      (i : ℕ) (done : Bool) (p : Pool)
      → IsBalanced config p
      → IsBalanced config (rolled done (pick i p.rolling_back) p)
  unfolding checkin
  rolled-IsBalanced i done p b = elim (Option-cases (pick i p.rolling_back)) [
    | inl missing ↦ rw missing b
    | inr ((c, rest), there) ↦
        let fewer = length-pick i p.rolling_back c rest there in rw there (ground (arith, fewer))
  ]

  step-IsBalanced :
      (e : Event) (p : Pool) → IsBalanced config p → IsBalanced config (step config e p)
  unfolding step live
  step-IsBalanced search p b = search-IsBalanced p b
  step-IsBalanced reserve p b = unfold need_more in ground arith
  step-IsBalanced (connected now) p b = ground arith
  step-IsBalanced connect_failed p b = ground arith
  step-IsBalanced timed_out p b = ground arith
  step-IsBalanced (dropped i now) p b =
      held-IsBalanced (drop_guard now) i p b λ g rest e. unfold drop_guard checkin in ground arith
  step-IsBalanced (leaks i) p b =
      held-IsBalanced leak_guard i p b λ g rest e. unfold leak_guard live in ground arith
  step-IsBalanced (rolls_back i) p b =
      held-IsBalanced roll_back i p b λ g rest e. unfold roll_back live in ground arith
  step-IsBalanced (closes i) p b =
      held-IsBalanced close_guard i p b λ g rest e. unfold close_guard live in ground arith
  step-IsBalanced (checkin_rollback i done) p b = rolled-IsBalanced i done p b
  step-IsBalanced (broken i) p b = ground (arith, length-break_at i p.inner.connections)
  step-IsBalanced (maintains now) p b =
      unfold maintenance in ground (arith, length-retain config now p.inner.connections)

  pub run-IsBalanced :
      (es : List Event) (p : Pool) → IsBalanced config p → IsBalanced config (run config es p)
  unfolding run
  run-IsBalanced [] p b = b
  run-IsBalanced (e ∷ es) p b = run-IsBalanced es (step config e p) (step-IsBalanced e p b)

  new-IsBalanced : IsBalanced config new
  unfolding live
  new-IsBalanced = record { places = refl; within = omega arith }

  -- Of a pool whose size is below 2^64, whatever its tasks do, the count of the pool is that of the
  -- idle connections, the guards that are not leaked, the connections being opened or rolled back,
  -- and the openings that a timeout cancelled, and it is within the size of the pool.
  pub run-new-IsBalanced : (es : List Event) → IsBalanced config (run config es new)
  run-new-IsBalanced es = run-IsBalanced es new new-IsBalanced
