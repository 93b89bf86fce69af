-- ===== src/RateLimiter.antt =====
-- rwf/src/controller/middleware/rate_limiter.rs. An address is a number, an instant a number of
-- milliseconds on the monotonic clock, and the map of buckets an association list. A u64 wraps, as in
-- a release build. The rate, an f32 that only a header shows, is a parameter of the step.
pub mod Window
mod Tests
use rwf.Prelude.{
  ℕ, ◌+◌, ◌*◌, ◌-◌, ◌%◌, ◌^◌, Option, none, some, List, [], ◌∷◌, Bool, ◌==◌, ltb, leb,
  if◌then◌else◌,
}

pub record Counter : Type 0 where
  pub counter : ℕ
  pub rate : ℕ
  pub last_reset : ℕ

-- `Counter::new`
abbrev pub new_counter : ℕ → Counter
new_counter now = record { counter = 0; rate = 0; last_reset = now }

pub data Frequency : Type 0 where
  minute second hour day : ℕ → Frequency

pub limit : Frequency → ℕ
limit (minute n) = n
limit (second n) = n
limit (hour n) = n
limit (day n) = n

-- The length of a window in milliseconds
pub reset_duration : Frequency → ℕ
reset_duration (second n) = (1000 * n) % 2 ^ 64
reset_duration (minute n) = (1000 * 60 * n) % 2 ^ 64
reset_duration (hour n) = (1000 * 3600 * n) % 2 ^ 64
reset_duration (day n) = (1000 * 3600 * 24 * n) % 2 ^ 64

abbrev pub Buckets : Type 0
Buckets = List (ℕ × Counter)

pub find : ℕ → Buckets → Option Counter
find ip [] = none
find ip ((j, c) ∷ rest) = let later = find ip rest in if j == ip then some c else later

pub store : ℕ → Counter → Buckets → Buckets
store ip c [] = (ip, c) ∷ []
store ip c ((j, d) ∷ rest) =
    let later = store ip c rest in if j == ip then (j, c) ∷ rest else (j, d) ∷ later

-- `entry(ip).or_insert_with(|| Counter::new(now))`
abbrev pub or_new : ℕ → Option Counter → Counter
or_new now none = new_counter now
or_new now (some c) = c

module _ (rate_of : ℕ → ℕ → ℕ) where
  -- One request, at the instant `now`, on its bucket.
  pub count : Frequency → ℕ → Counter → Counter
  unfolding reset_duration
  count fr now c =
      let n = (c.counter + 1) % 2 ^ 64 in
      let duration = now - c.last_reset in
      if leb (reset_duration fr) duration
      then record { counter = 1; rate = rate_of n duration; last_reset = now }
      else record c { counter = n }

  -- `handle_request`: the buckets after it, and whether the request is stopped.
  pub handle_request : Frequency → ℕ → ℕ → Buckets → Buckets × Bool
  unfolding count limit find store
  handle_request fr now ip buckets =
      let c = count fr now (or_new now (find ip buckets)) in
      (store ip c buckets, ltb (limit fr) c.counter)

  -- The requests of one address, by their instants: how many are forwarded, and the buckets at the end.
  pub serve : Frequency → ℕ → List ℕ → Buckets → ℕ × Buckets
  unfolding handle_request
  serve fr ip [] buckets = (0, buckets)
  serve fr ip (now ∷ times) buckets =
      let (after, stopped) = handle_request fr now ip buckets in
      let (n, end) = serve fr ip times after in (if stopped then n else n + 1, end)

-- The address that a request is counted under: the first of the header `x-forwarded-for`, if the
-- header is there and resolves (`peer_addr`), else the peer.
unfoldable client : Option (Option ℕ) → ℕ → ℕ
client (some (some forwarded)) peer = forwarded
client _ peer = peer

-- `handle_response`: the value of the header with the rate, if the peer has a bucket.
unfoldable rate_header : ℕ → Buckets → Option ℕ
unfolding find
rate_header peer buckets = elim (find peer buckets) [ none ↦ none | some c ↦ some c.rate ]
