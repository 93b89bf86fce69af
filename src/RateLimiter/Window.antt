-- ===== src/RateLimiter/Window.antt =====
-- What a client gets through, and what its requests change.
use Prim.Native.Nat.{min}
use rwf.Prelude.{
  ℕ, ◌+◌, ◌*◌, ◌-◌, ◌^◌, ◌%◌, ◌≤◌, ◌<◌, none, some, List, [], ◌∷◌, true, ◌≡◌, ◌≢◌, ◌∙◌, refl, sym,
  subst, arith, ◌==◌, ltb, length, All, if◌then◌else◌,
}
use rwf.RateLimiter.{
  Counter, Frequency, second, minute, hour, day, Buckets, limit, reset_duration, find, store,
  or_new, new_counter, count, handle_request, serve,
}

find-store :
    (ip jp : ℕ) (c : Counter) (bs : Buckets)
    → find jp (store ip c bs) ≡ (if ip == jp then some c else find jp bs)
unfolding find store
find-store ip jp c [] = ground arith
find-store ip jp c ((k, d) ∷ bs) = ground (arith, find-store ip jp c bs)

module _ (rate_of : ℕ → ℕ → ℕ) (fr : Frequency) where
  -- A request changes no bucket but that of its address.
  handle_request_isolated :
      (now ip jp : ℕ) (bs : Buckets)
      → ip ≢ jp
      → find jp (handle_request rate_of fr now ip bs).0 ≡ find jp bs
  unfolding handle_request
  handle_request_isolated now ip jp bs ne =
      ground (arith, find-store ip jp (count rate_of fr now (or_new now (find ip bs))) bs)

  count-in_window :
      (now : ℕ) (c : Counter)
      → now - c.last_reset < reset_duration fr
      → c.counter < 2 ^ 64 - 1
      → count rate_of fr now c ≡ record c { counter = c.counter + 1 }
  unfolding count
  count-in_window now c w small =
      let n : (c.counter + 1) % 2 ^ 64 ≡ c.counter + 1 = omega arith in ground (arith, n)

  -- Inside of the window, below the bound of the counter, a request counts, and is stopped exactly
  -- when the count passes the limit.
  handle_request_in_window :
      (now ip : ℕ) (c : Counter) (bs : Buckets)
      → or_new now (find ip bs) ≡ c
      → now - c.last_reset < reset_duration fr
      → c.counter < 2 ^ 64 - 1
      → (find ip (handle_request rate_of fr now ip bs).0
          ≡ some (record c { counter = c.counter + 1 }))
        × ((handle_request rate_of fr now ip bs).1 ≡ ltb (limit fr) (c.counter + 1))
  unfolding handle_request
  handle_request_in_window now ip c bs e w small = ground (
    arith,
    find-store ip ip (count rate_of fr now (or_new now (find ip bs))) bs,
    count-in_window now c w small,
    e,
  )

  -- The first request behind the window of its bucket is counted as the first of a new one.
  handle_request_resets :
      (now ip : ℕ) (c : Counter) (bs : Buckets)
      → find ip bs ≡ some c
      → reset_duration fr ≤ now - c.last_reset
      → (d : Counter) × (find ip (handle_request rate_of fr now ip bs).0 ≡ some d)
        × (d.counter ≡ 1)
        × (d.last_reset ≡ now)
        × ((handle_request rate_of fr now ip bs).1 ≡ ltb (limit fr) 1)
  unfolding handle_request count
  handle_request_resets now ip c bs e w =
      let d = count rate_of fr now c in
      (d, ground (arith, find-store ip ip d bs, e), ground arith, ground arith, ground (arith, e))

  abbrev InWindow : ℕ → List ℕ → Type 0
  InWindow start times = All (λ now. now - start < reset_duration fr) times

  serve-InWindow :
      (ip : ℕ) (times : List ℕ) (c : Counter) (bs : Buckets)
      → find ip bs ≡ some c
      → InWindow c.last_reset times
      → c.counter + length times < 2 ^ 64
      → (serve rate_of fr ip times bs).0 ≡ min (length times) (limit fr - c.counter)
  unfolding serve
  serve-InWindow ip [] c bs e w small = omega arith
  serve-InWindow ip (now ∷ times) c bs e (w, ws) small =
      let after = handle_request_in_window now ip c bs (rw e refl) w (omega arith) in
      let ih =
        serve-InWindow ip times (record c { counter = c.counter + 1 })
          (handle_request rate_of fr now ip bs).0 after.0 ws (omega arith) in
      ground (arith, after.1, ih)

  serve-window :
      (ip first : ℕ) (times : List ℕ) (bs : Buckets)
      → find ip bs ≡ none
      → 0 < reset_duration fr
      → InWindow first times
      → length times + 1 < 2 ^ 64
      → (serve rate_of fr ip (first ∷ times) bs).0 ≡ min (length times + 1) (limit fr)
  unfolding serve
  serve-window ip first times bs e pos ws small =
      let after =
        handle_request_in_window first ip (new_counter first) bs (rw e refl) (omega arith)
          (omega arith) in
      let ih =
        serve-InWindow ip times (record { counter = 1; rate = 0; last_reset = first })
          (handle_request rate_of fr first ip bs).0 after.0 ws (omega arith) in
      ground (arith, after.1, ih)

-- A second, a minute, an hour or a day in milliseconds
abbrev unit : Frequency → ℕ
unit (second n) = 1000
unit (minute n) = 60000
unit (hour n) = 3600000
unit (day n) = 86400000

reset_duration-unit :
    (fr : Frequency) → unit fr * limit fr < 2 ^ 64 → reset_duration fr ≡ unit fr * limit fr
unfolding reset_duration limit
reset_duration-unit (second n) h = omega arith
reset_duration-unit (minute n) h = omega arith
reset_duration-unit (hour n) h = omega arith
reset_duration-unit (day n) h = omega arith

limit_pos : (fr : Frequency) → 0 < limit fr → 0 < unit fr * limit fr
unfolding limit
limit_pos (second n) h = omega arith
limit_pos (minute n) h = omega arith
limit_pos (hour n) h = omega arith
limit_pos (day n) h = omega arith

-- Of fewer than 2^64 requests of an address without a bucket, of which the last comes less than `n`
-- seconds, minutes, hours or days behind the first under a limit of `n` for each second, minute,
-- hour or day, exactly `n` get through, or all of them where they are fewer: the window is `n`
-- units long, not one. It is not empty, and has fewer than 2^64 milliseconds.
pub serve_forwards_limit :
    (rate_of : ℕ → ℕ → ℕ) (fr : Frequency) (ip first : ℕ) (times : List ℕ) (bs : Buckets)
    → 0 < limit fr
    → unit fr * limit fr < 2 ^ 64
    → find ip bs ≡ none
    → All (λ now. now - first < unit fr * limit fr) times
    → length times + 1 < 2 ^ 64
    → (serve rate_of fr ip (first ∷ times) bs).0 ≡ min (length times + 1) (limit fr)
serve_forwards_limit rate_of fr ip first times bs pos fits e ws small =
    let window = reset_duration-unit fr fits in
    serve-window rate_of fr ip first times bs e (rw window (limit_pos fr pos))
      (subst (λ (d : ℕ). All (λ now. now - first < d) times) (sym window) ws) small

-- A limiter of `n` requests per second, `n` below 2^50, counts over a window of `n` seconds: a
-- client that has used up its `n` requests stays stopped until `n` seconds have passed since its
-- first.
per_second_window :
    (rate_of : ℕ → ℕ → ℕ) (n now ip : ℕ) (c : Counter) (bs : Buckets)
    → n < 2 ^ 50
    → find ip bs ≡ some c
    → n ≤ c.counter
    → c.counter < 2 ^ 64 - 1
    → now - c.last_reset < 1000 * n
    → (handle_request rate_of (second n) now ip bs).1 ≡ true
unfolding reset_duration limit
per_second_window rate_of n now ip c bs small e full fits w =
    let d : (1000 * n) % 2 ^ 64 ≡ 1000 * n = omega arith in
    (handle_request_in_window rate_of (second n) now ip c bs (rw e refl) (omega (arith, d)) fits).1
    ∙ ground arith
