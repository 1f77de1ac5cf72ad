-- ===== src/RateLimiter/Window.antt =====
-- How many requests pass the limiter of saito-core/src/core/consensus/peers/rate_limiter.rs, asked as
-- saito-core/src/core/routing_thread.rs and saito-core/src/core/io/network.rs ask it: each request is
-- counted first, also one that is refused, and the question follows.
use saito_rust_workspace.Prelude.{
  ℕ, ◌+◌, ◌-◌, ◌%◌, ◌^◌, ◌≤◌, ◌<◌, min, ◌≡◌, Bool, true, false, List, [], ◌∷◌, arith, dec_lt, ltb,
  if◌then◌else◌, length, All, not,
}
use saito_rust_workspace.RateLimiter.{RateLimiter, has_limit_exceeded, increase}

-- one request: the limiter after it, and whether it passes
unfoldable pub request : RateLimiter → ℕ → RateLimiter × Bool
unfolding has_limit_exceeded increase
request l time =
    let (asked, exceeded) = has_limit_exceeded (increase l) time in (asked, not exceeded)

-- requests at the given times: the limiter after them, and how many pass
unfoldable pub requests : RateLimiter → List ℕ → RateLimiter × ℕ
requests l [] = (l, 0)
requests l (time ∷ times) =
    let (next, passes) = request l time in
    let (last, passed) = requests next times in (last, (if passes then 1 else 0) + passed)

-- the limiter with some requests counted
abbrev counted : RateLimiter → ℕ → RateLimiter
counted l n = record l { request_count = n }

request-inside :
    (l : RateLimiter) (time : ℕ)
    → l.request_count + 1 < 2 ^ 64
    → time - l.last_request_time ≤ l.window
    → request l time ≡ (counted l (l.request_count + 1), ltb (l.request_count + 1) l.limit)
unfolding request
request-inside l time fits inside =
    let still : ltb l.window (time - l.last_request_time) ≡ false = ground (arith, inside) in
    let small : (l.request_count + 1) % 2 ^ 64 ≡ l.request_count + 1 = omega (arith, fits) in
    rw (request, has_limit_exceeded, increase, small, still) (ground arith)

request-after :
    (l : RateLimiter) (time : ℕ)
    → l.window < time - l.last_request_time
    → request l time ≡ (record l { request_count = 0; last_request_time = time }, ltb 0 l.limit)
unfolding request
request-after l time after =
    let past : ltb l.window (time - l.last_request_time) ≡ true = ground (arith, after) in
    rw (request, has_limit_exceeded, increase, past) (ground arith)

-- Of the requests before the window ends, as many pass as are left below the limit, less one, since
-- a request is counted before it is asked for. The count of requests stays below `2 ^ 64`.
pub requests-same_window :
    (l : RateLimiter) (times : List ℕ)
    → l.request_count + length times < 2 ^ 64
    → All (λ time. time - l.last_request_time ≤ l.window) times
    → (requests l times).1 ≡ min (length times) (l.limit - 1 - l.request_count)
unfolding requests
requests-same_window l [] fits inside = omega arith
requests-same_window l (time ∷ times) fits inside =
    let n : ℕ = l.request_count + 1 in
    let rest = requests-same_window (counted l n) times (omega (arith, fits)) inside.1 in
    rw (request-inside l time (omega (arith, fits)) inside.0) (elim (dec_lt n l.limit) [
      | yes room ↦ ground (arith, rest, room)
      | no full ↦ ground (arith, rest, full)
    ])

-- A request after the end of the window opens a new one, whose count it does not enter: of it and the
-- requests in the new window, as many pass as the limit allows. There are fewer than `2 ^ 64`.
pub requests-new_window :
    (l : RateLimiter) (time : ℕ) (times : List ℕ)
    → l.window < time - l.last_request_time
    → length times < 2 ^ 64
    → All (λ later. later - time ≤ l.window) times
    → (requests l (time ∷ times)).1 ≡ min (length (time ∷ times)) l.limit
unfolding requests
requests-new_window l time times after fits inside =
    let opened : RateLimiter = record l { request_count = 0; last_request_time = time } in
    let rest = requests-same_window opened times (omega (arith, fits)) inside in
    rw (request-after l time after) (elim (dec_lt 0 l.limit) [
      | yes room ↦ ground (arith, rest, room)
      | no full ↦ ground (arith, rest, full)
    ])
