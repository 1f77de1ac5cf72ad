-- ===== src/RateLimiter.antt =====
-- saito-core/src/core/consensus/peers/rate_limiter.rs: how often a peer may ask. Times are
-- milliseconds.
pub mod Window
use saito_rust_workspace.Prelude.{
  ℕ, zero, suc, ◌+◌, ◌-◌, ◌*◌, ◌/◌, ◌%◌, ◌^◌, ◌≤◌, ◌<◌, min, max, ◌≡◌, ◌≢◌, ◌↔◌, ◌⊎◌, refl, sym, ap,
  ap₂, ◌∙◌, fun_ext, Bool, true, false, not, ◌&&◌, ◌||◌, Option, none, some, inl, inr, List, [],
  ◌∷◌, ◌++◌, map, reverse, append-nil, append_assoc, arith, dec_lt, ℕ_discrete, ltb, leb, ◌==◌,
  if◌then◌else◌, ltb→lt, lt→ltb, leb→le, ==_iff, tests, Bool-cases, Option-cases, length, get_elem?,
  set, get_or, take, drop, replicate, length-append, length-set, length-take, length-drop,
  length-map, take-append-drop, All, any, keep_if, All-append, All-append_left, All-append_right,
  get_elem?_in_range, lt_of_get_elem?, get_elem?-append_end, All-set, All-get, any-append_end,
  get_elem?-set_self, get_elem?-set_ne,
}

pub record RateLimiter : Type 0 where
  pub limit : ℕ
  pub window : ℕ
  pub request_count : ℕ
  pub last_request_time : ℕ

unfoldable pub set_limit : RateLimiter → ℕ → RateLimiter
set_limit l limit = record l { limit = limit }

unfoldable pub set_window : RateLimiter → ℕ → RateLimiter
set_window l window = record l { window = window }

-- the limiter after the question, and the answer
unfoldable pub has_limit_exceeded : RateLimiter → ℕ → RateLimiter × Bool
has_limit_exceeded l current_time =
    let fresh =
      if ltb l.window (current_time - l.last_request_time)
      then record l { request_count = 0; last_request_time = current_time }
      else l in
    (fresh, leb fresh.limit fresh.request_count)

-- A count of requests does not reach `2 ^ 64`; it wraps there.
unfoldable pub increase : RateLimiter → RateLimiter
increase l = record l { request_count = (l.request_count + 1) % 2 ^ 64 }

-- `duration` in milliseconds
unfoldable pub builder : ℕ → ℕ → RateLimiter
builder count duration = record {
  limit = count;
  window = duration % 2 ^ 64;
  request_count = 0;
  last_request_time = 0;
}
