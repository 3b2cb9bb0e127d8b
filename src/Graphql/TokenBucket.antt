-- ===== src/Graphql/TokenBucket.antt =====
-- graphql/rate-limit.ts: the client-side token bucket. Time is in milliseconds. Tokens are held in
-- thousandths, in which the refill of `elapsed ms * tokens per second` is a whole number, so the
-- floating-point numbers of the source are exact integers here. A reading of the clock is not
-- before the one that precedes it.
pub mod Laws
use better_unraid_mcp.Base.{
  ℕ, ◌+◌, ◌-◌, ◌*◌, ◌/◌, ◌≤◌, ◌≡◌, refl, Text, u, ◌++◌, decimal, leb, ltb, if◌then◌else◌, min,
}
use better_unraid_mcp.Effects.{Attempt, returned, thrown}

-- One token.
abbrev pub token : ℕ
token = 1000

pub record TokenBucket : Type 0 where
  pub tokens : ℕ
  pub last_refill_ms : ℕ
  pub capacity : ℕ
  pub refill_per_second : ℕ
  pub max_wait_ms : ℕ

abbrev pub default_capacity : ℕ
default_capacity = 90

abbrev pub default_refill_per_second : ℕ
default_refill_per_second = 9

abbrev pub default_max_wait_ms : ℕ
default_max_wait_ms = 10000

-- `new TokenBucket({})` at a reading of the clock: the bucket starts full.
pub new_bucket : ℕ → TokenBucket
new_bucket now = record {
  tokens = default_capacity * token;
  last_refill_ms = now;
  capacity = default_capacity;
  refill_per_second = default_refill_per_second;
  max_wait_ms = default_max_wait_ms;
}

unfoldable pub refill : ℕ → TokenBucket → TokenBucket
refill now b = record b {
  tokens = min (b.capacity * token) (b.tokens + (now - b.last_refill_ms) * b.refill_per_second);
  last_refill_ms = now;
}

-- `Math.ceil(((1 - tokens) / refillPerSecond) * 1000)`, for a bucket with less than one token.
unfoldable pub ms_until_next_token : TokenBucket → ℕ
ms_until_next_token b = (token - b.tokens + b.refill_per_second - 1) / b.refill_per_second

pub wait_error : ℕ → ℕ → Text
wait_error wait_ms max_wait_ms =
    u "Rate limit: next request slot is "
    ++ (decimal wait_ms
        ++ (u " ms away, over the max wait of "
            ++ (decimal max_wait_ms ++ u " ms. Slow down and retry.")))

unfoldable pub take_token : TokenBucket → TokenBucket
take_token b = record b { tokens = b.tokens - token }

-- `acquire`, by two readings of the clock: `now` at the call, and `later` after the sleep if there
-- is one. `Math.max(this.tokens - 1, 0)` after the sleep is the subtraction of natural numbers.
unfoldable pub acquire : ℕ → ℕ → TokenBucket → Attempt (Unit {0}) × TokenBucket
acquire now later b =
    let filled = refill now b in
    if leb token filled.tokens
    then (returned tt, take_token filled)
    else if ltb filled.max_wait_ms (ms_until_next_token filled)
    then (thrown (wait_error (ms_until_next_token filled) filled.max_wait_ms), filled)
    else (returned tt, take_token (refill later filled))
