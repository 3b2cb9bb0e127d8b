-- ===== src/Graphql/TokenBucket/Laws.antt =====
-- What the token bucket promises to the server behind it.
use better_unraid_mcp.Base.{
  ℕ, ◌+◌, ◌-◌, ◌*◌, ◌/◌, ◌≤◌, ◌<◌, ◌≡◌, refl, inl, inr, leb, ltb, Bool-cases, arith, suc, Text, ap,
  leb→le,
}
use better_unraid_mcp.Effects.{returned, thrown}
use better_unraid_mcp.Graphql.TokenBucket.{
  token, TokenBucket, refill, ms_until_next_token, acquire, take_token, default_refill_per_second,
  default_max_wait_ms,
}

-- A caller that acquires again and again from a bucket, and how many of its calls were granted. The
-- clock does not go back, and a sleep lasts at least as long as it was asked to.
pub data Run (b : TokenBucket) : ℕ → TokenBucket → Type 0 where
  start : Run b 0 b
  granted :
      {n : ℕ} {c : TokenBucket} (now later : ℕ)
      → Run b n c
      → c.last_refill_ms ≤ now
      → now + ms_until_next_token (refill now c) ≤ later
      → (acquire now later c).0 ≡ returned tt
      → Run b (suc n) (acquire now later c).1
  rejected :
      {n : ℕ} {c : TokenBucket} (now later : ℕ) (message : Text)
      → Run b n c
      → c.last_refill_ms ≤ now
      → (acquire now later c).0 ≡ thrown message
      → Run b n (acquire now later c).1

-- Rounding up a quotient: enough time passes for the rest of a token.
ceil_mul : (x r : ℕ) → 0 < r → x ≤ (x + r - 1) / r * r
ceil_mul x r h = grind arith

-- What a run keeps: the configuration, and the account of the tokens that were spent.
record Account (b : TokenBucket) (n : ℕ) (c : TokenBucket) : Type 0 where
  capacity : c.capacity ≡ b.capacity
  rate : c.refill_per_second ≡ b.refill_per_second
  time : b.last_refill_ms ≤ c.last_refill_ms
  spent :
      n * token + c.tokens ≤ b.tokens + (c.last_refill_ms - b.last_refill_ms) * b.refill_per_second
  full : c.tokens ≤ c.capacity * token

mul_mono_left : (x y r : ℕ) → x ≤ y → x * r ≤ y * r
mul_mono_left x y r h = grind arith

elapsed_add : (t s now r : ℕ) → t ≤ s → s ≤ now → (now - t) * r ≡ (s - t) * r + (now - s) * r
elapsed_add t s now r h k =
    let e : now - t ≡ (s - t) + (now - s) = omega arith in rw e (omega arith)

refill-Account :
    (b c : TokenBucket) (n now : ℕ)
    → Account b n c
    → c.last_refill_ms ≤ now
    → Account b n (refill now c)
unfolding refill
refill-Account b c n now a h = record {
  capacity = a.capacity;
  rate = a.rate;
  time = omega arith;
  spent = omega (
    arith,
    elapsed_add b.last_refill_ms c.last_refill_ms now b.refill_per_second a.time h,
    ap (λ (r : ℕ). (now - c.last_refill_ms) * r) a.rate,
  );
  full = omega arith;
}

take_token-Account :
    (b c : TokenBucket) (n : ℕ)
    → Account b n c
    → token ≤ c.tokens
    → Account b (suc n) (take_token c)
unfolding take_token
take_token-Account b c n a h = record {
  capacity = a.capacity;
  rate = a.rate;
  time = a.time;
  spent = omega (arith, a.spent);
  full = omega (arith, a.full);
}

-- After the sleep there is a whole token.
slept :
    (c : TokenBucket) (now later : ℕ)
    → 0 < c.refill_per_second
    → 0 < c.capacity
    → now + ms_until_next_token (refill now c) ≤ later
    → token ≤ (refill later (refill now c)).tokens
unfolding refill ms_until_next_token
slept c now later h k l = omega (
  arith,
  ceil_mul (token - (refill now c).tokens) c.refill_per_second h,
  mul_mono_left (ms_until_next_token (refill now c)) (later - now) c.refill_per_second
      (omega arith),
)

pub record IsWorking (b : TokenBucket) : Type 0 where
  pub capacity : 0 < b.capacity
  pub rate : 0 < b.refill_per_second
  pub full : b.tokens ≤ b.capacity * token

last_refill : (c : TokenBucket) (now : ℕ) → (refill now c).last_refill_ms ≡ now
unfolding refill
last_refill c now = refl

granted-Account :
    (b c : TokenBucket) (n now later : ℕ)
    → IsWorking b
    → Account b n c
    → c.last_refill_ms ≤ now
    → now + ms_until_next_token (refill now c) ≤ later
    → (acquire now later c).0 ≡ returned tt
    → Account b (suc n) (acquire now later c).1
unfolding acquire
granted-Account b c n now later w a h l e =
    let filled = refill-Account b c n now a h in
    elim (Bool-cases (leb token (refill now c).tokens)) [
      | inl enough ↦
          rw (enough, acquire) (take_token-Account b (refill now c) n filled (leb→le _ _ enough))
      | inr empty ↦
          elim (Bool-cases (ltb (refill now c).max_wait_ms (ms_until_next_token (refill now c)))) [
            | inl long ↦ absurd (ground arith)
            | inr short ↦
                rw (empty, short, acquire)
                  (take_token-Account b _ n
                    (refill-Account b (refill now c) n later filled
                      (omega (arith, last_refill c now)))
                    (slept c now later (omega (arith, a.rate, w.rate))
                      (omega (arith, a.capacity, w.capacity)) l))
          ]
    ]

rejected-Account :
    (b c : TokenBucket) (n now later : ℕ) (message : Text)
    → Account b n c
    → c.last_refill_ms ≤ now
    → (acquire now later c).0 ≡ thrown message
    → Account b n (acquire now later c).1
unfolding acquire
rejected-Account b c n now later message a h e =
    elim (Bool-cases (leb token (refill now c).tokens)) [
      | inl enough ↦ absurd (ground arith)
      | inr empty ↦
          elim (Bool-cases (ltb (refill now c).max_wait_ms (ms_until_next_token (refill now c)))) [
            | inl long ↦ rw (empty, long, acquire) (refill-Account b c n now a h)
            | inr short ↦ absurd (ground arith)
          ]
    ]

Run-Account : (b : TokenBucket) {n : ℕ} {c : TokenBucket} → IsWorking b → Run b n c → Account b n c
Run-Account b w start = record {
  capacity = refl;
  rate = refl;
  time = omega arith;
  spent = omega arith;
  full = w.full;
}
Run-Account b w (granted now later run h l e) =
    granted-Account b _ _ now later w (Run-Account b w run) h l e
Run-Account b w (rejected now later message run h e) =
    rejected-Account b _ _ now later message (Run-Account b w run) h e

-- For calls that follow one another, each at its own moment, the calls that are granted by any
-- moment number at most the tokens that the bucket held at the start and the tokens that the elapsed time refilled, if the
-- clock does not go back and a sleep lasts as long as it was asked to.
pub granted_bounded :
    (b : TokenBucket) {n : ℕ} {c : TokenBucket}
    → IsWorking b
    → Run b n c
    → n * token ≤ b.tokens + (c.last_refill_ms - b.last_refill_ms) * b.refill_per_second
granted_bounded b w run = let a = Run-Account b w run in omega (arith, a.spent)

-- With the default configuration a call never throws: the next token is at most 112 ms away, below
-- the bound on the wait.
pub default_never_rejects :
    (b : TokenBucket) (now later : ℕ)
    → b.refill_per_second ≡ default_refill_per_second
    → b.max_wait_ms ≡ default_max_wait_ms
    → ((acquire now later b).0 ≡ returned tt) × (ms_until_next_token (refill now b) ≤ 112)
unfolding acquire ms_until_next_token refill
default_never_rejects b now later r m = (ground arith, ground arith)
