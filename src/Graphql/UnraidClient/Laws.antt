-- ===== src/Graphql/UnraidClient/Laws.antt =====
-- How often an operation is sent, and when it is sent again.
use better_unraid_mcp.Base.{
  Text, ℕ, zero, suc, ◌+◌, ◌≤◌, ◌<◌, ◌≡◌, refl, ◌≢◌, ◌⊎◌, inl, inr, List, [], ◌∷◌, true, false,
  Option, none, some, sym, Option-cases, arith,
}
use better_unraid_mcp.Effects.{Attempt, returned, thrown}
use better_unraid_mcp.Graphql.TokenBucket.{TokenBucket, acquire}
use better_unraid_mcp.Graphql.UnraidClient.{
  ClientError, other_error, OperationType, query, mutation, subscription, Result, ok, err, World,
  Finished, Rest, Pause, RetryPolicy, execute_once, retry_policy_for, is_too_many_requests,
  is_retryable, delay_before_retry, settle, round, execute_from, execute,
}

-- The attempt failed with an error that the policy retries.
abbrev pub Retried : {D : Type 0} → World D → RetryPolicy → ℕ → Type 0
Retried w policy i =
    (e : ClientError) × (execute_once (w.respond i) ≡ err e) × (is_retryable e policy ≡ true)

-- The bucket after the limiter was asked for so many tokens, one after another.
abbrev pub bucket_at : {D : Type 0} → World D → TokenBucket → ℕ → TokenBucket
bucket_at w b zero = b
bucket_at w b (suc i) = (acquire (w.now i) (w.later i) (bucket_at w b i)).1

-- What the limiter answers before the request of the given number.
abbrev pub grant_at : {D : Type 0} → World D → TokenBucket → ℕ → Attempt (Unit {0})
grant_at w b i = (acquire (w.now i) (w.later i) (bucket_at w b i)).0

-- The result is the response to the last request, or the limiter refused the next one and the result is
-- that refusal.
abbrev pub EndsWith : {D : Type 0} → World D → TokenBucket → Finished D → Type 0
EndsWith w b f =
    ((i : ℕ) × (f.sent ≡ suc i) × (f.result ≡ execute_once (w.respond i)))
    ⊎ ((m : Text) × (grant_at w b f.sent ≡ thrown m) × (f.result ≡ err (other_error m)))

record Sound {D : Type 0} (w : World D) (b : TokenBucket) (policy : RetryPolicy) (first : ℕ)
    (f : Finished D) : Type 0 where
  bounded : f.sent ≤ suc policy.max_retries
  retried : (i : ℕ) → first ≤ i → suc i < f.sent → Retried w policy i
  ends : EndsWith w b f

delay_sound :
    (e : ClientError) (attempt : ℕ) (policy : RetryPolicy) (pause : Pause)
    → delay_before_retry e attempt policy ≡ some pause
    → (attempt < policy.max_retries) × (is_retryable e policy ≡ true)
unfolding delay_before_retry
delay_sound e attempt policy pause h = (ground arith, ground arith)

delay_last :
    (e : ClientError) (attempt : ℕ) (policy : RetryPolicy)
    → policy.max_retries ≤ attempt
    → delay_before_retry e attempt policy ≡ none
unfolding delay_before_retry
delay_last e attempt policy h = ground arith

eq_or_lt : (m n : ℕ) → m ≤ n → (n ≡ m) ⊎ (suc m ≤ n)
eq_or_lt m n h = grind arith

-- One more attempt before a sound run.
Retried-first :
    {D : Type 0} (w : World D) (b : TokenBucket) (policy : RetryPolicy) (attempt : ℕ)
    (f : Finished D)
    → Retried w policy attempt
    → Sound w b policy (suc attempt) f
    → Sound w b policy attempt f
Retried-first w b policy attempt f r s = record {
  bounded = s.bounded;
  retried =
      λ i l m. elim (eq_or_lt attempt i l) [ inl e ↦ rw e r | inr later ↦ s.retried i later m ];
  ends = s.ends;
}

settle-Sound :
    {D : Type 0} (w : World D) (first : TokenBucket) (policy : RetryPolicy) (attempt : ℕ)
    (b : TokenBucket) (pauses : List Pause) (rest : Rest D) (r : Result D)
    → attempt ≤ policy.max_retries
    → execute_once (w.respond attempt) ≡ r
    → (suc attempt ≤ policy.max_retries
        → (ps : List Pause)
        → (f : Finished D) × (rest b ps ≡ some f) × Sound w first policy (suc attempt) f)
    → (f : Finished D) × (settle policy attempt b pauses rest r ≡ some f)
      × Sound w first policy attempt f
unfolding settle
settle-Sound w first policy attempt b pauses rest (ok d) h e ih = (
  _,
  refl,
  record {
    bounded = omega arith;
    retried = λ i l m. absurd (omega arith);
    ends = inl (attempt, refl, sym e);
  },
)
settle-Sound w first policy attempt b pauses rest (err x) h e ih =
    elim (Option-cases (delay_before_retry x attempt policy)) [
      | inl gone ↦ (
        record { result = err x; sent = suc attempt; pauses = pauses },
        rw (gone, settle),
        record {
          bounded = omega arith;
          retried = λ i l m. absurd (omega arith);
          ends = inl (attempt, refl, sym e);
        },
      )
      | inr (pause, again) ↦
          let (below, retryable) = delay_sound x attempt policy pause again in
          let (f, run, s) = ih below (pause ∷ pauses) in
          (f, rw (again, settle) run, Retried-first w first policy attempt f (x, e, retryable) s)
    ]

round-Sound :
    {D : Type 0} (w : World D) (first : TokenBucket) (policy : RetryPolicy) (attempt : ℕ)
    (b : TokenBucket) (pauses : List Pause) (rest : Rest D) (granted : Attempt (Unit {0}))
    → attempt ≤ policy.max_retries
    → grant_at w first attempt ≡ granted
    → (suc attempt ≤ policy.max_retries
        → (ps : List Pause)
        → (f : Finished D) × (rest b ps ≡ some f) × Sound w first policy (suc attempt) f)
    → (f : Finished D) × (round w policy attempt pauses rest granted b ≡ some f)
      × Sound w first policy attempt f
unfolding round
round-Sound w first policy attempt b pauses rest (thrown message) h g ih = (
  _,
  refl,
  record {
    bounded = omega arith;
    retried = λ i l m. absurd (omega arith);
    ends = inr (message, g, refl);
  },
)
round-Sound w first policy attempt b pauses rest (returned done) h g ih =
    settle-Sound w first policy attempt b pauses rest (execute_once (w.respond attempt)) h refl ih

execute_from-Sound :
    {D : Type 0} (w : World D) (first : TokenBucket) (policy : RetryPolicy) (rounds attempt : ℕ)
    (pauses : List Pause)
    → attempt ≤ policy.max_retries
    → policy.max_retries < attempt + rounds
    → (f : Finished D) × (execute_from w policy rounds attempt (bucket_at w first attempt) pauses
        ≡ some f)
      × Sound w first policy attempt f
unfolding execute_from
execute_from-Sound w first policy zero attempt pauses h k = absurd (omega arith)
execute_from-Sound w first policy (suc rounds) attempt pauses h k =
    round-Sound w first policy attempt (bucket_at w first (suc attempt)) pauses
      (λ c ps. execute_from w policy rounds (suc attempt) c ps) (grant_at w first attempt) h refl
      (λ below ps. execute_from-Sound w first policy rounds (suc attempt) ps below (omega arith))

max_retries_le : (operation : Option OperationType) → (retry_policy_for operation).max_retries ≤ 2
unfolding retry_policy_for
max_retries_le none = omega arith
max_retries_le (some query) = omega arith
max_retries_le (some mutation) = omega arith
max_retries_le (some subscription) = omega arith

write_policy :
    (operation : Option OperationType)
    → operation ≢ some query
    → ((retry_policy_for operation).max_retries ≡ 1)
      × ((retry_policy_for operation).retry_server_errors ≡ false)
unfolding retry_policy_for
write_policy none h = (refl, refl)
write_policy (some query) h = absurd (h refl)
write_policy (some mutation) h = (refl, refl)
write_policy (some subscription) h = (refl, refl)

only_429 :
    (e : ClientError) (policy : RetryPolicy)
    → policy.retry_server_errors ≡ false
    → is_retryable e policy ≡ true
    → is_too_many_requests e ≡ true
unfolding is_retryable
only_429 e policy h k = ground arith

execute_ends :
    {D : Type 0} (w : World D) (operation : Option OperationType) (b : TokenBucket)
    → (f : Finished D) × (execute w operation b ≡ some f)
      × Sound w b (retry_policy_for operation) 0 f
unfolding execute
execute_ends w operation b =
    execute_from-Sound w b (retry_policy_for operation) 3 0 [] (omega arith)
      (omega (arith, max_retries_le operation))

-- `execute` ends: three rounds are enough for every operation. It sends at most three requests; each
-- but the last was answered with an error that the operation's policy retries; and its result is the
-- answer to the last request, or, where the limiter refused another, that refusal.
pub execute_sound :
    {D : Type 0} (w : World D) (operation : Option OperationType) (b : TokenBucket)
    → (f : Finished D) × (execute w operation b ≡ some f)
      × (f.sent ≤ 3)
      × ((i : ℕ) → suc i < f.sent → Retried w (retry_policy_for operation) i)
      × EndsWith w b f
execute_sound w operation b =
    let (f, run, s) = execute_ends w operation b in
    (
      f,
      run,
      omega (arith, max_retries_le operation, s.bounded),
      (λ i h. s.retried i (omega arith) h),
      s.ends,
    )

-- `execute` ends for an operation that is no query, which is sent at most twice, and a second time
-- only if the first request was answered with 429.
pub mutation_sent_once :
    {D : Type 0} (w : World D) (operation : Option OperationType) (b : TokenBucket)
    → operation ≢ some query
    → (f : Finished D) × (execute w operation b ≡ some f)
      × (f.sent ≤ 2)
      × (1 < f.sent
          → (e : ClientError) × (execute_once (w.respond 0) ≡ err e)
            × (is_too_many_requests e ≡ true))
mutation_sent_once w operation b h =
    let (f, run, s) = execute_ends w operation b in
    let (retries, server) = write_policy operation h in
    (
      f,
      run,
      omega (arith, retries, s.bounded),
      λ again.
          let (e, failed, retryable) = s.retried 0 (omega arith) again in
          (e, failed, only_429 e (retry_policy_for operation) server retryable),
    )
