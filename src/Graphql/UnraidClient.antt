-- ===== src/Graphql/UnraidClient.antt =====
-- graphql/client.ts and the response handling of graphql/execute.ts: one typed operation behind the
-- rate limiter, with its retries.
pub mod Laws
use better_unraid_mcp.Base.{
  ℕ, zero, suc, ◌+◌, ◌*◌, ◌^◌, Text, u, ◌++◌, List, [], ◌∷◌, Bool, true, false, not, ◌&&◌, ◌||◌,
  Option, none, some, decimal, join, leb, ◌==◌, if◌then◌else◌,
}
use better_unraid_mcp.Effects.{Attempt, returned, thrown}
use better_unraid_mcp.Graphql.TokenBucket.{TokenBucket, acquire}

-- What a request can throw. `not_an_error` is a value that is no `Error`.
pub data ClientError : Type 0 where
  api_error : Text → ClientError
  http_status_error : ℕ → Text → ClientError
  other_error : Text → ClientError
  not_an_error : Text → ClientError

-- The document's first operation, if it has one.
pub data OperationType : Type 0 where
  query mutation subscription : OperationType

-- What `fetch` and the body's JSON come to: the request is cut off by its deadline, it fails with
-- some thrown value, it is answered outside 2xx, or it is answered with an envelope.
pub data Response (D : Type 0) : Type 0 where
  timed_out : Response D
  failed : ClientError → Response D
  status : ℕ → Text → Response D
  envelope : List Text → Option D → Response D

pub data Result (D : Type 0) : Type 0 where
  ok : D → Result D
  err : ClientError → Result D

abbrev pub request_timeout_ms : ℕ
request_timeout_ms = 30000

timeout_message : Text
timeout_message = u "Unraid API request timed out after " ++ (decimal request_timeout_ms ++ u " ms")

status_message : ℕ → Text → Text
status_message code status_text = u "Unraid API HTTP " ++ (decimal code ++ (u " " ++ status_text))

data_or_error : {D : Type 0} → Option D → Result D
data_or_error none = err (api_error (u "Unraid API returned no data"))
data_or_error (some d) = ok d

-- `executeOnce` on top of `executeGraphQL`.
pub execute_once : {D : Type 0} → Response D → Result D
unfolding data_or_error
execute_once timed_out = err (other_error timeout_message)
execute_once (failed e) = err e
execute_once (status code status_text) =
    err (http_status_error code (status_message code status_text))
execute_once (envelope [] d) = data_or_error d
execute_once (envelope (e ∷ es) d) = err (api_error (join (u "; ") (e ∷ es)))

pub record RetryPolicy : Type 0 where
  pub max_retries : ℕ
  pub retry_server_errors : Bool

is_query : Option OperationType → Bool
is_query (some query) = true
is_query _ = false

pub retry_policy_for : Option OperationType → RetryPolicy
unfolding is_query
retry_policy_for operation =
    if is_query operation
    then record { max_retries = 2; retry_server_errors = true }
    else record { max_retries = 1; retry_server_errors = false }

pub is_too_many_requests : ClientError → Bool
is_too_many_requests (http_status_error code message) = code == 429
is_too_many_requests _ = false

-- `isRetryable` for an error that is not a 429.
retryable_for_query : ClientError → Bool
retryable_for_query (api_error message) = false
retryable_for_query (http_status_error code message) = leb 500 code
retryable_for_query (other_error message) = true
retryable_for_query (not_an_error message) = false

pub is_retryable : ClientError → RetryPolicy → Bool
unfolding is_too_many_requests retryable_for_query
is_retryable e policy =
    if is_too_many_requests e
    then true
    else if not policy.retry_server_errors
    then false
    else retryable_for_query e

-- The sleep before another attempt: a second after a 429, else a base in milliseconds that is
-- scaled by 0.5 plus a random number below 1.
pub data Pause : Type 0 where
  retry_delay : Pause
  jittered : ℕ → Pause

abbrev pub retry_delay_ms : ℕ
retry_delay_ms = 1000

abbrev pub retry_base_delay_ms : ℕ
retry_base_delay_ms = 250

-- `delayBeforeRetry`: `none` where it rethrows.
pub delay_before_retry : ClientError → ℕ → RetryPolicy → Option Pause
delay_before_retry e attempt policy =
    if leb policy.max_retries attempt || not (is_retryable e policy)
    then none
    else if is_too_many_requests e
    then some retry_delay
    else some (jittered (retry_base_delay_ms * 2 ^ attempt))

-- Two readings of the clock for the limiter, and the server's response, at each attempt.
pub record World (D : Type 0) : Type 0 where
  pub now : ℕ → ℕ
  pub later : ℕ → ℕ
  pub respond : ℕ → Response D

-- The end of `execute`: its result, the number of requests that were sent, and the sleeps.
pub record Finished (D : Type 0) : Type 0 where
  pub result : Result D
  pub sent : ℕ
  pub pauses : List Pause

abbrev Rest : Type 0 → Type 0
Rest D = TokenBucket → List Pause → Option (Finished D)

settle :
    {D : Type 0}
    → RetryPolicy
    → ℕ
    → TokenBucket
    → List Pause
    → Rest D
    → Result D
    → Option (Finished D)
settle policy attempt b pauses rest (ok d) =
    some (record { result = ok d; sent = suc attempt; pauses = pauses })
settle policy attempt b pauses rest (err e) = elim (delay_before_retry e attempt policy) [
  | none ↦ some (record { result = err e; sent = suc attempt; pauses = pauses })
  | some pause ↦ rest b (pause ∷ pauses)
]

-- One round of the loop, from what the limiter answers. An error of the limiter is not caught.
round :
    {D : Type 0}
    → World D
    → RetryPolicy
    → ℕ
    → List Pause
    → Rest D
    → Attempt (Unit {0})
    → TokenBucket
    → Option (Finished D)
unfolding settle
round w policy attempt pauses rest (thrown message) b =
    some (record { result = err (other_error message); sent = attempt; pauses = pauses })
round w policy attempt pauses rest (returned done) b =
    settle policy attempt b pauses rest (execute_once (w.respond attempt))

-- The endless `for` loop, by the rounds left; `none` means that they ran out.
pub execute_from :
    {D : Type 0} → World D → RetryPolicy → ℕ → ℕ → TokenBucket → List Pause → Option (Finished D)
unfolding round
execute_from w policy zero attempt b pauses = none
execute_from w policy (suc rounds) attempt b pauses =
    let (granted, b') = acquire (w.now attempt) (w.later attempt) b in
    round w policy attempt pauses (λ c ps. execute_from w policy rounds (suc attempt) c ps) granted
      b'

pub execute : {D : Type 0} → World D → Option OperationType → TokenBucket → Option (Finished D)
execute w operation b = execute_from w (retry_policy_for operation) 3 0 b []
