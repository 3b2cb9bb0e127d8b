-- ===== src/Tests/Api.antt =====
-- The API client, its limiter, caches and metrics, and the output bound, at concrete inputs.
use better_unraid_mcp.Base.{
  ℕ, zero, suc, ◌+◌, ◌-◌, ◌*◌, ◌≤◌, ◌<◌, ◌≡◌, refl, u, List, [], ◌∷◌, Bool, true, false, Option,
  some, length, arith, ◌==◌,
}
use better_unraid_mcp.Respond.Truncate.{truncate_json_payload, max_output_chars}
use better_unraid_mcp.Respond.Truncate.Bounds.{truncate_json_payload_bounded}
use better_unraid_mcp.Graphql.TokenBucket.{
  TokenBucket, token, acquire, refill, ms_until_next_token, default_refill_per_second,
  default_max_wait_ms,
}
use better_unraid_mcp.Graphql.TokenBucket.Laws.{start, granted, granted_bounded}
use better_unraid_mcp.Graphql.UnraidClient.{
  ClientError, OperationType, query, mutation, Response, status, envelope, err, World, Finished,
  execute_once, retry_policy_for, is_too_many_requests, execute,
}
use better_unraid_mcp.Graphql.UnraidClient.Laws.{
  Retried, EndsWith, execute_sound, mutation_sent_once,
}
use better_unraid_mcp.Graphql.CachingExecutor.{
  Request, Cache, empty, served, begin, snapshot_ttl_ms,
}
use better_unraid_mcp.Graphql.CachingExecutor.Laws.{Server, Call, AllCurrent, answers_current}
use better_unraid_mcp.Graphql.CachingExecutor.InFlight.{stale_read, crossed}
use better_unraid_mcp.Graphql.LiveStore.{LiveContainerStats, TimestampedContainerStats, Containers}

truncate_json_payload_bounded_example : length (truncate_json_payload (u "{}")) ≤ max_output_chars
unfolding u
truncate_json_payload_bounded_example = truncate_json_payload_bounded (u "{}") (omega arith)

abbrev small_bucket : TokenBucket
small_bucket = record {
  tokens = 2000;
  last_refill_ms = 0;
  capacity = 2;
  refill_per_second = default_refill_per_second;
  max_wait_ms = default_max_wait_ms;
}

granted_bounded_example :
    1 * token
    ≤ 2000 + ((acquire 5 200 small_bucket).1.last_refill_ms - 0) * default_refill_per_second
unfolding acquire refill ms_until_next_token
granted_bounded_example =
    granted_bounded small_bucket
      (record { capacity = omega arith; rate = omega arith; full = omega arith })
      (granted 5 200 start (omega arith) (omega arith) refl)

-- A server that is busy once and then answers.
abbrev respond : ℕ → Response ℕ
respond zero = status 429 (u "Too Many Requests")
respond (suc n) = envelope [] (some 7)

abbrev busy_once : World ℕ
busy_once = record { now = λ i. i * 2000; later = λ i. i * 2000; respond = respond }

execute_sound_example :
    (f : Finished ℕ) × (execute busy_once (some query) small_bucket ≡ some f)
    × (f.sent ≤ 3)
    × ((i : ℕ) → suc i < f.sent → Retried busy_once (retry_policy_for (some query)) i)
    × EndsWith busy_once small_bucket f
execute_sound_example = execute_sound busy_once (some query) small_bucket

abbrev kind : Option OperationType → ℕ
kind (some query) = 1
kind _ = 0

mutation_sent_once_example :
    (f : Finished ℕ) × (execute busy_once (some mutation) small_bucket ≡ some f)
    × (f.sent ≤ 2)
    × (1 < f.sent
        → (e : ClientError) × (execute_once (respond 0) ≡ err e) × (is_too_many_requests e ≡ true))
mutation_sent_once_example =
    mutation_sent_once busy_once (some mutation) small_bucket (λ e. ground arith)

abbrev read_docker : Request
read_docker = record { document = 1; is_mutation = false; variables = u "null" }

abbrev stop_container : Request
stop_container = record { document = 2; is_mutation = true; variables = u "{}" }

abbrev cacheable : ℕ → Bool
cacheable document = document == 1

abbrev server : Server
server = record { version = 4; cache = empty }

abbrev calls : List Call
calls =
    record { now = 0; later = 10; request = read_docker }
    ∷ record { now = 20; later = 30; request = stop_container }
    ∷ record { now = 40; later = 50; request = read_docker }
    ∷ []

answers_current_example : AllCurrent snapshot_ttl_ms cacheable calls server
answers_current_example =
    answers_current snapshot_ttl_ms cacheable calls server
      ((λ e. refl), ((λ e. ground arith), ((λ e. refl), tt))) tt

abbrev read_in_flight : Cache ℕ
read_in_flight = crossed snapshot_ttl_ms cacheable read_docker stop_container empty 4 0 0 10 20

stale_read_example :
    (begin snapshot_ttl_ms cacheable 30 read_docker read_in_flight).0 ≡ served 4 (30 - 20)
stale_read_example =
    stale_read snapshot_ttl_ms cacheable read_docker stop_container empty 4 0 0 10 20 30 refl refl
      refl (omega arith)

abbrev seen_plex : TimestampedContainerStats ℕ
seen_plex = record { stats = record { id = u "plex"; sample = 3 }; seen_at_ms = 1000 }

abbrev seen : Containers ℕ
seen = (u "plex", seen_plex) ∷ []

abbrev nginx_again : LiveContainerStats ℕ
nginx_again = record { id = b'n' ∷ u "ginx"; sample = 5 }
