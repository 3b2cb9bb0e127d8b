-- ===== src/Tests/Endpoint.antt =====
-- The HTTP endpoint, its sessions and the shell executor at concrete inputs.
use better_unraid_mcp.Base.{
  ℕ, ◌≡◌, refl, Text, u, List, [], ◌∷◌, ◌++◌, false, Option, some, keep, length, ltb, text_eq,
  if◌then◌else◌, arith,
}
use better_unraid_mcp.Transport.Http.{
  HttpRequest, too_large, parse_body, read_json_body, answered, handled, Endpoint, route_request,
  is_supported_method, normalize_path, drop_last_slash, request_url, request_body, collect, is_post,
}
use better_unraid_mcp.Transport.Http.Laws.{read_json_body-whole, authorized_iff, route_handled_iff}
use better_unraid_mcp.Transport.Sessions.{SessionRecord, sweep, stream_closed}
use better_unraid_mcp.Transport.Sessions.Reachable.{Event, on_initialized, after}
use better_unraid_mcp.Transport.Sessions.Laws.{
  is_alive, close_expired, sweep_exact, open_stream, only, second_stream_swept,
}
use better_unraid_mcp.Shell.Executor.Laws.{
  at_start, starts, idle, started, IsSound, Reachable-IsSound,
}

abbrev parse : List ℕ → Option ℕ
parse bytes = some (length bytes)

read_json_body-whole_example :
    read_json_body parse 3 ((1 ∷ 2 ∷ []) ∷ (3 ∷ 4 ∷ []) ∷ [])
    ≡ (if ltb 3 4 then too_large else parse_body parse (1 ∷ 2 ∷ 3 ∷ 4 ∷ []))
read_json_body-whole_example = read_json_body-whole parse 3 ((1 ∷ 2 ∷ []) ∷ (3 ∷ 4 ∷ []) ∷ [])

abbrev digest : Text → Text
digest token = token

abbrev header : Text
header = u "Bearer " ++ u "s3cret"

abbrev endpoint : Endpoint ℕ ℕ
endpoint = record {
  sessions = false;
  bearer_token = some (u "s3cret");
  pathname = λ url. some url;
  digest = digest;
  parse = parse;
  serve = λ request body. answered 42;
}

abbrev request : HttpRequest
request = record {
  method = some (u "POST");
  url = some (u "/mcp");
  authorization = some header;
  chunks = (7 ∷ []) ∷ [];
}

route_handled_iff_example : route_request endpoint request ≡ handled 42
unfolding u text_eq is_supported_method normalize_path drop_last_slash request_url request_body
    read_json_body parse_body collect is_post
route_handled_iff_example = (route_handled_iff endpoint request 42).1 (
  (
    refl,
    (
      (u "/mcp", refl, refl),
      (authorized_iff digest (some header) (u "s3cret")).1 (u "s3cret", refl, refl),
    ),
  ),
  (some 1, refl, refl),
)

abbrev events : List Event
events = on_initialized 1000 9 (u "abc") ∷ []

sweep_exact_example :
    ((sweep 400000 (after events)).sessions ≡ keep (is_alive 400000) (after events).sessions)
    × ((sweep 400000 (after events)).closed
        ≡ close_expired 400000 (after events).sessions (after events).closed)
sweep_exact_example = sweep_exact events 400000

abbrev session : SessionRecord
session = record { transport = 9; last_seen_at = 1000; streaming = false }

second_stream_swept_example :
    sweep 400000 (
      stream_closed 3000 9 (
        open_stream 2000
          (b'a' ∷ u "bc")
          (open_stream 1500 (b'a' ∷ u "bc") (only (b'a' ∷ u "bc") session))))
    ≡ record { sessions = []; closed = 9 ∷ [] }
second_stream_swept_example =
    second_stream_swept b'a' (u "bc") session 1500 2000 3000 400000 (omega arith)

Reachable-IsSound_example : IsSound (started 2 (started 1 idle))
Reachable-IsSound_example =
    Reachable-IsSound (started 2 (started 1 idle))
      (starts 2 (started 1 idle) (starts 1 idle at_start))
