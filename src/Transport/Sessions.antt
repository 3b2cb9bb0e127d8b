-- ===== src/Transport/Sessions.antt =====
-- transport/http-sessions.ts: the store of live MCP sessions. A request has a part before the
-- transport is awaited and a part after it; the sweeper, the close of a stream and other requests
-- may run in between.
pub mod Reachable
pub mod Laws
use better_unraid_mcp.Base.{
  ℕ, ◌-◌, ◌≡◌, Text, u, List, [], ◌∷◌, Bool, true, false, not, ◌&&◌, ◌||◌, Option, none, some,
  text_eq, ltb, ◌==◌, map, keep, if◌then◌else◌,
}
use better_unraid_mcp.Json.{
  Json, null, bool, num, str, arr, obj, Items, nil, cons, Fields, end, field,
}

abbrev pub session_idle_expiry_ms : ℕ
session_idle_expiry_ms = 300000

-- A transport and the server connected to it are known by one number.
pub record SessionRecord : Type 0 where
  pub transport : ℕ
  pub last_seen_at : ℕ
  pub streaming : Bool

-- The map of sessions in the order of insertion, and the transports that were closed, the last first.
pub record SessionStore : Type 0 where
  pub sessions : List (Text × SessionRecord)
  pub closed : List ℕ

pub find_session : Text → List (Text × SessionRecord) → Option SessionRecord
find_session id [] = none
find_session id ((k, record_) ∷ sessions) =
    if text_eq k id then some record_ else find_session id sessions

-- `Map.set`: an old key keeps its place.
pub set_session : Text → SessionRecord → List (Text × SessionRecord) → List (Text × SessionRecord)
set_session id r [] = (id, r) ∷ []
set_session id r ((k, s) ∷ sessions) =
    if text_eq k id then (k, r) ∷ sessions else (k, s) ∷ set_session id r sessions

-- `Map.delete`
pub delete_session : Text → List (Text × SessionRecord) → List (Text × SessionRecord)
delete_session id [] = []
delete_session id ((k, s) ∷ sessions) =
    if text_eq k id then sessions else (k, s) ∷ delete_session id sessions

-- The methods that the store treats apart.
pub data HttpMethod : Type 0 where
  get post delete : HttpMethod

method_is_initialize : Fields → Bool
method_is_initialize end = false
method_is_initialize (field name (str value) fields) =
    if text_eq name (u "method")
    then text_eq value (u "initialize")
    else method_is_initialize fields
method_is_initialize (field name _ fields) =
    if text_eq name (u "method") then false else method_is_initialize fields

is_initialize_message : Json → Bool
unfolding method_is_initialize
is_initialize_message (obj fields) = method_is_initialize fields
is_initialize_message _ = false

some_initialize : Items → Bool
unfolding is_initialize_message
some_initialize nil = false
some_initialize (cons message items) = is_initialize_message message || some_initialize items

-- The body of a request, if it has one.
pub is_initialize_request : Option Json → Bool
unfolding is_initialize_message some_initialize
is_initialize_request none = false
is_initialize_request (some (arr items)) = some_initialize items
is_initialize_request (some body) = is_initialize_message body

-- A header that is no string is `none` as well.
read_session_id : Option Text → Option Text
read_session_id (some (c ∷ cs)) = some (c ∷ cs)
read_session_id _ = none

-- Where a request goes: an answer of the store itself, with its status, the transport of a session,
-- or a new pair of server and transport.
pub data Routed : Type 0 where
  session_error : ℕ → Text → Routed
  to_transport : ℕ → Routed
  new_session : Routed

pub record SessionRequest : Type 0 where
  pub method : HttpMethod
  pub session_id : Option Text
  pub body : Option Json

-- What `handleExisting` writes to the record before the transport gets the request: a `GET` opens
-- the event stream.
touch : ℕ → HttpMethod → SessionRecord → SessionRecord
touch now get r = record r { last_seen_at = now; streaming = true }
touch now _ r = record r { last_seen_at = now }

-- `handleExisting` up to its `await`
handle_existing : ℕ → HttpMethod → Text → SessionStore → Routed × SessionStore
unfolding touch
handle_existing now method id s = elim (find_session id s.sessions) [
  | none ↦ (session_error 404 (u "Session not found or expired"), s)
  | some r ↦ (
    to_transport r.transport,
    record s { sessions = set_session id (touch now method r) s.sessions },
  )
]

-- `handle` up to its `await`
pub handle : ℕ → SessionRequest → SessionStore → Routed × SessionStore
unfolding handle_existing
handle now request s = elim (read_session_id request.session_id) [
  | some id ↦ handle_existing now request.method id s
  | none ↦
      if is_initialize_request request.body
      then (new_session, s)
      else (session_error 400 (u "Missing mcp-session-id header; initialize a session first"), s)
]

-- The session is forgotten first, then its pair is closed; a failure to close is logged only.
pub remove : Text → SessionStore → SessionStore
remove id s = elim (find_session id s.sessions) [
  | none ↦ s
  | some r ↦ record { sessions = delete_session id s.sessions; closed = r.transport ∷ s.closed }
]

-- The rest of `handleExisting`, when the transport has answered.
pub handled : HttpMethod → Text → SessionStore → SessionStore
handled delete id s = remove id s
handled _ id s = s

-- `onInitialized`, which the transport calls with its new session id.
pub initialized : ℕ → ℕ → Text → SessionStore → SessionStore
initialized now transport id s = record s {
  sessions =
      set_session id (record { transport = transport; last_seen_at = now; streaming = false })
        s.sessions;
}

-- The rest of `createSession`: a pair that was not initialized is closed.
pub created : Bool → ℕ → SessionStore → SessionStore
created true transport s = s
created false transport s = record s { closed = transport ∷ s.closed }

pub stop_streaming : ℕ → ℕ → Text × SessionRecord → Text × SessionRecord
stop_streaming now transport (id, r) =
    if r.transport == transport
    then (id, record r { last_seen_at = now; streaming = false })
    else (id, r)

-- The listener of `trackStream` on the close of a response, for the record of this transport.
pub stream_closed : ℕ → ℕ → SessionStore → SessionStore
stream_closed now transport s = record s {
  sessions = map (stop_streaming now transport) s.sessions;
}

pub is_expired : ℕ → SessionRecord → Bool
is_expired now r = not r.streaming && ltb session_idle_expiry_ms (now - r.last_seen_at)

-- The loop of `sweep` over the entries that the map holds when it starts.
sweep_each : ℕ → List (Text × SessionRecord) → SessionStore → SessionStore
sweep_each now [] s = s
sweep_each now ((id, r) ∷ sessions) s =
    sweep_each now sessions (if is_expired now r then remove id s else s)

pub sweep : ℕ → SessionStore → SessionStore
sweep now s = sweep_each now s.sessions s
